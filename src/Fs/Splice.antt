-- ===== src/Fs/Splice.antt =====
-- Reading and writing parts of a byte string, position by position.
use rust_croc.Common.{
  ℕ, zero, suc, ◌+◌, ◌≤◌, ◌<◌, ◌≡◌, refl, ap, Bool, ◌&&◌, [], ◌∷◌, ◌++◌, length, length-append,
  length-take, length-drop, take, drop, get_elem?, Bytes, arith, leb, ltb, if◌then◌else◌,
}
use rust_croc.Files.{splice}

-- The n bytes of a file from an offset on.
abbrev pub part : ℕ → ℕ → Bytes → Bytes
part offset n f = take n (drop offset f)

-- Whether a place lies in those.
abbrev pub within : ℕ → ℕ → ℕ → Bool
within offset n i = leb offset i && ltb i (offset + n)

pub length-part : (offset n : ℕ) (f : Bytes) → offset + n ≤ length f → length (part offset n f) ≡ n
length-part offset n f h = omega (arith, length-take n (drop offset f), length-drop offset f)

pub length-splice :
    (offset : ℕ) (bs f : Bytes)
    → offset + length bs ≤ length f
    → length (splice offset bs f) ≡ length f
length-splice offset bs f h = omega (
  arith,
  length-append (take offset f) (bs ++ drop (offset + length bs) f),
  length-append bs (drop (offset + length bs) f),
  length-take offset f,
  length-drop (offset + length bs) f,
)

-- The same write by recursion.
over : ℕ → Bytes → Bytes → Bytes
over offset bs [] = []
over zero [] (y ∷ g) = y ∷ g
over zero (b ∷ bs) (y ∷ g) = b ∷ over zero bs g
over (suc offset) bs (y ∷ g) = y ∷ over offset bs g

splice-over :
    (offset : ℕ) (bs g : Bytes)
    → offset + length bs ≤ length g
    → splice offset bs g ≡ over offset bs g
unfolding over
splice-over zero [] [] h = refl
splice-over (suc offset) bs [] h = absurd (omega arith)
splice-over zero (b ∷ bs) [] h = absurd (omega arith)
splice-over zero [] (y ∷ g) h = refl
splice-over zero (b ∷ bs) (y ∷ g) h =
    let step : 0 + suc (length bs) ≡ suc (0 + length bs) = omega arith in
    rw step (ap (◌∷◌ b) (splice-over zero bs g (omega arith)))
splice-over (suc offset) bs (y ∷ g) h =
    let step : suc offset + length bs ≡ suc (offset + length bs) = omega arith in
    rw step (ap (◌∷◌ y) (splice-over offset bs g (omega arith)))

get_elem?-over :
    (offset n : ℕ) (f g : Bytes) (i : ℕ)
    → offset + n ≤ length f
    → length g ≡ length f
    → get_elem? (over offset (part offset n f) g) i
      ≡ (if within offset n i then get_elem? f i else get_elem? g i)
unfolding over
get_elem?-over offset n [] [] i h e = ground arith
get_elem?-over offset n (x ∷ f) [] i h e = absurd (omega arith)
get_elem?-over offset n [] (y ∷ g) i h e = absurd (omega arith)
get_elem?-over zero zero (x ∷ f) (y ∷ g) i h e = ground arith
get_elem?-over zero (suc n) (x ∷ f) (y ∷ g) zero h e = ground arith
get_elem?-over zero (suc n) (x ∷ f) (y ∷ g) (suc i) h e =
    ground (arith, get_elem?-over zero n f g i)
get_elem?-over (suc offset) n (x ∷ f) (y ∷ g) zero h e = ground arith
get_elem?-over (suc offset) n (x ∷ f) (y ∷ g) (suc i) h e =
    ground (arith, get_elem?-over offset n f g i)

-- A part of one file written over another at the same place: there the bytes are those of the
-- first file, elsewhere they stay.
pub get_elem?-splice-part :
    (offset n : ℕ) (f g : Bytes) (i : ℕ)
    → offset + n ≤ length f
    → length g ≡ length f
    → get_elem? (splice offset (part offset n f) g) i
      ≡ (if within offset n i then get_elem? f i else get_elem? g i)
get_elem?-splice-part offset n f g i h e =
    rw (splice-over offset (part offset n f) g (omega (arith, length-part offset n f h)))
      (get_elem?-over offset n f g i h e)

-- Files are equal if they agree at every place.
pub eq_of_get_elem? :
    (f g : Bytes)
    → length f ≡ length g
    → ((i : ℕ) → i < length g → get_elem? f i ≡ get_elem? g i)
    → f ≡ g
eq_of_get_elem? [] [] e h = refl
eq_of_get_elem? [] (y ∷ g) e h = absurd (omega arith)
eq_of_get_elem? (x ∷ f) [] e h = absurd (omega arith)
eq_of_get_elem? (x ∷ f) (y ∷ g) e h =
    let first : x ≡ y = cc (h 0 (omega arith)) in
    rw first (ap (◌∷◌ y) (eq_of_get_elem? f g (omega arith) (λ i lt. h (suc i) (omega arith))))
