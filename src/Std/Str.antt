-- ===== src/Std/Str.antt =====
-- `str::contains`, `split`, `trim`, `Vec::join` and `u16::to_string`, on UTF-8 bytes.
use mathlib.Core.List.{reverse}
use rust_croc.Common.{
  ℕ, zero, suc, ◌+◌, ◌-◌, ◌/◌, ◌%◌, ◌≤◌, ◌≡◌, ◌≢◌, ◌∙◌, refl, sym, ap, Bool, true, false, ◌&&◌,
  ◌||◌, get_elem?, Bool-cases, inl, inr, Option, none, some, List, [], ◌∷◌, ◌++◌, append_assoc,
  append-nil, map, All, length, drop, Bytes, ltb, ◌==◌, if◌then◌else◌, arith, dec_lt, lt→ltb,
  le→ltb,
}

unfoldable pub starts_with : Bytes → Bytes → Bool
starts_with [] s = true
starts_with (p ∷ ps) [] = false
starts_with (p ∷ ps) (c ∷ s) = c == p && starts_with ps s

unfoldable pub contains : Bytes → Bytes → Bool
unfolding starts_with
contains pattern_ [] = starts_with pattern_ []
contains pattern_ (c ∷ s) = starts_with pattern_ (c ∷ s) || contains pattern_ s

-- `split` by a pattern that is not empty: the bytes of the pattern still to skip, the piece so far,
-- the rest.
split_from : Bytes → ℕ → Bytes → Bytes → List Bytes
split_from pattern_ skip piece [] = piece ∷ []
split_from pattern_ (suc k) piece (c ∷ s) = split_from pattern_ k piece s
split_from pattern_ zero piece (c ∷ s) = elim (starts_with pattern_ (c ∷ s)) [
  | true ↦ piece ∷ split_from pattern_ (length pattern_ - 1) [] s
  | false ↦ split_from pattern_ zero (piece ++ (c ∷ [])) s
]

unfoldable pub split : Bytes → Bytes → List Bytes
unfolding split_from starts_with
split pattern_ s = split_from pattern_ zero [] s

unfoldable pub join : Bytes → List Bytes → Bytes
join sep [] = []
join sep (x ∷ []) = x
join sep (x ∷ y ∷ ys) = x ++ (sep ++ join sep (y ∷ ys))

-- The characters of Unicode's `White_Space`, in UTF-8.
abbrev white_space : List Bytes
white_space =
    (9 ∷ [])
    ∷ (10 ∷ [])
    ∷ (11 ∷ [])
    ∷ (12 ∷ [])
    ∷ (13 ∷ [])
    ∷ (32 ∷ [])
    ∷ (0xc2 ∷ 0x85 ∷ [])
    ∷ (0xc2 ∷ 0xa0 ∷ [])
    ∷ (0xe1 ∷ 0x9a ∷ 0x80 ∷ [])
    ∷ (0xe2 ∷ 0x80 ∷ 0x80 ∷ [])
    ∷ (0xe2 ∷ 0x80 ∷ 0x81 ∷ [])
    ∷ (0xe2 ∷ 0x80 ∷ 0x82 ∷ [])
    ∷ (0xe2 ∷ 0x80 ∷ 0x83 ∷ [])
    ∷ (0xe2 ∷ 0x80 ∷ 0x84 ∷ [])
    ∷ (0xe2 ∷ 0x80 ∷ 0x85 ∷ [])
    ∷ (0xe2 ∷ 0x80 ∷ 0x86 ∷ [])
    ∷ (0xe2 ∷ 0x80 ∷ 0x87 ∷ [])
    ∷ (0xe2 ∷ 0x80 ∷ 0x88 ∷ [])
    ∷ (0xe2 ∷ 0x80 ∷ 0x89 ∷ [])
    ∷ (0xe2 ∷ 0x80 ∷ 0x8a ∷ [])
    ∷ (0xe2 ∷ 0x80 ∷ 0xa8 ∷ [])
    ∷ (0xe2 ∷ 0x80 ∷ 0xa9 ∷ [])
    ∷ (0xe2 ∷ 0x80 ∷ 0xaf ∷ [])
    ∷ (0xe2 ∷ 0x81 ∷ 0x9f ∷ [])
    ∷ (0xe3 ∷ 0x80 ∷ 0x80 ∷ [])
    ∷ []

-- One of these characters taken off the front.
strip_one : List Bytes → Bytes → Option Bytes
strip_one [] s = none
strip_one (w ∷ ws) s = if starts_with w s then some (drop (length w) s) else strip_one ws s

strip : ℕ → List Bytes → Bytes → Bytes
strip zero ws s = s
strip (suc fuel) ws s = elim (strip_one ws s) [ none ↦ s | some rest ↦ strip fuel ws rest ]

-- Each round takes a byte at least, so the length is fuel enough.
unfoldable pub trim : Bytes → Bytes
unfolding strip_one strip starts_with
trim s =
    let front = strip (length s) white_space s in
    reverse (strip (length front) (map reverse white_space) (reverse front))

-- Decimal digits, from the last one on.
decimal : ℕ → ℕ → Bytes → Bytes
decimal zero n digits = digits
decimal (suc fuel) n digits =
    let more = decimal fuel (n / 10) ((b'0' + n % 10) ∷ digits) in
    if ltb n 10 then (b'0' + n) ∷ digits else more

unfoldable pub to_string : ℕ → Bytes
unfolding decimal
to_string n = decimal (suc n) n []

trim_test : trim (9 ∷ 32 ∷ b'a' ∷ 32 ∷ b'b' ∷ 0xe3 ∷ 0x80 ∷ 0x80 ∷ 10 ∷ []) ≡ b'a' ∷ 32 ∷ b'b' ∷ []
unfolding trim
trim_test = refl

to_string_test : to_string 9010 ≡ b'9' ∷ b'0' ∷ b'1' ∷ b'0' ∷ []
unfolding to_string
to_string_test = refl

-- No byte of a text is this one.
abbrev pub Lacks : ℕ → Bytes → Type 0
Lacks b = All (λ c. c ≢ b)

module _ (p : ℕ) (ps : Bytes) where
  split_from-append :
      (xs piece t : Bytes)
      → Lacks p xs
      → split_from (p ∷ ps) 0 piece (xs ++ t) ≡ split_from (p ∷ ps) 0 (piece ++ xs) t
  unfolding split_from starts_with
  split_from-append [] piece t h = rw append-nil
  split_from-append (x ∷ xs) piece t (h, hs) =
      let other : (x == p) ≡ false = ground arith in
      rw (other, split_from) (split_from-append xs (piece ++ (x ∷ [])) t hs ∙ rw append_assoc refl)

  split_from_end :
      (xs piece : Bytes) → Lacks p xs → split_from (p ∷ ps) 0 piece xs ≡ (piece ++ xs) ∷ []
  unfolding split_from
  split_from_end xs piece h =
      ap (split_from (p ∷ ps) 0 piece) (sym (append-nil xs)) ∙ split_from-append xs piece [] h

  split_from-skip :
      (qs t piece : Bytes)
      → split_from (p ∷ ps) (length qs) piece (qs ++ t) ≡ split_from (p ∷ ps) 0 piece t
  unfolding split_from
  split_from-skip [] t piece = refl
  split_from-skip (q ∷ qs) t piece = split_from-skip qs t piece

  starts_with_self : (qs t : Bytes) → starts_with qs (qs ++ t) ≡ true
  unfolding starts_with
  starts_with_self [] t = refl
  starts_with_self (q ∷ qs) t = ground (arith, starts_with_self qs t)

  split_from_here :
      (piece t : Bytes)
      → split_from (p ∷ ps) 0 piece ((p ∷ ps) ++ t) ≡ piece ∷ split_from (p ∷ ps) 0 [] t
  unfolding split_from
  split_from_here piece t =
      let one : suc (length ps) - 1 ≡ length ps = omega arith in
      rw (starts_with_self (p ∷ ps) t, split_from, one) (ap (◌∷◌ piece) (split_from-skip ps t []))

  -- A separator between two pieces that lack its first byte.
  pub split_two :
      (xs ys : Bytes)
      → Lacks p xs
      → Lacks p ys
      → split (p ∷ ps) (xs ++ ((p ∷ ps) ++ ys)) ≡ xs ∷ ys ∷ []
  unfolding split
  split_two xs ys h k =
      split_from-append xs [] ((p ∷ ps) ++ ys) h
      ∙ split_from_here xs ys
      ∙ ap (◌∷◌ xs) (split_from_end ys [] k)

  split_from-join :
      (x : Bytes) (xs : List Bytes)
      → All (Lacks p) (x ∷ xs)
      → split_from (p ∷ ps) 0 [] (join (p ∷ ps) (x ∷ xs)) ≡ x ∷ xs
  unfolding join
  split_from-join x [] (h, hs) = split_from_end x [] h
  split_from-join x (y ∷ ys) (h, hs) =
      split_from-append x [] ((p ∷ ps) ++ join (p ∷ ps) (y ∷ ys)) h
      ∙ split_from_here x (join (p ∷ ps) (y ∷ ys))
      ∙ ap (◌∷◌ x) (split_from-join y ys hs)

  -- Pieces that lack the first byte of the separator, put together and taken apart again.
  pub split-join :
      (x : Bytes) (xs : List Bytes)
      → All (Lacks p) (x ∷ xs)
      → split (p ∷ ps) (join (p ∷ ps) (x ∷ xs)) ≡ x ∷ xs
  unfolding split
  split-join x xs h = split_from-join x xs h

  pub contains-append : (xs ys : Bytes) → contains (p ∷ ps) (xs ++ ((p ∷ ps) ++ ys)) ≡ true
  unfolding contains
  contains-append [] ys = rw (starts_with_self (p ∷ ps) ys) refl
  contains-append (x ∷ xs) ys = ground (arith, contains-append xs ys)

abbrev pub IsDigits : Bytes → Type 0
IsDigits = All (λ c. (b'0' ≤ c) × (c ≤ b'9'))

decimal-IsDigits :
    (fuel n : ℕ) (digits : Bytes) → IsDigits digits → IsDigits (decimal fuel n digits)
unfolding decimal
decimal-IsDigits zero n digits h = h
decimal-IsDigits (suc fuel) n digits h = elim (dec_lt n 10) [
  | yes last ↦ rw (lt→ltb n 10 last) ((omega arith, omega arith), h)
  | no more ↦
      rw (le→ltb n 10 (omega arith))
        (decimal-IsDigits fuel (n / 10) ((b'0' + n % 10) ∷ digits) ((omega arith, omega arith), h))
]

pub to_string-IsDigits : (n : ℕ) → IsDigits (to_string n)
unfolding to_string
to_string-IsDigits n = decimal-IsDigits (suc n) n [] tt

-- There is always a first piece.
split_from_first :
    (pattern_ : Bytes) (skip : ℕ) (piece s : Bytes)
    → (p : Bytes) × (get_elem? (split_from pattern_ skip piece s) 0 ≡ some p)
unfolding split_from
split_from_first pattern_ skip piece [] = (piece, refl)
split_from_first pattern_ (suc k) piece (c ∷ s) = split_from_first pattern_ k piece s
split_from_first pattern_ zero piece (c ∷ s) = elim (Bool-cases (starts_with pattern_ (c ∷ s))) [
  | inl here ↦ rw (here, split_from, get_elem?) (piece, refl)
  | inr other ↦
      rw (other, split_from, get_elem?) (split_from_first pattern_ zero (piece ++ (c ∷ [])) s)
]

pub split_first : (pattern_ s : Bytes) → (p : Bytes) × (get_elem? (split pattern_ s) 0 ≡ some p)
unfolding split split_from
split_first pattern_ s = split_from_first pattern_ zero [] s
