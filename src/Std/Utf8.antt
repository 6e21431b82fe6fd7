-- ===== src/Std/Utf8.antt =====
-- `String::from_utf8` and `str::from_utf8`: the test for well-formed UTF-8.
use rust_croc.Common.{
  ℕ, ◌≡◌, ◌<◌, refl, Bool, true, false, ◌&&◌, Option, none, some, List, [], ◌∷◌, ◌++◌, All, Bytes,
  Outcome, ok, err, Error, leb, ◌==◌, if◌then◌else◌, arith, Option-cases, inl, inr,
}

abbrev within : ℕ → ℕ → ℕ → Bool
within lo hi b = leb lo b && leb b hi

-- The ranges of the bytes that must follow a first byte.
lead : ℕ → Option (List (ℕ × ℕ))
lead b =
    if leb b 0x7f
    then some []
    else if within 0xc2 0xdf b
    then some ((0x80, 0xbf) ∷ [])
    else if b == 0xe0
    then some ((0xa0, 0xbf) ∷ (0x80, 0xbf) ∷ [])
    else if b == 0xed
    then some ((0x80, 0x9f) ∷ (0x80, 0xbf) ∷ [])
    else if within 0xe1 0xef b
    then some ((0x80, 0xbf) ∷ (0x80, 0xbf) ∷ [])
    else if b == 0xf0
    then some ((0x90, 0xbf) ∷ (0x80, 0xbf) ∷ (0x80, 0xbf) ∷ [])
    else if within 0xf1 0xf3 b
    then some ((0x80, 0xbf) ∷ (0x80, 0xbf) ∷ (0x80, 0xbf) ∷ [])
    else if b == 0xf4
    then some ((0x80, 0x8f) ∷ (0x80, 0xbf) ∷ (0x80, 0xbf) ∷ [])
    else none

-- Whether bytes are well formed, after a first byte that still wants these.
unfoldable pub is_utf8 : List (ℕ × ℕ) → Bytes → Bool
unfolding lead
is_utf8 [] [] = true
is_utf8 (r ∷ rs) [] = false
is_utf8 [] (b ∷ bs) = elim (lead b) [ none ↦ false | some rs ↦ is_utf8 rs bs ]
is_utf8 ((lo, hi) ∷ rs) (b ∷ bs) = within lo hi b && is_utf8 rs bs

unfoldable pub from_utf8 : Bytes → Outcome Bytes
from_utf8 bs = if is_utf8 [] bs then ok bs else err Error.utf8

-- ASCII is well formed.
pub is_utf8_ascii : (bs : Bytes) → All (λ b. b < 128) bs → is_utf8 [] bs ≡ true
unfolding is_utf8
is_utf8_ascii [] h = refl
is_utf8_ascii (b ∷ bs) (small, h) = ground (arith, is_utf8_ascii bs h)

-- Texts can be put together.
pub is_utf8-append :
    (rs : List (ℕ × ℕ)) (xs ys : Bytes)
    → is_utf8 rs xs ≡ true
    → is_utf8 [] ys ≡ true
    → is_utf8 rs (xs ++ ys) ≡ true
unfolding is_utf8
is_utf8-append [] [] ys h k = k
is_utf8-append (r ∷ rs) [] ys h k = cc
is_utf8-append [] (x ∷ xs) ys h k = elim (Option-cases (lead x)) [
  | inl e ↦ let bad = rw (e, is_utf8) at h in cc
  | inr (rs, e) ↦ rw (e, is_utf8) (is_utf8-append rs xs ys (rw (e, is_utf8) at h) k)
]
is_utf8-append ((lo, hi) ∷ rs) (x ∷ xs) ys h k = ground (arith, is_utf8-append rs xs ys)
