-- ===== src/Std/Slice.antt =====
-- Slices of texts, and of bytes, up to a place or from there on.
use rust_croc.Common.{
  ℕ, ◌≡◌, inl, inr, Bool, not, ◌&&◌, none, some, length, get_elem?, take, drop, Bytes, Outcome, ok,
  panic, ltb, Bool-cases, Option-cases, if◌then◌else◌,
}

-- A byte that continues a character: `&s[..n]` panics in front of one, and beyond the end.
abbrev pub is_continuation : ℕ → Bool
is_continuation b = not (ltb b 0x80) && ltb b 0xc0

unfoldable pub str_prefix : ℕ → Bytes → Outcome Bytes
str_prefix n s = if ltb (length s) n then panic else elim (get_elem? s n) [
  | none ↦ ok (take n s)
  | some b ↦ if is_continuation b then panic else ok (take n s)
]

-- `&s[n..]`, which panics beyond the end and inside a character.
unfoldable pub str_suffix : ℕ → Bytes → Outcome Bytes
str_suffix n s = if ltb (length s) n then panic else elim (get_elem? s n) [
  | none ↦ ok (drop n s)
  | some b ↦ if is_continuation b then panic else ok (drop n s)
]

-- `&s.as_bytes()[n..]`, which panics beyond the end.
unfoldable pub bytes_suffix : ℕ → Bytes → Outcome Bytes
bytes_suffix n s = if ltb (length s) n then panic else ok (drop n s)

-- A text that can be cut can be cut as bytes.
pub str-bytes_suffix :
    (n : ℕ) (s : Bytes) {rest : Bytes} → str_suffix n s ≡ ok rest → bytes_suffix n s ≡ ok rest
unfolding str_suffix bytes_suffix
str-bytes_suffix n s h = elim (Bool-cases (ltb (length s) n)) [
  | inl short ↦ let bad = rw short at h in absurd cc
  | inr long ↦ elim (Option-cases (get_elem? s n)) [
    | inl end_ ↦ let fine = rw (long, end_) at h in rw long fine
    | inr (b, next) ↦ elim (Bool-cases (is_continuation b)) [
      | inl inside ↦ let bad = rw (long, next, inside) at h in absurd cc
      | inr edge ↦ let fine = rw (long, next, edge) at h in rw long fine
    ]
  ]
]
