-- ===== src/Server/Lookup.antt =====
-- The rooms as a map: what is found behind an insertion or a removal.
use rust_croc.Common.{
  ◌≡◌, inl, inr, refl, true, false, none, some, [], ◌∷◌, Bytes, beq, beq_iff, if◌then◌else◌,
  Bool-cases, arith,
}
use rust_croc.Server.{Room, Rooms, lookup, insert, remove}

-- Two names that equal a third are equal.
beq_meets : (k m n : Bytes) → beq k m ≡ false → beq m n ≡ true → beq k n ≡ false
beq_meets k m n other same = elim (Bool-cases (beq k n)) [
  | inl wrong ↦ ground (arith, beq_iff m n, beq_iff k n, beq_iff k m)
  | inr right ↦ right
]

pub lookup-insert :
    (n m : Bytes) (r : Room) (rooms : Rooms)
    → lookup n (insert m r rooms) ≡ (if beq m n then some r else lookup n rooms)
unfolding lookup insert
lookup-insert n m r [] = refl
lookup-insert n m r ((k, q) ∷ rooms) = elim (Bool-cases (beq k m)) [
  | inl same ↦
      let e : k ≡ m = (beq_iff k m).0 same in
      elim (Bool-cases (beq m n)) [
        | inl yes_ ↦ rw (same, yes_) refl
        | inr no_ ↦ rw (same, e, no_) refl
      ]
  | inr other ↦ elim (Bool-cases (beq m n)) [
    | inl meets ↦ rw (other, beq_meets k m n other meets, lookup-insert n m r rooms, meets) refl
    | inr differs ↦ rw (other, lookup-insert n m r rooms, differs) refl
  ]
]

pub lookup-remove :
    (n m : Bytes) (rooms : Rooms)
    → lookup n (remove m rooms) ≡ (if beq m n then none else lookup n rooms)
unfolding lookup remove
lookup-remove n m [] = elim (Bool-cases (beq m n)) [
  | inl yes_ ↦ rw yes_ refl
  | inr no_ ↦ rw no_ refl
]
lookup-remove n m ((k, q) ∷ rooms) = elim (Bool-cases (beq k m)) [
  | inl same ↦
      let e : k ≡ m = (beq_iff k m).0 same in
      elim (Bool-cases (beq m n)) [
        | inl yes_ ↦ rw (same, lookup-remove n m rooms, yes_) refl
        | inr no_ ↦ rw (same, lookup-remove n m rooms, e, no_) refl
      ]
  | inr other ↦ elim (Bool-cases (beq m n)) [
    | inl meets ↦ rw (other, beq_meets k m n other meets, lookup-remove n m rooms, meets) refl
    | inr differs ↦ rw (other, lookup-remove n m rooms, differs) refl
  ]
]
