-- ===== src/Server/Names.antt =====
-- src/relay/server.rs: the rooms of the relay by their names, and how a new or a changed room shows.
use rust_croc.Common.{
  ℕ, ◌<◌, ◌≡◌, refl, inl, inr, false, Option, none, some, List, ◌∷◌, Bytes, ◌==◌, ==_iff, beq,
  beq_iff, if◌then◌else◌, Bool-cases, arith,
}
use rust_croc.Server.{Room}
use rust_croc.Server.Tasks.{update, find}

-- The room that a number stands for.
abbrev pub at : (ℕ → Room) → Option ℕ → Option Room
at room none = none
at room (some o) = some (room o)

-- The map of rooms as names have it: no number is still to come, and no two names share one.
pub record Apart (map : List (Bytes × ℕ)) (made : ℕ) : Type 0 where
  pub below : (n : Bytes) (o : ℕ) → find n map ≡ some o → o < made
  pub apart : (n m : Bytes) (o : ℕ) → find n map ≡ some o → find m map ≡ some o → n ≡ m

at_other :
    (room : ℕ → Room) (o : ℕ) (r : Room) (p : Option ℕ)
    → ((k : ℕ) → p ≡ some k → (k == o) ≡ false)
    → at (update room o r) p ≡ at room p
at_other room o r none h = refl
at_other room o r (some k) h = rw (h k refl) refl

pub at_made :
    (map : List (Bytes × ℕ)) (made : ℕ) (room : ℕ → Room) (r : Room) (name n : Bytes)
    → Apart map made
    → at (update room made r) (find n ((name, made) ∷ map))
      ≡ (if beq name n then some r else at room (find n map))
unfolding find
at_made map made room r name n h = elim (Bool-cases (beq name n)) [
  | inl same ↦ rw (same, (==_iff made made).1 refl) refl
  | inr other ↦
      rw other (
        at_other room made r (find n map) (λ k found. let less = h.below n k found in ground arith))
]

pub at_joined :
    (map : List (Bytes × ℕ)) (made : ℕ) (room : ℕ → Room) (o : ℕ) (r : Room) (name n : Bytes)
    → Apart map made
    → find name map ≡ some o
    → at (update room o r) (find n map) ≡ (if beq name n then some r else at room (find n map))
at_joined map made room o r name n h there = elim (Bool-cases (beq name n)) [
  | inl same ↦
      let e : name ≡ n = (beq_iff name n).0 same in rw (same, ← e, there, (==_iff o o).1 refl) refl
  | inr other ↦ rw other (
      at_other room o r (find n map) (λ k found. elim (Bool-cases (k == o)) [
        | inl wrong ↦
            let e : k ≡ o = (==_iff k o).0 wrong in
            let e' : name ≡ n = h.apart name n o there (rw e at found) in
            let yes_ = (beq_iff name n).1 e' in absurd cc
        | inr right ↦ right
      ]))
]
