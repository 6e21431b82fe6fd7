-- ===== src/Server/Locks.antt =====
-- Who has which lock, and that each move of a task keeps it so.
use rust_croc.Common.{ℕ, ◌≡◌, Bool, true, false, Option, none, some, ◌==◌, ==_iff, arith}
use rust_croc.Net.{Net}
use rust_croc.Crypto.{Primitives}
use rust_croc.Server.Tasks.{Pc, looking, relaying, ending, Relay, update}

module _ {net : Net} {prim : Primitives} where
  -- The tasks that hold the lock of the map across an `await`, and that of a room.
  unfoldable pub has_map : Pc net prim → Bool
  has_map (looking name enc nonce session o) = true
  has_map _ = false

  unfoldable pub has_room : Pc net prim → ℕ → Bool
  has_room (relaying name o a b) n = o == n
  has_room (ending name o) n = o == n
  has_room _ n = false

  -- Such a task is the owner of the lock.
  pub record OwnedBy (pc : ℕ → Pc net prim) (map_lock : Option ℕ) (room_lock : ℕ → Option ℕ)
      : Type 0 where
    pub of_map : (t : ℕ) → has_map (pc t) ≡ true → map_lock ≡ some t
    pub of_room : (t o : ℕ) → has_room (pc t) o ≡ true → room_lock o ≡ some t

  abbrev pub IsOwned : Relay net prim → Type 0
  IsOwned s = OwnedBy s.pc s.map_lock s.room_lock

  module _ {pc : ℕ → Pc net prim} {m : Option ℕ} {l : ℕ → Option ℕ} (own : OwnedBy pc m l) (t : ℕ)
      (p : Pc net prim) where
    -- A task goes on to where it holds nothing.
    pub quiet : has_map p ≡ false → ((o : ℕ) → has_room p o ≡ false) → OwnedBy (update pc t p) m l
    quiet no_map no_room = record {
      of_map = λ u. ground (arith, own.of_map u);
      of_room = λ u o. ground (arith, own.of_room u o, no_room o);
    }

    -- A task takes the lock of the map.
    pub takes_map : m ≡ none → ((o : ℕ) → has_room p o ≡ false) → OwnedBy (update pc t p) (some t) l
    takes_map free no_room = record {
      of_map = λ u. ground (arith, own.of_map u);
      of_room = λ u o. ground (arith, own.of_room u o, no_room o);
    }

    -- The owner of the map's lock gives it back.
    pub frees_map :
        m ≡ some t
        → has_map p ≡ false
        → ((o : ℕ) → has_room p o ≡ false)
        → OwnedBy (update pc t p) none l
    frees_map mine no_map no_room = record {
      of_map = λ u. ground (arith, own.of_map u);
      of_room = λ u o. ground (arith, own.of_room u o, no_room o);
    }

    -- A task takes the lock of a room.
    pub takes_room :
        (r : ℕ)
        → l r ≡ none
        → has_map p ≡ false
        → ((o : ℕ) → has_room p o ≡ true → r ≡ o)
        → OwnedBy (update pc t p) m (update l r (some t))
    takes_room r free no_map only = record {
      of_map = λ u. ground (arith, own.of_map u);
      of_room = λ u o. ground (arith, own.of_room u o, only o, ==_iff r o);
    }

    -- The owner of a room's lock gives it back.
    pub frees_room :
        (r : ℕ)
        → l r ≡ some t
        → has_map p ≡ false
        → ((o : ℕ) → has_room p o ≡ false)
        → OwnedBy (update pc t p) m (update l r none)
    frees_room r mine no_map no_room = record {
      of_map = λ u. ground (arith, own.of_map u);
      of_room = λ u o. ground (arith, own.of_room u o, no_room o);
    }

    -- A task keeps what it holds.
    pub keeps_room :
        has_map p ≡ false
        → ((o : ℕ) → has_room p o ≡ true → has_room (pc t) o ≡ true)
        → OwnedBy (update pc t p) m l
    keeps_room no_map same = record {
      of_map = λ u. ground (arith, own.of_map u);
      of_room = λ u o. ground (arith, own.of_room u o, same o);
    }
