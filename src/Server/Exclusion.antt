-- ===== src/Server/Exclusion.antt =====
-- Each move of a task keeps the owners of the locks; so no two tasks relay over one room.
use rust_croc.Common.{
  ℕ, ◌≡◌, refl, inl, inr, true, false, Option, none, some, List, [], ◌∷◌, Bytes, Outcome, ok, err,
  panic, ==_iff, Bool-cases, codes,
}
use rust_croc.Net.{Net, Socket}
use rust_croc.Crypto.{Primitives}
use rust_croc.Enc.{EncryptedSession}
use rust_croc.Server.{is_full}
use rust_croc.Server.Tasks.{
  Pc, asking, looking, entered, starting, relaying, ending, reopening, pinging, over, unwrapped,
  Relay, find, when_free, take_both, told, made_room, ask, joined, join, enter, start, finish,
  reopen, pinged, ping, act, schedule,
}
use rust_croc.Server.Locks.{
  has_map, has_room, IsOwned, quiet, takes_map, frees_map, takes_room, frees_room, keeps_room,
}

-- A property of what happens if a lock is free, and of the state that waits.
pub when_free_lem {ℓ κ} :
    {A : Type ℓ} (P : A → Type κ) (o : Option ℕ) (go wait : A)
    → (o ≡ none → P go)
    → P wait
    → P (when_free o go wait)
unfolding when_free
when_free_lem P none go wait h k = h refl
when_free_lem P (some t) go wait h k = k

module _ (net : Net) (prim : Primitives) (now : ℕ) where
  abbrev R : Type 0
  R = Relay net prim

  made_room-IsOwned :
      (name : Bytes) (r : Outcome (Unit {0}) × Socket) (t : ℕ) (s : R)
      → IsOwned s
      → IsOwned (made_room net prim now name r t s)
  unfolding made_room has_map has_room
  made_room-IsOwned name (ok _, k) t s own = quiet own t (entered name) refl (λ o. refl)
  made_room-IsOwned name (err e, k) t s own = quiet own t over refl (λ o. refl)
  made_room-IsOwned name (panic, k) t s own = quiet own t over refl (λ o. refl)

  ask-IsOwned :
      (name : Bytes) (enc : EncryptedSession net prim) (nonce : Bytes) (k : Socket) (o : Option ℕ)
      (t : ℕ) (s : R)
      → s.map_lock ≡ none
      → IsOwned s
      → IsOwned (ask net prim now name enc nonce k o t s)
  unfolding ask has_room
  ask-IsOwned name enc nonce k none t s free own = made_room-IsOwned name _ t s own
  ask-IsOwned name enc nonce k (some o) t s free own =
      takes_map own t (looking name enc nonce k o) free (λ o. refl)

  joined-IsOwned :
      (name : Bytes) (o : ℕ) (r : Outcome (Unit {0}) × Socket) (t : ℕ) (s : R)
      → s.map_lock ≡ some t
      → IsOwned s
      → IsOwned (joined net prim now name o r t s)
  unfolding joined has_map has_room
  joined-IsOwned name o (ok _, k) t s mine own =
      frees_map own t (entered name) mine refl (λ o. refl)
  joined-IsOwned name o (err e, k) t s mine own = frees_map own t over mine refl (λ o. refl)
  joined-IsOwned name o (panic, k) t s mine own = frees_map own t over mine refl (λ o. refl)

  join-IsOwned :
      (name : Bytes) (enc : EncryptedSession net prim) (nonce : Bytes) (k : Socket) (o t : ℕ)
      (s : R)
      → s.map_lock ≡ some t
      → IsOwned s
      → IsOwned (join net prim now name enc nonce k o t s)
  unfolding join has_map has_room
  join-IsOwned name enc nonce k o t s mine own = elim (Bool-cases (is_full (s.room o))) [
    | inl full ↦ rw full (frees_map own t over mine refl (λ o. refl))
    | inr open_ ↦
        rw open_ (joined-IsOwned name o (told net prim enc nonce (codes "ok") k) t s mine own)
  ]

  enter-IsOwned :
      (name : Bytes) (o : Option ℕ) (t : ℕ) (s : R)
      → IsOwned s
      → IsOwned (enter net prim now name o t s)
  unfolding enter has_map has_room
  enter-IsOwned name none t s own = quiet own t over refl (λ o. refl)
  enter-IsOwned name (some o) t s own = quiet own t (starting name o) refl (λ o. refl)

  -- What `take_both` gives holds no lock but that of its room.
  taken_holds :
      (a b : Option Socket) (name : Bytes) (o n : ℕ)
      → (has_map (take_both net prim a b name o) ≡ false)
        × (has_room (take_both net prim a b name o) n ≡ true → o ≡ n)
  unfolding take_both has_map has_room
  taken_holds none none name o n = (refl, λ h. cc)
  taken_holds none (some b) name o n = (refl, λ h. cc)
  taken_holds (some a) none name o n = (refl, λ h. cc)
  taken_holds (some a) (some b) name o n = (refl, λ h. (==_iff o n).0 h)

  start-IsOwned :
      (name : Bytes) (o t : ℕ) (s : R)
      → s.room_lock o ≡ none
      → IsOwned s
      → IsOwned (start net prim now name o t s)
  unfolding start has_map has_room
  start-IsOwned name o t s free own = elim (Bool-cases (is_full (s.room o))) [
    | inl full ↦
        let p = take_both net prim (s.room o).first (s.room o).second name o in
        let holds = taken_holds (s.room o).first (s.room o).second name o in
        rw full (takes_room own t p o free (holds 0).0 (λ n. (holds n).1))
    | inr open_ ↦ rw open_ (quiet own t (reopening name) refl (λ o. refl))
  ]

  reopen-IsOwned : (o : Option ℕ) (t : ℕ) (s : R) → IsOwned s → IsOwned (reopen net prim now o t s)
  unfolding reopen has_map has_room
  reopen-IsOwned none t s own = quiet own t over refl (λ o. refl)
  reopen-IsOwned (some o) t s own = quiet own t (pinging o) refl (λ o. refl)

  pinged-IsOwned :
      (o : ℕ) (r : Outcome (Unit {0}) × Socket) (t : ℕ) (s : R)
      → IsOwned s
      → IsOwned (pinged net prim now o r t s)
  unfolding pinged has_map has_room
  pinged-IsOwned o (ok _, k) t s own = own
  pinged-IsOwned o (err e, k) t s own = quiet own t over refl (λ o. refl)
  pinged-IsOwned o (panic, k) t s own = quiet own t over refl (λ o. refl)

  ping-IsOwned :
      (o : ℕ) (c : Option Socket) (t : ℕ) (s : R) → IsOwned s → IsOwned (ping net prim now o c t s)
  unfolding ping has_map has_room
  ping-IsOwned o none t s own = quiet own t over refl (λ o. refl)
  ping-IsOwned o (some k) t s own = pinged-IsOwned o _ t s own

  -- Each move.
  pub act-IsOwned :
      (p : Pc net prim) (t : ℕ) (s : R) → s.pc t ≡ p → IsOwned s → IsOwned (act net prim now p t s)
  unfolding act has_map has_room finish
  act-IsOwned (asking name enc nonce k) t s at own =
      when_free_lem IsOwned s.map_lock _ s
        (λ free. ask-IsOwned name enc nonce k (find name s.map) t s free own) own
  act-IsOwned (looking name enc nonce k o) t s at own =
      when_free_lem IsOwned (s.room_lock o) _ s
        (λ _. join-IsOwned name enc nonce k o t s (own.of_map t (rw at refl)) own) own
  act-IsOwned (entered name) t s at own =
      when_free_lem IsOwned s.map_lock _ s (λ _. enter-IsOwned name (find name s.map) t s own) own
  act-IsOwned (starting name o) t s at own =
      when_free_lem IsOwned (s.room_lock o) _ s (λ free. start-IsOwned name o t s free own) own
  act-IsOwned (relaying name o a b) t s at own =
      keeps_room own t (ending name o) refl (λ n h. rw at h)
  act-IsOwned (ending name o) t s at own =
      when_free_lem IsOwned s.map_lock _ s
        (λ _.
          frees_room own t over o (own.of_room t o (rw at ((==_iff o o).1 refl))) refl (λ n. refl))
        own
  act-IsOwned (reopening name) t s at own =
      when_free_lem IsOwned s.map_lock _ s (λ _. reopen-IsOwned (find name s.map) t s own) own
  act-IsOwned (pinging o) t s at own =
      when_free_lem IsOwned (s.room_lock o) _ s (λ _. ping-IsOwned o (s.room o).first t s own) own
  act-IsOwned over t s at own = own
  act-IsOwned unwrapped t s at own = own

  pub schedule-IsOwned : (ts : List ℕ) (s : R) → IsOwned s → IsOwned (schedule net prim now ts s)
  unfolding schedule
  schedule-IsOwned [] s own = own
  schedule-IsOwned (t ∷ ts) s own =
      schedule-IsOwned ts (act net prim now (s.pc t) t s) (act-IsOwned (s.pc t) t s refl own)

  -- From a state of the relay in which each task that stands with a lock owns it, and however the
  -- tasks are scheduled, two tasks that stand with the lock of the same room, to relay over it or
  -- at the end of that, are one task.
  pub relay_alone :
      (ts : List ℕ) (s : R) (o t u : ℕ)
      → IsOwned s
      → has_room ((schedule net prim now ts s).pc t) o ≡ true
      → has_room ((schedule net prim now ts s).pc u) o ≡ true
      → t ≡ u
  relay_alone ts s o t u own mine yours =
      let kept = schedule-IsOwned ts s own in
      let first = kept.of_room t o mine in let second = kept.of_room u o yours in cc
