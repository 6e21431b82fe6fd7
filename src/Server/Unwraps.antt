-- ===== src/Server/Unwraps.antt =====
-- The two unwraps of `handle` are safe: a room that is full has both its connections, since no task
-- ever puts a handle into a room.
use rust_croc.Common.{
  ℕ, ◌≡◌, refl, inl, inr, Bool, true, false, Option, none, some, List, [], ◌∷◌, Bytes, Outcome, ok,
  err, panic, ◌==◌, Bool-cases, arith, codes,
}
use rust_croc.Net.{Net, Socket}
use rust_croc.Crypto.{Primitives}
use rust_croc.Enc.{EncryptedSession}
use rust_croc.Server.{Handle, Room, is_full, is_running}
use rust_croc.Server.Tasks.{
  Pc, asking, looking, entered, starting, relaying, ending, reopening, pinging, over, unwrapped,
  Relay, update, find, take_both, told, made_room, ask, joined, join, enter, start, finish, reopen,
  pinged, ping, act, schedule,
}
use rust_croc.Server.Exclusion.{when_free_lem}

module _ {net : Net} {prim : Primitives} where
  unfoldable pub has_unwrapped : Pc net prim → Bool
  has_unwrapped unwrapped = true
  has_unwrapped _ = false

  pub record Sound (room : ℕ → Room) (pc : ℕ → Pc net prim) : Type 0 where
    pub plain : (o : ℕ) → (room o).handle ≡ none
    pub calm : (t : ℕ) → has_unwrapped (pc t) ≡ false

  abbrev pub IsSound : Relay net prim → Type 0
  IsSound s = Sound s.room s.pc

  module _ {room : ℕ → Room} {pc : ℕ → Pc net prim} (h : Sound room pc) where
    moved : (t : ℕ) (p : Pc net prim) → has_unwrapped p ≡ false → Sound room (update pc t p)
    moved t p fine = record { plain = h.plain; calm = λ u. ground (arith, h.calm u) }

    changed : (o : ℕ) (r : Room) → r.handle ≡ none → Sound (update room o r) pc
    changed o r fine = record { plain = plain_at; calm = h.calm }
      where
        plain_at : (n : ℕ) → (update room o r n).handle ≡ none
        plain_at n = elim (Bool-cases (n == o)) [
          | inl same ↦ rw same fine
          | inr other ↦ rw other (h.plain n)
        ]

full_pair :
    (a b : Option Socket) (h : Option Handle) (opened : ℕ) (net : Net) (prim : Primitives)
    (name : Bytes) (o : ℕ)
    → h ≡ none
    → is_full (record { first = a; second = b; handle = h; opened = opened }) ≡ true
    → has_unwrapped (take_both net prim a b name o) ≡ false
unfolding is_full is_running take_both has_unwrapped
full_pair none b none opened net prim name o e h = cc
full_pair (some a) none none opened net prim name o e h = cc
full_pair (some a) (some b) none opened net prim name o e h = refl
full_pair a b (some x) opened net prim name o e h = cc

module _ (net : Net) (prim : Primitives) (now : ℕ) where
  abbrev R : Type 0
  R = Relay net prim

  made-IsSound :
      (name : Bytes) (r : Outcome (Unit {0}) × Socket) (t : ℕ) (s : R)
      → IsSound s
      → IsSound (made_room net prim now name r t s)
  unfolding made_room has_unwrapped
  made-IsSound name (ok _, k) t s h =
      moved
        (changed h s.made (record { first = some k; second = none; handle = none; opened = now })
          refl)
        t (entered name) refl
  made-IsSound name (err e, k) t s h = moved h t over refl
  made-IsSound name (panic, k) t s h = moved h t over refl

  ask-IsSound :
      (name : Bytes) (enc : EncryptedSession net prim) (nonce : Bytes) (k : Socket) (o : Option ℕ)
      (t : ℕ) (s : R)
      → IsSound s
      → IsSound (ask net prim now name enc nonce k o t s)
  unfolding ask has_unwrapped
  ask-IsSound name enc nonce k none t s h = made-IsSound name _ t s h
  ask-IsSound name enc nonce k (some o) t s h = moved h t (looking name enc nonce k o) refl

  joined-IsSound :
      (name : Bytes) (o : ℕ) (r : Outcome (Unit {0}) × Socket) (t : ℕ) (s : R)
      → IsSound s
      → IsSound (joined net prim now name o r t s)
  unfolding joined has_unwrapped
  joined-IsSound name o (ok _, k) t s h =
      moved (changed h o (record (s.room o) { second = some k }) (h.plain o)) t (entered name) refl
  joined-IsSound name o (err e, k) t s h = moved h t over refl
  joined-IsSound name o (panic, k) t s h = moved h t over refl

  join-IsSound :
      (name : Bytes) (enc : EncryptedSession net prim) (nonce : Bytes) (k : Socket) (o t : ℕ)
      (s : R)
      → IsSound s
      → IsSound (join net prim now name enc nonce k o t s)
  unfolding join has_unwrapped
  join-IsSound name enc nonce k o t s h = elim (Bool-cases (is_full (s.room o))) [
    | inl full ↦ rw full (moved h t over refl)
    | inr open_ ↦ rw open_ (joined-IsSound name o (told net prim enc nonce (codes "ok") k) t s h)
  ]

  enter-IsSound :
      (name : Bytes) (o : Option ℕ) (t : ℕ) (s : R)
      → IsSound s
      → IsSound (enter net prim now name o t s)
  unfolding enter has_unwrapped
  enter-IsSound name none t s h = moved h t over refl
  enter-IsSound name (some o) t s h = moved h t (starting name o) refl

  start-IsSound :
      (name : Bytes) (o t : ℕ) (s : R) → IsSound s → IsSound (start net prim now name o t s)
  unfolding start has_unwrapped
  start-IsSound name o t s h = elim (Bool-cases (is_full (s.room o))) [
    | inl full ↦
        let r = s.room o in
        rw full (
          moved (changed h o (record r { first = none; second = none }) (h.plain o)) t
            (take_both net prim r.first r.second name o)
            (full_pair r.first r.second r.handle r.opened net prim name o (h.plain o) full))
    | inr open_ ↦ rw open_ (moved h t (reopening name) refl)
  ]

  reopen-IsSound : (o : Option ℕ) (t : ℕ) (s : R) → IsSound s → IsSound (reopen net prim now o t s)
  unfolding reopen has_unwrapped
  reopen-IsSound none t s h = moved h t over refl
  reopen-IsSound (some o) t s h = moved h t (pinging o) refl

  pinged-IsSound :
      (o : ℕ) (r : Outcome (Unit {0}) × Socket) (t : ℕ) (s : R)
      → IsSound s
      → IsSound (pinged net prim now o r t s)
  unfolding pinged has_unwrapped
  pinged-IsSound o (ok _, k) t s h = changed h o (record (s.room o) { first = some k }) (h.plain o)
  pinged-IsSound o (err e, k) t s h =
      moved (changed h o (record (s.room o) { first = some k }) (h.plain o)) t over refl
  pinged-IsSound o (panic, k) t s h =
      moved (changed h o (record (s.room o) { first = some k }) (h.plain o)) t over refl

  ping-IsSound :
      (o : ℕ) (c : Option Socket) (t : ℕ) (s : R) → IsSound s → IsSound (ping net prim now o c t s)
  unfolding ping has_unwrapped
  ping-IsSound o none t s h = moved h t over refl
  ping-IsSound o (some k) t s h = pinged-IsSound o _ t s h

  act-IsSound : (p : Pc net prim) (t : ℕ) (s : R) → IsSound s → IsSound (act net prim now p t s)
  unfolding act has_unwrapped finish
  act-IsSound (asking name enc nonce k) t s h =
      when_free_lem IsSound s.map_lock _ s
        (λ _. ask-IsSound name enc nonce k (find name s.map) t s h) h
  act-IsSound (looking name enc nonce k o) t s h =
      when_free_lem IsSound (s.room_lock o) _ s (λ _. join-IsSound name enc nonce k o t s h) h
  act-IsSound (entered name) t s h =
      when_free_lem IsSound s.map_lock _ s (λ _. enter-IsSound name (find name s.map) t s h) h
  act-IsSound (starting name o) t s h =
      when_free_lem IsSound (s.room_lock o) _ s (λ _. start-IsSound name o t s h) h
  act-IsSound (relaying name o a b) t s h = moved h t (ending name o) refl
  act-IsSound (ending name o) t s h =
      when_free_lem IsSound s.map_lock _ s
        (λ _.
          moved (changed h o (record (s.room o) { first = none; second = none }) (h.plain o)) t over
            refl)
        h
  act-IsSound (reopening name) t s h =
      when_free_lem IsSound s.map_lock _ s (λ _. reopen-IsSound (find name s.map) t s h) h
  act-IsSound (pinging o) t s h =
      when_free_lem IsSound (s.room_lock o) _ s (λ _. ping-IsSound o (s.room o).first t s h) h
  act-IsSound over t s h = h
  act-IsSound unwrapped t s h = h

  -- From a state of the relay in which no room has a handle and no task has panicked in an unwrap,
  -- however the tasks are scheduled, no room gets a handle, and none of the two unwraps in handle
  -- panics.
  pub no_unwrap_panics : (ts : List ℕ) (s : R) → IsSound s → IsSound (schedule net prim now ts s)
  unfolding schedule
  no_unwrap_panics [] s h = h
  no_unwrap_panics (t ∷ ts) s h =
      no_unwrap_panics ts (act net prim now (s.pc t) t s) (act-IsSound (s.pc t) t s h)
