-- ===== src/Server/Deadlock.antt =====
-- A third client that names a room over which a task relays.
use rust_croc.Common.{
  ℕ, ◌≡◌, refl, sym, ap, ◌∙◌, inl, inr, Bool, true, false, Option, none, some, List, [], ◌∷◌, Bytes,
  Outcome, ok, err, panic, ◌==◌, ==_iff, Bool-cases, arith, subst,
}
use rust_croc.Net.{Net, Socket}
use rust_croc.Crypto.{Primitives}
use rust_croc.Enc.{EncryptedSession}
use rust_croc.Server.{is_full}
use rust_croc.Server.Tasks.{
  Pc, asking, looking, entered, starting, relaying, ending, reopening, pinging, over, unwrapped,
  Relay, update, when_free, start, pinged, ping, act, schedule,
}
use rust_croc.Server.Locks.{has_map, has_room, IsOwned}
use rust_croc.Server.Exclusion.{when_free_lem, act-IsOwned}

-- A lock that is not free.
waits {ℓ κ} :
    {A : Type ℓ} (P : A → Type κ) {o : Option ℕ} {owner : ℕ} (go wait : A)
    → o ≡ some owner
    → P wait
    → P (when_free o go wait)
unfolding when_free
waits P go wait h k = rw h k

module _ {net : Net} {prim : Primitives} where
  -- The tasks that wait for the lock of the map.
  unfoldable pub wants_map : Pc net prim → Bool
  wants_map (asking name enc nonce k) = true
  wants_map (entered name) = true
  wants_map (ending name o) = true
  wants_map (reopening name) = true
  wants_map _ = false

  -- The task that waits for a room with the lock of the map.
  unfoldable pub seeks : Pc net prim → ℕ → Bool
  seeks (looking name enc nonce k o) n = o == n
  seeks _ n = false

  seeks_holds : (p : Pc net prim) (o : ℕ) → seeks p o ≡ true → has_map p ≡ true
  unfolding seeks has_map
  seeks_holds (asking name enc nonce k) o h = cc
  seeks_holds (looking name enc nonce k n) o h = refl
  seeks_holds (entered name) o h = cc
  seeks_holds (starting name n) o h = cc
  seeks_holds (relaying name n x y) o h = cc
  seeks_holds (ending name n) o h = cc
  seeks_holds (reopening name) o h = cc
  seeks_holds (pinging n) o h = cc
  seeks_holds over o h = cc
  seeks_holds unwrapped o h = cc

  -- Task b looks for room o, with the lock of the map; task a relays over that room, or is at the
  -- end of it; and of the other tasks, these wait for the map where they stand.
  pub record Crossed (a b o : ℕ) (pc before : ℕ → Pc net prim) (map_lock : Option ℕ) : Type 0 where
    pub locked : map_lock ≡ some b
    pub looks : seeks (pc b) o ≡ true
    pub stays : pc b ≡ before b
    pub relays : has_room (pc a) o ≡ true
    pub held : (u : ℕ) → wants_map (before u) ≡ true → pc u ≡ before u

  module _ {a b o : ℕ} {pc before : ℕ → Pc net prim} {m : Option ℕ}
      (h : Crossed a b o pc before m) where
    -- A move of another task, or of a to the end of its relaying.
    other_moves :
        (t : ℕ) (p : Pc net prim)
        → has_map (pc t) ≡ false
        → wants_map (pc t) ≡ false
        → (has_room (pc t) o ≡ true → has_room p o ≡ true)
        → Crossed a b o (update pc t p) before m
    other_moves t p no_map no_wish room = record {
      locked = h.locked;
      looks = ground (arith, h.looks, seeks_holds (pc b) o);
      stays = ground (arith, h.stays, h.looks, seeks_holds (pc b) o);
      relays = ground (arith, h.relays);
      held = λ u. ground (arith, h.held u);
    }

module _ (net : Net) (prim : Primitives) (now : ℕ) where
  abbrev R : Type 0
  R = Relay net prim

  module _ (a b o : ℕ) (before : ℕ → Pc net prim) where
    abbrev IsCrossed : R → Type 0
    IsCrossed s = Crossed a b o s.pc before s.map_lock

    started-IsCrossed :
        (name : Bytes) (n t : ℕ) (s : R)
        → s.pc t ≡ starting name n
        → IsCrossed s
        → IsCrossed (start net prim now name n t s)
    unfolding start has_map wants_map has_room
    started-IsCrossed name n t s at h = elim (Bool-cases (is_full (s.room n))) [
      | inl full ↦ rw full (other_moves h t _ (rw at refl) (rw at refl) (rw at (λ x. cc)))
      | inr open_ ↦ rw open_ (other_moves h t _ (rw at refl) (rw at refl) (rw at (λ x. cc)))
    ]

    pinged-IsCrossed :
        (n : ℕ) (r : Outcome (Unit {0}) × Socket) (t : ℕ) (s : R)
        → s.pc t ≡ pinging n
        → IsCrossed s
        → IsCrossed (pinged net prim now n r t s)
    unfolding pinged has_map wants_map has_room
    pinged-IsCrossed n (ok _, k) t s at h = h
    pinged-IsCrossed n (err e, k) t s at h =
        other_moves h t _ (rw at refl) (rw at refl) (rw at (λ x. cc))
    pinged-IsCrossed n (panic, k) t s at h =
        other_moves h t _ (rw at refl) (rw at refl) (rw at (λ x. cc))

    ping-IsCrossed :
        (n : ℕ) (c : Option Socket) (t : ℕ) (s : R)
        → s.pc t ≡ pinging n
        → IsCrossed s
        → IsCrossed (ping net prim now n c t s)
    unfolding ping has_map wants_map has_room
    ping-IsCrossed n none t s at h = other_moves h t _ (rw at refl) (rw at refl) (rw at (λ x. cc))
    ping-IsCrossed n (some k) t s at h = pinged-IsCrossed n _ t s at h

    -- The room that the owner of the map waits for.
    sought :
        (name : Bytes) (enc : EncryptedSession net prim) (nonce : Bytes) (k : Socket) (n t : ℕ)
        (s : R)
        → s.pc t ≡ looking name enc nonce k n
        → IsOwned s
        → IsCrossed s
        → s.room_lock n ≡ some a
    unfolding has_map seeks
    sought name enc nonce k n t s at own h =
        let mine : s.map_lock ≡ some t = own.of_map t (rw at refl) in
        let locked = h.locked in
        let e : t ≡ b = cc in
        let e' : n ≡ o =
          (==_iff n o).0 (subst (λ p. seeks p o ≡ true) (ap s.pc (sym e) ∙ at) h.looks) in
        rw e' (own.of_room a o h.relays)

    act-IsCrossed :
        (p : Pc net prim) (t : ℕ) (s : R)
        → s.pc t ≡ p
        → IsOwned s
        → IsCrossed s
        → IsCrossed (act net prim now p t s)
    unfolding act has_map wants_map has_room
    act-IsCrossed (asking name enc nonce k) t s at own h = waits IsCrossed _ s h.locked h
    act-IsCrossed (looking name enc nonce k n) t s at own h =
        waits IsCrossed _ s (sought name enc nonce k n t s at own h) h
    act-IsCrossed (entered name) t s at own h = waits IsCrossed _ s h.locked h
    act-IsCrossed (starting name n) t s at own h =
        when_free_lem IsCrossed (s.room_lock n) _ s (λ _. started-IsCrossed name n t s at h) h
    act-IsCrossed (relaying name n x y) t s at own h =
        other_moves h t (ending name n) (rw at refl) (rw at refl) (λ k. rw at at k)
    act-IsCrossed (ending name n) t s at own h = waits IsCrossed _ s h.locked h
    act-IsCrossed (reopening name) t s at own h = waits IsCrossed _ s h.locked h
    act-IsCrossed (pinging n) t s at own h =
        when_free_lem IsCrossed (s.room_lock n) _ s
          (λ _. ping-IsCrossed n (s.room n).first t s at h) h
    act-IsCrossed over t s at own h = h
    act-IsCrossed unwrapped t s at own h = h

    schedule-IsCrossed :
        (ts : List ℕ) (s : R) → IsOwned s → IsCrossed s → IsCrossed (schedule net prim now ts s)
    unfolding schedule
    schedule-IsCrossed [] s own h = h
    schedule-IsCrossed (t ∷ ts) s own h =
        schedule-IsCrossed ts (act net prim now (s.pc t) t s)
          (act-IsOwned net prim now (s.pc t) t s refl own) (act-IsCrossed (s.pc t) t s refl own h)

  -- From a state of the relay in which each task that stands with a lock owns it, one task looks
  -- for a room with the lock of the map of rooms, and another stands with the lock of that room,
  -- however the tasks are scheduled: the map stays locked by the first, which stays where it is,
  -- the second keeps the lock of the room, and each task that waits for the map at the start stays
  -- where it is.
  pub deadlock_lasts :
      (ts : List ℕ) (s : R) (a b o : ℕ)
      → IsOwned s
      → seeks (s.pc b) o ≡ true
      → has_room (s.pc a) o ≡ true
      → Crossed a b o (schedule net prim now ts s).pc s.pc (schedule net prim now ts s).map_lock
  deadlock_lasts ts s a b o own looks relays = schedule-IsCrossed a b o s.pc ts s own (record {
    locked = own.of_map b (seeks_holds (s.pc b) o looks);
    looks = looks;
    stays = refl;
    relays = relays;
    held = λ u _. refl;
  })
