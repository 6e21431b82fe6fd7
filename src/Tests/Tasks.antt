-- ===== src/Tests/Tasks.antt =====
-- Three clients that ask for one room.
use rust_croc.Common.{
  sym, ◌∙◌, inl, inr, beq, beq_iff, Bool-cases, ℕ, ◌+◌, ◌≡◌, refl, Bool, true, false, Option, none,
  some, List, [], ◌∷◌, Bytes, Outcome, ok, err, ◌==◌, if◌then◌else◌, codes, arith,
}
use rust_croc.Server.{Room, lookup, enter_room}
use rust_croc.Server.Names.{at, Apart}
use rust_croc.Server.Atomic.{Agrees, tasks_negotiate}
use rust_croc.Server.Tasks.{find, Pc, asking, over, Relay, schedule, act}
use rust_croc.Server.Locks.{has_map, has_room, IsOwned}
use rust_croc.Server.Exclusion.{relay_alone, schedule-IsOwned}
use rust_croc.Server.Unwraps.{IsSound, has_unwrapped, no_unwrap_panics}
use rust_croc.Server.Deadlock.{seeks, Crossed, deadlock_lasts}
use rust_croc.Tests.Net.{net, socket_with}
use rust_croc.Tests.Handshake.{config}
use rust_croc.Tests.Crypto.{prim, session, nonce}

abbrev a_client : Pc net prim
a_client = asking (codes "123") session nonce (socket_with [])

abbrev relay : Relay net prim
relay = record {
  map = [];
  made = 0;
  room = λ o. record { first = none; second = none; handle = none; opened = 0 };
  map_lock = none;
  room_lock = λ o. none;
  pc = λ t. a_client;
}

relay-IsOwned : IsOwned relay
unfolding has_map has_room
relay-IsOwned = record { of_map = λ t h. cc; of_room = λ t o h. cc }

relay-IsSound : IsSound relay
unfolding has_unwrapped
relay-IsSound = record { plain = λ o. refl; calm = λ t. refl }

-- The first makes the room and pings, the second joins and relays.
abbrev two_served : List ℕ
two_served = 0 ∷ 0 ∷ 0 ∷ 0 ∷ 1 ∷ 1 ∷ 1 ∷ 1 ∷ []

-- And the third looks for the room.
abbrev third_asks : List ℕ
third_asks = 0 ∷ 0 ∷ 0 ∷ 0 ∷ 1 ∷ 1 ∷ 1 ∷ 1 ∷ 2 ∷ []

second_relays : has_room ((schedule net prim 7 two_served relay).pc 1) 0 ≡ true
unfolding schedule has_room rust_croc.Server.Tasks.find rust_croc.Enc.write rust_croc.Crypto.encrypt
    rust_croc.Wire.write rust_croc.Wire.frame rust_croc.Common.beq rust_croc.Server.is_full
second_relays = refl

relay_alone_example : ◌≡◌ {A = ℕ} 1 1
relay_alone_example =
    relay_alone net prim 7 two_served relay 0 1 1 relay-IsOwned second_relays second_relays

no_unwrap_panics_example : IsSound (schedule net prim 7 two_served relay)
no_unwrap_panics_example = no_unwrap_panics net prim 7 two_served relay relay-IsSound

abbrev crossed : Relay net prim
crossed = schedule net prim 7 third_asks relay

crossed-IsOwned : IsOwned crossed
crossed-IsOwned = schedule-IsOwned net prim 7 third_asks relay relay-IsOwned

third_seeks : seeks (crossed.pc 2) 0 ≡ true
unfolding schedule seeks rust_croc.Server.Tasks.find rust_croc.Enc.write rust_croc.Crypto.encrypt
    rust_croc.Wire.write rust_croc.Wire.frame rust_croc.Common.beq rust_croc.Server.is_full
third_seeks = refl

still_relays : has_room (crossed.pc 1) 0 ≡ true
unfolding schedule has_room rust_croc.Server.Tasks.find rust_croc.Enc.write rust_croc.Crypto.encrypt
    rust_croc.Wire.write rust_croc.Wire.frame rust_croc.Common.beq rust_croc.Server.is_full
still_relays = refl

deadlock_lasts_example :
    Crossed 1 2 0
      (schedule net prim 7 (1 ∷ 1 ∷ 2 ∷ 3 ∷ []) crossed).pc
      crossed.pc
      (schedule net prim 7 (1 ∷ 1 ∷ 2 ∷ 3 ∷ []) crossed).map_lock
deadlock_lasts_example =
    deadlock_lasts net prim 7 (1 ∷ 1 ∷ 2 ∷ 3 ∷ []) crossed 1 2 0 crossed-IsOwned third_seeks
      still_relays

-- A relay with a client that waits in room "123", and another one that asks for it.
abbrev with_one : Room
with_one = record { first = some (socket_with []); second = none; handle = none; opened = 3 }

abbrev held : Relay net prim
held = record {
  map = (codes "123", 0) ∷ [];
  made = 1;
  room = λ o. with_one;
  map_lock = none;
  room_lock = λ o. none;
  pc = λ t. a_client;
}

only_one : (n : Bytes) (o : ℕ) → find n held.map ≡ some o → (o ≡ 0) × (codes "123" ≡ n)
unfolding find
only_one n o h = elim (Bool-cases (beq (codes "123") n)) [
  | inl same ↦ let e = rw same at h in (cc, (beq_iff (codes "123") n).0 same)
  | inr other ↦ let e = rw other at h in absurd cc
]

held-Apart : Apart held.map held.made
held-Apart = record {
  below = λ n o h. let (e, _) = only_one n o h in omega (arith, e);
  apart = λ n m o h k. sym (only_one n o h).1 ∙ (only_one m o k).1;
}

held_rooms : (n : Bytes) → at held.room (find n held.map) ≡ lookup n ((codes "123", with_one) ∷ [])
unfolding find lookup
held_rooms n = elim (Bool-cases (beq (codes "123") n)) [
  | inl same ↦ rw same refl
  | inr other ↦ rw other refl
]

tasks_negotiate_example :
    Agrees net prim config session 1
      (enter_room net prim config session
        (codes "123")
        (record { session = socket_with []; rooms = (codes "123", with_one) ∷ [] }))
      (schedule net prim 7 (1 ∷ 1 ∷ []) held)
unfolding find beq
tasks_negotiate_example =
    tasks_negotiate net prim config session (codes "123") (socket_with [])
      ((codes "123", with_one) ∷ []) 1 held held-Apart refl refl (λ o. refl) held_rooms
