-- ===== src/Server/Tasks.antt =====
-- src/relay/server.rs: the tasks that run `handle`, from where `negotiate_info` has read the name of
-- a room, with the lock of the map of rooms and the lock of each room.
use rust_croc.Common.{
  ℕ, ◌+◌, Option, none, some, List, [], ◌∷◌, Bytes, Outcome, ok, err, panic, ◌==◌, beq,
  if◌then◌else◌, codes,
}
use rust_croc.Net.{Net, Socket}
use rust_croc.Wire
use rust_croc.Crypto.{Primitives}
use rust_croc.Enc.{EncryptedSession}
use rust_croc.Enc
use rust_croc.Server.{Room, is_full}

-- Where a task stands. A name is that of its room, a number an `Arc` of the room.
pub data Pc (net : Net) (prim : Primitives) : Type 0 where
  -- `negotiate_info`, before the lock of the map; and with it, before the lock of the room.
  asking : Bytes → EncryptedSession net prim → Bytes → Socket → Pc net prim
  looking : Bytes → EncryptedSession net prim → Bytes → Socket → ℕ → Pc net prim
  -- `handle`, before the lock of the map; with the `Arc`, before the lock of the room; with the lock
  -- of the room, while two connections are bridged; and behind that, before the lock of the map.
  entered : Bytes → Pc net prim
  starting : Bytes → ℕ → Pc net prim
  relaying : Bytes → ℕ → Socket → Socket → Pc net prim
  ending : Bytes → ℕ → Pc net prim
  -- `do_keepalive`, before the lock of the map; and in its loop, before the lock of the room.
  reopening : Bytes → Pc net prim
  pinging : ℕ → Pc net prim
  -- At the end, or after an error; and after a panic of `second.take().unwrap()` or of the other.
  over unwrapped : Pc net prim

-- The map of rooms, the rooms that were ever made, who has which lock, and the tasks.
pub record Relay (net : Net) (prim : Primitives) : Type 0 where
  pub map : List (Bytes × ℕ)
  pub made : ℕ
  pub room : ℕ → Room
  pub map_lock : Option ℕ
  pub room_lock : ℕ → Option ℕ
  pub pc : ℕ → Pc net prim

-- A function changed at one argument.
abbrev pub update {ℓ} : {A : Type ℓ} → (ℕ → A) → ℕ → A → ℕ → A
update f n a m = if m == n then a else f m

unfoldable pub find : Bytes → List (Bytes × ℕ) → Option ℕ
find name [] = none
find name ((n, o) ∷ map) = if beq n name then some o else find name map

unfoldable pub drop_room : Bytes → List (Bytes × ℕ) → List (Bytes × ℕ)
drop_room name [] = []
drop_room name ((n, o) ∷ map) =
    let rest = drop_room name map in if beq n name then rest else (n, o) ∷ rest

-- `lock().await` of a lock that is free, or a task that waits and changes nothing.
unfoldable pub when_free {ℓ} : {A : Type ℓ} → Option ℕ → A → A → A
when_free none go wait = go
when_free (some owner) go wait = wait

module _ (net : Net) (prim : Primitives) where
  -- The connections that a relaying task takes out of its room.
  unfoldable pub take_both : Option Socket → Option Socket → Bytes → ℕ → Pc net prim
  take_both (some first) (some second) name o = relaying name o second first
  take_both none second name o = unwrapped
  take_both (some first) none name o = unwrapped

  abbrev pub told : EncryptedSession net prim → Bytes → Bytes → Socket → Outcome (Unit {0}) × Socket
  told enc nonce text = Enc.write net prim (Wire.write net) enc nonce text

  module _ (now : ℕ) where
    abbrev Move : Type 0
    Move = ℕ → Relay net prim → Relay net prim

    abbrev goes : Pc net prim → Move
    goes p t s = record s { pc = update s.pc t p }

    -- The arm `None` of `negotiate_info`, under the lock of the map.
    unfoldable pub made_room : Bytes → Outcome (Unit {0}) × Socket → Move
    made_room name (ok _, session) t s = record s {
      map = (name, s.made) ∷ s.map;
      made = s.made + 1;
      room =
          update s.room s.made
            (record { first = some session; second = none; handle = none; opened = now });
      pc = update s.pc t (entered name);
    }
    made_room name (err e, session) t s = goes over t s
    made_room name (panic, session) t s = goes over t s

    -- The lookup of `negotiate_info`: a room that is there is locked while the map stays locked.
    unfoldable pub ask : Bytes → EncryptedSession net prim → Bytes → Socket → Option ℕ → Move
    unfolding made_room
    ask name enc nonce session none t s = made_room name (told enc nonce (codes "ok") session) t s
    ask name enc nonce session (some o) t s = record s {
      map_lock = some t;
      pc = update s.pc t (looking name enc nonce session o);
    }

    -- The arm `Some(room)`: the second place of the room, unless the write has failed.
    unfoldable pub joined : Bytes → ℕ → Outcome (Unit {0}) × Socket → Move
    joined name o (ok _, session) t s = record s {
      room = update s.room o (record (s.room o) { second = some session });
      map_lock = none;
      pc = update s.pc t (entered name);
    }
    joined name o (err e, session) t s = record s { map_lock = none; pc = update s.pc t over }
    joined name o (panic, session) t s = record s { map_lock = none; pc = update s.pc t over }

    -- The arm `Some(room)`, with both locks. A full room is refused, and `handle` is over.
    unfoldable pub join : Bytes → EncryptedSession net prim → Bytes → Socket → ℕ → Move
    unfolding joined
    join name enc nonce session o t s =
        if is_full (s.room o)
        then record s { map_lock = none; pc = update s.pc t over }
        else joined name o (told enc nonce (codes "ok") session) t s

    unfoldable pub enter : Bytes → Option ℕ → Move
    enter name none = goes over
    enter name (some o) = goes (starting name o)

    -- The test of `handle`, with the lock of the room, which only the relaying keeps.
    unfoldable pub start : Bytes → ℕ → Move
    unfolding take_both
    start name o t s =
        if is_full (s.room o)
        then record s {
          room = update s.room o (record (s.room o) { first = none; second = none });
          room_lock = update s.room_lock o (some t);
          pc = update s.pc t (take_both (s.room o).first (s.room o).second name o);
        }
        else goes (reopening name) t s

    -- The end of the relaying, with both locks.
    unfoldable pub finish : Bytes → ℕ → Move
    finish name o t s = record s {
      map = drop_room name s.map;
      room = update s.room o (record (s.room o) { first = none; second = none });
      room_lock = update s.room_lock o none;
      pc = update s.pc t over;
    }

    unfoldable pub reopen : Option ℕ → Move
    reopen none = goes over
    reopen (some o) = goes (pinging o)

    -- How a ping ends: the loop of `do_keepalive` goes on after a write without an error.
    unfoldable pub pinged : ℕ → Outcome (Unit {0}) × Socket → Move
    pinged o (ok _, k) t s = record s {
      room = update s.room o (record (s.room o) { first = some k });
    }
    pinged o (err e, k) t s = record s {
      room = update s.room o (record (s.room o) { first = some k });
      pc = update s.pc t over;
    }
    pinged o (panic, k) t s = record s {
      room = update s.room o (record (s.room o) { first = some k });
      pc = update s.pc t over;
    }

    -- One round of the loop, with the lock of the room.
    unfoldable pub ping : ℕ → Option Socket → Move
    unfolding pinged
    ping o none = goes over
    ping o (some k) = pinged o (Wire.write net (1 ∷ []) k)

    -- What a task does up to its next `await`, or that it waits.
    unfoldable pub act : Pc net prim → Move
    unfolding when_free ask join enter start finish reopen ping
    act (asking name enc nonce session) t s =
        when_free s.map_lock (ask name enc nonce session (find name s.map) t s) s
    act (looking name enc nonce session o) t s =
        when_free (s.room_lock o) (join name enc nonce session o t s) s
    act (entered name) t s = when_free s.map_lock (enter name (find name s.map) t s) s
    act (starting name o) t s = when_free (s.room_lock o) (start name o t s) s
    act (relaying name o a b) t s = goes (ending name o) t s
    act (ending name o) t s = when_free s.map_lock (finish name o t s) s
    act (reopening name) t s = when_free s.map_lock (reopen (find name s.map) t s) s
    act (pinging o) t s = when_free (s.room_lock o) (ping o (s.room o).first t s) s
    act over t s = s
    act unwrapped t s = s

    -- The tasks in any order, each as often as the scheduler lets it go on.
    unfoldable pub schedule : List ℕ → Relay net prim → Relay net prim
    unfolding act
    schedule [] s = s
    schedule (t ∷ ts) s = schedule ts (act (s.pc t) t s)
