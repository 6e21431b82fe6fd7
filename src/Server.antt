-- ===== src/Server.antt =====
-- src/relay/server.rs: the rooms of the relay, and what `negotiate_info` does with a new connection.
pub mod Negotiate
pub mod Keepalive
pub mod Bridge
pub mod Relaying
pub mod Tasks
pub mod Locks
pub mod Exclusion
pub mod Unwraps
pub mod Deadlock
pub mod Lookup
pub mod Answer
pub mod Names
pub mod Atomic
pub mod Start
pub mod OneRoom
use rust_croc.Common.{
  ℕ, ◌+◌, ◌≡◌, Bool, true, false, not, ◌&&◌, ◌||◌, Option, none, some, List, [], ◌∷◌, ◌++◌, map,
  length, Bytes, Outcome, ok, err, Act, ◌>>=◌, ◌>>◌, lift, return, ◌==◌, beq, if◌then◌else◌, codes,
}
use rust_croc.Std.Utf8.{from_utf8}
use rust_croc.Std.Str.{trim, join, to_string}
use rust_croc.Net.{Net, Socket}
use rust_croc.Wire
use rust_croc.Crypto.{Primitives}
use rust_croc.Enc.{EncryptedSession, reciever}
use rust_croc.Enc

-- A `JoinHandle`: whether its task has finished, and whether it was told to stop.
pub record Handle : Type 0 where
  pub finished : Bool
  pub aborted : Bool

pub record Room : Type 0 where
  pub first : Option Socket
  pub second : Option Socket
  pub handle : Option Handle
  pub opened : ℕ

abbrev pub is_some {ℓ} : {A : Type ℓ} → Option A → Bool
is_some none = false
is_some (some a) = true

-- `Room::is_running`
unfoldable pub is_running : Room → Bool
is_running r = elim r.handle [ none ↦ false | some h ↦ not h.finished ]

-- `Room::is_full`
unfoldable pub is_full : Room → Bool
unfolding is_running
is_full r = (is_some r.first && is_some r.second) || is_running r

-- `Room::stop`
unfoldable pub stop : Room → Room
stop r = record r {
  handle = elim r.handle [ none ↦ none | some h ↦ some (record h { aborted = true }) ];
}

-- `HashMap<String, Room>` as an association list.
abbrev pub Rooms : Type 0
Rooms = List (Bytes × Room)

unfoldable pub lookup : Bytes → Rooms → Option Room
lookup name [] = none
lookup name ((n, r) ∷ rooms) = if beq n name then some r else lookup name rooms

unfoldable pub insert : Bytes → Room → Rooms → Rooms
insert name r [] = (name, r) ∷ []
insert name r ((n, q) ∷ rooms) =
    if beq n name then (name, r) ∷ rooms else (n, q) ∷ insert name r rooms

unfoldable pub remove : Bytes → Rooms → Rooms
remove name [] = []
remove name ((n, q) ∷ rooms) =
    let rest = remove name rooms in if beq n name then rest else (n, q) ∷ rest

-- The new connection, and the rooms, which are locked while it is given one.
pub record Serving : Type 0 where
  pub session : Socket
  pub rooms : Rooms

abbrev pub on_session {ℓ} : {A : Type ℓ} → Act Socket A → Act Serving A
on_session m s = let (r, t) = m s.session in (r, record s { session = t })

-- The arguments of `negotiate_info` that all connections share, the time, and the nonces of its
-- messages.
pub record Config : Type 0 where
  pub relay_password : Bytes
  pub multiplex_ports : List ℕ
  pub now : ℕ
  pub denial_nonce : Bytes
  pub banner_nonce : Bytes
  pub answer_nonce : Bytes

-- The ports, or "ok", then the address of the client.
unfoldable pub banner : List ℕ → Bytes → Bytes
banner ports addr =
    (if length ports == 0 then codes "ok" else join (codes ",") (map to_string ports))
    ++ (codes "|||" ++ addr)

module _ (net : Net) (prim : Primitives) (config : Config) (enc : EncryptedSession net prim) where
  abbrev pub answer : Bytes → Bytes → Act Serving (Unit {0})
  answer nonce text = on_session (Enc.write net prim (Wire.write net) enc nonce text)

  put_room : Bytes → (Serving → Room) → Act Serving (Unit {0})
  put_room name make s = (ok tt, record s { rooms = insert name (make s) s.rooms })

  -- The arm `Some(room)`. The connection moves into the room.
  unfoldable pub join_room : Bytes → Room → Act Serving (Option Bytes)
  unfolding put_room
  join_room name room =
      if is_full room then (do answer config.answer_nonce (codes "room full"); return none) else (do
        answer config.answer_nonce (codes "ok")
        put_room name (λ s. record room { second = some s.session })
        return (some name))

  -- The arm `None`.
  unfoldable pub create_room : Bytes → Act Serving (Option Bytes)
  unfolding put_room
  create_room name = do
    answer config.answer_nonce (codes "ok")
    put_room name
        (λ s. record { first = some s.session; second = none; handle = none; opened = config.now })
    return (some name)

  -- The match on the room of that name.
  unfoldable pub enter_found : Bytes → Option Room → Act Serving (Option Bytes)
  unfolding join_room create_room
  enter_found name none = create_room name
  enter_found name (some room) = join_room name room

  unfoldable pub enter_room : Bytes → Act Serving (Option Bytes)
  unfolding enter_found
  enter_room name s = enter_found name (lookup name s.rooms) s

module _ (net : Net) (prim : Primitives) (config : Config) where
  -- A wrong password is answered, and the negotiation goes on.
  unfoldable pub check_password : EncryptedSession net prim → Bytes → Act Serving (Unit {0})
  check_password enc password =
      if beq password (trim config.relay_password)
      then return tt
      else answer net prim config enc config.denial_nonce (codes "bad password")

  -- `negotiate_info` with the session key, on a connection whose `peer_addr()` is the second argument.
  unfoldable pub negotiate_info : Bytes → Outcome Bytes → Act Serving (Option Bytes)
  unfolding check_password enter_room
  negotiate_info sym_key peer_addr = do
    enc ← on_session (Enc.new net prim sym_key reciever [])
    bs ← on_session (Enc.read net prim (Wire.read net) enc)
    password ← lift (from_utf8 bs)
    check_password enc password
    addr ← lift peer_addr
    answer net prim config enc config.banner_nonce (banner config.multiplex_ports addr)
    name ← on_session (Enc.read net prim (Wire.read net) enc)
    room_name ← lift (from_utf8 name)
    enter_room net prim config enc room_name
