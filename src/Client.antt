-- ===== src/Client.antt =====
-- src/relay/client.rs: `RelayClient`, the relay's client.
pub mod Negotiate
pub mod Keepalive
pub mod Runs
pub mod Handshake
pub mod Connect
pub mod Meeting
pub mod Connected
use rust_croc.Common.{
  ℕ, zero, suc, ◌+◌, ◌≡◌, Bool, true, false, not, ◌&&◌, ◌||◌, Option, none, some, List, [], ◌∷◌,
  ◌++◌, length, take, get_elem?, Bytes, Outcome, ok, err, panic, Act, round, ◌>>=◌, ◌>>◌, lift,
  return, fail, unwrap, ltb, ◌==◌, beq, if◌then◌else◌, codes, bad_shared_secret, bad_response,
  room_full, room_negotiation_failed, unknown_keepalive_message, no_external_ip, ok_or,
}
use rust_croc.Std.Utf8.{from_utf8}
use rust_croc.Std.Str.{contains, split}
use rust_croc.Net.{Net, Socket}
use rust_croc.Wire
use rust_croc.Crypto.{Primitives}
use rust_croc.Enc.{EncryptedSession, sender}
use rust_croc.Enc
use rust_croc.Pake.{PakeCrate, negotiate_symmetric_key}
use rust_croc.Json.{Json}
use rust_croc.Std.Slice.{str_prefix}

pub record RelayClient : Type 0 where
  pub stream : Socket
  pub relay_ports : List Bytes
  pub external_ip : Option Bytes
  pub disable_local : Bool
  pub shared_secret : Bytes

abbrev pub on_stream {ℓ} : {A : Type ℓ} → Act Socket A → Act RelayClient A
on_stream m c = let (r, s) = m c.stream in (r, record c { stream = s })

-- What the random generator gives to one connection.
pub record Random : Type 0 where
  pub pake : Bytes
  pub salt : Bytes
  pub password_nonce : Bytes
  pub room_nonce : Bytes

module _ (net : Net) (prim : Primitives) where
  abbrev pub tell : EncryptedSession net prim → Bytes → Bytes → Act RelayClient (Unit {0})
  tell enc nonce text = on_stream (Enc.write net prim (Wire.write net) enc nonce text)

  abbrev pub hear : EncryptedSession net prim → Act RelayClient Bytes
  hear enc = on_stream (Enc.read net prim (Wire.read net) enc)

  -- `message.split("|||")`, of which the first two pieces are taken, and the ports of the first.
  unfoldable pub take_banner : Bytes → Act RelayClient (Unit {0})
  take_banner message =
      let info = split (codes "|||") message in
      do
        banner ← lift (unwrap (get_elem? info 0))
        ipaddr ← lift (unwrap (get_elem? info 1))
        λ c. (ok tt, record c { external_ip = some ipaddr; relay_ports = split (codes ",") banner })

  -- What the answer to the name of the room means.
  unfoldable pub take_answer : Bytes → Bytes → Act RelayClient (Unit {0})
  take_answer room response =
      if beq response (codes "ok")
      then return tt
      else if beq response (codes "room full")
      then fail (room_full room)
      else fail room_negotiation_failed

  -- `negotiate_info`
  unfoldable pub negotiate_info : Random → Bytes → Bytes → Bytes → Act RelayClient (Unit {0})
  unfolding take_banner take_answer
  negotiate_info random sym_key password room = do
    enc ← on_stream (Enc.new net prim sym_key sender random.salt)
    tell enc random.password_nonce password
    bs ← hear enc
    message ← lift (from_utf8 bs)
    if contains (codes "|||") message
        then (do
          take_banner message
          tell enc random.room_nonce room
          response ← hear enc
          take_answer room response)
        else fail (bad_response message)

  -- The two negotiations of `connect`. The room is the start of the shared secret.
  unfoldable pub negotiate : PakeCrate → Random → Bytes → Bytes → Act RelayClient (Unit {0})
  negotiate pake random password shared_secret = do
    sym_key ← on_stream (negotiate_symmetric_key net pake sender random.pake)
    room ← lift (str_prefix 3 shared_secret)
    negotiate_info random sym_key password room

  unfoldable pub connected_as : Outcome (Unit {0}) × RelayClient → Outcome RelayClient
  connected_as (ok _, c) = ok c
  connected_as (err e, c) = err e
  connected_as (panic, c) = panic

  unfoldable pub connect_over :
      PakeCrate → Random → Outcome Socket → Bytes → Bytes → Bool → Outcome RelayClient
  connect_over pake random (ok s) password shared_secret disable_local = connected_as (
      negotiate pake random password shared_secret (record {
        stream = s;
        relay_ports = [];
        external_ip = none;
        disable_local = disable_local;
        shared_secret = shared_secret;
      }))
  connect_over pake random (err e) password shared_secret disable_local = err e
  connect_over pake random panic password shared_secret disable_local = panic

  -- `connect`, on the result of `CrocProto::connect`.
  unfoldable pub connect :
      PakeCrate → Random → Outcome Socket → Bytes → Bytes → Bool → Outcome RelayClient
  unfolding connect_over connected_as negotiate
  connect pake random connected password shared_secret disable_local =
      if ltb (length shared_secret) 4
      then err (bad_shared_secret shared_secret)
      else connect_over pake random connected password shared_secret disable_local

-- An interface of the machine: its IPv4 addresses as texts, each with `is_loopback()`.
abbrev pub Interface : Type 0
Interface = List (Bytes × Bool)

-- The addresses that are not loopback.
unfoldable pub outward : Interface → List Bytes
outward [] = []
outward ((ip, loopback) ∷ ips) = if loopback then outward ips else ip ∷ outward ips

unfoldable pub outward_all : List Interface → List Bytes
unfolding outward
outward_all [] = []
outward_all (i ∷ is) = outward i ++ outward_all is

module _ (net : Net) (json : Json (List Bytes)) (interfaces : List Interface) where
  -- The answer to "ips?": the first port (a panic if there is none), then the addresses.
  unfoldable pub local_ips : RelayClient → Outcome (List Bytes)
  unfolding outward_all
  local_ips c = if c.disable_local then ok [] else elim (get_elem? c.relay_ports 0) [
    | none ↦ panic
    | some port ↦ ok (port ∷ outward_all interfaces)
  ]

  -- The match of `handle_keepalive` on one message; true for its `return`.
  unfoldable pub on_keepalive : Bytes → Act RelayClient Bool
  unfolding local_ips
  on_keepalive message =
      if beq message (codes "ips?")
      then (do
        ips ← λ c. (local_ips c, c)
        text ← lift (json.to_string ips)
        on_stream (Wire.write net text)
        return false)
      else if beq message (codes "handshake")
      then return true
      else if beq message (1 ∷ [])
      then return false
      else fail (unknown_keepalive_message message)

  -- The loop of `handle_keepalive`, for at most so many messages; false when these are used up.
  unfoldable pub keepalive_loop : ℕ → Act RelayClient Bool
  unfolding on_keepalive
  keepalive_loop zero = return false
  keepalive_loop (suc fuel) = do
    message ← on_stream (Wire.read net)
    done ← on_keepalive message
    elim done [ true ↦ return true | false ↦ keepalive_loop fuel ]

  -- `handle_keepalive`, which logs its own address before the loop.
  unfoldable pub handle_keepalive : ℕ → Act RelayClient Bool
  unfolding keepalive_loop
  handle_keepalive fuel = do addr ← λ c. (net.local_addr c.stream, c); keepalive_loop fuel
