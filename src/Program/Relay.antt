-- ===== src/Program/Relay.antt =====
-- src/relay/server.rs: what the relay does for two programs that find each other over it.
use rust_croc.Common.{
  ℕ, ◌^◌, ◌<◌, ◌≤◌, ◌≡◌, refl, Bool, true, none, some, List, [], ◌∷◌, ◌++◌, append_assoc, length,
  get_elem?, Bytes, ok, codes, ◌∙◌,
}
use rust_croc.Std.Str.{to_string}
use rust_croc.Net.{Net, Socket}
use rust_croc.Wire.Tasks.{wire}
use rust_croc.Crypto.{Primitives}
use rust_croc.Pake.{PakeCrate}
use rust_croc.Server.{Rooms, lookup, insert, Config}
use rust_croc.Server.Answer.{handle}
use rust_croc.Server.Keepalive.{pings, keepalive}
use rust_croc.Server.Bridge.{Bridge, Bridged}
use rust_croc.Server.Relaying.{emptied, bridge_empties}
use rust_croc.Client.{RelayClient, Random, connect}
use rust_croc.Client.Negotiate.{port_names}
use rust_croc.Client.Connected.{IsConnected}
use rust_croc.Client.Handshake.{settled}
use rust_croc.Client.Connect.{fresh}
use rust_croc.Client.Meeting.{CanJoin, alone, together, clients_meet}
use rust_croc.Std.Slice.{str_prefix}

-- The port that a client takes to be the first.
abbrev pub first_port : List ℕ → Bytes
first_port [] = codes "ok"
first_port (p ∷ ps) = to_string p

pub first_port_lem : (ports : List ℕ) → get_elem? (port_names ports) 0 ≡ some (first_port ports)
first_port_lem [] = refl
first_port_lem (p ∷ ps) = refl

-- The two ends of the connection of a program, and that both take bytes.
pub record Ends : Type 0 where
  pub relay : Socket
  pub client : Socket
  pub relay_takes : relay.writable ≡ true
  pub client_takes : client.writable ≡ true

module _ (net : Net) (prim : Primitives) (pake : PakeCrate) where
  -- The client that `connect` makes of a socket on which so much has been sent.
  abbrev pub made : Config → (addr secret : Bytes) → Bool → Socket → Bytes → RelayClient
  made config addr secret local c up =
      settled config addr (c.sent ++ up) [] (fresh net prim pake c secret local)

  abbrev pub made-IsConnected :
      (config : Config) (addr secret : Bytes) (local : Bool) (c : Socket) (up : Bytes)
      → IsConnected secret (made config addr secret local c up)
  made-IsConnected config addr secret local c up = record {
    kept = refl;
    ip = addr;
    told = refl;
    port = first_port config.multiplex_ports;
    first = first_port_lem config.multiplex_ports;
  }

  -- The relay's run over two connections that have said and heard so much: `handle` of the first
  -- makes the room, which is kept alive with so many pings, `handle` of the second joins it, and the
  -- bridge between them comes to where each has been sent what it has heard.
  pub record RelayRun (config config' : Config) (room theirs theirs' addr addr' : Bytes)
      (amount amount' n : ℕ) (x y : Ends) (rooms : Rooms) (said heard said' heard' : Bytes)
      : Type 0 where
    pub t : Socket
    pub k : Socket
    pub t' : Socket
    pub b : Bridge
    pub first :
        handle net prim pake config
          (ok amount)
          theirs
          (ok addr)
          (record { session = record x.relay { incoming = said }; rooms = rooms })
        ≡ (ok (some room), record { session = t; rooms = insert room (alone config.now t) rooms })
    pub alive : keepalive net n t ≡ (ok tt, k)
    pub second :
        handle net prim pake config' (ok amount') theirs' (ok addr') (record {
          session = record y.relay { incoming = said' };
          rooms = insert room (alone config.now k) rooms;
        })
        ≡ (
          ok (some room),
          record {
            session = t';
            rooms = insert room (together config.now k t') (insert room (alone config.now k) rooms);
          },
        )
    pub bridged : Bridged net (record { a = t'; b = k }) b
    pub to_first : b.b.sent ≡ x.relay.sent ++ heard
    pub to_second : b.a.sent ≡ y.relay.sent ++ heard'

  module _ (config config' : Config) (draw draw' : Random) (password room secret : Bytes)
      (theirs theirs' addr addr' : Bytes) (amount amount' n : ℕ) (local local' : Bool)
      (x y : Ends) where
    -- Behind what `connect` says and hears, the programs may say and hear anything.
    pub relay_run :
        (rooms : Rooms)
        → ((p : pake.PubKey) → length (pake.json.text p) < 2 ^ 32)
        → 4 ≤ length secret
        → str_prefix 3 secret ≡ ok room
        → CanJoin net prim config draw password room addr
        → CanJoin net prim config' draw' password room addr'
        → lookup room rooms ≡ none
        → (up : Bytes) × (down : Bytes) × (up' : Bytes) × (down' : Bytes) × ((gives asks : Bytes)
            → RelayRun config config' room theirs theirs' addr addr' amount amount' n x y rooms
                (up ++ gives)
                (down ++ (wire (pings n) ++ asks))
                (up' ++ asks)
                (down' ++ gives))
          × ((heard : Bytes)
              → connect net prim pake draw
                  (ok (record x.client { incoming = down ++ heard }))
                  password
                  secret
                  local
                ≡ ok (
                    settled config addr
                      (x.client.sent ++ up)
                      heard
                      (fresh net prim pake x.client secret local)))
          × ((heard : Bytes)
              → connect net prim pake draw'
                  (ok (record y.client { incoming = down' ++ heard }))
                  password
                  secret
                  local'
                ≡ ok (
                    settled config' addr'
                      (y.client.sent ++ up')
                      heard
                      (fresh net prim pake y.client secret local')))
    relay_run rooms short long prefix j j' no_room =
        let (up, down, up', down', served, joins, joins') =
          clients_meet net prim pake config config' draw draw' password room secret theirs theirs'
            addr addr' amount amount' n local local' rooms x.relay y.relay x.client y.client short
            long prefix j j' x.relay_takes y.relay_takes x.client_takes y.client_takes no_room in
        (
          up,
          down,
          up',
          down',
          λ gives asks.
              let (first, pinged, second) = served gives asks in
              let t : Socket = record x.relay { incoming = gives; sent = x.relay.sent ++ down } in
              let k : Socket = record t { sent = t.sent ++ wire (pings n) } in
              let t' : Socket = record y.relay { incoming = asks; sent = y.relay.sent ++ down' } in
              let bridge : Bridge = record { a = t'; b = k } in
              record {
                t = t;
                k = k;
                t' = t';
                b = emptied net bridge;
                first = first;
                alive = pinged;
                second = second;
                bridged = bridge_empties net bridge y.relay_takes x.relay_takes;
                to_first =
                    append_assoc (x.relay.sent ++ down) (wire (pings n)) asks
                    ∙ append_assoc x.relay.sent down (wire (pings n) ++ asks);
                to_second = append_assoc y.relay.sent down' gives;
              },
          joins,
          joins',
        )
