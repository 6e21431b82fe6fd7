-- ===== src/Echo/Relayed.antt =====
-- The two clients of the test, over one relay.
use rust_croc.Common.{
  ℕ, ◌^◌, ◌<◌, ◌≡◌, refl, ◌∙◌, true, false, none, some, List, [], ◌++◌, append_assoc, append-nil,
  length, Bytes, ok, beq, codes, arith,
}
use rust_croc.Net.{Net, Socket}
use rust_croc.Wire.RoundTrip.{framed, write_lem, read-framed}
use rust_croc.Wire.Tasks.{wire}
use rust_croc.Crypto.{Primitives}
use rust_croc.Pake.{PakeCrate}
use rust_croc.Json.{Json}
use rust_croc.Server.{Rooms, lookup, Config}
use rust_croc.Server.Keepalive.{pings, pings-IsWaiting, replies-pings}
use rust_croc.Client.{Random, Interface, local_ips}
use rust_croc.Client.Meeting.{CanJoin}
use rust_croc.Msg.{Message}
use rust_croc.Session.{new}
use rust_croc.Program.Relay.{Ends, made, RelayRun, relay_run}
use rust_croc.Program.Transfer.{hears, wait_for_receiver_lem, connect_to_sender_lem}
use rust_croc.Echo
use rust_croc.Echo.{call, echo, call_waited, echo_greeted, call_by, echo_by, client_a, client_b}
use rust_croc.Std.Slice.{str_prefix}

module _ (net : Net) (prim : Primitives) (pake : PakeCrate) (json : Json Message) where
  call_lem :
      (s : Socket)
      → s.writable ≡ true
      → call net prim pake json (record s { incoming = framed Echo.msg ++ [] })
        ≡ (ok tt, record s { incoming = []; sent = s.sent ++ framed Echo.msg })
  unfolding call beq
  call_lem s w =
      rw
        (
          write_lem net Echo.msg (record s { incoming = framed Echo.msg ++ [] }) (omega arith) w,
          read-framed net Echo.msg [] (record s { sent = s.sent ++ framed Echo.msg }) (omega arith),
        )
        refl

  echo_lem :
      (m : Bytes) (s : Socket)
      → length m < 2 ^ 32
      → s.writable ≡ true
      → echo net prim pake json (record s { incoming = framed m ++ [] })
        ≡ (ok tt, record s { incoming = []; sent = s.sent ++ framed m })
  unfolding echo
  echo_lem m s fits w =
      rw (read-framed net m [] s fits, write_lem net m (record s { incoming = [] }) fits w) refl

  module _ (config config' : Config) (draw draw' : Random) (theirs theirs' addr addr' : Bytes)
      (amount amount' n : ℕ) (x y : Ends) where
    -- Take the clients client_a and client_b of test_relay that connect to one relay, with its
    -- password and whose room 123 the relay does not have yet; random data and messages of the
    -- lengths that the cipher and the frames take, public keys whose texts fit a frame, addresses
    -- without a vertical bar, sockets that take bytes, and a client_a that has its own addresses to
    -- tell. Then there are bytes that each of the two says and hears such that handle of the relay,
    -- reading what client_a says, makes the room; its keepalive sends so many pings; handle,
    -- reading what client_b says, gives it the second place; bridge_sockets between these two
    -- sockets can come to where the relay has sent to each exactly what it hears; and client_a,
    -- waiting for more messages than there are pings, and client_b read all that they hear, send
    -- what they say, and end well, so that the assertion of client_a holds.
    pub echo_relayed :
        (rooms : Rooms) (texts : Json (List Bytes)) (interfaces : List Interface) (ips : List Bytes)
        (fuel : ℕ)
        → ((p : pake.PubKey) → length (pake.json.text p) < 2 ^ 32)
        → CanJoin net prim config draw (codes "pass123") (codes "123") addr
        → CanJoin net prim config' draw' (codes "pass123") (codes "123") addr'
        → lookup (codes "123") rooms ≡ none
        → length (pings n) < fuel
        → local_ips net texts interfaces
            (made net prim pake config addr (codes "12345") false x.client [])
          ≡ ok ips
        → length (texts.text ips) < 2 ^ 32
        → (said : Bytes) × (heard : Bytes) × (said' : Bytes) × (heard' : Bytes) × (s : Socket)
          × (r : Socket) × RelayRun net prim pake config config'
              (codes "123")
              theirs
              theirs'
              addr
              addr'
              amount
              amount'
              n
              x
              y
              rooms
              said
              heard
              said'
              heard'
          × (client_a net prim pake json texts interfaces fuel draw
                (ok (record x.client { incoming = heard }))
              ≡ (ok true, some s))
          × (client_b net prim pake json draw' (ok (record y.client { incoming = heard' }))
              ≡ (ok true, some r))
          × (s.sent ≡ x.client.sent ++ said)
          × (r.sent ≡ y.client.sent ++ said')
          × (s.incoming ≡ [])
          × (r.incoming ≡ [])
    unfolding client_a client_b call_by echo_by call_waited echo_greeted Echo.ended local_ips new
        str_prefix
    echo_relayed rooms texts interfaces ips fuel short j j' no_room enough own ips_fit =
        let (up, down, up', down', served, joins, joins') =
          relay_run net prim pake config config' draw draw' (codes "pass123") (codes "123")
            (codes "12345") theirs theirs' addr addr' amount amount' n false false x y rooms short
            (omega arith) refl j j' no_room in
        let hello = framed Echo.msg in
        let greets = framed (codes "handshake") in
        let asks = greets ++ (hello ++ []) in
        let c = made net prim pake config addr (codes "12345") false x.client up in
        let c' = made net prim pake config' addr' (codes "12345") false y.client up' in
        (
          up ++ (hello ++ []),
          down ++ (wire (pings n) ++ asks),
          up' ++ asks,
          down' ++ (hello ++ []),
          record c.stream { sent = (x.client.sent ++ up) ++ hello },
          record c'.stream { sent = ((y.client.sent ++ up') ++ greets) ++ hello },
          served (hello ++ []) asks,
          rw
              (
                joins (wire (pings n) ++ asks),
                wait_for_receiver_lem net prim pake json texts interfaces (pings n) (hello ++ [])
                    fuel c addr (pings-IsWaiting n) enough own ips_fit refl x.client_takes,
                replies-pings (texts.text ips) n,
                append-nil c.stream.sent,
                call_lem c.stream x.client_takes,
              )
              refl,
          rw
              (
                joins' (hello ++ []),
                connect_to_sender_lem net prim pake json (hears (hello ++ []) c') addr' refl
                    y.client_takes,
                echo_lem Echo.msg (record c'.stream { sent = c'.stream.sent ++ greets })
                    (omega arith) y.client_takes,
              )
              refl,
          append_assoc x.client.sent up hello ∙ rw (append-nil hello) refl,
          append_assoc (y.client.sent ++ up') greets hello
              ∙ append_assoc y.client.sent up' (greets ++ hello)
              ∙ rw (append-nil hello) refl,
          refl,
          refl,
        )
