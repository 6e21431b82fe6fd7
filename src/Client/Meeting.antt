-- ===== src/Client/Meeting.antt =====
-- Two clients that `connect` to one relay, with one secret: they meet in a room.
use rust_croc.Common.{
  ℕ, ◌^◌, ◌<◌, ◌≤◌, ◌≡◌, refl, ap, ◌∙◌, inl, inr, true, false, Bool, Option, none, some, [], ◌++◌,
  length, Bytes, Outcome, ok, beq, beq_refl, codes,
}
use rust_croc.Std.Utf8.{is_utf8}
use rust_croc.Std.Str.{trim, Lacks}
use rust_croc.Net.{Net, Socket}
use rust_croc.Wire.Tasks.{wire}
use rust_croc.Crypto.{Primitives}
use rust_croc.Pake.{PakeCrate}
use rust_croc.Server.{Room, Rooms, is_full, is_running, lookup, insert, Config}
use rust_croc.Server.Lookup.{lookup-insert}
use rust_croc.Server.Negotiate.{reply, IsReady}
use rust_croc.Server.Answer.{handle}
use rust_croc.Server.Keepalive.{pings, keepalive, keepalive_lem}
use rust_croc.Client.{RelayClient, Random, connected_as, connect}
use rust_croc.Client.Runs.{verdict, IsClient}
use rust_croc.Client.Handshake.{settled}
use rust_croc.Client.Connect.{fresh, Ends, connect-handle_any}
use rust_croc.Std.Slice.{str_prefix}

-- A client of this address that the relay lets in.
pub record CanJoin (net : Net) (prim : Primitives) (config : Config) (random : Random)
    (password room addr : Bytes) : Type 0 where
  pub right : beq password (trim config.relay_password) ≡ true
  pub client : IsClient net prim random password room
  pub text : is_utf8 [] addr ≡ true
  pub bars : Lacks b'|' addr
  pub ready : IsReady prim config addr

-- The room of one connection, and of two.
abbrev pub alone : ℕ → Socket → Room
alone now a = record { first = some a; second = none; handle = none; opened = now }

abbrev pub together : ℕ → Socket → Socket → Room
together now a b = record { first = some a; second = some b; handle = none; opened = now }

alone-free : (now : ℕ) (a : Socket) → is_full (alone now a) ≡ false
unfolding is_full is_running
alone-free now a = refl

alone-reply : (now : ℕ) (a : Socket) → reply (some (alone now a)) ≡ codes "ok"
alone-reply now a = rw (alone-free now a) refl

lookup-alone :
    (room : Bytes) (r : Room) (rooms : Rooms) → lookup room (insert room r rooms) ≡ some r
lookup-alone room r rooms = rw (lookup-insert room room r rooms, beq_refl room) refl

module _ (net : Net) (prim : Primitives) (pake : PakeCrate) where
  Ends-ok :
      (config : Config) (password room : Bytes) (found : Option Room) (d : RelayClient)
      (r : Outcome RelayClient)
      → Ends net prim pake config password room found d r
      → beq password (trim config.relay_password) ≡ true
      → verdict room found ≡ ok tt
      → r ≡ ok d
  unfolding connected_as
  Ends-ok config password room found d r (inl (right, e)) h fine = rw (e, fine) refl
  Ends-ok config password room found d r (inr (wrong, e)) h fine = absurd cc

  module _ (config config' : Config) (random random' : Random) (password room secret : Bytes)
      (theirs theirs' addr addr' : Bytes) (amount amount' n : ℕ) (local local' : Bool) where
    -- Take two clients that connect to one relay one after the other, with its password and one
    -- secret of at least four bytes whose first three are the room, which is not there yet; random
    -- data and messages of the lengths that the cipher and the frames take, public keys whose texts
    -- fit a frame, addresses without a vertical bar and sockets that take bytes. Then there are
    -- bytes that each of the two says and hears such that, whatever comes behind them, handle of
    -- the first makes the room with its connection in first place, the keepalive sends so many
    -- pings to it, and handle of the second gives it the second place, each leaving what comes
    -- behind unread; and connect of each of the two, reading what it hears, gives a client that has
    -- sent what it says, knows its address and the ports, and has what comes behind still to read.
    pub clients_meet :
        (rooms : Rooms) (a b c c' : Socket)
        → ((p : pake.PubKey) → length (pake.json.text p) < 2 ^ 32)
        → 4 ≤ length secret
        → str_prefix 3 secret ≡ ok room
        → CanJoin net prim config random password room addr
        → CanJoin net prim config' random' password room addr'
        → a.writable ≡ true
        → b.writable ≡ true
        → c.writable ≡ true
        → c'.writable ≡ true
        → lookup room rooms ≡ none
        → (up : Bytes) × (down : Bytes) × (up' : Bytes) × (down' : Bytes) × ((rest rest' : Bytes)
            → let t : Socket = record a { incoming = rest; sent = a.sent ++ down } in
              let k : Socket = record t { sent = t.sent ++ wire (pings n) } in
              let t' : Socket = record b { incoming = rest'; sent = b.sent ++ down' } in
              (handle net prim pake config
                  (ok amount)
                  theirs
                  (ok addr)
                  (record { session = record a { incoming = up ++ rest }; rooms = rooms })
                ≡ (
                  ok (some room),
                  record { session = t; rooms = insert room (alone config.now t) rooms },
                ))
              × (keepalive net n t ≡ (ok tt, k))
              × (handle net prim pake config' (ok amount') theirs' (ok addr') (record {
                session = record b { incoming = up' ++ rest' };
                rooms = insert room (alone config.now k) rooms;
              })
                  ≡ (
                    ok (some room),
                    record {
                      session = t';
                      rooms =
                          insert room
                            (together config.now k t')
                            (insert room (alone config.now k) rooms);
                    },
                  )))
          × ((heard : Bytes)
              → connect net prim pake random
                  (ok (record c { incoming = down ++ heard }))
                  password
                  secret
                  local
                ≡ ok
                    (settled config addr (c.sent ++ up) heard (fresh net prim pake c secret local)))
          × ((heard : Bytes)
              → connect net prim pake random'
                  (ok (record c' { incoming = down' ++ heard }))
                  password
                  secret
                  local'
                ≡ ok (
                    settled config' addr'
                      (c'.sent ++ up')
                      heard
                      (fresh net prim pake c' secret local')))
    clients_meet rooms a b c c' short long prefix j j' wa wb wc wc' no_room =
        let waiting = alone config.now a in
        let (up, down, served, ended) =
          connect-handle_any net prim pake config random theirs password room addr secret amount
            local none a c short long prefix j.client j.text j.bars j.ready wa wc in
        let (up', down', served', ended') =
          connect-handle_any net prim pake config' random' theirs' password room addr' secret
            amount' local' (some waiting) b c' short long prefix j'.client j'.text j'.bars j'.ready
            wb wc' in
        (
          up,
          down,
          up',
          down',
          λ rest rest'.
              let t : Socket = record a { incoming = rest; sent = a.sent ++ down } in
              let k : Socket = record t { sent = t.sent ++ wire (pings n) } in
              let there = lookup-alone room (alone config.now k) rooms in
              let found : reply (lookup room (insert room (alone config.now k) rooms))
                  ≡ reply (some waiting) =
                ap reply there ∙ rw (alone-free config.now k, alone-free config.now a) refl in
              (
                rw no_room at (served rest rooms (ap reply no_room)),
                keepalive_lem net n t wa,
                rw (there, alone-free config.now k) at
                    (served' rest' (insert room (alone config.now k) rooms) found),
              ),
          λ heard. Ends-ok config password room none _ _ (ended heard) j.right refl,
          λ heard.
              Ends-ok config' password room (some waiting) _ _ (ended' heard) j'.right
                (rw (alone-free config.now a) refl),
        )
