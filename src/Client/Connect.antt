-- ===== src/Client/Connect.antt =====
-- The client's `connect` and the server's `handle`, run against each other.
use rust_croc.Common.{
  ℕ, ◌^◌, ◌<◌, ◌≤◌, ◌≡◌, refl, ap, ◌∙◌, inl, inr, ◌⊎◌, true, false, Bool, Option, none, [], ◌++◌,
  append_assoc, length, Bytes, Outcome, ok, err, panic, beq, codes, le→ltb, bad_response, Error,
}
use rust_croc.Std.Utf8.{is_utf8}
use rust_croc.Std.Str.{trim, Lacks}
use rust_croc.Net.{Net, Socket}
use rust_croc.Wire.RoundTrip.{framed}
use rust_croc.Crypto.{Primitives}
use rust_croc.Pake.{PakeCrate}
use rust_croc.Pake.Agree.{negotiate_any}
use rust_croc.Server.{Room, lookup, Serving, Config, Rooms}
use rust_croc.Server.Negotiate.{placed, entered, IsReady, reply}
use rust_croc.Server.Answer.{handle, handle-framed}
use rust_croc.Client
use rust_croc.Client.{RelayClient, Random, negotiate, connected_as, connect_over, connect}
use rust_croc.Client.Runs.{verdict, IsClient}
use rust_croc.Client.Handshake.{settled, handshake_any}
use rust_croc.Std.Slice.{str_prefix}

module _ (net : Net) (prim : Primitives) (pake : PakeCrate) where
  connected_as-err :
      (p : Outcome (Unit {0}) × RelayClient) (e : Error)
      → p.0 ≡ err e
      → connected_as net prim p ≡ err e
  unfolding connected_as
  connected_as-err (ok _, c) e h = cc
  connected_as-err (err x, c) e h = cc
  connected_as-err (panic, c) e h = cc

  -- A client that `connect` has just made.
  abbrev pub fresh : Socket → Bytes → Bool → RelayClient
  fresh s shared_secret disable_local = record {
    stream = s;
    relay_ports = [];
    external_ip = none;
    disable_local = disable_local;
    shared_secret = shared_secret;
  }

  connect_lem :
      (random : Random) (s : Socket) (password shared_secret : Bytes) (disable_local : Bool)
      → 4 ≤ length shared_secret
      → connect net prim pake random (ok s) password shared_secret disable_local
        ≡ connected_as net prim (
            negotiate net prim pake random password shared_secret
              (fresh s shared_secret disable_local))
  unfolding connect connect_over
  connect_lem random s password shared_secret disable_local long =
      rw (le→ltb (length shared_secret) 4 long) refl

  -- How `connect` ends: by its password, the room decides, or it is told.
  abbrev pub Ends :
      Config → (password room : Bytes) → Option Room → RelayClient → Outcome RelayClient → Type 0
  Ends config password room found d r =
      (beq password (trim config.relay_password) ≡ true)
        × (r ≡ connected_as net prim (verdict room found, d))
      ⊎ (beq password (trim config.relay_password) ≡ false)
        × (r ≡ err (bad_response (codes "bad password")))

  module _ (config : Config) (random : Random) (theirs password room addr shared_secret : Bytes)
      (amount : ℕ) (disable_local : Bool) where
    -- The server's side, with any rooms that give the same answer.
    abbrev pub Admits : Option Room → (up down : Bytes) → Socket → Type 0
    Admits found up down a =
        (rest : Bytes) (rooms : Rooms)
        → reply (lookup room rooms) ≡ reply found
        → let t : Socket = record a { incoming = rest; sent = a.sent ++ down } in
          handle net prim pake config (ok amount) theirs (ok addr)
            (record { session = record a { incoming = up ++ rest }; rooms = rooms })
          ≡ (
            ok (entered room (lookup room rooms)),
            record { session = t; rooms = placed config.now room (lookup room rooms) t rooms },
          )

    -- The bytes of a connection depend on the rooms only through the answer that they give.
    pub connect-handle_any :
        (found : Option Room) (a c : Socket)
        → ((p : pake.PubKey) → length (pake.json.text p) < 2 ^ 32)
        → 4 ≤ length shared_secret
        → str_prefix 3 shared_secret ≡ ok room
        → IsClient net prim random password room
        → is_utf8 [] addr ≡ true
        → Lacks b'|' addr
        → IsReady prim config addr
        → a.writable ≡ true
        → c.writable ≡ true
        → (up : Bytes) × (down : Bytes) × Admits found up down a
          × ((rest : Bytes)
              → Ends config password room found
                  (settled config addr (c.sent ++ up) rest (fresh c shared_secret disable_local))
                  (connect net prim pake random
                    (ok (record c { incoming = down ++ rest }))
                    password
                    shared_secret
                    disable_local))
    unfolding negotiate
    connect-handle_any found a c short long prefix h text bars ready ws wc =
        let (p, q, strong, first, second) = negotiate_any net pake short random.pake theirs in
        let client = fresh (record c { sent = c.sent ++ framed p }) shared_secret disable_local in
        let (hello, greeting, served, ended) =
          handshake_any net prim config random strong password room addr h text bars found
            (record a { sent = a.sent ++ framed q }) client ready ws wc in
        (
          framed p ++ hello,
          framed q ++ greeting,
          λ rest rooms answers.
              ap
                (λ i.
                  handle net prim pake config (ok amount) theirs (ok addr)
                    (record { session = record a { incoming = i }; rooms = rooms }))
                (append_assoc (framed p) hello rest)
              ∙ handle-framed net prim pake config amount p (hello ++ rest) theirs (ok addr)
                  (record { session = a; rooms = rooms })
              ∙ rw (second (hello ++ rest) a ws) (served rest rooms answers)
              ∙ ap
                  (λ x.
                    let t : Socket = record a { incoming = rest; sent = x } in
                    (
                      ok (entered room (lookup room rooms)),
                      record {
                        session = t;
                        rooms = placed config.now room (lookup room rooms) t rooms;
                      },
                    ))
                  (append_assoc a.sent (framed q) greeting),
          λ rest.
              let heard : Socket = record c { incoming = (framed q ++ greeting) ++ rest } in
              let introduced : RelayClient = record client {
                stream = record client.stream { incoming = greeting ++ rest };
              } in
              let begun =
                connect_lem random heard password shared_secret disable_local long
                ∙ ap
                    (λ i. connected_as net prim (
                      negotiate net prim pake random password shared_secret
                        (fresh (record c { incoming = i }) shared_secret disable_local)))
                    (append_assoc (framed q) greeting rest)
                ∙ rw (first (greeting ++ rest) c wc, prefix) refl in
              elim (ended rest) [
                | inl (right, run) ↦ inl (
                  right,
                  begun
                      ∙ ap (connected_as net prim) run
                      ∙ ap
                          (λ x.
                            connected_as net prim
                              (verdict room found, settled config addr x rest client))
                          (append_assoc c.sent (framed p) hello),
                )
                | inr (wrong, run) ↦ inr (
                  wrong,
                  begun
                      ∙ connected_as-err
                          (Client.negotiate_info net prim random strong password room introduced) _
                          run,
                )
              ],
        )

  -- For random data and messages of the lengths that the cipher and the frames take, public keys
  -- whose texts fit a frame, a shared secret of at least four bytes whose first three are the room,
  -- a client address without a vertical bar and sockets that take bytes, there are bytes up and
  -- bytes down such that, whatever comes behind them and however much the peek gives, handle of the
  -- server reads up, sends down, and ends with the room to go on with, unless that is full, having
  -- put the connection in the second place of its room, in the first place of a new one, or left a
  -- full room, with what came behind unread; and connect of the client reads down, and, if it has
  -- the password, it has sent up and gives a client that knows its address and the ports and has
  -- what came behind still to read, or the error that the room is full, and if it has not, the
  -- error that names the answer.
  pub connect-handle :
      (config : Config) (random : Random) (theirs password room addr shared_secret : Bytes)
      (amount : ℕ) (disable_local : Bool) (s : Serving) (c : Socket)
      → ((p : pake.PubKey) → length (pake.json.text p) < 2 ^ 32)
      → 4 ≤ length shared_secret
      → str_prefix 3 shared_secret ≡ ok room
      → IsClient net prim random password room
      → is_utf8 [] addr ≡ true
      → Lacks b'|' addr
      → IsReady prim config addr
      → s.session.writable ≡ true
      → c.writable ≡ true
      → let found = lookup room s.rooms in
        (up : Bytes) × (down : Bytes) × ((rest : Bytes)
          → let t : Socket = record s.session { incoming = rest; sent = s.session.sent ++ down } in
            handle net prim pake config
              (ok amount)
              theirs
              (ok addr)
              (record s { session = record s.session { incoming = up ++ rest } })
            ≡ (
              ok (entered room found),
              record { session = t; rooms = placed config.now room found t s.rooms },
            ))
        × ((rest : Bytes)
            → Ends config password room found
                (settled config addr (c.sent ++ up) rest (fresh c shared_secret disable_local))
                (connect net prim pake random
                  (ok (record c { incoming = down ++ rest }))
                  password
                  shared_secret
                  disable_local))
  connect-handle config random theirs password room addr shared_secret amount disable_local s c
        short long prefix h text bars ready ws wc =
      let (up, down, served, ended) =
        connect-handle_any config random theirs password room addr shared_secret amount
          disable_local (lookup room s.rooms) s.session c short long prefix h text bars ready ws
          wc in
      (up, down, λ rest. served rest s.rooms refl, ended)
