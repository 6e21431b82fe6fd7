-- ===== src/Client/Handshake.antt =====
-- The client's and the server's `negotiate_info`, run against each other.
use rust_croc.Common.{
  ◌≡◌, refl, ap, ◌∙◌, inl, inr, ◌⊎◌, true, false, Option, some, [], ◌++◌, append_assoc, Bytes, ok,
  err, beq, codes, Bool-cases, bad_response,
}
use rust_croc.Std.Utf8.{is_utf8}
use rust_croc.Std.Str.{trim, Lacks}
use rust_croc.Net.{Net, Socket}
use rust_croc.Wire
use rust_croc.Wire.RoundTrip.{framed}
use rust_croc.Crypto.{Primitives}
use rust_croc.Crypto
use rust_croc.Enc.{EncryptedSession}
use rust_croc.Enc
use rust_croc.Enc.Laws.{Sealed, seal_for}
use rust_croc.Server.{Room, is_full, lookup, Serving, Config, banner, Rooms}
use rust_croc.Server
use rust_croc.Server.Negotiate.{
  placed, reply, entered, IsReady, Denial, session_of, Hello, negotiate_info_lem,
}
use rust_croc.Client.{RelayClient, Random, negotiate_info}
use rust_croc.Client.Negotiate.{port_names}
use rust_croc.Client.Runs.{verdict, IsClient, mine, run_greeted, run_denied}

-- A client that has sent this, has been told its address and the ports, and will read the rest.
abbrev pub settled : Config → (addr sent rest : Bytes) → RelayClient → RelayClient
settled config addr sent rest c = record c {
  stream = record c.stream { incoming = rest; sent = sent };
  external_ip = some addr;
  relay_ports = port_names config.multiplex_ports;
}

module _ (net : Net) (prim : Primitives) where
  -- The client's side of the handshake: by its password, it becomes the second client, or it is told.
  abbrev pub Served :
      Config
      → Random
      → (key password room greeting : Bytes) → Option Room
      → RelayClient
      → RelayClient
      → Type 0
  Served config random key password room greeting found c d =
      let heard : RelayClient = record c { stream = record c.stream { incoming = greeting } } in
      (beq password (trim config.relay_password) ≡ true)
        × (negotiate_info net prim random key password room heard ≡ (verdict room found, d))
      ⊎ (beq password (trim config.relay_password) ≡ false)
        × ((negotiate_info net prim random key password room heard).0
            ≡ err (bad_response (codes "bad password")))

  module _ (config : Config) (random : Random) (key password room addr : Bytes)
      (h : IsClient net prim random password room) (text : is_utf8 [] addr ≡ true)
      (bars : Lacks b'|' addr) where
    abbrev client_end : EncryptedSession net prim
    client_end = mine net prim random key password room addr config.multiplex_ports h text bars

    -- A write of the client that puts one message on whatever socket takes it.
    abbrev Puts : Bytes → Bytes → Bytes → Type 0
    Puts nonce msg c =
        (a : Socket)
        → a.writable ≡ true
        → Enc.write net prim (Wire.write net) client_end nonce msg a
          ≡ (ok tt, record a { sent = a.sent ++ framed c })

    abbrev hello_of : Bytes → Bytes → Bytes
    hello_of c1 c2 = framed random.salt ++ (framed c1 ++ framed c2)

    run_right :
        (c1 c2 extra b1 b2 rest : Bytes) (found : Option Room) (c : RelayClient)
        → Puts random.password_nonce password c1
        → Puts random.room_nonce room c2
        → Sealed net prim client_end (banner config.multiplex_ports addr) b1
        → Sealed net prim client_end (reply found) b2
        → c.stream.writable ≡ true
        → Denial net prim config client_end client_end refl password extra
        → beq password (trim config.relay_password) ≡ true
        → negotiate_info net prim random key password room (record c {
          stream = record c.stream { incoming = (extra ++ (framed b1 ++ framed b2)) ++ rest };
        })
          ≡ (verdict room found, settled config addr (c.stream.sent ++ hello_of c1 c2) rest c)
    run_right c1 c2 extra b1 b2 rest found c w1 w2 s1 s2 w (inl (right, none_)) r =
        let told : (extra ++ (framed b1 ++ framed b2)) ++ rest ≡ framed b1 ++ (framed b2 ++ rest) =
          rw none_ (append_assoc (framed b1) (framed b2) rest) in
        let said : ((c.stream.sent ++ framed random.salt) ++ framed c1) ++ framed c2
            ≡ c.stream.sent ++ hello_of c1 c2 =
          append_assoc (c.stream.sent ++ framed random.salt) (framed c1) (framed c2)
          ∙ append_assoc c.stream.sent (framed random.salt) (framed c1 ++ framed c2) in
        ap
          (λ i.
            negotiate_info net prim random key password room
              (record c { stream = record c.stream { incoming = i } }))
          told
        ∙ run_greeted net prim random key password room addr config.multiplex_ports h text bars c1
            c2 b1 b2 rest found c w1 w2 s1 s2 w
        ∙ ap (λ x. (verdict room found, settled config addr x rest c)) said
    run_right c1 c2 extra b1 b2 rest found c w1 w2 s1 s2 w (inr (b, wrong, _, _)) r = cc

    run_wrong :
        (c1 extra after rest : Bytes) (c : RelayClient)
        → Puts random.password_nonce password c1
        → c.stream.writable ≡ true
        → Denial net prim config client_end client_end refl password extra
        → beq password (trim config.relay_password) ≡ false
        → (negotiate_info net prim random key password room
            (record c { stream = record c.stream { incoming = (extra ++ after) ++ rest } })).0
          ≡ err (bad_response (codes "bad password"))
    run_wrong c1 extra after rest c w1 w (inl (right, _)) r = cc
    run_wrong c1 extra after rest c w1 w (inr (b, wrong, one, sealed)) r =
        ap
          (λ i.
            (negotiate_info net prim random key password room
              (record c { stream = record c.stream { incoming = i } })).0)
          (append_assoc extra after rest ∙ ap (λ x. x ++ (after ++ rest)) one)
        ∙ run_denied net prim random key password room addr config.multiplex_ports h text bars c1 b
            (after ++ rest) c w1 sealed w

    -- The server's side, with any rooms that give the same answer.
    abbrev Admits : Option Room → (hello greeting : Bytes) → Socket → Type 0
    Admits found hello greeting a =
        (rest : Bytes) (rooms : Rooms)
        → reply (lookup room rooms) ≡ reply found
        → let t : Socket = record a { incoming = rest; sent = a.sent ++ greeting } in
          Server.negotiate_info net prim config key (ok addr)
            (record { session = record a { incoming = hello ++ rest }; rooms = rooms })
          ≡ (
            ok (entered room (lookup room rooms)),
            record { session = t; rooms = placed config.now room (lookup room rooms) t rooms },
          )

    -- The bytes of a handshake depend on the rooms only through the answer that they give.
    pub handshake_any :
        (found : Option Room) (a : Socket) (c : RelayClient)
        → IsReady prim config addr
        → a.writable ≡ true
        → c.stream.writable ≡ true
        → (hello : Bytes) × (greeting : Bytes) × Admits found hello greeting a
          × ((rest : Bytes)
              → Served config random key password room
                  (greeting ++ rest)
                  found
                  c
                  (settled config addr (c.stream.sent ++ hello) rest c))
    unfolding Crypto.new
    handshake_any found a c ready ws wc =
        let theirs = session_of net prim key random.salt in
        let (c1, p1, w1) =
          seal_for net prim client_end theirs random.password_nonce password refl h.nonce
            h.password_takes h.password_fits in
        let (c2, p2, w2) =
          seal_for net prim client_end theirs random.room_nonce room refl h.nonce' h.room_takes
            h.room_fits in
        let greets : Hello net prim key random.salt password room c1 c2 = record {
          size = h.salt;
          password_text = h.password_text;
          name_text = h.room_text;
          password_sealed = p1;
          name_sealed = p2;
        } in
        let (extra, b1, b2, ran, denial, s1, s2) =
          negotiate_info_lem net prim config key random.salt password room c1 c2 addr found a greets
            ready ws in
        let behind = framed b1 ++ framed b2 in
        (
          hello_of c1 c2,
          extra ++ behind,
          λ rest rooms answers.
              ap
                (λ i.
                  Server.negotiate_info net prim config key (ok addr)
                    (record { session = record a { incoming = i }; rooms = rooms }))
                (append_assoc (framed random.salt) (framed c1 ++ framed c2) rest
                  ∙ ap (λ x. framed random.salt ++ x) (append_assoc (framed c1) (framed c2) rest))
              ∙ ran rest rooms answers,
          λ rest. elim (Bool-cases (beq password (trim config.relay_password))) [
            | inl right ↦
                inl (right, run_right c1 c2 extra b1 b2 rest found c w1 w2 s1 s2 wc denial right)
            | inr wrong ↦ inr (wrong, run_wrong c1 extra behind rest c w1 wc denial wrong)
          ],
        )

    -- For random data and messages of the lengths that the cipher and the frames take, a client
    -- address without a vertical bar and sockets that take bytes, there are bytes for the client to
    -- send and bytes for the server to send, such that, whatever comes behind them, negotiate_info
    -- of the server, reading the first, sends the second, gives the name of the room unless the
    -- room is full, puts the connection in the second place of its room, in the first place of a
    -- new one, or leaves a full room, and leaves what came behind unread; and either the client has
    -- the password, and its negotiate_info, reading the second, sends the first, learns its address
    -- and the ports, ends well unless the room is full, and leaves what came behind unread, or it
    -- has not, and it ends in the error that names the answer.
    pub handshake :
        (s : Serving) (c : RelayClient)
        → IsReady prim config addr
        → s.session.writable ≡ true
        → c.stream.writable ≡ true
        → let found = lookup room s.rooms in
          (hello : Bytes) × (greeting : Bytes) × ((rest : Bytes)
            → let t : Socket = record s.session {
              incoming = rest;
              sent = s.session.sent ++ greeting;
            } in
              Server.negotiate_info net prim config key
                (ok addr)
                (record s { session = record s.session { incoming = hello ++ rest } })
              ≡ (
                ok (entered room found),
                record { session = t; rooms = placed config.now room found t s.rooms },
              ))
          × ((rest : Bytes)
              → Served config random key password room
                  (greeting ++ rest)
                  found
                  c
                  (settled config addr (c.stream.sent ++ hello) rest c))
    handshake s c ready ws wc =
        let (hello, greeting, served, ended) =
          handshake_any (lookup room s.rooms) s.session c ready ws wc in
        (hello, greeting, λ rest. served rest s.rooms refl, ended)
