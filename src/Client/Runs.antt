-- ===== src/Client/Runs.antt =====
-- The client's run of `negotiate_info`, on what the server sends.
use rust_croc.Common.{
  ℕ, ◌+◌, ◌^◌, ◌≤◌, ◌<◌, ◌≡◌, refl, inl, inr, true, Option, none, some, List, [], ◌++◌, length,
  Bytes, Outcome, ok, err, beq, if◌then◌else◌, codes, Bool-cases, arith, bad_response, room_full,
}
use rust_croc.Std.Utf8.{is_utf8, from_utf8, is_utf8_ascii}
use rust_croc.Std.Str.{contains, Lacks}
use rust_croc.Net.{Net, Socket}
use rust_croc.Wire
use rust_croc.Wire.RoundTrip.{framed, write_lem}
use rust_croc.Crypto.{Primitives}
use rust_croc.Crypto
use rust_croc.Enc.{EncryptedSession}
use rust_croc.Enc
use rust_croc.Enc.Laws.{Sealed, read-Sealed}
use rust_croc.Server.{Room, is_full, banner}
use rust_croc.Server.Negotiate.{reply, session_of}
use rust_croc.Client.{RelayClient, Random, take_answer, negotiate_info}
use rust_croc.Client.Negotiate.{port_names, take_banner_lem, contains-banner, banner-utf8}

-- How the client ends, for each state of its room.
abbrev pub verdict : Bytes → Option Room → Outcome (Unit {0})
verdict room none = ok tt
verdict room (some r) = if is_full r then err (room_full room) else ok tt

module _ (net : Net) (prim : Primitives) where
  take_answer_lem :
      (room : Bytes) (found : Option Room) (c : RelayClient)
      → take_answer net prim room (reply found) c ≡ (verdict room found, c)
  unfolding take_answer beq
  take_answer_lem room none c = refl
  take_answer_lem room (some r) c = elim (Bool-cases (is_full r)) [
    | inl full ↦ rw full refl
    | inr free ↦ rw free refl
  ]

  -- What a client sends: random data of the right lengths, texts that can be sealed.
  pub record IsClient (random : Random) (password room : Bytes) : Type 0 where
    pub salt : length random.salt ≡ 8
    pub nonce : length random.password_nonce ≡ 12
    pub nonce' : length random.room_nonce ≡ 12
    pub password_text : is_utf8 [] password ≡ true
    pub room_text : is_utf8 [] room ≡ true
    pub password_takes : length password ≤ prim.limit
    pub password_fits : length password + 28 < 2 ^ 32
    pub room_takes : length room ≤ prim.limit
    pub room_fits : length room + 28 < 2 ^ 32

  -- The client's run, if what the server sends begins with a sealed banner and a sealed answer.
  module _ (random : Random) (key password room addr : Bytes) (ports : List ℕ)
      (h : IsClient random password room) (text : is_utf8 [] addr ≡ true)
      (bars : Lacks b'|' addr) where
    abbrev pub mine : EncryptedSession net prim
    mine = record { encryptor = Crypto.new prim key none random.salt }

    abbrev theirs : EncryptedSession net prim
    theirs = session_of net prim key random.salt

    pub run_greeted :
        (c1 c2 b1 b2 rest : Bytes) (found : Option Room) (c : RelayClient)
        → ((a : Socket)
            → a.writable ≡ true
            → Enc.write net prim (Wire.write net) mine random.password_nonce password a
              ≡ (ok tt, record a { sent = a.sent ++ framed c1 }))
        → ((a : Socket)
            → a.writable ≡ true
            → Enc.write net prim (Wire.write net) mine random.room_nonce room a
              ≡ (ok tt, record a { sent = a.sent ++ framed c2 }))
        → Sealed net prim mine (banner ports addr) b1
        → Sealed net prim mine (reply found) b2
        → c.stream.writable ≡ true
        → negotiate_info net prim random key password room
            (record c { stream = record c.stream { incoming = framed b1 ++ (framed b2 ++ rest) } })
          ≡ (
            verdict room found,
            record c {
              stream = record c.stream {
                incoming = rest;
                sent = ((c.stream.sent ++ framed random.salt) ++ framed c1) ++ framed c2;
              };
              external_ip = some addr;
              relay_ports = port_names ports;
            },
          )
    unfolding negotiate_info Enc.new Crypto.new from_utf8
    run_greeted c1 c2 b1 b2 rest found c first second sealed sealed' w =
        let incoming : Bytes = framed b1 ++ (framed b2 ++ rest) in
        let s0 : Socket = record c.stream { incoming = incoming } in
        let s1 : Socket = record s0 { sent = s0.sent ++ framed random.salt } in
        let s2 : Socket = record s1 { sent = s1.sent ++ framed c1 } in
        let s3 : Socket = record s2 { incoming = framed b2 ++ rest } in
        let s4 : Socket = record s3 { sent = s3.sent ++ framed c2 } in
        rw
          (
            write_lem net random.salt s0 (omega (arith, h.salt)) w,
            first s1 w,
            read-Sealed net prim mine (banner ports addr) b1 (framed b2 ++ rest) s2 sealed,
            banner-utf8 ports addr text,
            contains-banner ports addr,
            take_banner_lem net prim ports addr (record c { stream = s3 }) bars,
            second s3 w,
            read-Sealed net prim mine (reply found) b2 rest s4 sealed',
          )
          (take_answer_lem room found _)

    -- The client's run, if it is told that its password is wrong.
    pub run_denied :
        (c1 b rest : Bytes) (c : RelayClient)
        → ((a : Socket)
            → a.writable ≡ true
            → Enc.write net prim (Wire.write net) mine random.password_nonce password a
              ≡ (ok tt, record a { sent = a.sent ++ framed c1 }))
        → Sealed net prim mine (codes "bad password") b
        → c.stream.writable ≡ true
        → (negotiate_info net prim random key password room
            (record c { stream = record c.stream { incoming = framed b ++ rest } })).0
          ≡ err (bad_response (codes "bad password"))
    unfolding negotiate_info Enc.new Crypto.new from_utf8 contains
    run_denied c1 b rest c first sealed w =
        let s0 : Socket = record c.stream { incoming = framed b ++ rest } in
        let s1 : Socket = record s0 { sent = s0.sent ++ framed random.salt } in
        let s2 : Socket = record s1 { sent = s1.sent ++ framed c1 } in
        rw (
          write_lem net random.salt s0 (omega (arith, h.salt)) w,
          first s1 w,
          read-Sealed net prim mine (codes "bad password") b rest s2 sealed,
          is_utf8_ascii (codes "bad password") (omega arith),
        )
