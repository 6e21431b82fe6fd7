-- ===== src/Server/Negotiate.antt =====
-- What `negotiate_info` does with a client that keeps to the protocol, for each state of the rooms.
use rust_croc.Common.{
  ℕ, ◌+◌, ◌^◌, ◌≤◌, ◌<◌, ◌≡◌, refl, inl, inr, ◌⊎◌, true, false, Option, none, some, [], ◌++◌,
  append_assoc, append-nil, length, Bytes, ok, beq, if◌then◌else◌, codes, Bool-cases, arith,
}
use rust_croc.Std.Utf8.{is_utf8, from_utf8}
use rust_croc.Std.Str.{trim}
use rust_croc.Net.{Net, Socket}
use rust_croc.Wire
use rust_croc.Wire.RoundTrip.{framed, read-framed}
use rust_croc.Crypto.{Primitives}
use rust_croc.Crypto
use rust_croc.Enc.{EncryptedSession, reciever, to_salt}
use rust_croc.Enc
use rust_croc.Enc.Laws.{Sealed, seal_for, read-Sealed}
use rust_croc.Server.{
  Room, is_full, Rooms, lookup, insert, Serving, Config, banner, enter_found, enter_room,
  check_password, negotiate_info,
}

-- What becomes of the rooms when a connection asks for one that is not there, that is full, or that
-- has a free place.
abbrev pub placed : ℕ → Bytes → Option Room → Socket → Rooms → Rooms
placed now name none s rooms =
    insert name (record { first = some s; second = none; handle = none; opened = now }) rooms
placed now name (some room) s rooms =
    if is_full room then rooms else insert name (record room { second = some s }) rooms

-- The answer to the client, and the result.
abbrev pub reply : Option Room → Bytes
reply none = codes "ok"
reply (some room) = if is_full room then codes "room full" else codes "ok"

abbrev pub entered : Bytes → Option Room → Option Bytes
entered name none = some name
entered name (some room) = if is_full room then none else some name

-- Nonces as the cipher wants them, and a cipher that takes the messages of the negotiation.
pub record IsReady (prim : Primitives) (config : Config) (addr : Bytes) : Type 0 where
  pub denial : length config.denial_nonce ≡ 12
  pub greeting : length config.banner_nonce ≡ 12
  pub answering : length config.answer_nonce ≡ 12
  pub room : 16 ≤ prim.limit
  pub takes : length (banner config.multiplex_ports addr) ≤ prim.limit
  pub fits : length (banner config.multiplex_ports addr) + 28 < 2 ^ 32

module _ (net : Net) (prim : Primitives) (config : Config) (e d : EncryptedSession net prim)
    (same : d.encryptor.cipher ≡ e.encryptor.cipher) where
  -- A socket after one more message.
  abbrev pub told : Socket → Bytes → Socket
  told s c = record s { sent = s.sent ++ framed c }

  reply-length : (found : Option Room) → length (reply found) ≤ 16
  reply-length none = omega arith
  reply-length (some r) = elim (Bool-cases (is_full r)) [
    | inl full ↦ rw full (omega arith)
    | inr free ↦ rw free (omega arith)
  ]

  -- If the answer goes out, the connection goes where the room has a place.
  enter_answered :
      (name c : Bytes) (found : Option Room) (s : Serving)
      → Enc.write net prim (Wire.write net) e config.answer_nonce (reply found) s.session
        ≡ (ok tt, told s.session c)
      → enter_found net prim config e name found s ≡ (
        ok (entered name found),
        record {
          session = told s.session c;
          rooms = placed config.now name found (told s.session c) s.rooms;
        },
      )
  unfolding enter_found
  enter_answered name c none s written = rw written refl
  enter_answered name c (some r) s written = elim (Bool-cases (is_full r)) [
    | inl full ↦ let written' = rw full at written in rw (full, written') refl
    | inr free ↦ let written' = rw free at written in rw (free, written') refl
  ]

  -- The bytes of the answer depend on the answer alone.
  enter_found_lem :
      (name : Bytes) (found : Option Room)
      → length config.answer_nonce ≡ 12
      → 16 ≤ prim.limit
      → (c : Bytes) × Sealed net prim d (reply found) c
        × ((other : Option Room) (s : Serving)
            → reply other ≡ reply found
            → s.session.writable ≡ true
            → enter_found net prim config e name other s ≡ (
              ok (entered name other),
              record {
                session = told s.session c;
                rooms = placed config.now name other (told s.session c) s.rooms;
              },
            ))
  enter_found_lem name found n room =
      let (c, sealed, written) =
        seal_for net prim e d config.answer_nonce (reply found) same n
          (omega (arith, reply-length found)) (omega (arith, reply-length found)) in
      (
        c,
        sealed,
        λ other s answers w. enter_answered name c other s (rw answers (written s.session w)),
      )

  -- What the client is told about its password: nothing if it is right, else one message.
  abbrev pub Denial : Bytes → Bytes → Type 0
  Denial password extra =
      (beq password (trim config.relay_password) ≡ true) × (extra ≡ [])
      ⊎ ((c : Bytes) × (beq password (trim config.relay_password) ≡ false)
          × (extra ≡ framed c)
          × Sealed net prim d (codes "bad password") c)

  check_password_lem :
      (password : Bytes)
      → length config.denial_nonce ≡ 12
      → 16 ≤ prim.limit
      → (extra : Bytes) × Denial password extra
        × ((s : Serving)
            → s.session.writable ≡ true
            → check_password net prim config e password s
              ≡ (ok tt, record s { session = record s.session { sent = s.session.sent ++ extra } }))
  unfolding check_password
  check_password_lem password n room =
      elim (Bool-cases (beq password (trim config.relay_password))) [
        | inl right ↦ ([], inl (right, refl), λ s w. rw (right, append-nil) refl)
        | inr wrong ↦
            let (c, sealed, written) =
              seal_for net prim e d config.denial_nonce (codes "bad password") same n (omega arith)
                (omega arith) in
            (framed c, inr (c, wrong, refl, sealed), λ s w. rw (wrong, written s.session w) refl)
      ]

-- The session that the server makes of a session key and the salt of the client.
abbrev pub session_of : (net : Net) (prim : Primitives) → Bytes → Bytes → EncryptedSession net prim
session_of net prim key salt = record { encryptor = Crypto.new prim key (some salt) [] }

module _ (net : Net) (prim : Primitives) where
  -- A client sends its salt, then its password and the name of a room, sealed for the server.
  pub record Hello (key salt password name c1 c2 : Bytes) : Type 0 where
    pub size : length salt ≡ 8
    pub password_text : is_utf8 [] password ≡ true
    pub name_text : is_utf8 [] name ≡ true
    pub password_sealed : Sealed net prim (session_of net prim key salt) password c1
    pub name_sealed : Sealed net prim (session_of net prim key salt) name c2

  -- Such a client is told, in this order: if its password is wrong, so much, the banner, and whether
  -- it is in the room. Whether the password is right changes neither the result nor the rooms: a
  -- room that is not there is made with the connection in first place, a full room is left as it
  -- is and refused, and in any other the connection takes the second place, with what came behind.
  -- Of the rooms, the bytes depend on the answer alone.
  pub negotiate_info_lem :
      (config : Config) (key salt password name c1 c2 addr : Bytes) (found : Option Room)
      (start : Socket)
      → Hello key salt password name c1 c2
      → IsReady prim config addr
      → start.writable ≡ true
      → let d = session_of net prim key salt in
        (extra : Bytes) × (b1 : Bytes) × (b2 : Bytes) × ((rest : Bytes) (rooms : Rooms)
          → reply (lookup name rooms) ≡ reply found
          → let t : Socket = record start {
            incoming = rest;
            sent = start.sent ++ (extra ++ (framed b1 ++ framed b2));
          } in
            negotiate_info net prim config key (ok addr) (record {
              session = record start {
                incoming = framed salt ++ (framed c1 ++ (framed c2 ++ rest));
              };
              rooms = rooms;
            })
            ≡ (
              ok (entered name (lookup name rooms)),
              record { session = t; rooms = placed config.now name (lookup name rooms) t rooms },
            ))
        × Denial net prim config d d refl password extra
        × Sealed net prim d (banner config.multiplex_ports addr) b1
        × Sealed net prim d (reply found) b2
  unfolding negotiate_info from_utf8 Enc.new to_salt enter_room
  negotiate_info_lem config key salt password name c1 c2 addr found start h r w =
      let d = session_of net prim key salt in
      let (extra, denial, checked) =
        check_password_lem net prim config d d refl password r.denial r.room in
      let (b1, sealed, greeted) =
        seal_for net prim d d config.banner_nonce (banner config.multiplex_ports addr) refl
          r.greeting r.takes r.fits in
      let (b2, sealed', ran) =
        enter_found_lem net prim config d d refl name found r.answering r.room in
      (
        extra,
        b1,
        b2,
        λ rest rooms answers.
            let asked : Bytes = framed c2 ++ rest in
            let after_password : Socket = record start { incoming = asked } in
            let denied : Socket = record after_password { sent = start.sent ++ extra } in
            let greeted_socket : Socket = record denied { sent = denied.sent ++ framed b1 } in
            let heard : Socket = record greeted_socket { incoming = rest } in
            rw
              (
                read-framed net salt (framed c1 ++ asked) start (omega (arith, h.size)),
                h.size,
                read-Sealed net prim d password c1 asked start h.password_sealed,
                h.password_text,
                checked (record { session = after_password; rooms = rooms }) w,
                greeted denied w,
                read-Sealed net prim d name c2 rest greeted_socket h.name_sealed,
                h.name_text,
                ran (lookup name rooms) (record { session = heard; rooms = rooms }) answers w,
                append_assoc (start.sent ++ extra) (framed b1) (framed b2),
                append_assoc start.sent extra (framed b1 ++ framed b2),
              )
              refl,
        denial,
        sealed,
        sealed',
      )
