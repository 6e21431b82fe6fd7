-- ===== src/Session/Agree.antt =====
-- The key exchange of two sessions: `offer_key`, and `process_key_exchange` of both sides.
use rust_croc.Common.{◌^◌, ◌<◌, ◌≡◌, true, false, some, [], ◌++◌, length, Bytes, ok, beq, codes}
use rust_croc.Std.Utf8.{from_utf8}
use rust_croc.Net.{Net, Socket}
use rust_croc.Wire.RoundTrip.{framed, write_lem}
use rust_croc.Crypto.{Primitives}
use rust_croc.Crypto
use rust_croc.Enc.{sender, reciever, EncryptedSession, to_salt}
use rust_croc.Pake.{PakeCrate}
use rust_croc.Json.{Json}
use rust_croc.Msg.{PakeMessage, Message}
use rust_croc.Msg
use rust_croc.Session.{
  ClientSession, ip_exchange, pake_message, offer_key, answer_key, take_key, strong_key,
  start_encryption, exchange_key, process_key_exchange,
}
use rust_croc.Std.Slice.{str_suffix}

module _ (net : Net) (prim : Primitives) (pake : PakeCrate) (json : Json Message) where
  abbrev S : Type 0
  S = ClientSession net prim pake

  -- A session after one more message.
  abbrev pub sent : Message → S → S
  sent m s = record s { stream = record s.stream { sent = s.stream.sent ++ framed (json.text m) } }

  -- A session that has a key and an encryption.
  abbrev pub keyed : pake.Key → EncryptedSession net prim → S → S
  keyed key e s = record s { key = some key; encrypted_session = some e; state = ip_exchange }

  pub send_lem :
      (m : Message) (t : Socket)
      → length (json.text m) < 2 ^ 32
      → t.writable ≡ true
      → Msg.send net json m t ≡ (ok tt, record t { sent = t.sent ++ framed (json.text m) })
  unfolding Msg.send
  send_lem m t short w = rw (json.to_string_lem m, write_lem net (json.text m) t short w)

  -- The sides of the exchange, as they are before it.
  abbrev pub receiving : S → S
  receiving r = record r { is_sender = false }

  abbrev pub sending : S → S
  sending s = record s { is_sender = true }

  -- A key, with the name of the curve or the salt behind it, fits a frame.
  abbrev pub Fits : Bytes → Type 0
  Fits bs =
      (k : pake.PubKey)
      → length (json.text (Message.pake (record { bytes = pake.json.text k; bytes2 = bs })))
        < 2 ^ 32

  -- What the two sides of an exchange come to, each by its randomness.
  pub record Keys (weak random random' : Bytes) : Type 0 where
    pub receiver_key : pake.Key
    pub sender_key : pake.Key
    pub strong : Bytes
    pub answers :
        pake.update
          (pake.pub_pake (pake.new sender (some weak) random))
          (pake.new reciever (some weak) random')
        ≡ ok sender_key
    pub takes :
        pake.update (pake.pub_pake sender_key) (pake.new sender (some weak) random)
        ≡ ok receiver_key
    pub receiver_strong : pake.k receiver_key ≡ some strong
    pub sender_strong : pake.k sender_key ≡ some strong

  abbrev pub keys_of : (weak random random' : Bytes) → Keys weak random random'
  keys_of weak random random' =
      let (a', b', strong, first, second, got, got') = pake.agree (some weak) random random' in
      record {
        receiver_key = a';
        sender_key = b';
        strong = strong;
        answers = first;
        takes = second;
        receiver_strong = got;
        sender_strong = got';
      }

  -- A session that has made its offer, and the offer.
  abbrev pub offering : Bytes → Bytes → S → S
  offering weak random r = record r {
    is_sender = false;
    key = some (pake.new sender (some weak) random);
  }

  abbrev pub offer_of : Bytes → Bytes → PakeMessage
  offer_of weak random = record {
    bytes = pake.json.text (pake.pub_pake (pake.new sender (some weak) random));
    bytes2 = codes "siec";
  }

  abbrev pub answer_of : pake.Key → Bytes → PakeMessage
  answer_of key salt = record { bytes = pake.json.text (pake.pub_pake key); bytes2 = salt }

  abbrev pub encryption : Bytes → Bytes → EncryptedSession net prim
  encryption strong salt = record { encryptor = Crypto.new prim strong (some salt) [] }

  abbrev pub address : S → Message
  address s = Message.external_ip (record { external_ip = s.external_ip })

  pake_message_lem :
      (k : pake.PubKey) (curve_type : Bytes)
      → pake_message net prim pake json k curve_type
        ≡ ok (Message.pake (record { bytes = pake.json.text k; bytes2 = curve_type }))
  unfolding pake_message
  pake_message_lem k curve_type = rw (pake.json.to_string_lem k, pake_message)

  pub offer_key_lem :
      (r : S) (weak random : Bytes)
      → str_suffix 5 r.shared_secret ≡ ok weak
      → Fits (codes "siec")
      → r.stream.writable ≡ true
      → offer_key net prim pake json random (receiving r)
        ≡ (ok tt, sent (Message.pake (offer_of weak random)) (offering weak random r))
  unfolding offer_key
  offer_key_lem r weak random secret fits w =
      let mine = pake.pub_pake (pake.new sender (some weak) random) in
      rw (
        secret,
        pake_message_lem mine (codes "siec"),
        send_lem (Message.pake (offer_of weak random)) r.stream (fits mine) w,
      )

  module _ {weak random random' : Bytes} (keys : Keys weak random random') (salt : Bytes) where
    -- The sender's side.
    pub answered_lem :
        (s : S)
        → str_suffix 5 s.shared_secret ≡ ok weak
        → Fits salt
        → s.stream.writable ≡ true
        → process_key_exchange net prim pake json random' salt (offer_of weak random) (sending s)
          ≡ (
            ok tt,
            keyed keys.sender_key
                (encryption keys.strong salt)
                (sent (Message.pake (answer_of keys.sender_key salt)) (sending s)),
          )
    unfolding process_key_exchange exchange_key answer_key start_encryption strong_key from_utf8 beq
    answered_lem s secret fits w =
        let mine = pake.pub_pake (pake.new sender (some weak) random) in
        let theirs = pake.pub_pake keys.sender_key in
        rw (
          secret,
          pake.json.text-utf8 mine,
          pake.json.from_str-text mine,
          keys.answers,
          pake.json.to_string_lem theirs,
          send_lem (Message.pake (answer_of keys.sender_key salt)) s.stream (fits theirs) w,
          keys.sender_strong,
        )

    -- The receiver's side.
    pub taken_lem :
        (r : S) (x y : Bytes)
        → length salt ≡ 8
        → length (json.text (address r)) < 2 ^ 32
        → r.stream.writable ≡ true
        → process_key_exchange net prim pake json x y
            (answer_of keys.sender_key salt)
            (offering weak random r)
          ≡ (
            ok tt,
            keyed keys.receiver_key
                (encryption keys.strong salt)
                (sent (address r) (offering weak random r)),
          )
    unfolding process_key_exchange exchange_key take_key start_encryption strong_key to_salt
    taken_lem r x y size short w = rw (
      pake.json.from_slice-text (pake.pub_pake keys.sender_key),
      keys.takes,
      size,
      keys.receiver_strong,
      send_lem (address r) r.stream short w,
    )

  -- For two sessions with the same secret, whose connections take bytes, a salt of eight bytes and
  -- messages that fit a frame: the receiver sends its key as its offer, process_key_exchange of the
  -- sender answers the offer with its own key and the salt, and process_key_exchange of the
  -- receiver takes the answer and sends its address; both end in the exchange of addresses with the
  -- same encryption.
  pub key_exchange_agree :
      (r s : S) (weak random random' salt : Bytes)
      → str_suffix 5 r.shared_secret ≡ ok weak
      → str_suffix 5 s.shared_secret ≡ ok weak
      → length salt ≡ 8
      → Fits (codes "siec")
      → Fits salt
      → length (json.text (Message.external_ip (record { external_ip = r.external_ip }))) < 2 ^ 32
      → r.stream.writable ≡ true
      → s.stream.writable ≡ true
      → (offer : PakeMessage) × (answer : PakeMessage) × (r' : S) × (a' : pake.Key) × (b : pake.Key)
        × (e : EncryptedSession net prim) × (offer_key net prim pake json random (receiving r)
            ≡ (ok tt, sent (Message.pake offer) r'))
        × (process_key_exchange net prim pake json random' salt offer (sending s)
            ≡ (ok tt, keyed b e (sent (Message.pake answer) (sending s))))
        × (process_key_exchange net prim pake json [] [] answer (sent (Message.pake offer) r') ≡ (
          ok tt,
          keyed a' e (
              sent
                (Message.external_ip (record { external_ip = r.external_ip }))
                (sent (Message.pake offer) r')),
        ))
  key_exchange_agree r s weak random random' salt secret secret' size fits fits' short w w' =
      let keys = keys_of weak random random' in
      (
        offer_of weak random,
        answer_of keys.sender_key salt,
        offering weak random r,
        keys.receiver_key,
        keys.sender_key,
        encryption keys.strong salt,
        offer_key_lem r weak random secret fits w,
        answered_lem keys salt s secret' fits' w',
        taken_lem keys salt (sent (Message.pake (offer_of weak random)) r) [] [] size short w,
      )
