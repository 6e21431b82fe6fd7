-- ===== src/Session/Keyed.antt =====
-- What `ClientSession` has after `process_key_exchange`.
use rust_croc.Common.{
  ◌≡◌, refl, Option, none, some, [], Bytes, Act, Post, Post-of, Post-after, Post-any,
  curve_not_supported, Post-ok, Post-fail, Post-if, Post-cond, lift, fail, return, beq, codes,
}
use rust_croc.Std.Utf8.{from_utf8}
use rust_croc.Net.{Net}
use rust_croc.Crypto.{Primitives}
use rust_croc.Crypto
use rust_croc.Enc.{reciever, to_salt}
use rust_croc.Pake.{PakeCrate}
use rust_croc.Json.{Json}
use rust_croc.Msg.{Message, PakeMessage}
use rust_croc.Session
use rust_croc.Session.{
  ClientSession, ClientState, key_exchange, ip_exchange, file_info_transfare, file_transfare,
  file_transfared, answer_key, take_key, start_encryption, exchange_key, process_key_exchange,
  process_ip_exchange, is_ip_exchange, is_file_info_transfare, is_file_transfare,
}
use rust_croc.Std.Slice.{str_suffix}

abbrev pub Has {ℓ} : {A : Type ℓ} → Option A → Type ℓ
Has {A = A} o = (a : A) × (o ≡ some a)

module _ (net : Net) (prim : Primitives) (pake : PakeCrate) (json : Json Message) where
  abbrev S : Type 0
  S = ClientSession net prim pake

  abbrev HasKey : S → Type 0
  HasKey s = Has s.key

  abbrev HasBoth : S → Type 0
  HasBoth s = Has s.key × Has s.encrypted_session

  abbrev with_encryption : Crypto.AesEncryptor prim → S → S
  with_encryption e s = record s { encrypted_session = some (record { encryptor = e }) }

  -- After the key exchange.
  abbrev pub IsKeyed : S → Type 0
  IsKeyed s = Has s.key × Has s.encrypted_session × (s.state ≡ ip_exchange)

  answer-HasKey :
      (random salt : Bytes) (msg : PakeMessage) (s : S)
      → Post HasKey (answer_key net prim pake json random salt msg s)
  unfolding answer_key
  answer-HasKey random salt msg s =
      Post-if HasKey (beq msg.bytes2 (codes "siec")) _ (fail curve_not_supported) s
        (λ _. Post-any HasKey (lift (str_suffix 5 s.shared_secret) s) _ (λ weak s.
          Post-any HasKey (lift (from_utf8 msg.bytes) s) _ (λ text s.
            Post-any HasKey (lift (pake.json.from_str text) s) _ (λ theirs s.
              Post-any HasKey (lift (pake.update theirs (pake.new reciever (some weak) random)) s) _
                (λ key s.
                  Post-any HasKey (lift (pake.json.to_string (pake.pub_pake key)) s) _ (λ mine s.
                    Post-after HasKey HasKey _ _
                      (Post-of HasKey
                        (Session.send net prim pake json
                          (Message.pake (record { bytes = mine; bytes2 = salt }))
                          (record s { key = some key }))
                        (key, refl))
                      (λ _ s' h. Post-ok HasKey salt s' h)))))))
        (λ _. Post-fail _ HasKey _ s)

  take-HasKey :
      (key : Option pake.Key) (msg : PakeMessage) (s : S)
      → Post HasKey (take_key net prim pake json key msg s)
  unfolding take_key
  take-HasKey none msg s = Post-fail _ HasKey _ s
  take-HasKey (some key) msg s =
      Post-any HasKey (lift (pake.json.from_slice msg.bytes) s) _ (λ theirs s.
        Post-any HasKey (lift (pake.update theirs key) s) _ (λ updated s.
          Post-of HasKey (lift (to_salt msg.bytes2) (record s { key = some updated }))
            (updated, refl)))

  start-IsKeyed :
      (salt : Bytes) (s : S) → HasKey s → Post IsKeyed (start_encryption net prim pake json salt s)
  unfolding start_encryption
  start-IsKeyed salt s h =
      Post-after HasKey IsKeyed (lift (Session.strong_key net prim pake json s.key) s) _
        (Post-of HasKey (lift (Session.strong_key net prim pake json s.key) s) h)
        (λ key s' h'.
          let keyed : S = with_encryption (Crypto.new prim key (some salt) []) s' in
          let told : Act S (Unit {0}) =
            Session.send net prim pake json
              (Message.external_ip (record { external_ip = s.external_ip })) in
          Post-after HasBoth IsKeyed _ _
            (Post-if HasBoth s.is_sender (return tt) told keyed
              (λ _. Post-ok HasBoth tt keyed (h', (_, refl)))
              (λ _. Post-of HasBoth (told keyed) (h', (_, refl))))
            (λ _ t k. Post-ok IsKeyed tt (record t { state = ip_exchange }) (k.0, k.1, refl)))

  pub process-IsKeyed :
      (random salt : Bytes) (msg : PakeMessage) (s : S)
      → Post IsKeyed (process_key_exchange net prim pake json random salt msg s)
  unfolding process_key_exchange exchange_key
  process-IsKeyed random salt msg s =
      Post-after HasKey IsKeyed _ _
        (Post-cond HasKey s.is_sender (answer_key net prim pake json random salt msg s)
          (take_key net prim pake json s.key msg s) (λ _. answer-HasKey random salt msg s)
          (λ _. take-HasKey s.key msg s))
        (λ salt' s' h. start-IsKeyed salt' s' h)
