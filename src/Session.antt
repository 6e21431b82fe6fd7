-- ===== src/Session.antt =====
-- src/proto/client_session.rs: `ClientSession`, its states, and what it does with the messages of
-- the key exchange, of the addresses and about the files.
pub mod Files
pub mod Loop
pub mod NetTask
pub mod Agree
pub mod Keyed
pub mod Valid
pub mod Accept
pub mod Rounds
pub mod Invariant
pub mod Hear
pub mod Sending
pub mod Sender
pub mod Delivery
pub mod Taking
pub mod Introduced
pub mod Receiver
pub mod EndToEnd
pub mod ShortSecret
pub mod Refusal
pub mod Calm
use rust_croc.Common.{
  ℕ, ◌+◌, ◌%◌, ◌^◌, ◌≡◌, ◌≢◌, Bool, true, false, not, Option, none, some, List, [], ◌∷◌, ◌++◌,
  length, get_elem?, drop, Bytes, Outcome, ok, err, panic, prompt, Act, ◌>>=◌, ◌>>◌, lift, return,
  fail, crash, unwrap, ltb, beq, codes, if◌then◌else◌, curve_not_supported, curve_not_initialized,
  invalid_state, transfare_denied, no_external_ip, ok_or, Bool-cases, inl, inr, Option-cases,
}
use rust_croc.Std.Utf8.{from_utf8}
use rust_croc.Net.{Net, Socket}
use rust_croc.Wire
use rust_croc.Crypto.{Primitives}
use rust_croc.Crypto
use rust_croc.Enc.{Role, sender, reciever, EncryptedSession, to_salt}
use rust_croc.Pake.{PakeCrate}
use rust_croc.Json.{Json}
use rust_croc.Client.{RelayClient, on_stream, handle_keepalive, Interface}
use rust_croc.Msg.{
  PakeMessage, FilesInformation, Message, total_items, total_size, Desktop, create_empty_folders,
}
use rust_croc.Msg
use rust_croc.Std.Slice.{is_continuation, str_suffix}

pub data ClientState : Type 0 where
  key_exchange ip_exchange file_info_transfare file_transfare file_transfared : ClientState

unfoldable pub is_ip_exchange : ClientState → Bool
is_ip_exchange ip_exchange = true
is_ip_exchange _ = false

unfoldable pub is_file_info_transfare : ClientState → Bool
is_file_info_transfare file_info_transfare = true
is_file_info_transfare _ = false

unfoldable pub is_file_transfare : ClientState → Bool
is_file_transfare file_transfare = true
is_file_transfare _ = false

-- Less the `Config`, which has no fields that the code reads.
pub record ClientSession (net : Net) (prim : Primitives) (pake : PakeCrate) : Type 0 where
  pub state : ClientState
  pub stream : Socket
  pub relay_ports : List Bytes
  pub encrypted_session : Option (EncryptedSession net prim)
  pub shared_secret : Bytes
  pub is_sender : Bool
  pub external_ip : Bytes
  pub peer_external_ip : Option Bytes
  pub key : Option pake.Key
  pub files_to_receive : Option FilesInformation

module _ (net : Net) (prim : Primitives) (pake : PakeCrate) (json : Json Message) where
  abbrev pub Session : Type 0
  Session = ClientSession net prim pake

  abbrev pub send : Message → Act Session (Unit {0})
  send msg s = let (r, t) = Msg.send net json msg s.stream in (r, record s { stream = t })

  -- `ClientSession::new`
  unfoldable pub new : Socket → List Bytes → Bytes → Bool → Bytes → Session
  new stream relay_ports shared_secret is_sender external_ip = record {
    state = key_exchange;
    stream = stream;
    relay_ports = relay_ports;
    encrypted_session = none;
    shared_secret = shared_secret;
    is_sender = is_sender;
    external_ip = external_ip;
    peer_external_ip = none;
    key = none;
    files_to_receive = none;
  }

  -- The session of a client that has found its peer, if it was told its address.
  unfoldable pub from_client : Bool → RelayClient → Outcome Session
  unfolding new
  from_client is_sender c = elim c.external_ip [
    | none ↦ err no_external_ip
    | some ip ↦ ok (new c.stream c.relay_ports c.shared_secret is_sender ip)
  ]

  unfoldable pub from_greeted : Outcome (Unit {0}) × RelayClient → Outcome Session
  from_greeted (ok _, c) = from_client false c
  from_greeted (err e, c) = err e
  from_greeted (panic, c) = panic

  -- `RelayClient::connect_to_sender`
  unfoldable pub connect_to_sender : RelayClient → Outcome Session
  unfolding from_greeted from_client
  connect_to_sender c = from_greeted (on_stream (Wire.write net (codes "handshake")) c)

  unfoldable pub from_waited : Outcome Bool × RelayClient → Outcome (Option Session)
  unfolding from_client
  from_waited (ok true, c) = elim (from_client true c) [
    | ok s ↦ ok (some s)
    | err e ↦ err e
    | panic ↦ panic
  ]
  from_waited (ok false, c) = ok none
  from_waited (err e, c) = err e
  from_waited (panic, c) = panic

  -- `RelayClient::wait_for_receiver`, for at most so many messages of the relay; none when these are
  -- used up.
  unfoldable pub wait_for_receiver :
      Json (List Bytes) → List Interface → ℕ → RelayClient → Outcome (Option Session)
  unfolding from_waited
  wait_for_receiver texts interfaces fuel c =
      from_waited (handle_keepalive net texts interfaces fuel c)

  -- `PakeMessage::new`
  unfoldable pub pake_message : pake.PubKey → Bytes → Outcome Message
  pake_message pub_key curve_type = elim (pake.json.to_string pub_key) [
    | ok text ↦ ok (Message.pake (record { bytes = text; bytes2 = curve_type }))
    | err e ↦ err e
    | panic ↦ panic
  ]

  -- The receiver's first message.
  unfoldable pub offer_key : Bytes → Act Session (Unit {0})
  unfolding str_suffix pake_message
  offer_key random s =
      if s.is_sender
      then (ok tt, s)
      else (do
        weak ← lift (str_suffix 5 s.shared_secret)
        λ s. (ok tt, record s { key = some (pake.new sender (some weak) random) })
        msg ←
            lift (pake_message (pake.pub_pake (pake.new sender (some weak) random)) (codes "siec"))
        send msg)
          s

  -- The sender's part of `process_key_exchange`: its key from the secret and the other's public key,
  -- and its answer with the salt.
  unfoldable pub answer_key : Bytes → Bytes → PakeMessage → Act Session Bytes
  unfolding str_suffix
  answer_key random salt msg s =
      (if beq msg.bytes2 (codes "siec")
          then (do
            weak ← lift (str_suffix 5 s.shared_secret)
            text ← lift (from_utf8 msg.bytes)
            theirs ← lift (pake.json.from_str text)
            key ← lift (pake.update theirs (pake.new reciever (some weak) random))
            mine ← lift (pake.json.to_string (pake.pub_pake key))
            λ s. (ok tt, record s { key = some key })
            send (Message.pake (record { bytes = mine; bytes2 = salt }))
            return salt)
          else fail curve_not_supported)
        s

  -- The receiver's part: its key, which it has sent before, with the sender's public key.
  unfoldable pub take_key : Option pake.Key → PakeMessage → Act Session Bytes
  take_key none msg = fail curve_not_initialized
  take_key (some key) msg = do
    theirs ← lift (pake.json.from_slice msg.bytes)
    updated ← lift (pake.update theirs key)
    λ s. (ok tt, record s { key = some updated })
    lift (to_salt msg.bytes2)

  -- `self.key.as_ref().unwrap().k.unwrap()`
  unfoldable pub strong_key : Option pake.Key → Outcome Bytes
  strong_key none = panic
  strong_key (some key) = unwrap (pake.k key)

  -- What both do then.
  unfoldable pub start_encryption : Bytes → Act Session (Unit {0})
  unfolding strong_key
  start_encryption salt s =
      (do
        key ← lift (strong_key s.key)
        λ s. (
          ok tt,
          record s {
            encrypted_session = some (record { encryptor = Crypto.new prim key (some salt) [] });
          },
        )
        if s.is_sender
            then return tt
            else send (Message.external_ip (record { external_ip = s.external_ip }))
        λ s. (ok tt, record s { state = ip_exchange }))
        s

  unfoldable pub exchange_key : Bytes → Bytes → PakeMessage → Act Session Bytes
  unfolding answer_key take_key
  exchange_key random salt msg s =
      if s.is_sender then answer_key random salt msg s else take_key s.key msg s

  -- `process_key_exchange`, with what the random generator gives.
  unfoldable pub process_key_exchange : Bytes → Bytes → PakeMessage → Act Session (Unit {0})
  unfolding exchange_key start_encryption
  process_key_exchange random salt msg = do
    salt ← exchange_key random salt msg
    start_encryption salt

  -- `process_ip_exchange`
  unfoldable pub process_ip_exchange : Bytes → Act Session (Unit {0})
  unfolding is_ip_exchange
  process_ip_exchange ip s =
      if is_ip_exchange s.state
      then (do
        if s.is_sender
            then send (Message.external_ip (record { external_ip = s.external_ip }))
            else return tt
        λ s. (ok tt, record s { peer_external_ip = some ip; state = file_info_transfare }))
          s
      else (err invalid_state, s)
