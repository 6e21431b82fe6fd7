-- ===== src/Session/Introduced.antt =====
-- The first rounds of a receiver: the key, and the address of its peer.
use rust_croc.Common.{◌^◌, ◌<◌, ◌≡◌, refl, ◌∙◌, true, false, none, some, ◌++◌, length, Bytes, ok}
use rust_croc.Net.{Net}
use rust_croc.Wire.RoundTrip.{framed}
use rust_croc.Crypto.{Primitives}
use rust_croc.Pake.{PakeCrate}
use rust_croc.Json.{Json}
use rust_croc.Files.{FileOps}
use rust_croc.Msg.{Message, Desktop}
use rust_croc.Session.{
  ip_exchange, file_info_transfare, is_ip_exchange, is_file_info_transfare, is_file_transfare,
  process_ip_exchange,
}
use rust_croc.Session.Agree.{
  sent, keyed, receiving, offering, Keys, offer_of, answer_of, encryption, address, taken_lem,
}
use rust_croc.Session.Files.{Disk, Running}
use rust_croc.Session.Loop.{
  Random, on_message, start_with, start_fs, tell_files, take_files, go_on, client_round,
}
use rust_croc.Session.Hear.{hearing, client_round-hearing}
use rust_croc.Session.Taking.{}

module _ (net : Net) (prim : Primitives) (pake : PakeCrate) (json : Json Message) (d : Desktop)
    (disk : Disk d.World) (fs : FileOps) where
  abbrev Client : Type 0
  Client = Running net prim pake json d disk fs

  abbrev pub as_receiver : Client → Client
  as_receiver c = record c { session = receiving net prim pake json c.session }

  -- A receiver with the keys and the encryption, which has told its address.
  abbrev pub keyed_receiver :
      {weak random random' : Bytes}
      → Keys net prim pake json weak random random'
      → Bytes
      → Client
      → Client
  keyed_receiver {weak} {random} keys salt c = record c {
    session =
        keyed net prim pake json keys.receiver_key (encryption net prim pake json keys.strong salt)
          (sent net prim pake json (address net prim pake json c.session)
            (offering net prim pake json weak random c.session));
    rw = some (encryption net prim pake json keys.strong salt);
  }

  -- A receiver that has made its offer, and one that has the address of its peer.
  abbrev pub has_offered : Bytes → Bytes → Client → Client
  has_offered weak random c = record c {
    session =
        sent net prim pake json (Message.pake (offer_of net prim pake json weak random)) c.session;
  }

  abbrev pub introduced_to : Bytes → Client → Client
  introduced_to ip c = record c { session = record c.session { peer_external_ip = some ip } }

  pub answer_round :
      {weak random random' : Bytes} (keys : Keys net prim pake json weak random random')
      (salt rest : Bytes) (next : Random) (c : Client)
      → length salt ≡ 8
      → length (json.text (Message.pake (answer_of net prim pake json keys.sender_key salt)))
        < 2 ^ 32
      → length (json.text (address net prim pake json c.session)) < 2 ^ 32
      → c.session.stream.writable ≡ true
      → client_round net prim pake json d disk fs none next (
          hearing net prim pake json d disk fs
            (framed (json.text (Message.pake (answer_of net prim pake json keys.sender_key salt)))
              ++ rest)
            (record c { session = offering net prim pake json weak random c.session }))
        ≡ (ok false, hearing net prim pake json d disk fs rest (keyed_receiver keys salt c))
  unfolding on_message start_fs start_with go_on tell_files take_files is_file_info_transfare
      is_file_transfare
  answer_round {weak} {random} keys salt rest next c size short short' w =
      client_round-hearing net prim pake json d disk fs none next
        (Message.pake (answer_of net prim pake json keys.sender_key salt)) rest
        (record c { session = offering net prim pake json weak random c.session }) short
      ∙ rw
          (taken_lem net prim pake json keys salt
            (hearing net prim pake json d disk fs rest c).session next.pake next.salt size short' w)
          refl

  pub ip_round :
      (ip rest : Bytes) (next : Random) (c : Client)
      → length (json.text (Message.external_ip (record { external_ip = ip }))) < 2 ^ 32
      → client_round net prim pake json d disk fs none next (
          hearing net prim pake json d disk fs
            (framed (json.text (Message.external_ip (record { external_ip = ip }))) ++ rest)
            (record c { session = record c.session { is_sender = false; state = ip_exchange } }))
        ≡ (
          ok false,
          hearing net prim pake json d disk fs rest (record c {
            session = record c.session {
              is_sender = false;
              peer_external_ip = some ip;
              state = file_info_transfare;
            };
          }),
        )
  unfolding on_message process_ip_exchange is_ip_exchange go_on tell_files take_files
      is_file_info_transfare is_file_transfare
  ip_round ip rest next c short =
      client_round-hearing net prim pake json d disk fs none next
        (Message.external_ip (record { external_ip = ip })) rest
        (record c { session = record c.session { is_sender = false; state = ip_exchange } }) short
