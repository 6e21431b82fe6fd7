-- ===== src/Session/Invariant.antt =====
-- `process_client` from the start: it always has what `ClientSession` has in each of its states.
use rust_croc.Common.{
  ◌≡◌, Option, some, List, Bytes, Outcome, ok, Post, Post-of, Post-after, Post-ok, Post-cond,
  Post-part, lift, get_elem?, codes, ok_or, no_relay_port,
}
use rust_croc.Net.{Net}
use rust_croc.Crypto.{Primitives}
use rust_croc.Enc.{sender}
use rust_croc.Pake.{PakeCrate}
use rust_croc.Json.{Json}
use rust_croc.Files.{FileOps}
use rust_croc.Msg.{FilesInformation, Message, Desktop}
use rust_croc.Session.{
  ClientSession, ClientState, key_exchange, ip_exchange, file_info_transfare, file_transfare,
  file_transfared, offer_key, process_key_exchange, process_ip_exchange, is_ip_exchange,
  is_file_info_transfare, is_file_transfare,
}
use rust_croc.Session
use rust_croc.Session.Files.{Disk, Running}
use rust_croc.Session.Loop.{Random, need_port, need_secret, process_client}
use rust_croc.Session.Valid.{Holds, IsValid}
use rust_croc.Session.Rounds.{client_loop-IsValid}
use rust_croc.Std.Slice.{bytes_suffix, str_suffix}

module _ (net : Net) (prim : Primitives) (pake : PakeCrate) (json : Json Message) (d : Desktop)
    (disk : Disk d.World) (fs : FileOps) where
  abbrev Client : Type 0
  Client = Running net prim pake json d disk fs

  abbrev S : Type 0
  S = ClientSession net prim pake

  abbrev V : Client → Type 0
  V = IsValid net prim pake json d disk fs

  abbrev IsNew : Client → Type 0
  IsNew r = r.session.state ≡ key_exchange

  IsNew-IsValid : (r : Client) → IsNew r → V r
  unfolding Holds
  IsNew-IsValid r h = rw h tt

  offered-IsNew :
      (random : Bytes) (s : S)
      → s.state ≡ key_exchange
      → Post (λ s. s.state ≡ key_exchange) (offer_key net prim pake json random s)
  unfolding offer_key
  offered-IsNew random s h =
      let Q : S → Type 0 = λ s. s.state ≡ key_exchange in
      Post-cond Q s.is_sender (ok tt, s) _ (λ _. Post-ok Q tt s h)
        (λ _.
          Post-after Q Q (lift (str_suffix 5 s.shared_secret) s) _
            (Post-of Q (lift (str_suffix 5 s.shared_secret) s) h)
            (λ weak t k.
              let key = pake.new sender (some weak) random in
              let u : S = record t { key = some key } in
              let made =
                lift (Session.pake_message net prim pake json (pake.pub_pake key) (codes "siec"))
                  u in
              Post-after Q Q made _ (Post-of Q made k)
                (λ msg v l. Post-of Q (Session.send net prim pake json msg v) l)))

  has_port : (r : Client) → IsNew r → Post IsNew (need_port net prim pake json d disk fs r)
  unfolding need_port
  has_port r h =
      Post-after IsNew IsNew (lift (ok_or (get_elem? r.session.relay_ports 0) no_relay_port) r) _
        (Post-of IsNew (lift (ok_or (get_elem? r.session.relay_ports 0) no_relay_port) r) h)
        (λ _ s k. Post-ok IsNew tt s k)

  has_secret : (r : Client) → IsNew r → Post IsNew (need_secret net prim pake json d disk fs r)
  unfolding need_secret
  has_secret r h =
      Post-after IsNew IsNew (lift (bytes_suffix 5 r.session.shared_secret) r) _
        (Post-of IsNew (lift (bytes_suffix 5 r.session.shared_secret) r) h)
        (λ _ s k. Post-ok IsNew tt s k)

  -- For every sequence of messages that comes in and whatever the connection for data brings,
  -- process_client of a session in its first state has, after any number of rounds without an error
  -- and when it ends well, all that its state promises: from the exchange of addresses on a key,
  -- the encryption and the tasks for files, from the transfer of the information on the files on
  -- the address of the peer, and in the transfer of the files, for a receiver, the list of the
  -- files that it asks for.
  pub process_client-IsValid :
      (files : Option FilesInformation) (net_task : Outcome (List Bytes)) (random : Bytes)
      (rounds : List Random) (r : Client)
      → r.session.state ≡ key_exchange
      → Post
          (IsValid net prim pake json d disk fs)
          (process_client net prim pake json d disk fs files net_task random rounds r)
  unfolding process_client
  process_client-IsValid files net_task random rounds r h =
      Post-after IsNew V _ _ (has_port r h) (λ _ r h.
        Post-after IsNew V _ _ (has_secret r h) (λ _ r h.
          Post-after IsNew V (lift net_task r) _ (Post-of IsNew (lift net_task r) h)
            (λ incoming q k.
              Post-after IsNew V _ _
                (Post-part (λ s. s.state ≡ key_exchange) IsNew
                  (λ s. record q { session = s; incoming = incoming })
                  (offer_key net prim pake json random q.session) (offered-IsNew random q.session k)
                  (λ s l. l))
                (λ _ t l.
                  client_loop-IsValid net prim pake json d disk fs files rounds t
                    (IsNew-IsValid t l)))))
