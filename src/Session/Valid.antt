-- ===== src/Session/Valid.antt =====
-- What `ClientSession` has in each of its states, and that each round of `process_client` keeps it.
use rust_croc.Common.{
  ◌≡◌, ◌⊎◌, refl, sym, ap, Bool, true, Option, none, some, List, Bytes, ok, err, Act, Post, Post-of,
  Post-after, Post-ok, Post-fail, Post-panic, Post-if, Post-cond, Post-part, return, invalid_state,
  subst,
}
use rust_croc.Net.{Net}
use rust_croc.Crypto.{Primitives}
use rust_croc.Enc.{EncryptedSession}
use rust_croc.Pake.{PakeCrate}
use rust_croc.Json.{Json}
use rust_croc.Files.{FileOps}
use rust_croc.Msg.{FilesInformation, Message, PakeMessage, Desktop, RemoteFileRequest}
use rust_croc.Msg
use rust_croc.Session.{
  ClientSession, ClientState, key_exchange, ip_exchange, file_info_transfare, file_transfare,
  file_transfared, process_key_exchange, process_ip_exchange, is_ip_exchange,
  is_file_info_transfare, is_file_transfare,
}
use rust_croc.Session
use rust_croc.Session.Keyed.{Has, IsKeyed}
use rust_croc.Session.Files.{Disk, Running}
use rust_croc.Session.Loop.{Random, on_message, start_with, start_fs, serve_request, wanted}
use rust_croc.Session.Loop

module _ (net : Net) (prim : Primitives) (pake : PakeCrate) (json : Json Message) (d : Desktop)
    (disk : Disk d.World) (fs : FileOps) where
  abbrev Client : Type 0
  Client = Running net prim pake json d disk fs

  abbrev S : Type 0
  S = ClientSession net prim pake

  -- The files that a receiver asks for are known; a sender needs none.
  abbrev pub IsTold : Bool → Option FilesInformation → Type 0
  IsTold is_sender files =
      (is_sender ≡ true)
      ⊎ ((is : List Msg.FileInfo) × (wanted net prim pake json d disk fs files ≡ ok is))

  -- What there is in each state: a key, the encryption and the tasks for files; then the address of
  -- the peer; then the files.
  unfoldable pub Holds :
      ClientState
      → Bool
      → Option pake.Key
      → Option (EncryptedSession net prim)
      → Option (EncryptedSession net prim)
      → Option Bytes
      → Option FilesInformation
      → Type 0
  Holds key_exchange b k e rw ip files = Unit
  Holds ip_exchange b k e rw ip files = Has k × Has e × Has rw
  Holds file_info_transfare b k e rw ip files = Has k × Has e × Has rw × Has ip
  Holds file_transfare b k e rw ip files = Has k × Has e × Has rw × Has ip × IsTold b files
  Holds file_transfared b k e rw ip files = Has k × Has e × Has rw × Has ip

  abbrev pub IsValid : Client → Type 0
  IsValid r =
      Holds r.session.state r.session.is_sender r.session.key r.session.encrypted_session r.rw
        r.session.peer_external_ip r.session.files_to_receive

  -- Each state, seen through the test that the code makes of it.
  pub in_ip_exchange :
      (b : Bool) (k : Option pake.Key) (e w : Option (EncryptedSession net prim))
      (ip : Option Bytes) (files : Option FilesInformation) (st : ClientState)
      → is_ip_exchange st ≡ true
      → Holds st b k e w ip files
      → Has k × Has e × Has w
  unfolding Holds is_ip_exchange
  in_ip_exchange b k e w ip files key_exchange t h = cc
  in_ip_exchange b k e w ip files ip_exchange t h = h
  in_ip_exchange b k e w ip files file_info_transfare t h = cc
  in_ip_exchange b k e w ip files file_transfare t h = cc
  in_ip_exchange b k e w ip files file_transfared t h = cc

  pub in_file_info :
      (b : Bool) (k : Option pake.Key) (e w : Option (EncryptedSession net prim))
      (ip : Option Bytes) (files : Option FilesInformation) (st : ClientState)
      → is_file_info_transfare st ≡ true
      → Holds st b k e w ip files
      → Has k × Has e × Has w × Has ip
  unfolding Holds is_file_info_transfare
  in_file_info b k e w ip files key_exchange t h = cc
  in_file_info b k e w ip files ip_exchange t h = cc
  in_file_info b k e w ip files file_info_transfare t h = h
  in_file_info b k e w ip files file_transfare t h = cc
  in_file_info b k e w ip files file_transfared t h = cc

  pub after_key_exchange :
      (b : Bool) (k : Option pake.Key) (e w : Option (EncryptedSession net prim))
      (ip : Option Bytes) (files : Option FilesInformation) (st : ClientState)
      → st ≡ ip_exchange
      → Has k
      → Has e
      → Has w
      → Holds st b k e w ip files
  unfolding Holds
  after_key_exchange b k e w ip files st t hk he hr = rw t (hk, he, hr)

  -- The start of the tasks behind `process_key_exchange`.
  pub start-IsValid :
      (o : Option (EncryptedSession net prim)) (r : Client)
      → IsKeyed net prim pake json r.session
      → Post IsValid (start_with net prim pake json d disk fs o r)
  unfolding start_with
  start-IsValid none r k = Post-panic _ IsValid r
  start-IsValid (some e) r (k, is, st) =
      Post-ok IsValid tt (record r { rw = some e })
        (after_key_exchange _ _ _ _ _ _ r.session.state st k is (e, refl))

  -- After `process_ip_exchange`, which was in the right state.
  abbrev IsToldOf : S → S → Type 0
  IsToldOf s t =
      (is_ip_exchange s.state ≡ true)
      × (t ≡ record s {
        stream = t.stream;
        peer_external_ip = t.peer_external_ip;
        state = file_info_transfare;
      })
      × Has t.peer_external_ip

  address_told :
      (ip : Bytes) (s : S) → Post (IsToldOf s) (process_ip_exchange net prim pake json ip s)
  unfolding process_ip_exchange
  address_told ip s =
      let told : Act S (Unit {0}) =
        Session.send net prim pake json
          (Message.external_ip (record { external_ip = s.external_ip })) in
      let same : S → Type 0 = λ t. t ≡ record s { stream = t.stream } in
      Post-cond (IsToldOf s) (is_ip_exchange s.state) _ (err invalid_state, s)
        (λ right.
          Post-after same (IsToldOf s) _ _
            (Post-if same s.is_sender told (return tt) s (λ _. Post-of same (told s) refl)
              (λ _. Post-ok same tt s refl))
            (λ _ t k.
              Post-ok (IsToldOf s) tt
                (record t { peer_external_ip = some ip; state = file_info_transfare })
                (
                  right,
                  ap {A = S}
                      (λ x. record x { peer_external_ip = some ip; state = file_info_transfare }) k,
                  (ip, refl),
                )))
        (λ _. Post-fail _ (IsToldOf s) invalid_state s)

  pub told-IsValid :
      (ip : Bytes) (r : Client)
      → IsValid r
      → Post IsValid (
          Loop.on_session net prim pake json d disk fs
            (process_ip_exchange net prim pake json ip)
            r)
  unfolding Holds
  told-IsValid ip r h =
      Post-part (IsToldOf r.session) IsValid (λ s. record r { session = s })
        (process_ip_exchange net prim pake json ip r.session) (address_told ip r.session)
        (λ t (right, e, known).
          let (k, en, w) = in_ip_exchange _ _ _ _ _ _ r.session.state right h in
          subst (λ x. IsValid (record r { session = x })) (sym e) (k, en, w, known))
