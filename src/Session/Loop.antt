-- ===== src/Session/Loop.antt =====
-- `ClientSession::process_client`.
use rust_croc.Common.{
  Bool, true, false, not, ◌&&◌, Option, none, some, List, [], ◌∷◌, get_elem?, Bytes, Outcome, ok,
  panic, Act, ◌>>=◌, ◌>>◌, lift, return, crash, unwrap, if◌then◌else◌, no_relay_port, ok_or,
}
use rust_croc.Net.{Net}
use rust_croc.Crypto.{Primitives}
use rust_croc.Enc.{EncryptedSession}
use rust_croc.Pake.{PakeCrate}
use rust_croc.Json.{Json}
use rust_croc.Files.{FileOps}
use rust_croc.Msg.{FilesInformation, Message, PakeMessage, Desktop}
use rust_croc.Msg
use rust_croc.Session.{
  ClientSession, file_transfare, is_file_info_transfare, is_file_transfare, offer_key,
  process_key_exchange, process_ip_exchange,
}
use rust_croc.Session.Files.{Disk, Running, process_files_info, send_file, receive_files}
use rust_croc.Session.Files
use rust_croc.Std.Slice.{bytes_suffix}

-- What the random generator gives for one message: for the key, and the salt.
pub record Random : Type 0 where
  pub pake : Bytes
  pub salt : Bytes

module _ (net : Net) (prim : Primitives) (pake : PakeCrate) (json : Json Message) (d : Desktop)
    (disk : Disk d.World) (fs : FileOps) where
  abbrev pub Client : Type 0
  Client = Running net prim pake json d disk fs

  abbrev pub on_session {ℓ} : {A : Type ℓ} → Act (ClientSession net prim pake) A → Act Client A
  on_session = Files.on_session net prim pake json d disk fs

  abbrev pub send : Message → Act Client (Unit {0})
  send = Files.send net prim pake json d disk fs

  -- `self.encrypted_session.as_ref().unwrap()`, given to the tasks for files.
  unfoldable pub start_with : Option (EncryptedSession net prim) → Act Client (Unit {0})
  start_with none r = (panic, r)
  start_with (some e) r = (ok tt, record r { rw = some e })

  unfoldable pub start_fs : Act Client (Unit {0})
  unfolding start_with
  start_fs r = start_with r.session.encrypted_session r

  unfoldable pub serve_request :
      Option (EncryptedSession net prim)
      → Option FilesInformation
      → Msg.RemoteFileRequest
      → Act Client (Unit {0})
  serve_request none files msg = crash
  serve_request (some e) none msg = crash
  serve_request (some e) (some files) msg = send_file net prim pake json d disk fs msg files

  -- The match on a message; true for the `return` of `Finished`.
  unfoldable pub on_message : Option FilesInformation → Random → Message → Act Client Bool
  unfolding start_fs serve_request
  on_message files random (Message.pake msg) = do
    on_session (process_key_exchange net prim pake json random.pake random.salt msg)
    start_fs
    return false
  on_message files random (Message.external_ip msg) = do
    on_session (process_ip_exchange net prim pake json msg.external_ip)
    return false
  on_message files random (Message.finished) = do send Message.finished; return true
  on_message files random (Message.files_info i) = do
    process_files_info net prim pake json d disk fs i
    return false
  on_message files random (Message.type_recipient_ready msg) = do
    λ r. serve_request r.rw files msg r
    return false
  on_message files random (Message.type_error msg) = crash

  -- The sender tells its files once it knows the peer's address.
  unfoldable pub tell_files : Option FilesInformation → Act Client (Unit {0})
  unfolding is_file_info_transfare
  tell_files files r =
      if r.session.is_sender && is_file_info_transfare r.session.state
      then (do
        i ← lift (unwrap files)
        send (Message.files_info i)
        on_session (λ s. (ok tt, record s { state = file_transfare })))
          r
      else (ok tt, r)

  -- `self.files_to_receive.as_ref().unwrap().files_to_transfare.as_ref().unwrap()`
  unfoldable pub wanted : Option FilesInformation → Outcome (List Msg.FileInfo)
  wanted none = panic
  wanted (some i) = unwrap i.files_to_transfare

  -- The receiver asks for all files once it has taken them, and is finished then.
  unfoldable pub take_files : Act Client (Unit {0})
  unfolding is_file_transfare wanted
  take_files r =
      if not r.session.is_sender && is_file_transfare r.session.state
      then (do
        files ← lift (wanted r.session.files_to_receive)
        receive_files net prim pake json d disk fs 0 files
        send Message.finished)
          r
      else (ok tt, r)

  unfoldable pub receive_message : Act Client Message
  receive_message =
      on_session (λ s. let (a, t) = Msg.recv net json s.stream in (a, record s { stream = t }))

  -- What follows the match, unless it was the `return`.
  unfoldable pub go_on : Option FilesInformation → Bool → Act Client Bool
  unfolding tell_files take_files
  go_on files true = return true
  go_on files false = do tell_files files; take_files; return false

  -- One round of the loop of `process_client`.
  unfoldable pub client_round : Option FilesInformation → Random → Act Client Bool
  unfolding receive_message on_message go_on
  client_round files random = do
    msg ← receive_message
    done ← on_message files random msg
    go_on files done

  -- A `return` ends the loop.
  unfoldable pub unless_done : Bool → Act Client Bool → Act Client Bool
  unless_done true more = return true
  unless_done false more = more

  -- The loop, with the randomness of each round; false when the rounds are used up.
  unfoldable pub client_loop : Option FilesInformation → List Random → Act Client Bool
  unfolding client_round unless_done
  client_loop files [] = return false
  client_loop files (random ∷ more) = do
    done ← client_round files random
    unless_done done (client_loop files more)

  -- The first relay port has to be there, and the slice of the secret that `start_net_task` hashes.
  unfoldable pub need_port : Act Client (Unit {0})
  need_port r =
      (do port ← lift (ok_or (get_elem? r.session.relay_ports 0) no_relay_port); return tt) r

  unfoldable pub need_secret : Act Client (Unit {0})
  need_secret r = (do secret ← lift (bytes_suffix 5 r.session.shared_secret); return tt) r

  -- `process_client`, given what `start_net_task` comes to behind its slice of the secret: the
  -- messages that will come in on the connection for data.
  unfoldable pub process_client :
      Option FilesInformation → Outcome (List Bytes) → Bytes → List Random → Act Client Bool
  unfolding need_port need_secret client_loop
  process_client files net_task random rounds = do
    need_port
    need_secret
    incoming ← lift net_task
    λ r. (ok tt, record r { incoming = incoming })
    on_session (offer_key net prim pake json random)
    client_loop files rounds
