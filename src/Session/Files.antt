-- ===== src/Session/Files.antt =====
-- `ClientSession`: the question whether to take the files, sending a file, and receiving the files.
use rust_croc.Common.{
  ◌<◌, ◌≤◌, ◌≡◌, io, ℕ, suc, ◌^◌, Bool, true, false, ◌&&◌, Option, none, some, List, [], ◌∷◌, ◌++◌,
  map, length, get_elem?, Bytes, Outcome, ok, err, panic, prompt, Act, ◌>>=◌, ◌>>◌, lift, return,
  fail, unwrap, ltb, codes, if◌then◌else◌, invalid_state, transfare_denied, channel_closed,
}
use rust_croc.Std.Path
use rust_croc.Net.{Net}
use rust_croc.Crypto.{Primitives}
use rust_croc.Enc.{EncryptedSession}
use rust_croc.Pake.{PakeCrate}
use rust_croc.Json.{Json}
use rust_croc.Files.{File, FileOps}
use rust_croc.Fs.{FileChunkInfo}
use rust_croc.Transfer.{tcp_buffer_size, send_file_chunks, div_ceil, created, receive_chunks}
use rust_croc.Msg.{
  RemoteFileRequest, FileInfo, FilesInformation, Message, Desktop, create_empty_folders, question,
}
use rust_croc.Session.{
  ClientSession, file_transfare, file_transfared, is_file_info_transfare, is_file_transfare,
}
use rust_croc.Session

-- The files of the machine: `File::open`; `File::create`, and what `set_len` on a file that it gives
-- comes to; and whether two paths name one file.
pub record Disk (World : Type 0) : Type 0 where
  pub open_ : Bytes → Act World File
  pub create : Bytes → Act World (Unit {0})
  pub set_len : ℕ → Outcome (Unit {0})
  pub same : Bytes → Bytes → Bool
  -- The system takes the lengths that an i64 has.
  pub set_len_lem : (n : ℕ) → n < 2 ^ 63 → set_len n ≡ ok tt
  pub set_len_overflow : (n : ℕ) → 2 ^ 63 ≤ n → set_len n ≡ err io
  pub same_refl : (p : Bytes) → same p p ≡ true

-- The files but the one of a path.
unfoldable pub others :
    {World : Type 0} → Disk World → Bytes → List (Bytes × File) → List (Bytes × File)
others disk path [] = []
others disk path (e ∷ files) =
    let rest = others disk path files in if disk.same e.0 path then rest else e ∷ rest

-- The files with the one of a path as it is now, which is the last.
unfoldable pub put :
    {World : Type 0} → Disk World → Bytes → File → List (Bytes × File) → List (Bytes × File)
unfolding others
put disk path file files = others disk path files ++ ((path, file) ∷ [])

module _ (net : Net) (prim : Primitives) (pake : PakeCrate) (json : Json Message) (d : Desktop)
    (disk : Disk d.World) (fs : FileOps) where
  -- The client while `process_client` runs: the session and the machine; the tasks for files once
  -- they are started, by the encryption that they were given; the chunks that the reading task has
  -- been asked for, and whether it still takes requests; the messages to come on the connection for
  -- data; and the files that it has made on its disk, each with its path.
  pub record Running : Type 0 where
    pub session : ClientSession net prim pake
    pub world : d.World
    pub rw : Option (EncryptedSession net prim)
    pub requests : List (File × FileChunkInfo)
    pub reading : Bool
    pub incoming : List Bytes
    pub received : List (Bytes × File)

  abbrev pub on_session {ℓ} : {A : Type ℓ} → Act (ClientSession net prim pake) A → Act Running A
  on_session m r = let (a, s) = m r.session in (a, record r { session = s })

  abbrev pub on_world {ℓ} : {A : Type ℓ} → Act d.World A → Act Running A
  on_world m r = let (a, w) = m r.world in (a, record r { world = w })

  abbrev pub send : Message → Act Running (Unit {0})
  send msg = on_session (Session.send net prim pake json msg)

  -- `spawn_blocking(..).await?` around a prompt and its `unwrap`: a panic comes back as an error.
  unfoldable pub joined : Outcome Bool → Outcome Bool
  joined (ok b) = ok b
  joined (err e) = err prompt
  joined panic = err prompt

  -- The state after the user's consent: with no files to come, the transfer is over.
  unfoldable pub start_files : Option (List FileInfo) → Act Running (Unit {0})
  start_files none = do
    send Message.finished
    on_session (λ s. (ok tt, record s { state = file_transfared }))
  start_files (some files) = on_session (λ s. (ok tt, record s { state = file_transfare }))

  -- What follows the user's consent.
  unfoldable pub accept_files : FilesInformation → Act Running (Unit {0})
  unfolding start_files
  accept_files i = do on_world (create_empty_folders d i); start_files i.files_to_transfare

  unfoldable pub decide_files : FilesInformation → Bool → Act Running (Unit {0})
  unfolding accept_files
  decide_files i true = accept_files i
  decide_files i false = do
    send (Message.type_error (record { message = codes "refusing files" }))
    fail transfare_denied

  -- The question, with the number and the size of the files.
  unfoldable pub ask_receive : FilesInformation → Act Running Bool
  unfolding joined question
  ask_receive i r = let (a, w) = question d i r.world in (joined a, record r { world = w })

  -- `process_files_info`
  unfoldable pub process_files_info : FilesInformation → Act Running (Unit {0})
  unfolding ask_receive decide_files is_file_info_transfare
  process_files_info i r =
      if r.session.is_sender
      then (panic, r)
      else if is_file_info_transfare r.session.state
      then (do
        on_session (λ s. (ok tt, record s { files_to_receive = some i }))
        answer ← ask_receive i
        decide_files i answer)
          r
      else (err invalid_state, r)

  -- Requests go to the reading task as long as it runs.
  unfoldable pub request : File → List FileChunkInfo → Act Running (Unit {0})
  request file [] r = (ok tt, r)
  request file (c ∷ cs) r =
      if r.reading
      then (ok tt, record r { requests = r.requests ++ map (λ x. (file, x)) (c ∷ cs) })
      else (err channel_closed, r)

  unfoldable pub send_listed : ℕ → Option (List FileInfo) → Act Running (Unit {0})
  unfolding request
  send_listed n none = return tt
  send_listed n (some files) = do
    current_file ← lift (unwrap (get_elem? files n))
    file ← on_world (disk.open_ (Path.join current_file.source_folder current_file.name))
    request file (send_file_chunks (length file.contents))

  -- `send_file`
  unfoldable pub send_file : RemoteFileRequest → FilesInformation → Act Running (Unit {0})
  unfolding send_listed is_file_transfare
  send_file msg files r =
      if r.session.is_sender
      then if is_file_transfare r.session.state
        then send_listed msg.files_to_transfer_current_num files.files_to_transfare r
        else (panic, r)
      else (panic, r)

  -- `size.div_ceil(TCP_BUFFER_SIZE)` on an i64: nothing is received for a negative size.
  unfoldable pub total_chunks : ℕ → ℕ
  total_chunks size = if ltb size (2 ^ 63) then div_ceil size tcp_buffer_size else 0

  unfoldable pub keep_file : Bytes → File → Act Running (Unit {0})
  unfolding put
  keep_file path file r = (ok tt, record r { received = put disk path file r.received })

  -- `File::create`, which leaves the file of that path empty, and `set_len`.
  unfoldable pub create_file : Bytes → ℕ → Act Running (Unit {0})
  unfolding keep_file
  create_file path size = do
    on_world (disk.create path)
    keep_file path (record { contents = []; position = 0 })
    lift (disk.set_len size)
    keep_file path (created fs size)

  -- The loop over the chunks of one file, each of which is written as soon as it is there: the tasks
  -- that the writing task spawns for them have run. Without the tasks for files, the first chunk is a
  -- panic.
  unfoldable pub receive_with :
      Option (EncryptedSession net prim) → ℕ → Bytes → File → Act Running (Unit {0})
  unfolding keep_file
  receive_with none chunks path file r =
      if ltb 0 chunks && ltb 0 (length r.incoming) then (panic, r) else keep_file path file r
  receive_with (some e) chunks path file r =
      let (f, rest) = receive_chunks net prim fs e chunks r.incoming file in
      keep_file path f (record r { incoming = rest })

  unfoldable pub receive_data : ℕ → Bytes → File → Act Running (Unit {0})
  unfolding receive_with
  receive_data chunks path file r = receive_with r.rw chunks path file r

  -- One round of the loop over the files.
  unfoldable pub receive_file : ℕ → FileInfo → Act Running (Unit {0})
  unfolding create_file receive_data total_chunks
  receive_file index info =
      let path = Path.join info.remote_folder info.name in
      do
        create_file path info.size
        send (
            Message.type_recipient_ready (record {
              current_file_chunk_ranges = [];
              files_to_transfer_current_num = index;
              machine_id = [];
            }))
        receive_data (total_chunks info.size) path (created fs info.size)

  unfoldable pub receive_files : ℕ → List FileInfo → Act Running (Unit {0})
  unfolding receive_file
  receive_files index [] = return tt
  receive_files index (f ∷ files) = do receive_file index f; receive_files (suc index) files
