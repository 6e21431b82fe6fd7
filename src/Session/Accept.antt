-- ===== src/Session/Accept.antt =====
-- `process_files_info` and `send_file` keep what `ClientSession` has in each of its states.
use rust_croc.Common.{
  ℕ, ◌≡◌, inr, refl, Bool, true, false, Option, none, some, List, [], ◌∷◌, err, panic, Post,
  Post-of, Post-after, Post-any, Post-ok, Post-fail, Post-panic, Post-cond, lift, get_elem?, unwrap,
  invalid_state, transfare_denied, codes, length,
}
use rust_croc.Std.Path
use rust_croc.Net.{Net}
use rust_croc.Crypto.{Primitives}
use rust_croc.Pake.{PakeCrate}
use rust_croc.Json.{Json}
use rust_croc.Files.{File, FileOps}
use rust_croc.Fs.{FileChunkInfo}
use rust_croc.Transfer.{send_file_chunks}
use rust_croc.Msg.{FilesInformation, Message, PakeMessage, Desktop, RemoteFileRequest}
use rust_croc.Msg
use rust_croc.Session.{ClientSession, file_transfare, file_transfared, is_file_info_transfare}
use rust_croc.Session.Keyed.{Has}
use rust_croc.Session.Files.{
  Disk, Running, process_files_info, start_files, ask_receive, accept_files, decide_files, request,
  send_listed, send_file, total_chunks, receive_with, receive_data, receive_file, receive_files,
}
use rust_croc.Session.Files
use rust_croc.Session.Loop.{wanted}
use rust_croc.Session.Valid.{Holds, IsValid, in_file_info}

module _ (net : Net) (prim : Primitives) (pake : PakeCrate) (json : Json Message) (d : Desktop)
    (disk : Disk d.World) (fs : FileOps) where
  abbrev Client : Type 0
  Client = Running net prim pake json d disk fs

  abbrev S : Type 0
  S = ClientSession net prim pake

  -- What there is while the files are being accepted.
  abbrev IsOffered : FilesInformation → Client → Type 0
  IsOffered i r =
      (Has r.session.key
        × Has r.session.encrypted_session
        × Has r.rw
        × Has r.session.peer_external_ip)
      × (r.session.files_to_receive ≡ some i)

  started-IsValid :
      (i : FilesInformation) (o : Option (List Msg.FileInfo)) (r : Client)
      → i.files_to_transfare ≡ o
      → IsOffered i r
      → Post (IsValid net prim pake json d disk fs) (start_files net prim pake json d disk fs o r)
  unfolding start_files Holds wanted
  started-IsValid i none r is (h, k) =
      Post-after (IsOffered i) (IsValid net prim pake json d disk fs) _ _
        (Post-of (IsOffered i) (Files.send net prim pake json d disk fs Message.finished r) (h, k))
        (λ _ t (h, k).
          Post-ok (IsValid net prim pake json d disk fs) tt
            (record t { session = record t.session { state = file_transfared } }) h)
  started-IsValid i (some files) r is ((a, b, c, ip), k) =
      Post-ok (IsValid net prim pake json d disk fs) tt
        (record r { session = record r.session { state = file_transfare } })
        (a, b, c, ip, inr (files, rw (k, is) refl))

  decided-IsValid :
      (i : FilesInformation) (b : Bool) (r : Client)
      → IsOffered i r
      → Post
          (IsValid net prim pake json d disk fs)
          (decide_files net prim pake json d disk fs i b r)
  unfolding decide_files accept_files
  decided-IsValid i true r h =
      Post-after (IsOffered i) (IsValid net prim pake json d disk fs) _ _
        (Post-of (IsOffered i)
          (Files.on_world net prim pake json d disk fs (Msg.create_empty_folders d i) r) h)
        (λ _ t k. started-IsValid i i.files_to_transfare t refl k)
  decided-IsValid i false r h =
      Post-any (IsValid net prim pake json d disk fs)
        (Files.send net prim pake json d disk fs
          (Message.type_error (record { message = codes "refusing files" })) r)
        _ (λ _ t. Post-fail _ (IsValid net prim pake json d disk fs) transfare_denied t)

  -- `process_files_info`
  pub info-IsValid :
      (i : FilesInformation) (r : Client)
      → IsValid net prim pake json d disk fs r
      → Post
          (IsValid net prim pake json d disk fs)
          (process_files_info net prim pake json d disk fs i r)
  unfolding process_files_info ask_receive
  info-IsValid i r h =
      Post-cond (IsValid net prim pake json d disk fs) r.session.is_sender (panic, r) _
        (λ _. Post-panic _ (IsValid net prim pake json d disk fs) r)
        (λ _.
          Post-cond (IsValid net prim pake json d disk fs) (is_file_info_transfare r.session.state)
            _ (err invalid_state, r)
            (λ right.
              let q : Client = record r {
                session = record r.session { files_to_receive = some i };
              } in
              Post-after (IsOffered i) (IsValid net prim pake json d disk fs) _ _
                (Post-of (IsOffered i) (ask_receive net prim pake json d disk fs i q) (
                  in_file_info net prim pake json d disk fs _ _ _ _ _ _ r.session.state right h,
                  refl,
                ))
                (λ b t k. decided-IsValid i b t k))
            (λ _. Post-fail _ (IsValid net prim pake json d disk fs) invalid_state r))

  -- `send_file` asks the reading task only.
  requested-IsValid :
      (f : File) (cs : List FileChunkInfo) (r : Client)
      → IsValid net prim pake json d disk fs r
      → Post (IsValid net prim pake json d disk fs) (request net prim pake json d disk fs f cs r)
  unfolding request
  requested-IsValid f [] r h = Post-ok (IsValid net prim pake json d disk fs) tt r h
  requested-IsValid f (c ∷ cs) r h =
      Post-cond (IsValid net prim pake json d disk fs) r.reading _ _
        (λ _. Post-ok (IsValid net prim pake json d disk fs) tt _ h)
        (λ _. Post-fail _ (IsValid net prim pake json d disk fs) _ r)

  pub sent-IsValid :
      (n : ℕ) (files : Option (List Msg.FileInfo)) (r : Client)
      → IsValid net prim pake json d disk fs r
      → Post
          (IsValid net prim pake json d disk fs)
          (send_listed net prim pake json d disk fs n files r)
  unfolding send_listed
  sent-IsValid n none r h = Post-ok (IsValid net prim pake json d disk fs) tt r h
  sent-IsValid n (some files) r h =
      Post-after (IsValid net prim pake json d disk fs) (IsValid net prim pake json d disk fs)
        (lift (unwrap (get_elem? files n)) r) _
        (Post-of (IsValid net prim pake json d disk fs) (lift (unwrap (get_elem? files n)) r) h)
        (λ f s k.
          Post-after (IsValid net prim pake json d disk fs) (IsValid net prim pake json d disk fs) _
            _
            (Post-of (IsValid net prim pake json d disk fs)
              (Files.on_world net prim pake json d disk fs
                (disk.open_ (Path.join f.source_folder f.name)) s)
              k)
            (λ file t k. requested-IsValid file (send_file_chunks (length file.contents)) t k))
