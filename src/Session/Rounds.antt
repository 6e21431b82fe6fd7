-- ===== src/Session/Rounds.antt =====
-- Every round of `process_client` keeps what `ClientSession` has in each of its states.
use rust_croc.Common.{
  ℕ, suc, ◌≡◌, inl, refl, Bool, true, false, not, ◌&&◌, Option, none, some, List, [], ◌∷◌, Bytes,
  ok, panic, Act, Post, Post-of, Post-after, Post-ok, Post-panic, Post-cond, Post-part, lift,
  unwrap, ltb, length,
}
use rust_croc.Std.Path
use rust_croc.Net.{Net}
use rust_croc.Crypto.{Primitives}
use rust_croc.Enc.{EncryptedSession}
use rust_croc.Pake.{PakeCrate}
use rust_croc.Json.{Json}
use rust_croc.Files.{File, FileOps}
use rust_croc.Transfer.{created}
use rust_croc.Msg.{FilesInformation, Message, PakeMessage, Desktop, RemoteFileRequest}
use rust_croc.Msg
use rust_croc.Session.{
  ClientSession, file_transfare, process_key_exchange, is_file_info_transfare, is_file_transfare,
}
use rust_croc.Session.Keyed.{Has, IsKeyed, process-IsKeyed}
use rust_croc.Session.Files.{
  Disk, Running, process_files_info, start_files, ask_receive, accept_files, decide_files, request,
  send_listed, send_file, total_chunks, receive_with, receive_data, receive_file, receive_files,
  create_file,
}
use rust_croc.Session.Files
use rust_croc.Session.Loop.{
  Random, on_message, start_with, start_fs, serve_request, wanted, tell_files, take_files,
  receive_message, go_on, unless_done, client_round, client_loop, need_port, need_secret,
  process_client,
}
use rust_croc.Session.Loop
use rust_croc.Session.Valid.{Holds, IsValid, in_file_info, start-IsValid, told-IsValid}
use rust_croc.Session.Accept.{info-IsValid, sent-IsValid}

pub both_true : (a b : Bool) → (a && b) ≡ true → (a ≡ true) × (b ≡ true)
both_true true b h = (refl, h)
both_true false b h = cc

module _ (net : Net) (prim : Primitives) (pake : PakeCrate) (json : Json Message) (d : Desktop)
    (disk : Disk d.World) (fs : FileOps) where
  abbrev Client : Type 0
  Client = Running net prim pake json d disk fs

  abbrev S : Type 0
  S = ClientSession net prim pake

  abbrev V : Client → Type 0
  V = IsValid net prim pake json d disk fs

  kept-IsValid :
      (o : Option (EncryptedSession net prim)) (n : ℕ) (path : Bytes) (f : File) (r : Client)
      → V r
      → Post V (receive_with net prim pake json d disk fs o n path f r)
  unfolding receive_with
  kept-IsValid none n path f r h =
      Post-cond V (ltb 0 n && ltb 0 (length r.incoming)) (panic, r) _ (λ _. Post-panic _ V r)
        (λ _. Post-of V (Files.keep_file net prim pake json d disk fs path f r) h)
  kept-IsValid (some e) n path f r h =
      Post-of V (receive_with net prim pake json d disk fs (some e) n path f r) h

  served-IsValid :
      (o : Option (EncryptedSession net prim)) (files : Option FilesInformation)
      (msg : RemoteFileRequest) (r : Client)
      → V r
      → Post V (serve_request net prim pake json d disk fs o files msg r)
  unfolding serve_request send_file
  served-IsValid none files msg r h = Post-panic _ V r
  served-IsValid (some e) none msg r h = Post-panic _ V r
  served-IsValid (some e) (some i) msg r h =
      Post-cond V r.session.is_sender _ (panic, r)
        (λ _.
          Post-cond V (is_file_transfare r.session.state) _ (panic, r)
            (λ _.
              sent-IsValid net prim pake json d disk fs msg.files_to_transfer_current_num
                i.files_to_transfare r h)
            (λ _. Post-panic _ V r))
        (λ _. Post-panic _ V r)

  made-IsValid :
      (path : Bytes) (size : ℕ) (r : Client)
      → V r
      → Post V (create_file net prim pake json d disk fs path size r)
  unfolding create_file
  made-IsValid path size r h =
      Post-after V V (Files.on_world net prim pake json d disk fs (disk.create path) r) _
        (Post-of V (Files.on_world net prim pake json d disk fs (disk.create path) r) h)
        (λ _ s k.
          let empty : File = record { contents = []; position = 0 } in
          Post-after V V (Files.keep_file net prim pake json d disk fs path empty s) _
            (Post-of V (Files.keep_file net prim pake json d disk fs path empty s) k)
            (λ _ t l.
              Post-after V V (lift (disk.set_len size) t) _
                (Post-of V (lift (disk.set_len size) t) l)
                (λ _ u m.
                  Post-of V (Files.keep_file net prim pake json d disk fs path (created fs size) u)
                    m)))

  one_received :
      (n : ℕ) (i : Msg.FileInfo) (r : Client)
      → V r
      → Post V (receive_file net prim pake json d disk fs n i r)
  unfolding receive_file receive_data
  one_received n i r h =
      let path = Path.join i.remote_folder i.name in
      Post-after V V (create_file net prim pake json d disk fs path i.size r) _
        (made-IsValid path i.size r h)
        (λ _ s k.
          Post-after V V _ _
            (Post-of V
              (Files.send net prim pake json d disk fs
                (Message.type_recipient_ready (record {
                  current_file_chunk_ranges = [];
                  files_to_transfer_current_num = n;
                  machine_id = [];
                }))
                s)
              k)
            (λ _ t l.
              kept-IsValid t.rw (total_chunks net prim pake json d disk fs i.size) path
                (created fs i.size) t l))

  -- The loop over the files keeps all but the stream, the data and the machine.
  received-IsValid :
      (n : ℕ) (is : List Msg.FileInfo) (r : Client)
      → V r
      → Post V (receive_files net prim pake json d disk fs n is r)
  unfolding receive_files receive_file receive_data
  received-IsValid n [] r h = Post-ok V tt r h
  received-IsValid n (i ∷ is) r h =
      Post-after V V (receive_file net prim pake json d disk fs n i r) _ (one_received n i r h)
        (λ _ t k. received-IsValid (suc n) is t k)

  abbrev IsTelling : Client → Type 0
  IsTelling r =
      (Has r.session.key
        × Has r.session.encrypted_session
        × Has r.rw
        × Has r.session.peer_external_ip)
      × (r.session.is_sender ≡ true)

  told_files-IsValid :
      (files : Option FilesInformation) (r : Client)
      → V r
      → Post V (tell_files net prim pake json d disk fs files r)
  unfolding tell_files Holds
  told_files-IsValid files r h =
      Post-cond V (r.session.is_sender && is_file_info_transfare r.session.state) _ (ok tt, r)
        (λ both.
          let (sends, right) = both_true r.session.is_sender _ both in
          Post-after IsTelling V (lift (unwrap files) r) _
            (Post-of IsTelling (lift (unwrap files) r) (
              in_file_info net prim pake json d disk fs _ _ _ _ _ _ r.session.state right h,
              sends,
            ))
            (λ i s k.
              Post-after IsTelling V _ _
                (Post-of IsTelling (Loop.send net prim pake json d disk fs (Message.files_info i) s)
                  k)
                (λ _ t ((a, b, c, ip), l).
                  Post-ok V tt (record t { session = record t.session { state = file_transfare } })
                    (a, b, c, ip, inl l))))
        (λ _. Post-ok V tt r h)

  taken-IsValid : (r : Client) → V r → Post V (take_files net prim pake json d disk fs r)
  unfolding take_files
  taken-IsValid r h =
      Post-cond V (not r.session.is_sender && is_file_transfare r.session.state) _ (ok tt, r)
        (λ _.
          Post-after V V (lift (wanted net prim pake json d disk fs r.session.files_to_receive) r) _
            (Post-of V (lift (wanted net prim pake json d disk fs r.session.files_to_receive) r) h)
            (λ is s k.
              Post-after V V (receive_files net prim pake json d disk fs 0 is s) _
                (received-IsValid 0 is s k)
                (λ _ t l. Post-of V (Loop.send net prim pake json d disk fs Message.finished t) l)))
        (λ _. Post-ok V tt r h)

  handled-IsValid :
      (files : Option FilesInformation) (random : Random) (m : Message) (r : Client)
      → V r
      → Post V (on_message net prim pake json d disk fs files random m r)
  unfolding on_message serve_request start_fs send_file
  handled-IsValid files random (Message.pake msg) r h =
      Post-after (λ q. IsKeyed net prim pake json q.session) V _ _
        (Post-part (IsKeyed net prim pake json) (λ q. IsKeyed net prim pake json q.session)
          (λ s. record r { session = s })
          (process_key_exchange net prim pake json random.pake random.salt msg r.session)
          (process-IsKeyed net prim pake json random.pake random.salt msg r.session) (λ s k. k))
        (λ _ q k.
          Post-after V V _ _
            (start-IsValid net prim pake json d disk fs q.session.encrypted_session q k)
            (λ _ t l. Post-ok V false t l))
  handled-IsValid files random (Message.external_ip msg) r h =
      Post-after V V _ _ (told-IsValid net prim pake json d disk fs msg.external_ip r h)
        (λ _ t l. Post-ok V false t l)
  handled-IsValid files random (Message.files_info i) r h =
      Post-after V V _ _ (info-IsValid net prim pake json d disk fs i r h)
        (λ _ t l. Post-ok V false t l)
  handled-IsValid files random (Message.type_recipient_ready msg) r h =
      Post-after V V (serve_request net prim pake json d disk fs r.rw files msg r) _
        (served-IsValid r.rw files msg r h) (λ _ t l. Post-ok V false t l)
  handled-IsValid files random (Message.type_error msg) r h = Post-panic _ V r
  handled-IsValid files random Message.finished r h =
      Post-after V V (Loop.send net prim pake json d disk fs Message.finished r) _
        (Post-of V (Loop.send net prim pake json d disk fs Message.finished r) h)
        (λ _ t l. Post-ok V true t l)

  gone_on-IsValid :
      (files : Option FilesInformation) (b : Bool) (r : Client)
      → V r
      → Post V (go_on net prim pake json d disk fs files b r)
  unfolding go_on
  gone_on-IsValid files true r h = Post-ok V true r h
  gone_on-IsValid files false r h =
      Post-after V V (tell_files net prim pake json d disk fs files r) _
        (told_files-IsValid files r h)
        (λ _ s k.
          Post-after V V (take_files net prim pake json d disk fs s) _ (taken-IsValid s k)
            (λ _ t l. Post-ok V false t l))

  round-IsValid :
      (files : Option FilesInformation) (random : Random) (r : Client)
      → V r
      → Post V (client_round net prim pake json d disk fs files random r)
  unfolding client_round receive_message
  round-IsValid files random r h =
      Post-after V V (receive_message net prim pake json d disk fs r) _
        (Post-of V (receive_message net prim pake json d disk fs r) h)
        (λ msg s k.
          Post-after V V (on_message net prim pake json d disk fs files random msg s) _
            (handled-IsValid files random msg s k) (λ done t l. gone_on-IsValid files done t l))

  ended-IsValid :
      (b : Bool) (m : Act Client Bool) (r : Client)
      → V r
      → Post V (m r)
      → Post V (unless_done net prim pake json d disk fs b m r)
  unfolding unless_done
  ended-IsValid true m r h k = Post-ok V true r h
  ended-IsValid false m r h k = k

  -- The loop keeps what each state has.
  pub client_loop-IsValid :
      (files : Option FilesInformation) (rounds : List Random) (r : Client)
      → V r
      → Post V (client_loop net prim pake json d disk fs files rounds r)
  unfolding client_loop
  client_loop-IsValid files [] r h = Post-ok V false r h
  client_loop-IsValid files (random ∷ rounds) r h =
      Post-after V V (client_round net prim pake json d disk fs files random r) _
        (round-IsValid files random r h)
        (λ b t k.
          ended-IsValid b (client_loop net prim pake json d disk fs files rounds) t k
            (client_loop-IsValid files rounds t k))
