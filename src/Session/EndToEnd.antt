-- ===== src/Session/EndToEnd.antt =====
-- `process_client` of a sender and of a receiver, against each other.
use rust_croc.Common.{
  ℕ, ◌^◌, ◌+◌, ◌<◌, ◌≤◌, ◌≡◌, refl, ◌∙◌, true, none, some, List, [], ◌∷◌, ◌++◌, append_assoc,
  append-nil, map, All, get_elem?, length, Bytes, ok, codes,
}
use rust_croc.Net.{Net}
use rust_croc.Wire.RoundTrip.{framed}
use rust_croc.Crypto.{Primitives}
use rust_croc.Enc.{sender, EncryptedSession}
use rust_croc.Pake.{PakeCrate}
use rust_croc.Json.{Json}
use rust_croc.Files.{File, FileOps}
use rust_croc.Transfer.{tcp_buffer_size}
use rust_croc.Msg.{FileInfo, FilesInformation, Message, Desktop, listed, question}
use rust_croc.Session.Agree.{Fits, keys_of, offer_of, answer_of, encryption, address}
use rust_croc.Session.Files.{Disk, Running}
use rust_croc.Session.Loop.{Random, process_client}
use rust_croc.Session.Hear.{hearing}
use rust_croc.Session.Sending.{ready, readies, source, chunks_of, as_sender}
use rust_croc.Session.Sender.{sender_run}
use rust_croc.Session.Taking.{flat, outcome_of, promised, Described, AllDelivered, Apart, path_of}
use rust_croc.Session.Introduced.{as_receiver}
use rust_croc.Session.Receiver.{receiver_run}
use rust_croc.Std.Slice.{str_suffix}

four_said : (s a b c d : Bytes) → (((s ++ a) ++ b) ++ c) ++ d ≡ s ++ (a ++ (b ++ (c ++ (d ++ []))))
four_said s a b c d = rw (append-nil d) (
    append_assoc ((s ++ a) ++ b) c d
    ∙ append_assoc (s ++ a) b (c ++ d)
    ∙ append_assoc s a (b ++ (c ++ d)))

five_said :
    (s a b c d e : Bytes) → ((((s ++ a) ++ b) ++ c) ++ d) ++ e ≡ s ++ (a ++ (b ++ (c ++ (d ++ e))))
five_said s a b c d e =
    append_assoc (((s ++ a) ++ b) ++ c) d e
    ∙ append_assoc ((s ++ a) ++ b) c (d ++ e)
    ∙ append_assoc (s ++ a) b (c ++ (d ++ e))
    ∙ append_assoc s a (b ++ (c ++ (d ++ e)))

module _ (net : Net) (prim : Primitives) (pake : PakeCrate) (json : Json Message) (d : Desktop)
    (disk : Disk d.World) (fs : FileOps) where
  abbrev Client : Type 0
  Client = Running net prim pake json d disk fs

  -- Two clients that can do a transfer: they have a relay port and one secret, their connections
  -- take bytes, the reading task takes requests, and the user of the receiver agrees.
  pub record CanMeet (r s : Client) (i : FilesInformation) (weak port port' : Bytes) : Type 0 where
    pub receiver_port : get_elem? r.session.relay_ports 0 ≡ some port
    pub sender_port : get_elem? s.session.relay_ports 0 ≡ some port'
    pub receiver_secret : str_suffix 5 r.session.shared_secret ≡ ok weak
    pub sender_secret : str_suffix 5 s.session.shared_secret ≡ ok weak
    pub receiver_takes : r.session.stream.writable ≡ true
    pub sender_takes : s.session.stream.writable ≡ true
    pub reads : s.reading ≡ true
    pub agrees : (question d i r.world).0 ≡ ok true

  -- What they say fits a frame.
  pub record AllFit (r s : Client) (i : FilesInformation) (salt : Bytes) (files : ℕ) : Type 0 where
    pub offer : Fits net prim pake json (codes "siec")
    pub answer : Fits net prim pake json salt
    pub receiver_address : length (json.text (address net prim pake json r.session)) < 2 ^ 32
    pub sender_address : length (json.text (address net prim pake json s.session)) < 2 ^ 32
    pub info : length (json.text (Message.files_info i)) < 2 ^ 32
    pub requests : (k : ℕ) → k < files → length (json.text (ready k)) < 2 ^ 32
    pub end_ : length (json.text Message.finished) < 2 ^ 32

  module _ (i : FilesInformation) (all : List FileInfo) (file_at : Bytes → File) where
    -- What comes of the run of a sender: what it has said, and what its reading task has been asked for.
    pub record Served (e : EncryptedSession net prim) (s t : Client) (down ip : Bytes)
        : Type 0 where
      pub said : t.session.stream.sent ≡ s.session.stream.sent ++ down
      pub peer : t.session.peer_external_ip ≡ some ip
      pub tasks : t.rw ≡ some e
      pub asked : t.requests ≡ s.requests ++ chunks_of file_at all

    -- What comes of the run of a receiver: what it has said, and the files.
    pub record Received (e : EncryptedSession net prim) (r u : Client) (up ip : Bytes)
        : Type 0 where
      pub said : u.session.stream.sent ≡ r.session.stream.sent ++ up
      pub peer : u.session.peer_external_ip ≡ some ip
      pub tasks : u.rw ≡ some e
      pub new : List (Bytes × File)
      pub kept : u.received ≡ r.received ++ new
      pub right : map outcome_of new ≡ map (promised file_at) all

    -- The encryption that they agree on.
    abbrev pub agreed : (weak random random' salt : Bytes) → EncryptedSession net prim
    agreed weak random random' salt =
        encryption net prim pake json (keys_of net prim pake json weak random random').strong salt

    -- Take two clients with one secret and a relay port each, whose connections take bytes and
    -- whose messages fit a frame; a salt of eight bytes; a sender with files that it can open, no
    -- empty folders, and a reading task that takes requests; a receiver that can make the files,
    -- none of which is one that it has made or another of them under a second path, is told their
    -- sizes, which are below 2^63, and whose user is asked and agrees; a cipher that takes a whole
    -- buffer and its offset; and on the connection for data, file after file, the messages that
    -- fs_reader_task queues for the chunks of a file under the agreed encryption, those of one file
    -- in any order. Then there are bytes up and bytes down such that, with enough rounds,
    -- process_client of the sender reads from up and sends down, and that of the receiver reads
    -- down and sends up, and both end well. Each has the address of the other, and tasks with the
    -- agreed encryption; the reading task of the sender has been asked for all chunks of all files,
    -- in order; and, once what writes the chunks has run, the receiver has added exactly the files
    -- it was told of, each at its place with the contents that it has at the sender, and left what
    -- came behind them.
    pub sessions_transfer :
        (r s : Client) (weak random random' salt port port' next_key : Bytes)
        (comes : List (List Bytes)) (incoming more : List Bytes) (next r1 r2 r3 r4 : Random)
        (rounds rounds' : List Random)
        → i.files_to_transfare ≡ some all
        → listed i.empty_folders_to_transfare ≡ []
        → CanMeet r s i weak port port'
        → AllFit r s i salt (length all)
        → length salt ≡ 8
        → 8 + tcp_buffer_size ≤ prim.limit
        → All (λ f. disk.open_ (source f) s.world ≡ (ok (file_at (source f)), s.world)) all
        → All (Described net prim pake json d disk fs file_at) all
        → Apart disk (map path_of r.received) all
        → AllDelivered net prim pake json d disk fs file_at
            (agreed weak random random' salt)
            all
            comes
        → length all < length rounds'
        → (up : Bytes) × (down : Bytes) × (t : Client) × (u : Client) × (process_client net prim
              pake json d disk fs
              (some i)
              (ok incoming)
              next_key
              (record { pake = random'; salt = salt } ∷ next ∷ rounds')
              (hearing net prim pake json d disk fs up (as_sender net prim pake json d disk fs s))
            ≡ (ok true, t))
          × (process_client net prim pake json d disk fs none
                (ok (flat comes ++ more))
                random
                (r1 ∷ r2 ∷ r3 ∷ r4 ∷ rounds)
                (hearing net prim pake json d disk fs down
                  (as_receiver net prim pake json d disk fs r))
              ≡ (ok true, u))
          × Served (agreed weak random random' salt) s t down r.session.external_ip
          × Received (agreed weak random random' salt) r u up s.session.external_ip
          × (u.incoming ≡ more)
    sessions_transfer r s weak random random' salt port port' next_key comes incoming more next r1
          r2 r3 r4 rounds rounds' listed_ no_folders meet fit size room opens described apart
          delivered enough =
        let keys = keys_of net prim pake json weak random random' in
        let end_ = framed (json.text Message.finished) in
        let offer = framed (json.text (Message.pake (offer_of net prim pake json weak random))) in
        let answer =
          framed (json.text (Message.pake (answer_of net prim pake json keys.sender_key salt))) in
        let mine = framed (json.text (address net prim pake json r.session)) in
        let theirs = framed (json.text (address net prim pake json s.session)) in
        let info = framed (json.text (Message.files_info i)) in
        let (w, got, ran, right) =
          receiver_run net prim pake json d disk fs i all listed_ no_folders file_at room
            fit.requests fit.end_ described keys salt s.session.external_ip port comes more r1 r2 r3
            r4 rounds r meet.receiver_port meet.receiver_secret size fit.offer fit.answer
            fit.sender_address fit.receiver_address fit.info meet.agrees apart delivered
            meet.receiver_takes in
        (
          offer ++ (mine ++ (readies json 0 all ++ (end_ ++ end_))),
          answer ++ (theirs ++ (info ++ (end_ ++ []))),
          _,
          _,
          sender_run net prim pake json d disk fs i all listed_ file_at fit.end_ keys salt
              r.session.external_ip port' next_key end_ incoming next rounds' s meet.sender_port
              meet.sender_secret (fit.offer (pake.pub_pake (pake.new sender (some weak) random)))
              fit.answer fit.receiver_address fit.sender_address fit.info fit.requests opens enough
              meet.reads meet.sender_takes,
          ran,
          record {
            said = four_said s.session.stream.sent answer theirs info end_;
            peer = refl;
            tasks = refl;
            asked = refl;
          },
          record {
            said = five_said r.session.stream.sent offer mine (readies json 0 all) end_ end_;
            peer = refl;
            tasks = refl;
            new = got;
            kept = refl;
            right = right;
          },
          refl,
        )
