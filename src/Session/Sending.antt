-- ===== src/Session/Sending.antt =====
-- The rounds of a sender that hears what a receiver has to say.
use rust_croc.Common.{
  ℕ, zero, suc, ◌^◌, ◌<◌, ◌≡◌, refl, ◌∙◌, true, false, Option, some, List, [], ◌∷◌, ◌++◌,
  append-nil, map, drop, get_elem?, length, Bytes, ok,
}
use rust_croc.Std.Path
use rust_croc.Net.{Net}
use rust_croc.Wire.RoundTrip.{framed}
use rust_croc.Crypto.{Primitives}
use rust_croc.Enc.{EncryptedSession}
use rust_croc.Pake.{PakeCrate}
use rust_croc.Json.{Json}
use rust_croc.Files.{File, FileOps}
use rust_croc.Fs.{FileChunkInfo}
use rust_croc.Transfer.{send_file_chunks}
use rust_croc.Msg.{FileInfo, FilesInformation, Message, Desktop}
use rust_croc.Session.{
  ip_exchange, file_transfare, is_file_info_transfare, is_ip_exchange, is_file_transfare,
  process_ip_exchange,
}
use rust_croc.Session.Agree.{
  sent, keyed, sending, Fits, Keys, offer_of, answer_of, encryption, address, send_lem,
  answered_lem,
}
use rust_croc.Session.Files.{Disk, Running, request, send_listed, send_file}
use rust_croc.Session.Loop.{
  Random, on_message, start_with, start_fs, serve_request, tell_files, take_files, go_on,
  client_round,
}
use rust_croc.Session.Hear.{hearing, client_round-hearing}
use rust_croc.Std.Slice.{str_suffix}

-- An element, and what is behind it.
pub drop-cons {ℓ} :
    {A : Type ℓ} (n : ℕ) (xs : List A) (y : A) (ys : List A)
    → drop n xs ≡ y ∷ ys
    → (get_elem? xs n ≡ some y) × (drop (suc n) xs ≡ ys)
drop-cons zero [] y ys h = absurd cc
drop-cons (suc n) [] y ys h = absurd cc
drop-cons zero (x ∷ xs) y ys h = (cc, cc)
drop-cons (suc n) (x ∷ xs) y ys h = drop-cons n xs y ys h

-- A request for a file.
abbrev pub ready : ℕ → Message
ready n =
    Message.type_recipient_ready (record {
      current_file_chunk_ranges = [];
      files_to_transfer_current_num = n;
      machine_id = [];
    })

-- The requests for files from the n-th on, as bytes.
abbrev pub readies : Json Message → ℕ → List FileInfo → Bytes
readies json n [] = []
readies json n (f ∷ fs) = framed (json.text (ready n)) ++ readies json (suc n) fs

abbrev pub source : FileInfo → Bytes
source f = Path.join f.source_folder f.name

-- The chunks of all these files, in order.
abbrev pub chunks_of : (Bytes → File) → List FileInfo → List (File × FileChunkInfo)
chunks_of file_at [] = []
chunks_of file_at (f ∷ fs) =
    map (λ x. (file_at (source f), x)) (send_file_chunks (length (file_at (source f)).contents))
    ++ chunks_of file_at fs

module _ (net : Net) (prim : Primitives) (pake : PakeCrate) (json : Json Message) (d : Desktop)
    (disk : Disk d.World) (fs : FileOps) where
  abbrev Client : Type 0
  Client = Running net prim pake json d disk fs

  -- A sender, and what it has come to: first a key, then the address of the peer.
  abbrev pub as_sender : Client → Client
  as_sender c = record c { session = sending net prim pake json c.session }

  abbrev pub told : Message → Client → Client
  told m c = record c { session = sent net prim pake json m c.session }

  module _ (files : Option FilesInformation) where
    pub key_round :
        {weak random random' : Bytes} (keys : Keys net prim pake json weak random random')
        (salt rest : Bytes) (c : Client)
        → str_suffix 5 c.session.shared_secret ≡ ok weak
        → length (json.text (Message.pake (offer_of net prim pake json weak random))) < 2 ^ 32
        → Fits net prim pake json salt
        → c.session.stream.writable ≡ true
        → let e = encryption net prim pake json keys.strong salt in
          client_round net prim pake json d disk fs files
            (record { pake = random'; salt = salt })
            (hearing net prim pake json d disk fs
              (framed (json.text (Message.pake (offer_of net prim pake json weak random))) ++ rest)
              (as_sender c))
          ≡ (
            ok false,
            hearing net prim pake json d disk fs rest (record c {
              session = keyed net prim pake json keys.sender_key e (
                  sent net prim pake json
                    (Message.pake (answer_of net prim pake json keys.sender_key salt))
                    (sending net prim pake json c.session));
              rw = some e;
            }),
          )
    unfolding on_message start_fs start_with go_on tell_files take_files is_file_info_transfare
    key_round {weak} {random} {random'} keys salt rest c secret short fits w =
        client_round-hearing net prim pake json d disk fs files
          (record { pake = random'; salt = salt })
          (Message.pake (offer_of net prim pake json weak random)) rest (as_sender c) short
        ∙ rw
            (answered_lem net prim pake json keys salt
              (hearing net prim pake json d disk fs rest c).session secret fits w)
            refl

  -- The sender's answer to the address of the peer: its own, and what it has to send.
  abbrev pub introduced : FilesInformation → Bytes → Client → Client
  introduced i ip c = record c {
    session =
        record (sent net prim pake json (Message.files_info i)
          (sent net prim pake json (address net prim pake json c.session) c.session)) {
            is_sender = true;
            peer_external_ip = some ip;
            state = file_transfare;
          };
  }

  pub address_round :
      (i : FilesInformation) (random : Random) (ip rest : Bytes) (c : Client)
      → length (json.text (Message.external_ip (record { external_ip = ip }))) < 2 ^ 32
      → length (json.text (address net prim pake json c.session)) < 2 ^ 32
      → length (json.text (Message.files_info i)) < 2 ^ 32
      → c.session.stream.writable ≡ true
      → client_round net prim pake json d disk fs (some i) random (
          hearing net prim pake json d disk fs
            (framed (json.text (Message.external_ip (record { external_ip = ip }))) ++ rest)
            (record c { session = record c.session { is_sender = true; state = ip_exchange } }))
        ≡ (ok false, hearing net prim pake json d disk fs rest (introduced i ip c))
  unfolding on_message process_ip_exchange is_ip_exchange go_on tell_files take_files
      is_file_info_transfare is_file_transfare
  address_round i random ip rest c short short' short'' w =
      let stream = (hearing net prim pake json d disk fs rest c).session.stream in
      client_round-hearing net prim pake json d disk fs (some i) random
        (Message.external_ip (record { external_ip = ip })) rest
        (record c { session = record c.session { is_sender = true; state = ip_exchange } }) short
      ∙ rw
          (
            send_lem net prim pake json (address net prim pake json c.session) stream short' w,
            send_lem net prim pake json (Message.files_info i)
                (record stream {
                  sent = stream.sent ++ framed (json.text (address net prim pake json c.session));
                })
                short'' w,
          )
          refl

  -- A sender that serves requests.
  abbrev pub serving : EncryptedSession net prim → Client → Client
  serving e c = record c {
    session = record c.session { is_sender = true; state = file_transfare };
    rw = some e;
  }

  abbrev pub asked : List (File × FileChunkInfo) → Client → Client
  asked jobs c = record c { requests = c.requests ++ jobs }

  request_lem :
      (file : File) (cs : List FileChunkInfo) (r : Client)
      → r.reading ≡ true
      → request net prim pake json d disk fs file cs r ≡ (ok tt, asked (map (λ x. (file, x)) cs) r)
  unfolding request
  request_lem file [] r h = rw append-nil refl
  request_lem file (c ∷ cs) r h = rw h refl

  module _ (i : FilesInformation) (all : List FileInfo) (listed : i.files_to_transfare ≡ some all)
      (file_at : Bytes → File) where
    pub ready_round :
        (random : Random) (n : ℕ) (f : FileInfo) (rest : Bytes) (e : EncryptedSession net prim)
        (c : Client)
        → get_elem? all n ≡ some f
        → disk.open_ (source f) c.world ≡ (ok (file_at (source f)), c.world)
        → c.reading ≡ true
        → length (json.text (ready n)) < 2 ^ 32
        → client_round net prim pake json d disk fs (some i) random (
            hearing net prim pake json d disk fs
              (framed (json.text (ready n)) ++ rest)
              (serving e c))
          ≡ (
            ok false,
            hearing net prim pake json d disk fs rest
                (serving e (asked (chunks_of file_at (f ∷ [])) c)),
          )
    unfolding on_message serve_request send_file send_listed is_file_transfare go_on tell_files
        take_files is_file_info_transfare
    ready_round random n f rest e c there opens reads short =
        let file = file_at (source f) in
        client_round-hearing net prim pake json d disk fs (some i) random (ready n) rest
          (serving e c) short
        ∙ rw
            (
              listed,
              there,
              opens,
              request_lem file (send_file_chunks (length file.contents))
                  (hearing net prim pake json d disk fs rest (serving e c)) reads,
              append-nil,
            )
            refl
