-- ===== src/Tests/Session.antt =====
-- A toy desktop and disk, two sessions that exchange keys, and a receiver in `process_client`.
use rust_croc.Common.{
  ◌≡◌, ◌≢◌, inr, panic, ◌↔◌, refl, ap, sym, Bool, true, false, none, some, List, [], ◌∷◌, ◌++◌,
  Bytes, Outcome, ok, err, io, codes, arith, ℕ, ◌^◌, ◌<◌, ◌≤◌, ltb, beq, beq_refl, if◌then◌else◌,
  lt→ltb, ltb→lt, Bool-cases, inl,
}
use rust_croc.Enc.{EncryptedSession}
use rust_croc.Msg.{
  PakeMessage, FileInfo, FilesInformation, Message, Desktop, total_size, create_empty_folders,
  question,
}
use rust_croc.Msg.Folders.{true_sum, total_size_lem, create_empty_folders_iff}
use rust_croc.Session.{ClientSession, ClientState, offer_key, process_key_exchange}
use rust_croc.Session.Agree.{sent, keyed, key_exchange_agree}
use rust_croc.Tests.Net.{net, socket_with}
use rust_croc.Tests.Crypto.{prim, session}
use rust_croc.Tests.Handshake.{pake}
use rust_croc.Tests.Messages.{messages_json}
use rust_croc.Tests.Transfer.{files}
use rust_croc.Common.{Post}
use rust_croc.Wire.RoundTrip.{framed}
use rust_croc.Session.Files.{Disk, Running}
use rust_croc.Session.Loop.{Random, wanted, take_files, process_client}
use rust_croc.Session.Calm.{take_files-ne-panic}
use rust_croc.Session.Valid.{Holds, IsValid}
use rust_croc.Session.Invariant.{process_client-IsValid}
use rust_croc.Std.Slice.{str_suffix}

-- A path is there exactly if all are.
abbrev pub if_there : Bytes → Bool → Outcome Bytes × Bool
if_there p true = (ok p, true)
if_there p false = (err io, false)

abbrev pub make_dir : Bool → Outcome (Unit {0}) × Bool
make_dir true = (err io, true)
make_dir false = (ok tt, true)

pub there : (p q : Bytes) (w w' : Bool) → if_there p w ≡ (ok q, w') → w' ≡ true
there p q true w' h = sym (ap (λ r. r.1) h)
there p q false w' h = cc

abbrev pub desktop : Desktop
desktop = record {
  World = Bool;
  overflow_checks = true;
  canonicalize = λ p w. if_there p w;
  current_dir = λ w. (ok (codes "/home"), w);
  exists = λ p w. w;
  create_dir = λ p w. make_dir w;
  confirm_overwrite = λ p w. (ok true, w);
  confirm_receive = λ n b w. (ok true, w);
  canonicalize_exists = there;
  current_dir_keeps = λ q w. refl;
  confirm_overwrite_keeps = λ p q w. refl;
  create_dir_exists = λ p w h. rw h refl;
}

abbrev pub a_file : FileInfo
a_file = record {
  name = codes "a";
  remote_folder = codes ".";
  source_folder = codes "/home";
  hash = [];
  size = 5;
  modification_time = [];
  is_compressed = false;
  is_encrypted = false;
  symlink = [];
  mode = 420;
  temp_file = false;
}

abbrev two_files : FilesInformation
two_files = record {
  files_to_transfare = some (a_file ∷ a_file ∷ []);
  empty_folders_to_transfare = some (a_file ∷ []);
  total_folders_number = 1;
  machine_id = [];
  ask = true;
  sending_text = false;
  no_compress = false;
  hash_algorithm = codes "xxhash";
}

create_empty_folders_iff_example :
    (create_empty_folders desktop two_files true ≡ (ok tt, true))
    ↔ ((a_file ∷ [] ≡ []) × (true ≡ true))
create_empty_folders_iff_example = create_empty_folders_iff desktop two_files true true

-- A size of 2^63 - 1 and one more byte.
abbrev too_large : FilesInformation
too_large = record two_files {
  files_to_transfare =
      some (record a_file { size = 9223372036854775807 } ∷ record a_file { size = 1 } ∷ []);
}

total_size_lem_example :
    (total_size true too_large ≡ panic)
    × (total_size false too_large ≡ ok 9223372036854775808)
    × (question desktop too_large true ≡ (panic, true))
unfolding true_sum
total_size_lem_example = total_size_lem desktop too_large true (omega arith, (omega arith, tt))

abbrev pub party : ClientSession net prim pake
party = record {
  state = ClientState.key_exchange;
  stream = socket_with [];
  relay_ports = codes "9010" ∷ [];
  encrypted_session = none;
  shared_secret = codes "1234-secret";
  is_sender = false;
  external_ip = codes "1.2.3.4";
  peer_external_ip = none;
  key = none;
  files_to_receive = none;
}

key_exchange_agree_example :
    (offer : PakeMessage) × (answer : PakeMessage) × (r' : ClientSession net prim pake)
    × (a' : pake.Key) × (b : pake.Key) × (e : EncryptedSession net prim) × (offer_key net prim pake
          messages_json [] party
        ≡ (ok tt, sent net prim pake messages_json (Message.pake offer) r'))
    × (process_key_exchange net prim pake messages_json []
          (codes "saltsalt")
          offer
          (record party { is_sender = true })
        ≡ (
          ok tt,
          keyed net prim pake messages_json b e (
              sent net prim pake messages_json
                (Message.pake answer)
                (record party { is_sender = true })),
        ))
    × (process_key_exchange net prim pake messages_json [] [] answer
          (sent net prim pake messages_json (Message.pake offer) r')
        ≡ (
          ok tt,
          keyed net prim pake messages_json a' e (
              sent net prim pake messages_json
                (Message.external_ip (record { external_ip = codes "1.2.3.4" }))
                (sent net prim pake messages_json (Message.pake offer) r')),
        ))
unfolding str_suffix
key_exchange_agree_example =
    key_exchange_agree net prim pake messages_json party party (codes "secret") [] []
      (codes "saltsalt") refl refl refl (λ k. omega arith) (λ k. omega arith) (omega arith) refl
      refl

abbrev pub resized : ℕ → Outcome (Unit {0})
resized n = if ltb n (2 ^ 63) then ok tt else err io

pub resized-small : (n : ℕ) → n < 2 ^ 63 → resized n ≡ ok tt
resized-small n h = rw (lt→ltb n (2 ^ 63) h) refl

pub resized-large : (n : ℕ) → 2 ^ 63 ≤ n → resized n ≡ err io
resized-large n h = elim (Bool-cases (ltb n (2 ^ 63))) [
  | inl small ↦ absurd (omega (arith, h, ltb→lt n (2 ^ 63) small))
  | inr large ↦ rw large refl
]

-- Every file that is opened is empty.
abbrev pub disk : Disk Bool
disk = record {
  open_ = λ p w. (ok (record { contents = []; position = 0 }), w);
  create = λ p w. (ok tt, w);
  set_len = resized;
  same = λ p q. beq p q;
  set_len_lem = λ n small. resized-small n small;
  set_len_overflow = λ n large. resized-large n large;
  same_refl = λ p. beq_refl p;
}

abbrev two_to_take : FilesInformation
two_to_take = record two_files {
  files_to_transfare = some (a_file ∷ record a_file { name = codes "b" } ∷ []);
  empty_folders_to_transfare = none;
}

-- A receiver that gets the sender's key, its address, and two files to take.
abbrev running : Running net prim pake messages_json desktop disk files
running = record {
  session = record party {
    stream = socket_with (
        framed (
          messages_json.text
            (Message.pake (record { bytes = codes "{}"; bytes2 = codes "saltsalt" })))
        ++ (framed
              (messages_json.text (Message.external_ip (record { external_ip = codes "9.9.9.9" })))
            ++ framed (messages_json.text (Message.files_info two_to_take))));
  };
  world = false;
  rw = none;
  requests = [];
  reading = true;
  incoming = [];
  received = [];
}

abbrev randoms : List Random
randoms =
    record { pake = []; salt = [] }
    ∷ record { pake = []; salt = [] }
    ∷ record { pake = []; salt = [] }
    ∷ []

process_client-IsValid_example :
    Post (IsValid net prim pake messages_json desktop disk files) (
      process_client net prim pake messages_json desktop disk files none (ok []) [] randoms running)
process_client-IsValid_example =
    process_client-IsValid net prim pake messages_json desktop disk files none (ok []) [] randoms
      running refl

-- It gets through all three of them, and has asked for the files.
gets_through :
    let (ended, r) =
      process_client net prim pake messages_json desktop disk files none
        (ok [])
        []
        randoms
        running in
    (ended ≡ ok false)
    × (r.session.state ≡ ClientState.file_transfare)
    × (r.session.files_to_receive ≡ some two_to_take)
    × (r.session.peer_external_ip ≡ some (codes "9.9.9.9"))
unfolding process_client rust_croc.Std.Slice.bytes_suffix offer_key rust_croc.Msg.send
    rust_croc.Wire.write rust_croc.Wire.frame rust_croc.Msg.recv rust_croc.Wire.read
    rust_croc.Std.LeBytes.to_le_bytes beq rust_croc.Std.LeBytes.from_le_bytes
    rust_croc.Std.Utf8.from_utf8 rust_croc.Std.Utf8.is_utf8 process_key_exchange
    rust_croc.Enc.to_salt rust_croc.Session.process_ip_exchange
    rust_croc.Session.Files.process_files_info rust_croc.Session.Files.receive_files
    rust_croc.Std.Path.join rust_croc.Msg.create_empty_folders
gets_through = (refl, refl, refl, refl)

-- A receiver that has taken two files.
abbrev taking : Running net prim pake messages_json desktop disk files
taking = record running {
  session = record party {
    state = ClientState.file_transfare;
    key = some (some (codes "strong"));
    encrypted_session = some session;
    peer_external_ip = some (codes "9.9.9.9");
    files_to_receive = some two_files;
  };
  rw = some session;
}

taking-IsValid : IsValid net prim pake messages_json desktop disk files taking
unfolding Holds wanted
taking-IsValid = (
  (some (codes "strong"), refl),
  (session, refl),
  (session, refl),
  (codes "9.9.9.9", refl),
  inr (a_file ∷ a_file ∷ [], refl),
)

take_files-ne-panic_example :
    (take_files net prim pake messages_json desktop disk files taking).0 ≢ panic
take_files-ne-panic_example =
    take_files-ne-panic net prim pake messages_json desktop disk files taking taking-IsValid
      (λ p w h. cc)
