-- ===== src/Tests/EndToEnd.antt =====
-- A sender with two files, and a receiver of them.
use rust_croc.Common.{
  ℕ, zero, suc, length, ◌^◌, ◌<◌, ◌≡◌, refl, Bool, true, false, none, some, List, [], ◌∷◌, ◌++◌,
  Bytes, ok, codes, arith, beq, beq_refl,
}
use rust_croc.Std.Path
use rust_croc.Enc.{EncryptedSession}
use rust_croc.Files.{File}
use rust_croc.Fs.{FileChunkInfo}
use rust_croc.Transfer.{send_file_chunks}
use rust_croc.Msg.{FileInfo, FilesInformation}
use rust_croc.Session.Files.{Disk, Running}
use rust_croc.Session.Loop.{Random, process_client}
use rust_croc.Session.Hear.{hearing}
use rust_croc.Session.Sending.{ready, as_sender}
use rust_croc.Session.Delivery.{Delivers, Delivers-jobs}
use rust_croc.Session.Taking.{flat, Described}
use rust_croc.Session.Introduced.{as_receiver}
use rust_croc.Session.EndToEnd.{CanMeet, AllFit, agreed, Served, Received, sessions_transfer}
use rust_croc.Tests.Net.{net}
use rust_croc.Tests.Crypto.{prim, nonce}
use rust_croc.Tests.Handshake.{pake}
use rust_croc.Tests.Messages.{messages_json}
use rust_croc.Tests.Transfer.{files}
use rust_croc.Tests.Session.{desktop, party, a_file, resized, resized-small, resized-large}
use rust_croc.Std.Slice.{str_suffix}

-- Every file that is there says hello.
abbrev pub hello : Bytes → File
hello p = record { contents = codes "hello"; position = 0 }

abbrev pub disk : Disk Bool
disk = record {
  open_ = λ p w. (ok (hello p), w);
  create = λ p w. (ok tt, w);
  set_len = resized;
  same = λ p q. beq p q;
  set_len_lem = λ n small. resized-small n small;
  set_len_overflow = λ n large. resized-large n large;
  same_refl = λ p. beq_refl p;
}

abbrev pub listed_files : List FileInfo
listed_files = a_file ∷ record a_file { name = codes "b" } ∷ []

abbrev pub offer : FilesInformation
offer = record {
  files_to_transfare = some listed_files;
  empty_folders_to_transfare = none;
  total_folders_number = 0;
  machine_id = [];
  ask = true;
  sending_text = false;
  no_compress = true;
  hash_algorithm = codes "xxhash";
}

abbrev pub client : Running net prim pake messages_json desktop disk files
client = record {
  session = party;
  world = true;
  rw = none;
  requests = [];
  reading = true;
  incoming = [];
  received = [];
}

abbrev key : EncryptedSession net prim
key =
    agreed net prim pake messages_json desktop disk files offer listed_files hello (codes "secret")
      [] [] (codes "saltsalt")

abbrev jobs : List (FileChunkInfo × Bytes)
jobs = (record { chunk_size = 5; chunk_offset = 0 }, nonce) ∷ []

one_comes : (cs : List Bytes) × Delivers net prim files key (hello []) cs
unfolding send_file_chunks
one_comes =
    Delivers-jobs net prim files key (hello []) jobs (omega arith) (omega arith) refl (omega arith)

a_file-Described :
    (f : FileInfo) → f.size ≡ 5 → Described net prim pake messages_json desktop disk files hello f
a_file-Described f h = record { size = h; small = omega (arith, h); creates = λ w. refl }

can_meet :
    CanMeet net prim pake messages_json desktop disk files client client offer
      (codes "secret")
      (codes "9010")
      (codes "9010")
unfolding str_suffix rust_croc.Msg.question
can_meet = record {
  receiver_port = refl;
  sender_port = refl;
  receiver_secret = refl;
  sender_secret = refl;
  receiver_takes = refl;
  sender_takes = refl;
  reads = refl;
  agrees = refl;
}

two_requests : (k : ℕ) → k < 2 → length (messages_json.text (ready k)) < 2 ^ 32
two_requests zero h = omega arith
two_requests (suc zero) h = omega arith
two_requests (suc (suc k)) h = absurd (omega (arith, h))

all_fit :
    AllFit net prim pake messages_json desktop disk files client client offer (codes "saltsalt") 2
unfolding Path.join
all_fit = record {
  offer = λ k. omega arith;
  answer = λ k. omega arith;
  receiver_address = omega arith;
  sender_address = omega arith;
  info = omega arith;
  requests = two_requests;
  end_ = omega arith;
}

abbrev pub draw : Random
draw = record { pake = []; salt = [] }

abbrev one_file_each : List (List Bytes)
one_file_each = one_comes.0 ∷ one_comes.0 ∷ []

sessions_transfer_example :
    (up : Bytes) × (down : Bytes) × (t : Running net prim pake messages_json desktop disk files)
    × (u : Running net prim pake messages_json desktop disk files) × (process_client net prim pake
          messages_json desktop disk files
          (some offer)
          (ok [])
          []
          (record { pake = []; salt = codes "saltsalt" } ∷ draw ∷ draw ∷ draw ∷ draw ∷ [])
          (hearing net prim pake messages_json desktop disk files up
            (as_sender net prim pake messages_json desktop disk files client))
        ≡ (ok true, t))
    × (process_client net prim pake messages_json desktop disk files none
          (ok (flat one_file_each ++ []))
          []
          (draw ∷ draw ∷ draw ∷ draw ∷ [])
          (hearing net prim pake messages_json desktop disk files down
            (as_receiver net prim pake messages_json desktop disk files client))
        ≡ (ok true, u))
    × Served net prim pake messages_json desktop disk files offer listed_files hello key client t
        down
        (codes "1.2.3.4")
    × Received net prim pake messages_json desktop disk files offer listed_files hello key client u
        up
        (codes "1.2.3.4")
    × (u.incoming ≡ [])
unfolding beq Path.join
sessions_transfer_example =
    sessions_transfer net prim pake messages_json desktop disk files offer listed_files hello client
      client (codes "secret") [] [] (codes "saltsalt") (codes "9010") (codes "9010") []
      one_file_each [] [] draw draw draw draw draw [] (draw ∷ draw ∷ draw ∷ []) refl refl can_meet
      all_fit refl (omega arith) (refl, (refl, tt))
      (a_file-Described _ refl, (a_file-Described _ refl, tt)) (tt, ((refl, tt), tt))
      (one_comes.1, (one_comes.1, tt)) (omega arith)
