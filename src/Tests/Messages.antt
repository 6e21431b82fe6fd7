-- ===== src/Tests/Messages.antt =====
-- A toy JSON of the messages, on top of that of texts.
use rust_croc.Common.{
  ℕ, zero, suc, ◌≡◌, refl, ap, ◌∙◌, Bool, true, false, Option, none, some, List, [], ◌∷◌, length,
  Bytes, Outcome, ok, err, panic, json, ◌==◌,
}
use rust_croc.Json.{Json}
use rust_croc.Msg.{FileInfo, Message}
use rust_croc.Tests.Keepalive.{texts_json}

abbrev of_bool : Bool → ℕ
of_bool true = 1
of_bool false = 0

abbrev to_bool : ℕ → Bool
to_bool n = n == 1

bool_back : (b : Bool) → to_bool (of_bool b) ≡ b
bool_back true = refl
bool_back false = refl

abbrev write_file : FileInfo → List Bytes → List Bytes
write_file f rest =
    f.name
    ∷ f.remote_folder
    ∷ f.source_folder
    ∷ f.hash
    ∷ f.modification_time
    ∷ f.symlink
    ∷ (f.size
        ∷ f.mode
        ∷ of_bool f.is_compressed
        ∷ of_bool f.is_encrypted
        ∷ of_bool f.temp_file
        ∷ [])
    ∷ rest

abbrev write_files : List FileInfo → List Bytes → List Bytes
write_files [] rest = rest
write_files (f ∷ fs) rest = write_file f (write_files fs rest)

abbrev count_of : Option (List FileInfo) → ℕ
count_of none = 0
count_of (some fs) = suc (length fs)

abbrev write_listed : Option (List FileInfo) → List Bytes → List Bytes
write_listed none rest = rest
write_listed (some fs) rest = write_files fs rest

abbrev make_file : Bytes → Bytes → Bytes → Bytes → Bytes → Bytes → Bytes → FileInfo
make_file n r s h t y (size ∷ mode ∷ c ∷ e ∷ tf ∷ []) = record {
  name = n;
  remote_folder = r;
  source_folder = s;
  hash = h;
  size = size;
  modification_time = t;
  is_compressed = to_bool c;
  is_encrypted = to_bool e;
  symlink = y;
  mode = mode;
  temp_file = to_bool tf;
}
make_file n r s h t y _ = record {
  name = n;
  remote_folder = r;
  source_folder = s;
  hash = h;
  size = 0;
  modification_time = t;
  is_compressed = false;
  is_encrypted = false;
  symlink = y;
  mode = 0;
  temp_file = false;
}

abbrev read_files : ℕ → List Bytes → List FileInfo × List Bytes
read_files zero xs = ([], xs)
read_files (suc k) (n ∷ r ∷ s ∷ h ∷ t ∷ y ∷ numbers ∷ rest) =
    let (fs, left) = read_files k rest in (make_file n r s h t y numbers ∷ fs, left)
read_files (suc k) _ = ([], [])

file_back :
    (f : FileInfo)
    → make_file f.name f.remote_folder f.source_folder f.hash f.modification_time f.symlink (
        f.size
        ∷ f.mode
        ∷ of_bool f.is_compressed
        ∷ of_bool f.is_encrypted
        ∷ of_bool f.temp_file
        ∷ [])
      ≡ f
file_back f = rw (bool_back f.is_compressed, bool_back f.is_encrypted, bool_back f.temp_file) refl

files_back :
    (fs : List FileInfo) (rest : List Bytes)
    → read_files (length fs) (write_files fs rest) ≡ (fs, rest)
files_back [] rest = refl
files_back (f ∷ fs) rest = rw (files_back fs rest, file_back f) refl

abbrev read_listed : ℕ → List Bytes → Option (List FileInfo) × List Bytes
read_listed zero xs = (none, xs)
read_listed (suc k) xs = let (fs, left) = read_files k xs in (some fs, left)

listed_back :
    (o : Option (List FileInfo)) (rest : List Bytes)
    → read_listed (count_of o) (write_listed o rest) ≡ (o, rest)
listed_back none rest = refl
listed_back (some fs) rest = rw (files_back fs rest) refl

abbrev pub write_message : Message → List Bytes
write_message (Message.pake m) = [] ∷ m.bytes ∷ m.bytes2 ∷ []
write_message (Message.external_ip m) = (0 ∷ []) ∷ m.external_ip ∷ []
write_message (Message.files_info i) =
    (count_of i.files_to_transfare
      ∷ count_of i.empty_folders_to_transfare
      ∷ i.total_folders_number
      ∷ of_bool i.ask
      ∷ of_bool i.sending_text
      ∷ of_bool i.no_compress
      ∷ [])
    ∷ i.machine_id
    ∷ i.hash_algorithm
    ∷ write_listed i.files_to_transfare (write_listed i.empty_folders_to_transfare [])
write_message (Message.type_recipient_ready m) =
    (0 ∷ m.files_to_transfer_current_num ∷ []) ∷ m.current_file_chunk_ranges ∷ m.machine_id ∷ []
write_message (Message.type_error m) = (0 ∷ 0 ∷ 0 ∷ []) ∷ m.message ∷ []
write_message Message.finished = []

abbrev pub read_message : List Bytes → Outcome Message
read_message [] = ok Message.finished
read_message ([] ∷ bs ∷ bs2 ∷ []) = ok (Message.pake (record { bytes = bs; bytes2 = bs2 }))
read_message ((_ ∷ []) ∷ ip ∷ []) = ok (Message.external_ip (record { external_ip = ip }))
read_message ((k ∷ l ∷ folders ∷ a ∷ t ∷ c ∷ []) ∷ machine ∷ algorithm ∷ xs) =
    let (files, ys) = read_listed k xs in
    let (empty, zs) = read_listed l ys in
    ok (
      Message.files_info (record {
        files_to_transfare = files;
        empty_folders_to_transfare = empty;
        total_folders_number = folders;
        machine_id = machine;
        ask = to_bool a;
        sending_text = to_bool t;
        no_compress = to_bool c;
        hash_algorithm = algorithm;
      }))
read_message ((_ ∷ n ∷ []) ∷ ranges ∷ machine ∷ []) = ok (
    Message.type_recipient_ready (record {
      current_file_chunk_ranges = ranges;
      files_to_transfer_current_num = n;
      machine_id = machine;
    }))
read_message ((_ ∷ _ ∷ _ ∷ []) ∷ text ∷ []) = ok (Message.type_error (record { message = text }))
read_message _ = err json

abbrev pub after_texts : Outcome (List Bytes) → Outcome Message
after_texts (ok xs) = read_message xs
after_texts (err e) = err e
after_texts panic = panic

pub message_back : (m : Message) → read_message (write_message m) ≡ ok m
message_back (Message.pake m) = refl
message_back (Message.external_ip m) = refl
message_back (Message.files_info i) =
    rw
      (
        listed_back i.files_to_transfare (write_listed i.empty_folders_to_transfare []),
        listed_back i.empty_folders_to_transfare [],
        bool_back i.ask,
        bool_back i.sending_text,
        bool_back i.no_compress,
      )
      refl
message_back (Message.type_recipient_ready m) = refl
message_back (Message.type_error m) = refl
message_back Message.finished = refl

abbrev pub messages_json : Json Message
messages_json = record {
  to_string = λ m. ok (texts_json.text (write_message m));
  from_str = λ bs. after_texts (texts_json.from_str bs);
  from_slice = λ bs. after_texts (texts_json.from_slice bs);
  text = λ m. texts_json.text (write_message m);
  to_string_lem = λ m. refl;
  from_str-text = λ m. ap after_texts (texts_json.from_str-text (write_message m)) ∙ message_back m;
  from_slice-text =
      λ m. ap after_texts (texts_json.from_slice-text (write_message m)) ∙ message_back m;
  text-utf8 = λ m. texts_json.text-utf8 (write_message m);
}
