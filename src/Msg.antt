-- ===== src/Msg.antt =====
-- src/proto/croc_msg.rs: the messages of two clients, and what is done with those about files.
-- An i64 is the 64 bits of its two's complement, as a number, which `as usize` and `as u64` keep.
pub mod Folders
use rust_croc.Common.{
  ℕ, ◌+◌, ◌%◌, ◌^◌, ◌≡◌, ◌≢◌, Bool, true, false, not, Option, none, some, List, [], ◌∷◌, length,
  Bytes, Outcome, ok, err, panic, io, Act, ◌>>=◌, ◌>>◌, lift, return, fail, crash, if◌then◌else◌,
  traversal_error, overwrite_denide, leb, ◌&&◌,
}
use rust_croc.Std.Utf8.{is_utf8, from_utf8}
use rust_croc.Std.Path
use rust_croc.Net.{Net, Socket}
use rust_croc.Wire
use rust_croc.Json.{Json}

pub record PakeMessage : Type 0 where
  pub bytes : Bytes
  pub bytes2 : Bytes

pub record ExternalIpMessage : Type 0 where
  pub external_ip : Bytes

pub record RemoteFileRequest : Type 0 where
  pub current_file_chunk_ranges : List ℕ
  pub files_to_transfer_current_num : ℕ
  pub machine_id : Bytes

pub record FileInfo : Type 0 where
  pub name : Bytes
  pub remote_folder : Bytes
  pub source_folder : Bytes
  pub hash : Bytes
  pub size : ℕ
  pub modification_time : Bytes
  pub is_compressed : Bool
  pub is_encrypted : Bool
  pub symlink : Bytes
  pub mode : ℕ
  pub temp_file : Bool

pub record FilesInformation : Type 0 where
  pub files_to_transfare : Option (List FileInfo)
  pub empty_folders_to_transfare : Option (List FileInfo)
  pub total_folders_number : ℕ
  pub machine_id : Bytes
  pub ask : Bool
  pub sending_text : Bool
  pub no_compress : Bool
  pub hash_algorithm : Bytes

pub record TypeErrorMessage : Type 0 where
  pub message : Bytes

pub data Message : Type 0 where
  pake : PakeMessage → Message
  external_ip : ExternalIpMessage → Message
  files_info : FilesInformation → Message
  type_recipient_ready : RemoteFileRequest → Message
  type_error : TypeErrorMessage → Message
  finished : Message

-- `Message::send` and `Message::recv`
unfoldable pub send : Net → Json Message → Message → Act Socket (Unit {0})
send net json msg = do text ← lift (json.to_string msg); Wire.write net text

unfoldable pub recv : Net → Json Message → Act Socket Message
recv net json = do bs ← Wire.read net; text ← lift (from_utf8 bs); lift (json.from_str text)

abbrev pub listed {ℓ} : {A : Type ℓ} → Option (List A) → List A
listed none = []
listed (some xs) = xs

-- `FilesInformation::total_items`
unfoldable pub total_items : FilesInformation → ℕ
total_items i = length (listed i.files_to_transfare) + length (listed i.empty_folders_to_transfare)

-- An i64 is the number below 2^64 that has its bits, and is negative from 2^63 on.
unfoldable pub is_negative : ℕ → Bool
is_negative n = leb (2 ^ 63) n

-- Whether a sum has another sign than both its parts.
unfoldable pub overflows : ℕ → ℕ → ℕ → Bool
unfolding is_negative
overflows a b sum =
    if is_negative a
    then is_negative b && not (is_negative sum)
    else not (is_negative b) && is_negative sum

-- `+` of i64: an overflow is a panic in a build that checks for it, and wraps around in another.
unfoldable pub add_i64 : Bool → ℕ → ℕ → Outcome ℕ
unfolding overflows
add_i64 overflow_checks a b =
    let sum = (a + b) % 2 ^ 64 in if overflow_checks && overflows a b sum then panic else ok sum

-- `sum` of the sizes, from the left.
unfoldable pub sum_sizes : Bool → Outcome ℕ → List FileInfo → Outcome ℕ
unfolding add_i64
sum_sizes overflow_checks (ok n) [] = ok n
sum_sizes overflow_checks (ok n) (f ∷ fs) =
    sum_sizes overflow_checks (add_i64 overflow_checks n f.size) fs
sum_sizes overflow_checks (err e) fs = err e
sum_sizes overflow_checks panic fs = panic

-- `FilesInformation::total_size`
unfoldable pub total_size : Bool → FilesInformation → Outcome ℕ
unfolding sum_sizes
total_size overflow_checks i = sum_sizes overflow_checks (ok 0) (listed i.files_to_transfare)

-- The machine that the program runs on: its folders, the user behind the crate `inquire`, and
-- whether the program is built with checks for overflows.
pub record Desktop : Type 1 where
  pub World : Type 0
  pub overflow_checks : Bool
  pub canonicalize : Bytes → Act World Bytes
  pub current_dir : Act World Bytes
  pub exists : Bytes → World → Bool
  pub create_dir : Bytes → Act World (Unit {0})
  -- The prompts: whether to overwrite a path, and whether to take so many items of so many bytes.
  pub confirm_overwrite : Bytes → Act World Bool
  pub confirm_receive : ℕ → ℕ → Act World Bool
  -- `fs::canonicalize` fails on a path that is not there.
  pub canonicalize_exists :
      (p q : Bytes) (w w' : World) → canonicalize p w ≡ (ok q, w') → exists q w' ≡ true
  -- To ask for the working directory or the user changes nothing of what is there.
  pub current_dir_keeps : (q : Bytes) (w : World) → exists q (current_dir w).1 ≡ exists q w
  pub confirm_overwrite_keeps :
      (p q : Bytes) (w : World) → exists q (confirm_overwrite p w).1 ≡ exists q w
  -- `fs::create_dir` fails on a path that is there.
  pub create_dir_exists : (p : Bytes) (w : World) → exists p w ≡ true → (create_dir p w).0 ≡ err io

-- The prompt with the number and the size of the files, once the size is there.
unfoldable pub ask_about : (d : Desktop) → FilesInformation → Outcome ℕ → Act d.World Bool
unfolding total_items
ask_about d i (ok n) w = d.confirm_receive (total_items i) n w
ask_about d i (err e) w = (err e, w)
ask_about d i panic w = (panic, w)

-- What the closure of `process_files_info` does.
unfoldable pub question : (d : Desktop) → FilesInformation → Act d.World Bool
unfolding total_size ask_about
question d i w = ask_about d i (total_size d.overflow_checks i) w

module _ (d : Desktop) where
  open d use {World, canonicalize, current_dir, exists, create_dir, confirm_overwrite}

  -- The question of `create_folder`, if there is something to overwrite.
  unfoldable pub ask_overwrite : Bytes → Act World (Unit {0})
  ask_overwrite path w =
      if exists path w
      then (do agreed ← confirm_overwrite path; if agreed then return tt else fail overwrite_denide)
          w
      else (ok tt, w)

  -- What `create_folder` does with the canonical path and the working directory.
  unfoldable pub create_below : Bytes → Bytes → Act World (Unit {0})
  unfolding ask_overwrite
  create_below path here =
      if Path.starts_with path here
      then (do ask_overwrite path; create_dir path)
      else if is_utf8 [] path
      then fail (traversal_error path)
      else crash

  -- `FileInfo::create_folder`
  unfoldable pub create_folder : FileInfo → Act World (Unit {0})
  unfolding create_below
  create_folder f = do
    path ← canonicalize f.remote_folder
    here ← current_dir
    create_below path here

  unfoldable pub create_folders : List FileInfo → Act World (Unit {0})
  unfolding create_folder
  create_folders [] = return tt
  create_folders (f ∷ fs) = do create_folder f; create_folders fs

  -- `FilesInformation::create_empty_folders`
  unfoldable pub create_empty_folders : FilesInformation → Act World (Unit {0})
  unfolding create_folders
  create_empty_folders i = create_folders (listed i.empty_folders_to_transfare)
