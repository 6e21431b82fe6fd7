-- ===== src/Fs.antt =====
-- src/relay/fs.rs: the task that reads chunks of a file, and the task that writes them.
pub mod Splice
pub mod Chunk
pub mod AnyOrder
pub mod Reader
use rust_croc.Common.{
  ℕ, ◌+◌, ◌≡◌, List, [], ◌∷◌, ◌++◌, length, take, drop, Bytes, Outcome, ok, err, panic, Act, ◌>>=◌,
  ◌>>◌, lift, return, crash, ltb, if◌then◌else◌,
}
use rust_croc.Std.LeBytes.{to_le_bytes, from_le_bytes}
use rust_croc.Net.{Net, Channel}
use rust_croc.Wire.{write_channel}
use rust_croc.Crypto.{Primitives}
use rust_croc.Crypto
use rust_croc.Enc.{EncryptedSession}
use rust_croc.Enc
use rust_croc.Files.{File, FileOps}

-- `FileChunkInfo`, less the handle of the file, which all chunks of a transfer share.
pub record FileChunkInfo : Type 0 where
  pub chunk_size : ℕ
  pub chunk_offset : ℕ

-- The file that is read, and the channel of the task that writes to the socket.
pub record Sending : Type 0 where
  pub file : File
  pub channel : Channel

abbrev pub on_file {ℓ} : {A : Type ℓ} → Act File A → Act Sending A
on_file m s = let (r, f) = m s.file in (r, record s { file = f })

-- `tokio::task::spawn`: the result of the task is dropped.
abbrev pub spawn : Act Channel (Unit {0}) → Act Sending (Unit {0})
spawn m s = (ok tt, record s { channel = (m s.channel).1 })

module _ (net : Net) (prim : Primitives) (fs : FileOps) where
  -- The body of `fs_reader_task` up to the spawned task: the chunk behind its offset, a usize of
  -- eight bytes. The lock on the file is held from the seek to the end of the read.
  unfoldable pub read_chunk : FileChunkInfo → Act File Bytes
  read_chunk info = do
    fs.seek info.chunk_offset
    chunk ← fs.read_exact info.chunk_size
    return (to_le_bytes 8 info.chunk_offset ++ chunk)

  -- `fs_reader_task` over the chunks asked for, each with the nonce that its encryption generates.
  -- The spawned tasks run in this order here; the theorems let what they send arrive in any order.
  unfoldable pub fs_reader_task :
      EncryptedSession net prim → List (FileChunkInfo × Bytes) → Act Sending (Unit {0})
  fs_reader_task e [] = return tt
  fs_reader_task e ((info, nonce) ∷ rest) = do
    buffer ← on_file (read_chunk info)
    spawn (Enc.write net prim (write_channel net) e nonce buffer)
    fs_reader_task e rest

  -- The inner part of `fs_writer_task`, on decrypted data.
  unfoldable pub write_data : Bytes → Act File (Unit {0})
  write_data bs =
      if ltb (length bs) 8
      then crash
      else (do fs.seek (from_le_bytes (take 8 bs)); fs.write_all (drop 8 bs))

  -- The task that `fs_writer_task` spawns for one chunk. What cannot be decrypted is logged.
  unfoldable pub write_chunk : EncryptedSession net prim → Bytes → Act File (Unit {0})
  unfolding write_data
  write_chunk e bs = elim (Crypto.decrypt prim e.encryptor bs) [
    | ok plain ↦ write_data plain
    | err x ↦ return tt
    | panic ↦ crash
  ]

  -- `fs_writer_task`: a task for each chunk; a panic ends that task alone.
  unfoldable pub fs_writer_task : EncryptedSession net prim → List Bytes → File → File
  fs_writer_task e [] f = f
  fs_writer_task e (c ∷ cs) f = fs_writer_task e cs (write_chunk e c f).1
