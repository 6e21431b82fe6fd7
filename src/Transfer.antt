-- ===== src/Transfer.antt =====
-- src/proto/client_session.rs: how `send_file` cuts a file into chunks, and the loop of
-- `process_client` that takes the chunks of one file.
pub mod Cover
pub mod AnyOrder
pub mod OverWire
pub mod Loop
pub mod Ping
use rust_croc.Common.{
  ℕ, zero, suc, ◌+◌, ◌-◌, ◌*◌, ◌/◌, ◌%◌, List, [], ◌∷◌, map, Bytes, ltb, ◌==◌, if◌then◌else◌, Act,
  after, ◌>>◌, return,
}
use rust_croc.Net.{Net}
use rust_croc.Crypto.{Primitives}
use rust_croc.Enc.{EncryptedSession}
use rust_croc.Files.{File, FileOps}
use rust_croc.Fs.{FileChunkInfo, write_chunk}

-- `TCP_BUFFER_SIZE`
abbrev pub tcp_buffer_size : ℕ
tcp_buffer_size = 1024 * 64

-- `(start..end).step_by(step)`, for at most so many rounds.
unfoldable pub step_by : ℕ → ℕ → ℕ → ℕ → List ℕ
step_by zero step start end = []
step_by (suc fuel) step start end =
    let rest = step_by fuel step (start + step) end in if ltb start end then start ∷ rest else []

-- The chunk that begins at an offset: a whole buffer, or what is left of the file.
unfoldable pub chunk_at : ℕ → ℕ → FileChunkInfo
chunk_at file_size chunk_offset = record {
  chunk_size =
      if ltb file_size (chunk_offset + tcp_buffer_size)
      then file_size - chunk_offset
      else tcp_buffer_size;
  chunk_offset = chunk_offset;
}

-- The loop of `send_file`: what it asks `fs_reader_task` for.
unfoldable pub send_file_chunks : ℕ → List FileChunkInfo
unfolding step_by chunk_at
send_file_chunks file_size =
    map (chunk_at file_size) (step_by file_size tcp_buffer_size 0 file_size)

-- `i64::div_ceil` of a size that is not negative.
unfoldable pub div_ceil : ℕ → ℕ → ℕ
div_ceil n d = if n % d == 0 then n / d else n / d + 1

-- `File::create`, which leaves an empty file, and `set_len`.
unfoldable pub created : FileOps → ℕ → File
created fs size = (fs.set_len size (record { contents = []; position = 0 })).1

-- The receiving loop, with the rounds left until `total_chunks`, over the messages that come in
-- until the channel closes: each goes to `fs_writer_task`. It gives the file, and what is left in
-- the channel.
unfoldable pub receive_chunks :
    (net : Net) (prim : Primitives)
    → FileOps
    → EncryptedSession net prim
    → ℕ
    → List Bytes
    → File
    → File × List Bytes
receive_chunks net prim fs d zero cs f = (f, cs)
receive_chunks net prim fs d (suc left) [] f = (f, [])
receive_chunks net prim fs d (suc left) (c ∷ cs) f =
    receive_chunks net prim fs d left cs (write_chunk net prim fs d c f).1
