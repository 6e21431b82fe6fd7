-- ===== src/Fs/Chunk.antt =====
-- One chunk, from the file that is read to the file that is written.
use rust_croc.Common.{
  ◌+◌, ◌^◌, ◌≤◌, ◌<◌, ◌≡◌, sym, ◌++◌, length, length-append, take-append, drop-append, Bytes, ok,
  arith, le→ltb,
}
use rust_croc.Std.LeBytes.{to_le_bytes, length-to_le_bytes, from-to_le_bytes}
use rust_croc.Net.{Net}
use rust_croc.Crypto.{Primitives}
use rust_croc.Files.{File, FileOps, splice}
use rust_croc.Fs.{FileChunkInfo, read_chunk, write_data}
use rust_croc.Fs.Splice.{part, length-part}

-- What travels for a chunk of a file: its offset in eight bytes, then its bytes.
abbrev pub plain_chunk : Bytes → FileChunkInfo → Bytes
plain_chunk f info = to_le_bytes 8 info.chunk_offset ++ part info.chunk_offset info.chunk_size f

-- A chunk inside a file whose offsets fit a usize.
pub record Inside (f : Bytes) (info : FileChunkInfo) : Type 0 where
  pub ends : info.chunk_offset + info.chunk_size ≤ length f
  pub small : info.chunk_offset < 2 ^ 64

pub length-plain_chunk :
    (f : Bytes) (info : FileChunkInfo)
    → Inside f info
    → length (plain_chunk f info) ≡ 8 + info.chunk_size
length-plain_chunk f info h = omega (
  arith,
  length-append (to_le_bytes 8 info.chunk_offset) (part info.chunk_offset info.chunk_size f),
  length-to_le_bytes 8 info.chunk_offset,
  length-part info.chunk_offset info.chunk_size f h.ends,
)

module _ (net : Net) (prim : Primitives) (fs : FileOps) where
  -- A chunk inside the file is read whole, and the file is not changed.
  pub read_chunk_lem :
      (info : FileChunkInfo) (f : File)
      → Inside f.contents info
      → read_chunk net prim fs info f ≡ (
        ok (plain_chunk f.contents info),
        record f { position = info.chunk_offset + info.chunk_size },
      )
  unfolding read_chunk
  read_chunk_lem info f h = rw (
    fs.seek_lem info.chunk_offset f,
    fs.read_exact_full info.chunk_size (record f { position = info.chunk_offset }) h.ends,
  )

  -- Written down again, it stands where it was read.
  pub write_data_lem :
      (info : FileChunkInfo) (f : Bytes) (g : File)
      → Inside f info
      → length g.contents ≡ length f
      → (write_data net prim fs (plain_chunk f info) g).1.contents
        ≡ splice info.chunk_offset (part info.chunk_offset info.chunk_size f) g.contents
  unfolding write_data
  write_data_lem info f g h e =
      let offset : Bytes = to_le_bytes 8 info.chunk_offset in
      let bs : Bytes = part info.chunk_offset info.chunk_size f in
      let eight : 8 ≡ length offset = sym (length-to_le_bytes 8 info.chunk_offset) in
      let size = length-part info.chunk_offset info.chunk_size f h.ends in
      rw (
        le→ltb (length (offset ++ bs)) 8 (omega (arith, length-plain_chunk f info h)),
        take-append 8 offset bs eight,
        drop-append 8 offset bs eight,
        from-to_le_bytes 8 info.chunk_offset h.small,
        fs.seek_lem info.chunk_offset g,
        fs.write_all_lem bs (record g { position = info.chunk_offset }) (omega (arith, h.ends)),
      )
