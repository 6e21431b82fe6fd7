-- ===== src/Files.antt =====
-- The interface to `tokio::fs::File`, for files on a disk that does not fail.
use rust_croc.Common.{
  ℕ, ◌+◌, ◌-◌, ◌≤◌, ◌<◌, ◌≡◌, ◌++◌, length, take, drop, replicate, Bytes, io, ok, err, Act,
}

-- The bytes of a file, and where the next read or write begins.
pub record File : Type 0 where
  pub contents : Bytes
  pub position : ℕ

-- The bytes of a file after a write over a part of it.
abbrev pub splice : ℕ → Bytes → Bytes → Bytes
splice offset bs f = take offset f ++ (bs ++ drop (offset + length bs) f)

pub record FileOps : Type 0 where
  pub seek : ℕ → Act File (Unit {0})
  pub read_exact : ℕ → Act File Bytes
  pub write_all : Bytes → Act File (Unit {0})
  pub set_len : ℕ → Act File (Unit {0})
  -- `seek(SeekFrom::Start(n))`, also beyond the end.
  pub seek_lem : (n : ℕ) (f : File) → seek n f ≡ (ok tt, record f { position = n })
  -- Exactly n bytes from the position on, or `UnexpectedEof`.
  pub read_exact_full :
      (n : ℕ) (f : File)
      → f.position + n ≤ length f.contents
      → read_exact n f
        ≡ (ok (take n (drop f.position f.contents)), record f { position = f.position + n })
  pub read_exact_eof :
      (n : ℕ) (f : File) → length f.contents < f.position + n → (read_exact n f).0 ≡ err io
  -- A write within the file.
  pub write_all_lem :
      (bs : Bytes) (f : File)
      → f.position + length bs ≤ length f.contents
      → write_all bs f ≡ (
        ok tt,
        record { contents = splice f.position bs f.contents; position = f.position + length bs },
      )
  -- Cuts the file, or fills it up with zeros. Which lengths a disk takes is in `Session.Files.Disk`.
  pub set_len_lem :
      (n : ℕ) (f : File)
      → set_len n f
        ≡ (ok tt, record f { contents = take n f.contents ++ replicate (n - length f.contents) 0 })
