-- ===== src/Fs/AnyOrder.antt =====
-- `fs_writer_task` restores a file from its chunks, in whatever order they come.
use mathlib.Core.List.{Mem, mem-cons, mem-cons_self, mem-cons_of_mem, not-mem-nil}
use mathlib.Core.Logic.Or
use mathlib.Core.Logic.{∥∥₁_elim}
use rust_croc.Common.{
  ℕ, ◌<◌, ◌≡◌, refl, ◌∙◌, true, Bool, List, [], ◌∷◌, length, get_elem?, Bytes, ok, arith,
  if◌then◌else◌, Bool-cases, inl, inr,
}
use rust_croc.Net.{Net}
use rust_croc.Crypto.{Primitives}
use rust_croc.Crypto
use rust_croc.Enc.{EncryptedSession}
use rust_croc.Files.{File, FileOps, splice}
use rust_croc.Fs.{FileChunkInfo, write_chunk, fs_writer_task}
use rust_croc.Fs.Splice.{
  part, within, length-part, length-splice, get_elem?-splice-part, eq_of_get_elem?,
}
use rust_croc.Fs.Chunk.{plain_chunk, Inside, write_data_lem}

-- The places that a chunk covers.
abbrev pub covers : FileChunkInfo → ℕ → Bool
covers info i = within info.chunk_offset info.chunk_size i

module _ (net : Net) (prim : Primitives) (fs : FileOps) (d : EncryptedSession net prim)
    (f : Bytes) where
  -- A message that decrypts to this chunk of the file.
  pub record Carries (info : FileChunkInfo) (c : Bytes) : Type 0 where
    pub inside : Inside f info
    pub opened : Crypto.decrypt prim d.encryptor c ≡ ok (plain_chunk f info)

  abbrev pub IsGenuine : Bytes → Type 0
  IsGenuine c = ∥ ((info : FileChunkInfo) × Carries info c) ∥₁

  -- The file being written agrees with the original at a place.
  abbrev pub Agrees : File → ℕ → Type 0
  Agrees g i = get_elem? g.contents i ≡ get_elem? f i

  Agrees-prop : (g : File) (i : ℕ) → IsProp (Agrees g i)
  Agrees-prop g i = hlevel

  write_chunk_lem :
      {info : FileChunkInfo} {c : Bytes} (g : File)
      → Carries info c
      → length g.contents ≡ length f
      → (write_chunk net prim fs d c g).1.contents
        ≡ splice info.chunk_offset (part info.chunk_offset info.chunk_size f) g.contents
  unfolding write_chunk
  write_chunk_lem {info} g h e =
      rw (h.opened, write_chunk) (write_data_lem net prim fs info f g h.inside e)

  chunk_places :
      {info : FileChunkInfo} {c : Bytes} (g : File) (i : ℕ)
      → Carries info c
      → length g.contents ≡ length f
      → get_elem? (write_chunk net prim fs d c g).1.contents i
        ≡ (if covers info i then get_elem? f i else get_elem? g.contents i)
  chunk_places {info} g i h e =
      rw (write_chunk_lem g h e)
        (get_elem?-splice-part info.chunk_offset info.chunk_size f g.contents i h.inside.ends e)

  chunk_size :
      {c : Bytes} (g : File)
      → IsGenuine c
      → length g.contents ≡ length f
      → length (write_chunk net prim fs d c g).1.contents ≡ length f
  chunk_size g t e = ∥∥₁_elim t (hlevel) λ (info, h).
      let size = length-part info.chunk_offset info.chunk_size f h.inside.ends in
      let ends = h.inside.ends in
      rw (write_chunk_lem g h e)
        (length-splice info.chunk_offset _ g.contents (omega (arith, size)) ∙ e)

  chunk_keeps :
      {c : Bytes} (g : File) (i : ℕ)
      → IsGenuine c
      → length g.contents ≡ length f
      → Agrees g i
      → Agrees (write_chunk net prim fs d c g).1 i
  chunk_keeps {c} g i t e a =
      ∥∥₁_elim t (Agrees-prop (write_chunk net prim fs d c g).1 i) λ (info, h).
        elim (Bool-cases (covers info i)) [
          | inl new ↦ chunk_places g i h e ∙ rw new refl
          | inr old ↦ chunk_places g i h e ∙ rw old a
        ]

  chunk_reaches :
      {info : FileChunkInfo} {c : Bytes} (g : File) (i : ℕ)
      → Carries info c
      → length g.contents ≡ length f
      → covers info i ≡ true
      → Agrees (write_chunk net prim fs d c g).1 i
  chunk_reaches g i h e new = chunk_places g i h e ∙ rw new refl

  -- Every message of a list is genuine.
  abbrev pub AllGenuine : List Bytes → Type 0
  AllGenuine cs = (c : Bytes) → Mem c cs → IsGenuine c

  length-fs_writer_task :
      (cs : List Bytes) (g : File)
      → AllGenuine cs
      → length g.contents ≡ length f
      → length (fs_writer_task net prim fs d cs g).contents ≡ length f
  unfolding fs_writer_task
  length-fs_writer_task [] g all e = e
  length-fs_writer_task (c ∷ cs) g all e =
      length-fs_writer_task cs (write_chunk net prim fs d c g).1
        (λ x m. all x (mem-cons_of_mem c m)) (chunk_size g (all c mem-cons_self) e)

  task_keeps :
      (cs : List Bytes) (g : File) (i : ℕ)
      → AllGenuine cs
      → length g.contents ≡ length f
      → Agrees g i
      → Agrees (fs_writer_task net prim fs d cs g) i
  unfolding fs_writer_task
  task_keeps [] g i all e a = a
  task_keeps (c ∷ cs) g i all e a =
      task_keeps cs (write_chunk net prim fs d c g).1 i (λ x m. all x (mem-cons_of_mem c m))
        (chunk_size g (all c mem-cons_self) e) (chunk_keeps g i (all c mem-cons_self) e a)

  task_reaches :
      (cs : List Bytes) {info : FileChunkInfo} {c : Bytes} (g : File) (i : ℕ)
      → AllGenuine cs
      → length g.contents ≡ length f
      → Mem c cs
      → Carries info c
      → covers info i ≡ true
      → Agrees (fs_writer_task net prim fs d cs g) i
  unfolding fs_writer_task
  task_reaches [] g i all e m h new = absurd (not-mem-nil m)
  task_reaches (x ∷ cs) g i all e m h new =
      let later = λ (y : Bytes) (n : Mem y cs). all y (mem-cons_of_mem x n) in
      let size = chunk_size g (all x mem-cons_self) e in
      Or.elim (Agrees-prop (fs_writer_task net prim fs d (x ∷ cs) g) i) (mem-cons.0 m)
        (λ same.
          task_keeps cs (write_chunk net prim fs d x g).1 i later size
            (chunk_reaches g i (rw same at h) e new))
        (λ n. task_reaches cs (write_chunk net prim fs d x g).1 i later size n h new)

  -- Every place of the file is covered by a message of the list.
  abbrev pub AllCovered : List Bytes → Type 0
  AllCovered cs =
      (i : ℕ)
      → i < length f
      → ∥ (
          (c : Bytes) × (info : FileChunkInfo) × Mem c cs
          × Carries info c
          × (covers info i ≡ true)) ∥₁

  -- If every message carries a chunk of the file, and the chunks cover it, then the file that is
  -- written is the file, whatever the order and however often a chunk comes.
  pub fs_writer_task_restores :
      (cs : List Bytes) (g : File)
      → AllGenuine cs
      → AllCovered cs
      → length g.contents ≡ length f
      → (fs_writer_task net prim fs d cs g).contents ≡ f
  fs_writer_task_restores cs g all covered e =
      eq_of_get_elem? (fs_writer_task net prim fs d cs g).contents f
        (length-fs_writer_task cs g all e)
        λ i h.
          ∥∥₁_elim (covered i h) (Agrees-prop (fs_writer_task net prim fs d cs g) i)
            λ (c, info, m, carries, new). task_reaches cs g i all e m carries new
