-- ===== src/Fs/Reader.antt =====
-- `fs_reader_task` sends every chunk that it is asked for.
use mathlib.Core.List.{Mem, mem-cons, mem-cons_self, mem-cons_of_mem, not-mem-nil}
use mathlib.Core.Logic.Or
use mathlib.Core.Logic.{∥∥₁_map}
use rust_croc.Common.{
  suc, ◌+◌, ◌^◌, ◌≤◌, ◌<◌, ◌≡◌, refl, sym, ap, ◌∙◌, true, List, [], ◌∷◌, ◌++◌, append-nil,
  append_assoc, map, All, length, Bytes, ok, arith,
}
use rust_croc.Net.{Net, Channel}
use rust_croc.Wire.{write_channel}
use rust_croc.Wire.RoundTrip.{framed, frame_lem}
use rust_croc.Wire.Tasks.{Fits}
use rust_croc.Crypto.{Primitives}
use rust_croc.Crypto.Laws.{decrypt-encrypt}
use rust_croc.Enc.{EncryptedSession}
use rust_croc.Enc
use rust_croc.Files.{File, FileOps}
use rust_croc.Fs.{FileChunkInfo, Sending, fs_reader_task}
use rust_croc.Fs.Chunk.{plain_chunk, Inside, length-plain_chunk, read_chunk_lem}
use rust_croc.Fs.AnyOrder.{Carries, AllGenuine}

module _ (net : Net) (prim : Primitives) (fs : FileOps) where
  -- A chunk that can be sent: inside the file, with a nonce of the right length, and short enough
  -- for the cipher and the frame.
  pub record Sendable (f : Bytes) (job : FileChunkInfo × Bytes) : Type 0 where
    pub inside : Inside f job.0
    pub nonce : length job.1 ≡ 12
    pub takes : 8 + job.0.chunk_size ≤ prim.limit
    pub fits : job.0.chunk_size + 36 < 2 ^ 32

  write_channel_lem :
      (m : Bytes) (c : Channel)
      → length m < 2 ^ 32
      → c.receiving ≡ true
      → write_channel net m c ≡ (ok tt, record c { queue = c.queue ++ (framed m ∷ []) })
  unfolding write_channel
  write_channel_lem m c h r = rw (frame_lem net m h) (net.send_lem (framed m) c r)

  module _ (e d : EncryptedSession net prim) (same : d.encryptor.cipher ≡ e.encryptor.cipher) where
    -- One message for each chunk, in order.
    abbrev pub CarriesAll : Bytes → List FileChunkInfo → List Bytes → Type 0
    CarriesAll f [] [] = Unit
    CarriesAll f [] (c ∷ cs) = ⊥
    CarriesAll f (i ∷ is) [] = ⊥
    CarriesAll f (i ∷ is) (c ∷ cs) = Carries net prim fs d f i c × CarriesAll f is cs

    sealed_chunk :
        (f : Bytes) (job : FileChunkInfo × Bytes) (ch : Channel)
        → Sendable f job
        → ch.receiving ≡ true
        → (c : Bytes) × (Enc.write net prim (write_channel net) e job.1 (plain_chunk f job.0) ch
            ≡ (ok tt, record ch { queue = ch.queue ++ (framed c ∷ []) }))
          × Carries net prim fs d f job.0 c
          × (length c < 2 ^ 32)
    unfolding Enc.write
    sealed_chunk f (info, nonce) ch h r =
        let size = length-plain_chunk f info h.inside in
        let (c, encrypted, long, opened) =
          decrypt-encrypt prim e.encryptor d.encryptor nonce (plain_chunk f info) same h.nonce
            (omega (arith, h.takes)) in
        let fits : length c < 2 ^ 32 = omega (arith, h.fits) in
        (
          c,
          rw encrypted (write_channel_lem c ch fits r),
          record { inside = h.inside; opened = opened },
          fits,
        )

    -- The task sends one frame for each chunk, in which the peer finds the chunk, and ends.
    pub fs_reader_task_sends :
        (jobs : List (FileChunkInfo × Bytes)) (s : Sending)
        → All (Sendable s.file.contents) jobs
        → s.channel.receiving ≡ true
        → (cs : List Bytes) × (t : Sending) × (fs_reader_task net prim fs e jobs s ≡ (ok tt, t))
          × (t.channel.queue ≡ s.channel.queue ++ map framed cs)
          × CarriesAll s.file.contents (map (λ j. j.0) jobs) cs
          × Fits cs
    unfolding fs_reader_task
    fs_reader_task_sends [] s h r = ([], s, refl, sym (append-nil _), tt, tt)
    fs_reader_task_sends ((info, nonce) ∷ jobs) s (first, h) r =
        let opened : File = record s.file { position = info.chunk_offset + info.chunk_size } in
        let (c, sealed, carries, fits) =
          sealed_chunk s.file.contents (info, nonce) s.channel first r in
        let (cs, t, ran, queued, carry, fit) =
          fs_reader_task_sends jobs
            (record {
              file = opened;
              channel = record s.channel { queue = s.channel.queue ++ (framed c ∷ []) };
            })
            h r in
        (
          c ∷ cs,
          t,
          rw (read_chunk_lem net prim fs info s.file first.inside, sealed) ran,
          queued ∙ append_assoc s.channel.queue (framed c ∷ []) (map framed cs),
          (carries, carry),
          (fits, fit),
        )

    -- Such messages are genuine, and every chunk is in one of them.
    pub CarriesAll-AllGenuine :
        (f : Bytes) (is : List FileChunkInfo) (cs : List Bytes)
        → CarriesAll f is cs
        → AllGenuine net prim fs d f cs
    CarriesAll-AllGenuine f is [] h c m = absurd (not-mem-nil m)
    CarriesAll-AllGenuine f [] (x ∷ cs) h c m = absurd h
    CarriesAll-AllGenuine f (i ∷ is) (x ∷ cs) (first, h) c m =
        Or.elim squash₁ (mem-cons.0 m) (λ e. rw e (∣ (i, first) ∣₁))
          (CarriesAll-AllGenuine f is cs h c)

    pub CarriesAll-mem :
        (f : Bytes) (is : List FileChunkInfo) (cs : List Bytes) (info : FileChunkInfo)
        → CarriesAll f is cs
        → Mem info is
        → ∥ ((c : Bytes) × Mem c cs × Carries net prim fs d f info c) ∥₁
    CarriesAll-mem f [] cs info h m = absurd (not-mem-nil m)
    CarriesAll-mem f (i ∷ is) [] info h m = absurd h
    CarriesAll-mem f (i ∷ is) (x ∷ cs) info (first, h) m =
        Or.elim squash₁ (mem-cons.0 m) (λ e. ∣ (x, mem-cons_self, rw e first) ∣₁)
          (λ n. ∥∥₁_map (CarriesAll-mem f is cs info h n) λ (c, k, q). (c, mem-cons_of_mem x k, q))

    pub length-CarriesAll :
        (f : Bytes) (is : List FileChunkInfo) (cs : List Bytes)
        → CarriesAll f is cs
        → length cs ≡ length is
    length-CarriesAll f [] [] h = refl
    length-CarriesAll f [] (c ∷ cs) h = absurd h
    length-CarriesAll f (i ∷ is) [] h = absurd h
    length-CarriesAll f (i ∷ is) (c ∷ cs) h = ap suc (length-CarriesAll f is cs h.1)
