-- ===== src/Transfer/AnyOrder.antt =====
-- A file that is sent arrives, in whatever order its chunks are sealed and written.
use mathlib.Core.List.{Mem, Perm}
use mathlib.Core.List.Perm
use mathlib.Core.Logic.{∥∥₁_map}
use rust_croc.Common.{
  ℕ, ◌+◌, ◌-◌, ◌^◌, ◌≤◌, ◌<◌, ◌≡◌, refl, sym, ◌∙◌, true, List, [], ◌∷◌, ◌++◌, map, All, length,
  length-append, length-take, length-replicate, perm-length, take, replicate, Bytes, ok, arith,
}
use rust_croc.Net.{Net}
use rust_croc.Wire.RoundTrip.{framed}
use rust_croc.Crypto.{Primitives}
use rust_croc.Enc.{EncryptedSession}
use rust_croc.Files.{File, FileOps}
use rust_croc.Fs.{FileChunkInfo, Sending, fs_reader_task, fs_writer_task}
use rust_croc.Fs.AnyOrder.{AllCovered, fs_writer_task_restores}
use rust_croc.Fs.Reader.{
  Sendable, CarriesAll, fs_reader_task_sends, CarriesAll-AllGenuine, CarriesAll-mem,
  length-CarriesAll,
}
use rust_croc.Transfer.{tcp_buffer_size, send_file_chunks, div_ceil, receive_chunks, created}
use rust_croc.Transfer.Cover.{
  IsChunk, send_file_chunks-IsChunk, send_file_chunks-covers, length-send_file_chunks,
}

module _ (net : Net) (prim : Primitives) (fs : FileOps) where
  -- The receiving loop hands on the first `total` messages, and leaves the rest.
  pub receive_chunks_lem :
      (d : EncryptedSession net prim) (cs more : List Bytes) (f : File)
      → receive_chunks net prim fs d (length cs) (cs ++ more) f
        ≡ (fs_writer_task net prim fs d cs f, more)
  unfolding receive_chunks fs_writer_task
  receive_chunks_lem d [] [] f = refl
  receive_chunks_lem d [] (m ∷ more) f = refl
  receive_chunks_lem d (c ∷ cs) more f = receive_chunks_lem d cs more _

  -- What `set_len` makes of a new file has the length asked for.
  length-created : (n : ℕ) → length (created fs n).contents ≡ n
  unfolding created
  length-created n =
      rw (fs.set_len_lem n (record { contents = []; position = 0 }), created)
        (omega (
          arith,
          length-append {A = ℕ} (take n []) (replicate (n - 0) 0),
          length-take {A = ℕ} n [],
          length-replicate {A = ℕ} (n - 0) 0,
        ))

  -- Any chunk of a whole buffer can be sealed and framed.
  All-Sendable :
      (f : Bytes) (jobs : List (FileChunkInfo × Bytes))
      → 8 + tcp_buffer_size ≤ prim.limit
      → All (λ j. length j.1 ≡ 12) jobs
      → All (IsChunk f) (map (λ j. j.0) jobs)
      → All (Sendable net prim fs f) jobs
  All-Sendable f [] room nonces chunks = tt
  All-Sendable f ((info, nonce) ∷ jobs) room (n, nonces) (c, chunks) = (
    record {
      inside = c.inside;
      nonce = n;
      takes = omega (arith, c.short);
      fits = omega (arith, c.short);
    },
    All-Sendable f jobs room nonces chunks,
  )

  module _ (e d : EncryptedSession net prim) (same : d.encryptor.cipher ≡ e.encryptor.cipher) where
    -- Sealed chunks of the whole file, in any order.
    shuffled-AllCovered :
        (f : Bytes) (cs arrived : List Bytes)
        → CarriesAll net prim fs e d same f (send_file_chunks (length f)) cs
        → Perm arrived cs
        → AllCovered net prim fs d f arrived
    shuffled-AllCovered f cs arrived carry p i h =
        let (info, m, new) = send_file_chunks-covers (length f) i h in
        ∥∥₁_map (CarriesAll-mem net prim fs e d same f _ cs info carry m)
          λ (c, k, q). (c, info, (Perm.mem_iff p).1 k, q, new)

    -- For a file shorter than 2^64 bytes, jobs that are the chunks which send_file asks for, each
    -- with a nonce of twelve bytes, a cipher that takes a whole buffer and its offset, an open
    -- channel and two sessions with the same key: fs_reader_task succeeds, queues the frames of
    -- exactly div_ceil(size, TCP_BUFFER_SIZE) messages, each of which fits a frame, and for every
    -- order in which those messages arrive and whatever comes behind them, the receiving loop turns
    -- the newly created file of that size into the file that was sent and leaves what came behind
    -- in the channel.
    pub transfer_any_order :
        (jobs : List (FileChunkInfo × Bytes)) (s : Sending)
        → length s.file.contents < 2 ^ 64
        → map (λ j. j.0) jobs ≡ send_file_chunks (length s.file.contents)
        → All (λ j. length j.1 ≡ 12) jobs
        → 8 + tcp_buffer_size ≤ prim.limit
        → s.channel.receiving ≡ true
        → let size = length s.file.contents in
          (cs : List Bytes) × (t : Sending) × (fs_reader_task net prim fs e jobs s ≡ (ok tt, t))
          × (t.channel.queue ≡ s.channel.queue ++ map framed cs)
          × (length cs ≡ div_ceil size tcp_buffer_size)
          × All (λ c. length c < 2 ^ 32) cs
          × ((arrived more : List Bytes)
              → Perm arrived cs
              → let (g, left) =
                  receive_chunks net prim fs d
                    (div_ceil size tcp_buffer_size)
                    (arrived ++ more)
                    (created fs size) in
                (g.contents ≡ s.file.contents) × (left ≡ more))
    transfer_any_order jobs s small asked nonces room r =
        let f = s.file.contents in
        let chunks = send_file_chunks-IsChunk f small in
        let sendable = All-Sendable f jobs room nonces (rw asked chunks) in
        let (cs, t, ran, queued, carry', fits) =
          fs_reader_task_sends net prim fs e d same jobs s sendable r in
        let carry = rw asked at carry' in
        let count : length cs ≡ div_ceil (length f) tcp_buffer_size =
          length-CarriesAll net prim fs e d same f _ cs carry
          ∙ length-send_file_chunks (length f) in
        (
          cs,
          t,
          ran,
          queued,
          count,
          fits,
          λ arrived more p.
              let genuine = λ (c : Bytes) (m : Mem c arrived).
                CarriesAll-AllGenuine net prim fs e d same f _ cs carry c ((Perm.mem_iff p).0 m) in
              let covered = shuffled-AllCovered f cs arrived carry p in
              let looped = receive_chunks_lem d arrived more (created fs (length f)) in
              rw (sym count ∙ sym (perm-length arrived cs p), looped)
                (
                  fs_writer_task_restores net prim fs d f arrived (created fs (length f)) genuine
                      covered (length-created (length f)),
                  refl,
                ),
        )
