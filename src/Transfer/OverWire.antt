-- ===== src/Transfer/OverWire.antt =====
-- A file that is sent over a connection: the tasks for files, those of the connection, and the
-- receiving loop.
use mathlib.Core.List.{Mem, Perm, mem-cons, mem-cons_self, mem-cons_of_mem, not-mem-nil}
use mathlib.Core.List.Perm
use mathlib.Core.Logic.Or
use native.Mathlib.Bridge.{le_prop}
use rust_croc.Common.{
  suc, ◌+◌, ◌^◌, ◌≤◌, ◌<◌, ◌≡◌, ap, ◌∙◌, true, List, [], ◌∷◌, ◌++◌, append-nil, map, All, length,
  perm-length, Bytes, ok,
}
use rust_croc.Net.{Net, Socket}
use rust_croc.Wire.{Link, writer_task, reader_task}
use rust_croc.Wire.RoundTrip.{framed}
use rust_croc.Wire.Tasks.{Fits}
use rust_croc.Wire.EndToEnd.{frames_to_channel}
use rust_croc.Crypto.{Primitives}
use rust_croc.Enc.{EncryptedSession}
use rust_croc.Files.{FileOps}
use rust_croc.Fs.{FileChunkInfo, Sending, fs_reader_task}
use rust_croc.Transfer.{tcp_buffer_size, send_file_chunks, div_ceil, receive_chunks, created}
use rust_croc.Transfer.AnyOrder.{transfer_any_order}

Fits-mem : (cs : List Bytes) (c : Bytes) → Fits cs → Mem c cs → length c < 2 ^ 32
Fits-mem [] c h m = absurd (not-mem-nil m)
Fits-mem (x ∷ cs) c (first, h) m =
    Or.elim le_prop (mem-cons.0 m) (λ e. rw e first) (Fits-mem cs c h)

mem-Fits : (cs : List Bytes) → ((c : Bytes) → Mem c cs → length c < 2 ^ 32) → Fits cs
mem-Fits [] h = tt
mem-Fits (x ∷ cs) h = (h x mem-cons_self, mem-Fits cs (λ c m. h c (mem-cons_of_mem x m)))

-- In another order, they still fit.
pub perm-Fits : (xs ys : List Bytes) → Perm xs ys → Fits ys → Fits xs
perm-Fits xs ys p h = mem-Fits xs (λ c m. Fits-mem ys c h ((Perm.mem_iff p).0 m))

module _ (net : Net) (prim : Primitives) (fs : FileOps) (e d : EncryptedSession net prim)
    (same : d.encryptor.cipher ≡ e.encryptor.cipher) where
  -- For a file shorter than 2^64 bytes, jobs that are the chunks which send_file asks for, each
  -- with a nonce of twelve bytes, a cipher that takes a whole buffer and its offset, open channels,
  -- that of the peer empty, a socket that takes bytes and has sent none, and two sessions with the
  -- same key: fs_reader_task succeeds and queues the frames of messages such that, in whatever
  -- order they are queued, once the writing task has put the queue on the socket, the peer's
  -- reading task, for one round more than there are chunks, reads it to the end of the connection
  -- and ends, and the receiving loop over its channel turns the newly created file of that size
  -- into the file that was sent, and leaves nothing.
  pub file_over_wire :
      (jobs : List (FileChunkInfo × Bytes)) (s : Sending) (mine : Socket) (peer : Link)
      → length s.file.contents < 2 ^ 64
      → map (λ j. j.0) jobs ≡ send_file_chunks (length s.file.contents)
      → All (λ j. length j.1 ≡ 12) jobs
      → 8 + tcp_buffer_size ≤ prim.limit
      → s.channel.receiving ≡ true
      → mine.writable ≡ true
      → mine.sent ≡ []
      → peer.channel.receiving ≡ true
      → peer.channel.queue ≡ []
      → let size = length s.file.contents in
        let total = div_ceil size tcp_buffer_size in
        (cs : List Bytes) × (t : Sending) × (fs_reader_task net prim fs e jobs s ≡ (ok tt, t))
        × (t.channel.queue ≡ s.channel.queue ++ map framed cs)
        × ((queued : List Bytes)
            → Perm queued cs
            → let (_, sent) = writer_task net (map framed queued) mine in
              let (ended, got) =
                reader_task net
                  (suc total)
                  (record peer { socket = record peer.socket { incoming = sent.sent } }) in
              let (file, left) =
                receive_chunks net prim fs d total got.channel.queue (created fs size) in
              (ended ≡ true) × (file.contents ≡ s.file.contents) × (left ≡ []))
  file_over_wire jobs s mine peer small asked nonces room r w fresh open_ empty =
      let (cs, t, ran, queue, count, fits, arrives) =
        transfer_any_order net prim fs e d same jobs s small asked nonces room r in
      (
        cs,
        t,
        ran,
        queue,
        λ queued p.
            let count' = perm-length queued cs p ∙ count in
            let (ended, got) =
              rw count' at (
                frames_to_channel net queued mine peer (perm-Fits queued cs p fits) w fresh
                  open_) in
            let queue' = got ∙ ap (λ q. q ++ queued) empty in
            let (whole, left) = rw (append-nil queued) at (arrives queued [] p) in
            (ended, rw queue' whole, rw queue' left),
      )
