-- ===== src/Session/Delivery.antt =====
-- What comes in for a file on the connection for data, and what the receiver makes of it.
use mathlib.Core.List.{Perm}
use mathlib.Core.List.Perm
use rust_croc.Common.{
  ◌^◌, ◌+◌, ◌<◌, ◌≤◌, ◌≡◌, refl, ap, sym, ◌∙◌, true, List, [], ◌∷◌, ◌++◌, map, All, drop,
  drop-append, length, Bytes,
}
use rust_croc.Std.LeBytes.{to_le_bytes, length-to_le_bytes}
use rust_croc.Net.{Net}
use rust_croc.Wire.RoundTrip.{framed}
use rust_croc.Crypto.{Primitives}
use rust_croc.Enc.{EncryptedSession}
use rust_croc.Files.{File, FileOps}
use rust_croc.Fs.{FileChunkInfo, fs_reader_task}
use rust_croc.Transfer.{tcp_buffer_size, send_file_chunks, div_ceil, receive_chunks, created}
use rust_croc.Transfer.AnyOrder.{transfer_any_order}
use rust_croc.Transfer.OverWire.{perm-Fits}
use rust_croc.Wire.Tasks.{Fits}

-- A frame has its message in it.
drop-framed : (m : Bytes) → drop 8 (framed m) ≡ m
drop-framed m = drop-append 4 (to_le_bytes 4 (length m)) m (sym (length-to_le_bytes 4 (length m)))

frames_apart : (ms ns : List Bytes) → map framed ms ≡ map framed ns → ms ≡ ns
frames_apart ms ns h = sym (back ms) ∙ ap (map (drop 8)) h ∙ back ns
  where
    back : (ms : List Bytes) → map (drop 8) (map framed ms) ≡ ms
    back [] = refl
    back (m ∷ ms) = rw (drop-framed m, back ms) refl

module _ (net : Net) (prim : Primitives) (fs : FileOps) where
  -- The messages that fs_reader_task queues for the chunks of a file, in some order.
  pub record Delivers (e : EncryptedSession net prim) (f : File) (arrived : List Bytes)
      : Type 0 where
    pub jobs : List (FileChunkInfo × Bytes)
    pub asked : map (λ j. j.0) jobs ≡ send_file_chunks (length f.contents)
    pub nonces : All (λ j. length j.1 ≡ 12) jobs
    pub messages : List Bytes
    pub queued :
        (fs_reader_task net prim fs e jobs
          (record { file = f; channel = record { queue = []; receiving = true } })).1.channel.queue
        ≡ map framed messages
    pub order : Perm arrived messages

  -- They make the file, and what comes behind them is left.
  pub delivered_lem :
      (e : EncryptedSession net prim) (f : File) (arrived more : List Bytes)
      → length f.contents < 2 ^ 64
      → 8 + tcp_buffer_size ≤ prim.limit
      → Delivers e f arrived
      → (g : File) × (receive_chunks net prim fs e
            (div_ceil (length f.contents) tcp_buffer_size)
            (arrived ++ more)
            (created fs (length f.contents))
          ≡ (g, more))
        × (g.contents ≡ f.contents)
  delivered_lem e f arrived more small room h =
      let (cs, t, ran, queued, count, _, arrives) =
        transfer_any_order net prim fs e e refl h.jobs
          (record { file = f; channel = record { queue = []; receiving = true } }) small h.asked
          h.nonces room refl in
      let same : h.messages ≡ cs =
        frames_apart h.messages cs (sym h.queued ∙ ap (λ r. r.1.channel.queue) ran ∙ queued) in
      let (right, left) = arrives arrived more (rw same at h.order) in
      let made =
        receive_chunks net prim fs e (div_ceil (length f.contents) tcp_buffer_size)
          (arrived ++ more) (created fs (length f.contents)) in
      (made.0, ap (λ l. (made.0, l)) left, right)

  -- What it queues for the chunks comes in so, in order.
  pub Delivers-jobs :
      (e : EncryptedSession net prim) (f : File) (jobs : List (FileChunkInfo × Bytes))
      → length f.contents < 2 ^ 64
      → 8 + tcp_buffer_size ≤ prim.limit
      → map (λ j. j.0) jobs ≡ send_file_chunks (length f.contents)
      → All (λ j. length j.1 ≡ 12) jobs
      → (cs : List Bytes) × Delivers e f cs
  Delivers-jobs e f jobs small room asked nonces =
      let (cs, t, ran, queued, _, _, _) =
        transfer_any_order net prim fs e e refl jobs
          (record { file = f; channel = record { queue = []; receiving = true } }) small asked
          nonces room refl in
      (
        cs,
        record {
          jobs = jobs;
          asked = asked;
          nonces = nonces;
          messages = cs;
          queued = ap (λ r. r.1.channel.queue) ran ∙ queued;
          order = Perm.refl cs;
        },
      )

  -- They fit a frame each.
  pub Delivers-Fits :
      (e : EncryptedSession net prim) (f : File) (arrived : List Bytes)
      → length f.contents < 2 ^ 64
      → 8 + tcp_buffer_size ≤ prim.limit
      → Delivers e f arrived
      → Fits arrived
  Delivers-Fits e f arrived small room h =
      let (cs, t, ran, queued, _, fits, _) =
        transfer_any_order net prim fs e e refl h.jobs
          (record { file = f; channel = record { queue = []; receiving = true } }) small h.asked
          h.nonces room refl in
      let same : h.messages ≡ cs =
        frames_apart h.messages cs (sym h.queued ∙ ap (λ r. r.1.channel.queue) ran ∙ queued) in
      perm-Fits arrived cs (rw same at h.order) fits
