-- ===== src/Tests/Transfer.antt =====
-- A small file, sent and received.
use mathlib.Core.List.{Perm}
use rust_croc.Common.{
  ℕ, ◌+◌, ◌-◌, ◌≤◌, ◌<◌, ◌≡◌, refl, List, [], ◌∷◌, ◌++◌, map, length, take, drop, replicate, Bytes,
  ok, err, io, codes, arith, Act, leb, if◌then◌else◌, All, ◌^◌, true,
}
use rust_croc.Wire.RoundTrip.{framed}
use rust_croc.Files.{File, FileOps, splice}
use rust_croc.Fs.{FileChunkInfo, Sending, fs_reader_task, fs_writer_task}
use rust_croc.Transfer.{tcp_buffer_size, send_file_chunks, div_ceil, receive_chunks, created}
use rust_croc.Transfer.AnyOrder.{transfer_any_order}
use rust_croc.Tests.Net.{net, empty_channel, socket_with}
use rust_croc.Tests.Crypto.{prim, session, nonce}
use rust_croc.Wire.{Link, writer_task, reader_task}
use rust_croc.Transfer.OverWire.{file_over_wire}
use rust_croc.Transfer.Ping.{ping_displaces_chunk}
use rust_croc.Transfer.Loop.{receive_loop, receive_loop_lem}

abbrev read_exact : ℕ → Act File Bytes
read_exact n f =
    if leb (f.position + n) (length f.contents)
    then (ok (take n (drop f.position f.contents)), record f { position = f.position + n })
    else (err io, f)

pub read_exact_full :
    (n : ℕ) (f : File)
    → f.position + n ≤ length f.contents
    → read_exact n f
      ≡ (ok (take n (drop f.position f.contents)), record f { position = f.position + n })
read_exact_full n f h = ground arith

pub read_exact_eof :
    (n : ℕ) (f : File) → length f.contents < f.position + n → (read_exact n f).0 ≡ err io
read_exact_eof n f h = ground arith

abbrev pub files : FileOps
files = record {
  seek = λ n f. (ok tt, record f { position = n });
  read_exact = read_exact;
  write_all = λ bs f. (
    ok tt,
    record { contents = splice f.position bs f.contents; position = f.position + length bs },
  );
  set_len = λ n f.
      (ok tt, record f { contents = take n f.contents ++ replicate (n - length f.contents) 0 });
  seek_lem = λ n f. refl;
  read_exact_full = read_exact_full;
  read_exact_eof = read_exact_eof;
  write_all_lem = λ bs f h. refl;
  set_len_lem = λ n f. refl;
}

three_chunks : map (λ i. i.chunk_size) (send_file_chunks 131073) ≡ 65536 ∷ 65536 ∷ 1 ∷ []
unfolding send_file_chunks
three_chunks = refl

ceil_tests : (div_ceil 131072 65536 ≡ 2) × (div_ceil 131073 65536 ≡ 3) × (div_ceil 0 65536 ≡ 0)
unfolding div_ceil
ceil_tests = (refl, refl, refl)

abbrev source : Sending
source = record {
  file = record { contents = codes "hello"; position = 0 };
  channel = empty_channel;
}

abbrev jobs : List (FileChunkInfo × Bytes)
jobs = (record { chunk_size = 5; chunk_offset = 0 }, nonce) ∷ []

transfer_any_order_example :
    (cs : List Bytes) × (t : Sending) × (fs_reader_task net prim files session jobs source
      ≡ (ok tt, t))
    × (t.channel.queue ≡ map framed cs)
    × (length cs ≡ div_ceil 5 tcp_buffer_size)
    × All (λ c. length c < 2 ^ 32) cs
    × ((arrived more : List Bytes)
        → Perm arrived cs
        → let (g, left) =
            receive_chunks net prim files session
              (div_ceil 5 tcp_buffer_size)
              (arrived ++ more)
              (created files 5) in
          (g.contents ≡ codes "hello") × (left ≡ more))
unfolding send_file_chunks
transfer_any_order_example =
    transfer_any_order net prim files session session refl jobs source (omega arith) refl
      (omega arith) (omega arith) refl

abbrev listening : Link
listening = record { socket = socket_with []; channel = empty_channel }

file_over_wire_example :
    (cs : List Bytes) × (t : Sending) × (fs_reader_task net prim files session jobs source
      ≡ (ok tt, t))
    × (t.channel.queue ≡ map framed cs)
    × ((queued : List Bytes)
        → Perm queued cs
        → let (_, sent) = writer_task net (map framed queued) (socket_with []) in
          let (ended, got) =
            reader_task net 2
              (record listening { socket = record listening.socket { incoming = sent.sent } }) in
          let (file, left) =
            receive_chunks net prim files session 1 got.channel.queue (created files 5) in
          (ended ≡ true) × (file.contents ≡ codes "hello") × (left ≡ []))
unfolding send_file_chunks div_ceil
file_over_wire_example =
    file_over_wire net prim files session session refl jobs source (socket_with []) listening
      (omega arith) refl (omega arith) (omega arith) refl refl refl refl refl

-- The only chunk of a file comes behind a ping, and the file stays as it was created.
ping_displaces_chunk_example :
    receive_chunks net prim files session 1 ((1 ∷ []) ∷ codes "the chunk" ∷ []) (created files 2)
    ≡ (created files 2, codes "the chunk" ∷ [])
unfolding created fs_writer_task
ping_displaces_chunk_example =
    ping_displaces_chunk net prim files session [] (codes "the chunk") (created files 2)

-- The second of two chunks, behind which the loop leaves what comes.
receive_loop_lem_example :
    let (g, left) =
      receive_chunks net prim files session 1
        (codes "a chunk" ∷ codes "more" ∷ [])
        (created files 2) in
    receive_loop net prim files session 2 3 1
      (record { queue = codes "a chunk" ∷ codes "more" ∷ []; receiving = true })
      (created files 2)
    ≡ (g, record { queue = left; receiving = true })
receive_loop_lem_example =
    receive_loop_lem net prim files session 2 3 1
      (record { queue = codes "a chunk" ∷ codes "more" ∷ []; receiving = true }) (created files 2)
      (omega arith) (omega arith)
