-- ===== src/Tests/Wire.antt =====
-- Framing at concrete messages.
use rust_croc.Common.{
  ◌≡◌, refl, true, List, [], ◌∷◌, ◌++◌, Bytes, IsBytes, ok, err, io, bad_magic, codes, arith, beq,
}
use rust_croc.Std.LeBytes.{to_le_bytes, from_le_bytes}
use rust_croc.Wire.{Link, frame, read, writer_task, reader_round, reader_task}
use rust_croc.Wire.RoundTrip.{framed, read-framed}
use rust_croc.Wire.Sound.{read-eq-ok}
use rust_croc.Wire.Tasks.{wire, reader_task-wire, reader_task_sound, reader_task_ends}
use rust_croc.Wire.EndToEnd.{write_each, channel_to_channel}
use rust_croc.Tests.Net.{net, socket_with, empty_channel}

frame_hi : frame net (codes "hi") ≡ ok (codes "croc" ++ (2 ∷ 0 ∷ 0 ∷ 0 ∷ codes "hi"))
unfolding frame to_le_bytes
frame_hi = refl

read_bad_magic : (read net (socket_with (codes "crocodile"))).0 ≡ err io
unfolding read from_le_bytes beq
read_bad_magic = refl

read_wrong_magic : (read net (socket_with (codes "pingpong"))).0 ≡ err (bad_magic (codes "ping"))
unfolding read beq
read_wrong_magic = refl

abbrev two : Link
two = record { socket = socket_with (wire (codes "a" ∷ codes "bc" ∷ [])); channel = empty_channel }

two_delivered : (reader_task net 9 two).1.channel.queue ≡ codes "a" ∷ codes "bc" ∷ []
unfolding reader_task reader_round read to_le_bytes from_le_bytes beq
two_delivered = refl

abbrev peer : Link
peer = record { socket = socket_with []; channel = empty_channel }

read-framed_example :
    read net (socket_with (framed (codes "hi") ++ codes "x"))
    ≡ (ok (codes "hi"), socket_with (codes "x"))
read-framed_example = read-framed net (codes "hi") (codes "x") (socket_with []) (omega arith)

abbrev hi_frame : Bytes
hi_frame = codes "croc" ++ (2 ∷ 0 ∷ 0 ∷ 0 ∷ codes "hi")

read-eq-ok_example : IsBytes (codes "!")
unfolding read from_le_bytes beq
read-eq-ok_example =
    (read-eq-ok net (socket_with (hi_frame ++ codes "!")) {msg = codes "hi"}
      {t = socket_with (codes "!")} (omega arith) refl).4

reader_task_sound_example :
    let l' = (reader_task net 5 two).1 in
    (ms : List Bytes) × (rest : Bytes) × (l'.channel.queue ≡ ms)
    × (two.socket.incoming ≡ wire ms ++ rest)
unfolding to_le_bytes
reader_task_sound_example = reader_task_sound net 5 two (omega arith)

reader_task_ends_example : (reader_task net 20 two).0 ≡ true
unfolding to_le_bytes
reader_task_ends_example = reader_task_ends net 20 two (omega arith) (omega arith)

reader_task-wire_example :
    let r = reader_task net 3 (record {
      socket = socket_with (wire (codes "a" ∷ codes "bc" ∷ []) ++ codes "cro");
      channel = empty_channel;
    }) in
    (r.0 ≡ true) × (r.1.channel ≡ record { queue = codes "a" ∷ codes "bc" ∷ []; receiving = true })
unfolding read
reader_task-wire_example =
    reader_task-wire net (codes "a" ∷ codes "bc" ∷ []) (codes "cro") 3 peer (omega arith)
      (omega arith) refl refl

channel_to_channel_example :
    let (_, out) = write_each net (codes "a" ∷ codes "" ∷ []) empty_channel in
    let (_, sent) = writer_task net out.queue (socket_with []) in
    let (ended, got) =
      reader_task net 3 (record { socket = socket_with sent.sent; channel = empty_channel }) in
    (ended ≡ true) × (got.channel.queue ≡ codes "a" ∷ [] ∷ [])
channel_to_channel_example =
    channel_to_channel net (codes "a" ∷ codes "" ∷ []) (socket_with []) peer (omega arith) refl refl
      refl
