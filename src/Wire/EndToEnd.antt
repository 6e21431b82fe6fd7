-- ===== src/Wire/EndToEnd.antt =====
-- From one process's channel, over a socket, into the other's: `OwnedSender::write`, the writing
-- task, the reading task.
use rust_croc.Common.{
  suc, ◌≡◌, refl, ap, ◌∙◌, true, List, [], ◌∷◌, ◌++◌, append_assoc, append-nil, map, length, Bytes,
  ok, err, io, Act, ◌>>◌, return, after-err, arith,
}
use rust_croc.Net.{Net, Socket, Channel}
use rust_croc.Wire.{Link, read, write_channel, writer_task, reader_task}
use rust_croc.Wire.RoundTrip.{framed, frame_lem}
use rust_croc.Wire.Tasks.{wire, Fits, reader_task-wire}

module _ (net : Net) where
  -- One write after the other.
  unfoldable pub write_each : List Bytes → Act Channel (Unit {0})
  write_each [] = return tt
  write_each (m ∷ ms) = do write_channel net m; write_each ms

  write_each_lem :
      (ms : List Bytes) (c : Channel)
      → Fits ms
      → c.receiving ≡ true
      → write_each ms c ≡ (ok tt, record c { queue = c.queue ++ map framed ms })
  unfolding write_each write_channel
  write_each_lem [] c h r = rw append-nil
  write_each_lem (m ∷ ms) c (h, hs) r =
      let c' = record c { queue = c.queue ++ (framed m ∷ []) } in
      rw (frame_lem net m h, net.send_lem (framed m) c r)
        (write_each_lem ms c' hs r ∙ rw append_assoc)

  pub flat : List Bytes → Bytes
  flat [] = []
  flat (b ∷ bs) = b ++ flat bs

  pub flat-framed : (ms : List Bytes) → flat (map framed ms) ≡ wire ms
  unfolding flat
  flat-framed [] = refl
  flat-framed (m ∷ ms) = ap (◌++◌ (framed m)) (flat-framed ms)

  pub writer_task_lem :
      (bs : List Bytes) (s : Socket)
      → s.writable ≡ true
      → writer_task net bs s ≡ (ok tt, record s { sent = s.sent ++ flat bs })
  unfolding writer_task flat
  writer_task_lem [] s w = rw append-nil
  writer_task_lem (b ∷ bs) s w =
      rw (net.write_all_lem b s w)
        (writer_task_lem bs (record s { sent = s.sent ++ b }) w ∙ rw append_assoc)

  pub read_end : (s : Socket) → (read net (record s { incoming = [] })).0 ≡ err io
  unfolding read
  read_end s = after-err _ _ io (net.read_exact_eof 4 (record s { incoming = [] }) (omega arith))

  -- Frames that the writing task puts on a socket, and the peer's reading task takes off.
  pub frames_to_channel :
      (ms : List Bytes) (mine : Socket) (peer : Link)
      → Fits ms
      → mine.writable ≡ true
      → mine.sent ≡ []
      → peer.channel.receiving ≡ true
      → let (_, sent) = writer_task net (map framed ms) mine in
        let (ended, got) =
          reader_task net
            (suc (length ms))
            (record peer { socket = record peer.socket { incoming = sent.sent } }) in
        (ended ≡ true) × (got.channel.queue ≡ peer.channel.queue ++ ms)
  frames_to_channel ms mine peer h w e r =
      let loop =
        reader_task-wire net ms [] (suc (length ms)) peer h (omega arith) r
          (read_end peer.socket) in
      let (ended, got) = rw (append-nil (wire ms)) at loop in
      rw (writer_task_lem (map framed ms) mine w, flat-framed ms, e) (ended, ap (λ c. c.queue) got)

  -- Messages shorter than 2^32 bytes written through OwnedSender into an open channel, worked off
  -- by the writing task onto a socket that takes bytes and had sent none, and read by the peer's
  -- reading task until the connection closes, end up in the peer's open channel, whole and in
  -- order, behind what was there; and the reading task has ended.
  pub channel_to_channel :
      (ms : List Bytes) (mine : Socket) (peer : Link)
      → Fits ms
      → mine.writable ≡ true
      → mine.sent ≡ []
      → peer.channel.receiving ≡ true
      → let (_, out) = write_each ms (record { queue = []; receiving = true }) in
        let (_, sent) = writer_task net out.queue mine in
        let (ended, got) =
          reader_task net
            (suc (length ms))
            (record peer { socket = record peer.socket { incoming = sent.sent } }) in
        (ended ≡ true) × (got.channel.queue ≡ peer.channel.queue ++ ms)
  channel_to_channel ms mine peer h w e r =
      rw (write_each_lem ms (record { queue = []; receiving = true }) h refl)
        (frames_to_channel ms mine peer h w e r)
