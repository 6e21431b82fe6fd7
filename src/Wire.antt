-- ===== src/Wire.antt =====
-- src/proto/croc_raw.rs: the framing of messages on a socket, and the two tasks of
-- `MpscCrocProto::from_stream`.
pub mod RoundTrip
pub mod Sound
pub mod Tasks
pub mod EndToEnd
use rust_croc.Common.{
  ℕ, zero, suc, ◌^◌, ◌≡◌, Bool, true, false, List, [], ◌∷◌, ◌++◌, length, Bytes, Outcome, ok, err,
  panic, Act, round, ◌>>=◌, ◌>>◌, lift, fail, return, int_conversion, bad_magic, codes, beq, ltb,
  if◌then◌else◌, channel_closed,
}
use rust_croc.Net.{Net, Socket, Channel}

-- `CROC_MAGIC`
abbrev pub croc_magic : Bytes
croc_magic = codes "croc"

-- One end of a stream and the channel that its tasks share.
pub record Link : Type 0 where
  pub socket : Socket
  pub channel : Channel

-- A call on one half of a link.
abbrev pub on_socket {ℓ} : {A : Type ℓ} → Act Socket A → Act Link A
on_socket m l = let (r, s) = m l.socket in (r, record l { socket = s })

abbrev pub on_channel {ℓ} : {A : Type ℓ} → Act Channel A → Act Link A
on_channel m l = let (r, c) = m l.channel in (r, record l { channel = c })

-- `AsyncCrocRead for OwnedReceiver`, and for `MpscCrocProto`: the oldest message, or, of a channel that
-- nothing will come into any more, an error.
unfoldable pub read_channel : Act Channel Bytes
read_channel c = elim c.queue [
  | [] ↦ (err channel_closed, c)
  | m ∷ ms ↦ (ok m, record c { queue = ms })
]

module _ (net : Net) where
  -- The buffer that each `write` builds: magic, length as a u32, message. `msg.len().try_into()?`
  -- refuses a length that a u32 cannot hold.
  unfoldable pub frame : Bytes → Outcome Bytes
  frame msg =
      if ltb (length msg) (2 ^ 32)
      then ok (croc_magic ++ (net.write_u32_le (length msg) ++ msg))
      else err int_conversion

  -- `AsyncCrocWrite for CrocProto`
  unfoldable pub write : Bytes → Act Socket (Unit {0})
  write msg = do buffer ← lift (frame msg); net.write_all buffer

  -- `AsyncCrocRead for CrocProto`
  unfoldable pub read : Act Socket Bytes
  read = do
    header_magic ← net.read_exact 4
    if beq header_magic croc_magic
        then (do msg_len ← net.read_u32_le; net.read_exact msg_len)
        else fail (bad_magic header_magic)

  -- `AsyncCrocWrite for OwnedSender`, and for `MpscCrocProto`: the frame goes to the channel of the
  -- task that writes.
  unfoldable pub write_channel : Bytes → Act Channel (Unit {0})
  write_channel msg = do buffer ← lift (frame msg); net.send buffer

  -- The task that writes: each buffer of the channel goes to the socket; an error ends the task.
  unfoldable pub writer_task : List Bytes → Act Socket (Unit {0})
  writer_task [] = return tt
  writer_task (msg ∷ rest) = do net.write_all msg; writer_task rest

  -- One round of the task that reads. It repeats the body of `CrocProto::read`, and hands the
  -- message to the channel; every error is a `break`.
  unfoldable pub reader_round : Act Link (Unit {0})
  reader_round = do message ← on_socket read; on_channel (net.send message)

  -- The task that reads, for at most so many rounds; true when it has ended by itself.
  unfoldable pub reader_task : ℕ → Link → Bool × Link
  reader_task zero l = (false, l)
  reader_task (suc fuel) l = round (reader_task fuel) (reader_round l)
