-- ===== src/Net.antt =====
-- The interface to `tokio` and `byteorder`: sockets, in-process channels, and a number written in
-- little-endian order. The crates are parameters, with the behaviour that they document as laws.
use rust_croc.Common.{
  ℕ, ◌^◌, ◌≤◌, ◌<◌, ◌≡◌, Bool, true, false, List, [], ◌∷◌, ◌++◌, length, take, drop, Bytes, io,
  channel_closed, ok, err, Act, Outcome,
}
use rust_croc.Std.LeBytes.{to_le_bytes, from_le_bytes}

-- One end of a connection: the bytes that the peer sends until it closes its side, the bytes
-- written so far, and whether the peer still takes bytes.
pub record Socket : Type 0 where
  pub incoming : Bytes
  pub sent : Bytes
  pub writable : Bool

-- A `tokio::sync::mpsc` channel of byte strings, oldest first, and whether its receiver is alive.
pub record Channel : Type 0 where
  pub queue : List Bytes
  pub receiving : Bool

pub record Net : Type 0 where
  pub read_exact : ℕ → Act Socket Bytes
  pub read_u32_le : Act Socket ℕ
  pub write_all : Bytes → Act Socket (Unit {0})
  pub send : Bytes → Act Channel (Unit {0})
  pub write_u32_le : ℕ → Bytes
  pub local_addr : Socket → Outcome Bytes
  -- `AsyncReadExt::read_exact`: exactly n bytes, or `UnexpectedEof`.
  pub read_exact_full :
      (n : ℕ) (s : Socket)
      → n ≤ length s.incoming
      → read_exact n s ≡ (ok (take n s.incoming), record s { incoming = drop n s.incoming })
  pub read_exact_eof : (n : ℕ) (s : Socket) → length s.incoming < n → (read_exact n s).0 ≡ err io
  -- `AsyncReadExt::read_u32_le`: four bytes in little-endian order, or `UnexpectedEof`.
  pub read_u32_le_full :
      (s : Socket)
      → 4 ≤ length s.incoming
      → read_u32_le s
        ≡ (ok (from_le_bytes (take 4 s.incoming)), record s { incoming = drop 4 s.incoming })
  pub read_u32_le_eof : (s : Socket) → length s.incoming < 4 → (read_u32_le s).0 ≡ err io
  -- `AsyncWriteExt::write_all`: the whole buffer in order, or an error.
  pub write_all_lem :
      (bs : Bytes) (s : Socket)
      → s.writable ≡ true
      → write_all bs s ≡ (ok tt, record s { sent = s.sent ++ bs })
  pub write_all_broken :
      (bs : Bytes) (s : Socket) → s.writable ≡ false → (write_all bs s).0 ≡ err io
  -- `mpsc::Sender::send`: waits for room, and fails only when the receiver is gone.
  pub send_lem :
      (m : Bytes) (c : Channel)
      → c.receiving ≡ true
      → send m c ≡ (ok tt, record c { queue = c.queue ++ (m ∷ []) })
  pub send_closed :
      (m : Bytes) (c : Channel) → c.receiving ≡ false → send m c ≡ (err channel_closed, c)
  -- `TcpStream::local_addr`: a connection has an address.
  pub local_addr_lem : (s : Socket) → s.writable ≡ true → (addr : Bytes) × (local_addr s ≡ ok addr)
  -- `WriteBytesExt::write_u32::<LittleEndian>`.
  pub write_u32_le_lem : (n : ℕ) → n < 2 ^ 32 → write_u32_le n ≡ to_le_bytes 4 n
