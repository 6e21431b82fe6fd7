-- ===== src/Tests/Net.antt =====
-- A socket and a channel that do what the crates document.
use rust_croc.Common.{
  ℕ, ◌≤◌, ◌<◌, ◌≡◌, refl, true, false, [], ◌∷◌, ◌++◌, length, take, drop, Bytes, io, channel_closed,
  ok, err, Act, if◌then◌else◌, leb, arith,
}
use rust_croc.Std.LeBytes.{to_le_bytes, from_le_bytes}
use rust_croc.Net.{Net, Socket, Channel}

abbrev pub read_exact : ℕ → Act Socket Bytes
read_exact n s =
    if leb n (length s.incoming)
    then (ok (take n s.incoming), record s { incoming = drop n s.incoming })
    else (err io, record s { incoming = [] })

abbrev pub read_u32_le : Act Socket ℕ
read_u32_le s =
    if leb 4 (length s.incoming)
    then (ok (from_le_bytes (take 4 s.incoming)), record s { incoming = drop 4 s.incoming })
    else (err io, record s { incoming = [] })

abbrev pub write_all : Bytes → Act Socket (Unit {0})
write_all bs s = if s.writable then (ok tt, record s { sent = s.sent ++ bs }) else (err io, s)

abbrev pub send : Bytes → Act Channel (Unit {0})
send m c =
    if c.receiving
    then (ok tt, record c { queue = c.queue ++ (m ∷ []) })
    else (err channel_closed, c)

pub read_exact_full :
    (n : ℕ) (s : Socket)
    → n ≤ length s.incoming
    → read_exact n s ≡ (ok (take n s.incoming), record s { incoming = drop n s.incoming })
read_exact_full n s h = ground arith

pub read_exact_eof : (n : ℕ) (s : Socket) → length s.incoming < n → (read_exact n s).0 ≡ err io
read_exact_eof n s h = ground arith

pub read_u32_le_full :
    (s : Socket)
    → 4 ≤ length s.incoming
    → read_u32_le s
      ≡ (ok (from_le_bytes (take 4 s.incoming)), record s { incoming = drop 4 s.incoming })
read_u32_le_full s h = ground arith

pub read_u32_le_eof : (s : Socket) → length s.incoming < 4 → (read_u32_le s).0 ≡ err io
read_u32_le_eof s h = ground arith

pub write_all_lem :
    (bs : Bytes) (s : Socket)
    → s.writable ≡ true
    → write_all bs s ≡ (ok tt, record s { sent = s.sent ++ bs })
write_all_lem bs s h = rw h

pub write_all_broken : (bs : Bytes) (s : Socket) → s.writable ≡ false → (write_all bs s).0 ≡ err io
write_all_broken bs s h = rw h

pub send_lem :
    (m : Bytes) (c : Channel)
    → c.receiving ≡ true
    → send m c ≡ (ok tt, record c { queue = c.queue ++ (m ∷ []) })
send_lem m c h = ground arith

pub send_closed :
    (m : Bytes) (c : Channel) → c.receiving ≡ false → send m c ≡ (err channel_closed, c)
send_closed m c h = ground arith

abbrev pub net : Net
net = record {
  read_exact = read_exact;
  read_u32_le = read_u32_le;
  write_all = write_all;
  send = send;
  write_u32_le = to_le_bytes 4;
  local_addr = λ s. ok [];
  read_exact_full = read_exact_full;
  read_exact_eof = read_exact_eof;
  read_u32_le_full = read_u32_le_full;
  read_u32_le_eof = read_u32_le_eof;
  write_all_lem = write_all_lem;
  write_all_broken = write_all_broken;
  send_lem = send_lem;
  send_closed = send_closed;
  write_u32_le_lem = λ n h. refl;
  local_addr_lem = λ s open_. ([], refl);
}

-- A connection with nothing sent, over which the peer sends the given bytes.
abbrev pub socket_with : Bytes → Socket
socket_with bs = record { incoming = bs; sent = []; writable = true }

abbrev pub empty_channel : Channel
empty_channel = record { queue = []; receiving = true }
