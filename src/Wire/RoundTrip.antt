-- ===== src/Wire/RoundTrip.antt =====
-- Frames: what `write` puts on a socket, `read` takes off again.
use rust_croc.Common.{
  ◌+◌, ◌^◌, ◌<◌, ◌≡◌, refl, sym, true, ◌++◌, append_assoc, length, length-append, take-append,
  drop-append, Bytes, ok, beq_refl, lt→ltb, arith,
}
use rust_croc.Std.LeBytes.{to_le_bytes, length-to_le_bytes, from-to_le_bytes}
use rust_croc.Net.{Net, Socket}
use rust_croc.Wire.{croc_magic, frame, write, read}

-- The bytes of one message on the wire.
abbrev pub framed : Bytes → Bytes
framed msg = croc_magic ++ (to_le_bytes 4 (length msg) ++ msg)

pub length-framed : (msg : Bytes) → length (framed msg) ≡ 8 + length msg
length-framed msg =
    omega (arith, length-append (to_le_bytes 4 (length msg)) msg, length-to_le_bytes 4 (length msg))

module _ (net : Net) where
  pub frame_lem : (msg : Bytes) → length msg < 2 ^ 32 → frame net msg ≡ ok (framed msg)
  unfolding frame
  frame_lem msg h = rw (lt→ltb _ _ h, net.write_u32_le_lem (length msg) h)

  -- A message that fits goes out as one frame.
  pub write_lem :
      (msg : Bytes) (s : Socket)
      → length msg < 2 ^ 32
      → s.writable ≡ true
      → write net msg s ≡ (ok tt, record s { sent = s.sent ++ framed msg })
  unfolding write
  write_lem msg s h w = rw (frame_lem msg h) (net.write_all_lem (framed msg) s w)

  pub read-framed :
      (msg rest : Bytes) (s : Socket)
      → length msg < 2 ^ 32
      → read net (record s { incoming = framed msg ++ rest })
        ≡ (ok msg, record s { incoming = rest })
  unfolding read
  read-framed msg rest s h =
      let len : Bytes = to_le_bytes 4 (length msg) in
      let size : length len ≡ 4 = length-to_le_bytes 4 (length msg) in
      rw (
        net.read_exact_full 4 (record s { incoming = framed msg ++ rest }) (omega arith),
        beq_refl croc_magic,
        append_assoc len msg rest,
        net.read_u32_le_full (record s { incoming = len ++ (msg ++ rest) })
            (omega (arith, length-append len (msg ++ rest))),
        take-append 4 len (msg ++ rest) (sym size),
        drop-append 4 len (msg ++ rest) (sym size),
        from-to_le_bytes 4 (length msg) h,
        net.read_exact_full (length msg) (record s { incoming = msg ++ rest })
            (omega (arith, length-append msg rest)),
        take-append (length msg) msg rest refl,
        drop-append (length msg) msg rest refl,
      )
