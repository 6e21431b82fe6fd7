-- ===== src/Wire/Sound.antt =====
-- What `read` delivers is exactly what stands on the wire.
use rust_croc.Common.{
  ℕ, ◌^◌, ◌≤◌, ◌<◌, ◌≡◌, refl, sym, ap, inl, inr, ◌++◌, append_assoc, length, length-take, take,
  drop, take-append-drop, Bytes, IsBytes, All-take, All-drop, ok, after-eq-ok, beq, beq_iff, arith,
  dec_lt, Bool-cases, ◌>>=◌, ◌∙◌,
}
use rust_croc.Std.LeBytes.{to_le_bytes, from_le_bytes, to-from_le_bytes, from_le_bytes-lt}
use rust_croc.Net.{Net, Socket}
use rust_croc.Wire.{croc_magic, read}
use rust_croc.Wire.RoundTrip.{framed}

module _ (net : Net) where
  -- A read of n bytes that succeeds splits them off.
  record Splits (n : ℕ) (s : Socket) (bs : Bytes) (t : Socket) : Type 0 where
    whole : s.incoming ≡ bs ++ t.incoming
    size : length bs ≡ n
    bytes : IsBytes s.incoming → IsBytes bs × IsBytes t.incoming
    sent : t.sent ≡ s.sent
    writable : t.writable ≡ s.writable

  take-Splits :
      (n : ℕ) (s : Socket) {bs : Bytes} {t : Socket}
      → n ≤ length s.incoming
      → take n s.incoming ≡ bs
      → record s { incoming = drop n s.incoming } ≡ t
      → Splits n s bs t
  take-Splits n s h e f =
      rw (← e, ← f)
        (record {
          whole = sym (take-append-drop n s.incoming);
          size = omega (arith, length-take n s.incoming);
          bytes = λ b. (All-take _ n s.incoming b, All-drop _ n s.incoming b);
          sent = refl;
          writable = refl;
        })

  read_exact-Splits :
      (n : ℕ) (s : Socket) {bs : Bytes} {t : Socket}
      → net.read_exact n s ≡ (ok bs, t)
      → Splits n s bs t
  read_exact-Splits n s e = elim (dec_lt (length s.incoming) n) [
    | yes short ↦ cc (net.read_exact_eof n s short)
    | no long ↦
        let full = net.read_exact_full n s (omega arith) in
        take-Splits n s (omega arith) (cc full) (cc full)
  ]

  read_u32_le-Splits :
      (s : Socket) {k : ℕ} {t : Socket}
      → net.read_u32_le s ≡ (ok k, t)
      → (bs : Bytes) × (k ≡ from_le_bytes bs) × Splits 4 s bs t
  read_u32_le-Splits s e = elim (dec_lt (length s.incoming) 4) [
    | yes short ↦ cc (net.read_u32_le_eof s short)
    | no long ↦
        let full = net.read_u32_le_full s (omega arith) in
        (take 4 s.incoming, cc full, take-Splits 4 s (omega arith) refl (cc full))
  ]

  -- The three reads of a successful `read`.
  record Reads (s : Socket) (msg : Bytes) (t : Socket) : Type 0 where
    len : Bytes
    magicless : Socket
    lenless : Socket
    magic : Splits 4 s croc_magic magicless
    prefix : Splits 4 magicless len lenless
    body : Splits (from_le_bytes len) lenless msg t

  read-Reads_body :
      (s : Socket) (header : Bytes) (s1 : Socket) {msg : Bytes} {t : Socket}
      → net.read_exact 4 s ≡ (ok header, s1)
      → header ≡ croc_magic
      → (net.read_u32_le >>= net.read_exact) s1 ≡ (ok msg, t)
      → Reads s msg t
  read-Reads_body s header s1 e1 same e =
      let (k, s2, e2, e3) = after-eq-ok (net.read_u32_le s1) _ e in
      let (len, value, prefix) = read_u32_le-Splits s1 e2 in
      record {
        len = len;
        magicless = s1;
        lenless = s2;
        magic = rw same at (read_exact-Splits 4 s e1);
        prefix = prefix;
        body = read_exact-Splits (from_le_bytes len) s2 (rw value at e3);
      }

  read-Reads : (s : Socket) {msg : Bytes} {t : Socket} → read net s ≡ (ok msg, t) → Reads s msg t
  unfolding read
  read-Reads s e =
      let (header, s1, e1, f1) = after-eq-ok (net.read_exact 4 s) _ e in
      elim (Bool-cases (beq header croc_magic)) [
        | inl same ↦ read-Reads_body s header s1 e1 ((beq_iff _ _).0 same) (rw same at f1)
        | inr other ↦ let stopped = rw other at f1 in cc
      ]

  -- If a read of a socket with incoming bytes succeeds with a message, then the incoming bytes were
  -- the frame of that message followed by what is left, the message is shorter than 2^32 bytes,
  -- nothing was sent, and what is left are bytes.
  pub read-eq-ok :
      (s : Socket) {msg : Bytes} {t : Socket}
      → IsBytes s.incoming
      → read net s ≡ (ok msg, t)
      → (s.incoming ≡ framed msg ++ t.incoming)
        × (length msg < 2 ^ 32)
        × (t.sent ≡ s.sent)
        × (t.writable ≡ s.writable)
        × IsBytes t.incoming
  read-eq-ok s {msg} {t} b e =
      let r = read-Reads s e in
      let b1 = (r.magic.bytes b).1 in
      let (len_bytes, b2) = r.prefix.bytes b1 in
      let size : length msg ≡ from_le_bytes r.len = r.body.size in
      let len : to_le_bytes 4 (length msg) ≡ r.len =
        rw (size, ← r.prefix.size) (to-from_le_bytes r.len len_bytes) in
      (
        r.magic.whole
            ∙ ap (◌++◌ croc_magic)
                (r.prefix.whole ∙ rw (len, append_assoc) (ap (◌++◌ r.len) r.body.whole)),
        rw (size, ← ap (λ n. 256 ^ n) r.prefix.size) (from_le_bytes-lt r.len len_bytes),
        r.body.sent ∙ r.prefix.sent ∙ r.magic.sent,
        r.body.writable ∙ r.prefix.writable ∙ r.magic.writable,
        (r.body.bytes b2).1,
      )
