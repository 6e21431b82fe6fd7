-- ===== src/Session/NetTask/Meeting.antt =====
-- The connections for data of a sender and a receiver ask for a room that their secret names.
use rust_croc.Common.{
  ℕ, ◌/◌, ◌%◌, ◌<◌, ◌≤◌, ◌≡◌, refl, true, false, [], ◌∷◌, ◌++◌, length, take, drop, Bytes, IsBytes,
  Outcome, ok, err, io, beq, beq_refl, codes, arith, lt→ltb, le→ltb, if◌then◌else◌,
}
use rust_croc.Net.{Net, Socket}
use rust_croc.Wire.{Link}
use rust_croc.Crypto.{Primitives}
use rust_croc.Pake.{PakeCrate}
use rust_croc.Client.{Random, connect}
use rust_croc.Session.NetTask.{
  Sha256, hex_digit, hex, start_stream, connect_hashed, hash_secret, start_net_task,
}
use rust_croc.Std.Slice.{bytes_suffix, is_continuation, str_prefix}

hex_digit-ascii : (n : ℕ) → n < 16 → hex_digit n < 128
unfolding hex_digit
hex_digit-ascii n h = ground arith

digit-edge : (n : ℕ) → n < 16 → is_continuation (hex_digit n) ≡ false
digit-edge n h = rw (lt→ltb (hex_digit n) 128 (hex_digit-ascii n h)) refl

-- The first digits of a hash can be cut off, and of these the first.
pub hex-prefix :
    (h : Bytes)
    → length h ≡ 32
    → IsBytes h
    → (str_prefix 6 (hex h) ≡ ok (take 6 (hex h)))
      × (str_prefix 3 (take 6 (hex h) ++ codes "-1") ≡ ok (take 3 (hex h)))
      × (length (take 6 (hex h) ++ codes "-1") ≡ 8)
unfolding str_prefix hex
hex-prefix (a ∷ b ∷ c ∷ d ∷ rest) size (ha, (hb, (hc, (hd, _)))) = (
  rw
      (
        le→ltb (length (hex (a ∷ b ∷ c ∷ d ∷ rest))) 6 (omega arith),
        digit-edge (d / 16) (omega (arith, hd)),
      )
      refl,
  rw (digit-edge (b % 16) (omega (arith, hb))) refl,
  refl,
)
hex-prefix [] size h = absurd (omega (arith, size))
hex-prefix (a ∷ []) size h = absurd (omega (arith, size))
hex-prefix (a ∷ b ∷ []) size h = absurd (omega (arith, size))
hex-prefix (a ∷ b ∷ c ∷ []) size h = absurd (omega (arith, size))

-- A connection to one address alone.
abbrev pub dial_to : Bytes → Socket → Bytes → Outcome Socket
dial_to address s other = if beq other address then ok s else err io

module _ (net : Net) (prim : Primitives) (pake : PakeCrate) (sha256 : Sha256) where
  -- The room that `connect` asks for.
  abbrev pub data_room : Bytes → Bytes
  data_room secret = take 3 (hex (sha256.digest (drop 5 secret)))

  -- The secret that `connect` is given.
  abbrev pub data_secret : Bytes → Bytes
  data_secret secret = take 6 (hex (sha256.digest (drop 5 secret))) ++ codes "-1"

  pub start_net_task_lem :
      (random : Random) (port secret : Bytes) (s : Socket)
      → 5 ≤ length secret
      → start_net_task net prim pake sha256 random
          (dial_to (codes "localhost:" ++ port) s)
          port
          secret
        ≡ start_stream net prim pake sha256
            (connect net prim pake random (ok s) (codes "pass123") (data_secret secret) false)
  unfolding start_net_task connect_hashed hash_secret bytes_suffix
  start_net_task_lem random port secret s long =
      let h = sha256.digest (drop 5 secret) in
      let (six, _, _) =
        hex-prefix h (sha256.length-digest (drop 5 secret))
          (sha256.digest-IsBytes (drop 5 secret)) in
      rw (le→ltb (length secret) 5 long, six, beq_refl (codes "localhost:" ++ port)) refl

  -- The connection that a task of its own reads, behind what was said.
  abbrev pub reads_on : Socket → (up heard : Bytes) → Link
  reads_on c up heard = record {
    socket = record c { incoming = heard; sent = c.sent ++ up };
    channel = record { queue = []; receiving = true };
  }
