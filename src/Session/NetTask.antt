-- ===== src/Session/NetTask.antt =====
-- src/proto/client_session.rs: `start_net_task`, the connection for data.
pub mod Meeting
use rust_croc.Common.{
  ℕ, ◌+◌, ◌-◌, ◌*◌, ◌/◌, ◌%◌, ◌<◌, ◌≡◌, List, [], ◌∷◌, ◌++◌, length, Bytes, IsBytes, Outcome, ok,
  err, panic, ltb, if◌then◌else◌, codes, false, true,
}
use rust_croc.Net.{Net, Socket}
use rust_croc.Wire.{Link}
use rust_croc.Crypto.{Primitives}
use rust_croc.Pake.{PakeCrate}
use rust_croc.Client.{RelayClient, Random, connect}
use rust_croc.Std.Slice.{bytes_suffix, str_prefix}

-- `sha2::Sha256`: a digest of 32 bytes.
pub record Sha256 : Type 0 where
  pub digest : Bytes → Bytes
  pub length-digest : (bs : Bytes) → length (digest bs) ≡ 32
  pub digest-IsBytes : (bs : Bytes) → IsBytes (digest bs)

unfoldable pub hex_digit : ℕ → ℕ
hex_digit n = if ltb n 10 then b'0' + n else b'a' + (n - 10)

-- `format!("{:x}", _)` of bytes: two digits for each.
unfoldable pub hex : Bytes → Bytes
unfolding hex_digit
hex [] = []
hex (b ∷ bs) = hex_digit (b / 16) ∷ hex_digit (b % 16) ∷ hex bs

-- `RelayClient::start_mpsc_stream`: the stream with its reading task, and the channel of that.
unfoldable pub start_mpsc_stream : RelayClient → Link
start_mpsc_stream c = record {
  socket = c.stream;
  channel = record { queue = []; receiving = true };
}

module _ (net : Net) (prim : Primitives) (pake : PakeCrate) (sha256 : Sha256) where
  unfoldable pub start_stream : Outcome RelayClient → Outcome Link
  unfolding start_mpsc_stream
  start_stream (ok c) = ok (start_mpsc_stream c)
  start_stream (err e) = err e
  start_stream panic = panic

  -- With the first digits of the hash, on what the connection to this machine comes to.
  unfoldable pub connect_hashed : Random → Outcome Socket → Outcome Bytes → Outcome Link
  unfolding start_stream
  connect_hashed random connected (ok shared_secret) =
      start_stream (
        connect net prim pake random connected (codes "pass123") (shared_secret ++ codes "-1")
          false)
  connect_hashed random connected (err e) = err e
  connect_hashed random connected panic = panic

  unfoldable pub hash_secret : Outcome Bytes → Outcome Bytes
  unfolding hex
  hash_secret (ok secret) = str_prefix 6 (hex (sha256.digest secret))
  hash_secret (err e) = err e
  hash_secret panic = panic

  -- `start_net_task`, given what `CrocProto::connect` comes to for each address.
  unfoldable pub start_net_task : Random → (Bytes → Outcome Socket) → Bytes → Bytes → Outcome Link
  unfolding connect_hashed hash_secret bytes_suffix
  start_net_task random dial relay_port shared_secret =
      connect_hashed random (dial (codes "localhost:" ++ relay_port))
        (hash_secret (bytes_suffix 5 shared_secret))
