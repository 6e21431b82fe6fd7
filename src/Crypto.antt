-- ===== src/Crypto.antt =====
-- src/crypto/aes.rs: `AesEncryptor`. Randomness (the salt and each nonce) is an argument.
pub mod Laws
use rust_croc.Common.{
  ℕ, ◌+◌, ◌≤◌, ◌≡◌, ◌++◌, Option, none, some, length, take, drop, Bytes, Outcome, ok, err, panic,
  cipher, ltb, if◌then◌else◌, ◌≢◌,
}

-- The crates `pbkdf2`, `sha2` and `aes-gcm`.
pub record Primitives : Type 1 where
  -- `pbkdf2_hmac_array::<Sha256, 32>(key, salt, rounds)`
  pub pbkdf2 : Bytes → Bytes → ℕ → Bytes
  -- A keyed `Aes256Gcm`, and its `encrypt` and `decrypt` under a nonce.
  pub Aes : Type 0
  pub aes : Bytes → Aes
  pub seal : Aes → Bytes → Bytes → Outcome Bytes
  pub unseal : Aes → Bytes → Bytes → Outcome Bytes
  -- The longest text that the cipher takes.
  pub limit : ℕ
  pub seal_lem :
      (a : Aes) (nonce text : Bytes)
      → length text ≤ limit
      → (c : Bytes) × (seal a nonce text ≡ ok c)
  -- A sealed text is opened by the same key and nonce, and is longer by the tag of 16 bytes.
  pub unseal-seal :
      (a : Aes) (nonce text : Bytes) {c : Bytes}
      → seal a nonce text ≡ ok c
      → unseal a nonce c ≡ ok text
  pub length-seal :
      (a : Aes) (nonce text : Bytes) {c : Bytes}
      → seal a nonce text ≡ ok c
      → length c ≡ length text + 16

module _ (prim : Primitives) where
  open prim use {Aes, aes, pbkdf2, seal, unseal}

  pub record AesEncryptor : Type 0 where
    pub cipher : Aes
    pub salt : Bytes

  -- `AesEncryptor::new`; `random` is what `fill_bytes` would give.
  unfoldable pub new : Bytes → Option Bytes → Bytes → AesEncryptor
  new session_key none random = record {
    cipher = aes (pbkdf2 session_key random 100);
    salt = random;
  }
  new session_key (some salt) random = record {
    cipher = aes (pbkdf2 session_key salt 100);
    salt = salt;
  }

  -- `encrypt` under the generated nonce, which goes in front.
  unfoldable pub encrypt : AesEncryptor → Bytes → Bytes → Outcome Bytes
  encrypt e nonce text = elim (seal e.cipher nonce text) [
    | ok ciphertext ↦ ok (nonce ++ ciphertext)
    | err x ↦ err cipher
    | panic ↦ panic
  ]

  -- `decrypt`: the slices panic on fewer than 12 bytes.
  unfoldable pub decrypt : AesEncryptor → Bytes → Outcome Bytes
  decrypt e bs =
      if ltb (length bs) 12 then panic else elim (unseal e.cipher (take 12 bs) (drop 12 bs)) [
        | ok text ↦ ok text
        | err x ↦ err cipher
        | panic ↦ panic
      ]
