-- ===== src/Enc.antt =====
-- src/proto/croc_enc.rs: `EncryptedSession`, an encryptor over a framed connection.
pub mod Laws
use rust_croc.Common.{
  ℕ, ◌≡◌, Option, none, some, length, Bytes, Outcome, ok, err, Act, ◌>>=◌, ◌>>◌, lift, return,
  slice_conversion, ◌==◌, if◌then◌else◌,
}
use rust_croc.Net.{Net, Socket}
use rust_croc.Wire
use rust_croc.Crypto.{Primitives, AesEncryptor}
use rust_croc.Crypto

-- `rust_pake::pake::Role`
pub data Role : Type 0 where
  sender reciever : Role

-- `as_slice().try_into()` to `[u8; 8]`
unfoldable pub to_salt : Bytes → Outcome Bytes
to_salt bs = if length bs == 8 then ok bs else err slice_conversion

module _ (net : Net) (prim : Primitives) where
  pub record EncryptedSession : Type 0 where
    pub encryptor : AesEncryptor prim

  -- `EncryptedSession::new`: the sender's side makes up the salt and tells it to the other.
  unfoldable pub new : Bytes → Role → Bytes → Act Socket EncryptedSession
  unfolding to_salt
  new session_key sender random =
      let encryptor = Crypto.new prim session_key none random in
      do Wire.write net encryptor.salt; return (record { encryptor = encryptor })
  new session_key reciever random = do
    bs ← Wire.read net
    salt ← lift (to_salt bs)
    return (record { encryptor = Crypto.new prim session_key (some salt) random })

  -- `EncryptedSession::write` to anything that takes messages, under the nonce that `encrypt`
  -- generates.
  unfoldable pub write {ℓ} :
      {S : Type ℓ}
      → (Bytes → Act S (Unit {0}))
      → EncryptedSession
      → Bytes
      → Bytes
      → Act S (Unit {0})
  write sink e nonce msg = do
    encrypted ← lift (Crypto.encrypt prim e.encryptor nonce msg)
    sink encrypted

  -- `EncryptedSession::read` from anything that gives messages.
  unfoldable pub read {ℓ} : {S : Type ℓ} → Act S Bytes → EncryptedSession → Act S Bytes
  read source e = do bs ← source; lift (Crypto.decrypt prim e.encryptor bs)
