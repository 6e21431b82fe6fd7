-- ===== src/Crypto/Laws.antt =====
-- What `encrypt` and `decrypt` do together.
use rust_croc.Common.{
  ◌+◌, ◌≤◌, ◌≡◌, refl, sym, ◌++◌, length, length-append, take-append, drop-append, Bytes, ok, arith,
  le→ltb, Option, none, some,
}
use rust_croc.Crypto.{Primitives, AesEncryptor, new, encrypt, decrypt}

module _ (prim : Primitives) where
  open prim use {seal_lem, unseal-seal, length-seal, limit}

  -- With a nonce of twelve bytes and a text that the cipher takes, encrypt succeeds, its result is
  -- 28 bytes longer than the text, and any encryptor with the same key decrypts it to the text.
  pub decrypt-encrypt :
      (e d : AesEncryptor prim) (nonce text : Bytes)
      → d.cipher ≡ e.cipher
      → length nonce ≡ 12
      → length text ≤ limit
      → (c : Bytes) × (encrypt prim e nonce text ≡ ok c)
        × (length c ≡ length text + 28)
        × (decrypt prim d c ≡ ok text)
  unfolding encrypt decrypt
  decrypt-encrypt e d nonce text same n h =
      let (c, sealed) = seal_lem e.cipher nonce text h in
      let long = length-append nonce c in
      let size = length-seal e.cipher nonce text sealed in
      (
        nonce ++ c,
        rw (sealed, encrypt),
        omega arith,
        rw (
          le→ltb (length (nonce ++ c)) 12 (omega arith),
          take-append 12 nonce c (sym n),
          drop-append 12 nonce c (sym n),
          same,
          unseal-seal e.cipher nonce text sealed,
          decrypt,
        ),
      )

  -- Whether the first salt was given or made up: an encryptor of the same session key that is given
  -- this salt is the same encryptor.
  pub new_agree :
      (session_key random random' : Bytes) (salt : Option Bytes)
      → new prim session_key (some (new prim session_key salt random).salt) random'
        ≡ new prim session_key salt random
  unfolding new
  new_agree session_key random random' none = refl
  new_agree session_key random random' (some salt) = refl
