-- ===== src/Enc/Laws.antt =====
-- The two ends of an encrypted session understand each other.
use rust_croc.Common.{◌+◌, ◌^◌, ◌≤◌, ◌<◌, ◌≡◌, ◌++◌, true, none, length, Bytes, ok, arith}
use rust_croc.Net.{Net, Socket}
use rust_croc.Wire
use rust_croc.Wire.RoundTrip.{framed, write_lem, read-framed}
use rust_croc.Crypto.{Primitives, AesEncryptor}
use rust_croc.Crypto
use rust_croc.Crypto.Laws.{decrypt-encrypt}
use rust_croc.Enc.{sender, reciever, EncryptedSession, new, write, read}

module _ (net : Net) (prim : Primitives) where
  -- With one session key and a random salt of eight bytes, the sender's side of
  -- EncryptedSession::new sends the salt in one frame and the other side, reading a stream that
  -- begins with that frame, ends up with the same session and leaves the rest, whatever its own
  -- randomness.
  pub new_agree_over :
      (session_key random random' rest : Bytes) (a b : Socket)
      → length random ≡ 8
      → a.writable ≡ true
      → (e : EncryptedSession net prim) × (new net prim session_key sender random a
          ≡ (ok e, record a { sent = a.sent ++ framed random }))
        × (new net prim session_key reciever random' (record b { incoming = framed random ++ rest })
            ≡ (ok e, record b { incoming = rest }))
  unfolding new Crypto.new
  new_agree_over session_key random random' rest a b n w = (
    record { encryptor = Crypto.new prim session_key none random },
    rw (write_lem net random a (omega arith) w),
    rw (read-framed net random rest b (omega arith), n),
  )

  -- A message that this session opens to a text, and that fits a frame.
  pub record Sealed (d : EncryptedSession net prim) (msg c : Bytes) : Type 0 where
    pub opened : Crypto.decrypt prim d.encryptor c ≡ ok msg
    pub fits : length c < 2 ^ 32

  -- A text has a sealed message, which goes out in one frame on whatever socket takes it.
  pub seal_for :
      (e d : EncryptedSession net prim) (nonce msg : Bytes)
      → d.encryptor.cipher ≡ e.encryptor.cipher
      → length nonce ≡ 12
      → length msg ≤ prim.limit
      → length msg + 28 < 2 ^ 32
      → (c : Bytes) × Sealed d msg c
        × ((a : Socket)
            → a.writable ≡ true
            → write net prim (Wire.write net) e nonce msg a
              ≡ (ok tt, record a { sent = a.sent ++ framed c }))
  unfolding write
  seal_for e d nonce msg same n h k =
      let (c, encrypted, size, decrypted) =
        decrypt-encrypt prim e.encryptor d.encryptor nonce msg same n h in
      (
        c,
        record { opened = decrypted; fits = omega arith },
        λ a w. rw encrypted (write_lem net c a (omega arith) w),
      )

  pub write-Sealed :
      (e d : EncryptedSession net prim) (nonce msg : Bytes) (a : Socket)
      → d.encryptor.cipher ≡ e.encryptor.cipher
      → length nonce ≡ 12
      → length msg ≤ prim.limit
      → length msg + 28 < 2 ^ 32
      → a.writable ≡ true
      → (c : Bytes) × (write net prim (Wire.write net) e nonce msg a
          ≡ (ok tt, record a { sent = a.sent ++ framed c }))
        × Sealed d msg c
  write-Sealed e d nonce msg a same n h k w =
      let (c, sealed, written) = seal_for e d nonce msg same n h k in (c, written a w, sealed)

  pub read-Sealed :
      (d : EncryptedSession net prim) (msg c rest : Bytes) (b : Socket)
      → Sealed d msg c
      → read net prim (Wire.read net) d (record b { incoming = framed c ++ rest })
        ≡ (ok msg, record b { incoming = rest })
  unfolding read
  read-Sealed d msg c rest b h = rw (read-framed net c rest b h.fits, h.opened)

  -- For two sessions with the same key, a nonce of twelve bytes, a text that the cipher takes and
  -- whose encryption is shorter than 2^32 bytes, and a socket that takes bytes: the write sends one
  -- frame, and the read of a stream that begins with that frame gives the text and leaves the rest.
  pub read-write :
      (e d : EncryptedSession net prim) (nonce msg rest : Bytes) (a b : Socket)
      → d.encryptor.cipher ≡ e.encryptor.cipher
      → length nonce ≡ 12
      → length msg ≤ prim.limit
      → length msg + 28 < 2 ^ 32
      → a.writable ≡ true
      → (c : Bytes) × (write net prim (Wire.write net) e nonce msg a
          ≡ (ok tt, record a { sent = a.sent ++ framed c }))
        × (read net prim (Wire.read net) d (record b { incoming = framed c ++ rest })
            ≡ (ok msg, record b { incoming = rest }))
  read-write e d nonce msg rest a b same n h k w =
      let (c, written, sealed) = write-Sealed e d nonce msg a same n h k w in
      (c, written, read-Sealed d msg c rest b sealed)
