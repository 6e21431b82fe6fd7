-- ===== src/Tests/Crypto.antt =====
-- A cipher that meets the laws (its tag is sixteen zeros), and sessions over it.
use rust_croc.Common.{
  ◌+◌, ◌-◌, ◌^◌, ◌≡◌, refl, true, [], ◌++◌, length, length-append, take, take-append, replicate,
  Bytes, Outcome, ok, panic, codes, arith,
}
use rust_croc.Wire
use rust_croc.Wire.RoundTrip.{framed}
use rust_croc.Crypto.{Primitives, AesEncryptor, encrypt, decrypt}
use rust_croc.Crypto.Laws.{decrypt-encrypt}
use rust_croc.Enc.{EncryptedSession, sender, reciever}
use rust_croc.Enc
use rust_croc.Enc.Laws.{new_agree_over, read-write}
use rust_croc.Tests.Net.{net, socket_with}

abbrev pub tag : Bytes
tag = replicate 16 0

abbrev pub unseal : Bytes → Bytes → Bytes → Outcome Bytes
unseal key nonce c = ok (take (length c - 16) c)

pub unseal-seal :
    (key nonce text : Bytes) {c : Bytes}
    → ◌≡◌ {A = Outcome Bytes} (ok (text ++ tag)) (ok c)
    → unseal key nonce c ≡ ok text
unseal-seal key nonce text {c} e =
    let same : text ++ tag ≡ c = cc in
    rw (
      ← same,
      take-append (length (text ++ tag) - 16) text tag (omega (arith, length-append text tag)),
    )

pub length-seal :
    (key nonce text : Bytes) {c : Bytes}
    → ◌≡◌ {A = Outcome Bytes} (ok (text ++ tag)) (ok c)
    → length c ≡ length text + 16
length-seal key nonce text {c} e =
    let same : text ++ tag ≡ c = cc in rw (← same) (length-append text tag)

abbrev pub prim : Primitives
prim = record {
  pbkdf2 = λ key salt rounds. key ++ salt;
  Aes = Bytes;
  aes = λ key. key;
  seal = λ key nonce text. ok (text ++ tag);
  unseal = unseal;
  limit = 2 ^ 20;
  seal_lem = λ key nonce text h. (text ++ tag, refl);
  unseal-seal = unseal-seal;
  length-seal = length-seal;
}

abbrev pub nonce : Bytes
nonce = codes "0123456789ab"

abbrev pub encryptor : AesEncryptor prim
encryptor = record { cipher = codes "key"; salt = codes "saltsalt" }

abbrev pub session : EncryptedSession net prim
session = record { encryptor = encryptor }

encrypt_hi : encrypt prim encryptor nonce (codes "hi") ≡ ok (nonce ++ (codes "hi" ++ tag))
unfolding encrypt
encrypt_hi = refl

decrypt_short : decrypt prim encryptor (codes "short") ≡ panic
unfolding decrypt
decrypt_short = refl

decrypt-encrypt_example :
    (c : Bytes) × (encrypt prim encryptor nonce (codes "hi") ≡ ok c)
    × (length c ≡ 30)
    × (decrypt prim encryptor c ≡ ok (codes "hi"))
decrypt-encrypt_example =
    decrypt-encrypt prim encryptor encryptor nonce (codes "hi") refl refl (omega arith)

new_agree_over_example :
    (e : EncryptedSession net prim) × (Enc.new net prim
        (codes "k")
        sender
        (codes "saltsalt")
        (socket_with [])
      ≡ (ok e, record { incoming = []; sent = framed (codes "saltsalt"); writable = true }))
    × (Enc.new net prim
          (codes "k")
          reciever
          []
          (socket_with (framed (codes "saltsalt") ++ codes "x"))
        ≡ (ok e, socket_with (codes "x")))
new_agree_over_example =
    new_agree_over net prim (codes "k") (codes "saltsalt") [] (codes "x") (socket_with [])
      (socket_with []) refl refl

read-write_example :
    (c : Bytes) × (Enc.write net prim (Wire.write net) session nonce (codes "hi") (socket_with [])
      ≡ (ok tt, record { incoming = []; sent = framed c; writable = true }))
    × (Enc.read net prim (Wire.read net) session (socket_with (framed c ++ codes "x"))
        ≡ (ok (codes "hi"), socket_with (codes "x")))
read-write_example =
    read-write net prim session session nonce (codes "hi") (codes "x") (socket_with [])
      (socket_with []) refl refl (omega arith) (omega arith) refl
