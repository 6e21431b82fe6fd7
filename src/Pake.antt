-- ===== src/Pake.antt =====
-- src/proto/croc_raw.rs: `CrocProto::negotiate_symmetric_key`, over the crate `rust-pake`.
pub mod Agree
use rust_croc.Common.{
  ◌+◌, ◌≡◌, Option, none, some, Bytes, Outcome, ok, Act, ◌>>=◌, ◌>>◌, lift, ok_or,
  key_negotiation_failiure,
}
use rust_croc.Std.Utf8.{from_utf8}
use rust_croc.Net.{Net, Socket}
use rust_croc.Wire.{write, read}
use rust_croc.Enc.{Role, sender, reciever}
use rust_croc.Json.{Json}

-- `Pake` and `PakePubKey`: `new` with a role, a weak password and randomness, the public part, the
-- update with the other side's public part, and the strong key once there is one.
pub record PakeCrate : Type 1 where
  pub Key : Type 0
  pub PubKey : Type 0
  pub new : Role → Option Bytes → Bytes → Key
  pub pub_pake : Key → PubKey
  pub update : PubKey → Key → Outcome Key
  pub k : Key → Option Bytes
  pub json : Json PubKey
  -- With one weak password the protocol gives both sides one strong key.
  pub agree :
      (weak : Option Bytes) (random random' : Bytes)
      → let a = new sender weak random in
        let b = new reciever weak random' in
        (a' : Key) × (b' : Key) × (strong : Bytes) × (update (pub_pake a) b ≡ ok b')
        × (update (pub_pake b') a ≡ ok a')
        × (k a' ≡ some strong)
        × (k b' ≡ some strong)

module _ (net : Net) (pake : PakeCrate) where
  open pake use {Key, new, pub_pake, update, k, json}

  -- The public key that a `read` brings in.
  unfoldable pub read_pub_key : Act Socket pake.PubKey
  read_pub_key = do bs ← read net; text ← lift (from_utf8 bs); lift (json.from_str text)

  -- `serde_json::to_string(&key.pub_pake)?`, written.
  unfoldable pub write_pub_key : Key → Act Socket (Unit {0})
  write_pub_key key = do text ← lift (json.to_string (pub_pake key)); write net text

  unfoldable pub negotiate_symmetric_key : Role → Bytes → Act Socket Bytes
  unfolding read_pub_key write_pub_key
  negotiate_symmetric_key sender random =
      let a_key = new sender none random in
      do
        write_pub_key a_key
        b_key ← read_pub_key
        updated ← lift (update b_key a_key)
        lift (ok_or (k updated) key_negotiation_failiure)
  negotiate_symmetric_key reciever random =
      let b_key = new reciever none random in
      do
        a_key ← read_pub_key
        updated ← lift (update a_key b_key)
        write_pub_key updated
        lift (ok_or (k updated) key_negotiation_failiure)
