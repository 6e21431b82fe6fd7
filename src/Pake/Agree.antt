-- ===== src/Pake/Agree.antt =====
-- The two sides of the negotiation end up with one key.
use rust_croc.Common.{◌^◌, ◌<◌, ◌≡◌, true, none, ◌++◌, length, Bytes, ok}
use rust_croc.Std.Utf8.{from_utf8}
use rust_croc.Net.{Net, Socket}
use rust_croc.Wire.RoundTrip.{framed, write_lem, read-framed}
use rust_croc.Enc.{sender, reciever}
use rust_croc.Pake.{PakeCrate, read_pub_key, write_pub_key, negotiate_symmetric_key}

module _ (net : Net) (pake : PakeCrate)
    (short : (p : pake.PubKey) → length (pake.json.text p) < 2 ^ 32) where
  open pake use {json, new, pub_pake, agree}

  read_pub_key_lem :
      (p : pake.PubKey) (rest : Bytes) (s : Socket)
      → read_pub_key net pake (record s { incoming = framed (json.text p) ++ rest })
        ≡ (ok p, record s { incoming = rest })
  unfolding read_pub_key from_utf8
  read_pub_key_lem p rest s =
      rw (read-framed net (json.text p) rest s (short p), json.text-utf8 p, json.from_str-text p)

  write_pub_key_lem :
      (key : pake.Key) (s : Socket)
      → s.writable ≡ true
      → write_pub_key net pake key s
        ≡ (ok tt, record s { sent = s.sent ++ framed (json.text (pub_pake key)) })
  unfolding write_pub_key
  write_pub_key_lem key s w =
      rw (json.to_string_lem (pub_pake key))
        (write_lem net (json.text (pub_pake key)) s (short (pub_pake key)) w)

  -- Both sides, whatever comes behind the messages.
  pub negotiate_any :
      (random random' : Bytes)
      → (p : Bytes) × (q : Bytes) × (strong : Bytes) × ((rest : Bytes) (a : Socket)
          → a.writable ≡ true
          → negotiate_symmetric_key net pake sender random
              (record a { incoming = framed q ++ rest })
            ≡ (ok strong, record a { incoming = rest; sent = a.sent ++ framed p }))
        × ((rest : Bytes) (b : Socket)
            → b.writable ≡ true
            → negotiate_symmetric_key net pake reciever random'
                (record b { incoming = framed p ++ rest })
              ≡ (ok strong, record b { incoming = rest; sent = b.sent ++ framed q }))
  unfolding negotiate_symmetric_key
  negotiate_any random random' =
      let mine = new sender none random in
      let (a', b', strong, first, second, got, got') = agree none random random' in
      let p = json.text (pub_pake mine) in
      let q = json.text (pub_pake b') in
      (
        p,
        q,
        strong,
        λ rest a w. rw (
          write_pub_key_lem mine (record a { incoming = framed q ++ rest }) w,
          read_pub_key_lem (pub_pake b') rest (record a { sent = a.sent ++ framed p }),
          second,
          got,
        ),
        λ rest b w. rw (
          read_pub_key_lem (pub_pake mine) rest b,
          first,
          write_pub_key_lem b' (record b { incoming = rest }) w,
          got',
        ),
      )

  -- Where public keys have texts that fit a frame, a sender and a receiver with the same weak key
  -- on sockets that take bytes have one message each, such that negotiate_symmetric_key of each,
  -- reading the other's, sends its own and gives the same strong key, and leaves what came behind.
  pub negotiate_agree :
      (random random' rest rest' : Bytes) (a b : Socket)
      → a.writable ≡ true
      → b.writable ≡ true
      → (p : Bytes) × (q : Bytes) × (strong : Bytes) × (negotiate_symmetric_key net pake sender
            random
            (record a { incoming = framed q ++ rest })
          ≡ (ok strong, record a { incoming = rest; sent = a.sent ++ framed p }))
        × (negotiate_symmetric_key net pake reciever random'
              (record b { incoming = framed p ++ rest' })
            ≡ (ok strong, record b { incoming = rest'; sent = b.sent ++ framed q }))
  negotiate_agree random random' rest rest' a b wa wb =
      let (p, q, strong, first, second) = negotiate_any random random' in
      (p, q, strong, first rest a wa, second rest' b wb)
