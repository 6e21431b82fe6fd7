-- ===== src/Client/Connected.antt =====
-- What `connect` leaves behind when it ends well, and what follows from it.
use rust_croc.Common.{
  ◌≡◌, refl, Bool, Option, some, List, length, get_elem?, Bytes, Outcome, ok, err, panic, Post,
  Post-of, Post-after, Post-ok, Post-fail, Post-if, Post-lift, unwrap, beq, codes, ltb, Bool-cases,
  inl, inr, bad_response, room_full, room_negotiation_failed,
}
use rust_croc.Std.Utf8.{from_utf8}
use rust_croc.Std.Str.{split, split_first, contains}
use rust_croc.Net.{Net, Socket}
use rust_croc.Crypto.{Primitives}
use rust_croc.Enc.{EncryptedSession, sender}
use rust_croc.Enc
use rust_croc.Pake.{PakeCrate, negotiate_symmetric_key}
use rust_croc.Client.{
  RelayClient, Random, on_stream, tell, hear, take_banner, take_answer, negotiate_info, negotiate,
  connected_as, connect_over, connect,
}
use rust_croc.Std.Slice.{str_prefix}

-- A client with this secret; and one that has an address and a port of the relay as well.
abbrev pub HasSecret : Bytes → RelayClient → Type 0
HasSecret secret c = c.shared_secret ≡ secret

pub record Connected (secret shared_secret : Bytes) (external_ip : Option Bytes)
    (relay_ports : List Bytes) : Type 0 where
  pub kept : shared_secret ≡ secret
  pub ip : Bytes
  pub told : external_ip ≡ some ip
  pub port : Bytes
  pub first : get_elem? relay_ports 0 ≡ some port

abbrev pub IsConnected : Bytes → RelayClient → Type 0
IsConnected secret c = Connected secret c.shared_secret c.external_ip c.relay_ports

module _ (net : Net) (prim : Primitives) (secret : Bytes) where
  abbrev S : RelayClient → Type 0
  S = HasSecret secret

  abbrev C : RelayClient → Type 0
  C = IsConnected secret

  banner-IsConnected :
      (message : Bytes) (c : RelayClient) → S c → Post C (take_banner net prim message c)
  unfolding take_banner
  banner-IsConnected message c h =
      Post-lift C (unwrap (get_elem? (split (codes "|||") message) 0)) c _ λ banner _.
        Post-lift C (unwrap (get_elem? (split (codes "|||") message) 1)) c _ λ ip _.
          let (port, first) = split_first (codes ",") banner in
          Post-ok C tt (record c { external_ip = some ip; relay_ports = split (codes ",") banner })
            (record { kept = h; ip = ip; told = refl; port = port; first = first })

  answer-IsConnected :
      (room response : Bytes) (c : RelayClient)
      → C c
      → Post C (take_answer net prim room response c)
  unfolding take_answer
  answer-IsConnected room response c h =
      Post-if C (beq response (codes "ok")) _ _ c (λ _. Post-ok C tt c h)
        (λ _.
          Post-if C (beq response (codes "room full")) _ _ c (λ _. Post-fail _ C (room_full room) c)
            (λ _. Post-fail _ C room_negotiation_failed c))

  info-IsConnected :
      (random : Random) (key password room : Bytes) (c : RelayClient)
      → S c
      → Post C (negotiate_info net prim random key password room c)
  unfolding negotiate_info
  info-IsConnected random key password room c h =
      let first = on_stream (Enc.new net prim key sender random.salt) c in
      Post-after S C first _ (Post-of S first h) λ enc s k.
        let second = tell net prim enc random.password_nonce password s in
        Post-after S C second _ (Post-of S second k) λ _ t l.
          let third = hear net prim enc t in
          Post-after S C third _ (Post-of S third l) λ bs u m.
            Post-lift C (from_utf8 bs) u _ λ message _.
              Post-if C (contains (codes "|||") message) _ _ u
                (λ _.
                  Post-after C C (take_banner net prim message u) _ (banner-IsConnected message u m)
                    λ _ v n.
                      let fourth = tell net prim enc random.room_nonce room v in
                      Post-after C C fourth _ (Post-of C fourth n) λ _ w o.
                        let fifth = hear net prim enc w in
                        Post-after C C fifth _ (Post-of C fifth o)
                          λ response x q. answer-IsConnected room response x q)
                (λ _. Post-fail _ C (bad_response message) u)

  negotiate-IsConnected :
      (pake : PakeCrate) (random : Random) (password shared_secret : Bytes) (c : RelayClient)
      → S c
      → Post C (negotiate net prim pake random password shared_secret c)
  unfolding negotiate
  negotiate-IsConnected pake random password shared_secret c h =
      let first = on_stream (negotiate_symmetric_key net pake sender random.pake) c in
      Post-after S C first _ (Post-of S first h) λ key s k.
        Post-lift C (str_prefix 3 shared_secret) s _
          λ room _. info-IsConnected random key password room s k

  -- The client of a chain that ends well.
  connected_as-IsConnected :
      (p : Outcome (Unit {0}) × RelayClient) (d : RelayClient)
      → connected_as net prim p ≡ ok d
      → Post C p
      → C d
  unfolding connected_as Post
  connected_as-IsConnected (ok _, c) d e h = let same : c ≡ d = cc in rw (← same) h
  connected_as-IsConnected (err x, c) d e h = cc
  connected_as-IsConnected (panic, c) d e h = cc

  over-IsConnected :
      (pake : PakeCrate) (random : Random) (connected : Outcome Socket) (password : Bytes)
      (disable_local : Bool) (d : RelayClient)
      → connect_over net prim pake random connected password secret disable_local ≡ ok d
      → C d
  unfolding connect_over
  over-IsConnected pake random (ok s) password disable_local d e =
      connected_as-IsConnected _ d e (negotiate-IsConnected pake random password secret _ refl)
  over-IsConnected pake random (err x) password disable_local d e = absurd cc
  over-IsConnected pake random panic password disable_local d e = absurd cc

  -- Whatever the relay sends: if connect ends well, the client keeps its secret, has been told its
  -- address, and has at least one port of the relay.
  pub connect-IsConnected :
      (pake : PakeCrate) (random : Random) (connected : Outcome Socket) (password : Bytes)
      (disable_local : Bool) (d : RelayClient)
      → connect net prim pake random connected password secret disable_local ≡ ok d
      → C d
  unfolding connect
  connect-IsConnected pake random connected password disable_local d e =
      elim (Bool-cases (ltb (length secret) 4)) [
        | inl short ↦ let wrong = rw short at e in absurd cc
        | inr long ↦ over-IsConnected pake random connected password disable_local d (rw long at e)
      ]
