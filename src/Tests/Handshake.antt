-- ===== src/Tests/Handshake.antt =====
-- A toy key exchange and JSON, and the handshake of a client with a relay.
use rust_croc.Common.{
  ◌<◌, ◌≡◌, refl, true, false, Option, none, some, [], ◌∷◌, ◌++◌, length, Bytes, ok, beq, codes,
  arith,
}
use rust_croc.Std.Utf8.{is_utf8}
use rust_croc.Std.Str
use rust_croc.Std.Str.{trim}
use rust_croc.Wire.RoundTrip.{framed}
use rust_croc.Json.{Json}
use rust_croc.Enc.{sender, reciever}
use rust_croc.Pake.{PakeCrate, negotiate_symmetric_key}
use rust_croc.Pake.Agree.{negotiate_agree}
use rust_croc.Server.{
  Room, is_full, is_running, stop, Rooms, lookup, insert, remove, Serving, Config, banner,
}
use rust_croc.Server
use rust_croc.Server.Negotiate.{IsReady}
use rust_croc.Client.{RelayClient, Random}
use rust_croc.Client.Runs.{IsClient}
use rust_croc.Client.Handshake.{Served, handshake, settled}
use rust_croc.Tests.Net.{net, socket_with}
use rust_croc.Tests.Crypto.{prim, nonce}
use rust_croc.Net.{Socket}

-- A type with one value, whose text is "{}".
pub braces-utf8 : is_utf8 [] (codes "{}") ≡ true
unfolding is_utf8
braces-utf8 = refl

abbrev pub unit_json : Json (Unit {0})
unit_json = record {
  to_string = λ _. ok (codes "{}");
  from_str = λ _. ok tt;
  from_slice = λ _. ok tt;
  text = λ _. codes "{}";
  to_string_lem = λ _. refl;
  from_str-text = λ _. refl;
  from_slice-text = λ _. refl;
  text-utf8 = λ _. braces-utf8;
}

-- A key is the strong key that it will be; an update makes it known.
abbrev pub pake : PakeCrate
pake = record {
  Key = Option Bytes;
  PubKey = Unit {0};
  new = λ role weak random. none;
  pub_pake = λ _. tt;
  update = λ _ _. ok (some (codes "strong"));
  k = λ key. key;
  json = unit_json;
  agree = λ weak random random'.
      (some (codes "strong"), some (codes "strong"), codes "strong", refl, refl, refl, refl);
}

negotiate_agree_example :
    (p : Bytes) × (q : Bytes) × (strong : Bytes) × (negotiate_symmetric_key net pake sender []
        (socket_with (framed q ++ codes "y"))
      ≡ (ok strong, record { incoming = codes "y"; sent = framed p; writable = true }))
    × (negotiate_symmetric_key net pake reciever [] (socket_with (framed p ++ codes "x"))
        ≡ (ok strong, record { incoming = codes "x"; sent = framed q; writable = true }))
negotiate_agree_example =
    negotiate_agree net pake (λ p. omega arith) [] [] (codes "y") (codes "x") (socket_with [])
      (socket_with []) refl refl

-- A relay with one free port, and one client in room "123".
abbrev pub config : Config
config = record {
  relay_password = codes " pass123\n";
  multiplex_ports = 9010 ∷ [];
  now = 7;
  denial_nonce = nonce;
  banner_nonce = nonce;
  answer_nonce = nonce;
}

abbrev pub waiting : Room
waiting = record { first = some (socket_with []); second = none; handle = none; opened = 3 }

abbrev pub serving : Serving
serving = record { session = socket_with []; rooms = (codes "123", waiting) ∷ [] }

abbrev pub addr : Bytes
addr = codes "10.0.0.7:52110"

banner_text : banner config.multiplex_ports addr ≡ codes "9010|||10.0.0.7:52110"
unfolding banner Str.join Str.to_string
banner_text = refl

pub ready : IsReady prim config addr
unfolding banner Str.join Str.to_string
ready = record {
  denial = refl;
  greeting = refl;
  answering = refl;
  room = omega arith;
  takes = omega arith;
  fits = omega arith;
}

abbrev pub random : Random
random = record { pake = []; salt = codes "saltsalt"; password_nonce = nonce; room_nonce = nonce }

pub a-IsClient :
    (password : Bytes)
    → is_utf8 [] password ≡ true
    → length password < 99
    → IsClient net prim random password (codes "123")
unfolding is_utf8
a-IsClient password text short = record {
  salt = refl;
  nonce = refl;
  nonce' = refl;
  password_text = text;
  room_text = refl;
  password_takes = omega arith;
  password_fits = omega arith;
  room_takes = omega arith;
  room_fits = omega arith;
}

pub right_password : is_utf8 [] (codes "pass123") ≡ true
unfolding is_utf8
right_password = refl

pub addr_text : is_utf8 [] addr ≡ true
unfolding is_utf8
addr_text = refl

abbrev fresh : RelayClient
fresh = record {
  stream = socket_with [];
  relay_ports = [];
  external_ip = none;
  disable_local = false;
  shared_secret = codes "12345";
}

-- The second client of the room is let in, and takes the second place.
handshake_example :
    (hello : Bytes) × (greeting : Bytes) × ((rest : Bytes)
      → let t : Socket = record { incoming = rest; sent = greeting; writable = true } in
        Server.negotiate_info net prim config
          (codes "k")
          (ok addr)
          (record { session = socket_with (hello ++ rest); rooms = (codes "123", waiting) ∷ [] })
        ≡ (
          ok (some (codes "123")),
          record { session = t; rooms = (codes "123", record waiting { second = some t }) ∷ [] },
        ))
    × ((rest : Bytes)
        → Served net prim config random
            (codes "k")
            (codes "pass123")
            (codes "123")
            (greeting ++ rest)
            (some waiting)
            fresh
            (settled config addr hello rest fresh))
unfolding lookup insert is_full beq
handshake_example =
    handshake net prim config random (codes "k") (codes "pass123") (codes "123") addr
      (a-IsClient (codes "pass123") right_password (omega arith)) addr_text (omega arith) serving
      fresh ready refl refl
