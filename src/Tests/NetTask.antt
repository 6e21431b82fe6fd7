-- ===== src/Tests/NetTask.antt =====
-- The connections for data of two clients.
use rust_croc.Common.{◌≡◌, refl, none, [], replicate, beq, codes, arith}
use rust_croc.Std.Utf8.{is_utf8}
use rust_croc.Std.Str.{trim}
use rust_croc.Server.{lookup}
use rust_croc.Client.Meeting.{CanJoin}
use rust_croc.Session.NetTask.{Sha256, hex_digit, hex}
use rust_croc.Session.NetTask.Meeting.{data_room}
use rust_croc.Tests.Net.{net}
use rust_croc.Tests.Crypto.{prim}
use rust_croc.Tests.Handshake.{pake, config, addr, ready, random, right_password, addr_text}

hex_abc : hex (codes "abz") ≡ codes "61627a"
unfolding hex hex_digit
hex_abc = refl

-- A hash that is the same for all.
abbrev pub sha256 : Sha256
sha256 = record {
  digest = λ bs. replicate 32 0x7f;
  length-digest = λ bs. refl;
  digest-IsBytes = λ bs. omega arith;
}

room_here : data_room net prim pake sha256 (codes "12345-abc") ≡ codes "7f7"
unfolding hex hex_digit
room_here = refl

pub joins :
    CanJoin net prim config random
      (codes "pass123")
      (data_room net prim pake sha256 (codes "12345-abc"))
      addr
unfolding trim beq is_utf8 hex hex_digit
joins = record {
  right = refl;
  client = record {
    salt = refl;
    nonce = refl;
    nonce' = refl;
    password_text = right_password;
    room_text = refl;
    password_takes = omega arith;
    password_fits = omega arith;
    room_takes = omega arith;
    room_fits = omega arith;
  };
  text = addr_text;
  bars = omega arith;
  ready = ready;
}

pub no_room : lookup (data_room net prim pake sha256 (codes "12345-abc")) [] ≡ none
unfolding lookup
no_room = refl
