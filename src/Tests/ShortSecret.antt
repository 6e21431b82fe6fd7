-- ===== src/Tests/ShortSecret.antt =====
-- A client with a secret of four bytes.
use rust_croc.Common.{◌≡◌, refl, true, false, none, some, [], ◌∷◌, ◌++◌, Bytes, ok, panic, codes}
use rust_croc.Wire.RoundTrip.{framed}
use rust_croc.Client.{RelayClient, connect}
use rust_croc.Client.Connected.{IsConnected, connect-IsConnected}
use rust_croc.Session.{connect_to_sender, ClientSession, new}
use rust_croc.Session.Files.{Running}
use rust_croc.Session.Loop.{process_client}
use rust_croc.Session.ShortSecret.{short_secret_panics}
use rust_croc.Tests.Net.{net, socket_with}
use rust_croc.Tests.Crypto.{prim, nonce, tag}
use rust_croc.Tests.Handshake.{pake, random}
use rust_croc.Tests.Messages.{messages_json}
use rust_croc.Tests.Transfer.{files}
use rust_croc.Tests.Session.{desktop, disk}
use rust_croc.Std.Slice.{str_prefix}

-- What a relay with one port sends: a key, its banner, and that the room is free.
abbrev relay_says : Bytes
relay_says =
    framed (codes "{}")
    ++ (framed (nonce ++ (codes "9010|||1.2.3.4" ++ tag)) ++ framed (nonce ++ (codes "ok" ++ tag)))

abbrev client_says : Bytes
client_says =
    framed (codes "{}")
    ++ (framed (codes "saltsalt")
        ++ (framed (nonce ++ (codes "pass123" ++ tag)) ++ framed (nonce ++ (codes "123" ++ tag))))

abbrev client : RelayClient
client = record {
  stream = record { incoming = []; sent = client_says; writable = true };
  relay_ports = codes "9010" ∷ [];
  external_ip = some (codes "1.2.3.4");
  disable_local = false;
  shared_secret = codes "1234";
}

connected :
    connect net prim pake random
      (ok (socket_with relay_says))
      (codes "pass123")
      (codes "1234")
      false
    ≡ ok client
unfolding connect rust_croc.Client.connect_over rust_croc.Client.connected_as
    rust_croc.Client.negotiate rust_croc.Client.negotiate_info str_prefix
    rust_croc.Pake.negotiate_symmetric_key rust_croc.Wire.read rust_croc.Wire.write
    rust_croc.Wire.frame rust_croc.Enc.new rust_croc.Enc.read rust_croc.Enc.write
    rust_croc.Crypto.new rust_croc.Crypto.encrypt rust_croc.Crypto.decrypt
    rust_croc.Std.Utf8.from_utf8 rust_croc.Std.Utf8.is_utf8 rust_croc.Std.Str.contains
    rust_croc.Std.Str.split rust_croc.Common.beq rust_croc.Std.LeBytes.to_le_bytes
    rust_croc.Std.LeBytes.from_le_bytes
connected = refl

connect-IsConnected_example : IsConnected (codes "1234") client
connect-IsConnected_example =
    connect-IsConnected net prim (codes "1234") pake random (ok (socket_with relay_says))
      (codes "pass123") false client connected

abbrev session : ClientSession net prim pake
session = record {
  state = rust_croc.Session.key_exchange;
  stream = record {
    incoming = [];
    sent = client_says ++ framed (codes "handshake");
    writable = true;
  };
  relay_ports = codes "9010" ∷ [];
  encrypted_session = none;
  shared_secret = codes "1234";
  is_sender = false;
  external_ip = codes "1.2.3.4";
  peer_external_ip = none;
  key = none;
  files_to_receive = none;
}

greeted : connect_to_sender net prim pake messages_json client ≡ ok session
unfolding connect_to_sender new rust_croc.Wire.write rust_croc.Wire.frame
greeted = refl

abbrev running : Running net prim pake messages_json desktop disk files
running = record {
  session = session;
  world = true;
  rw = none;
  requests = [];
  reading = true;
  incoming = [];
  received = [];
}

short_secret_panics_example :
    (process_client net prim pake messages_json desktop disk files none (ok []) [] [] running).0
    ≡ panic
short_secret_panics_example =
    short_secret_panics net prim pake messages_json desktop disk files random
      (ok (socket_with relay_says)) (codes "pass123") (codes "1234") false client running none
      (ok []) [] [] refl connected greeted
