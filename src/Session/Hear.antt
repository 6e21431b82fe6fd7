-- ===== src/Session/Hear.antt =====
-- One round of `process_client` with a message that comes in.
use rust_croc.Common.{
  ◌^◌, ◌<◌, ◌≡◌, refl, true, false, Option, List, ◌∷◌, ◌++◌, length, Bytes, ok, after,
}
use rust_croc.Std.Utf8.{from_utf8}
use rust_croc.Net.{Net, Socket}
use rust_croc.Wire.RoundTrip.{framed, read-framed}
use rust_croc.Crypto.{Primitives}
use rust_croc.Pake.{PakeCrate}
use rust_croc.Json.{Json}
use rust_croc.Files.{FileOps}
use rust_croc.Msg.{FilesInformation, Message, Desktop}
use rust_croc.Msg
use rust_croc.Session.Files.{Disk, Running}
use rust_croc.Session.Loop.{
  Random, receive_message, on_message, go_on, client_round, client_loop, unless_done,
}

module _ (net : Net) (prim : Primitives) (pake : PakeCrate) (json : Json Message) (d : Desktop)
    (disk : Disk d.World) (fs : FileOps) where
  abbrev Client : Type 0
  Client = Running net prim pake json d disk fs

  -- A client to which these bytes will come in.
  abbrev pub hearing : Bytes → Client → Client
  hearing bs c = record c {
    session = record c.session { stream = record c.session.stream { incoming = bs } };
  }

  recv_lem :
      (m : Message) (rest : Bytes) (t : Socket)
      → length (json.text m) < 2 ^ 32
      → Msg.recv net json (record t { incoming = framed (json.text m) ++ rest })
        ≡ (ok m, record t { incoming = rest })
  unfolding Msg.recv from_utf8
  recv_lem m rest t short =
      rw (read-framed net (json.text m) rest t short, json.text-utf8 m, json.from_str-text m) refl

  -- The message is handled, and the rest of the round follows.
  pub client_round-hearing :
      (files : Option FilesInformation) (random : Random) (m : Message) (rest : Bytes) (c : Client)
      → length (json.text m) < 2 ^ 32
      → client_round net prim pake json d disk fs files random
          (hearing (framed (json.text m) ++ rest) c)
        ≡ after
            (on_message net prim pake json d disk fs files random m (hearing rest c))
            (go_on net prim pake json d disk fs files)
  unfolding client_round receive_message
  client_round-hearing files random m rest c short =
      rw (recv_lem m rest c.session.stream short) refl

  -- A round that does not end the loop, and one that does.
  pub client_loop-goes :
      (files : Option FilesInformation) (random : Random) (more : List Random) (c c' : Client)
      → client_round net prim pake json d disk fs files random c ≡ (ok false, c')
      → client_loop net prim pake json d disk fs files (random ∷ more) c
        ≡ client_loop net prim pake json d disk fs files more c'
  unfolding client_loop unless_done
  client_loop-goes files random more c c' h = rw h refl

  pub client_loop-ends :
      (files : Option FilesInformation) (random : Random) (more : List Random) (c c' : Client)
      → client_round net prim pake json d disk fs files random c ≡ (ok true, c')
      → client_loop net prim pake json d disk fs files (random ∷ more) c ≡ (ok true, c')
  unfolding client_loop unless_done
  client_loop-ends files random more c c' h = rw h refl
