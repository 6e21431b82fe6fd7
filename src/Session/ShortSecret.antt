-- ===== src/Session/ShortSecret.antt =====
-- A secret of four bytes, which `connect` takes and `process_client` does not.
use rust_croc.Common.{
  ◌<◌, ◌≡◌, refl, ap, ◌∙◌, false, Bool, Option, some, List, length, get_elem?, Bytes, Outcome, ok,
  err, panic, lt→ltb, arith,
}
use rust_croc.Net.{Net, Socket}
use rust_croc.Crypto.{Primitives}
use rust_croc.Pake.{PakeCrate}
use rust_croc.Json.{Json}
use rust_croc.Files.{FileOps}
use rust_croc.Msg.{FilesInformation, Message, Desktop}
use rust_croc.Client.{RelayClient, Random, connect}
use rust_croc.Client.Connected.{connect-IsConnected}
use rust_croc.Session.{ClientSession, from_client, from_greeted, connect_to_sender}
use rust_croc.Session.Files.{Disk, Running}
use rust_croc.Session.Loop
use rust_croc.Session.Loop.{need_port, need_secret, process_client}
use rust_croc.Std.Slice.{bytes_suffix}

module _ (net : Net) (prim : Primitives) (pake : PakeCrate) (json : Json Message) where
  -- The session has the ports and the secret of the client.
  from_client-keeps :
      (sends : Bool) (c : RelayClient) (s : ClientSession net prim pake) (ip : Bytes)
      → c.external_ip ≡ some ip
      → from_client net prim pake json sends c ≡ ok s
      → (s.relay_ports ≡ c.relay_ports) × (s.shared_secret ≡ c.shared_secret)
  unfolding from_client
  from_client-keeps sends c s ip told e = let made = rw told at e in (cc, cc)

  from_greeted-keeps :
      (p : Outcome (Unit {0}) × RelayClient) (s : ClientSession net prim pake) (ip : Bytes)
      → p.1.external_ip ≡ some ip
      → from_greeted net prim pake json p ≡ ok s
      → (s.relay_ports ≡ p.1.relay_ports) × (s.shared_secret ≡ p.1.shared_secret)
  unfolding from_greeted
  from_greeted-keeps (ok _, c) s ip told e = from_client-keeps false c s ip told e
  from_greeted-keeps (err x, c) s ip told e = absurd cc
  from_greeted-keeps (panic, c) s ip told e = absurd cc

  module _ (d : Desktop) (disk : Disk d.World) (fs : FileOps) where
    short_run :
        (files : Option FilesInformation) (net_task : Outcome (List Bytes)) (random : Bytes)
        (rounds : List Loop.Random) (r : Running net prim pake json d disk fs) (port : Bytes)
        → get_elem? r.session.relay_ports 0 ≡ some port
        → length r.session.shared_secret < 5
        → (process_client net prim pake json d disk fs files net_task random rounds r).0 ≡ panic
    unfolding process_client need_port need_secret bytes_suffix
    short_run files net_task random rounds r port has_port short =
        rw (has_port, lt→ltb (length r.session.shared_secret) 5 short) refl

    -- Whatever the relay sends: if connect takes a secret of four bytes, and connect_to_sender
    -- makes a session of that client, then process_client of that session panics.
    pub short_secret_panics :
        (draw : Random) (connected : Outcome Socket) (password secret : Bytes)
        (disable_local : Bool) (c : RelayClient) (r : Running net prim pake json d disk fs)
        (files : Option FilesInformation) (net_task : Outcome (List Bytes)) (random : Bytes)
        (rounds : List Loop.Random)
        → length secret ≡ 4
        → connect net prim pake draw connected password secret disable_local ≡ ok c
        → connect_to_sender net prim pake json c ≡ ok r.session
        → (process_client net prim pake json d disk fs files net_task random rounds r).0 ≡ panic
    unfolding connect_to_sender
    short_secret_panics draw connected password secret disable_local c r files net_task random
          rounds short e e' =
        let made =
          connect-IsConnected net prim secret pake draw connected password disable_local c e in
        let (ports, same) = from_greeted-keeps _ r.session made.ip made.told e' in
        short_run files net_task random rounds r made.port
          (ap (λ ps. get_elem? ps 0) ports ∙ made.first)
          (rw (same ∙ made.kept) (omega (arith, short)))
