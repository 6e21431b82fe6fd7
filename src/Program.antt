-- ===== src/Program.antt =====
-- src/main.rs: a sender and a receiver, each from its connection to the relay to the end of its
-- session.
pub mod Transfer
pub mod Relay
pub mod Relayed
pub mod Main
pub mod Data
pub mod Whole
use rust_croc.Common.{
  ℕ, Bool, true, false, Option, none, some, List, [], ◌∷◌, Bytes, Outcome, ok, err, panic, codes,
}
use rust_croc.Net.{Net, Socket}
use rust_croc.Crypto.{Primitives}
use rust_croc.Pake.{PakeCrate}
use rust_croc.Json.{Json}
use rust_croc.Files.{FileOps}
use rust_croc.Client.{RelayClient, Interface, connect}
use rust_croc.Client
use rust_croc.Msg.{FileInfo, FilesInformation, Message, Desktop}
use rust_croc.Session.{ClientSession, connect_to_sender, wait_for_receiver}
use rust_croc.Session.Files.{Disk, Running}
use rust_croc.Session.Loop.{Random, process_client}

-- The one file of the sender, with the length that its metadata has.
unfoldable pub offered : ℕ → FilesInformation
offered len = record {
  files_to_transfare = some (
      record {
        name = codes "a.txt";
        remote_folder = codes "./";
        source_folder = codes "../";
        hash = 1 ∷ 2 ∷ 3 ∷ [];
        size = len;
        modification_time = codes "2021-01-01";
        is_compressed = false;
        is_encrypted = false;
        symlink = [];
        mode = 3;
        temp_file = false;
      }
      ∷ []);
  empty_folders_to_transfare = some [];
  total_folders_number = 0;
  machine_id = codes "123";
  ask = false;
  sending_text = false;
  no_compress = true;
  hash_algorithm = codes "sha256";
}

-- `metadata().unwrap().len()`
unfoldable pub measured : Outcome ℕ → Outcome FilesInformation
unfolding offered
measured (ok len) = ok (offered len)
measured (err e) = panic
measured panic = panic

module _ (net : Net) (prim : Primitives) (pake : PakeCrate) (json : Json Message) (d : Desktop)
    (disk : Disk d.World) (fs : FileOps) where
  -- The machine, what the connection for data comes to, and the randomness of a session.
  pub record Setting : Type 0 where
    pub world : d.World
    pub net_task : Outcome (List Bytes)
    pub random : Bytes
    pub rounds : List Random

  -- A session whose process_client is called.
  abbrev pub begun : d.World → ClientSession net prim pake → Running net prim pake json d disk fs
  begun world s = record {
    session = s;
    world = world;
    rw = none;
    requests = [];
    reading = true;
    incoming = [];
    received = [];
  }

  -- How a program ends, and its session, if it has come to that.
  abbrev pub End : Type 0
  End = Outcome Bool × Option (Running net prim pake json d disk fs)

  -- `process_client(..).await?`
  unfoldable pub serve : Option FilesInformation → Setting → ClientSession net prim pake → End
  serve files g s =
      let (r, c) =
        process_client net prim pake json d disk fs files g.net_task g.random g.rounds
          (begun g.world s) in
      (r, some c)

  -- The files are put together once the receiver is there.
  unfoldable pub serve_files :
      Outcome FilesInformation → Setting → ClientSession net prim pake → End
  unfolding serve
  serve_files (ok files) g s = serve (some files) g s
  serve_files (err e) g s = (err e, none)
  serve_files panic g s = (panic, none)

  unfoldable pub serve_waited :
      Outcome FilesInformation → Setting → Outcome (Option (ClientSession net prim pake)) → End
  unfolding serve_files
  serve_waited files g (ok (some s)) = serve_files files g s
  serve_waited files g (ok none) = (ok false, none)
  serve_waited files g (err e) = (err e, none)
  serve_waited files g panic = (panic, none)

  unfoldable pub serve_greeted : Setting → Outcome (ClientSession net prim pake) → End
  unfolding serve
  serve_greeted g (ok s) = serve none g s
  serve_greeted g (err e) = (err e, none)
  serve_greeted g panic = (panic, none)

  -- The sender with its client: it waits for the receiver, for at most so many messages.
  unfoldable pub send_by :
      Json (List Bytes)
      → List Interface
      → ℕ
      → Outcome FilesInformation
      → Setting
      → Outcome RelayClient
      → End
  unfolding serve_waited
  send_by texts interfaces fuel files g (ok c) =
      serve_waited files g (wait_for_receiver net prim pake json texts interfaces fuel c)
  send_by texts interfaces fuel files g (err e) = (err e, none)
  send_by texts interfaces fuel files g panic = (panic, none)

  -- The receiver with its client.
  unfoldable pub receive_by : Setting → Outcome RelayClient → End
  unfolding serve_greeted
  receive_by g (ok c) = serve_greeted g (connect_to_sender net prim pake json c)
  receive_by g (err e) = (err e, none)
  receive_by g panic = (panic, none)

  -- `sender` and `receiver` of `main`, on what the connection to the relay comes to.
  unfoldable pub sender :
      Json (List Bytes)
      → List Interface
      → ℕ
      → Outcome ℕ
      → Setting
      → Client.Random
      → Outcome Socket
      → End
  unfolding send_by measured
  sender texts interfaces fuel metadata g draw connected =
      send_by texts interfaces fuel (measured metadata) g
        (connect net prim pake draw connected (codes "pass123") (codes "12345") false)

  unfoldable pub receiver : Setting → Client.Random → Outcome Socket → End
  unfolding receive_by
  receiver g draw connected =
      receive_by g (connect net prim pake draw connected (codes "pass123") (codes "12345") false)
