-- ===== src/Program/Main.antt =====
-- src/main.rs: the programs of `main` as they stand, over a relay.
use rust_croc.Common.{
  ℕ, ◌^◌, ◌+◌, ◌<◌, ◌≤◌, ◌≡◌, refl, ◌∙◌, true, false, none, some, List, [], ◌∷◌, ◌++◌, append-nil,
  map, length, Bytes, ok, codes, arith,
}
use rust_croc.Std.Path
use rust_croc.Net.{Net}
use rust_croc.Crypto.{Primitives}
use rust_croc.Pake.{PakeCrate}
use rust_croc.Json.{Json}
use rust_croc.Files.{File, FileOps}
use rust_croc.Transfer.{tcp_buffer_size, send_file_chunks}
use rust_croc.Server.{Rooms, lookup, Config}
use rust_croc.Server.Keepalive.{pings}
use rust_croc.Client
use rust_croc.Client.{Interface, local_ips}
use rust_croc.Client.Meeting.{CanJoin}
use rust_croc.Msg.{FileInfo, Message, Desktop, question}
use rust_croc.Session.Files.{Disk, Running}
use rust_croc.Session.Loop.{Random}
use rust_croc.Session.Taking.{outcome_of}
use rust_croc.Session.Delivery.{Delivers}
use rust_croc.Session.EndToEnd.{AllFit, agreed}
use rust_croc.Program.{offered, measured, sender, receiver}
use rust_croc.Program.Relay.{Ends, made, RelayRun}
use rust_croc.Program.Transfer.{sending_from, receiving_from}
use rust_croc.Program.Relayed.{relayed_transfer}
use rust_croc.Enc.{EncryptedSession}
use rust_croc.Std.Slice.{str_prefix, str_suffix}

-- The file that the sender offers.
abbrev pub a_txt : ℕ → FileInfo
a_txt len = record {
  name = codes "a.txt";
  remote_folder = codes "./";
  source_folder = codes "../";
  hash = 1 ∷ 2 ∷ 3 ∷ [];
  size = len;
  modification_time = codes "2021-01-01";
  is_compressed = false;
  is_encrypted = false;
  symlink = [];
  mode = 3;
  temp_file = false;
}

module _ (net : Net) (prim : Primitives) (pake : PakeCrate) (json : Json Message) (d : Desktop)
    (disk : Disk d.World) (fs : FileOps) where
  abbrev Party : Type 0
  Party = Running net prim pake json d disk fs

  -- The file's encryption under what the two draw.
  abbrev pub key : (file : File) (random random' salt : Bytes) → EncryptedSession net prim
  key file random random' salt =
      agreed net prim pake json d disk fs (offered (length file.contents))
        (a_txt (length file.contents) ∷ []) (λ p. file) [] random random' salt

  module _ (file : File) (config config' : Config) (draw draw' : Client.Random)
      (theirs theirs' addr addr' : Bytes) (amount amount' n : ℕ) (x y : Ends) where
    -- The programs find each other in room 123, with a secret that has nothing behind its fifth byte.
    pub main_transfers :
        (rooms : Rooms) (texts : Json (List Bytes)) (interfaces : List Interface) (ips : List Bytes)
        (fuel : ℕ) (random random' salt next_key : Bytes) (world world' : d.World)
        (arrived incoming : List Bytes) (next r1 r2 r3 r4 : Random) (rounds rounds' : List Random)
        → ((p : pake.PubKey) → length (pake.json.text p) < 2 ^ 32)
        → CanJoin net prim config draw (codes "pass123") (codes "123") addr
        → CanJoin net prim config' draw' (codes "pass123") (codes "123") addr'
        → lookup (codes "123") rooms ≡ none
        → length (pings n) < fuel
        → local_ips net texts interfaces
            (made net prim pake config addr (codes "12345") false x.client [])
          ≡ ok ips
        → length (texts.text ips) < 2 ^ 32
        → length file.contents < 2 ^ 63
        → disk.open_ (codes "../a.txt") world' ≡ (ok file, world')
        → ((w : d.World) → (disk.create (codes "./a.txt") w).0 ≡ ok tt)
        → (question d (offered (length file.contents)) world).0 ≡ ok true
        → AllFit net prim pake json d disk fs
            (receiving_from net prim pake json d disk fs world addr'
              (made net prim pake config' addr' (codes "12345") false y.client []))
            (sending_from net prim pake json d disk fs world' addr
              (made net prim pake config addr (codes "12345") false x.client []))
            (offered (length file.contents))
            salt
            1
        → length salt ≡ 8
        → 8 + tcp_buffer_size ≤ prim.limit
        → Delivers net prim fs (key file random random' salt) file arrived
        → 1 < length rounds'
        → (said : Bytes) × (heard : Bytes) × (said' : Bytes) × (heard' : Bytes) × (s : Party)
          × (r : Party) × RelayRun net prim pake config config'
              (codes "123")
              theirs
              theirs'
              addr
              addr'
              amount
              amount'
              n
              x
              y
              rooms
              said
              heard
              said'
              heard'
          × (sender net prim pake json d disk fs texts interfaces fuel
                (ok (length file.contents))
                (record {
                  world = world';
                  net_task = ok incoming;
                  random = next_key;
                  rounds = record { pake = random'; salt = salt } ∷ next ∷ rounds';
                })
                draw
                (ok (record x.client { incoming = heard }))
              ≡ (ok true, some s))
          × (receiver net prim pake json d disk fs
                (record {
                  world = world;
                  net_task = ok arrived;
                  random = random;
                  rounds = r1 ∷ r2 ∷ r3 ∷ r4 ∷ rounds;
                })
                draw'
                (ok (record y.client { incoming = heard' }))
              ≡ (ok true, some r))
          × (s.session.stream.sent ≡ x.client.sent ++ said)
          × (r.session.stream.sent ≡ y.client.sent ++ said')
          × (s.requests ≡ map (λ i. (file, i)) (send_file_chunks (length file.contents)))
          × (map outcome_of r.received ≡ (codes "./a.txt", file.contents) ∷ [])
    unfolding offered measured sender receiver Path.join str_prefix str_suffix
    main_transfers rooms texts interfaces ips fuel random random' salt next_key world world' arrived
          incoming next r1 r2 r3 r4 rounds rounds' short j j' no_room more own ips_fit small opens
          creates agrees fit size limit delivers enough =
        let len = length file.contents in
        let (said, heard, said', heard', s, r, run, sends, receives, sent, sent', asked, files) =
          relayed_transfer net prim pake json d disk fs (offered len) (a_txt len ∷ []) (λ p. file)
            config config' draw draw' (codes "pass123") (codes "123") (codes "12345") theirs theirs'
            addr addr' amount amount' n false false x y rooms texts interfaces ips fuel [] random
            random' salt next_key world world' (arrived ∷ []) incoming [] next r1 r2 r3 r4 rounds
            rounds' short (omega arith) refl j j' no_room more own ips_fit refl refl refl agrees fit
            size limit (opens, tt) (record { size = refl; small = small; creates = creates }, tt)
            (tt, tt) (delivers, tt) enough in
        let came = rw (append-nil (arrived ++ []), append-nil arrived) at receives in
        (
          said,
          heard,
          said',
          heard',
          s,
          r,
          run,
          sends,
          came,
          sent,
          sent',
          asked ∙ append-nil _,
          files,
        )
