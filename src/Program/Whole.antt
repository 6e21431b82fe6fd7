-- ===== src/Program/Whole.antt =====
-- The programs of `main` with their connections for data, over one relay.
use rust_croc.Common.{
  ℕ, ◌^◌, ◌+◌, ◌<◌, ◌≤◌, ◌≡◌, true, false, none, some, List, [], ◌∷◌, ◌++◌, map, length, Bytes, ok,
  codes, arith,
}
use rust_croc.Net.{Net}
use rust_croc.Crypto.{Primitives}
use rust_croc.Pake.{PakeCrate}
use rust_croc.Json.{Json}
use rust_croc.Files.{File, FileOps}
use rust_croc.Transfer.{tcp_buffer_size, send_file_chunks}
use rust_croc.Server.{Rooms, lookup, Config}
use rust_croc.Server.Keepalive.{pings}
use rust_croc.Client
use rust_croc.Client.{Interface, local_ips}
use rust_croc.Client.Meeting.{CanJoin}
use rust_croc.Msg.{Message, Desktop, question}
use rust_croc.Session.Files.{Disk, Running}
use rust_croc.Session.Loop.{Random}
use rust_croc.Session.Taking.{outcome_of}
use rust_croc.Session.Delivery.{Delivers, Delivers-Fits}
use rust_croc.Session.EndToEnd.{AllFit}
use rust_croc.Session.NetTask.{Sha256}
use rust_croc.Session.NetTask.Meeting.{data_room}
use rust_croc.Program.{offered, sender, receiver}
use rust_croc.Program.Relay.{Ends, made, RelayRun}
use rust_croc.Program.Transfer.{sending_from, receiving_from}
use rust_croc.Program.Main.{key, main_transfers}
use rust_croc.Program.Data.{DataRun, data_arrives}

-- What a connection of a sender and one of a receiver to the relay have of their own: the relay's
-- nonces and key exchange, what each client draws, their addresses, how much the peeks give, the
-- pings, the two ends, and the rooms that were there.
pub record Joining : Type 0 where
  pub config : Config
  pub config' : Config
  pub draw : Client.Random
  pub draw' : Client.Random
  pub theirs : Bytes
  pub theirs' : Bytes
  pub addr : Bytes
  pub addr' : Bytes
  pub amount : ℕ
  pub amount' : ℕ
  pub n : ℕ
  pub x : Ends
  pub y : Ends
  pub rooms : Rooms

module _ (net : Net) (prim : Primitives) (pake : PakeCrate) where
  -- The relay lets both into the room, which is not there yet.
  pub record Joins (password room : Bytes) (c : Joining) : Type 0 where
    pub first : CanJoin net prim c.config c.draw password room c.addr
    pub second : CanJoin net prim c.config' c.draw' password room c.addr'
    pub new : lookup room c.rooms ≡ none

  -- The relay's run of the connections, which say and hear so much.
  abbrev pub Relayed : Bytes → Joining → (said heard said' heard' : Bytes) → Type 0
  Relayed room c said heard said' heard' =
      RelayRun net prim pake c.config c.config' room c.theirs c.theirs' c.addr c.addr' c.amount
        c.amount' c.n c.x c.y c.rooms said heard said' heard'

  module _ (sha256 : Sha256) where
    -- The connections for data, over which these messages go from the first to the second.
    abbrev pub Carried : (port secret : Bytes) → Joining → List Bytes → Type 0
    Carried port secret c messages =
        DataRun net prim pake sha256 c.config c.config' c.draw c.draw' port secret c.theirs
          c.theirs' c.addr c.addr' c.amount c.amount' c.n c.x c.y c.rooms messages

    module _ (json : Json Message) (d : Desktop) (disk : Disk d.World) (fs : FileOps) (file : File)
        (c for_data : Joining) where
      abbrev Party : Type 0
      Party = Running net prim pake json d disk fs

      -- Take the sender and the receiver of main, whose file ../a.txt is shorter than 2^63 bytes
      -- and can be opened, while ./a.txt can be made by the receiver, whose user is asked and
      -- agrees; for their sessions and for data a pair of connections each to a relay that lets
      -- both in with the password pass123 and has not yet the room 123 and that of start_net_task
      -- for their secret, with random data and messages of the lengths that the cipher and the
      -- frames take, public keys whose texts fit a frame, addresses without a vertical bar, and
      -- sockets that take bytes; a salt of eight bytes, a sender that has its own addresses to
      -- tell, a cipher that takes a whole buffer and its offset; and messages that fs_reader_task
      -- queues for the chunks of the file under the agreed encryption, in any order. Then the
      -- connections for data have a run of start_net_task of both, of the relay with so many pings,
      -- of the writing task of the sender, which sends those messages, and of both reading tasks,
      -- of which that of the sender comes to have the pings and that of the receiver the messages;
      -- and there are bytes that the two programs say and hear such that, with enough rounds, the
      -- relay on the connections of the sessions reads what they say and sends what they hear, and
      -- sender and receiver, which read what they hear and get what the reading tasks have, say
      -- what the relay reads and end well; the sender has asked for exactly the chunks of the file,
      -- in order; and, once what writes the chunks has run, the receiver has exactly one file,
      -- ./a.txt, with the contents of that of the sender.
      pub file_arrives :
          (texts : Json (List Bytes)) (interfaces : List Interface) (ips : List Bytes) (fuel : ℕ)
          (port random random' salt next_key : Bytes) (world world' : d.World)
          (messages : List Bytes) (next r1 r2 r3 r4 : Random) (rounds rounds' : List Random)
          → ((p : pake.PubKey) → length (pake.json.text p) < 2 ^ 32)
          → Joins (codes "pass123") (codes "123") c
          → Joins (codes "pass123") (data_room net prim pake sha256 (codes "12345")) for_data
          → length (pings c.n) < fuel
          → local_ips net texts interfaces
              (made net prim pake c.config c.addr (codes "12345") false c.x.client [])
            ≡ ok ips
          → length (texts.text ips) < 2 ^ 32
          → length file.contents < 2 ^ 63
          → disk.open_ (codes "../a.txt") world' ≡ (ok file, world')
          → ((w : d.World) → (disk.create (codes "./a.txt") w).0 ≡ ok tt)
          → (question d (offered (length file.contents)) world).0 ≡ ok true
          → AllFit net prim pake json d disk fs
              (receiving_from net prim pake json d disk fs world c.addr'
                (made net prim pake c.config' c.addr' (codes "12345") false c.y.client []))
              (sending_from net prim pake json d disk fs world' c.addr
                (made net prim pake c.config c.addr (codes "12345") false c.x.client []))
              (offered (length file.contents))
              salt
              1
          → length salt ≡ 8
          → 8 + tcp_buffer_size ≤ prim.limit
          → Delivers net prim fs
              (key net prim pake json d disk fs file random random' salt)
              file
              messages
          → 1 < length rounds'
          → (said : Bytes) × (heard : Bytes) × (said' : Bytes) × (heard' : Bytes) × (s : Party)
            × (r : Party) × (run : Carried port (codes "12345") for_data messages) × Relayed
                (codes "123")
                c
                said
                heard
                said'
                heard'
            × (sender net prim pake json d disk fs texts interfaces fuel
                  (ok (length file.contents))
                  (record {
                    world = world';
                    net_task = ok run.own.channel.queue;
                    random = next_key;
                    rounds = record { pake = random'; salt = salt } ∷ next ∷ rounds';
                  })
                  c.draw
                  (ok (record c.x.client { incoming = heard }))
                ≡ (ok true, some s))
            × (receiver net prim pake json d disk fs
                  (record {
                    world = world;
                    net_task = ok run.got.channel.queue;
                    random = random;
                    rounds = r1 ∷ r2 ∷ r3 ∷ r4 ∷ rounds;
                  })
                  c.draw'
                  (ok (record c.y.client { incoming = heard' }))
                ≡ (ok true, some r))
            × (s.session.stream.sent ≡ c.x.client.sent ++ said)
            × (r.session.stream.sent ≡ c.y.client.sent ++ said')
            × (s.requests ≡ map (λ i. (file, i)) (send_file_chunks (length file.contents)))
            × (map outcome_of r.received ≡ (codes "./a.txt", file.contents) ∷ [])
      file_arrives texts interfaces ips fuel port random random' salt next_key world world' messages
            next r1 r2 r3 r4 rounds rounds' short j k more own ips_fit small opens creates agrees
            fit size limit delivers enough =
          let run : Carried port (codes "12345") for_data messages =
            data_arrives net prim pake sha256 for_data.config for_data.config' for_data.draw
              for_data.draw' port (codes "12345") for_data.theirs for_data.theirs' for_data.addr
              for_data.addr' for_data.amount for_data.amount' for_data.n for_data.x for_data.y
              for_data.rooms messages short (omega arith) k.first k.second k.new
              (Delivers-Fits net prim fs (key net prim pake json d disk fs file random random' salt)
                file messages (omega (arith, small)) limit delivers) in
          let (
            said, heard, said', heard', s, r, relayed, sends, receives, sent, sent', asked, files,
          ) =
            main_transfers net prim pake json d disk fs file c.config c.config' c.draw c.draw'
              c.theirs c.theirs' c.addr c.addr' c.amount c.amount' c.n c.x c.y c.rooms texts
              interfaces ips fuel random random' salt next_key world world' messages
              (run.own.channel.queue) next r1 r2 r3 r4 rounds rounds' short j.first j.second j.new
              more own ips_fit small opens creates agrees fit size limit delivers enough in
          (
            said,
            heard,
            said',
            heard',
            s,
            r,
            run,
            relayed,
            sends,
            rw run.arrived receives,
            sent,
            sent',
            asked,
            files,
          )
