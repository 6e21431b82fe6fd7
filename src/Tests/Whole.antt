-- ===== src/Tests/Whole.antt =====
-- The programs of `main` with their connections for data.
use rust_croc.Common.{◌≡◌, refl, true, some, [], ◌∷◌, map, Bytes, ok, codes, arith}
use rust_croc.Transfer.{send_file_chunks}
use rust_croc.Program.{offered, sender, receiver}
use rust_croc.Program.Data.{DataRun, data_arrives}
use rust_croc.Program.Whole.{Joining, Relayed, Carried, file_arrives}
use rust_croc.Session.Files.{Running}
use rust_croc.Session.Taking.{outcome_of}
use rust_croc.Tests.Net.{net, socket_with}
use rust_croc.Tests.Crypto.{prim}
use rust_croc.Tests.Handshake.{pake, config, addr, random}
use rust_croc.Tests.Keepalive.{texts_json}
use rust_croc.Tests.Messages.{messages_json}
use rust_croc.Tests.Transfer.{files}
use rust_croc.Tests.Session.{desktop}
use rust_croc.Tests.EndToEnd.{hello, disk, draw}
use rust_croc.Tests.Program.{a_comes}
use rust_croc.Tests.Relayed.{joins, no_room, ends, own_ips, all_fit}
use rust_croc.Tests.NetTask
use rust_croc.Tests.NetTask.{sha256}

data_arrives_example :
    DataRun net prim pake sha256 config config random random
      (codes "9010")
      (codes "12345")
      []
      []
      addr
      addr
      4
      4
      1
      ends
      ends
      []
      (codes "one" ∷ codes "two" ∷ [])
data_arrives_example =
    data_arrives net prim pake sha256 config config random random (codes "9010") (codes "12345") []
      [] addr addr 4 4 1 ends ends [] (codes "one" ∷ codes "two" ∷ []) (λ p. omega arith)
      (omega arith) NetTask.joins NetTask.joins NetTask.no_room (omega arith)

abbrev joining : Joining
joining = record {
  config = config;
  config' = config;
  draw = random;
  draw' = random;
  theirs = [];
  theirs' = [];
  addr = addr;
  addr' = addr;
  amount = 4;
  amount' = 4;
  n = 2;
  x = ends;
  y = ends;
  rooms = [];
}

abbrev Party : Type 0
Party = Running net prim pake messages_json desktop disk files

file_arrives_example :
    (said : Bytes) × (heard : Bytes) × (said' : Bytes) × (heard' : Bytes) × (s : Party)
    × (r : Party) × (run : Carried net prim pake sha256
        (codes "9010")
        (codes "12345")
        joining
        a_comes.0)
    × Relayed net prim pake (codes "123") joining said heard said' heard'
    × (sender net prim pake messages_json desktop disk files texts_json [] 3
          (ok 5)
          (record {
            world = true;
            net_task = ok run.own.channel.queue;
            random = [];
            rounds = record { pake = []; salt = codes "saltsalt" } ∷ draw ∷ draw ∷ draw ∷ [];
          })
          random
          (ok (socket_with heard))
        ≡ (ok true, some s))
    × (receiver net prim pake messages_json desktop disk files
          (record {
            world = true;
            net_task = ok run.got.channel.queue;
            random = [];
            rounds = draw ∷ draw ∷ draw ∷ draw ∷ [];
          })
          random
          (ok (socket_with heard'))
        ≡ (ok true, some r))
    × (s.session.stream.sent ≡ said)
    × (r.session.stream.sent ≡ said')
    × (s.requests
        ≡ (
          record { contents = codes "hello"; position = 0 },
          record { chunk_size = 5; chunk_offset = 0 },
        )
          ∷ [])
    × (map outcome_of r.received ≡ (codes "./a.txt", codes "hello") ∷ [])
unfolding offered send_file_chunks rust_croc.Msg.question
file_arrives_example =
    file_arrives net prim pake sha256 messages_json desktop disk files (hello []) joining joining
      texts_json [] (codes "9010" ∷ []) 3 (codes "9010") [] [] (codes "saltsalt") [] true true
      a_comes.0 draw draw draw draw draw [] (draw ∷ draw ∷ []) (λ p. omega arith)
      (record { first = joins; second = joins; new = no_room })
      (record { first = NetTask.joins; second = NetTask.joins; new = NetTask.no_room })
      (omega arith) own_ips (omega arith) (omega arith) refl (λ w. refl) refl all_fit refl
      (omega arith) a_comes.1 (omega arith)
