-- ===== src/Tests/Relayed.antt =====
-- A sender and a receiver over one relay with no rooms.
use rust_croc.Common.{
  ◌≡◌, refl, true, false, none, some, [], ◌∷◌, ◌++◌, map, Bytes, ok, beq, codes, arith,
}
use rust_croc.Std.Str.{trim}
use rust_croc.Net.{Socket}
use rust_croc.Wire.Tasks.{wire}
use rust_croc.Server.{lookup, insert}
use rust_croc.Server.Answer.{handle}
use rust_croc.Server.Keepalive.{pings, keepalive}
use rust_croc.Client.{connect, local_ips}
use rust_croc.Client.Handshake.{settled}
use rust_croc.Client.Connect.{fresh}
use rust_croc.Client.Meeting.{CanJoin, alone, together, clients_meet}
use rust_croc.Session.Files.{Running}
use rust_croc.Session.Taking.{flat, outcome_of}
use rust_croc.Session.EndToEnd.{AllFit}
use rust_croc.Program.{offered, send_by, receive_by}
use rust_croc.Program.Transfer.{sending_from, receiving_from}
use rust_croc.Program.Relay.{Ends, made, RelayRun}
use rust_croc.Program.Relayed.{relayed_transfer}
use rust_croc.Tests.Net.{net, socket_with}
use rust_croc.Tests.Crypto.{prim}
use rust_croc.Tests.Handshake.{
  pake, config, addr, ready, random, a-IsClient, right_password, addr_text,
}
use rust_croc.Tests.Keepalive.{texts_json}
use rust_croc.Tests.Messages.{messages_json}
use rust_croc.Tests.Transfer.{files}
use rust_croc.Tests.Session.{desktop}
use rust_croc.Tests.EndToEnd.{hello, disk, draw}
use rust_croc.Tests.Program.{a_txt, listed_a, secret_rest, a_comes, one_request}
use rust_croc.Transfer.{send_file_chunks}
use rust_croc.Std.Slice.{str_prefix}

pub joins : CanJoin net prim config random (codes "pass123") (codes "123") addr
unfolding trim beq
joins = record {
  right = refl;
  client = a-IsClient (codes "pass123") right_password (omega arith);
  text = addr_text;
  bars = omega arith;
  ready = ready;
}

secret_prefix : str_prefix 3 (codes "12345") ≡ ok (codes "123")
unfolding str_prefix
secret_prefix = refl

pub no_room : lookup (codes "123") [] ≡ none
unfolding lookup
no_room = refl

clients_meet_example :
    (up : Bytes) × (down : Bytes) × (up' : Bytes) × (down' : Bytes) × ((rest rest' : Bytes)
      → let t : Socket = record { incoming = rest; sent = down; writable = true } in
        let k : Socket = record t { sent = down ++ wire (pings 1) } in
        let t' : Socket = record { incoming = rest'; sent = down'; writable = true } in
        (handle net prim pake config
            (ok 4)
            []
            (ok addr)
            (record { session = socket_with (up ++ rest); rooms = [] })
          ≡ (
            ok (some (codes "123")),
            record { session = t; rooms = (codes "123", alone 7 t) ∷ [] },
          ))
        × (keepalive net 1 t ≡ (ok tt, k))
        × (handle net prim pake config (ok 3) [] (ok addr) (record {
          session = socket_with (up' ++ rest');
          rooms = (codes "123", alone 7 k) ∷ [];
        })
            ≡ (
              ok (some (codes "123")),
              record { session = t'; rooms = (codes "123", together 7 k t') ∷ [] },
            )))
    × ((heard : Bytes)
        → connect net prim pake random
            (ok (socket_with (down ++ heard)))
            (codes "pass123")
            (codes "12345")
            false
          ≡ ok (
              settled config addr up heard
                (fresh net prim pake (socket_with []) (codes "12345") false)))
    × ((heard : Bytes)
        → connect net prim pake random
            (ok (socket_with (down' ++ heard)))
            (codes "pass123")
            (codes "12345")
            false
          ≡ ok (
              settled config addr up' heard
                (fresh net prim pake (socket_with []) (codes "12345") false)))
unfolding lookup insert beq
clients_meet_example =
    clients_meet net prim pake config config random random (codes "pass123") (codes "123")
      (codes "12345") [] [] addr addr 4 3 1 false false [] (socket_with []) (socket_with [])
      (socket_with []) (socket_with []) (λ p. omega arith) (omega arith) secret_prefix joins joins
      refl refl refl refl no_room

abbrev pub ends : Ends
ends = record {
  relay = socket_with [];
  client = socket_with [];
  relay_takes = refl;
  client_takes = refl;
}

pub own_ips :
    local_ips net texts_json []
      (made net prim pake config addr (codes "12345") false (socket_with []) [])
    ≡ ok (codes "9010" ∷ [])
unfolding local_ips rust_croc.Std.Str.to_string
own_ips = refl

abbrev Party : Type 0
Party = Running net prim pake messages_json desktop disk files

pub all_fit :
    AllFit net prim pake messages_json desktop disk files
      (receiving_from net prim pake messages_json desktop disk files true addr
        (made net prim pake config addr (codes "12345") false (socket_with []) []))
      (sending_from net prim pake messages_json desktop disk files true addr
        (made net prim pake config addr (codes "12345") false (socket_with []) []))
      (offered 5)
      (codes "saltsalt")
      1
unfolding offered rust_croc.Session.new
all_fit = record {
  offer = λ k. omega arith;
  answer = λ k. omega arith;
  receiver_address = omega arith;
  sender_address = omega arith;
  info = omega arith;
  requests = one_request;
  end_ = omega arith;
}

relayed_transfer_example :
    (said : Bytes) × (heard : Bytes) × (said' : Bytes) × (heard' : Bytes) × (s : Party)
    × (r : Party) × RelayRun net prim pake config config
        (codes "123")
        []
        []
        addr
        addr
        4
        4
        2
        ends
        ends
        []
        said
        heard
        said'
        heard'
    × (send_by net prim pake messages_json desktop disk files texts_json [] 3
          (ok (offered 5))
          (record {
            world = true;
            net_task = ok [];
            random = [];
            rounds = record { pake = []; salt = codes "saltsalt" } ∷ draw ∷ draw ∷ draw ∷ [];
          })
          (connect net prim pake random
            (ok (socket_with heard))
            (codes "pass123")
            (codes "12345")
            false)
        ≡ (ok true, some s))
    × (receive_by net prim pake messages_json desktop disk files
          (record {
            world = true;
            net_task = ok (flat (a_comes.0 ∷ []) ++ []);
            random = [];
            rounds = draw ∷ draw ∷ draw ∷ draw ∷ [];
          })
          (connect net prim pake random
            (ok (socket_with heard'))
            (codes "pass123")
            (codes "12345")
            false)
        ≡ (ok true, some r))
    × (s.session.stream.sent ≡ said)
    × (r.session.stream.sent ≡ said')
    × (s.requests
        ≡ (
          record { contents = codes "hello"; position = 0 },
          record { chunk_size = 5; chunk_offset = 0 },
        )
          ∷ [])
    × (map outcome_of r.received ≡ (codes "./a.txt", codes "hello") ∷ [])
unfolding offered rust_croc.Std.Path.join lookup insert beq send_file_chunks rust_croc.Msg.question
relayed_transfer_example =
    relayed_transfer net prim pake messages_json desktop disk files (offered 5) (a_txt ∷ []) hello
      config config random random (codes "pass123") (codes "123") (codes "12345") [] [] addr addr 4
      4 2 false false ends ends [] texts_json [] (codes "9010" ∷ []) 3 [] [] [] (codes "saltsalt")
      [] true true (a_comes.0 ∷ []) [] [] draw draw draw draw draw [] (draw ∷ draw ∷ [])
      (λ p. omega arith) (omega arith) secret_prefix joins joins no_room (omega arith) own_ips
      (omega arith) secret_rest listed_a refl refl all_fit refl (omega arith) (refl, tt)
      (record { size = refl; small = omega arith; creates = λ w. refl }, tt) (tt, tt)
      (a_comes.1, tt) (omega arith)
