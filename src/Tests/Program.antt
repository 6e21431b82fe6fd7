-- ===== src/Tests/Program.antt =====
-- The sender and the receiver of `main`, behind a relay.
use rust_croc.Common.{
  ℕ, zero, suc, ◌^◌, ◌<◌, ◌≡◌, refl, inl, inr, true, false, some, List, [], ◌∷◌, ◌++◌, map, length,
  Bytes, ok, codes, arith,
}
use rust_croc.Wire.RoundTrip.{framed}
use rust_croc.Wire.Tasks.{wire}
use rust_croc.Enc.{EncryptedSession}
use rust_croc.Transfer.{send_file_chunks}
use rust_croc.Client.{RelayClient, local_ips}
use rust_croc.Client.Keepalive.{replies}
use rust_croc.Client.Connected.{IsConnected}
use rust_croc.Msg.{FileInfo}
use rust_croc.Session.Files.{Running}
use rust_croc.Session.Sending.{ready}
use rust_croc.Session.Delivery.{Delivers, Delivers-jobs}
use rust_croc.Session.Taking.{flat, outcome_of}
use rust_croc.Session.EndToEnd.{AllFit, agreed}
use rust_croc.Program.{offered, send_by, receive_by}
use rust_croc.Program.Transfer.{hears, sending_from, receiving_from, programs_transfer}
use rust_croc.Tests.Net.{net, socket_with}
use rust_croc.Tests.Crypto.{prim, nonce}
use rust_croc.Tests.Handshake.{pake}
use rust_croc.Tests.Keepalive.{texts_json}
use rust_croc.Tests.Messages.{messages_json}
use rust_croc.Tests.Transfer.{files}
use rust_croc.Tests.Session.{desktop}
use rust_croc.Tests.EndToEnd.{hello, disk, draw}
use rust_croc.Std.Slice.{str_suffix}

abbrev pub a_txt : FileInfo
a_txt = record {
  name = codes "a.txt";
  remote_folder = codes "./";
  source_folder = codes "../";
  hash = 1 ∷ 2 ∷ 3 ∷ [];
  size = 5;
  modification_time = codes "2021-01-01";
  is_compressed = false;
  is_encrypted = false;
  symlink = [];
  mode = 3;
  temp_file = false;
}

pub listed_a : (offered 5).files_to_transfare ≡ some (a_txt ∷ [])
unfolding offered
listed_a = refl

abbrev client : RelayClient
client = record {
  stream = socket_with [];
  relay_ports = codes "9010" ∷ [];
  external_ip = some (codes "1.2.3.4");
  disable_local = false;
  shared_secret = codes "12345";
}

abbrev client-IsConnected : IsConnected (codes "12345") client
client-IsConnected = record {
  kept = refl;
  ip = codes "1.2.3.4";
  told = refl;
  port = codes "9010";
  first = refl;
}

own_ips : local_ips net texts_json [] client ≡ ok (codes "9010" ∷ [])
unfolding local_ips
own_ips = refl

pub secret_rest : str_suffix 5 (codes "12345") ≡ ok []
unfolding str_suffix
secret_rest = refl

abbrev key : EncryptedSession net prim
key =
    agreed net prim pake messages_json desktop disk files (offered 5) (a_txt ∷ []) hello [] [] []
      (codes "saltsalt")

pub a_comes : (cs : List Bytes) × Delivers net prim files key (hello []) cs
unfolding send_file_chunks
a_comes =
    Delivers-jobs net prim files key (hello [])
      ((record { chunk_size = 5; chunk_offset = 0 }, nonce) ∷ []) (omega arith) (omega arith) refl
      (omega arith)

pub one_request : (k : ℕ) → k < 1 → length (messages_json.text (ready k)) < 2 ^ 32
one_request zero h = omega arith
one_request (suc k) h = absurd (omega (arith, h))

all_fit :
    AllFit net prim pake messages_json desktop disk files
      (receiving_from net prim pake messages_json desktop disk files true (codes "1.2.3.4") client)
      (sending_from net prim pake messages_json desktop disk files true (codes "1.2.3.4") client)
      (offered 5)
      (codes "saltsalt")
      1
unfolding offered rust_croc.Session.new
all_fit = record {
  offer = λ k. omega arith;
  answer = λ k. omega arith;
  receiver_address = omega arith;
  sender_address = omega arith;
  info = omega arith;
  requests = one_request;
  end_ = omega arith;
}

abbrev waiting : List Bytes
waiting = (1 ∷ []) ∷ codes "ips?" ∷ (1 ∷ []) ∷ []

abbrev Client : Type 0
Client = Running net prim pake messages_json desktop disk files

programs_transfer_example :
    (up : Bytes) × (down : Bytes) × (t : Client) × (u : Client) × (send_by net prim pake
        messages_json desktop disk files texts_json [] 4
        (ok (offered 5))
        (record {
          world = true;
          net_task = ok [];
          random = [];
          rounds = record { pake = []; salt = codes "saltsalt" } ∷ draw ∷ draw ∷ draw ∷ [];
        })
        (ok (hears (wire waiting ++ (framed (codes "handshake") ++ up)) client))
      ≡ (ok true, some t))
    × (receive_by net prim pake messages_json desktop disk files
          (record {
            world = true;
            net_task = ok (flat (a_comes.0 ∷ []) ++ []);
            random = [];
            rounds = draw ∷ draw ∷ draw ∷ draw ∷ [];
          })
          (ok (hears down client))
        ≡ (ok true, some u))
    × (t.session.stream.sent ≡ replies (texts_json.text (codes "9010" ∷ [])) waiting ++ down)
    × (u.session.stream.sent ≡ framed (codes "handshake") ++ up)
    × (t.requests
        ≡ (
          record { contents = codes "hello"; position = 0 },
          record { chunk_size = 5; chunk_offset = 0 },
        )
          ∷ [])
    × (map outcome_of u.received ≡ (codes "./a.txt", codes "hello") ∷ [])
unfolding offered rust_croc.Std.Path.join send_file_chunks rust_croc.Msg.question
programs_transfer_example =
    programs_transfer net prim pake messages_json desktop disk files (offered 5) (a_txt ∷ []) hello
      texts_json [] waiting (codes "9010" ∷ []) 4 client client (codes "12345") [] [] []
      (codes "saltsalt") [] true true (a_comes.0 ∷ []) [] [] draw draw draw draw draw []
      (draw ∷ draw ∷ []) client-IsConnected client-IsConnected
      (inl refl, (inr refl, (inl refl, tt))) (omega arith) own_ips (omega arith) refl refl
      secret_rest listed_a refl refl all_fit refl (omega arith) (refl, tt)
      (record { size = refl; small = omega arith; creates = λ w. refl }, tt) (tt, tt)
      (a_comes.1, tt) (omega arith)
