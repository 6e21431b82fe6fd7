-- ===== src/Program/Transfer.antt =====
-- The programs of a sender and of a receiver, against each other.
use rust_croc.Common.{
  ℕ, ◌^◌, ◌+◌, ◌<◌, ◌≤◌, ◌≡◌, refl, ap, ◌∙◌, inl, inr, Bool, true, false, some, List, [], ◌∷◌, ◌++◌,
  map, All, length, Bytes, ok, codes, beq, arith,
}
use rust_croc.Net.{Net}
use rust_croc.Wire.RoundTrip.{framed, write_lem}
use rust_croc.Wire.Tasks.{wire}
use rust_croc.Crypto.{Primitives}
use rust_croc.Pake.{PakeCrate}
use rust_croc.Json.{Json}
use rust_croc.Files.{File, FileOps}
use rust_croc.Transfer.{tcp_buffer_size}
use rust_croc.Client.{RelayClient, Interface, local_ips}
use rust_croc.Client.Keepalive.{IsWaiting, replies, handle_keepalive_waits}
use rust_croc.Client.Connected.{IsConnected}
use rust_croc.Msg.{FileInfo, FilesInformation, Message, Desktop, listed, question}
use rust_croc.Session.{
  ClientSession, new, from_client, from_greeted, connect_to_sender, from_waited, wait_for_receiver,
}
use rust_croc.Session.Files.{Disk, Running}
use rust_croc.Session.Loop.{Random}
use rust_croc.Session.Sending.{source, chunks_of}
use rust_croc.Session.Taking.{flat, outcome_of, promised, Described, AllDelivered, Apart}
use rust_croc.Session.EndToEnd.{CanMeet, AllFit, agreed, sessions_transfer}
use rust_croc.Program.{begun, serve, serve_files, serve_waited, serve_greeted, send_by, receive_by}
use rust_croc.Std.Slice.{str_suffix}

-- A client to which these bytes will come in.
abbrev pub hears : Bytes → RelayClient → RelayClient
hears bs c = record c { stream = record c.stream { incoming = bs } }

handshake_waits : ¬ IsWaiting (codes "handshake")
handshake_waits (inl h) = absurd cc
handshake_waits (inr h) = absurd cc

module _ (net : Net) (prim : Primitives) (pake : PakeCrate) (json : Json Message) where
  -- The session of a client.
  abbrev pub session_of : Bool → Bytes → RelayClient → ClientSession net prim pake
  session_of sends ip c = new net prim pake json c.stream c.relay_ports c.shared_secret sends ip

  from_client_lem :
      (sends : Bool) (c : RelayClient) (ip : Bytes)
      → c.external_ip ≡ some ip
      → from_client net prim pake json sends c ≡ ok (session_of sends ip c)
  unfolding from_client
  from_client_lem sends c ip told = rw told refl

  pub connect_to_sender_lem :
      (c : RelayClient) (ip : Bytes)
      → c.external_ip ≡ some ip
      → c.stream.writable ≡ true
      → connect_to_sender net prim pake json c
        ≡ ok (
            session_of false ip (record c {
              stream = record c.stream { sent = c.stream.sent ++ framed (codes "handshake") };
            }))
  unfolding connect_to_sender from_greeted
  connect_to_sender_lem c ip told w =
      rw (write_lem net (codes "handshake") c.stream (omega arith) w) (
        from_client_lem false
          (record c {
            stream = record c.stream { sent = c.stream.sent ++ framed (codes "handshake") };
          })
          ip told)

  pub wait_for_receiver_lem :
      (texts : Json (List Bytes)) (interfaces : List Interface) (ms : List Bytes) (rest : Bytes)
      (fuel : ℕ) (c : RelayClient) (ip : Bytes) {ips : List Bytes}
      → All IsWaiting ms
      → length ms < fuel
      → local_ips net texts interfaces c ≡ ok ips
      → length (texts.text ips) < 2 ^ 32
      → c.external_ip ≡ some ip
      → c.stream.writable ≡ true
      → wait_for_receiver net prim pake json texts interfaces fuel
          (hears (wire ms ++ (framed (codes "handshake") ++ rest)) c)
        ≡ ok (
            some (
              session_of true ip (record c {
                stream = record c.stream {
                  incoming = rest;
                  sent = c.stream.sent ++ replies (texts.text ips) ms;
                };
              })))
  unfolding wait_for_receiver from_waited beq
  wait_for_receiver_lem texts interfaces ms rest fuel c ip {ips} h more local short told w =
      ap (from_waited net prim pake json) (
        handle_keepalive_waits net texts interfaces ms (codes "handshake") rest fuel c h
          handshake_waits (omega arith) more local short w)
      ∙ rw
          (
            from_client_lem true
                (record c {
                  stream = record c.stream {
                    incoming = rest;
                    sent = c.stream.sent ++ replies (texts.text ips) ms;
                  };
                })
                ip told,
            from_waited,
          )
          refl

  module _ (d : Desktop) (disk : Disk d.World) (fs : FileOps) where
    abbrev Client : Type 0
    Client = Running net prim pake json d disk fs

    -- The session of a sender and of a receiver on their machines, when it begins.
    abbrev pub sending_from : d.World → Bytes → RelayClient → Client
    sending_from world ip c = begun net prim pake json d disk fs world (session_of true ip c)

    abbrev pub receiving_from : d.World → Bytes → RelayClient → Client
    receiving_from world ip c = begun net prim pake json d disk fs world (session_of false ip c)

    -- What a sender has said before its session, and a receiver.
    abbrev pub has_answered : Bytes → List Bytes → RelayClient → RelayClient
    has_answered text ms c = record c {
      stream = record c.stream { sent = c.stream.sent ++ replies text ms };
    }

    abbrev pub has_greeted : RelayClient → RelayClient
    has_greeted c = record c {
      stream = record c.stream { sent = c.stream.sent ++ framed (codes "handshake") };
    }

    module _ (i : FilesInformation) (all : List FileInfo) (file_at : Bytes → File) where
      -- Take two clients that connect has left with one secret, an address and a port of the relay,
      -- whose connections take bytes and whose messages fit a frame; a salt of eight bytes; a
      -- sender that has its own addresses to tell, files that it can open and no empty folders; a
      -- receiver that can make the files, none of which is another of them under a second path, is
      -- told their sizes, which are below 2^63, and whose user is asked and agrees; a cipher that
      -- takes a whole buffer and its offset; and on the connection for data, file after file, the
      -- messages that fs_reader_task queues for the chunks of a file under the agreed encryption,
      -- those of one file in any order. Then there are bytes up and bytes down such that, with
      -- enough rounds, the sender, which reads pings and questions for its addresses, then the
      -- handshake and then up, ends well, having answered the questions and then sent down; the
      -- receiver, which reads down, ends well, having sent the handshake and then up; the sender
      -- has asked for exactly the chunks of all files, in order; and, once what writes the chunks
      -- has run, the receiver has exactly the files that it was told of, each at its place with the
      -- contents that it has at the sender.
      pub programs_transfer :
          (texts : Json (List Bytes)) (interfaces : List Interface) (ms ips : List Bytes) (fuel : ℕ)
          (c c' : RelayClient) (secret weak random random' salt next_key : Bytes)
          (world world' : d.World) (comes : List (List Bytes)) (incoming more : List Bytes)
          (next r1 r2 r3 r4 : Random) (rounds rounds' : List Random) (h : IsConnected secret c)
          (h' : IsConnected secret c')
          → All IsWaiting ms
          → length ms < fuel
          → local_ips net texts interfaces c' ≡ ok ips
          → length (texts.text ips) < 2 ^ 32
          → c.stream.writable ≡ true
          → c'.stream.writable ≡ true
          → str_suffix 5 secret ≡ ok weak
          → i.files_to_transfare ≡ some all
          → listed i.empty_folders_to_transfare ≡ []
          → (question d i world).0 ≡ ok true
          → AllFit net prim pake json d disk fs
              (receiving_from world h.ip c)
              (sending_from world' h'.ip c')
              i
              salt
              (length all)
          → length salt ≡ 8
          → 8 + tcp_buffer_size ≤ prim.limit
          → All (λ f. disk.open_ (source f) world' ≡ (ok (file_at (source f)), world')) all
          → All (Described net prim pake json d disk fs file_at) all
          → Apart disk [] all
          → AllDelivered net prim pake json d disk fs file_at
              (agreed net prim pake json d disk fs i all file_at weak random random' salt)
              all
              comes
          → length all < length rounds'
          → (up : Bytes) × (down : Bytes) × (t : Client) × (u : Client) × (send_by net prim pake
                json d disk fs texts interfaces fuel
                (ok i)
                (record {
                  world = world';
                  net_task = ok incoming;
                  random = next_key;
                  rounds = record { pake = random'; salt = salt } ∷ next ∷ rounds';
                })
                (ok (hears (wire ms ++ (framed (codes "handshake") ++ up)) c'))
              ≡ (ok true, some t))
            × (receive_by net prim pake json d disk fs
                  (record {
                    world = world;
                    net_task = ok (flat comes ++ more);
                    random = random;
                    rounds = r1 ∷ r2 ∷ r3 ∷ r4 ∷ rounds;
                  })
                  (ok (hears down c))
                ≡ (ok true, some u))
            × (t.session.stream.sent ≡ (c'.stream.sent ++ replies (texts.text ips) ms) ++ down)
            × (u.session.stream.sent ≡ (c.stream.sent ++ framed (codes "handshake")) ++ up)
            × (t.requests ≡ chunks_of file_at all)
            × (map outcome_of u.received ≡ map (promised file_at) all)
      unfolding send_by receive_by serve serve_files serve_waited serve_greeted new
      programs_transfer texts interfaces ms ips fuel c c' secret weak random random' salt next_key
            world world' comes incoming more next r1 r2 r3 r4 rounds rounds' h h' waits enough_fuel
            local ips_fit w w' suffix some_files no_folders agrees fit size room opens described
            apart delivered enough =
          let r = receiving_from world h.ip (has_greeted c) in
          let s = sending_from world' h'.ip (has_answered (texts.text ips) ms c') in
          let meet : CanMeet net prim pake json d disk fs r s i weak h.port h'.port = record {
            receiver_port = h.first;
            sender_port = h'.first;
            receiver_secret = ap (str_suffix 5) h.kept ∙ suffix;
            sender_secret = ap (str_suffix 5) h'.kept ∙ suffix;
            receiver_takes = w;
            sender_takes = w';
            reads = refl;
            agrees = agrees;
          } in
          let fits : AllFit net prim pake json d disk fs r s i salt (length all) = record {
            offer = fit.offer;
            answer = fit.answer;
            receiver_address = fit.receiver_address;
            sender_address = fit.sender_address;
            info = fit.info;
            requests = fit.requests;
            end_ = fit.end_;
          } in
          let (up, down, t, u, sends, receives, served, received, _) =
            sessions_transfer net prim pake json d disk fs i all file_at r s weak random random'
              salt h.port h'.port next_key comes incoming more next r1 r2 r3 r4 rounds rounds'
              some_files no_folders meet fits size room opens described apart delivered enough in
          (
            up,
            down,
            t,
            u,
            rw
                (
                  wait_for_receiver_lem texts interfaces ms up fuel c' h'.ip waits enough_fuel local
                      ips_fit h'.told w',
                  sends,
                )
                refl,
            rw (connect_to_sender_lem (hears down c) h.ip h.told w, receives) refl,
            served.said,
            received.said,
            served.asked,
            ap (map outcome_of) received.kept ∙ received.right,
          )
