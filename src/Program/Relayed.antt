-- ===== src/Program/Relayed.antt =====
-- The programs of a sender and of a receiver, over one relay.
use rust_croc.Common.{
  ℕ, ◌^◌, ◌+◌, ◌<◌, ◌≤◌, ◌≡◌, ap, ◌∙◌, Bool, true, none, some, List, [], ◌∷◌, ◌++◌, append_assoc,
  append-nil, map, All, length, Bytes, ok, codes,
}
use rust_croc.Net.{Net}
use rust_croc.Wire.RoundTrip.{framed}
use rust_croc.Wire.Tasks.{wire}
use rust_croc.Crypto.{Primitives}
use rust_croc.Pake.{PakeCrate}
use rust_croc.Json.{Json}
use rust_croc.Files.{File, FileOps}
use rust_croc.Transfer.{tcp_buffer_size}
use rust_croc.Server.{Rooms, lookup, Config}
use rust_croc.Server.Keepalive.{pings, pings-IsWaiting, replies-pings}
use rust_croc.Client
use rust_croc.Client.{RelayClient, Interface, local_ips, connect}
use rust_croc.Client.Meeting.{CanJoin}
use rust_croc.Msg.{FileInfo, FilesInformation, Message, Desktop, listed, question}
use rust_croc.Session.{new}
use rust_croc.Session.Files.{Disk, Running}
use rust_croc.Session.Loop.{Random}
use rust_croc.Session.Sending.{source, chunks_of}
use rust_croc.Session.Taking.{flat, outcome_of, promised, Described, AllDelivered, Apart}
use rust_croc.Session.EndToEnd.{AllFit, agreed}
use rust_croc.Program.{send_by, receive_by}
use rust_croc.Program.Relay.{Ends, made, made-IsConnected, RelayRun, relay_run}
use rust_croc.Program.Transfer.{sending_from, receiving_from, programs_transfer}
use rust_croc.Std.Slice.{str_prefix, str_suffix}

module _ (net : Net) (prim : Primitives) (pake : PakeCrate) (json : Json Message) (d : Desktop)
    (disk : Disk d.World) (fs : FileOps) where
  abbrev Party : Type 0
  Party = Running net prim pake json d disk fs

  module _ (i : FilesInformation) (all : List FileInfo) (file_at : Bytes → File)
      (config config' : Config) (draw draw' : Client.Random) (password room secret : Bytes)
      (theirs theirs' addr addr' : Bytes) (amount amount' n : ℕ) (local local' : Bool)
      (x y : Ends) where
    -- Take a sender and a receiver that connect to one relay with its password and one secret, of
    -- whose room the relay has none yet; random data and messages of the lengths that the cipher
    -- and the frames take, public keys whose texts fit a frame, addresses without a vertical bar,
    -- and sockets that take bytes; a salt of eight bytes, a sender that can open its files, has its
    -- own addresses to tell and no empty folders, and a receiver that can make the files, none of
    -- which is another of them under a second path, is told their sizes, which are below 2^63, and
    -- whose user is asked and agrees; a cipher that takes a whole buffer and its offset; and on the
    -- connection for data, file after file, the messages that fs_reader_task queues for the chunks
    -- of a file under the agreed encryption, those of one file in any order. Then, with enough
    -- rounds, there are bytes that each of the two says and hears such that handle of the relay,
    -- reading what the sender says, makes the room; its keepalive sends so many pings; handle,
    -- reading what the receiver says, gives it the second place; bridge_sockets between these two
    -- sockets can come to where the relay has sent to each exactly what it hears; the sender, from
    -- connect on, reads what it hears, sends what it says and ends well, and so does the receiver;
    -- the sender has asked for exactly the chunks of all files, in order; and, once what writes the
    -- chunks has run, the receiver has exactly the files that it was told of, each at its place
    -- with the contents that it has at the sender.
    pub relayed_transfer :
        (rooms : Rooms) (texts : Json (List Bytes)) (interfaces : List Interface) (ips : List Bytes)
        (fuel : ℕ) (weak random random' salt next_key : Bytes) (world world' : d.World)
        (comes : List (List Bytes)) (incoming more : List Bytes) (next r1 r2 r3 r4 : Random)
        (rounds rounds' : List Random)
        → ((p : pake.PubKey) → length (pake.json.text p) < 2 ^ 32)
        → 4 ≤ length secret
        → str_prefix 3 secret ≡ ok room
        → CanJoin net prim config draw password room addr
        → CanJoin net prim config' draw' password room addr'
        → lookup room rooms ≡ none
        → length (pings n) < fuel
        → local_ips net texts interfaces (made net prim pake config addr secret local x.client [])
          ≡ ok ips
        → length (texts.text ips) < 2 ^ 32
        → str_suffix 5 secret ≡ ok weak
        → i.files_to_transfare ≡ some all
        → listed i.empty_folders_to_transfare ≡ []
        → (question d i world).0 ≡ ok true
        → AllFit net prim pake json d disk fs
            (receiving_from net prim pake json d disk fs world addr'
              (made net prim pake config' addr' secret local' y.client []))
            (sending_from net prim pake json d disk fs world' addr
              (made net prim pake config addr secret local x.client []))
            i
            salt
            (length all)
        → length salt ≡ 8
        → 8 + tcp_buffer_size ≤ prim.limit
        → All (λ f. disk.open_ (source f) world' ≡ (ok (file_at (source f)), world')) all
        → All (Described net prim pake json d disk fs file_at) all
        → Apart disk [] all
        → AllDelivered net prim pake json d disk fs file_at
            (agreed net prim pake json d disk fs i all file_at weak random random' salt)
            all
            comes
        → length all < length rounds'
        → (said : Bytes) × (heard : Bytes) × (said' : Bytes) × (heard' : Bytes) × (s : Party)
          × (r : Party) × RelayRun net prim pake config config' room theirs theirs' addr addr'
              amount amount' n x y rooms said heard said' heard'
          × (send_by net prim pake json d disk fs texts interfaces fuel
                (ok i)
                (record {
                  world = world';
                  net_task = ok incoming;
                  random = next_key;
                  rounds = record { pake = random'; salt = salt } ∷ next ∷ rounds';
                })
                (connect net prim pake draw
                  (ok (record x.client { incoming = heard }))
                  password
                  secret
                  local)
              ≡ (ok true, some s))
          × (receive_by net prim pake json d disk fs
                (record {
                  world = world;
                  net_task = ok (flat comes ++ more);
                  random = random;
                  rounds = r1 ∷ r2 ∷ r3 ∷ r4 ∷ rounds;
                })
                (connect net prim pake draw'
                  (ok (record y.client { incoming = heard' }))
                  password
                  secret
                  local')
              ≡ (ok true, some r))
          × (s.session.stream.sent ≡ x.client.sent ++ said)
          × (r.session.stream.sent ≡ y.client.sent ++ said')
          × (s.requests ≡ chunks_of file_at all)
          × (map outcome_of r.received ≡ map (promised file_at) all)
    unfolding local_ips new
    relayed_transfer rooms texts interfaces ips fuel weak random random' salt next_key world world'
          comes incoming more next r1 r2 r3 r4 rounds rounds' short long prefix j j' no_room
          enough_fuel own ips_fit suffix some_files no_folders agrees fit size limit opens described
          apart delivered enough =
        let (up, down, up', down', served, joins, joins') =
          relay_run net prim pake config config' draw draw' password room secret theirs theirs' addr
            addr' amount amount' n local local' x y rooms short long prefix j j' no_room in
        let fits : AllFit net prim pake json d disk fs
            (receiving_from net prim pake json d disk fs world addr'
              (made net prim pake config' addr' secret local' y.client up'))
            (sending_from net prim pake json d disk fs world' addr
              (made net prim pake config addr secret local x.client up))
            i salt (length all) =
          record {
            offer = fit.offer;
            answer = fit.answer;
            receiver_address = fit.receiver_address;
            sender_address = fit.sender_address;
            info = fit.info;
            requests = fit.requests;
            end_ = fit.end_;
          } in
        let (asks, gives, s, r, sends, receives, sent, sent', asked, files) =
          programs_transfer net prim pake json d disk fs i all file_at texts interfaces (pings n)
            ips fuel (made net prim pake config' addr' secret local' y.client up')
            (made net prim pake config addr secret local x.client up) secret weak random random'
            salt next_key world world' comes incoming more next r1 r2 r3 r4 rounds rounds'
            (made-IsConnected net prim pake config' addr' secret local' y.client up')
            (made-IsConnected net prim pake config addr secret local x.client up)
            (pings-IsWaiting n) enough_fuel own ips_fit y.client_takes x.client_takes suffix
            some_files no_folders agrees fits size limit opens described apart delivered enough in
        let greets = framed (codes "handshake") in
        (
          up ++ gives,
          down ++ (wire (pings n) ++ (greets ++ asks)),
          up' ++ (greets ++ asks),
          down' ++ gives,
          s,
          r,
          served gives (greets ++ asks),
          rw (joins (wire (pings n) ++ (greets ++ asks))) sends,
          rw (joins' gives) receives,
          sent
              ∙ ap (λ z. ((x.client.sent ++ up) ++ z) ++ gives) (replies-pings (texts.text ips) n)
              ∙ ap (λ z. z ++ gives) (append-nil (x.client.sent ++ up))
              ∙ append_assoc x.client.sent up gives,
          sent'
              ∙ append_assoc (y.client.sent ++ up') greets asks
              ∙ append_assoc y.client.sent up' (greets ++ asks),
          asked,
          files,
        )
