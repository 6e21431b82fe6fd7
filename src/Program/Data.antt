-- ===== src/Program/Data.antt =====
-- The connection for data of two programs, over the relay: src/proto/client_session.rs and the tasks
-- of src/proto/croc_raw.rs.
use rust_croc.Common.{
  ℕ, suc, ◌^◌, ◌<◌, ◌≤◌, ◌≡◌, refl, ap, ◌∙◌, true, false, none, List, [], ◌++◌, append_assoc,
  append-nil, map, length, drop, Bytes, ok, codes, arith, zero,
}
use rust_croc.Net.{Net, Socket}
use rust_croc.Wire.{Link, writer_task, reader_task}
use rust_croc.Wire.RoundTrip.{framed}
use rust_croc.Wire.Tasks.{wire, Fits, reader_task-wire}
use rust_croc.Wire.EndToEnd.{writer_task_lem, flat-framed, read_end}
use rust_croc.Crypto.{Primitives}
use rust_croc.Pake.{PakeCrate}
use rust_croc.Server.{Rooms, lookup, Config}
use rust_croc.Server.Keepalive.{pings}
use rust_croc.Client.{Random}
use rust_croc.Client.Meeting.{CanJoin}
use rust_croc.Session.NetTask.{Sha256, start_stream, start_mpsc_stream, start_net_task}
use rust_croc.Session.NetTask.Meeting.{
  hex-prefix, dial_to, data_room, data_secret, start_net_task_lem, reads_on,
}
use rust_croc.Program.Relay.{Ends, RelayRun, relay_run}

pings-Fits : (n : ℕ) → Fits (pings n)
pings-Fits zero = tt
pings-Fits (suc n) = (omega arith, pings-Fits n)

module _ (net : Net) (prim : Primitives) (pake : PakeCrate) (sha256 : Sha256) where
  -- What a reading task makes of a connection over which these messages come in.
  reads_all :
      (ms : List Bytes) (c : Socket) (up : Bytes)
      → Fits ms
      → (got : Link) × (reader_task net
            (suc (length ms))
            (reads_on net prim pake sha256 c up (wire ms ++ []))
          ≡ (true, got))
        × (got.channel.queue ≡ ms)
  reads_all ms c up fits =
      let l = reads_on net prim pake sha256 c up [] in
      let p =
        reader_task net (suc (length ms)) (reads_on net prim pake sha256 c up (wire ms ++ [])) in
      let (ended, queued) =
        reader_task-wire net ms [] (suc (length ms)) l fits (omega arith) refl
          (read_end net l.socket) in
      (p.1, ap (λ b. (b, p.1)) ended, ap (λ c. c.queue) queued)

  -- The run of the connections for data of two programs, of which the first has these messages for
  -- the second: `start_net_task` of both, the relay, the writing task of the first and the reading
  -- tasks of both, which come to the end of what is heard. The first gets the pings of the relay.
  pub record DataRun (config config' : Config) (draw draw' : Random)
      (port secret theirs theirs' addr addr' : Bytes) (amount amount' n : ℕ) (x y : Ends)
      (rooms : Rooms) (messages : List Bytes) : Type 0 where
    pub said : Bytes
    pub heard : Bytes
    pub said' : Bytes
    pub heard' : Bytes
    pub relayed :
        RelayRun net prim pake config config'
          (data_room net prim pake sha256 secret)
          theirs
          theirs'
          addr
          addr'
          amount
          amount'
          n
          x
          y
          rooms
          said
          heard
          said'
          heard'
    pub mine : Link
    pub peer : Link
    pub connected :
        start_net_task net prim pake sha256 draw
          (dial_to (codes "localhost:" ++ port) (record x.client { incoming = heard }))
          port
          secret
        ≡ ok mine
    pub connected' :
        start_net_task net prim pake sha256 draw'
          (dial_to (codes "localhost:" ++ port) (record y.client { incoming = heard' }))
          port
          secret
        ≡ ok peer
    pub out : Socket
    pub written : writer_task net (map framed messages) mine.socket ≡ (ok tt, out)
    pub all_said : out.sent ≡ x.client.sent ++ said
    pub all_said' : peer.socket.sent ≡ y.client.sent ++ said'
    pub own : Link
    pub read_pings : reader_task net (suc (length (pings n))) mine ≡ (true, own)
    pub only_pings : own.channel.queue ≡ pings n
    pub got : Link
    pub read : reader_task net (suc (length messages)) peer ≡ (true, got)
    pub arrived : got.channel.queue ≡ messages

  -- Take two clients that start_net_task connects to one relay with the password pass123, as the
  -- first and the second of the room that their secret of at least five bytes names and that is not
  -- there yet; random data and messages of the lengths that the cipher and the frames take, public
  -- keys whose texts fit a frame, addresses without a vertical bar and sockets that take bytes; and
  -- a list of messages that fit a frame each. Then there is a run in which start_net_task of each
  -- gives a stream from what it hears; handle of the first makes the room, the keepalive sends so
  -- many pings, handle of the second joins it, and bridge_sockets between the two comes to where
  -- each has been sent all that it hears; the writing task of the first sends the frames of the
  -- messages, with which it has said all that the relay reads; the reading task of the first ends
  -- with exactly the pings in its channel, and that of the second with exactly the messages, in
  -- order.
  pub data_arrives :
      (config config' : Config) (draw draw' : Random)
      (port secret theirs theirs' addr addr' : Bytes) (amount amount' n : ℕ) (x y : Ends)
      (rooms : Rooms) (messages : List Bytes)
      → ((p : pake.PubKey) → length (pake.json.text p) < 2 ^ 32)
      → 5 ≤ length secret
      → CanJoin net prim config draw (codes "pass123") (data_room net prim pake sha256 secret) addr
      → CanJoin net prim config' draw'
          (codes "pass123")
          (data_room net prim pake sha256 secret)
          addr'
      → lookup (data_room net prim pake sha256 secret) rooms ≡ none
      → Fits messages
      → DataRun config config' draw draw' port secret theirs theirs' addr addr' amount amount' n x y
          rooms messages
  unfolding start_stream start_mpsc_stream
  data_arrives config config' draw draw' port secret theirs theirs' addr addr' amount amount' n x y
        rooms messages short long j j' no_room fits =
      let hashed = sha256.digest (drop 5 secret) in
      let (_, three, size) =
        hex-prefix hashed (sha256.length-digest (drop 5 secret))
          (sha256.digest-IsBytes (drop 5 secret)) in
      let (up, down, up', down', served, joins, joins') =
        relay_run net prim pake config config' draw draw' (codes "pass123")
          (data_room net prim pake sha256 secret) (data_secret net prim pake sha256 secret) theirs
          theirs' addr addr' amount amount' n false false x y rooms short (omega (arith, size))
          three j j' no_room in
      let (pinged, read_pings, only_pings) = reads_all (pings n) x.client up (pings-Fits n) in
      let (got, read, arrived) = reads_all messages y.client up' fits in
      let mine = reads_on net prim pake sha256 x.client up (wire (pings n) ++ []) in
      let gives = wire messages ++ [] in
      record {
        said = up ++ gives;
        heard = down ++ (wire (pings n) ++ []);
        said' = up' ++ [];
        heard' = down' ++ gives;
        relayed = served gives [];
        mine = mine;
        peer = reads_on net prim pake sha256 y.client up' gives;
        connected =
            start_net_task_lem net prim pake sha256 draw port secret
              (record x.client { incoming = down ++ (wire (pings n) ++ []) }) long
            ∙ ap (start_stream net prim pake sha256) (joins (wire (pings n) ++ []));
        connected' =
            start_net_task_lem net prim pake sha256 draw' port secret
              (record y.client { incoming = down' ++ gives }) long
            ∙ ap (start_stream net prim pake sha256) (joins' gives);
        out = record mine.socket { sent = mine.socket.sent ++ wire messages };
        written =
            writer_task_lem net (map framed messages) mine.socket x.client_takes
            ∙ rw (flat-framed net messages) refl;
        all_said =
            append_assoc x.client.sent up (wire messages)
            ∙ ap (λ z. x.client.sent ++ (up ++ z)) (rw (append-nil (wire messages)) refl);
        all_said' = rw (append-nil up') refl;
        own = pinged;
        read_pings = read_pings;
        only_pings = only_pings;
        got = got;
        read = read;
        arrived = arrived;
      }
