-- ===== src/Lib.antt =====
-- The verification library of rust-croc, a Rust port of croc: two machines send each other files
-- through a relay, over connections that are encrypted with a key that both make of one secret.
--
-- The program's parts, and the files that model them (paths from the repository's root):
-- * Wire models src/proto/croc_raw.rs: the frame (four bytes of magic, a length, the message), `read`
--   and `write` of `CrocProto`, the channels of `MpscCrocProto` and `OwnedSender`, and the two tasks
--   of `MpscCrocProto::from_stream`, one that writes what the channel holds and one that reads.
-- * Pake models `negotiate_symmetric_key` of the same file.
-- * Crypto models src/crypto/aes.rs, and Enc src/proto/croc_enc.rs: `EncryptedSession`, which puts
--   `AesEncryptor` in front of the frames.
-- * Server models src/relay/server.rs: the rooms, `negotiate_info`, in Server.Answer the start of
--   `handle`, in
--   Server.Start what `Relay::start` runs, in Server.Tasks what the tasks of `handle` and
--   `do_keepalive` do with the rooms, under the lock of the map and those of the rooms, in any order,
--   where a ping with its write is one move; in Server.Keepalive the pings of one connection; and in
--   Server.Bridge the copying between the two connections of a room, as a step relation.
-- * Client models src/relay/client.rs: `RelayClient`, its `negotiate_info`, which talks to the one of
--   the server, and `handle_keepalive`, which answers the relay until a receiver comes. Client.Meeting
--   has two of these in one room of the server.
-- * Files and Fs model src/relay/fs.rs: the task that reads chunks of a file, encrypts them and sends
--   them, and the task that decrypts chunks and writes them. They use Enc, and the channel of Wire.
-- * Transfer models the chunk loops of src/proto/client_session.rs, which drive the tasks of Fs; in
--   Transfer.Loop the receiving one as it is written, over a channel.
-- * Session models the rest of that file: `ClientSession` and its handlers, in Session.Files those for
--   files, in Session.Loop the loop of `process_client`, in Session.NetTask `start_net_task`, which
--   connects for data through Client, and in Session.EndToEnd two sessions against each other; Msg
--   models the messages of src/proto/croc_msg.rs that it sends and receives.
-- * Program models src/main.rs: the functions `sender` and `receiver` of `main`, which use Client and
--   Session. Program.Relayed has both of them over Server, from `connect` to the files, and
--   Program.Whole with their connections for data as well, which Program.Data is about.
-- * Echo models src/relay/mod.rs: the two clients of its test `test_relay`, over the relay.
-- * Net, Crypto.Primitives, Pake.PakeCrate, Json, Files.FileOps, Session.Files.Disk and Msg.Desktop are
--   the interfaces to crates that the code calls: tokio and byteorder, pbkdf2 with sha2 and aes-gcm,
--   rust_pake, serde_json, the files of tokio, and its folders with the prompts of inquire; and
--   Session.NetTask.Sha256 is sha2 by itself. They are records of operations and of what their
--   documentation promises. Tests has an instance of each. Std models what the code uses of the
--   language's own library: the little-endian bytes of a number, UTF-8, slices, and operations of
--   texts and paths.
--
-- How code becomes definitions: a call that can fail and works on a state `S` is an `Act S A`, a
-- function from the state to a result (`ok`, `err`, or `panic` for an unwrap, a todo!() or a slice out
-- of range) and the state after it, and `?` is the bind of the do blocks. A socket is the bytes that
-- will come in until the peer closes its side, the bytes sent so far, and whether the peer takes
-- bytes; a channel is a queue and whether its receiver is there. Bytes are natural numbers, and texts
-- are their bytes. Randomness is an argument of the call that draws it. Debug output is left out.
-- A task that is spawned for a chunk, and that the code does not wait for, is run where it is spawned:
-- what is said of the files is what they are once these tasks have run. The disk of a receiver is the
-- files that it has made, one for each path, and a file that is made again loses what it had. An i64 is
-- the number below 2^64 that has its bits.
--
-- Bounds and fuel: `read` refuses nothing by its length, and `write` refuses a message whose length
-- does not fit 32 bits. The loops that read messages until one fails run on fuel, one unit for each
-- message; the theorems about them take more fuel than there are messages, or than there are bytes,
-- since each message takes eight bytes at least; `process_client` takes a list with the randomness of
-- each round, and its invariant holds for every list. The chunk loop of a file takes one unit for each
-- chunk, and has as many as the file has bytes.
--
-- Not modelled: src/cli, which no module includes; `main` itself, which runs its functions at once,
-- src/common and the log, which are glue and configuration; `CrocFsInterface` and the `into_split`
-- of it and of `MpscCrocProto`, which hand the ends of channels on; the test `test_clients` in
-- src/relay/mod.rs, which does not compile; in src/relay/server.rs the listener of
-- `run_instance` and its loop over accept, of which Server.Tasks has the tasks that it spawns.
pub mod Common
pub mod Std
pub mod Net
pub mod Wire
pub mod Crypto
pub mod Enc
pub mod Json
pub mod Pake
pub mod Server
pub mod Client
pub mod Files
pub mod Fs
pub mod Msg
pub mod Session
pub mod Program
pub mod Echo
pub mod Transfer
mod Tests
