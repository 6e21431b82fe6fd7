-- ===== src/Session/Refusal.antt =====
-- What becomes of a transfer that the user of the receiver refuses.
use rust_croc.Common.{
  ◌^◌, ◌<◌, ◌≡◌, refl, true, false, Option, List, ◌∷◌, ◌++◌, length, Bytes, ok, err, panic, codes,
  transfare_denied,
}
use rust_croc.Net.{Net}
use rust_croc.Wire.RoundTrip.{framed}
use rust_croc.Crypto.{Primitives}
use rust_croc.Pake.{PakeCrate}
use rust_croc.Json.{Json}
use rust_croc.Files.{FileOps}
use rust_croc.Msg.{FilesInformation, Message, Desktop, question}
use rust_croc.Session.{file_info_transfare, is_file_info_transfare}
use rust_croc.Session.Agree.{send_lem}
use rust_croc.Session.Files.{Disk, Running, ask_receive, decide_files, process_files_info, joined}
use rust_croc.Session.Hear.{hearing, client_round-hearing}
use rust_croc.Session.Loop.{Random, on_message, client_loop}

-- What the receiver sends.
abbrev pub refusal : Message
refusal = Message.type_error (record { message = codes "refusing files" })

module _ (net : Net) (prim : Primitives) (pake : PakeCrate) (json : Json Message) (d : Desktop)
    (disk : Disk d.World) (fs : FileOps) where
  abbrev Client : Type 0
  Client = Running net prim pake json d disk fs

  -- A receiver that waits for what the files are.
  abbrev pub expecting : Client → Client
  expecting r = record r {
    session = record r.session { is_sender = false; state = file_info_transfare };
  }

  -- For a receiver that waits for what the files are and whose user is asked and refuses them, a
  -- connection that takes bytes and a refusal that fits a frame: process_files_info ends in the
  -- error that the transfer was denied, having sent the refusal and received no file; and whatever
  -- state the peer is in, and whatever comes behind, its loop, given at least one round, panics on
  -- that message.
  pub refusal_panics :
      (i : FilesInformation) (r s : Client) (files : Option FilesInformation) (random : Random)
      (rounds : List Random) (rest : Bytes)
      → r.session.stream.writable ≡ true
      → (question d i r.world).0 ≡ ok false
      → length (json.text refusal) < 2 ^ 32
      → let (ended, t) = process_files_info net prim pake json d disk fs i (expecting r) in
        (ended ≡ err transfare_denied)
        × (t.session.stream.sent ≡ r.session.stream.sent ++ framed (json.text refusal))
        × (t.received ≡ r.received)
        × ((client_loop net prim pake json d disk fs files
              (random ∷ rounds)
              (hearing net prim pake json d disk fs (framed (json.text refusal) ++ rest) s)).0
            ≡ panic)
  unfolding process_files_info is_file_info_transfare ask_receive decide_files joined client_loop
      on_message
  refusal_panics i r s files random rounds rest w no_ fits = (
    rw (no_, send_lem net prim pake json refusal r.session.stream fits w) refl,
    rw (no_, send_lem net prim pake json refusal r.session.stream fits w) refl,
    rw (no_, send_lem net prim pake json refusal r.session.stream fits w) refl,
    rw (client_round-hearing net prim pake json d disk fs files random refusal rest s fits) refl,
  )
