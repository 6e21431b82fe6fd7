-- ===== src/Session/Sender.antt =====
-- A whole run of `process_client` of a sender, against what a receiver has to say.
use rust_croc.Common.{
  ℕ, suc, ◌^◌, ◌+◌, ◌<◌, ◌≡◌, refl, ap, ◌∙◌, true, Option, some, List, [], ◌∷◌, ◌++◌, append_assoc,
  append-nil, All, drop, get_elem?, length, Bytes, ok, arith,
}
use rust_croc.Net.{Net}
use rust_croc.Wire.RoundTrip.{framed}
use rust_croc.Crypto.{Primitives}
use rust_croc.Enc.{EncryptedSession}
use rust_croc.Pake.{PakeCrate}
use rust_croc.Json.{Json}
use rust_croc.Files.{File, FileOps}
use rust_croc.Msg.{FileInfo, FilesInformation, Message, Desktop}
use rust_croc.Session.{offer_key}
use rust_croc.Session.Agree.{
  sent, keyed, sending, Fits, Keys, offer_of, answer_of, encryption, address, send_lem,
}
use rust_croc.Session.Files.{Disk, Running}
use rust_croc.Session.Loop.{
  Random, on_message, go_on, client_round, client_loop, need_port, need_secret, process_client,
}
use rust_croc.Session.Hear.{hearing, client_round-hearing, client_loop-goes, client_loop-ends}
use rust_croc.Session.Sending.{
  drop-cons, ready, readies, source, chunks_of, as_sender, told, key_round, introduced,
  address_round, serving, asked, ready_round,
}
use rust_croc.Std.Slice.{str-bytes_suffix, str_suffix}

module _ (net : Net) (prim : Primitives) (pake : PakeCrate) (json : Json Message) (d : Desktop)
    (disk : Disk d.World) (fs : FileOps) where
  abbrev Client : Type 0
  Client = Running net prim pake json d disk fs

  -- The end of a session, for either side.
  pub finished_round :
      (files : Option FilesInformation) (random : Random) (rest : Bytes) (c : Client)
      → length (json.text Message.finished) < 2 ^ 32
      → c.session.stream.writable ≡ true
      → client_round net prim pake json d disk fs files random
          (hearing net prim pake json d disk fs (framed (json.text Message.finished) ++ rest) c)
        ≡ (
          ok true,
          hearing net prim pake json d disk fs rest
              (told net prim pake json d disk fs Message.finished c),
        )
  unfolding on_message go_on
  finished_round files random rest c short w =
      client_round-hearing net prim pake json d disk fs files random Message.finished rest c short
      ∙ rw
          (send_lem net prim pake json Message.finished
            (hearing net prim pake json d disk fs rest c).session.stream short w)
          refl

  module _ (i : FilesInformation) (all : List FileInfo) (listed : i.files_to_transfare ≡ some all)
      (file_at : Bytes → File) (end_fits : length (json.text Message.finished) < 2 ^ 32) where
    abbrev Opens : Client → FileInfo → Type 0
    Opens c f = disk.open_ (source f) c.world ≡ (ok (file_at (source f)), c.world)

    module _ (e : EncryptedSession net prim) where
      -- The requests for all files from the n-th on, and the end.
      pub requests_loop :
          (rounds : List Random) (n : ℕ) (left : List FileInfo) (rest : Bytes) (c : Client)
          → drop n all ≡ left
          → All (Opens c) left
          → ((k : ℕ) → k < n + length left → length (json.text (ready k)) < 2 ^ 32)
          → length left < length rounds
          → c.reading ≡ true
          → c.session.stream.writable ≡ true
          → client_loop net prim pake json d disk fs (some i) rounds (
              hearing net prim pake json d disk fs
                (readies json n left ++ (framed (json.text Message.finished) ++ rest))
                (serving net prim pake json d disk fs e c))
            ≡ (
              ok true,
              told net prim pake json d disk fs Message.finished (
                  hearing net prim pake json d disk fs rest (
                    serving net prim pake json d disk fs e
                      (asked net prim pake json d disk fs (chunks_of file_at left) c))),
            )
      requests_loop [] n left rest c h opens short enough reads w = absurd (omega arith)
      requests_loop (random ∷ rounds) n [] rest c h opens short enough reads w =
          client_loop-ends net prim pake json d disk fs (some i) random rounds _ _ (
            finished_round (some i) random rest (serving net prim pake json d disk fs e c) end_fits
              w)
          ∙ rw append-nil refl
      requests_loop (random ∷ rounds) n (f ∷ left) rest c h (first, opens) short enough reads w =
          let (there, later) = drop-cons n all f left h in
          ap
            (λ bs.
              client_loop net prim pake json d disk fs (some i) (random ∷ rounds) (
                hearing net prim pake json d disk fs bs (serving net prim pake json d disk fs e c)))
            (append_assoc (framed (json.text (ready n))) (readies json (suc n) left)
              (framed (json.text Message.finished) ++ rest))
          ∙ client_loop-goes net prim pake json d disk fs (some i) random rounds _ _ (
              ready_round net prim pake json d disk fs i all listed file_at random n f
                (readies json (suc n) left ++ (framed (json.text Message.finished) ++ rest)) e c
                there first reads (short n (omega arith)))
          ∙ requests_loop rounds (suc n) left rest
              (asked net prim pake json d disk fs (chunks_of file_at (f ∷ [])) c) later opens
              (λ k less. short k (omega (arith, less))) (omega arith) reads w
          ∙ ap
              (λ js. (
                ok true,
                told net prim pake json d disk fs Message.finished (
                    hearing net prim pake json d disk fs rest
                      (serving net prim pake json d disk fs e (record c { requests = js }))),
              ))
              (append_assoc c.requests (chunks_of file_at (f ∷ [])) (chunks_of file_at left)
                ∙ rw append-nil refl)

    -- A sender with the keys and the encryption.
    abbrev pub keyed_sender :
        {weak random random' : Bytes}
        → Keys net prim pake json weak random random'
        → Bytes
        → Client
        → Client
    keyed_sender keys salt c = record c {
      session =
          keyed net prim pake json keys.sender_key (encryption net prim pake json keys.strong salt)
            (sent net prim pake json
              (Message.pake (answer_of net prim pake json keys.sender_key salt))
              (sending net prim pake json c.session));
      rw = some (encryption net prim pake json keys.strong salt);
    }

    -- The whole run: the session takes part in the key exchange and in that of the addresses, tells
    -- its files, and serves the requests for them.
    pub sender_run :
        {weak random random' : Bytes} (keys : Keys net prim pake json weak random random')
        (salt : Bytes) (ip port next_key rest : Bytes) (incoming : List Bytes) (next : Random)
        (rounds : List Random) (c : Client)
        → get_elem? c.session.relay_ports 0 ≡ some port
        → str_suffix 5 c.session.shared_secret ≡ ok weak
        → length (json.text (Message.pake (offer_of net prim pake json weak random))) < 2 ^ 32
        → Fits net prim pake json salt
        → length (json.text (Message.external_ip (record { external_ip = ip }))) < 2 ^ 32
        → length (json.text (address net prim pake json c.session)) < 2 ^ 32
        → length (json.text (Message.files_info i)) < 2 ^ 32
        → ((k : ℕ) → k < length all → length (json.text (ready k)) < 2 ^ 32)
        → All (Opens c) all
        → length all < length rounds
        → c.reading ≡ true
        → c.session.stream.writable ≡ true
        → process_client net prim pake json d disk fs
            (some i)
            (ok incoming)
            next_key
            (record { pake = random'; salt = salt } ∷ next ∷ rounds)
            (hearing net prim pake json d disk fs
              (framed (json.text (Message.pake (offer_of net prim pake json weak random)))
                ++ (framed (json.text (Message.external_ip (record { external_ip = ip })))
                    ++ (readies json 0 all ++ (framed (json.text Message.finished) ++ rest))))
              (as_sender net prim pake json d disk fs c))
          ≡ (
            ok true,
            told net prim pake json d disk fs Message.finished (
                hearing net prim pake json d disk fs rest (
                  serving net prim pake json d disk fs
                    (encryption net prim pake json keys.strong salt)
                    (asked net prim pake json d disk fs (chunks_of file_at all) (
                      introduced net prim pake json d disk fs i ip
                        (keyed_sender keys salt (record c { incoming = incoming })))))),
          )
    unfolding process_client need_port need_secret offer_key
    sender_run {weak} {random} {random'} keys salt ip port next_key rest incoming next rounds c
          has_port secret offer_fits answer_fits ip_fits address_fits info_fits ready_fits opens
          enough reads w =
        rw (has_port, str-bytes_suffix 5 c.session.shared_secret secret)
          (client_loop-goes net prim pake json d disk fs (some i)
              (record { pake = random'; salt = salt }) (next ∷ rounds) _ _
              (key_round net prim pake json d disk fs (some i) keys salt _
                (record c { incoming = incoming }) secret offer_fits answer_fits w)
            ∙ client_loop-goes net prim pake json d disk fs (some i) next rounds _ _ (
                address_round net prim pake json d disk fs i next ip _
                  (keyed_sender keys salt (record c { incoming = incoming })) ip_fits address_fits
                  info_fits w)
            ∙ requests_loop (encryption net prim pake json keys.strong salt) rounds 0 all rest
                (introduced net prim pake json d disk fs i ip
                  (keyed_sender keys salt (record c { incoming = incoming })))
                refl opens (λ k less. ready_fits k (omega (arith, less))) enough reads w)
