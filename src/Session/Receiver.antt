-- ===== src/Session/Receiver.antt =====
-- A whole run of `process_client` of a receiver, against what a sender has to say.
use rust_croc.Common.{
  ℕ, ◌^◌, ◌+◌, ◌<◌, ◌≤◌, ◌≡◌, refl, ap, ◌∙◌, true, false, Option, none, some, List, [], ◌∷◌, ◌++◌,
  map, All, get_elem?, length, Bytes, ok, arith, unwrap, codes,
}
use rust_croc.Net.{Net}
use rust_croc.Wire.RoundTrip.{framed}
use rust_croc.Crypto.{Primitives}
use rust_croc.Enc.{EncryptedSession}
use rust_croc.Pake.{PakeCrate}
use rust_croc.Json.{Json}
use rust_croc.Files.{File, FileOps}
use rust_croc.Transfer.{tcp_buffer_size}
use rust_croc.Msg.{
  FileInfo, FilesInformation, Message, Desktop, listed, create_folders, create_empty_folders,
  question,
}
use rust_croc.Session.{
  ClientSession, ip_exchange, file_info_transfare, file_transfare, offer_key, is_ip_exchange,
  is_file_info_transfare, is_file_transfare, process_ip_exchange,
}
use rust_croc.Session.Agree.{Fits, Keys, answer_of, encryption, address, send_lem, offer_key_lem}
use rust_croc.Session.Files.{
  Disk, Running, ask_receive, decide_files, accept_files, start_files, process_files_info,
  receive_files,
}
use rust_croc.Session.Loop.{
  Random, on_message, tell_files, wanted, take_files, go_on, client_round, need_port, need_secret,
  process_client,
}
use rust_croc.Session.Hear.{hearing, client_round-hearing, client_loop-goes, client_loop-ends}
use rust_croc.Session.Sending.{ready, readies, told}
use rust_croc.Session.Sender.{finished_round}
use rust_croc.Session.Introduced.{
  as_receiver, keyed_receiver, has_offered, introduced_to, answer_round, ip_round,
}
use rust_croc.Session.Taking.{
  flat, outcome_of, promised, Described, AllDelivered, taken, taken_files, Apart, path_of,
}
use rust_croc.Std.Slice.{str-bytes_suffix, str_suffix}

module _ (net : Net) (prim : Primitives) (pake : PakeCrate) (json : Json Message) (d : Desktop)
    (disk : Disk d.World) (fs : FileOps) where
  abbrev Client : Type 0
  Client = Running net prim pake json d disk fs

  module _ (i : FilesInformation) (all : List FileInfo)
      (some_files : i.files_to_transfare ≡ some all)
      (no_folders : listed i.empty_folders_to_transfare ≡ []) (file_at : Bytes → File)
      (room : 8 + tcp_buffer_size ≤ prim.limit)
      (ready_fits : (k : ℕ) → k < length all → length (json.text (ready k)) < 2 ^ 32)
      (end_fits : length (json.text Message.finished) < 2 ^ 32)
      (described : All (Described net prim pake json d disk fs file_at) all) where
    -- A receiver that has taken the files.
    abbrev pub accepting : EncryptedSession net prim → Client → Client
    accepting e c = record c {
      session = record c.session {
        is_sender = false;
        files_to_receive = some i;
        state = file_transfare;
      };
      rw = some e;
    }

    started :
        (o : Option (List FileInfo))
        → o ≡ some all
        → (c : Client)
        → start_files net prim pake json d disk fs o c
          ≡ (ok tt, record c { session = record c.session { state = file_transfare } })
    unfolding start_files
    started none h c = absurd cc
    started (some files) h c = refl

    folders_lem : (w : d.World) → create_empty_folders d i w ≡ (ok tt, w)
    unfolding create_empty_folders create_folders
    folders_lem w = ap (λ folders. create_folders d folders w) no_folders

    -- The user agrees.
    process_files_info_lem :
        (e : EncryptedSession net prim) (c : Client)
        → (question d i c.world).0 ≡ ok true
        → process_files_info net prim pake json d disk fs i (record c {
          session = record c.session { is_sender = false; state = file_info_transfare };
          rw = some e;
        })
          ≡ (ok tt, record (accepting e c) { world = (question d i c.world).1 })
    unfolding process_files_info ask_receive rust_croc.Session.Files.joined decide_files
        accept_files is_file_info_transfare
    process_files_info_lem e c agrees =
        let answer = question d i c.world in
        let asked : answer ≡ (ok true, answer.1) = ap (λ r. (r, answer.1)) agrees in
        rw (asked, folders_lem answer.1, started i.files_to_transfare some_files) refl

    wanted_lem : wanted net prim pake json d disk fs (some i) ≡ ok all
    unfolding wanted
    wanted_lem = ap unwrap some_files

    -- The files are taken, and the receiver is finished.
    take_files_lem :
        (e : EncryptedSession net prim) (comes : List (List Bytes)) (more : List Bytes) (c : Client)
        → Apart disk (map path_of c.received) all
        → AllDelivered net prim pake json d disk fs file_at e all comes
        → c.session.stream.writable ≡ true
        → (w : d.World) × (got : List (Bytes × File)) × (take_files net prim pake json d disk fs
              (record (accepting e c) { incoming = flat comes ++ more })
            ≡ (
              ok tt,
              told net prim pake json d disk fs Message.finished (
                  taken net prim pake json d disk fs file_at
                    (readies json 0 all)
                    w
                    more
                    got
                    (accepting e c)),
            ))
          × (map outcome_of got ≡ map (promised file_at) all)
    unfolding take_files is_file_transfare
    take_files_lem e comes more c apart delivered w =
        let (w1, got, run, right) =
          taken_files net prim pake json d disk fs file_at e room 0 all comes more (accepting e c)
            described apart delivered (λ k less. ready_fits k (omega (arith, less))) w in
        let took =
          taken net prim pake json d disk fs file_at (readies json 0 all) w1 more got
            (accepting e c) in
        (
          w1,
          got,
          rw
              (
                wanted_lem,
                run,
                send_lem net prim pake json Message.finished took.session.stream end_fits w,
              )
              refl,
          right,
        )

    pub files_round :
        (e : EncryptedSession net prim) (comes : List (List Bytes)) (more : List Bytes)
        (rest : Bytes) (next : Random) (c : Client)
        → (question d i c.world).0 ≡ ok true
        → Apart disk (map path_of c.received) all
        → AllDelivered net prim pake json d disk fs file_at e all comes
        → length (json.text (Message.files_info i)) < 2 ^ 32
        → c.session.stream.writable ≡ true
        → (w : d.World) × (got : List (Bytes × File)) × (client_round net prim pake json d disk fs
              none next
              (hearing net prim pake json d disk fs
                (framed (json.text (Message.files_info i)) ++ rest)
                (record c {
                  session = record c.session { is_sender = false; state = file_info_transfare };
                  rw = some e;
                  incoming = flat comes ++ more;
                }))
            ≡ (
              ok false,
              hearing net prim pake json d disk fs rest (
                  told net prim pake json d disk fs Message.finished (
                    taken net prim pake json d disk fs file_at
                      (readies json 0 all)
                      w
                      more
                      got
                      (accepting e c))),
            ))
          × (map outcome_of got ≡ map (promised file_at) all)
    unfolding on_message go_on tell_files is_file_info_transfare
    files_round e comes more rest next c agrees apart delivered short w =
        let c0 =
          hearing net prim pake json d disk fs rest (record c { incoming = flat comes ++ more }) in
        let c1 : Client = record c0 { world = (question d i c.world).1 } in
        let (w1, got, took, right) = take_files_lem e comes more c1 apart delivered w in
        (
          w1,
          got,
          client_round-hearing net prim pake json d disk fs none next (Message.files_info i) rest
                (record c {
                  session = record c.session { is_sender = false; state = file_info_transfare };
                  rw = some e;
                  incoming = flat comes ++ more;
                })
                short
              ∙ rw (process_files_info_lem e c0 agrees, took) refl,
          right,
        )

    -- The whole run: the session takes part in the key exchange and in that of the addresses, takes
    -- the files, and asks for them.
    pub receiver_run :
        {weak random random' : Bytes} (keys : Keys net prim pake json weak random random')
        (salt : Bytes) (ip port : Bytes) (comes : List (List Bytes)) (more : List Bytes)
        (r1 r2 r3 r4 : Random) (rounds : List Random) (c : Client)
        → get_elem? c.session.relay_ports 0 ≡ some port
        → str_suffix 5 c.session.shared_secret ≡ ok weak
        → length salt ≡ 8
        → Fits net prim pake json (codes "siec")
        → Fits net prim pake json salt
        → length (json.text (Message.external_ip (record { external_ip = ip }))) < 2 ^ 32
        → length (json.text (address net prim pake json c.session)) < 2 ^ 32
        → length (json.text (Message.files_info i)) < 2 ^ 32
        → (question d i c.world).0 ≡ ok true
        → Apart disk (map path_of c.received) all
        → AllDelivered net prim pake json d disk fs file_at
            (encryption net prim pake json keys.strong salt)
            all
            comes
        → c.session.stream.writable ≡ true
        → (w : d.World) × (got : List (Bytes × File)) × (process_client net prim pake json d disk fs
              none
              (ok (flat comes ++ more))
              random
              (r1 ∷ r2 ∷ r3 ∷ r4 ∷ rounds)
              (hearing net prim pake json d disk fs
                (framed
                    (json.text (Message.pake (answer_of net prim pake json keys.sender_key salt)))
                  ++ (framed (json.text (Message.external_ip (record { external_ip = ip })))
                      ++ (framed (json.text (Message.files_info i))
                          ++ (framed (json.text Message.finished) ++ []))))
                (as_receiver net prim pake json d disk fs c))
            ≡ (
              ok true,
              told net prim pake json d disk fs Message.finished (
                  hearing net prim pake json d disk fs [] (
                    told net prim pake json d disk fs Message.finished (
                      taken net prim pake json d disk fs file_at (readies json 0 all) w more got (
                        accepting (encryption net prim pake json keys.strong salt) (
                          introduced_to net prim pake json d disk fs ip (
                            keyed_receiver net prim pake json d disk fs keys salt
                              (has_offered net prim pake json d disk fs weak random c))))))),
            ))
          × (map outcome_of got ≡ map (promised file_at) all)
    unfolding process_client need_port need_secret
    receiver_run {weak} {random} {random'} keys salt ip port comes more r1 r2 r3 r4 rounds c
          has_port secret size offer_fits answer_fits ip_fits address_fits info_fits agrees apart
          delivered w =
        let e = encryption net prim pake json keys.strong salt in
        let (w1, got, took, right) =
          files_round e comes more (framed (json.text Message.finished) ++ []) r3
            (introduced_to net prim pake json d disk fs ip (
              keyed_receiver net prim pake json d disk fs keys salt
                (has_offered net prim pake json d disk fs weak random c)))
            agrees apart delivered info_fits w in
        let c1 : Client = record c { incoming = flat comes ++ more } in
        let rest =
          framed (json.text (Message.pake (answer_of net prim pake json keys.sender_key salt)))
          ++ (framed (json.text (Message.external_ip (record { external_ip = ip })))
              ++ (framed (json.text (Message.files_info i))
                  ++ (framed (json.text Message.finished) ++ []))) in
        (
          w1,
          got,
          rw
              (
                has_port,
                str-bytes_suffix 5 c.session.shared_secret secret,
                offer_key_lem net prim pake json
                    (hearing net prim pake json d disk fs rest c1).session weak random secret
                    offer_fits w,
              )
              (client_loop-goes net prim pake json d disk fs none r1 (r2 ∷ r3 ∷ r4 ∷ rounds) _ _ (
                  answer_round net prim pake json d disk fs keys salt _ r1
                    (has_offered net prim pake json d disk fs weak random c1) size
                    (answer_fits (pake.pub_pake keys.sender_key)) address_fits w)
                ∙ client_loop-goes net prim pake json d disk fs none r2 (r3 ∷ r4 ∷ rounds) _ _ (
                    ip_round net prim pake json d disk fs ip _ r2
                      (keyed_receiver net prim pake json d disk fs keys salt
                        (has_offered net prim pake json d disk fs weak random c1))
                      ip_fits)
                ∙ client_loop-goes net prim pake json d disk fs none r3 (r4 ∷ rounds) _ _ took
                ∙ client_loop-ends net prim pake json d disk fs none r4 rounds _ _ (
                    finished_round net prim pake json d disk fs none r4 []
                      (told net prim pake json d disk fs Message.finished (
                        taken net prim pake json d disk fs file_at (readies json 0 all) w1 more got
                          (accepting e (
                            introduced_to net prim pake json d disk fs ip (
                              keyed_receiver net prim pake json d disk fs keys salt
                                (has_offered net prim pake json d disk fs weak random c))))))
                      end_fits w)),
          right,
        )
