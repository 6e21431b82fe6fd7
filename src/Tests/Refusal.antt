-- ===== src/Tests/Refusal.antt =====
-- A user who refuses.
use rust_croc.Common.{
  ◌≡◌, refl, false, none, [], ◌∷◌, ok, err, panic, transfare_denied, arith, ◌++◌,
}
use rust_croc.Wire.RoundTrip.{framed}
use rust_croc.Msg.{Desktop}
use rust_croc.Session.Files.{Running, process_files_info}
use rust_croc.Session.Loop.{client_loop}
use rust_croc.Session.Hear.{hearing}
use rust_croc.Session.Refusal.{refusal, expecting, refusal_panics}
use rust_croc.Tests.Net.{net}
use rust_croc.Tests.Crypto.{prim}
use rust_croc.Tests.Handshake.{pake}
use rust_croc.Tests.Messages.{messages_json}
use rust_croc.Tests.Transfer.{files}
use rust_croc.Tests.Session.{desktop}
use rust_croc.Tests.EndToEnd.{disk, offer, client, draw}

abbrev refusing : Desktop
refusing = record desktop { confirm_receive = λ n b w. (ok false, w) }

abbrev party : Running net prim pake messages_json refusing disk files
party = record {
  session = client.session;
  world = client.world;
  rw = none;
  requests = [];
  reading = client.reading;
  incoming = [];
  received = [];
}

refusal_panics_example :
    let (ended, t) =
      process_files_info net prim pake messages_json refusing disk files offer
        (expecting net prim pake messages_json refusing disk files party) in
    (ended ≡ err transfare_denied)
    × (t.session.stream.sent ≡ framed (messages_json.text refusal))
    × (t.received ≡ [])
    × ((client_loop net prim pake messages_json refusing disk files none (draw ∷ []) (
          hearing net prim pake messages_json refusing disk files
            (framed (messages_json.text refusal) ++ [])
            party)).0
        ≡ panic)
unfolding rust_croc.Msg.question
refusal_panics_example =
    refusal_panics net prim pake messages_json refusing disk files offer party party none draw [] []
      refl refl (omega arith)
