-- ===== src/Echo.antt =====
-- src/relay/mod.rs: `client_a` and `client_b` of the test `test_relay`, which send a text there and
-- back.
pub mod Relayed
use rust_croc.Common.{
  ℕ, Bool, true, false, Option, none, some, List, Bytes, Outcome, ok, err, panic, Act, ◌>>=◌, ◌>>◌,
  return, crash, beq, if◌then◌else◌, codes,
}
use rust_croc.Net.{Net, Socket}
use rust_croc.Wire
use rust_croc.Crypto.{Primitives}
use rust_croc.Pake.{PakeCrate}
use rust_croc.Json.{Json}
use rust_croc.Client.{RelayClient, Random, Interface, connect}
use rust_croc.Msg.{Message}
use rust_croc.Session.{ClientSession, connect_to_sender, wait_for_receiver}

-- `MSG`
abbrev pub msg : Bytes
msg = codes "hello"

-- How a client ends, false when it has used up the messages that it may wait for, and its stream, if
-- it has come to a session.
abbrev pub End : Type 0
End = Outcome Bool × Option Socket

ended : Outcome (Unit {0}) × Socket → End
ended (ok _, s) = (ok true, some s)
ended (err e, s) = (err e, some s)
ended (panic, s) = (panic, some s)

module _ (net : Net) (prim : Primitives) (pake : PakeCrate) (json : Json Message) where
  -- What `client_a` does with its stream, with the assertion that the text comes back.
  unfoldable pub call : Act Socket (Unit {0})
  call = do Wire.write net msg; answer ← Wire.read net; if beq answer msg then return tt else crash

  -- What `client_b` does with its stream.
  unfoldable pub echo : Act Socket (Unit {0})
  echo = do buff ← Wire.read net; Wire.write net buff

  unfoldable pub call_waited : Outcome (Option (ClientSession net prim pake)) → End
  unfolding ended call
  call_waited (ok (some s)) = ended (call s.stream)
  call_waited (ok none) = (ok false, none)
  call_waited (err e) = (err e, none)
  call_waited panic = (panic, none)

  unfoldable pub echo_greeted : Outcome (ClientSession net prim pake) → End
  unfolding ended echo
  echo_greeted (ok s) = ended (echo s.stream)
  echo_greeted (err e) = (err e, none)
  echo_greeted panic = (panic, none)

  unfoldable pub call_by : Json (List Bytes) → List Interface → ℕ → Outcome RelayClient → End
  unfolding call_waited
  call_by texts interfaces fuel (ok c) =
      call_waited (wait_for_receiver net prim pake json texts interfaces fuel c)
  call_by texts interfaces fuel (err e) = (err e, none)
  call_by texts interfaces fuel panic = (panic, none)

  unfoldable pub echo_by : Outcome RelayClient → End
  unfolding echo_greeted
  echo_by (ok c) = echo_greeted (connect_to_sender net prim pake json c)
  echo_by (err e) = (err e, none)
  echo_by panic = (panic, none)

  -- `client_a`, which waits for at most so many messages of the relay.
  unfoldable pub client_a : Json (List Bytes) → List Interface → ℕ → Random → Outcome Socket → End
  unfolding call_by
  client_a texts interfaces fuel random connected =
      call_by texts interfaces fuel
        (connect net prim pake random connected (codes "pass123") (codes "12345") false)

  -- `client_b`
  unfoldable pub client_b : Random → Outcome Socket → End
  unfolding echo_by
  client_b random connected =
      echo_by (connect net prim pake random connected (codes "pass123") (codes "12345") false)
