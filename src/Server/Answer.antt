-- ===== src/Server/Answer.antt =====
-- src/relay/server.rs: `handle` up to the rooms: a ping, or the negotiations.
use rust_croc.Common.{
  ℕ, zero, suc, ◌≡◌, refl, false, Option, none, ◌++◌, take, replicate, Bytes, Outcome, ok, Act,
  ◌>>=◌, ◌>>◌, lift, return, beq, if◌then◌else◌, codes,
}
use rust_croc.Net.{Net}
use rust_croc.Wire
use rust_croc.Wire.RoundTrip.{framed}
use rust_croc.Crypto.{Primitives}
use rust_croc.Enc.{reciever}
use rust_croc.Pake.{PakeCrate, negotiate_symmetric_key}
use rust_croc.Server.{Serving, Config, on_session, negotiate_info}

-- The buffer of four zeros after a `peek` that gave so many bytes.
unfoldable pub peeked_bytes : ℕ → Bytes → Bytes
peeked_bytes amount incoming = take 4 (take amount incoming ++ replicate 4 0)

module _ (net : Net) (prim : Primitives) (pake : PakeCrate) (config : Config) where
  -- `handle`, given what the `peek` and `peer_addr()` come to: the room to go on with, if there is one.
  unfoldable pub handle : Outcome ℕ → Bytes → Outcome Bytes → Act Serving (Option Bytes)
  unfolding peeked_bytes
  handle peek random peer_addr s =
      (do
        amount ← lift peek
        if beq (peeked_bytes amount s.session.incoming) (codes "ping")
            then (do on_session (Wire.write net (codes "pong")); return none)
            else (do
              sym_key ← on_session (negotiate_symmetric_key net pake reciever random)
              negotiate_info net prim config sym_key peer_addr))
        s

  -- What is framed is never taken for a ping, however much of it the peek gives.
  pub framed-not_ping :
      (amount : ℕ) (m rest : Bytes)
      → beq (peeked_bytes amount (framed m ++ rest)) (codes "ping") ≡ false
  unfolding peeked_bytes beq
  framed-not_ping zero m rest = refl
  framed-not_ping (suc n) m rest = refl

  -- So a connection that begins with a frame goes on to the negotiations.
  pub handle-framed :
      (amount : ℕ) (m rest random : Bytes) (peer_addr : Outcome Bytes) (s : Serving)
      → handle
          (ok amount)
          random
          peer_addr
          (record s { session = record s.session { incoming = framed m ++ rest } })
        ≡ (do
          sym_key ← on_session (negotiate_symmetric_key net pake reciever random)
          negotiate_info net prim config sym_key peer_addr)
            (record s { session = record s.session { incoming = framed m ++ rest } })
  unfolding handle
  handle-framed amount m rest random peer_addr s = rw (framed-not_ping amount m rest) refl
