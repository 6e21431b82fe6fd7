-- ===== src/Transfer/Loop.antt =====
-- src/proto/client_session.rs: the loop that receives a file, as it is written.
use rust_croc.Common.{
  ℕ, zero, suc, ◌+◌, ◌-◌, ◌≤◌, ◌≡◌, refl, Bool, List, [], ◌∷◌, Bytes, Outcome, ok, err, panic, ltb,
  le→ltb, lt→ltb, arith, if◌then◌else◌,
}
use rust_croc.Net.{Net, Channel}
use rust_croc.Wire.{read_channel}
use rust_croc.Crypto.{Primitives}
use rust_croc.Enc.{EncryptedSession}
use rust_croc.Files.{File, FileOps}
use rust_croc.Fs.{write_chunk}
use rust_croc.Transfer.{receive_chunks}

module _ (net : Net) (prim : Primitives) (fs : FileOps) (d : EncryptedSession net prim)
    (total_chunks : ℕ) where
  -- The rest of a round, with what `read` gives, and of the loop.
  unfoldable pub on_chunk :
      (ℕ → Channel → File → File × Channel) → ℕ → Outcome Bytes × Channel → File → File × Channel
  on_chunk loop current_amount (ok chunk, c) f =
      loop (current_amount + 1) c (write_chunk net prim fs d chunk f).1
  on_chunk loop current_amount (err e, c) f = (f, c)
  on_chunk loop current_amount (panic, c) f = (f, c)

  -- `while current_amount < total_chunks && let Ok(chunk) = receiver.read().await`, for at most so
  -- many rounds.
  unfoldable pub receive_loop : ℕ → ℕ → Channel → File → File × Channel
  unfolding on_chunk
  receive_loop zero current_amount c f = (f, c)
  receive_loop (suc fuel) current_amount c f =
      let next = on_chunk (receive_loop fuel) current_amount (read_channel c) f in
      if ltb current_amount total_chunks then next else (f, c)

  loop-receive_chunks :
      (fuel left current : ℕ) (queue : List Bytes) (open_ : Bool) (f : File)
      → current + left ≡ total_chunks
      → left ≤ fuel
      → let (g, rest) = receive_chunks net prim fs d left queue f in
        receive_loop fuel current (record { queue = queue; receiving = open_ }) f
        ≡ (g, record { queue = rest; receiving = open_ })
  unfolding receive_loop receive_chunks read_channel
  loop-receive_chunks zero zero current queue open_ f e h = refl
  loop-receive_chunks zero (suc left) current queue open_ f e h = absurd (omega (arith, h))
  loop-receive_chunks (suc fuel) zero current queue open_ f e h =
      rw (le→ltb current total_chunks (omega (arith, e))) refl
  loop-receive_chunks (suc fuel) (suc left) current [] open_ f e h =
      rw (lt→ltb current total_chunks (omega (arith, e))) refl
  loop-receive_chunks (suc fuel) (suc left) current (m ∷ ms) open_ f e h =
      rw (lt→ltb current total_chunks (omega (arith, e))) (
        loop-receive_chunks fuel left (current + 1) ms open_ (write_chunk net prim fs d m f).1
          (omega (arith, e)) (omega (arith, h)))

  -- For any number of chunks, any channel and any file: from any number of chunks already received
  -- that is not more, and with rounds enough for the others, the loop of process_client over read
  -- gives the file and leaves in the channel what receive_chunks gives and leaves for the number of
  -- chunks that are missing.
  pub receive_loop_lem :
      (fuel current_amount : ℕ) (c : Channel) (f : File)
      → current_amount ≤ total_chunks
      → total_chunks ≤ current_amount + fuel
      → let (g, left) = receive_chunks net prim fs d (total_chunks - current_amount) c.queue f in
        receive_loop fuel current_amount c f ≡ (g, record c { queue = left })
  receive_loop_lem fuel current_amount c f small more =
      loop-receive_chunks fuel (total_chunks - current_amount) current_amount c.queue c.receiving f
        (omega (arith, small)) (omega (arith, more))
