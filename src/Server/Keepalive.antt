-- ===== src/Server/Keepalive.antt =====
-- src/relay/server.rs: the loop of `do_keepalive`, on a connection that waits for the other.
use rust_croc.Common.{
  ℕ, zero, suc, ◌≡◌, refl, ap, true, [], ◌∷◌, ◌++◌, append_assoc, append-nil, replicate, ok, Act,
  arith, List, Bytes, All, inl, beq, err, panic, Outcome,
}
use rust_croc.Net.{Net, Socket}
use rust_croc.Wire
use rust_croc.Wire.RoundTrip.{framed, write_lem}
use rust_croc.Wire.Tasks.{wire}
use rust_croc.Client.Keepalive.{IsWaiting, replies}

-- So many pings.
abbrev pub pings : ℕ → List Bytes
pings n = replicate n (1 ∷ [])

-- The loop goes on after a ping, and ends without an error if it fails.
unfoldable pub after_ping :
    Outcome (Unit {0}) × Socket → Act Socket (Unit {0}) → Outcome (Unit {0}) × Socket
after_ping (ok _, s) more = more s
after_ping (err e, s) more = (ok tt, s)
after_ping (panic, s) more = (panic, s)

module _ (net : Net) where
  -- So many rounds of the loop that find the connection in the first place of its room.
  unfoldable pub keepalive : ℕ → Act Socket (Unit {0})
  unfolding after_ping
  keepalive zero s = (ok tt, s)
  keepalive (suc n) s = after_ping (Wire.write net (1 ∷ []) s) (keepalive n)

  pub keepalive_lem :
      (n : ℕ) (s : Socket)
      → s.writable ≡ true
      → keepalive n s ≡ (ok tt, record s { sent = s.sent ++ wire (pings n) })
  unfolding keepalive
  keepalive_lem zero s w = rw append-nil refl
  keepalive_lem (suc n) s w =
      let t : Socket = record s { sent = s.sent ++ framed (1 ∷ []) } in
      rw (write_lem net (1 ∷ []) s (omega arith) w, keepalive_lem n t w)
        (ap (λ x. (ok tt, record s { sent = x }))
          (append_assoc s.sent (framed (1 ∷ [])) (wire (pings n))))

-- The client waits through pings, and answers none.
pub pings-IsWaiting : (n : ℕ) → All IsWaiting (pings n)
pings-IsWaiting zero = tt
pings-IsWaiting (suc n) = (inl refl, pings-IsWaiting n)

pub replies-pings : (text : Bytes) (n : ℕ) → replies text (pings n) ≡ []
unfolding replies beq
replies-pings text zero = refl
replies-pings text (suc n) = replies-pings text n
