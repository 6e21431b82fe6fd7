-- ===== src/Server/Bridge.antt =====
-- src/relay/server.rs: `bridge_sockets`, the relaying between the two connections of a room.
use rust_croc.Common.{ℕ, ◌≤◌, ◌<◌, ◌≡◌, take, drop, length, Outcome, ok}
use rust_croc.Net.{Net, Socket}

-- The two connections.
pub record Bridge : Type 0 where
  pub a : Socket
  pub b : Socket

-- The other way round.
abbrev pub swap : Bridge → Bridge
swap s = record { a = s.b; b = s.a }

module _ (net : Net) where
  -- One round of `asymmetric_bridge_sockets` that reads `amount` bytes from the first connection, and
  -- how the write of these to the second ends.
  unfoldable pub copy : ℕ → Bridge → Outcome (Unit {0}) × Bridge
  copy amount s =
      let (r, to_s) = net.write_all (take amount s.a.incoming) s.b in
      (r, record { a = record s.a { incoming = drop amount s.a.incoming }; b = to_s })

  -- A round without an error, in one direction or the other: a read gives at least one byte, at most
  -- a buffer of 1024, and no more than there are. At the end of a connection its loop just returns.
  pub data Copied (s t : Bridge) : Type 0 where
    a_to_b :
        (amount : ℕ)
        → 0 < amount
        → amount ≤ 1024
        → amount ≤ length s.a.incoming
        → copy amount s ≡ (ok tt, t)
        → Copied s t
    b_to_a :
        (amount : ℕ)
        → 0 < amount
        → amount ≤ 1024
        → amount ≤ length s.b.incoming
        → copy amount (swap s) ≡ (ok tt, swap t)
        → Copied s t

  -- `bridge_sockets` so far: the rounds of the two loops in any order.
  pub data Bridged (s : Bridge) : Bridge → Type 0 where
    here : Bridged s s
    next : {t u : Bridge} → Bridged s t → Copied t u → Bridged s u
