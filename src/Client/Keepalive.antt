-- ===== src/Client/Keepalive.antt =====
-- Waiting for a receiver: `handle_keepalive`.
use rust_croc.Common.{
  ℕ, zero, suc, ◌^◌, ◌<◌, ◌≡◌, ◌⊎◌, refl, inl, inr, Bool, true, false, List, [], ◌∷◌, ◌++◌,
  append_assoc, append-nil, All, length, Bytes, Outcome, ok, err, beq, beq_iff, if◌then◌else◌,
  codes, Bool-cases, arith, unknown_keepalive_message,
}
use rust_croc.Net.{Net, Socket}
use rust_croc.Json.{Json}
use rust_croc.Wire.RoundTrip.{framed, write_lem, read-framed}
use rust_croc.Wire.Tasks.{wire}
use rust_croc.Client.{
  RelayClient, Interface, local_ips, on_keepalive, handle_keepalive, keepalive_loop,
}

-- A ping, or the question for the addresses.
abbrev pub IsWaiting : Bytes → Type 0
IsWaiting m = (m ≡ 1 ∷ []) ⊎ (m ≡ codes "ips?")

-- What is sent for such messages, where `text` answers the question.
unfoldable pub replies : Bytes → List Bytes → Bytes
replies text [] = []
replies text (m ∷ ms) =
    if beq m (codes "ips?") then framed text ++ replies text ms else replies text ms

-- Where the waiting ends: with a handshake, or with anything else.
abbrev pub waited : Bytes → Outcome Bool
waited m = if beq m (codes "handshake") then ok true else err (unknown_keepalive_message m)

module _ (net : Net) (json : Json (List Bytes)) (interfaces : List Interface) where
  on_keepalive_lem :
      (m : Bytes) (c : RelayClient) {ips : List Bytes}
      → IsWaiting m
      → local_ips net json interfaces c ≡ ok ips
      → length (json.text ips) < 2 ^ 32
      → c.stream.writable ≡ true
      → on_keepalive net json interfaces m c ≡ (
        ok false,
        record c {
          stream = record c.stream { sent = c.stream.sent ++ replies (json.text ips) (m ∷ []) };
        },
      )
  unfolding on_keepalive replies beq
  on_keepalive_lem m c (inl ping) local short w = rw (ping, append-nil)
  on_keepalive_lem m c {ips} (inr ask) local short w = rw (
    ask,
    local,
    json.to_string_lem ips,
    write_lem net (json.text ips) c.stream short w,
    append-nil,
  )

  replies-cons :
      (text m : Bytes) (ms : List Bytes)
      → replies text (m ∷ []) ++ replies text ms ≡ replies text (m ∷ ms)
  unfolding replies
  replies-cons text m ms = elim (Bool-cases (beq m (codes "ips?"))) [
    | inl ask ↦ rw (ask, append-nil) refl
    | inr ping ↦ rw ping refl
  ]

  waiting_fits : (m : Bytes) → IsWaiting m → length m < 2 ^ 32
  waiting_fits m (inl ping) = rw ping (omega arith)
  waiting_fits m (inr ask) = rw ask (omega arith)

  -- One message of waiting, answered.
  waiting_round :
      (fuel : ℕ) (m rest : Bytes) (c : RelayClient) {ips : List Bytes}
      → IsWaiting m
      → local_ips net json interfaces c ≡ ok ips
      → length (json.text ips) < 2 ^ 32
      → c.stream.writable ≡ true
      → keepalive_loop net json interfaces
          (suc fuel)
          (record c { stream = record c.stream { incoming = framed m ++ rest } })
        ≡ keepalive_loop net json interfaces fuel (record c {
          stream = record c.stream {
            incoming = rest;
            sent = c.stream.sent ++ replies (json.text ips) (m ∷ []);
          };
        })
  unfolding keepalive_loop local_ips
  waiting_round fuel m rest c h local short w = rw (
    read-framed net m rest c.stream (waiting_fits m h),
    on_keepalive_lem m (record c { stream = record c.stream { incoming = rest } }) h local short w,
  )

  last_round :
      (fuel : ℕ) (m rest : Bytes) (c : RelayClient)
      → ¬ IsWaiting m
      → length m < 2 ^ 32
      → keepalive_loop net json interfaces
          (suc fuel)
          (record c { stream = record c.stream { incoming = framed m ++ rest } })
        ≡ (waited m, record c { stream = record c.stream { incoming = rest } })
  unfolding keepalive_loop on_keepalive
  last_round fuel m rest c h fits =
      rw (read-framed net m rest c.stream fits) (elim (Bool-cases (beq m (codes "handshake"))) [
        | inl shake ↦ ground (arith, beq_iff m (codes "ips?"), beq_iff m (1 ∷ []))
        | inr other ↦ ground (arith, beq_iff m (codes "ips?"), beq_iff m (1 ∷ []))
      ])

  loop_waits :
      (ms : List Bytes) (m rest : Bytes) (fuel : ℕ) (c : RelayClient) {ips : List Bytes}
      → All IsWaiting ms
      → ¬ IsWaiting m
      → length m < 2 ^ 32
      → length ms < fuel
      → local_ips net json interfaces c ≡ ok ips
      → length (json.text ips) < 2 ^ 32
      → c.stream.writable ≡ true
      → keepalive_loop net json interfaces fuel
          (record c { stream = record c.stream { incoming = wire ms ++ (framed m ++ rest) } })
        ≡ (
          waited m,
          record c {
            stream = record c.stream {
              incoming = rest;
              sent = c.stream.sent ++ replies (json.text ips) ms;
            };
          },
        )
  unfolding local_ips replies
  loop_waits ms m rest zero c h no_more fits f local short w = absurd (omega arith)
  loop_waits [] m rest (suc fuel) c h no_more fits f local short w =
      rw append-nil (last_round fuel m rest c no_more fits)
  loop_waits (x ∷ xs) m rest (suc fuel) c {ips} (h, hs) no_more fits f local short w =
      let text : Bytes = json.text ips in
      let c' : RelayClient = record c {
        stream = record c.stream { sent = c.stream.sent ++ replies text (x ∷ []) };
      } in
      let more = loop_waits xs m rest fuel c' hs no_more fits (omega arith) local short w in
      rw
        (
          append_assoc (framed x) (wire xs) (framed m ++ rest),
          waiting_round fuel x (wire xs ++ (framed m ++ rest)) c h local short w,
          ← replies-cons text x xs,
          ← append_assoc c.stream.sent (replies text (x ∷ [])) (replies text xs),
        )
        more

  -- While pings and questions for the addresses come in, fewer than there are rounds, and the
  -- addresses are there to be told, each question is answered with them and nothing else is sent;
  -- the first other message ends the waiting, well if it is the handshake and in an error that
  -- names it if it is not; what comes behind it is left.
  pub handle_keepalive_waits :
      (ms : List Bytes) (m rest : Bytes) (fuel : ℕ) (c : RelayClient) {ips : List Bytes}
      → All IsWaiting ms
      → ¬ IsWaiting m
      → length m < 2 ^ 32
      → length ms < fuel
      → local_ips net json interfaces c ≡ ok ips
      → length (json.text ips) < 2 ^ 32
      → c.stream.writable ≡ true
      → handle_keepalive net json interfaces fuel
          (record c { stream = record c.stream { incoming = wire ms ++ (framed m ++ rest) } })
        ≡ (
          waited m,
          record c {
            stream = record c.stream {
              incoming = rest;
              sent = c.stream.sent ++ replies (json.text ips) ms;
            };
          },
        )
  unfolding handle_keepalive
  handle_keepalive_waits ms m rest fuel c h no_more fits f local short w =
      let start : Socket = record c.stream { incoming = wire ms ++ (framed m ++ rest) } in
      let (addr, at) = net.local_addr_lem start w in
      rw at (loop_waits ms m rest fuel c h no_more fits f local short w)
