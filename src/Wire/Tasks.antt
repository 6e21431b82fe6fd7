-- ===== src/Wire/Tasks.antt =====
-- The two tasks of `MpscCrocProto::from_stream`: what they deliver, and that they end.
use rust_croc.Common.{
  ℕ, zero, suc, ◌^◌, ◌<◌, ◌≡◌, refl, sym, ap, inl, inr, true, List, [], ◌∷◌, ◌++◌, append_assoc,
  append-nil, length, length-append, All, Bytes, IsBytes, Error, Outcome, ok, err, panic, arith,
  ◌∙◌, round_ok, round_broken, Bool-cases, ◌≢◌,
}
use rust_croc.Net.{Net, Socket}
use rust_croc.Wire.{Link, on_channel, read, reader_round, reader_task}
use rust_croc.Wire.RoundTrip.{framed, length-framed, read-framed}
use rust_croc.Wire.Sound.{read-eq-ok}

-- Messages back to back.
abbrev pub wire : List Bytes → Bytes
wire [] = []
wire (m ∷ ms) = framed m ++ wire ms

-- Every message fits the length field.
abbrev pub Fits : List Bytes → Type 0
Fits = All (λ m. length m < 2 ^ 32)

module _ (net : Net) where
  round_lem :
      (m rest : Bytes) (l : Link)
      → length m < 2 ^ 32
      → l.channel.receiving ≡ true
      → reader_round net (record l { socket = record l.socket { incoming = framed m ++ rest } }) ≡ (
        ok tt,
        record {
          socket = record l.socket { incoming = rest };
          channel = record l.channel { queue = l.channel.queue ++ (m ∷ []) };
        },
      )
  unfolding reader_round
  round_lem m rest l h r = rw (read-framed net m rest l.socket h, net.send_lem m l.channel r)

  round_err :
      (l : Link) {e : Error}
      → (read net l.socket).0 ≡ err e
      → reader_round net l ≡ (err e, record l { socket = (read net l.socket).1 })
  unfolding reader_round
  round_err l h = rw h

  -- When the incoming bytes are the frames of messages shorter than 2^32 bytes followed by bytes on
  -- which a read fails, the channel is open and there is a round for each message and one more, the
  -- reading task ends, and its channel is the old one with exactly these messages added in order.
  pub reader_task-wire :
      (ms : List Bytes) (rest : Bytes) (fuel : ℕ) (l : Link) {e : Error}
      → Fits ms
      → length ms < fuel
      → l.channel.receiving ≡ true
      → (read net (record l.socket { incoming = rest })).0 ≡ err e
      → let r =
          reader_task net fuel
            (record l { socket = record l.socket { incoming = wire ms ++ rest } }) in
        (r.0 ≡ true) × (r.1.channel ≡ record l.channel { queue = l.channel.queue ++ ms })
  unfolding reader_task
  reader_task-wire ms rest zero l h f r e = absurd (omega arith)
  reader_task-wire [] rest (suc fuel) l h f r e =
      rw (round_err (record l { socket = record l.socket { incoming = rest } }) e, append-nil)
        (refl, refl)
  reader_task-wire (m ∷ ms) rest (suc fuel) l (h, hs) f r e =
      let l' = record l { channel = record l.channel { queue = l.channel.queue ++ (m ∷ []) } } in
      let (ended, queued) = reader_task-wire ms rest fuel l' hs (omega arith) r e in
      rw (append_assoc (framed m) (wire ms) rest, round_lem m (wire ms ++ rest) l h r)
        (ended, rw append_assoc at queued)

  -- What a round did: it took one frame and handed it on, or it broke off and handed nothing on.
  data Rounds (l : Link) (p : Outcome (Unit {0}) × Link) : Type 0 where
    took :
        (m : Bytes)
        → p.0 ≡ ok tt
        → l.socket.incoming ≡ framed m ++ p.1.socket.incoming
        → IsBytes p.1.socket.incoming
        → p.1.channel.queue ≡ l.channel.queue ++ (m ∷ [])
        → Rounds l p
    broke : p.0 ≢ ok tt → p.1.channel ≡ l.channel → Rounds l p

  send-Rounds :
      (l : Link) (m : Bytes) (s : Socket)
      → l.socket.incoming ≡ framed m ++ s.incoming
      → IsBytes s.incoming
      → Rounds l (on_channel (net.send m) (record l { socket = s }))
  send-Rounds l m s e b = elim (Bool-cases l.channel.receiving) [
    | inl open_ ↦ rw (net.send_lem m l.channel open_) (took m refl e b refl)
    | inr closed ↦ rw (net.send_closed m l.channel closed) (broke (λ h. cc) refl)
  ]

  reader_round-Rounds :
      (l : Link)
      → IsBytes l.socket.incoming
      → (q : Outcome Bytes × Socket) → read net l.socket ≡ q
      → Rounds l (reader_round net l)
  unfolding reader_round
  reader_round-Rounds l b (ok m, s) e =
      let (whole, _, _, _, left) = read-eq-ok net l.socket b e in
      rw e (send-Rounds l m s whole left)
  reader_round-Rounds l b (err x, s) e = rw e (broke (λ h. cc) refl)
  reader_round-Rounds l b (panic, s) e = rw e (broke (λ h. cc) refl)

  -- For any incoming bytes and any number of rounds, the messages that the reading task adds to the
  -- channel are, framed and back to back, a prefix of the incoming bytes.
  pub reader_task_sound :
      (fuel : ℕ) (l : Link)
      → IsBytes l.socket.incoming
      → let l' = (reader_task net fuel l).1 in
        (ms : List Bytes) × (rest : Bytes) × (l'.channel.queue ≡ l.channel.queue ++ ms)
        × (l.socket.incoming ≡ wire ms ++ rest)
  unfolding reader_task
  reader_task_sound zero l b = ([], l.socket.incoming, sym (append-nil _), refl)
  reader_task_sound (suc fuel) l b =
      let p = reader_round net l in
      elim (reader_round-Rounds l b (read net l.socket) refl) [
        | took m done whole left queued ↦
            let (ms, rest, e, f) = reader_task_sound fuel p.1 left in
            (
              m ∷ ms,
              rest,
              ap (λ r. r.1.channel.queue) (round_ok (reader_task net fuel) p done)
                  ∙ e
                  ∙ rw (queued, append_assoc) refl,
              whole ∙ ap (◌++◌ (framed m)) f ∙ sym (append_assoc (framed m) (wire ms) rest),
            )
        | broke stopped same ↦ (
          [],
          l.socket.incoming,
          ap (λ r. r.1.channel.queue) (round_broken (reader_task net fuel) p stopped)
              ∙ ap (λ c. c.queue) same
              ∙ sym (append-nil _),
          refl,
        )
      ]

  -- The reading task ends by itself whenever it is given more rounds than there are incoming bytes.
  pub reader_task_ends :
      (fuel : ℕ) (l : Link)
      → IsBytes l.socket.incoming
      → length l.socket.incoming < fuel
      → (reader_task net fuel l).0 ≡ true
  unfolding reader_task
  reader_task_ends zero l b h = absurd (omega arith)
  reader_task_ends (suc fuel) l b h =
      let p = reader_round net l in
      elim (reader_round-Rounds l b (read net l.socket) refl) [
        | took m done whole left queued ↦
            let size = length-append (framed m) p.1.socket.incoming in
            let shorter : length p.1.socket.incoming < fuel =
              omega (arith, ap length whole, size, length-framed m) in
            ap (λ r. r.0) (round_ok (reader_task net fuel) p done)
            ∙ reader_task_ends fuel p.1 left shorter
        | broke stopped same ↦ ap (λ r. r.0) (round_broken (reader_task net fuel) p stopped)
      ]
