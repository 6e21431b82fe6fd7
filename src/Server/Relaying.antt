-- ===== src/Server/Relaying.antt =====
-- What passes over `bridge_sockets`.
use rust_croc.Common.{
  ℕ, ◌≡◌, refl, sym, ap, ◌∙◌, inl, inr, true, [], ◌∷◌, ◌++◌, append_assoc, append-nil, take, drop,
  take-append-drop, length, Bytes, ok, Bool-cases, arith, subst,
}
use rust_croc.Net.{Net}
use rust_croc.Server.Bridge.{Bridge, swap, copy, Copied, a_to_b, b_to_a, Bridged, here, next}

module _ (net : Net) where
  -- What the second connection has been sent, and what is still to come for it.
  abbrev pub flow : Bridge → Bytes
  flow s = s.b.sent ++ s.a.incoming

  -- A round keeps both flows.
  copy_keeps :
      (amount : ℕ) (s t : Bridge)
      → copy net amount s ≡ (ok tt, t)
      → (flow t ≡ flow s) × (flow (swap t) ≡ flow (swap s))
  unfolding copy
  copy_keeps amount s t h = elim (Bool-cases s.b.writable) [
    | inl open_ ↦
        let written = net.write_all_lem (take amount s.a.incoming) s.b open_ in
        let e : t ≡ record {
          a = record s.a { incoming = drop amount s.a.incoming };
          b = record s.b { sent = s.b.sent ++ take amount s.a.incoming };
        } =
          sym (ap (λ r. r.1) h)
          ∙ ap (λ r. record { a = record s.a { incoming = drop amount s.a.incoming }; b = r.1 })
              written in
        (
          ap flow e
              ∙ append_assoc s.b.sent (take amount s.a.incoming) (drop amount s.a.incoming)
              ∙ ap (λ x. s.b.sent ++ x) (take-append-drop amount s.a.incoming),
          ap (λ x. flow (swap x)) e,
        )
    | inr closed ↦
        let failed = net.write_all_broken (take amount s.a.incoming) s.b closed in
        let fine = ap (λ r. r.0) h in absurd cc
  ]

  Copied-keeps :
      (s t : Bridge) → Copied net s t → (flow t ≡ flow s) × (flow (swap t) ≡ flow (swap s))
  Copied-keeps s t (a_to_b n _ _ _ h) = copy_keeps n s t h
  Copied-keeps s t (b_to_a n _ _ _ h) = let (x, y) = copy_keeps n (swap s) (swap t) h in (y, x)

  -- However the rounds of the two directions of bridge_sockets interleave and however much each
  -- read gives, what one connection has been sent followed by what is still to come for it from the
  -- other is the same as at the start.
  pub bridge_keeps :
      (s t : Bridge)
      → Bridged net s t
      → (t.b.sent ++ t.a.incoming ≡ s.b.sent ++ s.a.incoming)
        × (t.a.sent ++ t.b.incoming ≡ s.a.sent ++ s.b.incoming)
  bridge_keeps s t here = (refl, refl)
  bridge_keeps s u (next {t} run step) =
      let (x, y) = bridge_keeps s t run in let (x', y') = Copied-keeps t u step in (x' ∙ x, y' ∙ y)

  -- One byte more.
  first_byte :
      (s : Bridge) (x : ℕ) (xs : Bytes)
      → s.a.incoming ≡ x ∷ xs
      → s.b.writable ≡ true
      → Copied net s (record {
        a = record s.a { incoming = xs };
        b = record s.b { sent = s.b.sent ++ (x ∷ []) };
      })
  unfolding copy
  first_byte s x xs h w = a_to_b 1 (omega arith) (omega arith) (omega (arith, ap length h)) (
      subst
        (λ i. copy net 1 (record { a = record s.a { incoming = i }; b = s.b }) ≡ (
          ok tt,
          record {
            a = record s.a { incoming = xs };
            b = record s.b { sent = s.b.sent ++ (x ∷ []) };
          },
        ))
        (sym h)
        (ap (λ r. (r.0, record { a = record s.a { incoming = xs }; b = r.1 }))
          (net.write_all_lem (x ∷ []) s.b w)))

  Bridged-trans : {s t u : Bridge} → Bridged net s t → Bridged net t u → Bridged net s u
  Bridged-trans run here = run
  Bridged-trans run (next more step) = next (Bridged-trans run more) step

  -- All that the first connection has to send, byte by byte.
  bridge_flushes :
      (incoming : Bytes) (s : Bridge)
      → s.a.incoming ≡ incoming
      → s.b.writable ≡ true
      → Bridged net s (record {
        a = record s.a { incoming = [] };
        b = record s.b { sent = s.b.sent ++ incoming };
      })
  bridge_flushes [] s h w =
      subst
        (λ (x : Bytes × Bytes).
          Bridged net s
            (record { a = record s.a { incoming = x.0 }; b = record s.b { sent = x.1 } }))
        (ap (λ x. (x, s.b.sent)) h ∙ ap (λ x. ([], x)) (sym (append-nil s.b.sent))) here
  bridge_flushes (x ∷ xs) s h w =
      let u : Bridge = record {
        a = record s.a { incoming = xs };
        b = record s.b { sent = s.b.sent ++ (x ∷ []) };
      } in
      subst
        (λ y.
          Bridged net s (record { a = record s.a { incoming = [] }; b = record s.b { sent = y } }))
        (append_assoc s.b.sent (x ∷ []) xs)
        (Bridged-trans (next here (first_byte s x xs h w)) (bridge_flushes xs u refl w))

  -- As long as the second connection takes bytes, the bridge can come from any point to where all
  -- that the first connection had to send has been sent to the second, with what the second has to
  -- send untouched.
  pub bridge_delivers :
      (incoming : Bytes) (s : Bridge)
      → s.a.incoming ≡ incoming
      → s.b.writable ≡ true
      → (t : Bridge) × Bridged net s t
        × (t.a.incoming ≡ [])
        × (t.b.sent ≡ s.b.sent ++ incoming)
        × (t.b.incoming ≡ s.b.incoming)
  bridge_delivers incoming s h w = (
    record { a = record s.a { incoming = [] }; b = record s.b { sent = s.b.sent ++ incoming } },
    bridge_flushes incoming s h w,
    refl,
    refl,
    refl,
  )

  -- The other way round.
  Copied-swap : {s t : Bridge} → Copied net s t → Copied net (swap s) (swap t)
  Copied-swap (a_to_b n more small there run) = b_to_a n more small there run
  Copied-swap (b_to_a n more small there run) = a_to_b n more small there run

  Bridged-swap : {s t : Bridge} → Bridged net s t → Bridged net (swap s) (swap t)
  Bridged-swap here = here
  Bridged-swap (next run step) = next (Bridged-swap run) (Copied-swap step)

  -- Both connections, each with all that the other had to send.
  abbrev pub emptied : Bridge → Bridge
  emptied s = record {
    a = record s.a { incoming = []; sent = s.a.sent ++ s.b.incoming };
    b = record s.b { incoming = []; sent = s.b.sent ++ s.a.incoming };
  }

  pub bridge_empties :
      (s : Bridge) → s.a.writable ≡ true → s.b.writable ≡ true → Bridged net s (emptied s)
  bridge_empties s wa wb =
      let there : Bridge = record {
        a = record s.a { incoming = [] };
        b = record s.b { sent = s.b.sent ++ s.a.incoming };
      } in
      Bridged-trans (bridge_flushes s.a.incoming s refl wb)
        (Bridged-swap (bridge_flushes s.b.incoming (swap there) refl wa))
