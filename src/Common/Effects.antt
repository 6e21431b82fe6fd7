-- ===== src/Common/Effects.antt =====
-- What a fallible Rust call comes to, and state passing over it.
use mathlib.Core.Path.{◌≡◌, refl}
use mathlib.Core.Logic.{◌≢◌, ◌⊎◌, inl, inr}
use mathlib.Core.Bool.{Bool, true, false}
use rust_croc.Common.Tests.{if◌then◌else◌}
use mathlib.Core.Option.{Option, none, some}
use Prim.Native.Nat.{ℕ}
use mathlib.Core.List.{List}

-- The errors that the code makes or passes on. `io`, `json`, `cipher`, `pake` and `prompt` come
-- from the crates and the operating system.
pub data Error : Type 0 where
  io json cipher pake prompt : Error
  int_conversion slice_conversion utf8 : Error
  bad_magic : List ℕ → Error
  channel_closed : Error
  key_negotiation_failiure curve_not_supported curve_not_initialized : Error
  bad_shared_secret : List ℕ → Error
  bad_response : List ℕ → Error
  room_full : List ℕ → Error
  room_negotiation_failed : Error
  unknown_keepalive_message : List ℕ → Error
  no_external_ip no_relay_port : Error
  traversal_error : List ℕ → Error
  overwrite_denide : Error
  invalid_state transfare_denied : Error

-- `Result<A, anyhow::Error>`, with a panic (`unwrap`, `todo!`, an assertion, an index or a slice
-- out of range) as a third end.
pub data Outcome {ℓ} (A : Type ℓ) : Type ℓ where
  ok : A → Outcome A
  err : Error → Outcome A
  panic : Outcome A

-- A call that works on a state `S`: the effects made before an error stay made.
abbrev pub Act {ℓ κ} : Type ℓ → Type κ → Type (ℓ ⊔ κ)
Act S A = S → Outcome A × S

-- What follows a call that has ended in `r`.
abbrev pub after {ℓ κ μ} :
    {S : Type ℓ} {A : Type κ} {B : Type μ} → Outcome A × S → (A → Act S B) → Outcome B × S
after (ok a, s) f = f a s
after (err e, s) f = (err e, s)
after (panic, s) f = (panic, s)

infixl 5 ◌>>=◌ ◌>>◌
abbrev pub ◌>>=◌ {ℓ κ μ} :
    {S : Type ℓ} {A : Type κ} {B : Type μ} → Act S A → (A → Act S B) → Act S B
◌>>=◌ m f s = after (m s) f

abbrev pub ◌>>◌ {ℓ μ} : {S : Type ℓ} {B : Type μ} → Act S (Unit {0}) → Act S B → Act S B
◌>>◌ m k s = after (m s) (λ _. k)

abbrev pub return {ℓ κ} : {S : Type ℓ} {A : Type κ} → A → Act S A
return a s = (ok a, s)

abbrev pub fail {ℓ κ} : {S : Type ℓ} {A : Type κ} → Error → Act S A
fail e s = (err e, s)

abbrev pub crash {ℓ κ} : {S : Type ℓ} {A : Type κ} → Act S A
crash s = (panic, s)

-- A loop goes on after a round that ends in `ok`, and ends at any other; true marks that end.
abbrev pub round {ℓ} : {S : Type ℓ} → (S → Bool × S) → Outcome (Unit {0}) × S → Bool × S
round next (ok _, s) = next s
round next (err e, s) = (true, s)
round next (panic, s) = (true, s)

-- A pure fallible value as a call.
abbrev pub lift {ℓ κ} : {S : Type ℓ} {A : Type κ} → Outcome A → Act S A
lift r s = (r, s)

-- `ok_or`: an absent value as an error.
abbrev pub ok_or {ℓ} : {A : Type ℓ} → Option A → Error → Outcome A
ok_or none e = err e
ok_or (some a) e = ok a

-- `unwrap`: an absent value as a panic.
abbrev pub unwrap {ℓ} : {A : Type ℓ} → Option A → Outcome A
unwrap none = panic
unwrap (some a) = ok a

-- A call that does not end in `ok` ends the chain.
pub after-err {ℓ κ μ} :
    {S : Type ℓ} {A : Type κ} {B : Type μ} (p : Outcome A × S) (f : A → Act S B) (e : Error)
    → p.0 ≡ err e
    → (after p f).0 ≡ err e
after-err (ok a, s) f e h = cc
after-err (err x, s) f e h = cc
after-err (panic, s) f e h = cc

-- Inversion of a chain that ends in `ok`.
pub after-eq-ok {ℓ κ μ} :
    {S : Type ℓ} {A : Type κ} {B : Type μ} (p : Outcome A × S) (f : A → Act S B) {b : B} {t : S}
    → after p f ≡ (ok b, t)
    → (a : A) × (s : S) × (p ≡ (ok a, s)) × (f a s ≡ (ok b, t))
after-eq-ok (ok a, s) f h = (a, s, refl, h)
after-eq-ok (err x, s) f h = cc
after-eq-ok (panic, s) f h = cc

pub round_ok {ℓ} :
    {S : Type ℓ} (next : S → Bool × S) (p : Outcome (Unit {0}) × S)
    → p.0 ≡ ok tt
    → round next p ≡ next p.1
round_ok next (ok _, s) h = refl
round_ok next (err e, s) h = cc
round_ok next (panic, s) h = cc

pub round_broken {ℓ} :
    {S : Type ℓ} (next : S → Bool × S) (p : Outcome (Unit {0}) × S)
    → p.0 ≢ ok tt
    → round next p ≡ (true, p.1)
round_broken next (ok _, s) h = absurd (h refl)
round_broken next (err e, s) h = refl
round_broken next (panic, s) h = refl

-- The ends of a call.
pub Outcome-cases {ℓ} :
    {A : Type ℓ} (r : Outcome A)
    → ((a : A) × (r ≡ ok a)) ⊎ (((e : Error) × (r ≡ err e)) ⊎ (r ≡ panic))
Outcome-cases (ok a) = inl (a, refl)
Outcome-cases (err e) = inr (inl (e, refl))
Outcome-cases panic = inr (inr refl)

-- What holds of the state after a call that ends in `ok`.
unfoldable pub Post {ℓ κ μ} : {S : Type ℓ} {A : Type κ} → (S → Type μ) → Outcome A × S → Type μ
Post Q (ok a, s) = Q s
Post Q (err e, s) = Unit
Post Q (panic, s) = Unit

pub Post-of {ℓ κ μ} :
    {S : Type ℓ} {A : Type κ} (Q : S → Type μ) (p : Outcome A × S) → Q p.1 → Post Q p
unfolding Post
Post-of Q (ok a, s) h = h
Post-of Q (err e, s) h = tt
Post-of Q (panic, s) h = tt

-- A chain: what holds after the first call is what the rest starts from.
pub Post-after {ℓ κ μ ν ρ} :
    {S : Type ℓ} {A : Type κ} {B : Type ρ} (P : S → Type μ) (Q : S → Type ν) (p : Outcome A × S)
    (f : A → Act S B)
    → Post P p
    → ((a : A) (s : S) → P s → Post Q (f a s))
    → Post Q (after p f)
unfolding Post
Post-after P Q (ok a, s) f h rest = rest a s h
Post-after P Q (err e, s) f h rest = tt
Post-after P Q (panic, s) f h rest = tt

-- The same, where the chain begins with a value.
pub Post-lift {ℓ κ ν ρ} :
    {S : Type ℓ} {A : Type κ} {B : Type ρ} (Q : S → Type ν) (r : Outcome A) (s : S)
    (f : A → Act S B)
    → ((a : A) → r ≡ ok a → Post Q (f a s))
    → Post Q (after (r, s) f)
unfolding Post
Post-lift Q (ok a) s f rest = rest a refl
Post-lift Q (err e) s f rest = tt
Post-lift Q panic s f rest = tt

pub Post-ok {ℓ κ μ} :
    {S : Type ℓ} {A : Type κ} (Q : S → Type μ) (a : A) (s : S) → Q s → Post Q (ok a, s)
unfolding Post
Post-ok Q a s h = h

pub Post-fail {ℓ κ μ} :
    {S : Type ℓ} (A : Type κ) (Q : S → Type μ) (e : Error) (s : S) → Post {A = A} Q (err e, s)
unfolding Post
Post-fail A Q e s = tt

pub Post-panic {ℓ κ μ} :
    {S : Type ℓ} (A : Type κ) (Q : S → Type μ) (s : S) → Post {A = A} Q (panic, s)
unfolding Post
Post-panic A Q s = tt

pub Post-if {ℓ κ μ} :
    {S : Type ℓ} {A : Type κ} (Q : S → Type μ) (b : Bool) (m n : Act S A) (s : S)
    → (b ≡ true → Post Q (m s))
    → (b ≡ false → Post Q (n s))
    → Post Q ((if b then m else n) s)
Post-if Q true m n s h k = h refl
Post-if Q false m n s h k = k refl

-- What the rest of a chain makes true from any state.
pub Post-any {ℓ κ ν ρ} :
    {S : Type ℓ} {A : Type κ} {B : Type ρ} (Q : S → Type ν) (p : Outcome A × S) (f : A → Act S B)
    → ((a : A) (s : S) → Post Q (f a s))
    → Post Q (after p f)
unfolding Post
Post-any Q (ok a, s) f rest = rest a s
Post-any Q (err e, s) f rest = tt
Post-any Q (panic, s) f rest = tt

pub Post-cond {ℓ κ μ} :
    {S : Type ℓ} {A : Type κ} (Q : S → Type μ) (b : Bool) (p q : Outcome A × S)
    → (b ≡ true → Post Q p)
    → (b ≡ false → Post Q q)
    → Post Q (if b then p else q)
Post-cond Q true p q h k = h refl
Post-cond Q false p q h k = k refl

-- A call on a part of the state.
pub Post-part {ℓ κ μ ν ρ} :
    {S : Type ℓ} {T : Type ρ} {A : Type κ} (P : S → Type μ) (Q : T → Type ν) (put : S → T)
    (p : Outcome A × S)
    → Post P p
    → ((s : S) → P s → Q (put s))
    → Post Q (let (a, s) = p in (a, put s))
unfolding Post
Post-part P Q put (ok a, s) h rest = rest s h
Post-part P Q put (err e, s) h rest = tt
Post-part P Q put (panic, s) h rest = tt
