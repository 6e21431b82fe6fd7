-- ===== src/Server/OneRoom.antt =====
-- src/relay/server.rs: what `handle` does to the rooms, whatever the client sends.
use rust_croc.Common.{
  ℕ, ◌≡◌, refl, inl, inr, ◌⊎◌, false, Option, none, some, [], Bytes, Outcome, ok, err, panic, Act,
  after, lift, beq, codes, Bool-cases,
}
use rust_croc.Std.Utf8.{from_utf8}
use rust_croc.Std.Str.{trim}
use rust_croc.Net.{Net, Socket}
use rust_croc.Wire
use rust_croc.Crypto.{Primitives}
use rust_croc.Enc.{EncryptedSession, reciever}
use rust_croc.Enc
use rust_croc.Pake.{PakeCrate, negotiate_symmetric_key}
use rust_croc.Server.{
  Room, Rooms, is_full, lookup, Serving, Config, enter_found, enter_room, check_password,
  negotiate_info, banner,
}
use rust_croc.Server.Lookup.{lookup-insert}
use rust_croc.Server.Negotiate.{placed, entered}
use rust_croc.Server.Answer.{handle, peeked_bytes}

-- The rooms are as they were, or the connection has been put into the one that is returned, which had
-- a place for it.
abbrev Touches : ℕ → Rooms → Outcome (Option Bytes) × Serving → Type 0
Touches now rooms p =
    (p.1.rooms ≡ rooms)
    ⊎ ((name : Bytes) × (p.0 ≡ ok (some name))
        × (entered name (lookup name rooms) ≡ some name)
        × (p.1.rooms ≡ placed now name (lookup name rooms) p.1.session rooms))

module _ (net : Net) (prim : Primitives) (pake : PakeCrate) (config : Config) where
  -- A call on the connection leaves the rooms to what follows.
  told-Touches {ℓ} :
      {A : Type ℓ} (p : Outcome A × Socket) (s : Serving) (f : A → Act Serving (Option Bytes))
      → ((a : A) (t : Socket) → Touches config.now s.rooms (f a (record s { session = t })))
      → Touches config.now s.rooms (after (let (r, t) = p in (r, record s { session = t })) f)
  told-Touches (ok a, t) s f h = h a t
  told-Touches (err e, t) s f h = inl refl
  told-Touches (panic, t) s f h = inl refl

  -- So does a value.
  lifted-Touches {ℓ} :
      {A : Type ℓ} (r : Outcome A) (s : Serving) (f : A → Act Serving (Option Bytes))
      → ((a : A) → Touches config.now s.rooms (f a s))
      → Touches config.now s.rooms (after (lift r s) f)
  lifted-Touches (ok a) s f h = h a
  lifted-Touches (err e) s f h = inl refl
  lifted-Touches panic s f h = inl refl

  entered-Touches :
      (enc : EncryptedSession net prim) (name : Bytes) (found : Option Room) (s : Serving)
      → lookup name s.rooms ≡ found
      → Touches config.now s.rooms (enter_found net prim config enc name found s)
  unfolding enter_found
  entered-Touches enc name none s e =
      told-Touches
        (Enc.write net prim (Wire.write net) enc config.answer_nonce (codes "ok") s.session) s _
        (λ _ t. inr (name, refl, rw e refl, rw e refl))
  entered-Touches enc name (some room) s e = elim (Bool-cases (is_full room)) [
    | inl full ↦ rw full (
        told-Touches
          (Enc.write net prim (Wire.write net) enc config.answer_nonce (codes "room full")
            s.session)
          s _ (λ _ t. inl refl))
    | inr free ↦ rw free (
        told-Touches
          (Enc.write net prim (Wire.write net) enc config.answer_nonce (codes "ok") s.session) s _
          (λ _ t. inr (name, refl, rw (e, free) refl, rw (e, free) refl)))
  ]

  checked-Touches :
      (enc : EncryptedSession net prim) (password : Bytes) (s : Serving)
      (f : Unit {0} → Act Serving (Option Bytes))
      → ((t : Socket) → Touches config.now s.rooms (f tt (record s { session = t })))
      → Touches config.now s.rooms (after (check_password net prim config enc password s) f)
  unfolding check_password
  checked-Touches enc password s f h =
      elim (Bool-cases (beq password (trim config.relay_password))) [
        | inl right ↦ rw right (h s.session)
        | inr wrong ↦ rw wrong (
            told-Touches
              (Enc.write net prim (Wire.write net) enc config.denial_nonce (codes "bad password")
                s.session)
              s f (λ _ t. h t))
      ]

  negotiated-Touches :
      (key : Bytes) (peer_addr : Outcome Bytes) (s : Serving)
      → Touches config.now s.rooms (negotiate_info net prim config key peer_addr s)
  unfolding negotiate_info enter_room
  negotiated-Touches key peer_addr s =
      told-Touches (Enc.new net prim key reciever [] s.session) s _ λ enc s1.
        told-Touches (Enc.read net prim (Wire.read net) enc s1) (record s { session = s1 }) _
          λ bs s2.
            lifted-Touches (from_utf8 bs) (record s { session = s2 }) _
              λ password.
                checked-Touches enc password (record s { session = s2 }) _
                  λ s3.
                    lifted-Touches peer_addr (record s { session = s3 }) _
                      λ addr.
                        told-Touches
                          (Enc.write net prim (Wire.write net) enc config.banner_nonce
                            (banner config.multiplex_ports addr) s3)
                          (record s { session = s3 }) _
                          λ _ s4.
                            told-Touches (Enc.read net prim (Wire.read net) enc s4)
                              (record s { session = s4 }) _
                              λ name s5.
                                lifted-Touches (from_utf8 name) (record s { session = s5 }) _
                                  λ room_name.
                                    entered-Touches enc room_name (lookup room_name s.rooms)
                                      (record s { session = s5 }) refl

  handled-Touches :
      (peek : Outcome ℕ) (random : Bytes) (peer_addr : Outcome Bytes) (s : Serving)
      → Touches config.now s.rooms (handle net prim pake config peek random peer_addr s)
  unfolding handle
  handled-Touches peek random peer_addr s = lifted-Touches peek s _ λ amount.
      elim (Bool-cases (beq (peeked_bytes amount s.session.incoming) (codes "ping"))) [
        | inl ping ↦
            rw ping (told-Touches (Wire.write net (codes "pong") s.session) s _ (λ _ t. inl refl))
        | inr other ↦ rw other (
            told-Touches (negotiate_symmetric_key net pake reciever random s.session) s _
              (λ key t. negotiated-Touches key peer_addr (record s { session = t })))
      ]

  -- In a room that has a place, the connection is placed, and no other room is touched.
  placed_apart :
      (name other : Bytes) (found : Option Room) (t : Socket) (rooms : Rooms)
      → beq name other ≡ false
      → lookup other (placed config.now name found t rooms) ≡ lookup other rooms
  placed_apart name other none t rooms h = rw (lookup-insert other name _ rooms, h) refl
  placed_apart name other (some room) t rooms h = elim (Bool-cases (is_full room)) [
    | inl full ↦ rw full refl
    | inr free ↦ rw (free, lookup-insert other name _ rooms, h) refl
  ]

  -- Whatever a client sends, whatever peek and peer_addr come to and whatever the rooms are:
  -- handle, up to the rooms, either leaves them as they are, or it ends well with the name of a
  -- room, which was not there or had a place free, the rooms are those before with the connection
  -- put into that one, and every room of another name is as it was.
  pub handle_touches_one_room :
      (peek : Outcome ℕ) (random : Bytes) (peer_addr : Outcome Bytes) (s : Serving)
      → let (r, t) = handle net prim pake config peek random peer_addr s in
        (t.rooms ≡ s.rooms)
        ⊎ ((name : Bytes) × (r ≡ ok (some name))
            × (entered name (lookup name s.rooms) ≡ some name)
            × (t.rooms ≡ placed config.now name (lookup name s.rooms) t.session s.rooms)
            × ((other : Bytes)
                → beq name other ≡ false
                → lookup other t.rooms ≡ lookup other s.rooms))
  handle_touches_one_room peek random peer_addr s = elim (handled-Touches peek random peer_addr s) [
    | inl same ↦ inl same
    | inr (name, ended, had_place, now_) ↦ inr (
      name,
      ended,
      had_place,
      now_,
      λ other differs. rw now_ (placed_apart name other (lookup name s.rooms) _ s.rooms differs),
    )
  ]
