-- ===== src/Server/Atomic.antt =====
-- A task that asks for a room while no lock is taken does what `negotiate_info` does at once.
use rust_croc.Common.{
  ℕ, ◌≡◌, refl, sym, ap, ◌∙◌, inl, inr, true, false, Option, none, some, List, [], ◌∷◌, Bytes,
  Outcome, ok, err, panic, ==_iff, Bool-cases, codes, subst,
}
use rust_croc.Net.{Net, Socket}
use rust_croc.Crypto.{Primitives}
use rust_croc.Enc.{EncryptedSession}
use rust_croc.Server.{
  Room, Rooms, is_full, lookup, Serving, Config, put_room, create_room, join_room, enter_found,
  enter_room,
}
use rust_croc.Server.Lookup.{lookup-insert}
use rust_croc.Server.Names.{at, Apart, at_made, at_joined}
use rust_croc.Server.Tasks.{
  Pc, asking, looking, entered, over, Relay, update, find, when_free, told, made_room, ask, joined,
  join, act, schedule,
}

module _ (net : Net) (prim : Primitives) (config : Config) (enc : EncryptedSession net prim) where
  abbrev R : Type 0
  R = Relay net prim

  -- Where `handle` goes on after `negotiate_info`.
  abbrev pub follows : Outcome (Option Bytes) → Pc net prim
  follows (ok (some name)) = entered name
  follows (ok none) = over
  follows (err e) = over
  follows panic = over

  -- The same rooms, by their names.
  abbrev pub SameRooms : List (Bytes × ℕ) → (ℕ → Room) → Rooms → Type 0
  SameRooms map room rooms = (n : Bytes) → at room (find n map) ≡ lookup n rooms

  -- A state of the relay that stands for what `negotiate_info` has done.
  pub record Agrees (t : ℕ) (r : Outcome (Option Bytes) × Serving) (s : R) : Type 0 where
    pub goes_on : s.pc t ≡ follows r.0
    pub rooms : SameRooms s.map s.room r.1.rooms
    pub unlocked : s.map_lock ≡ none

  abbrev ok_sent : Socket → Outcome (Unit {0}) × Socket
  ok_sent k = told net prim enc config.answer_nonce (codes "ok") k

  made-Agrees :
      (name : Bytes) (k : Socket) (rooms : Rooms) (t : ℕ) (s : R) (p : Outcome (Unit {0}) × Socket)
      → ok_sent k ≡ p
      → Apart s.map s.made
      → s.map_lock ≡ none
      → SameRooms s.map s.room rooms
      → Agrees t
          (create_room net prim config enc name (record { session = k; rooms = rooms }))
          (made_room net prim config.now name p t s)
  unfolding create_room put_room made_room
  made-Agrees name k rooms t s (ok _, k') e apart free same =
      let room : Room = record {
        first = some k';
        second = none;
        handle = none;
        opened = config.now;
      } in
      rw e (record {
        goes_on = rw ((==_iff t t).1 refl) refl;
        rooms = λ n.
            at_made s.map s.made s.room room name n apart
            ∙ rw (same n) (sym (lookup-insert n name room rooms));
        unlocked = free;
      })
  made-Agrees name k rooms t s (err x, k') e apart free same =
      rw e (record { goes_on = rw ((==_iff t t).1 refl) refl; rooms = same; unlocked = free })
  made-Agrees name k rooms t s (panic, k') e apart free same =
      rw e (record { goes_on = rw ((==_iff t t).1 refl) refl; rooms = same; unlocked = free })

  joined-Agrees :
      (name : Bytes) (k : Socket) (rooms : Rooms) (t o : ℕ) (s : R)
      (p : Outcome (Unit {0}) × Socket)
      → ok_sent k ≡ p
      → Apart s.map s.made
      → find name s.map ≡ some o
      → is_full (s.room o) ≡ false
      → SameRooms s.map s.room rooms
      → Agrees t
          (join_room net prim config enc name (s.room o) (record { session = k; rooms = rooms }))
          (joined net prim config.now name o p t s)
  unfolding join_room put_room joined
  joined-Agrees name k rooms t o s (ok _, k') e apart there open_ same =
      let room : Room = record (s.room o) { second = some k' } in
      rw (open_, e)
        (record {
          goes_on = rw ((==_iff t t).1 refl) refl;
          rooms = λ n.
              at_joined s.map s.made s.room o room name n apart there
              ∙ rw (same n) (sym (lookup-insert n name room rooms));
          unlocked = refl;
        })
  joined-Agrees name k rooms t o s (err x, k') e apart there open_ same =
      rw (open_, e)
        (record { goes_on = rw ((==_iff t t).1 refl) refl; rooms = same; unlocked = refl })
  joined-Agrees name k rooms t o s (panic, k') e apart there open_ same =
      rw (open_, e)
        (record { goes_on = rw ((==_iff t t).1 refl) refl; rooms = same; unlocked = refl })

  -- Whether or not the client hears of it, a full room ends the task.
  refused-Agrees :
      (name : Bytes) (k : Socket) (rooms : Rooms) (t o : ℕ) (s : R)
      (p : Outcome (Unit {0}) × Socket)
      → told net prim enc config.answer_nonce (codes "room full") k ≡ p
      → is_full (s.room o) ≡ true
      → SameRooms s.map s.room rooms
      → Agrees t
          (join_room net prim config enc name (s.room o) (record { session = k; rooms = rooms }))
          (record s { map_lock = none; pc = update s.pc t over })
  unfolding join_room put_room
  refused-Agrees name k rooms t o s (ok _, k') e full same =
      rw (full, e)
        (record { goes_on = rw ((==_iff t t).1 refl) refl; rooms = same; unlocked = refl })
  refused-Agrees name k rooms t o s (err x, k') e full same =
      rw (full, e)
        (record { goes_on = rw ((==_iff t t).1 refl) refl; rooms = same; unlocked = refl })
  refused-Agrees name k rooms t o s (panic, k') e full same =
      rw (full, e)
        (record { goes_on = rw ((==_iff t t).1 refl) refl; rooms = same; unlocked = refl })

  join-Agrees :
      (name : Bytes) (k : Socket) (rooms : Rooms) (t o : ℕ) (s : R)
      → Apart s.map s.made
      → find name s.map ≡ some o
      → SameRooms s.map s.room rooms
      → Agrees t
          (join_room net prim config enc name (s.room o) (record { session = k; rooms = rooms }))
          (join net prim config.now name enc config.answer_nonce k o t s)
  unfolding join
  join-Agrees name k rooms t o s apart there same = elim (Bool-cases (is_full (s.room o))) [
    | inl full ↦ rw full (refused-Agrees name k rooms t o s _ refl full same)
    | inr open_ ↦ rw open_ (joined-Agrees name k rooms t o s _ refl apart there open_ same)
  ]

  -- The moves of the task up to the end of `negotiate_info`: with a room, it takes two.
  abbrev pub moves : ℕ → Option ℕ → List ℕ
  moves t none = t ∷ []
  moves t (some o) = t ∷ t ∷ []

  freed : (o : Option ℕ) (go wait : R) → o ≡ none → when_free o go wait ≡ go
  unfolding when_free
  freed none go wait h = refl
  freed (some owner) go wait h = absurd cc

  -- The task with the lock of the map, in front of that of the room.
  abbrev at_room : Bytes → Socket → ℕ → ℕ → R → R
  at_room name k o t s = record s {
    map_lock = some t;
    pc = update s.pc t (looking name enc config.answer_nonce k o);
  }

  first_move :
      (name : Bytes) (k : Socket) (t : ℕ) (s : R) (found : Option ℕ)
      → find name s.map ≡ found
      → s.pc t ≡ asking name enc config.answer_nonce k
      → s.map_lock ≡ none
      → act net prim config.now (s.pc t) t s
        ≡ ask net prim config.now name enc config.answer_nonce k found t s
  unfolding act
  first_move name k t s found e stands free =
      ap (λ p. act net prim config.now p t s) stands
      ∙ freed s.map_lock _ s free
      ∙ ap (λ f. ask net prim config.now name enc config.answer_nonce k f t s) e

  second_move :
      (name : Bytes) (k : Socket) (o t : ℕ) (s : R)
      → s.room_lock o ≡ none
      → act net prim config.now ((at_room name k o t s).pc t) t (at_room name k o t s)
        ≡ join net prim config.now name enc config.answer_nonce k o t (at_room name k o t s)
  unfolding act
  second_move name k o t s free =
      let here : (at_room name k o t s).pc t ≡ looking name enc config.answer_nonce k o =
        rw ((==_iff t t).1 refl) refl in
      ap (λ p. act net prim config.now p t (at_room name k o t s)) here
      ∙ freed (s.room_lock o) _ (at_room name k o t s) free

  entered_by :
      (name : Bytes) (k : Socket) (rooms : Rooms) (t : ℕ) (s : R) (found : Option ℕ)
      → find name s.map ≡ found
      → Apart s.map s.made
      → s.pc t ≡ asking name enc config.answer_nonce k
      → s.map_lock ≡ none
      → ((o : ℕ) → s.room_lock o ≡ none)
      → SameRooms s.map s.room rooms
      → Agrees t
          (enter_found net prim config enc name
            (at s.room found)
            (record { session = k; rooms = rooms }))
          (schedule net prim config.now (moves t found) s)
  unfolding enter_found schedule ask
  entered_by name k rooms t s none e apart stands free unlocked same =
      subst (Agrees t _) (sym (first_move name k t s none e stands free))
        (made-Agrees name k rooms t s _ refl apart free same)
  entered_by name k rooms t s (some o) e apart stands free unlocked same =
      subst (Agrees t _)
        (sym (
          ap (λ x. act net prim config.now (x.pc t) t x)
            (first_move name k t s (some o) e stands free)
          ∙ second_move name k o t s (unlocked o)))
        (join-Agrees name k rooms t o (at_room name k o t s) apart e same)

  -- Take a relay with no lock taken, in whose map no two names share a room and no number is still
  -- to come, a task that asks for a room in it, and rooms that are the same by their names. After
  -- one move of the task, or two where there is a room of that name, the task stands where handle
  -- goes on after what the match of negotiate_info on those rooms returns, whether that is the
  -- name, none or an error; the rooms are by their names those that it leaves; and the map is
  -- unlocked.
  pub tasks_negotiate :
      (name : Bytes) (k : Socket) (rooms : Rooms) (t : ℕ) (s : R)
      → Apart s.map s.made
      → s.pc t ≡ asking name enc config.answer_nonce k
      → s.map_lock ≡ none
      → ((o : ℕ) → s.room_lock o ≡ none)
      → SameRooms s.map s.room rooms
      → Agrees t
          (enter_room net prim config enc name (record { session = k; rooms = rooms }))
          (schedule net prim config.now (moves t (find name s.map)) s)
  unfolding enter_room
  tasks_negotiate name k rooms t s apart stands free unlocked same =
      rw (← same name)
        (entered_by name k rooms t s (find name s.map) refl apart stands free unlocked same)
