-- ===== src/Session/Calm.antt =====
-- A session that has what its state promises does not panic over the files that it takes.
use rust_croc.Common.{
  ℕ, suc, ◌^◌, ◌≡◌, ◌≢◌, refl, sym, ap, ◌∙◌, inl, inr, Bool, true, false, not, ◌&&◌, Option, none,
  some, List, [], ◌∷◌, length, Bytes, Outcome, ok, err, panic, Act, after, ltb, Bool-cases,
  if◌then◌else◌, io, lift, ltb→lt, arith,
}
use rust_croc.Std.Path
use rust_croc.Net.{Net, Socket}
use rust_croc.Wire
use rust_croc.Wire.{frame}
use rust_croc.Crypto.{Primitives}
use rust_croc.Enc.{EncryptedSession}
use rust_croc.Pake.{PakeCrate}
use rust_croc.Json.{Json}
use rust_croc.Files.{File, FileOps}
use rust_croc.Transfer.{created}
use rust_croc.Msg.{FilesInformation, Message, Desktop}
use rust_croc.Msg
use rust_croc.Session.{
  ClientState, key_exchange, ip_exchange, file_info_transfare, file_transfare, file_transfared,
  is_file_transfare,
}
use rust_croc.Session.Keyed.{Has}
use rust_croc.Session.Files.{
  Disk, Running, total_chunks, receive_with, receive_data, receive_file, receive_files, keep_file,
  create_file, put,
}
use rust_croc.Session.Files
use rust_croc.Session.Loop.{wanted, take_files}
use rust_croc.Session.Valid.{IsValid, Holds, IsTold}
use rust_croc.Session.Rounds.{both_true}

-- No panic, and what holds of the state after a call that ends in `ok`.
unfoldable pub Calm {ℓ κ} : {S : Type ℓ} {A : Type κ} → (S → Type 0) → Outcome A × S → Type 0
Calm Q (ok a, s) = Q s
Calm Q (err e, s) = Unit
Calm Q (panic, s) = ⊥

Calm-after {ℓ κ ρ} :
    {S : Type ℓ} {A : Type κ} {B : Type ρ} (P : S → Type 0) (Q : S → Type 0) (p : Outcome A × S)
    (f : A → Act S B)
    → Calm P p
    → ((a : A) (s : S) → P s → Calm Q (f a s))
    → Calm Q (after p f)
unfolding Calm
Calm-after P Q (ok a, s) f h rest = rest a s h
Calm-after P Q (err e, s) f h rest = tt
Calm-after P Q (panic, s) f h rest = h

-- A call on a part of the state that does not panic.
Calm-part {ℓ κ ρ} :
    {S : Type ℓ} {T : Type ρ} {A : Type κ} (Q : T → Type 0) (put : S → T) (p : Outcome A × S)
    → p.0 ≢ panic
    → ((s : S) → Q (put s))
    → Calm Q (let (a, s) = p in (a, put s))
unfolding Calm
Calm-part Q put (ok a, s) h rest = rest s
Calm-part Q put (err e, s) h rest = tt
Calm-part Q put (panic, s) h rest = h refl

Calm-cond {ℓ κ} :
    {S : Type ℓ} {A : Type κ} (Q : S → Type 0) (b : Bool) (p q : Outcome A × S)
    → (b ≡ true → Calm Q p)
    → (b ≡ false → Calm Q q)
    → Calm Q (if b then p else q)
Calm-cond Q true p q h k = h refl
Calm-cond Q false p q h k = k refl

Calm-lift {ℓ κ ρ} :
    {S : Type ℓ} {A : Type κ} {B : Type ρ} (Q : S → Type 0) (o : Outcome A) (a : A) (s : S)
    (f : A → Act S B)
    → o ≡ ok a
    → Calm Q (f a s)
    → Calm Q (after (o, s) f)
Calm-lift Q (ok b) a s f e h = let same : b ≡ a = cc in rw same h
Calm-lift Q (err x) a s f e h = absurd cc
Calm-lift Q panic a s f e h = absurd cc

Calm-ne-panic {ℓ κ} :
    {S : Type ℓ} {A : Type κ} (Q : S → Type 0) (p : Outcome A × S) → Calm Q p → p.0 ≢ panic
unfolding Calm
Calm-ne-panic Q (ok a, s) h e = cc
Calm-ne-panic Q (err x, s) h e = cc
Calm-ne-panic Q (panic, s) h e = h

Calm-ok {ℓ κ} : {S : Type ℓ} {A : Type κ} (Q : S → Type 0) (a : A) (s : S) → Q s → Calm Q (ok a, s)
unfolding Calm
Calm-ok Q a s h = h

Calm-any {ℓ κ} :
    {S : Type ℓ} {A : Type κ} (Q : S → Type 0) (p : Outcome A × S) → Calm Q p → Calm (λ _. Unit) p
unfolding Calm
Calm-any Q (ok a, s) h = tt
Calm-any Q (err e, s) h = tt
Calm-any Q (panic, s) h = h

module _ (net : Net) (prim : Primitives) (pake : PakeCrate) (json : Json Message) (d : Desktop)
    (disk : Disk d.World) (fs : FileOps) where
  abbrev Client : Type 0
  Client = Running net prim pake json d disk fs

  write_all-ne-panic : (bs : Bytes) (s : Socket) → (net.write_all bs s).0 ≢ panic
  write_all-ne-panic bs s h = elim (Bool-cases s.writable) [
    | inl open_ ↦
        let e : ok tt ≡ panic = sym (ap (λ r. r.0) (net.write_all_lem bs s open_)) ∙ h in absurd cc
    | inr closed ↦ let e : err io ≡ panic = sym (net.write_all_broken bs s closed) ∙ h in absurd cc
  ]

  framed-ne-panic :
      (o : Outcome Bytes) (s : Socket) → o ≢ panic → (after (o, s) net.write_all).0 ≢ panic
  framed-ne-panic (ok bs) s h = write_all-ne-panic bs s
  framed-ne-panic (err e) s h = λ k. absurd cc
  framed-ne-panic panic s h = λ k. h refl

  frame-ne-panic : (m : Bytes) → frame net m ≢ panic
  unfolding frame
  frame-ne-panic m h = elim (Bool-cases (ltb (length m) (2 ^ 32))) [
    | inl short ↦ let h' = rw short at h in absurd cc
    | inr long ↦ let h' = rw long at h in absurd cc
  ]

  write-ne-panic : (m : Bytes) (s : Socket) → (Wire.write net m s).0 ≢ panic
  unfolding Wire.write
  write-ne-panic m s = framed-ne-panic (frame net m) s (frame-ne-panic m)

  send-ne-panic : (m : Message) (s : Socket) → (Msg.send net json m s).0 ≢ panic
  unfolding Msg.send
  send-ne-panic m s h = write-ne-panic (json.text m) s (rw (json.to_string_lem m) at h)

  -- A receiver with the tasks for files.
  abbrev HasTasks : Client → Type 0
  HasTasks r = Has r.rw

  said-Calm :
      (m : Message) (r : Client)
      → HasTasks r
      → Calm HasTasks (Files.send net prim pake json d disk fs m r)
  said-Calm m r h =
      Calm-part HasTasks (λ t. record r { session = record r.session { stream = t } })
        (Msg.send net json m r.session.stream) (send-ne-panic m r.session.stream) (λ t. h)

  kept-Calm :
      (o : Option (EncryptedSession net prim)) (n : ℕ) (path : Bytes) (f : File) (r : Client)
      → Has o
      → HasTasks r
      → Calm HasTasks (receive_with net prim pake json d disk fs o n path f r)
  unfolding receive_with keep_file Calm
  kept-Calm none n path f r has h = let (a, e) = has in absurd cc
  kept-Calm (some e) n path f r has h = h

  length-Calm : (n : ℕ) (r : Client) → HasTasks r → Calm HasTasks (lift (disk.set_len n) r)
  unfolding Calm
  length-Calm n r h = elim (Bool-cases (ltb n (2 ^ 63))) [
    | inl small ↦ rw (disk.set_len_lem n (ltb→lt n (2 ^ 63) small)) h
    | inr large ↦ rw (disk.set_len_overflow n (ground (arith, large))) tt
  ]

  made-Calm :
      (path : Bytes) (size : ℕ) (r : Client)
      → ((p : Bytes) (w : d.World) → (disk.create p w).0 ≢ panic)
      → HasTasks r
      → Calm HasTasks (create_file net prim pake json d disk fs path size r)
  unfolding create_file keep_file Calm
  made-Calm path size r creates h =
      Calm-after HasTasks HasTasks
        (Files.on_world net prim pake json d disk fs (disk.create path) r) _
        (Calm-part HasTasks (λ w. record r { world = w }) (disk.create path r.world)
          (creates path r.world) (λ w. h))
        (λ _ s k.
          Calm-after HasTasks HasTasks
            (lift (disk.set_len size) (record s {
              received = put disk path (record { contents = []; position = 0 }) s.received;
            }))
            _ (length-Calm size _ k) (λ _ t l. l))

  file-Calm :
      (n : ℕ) (i : Msg.FileInfo) (r : Client)
      → ((p : Bytes) (w : d.World) → (disk.create p w).0 ≢ panic)
      → HasTasks r
      → Calm HasTasks (receive_file net prim pake json d disk fs n i r)
  unfolding receive_file receive_data
  file-Calm n i r creates h =
      let path = Path.join i.remote_folder i.name in
      Calm-after HasTasks HasTasks (create_file net prim pake json d disk fs path i.size r) _
        (made-Calm path i.size r creates h)
        (λ _ s k. Calm-after HasTasks HasTasks _ _ (said-Calm _ s k) (λ _ t l.
          kept-Calm t.rw (total_chunks net prim pake json d disk fs i.size) path (created fs i.size)
            t l l))

  files-Calm :
      (n : ℕ) (is : List Msg.FileInfo) (r : Client)
      → ((p : Bytes) (w : d.World) → (disk.create p w).0 ≢ panic)
      → HasTasks r
      → Calm HasTasks (receive_files net prim pake json d disk fs n is r)
  unfolding receive_files Calm
  files-Calm n [] r creates h = h
  files-Calm n (i ∷ is) r creates h =
      Calm-after HasTasks HasTasks (receive_file net prim pake json d disk fs n i r) _
        (file-Calm n i r creates h) (λ _ s k. files-Calm (suc n) is s creates k)

  in_file_transfare :
      (b : Bool) (k : Option pake.Key) (e w : Option (EncryptedSession net prim))
      (ip : Option Bytes) (files : Option FilesInformation) (st : ClientState)
      → is_file_transfare st ≡ true
      → Holds net prim pake json d disk fs st b k e w ip files
      → Has w × IsTold net prim pake json d disk fs b files
  unfolding Holds is_file_transfare
  in_file_transfare b k e w ip files key_exchange t h = absurd cc
  in_file_transfare b k e w ip files ip_exchange t h = absurd cc
  in_file_transfare b k e w ip files file_info_transfare t h = absurd cc
  in_file_transfare b k e w ip files file_transfare t (_, _, hw, _, told) = (hw, told)
  in_file_transfare b k e w ip files file_transfared t h = absurd cc

  wanted_of :
      (b : Bool) (files : Option FilesInformation)
      → not b ≡ true
      → IsTold net prim pake json d disk fs b files
      → (is : List Msg.FileInfo) × (wanted net prim pake json d disk fs files ≡ ok is)
  wanted_of b files h (inl sends) = let wrong = rw sends at h in absurd cc
  wanted_of b files h (inr told) = told

  -- Any client.
  abbrev HasAll : Client → Type 0
  HasAll r = Unit

  -- A client that has what its state promises, on a machine that makes files without a panic, does
  -- not panic in what process_client does when it takes files: the files to receive are known, the
  -- tasks for files run, and no message that it sends panics.
  pub take_files-ne-panic :
      (r : Client)
      → IsValid net prim pake json d disk fs r
      → ((p : Bytes) (w : d.World) → (disk.create p w).0 ≢ panic)
      → (take_files net prim pake json d disk fs r).0 ≢ panic
  unfolding take_files
  take_files-ne-panic r valid creates =
      Calm-ne-panic HasAll (take_files net prim pake json d disk fs r) (
        Calm-cond HasAll (not r.session.is_sender && is_file_transfare r.session.state) _ (ok tt, r)
          (λ both.
            let (takes, right) = both_true (not r.session.is_sender) _ both in
            let (tasks, told) = in_file_transfare _ _ _ _ _ _ r.session.state right valid in
            let (is, e) = wanted_of r.session.is_sender _ takes told in
            Calm-lift HasAll _ is r _ e (
              Calm-after HasTasks HasAll (receive_files net prim pake json d disk fs 0 is r) _
                (files-Calm 0 is r creates tasks)
                (λ _ s k.
                  Calm-any HasTasks (Files.send net prim pake json d disk fs Message.finished s)
                    (said-Calm Message.finished s k))))
          (λ _. Calm-ok HasAll tt r tt))
