-- ===== src/Session/Taking.antt =====
-- The loop of a receiver over the files that it has been told of.
use mathlib.Core.List.{map-append}
use rust_croc.Common.{
  ℕ, suc, ◌^◌, ◌+◌, ◌<◌, ◌≤◌, ◌≡◌, refl, ap, sym, ◌∙◌, true, some, List, [], ◌∷◌, ◌++◌,
  append_assoc, append-nil, map, All, length, Bytes, ok, after, arith, lt→ltb, false,
}
use rust_croc.Std.Path
use rust_croc.Net.{Net}
use rust_croc.Wire.RoundTrip.{framed}
use rust_croc.Crypto.{Primitives}
use rust_croc.Enc.{EncryptedSession}
use rust_croc.Pake.{PakeCrate}
use rust_croc.Json.{Json}
use rust_croc.Files.{File, FileOps}
use rust_croc.Transfer.{tcp_buffer_size, created}
use rust_croc.Msg.{FileInfo, Message, Desktop}
use rust_croc.Session.Agree.{send_lem}
use rust_croc.Session.Files.{
  Disk, Running, total_chunks, receive_with, receive_data, receive_file, receive_files, keep_file,
  put, others, create_file,
}
use rust_croc.Session.Sending.{ready, readies, source}
use rust_croc.Session.Delivery.{Delivers, delivered_lem}

-- The messages of all files, one file after the other.
abbrev pub flat : List (List Bytes) → List Bytes
flat [] = []
flat (ms ∷ more) = ms ++ flat more

-- Where the receiver puts a file.
abbrev pub target : FileInfo → Bytes
target f = Path.join f.remote_folder f.name

-- The files are none of those that there are, and no two of them are one.
abbrev pub Apart : {World : Type 0} → Disk World → List Bytes → List FileInfo → Type 0
Apart disk had [] = Unit
Apart disk had (f ∷ files) =
    All (λ p. disk.same p (target f) ≡ false) had × Apart disk (had ++ (target f ∷ [])) files

abbrev pub path_of : Bytes × File → Bytes
path_of e = e.0

-- A file that is not there yet comes behind the others, and one that has just come is the one that
-- is written.
put-new :
    {World : Type 0} (disk : Disk World) (path : Bytes) (f : File) (files : List (Bytes × File))
    → All (λ p. disk.same p path ≡ false) (map path_of files)
    → put disk path f files ≡ files ++ ((path, f) ∷ [])
unfolding put others
put-new disk path f [] new = refl
put-new disk path f (e ∷ files) (here, new) =
    rw here (ap (λ l. e ∷ l) (put-new disk path f files new))

put-put :
    {World : Type 0} (disk : Disk World) (path : Bytes) (f g : File) (files : List (Bytes × File))
    → All (λ p. disk.same p path ≡ false) (map path_of files)
    → put disk path f (files ++ ((path, g) ∷ [])) ≡ files ++ ((path, f) ∷ [])
unfolding put others
put-put disk path f g [] new = rw (disk.same_refl path) refl
put-put disk path f g (e ∷ files) (here, new) =
    rw here (ap (λ l. e ∷ l) (put-put disk path f g files new))

-- The path and the contents of a file that has been received, and of one that is sent.
abbrev pub outcome_of : Bytes × File → Bytes × Bytes
outcome_of (path, f) = (path, f.contents)

abbrev pub promised : (Bytes → File) → FileInfo → Bytes × Bytes
promised file_at f = (target f, (file_at (source f)).contents)

module _ (net : Net) (prim : Primitives) (pake : PakeCrate) (json : Json Message) (d : Desktop)
    (disk : Disk d.World) (fs : FileOps) (file_at : Bytes → File) where
  abbrev Client : Type 0
  Client = Running net prim pake json d disk fs

  -- What has been said of a file is so, and the file can be made.
  pub record Described (f : FileInfo) : Type 0 where
    pub size : f.size ≡ length (file_at (source f)).contents
    pub small : f.size < 2 ^ 63
    pub creates : (w : d.World) → (disk.create (target f) w).0 ≡ ok tt

  -- The messages for each of the files.
  abbrev pub AllDelivered : EncryptedSession net prim → List FileInfo → List (List Bytes) → Type 0
  AllDelivered e [] [] = Unit
  AllDelivered e [] (a ∷ comes) = ⊥
  AllDelivered e (f ∷ left) [] = ⊥
  AllDelivered e (f ∷ left) (a ∷ comes) =
      Delivers net prim fs e (file_at (source f)) a × AllDelivered e left comes

  -- A receiver after requests, on a machine that has changed, with more files.
  abbrev pub taken : Bytes → d.World → List Bytes → List (Bytes × File) → Client → Client
  taken requests w rest got c = record c {
    session = record c.session {
      stream = record c.session.stream { sent = c.session.stream.sent ++ requests };
    };
    world = w;
    incoming = rest;
    received = c.received ++ got;
  }

  with_data : List Bytes → EncryptedSession net prim → Client → Client
  with_data ms e c = record c { incoming = ms; rw = some e }

  taken_nothing :
      (more : List Bytes) (c : Client) → taken [] c.world more [] c ≡ record c { incoming = more }
  taken_nothing more c = rw (append-nil c.session.stream.sent, append-nil c.received) refl

  taken_twice :
      (r1 r2 : Bytes) (w1 w2 : d.World) (m1 m2 : List Bytes) (g1 g2 : List (Bytes × File))
      (c : Client)
      → taken r2 w2 m2 g2 (taken r1 w1 m1 g1 c) ≡ taken (r1 ++ r2) w2 m2 (g1 ++ g2) c
  taken_twice r1 r2 w1 w2 m1 m2 g1 g2 c =
      rw (append_assoc c.session.stream.sent r1 r2, append_assoc c.received g1 g2) refl

  module _ (e : EncryptedSession net prim) (room : 8 + tcp_buffer_size ≤ prim.limit) where
    taken_file :
        (n : ℕ) (f : FileInfo) (arrived more : List Bytes) (c : Client)
        → Described f
        → All (λ p. disk.same p (target f) ≡ false) (map path_of c.received)
        → Delivers net prim fs e (file_at (source f)) arrived
        → length (json.text (ready n)) < 2 ^ 32
        → c.session.stream.writable ≡ true
        → (w : d.World) × (g : File) × (receive_file net prim pake json d disk fs n f
              (record c { incoming = arrived ++ more; rw = some e })
            ≡ (
              ok tt,
              taken
                  (framed (json.text (ready n)))
                  w
                  more
                  ((target f, g) ∷ [])
                  (record c { rw = some e }),
            ))
          × (g.contents ≡ (file_at (source f)).contents)
    unfolding receive_file receive_data receive_with total_chunks create_file keep_file
    taken_file n f arrived more c h new comes short w =
        let file = file_at (source f) in
        let size = h.size in
        let (g, got, right) =
          delivered_lem net prim fs e file arrived more (omega (arith, h.small)) room comes in
        let made : disk.create (target f) c.world ≡ (ok tt, (disk.create (target f) c.world).1) =
          ap (λ r. (r, (disk.create (target f) c.world).1)) (h.creates c.world) in
        (
          (disk.create (target f) c.world).1,
          g,
          rw
              (
                made,
                disk.set_len_lem f.size h.small,
                put-new disk (target f) (record { contents = []; position = 0 }) c.received new,
                put-put disk (target f) (created fs f.size) (record { contents = []; position = 0 })
                    c.received new,
                send_lem net prim pake json (ready n) c.session.stream short w,
                lt→ltb f.size (2 ^ 63) h.small,
                size,
                got,
                put-put disk (target f) g (created fs (length file.contents)) c.received new,
              )
              refl,
          right,
        )

    -- All files from the n-th on.
    pub taken_files :
        (n : ℕ) (left : List FileInfo) (comes : List (List Bytes)) (more : List Bytes) (c : Client)
        → All Described left
        → Apart disk (map path_of c.received) left
        → AllDelivered e left comes
        → ((k : ℕ) → k < n + length left → length (json.text (ready k)) < 2 ^ 32)
        → c.session.stream.writable ≡ true
        → (w : d.World) × (got : List (Bytes × File)) × (receive_files net prim pake json d disk fs
              n left
              (record c { incoming = flat comes ++ more; rw = some e })
            ≡ (ok tt, taken (readies json n left) w more got (record c { rw = some e })))
          × (map outcome_of got ≡ map (promised file_at) left)
    unfolding receive_files
    taken_files n [] [] more c h new all short w = (
      c.world,
      [],
      ap (λ x. (ok tt, x)) (sym (taken_nothing more (record c { rw = some e }))),
      refl,
    )
    taken_files n [] (a ∷ comes) more c h new all short w = absurd all
    taken_files n (f ∷ left) [] more c h new all short w = absurd all
    taken_files n (f ∷ left) (a ∷ comes) more c (here, h) (new, news) (first, all) short w =
        let (w1, g, one, right) =
          taken_file n f a (flat comes ++ more) c here new first (short n (omega arith)) w in
        let request = framed (json.text (ready n)) in
        let c1 : Client = taken request w1 more ((target f, g) ∷ []) (record c { rw = some e }) in
        let (w2, got, run, rights) =
          taken_files (suc n) left comes more c1 h
            (rw (map-append path_of c.received ((target f, g) ∷ [])) news) all
            (λ k less. short k (omega (arith, less))) w in
        (
          w2,
          (target f, g) ∷ got,
          ap
                (λ ms.
                  receive_files net prim pake json d disk fs n (f ∷ left)
                    (record c { incoming = ms; rw = some e }))
                (append_assoc a (flat comes) more)
              ∙ ap (λ r. after r (λ _. receive_files net prim pake json d disk fs (suc n) left)) one
              ∙ run
              ∙ ap (λ x. (ok tt, x))
                  (taken_twice request (readies json (suc n) left) w1 w2 more more
                    ((target f, g) ∷ []) got (record c { rw = some e })),
          rw (right, rights) refl,
        )
