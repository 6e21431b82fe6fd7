-- ===== src/Msg/Folders.antt =====
-- `create_folder` and `create_empty_folders` on a machine whose folders behave as documented, and
-- the total of the sizes.
use rust_croc.Common.{
  ℕ, ◌+◌, ◌^◌, ◌<◌, ◌≡◌, refl, sym, ap, ◌∙◌, Bool, true, false, List, [], ◌∷◌, Bytes, Outcome, ok,
  err, panic, ◌↔◌, after, after-eq-ok, return, fail, overwrite_denide, if◌then◌else◌, arith,
  Bool-cases, inl, inr, ◌≤◌, All, ltb, ltb→lt, ◌%◌, not, ◌&&◌, subst,
}
use rust_croc.Std.Utf8.{is_utf8}
use rust_croc.Std.Path
use rust_croc.Msg.{
  FileInfo, FilesInformation, Desktop, listed, sum_sizes, total_size, ask_overwrite, create_below,
  create_folder, create_folders, create_empty_folders, add_i64, overflows, is_negative, question,
  total_items, ask_about,
}

-- The sum of the sizes as it should be.
unfoldable pub true_sum : List FileInfo → ℕ
true_sum [] = 0
true_sum (f ∷ fs) = f.size + true_sum fs

-- A size as a file has it.
abbrev pub IsSize : FileInfo → Type 0
IsSize f = f.size < 2 ^ 63

-- Two that are not negative overflow exactly where their sum does not fit.
add-fits :
    (checks : Bool) (a b : ℕ)
    → a < 2 ^ 63
    → b < 2 ^ 63
    → a + b < 2 ^ 63
    → add_i64 checks a b ≡ ok (a + b)
unfolding add_i64 overflows is_negative
add-fits checks a b small small' fits = ground arith

add-overflows : (a b : ℕ) → a < 2 ^ 63 → b < 2 ^ 63 → 2 ^ 63 ≤ a + b → add_i64 true a b ≡ panic
unfolding add_i64 overflows is_negative
add-overflows a b small small' large = ground arith

sum-panic : (checks : Bool) (fs : List FileInfo) → sum_sizes checks panic fs ≡ panic
unfolding sum_sizes
sum-panic checks [] = refl
sum-panic checks (f ∷ fs) = refl

sum-fits :
    (checks : Bool) (n : ℕ) (fs : List FileInfo)
    → All IsSize fs
    → n + true_sum fs < 2 ^ 63
    → sum_sizes checks (ok n) fs ≡ ok (n + true_sum fs)
unfolding sum_sizes true_sum
sum-fits checks n [] h fits = ap ok (omega arith)
sum-fits checks n (f ∷ fs) (h, hs) fits =
    rw (sum_sizes, add-fits checks n f.size (omega (arith, fits)) h (omega (arith, fits)))
      (sum-fits checks (n + f.size) fs hs (omega (arith, fits)) ∙ ap ok (omega arith))

sum-overflows :
    (n : ℕ) (fs : List FileInfo)
    → n < 2 ^ 63
    → All IsSize fs
    → 2 ^ 63 ≤ n + true_sum fs
    → sum_sizes true (ok n) fs ≡ panic
unfolding sum_sizes true_sum
sum-overflows n [] small h large = absurd (omega (arith, small, large))
sum-overflows n (f ∷ fs) small (h, hs) large = elim (Bool-cases (ltb (n + f.size) (2 ^ 63))) [
  | inl fits ↦
      let fits' = ltb→lt (n + f.size) (2 ^ 63) fits in
      rw (sum_sizes, add-fits true n f.size small h fits')
        (sum-overflows (n + f.size) fs fits' hs (omega (arith, large)))
  | inr over ↦
      rw (sum_sizes, add-overflows n f.size small h (ground (arith, over))) (sum-panic true fs)
]

sum-wraps :
    (n : ℕ) (fs : List FileInfo)
    → n < 2 ^ 64
    → sum_sizes false (ok n) fs ≡ ok ((n + true_sum fs) % 2 ^ 64)
unfolding sum_sizes true_sum add_i64
sum-wraps n [] small = ap ok (omega (arith, small))
sum-wraps n (f ∷ fs) small =
    sum-wraps ((n + f.size) % 2 ^ 64) fs (omega arith) ∙ ap ok (omega arith)

sum-checked :
    (fs : List FileInfo)
    → All IsSize fs
    → sum_sizes true (ok 0) fs ≡ (if ltb (true_sum fs) (2 ^ 63) then ok (true_sum fs) else panic)
sum-checked fs h = elim (Bool-cases (ltb (true_sum fs) (2 ^ 63))) [
  | inl fits ↦
      let fits' = ltb→lt (true_sum fs) (2 ^ 63) fits in
      rw fits (sum-fits true 0 fs h (omega (arith, fits')) ∙ ap ok (omega arith))
  | inr over ↦ rw over (sum-overflows 0 fs (omega arith) h (ground (arith, over)))
]

-- Of files whose sizes are below 2^63 each: in a build with checks for overflows, total_size is the
-- sum of the sizes if that is below 2^63, and panics if not; in another build it is the sum modulo
-- 2^64, as the bits of an i64. What process_files_info runs to ask the user panics without asking
-- exactly in the case of the overflow that is checked for, and otherwise asks about that number.
pub total_size_lem :
    (d : Desktop) (i : FilesInformation) (w : d.World)
    → All IsSize (listed i.files_to_transfare)
    → let sum = true_sum (listed i.files_to_transfare) in
      (total_size true i ≡ (if ltb sum (2 ^ 63) then ok sum else panic))
      × (total_size false i ≡ ok (sum % 2 ^ 64))
      × (question d i w ≡ (
          if d.overflow_checks && not (ltb sum (2 ^ 63))
          then (panic, w)
          else d.confirm_receive (total_items i) (sum % 2 ^ 64) w))
unfolding total_size question ask_about
total_size_lem d i w h =
    let fs = listed i.files_to_transfare in
    let sum = true_sum fs in
    let checked = sum-checked fs h in
    let wrapped : sum_sizes false (ok 0) fs ≡ ok (sum % 2 ^ 64) =
      sum-wraps 0 fs (omega arith) ∙ ap ok (omega arith) in
    let Asks : Bool → Bool → ℕ → Type 0 = λ checks fits n.
      ask_about d i (sum_sizes checks (ok 0) fs) w
      ≡ (if checks && not fits then (panic, w) else d.confirm_receive (total_items i) n w) in
    (
      checked,
      wrapped,
      elim (Bool-cases d.overflow_checks) [
        | inl checks ↦ elim (Bool-cases (ltb sum (2 ^ 63))) [
          | inl fits ↦
              let whole : sum % 2 ^ 64 ≡ sum = omega (arith, ltb→lt sum (2 ^ 63) fits) in
              let got : sum_sizes true (ok 0) fs ≡ ok sum = checked ∙ rw fits refl in
              let asked : Asks true true sum = ap (λ n. ask_about d i n w) got in
              subst (λ c. Asks c (ltb sum (2 ^ 63)) (sum % 2 ^ 64)) (sym checks)
                (subst (λ f. Asks true f (sum % 2 ^ 64)) (sym fits)
                  (subst (λ n. Asks true true n) (sym whole) asked))
          | inr over ↦
              let got : sum_sizes true (ok 0) fs ≡ panic = checked ∙ rw over refl in
              let asked : Asks true false (sum % 2 ^ 64) = ap (λ n. ask_about d i n w) got in
              subst (λ c. Asks c (ltb sum (2 ^ 63)) (sum % 2 ^ 64)) (sym checks)
                (subst (λ f. Asks true f (sum % 2 ^ 64)) (sym over) asked)
        ]
        | inr unchecked ↦
            let asked : Asks false (ltb sum (2 ^ 63)) (sum % 2 ^ 64) =
              ap (λ n. ask_about d i n w) wrapped in
            subst (λ c. Asks c (ltb sum (2 ^ 63)) (sum % 2 ^ 64)) (sym unchecked) asked
      ],
    )

module _ (d : Desktop) where
  asked :
      (p : Bytes) (r : Outcome Bool × d.World)
      → d.exists p r.1 ≡ true
      → d.exists p
          (after {0, 0, 0} r (λ agreed. if agreed then return tt else fail overwrite_denide)).1
        ≡ true
  asked p (ok true, w) h = h
  asked p (ok false, w) h = h
  asked p (err e, w) h = h
  asked p (panic, w) h = h

  ask_overwrite_keeps :
      (p : Bytes) (w : d.World) → d.exists p w ≡ true → d.exists p (ask_overwrite d p w).1 ≡ true
  unfolding ask_overwrite
  ask_overwrite_keeps p w h =
      rw h (asked p (d.confirm_overwrite p w) (d.confirm_overwrite_keeps p p w ∙ h))

  create_below_fails :
      (path here : Bytes) (w w' : d.World)
      → d.exists path w ≡ true
      → ¬ (create_below d path here w ≡ (ok tt, w'))
  unfolding create_below
  create_below_fails path here w w' there h = elim (Bool-cases (Path.starts_with path here)) [
    | inl within ↦
        let (_, w1, asked, created) = after-eq-ok (ask_overwrite d path w) _ (rw within at h) in
        let still : d.exists path w1 ≡ true =
          ap (λ r. d.exists path r.1) (sym asked) ∙ ask_overwrite_keeps path w there in
        let failed = d.create_dir_exists path w1 still in absurd cc
    | inr outside ↦ elim (Bool-cases (is_utf8 [] path)) [
      | inl text ↦ ground arith
      | inr other ↦ ground arith
    ]
  ]

  create_folder_fails : (f : FileInfo) (w w' : d.World) → ¬ (create_folder d f w ≡ (ok tt, w'))
  unfolding create_folder
  create_folder_fails f w w' h =
      let (path, w1, found, h1) = after-eq-ok (d.canonicalize f.remote_folder w) _ h in
      let (here, w2, there, h2) = after-eq-ok (d.current_dir w1) _ h1 in
      create_below_fails path here w2 w'
        (ap (λ r. d.exists path r.1) (sym there)
          ∙ d.current_dir_keeps path w1
          ∙ d.canonicalize_exists f.remote_folder path w w1 found)
        h2

  create_folders_iff :
      (fs : List FileInfo) (w w' : d.World)
      → (create_folders d fs w ≡ (ok tt, w')) ↔ ((fs ≡ []) × (w ≡ w'))
  unfolding create_folders
  create_folders_iff [] w w' = (λ h. (refl, ap (λ r. r.1) h), λ h. ap (λ v. (ok tt, v)) (h.1))
  create_folders_iff (f ∷ fs) w w' = (
    λ h.
        let (_, w1, made, _) = after-eq-ok (create_folder d f w) _ h in
        absurd (create_folder_fails f w w1 made),
    λ h. cc,
  )

  -- On a machine whose folders behave as documented, create_empty_folders ends without an error
  -- exactly if it is given no folder, and then changes nothing.
  pub create_empty_folders_iff :
      (i : FilesInformation) (w w' : d.World)
      → (create_empty_folders d i w ≡ (ok tt, w'))
        ↔ ((listed i.empty_folders_to_transfare ≡ []) × (w ≡ w'))
  unfolding create_empty_folders
  create_empty_folders_iff i w w' = create_folders_iff (listed i.empty_folders_to_transfare) w w'
