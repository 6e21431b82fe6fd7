-- ===== src/Transfer/Cover.antt =====
-- The chunks of `send_file` lie in the file, cover it, and are as many as the receiver waits for.
use mathlib.Core.List.{Mem, mem-cons_self, mem-cons_of_mem, mem-map_of_mem}
use rust_croc.Common.{
  ℕ, zero, suc, ◌+◌, ◌-◌, ◌/◌, ◌^◌, ◌≤◌, ◌<◌, ◌≡◌, refl, ap, ◌∙◌, true, List, [], ◌∷◌, map, All,
  length, Bytes, arith, dec_lt, lt→ltb, le→ltb,
}
use rust_croc.Fs.{FileChunkInfo}
use rust_croc.Fs.Chunk.{Inside}
use rust_croc.Fs.AnyOrder.{covers}
use rust_croc.Transfer.{tcp_buffer_size, step_by, chunk_at, send_file_chunks, div_ceil}

-- Every offset lies before the end.
step_by-lt : (fuel step start end : ℕ) → All (λ o. o < end) (step_by fuel step start end)
unfolding step_by
step_by-lt zero step start end = tt
step_by-lt (suc fuel) step start end = ground (arith, step_by-lt fuel step (start + step) end)

-- Every place before the end has an offset at most a step before it.
step_by_covers :
    (fuel step start end i : ℕ)
    → end ≤ start + fuel
    → 0 < step
    → start ≤ i
    → i < end
    → (o : ℕ) × Mem o (step_by fuel step start end) × (o ≤ i) × (i < o + step)
unfolding step_by
step_by_covers zero step start end i enough pos low high = absurd (omega arith)
step_by_covers (suc fuel) step start end i enough pos low high =
    rw (lt→ltb start end (omega arith)) (elim (dec_lt i (start + step)) [
      | yes here ↦ (start, mem-cons_self, low, here)
      | no later ↦
          let (o, m, below, above) =
            step_by_covers fuel step (start + step) end i (omega arith) pos (omega arith) high in
          (o, mem-cons_of_mem start m, below, above)
    ])

length-step_by :
    (fuel start end : ℕ)
    → end ≤ start + fuel
    → length (step_by fuel tcp_buffer_size start end) ≡ (end - start + 65535) / 65536
unfolding step_by
length-step_by zero start end h = omega arith
length-step_by (suc fuel) start end h = elim (dec_lt start end) [
  | yes more ↦
      rw (lt→ltb start end more)
        (omega (arith, length-step_by fuel (start + tcp_buffer_size) end (omega arith)))
  | no done ↦ rw (le→ltb start end (omega arith)) (omega arith)
]

-- What holds of every offset holds of every chunk.
All-chunks :
    (P : FileChunkInfo → Type 0) (size : ℕ) (os : List ℕ)
    → ((o : ℕ) → o < size → P (chunk_at size o))
    → All (λ o. o < size) os
    → All P (map (chunk_at size) os)
All-chunks P size [] each h = tt
All-chunks P size (o ∷ os) each (first, h) = (each o first, All-chunks P size os each h)

-- A chunk that can be asked for: inside the file, not empty, and no longer than the buffer.
pub record IsChunk (f : Bytes) (info : FileChunkInfo) : Type 0 where
  pub inside : Inside f info
  pub pos : 0 < info.chunk_size
  pub short : info.chunk_size ≤ tcp_buffer_size

chunk_at-IsChunk :
    (f : Bytes) (o : ℕ) → length f < 2 ^ 64 → o < length f → IsChunk f (chunk_at (length f) o)
unfolding chunk_at
chunk_at-IsChunk f o small h = elim (dec_lt (length f) (o + tcp_buffer_size)) [
  | yes last ↦
      rw (lt→ltb (length f) (o + tcp_buffer_size) last)
        (record { inside = omega arith; pos = omega arith; short = omega arith })
  | no whole ↦
      rw (le→ltb (length f) (o + tcp_buffer_size) (omega arith))
        (record { inside = omega arith; pos = omega arith; short = omega arith })
]

pub send_file_chunks-IsChunk :
    (f : Bytes) → length f < 2 ^ 64 → All (IsChunk f) (send_file_chunks (length f))
unfolding send_file_chunks
send_file_chunks-IsChunk f small =
    All-chunks (IsChunk f) (length f) _ (λ o h. chunk_at-IsChunk f o small h)
      (step_by-lt (length f) tcp_buffer_size 0 (length f))

chunk_at-covers :
    (size o i : ℕ) → i < size → o ≤ i → i < o + tcp_buffer_size → covers (chunk_at size o) i ≡ true
unfolding chunk_at
chunk_at-covers size o i h low high = ground arith

-- Every byte of the file is in a chunk.
pub send_file_chunks-covers :
    (size i : ℕ)
    → i < size
    → (info : FileChunkInfo) × Mem info (send_file_chunks size) × (covers info i ≡ true)
unfolding send_file_chunks
send_file_chunks-covers size i h =
    let (o, m, low, high) =
      step_by_covers size tcp_buffer_size 0 size i (omega arith) (omega arith) (omega arith) h in
    (chunk_at size o, mem-map_of_mem (chunk_at size) m, chunk_at-covers size o i h low high)

length-map {ℓ κ} :
    {A : Type ℓ} {B : Type κ} (g : A → B) (xs : List A) → length (map g xs) ≡ length xs
length-map g [] = refl
length-map g (x ∷ xs) = ap suc (length-map g xs)

-- There are as many chunks as the receiver waits for.
pub length-send_file_chunks :
    (size : ℕ) → length (send_file_chunks size) ≡ div_ceil size tcp_buffer_size
unfolding send_file_chunks div_ceil
length-send_file_chunks size =
    length-map (chunk_at size) (step_by size tcp_buffer_size 0 size)
    ∙ length-step_by size 0 size (omega arith)
    ∙ ground arith
