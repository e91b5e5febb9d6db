-- ===== src/Kernel/Striding/Whole.antt =====
-- `stridingMemcpyKernel` as a whole: all threads, all rounds.
use nvbandwidth.Prelude.{
  ℕ, zero, suc, ◌*◌, ◌/◌, ◌%◌, ◌≤◌, ◌<◌, ◌≡◌, List, arith, any, ltb, if◌then◌else◌, fun_ext, ◌∙◌,
  Bool, true, false, Bool-cases, inl, inr, ap,
}
use nvbandwidth.Config.{u32_mod}
use nvbandwidth.Kernel.Memory.{Memory}
use nvbandwidth.Kernel.Grid.{
  Thread, global_index, InGrid, IsSchedule, run_all_lem, any-of_thread, any-of_none, thread_of,
  thread_of-InGrid, global_index-thread_of, global_index-eq,
}
use nvbandwidth.Kernel.Striding.{striding_thread, copy_pass, striding_memcpy_kernel}
use nvbandwidth.Kernel.Striding.Pass.{part, is_part, copy_pass_lem}

part-part :
    (w threads from k : ℕ) (src dst : Memory)
    → part w threads from k src (part w threads from k src dst) ≡ part w threads from k src dst
unfolding part
part-part w threads from k src dst = fun_ext λ j. ground arith

striding_thread_lem :
    (n w threads chunk from : ℕ) (src dst : Memory)
    → from < threads
    → striding_thread (suc n) w threads chunk from src dst ≡ part w threads from chunk src dst
unfolding striding_thread
striding_thread_lem zero w threads chunk from src dst h =
    copy_pass_lem w threads from h src dst chunk
striding_thread_lem (suc n) w threads chunk from src dst h =
    striding_thread_lem n w threads chunk from src (copy_pass w threads chunk from src dst) h
    ∙ ap (part w threads from chunk src) (copy_pass_lem w threads from h src dst chunk)
    ∙ part-part w threads from chunk src dst

chunk-lt :
    (e threads chunk : ℕ)
    → e < chunk * threads
    → (0 < threads) × (e / threads < chunk) × (e % threads < threads)
chunk-lt e zero chunk h = absurd (omega arith)
chunk-lt e (suc n) chunk h = (omega arith, grind arith, omega arith)

lt-chunk : (e threads chunk : ℕ) → 0 < threads → e / threads < chunk → e < chunk * threads
lt-chunk e threads chunk p h = grind arith

module _ {grid block : ℕ} {ts : List Thread} (s : IsSchedule grid block ts)
    (small : grid * block ≤ u32_mod) (n w chunk : ℕ) (src dst : Memory) where
  abbrev threads : ℕ
  threads = grid * block

  abbrev owns : Thread → ℕ → Bool
  owns t j = is_part w (grid * block) (global_index block t) chunk j

  run_lem :
      (j : ℕ)
      → striding_memcpy_kernel block ts (grid * block) (suc n) w src chunk dst j
        ≡ (if any (λ t. owns t j) ts then src j else dst j)
  unfolding striding_memcpy_kernel part
  run_lem j =
      run_all_lem (InGrid grid block) owns src
        (λ t. striding_thread (suc n) w (grid * block) chunk (global_index block t) src)
        (λ t m i h.
          ap (λ (f : Memory). f i)
            (striding_thread_lem n w (grid * block) chunk (global_index block t) src m
              (global_index-eq grid block t small h).1))
        ts dst j s.inside

  any-lt : (j : ℕ) → j / w < chunk * (grid * block) → any (λ t. owns t j) ts ≡ true
  any-lt j h =
      let (p, q, r) = chunk-lt (j / w) (grid * block) chunk h in
      any-of_thread (λ t. owns t j) s (thread_of block (j / w % (grid * block)))
        (thread_of-InGrid grid block (j / w % (grid * block)) r)
        (ground (arith, global_index-thread_of grid block (j / w % (grid * block)) small r))

  any-ge : (j : ℕ) → chunk * (grid * block) ≤ j / w → any (λ t. owns t j) ts ≡ false
  any-ge j h =
      any-of_none (λ t. owns t j) s
        λ t k.
          ground
            (arith, global_index-eq grid block t small k, lt-chunk (j / w) (grid * block) chunk)

  -- Whatever the order of the threads, at most 2^32, and with at least one round, just the first
  -- `chunk * grid * block` elements of the destination are those of the source.
  pub striding_memcpy_kernel_lem :
      (j : ℕ)
      → striding_memcpy_kernel block ts (grid * block) (suc n) w src chunk dst j
        ≡ (if ltb (j / w) (chunk * (grid * block)) then src j else dst j)
  striding_memcpy_kernel_lem j = elim (Bool-cases (ltb (j / w) (chunk * (grid * block)))) [
    | inl h ↦ rw (h, run_lem j, any-lt j (ground arith))
    | inr h ↦ rw (h, run_lem j, any-ge j (ground arith))
  ]
