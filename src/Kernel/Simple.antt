-- ===== src/Kernel/Simple.antt =====
-- kernels.cu: `simpleCopyKernel`, one element for each thread.
use nvbandwidth.Prelude.{
  ℕ, zero, suc, ◌*◌, ◌/◌, ◌≤◌, ◌≡◌, List, arith, run_all, any, ◌==◌, ltb, if◌then◌else◌, fun_ext,
  Bool, ap,
}
use nvbandwidth.Config.{u32_mod}
use nvbandwidth.Kernel.Memory.{Memory, load, store, store-load}
use nvbandwidth.Kernel.Grid.{Thread, global_index, InGrid, IsSchedule, run_all_lem, any-index}

-- One thread. The launches at hand have fewer than 2^31 threads, so the cast of the index to `int`
-- keeps it; the argument guard of `main` keeps the loop counter below 2^32.
simple_copy_thread : (loop_count w idx : ℕ) → Memory → Memory → Memory
simple_copy_thread zero w idx src dst = dst
simple_copy_thread (suc n) w idx src dst =
    simple_copy_thread n w idx src (store w dst idx (load w src idx))

unfoldable pub simple_copy_kernel :
    (block_dim : ℕ) → List Thread → (loop_count w : ℕ) → Memory → Memory → Memory
unfolding simple_copy_thread
simple_copy_kernel block_dim ts loop_count w src =
    run_all (λ t. simple_copy_thread loop_count w (global_index block_dim t) src) ts

abbrev copied : ℕ → ℕ → Memory → Memory → Memory
copied w idx src dst = λ j. if j / w == idx then src j else dst j

copied_twice :
    (w idx : ℕ) (src dst : Memory) → copied w idx src (copied w idx src dst) ≡ copied w idx src dst
copied_twice w idx src dst = fun_ext λ j. ground arith

simple_copy_thread_lem :
    (n w idx : ℕ) (src dst : Memory)
    → simple_copy_thread (suc n) w idx src dst ≡ copied w idx src dst
unfolding simple_copy_thread
simple_copy_thread_lem zero w idx src dst = store-load w src dst idx
simple_copy_thread_lem (suc n) w idx src dst = rw (
  simple_copy_thread_lem n w idx src (store w dst idx (load w src idx)),
  store-load w src dst idx,
  copied_twice w idx src dst,
)

module _ {grid block : ℕ} {ts : List Thread} (s : IsSchedule grid block ts)
    (small : grid * block ≤ u32_mod) (n w : ℕ) (src dst : Memory) where
  abbrev owns : Thread → ℕ → Bool
  owns t j = j / w == global_index block t

  run_lem :
      (j : ℕ)
      → simple_copy_kernel block ts (suc n) w src dst j
        ≡ (if any (λ t. owns t j) ts then src j else dst j)
  unfolding simple_copy_kernel
  run_lem j =
      run_all_lem (InGrid grid block) owns src
        (λ t. simple_copy_thread (suc n) w (global_index block t) src)
        (λ t m j h. ap (λ (f : Memory). f j) (simple_copy_thread_lem n w _ src m)) ts dst j s.inside

  -- After any schedule of `grid` blocks of `block` threads, at most 2^32, with at least one round,
  -- just the first `grid * block` elements of the destination are those of the source.
  pub simple_copy_kernel_lem :
      (j : ℕ)
      → simple_copy_kernel block ts (suc n) w src dst j
        ≡ (if ltb (j / w) (grid * block) then src j else dst j)
  simple_copy_kernel_lem j = rw (run_lem j, any-index s small (j / w))
