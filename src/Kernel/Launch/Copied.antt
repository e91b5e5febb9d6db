-- ===== src/Kernel/Launch/Copied.antt =====
-- What a launch of `launchCopyKernel` copies, against what it returns.
use nvbandwidth.Prelude.{
  ℕ, zero, suc, ◌*◌, ◌/◌, ◌%◌, ◌≤◌, ◌<◌, ◌≡◌, refl, ◌⊎◌, inl, inr, List, min, arith, ltb,
  if◌then◌else◌, ap, sym, ◌∙◌, Bool-cases, ltb→lt, lt→ltb, ◌≢◌,
}
use native.Mathlib.Nat.{mul_comm}
use nvbandwidth.Config.{u32_mod, small_buffer_threshold, mib, num_thread_per_block}
use nvbandwidth.Kernel.Memory.{Memory}
use nvbandwidth.Kernel.Grid.{Thread, IsSchedule}
use nvbandwidth.Kernel.Simple.{simple_copy_kernel_lem}
use nvbandwidth.Kernel.Striding.Whole.{striding_memcpy_kernel_lem}
use nvbandwidth.Kernel.Launch.{
  Launch, no_launch, simple, striding, launch_small, launch_large, launch_copy_kernel, run_launch,
  total_thread_count,
}

-- A schedule of the threads of a launch.
abbrev pub IsScheduleOf : Launch → List Thread → Type 0
IsScheduleOf no_launch ts = Unit
IsScheduleOf (simple grid_dim block_dim) ts = IsSchedule grid_dim block_dim ts
IsScheduleOf (striding grid_dim block_dim threads chunk) ts = IsSchedule grid_dim block_dim ts

-- The elements of `elem` bytes that the launched threads copy.
abbrev pub copied_elements : (elem num_sm size : ℕ) → ℕ
copied_elements elem num_sm size =
    if ltb size (small_buffer_threshold * mib)
    then (let n = size / elem % u32_mod in n / min n 1024 * min n 1024)
    else num_sm * num_thread_per_block * (size / elem / (num_sm * num_thread_per_block))

div-mul-le : (n b : ℕ) → n / b * b ≤ n
div-mul-le n b = grind arith

grid-le : (k : ℕ) → k < u32_mod → k / min k 1024 * min k 1024 ≤ u32_mod
grid-le zero h = omega arith
grid-le (suc k) h = omega (arith, div-mul-le (suc k) (min (suc k) 1024))

run-small :
    (w k n : ℕ) (ts : List Thread) (src dst : Memory) (j : ℕ)
    → k < u32_mod
    → let l = (launch_small (4 * w) k).0 in
      IsScheduleOf l ts
      → run_launch l ts (suc n) w src dst j
        ≡ (if ltb (j / w) (k / min k 1024 * min k 1024) then src j else dst j)
unfolding launch_small run_launch
run-small w zero n ts src dst j h s = ground arith
run-small w (suc k) n ts src dst j h s = simple_copy_kernel_lem s (grid-le (suc k) h) n w src dst j

div-mul : (t q : ℕ) → 0 < t → t * q / t ≡ q
div-mul t q h = grind arith

run-large :
    (w num_sm size n : ℕ) (ts : List Thread) (src dst : Memory) (j : ℕ)
    → 0 < num_sm
    → num_sm * num_thread_per_block < u32_mod
    → let threads = num_sm * num_thread_per_block in
      let l = (launch_large (4 * w) threads num_sm size).0 in
      IsScheduleOf l ts
      → run_launch l ts (suc n) w src dst j
        ≡ (if ltb (j / w) (threads * (size / (4 * w) / threads)) then src j else dst j)
unfolding launch_large run_launch
run-large w num_sm size n ts src dst j pos fits s =
    let t = num_sm * num_thread_per_block in
    let q = size / (4 * w) / t in
    striding_memcpy_kernel_lem s (omega arith) n w (t * q / t) src dst j
    ∙ ap (λ c. if ltb (j / w) c then src j else dst j)
        (ap (λ c. c * t) (div-mul t q (omega arith)) ∙ mul_comm q t)

launched-lem :
    (w num_sm size n : ℕ) (ts : List Thread) (src dst : Memory) (j : ℕ)
    → 0 < num_sm
    → num_sm * num_thread_per_block < u32_mod
    → let l = (launch_copy_kernel (4 * w) (total_thread_count num_sm) num_sm size).0 in
      IsScheduleOf l ts
      → run_launch l ts (suc n) w src dst j
        ≡ (if ltb (j / w) (copied_elements (4 * w) num_sm size) then src j else dst j)
unfolding launch_copy_kernel
launched-lem w num_sm size n ts src dst j pos fits =
    let threads : total_thread_count num_sm ≡ num_sm * num_thread_per_block = omega arith in
    elim (Bool-cases (ltb size (small_buffer_threshold * mib))) [
      | inl small ↦ rw small (run-small w (size / (4 * w) % u32_mod) n ts src dst j (omega arith))
      | inr big ↦ rw (threads, big) (run-large w num_sm size n ts src dst j pos fits)
    ]

-- The threads that `launchCopyKernel` launches for elements of `w` words, at least one round each,
-- copy just the first `copied_elements` elements, in whatever order they run; the number of threads
-- of the large copy is positive and below 2^32.
pub run_launch_lem :
    (w num_sm size n : ℕ) (ts : List Thread) (src dst : Memory) (j : ℕ) {l : Launch} {bytes : ℕ}
    → 0 < num_sm
    → num_sm * num_thread_per_block < u32_mod
    → launch_copy_kernel (4 * w) (total_thread_count num_sm) num_sm size ≡ (l, bytes)
    → IsScheduleOf l ts
    → run_launch l ts (suc n) w src dst j
      ≡ (if ltb (j / w) (copied_elements (4 * w) num_sm size) then src j else dst j)
run_launch_lem w num_sm size n ts src dst j {l} pos fits e s =
    let l_eq : (launch_copy_kernel (4 * w) (total_thread_count num_sm) num_sm size).0 ≡ l =
      ap (λ (r : Launch × ℕ). r.0) e in
    ap (λ (k : Launch). run_launch k ts (suc n) w src dst j) (sym l_eq)
    ∙ launched-lem w num_sm size n ts src dst j pos fits (rw (← l_eq) at s)

-- The sizes for which the grid of the small copy covers every element: one block, or full blocks.
abbrev pub IsWhole : (elem size : ℕ) → Type 0
IsWhole elem size =
    (small_buffer_threshold * mib ≤ size) ⊎ ((size / elem ≤ 1024) ⊎ (size / elem % 1024 ≡ 0))

whole_grid : (k : ℕ) → ((k ≤ 1024) ⊎ (k % 1024 ≡ 0)) → k / min k 1024 * min k 1024 ≡ k
whole_grid zero h = omega arith
whole_grid (suc k) (inl h) =
    let one : min (suc k) 1024 ≡ suc k = omega arith in rw one (grind arith)
whole_grid (suc k) (inr h) =
    let full : min (suc k) 1024 ≡ 1024 = omega arith in rw full (omega arith)

-- What the launch returns, on its two branches.
launch_small_bytes : (elem k : ℕ) → (launch_small elem k).1 ≡ k * elem
unfolding launch_small
launch_small_bytes elem zero = omega arith
launch_small_bytes elem (suc k) = refl

-- The size that `launchCopyKernel` returns.
pub launch_returns :
    (elem threads num_sm size : ℕ)
    → (launch_copy_kernel elem threads num_sm size).1 ≡ (
        if ltb size (small_buffer_threshold * mib)
        then size / elem % u32_mod * elem
        else threads * (size / elem / threads) * elem)
unfolding launch_copy_kernel launch_large
launch_returns elem threads num_sm size =
    elim (Bool-cases (ltb size (small_buffer_threshold * mib))) [
      | inl small ↦ rw small (launch_small_bytes elem (size / elem % u32_mod))
      | inr big ↦ rw big
    ]

small_count :
    (w size : ℕ)
    → 0 < w
    → size < small_buffer_threshold * mib
    → size / (4 * w) % u32_mod ≡ size / (4 * w)
small_count w size h k = let below : size / (4 * w) ≤ size = grind arith in omega arith

whole-small :
    (elem size : ℕ)
    → IsWhole elem size
    → size < small_buffer_threshold * mib
    → (size / elem ≤ 1024) ⊎ (size / elem % 1024 ≡ 0)
whole-small elem size (inl big) small = absurd (omega arith)
whole-small elem size (inr fit) small = fit

-- For these sizes the launch returns the number of bytes that it copies.
pub launch_bytes :
    (w num_sm size : ℕ)
    → 0 < w
    → num_sm * num_thread_per_block < u32_mod
    → IsWhole (4 * w) size
    → (launch_copy_kernel (4 * w) (total_thread_count num_sm) num_sm size).1
      ≡ copied_elements (4 * w) num_sm size * (4 * w)
unfolding launch_copy_kernel launch_large
launch_bytes w num_sm size pos fits whole =
    let threads : total_thread_count num_sm ≡ num_sm * num_thread_per_block = omega arith in
    elim (Bool-cases (ltb size (small_buffer_threshold * mib))) [
      | inl small ↦
          let below : size < small_buffer_threshold * mib = ltb→lt _ _ small in
          let e = small_count w size pos below in
          let fit = whole-small (4 * w) size whole below in
          rw
            (small, e, launch_small_bytes (4 * w) (size / (4 * w)), whole_grid (size / (4 * w)) fit)
      | inr big ↦ rw (threads, big)
    ]

-- For a size below 64 MiB of more than 1024 elements, where 1024 does not divide their number, the
-- launch returns the size of all whole elements but copies only those of the full blocks: fewer.
pub launch_over_reports :
    (w num_sm size : ℕ)
    → 0 < w
    → size < small_buffer_threshold * mib
    → 1024 < size / (4 * w)
    → size / (4 * w) % 1024 ≢ 0
    → ((launch_copy_kernel (4 * w) (total_thread_count num_sm) num_sm size).1
        ≡ size / (4 * w) * (4 * w))
      × (copied_elements (4 * w) num_sm size ≡ size / (4 * w) / 1024 * 1024)
      × (copied_elements (4 * w) num_sm size < size / (4 * w))
unfolding launch_copy_kernel
launch_over_reports w num_sm size pos small many ragged =
    let e = small_count w size pos small in
    let block : min (size / (4 * w)) 1024 ≡ 1024 = omega arith in
    rw (lt→ltb size (small_buffer_threshold * mib) small, e, block)
      (launch_small_bytes (4 * w) (size / (4 * w)), refl, omega arith)
