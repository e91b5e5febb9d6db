-- ===== src/Kernel/Launch.antt =====
-- kernels.cu: the host functions that launch the copy kernels. The calls of CUDA are taken to
-- succeed; the number of multiprocessors and the compute capability, which CUDA reports, are
-- arguments.
pub mod Copied
use nvbandwidth.Prelude.{
  ℕ, zero, suc, ◌≡◌, ◌<◌, ◌⊎◌, inl, inr, refl, arith, ◌*◌, ◌/◌, ◌%◌, List, min, Option, none, some,
  ◌==◌, ltb, if◌then◌else◌,
}
use nvbandwidth.Config.{u32_mod, small_buffer_threshold, mib, num_thread_per_block}
use nvbandwidth.Kernel.Memory.{Memory}
use nvbandwidth.Kernel.Grid.{Thread}
use nvbandwidth.Kernel.Simple.{simple_copy_kernel}
use nvbandwidth.Kernel.Striding.{striding_memcpy_kernel}

-- The exceptions that the launch functions throw.
pub data Exception : Type 0 where
  unsupported_sm_copy_bytes : Exception
  sm_copy_bytes_needs_cc_10 : Exception
  unsupported_host_read_bytes : Exception
  unsupported_host_read_parallelism : Exception
  unsupported_ptr_chase_load_bytes : Exception
  ptr_chase_load_bytes_needs_cc_10 : Exception

pub data Result {ℓ} (A : Type ℓ) : Type ℓ where
  ok : A → Result A
  throw : Exception → Result A

-- A launched kernel with its grid and block dimensions.
pub data Launch : Type 0 where
  no_launch : Launch
  simple : (grid_dim block_dim : ℕ) → Launch
  striding : (grid_dim block_dim threads chunk : ℕ) → Launch

-- `launchCopyKernel<CopyT>` for elements of `elem` bytes: what it launches, and what it returns. First
-- its branch for small buffers, from `numElements`, then the other one.
pub launch_small : (elem num_elements : ℕ) → Launch × ℕ
launch_small elem zero = (no_launch, 0)
launch_small elem (suc k) =
    let num_elements = suc k in
    let block = min num_elements 1024 in (simple (num_elements / block) block, num_elements * elem)

pub launch_large : (elem threads num_sm copy_size : ℕ) → Launch × ℕ
launch_large elem threads num_sm copy_size =
    let size_in_element = threads * (copy_size / elem / threads) in
    let chunk = size_in_element / threads in
    (striding num_sm num_thread_per_block threads chunk, size_in_element * elem)

unfoldable pub launch_copy_kernel : (elem threads num_sm copy_size : ℕ) → Launch × ℕ
unfolding launch_small launch_large
launch_copy_kernel elem threads num_sm copy_size =
    if ltb copy_size (small_buffer_threshold * mib)
    then launch_small elem (copy_size / elem % u32_mod)
    else launch_large elem threads num_sm copy_size

-- `totalThreadCount`, an unsigned int.
abbrev pub total_thread_count : ℕ → ℕ
total_thread_count num_sm = num_sm * num_thread_per_block % u32_mod

-- `copyKernel`.
unfoldable pub copy_kernel : (sm_copy_bytes num_sm major copy_size : ℕ) → Result (Launch × ℕ)
unfolding launch_copy_kernel
copy_kernel sm_copy_bytes num_sm major copy_size =
    let threads = total_thread_count num_sm in
    if sm_copy_bytes == 4
    then ok (launch_copy_kernel 4 threads num_sm copy_size)
    else if sm_copy_bytes == 8
    then ok (launch_copy_kernel 8 threads num_sm copy_size)
    else if sm_copy_bytes == 16
    then ok (launch_copy_kernel 16 threads num_sm copy_size)
    else if sm_copy_bytes == 32
    then (if ltb major 10
        then throw sm_copy_bytes_needs_cc_10
        else ok (launch_copy_kernel 32 threads num_sm copy_size))
    else throw unsupported_sm_copy_bytes

-- The effect of a launch on the destination, its threads in the order of the schedule.
unfoldable pub run_launch : Launch → List Thread → (loop_count w : ℕ) → Memory → Memory → Memory
run_launch no_launch ts loop_count w src dst = dst
run_launch (simple grid_dim block_dim) ts loop_count w src dst =
    simple_copy_kernel block_dim ts loop_count w src dst
run_launch (striding grid_dim block_dim threads chunk) ts loop_count w src dst =
    striding_memcpy_kernel block_dim ts threads loop_count w src chunk dst

-- The grid of `copyKernelSplitWarp` and of `memclearKernelByWarpParity`, and the size returned. Below
-- 16 bytes the source divides by zero; here the grid is then empty.
unfoldable pub split_warp_grid : ℕ → ℕ × ℕ
split_warp_grid size =
    let num_uint4 = size / 16 % u32_mod in
    let block = min num_uint4 1024 in (num_uint4 / block, block)

unfoldable pub copy_kernel_split_warp_size : ℕ → ℕ
copy_kernel_split_warp_size copy_size = copy_size / 16 % u32_mod * 16

-- The four widths for which `copyKernel` launches a copy.
choice :
    (sb major : ℕ) (a b c d : Launch × ℕ) {r : Launch × ℕ}
    → (if sb == 4
        then ok a
        else if sb == 8
        then ok b
        else if sb == 16
        then ok c
        else if sb == 32
        then if ltb major 10 then throw sm_copy_bytes_needs_cc_10 else ok d
        else throw unsupported_sm_copy_bytes)
      ≡ ok r
    → ((sb ≡ 4) × (a ≡ r))
      ⊎ (((sb ≡ 8) × (b ≡ r)) ⊎ (((sb ≡ 16) × (c ≡ r)) ⊎ ((sb ≡ 32) × (d ≡ r))))
choice sb major a b c d e = ground arith

pub copy_kernel-inv :
    (sm_copy_bytes num_sm major copy_size : ℕ) {r : Launch × ℕ}
    → copy_kernel sm_copy_bytes num_sm major copy_size ≡ ok r
    → (w : ℕ) × (0 < w)
      × (sm_copy_bytes ≡ 4 * w)
      × (((w ≡ 1) ⊎ (w ≡ 2)) ⊎ ((w ≡ 4) ⊎ (w ≡ 8)))
      × (launch_copy_kernel (4 * w) (total_thread_count num_sm) num_sm copy_size ≡ r)
unfolding copy_kernel
copy_kernel-inv sb num_sm major size e =
    let at = λ (w : ℕ). launch_copy_kernel (4 * w) (total_thread_count num_sm) num_sm size in
    elim (choice sb major (at 1) (at 2) (at 4) (at 8) e) [
      | inl (h, q) ↦ (1, omega arith, h, inl (inl refl), q)
      | inr (inl (h, q)) ↦ (2, omega arith, h, inl (inr refl), q)
      | inr (inr (inl (h, q))) ↦ (4, omega arith, h, inr (inl refl), q)
      | inr (inr (inr (h, q))) ↦ (8, omega arith, h, inr (inr refl), q)
    ]
