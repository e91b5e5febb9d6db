-- ===== src/Initiator/Sizes.antt =====
-- The size that an initiator announces before a copy is the size that its copy kernel returns.
use nvbandwidth.Prelude.{
  ℕ, ◌*◌, ◌/◌, ◌%◌, ◌^◌, ◌≤◌, ◌<◌, ◌≡◌, refl, inl, inr, arith, ◌==◌, ltb, Bool-cases, true, ltb→lt,
  lt→ltb, ap, sym, ◌∙◌, ◌||◌,
}
use nvbandwidth.Config.{u32_mod, u64_mod, small_buffer_threshold, mib}
use nvbandwidth.Kernel.Launch.{
  ok, total_thread_count, Launch, launch_copy_kernel, copy_kernel, copy_kernel-inv,
  copy_kernel_split_warp_size,
}
use nvbandwidth.Kernel.Launch.Copied.{launch_returns}
use nvbandwidth.Initiator.{sm, sm_split_warp, through_int, adjusted_size, get_adjusted_copy_size}

launch-adjusted :
    (elem num_sm size : ℕ)
    → 0 < elem
    → (launch_copy_kernel elem (total_thread_count num_sm) num_sm size).1
      ≡ adjusted_size elem num_sm size
unfolding adjusted_size
launch-adjusted elem num_sm size pos =
    rw (launch_returns elem (total_thread_count num_sm) num_sm size)
      (elim (Bool-cases (ltb size (small_buffer_threshold * mib))) [
        | inl small ↦
            let bound : size < small_buffer_threshold * mib = ltb→lt _ _ small in
            let below : size / elem ≤ size = grind arith in
            let total : size / elem * elem ≤ size = grind arith in
            let count : size / elem % u32_mod ≡ size / elem = omega arith in
            rw (small, count, lt→ltb (size / elem) (2 ^ 31) (omega arith)) (omega arith)
        | inr big ↦ rw big
      ])

-- If `copyKernel` launches a copy, the size that it returns is the one that `getAdjustedCopySize`
-- announces for the SM initiator.
pub copy_kernel-adjusted :
    (sm_copy_bytes num_sm major size : ℕ) {l : Launch} {bytes : ℕ}
    → copy_kernel sm_copy_bytes num_sm major size ≡ ok (l, bytes)
    → get_adjusted_copy_size sm sm_copy_bytes num_sm size ≡ ok bytes
unfolding get_adjusted_copy_size
copy_kernel-adjusted sb num_sm major size e =
    let (w, pos, width, known, launched) = copy_kernel-inv sb num_sm major size e in
    let supported : ((sb == 4) || (sb == 8) || (sb == 16) || (sb == 32)) ≡ true = ground arith in
    rw supported (
      ap ok (
        ap (λ x. adjusted_size x num_sm size) width
        ∙ sym (launch-adjusted (4 * w) num_sm size (omega arith))
        ∙ ap (λ (r : Launch × ℕ). r.1) launched))

-- Below 32 GiB the split-warp initiator announces the size that `copyKernelSplitWarp` returns.
pub split_warp-adjusted :
    (sm_copy_bytes num_sm size : ℕ)
    → size < 2 ^ 35
    → get_adjusted_copy_size sm_split_warp sm_copy_bytes num_sm size
      ≡ ok (copy_kernel_split_warp_size size)
unfolding get_adjusted_copy_size copy_kernel_split_warp_size
split_warp-adjusted sb num_sm size h =
    let count : size / 16 % u32_mod ≡ size / 16 = omega arith in
    rw (count, lt→ltb (size / 16) (2 ^ 31) (omega arith)) (ap ok (omega arith))

-- From 32 GiB up to 64 GiB the split-warp initiator announces more than 2^63 bytes, and the size
-- that the kernel returns is at most that of the buffer.
pub split_warp-announces_too_much :
    (sm_copy_bytes num_sm size : ℕ)
    → 2 ^ 35 ≤ size
    → size < 2 ^ 36
    → (announced : ℕ) × (get_adjusted_copy_size sm_split_warp sm_copy_bytes num_sm size
        ≡ ok announced)
      × (copy_kernel_split_warp_size size ≤ size)
      × (2 ^ 63 < announced)
unfolding get_adjusted_copy_size copy_kernel_split_warp_size
split_warp-announces_too_much sb num_sm size h k =
    (through_int (size / 16) * 16 % u64_mod, refl, omega arith, ground arith)
