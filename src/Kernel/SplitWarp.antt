-- ===== src/Kernel/SplitWarp.antt =====
-- kernels.cu: `splitWarpCopyKernel`, which copies `dst <- src` in odd warps and `src <- dst` in even
-- ones, and `memclearKernelByWarpParityDevice`. Elements are uint4, four words; a warp has 32 lanes.
pub mod Effect
use nvbandwidth.Prelude.{
  ℕ, zero, suc, ◌+◌, ◌*◌, ◌/◌, ◌%◌, ◌≤◌, ◌<◌, ◌≡◌, refl, List, [], ◌∷◌, arith, run_all, any, ◌==◌,
  ltb, ◌&&◌, not, if◌then◌else◌, fun_ext, Bool, true, false, ap, ◌∙◌,
}
use nvbandwidth.Kernel.Memory.{Memory, load, store, store-load}
use nvbandwidth.Kernel.Grid.{Thread, global_index}

pub record Buffers : Type 0 where
  pub dst : Memory
  pub src : Memory

abbrev pub warp_size : ℕ
warp_size = 32

-- The element of a thread, `globalWarpId * warpSize + warpLaneId`.
abbrev pub element_of : ℕ → ℕ
element_of idx = idx / warp_size * warp_size + idx % warp_size

abbrev pub is_odd_warp : ℕ → Bool
is_odd_warp idx = idx / warp_size % 2 == 1

-- One round of the loop of a thread.
pub split_warp_step : (idx : ℕ) → Buffers → Buffers
split_warp_step idx b =
    let e = element_of idx in
    if is_odd_warp idx
    then record b { dst = store 4 b.dst e (load 4 b.src e) }
    else record b { src = store 4 b.src e (load 4 b.dst e) }

pub split_warp_thread : (loop_count idx : ℕ) → Buffers → Buffers
unfolding split_warp_step
split_warp_thread zero idx b = b
split_warp_thread (suc n) idx b = split_warp_thread n idx (split_warp_step idx b)

unfoldable pub split_warp_copy_kernel :
    (block_dim : ℕ) → List Thread → (loop_count : ℕ) → Buffers → Buffers
unfolding split_warp_thread
split_warp_copy_kernel block_dim ts loop_count =
    run_all (λ t. split_warp_thread loop_count (global_index block_dim t)) ts

-- One thread of `memclearKernelByWarpParityDevice`.
pub memclear_thread : (clear_odd : Bool) (idx : ℕ) → Memory → Memory
memclear_thread clear_odd idx buf =
    if clear_odd
    then if is_odd_warp idx then store 4 buf (element_of idx) (λ k. 0) else buf
    else if not (is_odd_warp idx)
    then store 4 buf (element_of idx) (λ k. 0)
    else buf

unfoldable pub memclear_kernel :
    (block_dim : ℕ) → List Thread → (clear_odd : Bool) → Memory → Memory
unfolding memclear_thread
memclear_kernel block_dim ts clear_odd =
    run_all (λ t. memclear_thread clear_odd (global_index block_dim t)) ts
