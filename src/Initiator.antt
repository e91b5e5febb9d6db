-- ===== src/Initiator.antt =====
-- memcpy.cpp: the classes that derive from `MemcpyInitiator`, for one pair of buffers. A loop of theirs
-- over the pairs does the same for each pair. Buffers are filled by the GPU, which is the default of
-- the option hostInitCpu, and device buffers always are.
pub mod Sizes
pub mod Verify
pub mod Split
pub mod Multicast
use nvbandwidth.Prelude.{
  ℕ, suc, ◌+◌, ◌-◌, ◌*◌, ◌/◌, ◌%◌, ◌^◌, List, Bool, true, false, Option, none, some, ◌==◌, ltb,
  ◌||◌, if◌then◌else◌,
}
use nvbandwidth.Config.{u32_mod, u64_mod, small_buffer_threshold, mib, num_thread_per_block}
use nvbandwidth.Kernel.Memory.{Memory}
use nvbandwidth.Kernel.Grid.{Thread}
use nvbandwidth.Kernel.SplitWarp.{Buffers, split_warp_copy_kernel, memclear_kernel}
use nvbandwidth.Kernel.Pattern.{memset_pattern_helper, memcmp_pattern_helper}
use nvbandwidth.Kernel.Launch.{
  Result, ok, throw, unsupported_sm_copy_bytes, total_thread_count, Launch, run_launch,
  split_warp_grid,
}

-- The class of an initiator.
pub data Initiator : Type 0 where
  ce : Initiator
  sm : Initiator
  multicast_write : Initiator
  sm_split_warp : Initiator
  sm_host_read : Initiator

-- `(size_t)(int)x`, the cast to a signed 32-bit integer and its sign extension.
abbrev pub through_int : ℕ → ℕ
through_int x = let low = x % u32_mod in if ltb low (2 ^ 31) then low else low + u64_mod - u32_mod

-- The end of `MemcpyInitiatorSM::getAdjustedCopySize`, past its switch.
pub adjusted_size : (copy_element_size num_sm size : ℕ) → ℕ
adjusted_size copy_element_size num_sm size =
    let threads = total_thread_count num_sm in
    if ltb size (small_buffer_threshold * mib)
    then through_int (size / copy_element_size) * copy_element_size % u64_mod
    else threads * (size / copy_element_size / threads) * copy_element_size

-- `getAdjustedCopySize`. The host-read initiator inherits that of the SM initiator.
unfoldable pub get_adjusted_copy_size : Initiator → (sm_copy_bytes num_sm size : ℕ) → Result ℕ
unfolding adjusted_size
get_adjusted_copy_size ce sm_copy_bytes num_sm size = ok size
get_adjusted_copy_size multicast_write sm_copy_bytes num_sm size = ok (size / 4 * 4)
get_adjusted_copy_size sm_split_warp sm_copy_bytes num_sm size =
    ok (through_int (size / 16) * 16 % u64_mod)
get_adjusted_copy_size _ sm_copy_bytes num_sm size =
    if (sm_copy_bytes == 4)
      || (sm_copy_bytes == 8)
      || (sm_copy_bytes == 16)
      || (sm_copy_bytes == 32)
    then ok (adjusted_size sm_copy_bytes num_sm size)
    else throw unsupported_sm_copy_bytes

-- `getAdjustedBandwidth`.
unfoldable pub get_adjusted_bandwidth : Initiator → ℕ → ℕ
get_adjusted_bandwidth sm_split_warp bandwidth = bandwidth / 2
get_adjusted_bandwidth _ bandwidth = bandwidth

abbrev pub dst_seed : ℕ
dst_seed = 0xCAFEBABE

abbrev pub src_seed : ℕ
src_seed = 0xBAADF00D

-- The orders in which the threads of the kernels of one sample run, and what the pattern buffers
-- held when they were allocated.
pub record Run : Type 0 where
  pub scratch : Memory
  pub fill_dst : List Thread
  pub fill_src : List Thread
  pub clear_dst : List Thread
  pub clear_src : List Thread
  pub copy : List Thread
  pub compare_dst : List Thread
  pub compare_src : List Thread

-- `memsetPattern` of the CE, the SM and the multicast initiator; `size` is the adjusted copy size.
unfoldable pub memset_pattern : Run → (size : ℕ) → Buffers → Buffers
memset_pattern r size b = record {
  dst = memset_pattern_helper r.scratch r.fill_dst size dst_seed b.dst;
  src = memset_pattern_helper r.scratch r.fill_src size src_seed b.src;
}

-- `memcmpPattern` of the CE and the SM initiator.
unfoldable pub memcmp_pattern : Run → (size : ℕ) → Buffers → Option (Unit {0})
memcmp_pattern r size b = memcmp_pattern_helper r.scratch r.compare_dst size src_seed b.dst

-- `MemcpyInitiatorSMSplitWarp::memsetPattern`.
unfoldable pub split_memset_pattern : Run → (size : ℕ) → Buffers → Buffers
split_memset_pattern r size b =
    let block = (split_warp_grid size).1 in
    record {
      dst =
          memclear_kernel block r.clear_dst true
            (memset_pattern_helper r.scratch r.fill_dst size src_seed b.dst);
      src =
          memclear_kernel block r.clear_src false
            (memset_pattern_helper r.scratch r.fill_src size src_seed b.src);
    }

-- `MemcpyInitiatorSMSplitWarp::memcmpPattern`: both comparisons, the first failure ends the process.
unfoldable pub split_memcmp_pattern : Run → (size : ℕ) → Buffers → Option (Unit {0})
split_memcmp_pattern r size b =
    elim (memcmp_pattern_helper r.scratch r.compare_dst size src_seed b.dst) [
      | none ↦ none
      | some _ ↦ memcmp_pattern_helper r.scratch r.compare_src size src_seed b.src
    ]

-- One verified sample of the SM initiator: fill, copy, compare. The launch is that of `copyKernel`. The
-- warm-up, which makes the same copy before it, is left out.
unfoldable pub sm_sample :
    Run → Launch → (loop_count sm_copy_bytes size : ℕ) → Buffers → Option (Unit {0})
sm_sample r l loop_count sm_copy_bytes size b =
    let f = memset_pattern r size b in
    memcmp_pattern r size
      (record f { dst = run_launch l r.copy loop_count (sm_copy_bytes / 4) f.src f.dst })

-- One verified sample of the split-warp initiator.
unfoldable pub split_sample : Run → (loop_count copy_size size : ℕ) → Buffers → Option (Unit {0})
split_sample r loop_count copy_size size b = split_memcmp_pattern r size (
    split_warp_copy_kernel (split_warp_grid copy_size).1 r.copy loop_count
      (split_memset_pattern r size b))
