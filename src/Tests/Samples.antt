-- ===== src/Tests/Samples.antt =====
-- The theorems on the samples of the initiators at concrete inputs.
use nvbandwidth.Prelude.{ℕ, ◌≡◌, ◌≢◌, ◌≤◌, ◌<◌, ◌*◌, ◌^◌, refl, arith, some, none, inl, inr}
use nvbandwidth.Kernel.Grid.{all_threads, all_threads-IsSchedule}
use nvbandwidth.Kernel.Pattern.{xorshift}
use nvbandwidth.Kernel.Pattern.Fill.{pattern_word, xorshift_iterate}
use nvbandwidth.Kernel.Launch.{
  ok, simple, launch_copy_kernel, copy_kernel, run_launch, total_thread_count, split_warp_grid,
  copy_kernel_split_warp_size,
}
use nvbandwidth.Initiator.{
  sm, sm_split_warp, get_adjusted_copy_size, sm_sample, split_sample, dst_seed, src_seed,
}
use nvbandwidth.Initiator.Sizes.{copy_kernel-adjusted, split_warp-announces_too_much}
use nvbandwidth.Initiator.Verify.{IsRun, copy_kernel_copies, sm_sample-passes, sm_sample-fails}
use nvbandwidth.Initiator.Split.{IsSplitRun, split_sample-passes}
use nvbandwidth.Tests.{zeros, numbers, buffers, run_of}

kib_copy : copy_kernel 16 132 9 1024 ≡ ok (simple 1 64, 1024)
unfolding copy_kernel launch_copy_kernel
kib_copy = refl

copy_kernel_copies_example : run_launch (simple 1 64) (all_threads 1 64) 4 4 numbers zeros 200 ≡ 201
copy_kernel_copies_example =
    copy_kernel_copies 132 1024 3 (all_threads 1 64) numbers zeros 200 (omega arith) (omega arith)
      16 9 kib_copy (inr (inl (omega arith))) (all_threads-IsSchedule 1 64)

kib-IsRun : IsRun (run_of 1 1 64) 1024 (simple 1 64)
kib-IsRun = record {
  fill_dst = all_threads-IsSchedule 1 1024;
  fill_src = all_threads-IsSchedule 1 1024;
  copy = all_threads-IsSchedule 1 64;
  compare = all_threads-IsSchedule 1 1024;
  small = omega arith;
}

sm_sample-passes_example : sm_sample (run_of 1 1 64) (simple 1 64) 16 16 1024 buffers ≡ some tt
sm_sample-passes_example =
    sm_sample-passes (run_of 1 1 64) 16 132 9 1024 15 buffers (omega arith) (omega arith) kib_copy
      (inr (inl (omega arith))) kib-IsRun

ragged_copy : launch_copy_kernel 4 (total_thread_count 132) 132 4352 ≡ (simple 1 1024, 4352)
unfolding launch_copy_kernel
ragged_copy = refl

ragged-IsRun : IsRun (run_of 2 1 1024) 4352 (simple 1 1024)
ragged-IsRun = record {
  fill_dst = all_threads-IsSchedule 2 1024;
  fill_src = all_threads-IsSchedule 2 1024;
  copy = all_threads-IsSchedule 1 1024;
  compare = all_threads-IsSchedule 2 1024;
  small = omega arith;
}

dst_word : pattern_word dst_seed 1024 ≡ 1427767364
unfolding pattern_word xorshift_iterate xorshift
dst_word = refl

src_word : pattern_word src_seed 1024 ≡ 3027727701
unfolding pattern_word xorshift_iterate xorshift
src_word = refl

words-differ : pattern_word dst_seed 1024 ≢ pattern_word src_seed 1024
words-differ e = ground (arith, dst_word, src_word)

sm_sample-fails_example : sm_sample (run_of 2 1 1024) (simple 1 1024) 16 4 4352 buffers ≡ none
sm_sample-fails_example =
    sm_sample-fails (run_of 2 1 1024) 1 132 4352 15 1024 buffers (omega arith) (omega arith)
      (omega arith) (omega arith) (omega arith) (λ e. ground arith) (omega arith) (omega arith)
      words-differ ragged_copy ragged-IsRun

split-IsSplitRun : IsSplitRun (run_of 1 1 64) 1024
unfolding split_warp_grid
split-IsSplitRun = record {
  fill_dst = all_threads-IsSchedule 1 1024;
  fill_src = all_threads-IsSchedule 1 1024;
  clear_dst = all_threads-IsSchedule 1 64;
  clear_src = all_threads-IsSchedule 1 64;
  copy = all_threads-IsSchedule 1 64;
  compare_dst = all_threads-IsSchedule 1 1024;
  compare_src = all_threads-IsSchedule 1 1024;
  small = omega arith;
}

IsSplitRun-rounded : IsSplitRun (run_of 1 1 64) (copy_kernel_split_warp_size 1030)
unfolding copy_kernel_split_warp_size
IsSplitRun-rounded = split-IsSplitRun

split_sample-passes_example :
    split_sample (run_of 1 1 64) 16 1030 (copy_kernel_split_warp_size 1030) buffers ≡ some tt
split_sample-passes_example = split_sample-passes (run_of 1 1 64) 1030 15 buffers IsSplitRun-rounded

odd_word : pattern_word src_seed 128 ≡ 4104428848
unfolding pattern_word xorshift_iterate xorshift
odd_word = refl

word-nonzero : pattern_word src_seed 128 ≢ 0
word-nonzero e = ground (arith, odd_word)

in_grid : 32 < (split_warp_grid 1024).0 * (split_warp_grid 1024).1
unfolding split_warp_grid
in_grid = omega arith

copy_kernel-adjusted_example : get_adjusted_copy_size sm 16 132 1024 ≡ ok 1024
copy_kernel-adjusted_example = copy_kernel-adjusted 16 132 9 1024 kib_copy

split_warp-announces_example :
    (announced : ℕ) × (get_adjusted_copy_size sm_split_warp 16 132 (2 ^ 35) ≡ ok announced)
    × (copy_kernel_split_warp_size (2 ^ 35) ≤ 2 ^ 35)
    × (2 ^ 63 < announced)
split_warp-announces_example =
    split_warp-announces_too_much 16 132 (2 ^ 35) (omega arith) (omega arith)
