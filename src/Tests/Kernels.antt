-- ===== src/Tests/Kernels.antt =====
-- The theorems on kernels and launches at concrete inputs.
use nvbandwidth.Prelude.{ℕ, ◌≡◌, ◌<◌, ◌↔◌, refl, arith, some}
use nvbandwidth.Kernel.Grid.{all_threads, all_threads-IsSchedule}
use nvbandwidth.Kernel.Striding.{striding_memcpy_kernel}
use nvbandwidth.Kernel.Striding.Whole.{striding_memcpy_kernel_lem}
use nvbandwidth.Kernel.Pattern.{
  memset_pattern_helper, memcmp_pattern_helper, memset_kernel, cpu_memset_pattern_helper, byte_of,
}
use nvbandwidth.Kernel.Pattern.Fill.{
  pattern_word, memset_pattern_helper_lem, cpu_memset-eq-memset, memset_kernel-wrapped,
}
use nvbandwidth.Kernel.Pattern.Compare.{memcmp_pattern_helper_iff}
use nvbandwidth.Kernel.Launch.{launch_copy_kernel, simple, total_thread_count}
use nvbandwidth.Tests.{zeros, numbers}

striding_memcpy_kernel_example :
    striding_memcpy_kernel 8 (all_threads 2 8) 16 3 4 numbers 30 zeros 1900 ≡ 1901
striding_memcpy_kernel_example =
    striding_memcpy_kernel_lem (all_threads-IsSchedule 2 8) (omega arith) 2 4 30 numbers zeros 1900

memset_pattern_helper_example :
    memset_pattern_helper zeros (all_threads 1 1024) 4096 7 numbers 1000 ≡ pattern_word 7 1000
memset_pattern_helper_example =
    memset_pattern_helper_lem zeros 4096 7 numbers 1000 (all_threads-IsSchedule 1 1024)
      (omega arith)

memcmp_pattern_helper_example :
    (memcmp_pattern_helper zeros (all_threads 1 1024) 4096 7 numbers ≡ some tt)
    ↔ ((j : ℕ) → j < 1024 → numbers j ≡ pattern_word 7 j)
memcmp_pattern_helper_example =
    memcmp_pattern_helper_iff zeros 4096 7 numbers (all_threads-IsSchedule 1 1024) (omega arith)

cpu_memset-eq-memset_example :
    cpu_memset_pattern_helper zeros 4098 7 numbers 4001
    ≡ byte_of (memset_pattern_helper zeros (all_threads 1 1024) 4098 7 zeros) 4001
cpu_memset-eq-memset_example =
    cpu_memset-eq-memset zeros 4098 7 zeros numbers 4001 (all_threads-IsSchedule 1 1024)
      (omega arith) (omega arith)

memset_kernel-wrapped_example :
    memset_kernel (all_threads 1 1024) zeros 5000000000 524288 numbers 4294967296 ≡ 4294967297
memset_kernel-wrapped_example =
    memset_kernel-wrapped (all_threads 1 1024) zeros 5000000000 524288 numbers 4294967296
      (omega arith)

small_launch : launch_copy_kernel 16 (total_thread_count 132) 132 1024 ≡ (simple 1 64, 1024)
unfolding launch_copy_kernel
small_launch = refl
