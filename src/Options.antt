-- ===== src/Options.antt =====
-- nvbandwidth.cpp: the validation of the options in `main`, from the check of testcase names against
-- prefixes to that of `targetNumPairs`. The parsing itself is boost's: a record of values is its
-- result, each in the range of its C++ type.
pub mod Checks
pub mod Accepted
use nvbandwidth.Prelude.{
  ℕ, zero, suc, ◌*◌, ◌-◌, ◌/◌, ◌%◌, Bool, true, false, not, ◌&&◌, ◌||◌, List, [], ◌∷◌, ltb, ◌==◌,
  if◌then◌else◌,
}
use nvbandwidth.Config.{mib, u64_mod, uint_max, ullong_max}

-- `long long`.
pub data ℤ : Type 0 where
  pos : ℕ → ℤ
  negsuc : ℕ → ℤ

pub record Options : Type 0 where
  pub num_testcases : ℕ
  pub num_prefixes : ℕ
  pub target_num_pairs : ℤ
  pub buffer_size_kib_specified : Bool
  pub buffer_size_kib : ℕ
  pub buffer_size : ℕ
  pub loop_count : ℕ
  pub warmup_count : ℕ
  pub latency_buffer_size : ℕ
  pub latency_stride_len : ℕ
  pub host_read_parallelism : ℕ
  pub host_read_bytes : ℕ
  pub sm_copy_bytes : ℕ
  pub ptr_chase_load_bytes : ℕ

-- The errors recorded before `main` returns 1.
pub data OptionError : Type 0 where
  testcases_and_prefixes : OptionError
  bad_target_num_pairs : OptionError
  zero_buffer_size : OptionError
  large_buffer_size : OptionError
  zero_loop_count : OptionError
  zero_latency_buffer_size : OptionError
  large_latency_buffer_size : OptionError
  zero_latency_stride_len : OptionError
  bad_host_read_parallelism : OptionError
  bad_host_read_bytes : OptionError
  bad_sm_copy_bytes : OptionError
  bad_ptr_chase_load_bytes : OptionError
  large_loop_count : OptionError
  large_warmup_count : OptionError
  too_many_pairs : OptionError

-- What `main` has after the validation: an error, or `benchmarkBufferSizeBytes`.
pub data Verdict : Type 0 where
  rejected : OptionError → Verdict
  accepted : (benchmark_buffer_size_bytes : ℕ) → Verdict

abbrev pub reject_if : Bool → OptionError → Verdict → Verdict
reject_if c e rest = if c then rejected e else rest

pub one_of : ℕ → List ℕ → Bool
one_of x [] = false
one_of x (y ∷ ys) = x == y || one_of x ys

-- `targetNumPairs < -1`.
pub below_minus_one : ℤ → Bool
below_minus_one (pos n) = false
below_minus_one (negsuc n) = ltb 0 n

-- `targetNumPairs > 0 && targetNumPairs > maxPairs` of the multinode build.
pub exceeds_pairs : (world_size : ℕ) → ℤ → Bool
exceeds_pairs world_size (pos n) = ltb 0 n && ltb (world_size * (world_size - 1)) n
exceeds_pairs world_size (negsuc n) = false

-- The value and the unit that the benchmark's buffer size is computed from.
abbrev pub benchmark_size : Options → ℕ
benchmark_size o = if o.buffer_size_kib_specified then o.buffer_size_kib else o.buffer_size

abbrev pub benchmark_unit : Options → ℕ
benchmark_unit o = if o.buffer_size_kib_specified then 1024 else mib

-- The last checks of `main`, from those of the widths; `multinode` tells the two builds apart.
pub validate_last : (multinode : Bool) (world_size : ℕ) → Options → Verdict
unfolding exceeds_pairs
validate_last multinode world_size o = reject_if (ltb uint_max o.loop_count) large_loop_count (
    reject_if (ltb uint_max o.warmup_count) large_warmup_count (
      reject_if (multinode && exceeds_pairs world_size o.target_num_pairs) too_many_pairs
        (accepted (benchmark_size o * benchmark_unit o % u64_mod))))

pub validate_widths : (multinode : Bool) (world_size : ℕ) → Options → Verdict
unfolding validate_last one_of
validate_widths multinode world_size o =
    reject_if
      (not (
        one_of o.host_read_parallelism
          (1 ∷ 2 ∷ 4 ∷ 8 ∷ 16 ∷ 32 ∷ 64 ∷ 128 ∷ 256 ∷ 512 ∷ 1024 ∷ [])))
      bad_host_read_parallelism
      (reject_if (not (one_of o.host_read_bytes (8 ∷ 16 ∷ 32 ∷ 64 ∷ 128 ∷ 256 ∷ [])))
        bad_host_read_bytes
        (reject_if (not (one_of o.sm_copy_bytes (4 ∷ 8 ∷ 16 ∷ 32 ∷ []))) bad_sm_copy_bytes (
          reject_if (not (one_of o.ptr_chase_load_bytes (8 ∷ 16 ∷ 32 ∷ [])))
            bad_ptr_chase_load_bytes (validate_last multinode world_size o))))

-- All checks in their order.
unfoldable pub validate : (multinode : Bool) (world_size : ℕ) → Options → Verdict
unfolding validate_widths below_minus_one
validate multinode world_size o =
    reject_if (not (o.num_prefixes == 0) && not (o.num_testcases == 0)) testcases_and_prefixes (
      reject_if (below_minus_one o.target_num_pairs) bad_target_num_pairs (
        reject_if (benchmark_size o == 0) zero_buffer_size (
          reject_if (ltb (ullong_max / benchmark_unit o) (benchmark_size o)) large_buffer_size (
            reject_if (o.loop_count == 0) zero_loop_count (
              reject_if (o.latency_buffer_size == 0) zero_latency_buffer_size (
                reject_if (ltb (ullong_max / mib) o.latency_buffer_size) large_latency_buffer_size (
                  reject_if (o.latency_stride_len == 0) zero_latency_stride_len
                    (validate_widths multinode world_size o))))))))
