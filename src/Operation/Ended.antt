-- ===== src/Operation/Ended.antt =====
-- memcpy.cpp: how `MemcpyOperation::doMemcpyCore` ends. It returns its values, `getAdjustedCopySize` or
-- `memcpyFunc` throws, or the ASSERT of `memcmpPatternHelper` ends the process. Whether a comparison
-- finds a difference is an argument, and the matter of Initiator.
use nvbandwidth.Prelude.{
  ℕ, suc, ◌≡◌, refl, Bool, true, false, ◌||◌, ◌&&◌, ◌==◌, ltb, arith, not, List, [], ◌∷◌, any,
  if◌then◌else◌,
}
use nvbandwidth.Double.{Double}
use nvbandwidth.Kernel.Launch.{Result, ok, throw, copy_kernel}
use nvbandwidth.Kernel.HostRead.{host_read_kernel, launch_with_read_bytes}
use nvbandwidth.Initiator.{
  Initiator, ce, sm, multicast_write, sm_split_warp, sm_host_read, get_adjusted_copy_size,
}
use nvbandwidth.Buffers.{Transfer, MemcpyOperation, Outcome, measures, exception, failed_assert}
use nvbandwidth.Testcase.{indices}
use nvbandwidth.Testcase.Answers.{Answers}
use nvbandwidth.Operation.{Clock, core_values}
use nvbandwidth.Operation.Values.{length-core_values}

abbrev is_throw {ℓ} : {A : Type ℓ} → Result A → Bool
is_throw (ok x) = false
is_throw (throw e) = true

-- The options that the sizes of elements come from, and what CUDA reports for the device that makes a
-- copy.
pub record Device : Type 0 where
  pub sm_copy_bytes : ℕ
  pub host_read_bytes : ℕ
  pub host_read_parallelism : ℕ
  pub num_sm : Transfer → ℕ
  pub major : Transfer → ℕ

module _ (c : Device) where
  -- `memcpyFunc` throws: `copyKernel` for the SM initiator, and `hostReadKernel`.
  unfoldable pub memcpy_func_throws : Initiator → Transfer → Bool
  memcpy_func_throws sm t =
      is_throw (copy_kernel c.sm_copy_bytes (c.num_sm t) (c.major t) t.0.buffer_size)
  memcpy_func_throws sm_host_read t =
      is_throw
        (host_read_kernel c.host_read_parallelism c.host_read_bytes (c.num_sm t) t.0.buffer_size)
  memcpy_func_throws _ t = false

  -- A copy throws before it is made.
  unfoldable pub copy_throws : Initiator → Transfer → Bool
  unfolding memcpy_func_throws
  copy_throws initiator t =
      is_throw (get_adjusted_copy_size initiator c.sm_copy_bytes (c.num_sm t) t.0.buffer_size)
      || memcpy_func_throws initiator t

-- The widths of elements are ones that `main` accepts, and a device that copies elements of 32 bytes has
-- a compute capability of 10 or more.
pub record Supports (c : Device) : Type 0 where
  pub width :
      ((c.sm_copy_bytes == 4)
        || (c.sm_copy_bytes == 8)
        || (c.sm_copy_bytes == 16)
        || (c.sm_copy_bytes == 32))
      ≡ true
  pub capable : (t : Transfer) → ((c.sm_copy_bytes == 32) && ltb (c.major t) 10) ≡ false
  pub read_width :
      ((c.host_read_bytes == 8)
        || (c.host_read_bytes == 16)
        || (c.host_read_bytes == 32)
        || (c.host_read_bytes == 64)
        || (c.host_read_bytes == 128)
        || (c.host_read_bytes == 256))
      ≡ true
  pub read_parallelism :
      ((c.host_read_parallelism == 1)
        || (c.host_read_parallelism == 2)
        || (c.host_read_parallelism == 4)
        || (c.host_read_parallelism == 8)
        || (c.host_read_parallelism == 16)
        || (c.host_read_parallelism == 32))
      ≡ true

module _ (c : Device) (supported : Supports c) where
  -- No copy throws.
  copy_throws-Supports : (initiator : Initiator) (t : Transfer) → copy_throws c initiator t ≡ false
  unfolding copy_throws memcpy_func_throws get_adjusted_copy_size copy_kernel host_read_kernel
      launch_with_read_bytes
  copy_throws-Supports ce t = refl
  copy_throws-Supports sm t =
      rw supported.width (ground (arith, supported.capable t, supported.width))
  copy_throws-Supports multicast_write t = refl
  copy_throws-Supports sm_split_warp t = refl
  copy_throws-Supports sm_host_read t =
      rw (supported.width, supported.read_parallelism, supported.read_width) refl

  any-copy_throws :
      (initiator : Initiator) (ts : List Transfer) → any (copy_throws c initiator) ts ≡ false
  any-copy_throws initiator [] = refl
  any-copy_throws initiator (t ∷ ts) =
      rw (copy_throws-Supports initiator t) (any-copy_throws initiator ts)

-- `memcmpPattern` over the copies of one sample, from the number `i` on, finds a difference.
unfoldable pub memcmp_fails :
    (differs : (sample copy : ℕ) → Transfer → Bool) → (sample i : ℕ) → List Transfer → Bool
memcmp_fails differs n i [] = false
memcmp_fails differs n i (t ∷ ts) = differs n i t || memcmp_fails differs n (suc i) ts

module _ {ℓ} {A : Type ℓ} ⦃d : Double A⦄ (copied : Initiator → Transfer → ℕ) (clock : Clock A)
    (loop_count : ℕ) (c : Device) (skip_verification : Bool)
    (differs : Initiator → (sample copy : ℕ) → Transfer → Bool) where
  -- A measurement of at least one sample. Any exception comes before the first comparison.
  unfoldable pub core_outcome :
      (use_mean : Bool) (average_loop_count : ℕ) → MemcpyOperation → List Transfer → Outcome A
  unfolding copy_throws memcmp_fails core_values
  core_outcome use_mean average_loop_count op ts =
      if any (copy_throws c op.memcpy_initiator) ts
      then exception
      else if not skip_verification
          && any (λ (n : ℕ). memcmp_fails (differs op.memcpy_initiator) n 0 ts)
              (indices 0 average_loop_count)
      then failed_assert
      else measures (core_values copied clock loop_count use_mean average_loop_count op ts)

  -- With supported widths, and if no comparison finds a difference or none is made, a measurement
  -- returns as many values as its operation asks for.
  pub core_outcome-Answers :
      (use_mean : Bool) (average : ℕ) (op : MemcpyOperation) (ts : List Transfer)
      → Supports c
      → (not skip_verification
          && any (λ (n : ℕ). memcmp_fails (differs op.memcpy_initiator) n 0 ts) (indices 0 average))
        ≡ false
      → Answers (core_outcome use_mean average) op ts
  unfolding core_outcome
  core_outcome-Answers use_mean average op ts supported same = (
    core_values copied clock loop_count use_mean average op ts,
    rw (any-copy_throws c supported op.memcpy_initiator ts, same) refl,
    length-core_values copied clock loop_count use_mean average op ts,
  )
