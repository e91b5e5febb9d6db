-- ===== src/Operation.antt =====
-- memcpy.cpp: `MemcpyOperation::doMemcpyCore` with `NodeHelperSingle`, from the times that the events
-- give to the values that it returns. The sizes that the initiator's `memcpyFunc` returns are an
-- argument here, and so are the times, which come from CUDA. The contents of the buffers and their
-- verification are the matter of Initiator; Ended has how a measurement ends.
pub mod Values
pub mod Ended
use nvbandwidth.Prelude.{
  ℕ, suc, ◌+◌, ◌<◌, Bool, true, false, List, [], ◌∷◌, length, replicate, run_all, if◌then◌else◌,
}
use nvbandwidth.Double.{Double}
use nvbandwidth.Statistic.{record_sample, return_appropriate_metric}
use nvbandwidth.Bandwidth.{sample_bandwidth}
use nvbandwidth.Initiator.{Initiator, get_adjusted_bandwidth}
use nvbandwidth.Buffers.{
  Transfer, BandwidthValue, use_first_bw, sum_bw, total_bw, vector_bw, MemcpyOperation,
}
use nvbandwidth.Testcase.{indices}

-- What the events of a sample measure: for each copy a whole number of microseconds that is not 0, and
-- the time of all.
pub record Clock {ℓ} (A : Type ℓ) : Type ℓ where
  pub elapsed : (sample copy : ℕ) → ℕ
  pub elapsed_positive : (sample copy : ℕ) → 0 < elapsed sample copy
  pub total_time : (sample : ℕ) → A

-- `bandwidthStats` and `totalBandwidth`.
pub record Statistics {ℓ} (A : Type ℓ) : Type ℓ where
  pub bandwidth_stats : List (List A)
  pub total_bandwidth : List A

abbrev pub is_total : BandwidthValue → Bool
is_total total_bw = true
is_total _ = false

module _ {ℓ} {A : Type ℓ} ⦃d : Double A⦄ where
  open d use {zero_value, add, mul, div, of_count}

  -- `1e-9`
  abbrev pub nano : A
  nano = div (of_count 1) (of_count 1000000000)

  -- `NodeHelperSingle::calculateTotalBandwidth`.
  unfoldable pub calculate_total_bandwidth : (total_time total_size : A) (loop_count : ℕ) → A
  calculate_total_bandwidth total_time total_size loop_count =
      div (mul (mul (mul total_size (of_count loop_count)) (of_count 1000)) (of_count 1000))
        total_time

  -- `NodeHelperSingle::calculateSumBandwidth`, from what is summed up so far.
  unfoldable pub sum_bandwidth : (use_mean : Bool) (sum : A) → List (List A) → A
  sum_bandwidth use_mean sum [] = sum
  sum_bandwidth use_mean sum (stat ∷ stats) =
      sum_bandwidth use_mean (add sum (mul (return_appropriate_metric use_mean stat) nano)) stats

  -- The loop for `VECTOR_BW`.
  unfoldable pub vector_bandwidth : (use_mean : Bool) → List (List A) → List A
  vector_bandwidth use_mean [] = []
  vector_bandwidth use_mean (stat ∷ stats) =
      mul (return_appropriate_metric use_mean stat) nano ∷ vector_bandwidth use_mean stats

  -- `NodeHelperSingle::calculateFirstBandwidth`; of no copies there is no first one.
  unfoldable pub first_bandwidth : (use_mean : Bool) → List (List A) → List A
  first_bandwidth use_mean [] = []
  first_bandwidth use_mean (stat ∷ stats) = mul (return_appropriate_metric use_mean stat) nano ∷ []

  -- What follows the loop.
  unfoldable pub returned : (use_mean : Bool) → BandwidthValue → Statistics A → List A
  unfolding sum_bandwidth vector_bandwidth first_bandwidth
  returned use_mean sum_bw s = sum_bandwidth use_mean zero_value s.bandwidth_stats ∷ []
  returned use_mean total_bw s =
      mul (return_appropriate_metric use_mean s.total_bandwidth) nano ∷ []
  returned use_mean vector_bw s = vector_bandwidth use_mean s.bandwidth_stats
  returned use_mean use_first_bw s = first_bandwidth use_mean s.bandwidth_stats

  module _ (copied : Initiator → Transfer → ℕ) (clock : Clock A) (loop_count : ℕ) where
    -- The bandwidth of a copy in one sample.
    unfoldable pub copy_sample : Initiator → (sample copy : ℕ) → Transfer → A
    copy_sample initiator n i t = of_count (
        get_adjusted_bandwidth initiator
          (sample_bandwidth (copied initiator t) loop_count (clock.elapsed n i)))

    -- The loop that records the bandwidth of each copy.
    unfoldable pub record_copies :
        Initiator → (sample copy : ℕ) → List Transfer → List (List A) → List (List A)
    unfolding copy_sample
    record_copies initiator n i (t ∷ ts) (stat ∷ stats) =
        record_sample (copy_sample initiator n i t) stat
        ∷ record_copies initiator n (suc i) ts stats
    record_copies initiator n i _ _ = []

    unfoldable pub total_size : Initiator → (total : A) → List Transfer → A
    total_size initiator total [] = total
    total_size initiator total (t ∷ ts) =
        total_size initiator (add total (of_count (copied initiator t))) ts

    -- The total bandwidth of one sample.
    unfoldable pub total_sample : Initiator → List Transfer → (sample : ℕ) → A
    unfolding calculate_total_bandwidth total_size
    total_sample initiator ts n =
        calculate_total_bandwidth (clock.total_time n) (total_size initiator zero_value ts)
          loop_count

    -- The body of the sampling loop.
    unfoldable pub sample_step :
        MemcpyOperation → List Transfer → (sample : ℕ) → Statistics A → Statistics A
    unfolding record_copies total_sample
    sample_step op ts n s = record {
      bandwidth_stats = record_copies op.memcpy_initiator n 0 ts s.bandwidth_stats;
      total_bandwidth =
          if is_total op.bandwidth_value
          then record_sample (total_sample op.memcpy_initiator ts n) s.total_bandwidth
          else s.total_bandwidth;
    }

    unfoldable pub sampling_loop :
        MemcpyOperation → List Transfer → (average_loop_count : ℕ) → Statistics A
    unfolding sample_step
    sampling_loop op ts average_loop_count =
        run_all (sample_step op ts) (indices 0 average_loop_count)
          (record { bandwidth_stats = replicate (length ts) []; total_bandwidth = [] })

    unfoldable pub core_values :
        (use_mean : Bool) (average_loop_count : ℕ) → MemcpyOperation → List Transfer → List A
    unfolding sampling_loop returned
    core_values use_mean average_loop_count op ts =
        returned use_mean op.bandwidth_value (sampling_loop op ts average_loop_count)
