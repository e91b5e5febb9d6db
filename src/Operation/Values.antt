-- ===== src/Operation/Values.antt =====
-- The values of a measurement: each is the metric of the samples of its own copy.
use nvbandwidth.Prelude.{
  ℕ, suc, ◌≡◌, refl, sym, ap, ◌∙◌, Bool, true, List, [], ◌∷◌, map, length, replicate,
  length-replicate, min, run_all, arith,
}
use nvbandwidth.Double.{Double}
use nvbandwidth.Statistic.{record_sample, record_all, return_appropriate_metric}
use nvbandwidth.Initiator.{Initiator}
use nvbandwidth.Buffers.{
  Transfer, BandwidthValue, use_first_bw, sum_bw, total_bw, vector_bw, MemcpyOperation,
}
use nvbandwidth.Testcase.{indices}
use nvbandwidth.Testcase.Answers.{values_of}
use nvbandwidth.Operation.{
  Clock, Statistics, is_total, nano, sum_bandwidth, vector_bandwidth, first_bandwidth, copy_sample,
  record_copies, total_sample, sample_step, sampling_loop, returned, core_values,
}

module _ {ℓ} {A : Type ℓ} ⦃d : Double A⦄ (copied : Initiator → Transfer → ℕ) (clock : Clock A)
    (loop_count : ℕ) where
  -- The statistics of the copies from the number `i` on, after the samples `ns`.
  sampled : Initiator → (ns : List ℕ) → (i : ℕ) → List Transfer → List (List A) → List (List A)
  sampled initiator ns i (t ∷ ts) (stat ∷ stats) =
      run_all record_sample
        (map (λ (n : ℕ). copy_sample copied clock loop_count initiator n i t) ns) stat
      ∷ sampled initiator ns (suc i) ts stats
  sampled initiator ns i _ _ = []

  -- Those of a measurement.
  abbrev pub own_samples :
      Initiator → (average_loop_count : ℕ) → (i : ℕ) → List Transfer → List (List A)
  own_samples initiator average i [] = []
  own_samples initiator average i (t ∷ ts) =
      record_all
        (map (λ (n : ℕ). copy_sample copied clock loop_count initiator n i t) (indices 0 average))
      ∷ own_samples initiator average (suc i) ts

  sampled-none :
      (initiator : Initiator) (i : ℕ) (ts : List Transfer) (stats : List (List A))
      → length stats ≡ length ts
      → sampled initiator [] i ts stats ≡ stats
  unfolding sampled
  sampled-none initiator i [] [] h = refl
  sampled-none initiator i [] (s ∷ ss) h = absurd (omega (arith, h))
  sampled-none initiator i (t ∷ ts) [] h = absurd (omega (arith, h))
  sampled-none initiator i (t ∷ ts) (s ∷ ss) h =
      ap (λ (l : List (List A)). s ∷ l) (sampled-none initiator (suc i) ts ss (omega (arith, h)))

  sampled-step :
      (initiator : Initiator) (n : ℕ) (ns : List ℕ) (i : ℕ) (ts : List Transfer)
      (stats : List (List A))
      → sampled initiator ns i ts (record_copies copied clock loop_count initiator n i ts stats)
        ≡ sampled initiator (n ∷ ns) i ts stats
  unfolding sampled record_copies
  sampled-step initiator n ns i [] stats = refl
  sampled-step initiator n ns i (t ∷ ts) [] = refl
  sampled-step initiator n ns i (t ∷ ts) (s ∷ ss) =
      rw (sampled-step initiator n ns (suc i) ts ss) refl

  length-record_copies :
      (initiator : Initiator) (n i : ℕ) (ts : List Transfer) (stats : List (List A))
      → length stats ≡ length ts
      → length (record_copies copied clock loop_count initiator n i ts stats) ≡ length ts
  unfolding record_copies
  length-record_copies initiator n i [] stats h = refl
  length-record_copies initiator n i (t ∷ ts) [] h = h
  length-record_copies initiator n i (t ∷ ts) (s ∷ ss) h =
      ap suc (length-record_copies initiator n (suc i) ts ss (omega (arith, h)))

  stats-sampled :
      (op : MemcpyOperation) (ts : List Transfer) (ns : List ℕ) (s : Statistics A)
      → length s.bandwidth_stats ≡ length ts
      → (run_all (sample_step copied clock loop_count op ts) ns s).bandwidth_stats
        ≡ sampled op.memcpy_initiator ns 0 ts s.bandwidth_stats
  unfolding sample_step
  stats-sampled op ts [] s h = sym (sampled-none op.memcpy_initiator 0 ts s.bandwidth_stats h)
  stats-sampled op ts (n ∷ ns) s h =
      stats-sampled op ts ns (sample_step copied clock loop_count op ts n s)
        (length-record_copies op.memcpy_initiator n 0 ts s.bandwidth_stats h)
      ∙ sampled-step op.memcpy_initiator n ns 0 ts s.bandwidth_stats

  sampled-own :
      (initiator : Initiator) (average i : ℕ) (ts : List Transfer)
      → sampled initiator (indices 0 average) i ts (replicate (length ts) [])
        ≡ own_samples initiator average i ts
  unfolding sampled record_all
  sampled-own initiator average i [] = refl
  sampled-own initiator average i (t ∷ ts) = rw (sampled-own initiator average (suc i) ts) refl

  total-step :
      (op : MemcpyOperation) (ts : List Transfer) (n : ℕ) (s : Statistics A)
      → is_total op.bandwidth_value ≡ true
      → (sample_step copied clock loop_count op ts n s).total_bandwidth
        ≡ record_sample
            (total_sample copied clock loop_count op.memcpy_initiator ts n)
            s.total_bandwidth
  unfolding sample_step
  total-step op ts n s h = rw h refl

  total-recorded :
      (op : MemcpyOperation) (ts : List Transfer) (ns : List ℕ) (s : Statistics A)
      → is_total op.bandwidth_value ≡ true
      → (run_all (sample_step copied clock loop_count op ts) ns s).total_bandwidth
        ≡ run_all record_sample
            (map (total_sample copied clock loop_count op.memcpy_initiator ts) ns)
            s.total_bandwidth
  total-recorded op ts [] s h = refl
  total-recorded op ts (n ∷ ns) s h =
      total-recorded op ts ns (sample_step copied clock loop_count op ts n s) h
      ∙ ap
          (λ (stat : List A).
            run_all record_sample
              (map (total_sample copied clock loop_count op.memcpy_initiator ts) ns) stat)
          (total-step op ts n s h)

  length-own_samples :
      (initiator : Initiator) (average i : ℕ) (ts : List Transfer)
      → length (own_samples initiator average i ts) ≡ length ts
  length-own_samples initiator average i [] = refl
  length-own_samples initiator average i (t ∷ ts) =
      ap suc (length-own_samples initiator average (suc i) ts)

  -- The values that a measurement should return.
  abbrev pub expected_values :
      (use_mean : Bool) (average : ℕ) → Initiator → BandwidthValue → List Transfer → List A
  expected_values use_mean average initiator use_first_bw ts =
      first_bandwidth use_mean (own_samples initiator average 0 ts)
  expected_values use_mean average initiator sum_bw ts =
      sum_bandwidth use_mean d.zero_value (own_samples initiator average 0 ts) ∷ []
  expected_values use_mean average initiator total_bw ts =
      d.mul
        (return_appropriate_metric use_mean (
          record_all (map (total_sample copied clock loop_count initiator ts) (indices 0 average))))
        nano
      ∷ []
  expected_values use_mean average initiator vector_bw ts =
      vector_bandwidth use_mean (own_samples initiator average 0 ts)

  loop-own :
      (op : MemcpyOperation) (ts : List Transfer) (average : ℕ)
      → (sampling_loop copied clock loop_count op ts average).bandwidth_stats
        ≡ own_samples op.memcpy_initiator average 0 ts
  unfolding sampling_loop
  loop-own op ts average =
      stats-sampled op ts (indices 0 average)
        (record { bandwidth_stats = replicate (length ts) []; total_bandwidth = [] })
        (length-replicate (length ts) [])
      ∙ sampled-own op.memcpy_initiator average 0 ts

  loop-total :
      (op : MemcpyOperation) (ts : List Transfer) (average : ℕ)
      → is_total op.bandwidth_value ≡ true
      → (sampling_loop copied clock loop_count op ts average).total_bandwidth
        ≡ record_all
            (map (total_sample copied clock loop_count op.memcpy_initiator ts) (indices 0 average))
  unfolding sampling_loop record_all
  loop-total op ts average h =
      total-recorded op ts (indices 0 average)
        (record { bandwidth_stats = replicate (length ts) []; total_bandwidth = [] }) h

  returned-expected :
      (use_mean : Bool) (average : ℕ) (op : MemcpyOperation) (ts : List Transfer)
      (value : BandwidthValue)
      → op.bandwidth_value ≡ value
      → returned use_mean value (sampling_loop copied clock loop_count op ts average)
        ≡ expected_values use_mean average op.memcpy_initiator value ts
  unfolding returned
  returned-expected use_mean average op ts use_first_bw e = rw (loop-own op ts average) refl
  returned-expected use_mean average op ts sum_bw e = rw (loop-own op ts average) refl
  returned-expected use_mean average op ts total_bw e =
      rw (loop-total op ts average (ap is_total e)) refl
  returned-expected use_mean average op ts vector_bw e = rw (loop-own op ts average) refl

length-vector_bandwidth {ℓ} :
    {A : Type ℓ} ⦃d : Double A⦄ (use_mean : Bool) (stats : List (List A))
    → length (vector_bandwidth use_mean stats) ≡ length stats
unfolding vector_bandwidth
length-vector_bandwidth use_mean [] = refl
length-vector_bandwidth use_mean (s ∷ ss) = ap suc (length-vector_bandwidth use_mean ss)

length-first_bandwidth {ℓ} :
    {A : Type ℓ} ⦃d : Double A⦄ (use_mean : Bool) (stats : List (List A))
    → length (first_bandwidth use_mean stats) ≡ min 1 (length stats)
unfolding first_bandwidth
length-first_bandwidth use_mean [] = omega arith
length-first_bandwidth use_mean (s ∷ ss) = omega arith

-- What a measurement returns, for each of the kinds of results: the metric of the samples of the first
-- copy, the sum of the metrics of all copies, that of the total bandwidths of the samples, or the list
-- of the metrics. The metric of a copy is of its own samples, one in each round of the sampling loop.
pub core_values_lem {ℓ} :
    {A : Type ℓ} ⦃d : Double A⦄ (copied : Initiator → Transfer → ℕ) (clock : Clock A)
    (loop_count : ℕ) (use_mean : Bool) (average : ℕ) (op : MemcpyOperation) (ts : List Transfer)
    → core_values copied clock loop_count use_mean average op ts
      ≡ expected_values copied clock loop_count use_mean average op.memcpy_initiator
          op.bandwidth_value ts
unfolding core_values
core_values_lem copied clock loop_count use_mean average op ts =
    returned-expected copied clock loop_count use_mean average op ts op.bandwidth_value refl

-- There are as many values as the operation asks for: one, or one for each copy.
pub length-core_values {ℓ} :
    {A : Type ℓ} ⦃d : Double A⦄ (copied : Initiator → Transfer → ℕ) (clock : Clock A)
    (loop_count : ℕ) (use_mean : Bool) (average : ℕ) (op : MemcpyOperation) (ts : List Transfer)
    → length (core_values copied clock loop_count use_mean average op ts)
      ≡ values_of op.bandwidth_value (length ts)
length-core_values copied clock loop_count use_mean average op ts =
    ap length (core_values_lem copied clock loop_count use_mean average op ts)
    ∙ expected-length op.bandwidth_value
  where
    expected-length :
        (value : BandwidthValue)
        → length
            (expected_values copied clock loop_count use_mean average op.memcpy_initiator value ts)
          ≡ values_of value (length ts)
    expected-length use_first_bw =
        length-first_bandwidth use_mean
          (own_samples copied clock loop_count op.memcpy_initiator average 0 ts)
        ∙ ap (λ (n : ℕ). min 1 n)
            (length-own_samples copied clock loop_count op.memcpy_initiator average 0 ts)
    expected-length sum_bw = refl
    expected-length total_bw = refl
    expected-length vector_bw =
        length-vector_bandwidth use_mean
          (own_samples copied clock loop_count op.memcpy_initiator average 0 ts)
        ∙ length-own_samples copied clock loop_count op.memcpy_initiator average 0 ts
