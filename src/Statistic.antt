-- ===== src/Statistic.antt =====
-- common.h: `class PerformanceStatistic`, over any type of values.
pub mod Order
pub mod Median
use nvbandwidth.Prelude.{
  ℕ, zero, suc, ◌+◌, ◌-◌, ◌/◌, ◌%◌, Bool, List, [], ◌∷◌, length, ltb, ◌==◌, if◌then◌else◌, run_all,
}
use nvbandwidth.Double.{Double}

module _ {ℓ} {A : Type ℓ} ⦃d : Double A⦄ where
  open d use {zero_value, lt, add, mul, div, of_count}

  -- `recordSample`: the sample goes in front of the first value that is not below it, where
  -- `std::lower_bound` points to.
  pub record_sample : A → List A → List A
  record_sample sample [] = sample ∷ []
  record_sample sample (v ∷ vs) =
      let later = record_sample sample vs in if lt v sample then v ∷ later else sample ∷ v ∷ vs

  -- The samples of a measurement, recorded in order from an empty statistic.
  unfoldable pub record_all : List A → List A
  unfolding record_sample
  record_all samples = run_all record_sample samples []

  -- `values[i]`; every use below is in range.
  abbrev pub at : List A → ℕ → A
  at [] i = zero_value
  at (v ∷ vs) zero = v
  at (v ∷ vs) (suc i) = at vs i

  sum_from : A → List A → A
  sum_from total [] = total
  sum_from total (v ∷ vs) = sum_from (add total v) vs

  unfoldable pub sum : List A → A
  unfolding sum_from
  sum values = sum_from zero_value values

  unfoldable pub mean : List A → A
  unfolding sum
  mean values = div (sum values) (of_count (length values))

  unfoldable pub largest : List A → A
  largest values = if ltb 0 (length values) then at values (length values - 1) else zero_value

  unfoldable pub smallest : List A → A
  smallest values = if ltb 0 (length values) then at values 0 else zero_value

  unfoldable pub median : List A → A
  median values =
      let n = length values in
      if n == 0
      then zero_value
      else if n % 2 == 0
      then (let idx = n / 2 in div (add (at values idx) (at values (idx - 1))) (of_count 2))
      else at values (n / 2)

  -- `returnAppropriateMetric`, with the option `useMean`.
  unfoldable pub return_appropriate_metric : (use_mean : Bool) → List A → A
  unfolding mean median
  return_appropriate_metric use_mean values = if use_mean then mean values else median values
