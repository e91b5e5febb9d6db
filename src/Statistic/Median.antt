-- ===== src/Statistic/Median.antt =====
-- The smallest, the largest and the median of recorded samples.
use nvbandwidth.Prelude.{
  ℕ, zero, suc, ◌-◌, ◌/◌, ◌%◌, ◌≤◌, ◌<◌, ◌≡◌, ◌∙◌, List, [], ◌∷◌, length, arith, false, Bool-cases,
  inl, inr, ◌==◌, lt→ltb,
}
use nvbandwidth.Double.{Double, ◌≼◌, IsOrdered}
use nvbandwidth.Statistic.{record_all, at, smallest, largest, median}
use nvbandwidth.Statistic.Order.{IsSorted, record_all-IsSorted, length-run_all}

module _ {ℓ} {A : Type ℓ} ⦃d : Double A⦄ (laws : IsOrdered A) where
  open laws use {lt_asymm, le_trans, le_antisymm, midpoint}

  le_refl : (a : A) → a ≼ a
  le_refl a = elim (Bool-cases (d.lt a a)) [ inl e ↦ lt_asymm a a e | inr e ↦ e ]

  -- In a sorted list a later value is not below an earlier one.
  at_mono : (vs : List A) (i j : ℕ) → IsSorted vs → i ≤ j → j < length vs → at vs i ≼ at vs j
  at_mono [] i j s h k = elim k [ ]
  at_mono (v ∷ vs) zero zero s h k = le_refl v
  at_mono (v ∷ []) zero (suc j) s h k = absurd (omega arith)
  at_mono (v ∷ w ∷ ws) zero (suc j) s h k =
      le_trans v w (at (w ∷ ws) j) s.0 (at_mono (w ∷ ws) zero j s.1 (omega arith) (omega arith))
  at_mono (v ∷ vs) (suc i) zero s h k = absurd (omega arith)
  at_mono (v ∷ []) (suc i) (suc j) s h k = absurd (omega arith)
  at_mono (v ∷ w ∷ ws) (suc i) (suc j) s h k = at_mono (w ∷ ws) i j s.1 (omega arith) (omega arith)

  -- The median of sorted values lies between the smallest and the largest.
  sorted_bounds :
      (vs : List A)
      → IsSorted vs
      → 0 < length vs
      → (smallest vs ≼ median vs) × (median vs ≼ largest vs)
  unfolding smallest median largest
  sorted_bounds vs s h =
      let n = length vs in
      let nonempty : (n == 0) ≡ false = ground arith in
      let mono = λ (i j : ℕ). at_mono vs i j s in
      elim (Bool-cases (n % 2 == 0)) [
        | inl even ↦
            let two : 2 ≤ n = ground arith in
            let a = at vs (n / 2 - 1) in
            let b = at vs (n / 2) in
            let (above, under) =
              midpoint a b (mono (n / 2 - 1) (n / 2) (omega arith) (omega arith)) in
            rw (nonempty, even, lt→ltb 0 n h)
              (
                le_trans (at vs 0) a _ (mono 0 (n / 2 - 1) (omega arith) (omega arith)) above,
                le_trans _ b (at vs (n - 1)) under
                    (mono (n / 2) (n - 1) (omega arith) (omega arith)),
              )
        | inr odd ↦
            rw (nonempty, odd, lt→ltb 0 n h)
              (
                mono 0 (n / 2) (omega arith) (omega arith),
                mono (n / 2) (n - 1) (omega arith) (omega arith),
              )
      ]

  -- Each recorded value, of at least one, lies between the smallest and the largest, and so does the
  -- median; as many values are kept as samples were recorded. The type obeys the laws of an order.
  pub metric_bounds :
      (samples : List A) (i : ℕ)
      → i < length samples
      → let vs = record_all samples in
        (length vs ≡ length samples)
        × (smallest vs ≼ median vs)
        × (median vs ≼ largest vs)
        × (smallest vs ≼ at vs i)
        × (at vs i ≼ largest vs)
  unfolding record_all smallest largest
  metric_bounds samples i k =
      let vs = record_all samples in
      let sorted = record_all-IsSorted laws samples [] tt in
      let count : length vs ≡ length samples = length-run_all laws samples [] ∙ (omega arith) in
      let some_value : 0 < length vs = omega arith in
      let (above, under) = sorted_bounds vs sorted some_value in
      let nonempty = lt→ltb 0 (length vs) some_value in
      (
        count,
        above,
        under,
        rw nonempty (at_mono vs 0 i sorted (omega arith) (omega arith)),
        rw nonempty (at_mono vs i (length vs - 1) sorted (omega arith) (omega arith)),
      )
