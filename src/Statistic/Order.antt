-- ===== src/Statistic/Order.antt =====
-- Recording keeps the values sorted, and forgets the order of the samples.
use mathlib.Core.List.{Permᴰ}
use nvbandwidth.Prelude.{
  suc, ◌+◌, ◌≡◌, refl, ap, ◌∙◌, List, [], ◌∷◌, length, arith, Bool, true, false, Bool-cases, inl,
  inr, run_all,
}
use nvbandwidth.Double.{Double, ◌≼◌, IsOrdered}
use nvbandwidth.Statistic.{record_sample, record_all, return_appropriate_metric}

module _ {ℓ} {A : Type ℓ} ⦃d : Double A⦄ where
  -- Each value is at most the next one.
  abbrev pub IsSorted : List A → Type 0
  IsSorted [] = Unit
  IsSorted (x ∷ []) = Unit
  IsSorted (x ∷ y ∷ ys) = (x ≼ y) × IsSorted (y ∷ ys)

  module _ (laws : IsOrdered A) where
    open laws use {lt_asymm, le_trans, le_antisymm}

    record_sample-cons :
        (s x : A) (xs : List A)
        → d.lt x s ≡ true
        → IsSorted (x ∷ xs)
        → IsSorted (record_sample s xs)
        → IsSorted (x ∷ record_sample s xs)
    unfolding record_sample
    record_sample-cons s x [] h sorted rest = (lt_asymm x s h, tt)
    record_sample-cons s x (y ∷ ys) h sorted rest = elim (Bool-cases (d.lt y s)) [
      | inl e ↦ rw e (sorted.0, rw e at rest)
      | inr e ↦ rw e (lt_asymm x s h, rw e at rest)
    ]

    -- Recording a sample keeps the values sorted.
    pub record_sample-IsSorted : (s : A) (xs : List A) → IsSorted xs → IsSorted (record_sample s xs)
    unfolding record_sample
    record_sample-IsSorted s [] h = tt
    record_sample-IsSorted s (x ∷ []) h = elim (Bool-cases (d.lt x s)) [
      | inl e ↦ rw e (lt_asymm x s e, tt)
      | inr e ↦ rw e (e, tt)
    ]
    record_sample-IsSorted s (x ∷ y ∷ ys) h =
        let rest = record_sample-IsSorted s (y ∷ ys) h.1 in
        elim (Bool-cases (d.lt x s)) [
          | inl e ↦ rw e (record_sample-cons s x (y ∷ ys) e h rest)
          | inr e ↦ rw e (e, h)
        ]

    pub record_all-IsSorted :
        (samples values : List A)
        → IsSorted values
        → IsSorted (run_all record_sample samples values)
    record_all-IsSorted [] values h = h
    record_all-IsSorted (s ∷ ss) values h =
        record_all-IsSorted ss (record_sample s values) (record_sample-IsSorted s values h)

    -- A value below `a` and not below `b` lies between `b` and `a`.
    below : (a b x : A) → d.lt x a ≡ true → d.lt x b ≡ false → d.lt b a ≡ true
    below a b x h k = elim (Bool-cases (d.lt b a)) [ inl e ↦ e | inr e ↦ cc (le_trans a b x e k) ]

    pub record_sample_comm :
        (a b : A) (xs : List A)
        → record_sample a (record_sample b xs) ≡ record_sample b (record_sample a xs)
    unfolding record_sample
    record_sample_comm a b [] = ground (arith, lt_asymm a b, lt_asymm b a, le_antisymm a b)
    record_sample_comm a b (x ∷ xs) = ground (
      arith,
      lt_asymm a b,
      lt_asymm b a,
      le_antisymm a b,
      below a b x,
      below b a x,
      record_sample_comm a b xs,
    )

    -- The recorded values do not depend on the order of the samples.
    pub run_all-perm :
        {xs ys : List A}
        → Permᴰ xs ys
        → (values : List A) → run_all record_sample xs values ≡ run_all record_sample ys values
    run_all-perm Permᴰ.nil values = refl
    run_all-perm (Permᴰ.cons {a = x} {b = y} {l₁ = xs} e p) values =
        ap (λ z. run_all record_sample xs (record_sample z values)) e
        ∙ run_all-perm p (record_sample y values)
    run_all-perm (Permᴰ.swap {a = x} {b = y} {l = l} e f) values =
        ap (run_all record_sample l)
          (record_sample_comm y x values ∙ λ i. record_sample (e i) (record_sample (f i) values))
    run_all-perm (Permᴰ.trans p q) values = run_all-perm p values ∙ run_all-perm q values

    -- A measurement records as many values as it took samples.
    length-record_sample : (s : A) (xs : List A) → length (record_sample s xs) ≡ suc (length xs)
    unfolding record_sample
    length-record_sample s [] = refl
    length-record_sample s (x ∷ xs) = ground (arith, length-record_sample s xs)

    pub length-run_all :
        (samples values : List A)
        → length (run_all record_sample samples values) ≡ length samples + length values
    length-run_all [] values = omega arith
    length-run_all (s ∷ ss) values =
        omega (arith, length-run_all ss (record_sample s values), length-record_sample s values)

    -- The reported metric, the mean or the median, is the same for the same samples in another
    -- order. The type obeys the laws of an order.
    pub metric-perm :
        (use_mean : Bool) {xs ys : List A}
        → Permᴰ xs ys
        → return_appropriate_metric use_mean (record_all xs)
          ≡ return_appropriate_metric use_mean (record_all ys)
    unfolding record_all
    metric-perm use_mean p = ap (return_appropriate_metric use_mean) (run_all-perm p [])
