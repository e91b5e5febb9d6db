-- ===== src/Testcase/Answers.antt =====
-- What a test case relies on of `doMemcpy` and `doMemcpyVector`: that they return, and how many values.
use nvbandwidth.Prelude.{
  ℕ, zero, suc, ◌≡◌, ◌<◌, refl, ◌∙◌, true, List, [], ◌∷◌, ◌++◌, length, min, ◌==◌, some, Bool-cases,
  inl, inr, arith,
}
use nvbandwidth.Double.{Double}
use nvbandwidth.Buffers.{
  Outcome, measures, Transfer, BandwidthValue, use_first_bw, sum_bw, total_bw, vector_bw,
  MemcpyOperation, same_sizes,
}
use nvbandwidth.Testcase.{first_value, both_values, readings}
use nvbandwidth.Testcase.Host.{interference}
use nvbandwidth.Testcase.Stored.{IsReadable}

-- Of no copies there is no first one.
abbrev pub values_of : BandwidthValue → (copy_count : ℕ) → ℕ
values_of use_first_bw n = min 1 n
values_of sum_bw n = 1
values_of total_bw n = 1
values_of vector_bw n = n

-- The measurement of the copies returns, with as many values as its operation asks for: no exception
-- is thrown, and each comparison of a copy with its pattern succeeds.
abbrev pub Answers {ℓ} :
    {A : Type ℓ}
    → (MemcpyOperation → List Transfer → Outcome A)
    → MemcpyOperation
    → List Transfer
    → Type ℓ
Answers {A = A} core op ts =
    (vs : List A) × (core op ts ≡ measures vs)
    × (length vs ≡ values_of op.bandwidth_value (length ts))

module _ {ℓ} {A : Type ℓ} ⦃d : Double A⦄ where
  readings-first :
      (vs : List A)
      → 0 < length vs
      → (ws : List A) × (readings first_value vs ≡ some ws) × (length ws ≡ 1)
  unfolding readings
  readings-first [] h = absurd (omega arith)
  readings-first (v ∷ vs) h = (v ∷ [], refl, refl)

  readings-both :
      (vs : List A)
      → length vs ≡ 2
      → (ws : List A) × (readings both_values vs ≡ some ws) × (length ws ≡ 3)
  unfolding readings
  readings-both [] h = absurd (omega (arith, h))
  readings-both (v ∷ []) h = absurd (omega (arith, h))
  readings-both (v ∷ w ∷ vs) h = (v ∷ w ∷ d.add v w ∷ [], refl, refl)

  module _ (core : MemcpyOperation → List Transfer → Outcome A) where
    pub IsReadable-first :
        (op : MemcpyOperation) (ts : List Transfer)
        → Answers core op ts
        → 0 < values_of op.bandwidth_value (length ts)
        → IsReadable core op first_value ts
    IsReadable-first op ts (us, e, number) h =
        let (vs, read, n) = readings-first us (rw number h) in (us, vs, e, read, n)

    pub IsReadable-both :
        (op : MemcpyOperation) (ts : List Transfer)
        → Answers core op ts
        → values_of op.bandwidth_value (length ts) ≡ 2
        → IsReadable core op both_values ts
    IsReadable-both op ts (us, e, number) h =
        let (vs, read, n) = readings-both us (number ∙ h) in (us, vs, e, read, n)

same_sizes-append :
    (ts us : List Transfer)
    → same_sizes ts ≡ true
    → same_sizes us ≡ true
    → same_sizes (ts ++ us) ≡ true
same_sizes-append [] us h g = g
same_sizes-append (t ∷ ts) us h g = ground (arith, same_sizes-append ts us)

pub same_sizes-interference :
    (copies : ℕ → List Transfer) (i from rounds : ℕ)
    → ((j : ℕ) → same_sizes (copies j) ≡ true)
    → same_sizes (interference copies i from rounds) ≡ true
unfolding interference
same_sizes-interference copies i from zero h = refl
same_sizes-interference copies i from (suc k) h = elim (Bool-cases (from == i)) [
  | inl e ↦ rw e (same_sizes-interference copies i (suc from) k h)
  | inr e ↦ rw e (
      same_sizes-append (copies from) (interference copies i (suc from) k) (h from)
        (same_sizes-interference copies i (suc from) k h))
]
