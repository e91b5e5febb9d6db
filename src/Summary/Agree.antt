-- ===== src/Summary/Agree.antt =====
-- The plain and the JSON output of one matrix.
use nvbandwidth.Prelude.{
  suc, ◌*◌, ◌≡◌, refl, ap, ◌∙◌, true, false, Option, none, some, List, [], ◌∷◌, length, run_all,
  All, Bool-cases, inl, inr,
}
use nvbandwidth.Double.{Double, IsOrdered}
use nvbandwidth.Matrix.{PeerValueMatrix}
use nvbandwidth.Summary.{Summary, max_of, initial, plain_cell, json_cell, summarise}
use nvbandwidth.Summary.Read.{summarise_lem}

-- The law of addition that the outputs rely on.
abbrev pub HasZero {ℓ} : (A : Type ℓ) ⦃d : Double A⦄ → Type ℓ
HasZero A ⦃d⦄ = (a : A) → d.add a d.zero_value ≡ a

module _ {ℓ} {A : Type ℓ} ⦃d : Double A⦄ where
  -- A cell without a value, or with a positive one.
  abbrev pub IsPositive : Option A → Type 0
  IsPositive none = Unit
  IsPositive (some v) = d.lt d.zero_value v ≡ true

  -- The same sum, count and largest value, which is positive.
  record Same (s t : Summary A) : Type ℓ where
    sums : s.sum ≡ t.sum
    counts : s.count ≡ t.count
    largest : s.max_val ≡ t.max_val
    positive : d.lt d.zero_value s.max_val ≡ true

  module _ (o : IsOrdered A) (zero_law : HasZero A) where
    not_below : (v : A) → d.lt d.zero_value v ≡ true → d.lt v d.zero_value ≡ false
    not_below v h = o.lt_asymm d.zero_value v h

    not_less : d.lt d.zero_value d.zero_value ≡ false
    not_less = elim (Bool-cases (d.lt d.zero_value d.zero_value)) [
      | inl h ↦ o.lt_asymm d.zero_value d.zero_value h
      | inr h ↦ h
    ]

    max_of-positive :
        (a b : A)
        → d.lt d.zero_value a ≡ true
        → d.lt d.zero_value b ≡ true
        → d.lt d.zero_value (max_of a b) ≡ true
    max_of-positive a b h g = elim (Bool-cases (d.lt a b)) [ inl e ↦ rw e g | inr e ↦ rw e h ]

    Same-cell :
        (c : Option A) (s t : Summary A)
        → IsPositive c
        → Same s t
        → Same (plain_cell c s) (json_cell c t)
    unfolding plain_cell json_cell
    Same-cell none s t h e = record {
      sums = zero_law s.sum ∙ e.sums;
      counts = rw not_less e.counts;
      largest = rw (not_below s.max_val e.positive) e.largest;
      positive = rw (not_below s.max_val e.positive) e.positive;
    }
    Same-cell (some v) s t h e = rw h (record {
      sums = ap (λ a. d.add a v) e.sums;
      counts = ap suc e.counts;
      largest = ap (λ a. max_of a v) e.largest;
      positive = max_of-positive s.max_val v e.positive h;
    })

    Same-run_all :
        (cs : List (Option A)) (s t : Summary A)
        → All IsPositive cs
        → Same s t
        → Same (run_all plain_cell cs s) (run_all json_cell cs t)
    Same-run_all [] s t h e = e
    Same-run_all (c ∷ cs) s t (h, hs) e =
        Same-run_all cs (plain_cell c s) (json_cell c t) hs (Same-cell c s t h e)

    -- For a matrix whose values are all positive, the plain and the JSON output both come to an end, and
    -- print the same sum and find the same largest value and the same number of values. Values that are
    -- numbers are ordered, adding zero changes none, and `double_min` is positive.
    pub plain-eq-json :
        (m : PeerValueMatrix A) (double_min double_max : A)
        → length m.m_matrix ≡ m.m_rows * m.m_columns
        → All IsPositive m.m_matrix
        → d.lt d.zero_value double_min ≡ true
        → (s : Summary A) × (t : Summary A) × (summarise plain_cell m
              (initial double_min double_max)
            ≡ some s)
          × (summarise json_cell m (initial double_min double_max) ≡ some t)
          × (s.sum ≡ t.sum)
          × (s.count ≡ t.count)
          × (s.max_val ≡ t.max_val)
    plain-eq-json m double_min double_max full h pos =
        let begin = initial double_min double_max in
        let same =
          Same-run_all m.m_matrix begin begin h
            (record { sums = refl; counts = refl; largest = refl; positive = pos }) in
        (
          run_all plain_cell m.m_matrix begin,
          run_all json_cell m.m_matrix begin,
          summarise_lem plain_cell m full begin,
          summarise_lem json_cell m full begin,
          same.sums,
          same.counts,
          same.largest,
        )
