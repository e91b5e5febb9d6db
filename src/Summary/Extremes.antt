-- ===== src/Summary/Extremes.antt =====
-- The extremes of the JSON output.
use nvbandwidth.Prelude.{
  ◌*◌, ◌≡◌, true, Option, none, some, List, [], ◌∷◌, length, run_all, All, Bool-cases, inl, inr,
}
use nvbandwidth.Double.{Double, IsOrdered, ◌≼◌}
use nvbandwidth.Matrix.{PeerValueMatrix}
use nvbandwidth.Summary.{Summary, max_of, min_of, initial, json_cell, summarise}
use nvbandwidth.Summary.Read.{summarise_lem}

module _ {ℓ} {A : Type ℓ} ⦃d : Double A⦄ (o : IsOrdered A) where
  le_self : (a : A) → a ≼ a
  le_self a = elim (Bool-cases (d.lt a a)) [ inl h ↦ o.lt_asymm a a h | inr h ↦ h ]

  max_of-le : (a b : A) → (a ≼ max_of a b) × (b ≼ max_of a b)
  max_of-le a b = elim (Bool-cases (d.lt a b)) [
    | inl h ↦ rw h (o.lt_asymm a b h, le_self b)
    | inr h ↦ rw h (le_self a, h)
  ]

  min_of-le : (a b : A) → (min_of a b ≼ a) × (min_of a b ≼ b)
  min_of-le a b = elim (Bool-cases (d.lt b a)) [
    | inl h ↦ rw h (o.lt_asymm b a h, le_self b)
    | inr h ↦ rw h (le_self a, h)
  ]

  -- A summary that comes later.
  record Wider (s t : Summary A) : Type 0 where
    above : s.max_val ≼ t.max_val
    below : t.min_val ≼ s.min_val

  -- A positive value lies between the extremes.
  abbrev pub IsCovered : Summary A → Option A → Type 0
  IsCovered s none = Unit
  IsCovered s (some v) = d.lt d.zero_value v ≡ true → (s.min_val ≼ v) × (v ≼ s.max_val)

  Wider-cell : (c : Option A) (s : Summary A) → Wider s (json_cell c s)
  unfolding json_cell
  Wider-cell none s = record { above = le_self s.max_val; below = le_self s.min_val }
  Wider-cell (some v) s = elim (Bool-cases (d.lt d.zero_value v)) [
    | inl h ↦ rw h (record { above = (max_of-le s.max_val v).0; below = (min_of-le s.min_val v).0 })
    | inr h ↦ rw h (record { above = le_self s.max_val; below = le_self s.min_val })
  ]

  IsCovered-cell : (c : Option A) (s : Summary A) → IsCovered (json_cell c s) c
  unfolding json_cell
  IsCovered-cell none s = tt
  IsCovered-cell (some v) s = λ h. rw h ((min_of-le s.min_val v).1, (max_of-le s.max_val v).1)

  Wider-trans : (s t u : Summary A) → Wider s t → Wider t u → Wider s u
  Wider-trans s t u p q = record {
    above = o.le_trans s.max_val t.max_val u.max_val p.above q.above;
    below = o.le_trans u.min_val t.min_val s.min_val q.below p.below;
  }

  IsCovered-Wider : (s t : Summary A) (c : Option A) → Wider s t → IsCovered s c → IsCovered t c
  IsCovered-Wider s t none w f = tt
  IsCovered-Wider s t (some v) w f = λ h. (
    o.le_trans t.min_val s.min_val v w.below (f h).0,
    o.le_trans v s.max_val t.max_val (f h).1 w.above,
  )

  Wider-run_all : (cs : List (Option A)) (s : Summary A) → Wider s (run_all json_cell cs s)
  Wider-run_all [] s = record { above = le_self s.max_val; below = le_self s.min_val }
  Wider-run_all (c ∷ cs) s =
      Wider-trans s (json_cell c s) (run_all json_cell cs (json_cell c s)) (Wider-cell c s)
        (Wider-run_all cs (json_cell c s))

  IsCovered-run_all :
      (cs : List (Option A)) (s : Summary A) → All (IsCovered (run_all json_cell cs s)) cs
  IsCovered-run_all [] s = tt
  IsCovered-run_all (c ∷ cs) s = (
    IsCovered-Wider (json_cell c s) (run_all json_cell cs (json_cell c s)) c
        (Wider-run_all cs (json_cell c s)) (IsCovered-cell c s),
    IsCovered-run_all cs (json_cell c s),
  )

  -- The JSON output of any matrix comes to an end, and each positive value of the matrix lies between the
  -- smallest and the largest value that it finds. Values that are numbers are ordered.
  pub json_extremes :
      (m : PeerValueMatrix A) (double_min double_max : A)
      → length m.m_matrix ≡ m.m_rows * m.m_columns
      → (s : Summary A) × (summarise json_cell m (initial double_min double_max) ≡ some s)
        × All (IsCovered s) m.m_matrix
  json_extremes m double_min double_max full =
      let begin = initial double_min double_max in
      (
        run_all json_cell m.m_matrix begin,
        summarise_lem json_cell m full begin,
        IsCovered-run_all m.m_matrix begin,
      )
