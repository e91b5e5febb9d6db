-- ===== src/Prelude/Folds.antt =====
-- Left folds over a list of actions: what they keep.
use mathlib.Core.List.{List, [], ◌∷◌}

module _ {ℓ κ} {A : Type ℓ} {S : Type κ} where
  -- Run the actions of a list from left to right.
  abbrev pub run_all : (A → S → S) → List A → S → S
  run_all act [] s = s
  run_all act (x ∷ xs) s = run_all act xs (act x s)
