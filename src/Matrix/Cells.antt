-- ===== src/Matrix/Cells.antt =====
-- The cells of a matrix are independent, and none is missing.
use mathlib.Core.Path.{subst}
use nvbandwidth.Prelude.{
  ℕ, zero, suc, ◌+◌, ◌*◌, ◌≡◌, ◌<◌, refl, ap, ◌∙◌, Bool, true, false, ◌&&◌, List, [], ◌∷◌, length,
  get_elem?, set, Option, none, some, ◌==◌, if◌then◌else◌, arith, Bool-cases, inl, inr,
}
use nvbandwidth.Matrix.{PeerValueMatrix, in_range, value, assign}

module _ {ℓ} {A : Type ℓ} where
  -- The vector has a cell for each pair of indices.
  abbrev pub IsFull : PeerValueMatrix A → Type 0
  IsFull m = length m.m_matrix ≡ m.m_rows * m.m_columns

  get_elem?-set :
      (xs : List (Option A)) (i j : ℕ) (v : Option A)
      → i < length xs
      → get_elem? (set xs i v) j ≡ (if i == j then some v else get_elem? xs j)
  get_elem?-set [] i j v h = absurd (omega arith)
  get_elem?-set (x ∷ xs) zero zero v h = refl
  get_elem?-set (x ∷ xs) zero (suc j) v h = ground arith
  get_elem?-set (x ∷ xs) (suc i) zero v h = ground arith
  get_elem?-set (x ∷ xs) (suc i) (suc j) v h = ground (arith, get_elem?-set xs i j v)

  length-set : (xs : List (Option A)) (i : ℕ) (v : Option A) → length (set xs i v) ≡ length xs
  length-set [] i v = refl
  length-set (x ∷ xs) zero v = refl
  length-set (x ∷ xs) (suc i) v = omega (arith, length-set xs i v)

pub cell-lt : (r c i j : ℕ) → i < r → j < c → i * c + j < r * c
cell-lt r c i j h k = grind arith

cell-eq : (c i j k l : ℕ) → j < c → l < c → i * c + j ≡ k * c + l → (i ≡ k) × (j ≡ l)
cell-eq c i j k l h g e =
    let row : i ≡ k = ground (arith, cell-lt k c i j, cell-lt i c k l) in
    let start : i * c ≡ k * c = ap (λ (x : ℕ). x * c) row in (row, omega arith)

module _ {ℓ} {A : Type ℓ} where
  set-value :
      (m : PeerValueMatrix A) (i j k l : ℕ) (v : A)
      → IsFull m
      → in_range m i j ≡ true
      → let m' : PeerValueMatrix A = record m {
        m_matrix = set m.m_matrix (i * m.m_columns + j) (some v);
      } in
        value m' k l ≡ (if (i == k) && (j == l) then some (some v) else value m k l)
  unfolding value
  set-value m i j k l v full inside = elim (Bool-cases (in_range m k l)) [
    | inl h ↦
        let below : i * m.m_columns + j < length m.m_matrix =
          rw full (cell-lt m.m_rows m.m_columns i j (ground arith) (ground arith)) in
        rw (h, get_elem?-set m.m_matrix (i * m.m_columns + j) (k * m.m_columns + l) (some v) below)
          (ap
            (λ (b : Bool). if b then some (some v) else get_elem? m.m_matrix (k * m.m_columns + l))
            (same-cell m.m_columns i j k l (ground arith) (ground arith)))
    | inr h ↦ let other : ((i == k) && (j == l)) ≡ false = ground arith in rw (h, other)
  ]
    where
      same-cell :
          (c i j k l : ℕ) → j < c → l < c → (i * c + j == k * c + l) ≡ ((i == k) && (j == l))
      same-cell c i j k l h g = ground (arith, cell-eq c i j k l)

  some-injective : (m : PeerValueMatrix A) {x y : PeerValueMatrix A} → some x ≡ some y → x ≡ y
  some-injective m e = ap (λ (o : Option (PeerValueMatrix A)). elim o [ none ↦ m | some r ↦ r ]) e

  -- A value that is assigned within the matrix is the one read back at its cell, all other cells read
  -- as before, and the matrix keeps a cell for each pair of indices.
  pub value-assign :
      (m : PeerValueMatrix A) (i j k l : ℕ) (v : A) {m' : PeerValueMatrix A}
      → IsFull m
      → assign m i j v ≡ some m'
      → (length m'.m_matrix ≡ m'.m_rows * m'.m_columns)
        × (value m' k l ≡ (if (i == k) && (j == l) then some (some v) else value m k l))
  unfolding assign
  value-assign m i j k l v {m'} full e = elim (Bool-cases (in_range m i j)) [
    | inr h ↦ let bad = rw h at e in absurd (ground arith)
    | inl h ↦
        let same_matrix = some-injective m (rw h at e) in
        subst
          (λ (x : PeerValueMatrix A).
            (length x.m_matrix ≡ x.m_rows * x.m_columns)
            × (value x k l ≡ (if (i == k) && (j == l) then some (some v) else value m k l)))
          same_matrix
          (
            length-set m.m_matrix (i * m.m_columns + j) (some v) ∙ full,
            set-value m i j k l v full h,
          )
  ]
