-- ===== src/Summary/Read.antt =====
-- The loops over a matrix read each of its cells once, row by row.
use nvbandwidth.Prelude.{
  ℕ, zero, suc, ◌+◌, ◌*◌, ◌≤◌, ◌<◌, ◌≡◌, refl, sym, ap, ◌∙◌, arith, true, Option, some, ◌>>=◌, List,
  [], ◌∷◌, ◌++◌, length, get_elem?, run_all,
}
use native.Mathlib.Numerals.{unary_clauses}
use nvbandwidth.Double.{Double}
use nvbandwidth.Matrix.{PeerValueMatrix, in_range, value}
use nvbandwidth.Matrix.Cells.{cell-lt}
use nvbandwidth.Testcase.{indices, for_all}
use nvbandwidth.Summary.{Summary, summarise}

module _ {ℓ} {A : Type ℓ} where
  -- What is left of a list from an index on, and its first elements.
  abbrev from_index : ℕ → List A → List A
  from_index zero xs = xs
  from_index (suc n) [] = []
  from_index (suc n) (x ∷ xs) = from_index n xs

  abbrev first_of : ℕ → List A → List A
  first_of zero xs = []
  first_of (suc n) [] = []
  first_of (suc n) (x ∷ xs) = x ∷ first_of n xs

  uncons :
      (i : ℕ) (xs : List A)
      → i < length xs
      → (o : A) × (get_elem? xs i ≡ some o) × (from_index i xs ≡ o ∷ from_index (suc i) xs)
  uncons i [] h = absurd (omega arith)
  uncons zero (x ∷ xs) h = (x, refl, refl)
  uncons (suc i) (x ∷ xs) h = uncons i xs (omega arith)

  from_index-add : (j i : ℕ) (xs : List A) → from_index j (from_index i xs) ≡ from_index (i + j) xs
  from_index-add j zero xs = let e : j ≡ 0 + j = omega arith in ap (λ k. from_index k xs) e
  from_index-add zero (suc i) [] = simp unary_clauses refl
  from_index-add (suc j) (suc i) [] = simp unary_clauses refl
  from_index-add j (suc i) (x ∷ xs) =
      let e : suc (i + j) ≡ suc i + j = omega arith in
      from_index-add j i xs ∙ ap (λ k. from_index k (x ∷ xs)) e

  first_of-add :
      (i j : ℕ) (xs : List A) → first_of (i + j) xs ≡ first_of i xs ++ first_of j (from_index i xs)
  first_of-add zero j xs = let e : 0 + j ≡ j = omega arith in ap (λ k. first_of k xs) e
  first_of-add (suc i) zero [] = simp unary_clauses refl
  first_of-add (suc i) (suc j) [] = simp unary_clauses refl
  first_of-add (suc i) j (x ∷ xs) =
      let e : suc i + j ≡ suc (i + j) = omega arith in
      ap (λ k. first_of k (x ∷ xs)) e ∙ ap (x ∷◌) (first_of-add i j xs)

  first_of-all : (xs : List A) → first_of (length xs) xs ≡ xs
  first_of-all [] = refl
  first_of-all (x ∷ xs) = ap (x ∷◌) (first_of-all xs)

run_all-append {ℓ κ} :
    {A : Type ℓ} {S : Type κ} (act : A → S → S) (xs ys : List A) (s : S)
    → run_all act (xs ++ ys) s ≡ run_all act ys (run_all act xs s)
run_all-append act [] ys s = refl
run_all-append act (x ∷ xs) ys s = run_all-append act xs ys (act x s)

module _ {ℓ} {A : Type ℓ} ⦃d : Double A⦄ (cell : Option A → Summary A → Summary A)
    (m : PeerValueMatrix A) (full : length m.m_matrix ≡ m.m_rows * m.m_columns) where
  abbrev read : (row column : ℕ) → Summary A → Option (Summary A)
  read row column s = do o ← value m row column; some (cell o s)

  value-in_range :
      (i j : ℕ)
      → i < m.m_rows
      → j < m.m_columns
      → value m i j ≡ get_elem? m.m_matrix (i * m.m_columns + j)
  unfolding value
  value-in_range i j h g = let inside : in_range m i j ≡ true = ground arith in rw inside

  row-lem :
      (r n f : ℕ) (s : Summary A)
      → r < m.m_rows
      → f + n ≤ m.m_columns
      → for_all (read r) (indices f n) s
        ≡ some (run_all cell (first_of n (from_index (r * m.m_columns + f) m.m_matrix)) s)
  unfolding for_all
  row-lem r zero f s h g = refl
  row-lem r (suc n) f s h g =
      let place = r * m.m_columns + f in
      let below = cell-lt m.m_rows m.m_columns r f h (omega arith) in
      let (o, e, t) = uncons place m.m_matrix (omega (arith, full)) in
      let along : r * m.m_columns + suc f ≡ suc place = omega arith in
      rw (value-in_range r f h (omega arith), e, t)
        (row-lem r n (suc f) (cell o s) h (omega arith)
          ∙ ap (λ k. some (run_all cell (first_of n (from_index k m.m_matrix)) (cell o s))) along)

  rows-lem :
      (n r : ℕ) (s : Summary A)
      → r + n ≤ m.m_rows
      → for_all (λ (i : ℕ). for_all (read i) (indices 0 m.m_columns)) (indices r n) s
        ≡ some
            (run_all cell (first_of (n * m.m_columns) (from_index (r * m.m_columns) m.m_matrix)) s)
  unfolding for_all
  rows-lem zero r s h =
      let e : 0 ≡ 0 * m.m_columns = omega arith in
      ap (λ k. some (run_all cell (first_of k (from_index (r * m.m_columns) m.m_matrix)) s)) e
  rows-lem (suc n) r s h =
      let c = m.m_columns in
      let rest = from_index (r * c) m.m_matrix in
      let row = run_all cell (first_of c rest) s in
      let start : r * c + 0 ≡ r * c = omega arith in
      let first : for_all (read r) (indices 0 c) s ≡ some row =
        row-lem r c 0 s (omega arith) (omega arith)
        ∙ ap (λ k. some (run_all cell (first_of c (from_index k m.m_matrix)) s)) start in
      let next : suc r * c ≡ r * c + c = grind arith in
      let size : c + n * c ≡ suc n * c = grind arith in
      rw first (
        rows-lem n (suc r) row (omega (arith, h))
        ∙ ap (λ k. some (run_all cell (first_of (n * c) (from_index k m.m_matrix)) row)) next
        ∙ ap (λ (xs : List (Option A)). some (run_all cell (first_of (n * c) xs) row))
            (sym (from_index-add c (r * c) m.m_matrix))
        ∙ ap some
            (sym (run_all-append cell (first_of c rest) (first_of (n * c) (from_index c rest)) s))
        ∙ ap (λ (xs : List (Option A)). some (run_all cell xs s))
            (sym (first_of-add c (n * c) rest))
        ∙ ap (λ k. some (run_all cell (first_of k rest) s)) size)

  -- The loops apply the cells of the matrix in their order, each once.
  pub summarise_lem : (s : Summary A) → summarise cell m s ≡ some (run_all cell m.m_matrix s)
  unfolding summarise
  summarise_lem s =
      let start : 0 * m.m_columns ≡ 0 = omega arith in
      rows-lem m.m_rows 0 s (omega arith)
      ∙ ap
          (λ k. some (run_all cell (first_of (m.m_rows * m.m_columns) (from_index k m.m_matrix)) s))
          start
      ∙ ap (λ k. some (run_all cell (first_of k m.m_matrix) s)) (sym full)
      ∙ ap (λ (xs : List (Option A)). some (run_all cell xs s)) (first_of-all m.m_matrix)
