-- ===== src/Testcase/Stored.antt =====
-- What one measurement of a test case changes: one cell in each of its matrices.
use nvbandwidth.Prelude.{
  ◌>>=◌, ℕ, zero, suc, ◌+◌, ◌*◌, ◌≡◌, ◌<◌, refl, sym, ap, ◌∙◌, Bool, true, ◌&&◌, List, [], ◌∷◌, map,
  length, set, get_elem?, replicate, length-replicate, All, Option, none, some, ltb, ◌==◌,
  if◌then◌else◌, arith, Bool-cases, inl, inr,
}
use nvbandwidth.Double.{Double}
use nvbandwidth.Matrix.{PeerValueMatrix, new_matrix, in_range, value, assign}
use nvbandwidth.Matrix.Cells.{cell-lt, value-assign}
use nvbandwidth.Buffers.{
  Outcome, measures, returned_values, Transfer, MemcpyOperation, Heap, same_sizes,
}
use nvbandwidth.Buffers.Owned.{IsFresh}
use nvbandwidth.Buffers.Measured.{IsRestored, with_buffers_lem}
use nvbandwidth.Testcase.{Readout, outputs, Run, store_all, start, readings, measure}

get_elem?-replicate {ℓ} :
    {A : Type ℓ} {a : A} (n i : ℕ) → i < n → get_elem? (replicate n a) i ≡ some a
get_elem?-replicate zero i h = absurd (omega arith)
get_elem?-replicate (suc n) zero h = refl
get_elem?-replicate (suc n) (suc i) h = get_elem?-replicate n i (omega arith)

pub IsRestored-trans : {h h' h'' : Heap} → IsRestored h h' → IsRestored h' h'' → IsRestored h h''
IsRestored-trans p q = record {
  fresh = q.fresh;
  grown = omega (arith, p.grown, q.grown);
  same = λ a. q.same a ∙ p.same a;
}

pub IsRestored-self : {h : Heap} → IsFresh h → IsRestored h h
IsRestored-self f = record { fresh = f; grown = omega arith; same = λ p. refl }

module _ {ℓ} {A : Type ℓ} where
  pub record HasShape (rows columns : ℕ) (m : PeerValueMatrix A) : Type 0 where
    pub full : length m.m_matrix ≡ m.m_rows * m.m_columns
    pub row_count : m.m_rows ≡ rows
    pub column_count : m.m_columns ≡ columns

  -- One cell of each matrix.
  abbrev pub cells : List (PeerValueMatrix A) → (row column : ℕ) → List (Option (Option A))
  cells ms k l = map (λ (m : PeerValueMatrix A). value m k l) ms

  abbrev pub filled : List A → List (Option (Option A))
  filled = map (λ (v : A). some (some v))

  -- What the cells are to be; nothing is read out where too little was measured.
  abbrev pub filled_with : Option (List A) → List (Option (Option A))
  filled_with none = []
  filled_with (some vs) = filled vs

  pub assign-in_range :
      (r c i j : ℕ) (v : A) (m : PeerValueMatrix A)
      → i < r
      → j < c
      → HasShape r c m
      → (m' : PeerValueMatrix A) × (assign m i j v ≡ some m')
        × HasShape r c m'
        × ((k l : ℕ) → value m' k l ≡ (if (i == k) && (j == l) then some (some v) else value m k l))
  unfolding assign
  assign-in_range r c i j v m h g s =
      let inside : in_range m i j ≡ true = rw (s.row_count, s.column_count) (ground arith) in
      let m' : PeerValueMatrix A = record m {
        m_matrix = set m.m_matrix (i * m.m_columns + j) (some v);
      } in
      let assigned : assign m i j v ≡ some m' = rw inside in
      let after = λ (k l : ℕ). value-assign m i j k l v s.full assigned in
      (
        m',
        rw inside,
        record { full = (after 0 0).0; row_count = s.row_count; column_count = s.column_count },
        λ k l. (after k l).1,
      )

  pub store_all_lem :
      (r c i j : ℕ) (vs : List A) (ms : List (PeerValueMatrix A))
      → i < r
      → j < c
      → length vs ≡ length ms
      → All (HasShape r c) ms
      → (ms' : List (PeerValueMatrix A)) × (store_all i j vs ms ≡ some ms')
        × All (HasShape r c) ms'
        × (length ms' ≡ length ms)
        × ((k l : ℕ) → cells ms' k l ≡ (if (i == k) && (j == l) then filled vs else cells ms k l))
  unfolding store_all
  store_all_lem r c i j [] [] h g e s = ([], refl, tt, refl, λ k l. ground arith)
  store_all_lem r c i j [] (m ∷ ms) h g e s = absurd (omega arith)
  store_all_lem r c i j (v ∷ vs) [] h g e s = absurd (omega arith)
  store_all_lem r c i j (v ∷ vs) (m ∷ ms) h g e (s, ss) =
      let (m', e1, s1, f1) = assign-in_range r c i j v m h g s in
      let (ms', e2, s2, n2, f2) = store_all_lem r c i j vs ms h g (omega (arith, e)) ss in
      (m' ∷ ms', rw (e1, e2), (s1, s2), omega (arith, n2), λ k l. ground (arith, f1 k l, f2 k l))

  pub new_matrix-HasShape : (r c : ℕ) → HasShape r c (new_matrix r c)
  unfolding new_matrix
  new_matrix-HasShape r c = record {
    full = length-replicate (r * c) none;
    row_count = refl;
    column_count = refl;
  }

  value-new_matrix : (r c k l : ℕ) → k < r → l < c → value (new_matrix {A = A} r c) k l ≡ some none
  unfolding value new_matrix
  value-new_matrix r c k l h g =
      let inside : (ltb k r && ltb l c) ≡ true = ground arith in
      rw inside (get_elem?-replicate (r * c) (k * c + l) (cell-lt r c k l h g))

  All-replicate {κ} : (P : A → Type κ) (n : ℕ) (a : A) → P a → All P (replicate n a)
  All-replicate P zero a p = tt
  All-replicate P (suc n) a p = (p, All-replicate P n a p)

  cells-replicate :
      (r c n k l : ℕ)
      → k < r
      → l < c
      → cells (replicate n (new_matrix r c)) k l ≡ replicate n (some none)
  cells-replicate r c zero k l h g = refl
  cells-replicate r c (suc n) k l h g =
      rw (value-new_matrix r c k l h g, cells-replicate r c n k l h g)

module _ {ℓ} {A : Type ℓ} (h0 : Heap) (rows columns count : ℕ) where
  -- The heap is as at the start, and each of the matrices has a cell for each pair of indices.
  pub record IsSound (s : Run A) : Type ℓ where
    pub restored : IsRestored h0 s.heap
    pub shapes : All (HasShape rows columns) s.results
    pub number : length s.results ≡ count

  -- From every sound state the step comes to an end in one, and has set just the cells of the region.
  abbrev pub Fills :
      (wanted : ℕ → ℕ → List (Option (Option A))) (region : ℕ → ℕ → Bool)
      (step : Run A → Option (Run A))
      → Type ℓ
  Fills wanted region step =
      (s : Run A)
      → IsSound s
      → (s' : Run A) × (step s ≡ some s')
        × IsSound s'
        × ((k l : ℕ)
            → cells s'.results k l ≡ (if region k l then wanted k l else cells s.results k l))

pub start_lem {ℓ} :
    {A : Type ℓ} (h : Heap) (readout : Readout) (rows columns : ℕ)
    → IsFresh h
    → let s : Run A = start readout rows columns h in
      IsSound h rows columns (outputs readout) s
      × ((k l : ℕ)
          → k < rows
          → l < columns
          → cells s.results k l ≡ replicate (outputs readout) (some none))
unfolding start
start_lem h readout rows columns f = (
  record {
    restored = IsRestored-self f;
    shapes =
        All-replicate (HasShape rows columns) (outputs readout) (new_matrix rows columns)
          (new_matrix-HasShape rows columns);
    number = length-replicate (outputs readout) (new_matrix rows columns);
  },
  λ k l a b. cells-replicate rows columns (outputs readout) k l a b,
)

module _ {ℓ} {A : Type ℓ} where
  moved :
      (wanted : ℕ → ℕ → List (Option (Option A))) (i j k l : ℕ) (y : List (Option (Option A)))
      {x : List (Option (Option A))}
      → wanted i j ≡ x
      → (if (i == k) && (j == l) then x else y) ≡ (if (i == k) && (j == l) then wanted k l else y)
  moved wanted i j k l y e = elim (Bool-cases ((i == k) && (j == l))) [
    | inl h ↦
        let row : i ≡ k = ground arith in
        let column : j ≡ l = ground arith in rw (h, sym row, sym column) (sym e)
    | inr h ↦ rw h
  ]

  -- Values stored in a sound run, whose heap is restored after the measurement.
  pub store_all-IsSound :
      (h0 : Heap) (rows columns count i j : ℕ) (vs : List A)
      (wanted : ℕ → ℕ → List (Option (Option A))) (s : Run A) (h' : Heap)
      → i < rows
      → j < columns
      → length vs ≡ count
      → wanted i j ≡ filled vs
      → IsSound h0 rows columns count s
      → IsRestored h0 h'
      → (ms : List (PeerValueMatrix A)) × (store_all i j vs s.results ≡ some ms)
        × IsSound h0 rows columns count (record { heap = h'; results = ms })
        × ((k l : ℕ)
            → cells ms k l ≡ (if (i == k) && (j == l) then wanted k l else cells s.results k l))
  store_all-IsSound h0 rows columns count i j vs wanted s h' a b n w sound r =
      let (ms, e, shapes, number, f) =
        store_all_lem rows columns i j vs s.results a b (n ∙ sym sound.number) sound.shapes in
      (
        ms,
        e,
        record { restored = r; shapes = shapes; number = number ∙ sound.number },
        λ k l. f k l ∙ moved wanted i j k l (cells s.results k l) w,
      )

module _ {ℓ} {A : Type ℓ} ⦃d : Double A⦄ (core : MemcpyOperation → List Transfer → Outcome A) where
  -- The measurement returns, with as many values as are read out of it.
  abbrev pub IsReadable : MemcpyOperation → Readout → List Transfer → Type ℓ
  IsReadable op readout ts =
      (us : List A) × (vs : List A) × (core op ts ≡ measures us)
      × (readings readout us ≡ some vs)
      × (length vs ≡ outputs readout)

  abbrev pub measured : MemcpyOperation → Readout → List Transfer → List (Option (Option A))
  measured op readout ts = filled_with (do vs ← returned_values (core op ts); readings readout vs)

  pub measure_lem :
      (h0 : Heap) (rows columns : ℕ) (op : MemcpyOperation) (readout : Readout) (ts : List Transfer)
      (i j : ℕ) (wanted : ℕ → ℕ → List (Option (Option A)))
      → i < rows
      → j < columns
      → same_sizes ts ≡ true
      → IsReadable op readout ts
      → wanted i j ≡ measured op readout ts
      → Fills h0 rows columns
          (outputs readout)
          wanted
          (λ (k l : ℕ). (i == k) && (j == l))
          (measure core op readout ts i j)
  unfolding measure
  measure_lem h0 rows columns op readout ts i j wanted a b equal (us, vs, e0, e, n) w s sound =
      let (h', e1, r) = with_buffers_lem core op ts s.heap sound.restored.fresh equal in
      let read : (do vs ← returned_values (core op ts); readings readout vs) ≡ some vs = rw e0 e in
      let (ms, e2, stored, f) =
        store_all-IsSound h0 rows columns (outputs readout) i j vs wanted s h' a b n
          (w ∙ ap filled_with read) sound (IsRestored-trans sound.restored r) in
      (record { heap = h'; results = ms }, rw (e1, e0, e, e2), stored, f)
