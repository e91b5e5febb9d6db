-- ===== src/Testcase/Multi/Bisect.antt =====
-- The bisection test of a multinode run.
use nvbandwidth.Prelude.{
  ℕ, zero, suc, ◌+◌, ◌-◌, ◌≡◌, ◌≤◌, ◌<◌, refl, ◌∙◌, true, false, ◌&&◌, Option, some, none, List, [],
  ◌∷◌, map, length, get_elem?, ltb, leb, ◌==◌, if◌then◌else◌, arith, Bool-cases, inl, inr,
}
use nvbandwidth.Double.{Double}
use nvbandwidth.Initiator.{ce}
use nvbandwidth.Matrix.{PeerValueMatrix, new_matrix, value}
use nvbandwidth.Multinode.{prefer_src_context}
use nvbandwidth.Buffers.{Outcome, measures, Transfer, vector_bw, MemcpyOperation, Heap}
use nvbandwidth.Buffers.Owned.{IsFresh}
use nvbandwidth.Buffers.Measured.{IsRestored, with_buffers_lem}
use nvbandwidth.Testcase.{indices, Run}
use nvbandwidth.Testcase.Stored.{HasShape, assign-in_range, new_matrix-HasShape, cells}
use nvbandwidth.Testcase.Answers.{Answers}
use nvbandwidth.Testcase.Multi.{
  multi_operation, between_ranks, opposite, store_column, multinode_bisect_write_ce,
}
use nvbandwidth.Testcase.Multi.Ends.{same_sizes-map, length-map-indices}

module _ {ℓ} {A : Type ℓ} where
  -- A cell with the value, if there is one.
  abbrev pub cell_of : Option A → Option (Option A)
  cell_of none = none
  cell_of (some v) = some (some v)

  in_list : (vs : List A) (i : ℕ) → i < length vs → (v : A) × (get_elem? vs i ≡ some v)
  in_list [] i h = absurd (omega arith)
  in_list (v ∷ vs) zero h = (v, refl)
  in_list (v ∷ vs) (suc i) h = in_list vs i (omega arith)

  store_column_lem :
      (n row : ℕ) (vs : List A) (m : PeerValueMatrix A)
      → row + length vs ≤ n
      → HasShape n 1 m
      → (m' : PeerValueMatrix A) × (store_column row vs m ≡ some m')
        × ((k : ℕ)
            → value m' k 0 ≡ (
                if leb row k && ltb k (row + length vs)
                then cell_of (get_elem? vs (k - row))
                else value m k 0))
  unfolding store_column
  store_column_lem n row [] m h s = (m, refl, λ k. ground arith)
  store_column_lem n row (v ∷ vs) m h s =
      let (m1, e1, s1, f1) = assign-in_range n 1 row 0 v m (omega arith) (omega arith) s in
      let (m2, e2, f2) = store_column_lem n (suc row) vs m1 (omega arith) s1 in
      (m2, rw e1 e2, λ k. f2 k ∙ rw (f1 k 0) (joined k row (length vs) v vs (value m k 0)))
    where
      later :
          (k row : ℕ) (v : A) (vs : List A)
          → row < k
          → get_elem? (v ∷ vs) (k - row) ≡ get_elem? vs (k - suc row)
      later k row v vs h = let e : k - row ≡ suc (k - suc row) = omega arith in rw e

      joined :
          (k row count : ℕ) (v : A) (vs : List A) (old : Option (Option A))
          → (if leb (suc row) k && ltb k (suc row + count)
              then cell_of (get_elem? vs (k - suc row))
              else if (row == k) && (0 == 0)
              then some (some v)
              else old)
            ≡ (if leb row k && ltb k (row + suc count)
                then cell_of (get_elem? (v ∷ vs) (k - row))
                else old)
      joined k row count v vs old = elim (Bool-cases (row == k)) [
        | inl e ↦
            let first : k - row ≡ 0 = ground arith in
            let past : (leb (suc row) k && ltb k (suc row + count)) ≡ false = ground arith in
            let inside : (leb row k && ltb k (row + suc count)) ≡ true = ground arith in
            rw (past, inside, e, first) refl
        | inr e ↦ elim (Bool-cases (leb row k)) [
          | inl g ↦
              let same : (leb (suc row) k && ltb k (suc row + count))
                  ≡ (leb row k && ltb k (row + suc count)) =
                ground arith in
              rw (later k row v vs (ground arith), same, e) refl
          | inr g ↦
              let past : (leb (suc row) k && ltb k (suc row + count)) ≡ false = ground arith in
              let outside : (leb row k && ltb k (row + suc count)) ≡ false = ground arith in
              rw (past, outside, e) refl
        ]
      ]

-- The copies of the test.
abbrev pub bisect_copies : (world_size size : ℕ) → List Transfer
bisect_copies n size = map (λ (i : ℕ). between_ranks size (opposite n i) i) (indices 0 n)

module _ {ℓ} {A : Type ℓ} ⦃d : Double A⦄ (core : MemcpyOperation → List Transfer → Outcome A) where
  abbrev pub bisect_outcome : (world_size size : ℕ) → Outcome A
  bisect_outcome n size =
      core (multi_operation ce prefer_src_context vector_bw) (bisect_copies n size)

  length-bisect_copies : (n size : ℕ) → length (bisect_copies n size) ≡ n
  length-bisect_copies n size =
      length-map-indices (λ (i : ℕ). between_ranks size (opposite n i) i) 0 n

  bisect-stores :
      (n size : ℕ) (h : Heap)
      → Answers core (multi_operation ce prefer_src_context vector_bw) (bisect_copies n size)
      → IsFresh h
      → (m : PeerValueMatrix A) × (h' : Heap) × (vs : List A) × (multinode_bisect_write_ce core n
            size h
          ≡ some (record { heap = h'; results = m ∷ [] }))
        × IsRestored h h'
        × (bisect_outcome n size ≡ measures vs)
        × (length vs ≡ n)
        × ((k : ℕ)
            → value m k 0 ≡ (
                if leb 0 k && ltb k (0 + length vs)
                then cell_of (get_elem? vs (k - 0))
                else value (new_matrix n 1) k 0))
  unfolding multinode_bisect_write_ce
  bisect-stores n size h (vs, e0, number) f =
      let all = number ∙ length-bisect_copies n size in
      let op = multi_operation ce prefer_src_context vector_bw in
      let (h', e1, r) =
        with_buffers_lem core op (bisect_copies n size) h f (
          same_sizes-map (λ (i : ℕ). between_ranks size (opposite n i) i) 0 n
            (λ i. ground arith)) in
      let (m, e2, g) =
        store_column_lem n 0 vs (new_matrix n 1) (omega (arith, all)) (new_matrix-HasShape n 1) in
      (m, h', vs, rw (e1, e0, e2), r, e0, all, g)

  pub bisect-restores :
      (n size : ℕ) (h : Heap)
      → Answers core (multi_operation ce prefer_src_context vector_bw) (bisect_copies n size)
      → IsFresh h
      → (s : Run A) × (multinode_bisect_write_ce core n size h ≡ some s) × IsRestored h s.heap
  bisect-restores n size h ans f =
      let (m, h', vs, e, r, e0, all, g) = bisect-stores n size h ans f in
      (record { heap = h'; results = m ∷ [] }, e, r)

-- The bisection test comes to its end from a fresh heap, which it restores: the row of each rank
-- has the value of the copy of that index, which is from the rank half the world away to this one.
-- The condition is that the measurement returns, with as many values as its operation asks for: no
-- copy throws, and no comparison with a pattern ends the process.
pub multinode_bisect_write_ce_lem {ℓ} :
    {A : Type ℓ} ⦃d : Double A⦄ (core : MemcpyOperation → List Transfer → Outcome A)
    (n size rank : ℕ) (h : Heap)
    → Answers core (multi_operation ce prefer_src_context vector_bw) (bisect_copies n size)
    → IsFresh h
    → rank < n
    → (s : Run A) × (vs : List A) × (v : A) × (multinode_bisect_write_ce core n size h ≡ some s)
      × IsRestored h s.heap
      × (bisect_outcome core n size ≡ measures vs)
      × (get_elem? vs rank ≡ some v)
      × (cells s.results rank 0 ≡ some (some v) ∷ [])
multinode_bisect_write_ce_lem core n size rank h ans f b =
    let (m, h', vs, e, r, e0, number, g) = bisect-stores core n size h ans f in
    let (v, there) = in_list vs rank (omega (arith, number)) in
    let itself : rank - 0 ≡ rank = omega arith in
    let inside : (leb 0 rank && ltb rank (0 + length vs)) ≡ true = ground (arith, number) in
    (
      record { heap = h'; results = m ∷ [] },
      vs,
      v,
      e,
      r,
      e0,
      there,
      rw (g rank, inside, itself, there) refl,
    )
