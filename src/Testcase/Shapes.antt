-- ===== src/Testcase/Shapes.antt =====
-- The loops over devices and over pairs of ranks: they come to their end, restore the heap, and set the
-- cells that they are to set.
use nvbandwidth.Prelude.{
  ℕ, ◌≡◌, ◌<◌, refl, ◌∙◌, true, ◌&&◌, List, [], ◌∷◌, All, any, replicate, Option, some, none,
  ==_self, ◌==◌, if◌then◌else◌, arith,
}
use nvbandwidth.Double.{Double}
use nvbandwidth.Buffers.{Outcome, Transfer, MemcpyOperation, Heap, same_sizes}
use nvbandwidth.Buffers.Owned.{IsFresh}
use nvbandwidth.Buffers.Measured.{IsRestored}
use nvbandwidth.Pairs.{Pair, holds}
use nvbandwidth.Testcase.{
  Readout, first_value, outputs, Run, indices, for_all, start, measure, each_device, each_pair,
}
use nvbandwidth.Testcase.Stored.{Fills, IsReadable, cells, measured, measure_lem, start_lem}
use nvbandwidth.Testcase.Loops.{All-indices, any-indices, for_all_lem}

module _ {ℓ} {A : Type ℓ} where
  -- What a run from the heap `h` leaves: its heap, and the cells of its matrices.
  abbrev pub Leaves :
      (h : Heap) (rows columns : ℕ) (wanted : ℕ → ℕ → List (Option (Option A)))
      → Option (Run A)
      → Type ℓ
  Leaves h rows columns wanted run =
      (s : Run A) × (run ≡ some s)
      × IsRestored h s.heap
      × ((k l : ℕ) → k < rows → l < columns → cells s.results k l ≡ wanted k l)

  -- A loop in which each device fills its cell of a matrix of one row.
  pub row_lem :
      (n : ℕ) (wanted : ℕ → ℕ → List (Option (Option A))) (step : ℕ → Run A → Option (Run A))
      (h : Heap)
      → IsFresh h
      → ((i : ℕ) → i < n → Fills h 1 n 1 wanted (λ (k l : ℕ). (0 == k) && (i == l)) (step i))
      → Leaves h 1 n wanted (for_all step (indices 0 n) (start first_value 1 n h))
  row_lem n wanted step h f fills =
      let row = λ (i k l : ℕ). (0 == k) && (i == l) in
      let (sound, empty) = start_lem h first_value 1 n f in
      let (s, e, o, g) =
        for_all_lem h 1 n 1 wanted row step (indices 0 n)
          (All-indices (λ (i : ℕ). Fills h 1 n 1 wanted (row i) (step i)) 0 n
            (λ i b. fills i (omega (arith, b))))
          (start first_value 1 n h) sound in
      (
        s,
        e,
        o.restored,
        λ k l a b.
            let hit =
              any-indices (λ (i : ℕ). row i k l) 0 n l (omega arith) (omega arith)
                (ground (arith, ==_self l)) in
            g k l ∙ rw hit,
      )

module _ {ℓ} {A : Type ℓ} ⦃d : Double A⦄ (core : MemcpyOperation → List Transfer → Outcome A) where
  device-Fills :
      (n : ℕ) (op : MemcpyOperation) (copies : ℕ → List Transfer) (h : Heap) (i : ℕ)
      → i < n
      → same_sizes (copies i) ≡ true
      → IsReadable core op first_value (copies i)
      → Fills h 1 n 1
          (λ (k l : ℕ). measured core op first_value (copies l))
          (λ (k l : ℕ). (0 == k) && (i == l))
          (measure core op first_value (copies i) 0 i)
  device-Fills n op copies h i b equal readable =
      measure_lem core h 1 n op first_value (copies i) 0 i
        (λ (k l : ℕ). measured core op first_value (copies l)) (omega arith) b equal readable refl

  pub each_device_lem :
      (n : ℕ) (op : MemcpyOperation) (copies : ℕ → List Transfer) (h : Heap)
      → IsFresh h
      → ((i : ℕ) → same_sizes (copies i) ≡ true)
      → ((i : ℕ) → IsReadable core op first_value (copies i))
      → Leaves h 1 n
          (λ (k l : ℕ). measured core op first_value (copies l))
          (each_device core n op copies h)
  unfolding each_device
  each_device_lem n op copies h f equal readable =
      row_lem n (λ (k l : ℕ). measured core op first_value (copies l))
        (λ (i : ℕ). measure core op first_value (copies i) 0 i) h f
        (λ i b. device-Fills n op copies h i b (equal i) (readable i))

  pub each_pair_lem :
      (pairs : List Pair) (n : ℕ) (op : MemcpyOperation) (readout : Readout)
      (copies : ℕ → ℕ → List Transfer) (h : Heap)
      → IsFresh h
      → All (λ (p : Pair). (p.0 < n) × (p.1 < n)) pairs
      → ((i j : ℕ) → same_sizes (copies i j) ≡ true)
      → ((i j : ℕ) → IsReadable core op readout (copies i j))
      → Leaves h n n
          (λ (k l : ℕ).
            if holds pairs (k, l)
            then measured core op readout (copies k l)
            else replicate (outputs readout) (some none))
          (each_pair core pairs n op readout copies h)
  unfolding each_pair
  each_pair_lem pairs n op readout copies h f inside equal readable =
      let (sound, empty) = start_lem h readout n n f in
      let (s, e, o, g) =
        for_all_lem h n n (outputs readout) (λ (k l : ℕ). measured core op readout (copies k l))
          (λ (p : Pair) (k l : ℕ). (p.0 == k) && (p.1 == l))
          (λ (p : Pair). measure core op readout (copies p.0 p.1) p.0 p.1) pairs
          (rounds pairs n op readout copies h inside equal readable) (start readout n n h) sound in
      (s, e, o.restored, λ k l a b. g k l ∙ rw (listed pairs k l, empty k l a b))
    where
      listed :
          (pairs : List Pair) (k l : ℕ)
          → any (λ (p : Pair). (p.0 == k) && (p.1 == l)) pairs ≡ holds pairs (k, l)
      listed [] k l = refl
      listed (p ∷ ps) k l = ground (arith, listed ps k l)

      rounds :
          (pairs : List Pair) (n : ℕ) (op : MemcpyOperation) (readout : Readout)
          (copies : ℕ → ℕ → List Transfer) (h : Heap)
          → All (λ (p : Pair). (p.0 < n) × (p.1 < n)) pairs
          → ((i j : ℕ) → same_sizes (copies i j) ≡ true)
          → ((i j : ℕ) → IsReadable core op readout (copies i j))
          → All
              (λ (p : Pair).
                Fills h n n
                  (outputs readout)
                  (λ (k l : ℕ). measured core op readout (copies k l))
                  (λ (k l : ℕ). (p.0 == k) && (p.1 == l))
                  (measure core op readout (copies p.0 p.1) p.0 p.1))
              pairs
      rounds [] n op readout copies h inside equal readable = tt
      rounds (p ∷ ps) n op readout copies h (i, is) equal readable = (
        measure_lem core h n n op readout (copies p.0 p.1) p.0 p.1
            (λ (k l : ℕ). measured core op readout (copies k l)) i.0 i.1 (equal p.0 p.1)
            (readable p.0 p.1) refl,
        rounds ps n op readout copies h is equal readable,
      )
