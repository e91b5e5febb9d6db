-- ===== src/Testcase/Grid.antt =====
-- The loops over two devices: they come to their end, restore the heap, and set the cells of the pairs
-- with peer access.
use nvbandwidth.Prelude.{
  ℕ, ◌≡◌, ◌<◌, refl, sym, ◌∙◌, Bool, true, false, not, ◌&&◌, List, any, replicate, some, none,
  ==_self, ◌==◌, if◌then◌else◌, arith, Bool-cases, inl, inr,
}
use nvbandwidth.Double.{Double}
use nvbandwidth.Buffers.{Outcome, Transfer, MemcpyOperation, Heap, same_sizes}
use nvbandwidth.Buffers.Owned.{IsFresh}
use nvbandwidth.Buffers.Measured.{without_copy_lem}
use nvbandwidth.Testcase.{Readout, outputs, indices, for_all, start, peer_step, each_peer}
use nvbandwidth.Testcase.Stored.{
  Fills, IsRestored-trans, IsReadable, measured, measure_lem, start_lem,
}
use nvbandwidth.Testcase.Loops.{All-indices, any-indices, any-none, for_all_lem}
use nvbandwidth.Testcase.Shapes.{Leaves}

-- Whether the two loops reach a cell with a measurement.
pub reached :
    (access : ℕ → ℕ → Bool) (n k l : ℕ)
    → k < n
    → l < n
    → any
        (λ (i : ℕ).
          any (λ (j : ℕ). (not (j == i) && access i j) && (i == k) && (j == l)) (indices 0 n))
        (indices 0 n)
      ≡ (not (l == k) && access k l)
reached access n k l a b = elim (Bool-cases (not (l == k) && access k l)) [
  | inl e ↦
      let inner =
        any-indices (λ (j : ℕ). (not (j == k) && access k j) && (k == k) && (j == l)) 0 n l
          (omega arith) (omega arith) (rw (e, ==_self k, ==_self l)) in
      any-indices
        (λ (i : ℕ).
          any (λ (j : ℕ). (not (j == i) && access i j) && (i == k) && (j == l)) (indices 0 n))
        0 n k (omega arith) (omega arith) inner
      ∙ sym e
  | inr e ↦
      any-none
        (λ (i : ℕ).
          any (λ (j : ℕ). (not (j == i) && access i j) && (i == k) && (j == l)) (indices 0 n))
        (indices 0 n)
        (λ i.
          any-none (λ (j : ℕ). (not (j == i) && access i j) && (i == k) && (j == l)) (indices 0 n)
            (λ j. missed access i j k l e))
      ∙ sym e
]
  where
    missed :
        (access : ℕ → ℕ → Bool) (i j k l : ℕ)
        → (not (l == k) && access k l) ≡ false
        → ((not (j == i) && access i j) && (i == k) && (j == l)) ≡ false
    missed access i j k l e = elim (Bool-cases ((i == k) && (j == l))) [
      | inl h ↦
          let row : i ≡ k = ground arith in let column : j ≡ l = ground arith in rw (row, column, e)
      | inr h ↦ ground arith
    ]

module _ {ℓ} {A : Type ℓ} ⦃d : Double A⦄ (core : MemcpyOperation → List Transfer → Outcome A) where
  peer_step-Fills :
      (access : ℕ → ℕ → Bool) (n : ℕ) (op : MemcpyOperation) (readout : Readout)
      (copies : ℕ → ℕ → List Transfer) (h : Heap) (i j : ℕ)
      → i < n
      → j < n
      → same_sizes (copies i j) ≡ true
      → IsReadable core op readout (copies i j)
      → Fills h n n
          (outputs readout)
          (λ (k l : ℕ). measured core op readout (copies k l))
          (λ (k l : ℕ). (not (j == i) && access i j) && (i == k) && (j == l))
          (peer_step core access op readout copies i j)
  unfolding peer_step
  peer_step-Fills access n op readout copies h i j a b equal readable s sound =
      elim (Bool-cases (j == i)) [
        | inl e ↦ rw e (s, refl, sound, λ k l. refl)
        | inr e ↦ elim (Bool-cases (access i j)) [
          | inl g ↦
              rw (e, g)
                (measure_lem core h n n op readout (copies i j) i j
                  (λ (k l : ℕ). measured core op readout (copies k l)) a b equal readable refl s
                  sound)
          | inr g ↦
              let (h', e1, r) = without_copy_lem (copies i j) s.heap sound.restored.fresh in
              rw (e, g, e1)
                (
                  record s { heap = h' },
                  refl,
                  record {
                    restored = IsRestored-trans sound.restored r;
                    shapes = sound.shapes;
                    number = sound.number;
                  },
                  λ k l. refl,
                )
        ]
      ]

  peer_loop-Fills :
      (access : ℕ → ℕ → Bool) (n : ℕ) (op : MemcpyOperation) (readout : Readout)
      (copies : ℕ → ℕ → List Transfer) (h : Heap) (i : ℕ)
      → i < n
      → ((i j : ℕ) → same_sizes (copies i j) ≡ true)
      → ((i j : ℕ) → IsReadable core op readout (copies i j))
      → Fills h n n
          (outputs readout)
          (λ (k l : ℕ). measured core op readout (copies k l))
          (λ (k l : ℕ).
            any (λ (j : ℕ). (not (j == i) && access i j) && (i == k) && (j == l)) (indices 0 n))
          (for_all (peer_step core access op readout copies i) (indices 0 n))
  peer_loop-Fills access n op readout copies h i a equal readable =
      for_all_lem h n n (outputs readout) (λ (k l : ℕ). measured core op readout (copies k l))
        (λ (j k l : ℕ). (not (j == i) && access i j) && (i == k) && (j == l))
        (peer_step core access op readout copies i) (indices 0 n)
        (All-indices
          (λ (j : ℕ).
            Fills h n n (outputs readout) (λ (k l : ℕ). measured core op readout (copies k l))
              (λ (k l : ℕ). (not (j == i) && access i j) && (i == k) && (j == l))
              (peer_step core access op readout copies i j))
          0 n
          (λ j b.
            peer_step-Fills access n op readout copies h i j a (omega (arith, b)) (equal i j)
              (readable i j)))

  pub each_peer_lem :
      (access : ℕ → ℕ → Bool) (n : ℕ) (op : MemcpyOperation) (readout : Readout)
      (copies : ℕ → ℕ → List Transfer) (h : Heap)
      → IsFresh h
      → ((i j : ℕ) → same_sizes (copies i j) ≡ true)
      → ((i j : ℕ) → IsReadable core op readout (copies i j))
      → Leaves h n n
          (λ (k l : ℕ).
            if not (l == k) && access k l
            then measured core op readout (copies k l)
            else replicate (outputs readout) (some none))
          (each_peer core access n op readout copies h)
  unfolding each_peer
  each_peer_lem access n op readout copies h f equal readable =
      let (sound, empty) = start_lem h readout n n f in
      let (s, e, o, g) =
        for_all_lem h n n (outputs readout) (λ (k l : ℕ). measured core op readout (copies k l))
          (λ (i k l : ℕ).
            any (λ (j : ℕ). (not (j == i) && access i j) && (i == k) && (j == l)) (indices 0 n))
          (λ (i : ℕ). for_all (peer_step core access op readout copies i) (indices 0 n))
          (indices 0 n)
          (All-indices
            (λ (i : ℕ).
              Fills h n n (outputs readout) (λ (k l : ℕ). measured core op readout (copies k l))
                (λ (k l : ℕ).
                  any (λ (j : ℕ). (not (j == i) && access i j) && (i == k) && (j == l))
                    (indices 0 n))
                (for_all (peer_step core access op readout copies i) (indices 0 n)))
            0 n
            (λ i b.
              peer_loop-Fills access n op readout copies h i (omega (arith, b)) equal readable))
          (start readout n n h) sound in
      (s, e, o.restored, λ k l a b. g k l ∙ rw (reached access n k l a b, empty k l a b))
