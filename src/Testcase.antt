-- ===== src/Testcase.antt =====
-- testcase.cpp, testcases_ce.cpp, testcases_sm.cpp and multinode_testcases.cpp: the loops in which the
-- test cases make buffers, measure copies between them and put the results in matrices. How a
-- measurement ends is an argument; `none` stands for a test case that is left early, by an ASSERT that
-- ends the process or by an exception, and for what a program must not do with its heap. The children
-- have the test cases, by the shape of their loops.
pub mod Stored
pub mod Loops
pub mod Answers
pub mod Filled
pub mod Shapes
pub mod Grid
pub mod Host
pub mod Peer
pub mod Multi
pub mod Star
pub mod Chase
pub mod All
use nvbandwidth.Prelude.{
  ℕ, zero, suc, Bool, Option, none, some, ◌>>=◌, List, [], ◌∷◌, replicate, get_elem?, ◌==◌,
  if◌then◌else◌,
}
use nvbandwidth.Double.{Double}
use nvbandwidth.Matrix.{PeerValueMatrix, new_matrix, assign}
use nvbandwidth.Buffers.{Outcome, Transfer, MemcpyOperation, Heap, with_buffers, without_copy}

-- The values of a counter that starts at `from`, for each of the rounds of its loop.
abbrev pub indices : (from rounds : ℕ) → List ℕ
indices from zero = []
indices from (suc k) = from ∷ indices (suc from) k

-- A loop whose body may end the process.
unfoldable pub for_all {ℓ κ} :
    {A : Type ℓ} {S : Type κ} → (body : A → S → Option S) → List A → S → Option S
for_all body [] s = some s
for_all body (x ∷ xs) s = do s' ← body x s; for_all body xs s'

-- What a test case keeps of a measurement: the first value, or the first two and their sum.
pub data Readout : Type 0 where
  first_value : Readout
  both_values : Readout

-- The number of matrices that this takes.
abbrev pub outputs : Readout → ℕ
outputs first_value = 1
outputs both_values = 3

-- The heap, and the matrices of the test case.
pub record Run {ℓ} (A : Type ℓ) : Type ℓ where
  pub heap : Heap
  pub results : List (PeerValueMatrix A)

module _ {ℓ} {A : Type ℓ} where
  -- Assignments of values to the same cell of one matrix each.
  unfoldable pub store_all :
      (row column : ℕ) → List A → List (PeerValueMatrix A) → Option (List (PeerValueMatrix A))
  store_all row column [] ms = some ms
  store_all row column (v ∷ vs) [] = none
  store_all row column (v ∷ vs) (m ∷ ms) = do
    m' ← assign m row column v
    ms' ← store_all row column vs ms
    some (m' ∷ ms')

  -- The matrices that a test case starts with.
  unfoldable pub start : Readout → (rows columns : ℕ) → Heap → Run A
  start readout rows columns h = record {
    heap = h;
    results = replicate (outputs readout) (new_matrix rows columns);
  }

module _ {ℓ} {A : Type ℓ} ⦃d : Double A⦄ where
  unfoldable pub readings : Readout → List A → Option (List A)
  readings first_value vs = do v ← get_elem? vs 0; some (v ∷ [])
  readings both_values vs = do v ← get_elem? vs 0; w ← get_elem? vs 1; some (v ∷ w ∷ d.add v w ∷ [])

  module _ (core : MemcpyOperation → List Transfer → Outcome A) where
    -- A measurement whose values go to one cell.
    unfoldable pub measure :
        MemcpyOperation → Readout → List Transfer → (row column : ℕ) → Run A → Option (Run A)
    unfolding store_all
    measure op readout ts row column s = do
      measured ← with_buffers core op ts s.heap
      vs ← readings readout measured.0
      ms ← store_all row column vs s.results
      some (record { heap = measured.1; results = ms })

    -- The loop over the devices, or the ranks, with a matrix of one row.
    unfoldable pub each_device :
        (device_count : ℕ) → MemcpyOperation → (copies : ℕ → List Transfer) → Heap → Option (Run A)
    unfolding for_all measure start
    each_device device_count op copies h =
        for_all (λ (device : ℕ). measure op first_value (copies device) 0 device)
          (indices 0 device_count) (start first_value 1 device_count h)

    -- The body of the inner loop over two devices. The buffers are made before their devices are asked
    -- for peer access.
    unfoldable pub peer_step :
        (access : ℕ → ℕ → Bool)
        → MemcpyOperation
        → Readout
        → (copies : (src_device peer_device : ℕ) → List Transfer) → (src_device peer_device : ℕ)
        → Run A
        → Option (Run A)
    unfolding measure
    peer_step access op readout copies src peer s =
        if peer == src
        then some s
        else if access src peer
        then measure op readout (copies src peer) src peer s
        else (do h ← without_copy (copies src peer) s.heap; some (record s { heap = h }))

    unfoldable pub each_peer :
        (access : ℕ → ℕ → Bool)
        → (device_count : ℕ) → MemcpyOperation
        → Readout
        → (copies : (src_device peer_device : ℕ) → List Transfer) → Heap
        → Option (Run A)
    unfolding for_all peer_step start
    each_peer access device_count op readout copies h =
        for_all
          (λ (src : ℕ). for_all (peer_step access op readout copies src) (indices 0 device_count))
          (indices 0 device_count) (start readout device_count device_count h)

    -- The loop over the pairs of ranks of a multinode test.
    unfoldable pub each_pair :
        (pairs : List (ℕ × ℕ))
        → (world_size : ℕ) → MemcpyOperation
        → Readout
        → (copies : (src_device peer_device : ℕ) → List Transfer) → Heap
        → Option (Run A)
    unfolding for_all measure start
    each_pair pairs world_size op readout copies h =
        for_all (λ (p : ℕ × ℕ). measure op readout (copies p.0 p.1) p.0 p.1) pairs
          (start readout world_size world_size h)
