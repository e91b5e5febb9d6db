-- ===== src/Testcase/Host/Ends.antt =====
-- The host test cases come to their end, and what they leave.
use nvbandwidth.Prelude.{ℕ, suc, ◌≡◌, ◌<◌, refl, true, some, List, [], ◌∷◌, arith}
use nvbandwidth.Double.{Double}
use nvbandwidth.Buffers.{Outcome, Transfer, MemcpyOperation, Heap, same_sizes}
use nvbandwidth.Buffers.Owned.{IsFresh}
use nvbandwidth.Buffers.Measured.{IsRestored}
use nvbandwidth.Testcase.{Run, first_value}
use nvbandwidth.Testcase.Stored.{cells, measured}
use nvbandwidth.Testcase.Answers.{Answers, values_of, IsReadable-first, same_sizes-interference}
use nvbandwidth.Testcase.Shapes.{Leaves, each_device_lem}
use nvbandwidth.Testcase.Host.{double_size, to_device, to_host}
use nvbandwidth.Testcase.Host.Plan.{
  HostTest, h2d_ce, d2h_ce, h2d_bidir_ce, d2h_bidir_ce, all_d2h_ce, all_d2h_bidir_ce, all_h2d_ce,
  all_h2d_bidir_ce, h2d_sm, d2h_sm, h2d_bidir_sm, d2h_bidir_sm, all_d2h_sm, all_d2h_bidir_sm,
  all_h2d_sm, all_h2d_bidir_sm, local_copy, host_operation, others, host_copies, run_host,
  run_host-eq-each_device,
}

-- The copies besides the reported one are between buffers of equal sizes.
same_sizes-others : (t : HostTest) (n size i : ℕ) → same_sizes (others t n size i) ≡ true
same_sizes-others all_d2h_ce n size i =
    same_sizes-interference (λ (j : ℕ). to_host (double_size size) j ∷ []) i 0 n (λ j. ground arith)
same_sizes-others all_d2h_bidir_ce n size i =
    same_sizes-interference
      (λ (j : ℕ). to_host (double_size size) j ∷ to_device (double_size size) j ∷ []) i 0 n
      (λ j. ground arith)
same_sizes-others all_h2d_ce n size i =
    same_sizes-interference (λ (j : ℕ). to_device (double_size size) j ∷ []) i 0 n
      (λ j. ground arith)
same_sizes-others all_h2d_bidir_ce n size i =
    same_sizes-interference
      (λ (j : ℕ). to_host (double_size size) j ∷ to_device (double_size size) j ∷ []) i 0 n
      (λ j. ground arith)
same_sizes-others all_d2h_sm n size i =
    same_sizes-interference (λ (j : ℕ). to_host (double_size size) j ∷ []) i 0 n (λ j. ground arith)
same_sizes-others all_d2h_bidir_sm n size i =
    same_sizes-interference (λ (j : ℕ). to_host size j ∷ []) i 0 n (λ j. ground arith)
same_sizes-others all_h2d_sm n size i =
    same_sizes-interference (λ (j : ℕ). to_device (double_size size) j ∷ []) i 0 n
      (λ j. ground arith)
same_sizes-others all_h2d_bidir_sm n size i =
    same_sizes-interference (λ (j : ℕ). to_host size j ∷ []) i 0 n (λ j. ground arith)
same_sizes-others h2d_ce n size i = refl
same_sizes-others d2h_ce n size i = refl
same_sizes-others h2d_bidir_ce n size i = refl
same_sizes-others d2h_bidir_ce n size i = refl
same_sizes-others h2d_sm n size i = refl
same_sizes-others d2h_sm n size i = refl
same_sizes-others h2d_bidir_sm n size i = refl
same_sizes-others d2h_bidir_sm n size i = refl
same_sizes-others local_copy n size i = refl

same_sizes-host_copies : (t : HostTest) (n size i : ℕ) → same_sizes (host_copies t n size i) ≡ true
same_sizes-host_copies t n size i =
    elim t
        as (λ (t : HostTest).
          same_sizes (others t n size i) ≡ true → same_sizes (host_copies t n size i) ≡ true) [
            | h2d_ce ↦ λ h. ground arith
            | d2h_ce ↦ λ h. ground arith
            | h2d_bidir_ce ↦ λ h. ground arith
            | d2h_bidir_ce ↦ λ h. ground arith
            | all_d2h_ce ↦ λ h. ground arith
            | all_d2h_bidir_ce ↦ λ h. ground arith
            | all_h2d_ce ↦ λ h. ground arith
            | all_h2d_bidir_ce ↦ λ h. ground arith
            | h2d_sm ↦ λ h. ground arith
            | d2h_sm ↦ λ h. ground arith
            | h2d_bidir_sm ↦ λ h. ground arith
            | d2h_bidir_sm ↦ λ h. ground arith
            | all_d2h_sm ↦ λ h. ground arith
            | all_d2h_bidir_sm ↦ λ h. ground arith
            | all_h2d_sm ↦ λ h. ground arith
            | all_h2d_bidir_sm ↦ λ h. ground arith
            | local_copy ↦ λ h. ground arith
          ]
      (same_sizes-others t n size i)

one_value : (t : HostTest) (k : ℕ) → 0 < values_of (host_operation t).bandwidth_value (suc k)
one_value h2d_ce k = omega arith
one_value d2h_ce k = omega arith
one_value h2d_bidir_ce k = omega arith
one_value d2h_bidir_ce k = omega arith
one_value all_d2h_ce k = omega arith
one_value all_d2h_bidir_ce k = omega arith
one_value all_h2d_ce k = omega arith
one_value all_h2d_bidir_ce k = omega arith
one_value h2d_sm k = omega arith
one_value d2h_sm k = omega arith
one_value h2d_bidir_sm k = omega arith
one_value d2h_bidir_sm k = omega arith
one_value all_d2h_sm k = omega arith
one_value all_d2h_bidir_sm k = omega arith
one_value all_h2d_sm k = omega arith
one_value all_h2d_bidir_sm k = omega arith
one_value local_copy k = omega arith

module _ {ℓ} {A : Type ℓ} ⦃d : Double A⦄ (core : MemcpyOperation → List Transfer → Outcome A) where
  pub run_host-Leaves :
      (t : HostTest) (n size : ℕ) (h : Heap)
      → ((i : ℕ) → Answers core (host_operation t) (host_copies t n size i))
      → IsFresh h
      → Leaves h 1 n
          (λ (k l : ℕ). measured core (host_operation t) first_value (host_copies t n size l))
          (run_host core t n size h)
  run_host-Leaves t n size h ans f = rw (run_host-eq-each_device core t n size h) (
      each_device_lem core n (host_operation t) (λ (i : ℕ). host_copies t n size i) h f
        (λ i. same_sizes-host_copies t n size i)
        (λ i.
          IsReadable-first core (host_operation t) (host_copies t n size i) (ans i)
            (one_value t _)))

-- A host test case on `n` devices comes to its end from a fresh heap, which it restores; the cell
-- of each device has what is measured for its first copy, while the other copies of the test case
-- are made on the same device and on each other one. The condition is that the measurements return,
-- with as many values as the operation asks for: no copy throws, and no comparison with a pattern
-- ends the process.
pub run_host_lem {ℓ} :
    {A : Type ℓ} ⦃d : Double A⦄ (core : MemcpyOperation → List Transfer → Outcome A) (t : HostTest)
    (n size device_id : ℕ) (h : Heap)
    → ((i : ℕ) → Answers core (host_operation t) (host_copies t n size i))
    → IsFresh h
    → device_id < n
    → (s : Run A) × (run_host core t n size h ≡ some s)
      × IsRestored h s.heap
      × (cells s.results 0 device_id
          ≡ measured core (host_operation t) first_value (host_copies t n size device_id))
run_host_lem core t n size i h ans f b =
    let (s, e, r, g) = run_host-Leaves core t n size h ans f in (s, e, r, g 0 i (omega arith) b)
