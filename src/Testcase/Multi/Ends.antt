-- ===== src/Testcase/Multi/Ends.antt =====
-- The multinode test cases of all ranks come to their end, and what they leave.
use nvbandwidth.Prelude.{
  ℕ, zero, suc, ◌≡◌, ◌<◌, refl, ap, ◌∙◌, true, ◌&&◌, Option, some, List, [], ◌∷◌, map, length, ◌==◌,
  arith,
}
use nvbandwidth.Double.{Double}
use nvbandwidth.Initiator.{sm, multicast_write}
use nvbandwidth.Multinode.{prefer_src_context, prefer_dst_context}
use nvbandwidth.Buffers.{Outcome, Transfer, sum_bw, MemcpyOperation, Heap, same_sizes}
use nvbandwidth.Buffers.Owned.{IsFresh}
use nvbandwidth.Buffers.Measured.{IsRestored}
use nvbandwidth.Testcase.{first_value, indices, Run, each_device, start}
use nvbandwidth.Testcase.Stored.{IsReadable, cells, measured, measure_lem, start_lem}
use nvbandwidth.Testcase.Answers.{Answers, IsReadable-first, same_sizes-interference}
use nvbandwidth.Testcase.Shapes.{Leaves, each_device_lem}
use nvbandwidth.Testcase.Host.{interference}
use nvbandwidth.Testcase.Multi.{
  multi_operation, unicast_buffer, local_buffer, broadcast_copy, multinode_all_to_one_write_sm,
  multinode_all_from_one_read_sm, multinode_broadcast_one_to_all_sm,
  multinode_broadcast_all_to_all_sm,
}

-- The test cases with a result for each rank.
pub data RankTest : Type 0 where
  all_to_one_write : RankTest
  all_from_one_read : RankTest
  broadcast_one_to_all : RankTest

abbrev pub rank_operation : RankTest → MemcpyOperation
rank_operation all_to_one_write = multi_operation sm prefer_src_context sum_bw
rank_operation all_from_one_read = multi_operation sm prefer_dst_context sum_bw
rank_operation broadcast_one_to_all = multi_operation multicast_write prefer_dst_context sum_bw

-- The copies that are made at the same time for a rank.
abbrev pub rank_copies : RankTest → (world_size size rank : ℕ) → List Transfer
rank_copies all_to_one_write n size i =
    interference (λ (j : ℕ). (local_buffer size j, unicast_buffer size i) ∷ []) i 0 n
rank_copies all_from_one_read n size i =
    interference (λ (j : ℕ). (unicast_buffer size i, local_buffer size j) ∷ []) i 0 n
rank_copies broadcast_one_to_all n size i = broadcast_copy size i ∷ []

same_sizes-rank_copies : (t : RankTest) (n size i : ℕ) → same_sizes (rank_copies t n size i) ≡ true
same_sizes-rank_copies all_to_one_write n size i =
    same_sizes-interference (λ (j : ℕ). (local_buffer size j, unicast_buffer size i) ∷ []) i 0 n
      (λ j. ground arith)
same_sizes-rank_copies all_from_one_read n size i =
    same_sizes-interference (λ (j : ℕ). (unicast_buffer size i, local_buffer size j) ∷ []) i 0 n
      (λ j. ground arith)
same_sizes-rank_copies broadcast_one_to_all n size i = ground arith

pub same_sizes-map :
    (copy : ℕ → Transfer) (from rounds : ℕ)
    → ((i : ℕ) → same_sizes (copy i ∷ []) ≡ true)
    → same_sizes (map copy (indices from rounds)) ≡ true
same_sizes-map copy from zero h = refl
same_sizes-map copy from (suc k) h = ground (arith, h from, same_sizes-map copy (suc from) k h)

pub length-map-indices :
    (copy : ℕ → Transfer) (from rounds : ℕ) → length (map copy (indices from rounds)) ≡ rounds
length-map-indices copy from zero = refl
length-map-indices copy from (suc k) = ap suc (length-map-indices copy (suc from) k)

module _ {ℓ} {A : Type ℓ} ⦃d : Double A⦄ (core : MemcpyOperation → List Transfer → Outcome A) where
  -- The `run` of each test case.
  unfoldable pub run_ranks : RankTest → (world_size size : ℕ) → Heap → Option (Run A)
  run_ranks all_to_one_write n size = multinode_all_to_one_write_sm core n size
  run_ranks all_from_one_read n size = multinode_all_from_one_read_sm core n size
  run_ranks broadcast_one_to_all n size = multinode_broadcast_one_to_all_sm core n size

  run_ranks-eq-each_device :
      (t : RankTest) (n size : ℕ) (h : Heap)
      → run_ranks t n size h
        ≡ each_device core n (rank_operation t) (λ (i : ℕ). rank_copies t n size i) h
  unfolding run_ranks multinode_all_to_one_write_sm multinode_all_from_one_read_sm
      multinode_broadcast_one_to_all_sm
  run_ranks-eq-each_device all_to_one_write n size h = refl
  run_ranks-eq-each_device all_from_one_read n size h = refl
  run_ranks-eq-each_device broadcast_one_to_all n size h = refl

  IsReadable-rank :
      (t : RankTest) (ts : List Transfer)
      → Answers core (rank_operation t) ts
      → IsReadable core (rank_operation t) first_value ts
  IsReadable-rank all_to_one_write ts ans = IsReadable-first core _ ts ans (omega arith)
  IsReadable-rank all_from_one_read ts ans = IsReadable-first core _ ts ans (omega arith)
  IsReadable-rank broadcast_one_to_all ts ans = IsReadable-first core _ ts ans (omega arith)

  pub run_ranks-Leaves :
      (t : RankTest) (n size : ℕ) (h : Heap)
      → ((i : ℕ) → Answers core (rank_operation t) (rank_copies t n size i))
      → IsFresh h
      → Leaves h 1 n
          (λ (k l : ℕ). measured core (rank_operation t) first_value (rank_copies t n size l))
          (run_ranks t n size h)
  run_ranks-Leaves t n size h ans f = rw (run_ranks-eq-each_device t n size h) (
      each_device_lem core n (rank_operation t) (λ (i : ℕ). rank_copies t n size i) h f
        (λ i. same_sizes-rank_copies t n size i)
        (λ i. IsReadable-rank t (rank_copies t n size i) (ans i)))

  pub all_to_all-Leaves :
      (n size : ℕ) (h : Heap)
      → Answers core
          (multi_operation multicast_write prefer_dst_context sum_bw)
          (map (broadcast_copy size) (indices 0 n))
      → IsFresh h
      → Leaves h 1 1
          (λ (k l : ℕ).
            measured core
              (multi_operation multicast_write prefer_dst_context sum_bw)
              first_value
              (map (broadcast_copy size) (indices 0 n)))
          (multinode_broadcast_all_to_all_sm core n size h)
  unfolding multinode_broadcast_all_to_all_sm
  all_to_all-Leaves n size h ans f =
      let op = multi_operation multicast_write prefer_dst_context sum_bw in
      let ts = map (broadcast_copy size) (indices 0 n) in
      let (sound, empty) = start_lem h first_value 1 1 f in
      let (s, e, o, g) =
        measure_lem core h 1 1 op first_value ts 0 0 (λ (k l : ℕ). measured core op first_value ts)
          (omega arith) (omega arith) (same_sizes-map (broadcast_copy size) 0 n (λ i. ground arith))
          (IsReadable-first core op ts ans (omega arith)) refl (start first_value 1 1 h) sound in
      (
        s,
        e,
        o.restored,
        λ k l a b. let hit : ((0 == k) && (0 == l)) ≡ true = ground arith in g k l ∙ rw hit,
      )

-- A multinode test case with a result for each rank comes to its end from a fresh heap, which it
-- restores; the cell of each rank has what is measured for its copies together. The condition is
-- that the measurements return, with as many values as the operation asks for: no copy throws, and
-- no comparison with a pattern ends the process.
pub run_ranks_lem {ℓ} :
    {A : Type ℓ} ⦃d : Double A⦄ (core : MemcpyOperation → List Transfer → Outcome A) (t : RankTest)
    (n size rank : ℕ) (h : Heap)
    → ((i : ℕ) → Answers core (rank_operation t) (rank_copies t n size i))
    → IsFresh h
    → rank < n
    → (s : Run A) × (run_ranks core t n size h ≡ some s)
      × IsRestored h s.heap
      × (cells s.results 0 rank
          ≡ measured core (rank_operation t) first_value (rank_copies t n size rank))
run_ranks_lem core t n size i h ans f b =
    let (s, e, r, g) = run_ranks-Leaves core t n size h ans f in (s, e, r, g 0 i (omega arith) b)
