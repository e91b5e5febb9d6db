-- ===== src/Testcase/All.antt =====
-- All modelled test cases together, and runs of several of them: the list that `createNodeTestcases` of
-- nvbandwidth.cpp makes.
use nvbandwidth.Prelude.{ℕ, ◌≡◌, refl, Bool, true, Option, some, ◌>>=◌, List, [], ◌∷◌, All, map}
use nvbandwidth.Double.{Double}
use nvbandwidth.Pairs.{Shuffles, generate_test_pairs}
use nvbandwidth.Buffers.{sum_bw, vector_bw, Outcome, Transfer, MemcpyOperation, Heap}
use nvbandwidth.Buffers.Owned.{IsFresh}
use nvbandwidth.Buffers.Measured.{IsRestored}
use nvbandwidth.Testcase.{Run, indices}
use nvbandwidth.Testcase.Stored.{IsRestored-trans, IsRestored-self}
use nvbandwidth.Testcase.Answers.{Answers}
use nvbandwidth.Testcase.Host.Plan.{HostTest, host_operation, host_copies, run_host}
use nvbandwidth.Testcase.Host.Ends.{run_host-Leaves}
use nvbandwidth.Testcase.Peer.Ends.{
  PeerTest, peer_operation, peer_copies, run_peer, run_peer-Leaves,
}
use nvbandwidth.Testcase.Star.Runs.{StarTest, star_operation, is_source, run_star, run_star-Leaves}
use nvbandwidth.Initiator.{ce, multicast_write}
use nvbandwidth.Multinode.{prefer_src_context, prefer_dst_context}
use nvbandwidth.Testcase.Star.Collect.{reached}
use nvbandwidth.Testcase.Star.Spokes.{star_copies}
use nvbandwidth.Testcase.Multi.{
  multi_operation, broadcast_copy, multinode_broadcast_all_to_all_sm, multinode_bisect_write_ce,
}
use nvbandwidth.Testcase.Multi.OnPairs.{
  PairTest, pair_operation, pair_copies, run_pairs, is_target, run_pairs-Leaves,
}
use nvbandwidth.Testcase.Multi.Ends.{
  RankTest, rank_operation, rank_copies, run_ranks, run_ranks-Leaves, all_to_all-Leaves,
}
use nvbandwidth.Testcase.Multi.Bisect.{bisect_copies, bisect-restores}
use nvbandwidth.Testcase.Chase.{
  Chasing, host_device_latency_sm, host_device_bandwidth_sm, device_to_device_latency_sm,
}
use nvbandwidth.Testcase.Chase.Ends.{
  IsReady, IsSupported, host_device_latency_sm_lem, host_device_bandwidth_sm_lem,
}
use nvbandwidth.Testcase.Chase.Devices.{device_to_device_latency_sm_lem}

pub data Testcase : Type 0 where
  host_test : HostTest → Testcase
  peer_test : PeerTest → Testcase
  star_test : StarTest → Testcase
  pair_test : PairTest → Testcase
  rank_test : RankTest → Testcase
  broadcast_all_to_all : Testcase
  bisect : Testcase
  host_device_latency : Testcase
  host_device_bandwidth : Testcase
  device_to_device_latency : Testcase

-- What the test cases are run with; `device_count` is that of the ranks in a multinode test.
pub record Setting {ℓ} (A : Type ℓ) : Type ℓ where
  pub core : MemcpyOperation → List Transfer → Outcome A
  pub access : ℕ → ℕ → Bool
  pub device_count : ℕ
  pub world_size : ℕ
  pub shuffles : Shuffles
  pub target : Option ℕ
  pub size : ℕ
  pub loop_count : ℕ
  -- For the latency test cases, which have a size of their own.
  pub chasing : Chasing A

-- The bandwidth test case has the size of the other test cases.
abbrev pub bandwidth_chasing {ℓ} : {A : Type ℓ} → Setting A → Chasing A
bandwidth_chasing c = record c.chasing { size = c.size }

-- The test cases that chase pointers can be run.
pub record CanChase {ℓ} {A : Type ℓ} (c : Setting A) : Type 0 where
  pub for_latency : IsReady c.chasing
  pub for_bandwidth : IsReady (bandwidth_chasing c)
  pub supported : IsSupported (bandwidth_chasing c) c.device_count

module _ {ℓ} {A : Type ℓ} ⦃d : Double A⦄ (c : Setting A) where
  unfoldable pub run : Testcase → Heap → Option (Run A)
  run (host_test t) = run_host c.core t c.device_count c.size
  run (peer_test t) = run_peer c.core c.access t c.device_count c.size
  run (star_test t) = run_star c.core c.access t c.device_count c.size
  run (pair_test t) =
      run_pairs c.core t (generate_test_pairs c.shuffles c.world_size c.target) c.world_size c.size
  run (rank_test t) = run_ranks c.core t c.world_size c.size
  run broadcast_all_to_all = multinode_broadcast_all_to_all_sm c.core c.world_size c.size
  run bisect = multinode_bisect_write_ce c.core c.world_size c.size
  run host_device_latency = host_device_latency_sm c.chasing c.device_count c.loop_count
  run host_device_bandwidth =
      host_device_bandwidth_sm (bandwidth_chasing c) c.device_count c.loop_count
  run device_to_device_latency = device_to_device_latency_sm c.chasing c.access c.device_count

  -- The test cases of a list, one after the other, on one heap, as long as none is left early. What an
  -- exception leaves of the buffers, before `runTestcase` goes on to the next test case, is no part of
  -- this.
  unfoldable pub run_tests : List Testcase → Heap → Option Heap
  unfolding run
  run_tests [] h = some h
  run_tests (t ∷ ts) h = do s ← run t h; run_tests ts s.heap

  -- The measurements of a test case return.
  abbrev pub Returns : Testcase → Type ℓ
  Returns (host_test t) =
      (i : ℕ) → Answers c.core (host_operation t) (host_copies t c.device_count c.size i)
  Returns (peer_test t) = (i j : ℕ) → Answers c.core (peer_operation t) (peer_copies t c.size i j)
  Returns (star_test t) =
      (i : ℕ)
      → Answers c.core (star_operation t)
          (star_copies (is_source t) c.size i (reached c.access i (indices 0 c.device_count)))
  Returns (pair_test t) = (i j : ℕ) → Answers c.core (pair_operation t) (pair_copies t c.size i j)
  Returns (rank_test t) =
      (i : ℕ) → Answers c.core (rank_operation t) (rank_copies t c.world_size c.size i)
  Returns broadcast_all_to_all =
      Answers c.core (multi_operation multicast_write prefer_dst_context sum_bw)
        (map (broadcast_copy c.size) (indices 0 c.world_size))
  Returns bisect =
      Answers c.core (multi_operation ce prefer_src_context vector_bw)
        (bisect_copies c.world_size c.size)
  Returns _ = Unit

  run-restores :
      (t : Testcase) (h : Heap)
      → Returns t
      → IsFresh h
      → is_target c.world_size c.target ≡ true
      → CanChase c
      → (s : Run A) × (run t h ≡ some s) × IsRestored h s.heap
  unfolding run
  run-restores (host_test t) h ans f ok can =
      let (s, e, r, g) = run_host-Leaves c.core t c.device_count c.size h ans f in (s, e, r)
  run-restores (peer_test t) h ans f ok can =
      let (s, e, r, g) = run_peer-Leaves c.core c.access t c.device_count c.size h ans f in
      (s, e, r)
  run-restores (star_test t) h ans f ok can =
      let (s, e, r, g) = run_star-Leaves c.core c.access t c.device_count c.size h ans f in
      (s, e, r)
  run-restores (pair_test t) h ans f ok can =
      let (s, e, r, g) =
        run_pairs-Leaves c.core c.shuffles c.target t c.world_size c.size h ans f ok in
      (s, e, r)
  run-restores (rank_test t) h ans f ok can =
      let (s, e, r, g) = run_ranks-Leaves c.core t c.world_size c.size h ans f in (s, e, r)
  run-restores broadcast_all_to_all h ans f ok can =
      let (s, e, r, g) = all_to_all-Leaves c.core c.world_size c.size h ans f in (s, e, r)
  run-restores bisect h ans f ok can = bisect-restores c.core c.world_size c.size h ans f
  run-restores host_device_latency h ans f ok can =
      let (s, e, r, g) =
        host_device_latency_sm_lem c.chasing c.device_count c.loop_count h can.for_latency f in
      (s, e, r)
  run-restores host_device_bandwidth h ans f ok can =
      let (s, e, r, g) =
        host_device_bandwidth_sm_lem (bandwidth_chasing c) c.device_count c.loop_count h
          can.for_bandwidth can.supported f in
      (s, e, r)
  run-restores device_to_device_latency h ans f ok can =
      let (s, e, r, g) =
        device_to_device_latency_sm_lem c.chasing c.access c.device_count can.for_latency h f in
      (s, e, r)

-- Whatever test cases are run, in whatever order and however often, each comes to its end and the
-- heap ends with just the objects that it began with: no buffer is used after it is deleted,
-- deleted twice or left, and no copy is asked for between buffers of different sizes. The
-- conditions are that the heap is fresh, the target of pairs is an accepted one, and the
-- measurements of the test cases return, with as many values as their operations ask for: no copy
-- throws, and no comparison with a pattern ends the process. For the test cases that chase
-- pointers, the buffers have a node, at addresses that are not 0, the number of nodes and the
-- stride together are at most 2^64, and each device supports the width of the loads.
pub run_tests_lem {ℓ} :
    {A : Type ℓ} ⦃d : Double A⦄ (c : Setting A) (ts : List Testcase) (h : Heap)
    → All (Returns c) ts
    → IsFresh h
    → is_target c.world_size c.target ≡ true
    → CanChase c
    → (h' : Heap) × (run_tests c ts h ≡ some h') × IsRestored h h'
unfolding run_tests
run_tests_lem c [] h ans f ok can = (h, refl, IsRestored-self f)
run_tests_lem c (t ∷ ts) h (returns, rest) f ok can =
    let (s, e, r) = run-restores c t h returns f ok can in
    let (h', e', r') = run_tests_lem c ts s.heap rest r.fresh ok can in
    (h', rw e e', IsRestored-trans r r')
