-- ===== src/Testcase/Multi/OnPairs.antt =====
-- The multinode test cases on the pairs of `generateTestPairs` come to their end, and what they leave.
use nvbandwidth.Prelude.{
  ℕ, ◌*◌, ◌-◌, ◌≡◌, ◌≤◌, ◌<◌, refl, Bool, true, Option, some, none, List, [], ◌∷◌, All, replicate,
  leb, if◌then◌else◌, arith, ==_self,
}
use nvbandwidth.Double.{Double}
use nvbandwidth.Initiator.{ce, sm}
use nvbandwidth.Multinode.{prefer_src_context, prefer_dst_context}
use nvbandwidth.Pairs.{Pair, holds, Shuffles, generate_test_pairs}
use nvbandwidth.Pairs.Count.{holds-times}
use nvbandwidth.Pairs.Selected.{generate_test_pairs_lem, generate_test_pairs-none}
use nvbandwidth.Buffers.{
  Outcome, Transfer, use_first_bw, vector_bw, MemcpyOperation, Heap, same_sizes,
}
use nvbandwidth.Buffers.Owned.{IsFresh}
use nvbandwidth.Testcase.{Readout, first_value, both_values, outputs, Run, each_pair}
use nvbandwidth.Testcase.Stored.{IsReadable, measured}
use nvbandwidth.Testcase.Answers.{Answers, IsReadable-first, IsReadable-both}
use nvbandwidth.Testcase.Shapes.{Leaves, each_pair_lem}
use nvbandwidth.Testcase.Multi.{
  multi_operation, between_ranks, multinode_read_ce, multinode_write_ce, multinode_bidir_read_ce,
  multinode_bidir_write_ce, multinode_read_sm, multinode_write_sm, multinode_bidir_read_sm,
  multinode_bidir_write_sm,
}

All-holds {κ} :
    (P : Pair → Type κ) (ps : List Pair) → ((p : Pair) → holds ps p ≡ true → P p) → All P ps
All-holds P [] f = tt
All-holds P (p ∷ ps) f =
    (f p (ground (arith, ==_self p.0, ==_self p.1)), All-holds P ps (λ q h. f q (ground arith)))

-- `main` accepts no greater target.
abbrev pub is_target : (world_size : ℕ) → Option ℕ → Bool
is_target n none = true
is_target n (some target) = leb target (n * (n - 1))

holds-inside :
    (shuffles : Shuffles) (n : ℕ) (target : Option ℕ) (p : Pair)
    → is_target n target ≡ true
    → holds (generate_test_pairs shuffles n target) p ≡ true
    → (p.0 < n) × (p.1 < n)
holds-inside shuffles n none p t h =
    let (number, once) = generate_test_pairs-none shuffles n p in
    ground (arith, holds-times p (generate_test_pairs shuffles n none))
holds-inside shuffles n (some target) p t h =
    let small : target ≤ n * (n - 1) = ground arith in
    let (number, once) = generate_test_pairs_lem shuffles n target p small in
    ground (arith, holds-times p (generate_test_pairs shuffles n (some target)))

-- The test cases of this module.
pub data PairTest : Type 0 where
  read_ce : PairTest
  write_ce : PairTest
  bidir_read_ce : PairTest
  bidir_write_ce : PairTest
  read_sm : PairTest
  write_sm : PairTest
  bidir_read_sm : PairTest
  bidir_write_sm : PairTest

-- The operation, what is read out, and the copies between the rank of the row and that of the column.
abbrev pub pair_operation : PairTest → MemcpyOperation
pair_operation read_ce = multi_operation ce prefer_dst_context use_first_bw
pair_operation write_ce = multi_operation ce prefer_src_context use_first_bw
pair_operation bidir_read_ce = multi_operation ce prefer_dst_context vector_bw
pair_operation bidir_write_ce = multi_operation ce prefer_src_context vector_bw
pair_operation read_sm = multi_operation sm prefer_dst_context use_first_bw
pair_operation write_sm = multi_operation sm prefer_src_context use_first_bw
pair_operation bidir_read_sm = multi_operation sm prefer_dst_context vector_bw
pair_operation bidir_write_sm = multi_operation sm prefer_src_context vector_bw

abbrev pub pair_readout : PairTest → Readout
pair_readout read_ce = first_value
pair_readout write_ce = first_value
pair_readout read_sm = first_value
pair_readout write_sm = first_value
pair_readout _ = both_values

abbrev pub pair_copies : PairTest → (size row column : ℕ) → List Transfer
pair_copies read_ce size k l = between_ranks size l k ∷ []
pair_copies read_sm size k l = between_ranks size l k ∷ []
pair_copies write_ce size k l = between_ranks size k l ∷ []
pair_copies write_sm size k l = between_ranks size k l ∷ []
pair_copies bidir_read_ce size k l = between_ranks size l k ∷ between_ranks size k l ∷ []
pair_copies bidir_read_sm size k l = between_ranks size l k ∷ between_ranks size k l ∷ []
pair_copies bidir_write_ce size k l = between_ranks size k l ∷ between_ranks size l k ∷ []
pair_copies bidir_write_sm size k l = between_ranks size k l ∷ between_ranks size l k ∷ []

module _ {ℓ} {A : Type ℓ} ⦃d : Double A⦄ (core : MemcpyOperation → List Transfer → Outcome A) where
  -- The `run` of each test case.
  unfoldable pub run_pairs :
      PairTest → (pairs : List Pair) → (world_size size : ℕ) → Heap → Option (Run A)
  run_pairs read_ce ps n size = multinode_read_ce core ps n size
  run_pairs write_ce ps n size = multinode_write_ce core ps n size
  run_pairs bidir_read_ce ps n size = multinode_bidir_read_ce core ps n size
  run_pairs bidir_write_ce ps n size = multinode_bidir_write_ce core ps n size
  run_pairs read_sm ps n size = multinode_read_sm core ps n size
  run_pairs write_sm ps n size = multinode_write_sm core ps n size
  run_pairs bidir_read_sm ps n size = multinode_bidir_read_sm core ps n size
  run_pairs bidir_write_sm ps n size = multinode_bidir_write_sm core ps n size

  run_pairs-eq-each_pair :
      (t : PairTest) (ps : List Pair) (n size : ℕ) (h : Heap)
      → run_pairs t ps n size h
        ≡ each_pair core ps n (pair_operation t) (pair_readout t) (pair_copies t size) h
  unfolding run_pairs multinode_read_ce multinode_write_ce multinode_bidir_read_ce
      multinode_bidir_write_ce multinode_read_sm multinode_write_sm multinode_bidir_read_sm
      multinode_bidir_write_sm
  run_pairs-eq-each_pair read_ce ps n size h = refl
  run_pairs-eq-each_pair write_ce ps n size h = refl
  run_pairs-eq-each_pair bidir_read_ce ps n size h = refl
  run_pairs-eq-each_pair bidir_write_ce ps n size h = refl
  run_pairs-eq-each_pair read_sm ps n size h = refl
  run_pairs-eq-each_pair write_sm ps n size h = refl
  run_pairs-eq-each_pair bidir_read_sm ps n size h = refl
  run_pairs-eq-each_pair bidir_write_sm ps n size h = refl

  same_sizes-pair_copies :
      (t : PairTest) (size k l : ℕ) → same_sizes (pair_copies t size k l) ≡ true
  same_sizes-pair_copies read_ce size k l = ground arith
  same_sizes-pair_copies write_ce size k l = ground arith
  same_sizes-pair_copies bidir_read_ce size k l = ground arith
  same_sizes-pair_copies bidir_write_ce size k l = ground arith
  same_sizes-pair_copies read_sm size k l = ground arith
  same_sizes-pair_copies write_sm size k l = ground arith
  same_sizes-pair_copies bidir_read_sm size k l = ground arith
  same_sizes-pair_copies bidir_write_sm size k l = ground arith

  IsReadable-pair :
      (t : PairTest) (size k l : ℕ)
      → Answers core (pair_operation t) (pair_copies t size k l)
      → IsReadable core (pair_operation t) (pair_readout t) (pair_copies t size k l)
  IsReadable-pair read_ce size k l ans = IsReadable-first core _ _ ans (omega arith)
  IsReadable-pair write_ce size k l ans = IsReadable-first core _ _ ans (omega arith)
  IsReadable-pair bidir_read_ce size k l ans = IsReadable-both core _ _ ans refl
  IsReadable-pair bidir_write_ce size k l ans = IsReadable-both core _ _ ans refl
  IsReadable-pair read_sm size k l ans = IsReadable-first core _ _ ans (omega arith)
  IsReadable-pair write_sm size k l ans = IsReadable-first core _ _ ans (omega arith)
  IsReadable-pair bidir_read_sm size k l ans = IsReadable-both core _ _ ans refl
  IsReadable-pair bidir_write_sm size k l ans = IsReadable-both core _ _ ans refl

  pub run_pairs-Leaves :
      (shuffles : Shuffles) (target : Option ℕ) (t : PairTest) (n size : ℕ) (h : Heap)
      → ((i j : ℕ) → Answers core (pair_operation t) (pair_copies t size i j))
      → IsFresh h
      → is_target n target ≡ true
      → let ps = generate_test_pairs shuffles n target in
        Leaves h n n
          (λ (k l : ℕ).
            if holds ps (k, l)
            then measured core (pair_operation t) (pair_readout t) (pair_copies t size k l)
            else replicate (outputs (pair_readout t)) (some none))
          (run_pairs t ps n size h)
  run_pairs-Leaves shuffles target t n size h ans f ok =
      let ps = generate_test_pairs shuffles n target in
      rw (run_pairs-eq-each_pair t ps n size h) (
        each_pair_lem core ps n (pair_operation t) (pair_readout t) (pair_copies t size) h f
          (All-holds (λ (p : Pair). (p.0 < n) × (p.1 < n)) ps
            (λ p g. holds-inside shuffles n target p ok g))
          (λ i j. same_sizes-pair_copies t size i j) (λ i j. IsReadable-pair t size i j (ans i j)))
