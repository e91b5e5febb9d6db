-- ===== src/Pairs.antt =====
-- multinode_memcpy.cpp: `generateTestPairs`, the pairs of GPUs that the multinode tests copy between,
-- as rank 0 computes them on its first call. `std::shuffle` with its generator is a parameter. The
-- set of the selected pairs has the same elements as their list, which stands for both; the numbers of
-- pairs are within the range of int.
pub mod Count
pub mod Valid
pub mod Found
pub mod Selected
pub mod Covered
pub mod Exchange
use mathlib.Core.List.{Permᴰ}
use nvbandwidth.Prelude.{
  ℕ, zero, suc, ◌+◌, ◌-◌, ◌*◌, Bool, true, false, not, ◌&&◌, ◌||◌, List, [], ◌∷◌, ◌++◌, length, any,
  min, Option, none, some, ◌==◌, ltb, leb, if◌then◌else◌,
}

-- The source and the peer device.
abbrev pub Pair : Type 0
Pair = ℕ × ℕ

abbrev pub same : Pair → Pair → Bool
same p q = (p.0 == q.0) && (p.1 == q.1)

-- Whether `selectedPairsSet` holds the pair.
abbrev pub holds : List Pair → Pair → Bool
holds ps p = any (same p) ps

-- The inner and the outer loop over the devices; the last argument counts the rounds.
unfoldable pub peers : (src_device peer_device rounds : ℕ) → List Pair
peers src peer zero = []
peers src peer (suc k) =
    let rest = peers src (suc peer) k in if peer == src then rest else (src, peer) ∷ rest

unfoldable pub sources : (world_size src_device rounds : ℕ) → List Pair
unfolding peers
sources world_size src zero = []
sources world_size src (suc k) = peers src 0 world_size ++ sources world_size (suc src) k

unfoldable pub valid_pairs : (world_size : ℕ) → List Pair
unfolding sources
valid_pairs world_size = sources world_size 0 world_size

-- `gpuOrder` before it is shuffled.
pub devices : (from rounds : ℕ) → List ℕ
devices from zero = []
devices from (suc k) = from ∷ devices (suc from) k

-- The three shuffles, each of which permutes.
pub record Shuffles : Type 0 where
  pub all_pairs : List Pair → List Pair
  pub all_pairs_perm : (ps : List Pair) → Permᴰ (all_pairs ps) ps
  pub gpu_order : List ℕ → List ℕ
  pub gpu_order_perm : (gs : List ℕ) → Permᴰ (gpu_order gs) gs
  pub remaining : List Pair → List Pair
  pub remaining_perm : (ps : List Pair) → Permᴰ (remaining ps) ps

-- `selectedPairs` and `gpuIncluded`.
pub record Selection : Type 0 where
  pub selected : List Pair
  pub included : ℕ → Bool

-- The search for a pair that includes the GPU; `room` says that the target is not yet reached.
unfoldable pub find_pair : (room : Bool) (selected : List Pair) (gpu : ℕ) → List Pair → Option Pair
find_pair room selected gpu [] = none
find_pair room selected gpu (p ∷ ps) =
    let later = find_pair room selected gpu ps in
    if ((p.0 == gpu) || (p.1 == gpu)) && room
    then if holds selected p then later else some p
    else later

unfoldable pub visit : (target : ℕ) → List Pair → (gpu : ℕ) → Selection → Selection
unfolding find_pair
visit target all gpu s =
    if s.included gpu
    then s
    else elim (find_pair (ltb (length s.selected) target) s.selected gpu all) [
      | none ↦ s
      | some p ↦ record {
        selected = s.selected ++ p ∷ [];
        included = λ g. if (g == p.0) || (g == p.1) then true else s.included g;
      }
    ]

-- The first pass, which a full selection breaks off.
unfoldable pub first_pass : (target : ℕ) → List Pair → List ℕ → Selection → Selection
unfolding visit
first_pass target all [] s = s
first_pass target all (gpu ∷ gpus) s =
    let next = first_pass target all gpus (visit target all gpu s) in
    if leb target (length s.selected) then s else next

unfoldable pub without : (selected : List Pair) → List Pair → List Pair
without selected [] = []
without selected (p ∷ ps) =
    let rest = without selected ps in if holds selected p then rest else p ∷ rest

unfoldable pub first_of : ℕ → List Pair → List Pair
first_of zero ps = []
first_of (suc n) [] = []
first_of (suc n) (p ∷ ps) = p ∷ first_of n ps

-- The second pass; adding no pairs when the selection is full is what the source does by its test.
unfoldable pub second_pass : Shuffles → (target : ℕ) → List Pair → List Pair → List Pair
unfolding without first_of
second_pass shuffles target all selected =
    if ltb (length selected) target
    then (let rest = shuffles.remaining (without selected all) in
        selected ++ first_of (min (target - length selected) (length rest)) rest)
    else selected

-- `generateTestPairs`; no target is -1, all pairs. `main` rejects what is below.
unfoldable pub generate_test_pairs : Shuffles → (world_size : ℕ) → Option ℕ → List Pair
unfolding valid_pairs devices first_pass second_pass
generate_test_pairs shuffles world_size none = shuffles.all_pairs (valid_pairs world_size)
generate_test_pairs shuffles world_size (some target) =
    let all = shuffles.all_pairs (valid_pairs world_size) in
    let start : Selection = record { selected = []; included = λ g. false } in
    let order = shuffles.gpu_order (devices 0 world_size) in
    if target == 0
    then []
    else if ltb target (world_size * (world_size - 1))
    then second_pass shuffles target all (first_pass target all order start).selected
    else all
