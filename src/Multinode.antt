-- ===== src/Multinode.antt =====
-- multinode_memcpy.cpp: `NodeHelperMulti`, which spreads the copies over the processes and puts their
-- results together, seen from all ranks at once. MPI is a parameter. The primary context of a
-- multinode buffer is that of the local device, which is not null, so a copy runs on the rank of the
-- buffer that the preference names.
pub mod Gather
use nvbandwidth.Prelude.{ℕ, ◌+◌, ◌≡◌, Bool, List, [], ◌∷◌, map, ◌==◌, if◌then◌else◌}
use nvbandwidth.Double.{Double}
use nvbandwidth.Statistic.{at}

pub data ContextPreference : Type 0 where
  prefer_src_context : ContextPreference
  prefer_dst_context : ContextPreference

-- A source and a destination buffer, by the ranks that they were made for.
pub record Copy : Type 0 where
  pub src_rank : ℕ
  pub dst_rank : ℕ

pub rank_of : ContextPreference → Copy → ℕ
rank_of prefer_src_context c = c.src_rank
rank_of prefer_dst_context c = c.dst_rank

-- The second loop of `dispatchMemcpy`: the copies that a rank keeps.
pub keep : (world_rank : ℕ) → ContextPreference → List Copy → List Copy
unfolding rank_of
keep world_rank p [] = []
keep world_rank p (c ∷ cs) =
    let kept = keep world_rank p cs in if rank_of p c == world_rank then c ∷ kept else kept

-- `MemcpyDispatchInfo`, and `rankOfFirstMemcpy` of the helper.
pub record MemcpyDispatchInfo : Type 0 where
  pub copies : List Copy
  pub original_ranks : List ℕ
  pub rank_of_first_memcpy : ℕ

pub first_rank : (old : ℕ) → List ℕ → ℕ
first_rank old [] = old
first_rank old (r ∷ rs) = r

unfoldable pub dispatch_memcpy :
    (world_rank rank_of_first_memcpy : ℕ) → ContextPreference → List Copy → MemcpyDispatchInfo
unfolding keep rank_of first_rank
dispatch_memcpy world_rank old p cs = record {
  copies = keep world_rank p cs;
  original_ranks = map (rank_of p) cs;
  rank_of_first_memcpy = first_rank old (map (rank_of p) cs);
}

-- `MPI_Bcast`: after it, each rank's variable has the value that the root's had.
pub record Broadcast {ℓ} (A : Type ℓ) : Type ℓ where
  pub broadcast : (root : ℕ) → (ℕ → A) → ℕ → A
  pub broadcast_root :
      (root : ℕ) (buffer : ℕ → A) (rank : ℕ) → broadcast root buffer rank ≡ buffer root

module _ {ℓ} {A : Type ℓ} ⦃d : Double A⦄ (mpi : Broadcast A) where
  -- The loop of `calculateVectorBandwidth`, on all ranks: `current` is each rank's
  -- `current_local_elem`, and the list is what `rank` returns.
  pub gather : (results : ℕ → List A) (current : ℕ → ℕ) → List ℕ → (rank : ℕ) → List A
  gather results current [] rank = []
  gather results current (origin ∷ rest) rank =
      let tmp = λ (r : ℕ). if r == origin then at (results r) (current r) else d.zero_value in
      let next = λ (r : ℕ). if r == origin then current r + 1 else current r in
      mpi.broadcast origin tmp rank ∷ gather results next rest rank

  unfoldable pub calculate_vector_bandwidth :
      (results : ℕ → List A) → (original_ranks : List ℕ) → (rank : ℕ) → List A
  unfolding gather
  calculate_vector_bandwidth results original_ranks rank =
      gather results (λ (r : ℕ). 0) original_ranks rank

  -- `calculateFirstBandwidth`, from the metrics of each rank's copies.
  unfoldable pub calculate_first_bandwidth :
      (results : ℕ → List A) → (rank_of_first_memcpy rank : ℕ) → A
  calculate_first_bandwidth results first rank =
      mpi.broadcast first (λ (r : ℕ). if r == first then at (results r) 0 else d.zero_value) rank
