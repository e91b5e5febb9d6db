-- ===== src/Testcase/Multi.antt =====
-- multinode_testcases.cpp: the test cases of a multinode run, each the `run` of the class of its name,
-- as one rank goes through it. The ranks take the part of the devices; the pairs are those of
-- `generateTestPairs`.
pub mod OnPairs
pub mod Ends
pub mod Bisect
use nvbandwidth.Prelude.{
  ℕ, zero, suc, ◌+◌, ◌/◌, ◌%◌, Bool, true, Option, ◌>>=◌, some, none, List, [], ◌∷◌, map, ◌==◌,
  if◌then◌else◌,
}
use nvbandwidth.Double.{Double}
use nvbandwidth.Initiator.{Initiator, ce, sm, multicast_write}
use nvbandwidth.Multinode.{ContextPreference, prefer_src_context, prefer_dst_context}
use nvbandwidth.Matrix.{PeerValueMatrix, new_matrix, assign}
use nvbandwidth.Buffers.{
  Outcome, Buffer, multinode_unicast, multinode_multicast, multinode_local, Transfer,
  BandwidthValue, use_first_bw, sum_bw, vector_bw, MemcpyOperation, Heap, with_buffers,
}
use nvbandwidth.Testcase.{
  Run, first_value, both_values, indices, start, measure, each_device, each_pair,
}
use nvbandwidth.Testcase.Host.{interference}

-- A memcpy operation with `NodeHelperMulti`.
abbrev pub multi_operation : Initiator → ContextPreference → BandwidthValue → MemcpyOperation
multi_operation initiator preference value = record {
  memcpy_initiator = initiator;
  multinode = true;
  ctx_preference = preference;
  bandwidth_value = value;
}

abbrev pub unicast_buffer : (size rank : ℕ) → Buffer
unicast_buffer size rank = record { kind = multinode_unicast; buffer_size = size; owner = rank }

abbrev pub multicast_buffer : (size rank : ℕ) → Buffer
multicast_buffer size rank = record { kind = multinode_multicast; buffer_size = size; owner = rank }

abbrev pub local_buffer : (size rank : ℕ) → Buffer
local_buffer size rank = record { kind = multinode_local; buffer_size = size; owner = rank }

abbrev pub between_ranks : (size from to : ℕ) → Transfer
between_ranks size i j = (unicast_buffer size i, unicast_buffer size j)

abbrev pub broadcast_copy : (size rank : ℕ) → Transfer
broadcast_copy size i = (local_buffer size i, multicast_buffer size i)

-- The rank half the world away.
abbrev pub opposite : (world_size rank : ℕ) → ℕ
opposite world_size i = (i + world_size / 2) % world_size

-- The loop over the results of all copies.
unfoldable pub store_column {ℓ} :
    {A : Type ℓ} → (row : ℕ) → List A → PeerValueMatrix A → Option (PeerValueMatrix A)
store_column row [] m = some m
store_column row (v ∷ vs) m = do m' ← assign m row 0 v; store_column (suc row) vs m'

module _ {ℓ} {A : Type ℓ} ⦃d : Double A⦄ (core : MemcpyOperation → List Transfer → Outcome A)
    (pairs : List (ℕ × ℕ)) (world_size size : ℕ) where
  unfoldable pub multinode_read_ce : Heap → Option (Run A)
  unfolding each_pair
  multinode_read_ce =
      each_pair core pairs world_size (multi_operation ce prefer_dst_context use_first_bw)
        first_value (λ (src peer : ℕ). between_ranks size peer src ∷ [])

  unfoldable pub multinode_write_ce : Heap → Option (Run A)
  unfolding each_pair
  multinode_write_ce =
      each_pair core pairs world_size (multi_operation ce prefer_src_context use_first_bw)
        first_value (λ (src peer : ℕ). between_ranks size src peer ∷ [])

  unfoldable pub multinode_bidir_read_ce : Heap → Option (Run A)
  unfolding each_pair
  multinode_bidir_read_ce =
      each_pair core pairs world_size (multi_operation ce prefer_dst_context vector_bw) both_values
        (λ (src peer : ℕ). between_ranks size peer src ∷ between_ranks size src peer ∷ [])

  unfoldable pub multinode_bidir_write_ce : Heap → Option (Run A)
  unfolding each_pair
  multinode_bidir_write_ce =
      each_pair core pairs world_size (multi_operation ce prefer_src_context vector_bw) both_values
        (λ (src peer : ℕ). between_ranks size src peer ∷ between_ranks size peer src ∷ [])

  unfoldable pub multinode_read_sm : Heap → Option (Run A)
  unfolding each_pair
  multinode_read_sm =
      each_pair core pairs world_size (multi_operation sm prefer_dst_context use_first_bw)
        first_value (λ (src peer : ℕ). between_ranks size peer src ∷ [])

  unfoldable pub multinode_write_sm : Heap → Option (Run A)
  unfolding each_pair
  multinode_write_sm =
      each_pair core pairs world_size (multi_operation sm prefer_src_context use_first_bw)
        first_value (λ (src peer : ℕ). between_ranks size src peer ∷ [])

  unfoldable pub multinode_bidir_read_sm : Heap → Option (Run A)
  unfolding each_pair
  multinode_bidir_read_sm =
      each_pair core pairs world_size (multi_operation sm prefer_dst_context vector_bw) both_values
        (λ (src peer : ℕ). between_ranks size peer src ∷ between_ranks size src peer ∷ [])

  unfoldable pub multinode_bidir_write_sm : Heap → Option (Run A)
  unfolding each_pair
  multinode_bidir_write_sm =
      each_pair core pairs world_size (multi_operation sm prefer_src_context vector_bw) both_values
        (λ (src peer : ℕ). between_ranks size src peer ∷ between_ranks size peer src ∷ [])

module _ {ℓ} {A : Type ℓ} ⦃d : Double A⦄ (core : MemcpyOperation → List Transfer → Outcome A)
    (world_size size : ℕ) where
  unfoldable pub multinode_all_to_one_write_sm : Heap → Option (Run A)
  unfolding each_device interference
  multinode_all_to_one_write_sm =
      each_device core world_size (multi_operation sm prefer_src_context sum_bw) (λ (dst : ℕ).
        interference (λ (src : ℕ). (local_buffer size src, unicast_buffer size dst) ∷ []) dst 0
          world_size)

  unfoldable pub multinode_all_from_one_read_sm : Heap → Option (Run A)
  unfolding each_device interference
  multinode_all_from_one_read_sm =
      each_device core world_size (multi_operation sm prefer_dst_context sum_bw) (λ (src : ℕ).
        interference (λ (dst : ℕ). (unicast_buffer size src, local_buffer size dst) ∷ []) src 0
          world_size)

  unfoldable pub multinode_broadcast_one_to_all_sm : Heap → Option (Run A)
  unfolding each_device
  multinode_broadcast_one_to_all_sm =
      each_device core world_size (multi_operation multicast_write prefer_dst_context sum_bw)
        (λ (dst : ℕ). broadcast_copy size dst ∷ [])

  unfoldable pub multinode_broadcast_all_to_all_sm : Heap → Option (Run A)
  unfolding measure start
  multinode_broadcast_all_to_all_sm h =
      measure core (multi_operation multicast_write prefer_dst_context sum_bw) first_value
        (map (broadcast_copy size) (indices 0 world_size)) 0 0 (start first_value 1 1 h)

  -- The vector of destinations is handed over as that of the sources.
  unfoldable pub multinode_bisect_write_ce : Heap → Option (Run A)
  unfolding with_buffers store_column
  multinode_bisect_write_ce h = do
    measured ←
        with_buffers core (multi_operation ce prefer_src_context vector_bw)
          (map (λ (i : ℕ). between_ranks size (opposite world_size i) i) (indices 0 world_size)) h
    m ← store_column 0 measured.0 (new_matrix world_size 1)
    some (record { heap = measured.1; results = m ∷ [] })
