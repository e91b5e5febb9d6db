-- ===== src/Chase/Bandwidth.antt =====
-- kernels.cu and memcpy.cpp: `ptrChasingBandwidthKernel`, `bandwidthPtrChaseKernel` and
-- `MemPtrChaseBandwidthOperation`. The times that CUDA measures, the number of multiprocessors and the
-- compute capability are arguments, and so is the double 1e-9; `none` stands for the trap of a kernel.
pub mod Safe
use nvbandwidth.Prelude.{
  ℕ, zero, suc, ◌+◌, ◌*◌, ◌/◌, ◌%◌, ◌^◌, ◌≤◌, ◌<◌, ◌≡◌, refl, sym, ap, ◌∙◌, arith, max, bit_xor,
  ◌==◌, ltb, Bool, true, false, if◌then◌else◌, Option, none, some, ◌>>=◌, List, [], ◌∷◌, map,
  run_all, ◌&&◌,
}
use native.Mathlib.Nat.{mod-lt}
use nvbandwidth.Config.{u32_mod, u64_mod}
use nvbandwidth.Double.{Double}
use nvbandwidth.Statistic.{record_sample, record_all, return_appropriate_metric}
use nvbandwidth.Operation.{nano}
use nvbandwidth.Testcase.{indices}
use nvbandwidth.Kernel.Grid.{Thread}
use nvbandwidth.Kernel.Launch.{
  Result, ok, throw, unsupported_ptr_chase_load_bytes, ptr_chase_load_bytes_needs_cc_10,
}
use nvbandwidth.Chase.{Nodes, bandwidth_ptr_chase_helper, init_host_ptr_chase_nodes}
use nvbandwidth.Chase.Path.{
  follow, node_at, follow-IsRing, HasRing, init_host_ptr_chase_nodes-HasRing,
}

-- `mix64`.
unfoldable pub mix64 : ℕ → ℕ
mix64 x =
    let a = bit_xor x (x / 2 ^ 30) * 0xbf58476d1ce4e5b9 % u64_mod in
    let b = bit_xor a (a / 2 ^ 27) * 0x94d049bb133111eb % u64_mod in bit_xor b (b / 2 ^ 31)

-- `startIdx` of a thread of `ptrChasingBandwidthKernel`, in a grid of so many blocks.
unfoldable pub start_idx : (grid_dim block_dim n_ptrs launch_seed : ℕ) → Thread → ℕ
unfolding mix64
start_idx grid_dim block_dim n_ptrs launch_seed t =
    let total_chains = grid_dim * block_dim % u32_mod in
    let sm_chain_id = t.block * 2 ^ 32 + t.lane in
    mix64 (bit_xor (bit_xor sm_chain_id launch_seed) total_chains) % n_ptrs

-- A thread: where its pointer ends.
unfoldable pub chase_chain : (node first_node start accesses : ℕ) → Nodes → Option ℕ
unfolding follow
chase_chain node first_node start accesses m =
    let p = follow accesses m (first_node + start * node) in if p == 0 then none else some p

-- `ptrChasingBandwidthKernel` on the threads of a schedule. They store nothing.
unfoldable pub ptr_chasing_bandwidth_kernel :
    (grid_dim block_dim : ℕ)
    → List Thread
    → (node first_node n_ptrs accesses_per_chain launch_seed : ℕ) → Nodes
    → Option (List ℕ)
unfolding chase_chain start_idx
ptr_chasing_bandwidth_kernel grid_dim block_dim [] node first_node n_ptrs accesses seed m = some []
ptr_chasing_bandwidth_kernel grid_dim block_dim (t ∷ ts) node first_node n_ptrs accesses seed m = do
  p ← chase_chain node first_node (start_idx grid_dim block_dim n_ptrs seed t) accesses m
  ps ← ptr_chasing_bandwidth_kernel grid_dim block_dim ts node first_node n_ptrs accesses seed m
  some (p ∷ ps)

-- What the options and the device determine; `ts` is the order of the threads of each launch.
pub record Setup {ℓ} (A : Type ℓ) : Type ℓ where
  pub sm_count : ℕ
  pub chains_per_sm : ℕ
  pub warmup_count : ℕ
  pub average_loop_count : ℕ
  pub use_mean : Bool
  pub ts : List Thread
  -- `elapsedUs` of each sample.
  pub elapsed_us : ℕ → A

module _ {ℓ} {A : Type ℓ} where
  unfoldable pub total_chains : Setup A → ℕ
  total_chains u = u.sm_count * u.chains_per_sm % u64_mod

  unfoldable pub base_accesses_per_chain : Setup A → (n_ptrs : ℕ) → ℕ
  unfolding total_chains
  base_accesses_per_chain u n_ptrs = max 1 (n_ptrs / total_chains u)

  unfoldable pub measured_accesses_per_chain : Setup A → (n_ptrs loop_count : ℕ) → ℕ
  unfolding base_accesses_per_chain
  measured_accesses_per_chain u n_ptrs loop_count =
      base_accesses_per_chain u n_ptrs * loop_count % u64_mod

  unfoldable pub measured_accesses : Setup A → (n_ptrs loop_count : ℕ) → ℕ
  unfolding measured_accesses_per_chain
  measured_accesses u n_ptrs loop_count =
      measured_accesses_per_chain u n_ptrs loop_count * total_chains u % u64_mod

-- The seeds of the launches of sample `n`.
abbrev pub warmup_seed : ℕ → ℕ
warmup_seed n = bit_xor 0x9e3779b97f4a7c15 (n * 2 ^ 32 % u64_mod)

abbrev pub measured_seed : ℕ → ℕ
measured_seed n = bit_xor 0xd1b54a32d192ed03 (n * 2 ^ 32 % u64_mod)

module _ {ℓ} {A : Type ℓ} ⦃d : Double A⦄ where
  -- `bandwidth` of a sample.
  unfoldable pub chase_bandwidth : (measured_accesses load_bytes : ℕ) → (elapsed_us : A) → A
  chase_bandwidth accesses load_bytes elapsed_us =
      let bytes_read = d.mul (d.of_count accesses) (d.of_count load_bytes) in
      d.div (d.mul (d.mul bytes_read (d.of_count 1000)) (d.of_count 1000)) elapsed_us

  module _ (u : Setup A) where
    unfoldable pub chase_launch :
        (node first_node n_ptrs accesses seed : ℕ) → Nodes → Option (List ℕ)
    unfolding ptr_chasing_bandwidth_kernel
    chase_launch = ptr_chasing_bandwidth_kernel u.sm_count u.chains_per_sm u.ts

    -- The loop over the samples, which has `rounds` to go from `n`.
    unfoldable pub chase_samples :
        (node first_node n_ptrs loop_count load_bytes : ℕ)
        → Nodes
        → (n rounds : ℕ) → List A
        → Option (List A)
    unfolding chase_launch chase_bandwidth measured_accesses
    chase_samples node first_node n_ptrs loop_count load_bytes m n zero samples = some samples
    chase_samples node first_node n_ptrs loop_count load_bytes m n (suc k) samples = do
      let warmup = base_accesses_per_chain u n_ptrs * u.warmup_count % u64_mod
      _ ←
          if ltb 0 u.warmup_count
          then chase_launch node first_node n_ptrs warmup (warmup_seed n) m
          else some []
      let accesses = measured_accesses_per_chain u n_ptrs loop_count
      _ ← chase_launch node first_node n_ptrs accesses (measured_seed n) m
      let bandwidth =
          chase_bandwidth (measured_accesses u n_ptrs loop_count) load_bytes (u.elapsed_us n)
      chase_samples node first_node n_ptrs loop_count load_bytes m (suc n) k
          (record_sample bandwidth samples)

    -- `bandwidthPtrChaseKernelForNode`, for a type of nodes of `node` bytes.
    unfoldable pub bandwidth_ptr_chase_kernel_for_node :
        (node first_node size loop_count load_bytes : ℕ) → Nodes → Option A
    unfolding chase_samples
    bandwidth_ptr_chase_kernel_for_node node first_node size loop_count load_bytes m =
        let n_ptrs = size / node in
        if n_ptrs == 0 then some d.zero_value else (do
          samples ←
              chase_samples node first_node n_ptrs loop_count load_bytes m 0 u.average_loop_count []
          some (d.mul (return_appropriate_metric u.use_mean samples) nano))

    -- `bandwidthPtrChaseKernel`.
    unfoldable pub bandwidth_ptr_chase_kernel :
        (major load_bytes first_node size loop_count : ℕ) → Nodes → Result (Option A)
    unfolding bandwidth_ptr_chase_kernel_for_node
    bandwidth_ptr_chase_kernel major load_bytes first_node size loop_count m =
        if (load_bytes == 32) && ltb major 10
        then throw ptr_chase_load_bytes_needs_cc_10
        else if load_bytes == 8
        then ok (bandwidth_ptr_chase_kernel_for_node 8 first_node size loop_count load_bytes m)
        else if load_bytes == 16
        then ok (bandwidth_ptr_chase_kernel_for_node 16 first_node size loop_count load_bytes m)
        else if load_bytes == 32
        then ok (bandwidth_ptr_chase_kernel_for_node 32 first_node size loop_count load_bytes m)
        else throw unsupported_ptr_chase_load_bytes
