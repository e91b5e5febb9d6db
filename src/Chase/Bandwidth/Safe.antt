-- ===== src/Chase/Bandwidth/Safe.antt =====
-- The launches of `bandwidthPtrChaseKernel` on the nodes that `bandwidthPtrChaseHelper` made.
use nvbandwidth.Prelude.{
  ℕ, zero, suc, ◌+◌, ◌*◌, ◌/◌, ◌%◌, ◌≤◌, ◌<◌, ◌≡◌, ◌⊎◌, inl, inr, refl, ap, arith, ◌==◌, ltb, ◌&&◌,
  false, Bool-cases, if◌then◌else◌, some, List, [], ◌∷◌, map, run_all, All,
}
use native.Mathlib.Nat.{mod-lt}
use nvbandwidth.Config.{u64_mod}
use nvbandwidth.Double.{Double}
use nvbandwidth.Statistic.{record_sample, record_all, return_appropriate_metric}
use nvbandwidth.Operation.{nano}
use nvbandwidth.Testcase.{indices}
use nvbandwidth.Kernel.Grid.{Thread}
use nvbandwidth.Kernel.Launch.{
  ok, throw, unsupported_ptr_chase_load_bytes, ptr_chase_load_bytes_needs_cc_10,
}
use nvbandwidth.Chase.{Nodes, bandwidth_ptr_chase_helper, init_host_ptr_chase_nodes}
use nvbandwidth.Chase.Path.{node_at, follow-IsRing, HasRing, init_host_ptr_chase_nodes-HasRing}
use nvbandwidth.Chase.Bandwidth.{
  start_idx, chase_chain, ptr_chasing_bandwidth_kernel, Setup, measured_accesses, chase_bandwidth,
  chase_launch, chase_samples, bandwidth_ptr_chase_kernel_for_node, bandwidth_ptr_chase_kernel,
  base_accesses_per_chain, measured_accesses_per_chain, warmup_seed, measured_seed,
}

-- The address of a node of the buffer.
abbrev pub InBuffer : (node base n_ptrs p : ℕ) → Type 0
InBuffer node base n_ptrs p = (i : ℕ) × (i < n_ptrs) × (p ≡ node_at node base i)

module _ (node stride base size : ℕ) (m : Nodes) (pos : 0 < size / node) (real : 0 < base)
    (ring : HasRing node stride base size m) where
  chase_chain_lem :
      (start accesses : ℕ)
      → start < size / node
      → (p : ℕ) × (chase_chain node base start accesses m ≡ some p)
        × InBuffer node base (size / node) p
  unfolding chase_chain
  chase_chain_lem start accesses h =
      let n = size / node in
      let i = (start + accesses * stride) % n in
      let real_end : (node_at node base i == 0) ≡ false = ground arith in
      (
        node_at node base i,
        rw (follow-IsRing node stride base n accesses start m ring h, real_end),
        (i, mod-lt (start + accesses * stride) pos, refl),
      )

  -- In any schedule every chain of a launch ends at a node of the buffer, so none traps. The buffer has
  -- a ring of at least one node, at an address that is not 0.
  pub ptr_chasing_bandwidth_kernel_lem :
      (grid_dim block_dim accesses seed : ℕ) (ts : List Thread)
      → (ps : List ℕ) × (ptr_chasing_bandwidth_kernel grid_dim block_dim ts node base
            (size / node)
            accesses
            seed
            m
          ≡ some ps)
        × All (InBuffer node base (size / node)) ps
  unfolding ptr_chasing_bandwidth_kernel start_idx
  ptr_chasing_bandwidth_kernel_lem grid_dim block_dim accesses seed [] = ([], refl, tt)
  ptr_chasing_bandwidth_kernel_lem grid_dim block_dim accesses seed (t ∷ ts) =
      let start = start_idx grid_dim block_dim (size / node) seed t in
      let (p, e, inside) = chase_chain_lem start accesses (mod-lt _ pos) in
      let (ps, es, all_inside) =
        ptr_chasing_bandwidth_kernel_lem grid_dim block_dim accesses seed ts in
      (p ∷ ps, rw (e, es), (inside, all_inside))

module _ {ℓ} {A : Type ℓ} ⦃d : Double A⦄ (u : Setup A) where
  -- The bandwidth of sample `n`.
  abbrev pub sample_of : (n_ptrs loop_count load_bytes n : ℕ) → A
  sample_of n_ptrs loop_count load_bytes n =
      chase_bandwidth (measured_accesses u n_ptrs loop_count) load_bytes (u.elapsed_us n)

  -- The result for a buffer of `size` bytes.
  abbrev pub chase_metric : (node size loop_count load_bytes : ℕ) → A
  chase_metric node size loop_count load_bytes =
      let n_ptrs = size / node in
      if n_ptrs == 0
      then d.zero_value
      else (let samples =
            map (sample_of n_ptrs loop_count load_bytes) (indices 0 u.average_loop_count) in
          d.mul (return_appropriate_metric u.use_mean (record_all samples)) nano)

  module _ (node stride base size : ℕ) (m : Nodes) (real : 0 < base)
      (ring : HasRing node stride base size m) where
    chase_launch_lem :
        (accesses seed : ℕ)
        → 0 < size / node
        → (ps : List ℕ) × (chase_launch u node base (size / node) accesses seed m ≡ some ps)
    unfolding chase_launch
    chase_launch_lem accesses seed pos =
        let r =
          ptr_chasing_bandwidth_kernel_lem node stride base size m pos real ring u.sm_count
            u.chains_per_sm accesses seed u.ts in
        (r.0, r.1)

    chase_samples_lem :
        (loop_count load_bytes n rounds : ℕ) (samples : List A)
        → 0 < size / node
        → chase_samples u node base (size / node) loop_count load_bytes m n rounds samples
          ≡ some (
              run_all record_sample
                (map (sample_of (size / node) loop_count load_bytes) (indices n rounds))
                samples)
    unfolding chase_samples
    chase_samples_lem loop_count load_bytes n zero samples pos = refl
    chase_samples_lem loop_count load_bytes n (suc k) samples pos =
        let warmup = base_accesses_per_chain u (size / node) * u.warmup_count % u64_mod in
        let accesses = measured_accesses_per_chain u (size / node) loop_count in
        let warmed = (chase_launch_lem warmup (warmup_seed n) pos).1 in
        let measured = (chase_launch_lem accesses (measured_seed n) pos).1 in
        let bandwidth = sample_of (size / node) loop_count load_bytes n in
        let rest =
          chase_samples_lem loop_count load_bytes (suc n) k (record_sample bandwidth samples) pos in
        elim (Bool-cases (ltb 0 u.warmup_count)) [
          | inl e ↦ rw (e, warmed, measured) rest
          | inr e ↦ rw (e, measured) rest
        ]

    for_node_lem :
        (loop_count load_bytes : ℕ)
        → bandwidth_ptr_chase_kernel_for_node u node base size loop_count load_bytes m
          ≡ some (chase_metric node size loop_count load_bytes)
    unfolding bandwidth_ptr_chase_kernel_for_node record_all
    for_node_lem loop_count load_bytes = elim (Bool-cases (size / node == 0)) [
      | inl e ↦ rw e
      | inr e ↦
          rw (e, chase_samples_lem loop_count load_bytes 0 u.average_loop_count [] (ground arith))
    ]

-- The three widths for which `bandwidthPtrChaseHelper` makes nodes.
widths :
    (load_bytes : ℕ) (a b c : Nodes) {nodes : Nodes}
    → (if load_bytes == 8
        then ok a
        else if load_bytes == 16
        then ok b
        else if load_bytes == 32
        then ok c
        else throw unsupported_ptr_chase_load_bytes)
      ≡ ok nodes
    → ((load_bytes ≡ 8) × (a ≡ nodes))
      ⊎ (((load_bytes ≡ 16) × (b ≡ nodes)) ⊎ ((load_bytes ≡ 32) × (c ≡ nodes)))
widths load_bytes a b c e = ground arith

helper-inv :
    (load_bytes stride base size : ℕ) (m : Nodes) {nodes : Nodes}
    → size / 8 + stride ≤ u64_mod
    → bandwidth_ptr_chase_helper load_bytes stride base size m ≡ ok nodes
    → (((load_bytes ≡ 8) ⊎ (load_bytes ≡ 16)) ⊎ (load_bytes ≡ 32))
      × HasRing load_bytes stride base size nodes
unfolding bandwidth_ptr_chase_helper
helper-inv load_bytes stride base size m fits e =
    let at = λ (node : ℕ). init_host_ptr_chase_nodes node stride base size m in
    let ring = λ (node : ℕ). init_host_ptr_chase_nodes-HasRing node stride base size m in
    elim (widths load_bytes (at 8) (at 16) (at 32) e) [
      | inl (h, q) ↦ rw (h, ← q) (inl (inl refl), ring 8 (omega arith) fits)
      | inr (inl (h, q)) ↦ rw (h, ← q) (inl (inr refl), ring 16 (omega arith) (omega arith))
      | inr (inr (h, q)) ↦ rw (h, ← q) (inr refl, ring 32 (omega arith) (omega arith))
    ]

-- After `bandwidthPtrChaseHelper`, with its width of loads, on a buffer at an address that is not 0,
-- `bandwidthPtrChaseKernel` throws exactly for 32-byte loads on a device of compute capability below 10;
-- otherwise no chain of any launch traps, and the result is the metric of the bandwidths of the
-- samples in GB/s, or zero for a buffer without a node. The number of 8-byte words of the buffer and the
-- stride together are at most 2^64.
pub bandwidth_ptr_chase_kernel_lem {ℓ} :
    {A : Type ℓ} ⦃d : Double A⦄ (u : Setup A) (major load_bytes stride base size loop_count : ℕ)
    (m : Nodes) {nodes : Nodes}
    → 0 < base
    → size / 8 + stride ≤ u64_mod
    → bandwidth_ptr_chase_helper load_bytes stride base size m ≡ ok nodes
    → bandwidth_ptr_chase_kernel u major load_bytes base size loop_count nodes ≡ (
        if (load_bytes == 32) && ltb major 10
        then throw ptr_chase_load_bytes_needs_cc_10
        else ok (some (chase_metric u load_bytes size loop_count load_bytes)))
unfolding bandwidth_ptr_chase_kernel
bandwidth_ptr_chase_kernel_lem u major load_bytes stride base size loop_count m {nodes} real fits
      e =
    let (width, ring) = helper-inv load_bytes stride base size m fits e in
    let run = for_node_lem u load_bytes stride base size nodes real ring loop_count load_bytes in
    elim width [
      | inl (inl h) ↦ let done = rw h at run in rw h (ap ok done)
      | inl (inr h) ↦ let done = rw h at run in rw h (ap ok done)
      | inr h ↦
          let done = rw h at run in
          rw h
            (ap (λ r. if ltb major 10 then throw ptr_chase_load_bytes_needs_cc_10 else ok r) done)
    ]
