-- ===== src/Chase/Latency.antt =====
-- kernels.cu and memcpy.cpp: `ptrChasingKernel`, `latencyPtrChaseKernel` and `MemPtrChaseOperation`.
-- The time that CUDA measures for each launch is an argument, and its calls are taken to succeed; `none`
-- stands for the trap of a kernel, which ends the process when the stream is synchronized.
use nvbandwidth.Prelude.{
  ℕ, zero, suc, ◌+◌, ◌*◌, ◌/◌, ◌%◌, ◌≤◌, ◌<◌, ◌≡◌, refl, ap, ◌∙◌, arith, ◌==◌, false, if◌then◌else◌,
  Option, none, some, ◌>>=◌, List, [], ◌∷◌, run_all,
}
use nvbandwidth.Config.{u32_mod, u64_mod}
use nvbandwidth.Double.{Double}
use nvbandwidth.Testcase.{indices}
use nvbandwidth.Chase.{Nodes, latency_node, latency_helper}
use nvbandwidth.Chase.Path.{follow, node_at, follow-IsRing, latency_helper-HasRing, HasRing}

-- `ptrChasingKernel` in one block, of one thread: where its pointer ends.
unfoldable pub ptr_chasing_block : (first_node accesses target_block block : ℕ) → Nodes → Option ℕ
unfolding follow
ptr_chasing_block first_node accesses target_block block m =
    let p = follow accesses m first_node in
    if block == target_block then (if p == 0 then none else some p) else some first_node

-- A launch of so many blocks. They store nothing, so their order does not show.
unfoldable pub ptr_chasing_kernel :
    (first_node accesses target_block blocks : ℕ) → Nodes → Option (List ℕ)
unfolding ptr_chasing_block
ptr_chasing_kernel first_node accesses target_block zero m = some []
ptr_chasing_kernel first_node accesses target_block (suc b) m = do
  ps ← ptr_chasing_kernel first_node accesses target_block b m
  p ← ptr_chasing_block first_node accesses target_block b m
  some (p ∷ ps)

module _ {ℓ} {A : Type ℓ} ⦃d : Double A⦄ (elapsed_ms : ℕ → A) where
  -- The loop over the target blocks, which has `rounds` to go.
  unfoldable pub chase_launches :
      (first_node accesses sm_count : ℕ) → Nodes → (target_block rounds : ℕ) → A → Option A
  unfolding ptr_chasing_kernel
  chase_launches first_node accesses sm_count m target_block zero latency_sum = some latency_sum
  chase_launches first_node accesses sm_count m target_block (suc k) latency_sum = do
    _ ← ptr_chasing_kernel first_node accesses target_block sm_count m
    let seconds = d.div (elapsed_ms target_block) (d.of_count 1000)
    chase_launches first_node accesses sm_count m (suc target_block) k (d.add latency_sum seconds)

  -- `latencyPtrChaseKernel`. The number of accesses of a launch is cast to an unsigned int.
  unfoldable pub latency_ptr_chase_kernel :
      (first_node latency_mem_access_cnt sm_count : ℕ) → Nodes → Option A
  unfolding chase_launches
  latency_ptr_chase_kernel first_node latency_mem_access_cnt sm_count m = do
    let accesses = latency_mem_access_cnt / sm_count % u32_mod
    latency_sum ← chase_launches first_node accesses sm_count m 0 sm_count d.zero_value
    some (d.div (d.mul latency_sum (d.of_count 1_000_000_000)) (d.of_count latency_mem_access_cnt))

-- Where the blocks of a launch end, the last block first.
abbrev pub ends : (base stop target_block blocks : ℕ) → List ℕ
ends base stop target_block zero = []
ends base stop target_block (suc b) =
    (if b == target_block then stop else base) ∷ ends base stop target_block b

module _ (node stride base size accesses target_block : ℕ) (m : Nodes) (pos : 0 < size / node)
    (real : 0 < base) (ring : HasRing node stride base size m) where
  abbrev stop : ℕ
  stop = node_at node base (accesses * stride % (size / node))

  stop_lem : follow accesses m base ≡ stop
  stop_lem =
      ap (follow accesses m) (omega arith)
      ∙ follow-IsRing node stride base (size / node) accesses 0 m ring pos
      ∙ ap (λ (x : ℕ). node_at node base (x % (size / node))) (omega arith)

  block_lem :
      (block : ℕ)
      → ptr_chasing_block base accesses target_block block m
        ≡ some (if block == target_block then stop else base)
  unfolding ptr_chasing_block
  block_lem block =
      let real_stop : (stop == 0) ≡ false = ground arith in rw (stop_lem, real_stop) (ground arith)

  pub ptr_chasing_kernel_lem :
      (blocks : ℕ)
      → ptr_chasing_kernel base accesses target_block blocks m
        ≡ some (ends base stop target_block blocks)
  unfolding ptr_chasing_kernel
  ptr_chasing_kernel_lem zero = refl
  ptr_chasing_kernel_lem (suc b) = rw (ptr_chasing_kernel_lem b, block_lem b)

module _ {ℓ} {A : Type ℓ} ⦃d : Double A⦄ (elapsed_ms : ℕ → A) where
  -- The times of the launches in seconds, added in their order.
  abbrev pub add_seconds : ℕ → A → A
  add_seconds target_block total = d.add total (d.div (elapsed_ms target_block) (d.of_count 1000))

  chase_launches_lem :
      (base accesses sm_count : ℕ) (m : Nodes)
      → ((t : ℕ) → (ps : List ℕ) × (ptr_chasing_kernel base accesses t sm_count m ≡ some ps))
      → (t rounds : ℕ) (total : A)
      → chase_launches elapsed_ms base accesses sm_count m t rounds total
        ≡ some (run_all add_seconds (indices t rounds) total)
  unfolding chase_launches
  chase_launches_lem base accesses sm_count m f t zero total = refl
  chase_launches_lem base accesses sm_count m f t (suc k) total =
      rw (f t).1 (chase_launches_lem base accesses sm_count m f (suc t) k (add_seconds t total))

  -- After `latencyHelper` on a buffer with at least one node, at an address that is not 0, no launch of
  -- `latencyPtrChaseKernel` traps: in each, just the target block moves, to the node of index accesses *
  -- stride modulo the number of nodes, where accesses is the quotient of the count and the number of
  -- multiprocessors. The result is the sum of the times in nanoseconds, divided by the count. The
  -- number of nodes and the stride together are at most 2^64.
  pub latency_ptr_chase_kernel_lem :
      (stride base size latency_mem_access_cnt sm_count : ℕ) (m : Nodes)
      → 0 < size / latency_node
      → 0 < base
      → size / latency_node + stride ≤ u64_mod
      → let nodes = latency_helper stride base size m in
        let accesses = latency_mem_access_cnt / sm_count % u32_mod in
        let stop = node_at latency_node base (accesses * stride % (size / latency_node)) in
        ((t : ℕ)
          → ptr_chasing_kernel base accesses t sm_count nodes ≡ some (ends base stop t sm_count))
        × (latency_ptr_chase_kernel elapsed_ms base latency_mem_access_cnt sm_count nodes
            ≡ some (
                d.div
                  (d.mul
                    (run_all add_seconds (indices 0 sm_count) d.zero_value)
                    (d.of_count 1_000_000_000))
                  (d.of_count latency_mem_access_cnt)))
  unfolding latency_ptr_chase_kernel
  latency_ptr_chase_kernel_lem stride base size cnt sm_count m pos real fits =
      let nodes = latency_helper stride base size m in
      let accesses = cnt / sm_count % u32_mod in
      let launched = λ (t : ℕ).
        ptr_chasing_kernel_lem latency_node stride base size accesses t nodes pos real
          (latency_helper-HasRing stride base size m fits) sm_count in
      (
        launched,
        rw (
            chase_launches_lem base accesses sm_count nodes (λ t. (_, launched t)) 0 sm_count
              d.zero_value),
      )
