-- ===== src/Testcase/Chase/Ends.antt =====
-- The test cases that chase pointers come to their end, and what they leave.
use nvbandwidth.Prelude.{
  ℕ, zero, suc, ◌+◌, ◌-◌, ◌/◌, ◌≡◌, ◌≤◌, ◌<◌, ◌⊎◌, inl, inr, refl, arith, false, ◌&&◌, some, [],
  ◌∷◌, run_all, ◌==◌, ltb,
}
use nvbandwidth.Config.{u64_mod}
use nvbandwidth.Double.{Double}
use nvbandwidth.Kernel.Launch.{ok}
use nvbandwidth.Buffers.{Heap}
use nvbandwidth.Buffers.Owned.{IsFresh}
use nvbandwidth.Chase.{
  Nodes, latency_node, latency_helper, init_host_ptr_chase_nodes, bandwidth_ptr_chase_helper,
}
use nvbandwidth.Chase.Latency.{add_seconds, latency_ptr_chase_kernel_lem}
use nvbandwidth.Chase.Bandwidth.Safe.{chase_metric, bandwidth_ptr_chase_kernel_lem}
use nvbandwidth.Testcase.{indices}
use nvbandwidth.Testcase.Stored.{Fills, filled}
use nvbandwidth.Testcase.Shapes.{Leaves, row_lem}
use nvbandwidth.Testcase.Host.{host_buffer}
use nvbandwidth.Testcase.Chase.{
  Chasing, latency_mem_access_cnt, scoped, do_ptr_chase, chase_again, host_device_latency_step,
  host_device_latency_sm, do_ptr_chase_bandwidth, host_device_bandwidth_step,
  host_device_bandwidth_sm,
}
use nvbandwidth.Testcase.Chase.Scoped.{scoped-Fills, keep_value-Fills}

-- The buffers have a node, at addresses that are not 0.
pub record IsReady {ℓ} {A : Type ℓ} (c : Chasing A) : Type 0 where
  pub has_node : 0 < c.size / latency_node
  pub fits : c.size / latency_node + c.stride ≤ u64_mod
  pub real : (place : ℕ) → 0 < c.address place

-- `ptrChaseLoadBytes` is a width that the bandwidth test case supports on each of the devices.
pub record IsSupported {ℓ} {A : Type ℓ} (c : Chasing A) (device_count : ℕ) : Type 0 where
  pub width : ((c.load_bytes ≡ 8) ⊎ (c.load_bytes ≡ 16)) ⊎ (c.load_bytes ≡ 32)
  pub capable : (i : ℕ) → i < device_count → ((c.load_bytes == 32) && ltb (c.major i) 10) ≡ false

module _ {ℓ} {A : Type ℓ} ⦃d : Double A⦄ (c : Chasing A) where
  -- The latency in nanoseconds of an access of one device to the buffer of another.
  abbrev pub latency : (src_id owner : ℕ) → A
  latency src_id owner =
      let total =
        run_all (add_seconds (c.elapsed_ms src_id owner 0)) (indices 0 c.sm_count) d.zero_value in
      d.div (d.mul total (d.of_count 1_000_000_000)) (d.of_count latency_mem_access_cnt)

  -- The nodes that `latencyHelper` makes in the buffer at a place of the heap.
  abbrev pub nodes_at : ℕ → Nodes
  nodes_at place = latency_helper c.stride (c.address place) c.size (c.contents place)

  do_ptr_chase-some :
      (src_id owner place iteration : ℕ)
      → IsReady c
      → (v : A) × (do_ptr_chase c src_id owner place iteration (nodes_at place) ≡ some v)
  unfolding do_ptr_chase
  do_ptr_chase-some src_id owner place iteration r = (
    _,
    (latency_ptr_chase_kernel_lem (c.elapsed_ms src_id owner iteration) c.stride (c.address place)
        c.size latency_mem_access_cnt c.sm_count (c.contents place) r.has_node (r.real place)
        r.fits).1,
  )

  pub do_ptr_chase_lem :
      (src_id owner place : ℕ)
      → IsReady c
      → do_ptr_chase c src_id owner place 0 (nodes_at place) ≡ some (latency src_id owner)
  unfolding do_ptr_chase
  do_ptr_chase_lem src_id owner place r =
      (latency_ptr_chase_kernel_lem (c.elapsed_ms src_id owner 0) c.stride (c.address place) c.size
        latency_mem_access_cnt c.sm_count (c.contents place) r.has_node (r.real place) r.fits).1

  chase_again_lem :
      (src_id owner place iteration rounds : ℕ)
      → IsReady c
      → chase_again c src_id owner place iteration rounds (nodes_at place) ≡ some tt
  unfolding chase_again
  chase_again_lem src_id owner place iteration zero r = refl
  chase_again_lem src_id owner place iteration (suc k) r =
      rw (do_ptr_chase-some src_id owner place iteration r).1
        (chase_again_lem src_id owner place (suc iteration) k r)

  latency_step-Fills :
      (n loop_count i place : ℕ) (h : Heap)
      → IsReady c
      → i < n
      → Fills h 1 n 1
          (λ (k l : ℕ). filled (latency l l ∷ []))
          (λ (k l : ℕ). (0 == k) && (i == l))
          (host_device_latency_step c loop_count i place)
  unfolding host_device_latency_step
  latency_step-Fills n loop_count i place h r b s sound =
      let (s', e, after, g) =
        keep_value-Fills 1 n h 0 i (latency i i) (λ (k l : ℕ). filled (latency l l ∷ []))
          (omega arith) b refl s sound in
      (
        s',
        rw (do_ptr_chase_lem i i place r, e, chase_again_lem i i place 1 (loop_count - 1) r),
        after,
        g,
      )

  -- The latency test case between the host and the devices puts in the cell of each device the time of
  -- its first measurement, the sum over the launches in nanoseconds per access, and restores the heap.
  -- The buffers have at least one node, at addresses that are not 0, and the number of nodes and the
  -- stride together are at most 2^64.
  pub host_device_latency_sm_lem :
      (n loop_count : ℕ) (h : Heap)
      → IsReady c
      → IsFresh h
      → Leaves h 1 n
          (λ (k l : ℕ). filled (latency l l ∷ []))
          (host_device_latency_sm c n loop_count h)
  unfolding host_device_latency_sm
  host_device_latency_sm_lem n loop_count h r f =
      let wanted = λ (k l : ℕ). filled (latency l l ∷ []) in
      row_lem n wanted
        (λ (i : ℕ). scoped (host_buffer c.size i) (host_device_latency_step c loop_count i)) h f
        λ i b.
          scoped-Fills 1 n 1 h (host_buffer c.size i) (host_device_latency_step c loop_count i)
            wanted (λ (k l : ℕ). (0 == k) && (i == l))
            (λ h' place. latency_step-Fills n loop_count i place h' r b)

  helper-ok :
      (base : ℕ) (m : Nodes)
      → (((c.load_bytes ≡ 8) ⊎ (c.load_bytes ≡ 16)) ⊎ (c.load_bytes ≡ 32))
      → (nodes : Nodes) × (bandwidth_ptr_chase_helper c.load_bytes c.stride base c.size m
          ≡ ok nodes)
  unfolding bandwidth_ptr_chase_helper
  helper-ok base m (inl (inl h)) = (init_host_ptr_chase_nodes 8 c.stride base c.size m, rw h)
  helper-ok base m (inl (inr h)) = (init_host_ptr_chase_nodes 16 c.stride base c.size m, rw h)
  helper-ok base m (inr h) = (init_host_ptr_chase_nodes 32 c.stride base c.size m, rw h)

  -- The bandwidth in GB/s that a device measures.
  abbrev pub bandwidth : (loop_count device_id : ℕ) → A
  bandwidth loop_count i = chase_metric (c.setup i) c.load_bytes c.size loop_count c.load_bytes

  do_ptr_chase_bandwidth_lem :
      (n loop_count i place : ℕ)
      → IsReady c
      → IsSupported c n
      → i < n
      → do_ptr_chase_bandwidth c loop_count i place (
          bandwidth_ptr_chase_helper c.load_bytes c.stride
            (c.address place)
            c.size
            (c.contents place))
        ≡ some (bandwidth loop_count i)
  unfolding do_ptr_chase_bandwidth
  do_ptr_chase_bandwidth_lem n loop_count i place r w b =
      let (nodes, made) = helper-ok (c.address place) (c.contents place) w.width in
      let run =
        bandwidth_ptr_chase_kernel_lem (c.setup i) (c.major i) c.load_bytes c.stride
          (c.address place) c.size loop_count (c.contents place) (r.real place) r.fits made in
      rw (made, run, w.capable i b)

  bandwidth_step-Fills :
      (n loop_count i place : ℕ) (h : Heap)
      → IsReady c
      → IsSupported c n
      → i < n
      → Fills h 1 n 1
          (λ (k l : ℕ). filled (bandwidth loop_count l ∷ []))
          (λ (k l : ℕ). (0 == k) && (i == l))
          (host_device_bandwidth_step c loop_count i place)
  unfolding host_device_bandwidth_step
  bandwidth_step-Fills n loop_count i place h r w b s sound =
      rw (do_ptr_chase_bandwidth_lem n loop_count i place r w b) (
        keep_value-Fills 1 n h 0 i (bandwidth loop_count i)
          (λ (k l : ℕ). filled (bandwidth loop_count l ∷ [])) (omega arith) b refl s sound)

  -- The bandwidth test case puts in the cell of each device the metric of the samples that it measures,
  -- and restores the heap. The width of the loads is supported on each device, the addresses of buffers
  -- are not 0, the buffers have at least 8 bytes, and the number of 8-byte words and the stride together
  -- are at most 2^64.
  pub host_device_bandwidth_sm_lem :
      (n loop_count : ℕ) (h : Heap)
      → IsReady c
      → IsSupported c n
      → IsFresh h
      → Leaves h 1 n
          (λ (k l : ℕ). filled (bandwidth loop_count l ∷ []))
          (host_device_bandwidth_sm c n loop_count h)
  unfolding host_device_bandwidth_sm
  host_device_bandwidth_sm_lem n loop_count h r w f =
      let wanted = λ (k l : ℕ). filled (bandwidth loop_count l ∷ []) in
      row_lem n wanted
        (λ (i : ℕ). scoped (host_buffer c.size i) (host_device_bandwidth_step c loop_count i)) h f
        λ i b.
          scoped-Fills 1 n 1 h (host_buffer c.size i) (host_device_bandwidth_step c loop_count i)
            wanted (λ (k l : ℕ). (0 == k) && (i == l))
            (λ h' place. bandwidth_step-Fills n loop_count i place h' r w b)
