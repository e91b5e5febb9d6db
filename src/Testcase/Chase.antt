-- ===== src/Testcase/Chase.antt =====
-- testcases_sm.cpp and memcpy.cpp: the test cases that chase pointers. `none` stands also for an exception
-- that ends the run. What `enablePeerAcess` answers, the times that CUDA measures and the addresses of
-- new buffers are arguments.
pub mod Scoped
pub mod Ends
pub mod Devices
use nvbandwidth.Prelude.{
  ℕ, zero, suc, ◌-◌, Bool, Option, none, some, ◌>>=◌, List, [], ◌∷◌, ◌==◌, if◌then◌else◌,
}
use nvbandwidth.Double.{Double}
use nvbandwidth.Kernel.Launch.{Result, ok, throw}
use nvbandwidth.Buffers.{Buffer, Heap, allocate, release}
use nvbandwidth.Chase.{Nodes, latency_helper, bandwidth_ptr_chase_helper}
use nvbandwidth.Chase.Latency.{latency_ptr_chase_kernel}
use nvbandwidth.Chase.Bandwidth.{Setup, bandwidth_ptr_chase_kernel}
use nvbandwidth.Testcase.{Run, indices, for_all, store_all, start, first_value}
use nvbandwidth.Testcase.Host.{host_buffer, device_buffer}

-- The constant `latencyMemAccessCnt`.
abbrev pub latency_mem_access_cnt : ℕ
latency_mem_access_cnt = 1000000

-- What a run of these test cases depends on.
pub record Chasing {ℓ} (A : Type ℓ) : Type ℓ where
  -- `latencyStrideLen`, and the size of the buffers.
  pub stride : ℕ
  pub size : ℕ
  -- The address of the memory of the object at a place of the heap, and what is in it at first.
  pub address : ℕ → ℕ
  pub contents : ℕ → Nodes
  -- `smCount` of the operation.
  pub sm_count : ℕ
  -- The time of a launch of a latency measurement, by the device that makes it, the device that the
  -- buffer is made for, the iteration and the target block.
  pub elapsed_ms : (src_id owner iteration target_block : ℕ) → A
  -- `ptrChaseLoadBytes`, the compute capability of each device, and the setup of its bandwidth
  -- measurement.
  pub load_bytes : ℕ
  pub major : ℕ → ℕ
  pub setup : ℕ → Setup A

module _ {ℓ} {A : Type ℓ} where
  -- A buffer that is declared in a block: the rest of the block may use it, and its end releases it.
  unfoldable pub scoped : Buffer → (ℕ → Run A → Option (Run A)) → Run A → Option (Run A)
  scoped b body s = do
    let place = s.heap.next
    t ← body place (record s { heap = allocate b s.heap })
    h ← release place t.heap
    some (record t { heap = h })

  -- An exception ends the run.
  abbrev or_none : Result (Option A) → Option A
  or_none (ok r) = r
  or_none (throw e) = none

  -- An assignment to a cell of the matrix.
  unfoldable pub keep_value : (row column : ℕ) → A → Run A → Option (Run A)
  keep_value row column v s = do
    ms ← store_all row column (v ∷ []) s.results
    some (record s { results = ms })

module _ {ℓ} {A : Type ℓ} ⦃d : Double A⦄ (c : Chasing A) where
  -- `doPtrChase`.
  unfoldable pub do_ptr_chase : (src_id owner place iteration : ℕ) → Nodes → Option A
  unfolding latency_ptr_chase_kernel
  do_ptr_chase src_id owner place iteration =
      latency_ptr_chase_kernel (c.elapsed_ms src_id owner iteration) (c.address place)
        latency_mem_access_cnt c.sm_count

  -- The loop whose results are not used.
  unfoldable pub chase_again : (src_id owner place iteration rounds : ℕ) → Nodes → Option (Unit {0})
  unfolding do_ptr_chase
  chase_again src_id owner place iteration zero m = some tt
  chase_again src_id owner place iteration (suc k) m = do
    _ ← do_ptr_chase src_id owner place iteration m
    chase_again src_id owner place (suc iteration) k m

  -- The body of the loop of `HostDeviceLatencySM::run`. Flushing the cache of the CPU changes nothing here.
  unfoldable pub host_device_latency_step :
      (loop_count device_id place : ℕ) → Run A → Option (Run A)
  unfolding do_ptr_chase chase_again keep_value
  host_device_latency_step loop_count device_id place s = do
    let nodes = latency_helper c.stride (c.address place) c.size (c.contents place)
    v ← do_ptr_chase device_id device_id place 0 nodes
    s' ← keep_value 0 device_id v s
    _ ← chase_again device_id device_id place 1 (loop_count - 1) nodes
    some s'

  unfoldable pub host_device_latency_sm : (device_count loop_count : ℕ) → Heap → Option (Run A)
  unfolding for_all scoped host_device_latency_step start
  host_device_latency_sm device_count loop_count h =
      for_all (λ (i : ℕ). scoped (host_buffer c.size i) (host_device_latency_step loop_count i))
        (indices 0 device_count) (start first_value 1 device_count h)

  -- `doPtrChaseBandwidth` after `bandwidthPtrChaseHelper`.
  unfoldable pub do_ptr_chase_bandwidth : (loop_count src_id place : ℕ) → Result Nodes → Option A
  unfolding bandwidth_ptr_chase_kernel
  do_ptr_chase_bandwidth loop_count src_id place (throw e) = none
  do_ptr_chase_bandwidth loop_count src_id place (ok nodes) = or_none (
      bandwidth_ptr_chase_kernel (c.setup src_id) (c.major src_id) c.load_bytes (c.address place)
        c.size loop_count nodes)

  unfoldable pub host_device_bandwidth_step :
      (loop_count device_id place : ℕ) → Run A → Option (Run A)
  unfolding do_ptr_chase_bandwidth keep_value
  host_device_bandwidth_step loop_count device_id place s = do
    let nodes =
        bandwidth_ptr_chase_helper c.load_bytes c.stride (c.address place) c.size (c.contents place)
    v ← do_ptr_chase_bandwidth loop_count device_id place nodes
    keep_value 0 device_id v s

  unfoldable pub host_device_bandwidth_sm : (device_count loop_count : ℕ) → Heap → Option (Run A)
  unfolding for_all scoped host_device_bandwidth_step start
  host_device_bandwidth_sm device_count loop_count h =
      for_all (λ (i : ℕ). scoped (host_buffer c.size i) (host_device_bandwidth_step loop_count i))
        (indices 0 device_count) (start first_value 1 device_count h)

  -- The body of the inner loop of `DeviceToDeviceLatencySM::run`.
  unfoldable pub device_latency_step :
      (access : ℕ → ℕ → Bool) (peer_device place : ℕ)
      → Nodes
      → (src_device : ℕ) → Run A
      → Option (Run A)
  unfolding do_ptr_chase scoped keep_value
  device_latency_step access peer place nodes src s =
      if peer == src
      then some s
      else scoped (device_buffer c.size src)
          (λ _ t.
            if access src peer
            then (do v ← do_ptr_chase src peer place 0 nodes; keep_value src peer v t)
            else some t)
          s

  unfoldable pub device_to_device_latency_sm :
      (access : ℕ → ℕ → Bool) (device_count : ℕ) → Heap → Option (Run A)
  unfolding for_all scoped device_latency_step start
  device_to_device_latency_sm access device_count h =
      for_all
        (λ (peer : ℕ). scoped (device_buffer c.size peer) (λ place s.
          let nodes = latency_helper c.stride (c.address place) c.size (c.contents place) in
          for_all (device_latency_step access peer place nodes) (indices 0 device_count) s))
        (indices 0 device_count) (start first_value device_count device_count h)
