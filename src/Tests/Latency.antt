-- ===== src/Tests/Latency.antt =====
-- The theorems on chains of pointers, host reads and stream blockers at concrete inputs.
use nvbandwidth.Prelude.{
  ℕ, suc, ◌+◌, ◌*◌, ◌/◌, ◌%◌, ◌≡◌, ◌≤◌, ◌⊎◌, ◌↔◌, refl, not, ◌&&◌, [], ◌∷◌, none, some, ltb, ◌==◌,
  ◌-◌, false, if◌then◌else◌, true, arith, inl, inr, run_all,
}
use nvbandwidth.Config.{u32_mod}
use nvbandwidth.Double.{nat_double}
use nvbandwidth.Kernel.Grid.{all_threads, all_threads-IsSchedule}
use nvbandwidth.Kernel.Launch.{ok}
use nvbandwidth.Kernel.HostRead.{simple_read, host_read_kernel}
use nvbandwidth.Kernel.HostRead.Counted.{ReadsEach, host_read_kernel_lem}
use nvbandwidth.Kernel.Multicast.{multicast_copy}
use nvbandwidth.Initiator.{multicast_write, get_adjusted_copy_size}
use nvbandwidth.Initiator.Multicast.{multicast_copy_lem}
use nvbandwidth.Chase.{
  latency_node, latency_helper, init_host_ptr_chase_nodes, bandwidth_ptr_chase_helper,
}
use nvbandwidth.Chase.Path.{follow, node_at, follow-period_iff}
use nvbandwidth.Chase.Latency.{
  ptr_chasing_kernel, latency_ptr_chase_kernel, ends, add_seconds, latency_ptr_chase_kernel_lem,
}
use nvbandwidth.Chase.Bandwidth.{bandwidth_ptr_chase_kernel}
use nvbandwidth.Chase.Bandwidth.Safe.{chase_metric, bandwidth_ptr_chase_kernel_lem}
use nvbandwidth.Testcase.{indices}
use nvbandwidth.Testcase.Stored.{filled}
use nvbandwidth.Testcase.Shapes.{Leaves}
use nvbandwidth.Testcase.Chase.{
  host_device_latency_sm, host_device_bandwidth_sm, device_to_device_latency_sm,
}
use nvbandwidth.Testcase.Chase.Ends.{
  IsSupported, latency, bandwidth, host_device_latency_sm_lem, host_device_bandwidth_sm_lem,
}
use nvbandwidth.Testcase.Chase.Devices.{device_to_device_latency_sm_lem}
use nvbandwidth.Spin.{
  single, with_latch1, waiting_first, released, timed_out, System, Reach, begin, later, enqueue,
  release, spin_step, spin, copy, update, start,
}
use nvbandwidth.Spin.Started.{copying-released}
use nvbandwidth.Spin.Progress.{spin_alone, spin_alone_lem}
use nvbandwidth.Tests.{zeros, numbers}
use nvbandwidth.Tests.Chases.{no_nodes, setup, chasing, chasing-IsReady}
use nvbandwidth.Tests.Runs.{access, empty_heap, empty_heap-IsFresh}

chasing-IsSupported : IsSupported chasing 2
chasing-IsSupported = record { width = inl (inr refl); capable = λ i b. refl }

-- Six nodes with a stride of 2: after three steps the chain is where it began.
follow-period_example :
    (follow 1 (latency_helper 2 4096 48 no_nodes) 4096
      ≡ follow 4 (latency_helper 2 4096 48 no_nodes) 4096)
    ↔ (1 % 3 ≡ 4 % 3)
follow-period_example =
    follow-period_iff 2 4096 48 3 1 4 no_nodes (omega arith) (omega arith) refl (omega arith)

latency_ptr_chase_kernel_example :
    let nodes = latency_helper 2 4096 48 no_nodes in
    let stop = node_at latency_node 4096 (100 / 2 % u32_mod * 2 % (48 / latency_node)) in
    ((t : ℕ) → ptr_chasing_kernel 4096 (100 / 2 % u32_mod) t 2 nodes ≡ some (ends 4096 stop t 2))
    × (latency_ptr_chase_kernel (λ t. 3000 + t) 4096 100 2 nodes
        ≡ some (run_all (add_seconds (λ t. 3000 + t)) (indices 0 2) 0 * 1_000_000_000 / 100))
latency_ptr_chase_kernel_example =
    latency_ptr_chase_kernel_lem (λ t. 3000 + t) 2 4096 48 100 2 no_nodes (omega arith)
      (omega arith) (omega arith)

bandwidth_ptr_chase_kernel_example :
    bandwidth_ptr_chase_kernel setup 9 16 4096 48 5
      (init_host_ptr_chase_nodes 16 2 4096 48 no_nodes)
    ≡ ok (some (chase_metric setup 16 48 5 16))
unfolding bandwidth_ptr_chase_helper
bandwidth_ptr_chase_kernel_example =
    bandwidth_ptr_chase_kernel_lem setup 9 16 2 4096 48 5 no_nodes
      {nodes = init_host_ptr_chase_nodes 16 2 4096 48 no_nodes} (omega arith) (omega arith) refl

host_device_latency_sm_example :
    Leaves empty_heap 1 2
      (λ (k l : ℕ). filled (latency chasing l l ∷ []))
      (host_device_latency_sm chasing 2 3 empty_heap)
host_device_latency_sm_example =
    host_device_latency_sm_lem chasing 2 3 empty_heap chasing-IsReady empty_heap-IsFresh

host_device_bandwidth_sm_example :
    Leaves empty_heap 1 2
      (λ (k l : ℕ). filled (bandwidth chasing 3 l ∷ []))
      (host_device_bandwidth_sm chasing 2 3 empty_heap)
host_device_bandwidth_sm_example =
    host_device_bandwidth_sm_lem chasing 2 3 empty_heap chasing-IsReady chasing-IsSupported
      empty_heap-IsFresh

device_to_device_latency_sm_example :
    Leaves empty_heap 3 3
      (λ (k l : ℕ).
        if not (k == l) && access k l then filled (latency chasing k l ∷ []) else some none ∷ [])
      (device_to_device_latency_sm chasing access 3 empty_heap)
device_to_device_latency_sm_example =
    device_to_device_latency_sm_lem chasing access 3 chasing-IsReady empty_heap empty_heap-IsFresh

-- 6000 bytes in reads of 8 bytes, two for each thread: 375 threads in one block.
host_read_kernel_example : (6000 ≤ 6000) × ReadsEach (simple_read 1 375 750) 2 (6000 / 8)
unfolding host_read_kernel
host_read_kernel_example =
    host_read_kernel_lem 2 8 4 6000 6000 {l = simple_read 1 375 750} (omega arith) (omega arith)
      refl

multicast_copy_example :
    let r = multicast_copy 1 (all_threads 1 512) 2 4002 numbers zeros in
    ((j : ℕ) → r.0 j ≡ (if ltb (j * 4) r.1 then numbers j else zeros j))
    × (get_adjusted_copy_size multicast_write 4 1 4002 ≡ ok r.1)
multicast_copy_example =
    multicast_copy_lem 1 4 1 4002 (all_threads 1 512) numbers zeros (all_threads-IsSchedule 1 512)
      (omega arith) (omega arith)

-- Two streams: both copies are enqueued and released, and the first blocker sees it.
abbrev started : System
started = record {
  enqueued = 5;
  latches = record { latch1 = true; latch2 = false };
  pc = update (update (λ i. start) 0 (waiting_first 1000)) 0 released;
  copying = update (λ i. false) 0 true;
  clock = 0;
}

started-Reach : Reach 2 1000 (λ i. single) 0 started
unfolding spin_step
started-Reach =
    let r1 = later (later begin (enqueue (omega arith))) (enqueue (omega arith)) in
    let r2 = later (later r1 (enqueue (omega arith))) (enqueue (omega arith)) in
    let r3 = later r2 (release refl) in
    let r4 = later r3 (spin 0 (omega arith) (omega arith)) in
    let r5 = later r4 (spin 0 (omega arith) (omega arith)) in
    later r5 (copy 0 (omega arith) (omega arith) refl)

copying-released_example : (started.enqueued ≡ suc (2 * 2)) ⊎ (started.pc 0 ≡ timed_out)
copying-released_example = copying-released {s = started} 0 started-Reach refl

-- A latch that is never set, and a clock that goes on by 300 in each of six steps.
spin_alone_example :
    (spin_alone with_latch1 1000
      (λ i. 1500 - 300 * i)
      6
      (record { latch1 = false; latch2 = false })
      start).1
    ≡ (if false then released else timed_out)
spin_alone_example =
    spin_alone_lem with_latch1 1000 (λ i. 1500 - 300 * i) 1
      (record { latch1 = false; latch2 = false }) (λ e. ground arith) (omega arith) (omega arith)
