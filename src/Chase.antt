-- ===== src/Chase.antt =====
-- testcase.cpp: the nodes that point at each other in a buffer, for the test cases that chase pointers.
-- A pointer is an address; the buffer starts at the address `base`, and a node has `node` bytes, of which
-- only its field `next` is modelled.
pub mod Path
pub mod Latency
pub mod Bandwidth
use nvbandwidth.Prelude.{ℕ, zero, suc, ◌+◌, ◌*◌, ◌/◌, ◌%◌, ◌==◌, if◌then◌else◌}
use nvbandwidth.Config.{u64_mod}
use nvbandwidth.Kernel.Launch.{Result, ok, throw, unsupported_ptr_chase_load_bytes}

-- The field `next` of the node at each address.
abbrev pub Nodes : Type 0
Nodes = ℕ → ℕ

abbrev pub put : ℕ → ℕ → Nodes → Nodes
put p v m = λ q. if q == p then v else m q

-- `sizeof(LatencyNode)`.
abbrev pub latency_node : ℕ
latency_node = 8

-- The loop over the nodes, which has `rounds` to go from `i`.
unfoldable pub init_nodes : (node stride base n_ptrs i rounds : ℕ) → Nodes → Nodes
init_nodes node stride base n_ptrs i zero m = m
init_nodes node stride base n_ptrs i (suc k) m =
    init_nodes node stride base n_ptrs (suc i) k
      (put (base + i * node) (base + (i + stride) % u64_mod % n_ptrs * node) m)

-- `latencyHelper`. For a buffer of a device it makes the same stores, by copies from the host.
unfoldable pub latency_helper : (stride base size : ℕ) → Nodes → Nodes
unfolding init_nodes
latency_helper stride base size =
    let n_ptrs = size / latency_node in init_nodes latency_node stride base n_ptrs 0 n_ptrs

-- `initHostPtrChaseNodes`, for a type of nodes of `node` bytes.
unfoldable pub init_host_ptr_chase_nodes : (node stride base size : ℕ) → Nodes → Nodes
unfolding init_nodes
init_host_ptr_chase_nodes node stride base size m =
    let n_ptrs = size / node in
    if n_ptrs == 0 then m else init_nodes node stride base n_ptrs 0 n_ptrs m

-- `bandwidthPtrChaseHelper`.
unfoldable pub bandwidth_ptr_chase_helper :
    (ptr_chase_load_bytes stride base size : ℕ) → Nodes → Result Nodes
unfolding init_host_ptr_chase_nodes
bandwidth_ptr_chase_helper load_bytes stride base size m =
    if load_bytes == 8
    then ok (init_host_ptr_chase_nodes 8 stride base size m)
    else if load_bytes == 16
    then ok (init_host_ptr_chase_nodes 16 stride base size m)
    else if load_bytes == 32
    then ok (init_host_ptr_chase_nodes 32 stride base size m)
    else throw unsupported_ptr_chase_load_bytes
