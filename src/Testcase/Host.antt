-- ===== src/Testcase/Host.antt =====
-- testcases_ce.cpp, testcases_sm.cpp and testcase.cpp: the test cases that copy between the host and
-- each device, and within a device. Each is the `run` of the class of its name. An order for
-- interference is of double the size.
pub mod Plan
pub mod Ends
use nvbandwidth.Prelude.{
  ℕ, zero, suc, ◌*◌, ◌%◌, Bool, true, false, Option, List, [], ◌∷◌, ◌++◌, ◌==◌, if◌then◌else◌,
}
use nvbandwidth.Config.{u64_mod}
use nvbandwidth.Double.{Double}
use nvbandwidth.Initiator.{Initiator, ce, sm, sm_split_warp}
use nvbandwidth.Multinode.{ContextPreference, prefer_src_context}
use nvbandwidth.Buffers.{
  Outcome, Buffer, BufferKind, host, device, Transfer, BandwidthValue, use_first_bw,
  MemcpyOperation, Heap,
}
use nvbandwidth.Testcase.{Run, each_device}

-- A memcpy operation with `NodeHelperSingle`.
abbrev pub operation : Initiator → ContextPreference → BandwidthValue → MemcpyOperation
operation initiator preference value = record {
  memcpy_initiator = initiator;
  multinode = false;
  ctx_preference = preference;
  bandwidth_value = value;
}

-- The arguments that the constructor has by default.
abbrev pub plain_operation : Initiator → MemcpyOperation
plain_operation initiator = operation initiator prefer_src_context use_first_bw

abbrev pub host_buffer : (size device_id : ℕ) → Buffer
host_buffer size device_id = record { kind = host; buffer_size = size; owner = device_id }

abbrev pub device_buffer : (size device_id : ℕ) → Buffer
device_buffer size device_id = record { kind = device; buffer_size = size; owner = device_id }

-- `size * 2`
abbrev pub double_size : ℕ → ℕ
double_size size = size * 2 % u64_mod

abbrev pub to_device : (size device_id : ℕ) → Transfer
to_device size i = (host_buffer size i, device_buffer size i)

abbrev pub to_host : (size device_id : ℕ) → Transfer
to_host size i = (device_buffer size i, host_buffer size i)

-- The loop over the other devices, each of which adds copies.
unfoldable pub interference :
    (copies : ℕ → List Transfer) → (device_id from rounds : ℕ) → List Transfer
interference copies device_id from zero = []
interference copies device_id from (suc k) =
    let rest = interference copies device_id (suc from) k in
    if from == device_id then rest else copies from ++ rest

module _ {ℓ} {A : Type ℓ} ⦃d : Double A⦄ (core : MemcpyOperation → List Transfer → Outcome A)
    (device_count size : ℕ) where
  unfoldable pub host_to_device_ce : Heap → Option (Run A)
  unfolding each_device
  host_to_device_ce =
      each_device core device_count (plain_operation ce) (λ (i : ℕ). to_device size i ∷ [])

  unfoldable pub device_to_host_ce : Heap → Option (Run A)
  unfolding each_device
  device_to_host_ce =
      each_device core device_count (plain_operation ce) (λ (i : ℕ). to_host size i ∷ [])

  unfoldable pub host_to_device_bidir_ce : Heap → Option (Run A)
  unfolding each_device
  host_to_device_bidir_ce =
      each_device core device_count (plain_operation ce)
        (λ (i : ℕ). to_device size i ∷ to_host (double_size size) i ∷ [])

  unfoldable pub device_to_host_bidir_ce : Heap → Option (Run A)
  unfolding each_device
  device_to_host_bidir_ce =
      each_device core device_count (plain_operation ce)
        (λ (i : ℕ). to_host size i ∷ to_device (double_size size) i ∷ [])

  unfoldable pub device_local_copy : Heap → Option (Run A)
  unfolding each_device
  device_local_copy =
      each_device core device_count (plain_operation ce)
        (λ (i : ℕ). (device_buffer size i, device_buffer size i) ∷ [])

  unfoldable pub host_to_device_sm : Heap → Option (Run A)
  unfolding each_device
  host_to_device_sm =
      each_device core device_count (plain_operation sm) (λ (i : ℕ). to_device size i ∷ [])

  unfoldable pub device_to_host_sm : Heap → Option (Run A)
  unfolding each_device
  device_to_host_sm =
      each_device core device_count (plain_operation sm) (λ (i : ℕ). to_host size i ∷ [])

  unfoldable pub host_to_device_bidir_sm : Heap → Option (Run A)
  unfolding each_device
  host_to_device_bidir_sm =
      each_device core device_count (plain_operation sm_split_warp)
        (λ (i : ℕ). to_device size i ∷ [])

  -- The host is the source here too.
  unfoldable pub device_to_host_bidir_sm : Heap → Option (Run A)
  unfolding each_device
  device_to_host_bidir_sm =
      each_device core device_count (plain_operation sm_split_warp)
        (λ (i : ℕ). to_device size i ∷ [])

  unfoldable pub all_host_helper : MemcpyOperation → (source_is_host : Bool) → Heap → Option (Run A)
  unfolding each_device interference
  all_host_helper op source_is_host =
      let copy = λ (s i : ℕ). if source_is_host then to_device s i else to_host s i in
      each_device core device_count op (λ (i : ℕ).
        copy size i ∷ interference (λ (j : ℕ). copy (double_size size) j ∷ []) i 0 device_count)

  unfoldable pub all_host_bidir_helper :
      MemcpyOperation → (source_is_host : Bool) → Heap → Option (Run A)
  unfolding each_device interference
  all_host_bidir_helper op source_is_host = each_device core device_count op (λ (i : ℕ).
      (if source_is_host then to_device size i else to_host size i)
      ∷ (if source_is_host then to_host (double_size size) i else to_device (double_size size) i)
      ∷ interference (λ (j : ℕ). to_host (double_size size) j ∷ to_device (double_size size) j ∷ [])
          i 0 device_count)

  unfoldable pub all_to_host_ce : Heap → Option (Run A)
  unfolding all_host_helper
  all_to_host_ce = all_host_helper (plain_operation ce) false

  unfoldable pub all_to_host_bidir_ce : Heap → Option (Run A)
  unfolding all_host_bidir_helper
  all_to_host_bidir_ce = all_host_bidir_helper (plain_operation ce) false

  unfoldable pub host_to_all_ce : Heap → Option (Run A)
  unfolding all_host_helper
  host_to_all_ce = all_host_helper (plain_operation ce) true

  unfoldable pub host_to_all_bidir_ce : Heap → Option (Run A)
  unfolding all_host_bidir_helper
  host_to_all_bidir_ce = all_host_bidir_helper (plain_operation ce) true

  unfoldable pub all_to_host_sm : Heap → Option (Run A)
  unfolding all_host_helper
  all_to_host_sm = all_host_helper (plain_operation sm) false

  unfoldable pub host_to_all_sm : Heap → Option (Run A)
  unfolding all_host_helper
  host_to_all_sm = all_host_helper (plain_operation sm) true

  -- The split-warp initiator copies both ways, so the other devices take part with one copy each.
  unfoldable pub all_to_host_bidir_sm : Heap → Option (Run A)
  unfolding each_device interference
  all_to_host_bidir_sm =
      each_device core device_count (plain_operation sm_split_warp)
        (λ (i : ℕ). to_host size i ∷ interference (λ (j : ℕ). to_host size j ∷ []) i 0 device_count)

  unfoldable pub host_to_all_bidir_sm : Heap → Option (Run A)
  unfolding each_device interference
  host_to_all_bidir_sm =
      each_device core device_count (plain_operation sm_split_warp) (λ (i : ℕ).
        to_device size i ∷ interference (λ (j : ℕ). to_host size j ∷ []) i 0 device_count)
