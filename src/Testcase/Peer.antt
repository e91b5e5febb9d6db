-- ===== src/Testcase/Peer.antt =====
-- testcases_ce.cpp and testcases_sm.cpp: the test cases that copy between two devices, each the `run`
-- of the class of its name. Whether a device has peer access to another one is an argument.
pub mod Ends
use nvbandwidth.Prelude.{ℕ, Bool, Option, List, [], ◌∷◌}
use nvbandwidth.Double.{Double}
use nvbandwidth.Initiator.{ce, sm}
use nvbandwidth.Multinode.{prefer_src_context, prefer_dst_context}
use nvbandwidth.Buffers.{Outcome, Transfer, use_first_bw, vector_bw, MemcpyOperation, Heap}
use nvbandwidth.Testcase.{Run, first_value, both_values, each_peer}
use nvbandwidth.Testcase.Host.{operation, plain_operation, device_buffer}

abbrev pub between_devices : (size from to : ℕ) → Transfer
between_devices size i j = (device_buffer size i, device_buffer size j)

module _ {ℓ} {A : Type ℓ} ⦃d : Double A⦄ (core : MemcpyOperation → List Transfer → Outcome A)
    (access : ℕ → ℕ → Bool) (device_count size : ℕ) where
  unfoldable pub device_to_device_read_ce : Heap → Option (Run A)
  unfolding each_peer
  device_to_device_read_ce =
      each_peer core access device_count (operation ce prefer_dst_context use_first_bw) first_value
        (λ (src peer : ℕ). between_devices size peer src ∷ [])

  unfoldable pub device_to_device_write_ce : Heap → Option (Run A)
  unfolding each_peer
  device_to_device_write_ce =
      each_peer core access device_count (plain_operation ce) first_value
        (λ (src peer : ℕ). between_devices size src peer ∷ [])

  unfoldable pub device_to_device_bidir_read_ce : Heap → Option (Run A)
  unfolding each_peer
  device_to_device_bidir_read_ce =
      each_peer core access device_count (operation ce prefer_dst_context vector_bw) both_values
        (λ (src peer : ℕ). between_devices size peer src ∷ between_devices size src peer ∷ [])

  -- The buffers are in the order of the read test.
  unfoldable pub device_to_device_bidir_write_ce : Heap → Option (Run A)
  unfolding each_peer
  device_to_device_bidir_write_ce =
      each_peer core access device_count (operation ce prefer_src_context vector_bw) both_values
        (λ (src peer : ℕ). between_devices size peer src ∷ between_devices size src peer ∷ [])

  unfoldable pub device_to_device_read_sm : Heap → Option (Run A)
  unfolding each_peer
  device_to_device_read_sm =
      each_peer core access device_count (operation sm prefer_dst_context use_first_bw) first_value
        (λ (src peer : ℕ). between_devices size peer src ∷ [])

  unfoldable pub device_to_device_write_sm : Heap → Option (Run A)
  unfolding each_peer
  device_to_device_write_sm =
      each_peer core access device_count (plain_operation sm) first_value
        (λ (src peer : ℕ). between_devices size src peer ∷ [])

  unfoldable pub device_to_device_bidir_read_sm : Heap → Option (Run A)
  unfolding each_peer
  device_to_device_bidir_read_sm =
      each_peer core access device_count (operation sm prefer_dst_context vector_bw) both_values
        (λ (src peer : ℕ). between_devices size peer src ∷ between_devices size src peer ∷ [])

  unfoldable pub device_to_device_bidir_write_sm : Heap → Option (Run A)
  unfolding each_peer
  device_to_device_bidir_write_sm =
      each_peer core access device_count (operation sm prefer_src_context vector_bw) both_values
        (λ (src peer : ℕ). between_devices size peer src ∷ between_devices size src peer ∷ [])
