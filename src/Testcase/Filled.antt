-- ===== src/Testcase/Filled.antt =====
-- The matrices of the device-to-device test cases in one direction with the copy engine.
use nvbandwidth.Prelude.{
  ℕ, ◌≡◌, ◌<◌, Bool, not, ◌&&◌, some, none, List, [], ◌∷◌, ◌==◌, if◌then◌else◌,
}
use nvbandwidth.Double.{Double}
use nvbandwidth.Initiator.{ce}
use nvbandwidth.Multinode.{prefer_dst_context}
use nvbandwidth.Buffers.{Outcome, Transfer, use_first_bw, MemcpyOperation, Heap}
use nvbandwidth.Buffers.Owned.{IsFresh}
use nvbandwidth.Testcase.{Run, first_value}
use nvbandwidth.Testcase.Stored.{cells, measured}
use nvbandwidth.Testcase.Answers.{Answers}
use nvbandwidth.Testcase.Host.{operation, plain_operation}
use nvbandwidth.Testcase.Peer.{between_devices, device_to_device_read_ce, device_to_device_write_ce}
use nvbandwidth.Testcase.Peer.Ends.{read_ce, write_ce, run_peer, run_peer_lem}

-- The write test measures the copy from each device to each other one that it has peer access to,
-- at the row of the source and the column of the destination; all other cells stay empty. The
-- conditions are that the heap is fresh and that the measurements return, with as many values as
-- the operation asks for: no copy throws, and no comparison with a pattern ends the process.
pub device_to_device_write_lem {ℓ} :
    {A : Type ℓ} ⦃d : Double A⦄ (core : MemcpyOperation → List Transfer → Outcome A)
    (access : ℕ → ℕ → Bool) (n size k l : ℕ) (h : Heap)
    → ((i j : ℕ) → Answers core (plain_operation ce) (between_devices size i j ∷ []))
    → IsFresh h
    → k < n
    → l < n
    → (s : Run A) × (device_to_device_write_ce core access n size h ≡ some s)
      × (cells s.results k l ≡ (
          if not (l == k) && access k l
          then measured core (plain_operation ce) first_value (between_devices size k l ∷ [])
          else some none ∷ []))
unfolding run_peer
device_to_device_write_lem core access n size k l h ans f a b =
    let (s, e, r, g) = run_peer_lem core access write_ce n size k l h ans f a b in (s, e, g)

-- The read test measures, at the row of a device and the column of another one that it has peer
-- access to, the copy from the second to the first; all other cells stay empty. The conditions are
-- that the heap is fresh and that the measurements return, with as many values as the operation
-- asks for: no copy throws, and no comparison with a pattern ends the process.
pub device_to_device_read_lem {ℓ} :
    {A : Type ℓ} ⦃d : Double A⦄ (core : MemcpyOperation → List Transfer → Outcome A)
    (access : ℕ → ℕ → Bool) (n size k l : ℕ) (h : Heap)
    → ((i j : ℕ)
        → Answers core
            (operation ce prefer_dst_context use_first_bw)
            (between_devices size j i ∷ []))
    → IsFresh h
    → k < n
    → l < n
    → (s : Run A) × (device_to_device_read_ce core access n size h ≡ some s)
      × (cells s.results k l ≡ (
          if not (l == k) && access k l
          then measured core
              (operation ce prefer_dst_context use_first_bw)
              first_value
              (between_devices size l k ∷ [])
          else some none ∷ []))
unfolding run_peer
device_to_device_read_lem core access n size k l h ans f a b =
    let (s, e, r, g) = run_peer_lem core access read_ce n size k l h ans f a b in (s, e, g)
