-- ===== src/Testcase/Peer/Ends.antt =====
-- The device-to-device test cases come to their end, and what they leave.
use nvbandwidth.Prelude.{
  ℕ, ◌≡◌, ◌<◌, refl, Bool, true, not, ◌&&◌, Option, some, none, List, [], ◌∷◌, replicate, ◌==◌,
  if◌then◌else◌, arith,
}
use nvbandwidth.Double.{Double}
use nvbandwidth.Initiator.{ce, sm}
use nvbandwidth.Multinode.{prefer_src_context, prefer_dst_context}
use nvbandwidth.Buffers.{
  Outcome, Transfer, use_first_bw, vector_bw, MemcpyOperation, Heap, same_sizes,
}
use nvbandwidth.Buffers.Owned.{IsFresh}
use nvbandwidth.Buffers.Measured.{IsRestored}
use nvbandwidth.Testcase.{Readout, first_value, both_values, outputs, Run, each_peer}
use nvbandwidth.Testcase.Stored.{IsReadable, cells, measured}
use nvbandwidth.Testcase.Answers.{Answers, IsReadable-first, IsReadable-both}
use nvbandwidth.Testcase.Shapes.{Leaves}
use nvbandwidth.Testcase.Grid.{each_peer_lem}
use nvbandwidth.Testcase.Host.{operation, plain_operation}
use nvbandwidth.Testcase.Peer.{
  between_devices, device_to_device_read_ce, device_to_device_write_ce,
  device_to_device_bidir_read_ce, device_to_device_bidir_write_ce, device_to_device_read_sm,
  device_to_device_write_sm, device_to_device_bidir_read_sm, device_to_device_bidir_write_sm,
}

-- The test cases of this module.
pub data PeerTest : Type 0 where
  read_ce : PeerTest
  write_ce : PeerTest
  bidir_read_ce : PeerTest
  bidir_write_ce : PeerTest
  read_sm : PeerTest
  write_sm : PeerTest
  bidir_read_sm : PeerTest
  bidir_write_sm : PeerTest

-- The operation, what is read out, and the copies between the device of the row and that of the column.
abbrev pub peer_operation : PeerTest → MemcpyOperation
peer_operation read_ce = operation ce prefer_dst_context use_first_bw
peer_operation write_ce = plain_operation ce
peer_operation bidir_read_ce = operation ce prefer_dst_context vector_bw
peer_operation bidir_write_ce = operation ce prefer_src_context vector_bw
peer_operation read_sm = operation sm prefer_dst_context use_first_bw
peer_operation write_sm = plain_operation sm
peer_operation bidir_read_sm = operation sm prefer_dst_context vector_bw
peer_operation bidir_write_sm = operation sm prefer_src_context vector_bw

abbrev pub peer_readout : PeerTest → Readout
peer_readout read_ce = first_value
peer_readout write_ce = first_value
peer_readout read_sm = first_value
peer_readout write_sm = first_value
peer_readout _ = both_values

abbrev pub peer_copies : PeerTest → (size row column : ℕ) → List Transfer
peer_copies read_ce size k l = between_devices size l k ∷ []
peer_copies read_sm size k l = between_devices size l k ∷ []
peer_copies write_ce size k l = between_devices size k l ∷ []
peer_copies write_sm size k l = between_devices size k l ∷ []
peer_copies _ size k l = between_devices size l k ∷ between_devices size k l ∷ []

module _ {ℓ} {A : Type ℓ} ⦃d : Double A⦄ (core : MemcpyOperation → List Transfer → Outcome A)
    (access : ℕ → ℕ → Bool) where
  -- The `run` of each test case.
  unfoldable pub run_peer : PeerTest → (device_count size : ℕ) → Heap → Option (Run A)
  run_peer read_ce n size = device_to_device_read_ce core access n size
  run_peer write_ce n size = device_to_device_write_ce core access n size
  run_peer bidir_read_ce n size = device_to_device_bidir_read_ce core access n size
  run_peer bidir_write_ce n size = device_to_device_bidir_write_ce core access n size
  run_peer read_sm n size = device_to_device_read_sm core access n size
  run_peer write_sm n size = device_to_device_write_sm core access n size
  run_peer bidir_read_sm n size = device_to_device_bidir_read_sm core access n size
  run_peer bidir_write_sm n size = device_to_device_bidir_write_sm core access n size

  run_peer-eq-each_peer :
      (t : PeerTest) (n size : ℕ) (h : Heap)
      → run_peer t n size h
        ≡ each_peer core access n (peer_operation t) (peer_readout t) (peer_copies t size) h
  unfolding run_peer device_to_device_read_ce device_to_device_write_ce
      device_to_device_bidir_read_ce device_to_device_bidir_write_ce device_to_device_read_sm
      device_to_device_write_sm device_to_device_bidir_read_sm device_to_device_bidir_write_sm
  run_peer-eq-each_peer read_ce n size h = refl
  run_peer-eq-each_peer write_ce n size h = refl
  run_peer-eq-each_peer bidir_read_ce n size h = refl
  run_peer-eq-each_peer bidir_write_ce n size h = refl
  run_peer-eq-each_peer read_sm n size h = refl
  run_peer-eq-each_peer write_sm n size h = refl
  run_peer-eq-each_peer bidir_read_sm n size h = refl
  run_peer-eq-each_peer bidir_write_sm n size h = refl

  same_sizes-peer_copies :
      (t : PeerTest) (size k l : ℕ) → same_sizes (peer_copies t size k l) ≡ true
  same_sizes-peer_copies read_ce size k l = ground arith
  same_sizes-peer_copies write_ce size k l = ground arith
  same_sizes-peer_copies bidir_read_ce size k l = ground arith
  same_sizes-peer_copies bidir_write_ce size k l = ground arith
  same_sizes-peer_copies read_sm size k l = ground arith
  same_sizes-peer_copies write_sm size k l = ground arith
  same_sizes-peer_copies bidir_read_sm size k l = ground arith
  same_sizes-peer_copies bidir_write_sm size k l = ground arith

  IsReadable-peer :
      (t : PeerTest) (size k l : ℕ)
      → Answers core (peer_operation t) (peer_copies t size k l)
      → IsReadable core (peer_operation t) (peer_readout t) (peer_copies t size k l)
  IsReadable-peer read_ce size k l ans = IsReadable-first core _ _ ans (omega arith)
  IsReadable-peer write_ce size k l ans = IsReadable-first core _ _ ans (omega arith)
  IsReadable-peer bidir_read_ce size k l ans = IsReadable-both core _ _ ans refl
  IsReadable-peer bidir_write_ce size k l ans = IsReadable-both core _ _ ans refl
  IsReadable-peer read_sm size k l ans = IsReadable-first core _ _ ans (omega arith)
  IsReadable-peer write_sm size k l ans = IsReadable-first core _ _ ans (omega arith)
  IsReadable-peer bidir_read_sm size k l ans = IsReadable-both core _ _ ans refl
  IsReadable-peer bidir_write_sm size k l ans = IsReadable-both core _ _ ans refl

  pub run_peer-Leaves :
      (t : PeerTest) (n size : ℕ) (h : Heap)
      → ((i j : ℕ) → Answers core (peer_operation t) (peer_copies t size i j))
      → IsFresh h
      → Leaves h n n
          (λ (k l : ℕ).
            if not (l == k) && access k l
            then measured core (peer_operation t) (peer_readout t) (peer_copies t size k l)
            else replicate (outputs (peer_readout t)) (some none))
          (run_peer t n size h)
  run_peer-Leaves t n size h ans f = rw (run_peer-eq-each_peer t n size h) (
      each_peer_lem core access n (peer_operation t) (peer_readout t) (peer_copies t size) h f
        (λ i j. same_sizes-peer_copies t size i j) (λ i j. IsReadable-peer t size i j (ans i j)))

pub run_peer_lem {ℓ} :
    {A : Type ℓ} ⦃d : Double A⦄ (core : MemcpyOperation → List Transfer → Outcome A)
    (access : ℕ → ℕ → Bool) (t : PeerTest) (n size k l : ℕ) (h : Heap)
    → ((i j : ℕ) → Answers core (peer_operation t) (peer_copies t size i j))
    → IsFresh h
    → k < n
    → l < n
    → (s : Run A) × (run_peer core access t n size h ≡ some s)
      × IsRestored h s.heap
      × (cells s.results k l ≡ (
          if not (l == k) && access k l
          then measured core (peer_operation t) (peer_readout t) (peer_copies t size k l)
          else replicate (outputs (peer_readout t)) (some none)))
run_peer_lem core access t n size k l h ans f a b =
    let (s, e, r, g) = run_peer-Leaves core access t n size h ans f in (s, e, r, g k l a b)
