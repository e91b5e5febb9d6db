-- ===== src/Testcase/Host/Plan.antt =====
-- What each of the host test cases measures: its operation, and the copies of each device.
use nvbandwidth.Prelude.{ℕ, ◌≡◌, refl, Option, List, [], ◌∷◌, ◌++◌}
use nvbandwidth.Double.{Double}
use nvbandwidth.Initiator.{ce, sm, sm_split_warp}
use nvbandwidth.Buffers.{Outcome, Transfer, MemcpyOperation, Heap}
use nvbandwidth.Testcase.{Run, each_device}
use nvbandwidth.Testcase.Host.{
  plain_operation, device_buffer, double_size, to_device, to_host, interference, host_to_device_ce,
  device_to_host_ce, host_to_device_bidir_ce, device_to_host_bidir_ce, device_local_copy,
  host_to_device_sm, device_to_host_sm, host_to_device_bidir_sm, device_to_host_bidir_sm,
  all_host_helper, all_host_bidir_helper, all_to_host_ce, all_to_host_bidir_ce, host_to_all_ce,
  host_to_all_bidir_ce, all_to_host_sm, host_to_all_sm, all_to_host_bidir_sm, host_to_all_bidir_sm,
}

-- The test cases of this module.
pub data HostTest : Type 0 where
  h2d_ce : HostTest
  d2h_ce : HostTest
  h2d_bidir_ce : HostTest
  d2h_bidir_ce : HostTest
  all_d2h_ce : HostTest
  all_d2h_bidir_ce : HostTest
  all_h2d_ce : HostTest
  all_h2d_bidir_ce : HostTest
  h2d_sm : HostTest
  d2h_sm : HostTest
  h2d_bidir_sm : HostTest
  d2h_bidir_sm : HostTest
  all_d2h_sm : HostTest
  all_d2h_bidir_sm : HostTest
  all_h2d_sm : HostTest
  all_h2d_bidir_sm : HostTest
  local_copy : HostTest

-- The operation that a test case measures with.
abbrev pub host_operation : HostTest → MemcpyOperation
host_operation h2d_sm = plain_operation sm
host_operation d2h_sm = plain_operation sm
host_operation h2d_bidir_sm = plain_operation sm_split_warp
host_operation d2h_bidir_sm = plain_operation sm_split_warp
host_operation all_d2h_sm = plain_operation sm
host_operation all_d2h_bidir_sm = plain_operation sm_split_warp
host_operation all_h2d_sm = plain_operation sm
host_operation all_h2d_bidir_sm = plain_operation sm_split_warp
host_operation _ = plain_operation ce

-- The first copy, whose bandwidth is the result.
abbrev pub reported : HostTest → (size device_id : ℕ) → Transfer
reported d2h_ce size i = to_host size i
reported d2h_bidir_ce size i = to_host size i
reported all_d2h_ce size i = to_host size i
reported all_d2h_bidir_ce size i = to_host size i
reported d2h_sm size i = to_host size i
reported all_d2h_sm size i = to_host size i
reported all_d2h_bidir_sm size i = to_host size i
reported local_copy size i = (device_buffer size i, device_buffer size i)
reported _ size i = to_device size i

-- The copies on the same device that run at the same time.
abbrev pub opposed : HostTest → (size device_id : ℕ) → List Transfer
opposed h2d_bidir_ce size i = to_host (double_size size) i ∷ []
opposed d2h_bidir_ce size i = to_device (double_size size) i ∷ []
opposed all_d2h_bidir_ce size i = to_device (double_size size) i ∷ []
opposed all_h2d_bidir_ce size i = to_host (double_size size) i ∷ []
opposed _ size i = []

-- Those on the other devices.
abbrev pub others : HostTest → (device_count size device_id : ℕ) → List Transfer
others all_d2h_ce n size i = interference (λ (j : ℕ). to_host (double_size size) j ∷ []) i 0 n
others all_d2h_bidir_ce n size i =
    interference (λ (j : ℕ). to_host (double_size size) j ∷ to_device (double_size size) j ∷ []) i 0
      n
others all_h2d_ce n size i = interference (λ (j : ℕ). to_device (double_size size) j ∷ []) i 0 n
others all_h2d_bidir_ce n size i =
    interference (λ (j : ℕ). to_host (double_size size) j ∷ to_device (double_size size) j ∷ []) i 0
      n
others all_d2h_sm n size i = interference (λ (j : ℕ). to_host (double_size size) j ∷ []) i 0 n
others all_d2h_bidir_sm n size i = interference (λ (j : ℕ). to_host size j ∷ []) i 0 n
others all_h2d_sm n size i = interference (λ (j : ℕ). to_device (double_size size) j ∷ []) i 0 n
others all_h2d_bidir_sm n size i = interference (λ (j : ℕ). to_host size j ∷ []) i 0 n
others _ n size i = []

abbrev pub host_copies : HostTest → (device_count size device_id : ℕ) → List Transfer
host_copies t n size i = reported t size i ∷ opposed t size i ++ others t n size i

module _ {ℓ} {A : Type ℓ} ⦃d : Double A⦄ (core : MemcpyOperation → List Transfer → Outcome A) where
  -- The `run` of each test case.
  unfoldable pub run_host : HostTest → (device_count size : ℕ) → Heap → Option (Run A)
  run_host h2d_ce n size = host_to_device_ce core n size
  run_host d2h_ce n size = device_to_host_ce core n size
  run_host h2d_bidir_ce n size = host_to_device_bidir_ce core n size
  run_host d2h_bidir_ce n size = device_to_host_bidir_ce core n size
  run_host all_d2h_ce n size = all_to_host_ce core n size
  run_host all_d2h_bidir_ce n size = all_to_host_bidir_ce core n size
  run_host all_h2d_ce n size = host_to_all_ce core n size
  run_host all_h2d_bidir_ce n size = host_to_all_bidir_ce core n size
  run_host h2d_sm n size = host_to_device_sm core n size
  run_host d2h_sm n size = device_to_host_sm core n size
  run_host h2d_bidir_sm n size = host_to_device_bidir_sm core n size
  run_host d2h_bidir_sm n size = device_to_host_bidir_sm core n size
  run_host all_d2h_sm n size = all_to_host_sm core n size
  run_host all_d2h_bidir_sm n size = all_to_host_bidir_sm core n size
  run_host all_h2d_sm n size = host_to_all_sm core n size
  run_host all_h2d_bidir_sm n size = host_to_all_bidir_sm core n size
  run_host local_copy n size = device_local_copy core n size

  pub run_host-eq-each_device :
      (t : HostTest) (n size : ℕ) (h : Heap)
      → run_host t n size h
        ≡ each_device core n (host_operation t) (λ (i : ℕ). host_copies t n size i) h
  unfolding run_host host_to_device_ce device_to_host_ce host_to_device_bidir_ce
      device_to_host_bidir_ce device_local_copy host_to_device_sm device_to_host_sm
      host_to_device_bidir_sm device_to_host_bidir_sm all_host_helper all_host_bidir_helper
      all_to_host_ce all_to_host_bidir_ce host_to_all_ce host_to_all_bidir_ce all_to_host_sm
      host_to_all_sm all_to_host_bidir_sm host_to_all_bidir_sm
  run_host-eq-each_device h2d_ce n size h = refl
  run_host-eq-each_device d2h_ce n size h = refl
  run_host-eq-each_device h2d_bidir_ce n size h = refl
  run_host-eq-each_device d2h_bidir_ce n size h = refl
  run_host-eq-each_device all_d2h_ce n size h = refl
  run_host-eq-each_device all_d2h_bidir_ce n size h = refl
  run_host-eq-each_device all_h2d_ce n size h = refl
  run_host-eq-each_device all_h2d_bidir_ce n size h = refl
  run_host-eq-each_device h2d_sm n size h = refl
  run_host-eq-each_device d2h_sm n size h = refl
  run_host-eq-each_device h2d_bidir_sm n size h = refl
  run_host-eq-each_device d2h_bidir_sm n size h = refl
  run_host-eq-each_device all_d2h_sm n size h = refl
  run_host-eq-each_device all_d2h_bidir_sm n size h = refl
  run_host-eq-each_device all_h2d_sm n size h = refl
  run_host-eq-each_device all_h2d_bidir_sm n size h = refl
  run_host-eq-each_device local_copy n size h = refl
