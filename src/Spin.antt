-- ===== src/Spin.antt =====
-- kernels.cu, memcpy.cpp and multinode_memcpy.cpp: the kernels that hold streams back until a latch is
-- released, and the part of `doMemcpyCore` that blocks the streams, enqueues the copies and releases
-- them. An iteration of a spin loop is one step; steps of the kernels, of the host and of the clock
-- come in any order.
pub mod Held
pub mod Started
pub mod Progress
use nvbandwidth.Prelude.{
  ℕ, zero, suc, ◌+◌, ◌*◌, ◌%◌, ◌<◌, ◌≡◌, Bool, true, false, not, ◌&&◌, ◌==◌, ltb, if◌then◌else◌,
}
use nvbandwidth.Config.{u64_mod, ullong_max}

-- The kernels: `spinKernelDevice`, and `spinKernelDeviceMultistage` with and without its first latch.
pub data Kind : Type 0 where
  single : Kind
  with_latch1 : Kind
  without_latch1 : Kind

-- Where a kernel is: `waiting_first` and `waiting_second` are its loops, with their `endTime`; it ends
-- released by its last latch, or at its time-out.
pub data Pc : Type 0 where
  start : Pc
  waiting_first : ℕ → Pc
  releasing : Pc
  before_second : Pc
  waiting_second : ℕ → Pc
  released : Pc
  timed_out : Pc

pub record Latches : Type 0 where
  pub latch1 : Bool
  pub latch2 : Bool

-- `spinKernel` and `spinKernelMultistage`: the time-out in clocks.
unfoldable pub timeout_clocks : (clocks_per_ms timeout_ms : ℕ) → ℕ
timeout_clocks clocks_per_ms timeout_ms = clocks_per_ms * timeout_ms % u64_mod

unfoldable pub end_time : (timeout clock : ℕ) → ℕ
end_time timeout clock = (clock + timeout) % u64_mod

-- `timeoutClocks != ~0ULL && clock64() > endTime`
unfoldable pub expired : (timeout clock end : ℕ) → Bool
expired timeout clock end = not (timeout == ullong_max) && ltb end clock

-- One iteration of a loop on a latch.
unfoldable pub poll : (latch : Bool) (timeout clock end : ℕ) → (next again : Pc) → Pc
unfolding expired
poll latch timeout clock end next again =
    if latch then next else if expired timeout clock end then timed_out else again

-- A step of `spinKernelDevice`, whose latch is the first one here.
unfoldable pub spin_kernel_device : (timeout clock : ℕ) → Latches → Pc → Pc
unfolding end_time poll
spin_kernel_device timeout clock l start = waiting_first (end_time timeout clock)
spin_kernel_device timeout clock l (waiting_first e) =
    poll l.latch1 timeout clock e released (waiting_first e)
spin_kernel_device timeout clock l p = p

-- A step of `spinKernelDeviceMultistage`.
unfoldable pub spin_kernel_device_multistage :
    (has_latch1 : Bool) (timeout clock : ℕ) → Latches → Pc → Latches × Pc
unfolding end_time poll
spin_kernel_device_multistage has_latch1 timeout clock l start =
    let e = end_time timeout clock in (l, if has_latch1 then waiting_first e else waiting_second e)
spin_kernel_device_multistage has_latch1 timeout clock l (waiting_first e) =
    (l, poll l.latch1 timeout clock e releasing (waiting_first e))
spin_kernel_device_multistage has_latch1 timeout clock l releasing =
    (record l { latch2 = true }, before_second)
spin_kernel_device_multistage has_latch1 timeout clock l before_second =
    (l, waiting_second (end_time timeout clock))
spin_kernel_device_multistage has_latch1 timeout clock l (waiting_second e) =
    (l, poll l.latch2 timeout clock e released (waiting_second e))
spin_kernel_device_multistage has_latch1 timeout clock l p = (l, p)

-- A step of the kernel that a node helper starts in a stream.
unfoldable pub spin_step : Kind → (timeout clock : ℕ) → Latches → Pc → Latches × Pc
unfolding spin_kernel_device spin_kernel_device_multistage
spin_step single timeout clock l p = (l, spin_kernel_device timeout clock l p)
spin_step with_latch1 timeout clock l p = spin_kernel_device_multistage true timeout clock l p
spin_step without_latch1 timeout clock l p = spin_kernel_device_multistage false timeout clock l p

-- `NodeHelperMulti::streamBlockerBlock`: which kernel it starts.
unfoldable pub multi_kind : (world_rank rank_of_first_memcpy : ℕ) → Kind
multi_kind world_rank rank_of_first_memcpy =
    if world_rank == rank_of_first_memcpy then with_latch1 else without_latch1

abbrev pub is_finished : Pc → Bool
is_finished released = true
is_finished timed_out = true
is_finished _ = false

-- One process with its streams. `enqueued` counts what its host has done: it starts the blocker of each
-- stream, then enqueues the copy of each, and then releases them.
pub record System : Type 0 where
  pub enqueued : ℕ
  pub latches : Latches
  pub pc : ℕ → Pc
  pub copying : ℕ → Bool
  pub clock : ℕ

abbrev pub update {ℓ} : {A : Type ℓ} → (ℕ → A) → ℕ → A → ℕ → A
update f i v = λ j. if j == i then v else f j

-- After `streamBlockerReset`.
abbrev pub reset : (clock : ℕ) → System
reset clock = record {
  enqueued = 0;
  latches = record { latch1 = false; latch2 = false };
  pc = λ i. start;
  copying = λ i. false;
  clock = clock;
}

-- The steps of a process with so many streams. A stream runs its blocker once it is started, and its copy
-- once it is enqueued and the blocker has ended.
pub data Step (streams timeout : ℕ) (kind : ℕ → Kind) (s : System) : System → Type 0 where
  enqueue :
      s.enqueued < 2 * streams
      → Step streams timeout kind s (record s { enqueued = suc s.enqueued })
  release :
      s.enqueued ≡ 2 * streams
      → Step streams timeout kind s
          (record s { enqueued = suc s.enqueued; latches = record s.latches { latch1 = true } })
  spin :
      (i : ℕ)
      → i < streams
      → i < s.enqueued
      → Step streams timeout kind s (record s {
        latches = (spin_step (kind i) timeout s.clock s.latches (s.pc i)).0;
        pc = update s.pc i (spin_step (kind i) timeout s.clock s.latches (s.pc i)).1;
      })
  copy :
      (i : ℕ)
      → i < streams
      → streams + i < s.enqueued
      → is_finished (s.pc i) ≡ true
      → Step streams timeout kind s (record s { copying = update s.copying i true })
  tick : Step streams timeout kind s (record s { clock = suc s.clock })

pub data Reach (streams timeout : ℕ) (kind : ℕ → Kind) (clock : ℕ) : System → Type 0 where
  begin : Reach streams timeout kind clock (reset clock)
  later :
      {s t : System}
      → Reach streams timeout kind clock s
      → Step streams timeout kind s t
      → Reach streams timeout kind clock t
