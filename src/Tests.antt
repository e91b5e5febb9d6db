-- ===== src/Tests.antt =====
-- The theorems at concrete inputs, and the inputs.
pub mod Kernels
pub mod Samples
pub mod Host
pub mod Matrices
pub mod Pairs
pub mod Runs
pub mod Chases
pub mod Latency
pub mod Summaries
use nvbandwidth.Prelude.{ℕ, ◌+◌}
use nvbandwidth.Kernel.Memory.{Memory}
use nvbandwidth.Kernel.Grid.{all_threads}
use nvbandwidth.Kernel.SplitWarp.{Buffers}
use nvbandwidth.Initiator.{Run}

abbrev pub zeros : Memory
zeros j = 0

abbrev pub numbers : Memory
numbers j = j + 1

abbrev pub buffers : Buffers
buffers = record { dst = zeros; src = numbers }

-- A run in which `f` blocks of 1024 threads fill and compare, and `g` blocks of `n` clear and copy.
abbrev pub run_of : (f g n : ℕ) → Run
run_of f g n = record {
  scratch = zeros;
  fill_dst = all_threads f 1024;
  fill_src = all_threads f 1024;
  clear_dst = all_threads g n;
  clear_src = all_threads g n;
  copy = all_threads g n;
  compare_dst = all_threads f 1024;
  compare_src = all_threads f 1024;
}
