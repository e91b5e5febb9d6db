-- ===== src/Tests/Chases.antt =====
-- The theorems on the test cases that chase pointers at concrete inputs.
use nvbandwidth.Prelude.{ℕ, ◌+◌, ◌*◌, false, arith}
use nvbandwidth.Double.{nat_double}
use nvbandwidth.Kernel.Grid.{all_threads}
use nvbandwidth.Chase.{Nodes}
use nvbandwidth.Chase.Bandwidth.{Setup}
use nvbandwidth.Testcase.Chase.{Chasing}
use nvbandwidth.Testcase.Chase.Ends.{IsReady}

abbrev pub no_nodes : Nodes
no_nodes p = 0

-- Two chains on each of two multiprocessors, and three samples after a warm-up.
abbrev pub setup : Setup ℕ
setup = record {
  sm_count = 2;
  chains_per_sm = 2;
  warmup_count = 1;
  average_loop_count = 3;
  use_mean = false;
  ts = all_threads 2 2;
  elapsed_us = λ n. n + 1;
}

-- Buffers of six nodes of 8 bytes with a stride of 2; the places of the heap are 4096 bytes apart.
abbrev pub chasing : Chasing ℕ
chasing = record {
  stride = 2;
  size = 48;
  address = λ place. 4096 * (place + 1);
  contents = λ place. no_nodes;
  sm_count = 2;
  elapsed_ms = λ src owner iteration block. 1000 * (src + owner + block + 1);
  load_bytes = 16;
  major = λ i. 9;
  setup = λ i. setup;
}

pub chasing-IsReady : IsReady chasing
chasing-IsReady = record { has_node = omega arith; fits = omega arith; real = λ place. omega arith }
