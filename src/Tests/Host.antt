-- ===== src/Tests/Host.antt =====
-- The theorems on the options, the statistics and the processes at concrete inputs.
use mathlib.Core.List.{Permᴰ}
use nvbandwidth.Prelude.{
  ℕ, ◌+◌, ◌≡◌, ◌≤◌, ◌<◌, ◌/◌, ◌*◌, ◌↔◌, refl, arith, false, true, List, [], ◌∷◌, map, length,
}
use nvbandwidth.Config.{u64_mod, mib}
use nvbandwidth.Double.{nat_double, nat-IsOrdered, ◌≼◌}
use nvbandwidth.Statistic.{record_all, at, smallest, largest, median, return_appropriate_metric}
use nvbandwidth.Statistic.Order.{metric-perm}
use nvbandwidth.Statistic.Median.{metric_bounds}
use nvbandwidth.Options.{Options, pos, validate, accepted}
use nvbandwidth.Options.Accepted.{IsAcceptable, validate_iff}
use nvbandwidth.Bandwidth.{sample_bandwidth, sample_bandwidth_iff}
use nvbandwidth.Multinode.{
  Copy, prefer_src_context, Broadcast, calculate_vector_bandwidth, dispatch_memcpy,
}
use nvbandwidth.Multinode.Gather.{calculate_vector_bandwidth_lem}

abbrev options : Options
options = record {
  num_testcases = 1;
  num_prefixes = 0;
  target_num_pairs = pos 3;
  buffer_size_kib_specified = false;
  buffer_size_kib = 0;
  buffer_size = 512;
  loop_count = 16;
  warmup_count = 4;
  latency_buffer_size = 2;
  latency_stride_len = 16;
  host_read_parallelism = 32;
  host_read_bytes = 64;
  sm_copy_bytes = 16;
  ptr_chase_load_bytes = 8;
}

validate_example :
    validate true 4 options ≡ accepted 536870912
    ↔ (IsAcceptable true 4 options × (536870912 ≡ 512 * mib))
validate_example = validate_iff true 4 options 536870912

sample_bandwidth_example :
    (sample_bandwidth 536870912 40000 430000 ≤ 536870912 * 40000 * 1000000 / 430000)
    × (sample_bandwidth 536870912 40000 430000 ≡ 536870912 * 40000 * 1000000 / 430000
        ↔ (536870912 * 40000 * 1000000 < u64_mod))
sample_bandwidth_example = sample_bandwidth_iff 536870912 40000 430000 (omega arith) (omega arith)

abbrev samples : List ℕ
samples = 3 ∷ 9 ∷ 4 ∷ []

abbrev earlier : List ℕ
earlier = 3 ∷ 9 ∷ []

abbrev later : List ℕ
later = 9 ∷ 3 ∷ []

metric_bounds_example :
    let vs = record_all samples in
    (length vs ≡ 3)
    × (smallest vs ≼ median vs)
    × (median vs ≼ largest vs)
    × (smallest vs ≼ at vs 1)
    × (at vs 1 ≼ largest vs)
metric_bounds_example = metric_bounds nat-IsOrdered samples 1 (omega arith)

metric-perm_example :
    return_appropriate_metric false (record_all earlier)
    ≡ return_appropriate_metric false (record_all later)
metric-perm_example =
    metric-perm nat-IsOrdered false {xs = earlier} {ys = later} (Permᴰ.swap refl refl)

-- A broadcast that delivers the root's value at once.
abbrev direct : Broadcast ℕ
direct = record {
  broadcast = λ root buffer rank. buffer root;
  broadcast_root = λ root buffer rank. refl;
}

abbrev copies : List Copy
copies = record { src_rank = 1; dst_rank = 0 } ∷ record { src_rank = 0; dst_rank = 1 } ∷ []

abbrev rank_result : Copy → ℕ
rank_result c = 10 * c.src_rank + c.dst_rank

calculate_vector_bandwidth_example :
    calculate_vector_bandwidth direct
      (λ (r : ℕ). map rank_result (dispatch_memcpy r 0 prefer_src_context copies).copies)
      (dispatch_memcpy 1 0 prefer_src_context copies).original_ranks
      1
    ≡ 10 ∷ 1 ∷ []
calculate_vector_bandwidth_example =
    calculate_vector_bandwidth_lem rank_result prefer_src_context direct (λ r. 0) copies 1
