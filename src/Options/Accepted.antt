-- ===== src/Options/Accepted.antt =====
-- What the validation of the options accepts.
use nvbandwidth.Prelude.{
  ℕ, ◌*◌, ◌-◌, ◌%◌, ◌^◌, ◌≤◌, ◌<◌, ◌≡◌, ◌↔◌, ◌⊎◌, arith, Bool, false, ◌&&◌, ltb, le→ltb, ap, sym,
  ◌∙◌,
}
use nvbandwidth.Config.{mib, u64_mod, uint_max}
use nvbandwidth.Options.Checks.{
  IsPower, IsTarget, powers, one_of-powers, reject_if-inv, reject_if-false, IsTarget-below,
  below-IsTarget, within, fits, not-false, mod-small, kinds, nonzero,
}
use nvbandwidth.Options.{
  Options, Verdict, accepted, rejected, validate, validate_widths, validate_last, one_of,
  exceeds_pairs, benchmark_size, benchmark_unit,
}

-- What `main` documents of each option.
pub record IsAcceptable (multinode : Bool) (world_size : ℕ) (o : Options) : Type 0 where
  pub one_kind : (o.num_prefixes ≡ 0) ⊎ (o.num_testcases ≡ 0)
  pub target : IsTarget (world_size * (world_size - 1)) multinode o.target_num_pairs
  pub some_bytes : 0 < benchmark_size o
  pub bytes_fit : benchmark_size o * benchmark_unit o < u64_mod
  pub some_loops : 0 < o.loop_count
  pub loops_fit : o.loop_count < 2 ^ 32
  pub warmups_fit : o.warmup_count < 2 ^ 32
  pub some_latency : 0 < o.latency_buffer_size
  pub latency_fits : o.latency_buffer_size * mib < u64_mod
  pub some_stride : 0 < o.latency_stride_len
  pub parallelism : IsPower 1 11 o.host_read_parallelism
  pub read_bytes : IsPower 8 6 o.host_read_bytes
  pub copy_bytes : IsPower 4 4 o.sm_copy_bytes
  pub load_bytes : IsPower 8 3 o.ptr_chase_load_bytes

abbrev bytes_of : Verdict → ℕ
bytes_of (accepted bytes) = bytes
bytes_of (rejected e) = 0

-- The result of the last checks.
last-inv :
    (multinode : Bool) (world_size : ℕ) (o : Options) {bytes : ℕ}
    → validate_last multinode world_size o ≡ accepted bytes
    → (o.loop_count ≤ uint_max)
      × (o.warmup_count ≤ uint_max)
      × ((multinode && exceeds_pairs world_size o.target_num_pairs) ≡ false)
      × (benchmark_size o * benchmark_unit o % u64_mod ≡ bytes)
unfolding validate_last
last-inv multinode world_size o e =
    let (loops, e1) = reject_if-inv _ _ _ e in
    let (warmups, e2) = reject_if-inv _ _ _ e1 in
    let (pairs, e3) = reject_if-inv _ _ _ e2 in
    (within _ _ loops, within _ _ warmups, pairs, ap bytes_of e3)

widths-inv :
    (multinode : Bool) (world_size : ℕ) (o : Options) {bytes : ℕ}
    → validate_widths multinode world_size o ≡ accepted bytes
    → IsPower 1 11 o.host_read_parallelism
      × IsPower 8 6 o.host_read_bytes
      × IsPower 4 4 o.sm_copy_bytes
      × IsPower 8 3 o.ptr_chase_load_bytes
      × (validate_last multinode world_size o ≡ accepted bytes)
unfolding validate_widths powers one_of
widths-inv multinode world_size o e =
    let (parallelism, e1) = reject_if-inv _ _ _ e in
    let (read_bytes, e2) = reject_if-inv _ _ _ e1 in
    let (copy_bytes, e3) = reject_if-inv _ _ _ e2 in
    let (load_bytes, e4) = reject_if-inv _ _ _ e3 in
    (
      (one_of-powers _ 1 11).0 (not-false.0 parallelism),
      (one_of-powers _ 8 6).0 (not-false.0 read_bytes),
      (one_of-powers _ 4 4).0 (not-false.0 copy_bytes),
      (one_of-powers _ 8 3).0 (not-false.0 load_bytes),
      e4,
    )

validate-IsAcceptable :
    (multinode : Bool) (world_size : ℕ) (o : Options) {bytes : ℕ}
    → validate multinode world_size o ≡ accepted bytes
    → IsAcceptable multinode world_size o × (bytes ≡ benchmark_size o * benchmark_unit o)
unfolding validate
validate-IsAcceptable multinode world_size o e =
    let (kind, e1) = reject_if-inv _ _ _ e in
    let (low, e2) = reject_if-inv _ _ _ e1 in
    let (empty, e3) = reject_if-inv _ _ _ e2 in
    let (large, e4) = reject_if-inv _ _ _ e3 in
    let (loops, e5) = reject_if-inv _ _ _ e4 in
    let (latency, e6) = reject_if-inv _ _ _ e5 in
    let (large_latency, e7) = reject_if-inv _ _ _ e6 in
    let (stride, e8) = reject_if-inv _ _ _ e7 in
    let (parallelism, read_bytes, copy_bytes, load_bytes, e9) =
      widths-inv multinode world_size o e8 in
    let (loops_fit, warmups_fit, pairs, bytes_eq) = last-inv multinode world_size o e9 in
    let bytes_fit = (fits o.buffer_size_kib_specified (benchmark_size o)).0 large in
    (
      record {
        one_kind = (kinds o.num_prefixes o.num_testcases).0 kind;
        target = IsTarget-below multinode world_size o.target_num_pairs low pairs;
        some_bytes = (nonzero (benchmark_size o)).0 empty;
        bytes_fit = bytes_fit;
        some_loops = (nonzero o.loop_count).0 loops;
        loops_fit = omega arith;
        warmups_fit = omega arith;
        some_latency = (nonzero o.latency_buffer_size).0 latency;
        latency_fits = (fits false o.latency_buffer_size).0 large_latency;
        some_stride = (nonzero o.latency_stride_len).0 stride;
        parallelism = parallelism;
        read_bytes = read_bytes;
        copy_bytes = copy_bytes;
        load_bytes = load_bytes;
      },
      sym bytes_eq ∙ mod-small _ bytes_fit,
    )

small-count : (n : ℕ) → n < 2 ^ 32 → ltb uint_max n ≡ false
small-count n h = le→ltb uint_max n (omega arith)

last-accept :
    (multinode : Bool) (world_size : ℕ) (o : Options)
    → o.loop_count < 2 ^ 32
    → o.warmup_count < 2 ^ 32
    → benchmark_size o * benchmark_unit o < u64_mod
    → (multinode && exceeds_pairs world_size o.target_num_pairs) ≡ false
    → validate_last multinode world_size o ≡ accepted (benchmark_size o * benchmark_unit o)
unfolding validate_last
last-accept multinode world_size o loops warmups bytes pairs =
    reject_if-false _ (small-count o.loop_count loops) (
      reject_if-false _ (small-count o.warmup_count warmups)
        (reject_if-false _ pairs (ap accepted (mod-small _ bytes))))

widths-accept :
    {multinode : Bool} {world_size : ℕ} {o : Options}
    → IsAcceptable multinode world_size o
    → (multinode && exceeds_pairs world_size o.target_num_pairs) ≡ false
    → validate_widths multinode world_size o ≡ accepted (benchmark_size o * benchmark_unit o)
unfolding validate_widths powers one_of
widths-accept {world_size} {o} a pairs =
    reject_if-false _ (not-false.1 ((one_of-powers _ 1 11).1 a.parallelism)) (
      reject_if-false _ (not-false.1 ((one_of-powers _ 8 6).1 a.read_bytes)) (
        reject_if-false _ (not-false.1 ((one_of-powers _ 4 4).1 a.copy_bytes)) (
          reject_if-false _ (not-false.1 ((one_of-powers _ 8 3).1 a.load_bytes))
            (last-accept _ world_size o a.loops_fit a.warmups_fit a.bytes_fit pairs))))

IsAcceptable-validate :
    (multinode : Bool) (world_size : ℕ) (o : Options)
    → IsAcceptable multinode world_size o
    → validate multinode world_size o ≡ accepted (benchmark_size o * benchmark_unit o)
unfolding validate
IsAcceptable-validate multinode world_size o a =
    let (low, pairs) = below-IsTarget world_size a.target in
    reject_if-false _ ((kinds _ _).1 a.one_kind) (
      reject_if-false _ low (
        reject_if-false _ ((nonzero _).1 a.some_bytes) (
          reject_if-false _ ((fits o.buffer_size_kib_specified _).1 a.bytes_fit) (
            reject_if-false _ ((nonzero _).1 a.some_loops) (
              reject_if-false _ ((nonzero _).1 a.some_latency) (
                reject_if-false _ ((fits false _).1 a.latency_fits)
                  (reject_if-false _ ((nonzero _).1 a.some_stride) (widths-accept a pairs))))))))

-- The options are accepted exactly when each has a documented value, and then the buffer of the
-- benchmark has the number of bytes that was asked for: no product wraps.
pub validate_iff :
    (multinode : Bool) (world_size : ℕ) (o : Options) (bytes : ℕ)
    → validate multinode world_size o ≡ accepted bytes
      ↔ (IsAcceptable multinode world_size o × (bytes ≡ benchmark_size o * benchmark_unit o))
validate_iff multinode world_size o bytes = (
  validate-IsAcceptable multinode world_size o,
  λ (a, e). IsAcceptable-validate multinode world_size o a ∙ ap accepted (sym e),
)
