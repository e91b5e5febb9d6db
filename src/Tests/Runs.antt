-- ===== src/Tests/Runs.antt =====
-- The theorems on measurements and test cases at concrete inputs.
use nvbandwidth.Prelude.{
  suc, ℕ, ◌+◌, ◌≡◌, refl, Bool, false, none, some, List, [], ◌∷◌, get_elem?, ltb, arith, true, inl,
  inr,
}
use nvbandwidth.Double.{nat_double}
use nvbandwidth.Initiator.{Initiator, ce}
use nvbandwidth.Multinode.{prefer_src_context}
use nvbandwidth.Buffers.{
  Outcome, measures, Transfer, vector_bw, MemcpyOperation, Heap, with_buffers,
}
use nvbandwidth.Buffers.Owned.{IsFresh}
use nvbandwidth.Buffers.Measured.{IsRestored, ended, with_buffers_lem}
use nvbandwidth.Operation.{Clock, core_values}
use nvbandwidth.Operation.Values.{core_values_lem, expected_values}
use nvbandwidth.Operation.Ended.{Device, Supports, memcmp_fails, core_outcome, core_outcome-Answers}
use nvbandwidth.Testcase.Star.Collect.{reached}
use nvbandwidth.Testcase.{Run, first_value, indices}
use nvbandwidth.Testcase.Stored.{cells, measured}
use nvbandwidth.Testcase.Answers.{Answers}
use nvbandwidth.Testcase.Host.{operation, plain_operation, to_device, to_host}
use nvbandwidth.Testcase.Host.Plan.{h2d_bidir_ce, all_h2d_sm, host_operation, host_copies, run_host}
use nvbandwidth.Testcase.Host.Ends.{run_host_lem}
use nvbandwidth.Testcase.Star.Spokes.{star_copies}
use nvbandwidth.Testcase.Star.Runs.{
  to_one_write_ce, to_all_read_sm, star_operation, run_star, run_star_lem,
}
use nvbandwidth.Testcase.All.{
  Setting, CanChase, host_test, star_test, bisect, device_to_device_latency, run_tests,
  run_tests_lem,
}
use nvbandwidth.Tests.Chases.{chasing, chasing-IsReady}
use nvbandwidth.Runner.{
  Text, Test, Parsed, unparsed, upper_error, running, waived, error_status, Document, find_key,
  find_testcase, run_testcases, select_testcases, expand_testcases, starts_with, all_if_none,
}
use nvbandwidth.Runner.Recorded.{run_testcases_lem}
use nvbandwidth.Runner.Selected.{select_testcases_lem}
use nvbandwidth.Testcase.Multi.{multi_operation, multinode_bisect_write_ce}
use nvbandwidth.Testcase.Multi.Bisect.{bisect_copies, bisect_outcome, multinode_bisect_write_ce_lem}
use nvbandwidth.Tests.Pairs.{unshuffled}

abbrev pub empty_heap : Heap
empty_heap = record { next = 0; object = λ p. none }

pub empty_heap-IsFresh : IsFresh empty_heap
empty_heap-IsFresh p h = refl

abbrev clock : Clock ℕ
clock = record {
  elapsed = λ n i. n + i + 1;
  elapsed_positive = λ n i. omega arith;
  total_time = λ n. n + 1;
}

abbrev whole : Initiator → Transfer → ℕ
whole initiator t = t.0.buffer_size

-- Elements of 16 bytes.
abbrev reported : Device
reported = record {
  sm_copy_bytes = 16;
  host_read_bytes = 16;
  host_read_parallelism = 1;
  num_sm = λ t. 4;
  major = λ t. 9;
}

-- A measurement of two samples with a loop count of 5. The sizes of the runs below are at most 1024
-- elements, which one block copies, or a multiple of them.
abbrev core : MemcpyOperation → List Transfer → Outcome ℕ
core = core_outcome whole clock 5 reported false (λ initiator n i t. false) false 2

reported-Supports : Supports reported
reported-Supports = record {
  width = refl;
  capable = λ t. refl;
  read_width = refl;
  read_parallelism = refl;
}

equal : (n i : ℕ) (ts : List Transfer) → memcmp_fails (λ n i t. false) n i ts ≡ false
unfolding memcmp_fails
equal n i [] = refl
equal n i (t ∷ ts) = equal n (suc i) ts

core-Answers : (op : MemcpyOperation) (ts : List Transfer) → Answers core op ts
core-Answers op ts =
    core_outcome-Answers whole clock 5 reported false (λ initiator n i t. false) false 2 op ts
      reported-Supports (rw (equal 0 0 ts, equal 1 0 ts) refl)

-- Device 2 has no peer.
abbrev pub access : ℕ → ℕ → Bool
access i j = ltb (i + j) 2

with_buffers_example :
    (h' : Heap) × (with_buffers core
        (plain_operation ce)
        (to_device 64 1 ∷ to_host 128 1 ∷ [])
        empty_heap
      ≡ ended (core (plain_operation ce) (to_device 64 1 ∷ to_host 128 1 ∷ [])) h')
    × IsRestored empty_heap h'
with_buffers_example =
    with_buffers_lem core (plain_operation ce) (to_device 64 1 ∷ to_host 128 1 ∷ []) empty_heap
      empty_heap-IsFresh refl

core_values_example :
    core_values whole clock 5 false 2
      (operation ce prefer_src_context vector_bw)
      (to_device 64 0 ∷ to_host 64 1 ∷ [])
    ≡ expected_values whole clock 5 false 2 ce vector_bw (to_device 64 0 ∷ to_host 64 1 ∷ [])
core_values_example =
    core_values_lem whole clock 5 false 2 (operation ce prefer_src_context vector_bw)
      (to_device 64 0 ∷ to_host 64 1 ∷ [])

run_host_example :
    (s : Run ℕ) × (run_host core all_h2d_sm 3 64 empty_heap ≡ some s)
    × IsRestored empty_heap s.heap
    × (cells s.results 0 2
        ≡ measured core (host_operation all_h2d_sm) first_value (host_copies all_h2d_sm 3 64 2))
run_host_example =
    run_host_lem core all_h2d_sm 3 64 2 empty_heap
      (λ i. core-Answers (host_operation all_h2d_sm) (host_copies all_h2d_sm 3 64 i))
      empty_heap-IsFresh (omega arith)

run_star_example :
    (s : Run ℕ) × (run_star core access to_one_write_ce 3 64 empty_heap ≡ some s)
    × IsRestored empty_heap s.heap
    × (cells s.results 0 1
        ≡ measured core
            (star_operation to_one_write_ce)
            first_value
            (star_copies false 64 1 (0 ∷ [])))
run_star_example =
    run_star_lem core access to_one_write_ce 3 64 1 empty_heap
      (λ i.
        core-Answers (star_operation to_one_write_ce)
          (star_copies false 64 i (reached access i (indices 0 3))))
      empty_heap-IsFresh (omega arith)

abbrev setting : Setting ℕ
setting = record {
  core = core;
  access = access;
  device_count = 3;
  world_size = 4;
  shuffles = unshuffled;
  target = some 5;
  size = 64;
  loop_count = 2;
  chasing = chasing;
}

setting-CanChase : CanChase setting
setting-CanChase = record {
  for_latency = chasing-IsReady;
  for_bandwidth = record {
    has_node = omega arith;
    fits = omega arith;
    real = λ place. omega arith;
  };
  supported = record { width = inl (inr refl); capable = λ i b. refl };
}

run_tests_example :
    (h : Heap) × (run_tests setting
        (star_test to_all_read_sm ∷ host_test h2d_bidir_ce ∷ device_to_device_latency ∷ bisect ∷ [])
        empty_heap
      ≡ some h)
    × IsRestored empty_heap h
run_tests_example =
    run_tests_lem setting
      (star_test to_all_read_sm ∷ host_test h2d_bidir_ce ∷ device_to_device_latency ∷ bisect ∷ [])
      empty_heap
      (
        λ i.
            core-Answers (star_operation to_all_read_sm)
              (star_copies false 64 i (reached access i (indices 0 3))),
        (
          λ i. core-Answers (host_operation h2d_bidir_ce) (host_copies h2d_bidir_ce 3 64 i),
          (
            tt,
            (
              core-Answers (multi_operation ce prefer_src_context vector_bw) (bisect_copies 4 64),
              tt,
            ),
          ),
        ),
      )
      empty_heap-IsFresh refl setting-CanChase

-- One test case that passes, one that throws, and one that is waived, by the keys `a`, `b` and `c`.
abbrev tests : List Test
tests =
    record { key = 97 ∷ []; passes_filter = true; matrices = 1; throws = false }
    ∷ record { key = 98 ∷ []; passes_filter = true; matrices = 0; throws = true }
    ∷ record { key = 99 ∷ []; passes_filter = false; matrices = 1; throws = false }
    ∷ []

-- None of the keys is a number.
abbrev letters : Text → Parsed
letters id = unparsed

abbrev blank : Document
blank = record { testcases = []; root_is_array = false }

run_testcases_example :
    run_testcases letters tests ((98 ∷ []) ∷ (100 ∷ []) ∷ (99 ∷ []) ∷ []) blank
    ≡ some (record blank {
      testcases =
          record { name = 98 ∷ []; status = running }
          ∷ record { name = 98 ∷ []; status = error_status }
          ∷ record { name = 100 ∷ []; status = upper_error }
          ∷ record { name = 99 ∷ []; status = waived }
          ∷ [];
    })
unfolding find_testcase find_key
run_testcases_example =
    run_testcases_lem letters tests ((98 ∷ []) ∷ (100 ∷ []) ∷ (99 ∷ []) ∷ []) blank refl

select_testcases_example :
    run_testcases letters tests ((98 ∷ []) ∷ []) blank
    ≡ some (record blank {
      testcases =
          record { name = 98 ∷ []; status = running }
          ∷ record { name = 98 ∷ []; status = error_status }
          ∷ [];
    })
unfolding select_testcases expand_testcases starts_with all_if_none
select_testcases_example =
    select_testcases_lem letters tests ((98 ∷ []) ∷ []) ((98 ∷ []) ∷ []) blank
      (refl, (refl, (refl, tt))) ((refl, (refl, tt)), ((refl, tt), (tt, tt))) refl refl

multinode_bisect_write_ce_example :
    (s : Run ℕ) × (vs : List ℕ) × (v : ℕ) × (multinode_bisect_write_ce core 4 64 empty_heap
      ≡ some s)
    × IsRestored empty_heap s.heap
    × (bisect_outcome core 4 64 ≡ measures vs)
    × (get_elem? vs 3 ≡ some v)
    × (cells s.results 3 0 ≡ some (some v) ∷ [])
multinode_bisect_write_ce_example =
    multinode_bisect_write_ce_lem core 4 64 3 empty_heap
      (core-Answers (multi_operation ce prefer_src_context vector_bw) (bisect_copies 4 64))
      empty_heap-IsFresh (omega arith)
