-- ===== src/Testcase/Star/Runs.antt =====
-- The test cases of all devices to one and of one to all: each one's operation and direction.
use nvbandwidth.Prelude.{
  ℕ, ◌≡◌, ◌<◌, refl, Bool, true, false, Option, some, none, List, [], ◌∷◌, if◌then◌else◌, arith,
}
use nvbandwidth.Double.{Double}
use nvbandwidth.Initiator.{ce, sm}
use nvbandwidth.Multinode.{prefer_src_context, prefer_dst_context}
use nvbandwidth.Buffers.{Outcome, Transfer, MemcpyOperation, total_bw, Heap}
use nvbandwidth.Buffers.Owned.{IsFresh}
use nvbandwidth.Buffers.Measured.{IsRestored}
use nvbandwidth.Testcase.{Run, first_value, indices}
use nvbandwidth.Testcase.Stored.{cells, measured}
use nvbandwidth.Testcase.Answers.{Answers}
use nvbandwidth.Testcase.Shapes.{Leaves}
use nvbandwidth.Testcase.Host.{operation}
use nvbandwidth.Testcase.Star.{
  star, all_to_one_helper, one_to_all_helper, all_to_one_write_ce, all_to_one_read_ce,
  one_to_all_write_ce, one_to_all_read_ce, all_to_one_write_sm, all_to_one_read_sm,
  one_to_all_write_sm, one_to_all_read_sm,
}
use nvbandwidth.Testcase.Star.Collect.{reached}
use nvbandwidth.Testcase.Star.Spokes.{some_peer, star_copies}
use nvbandwidth.Testcase.Star.Ends.{star_measured, star-Leaves}

-- The test cases of this module.
pub data StarTest : Type 0 where
  to_one_write_ce : StarTest
  to_one_read_ce : StarTest
  to_all_write_ce : StarTest
  to_all_read_ce : StarTest
  to_one_write_sm : StarTest
  to_one_read_sm : StarTest
  to_all_write_sm : StarTest
  to_all_read_sm : StarTest

abbrev pub star_operation : StarTest → MemcpyOperation
star_operation to_one_write_ce = operation ce prefer_src_context total_bw
star_operation to_one_read_ce = operation ce prefer_dst_context total_bw
star_operation to_all_write_ce = operation ce prefer_src_context total_bw
star_operation to_all_read_ce = operation ce prefer_dst_context total_bw
star_operation _ = operation sm prefer_src_context total_bw

-- Whether the device of the column is the source of its copies.
abbrev pub is_source : StarTest → Bool
is_source to_one_write_ce = false
is_source to_one_read_ce = true
is_source to_all_write_ce = true
is_source to_all_read_ce = false
is_source to_one_write_sm = false
is_source to_one_read_sm = true
is_source to_all_write_sm = true
is_source to_all_read_sm = false

module _ {ℓ} {A : Type ℓ} ⦃d : Double A⦄ (core : MemcpyOperation → List Transfer → Outcome A)
    (access : ℕ → ℕ → Bool) where
  -- The `run` of each test case.
  unfoldable pub run_star : StarTest → (device_count size : ℕ) → Heap → Option (Run A)
  run_star to_one_write_ce n size = all_to_one_write_ce core access n size
  run_star to_one_read_ce n size = all_to_one_read_ce core access n size
  run_star to_all_write_ce n size = one_to_all_write_ce core access n size
  run_star to_all_read_ce n size = one_to_all_read_ce core access n size
  run_star to_one_write_sm n size = all_to_one_write_sm core access n size
  run_star to_one_read_sm n size = all_to_one_read_sm core access n size
  run_star to_all_write_sm n size = one_to_all_write_sm core access n size
  run_star to_all_read_sm n size = one_to_all_read_sm core access n size

  run_star-eq-star :
      (t : StarTest) (n size : ℕ) (h : Heap)
      → run_star t n size h ≡ star core access n size (star_operation t) (is_source t) h
  unfolding run_star all_to_one_helper one_to_all_helper all_to_one_write_ce all_to_one_read_ce
      one_to_all_write_ce one_to_all_read_ce all_to_one_write_sm all_to_one_read_sm
      one_to_all_write_sm one_to_all_read_sm
  run_star-eq-star to_one_write_ce n size h = refl
  run_star-eq-star to_one_read_ce n size h = refl
  run_star-eq-star to_all_write_ce n size h = refl
  run_star-eq-star to_all_read_ce n size h = refl
  run_star-eq-star to_one_write_sm n size h = refl
  run_star-eq-star to_one_read_sm n size h = refl
  run_star-eq-star to_all_write_sm n size h = refl
  run_star-eq-star to_all_read_sm n size h = refl

  totals : (t : StarTest) → (star_operation t).bandwidth_value ≡ total_bw
  totals to_one_write_ce = refl
  totals to_one_read_ce = refl
  totals to_all_write_ce = refl
  totals to_all_read_ce = refl
  totals to_one_write_sm = refl
  totals to_one_read_sm = refl
  totals to_all_write_sm = refl
  totals to_all_read_sm = refl

  pub run_star-Leaves :
      (t : StarTest) (n size : ℕ) (h : Heap)
      → ((i : ℕ)
          → Answers core
              (star_operation t)
              (star_copies (is_source t) size i (reached access i (indices 0 n))))
      → IsFresh h
      → Leaves h 1 n
          (λ (k l : ℕ).
            if some_peer (reached access l (indices 0 n))
            then star_measured core access n size (star_operation t) (is_source t) k l
            else some none ∷ [])
          (run_star t n size h)
  run_star-Leaves t n size h ans f =
      rw (run_star-eq-star t n size h)
        (star-Leaves core access n size (star_operation t) (is_source t) h ans (totals t) f)

-- A test case of all devices to one, or one to all, comes to its end from a fresh heap, which it
-- restores: no buffer is used after it is deleted, deleted twice or left. The cell of a device has
-- what is measured for its copies with all devices that it has peer access to, or is empty if there
-- is none: from it to them for the read tests of all to one and the write tests of one to all, and
-- from them to it for the others. The condition is that the measurements return, with as many
-- values as the operation asks for: no copy throws, and no comparison with a pattern ends the
-- process.
pub run_star_lem {ℓ} :
    {A : Type ℓ} ⦃d : Double A⦄ (core : MemcpyOperation → List Transfer → Outcome A)
    (access : ℕ → ℕ → Bool) (t : StarTest) (n size device_id : ℕ) (h : Heap)
    → ((i : ℕ)
        → Answers core
            (star_operation t)
            (star_copies (is_source t) size i (reached access i (indices 0 n))))
    → IsFresh h
    → device_id < n
    → let peers = reached access device_id (indices 0 n) in
      (s : Run A) × (run_star core access t n size h ≡ some s)
      × IsRestored h s.heap
      × (cells s.results 0 device_id ≡ (
          if some_peer peers
          then measured core
              (star_operation t)
              first_value
              (star_copies (is_source t) size device_id peers)
          else some none ∷ []))
run_star_lem core access t n size i h ans f b =
    let (s, e, r, g) = run_star-Leaves core access t n size h ans f in
    (s, e, r, g 0 i (omega arith) b)
