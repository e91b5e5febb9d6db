-- ===== src/Testcase/Star.antt =====
-- testcase.cpp, testcases_ce.cpp and testcases_sm.cpp: the test cases in which all devices copy to one,
-- or one to all. The buffers of the other devices are made once and shared; those of the one device
-- are made for each copy, and deleted at once if it has no peer access.
pub mod Collect
pub mod Shared
pub mod Spokes
pub mod Ends
pub mod Runs
use nvbandwidth.Prelude.{
  ℕ, ◌+◌, Bool, true, false, not, Option, none, some, ◌>>=◌, List, [], ◌∷◌, ◌++◌, length, get_elem?,
  ◌==◌, if◌then◌else◌,
}
use nvbandwidth.Double.{Double}
use nvbandwidth.Initiator.{ce, sm}
use nvbandwidth.Multinode.{prefer_src_context, prefer_dst_context}
use nvbandwidth.Buffers.{
  Outcome, Transfer, total_bw, MemcpyOperation, Heap, allocate, release, release_all,
  do_memcpy_core,
}
use nvbandwidth.Testcase.{Run, first_value, indices, for_all, readings, store_all, start}
use nvbandwidth.Testcase.Host.{operation, device_buffer}

-- The first loop of both helpers, with the vector that it fills.
unfoldable pub allocate_each : (size : ℕ) → (devices shared : List ℕ) → Heap → List ℕ × Heap
unfolding allocate
allocate_each size [] shared h = (shared, h)
allocate_each size (i ∷ is) shared h =
    allocate_each size is (shared ++ h.next ∷ []) (allocate (device_buffer size i) h)

-- The heap, the buffers of the one device, and those of its peers.
pub record Gathered : Type 0 where
  pub heap : Heap
  pub own : List ℕ
  pub others : List ℕ

-- The body of the inner loop.
unfoldable pub collect_step :
    (access : ℕ → ℕ → Bool) (size : ℕ) (shared : List ℕ) (device_id peer : ℕ)
    → Gathered
    → Option Gathered
unfolding allocate release
collect_step access size shared device_id peer g =
    if peer == device_id
    then some g
    else (let h = allocate (device_buffer size device_id) g.heap in
        if access device_id peer
        then (do
          q ← get_elem? shared peer
          some (record { heap = h; own = g.own ++ g.heap.next ∷ []; others = g.others ++ q ∷ [] }))
        else (do h' ← release g.heap.next h; some (record g { heap = h' })))

module _ {ℓ} {A : Type ℓ} ⦃d : Double A⦄ (core : MemcpyOperation → List Transfer → Outcome A)
    (access : ℕ → ℕ → Bool) (device_count size : ℕ) where
  -- The measurement, which is skipped if there is no peer.
  unfoldable pub measure_gathered :
      MemcpyOperation → (from_own : Bool) → (device_id : ℕ) → Gathered → Run A → Option (Run A)
  unfolding do_memcpy_core store_all
  measure_gathered op from_own device_id g s =
      if length g.own == 0 then some (record s { heap = g.heap }) else (do
        vs ←
            do_memcpy_core core op (if from_own then g.own else g.others)
              (if from_own then g.others else g.own) g.heap
        ws ← readings first_value vs
        ms ← store_all 0 device_id ws s.results
        some (record { heap = g.heap; results = ms }))

  -- The body of the outer loop.
  unfoldable pub star_round :
      MemcpyOperation
      → (from_own : Bool) → (shared : List ℕ) → (device_id : ℕ) → Run A
      → Option (Run A)
  unfolding for_all collect_step measure_gathered release_all
  star_round op from_own shared device_id s = do
    g ←
        for_all (collect_step access size shared device_id) (indices 0 device_count)
          (record { heap = s.heap; own = []; others = [] })
    s' ← measure_gathered op from_own device_id g s
    h ← release_all g.own s'.heap
    some (record s' { heap = h })

  unfoldable pub star : MemcpyOperation → (from_own : Bool) → Heap → Option (Run A)
  unfolding allocate_each for_all star_round release_all start
  star op from_own h = do
    let made = allocate_each size (indices 0 device_count) [] h
    s ←
        for_all (star_round op from_own made.0) (indices 0 device_count)
          (start first_value 1 device_count made.1)
    h' ← release_all made.0 s.heap
    some (record s { heap = h' })

  -- The destinations are the one device's; a read test swaps the two vectors.
  unfoldable pub all_to_one_helper : MemcpyOperation → (is_read : Bool) → Heap → Option (Run A)
  unfolding star
  all_to_one_helper op is_read = star op is_read

  -- The sources are the one device's; a read test swaps the two vectors.
  unfoldable pub one_to_all_helper : MemcpyOperation → (is_read : Bool) → Heap → Option (Run A)
  unfolding star
  one_to_all_helper op is_read = star op (not is_read)

  unfoldable pub all_to_one_write_ce : Heap → Option (Run A)
  unfolding all_to_one_helper
  all_to_one_write_ce = all_to_one_helper (operation ce prefer_src_context total_bw) false

  unfoldable pub all_to_one_read_ce : Heap → Option (Run A)
  unfolding all_to_one_helper
  all_to_one_read_ce = all_to_one_helper (operation ce prefer_dst_context total_bw) true

  unfoldable pub one_to_all_write_ce : Heap → Option (Run A)
  unfolding one_to_all_helper
  one_to_all_write_ce = one_to_all_helper (operation ce prefer_src_context total_bw) false

  unfoldable pub one_to_all_read_ce : Heap → Option (Run A)
  unfolding one_to_all_helper
  one_to_all_read_ce = one_to_all_helper (operation ce prefer_dst_context total_bw) true

  unfoldable pub all_to_one_write_sm : Heap → Option (Run A)
  unfolding all_to_one_helper
  all_to_one_write_sm = all_to_one_helper (operation sm prefer_src_context total_bw) false

  -- The read tests of the SM initiator have the preference of the write tests.
  unfoldable pub all_to_one_read_sm : Heap → Option (Run A)
  unfolding all_to_one_helper
  all_to_one_read_sm = all_to_one_helper (operation sm prefer_src_context total_bw) true

  unfoldable pub one_to_all_write_sm : Heap → Option (Run A)
  unfolding one_to_all_helper
  one_to_all_write_sm = one_to_all_helper (operation sm prefer_src_context total_bw) false

  unfoldable pub one_to_all_read_sm : Heap → Option (Run A)
  unfolding one_to_all_helper
  one_to_all_read_sm = one_to_all_helper (operation sm prefer_src_context total_bw) true
