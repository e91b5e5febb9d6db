-- ===== src/Initiator/Verify.antt =====
-- A verified sample of the SM initiator: when its comparison passes, and when it cannot.
use nvbandwidth.Prelude.{
  ℕ, suc, ◌*◌, ◌/◌, ◌%◌, ◌≤◌, ◌<◌, ◌≡◌, ◌≢◌, inl, inr, arith, ltb, if◌then◌else◌, Bool-cases, false,
  ltb→lt, lt→ltb, le→ltb, ap, sym, ◌∙◌, List, some, none, Option-cases,
}
use nvbandwidth.Config.{u32_mod, small_buffer_threshold, mib, num_thread_per_block}
use nvbandwidth.Kernel.Memory.{Memory}
use nvbandwidth.Kernel.Grid.{Thread, IsSchedule}
use nvbandwidth.Kernel.SplitWarp.{Buffers}
use nvbandwidth.Kernel.Pattern.{threads_per_block, num_blocks}
use nvbandwidth.Kernel.Pattern.Fill.{pattern_word, memset_pattern_helper_lem}
use nvbandwidth.Kernel.Pattern.Compare.{memcmp_pattern_helper_iff}
use nvbandwidth.Kernel.Launch.{
  ok, total_thread_count, Launch, launch_copy_kernel, copy_kernel, copy_kernel-inv, run_launch,
}
use nvbandwidth.Kernel.Launch.Copied.{
  IsScheduleOf, IsWhole, copied_elements, run_launch_lem, launch_bytes, launch_over_reports,
}
use nvbandwidth.Initiator.{Run, memset_pattern, memcmp_pattern, sm_sample, dst_seed, src_seed}

lt-mul : (e c w : ℕ) → 0 < w → e / w < c → e < c * w
lt-mul e c w p h = grind arith

div-lt : (e c w : ℕ) → e < c * w → e / w < c
div-lt e c w h = grind arith

words-eq : (c w : ℕ) → c * (4 * w) / 4 ≡ c * w
words-eq c w = let e : c * (4 * w) ≡ c * w * 4 = grind arith in rw e (omega arith)

count-words : (w c j : ℕ) → 0 < w → ltb (j / w) c ≡ ltb j (c * (4 * w) / 4)
count-words w c j p = elim (Bool-cases (ltb (j / w) c)) [
  | inl h ↦ rw (h, words-eq c w, lt→ltb j (c * w) (lt-mul j c w p (ltb→lt _ _ h)))
  | inr h ↦ rw (h, words-eq c w) (ground (arith, div-lt j c w))
]

module _ (num_sm size n : ℕ) (ts : List Thread) (src dst : Memory) (j : ℕ) (pos : 0 < num_sm)
    (fits : num_sm * num_thread_per_block < u32_mod) where
  copies-width :
      (w : ℕ) {l : Launch} {bytes : ℕ}
      → 0 < w
      → launch_copy_kernel (4 * w) (total_thread_count num_sm) num_sm size ≡ (l, bytes)
      → IsWhole (4 * w) size
      → IsScheduleOf l ts
      → run_launch l ts (suc n) w src dst j ≡ (if ltb j (bytes / 4) then src j else dst j)
  copies-width w {l} {bytes} p e whole s =
      let bytes_eq : (launch_copy_kernel (4 * w) (total_thread_count num_sm) num_sm size).1
          ≡ bytes =
        ap (λ (r : Launch × ℕ). r.1) e in
      let c = copied_elements (4 * w) num_sm size in
      let total : bytes ≡ c * (4 * w) = sym bytes_eq ∙ launch_bytes w num_sm size p fits whole in
      rw total
        (rw (← count-words w c j p) (run_launch_lem w num_sm size n ts src dst j pos fits e s))

  -- In whatever order the threads run, at least one round each, a copy that `copyKernel` launches
  -- makes the first `bytes / 4` words of the destination those of the source, `bytes` being the size
  -- that it returns, and leaves all other words alone; for sizes at which the grid has no partly
  -- filled last block, and fewer than 2^32 threads of the large copy.
  pub copy_kernel_copies :
      (sm_copy_bytes major : ℕ) {l : Launch} {bytes : ℕ}
      → copy_kernel sm_copy_bytes num_sm major size ≡ ok (l, bytes)
      → IsWhole sm_copy_bytes size
      → IsScheduleOf l ts
      → run_launch l ts (suc n) (sm_copy_bytes / 4) src dst j
        ≡ (if ltb j (bytes / 4) then src j else dst j)
  copy_kernel_copies sb major e whole s =
      let (w, p, width, known, launched) = copy_kernel-inv sb num_sm major size e in
      let words : sb / 4 ≡ w = omega arith in
      rw words (copies-width w p launched (rw width at whole) s)

-- The schedules of a sample whose comparison reads `size` bytes, with the copy `l`.
pub record IsRun (r : Run) (size : ℕ) (l : Launch) : Type 0 where
  pub fill_dst : IsSchedule (num_blocks (size / 4)) threads_per_block r.fill_dst
  pub fill_src : IsSchedule (num_blocks (size / 4)) threads_per_block r.fill_src
  pub copy : IsScheduleOf l r.copy
  pub compare : IsSchedule (num_blocks (size / 4)) threads_per_block r.compare_dst
  pub small : size / 4 ≤ u32_mod

-- A sample of the SM initiator passes its comparison: the buffers are filled with two patterns, copied
-- at least once by what `copyKernel` launches, and compared over the size that it returns, in any
-- order of the threads; for the sizes at which the grid has no partly filled last block, fewer than
-- 2^32 threads of the large copy, and at most 2^32 words compared.
pub sm_sample-passes :
    (r : Run) (sm_copy_bytes num_sm major size n : ℕ) (b : Buffers) {l : Launch} {bytes : ℕ}
    → 0 < num_sm
    → num_sm * num_thread_per_block < u32_mod
    → copy_kernel sm_copy_bytes num_sm major size ≡ ok (l, bytes)
    → IsWhole sm_copy_bytes size
    → IsRun r bytes l
    → sm_sample r l (suc n) sm_copy_bytes bytes b ≡ some tt
unfolding sm_sample memset_pattern memcmp_pattern
sm_sample-passes r sb num_sm major size n b {l} {bytes} pos fits e whole run =
    (memcmp_pattern_helper_iff r.scratch bytes src_seed _ run.compare run.small).1 λ j h.
      copy_kernel_copies num_sm size n r.copy _ _ j pos fits sb major e whole run.copy
      ∙ rw (lt→ltb j (bytes / 4) h) (
          memset_pattern_helper_lem r.scratch bytes src_seed b.src j run.fill_src run.small
          ∙ rw (lt→ltb j (bytes / 4) h))

-- A word that the copy leaves alone makes the comparison fail.
uncopied-fails :
    (r : Run) (l : Launch) (n sm_copy_bytes size : ℕ) (b : Buffers) (j : ℕ)
    → ((src dst : Memory) → run_launch l r.copy n (sm_copy_bytes / 4) src dst j ≡ dst j)
    → j < size / 4
    → pattern_word dst_seed j ≢ pattern_word src_seed j
    → IsRun r size l
    → sm_sample r l n sm_copy_bytes size b ≡ none
unfolding sm_sample memset_pattern memcmp_pattern
uncopied-fails r l n sb size b j left inside differ run =
    elim (Option-cases (sm_sample r l n sb size b)) [
      | inl e ↦ e
      | inr (tt, e) ↦ absurd (
          differ (
            sym (
              left _ _
              ∙ memset_pattern_helper_lem r.scratch size dst_seed b.dst j run.fill_dst run.small
              ∙ rw (lt→ltb j (size / 4) inside))
            ∙ (memcmp_pattern_helper_iff r.scratch size src_seed _ run.compare run.small).0 e j
                inside))
    ]

-- A sample of the SM initiator fails its comparison, for elements of `w` words and a size below 64 MiB
-- of more than 1024 elements, where 1024 does not divide their number, as soon as one word `j` of the
-- elements past the full blocks differs between the two patterns.
pub sm_sample-fails :
    (r : Run) (w num_sm size n j : ℕ) (b : Buffers) {l : Launch} {bytes : ℕ}
    → 0 < w
    → 0 < num_sm
    → num_sm * num_thread_per_block < u32_mod
    → size < small_buffer_threshold * mib
    → 1024 < size / (4 * w)
    → size / (4 * w) % 1024 ≢ 0
    → size / (4 * w) / 1024 * 1024 ≤ j / w
    → j / w < size / (4 * w)
    → pattern_word dst_seed j ≢ pattern_word src_seed j
    → launch_copy_kernel (4 * w) (total_thread_count num_sm) num_sm size ≡ (l, bytes)
    → IsRun r bytes l
    → sm_sample r l (suc n) (4 * w) bytes b ≡ none
sm_sample-fails r w num_sm size n j b {l} {bytes} p pos fits small many ragged past inside differ e
      run =
    let (reported, copied, less) = launch_over_reports w num_sm size p small many ragged in
    let bytes_eq : bytes ≡ size / (4 * w) * (4 * w) =
      sym (ap (λ (r : Launch × ℕ). r.1) e) ∙ reported in
    let words : 4 * w / 4 ≡ w = omega arith in
    let counted : j < bytes / 4 =
      rw (bytes_eq, words-eq (size / (4 * w)) w) (lt-mul j (size / (4 * w)) w p inside) in
    let uncopied : ltb (j / w) (copied_elements (4 * w) num_sm size) ≡ false =
      le→ltb _ _ (omega arith) in
    uncopied-fails r l (suc n) (4 * w) bytes b j
      (λ src dst.
        rw words
          (run_launch_lem w num_sm size n r.copy src dst j pos fits e run.copy ∙ rw uncopied))
      counted differ run
