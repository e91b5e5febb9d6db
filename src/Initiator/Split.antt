-- ===== src/Initiator/Split.antt =====
-- A verified sample of the split-warp initiator.
use nvbandwidth.Prelude.{
  ℕ, suc, ◌*◌, ◌/◌, ◌%◌, ◌≤◌, ◌<◌, ◌≡◌, ◌≢◌, inl, inr, arith, ltb, ◌&&◌, not, if◌then◌else◌, true,
  false, lt→ltb, sym, ◌∙◌, some, none, Option-cases, min,
}
use nvbandwidth.Config.{u32_mod}
use nvbandwidth.Kernel.Grid.{IsSchedule}
use nvbandwidth.Kernel.SplitWarp.{Buffers, split_warp_copy_kernel, is_odd_warp}
use nvbandwidth.Kernel.SplitWarp.Effect.{split_warp_copy_kernel_lem, memclear_kernel_lem}
use nvbandwidth.Kernel.Pattern.{threads_per_block, num_blocks, memcmp_pattern_helper}
use nvbandwidth.Kernel.Pattern.Fill.{pattern_word, memset_pattern_helper_lem}
use nvbandwidth.Kernel.Pattern.Compare.{memcmp_pattern_helper_iff}
use nvbandwidth.Kernel.Launch.{split_warp_grid, copy_kernel_split_warp_size}
use nvbandwidth.Initiator.{Run, split_memset_pattern, split_memcmp_pattern, split_sample, src_seed}

-- The schedules of a sample over `size` bytes.
pub record IsSplitRun (r : Run) (size : ℕ) : Type 0 where
  pub fill_dst : IsSchedule (num_blocks (size / 4)) threads_per_block r.fill_dst
  pub fill_src : IsSchedule (num_blocks (size / 4)) threads_per_block r.fill_src
  pub clear_dst : IsSchedule (split_warp_grid size).0 (split_warp_grid size).1 r.clear_dst
  pub clear_src : IsSchedule (split_warp_grid size).0 (split_warp_grid size).1 r.clear_src
  pub copy : IsSchedule (split_warp_grid size).0 (split_warp_grid size).1 r.copy
  pub compare_dst : IsSchedule (num_blocks (size / 4)) threads_per_block r.compare_dst
  pub compare_src : IsSchedule (num_blocks (size / 4)) threads_per_block r.compare_src
  pub small : size / 4 ≤ u32_mod

div-mul-le : (n b : ℕ) → n / b * b ≤ n
div-mul-le n b = grind arith

grid-le : (size : ℕ) → (split_warp_grid size).0 * (split_warp_grid size).1 ≤ u32_mod
unfolding split_warp_grid
grid-le size = let n = size / 16 % u32_mod in omega (arith, div-mul-le n (min n 1024))

grid-rounded :
    (size : ℕ) → split_warp_grid (copy_kernel_split_warp_size size) ≡ split_warp_grid size
unfolding split_warp_grid copy_kernel_split_warp_size
grid-rounded size =
    let e : size / 16 % u32_mod * 16 / 16 % u32_mod ≡ size / 16 % u32_mod = omega arith in rw e

module _ (r : Run) (size : ℕ) (run : IsSplitRun r size) (b : Buffers) (j : ℕ)
    (within : j < size / 4) where
  -- Before the copy, the words that the copy will write are zero and the others are those of the
  -- pattern.
  pub filled :
      let f = split_memset_pattern r size b in
      let inside = ltb (j / 4) ((split_warp_grid size).0 * (split_warp_grid size).1) in
      (f.dst j ≡ (if inside && is_odd_warp (j / 4) then 0 else pattern_word src_seed j))
      × (f.src j ≡ (if inside && not (is_odd_warp (j / 4)) then 0 else pattern_word src_seed j))
  unfolding split_memset_pattern
  filled =
      let d = memset_pattern_helper_lem r.scratch size src_seed b.dst j run.fill_dst run.small in
      let s = memset_pattern_helper_lem r.scratch size src_seed b.src j run.fill_src run.small in
      let lt = lt→ltb j (size / 4) within in
      (
        memclear_kernel_lem run.clear_dst (grid-le size) true _ j ∙ rw (d, lt),
        memclear_kernel_lem run.clear_src (grid-le size) false _ j ∙ rw (s, lt),
      )

  -- The copy restores both buffers.
  restored :
      (n : ℕ)
      → let c =
          split_warp_copy_kernel
            (split_warp_grid size).1
            r.copy
            (suc n)
            (split_memset_pattern r size b) in
        (c.dst j ≡ pattern_word src_seed j) × (c.src j ≡ pattern_word src_seed j)
  restored n = ground (
    arith,
    filled,
    split_warp_copy_kernel_lem run.copy (grid-le size) n (split_memset_pattern r size b) j,
  )

both-pass :
    (r : Run) (size : ℕ) (b : Buffers)
    → memcmp_pattern_helper r.scratch r.compare_dst size src_seed b.dst ≡ some tt
    → memcmp_pattern_helper r.scratch r.compare_src size src_seed b.src ≡ some tt
    → split_memcmp_pattern r size b ≡ some tt
unfolding split_memcmp_pattern
both-pass r size b h k = rw (h, k, split_memcmp_pattern)

first-fails :
    (r : Run) (size : ℕ) (b : Buffers)
    → memcmp_pattern_helper r.scratch r.compare_dst size src_seed b.dst ≡ none
    → split_memcmp_pattern r size b ≡ none
unfolding split_memcmp_pattern
first-fails r size b h = rw (h, split_memcmp_pattern)

-- A sample of the split-warp initiator passes both of its comparisons, in any order of the threads:
-- the buffers are filled, cleared, copied at least once and compared over the size that
-- `copyKernelSplitWarp` returns, of at most 2^32 words.
pub split_sample-passes :
    (r : Run) (copy_size n : ℕ) (b : Buffers)
    → IsSplitRun r (copy_kernel_split_warp_size copy_size)
    → split_sample r (suc n) copy_size (copy_kernel_split_warp_size copy_size) b ≡ some tt
unfolding split_sample
split_sample-passes r copy_size n b run =
    let size = copy_kernel_split_warp_size copy_size in
    let dst_same =
      (memcmp_pattern_helper_iff r.scratch size src_seed _ run.compare_dst run.small).1
        λ j h. (restored r size run b j h n).0 in
    let src_same =
      (memcmp_pattern_helper_iff r.scratch size src_seed _ run.compare_src run.small).1
        λ j h. (restored r size run b j h n).1 in
    rw (← grid-rounded copy_size) (both-pass r size _ dst_same src_same)

-- Without the copy, in any order of the threads, the split-warp comparison of at most 2^32 words
-- fails, as soon as the pattern is not zero at some compared word of an odd warp of the grid.
pub split_sample-needs_copy :
    (r : Run) (size j : ℕ) (b : Buffers)
    → IsSplitRun r size
    → j < size / 4
    → j / 4 < (split_warp_grid size).0 * (split_warp_grid size).1
    → is_odd_warp (j / 4) ≡ true
    → pattern_word src_seed j ≢ 0
    → split_memcmp_pattern r size (split_memset_pattern r size b) ≡ none
split_sample-needs_copy r size j b run within inside odd nonzero =
    let f = split_memset_pattern r size b in
    let cleared : f.dst j ≡ 0 = (filled r size run b j within).0 ∙ rw (lt→ltb _ _ inside, odd) in
    elim (Option-cases (memcmp_pattern_helper r.scratch r.compare_dst size src_seed f.dst)) [
      | inl e ↦ first-fails r size f e
      | inr (tt, e) ↦ absurd (
          nonzero (
            sym (
              (memcmp_pattern_helper_iff r.scratch size src_seed f.dst run.compare_dst run.small).0
                e j within)
            ∙ cleared))
    ]
