-- ===== src/Kernel/Pattern/Compare.antt =====
-- Comparing a buffer with the pattern: `memcmpPatternHelper`.
use nvbandwidth.Prelude.{
  ℕ, ◌/◌, ◌%◌, ◌≤◌, ◌<◌, ◌≡◌, ◌↔◌, List, [], ◌∷◌, arith, any, ◌==◌, ltb, if◌then◌else◌, Bool, ◌&&◌,
  not, some, Bool-cases, inl, inr, ◌∙◌, sym,
}
use nvbandwidth.Config.{u32_mod}
use nvbandwidth.Kernel.Memory.{Memory}
use nvbandwidth.Kernel.Grid.{
  Thread, global_index, IsSchedule, any-of_thread, any-of_none, thread_of, thread_of-InGrid,
  global_index-thread_of,
}
use nvbandwidth.Kernel.Pattern.{
  num_pattern_elements, xorshift_2mb_pattern, threads_per_block, num_blocks, memcmp_kernel,
  memcmp_thread, memcmp_pattern_helper,
}
use nvbandwidth.Kernel.Pattern.Fill.{pattern_word, xorshift_2mb_pattern_lem}

abbrev differs : (buf pattern : Memory) (n p idx : ℕ) → Bool
differs buf pattern n p idx = ltb idx n && not (buf idx == pattern (idx % p))

-- The flag is raised by the first thread that sees a difference, and stays up.
memcmp-run :
    (ts : List Thread) (buf pattern : Memory) (n p flag : ℕ)
    → memcmp_kernel ts buf pattern n p flag ≡ (
        if (flag == 0) && any (λ t. differs buf pattern n p (global_index threads_per_block t)) ts
        then 1
        else flag)
unfolding memcmp_kernel memcmp_thread
memcmp-run [] buf pattern n p flag = ground arith
memcmp-run (t ∷ ts) buf pattern n p flag = ground (
  arith,
  memcmp-run ts buf pattern n p
      (memcmp_thread buf pattern n p (global_index threads_per_block t) flag),
)

module _ {ts : List Thread} (buf pattern : Memory) (n p : ℕ)
    (s : IsSchedule (num_blocks n) threads_per_block ts) (small : n ≤ u32_mod) where
  bits : Thread → Bool
  bits t = differs buf pattern n p (global_index threads_per_block t)

  -- The kernel leaves the flag down exactly when the first `n` words are those of the pattern.
  pub memcmp_kernel_iff :
      (memcmp_kernel ts buf pattern n p 0 ≡ 0) ↔ ((j : ℕ) → j < n → buf j ≡ pattern (j % p))
  unfolding bits
  memcmp_kernel_iff = (sound, complete)
    where
      sound : memcmp_kernel ts buf pattern n p 0 ≡ 0 → (j : ℕ) → j < n → buf j ≡ pattern (j % p)
      sound e j h = elim (Bool-cases (differs buf pattern n p j)) [
        | inl bad ↦ ground (
          arith,
          memcmp-run ts buf pattern n p 0,
          any-of_thread bits s (thread_of threads_per_block j)
              (thread_of-InGrid (num_blocks n) threads_per_block j (omega arith))
              (rw
                (global_index-thread_of (num_blocks n) threads_per_block j (omega arith)
                  (omega arith))
                bad),
        )
        | inr good ↦ ground arith
      ]

      complete :
          ((j : ℕ) → j < n → buf j ≡ pattern (j % p)) → memcmp_kernel ts buf pattern n p 0 ≡ 0
      complete same = ground (
        arith,
        memcmp-run ts buf pattern n p 0,
        any-of_none bits s (λ t k. ground (arith, same (global_index threads_per_block t))),
      )

-- In any order of the threads, the comparison lets the process go on exactly when the first `size /
-- 4` words of the buffer, at most 2^32, are those of the pattern of the seed.
pub memcmp_pattern_helper_iff :
    {ts : List Thread} (scratch : Memory) (size seed : ℕ) (buf : Memory)
    → IsSchedule (num_blocks (size / 4)) threads_per_block ts
    → size / 4 ≤ u32_mod
    → (memcmp_pattern_helper scratch ts size seed buf ≡ some tt)
      ↔ ((j : ℕ) → j < size / 4 → buf j ≡ pattern_word seed j)
unfolding memcmp_pattern_helper
memcmp_pattern_helper_iff {ts} scratch size seed buf s small =
    let pattern = xorshift_2mb_pattern scratch seed in
    let (sound, complete) = memcmp_kernel_iff buf pattern (size / 4) num_pattern_elements s small in
    (
      λ e j h. sound (ground arith) j h ∙ xorshift_2mb_pattern_lem scratch seed j,
      λ same. rw (complete (λ j h. same j h ∙ sym (xorshift_2mb_pattern_lem scratch seed j))),
    )
