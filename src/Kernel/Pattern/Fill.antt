-- ===== src/Kernel/Pattern/Fill.antt =====
-- Filling a buffer: `memsetPatternHelper` on the GPU, `cpuMemsetPatternHelper` on the host.
use nvbandwidth.Prelude.{
  ℕ, zero, suc, ◌+◌, ◌-◌, ◌*◌, ◌/◌, ◌%◌, ◌≤◌, ◌<◌, ◌≡◌, refl, List, [], ◌∷◌, min, arith, any, ◌==◌,
  ltb, if◌then◌else◌, ap, ◌∙◌, false, lt→ltb,
}
use nvbandwidth.Config.{u32_mod, two_mib}
use nvbandwidth.Kernel.Memory.{Memory}
use nvbandwidth.Kernel.Grid.{Thread, global_index, IsSchedule, any-index}
use nvbandwidth.Kernel.Pattern.{
  xorshift, xorshift_loop, num_pattern_elements, xorshift_2mb_pattern, threads_per_block,
  num_blocks, memset_thread, memset_kernel, memset_pattern_helper, byte_of, cpu_memset_loop,
  cpu_memset_pattern_helper,
}

-- The generator `xorshift` run `n` times.
unfoldable pub xorshift_iterate : ℕ → ℕ → ℕ
xorshift_iterate zero value = value
xorshift_iterate (suc n) value = xorshift_iterate n (xorshift value)

-- The word that the pattern of `seed` has at place `j` of a buffer.
unfoldable pub pattern_word : ℕ → ℕ → ℕ
pattern_word seed j = xorshift_iterate (suc (j % num_pattern_elements)) seed

loop-below : (r n v : ℕ) (buf : Memory) (j : ℕ) → j < n → xorshift_loop r n v buf j ≡ buf j
unfolding xorshift_loop
loop-below zero n v buf j h = refl
loop-below (suc r) n v buf j h =
    ground (arith, loop-below r (n + 1) (xorshift v) (λ i. if i == n then xorshift v else buf i) j)

loop-at :
    (r n v : ℕ) (buf : Memory) (i : ℕ)
    → i < r
    → xorshift_loop r n v buf (n + i) ≡ xorshift_iterate (suc i) v
unfolding xorshift_loop xorshift_iterate
loop-at zero n v buf i h = elim h [ ]
loop-at (suc r) n v buf zero h =
    let at_n : n + 0 ≡ n = omega arith in
    rw
      (
        at_n,
        loop-below r (n + 1) (xorshift v) (λ i. if i == n then xorshift v else buf i) n
            (omega arith),
      )
      (ground arith)
loop-at (suc r) n v buf (suc i) h =
    let next : n + suc i ≡ n + 1 + i = omega arith in
    rw next (loop-at r (n + 1) (xorshift v) _ i (omega arith))

loop-at_zero :
    (r v : ℕ) (buf : Memory) (i : ℕ)
    → i < r
    → xorshift_loop r 0 v buf i ≡ xorshift_iterate (suc i) v
loop-at_zero r v buf i h = ap (xorshift_loop r 0 v buf) (omega arith) ∙ loop-at r 0 v buf i h

-- The pattern buffer, whatever it held before.
pub xorshift_2mb_pattern_lem :
    (scratch : Memory) (seed j : ℕ)
    → xorshift_2mb_pattern scratch seed (j % num_pattern_elements) ≡ pattern_word seed j
unfolding xorshift_2mb_pattern pattern_word
xorshift_2mb_pattern_lem scratch seed j =
    loop-at_zero num_pattern_elements seed scratch (j % num_pattern_elements) (omega arith)

memset-run :
    (ts : List Thread) (pattern : Memory) (n p : ℕ) (buf : Memory) (j : ℕ)
    → memset_kernel ts pattern n p buf j ≡ (
        if any (λ t. j == global_index threads_per_block t) ts
        then if ltb j n then pattern (j % p) else buf j
        else buf j)
unfolding memset_kernel memset_thread
memset-run [] pattern n p buf j = refl
memset-run (t ∷ ts) pattern n p buf j = ground (
  arith,
  memset-run ts pattern n p (memset_thread pattern n p (global_index threads_per_block t) buf) j,
)

-- `memsetKernel` sets just the first `n` words, if their number is at most 2^32.
pub memset_kernel_lem :
    {ts : List Thread} (pattern : Memory) (n p : ℕ) (buf : Memory) (j : ℕ)
    → IsSchedule (num_blocks n) threads_per_block ts
    → n ≤ u32_mod
    → memset_kernel ts pattern n p buf j ≡ (if ltb j n then pattern (j % p) else buf j)
memset_kernel_lem {ts} pattern n p buf j s small =
    ground (arith, memset-run ts pattern n p buf j, any-index s (omega arith) j)

any-wrapped :
    (ts : List Thread) (j : ℕ)
    → u32_mod ≤ j
    → any (λ t. j == global_index threads_per_block t) ts ≡ false
any-wrapped [] j h = refl
any-wrapped (t ∷ ts) j h = ground (arith, any-wrapped ts j h)

-- However many threads are launched, no word from 2^32 on is ever set: the index is 32-bit.
pub memset_kernel-wrapped :
    (ts : List Thread) (pattern : Memory) (n p : ℕ) (buf : Memory) (j : ℕ)
    → u32_mod ≤ j
    → memset_kernel ts pattern n p buf j ≡ buf j
memset_kernel-wrapped ts pattern n p buf j h =
    rw (memset-run ts pattern n p buf j, any-wrapped ts j h)

-- In any order of the threads, filling sets just the first `size / 4` words of the buffer, at most
-- 2^32, to those of the pattern of the seed.
pub memset_pattern_helper_lem :
    {ts : List Thread} (scratch : Memory) (size seed : ℕ) (buf : Memory) (j : ℕ)
    → IsSchedule (num_blocks (size / 4)) threads_per_block ts
    → size / 4 ≤ u32_mod
    → memset_pattern_helper scratch ts size seed buf j
      ≡ (if ltb j (size / 4) then pattern_word seed j else buf j)
unfolding memset_pattern_helper
memset_pattern_helper_lem scratch size seed buf j s small =
    memset_kernel_lem (xorshift_2mb_pattern scratch seed) (size / 4) num_pattern_elements buf j s
      small
    ∙ ap (λ v. if ltb j (size / 4) then v else buf j) (xorshift_2mb_pattern_lem scratch seed j)

cpu_loop :
    (f : ℕ) (pattern : ℕ → ℕ) (dst remaining : ℕ) (buf : ℕ → ℕ) (k : ℕ)
    → (0 < remaining → dst % two_mib ≡ 0)
    → remaining ≤ f * two_mib
    → cpu_memset_loop f pattern dst remaining buf k ≡ (
        if ltb k dst
        then buf k
        else if ltb k (dst + remaining)
        then pattern (k % two_mib)
        else buf k)
unfolding cpu_memset_loop
cpu_loop zero pattern dst remaining buf k a h = ground arith
cpu_loop (suc f) pattern dst remaining buf k a h =
    let chunk = min two_mib remaining in
    let copied : ℕ → ℕ =
      λ j. if ltb j dst then buf j else if ltb j (dst + chunk) then pattern (j - dst) else buf j in
    let in_chunk : 0 < remaining → dst ≤ k → k < dst + chunk → k - dst ≡ k % two_mib =
      λ p q r. let e = a p in omega arith in
    ground (
      arith,
      in_chunk,
      cpu_loop f pattern (dst + chunk) (remaining - chunk) copied k
          (λ p. let e = a (omega arith) in omega arith) (omega arith),
    )

-- The bytes of the pattern buffer, repeated every 2 MiB, are those of the words of the pattern.
byte_of-pattern :
    (scratch : Memory) (seed k : ℕ)
    → byte_of (xorshift_2mb_pattern scratch seed) (k % two_mib) ≡ byte_of (pattern_word seed) k
byte_of-pattern scratch seed k =
    let word : k % two_mib / 4 ≡ k / 4 % num_pattern_elements = omega arith in
    let byte : k % two_mib % 4 ≡ k % 4 = omega arith in
    rw (word, byte, xorshift_2mb_pattern_lem scratch seed (k / 4))

-- The loop of the CPU comes to its end, and has filled just the first `size` bytes, by the bytes of
-- the pattern of the seed.
pub cpu_memset_pattern_helper_lem :
    (scratch : Memory) (size seed : ℕ) (buf : ℕ → ℕ) (k : ℕ)
    → cpu_memset_pattern_helper scratch size seed buf k
      ≡ (if ltb k size then byte_of (pattern_word seed) k else buf k)
unfolding cpu_memset_pattern_helper
cpu_memset_pattern_helper_lem scratch size seed buf k = ground (
  arith,
  cpu_loop (size / two_mib + 2) (byte_of (xorshift_2mb_pattern scratch seed)) 0 size buf k
      (λ p. omega arith) (omega arith),
  byte_of-pattern scratch seed k,
)

-- Either way of filling a host buffer leaves the same bytes in its whole words, if these are at
-- most 2^32, in any order of the threads.
pub cpu_memset-eq-memset :
    {ts : List Thread} (scratch : Memory) (size seed : ℕ) (buf : Memory) (bytes : ℕ → ℕ) (k : ℕ)
    → IsSchedule (num_blocks (size / 4)) threads_per_block ts
    → size / 4 ≤ u32_mod
    → k < size / 4 * 4
    → cpu_memset_pattern_helper scratch size seed bytes k
      ≡ byte_of (memset_pattern_helper scratch ts size seed buf) k
cpu_memset-eq-memset scratch size seed buf bytes k s small h = rw (
  cpu_memset_pattern_helper_lem scratch size seed bytes k,
  memset_pattern_helper_lem scratch size seed buf (k / 4) s small,
  lt→ltb k size (omega arith),
  lt→ltb (k / 4) (size / 4) (omega arith),
)
