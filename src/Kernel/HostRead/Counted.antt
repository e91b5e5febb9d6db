-- ===== src/Kernel/HostRead/Counted.antt =====
-- What a launch of `hostReadKernel` reads, against the size that it returns.
use nvbandwidth.Prelude.{
  ℕ, ◌+◌, ◌-◌, ◌*◌, ◌/◌, ◌%◌, ◌≤◌, ◌<◌, ◌≡◌, refl, ap, ◌∙◌, arith, min, ◌==◌, ltb, ◌&&◌, ◌||◌,
  Bool-cases, inl, inr, ltb→lt,
}
use mathlib.Core.Path.{subst}
use native.Mathlib.Nat.{mul_comm}
use nvbandwidth.Config.{u32_mod, small_buffer_threshold, mib, num_thread_per_block}
use nvbandwidth.Kernel.Launch.{ok, total_thread_count}
use nvbandwidth.Kernel.HostRead.{
  ReadLaunch, no_read, simple_read, striding_read, launch_small_read, launch_large_read,
  launch_host_read_kernel, launch_with_read_bytes, host_read_kernel, run_reader,
}
use nvbandwidth.Kernel.HostRead.Rounds.{
  tally, once, simple_read_thread_lem, striding_read_thread_lem,
}

-- The number of threads of a launch.
abbrev pub threads_of : ReadLaunch → ℕ
threads_of no_read = 0
threads_of (simple_read grid_dim block_dim num_reads) = grid_dim * block_dim
threads_of (striding_read grid_dim block_dim threads chunk) = grid_dim * block_dim

-- Each thread of the launch reads each of the first `count` indices that are its own modulo the number
-- of threads once in each round, and no others.
abbrev pub ReadsEach : (l : ReadLaunch) (parallel_reads count : ℕ) → Type 0
ReadsEach l parallel_reads count =
    (loop_count idx e : ℕ)
    → idx < threads_of l
    → run_reader (tally e) l parallel_reads loop_count idx 0
      ≡ loop_count * once ((e % threads_of l == idx) && ltb e count)

inv-bytes :
    (b p threads num_sm size : ℕ) {r : ReadLaunch × ℕ}
    → launch_with_read_bytes p b threads num_sm size ≡ ok r
    → (7 < b) × (launch_host_read_kernel p b threads num_sm size ≡ r)
unfolding launch_with_read_bytes
inv-bytes b p threads num_sm size e = ground arith

inv :
    (p b num_sm size : ℕ) {r : ReadLaunch × ℕ}
    → host_read_kernel p b num_sm size ≡ ok r
    → (0 < p) × (launch_with_read_bytes p b (total_thread_count num_sm) num_sm size ≡ ok r)
unfolding host_read_kernel
inv p b num_sm size e = ground arith

-- The grid for `wanted` reads in groups of `p`.
module _ (p wanted : ℕ) (pos : 0 < p) (some_read : 0 < wanted) where
  abbrev count : ℕ
  count = (wanted + p - 1) / p

  count-pos : 0 < count
  count-pos = grind arith

  count-le : count ≤ wanted
  count-le = grind arith

  count-sink : (sink : ℕ) → wanted ≤ sink * p → count ≤ sink
  count-sink sink h = grind arith

  grid-le : count / min count 1024 * min count 1024 ≤ count
  grid-le = grind arith

div-mul : (n b : ℕ) → 0 < b → n * b / b ≡ n
div-mul n b h = grind arith

mul-le : (n m b size : ℕ) → n ≤ m → m ≡ size / b → n * b ≤ size
mul-le n m b size h e = grind arith

simple-ReadsEach :
    (p grid block k : ℕ)
    → grid * block < u32_mod
    → k ≤ grid * block * p
    → ReadsEach (simple_read grid block k) p k
unfolding run_reader
simple-ReadsEach p grid block k fits all loop_count idx e h =
    let threads : block * grid % u32_mod ≡ grid * block = omega (arith, mul_comm block grid) in
    rw threads (simple_read_thread_lem (grid * block) idx h e loop_count p k 0 all ∙ omega arith)

striding-ReadsEach :
    (p grid block chunk : ℕ)
    → 0 < p
    → ReadsEach (striding_read grid block (grid * block) chunk) p (grid * block * chunk)
unfolding run_reader
striding-ReadsEach p grid block chunk pos loop_count idx e h =
    striding_read_thread_lem (grid * block) idx h e loop_count p chunk 0 pos ∙ omega arith

-- The launch for a small buffer.
small-reads :
    (p b size sink : ℕ)
    → 0 < p
    → 0 < b
    → 0 < size / b
    → 0 < sink
    → size < u32_mod
    → let r = launch_small_read p b (size / b) sink in
      (r.1 ≤ size) × (threads_of r.0 ≤ sink) × ReadsEach r.0 p (r.1 / b)
unfolding launch_small_read
small-reads p b size sink pos bpos many room small =
    let wanted = min (size / b) (sink * p) in
    let product : 0 < sink * p = grind arith in
    let some_read : 0 < wanted = omega arith in
    let n = count p wanted pos some_read in
    let block = min n 1024 in
    let grid = n / block in
    let covered = min wanted (grid * block * p) in
    let part : size / b ≤ size = grind arith in
    let fewer = count-le p wanted pos some_read in
    let launched = grid-le p wanted pos some_read in
    let sunk = count-sink p wanted pos some_read sink (omega arith) in
    (
      mul-le covered (size / b) b size (omega arith) refl,
      omega arith,
      ap-reads (simple_read grid block covered) p covered b bpos
          (simple-ReadsEach p grid block covered (omega arith) (omega arith)),
    )
  where
    ap-reads : (l : ReadLaunch) (p k b : ℕ) → 0 < b → ReadsEach l p k → ReadsEach l p (k * b / b)
    ap-reads l p k b h f = rw (div-mul k b h) f

large-reads :
    (p b size num_sm : ℕ)
    → 0 < p
    → 0 < b
    → 0 < num_sm
    → let threads = num_sm * num_thread_per_block in
      let r = launch_large_read b threads num_sm size in (r.1 ≤ size) × ReadsEach r.0 p (r.1 / b)
unfolding launch_large_read
large-reads p b size num_sm pos bpos spos =
    let threads = num_sm * num_thread_per_block in
    let q = size / b / threads in
    let whole : threads * q / threads ≡ q =
      ap (λ x. x / threads) (mul_comm threads q) ∙ div-mul q threads (omega arith) in
    let part : threads * q ≤ size / b = grind arith in
    (
      mul-le (threads * q) (size / b) b size part refl,
      rw (div-mul (threads * q) b bpos, whole)
          (striding-ReadsEach p num_sm num_thread_per_block q pos),
    )

-- What holds of a launch with the size that it returns.
abbrev IsHonest : (p b size : ℕ) → ReadLaunch × ℕ → Type 0
IsHonest p b size r = (r.1 ≤ size) × ReadsEach r.0 p (r.1 / b)

nothing-ReadsEach : (p k : ℕ) → ReadsEach no_read p k
nothing-ReadsEach p k loop_count idx e h = absurd (omega arith)

launched-IsHonest :
    (p b num_sm size : ℕ)
    → 0 < p
    → 0 < b
    → 0 < num_sm
    → IsHonest p b size (launch_host_read_kernel p b (num_sm * num_thread_per_block) num_sm size)
unfolding launch_host_read_kernel
launched-IsHonest p b num_sm size pos bpos spos =
    elim (Bool-cases (ltb size (small_buffer_threshold * mib))) [
      | inl small ↦
          let below : size < small_buffer_threshold * mib = ltb→lt _ _ small in
          elim (Bool-cases ((size / b == 0) || (size / 16 == 0))) [
            | inl none ↦ rw (small, none) (omega arith, nothing-ReadsEach p (0 / b))
            | inr some ↦
                let (fits, sunk, f) =
                  small-reads p b size (size / 16) pos bpos (ground arith) (ground arith)
                    (omega arith) in
                rw (small, some) (fits, f)
          ]
      | inr big ↦ rw big (large-reads p b size num_sm pos bpos spos)
    ]

-- If `hostReadKernel` launches a kernel for a buffer of `size` bytes, its threads read the first of the
-- reads that the returned size has room for, all of them inside the buffer: in each round, each such
-- index is read once, by the thread that has it modulo the number of threads, and no other index is read.
-- The number of threads of the large launch is positive and below 2^32.
pub host_read_kernel_lem :
    (p b num_sm size returned : ℕ) {l : ReadLaunch}
    → 0 < num_sm
    → num_sm * num_thread_per_block < u32_mod
    → host_read_kernel p b num_sm size ≡ ok (l, returned)
    → (returned ≤ size) × ReadsEach l p (returned / b)
host_read_kernel_lem p b num_sm size returned {l} spos fits e =
    let (pos, e1) = inv p b num_sm size e in
    let (wide, e2) = inv-bytes b p (total_thread_count num_sm) num_sm size e1 in
    let threads : total_thread_count num_sm ≡ num_sm * num_thread_per_block = omega arith in
    let e3 = rw threads at e2 in
    subst (IsHonest p b size) e3 (launched-IsHonest p b num_sm size pos (omega arith) spos)

launched-sink :
    (p b num_sm size : ℕ)
    → 0 < p
    → 0 < b
    → num_sm ≤ 8192
    → threads_of (launch_host_read_kernel p b (num_sm * num_thread_per_block) num_sm size).0
      ≤ size / 16
unfolding launch_host_read_kernel launch_large_read
launched-sink p b num_sm size pos bpos few =
    elim (Bool-cases (ltb size (small_buffer_threshold * mib))) [
      | inl small ↦
          let below : size < small_buffer_threshold * mib = ltb→lt _ _ small in
          elim (Bool-cases ((size / b == 0) || (size / 16 == 0))) [
            | inl none ↦ rw (small, none) (omega arith)
            | inr some ↦
                let (fits, sunk, f) =
                  small-reads p b size (size / 16) pos bpos (ground arith) (ground arith)
                    (omega arith) in
                rw (small, some) sunk
          ]
      | inr big ↦
          let above : small_buffer_threshold * mib ≤ size = ground arith in rw big (omega arith)
    ]

-- On a device of at most 8192 multiprocessors, every thread that `hostReadKernel` launches has a place
-- of 16 bytes for its accumulator inside a destination of the size of the source.
pub host_read_kernel-sink :
    (p b num_sm size returned idx : ℕ) {l : ReadLaunch}
    → num_sm ≤ 8192
    → host_read_kernel p b num_sm size ≡ ok (l, returned)
    → idx < threads_of l
    → (idx + 1) * 16 ≤ size
host_read_kernel-sink p b num_sm size returned idx {l} few e h =
    let (pos, e1) = inv p b num_sm size e in
    let (wide, e2) = inv-bytes b p (total_thread_count num_sm) num_sm size e1 in
    let threads : total_thread_count num_sm ≡ num_sm * num_thread_per_block = omega arith in
    let e3 = rw threads at e2 in
    let sunk : threads_of l ≤ size / 16 =
      subst (λ (r : ReadLaunch × ℕ). threads_of r.0 ≤ size / 16) e3
        (launched-sink p b num_sm size pos (omega arith) few) in
    omega arith
