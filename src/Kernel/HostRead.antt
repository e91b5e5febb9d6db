-- ===== src/Kernel/HostRead.antt =====
-- kernels.cu: the kernels that read host memory and keep what they read in an accumulator, and the host
-- functions that launch them. A read of index `e` is that of the bytes from `e * read_bytes` on; what it
-- does to the accumulator is an argument of the loops, which for the kernels is `accumulate_host_read`.
pub mod Rounds
pub mod Counted
use nvbandwidth.Prelude.{
  ℕ, zero, suc, ◌+◌, ◌-◌, ◌*◌, ◌/◌, ◌%◌, ◌^◌, ◌||◌, min, bit_xor, ◌==◌, ltb, if◌then◌else◌,
}
use nvbandwidth.Config.{u32_mod, small_buffer_threshold, mib, num_thread_per_block}
use nvbandwidth.Kernel.Memory.{Memory}
use nvbandwidth.Kernel.Launch.{
  Result, ok, throw, unsupported_host_read_bytes, unsupported_host_read_parallelism,
  total_thread_count,
}

-- `uint4`.
pub record Uint4 : Type 0 where
  pub x : ℕ
  pub y : ℕ
  pub z : ℕ
  pub w : ℕ

-- `accumulateUint4`.
unfoldable pub accumulate_uint4 : Uint4 → Uint4 → Uint4
accumulate_uint4 acc value = record {
  x = bit_xor acc.x value.x;
  y = bit_xor acc.y value.y;
  z = bit_xor acc.z value.z;
  w = bit_xor acc.w value.w;
}

-- The uint4 at a word of the source.
abbrev uint4_at : Memory → ℕ → Uint4
uint4_at src i = record { x = src i; y = src (i + 1); z = src (i + 2); w = src (i + 3) }

-- The loop over the parts of a read, from a word on.
unfoldable pub accumulate_parts : (parts : ℕ) → Memory → (word : ℕ) → Uint4 → Uint4
unfolding accumulate_uint4
accumulate_parts zero src word acc = acc
accumulate_parts (suc n) src word acc =
    accumulate_parts n src (word + 4) (accumulate_uint4 acc (uint4_at src word))

-- `accumulateHostRead`, of the read of index `e`.
unfoldable pub accumulate_host_read : (read_bytes : ℕ) → Memory → (e : ℕ) → Uint4 → Uint4
unfolding accumulate_parts
accumulate_host_read read_bytes src e acc =
    let word = e * read_bytes / 4 in
    if read_bytes == 8
    then record acc { x = bit_xor acc.x (src word); y = bit_xor acc.y (src (word + 1)) }
    else accumulate_parts (read_bytes / 16) src word acc

-- The index of the next read, and the accumulator.
pub record Reader {ℓ} (A : Type ℓ) : Type ℓ where
  pub cur : ℕ
  pub acc : A

module _ {ℓ} {A : Type ℓ} (read : ℕ → A → A) (threads : ℕ) where
  unfoldable pub read_next : Reader A → Reader A
  read_next s = record { cur = s.cur + threads; acc = read s.cur s.acc }

  -- The unrolled loop of `simpleHostReadKernel`.
  unfoldable pub simple_reads : (parallel_reads n_reads : ℕ) → Reader A → Reader A
  unfolding read_next
  simple_reads zero n_reads s = s
  simple_reads (suc j) n_reads s =
      simple_reads j n_reads (if ltb s.cur n_reads then read_next s else s)

  -- A thread of `simpleHostReadKernel`, up to its write of the accumulator.
  unfoldable pub simple_read_thread : (loop_count parallel_reads n_reads idx : ℕ) → A → A
  unfolding simple_reads
  simple_read_thread zero parallel_reads n_reads idx acc = acc
  simple_read_thread (suc n) parallel_reads n_reads idx acc =
      simple_read_thread n parallel_reads n_reads idx
        (simple_reads parallel_reads n_reads (record { cur = idx; acc = acc })).acc

  -- The unrolled loop of `stridingHostReadKernel`.
  unfoldable pub reads : (count : ℕ) → Reader A → Reader A
  unfolding read_next
  reads zero s = s
  reads (suc j) s = reads j (read_next s)

  -- `while (curSrc < limit)`, with so many reads in a round, on fuel.
  unfoldable pub read_while : (fuel count limit : ℕ) → Reader A → Reader A
  unfolding reads
  read_while zero count limit s = s
  read_while (suc f) count limit s =
      let rest = read_while f count limit (reads count s) in if ltb s.cur limit then rest else s

  -- One pass over the elements of a thread. `chunk + 1` rounds of fuel are enough for either loop.
  unfoldable pub read_pass : (parallel_reads chunk from : ℕ) → A → A
  unfolding read_while
  read_pass parallel_reads chunk from acc =
      let big_end = from + chunk / parallel_reads * parallel_reads * threads in
      let end = from + chunk * threads in
      let s = read_while (chunk + 1) parallel_reads big_end (record { cur = from; acc = acc }) in
      (read_while (chunk + 1) 1 end s).acc

  -- A thread of `stridingHostReadKernel`, up to its write of the accumulator.
  unfoldable pub striding_read_thread : (loop_count parallel_reads chunk from : ℕ) → A → A
  unfolding read_pass
  striding_read_thread zero parallel_reads chunk from acc = acc
  striding_read_thread (suc n) parallel_reads chunk from acc =
      striding_read_thread n parallel_reads chunk from (read_pass parallel_reads chunk from acc)

-- What `launchHostReadKernel` launches: the grid, and the number of reads, in all or of each thread.
pub data ReadLaunch : Type 0 where
  no_read : ReadLaunch
  simple_read : (grid_dim block_dim num_reads : ℕ) → ReadLaunch
  striding_read : (grid_dim block_dim threads chunk : ℕ) → ReadLaunch

-- The branch of `launchHostReadKernel` for small buffers, past its test that there is something to read.
-- It returns the size that is read.
unfoldable pub launch_small_read :
    (parallel_reads read_bytes num_reads max_sink_writes : ℕ) → ReadLaunch × ℕ
launch_small_read parallel_reads read_bytes num_reads max_sink_writes =
    let wanted = min num_reads (max_sink_writes * parallel_reads) in
    let thread_count = (wanted + parallel_reads - 1) / parallel_reads in
    let block = min thread_count 1024 in
    let grid = thread_count / block in
    let covered = min wanted (grid * block * parallel_reads) in
    (simple_read grid block covered, covered * read_bytes)

unfoldable pub launch_large_read : (read_bytes threads num_sm copy_size : ℕ) → ReadLaunch × ℕ
launch_large_read read_bytes threads num_sm copy_size =
    let size_in_reads = threads * (copy_size / read_bytes / threads) in
    let chunk = size_in_reads / threads in
    (striding_read num_sm num_thread_per_block threads chunk, size_in_reads * read_bytes)

-- `launchHostReadKernel`.
unfoldable pub launch_host_read_kernel :
    (parallel_reads read_bytes threads num_sm copy_size : ℕ) → ReadLaunch × ℕ
unfolding launch_small_read launch_large_read
launch_host_read_kernel parallel_reads read_bytes threads num_sm copy_size =
    if ltb copy_size (small_buffer_threshold * mib)
    then (if (copy_size / read_bytes == 0) || (copy_size / 16 == 0)
        then (no_read, 0)
        else launch_small_read parallel_reads read_bytes (copy_size / read_bytes) (copy_size / 16))
    else launch_large_read read_bytes threads num_sm copy_size

-- `launchHostReadKernelWithReadBytes`.
unfoldable pub launch_with_read_bytes :
    (parallel_reads host_read_bytes threads num_sm copy_size : ℕ) → Result (ReadLaunch × ℕ)
unfolding launch_host_read_kernel
launch_with_read_bytes parallel_reads bytes threads num_sm copy_size =
    if (bytes == 8)
      || (bytes == 16)
      || (bytes == 32)
      || (bytes == 64)
      || (bytes == 128)
      || (bytes == 256)
    then ok (launch_host_read_kernel parallel_reads bytes threads num_sm copy_size)
    else throw unsupported_host_read_bytes

-- `hostReadKernel`.
unfoldable pub host_read_kernel :
    (host_read_parallelism host_read_bytes num_sm copy_size : ℕ) → Result (ReadLaunch × ℕ)
unfolding launch_with_read_bytes
host_read_kernel p bytes num_sm copy_size =
    if (p == 1) || (p == 2) || (p == 4) || (p == 8) || (p == 16) || (p == 32)
    then launch_with_read_bytes p bytes (total_thread_count num_sm) num_sm copy_size
    else throw unsupported_host_read_parallelism

-- The thread of an index in a launch.
unfoldable pub run_reader {ℓ} :
    {A : Type ℓ} → (ℕ → A → A) → ReadLaunch → (parallel_reads loop_count idx : ℕ) → A → A
unfolding simple_read_thread striding_read_thread
run_reader read no_read parallel_reads loop_count idx acc = acc
run_reader read (simple_read grid_dim block_dim num_reads) parallel_reads loop_count idx acc =
    simple_read_thread read (block_dim * grid_dim % u32_mod) loop_count parallel_reads num_reads idx
      acc
run_reader read (striding_read grid_dim block_dim threads chunk) parallel_reads loop_count idx acc =
    striding_read_thread read threads loop_count parallel_reads chunk idx acc

-- What the thread of an index writes to its place of the destination.
unfoldable pub sink :
    ReadLaunch → (parallel_reads read_bytes loop_count : ℕ) → Memory → (idx : ℕ) → Uint4
unfolding run_reader accumulate_host_read
sink l parallel_reads read_bytes loop_count src idx =
    run_reader (accumulate_host_read read_bytes src) l parallel_reads loop_count idx
      (record { x = 0; y = 0; z = 0; w = 0 })
