-- ===== src/Kernel/Pattern.antt =====
-- memcpy.cpp and kernels.cu: the pattern that buffers are filled with before a copy and compared
-- with after it. A buffer of `unsigned int` is a function from its words.
pub mod Fill
pub mod Compare
use nvbandwidth.Prelude.{
  ℕ, zero, suc, ◌+◌, ◌-◌, ◌*◌, ◌/◌, ◌%◌, ◌^◌, List, min, bit_xor, run_all, ◌==◌, ltb, if◌then◌else◌,
  Option, none, some,
}
use nvbandwidth.Config.{u32_mod, two_mib}
use nvbandwidth.Kernel.Memory.{Memory}
use nvbandwidth.Kernel.Grid.{Thread, global_index}

-- The body of the loop of `xorshift2MBPattern`.
unfoldable pub xorshift : ℕ → ℕ
xorshift value =
    let a = bit_xor value (value * 2 ^ 13 % u32_mod) in
    let b = bit_xor a (a / 2 ^ 17) in bit_xor b (b * 2 ^ 5 % u32_mod)

pub xorshift_loop : (rounds n old_value : ℕ) → Memory → Memory
unfolding xorshift
xorshift_loop zero n old_value buffer = buffer
xorshift_loop (suc r) n old_value buffer =
    let value = xorshift old_value in
    xorshift_loop r (n + 1) value (λ j. if j == n then value else buffer j)

-- The number of words of the pattern.
abbrev pub num_pattern_elements : ℕ
num_pattern_elements = two_mib / 4

unfoldable pub xorshift_2mb_pattern : Memory → ℕ → Memory
unfolding xorshift_loop
xorshift_2mb_pattern buffer seed = xorshift_loop num_pattern_elements 0 seed buffer

abbrev pub threads_per_block : ℕ
threads_per_block = 1024

abbrev pub num_blocks : ℕ → ℕ
num_blocks num_elements = (num_elements + threads_per_block - 1) / threads_per_block

-- One thread of `memsetKernelDevice`.
memset_thread : (pattern : Memory) (num_elements pattern_elements idx : ℕ) → Memory → Memory
memset_thread pattern num_elements pattern_elements idx buf =
    if ltb idx num_elements
    then (λ j. if j == idx then pattern (idx % pattern_elements) else buf j)
    else buf

-- `memsetKernel` launches `num_blocks num_elements` blocks.
unfoldable pub memset_kernel :
    List Thread → (pattern : Memory) (num_elements pattern_elements : ℕ) → Memory → Memory
unfolding memset_thread
memset_kernel ts pattern num_elements pattern_elements =
    run_all
      (λ t. memset_thread pattern num_elements pattern_elements (global_index threads_per_block t))
      ts

-- One thread of `memcmpKernelDevice`, on the error flag; `atomicCAS(errorFlag, 0, 1)`.
memcmp_thread : (buf pattern : Memory) (num_elements pattern_elements idx : ℕ) → ℕ → ℕ
memcmp_thread buf pattern num_elements pattern_elements idx flag =
    if ltb idx num_elements
    then if buf idx == pattern (idx % pattern_elements) then flag else if flag == 0 then 1 else flag
    else flag

unfoldable pub memcmp_kernel :
    List Thread → (buf pattern : Memory) (num_elements pattern_elements : ℕ) → ℕ → ℕ
unfolding memcmp_thread
memcmp_kernel ts buf pattern num_elements pattern_elements =
    run_all
      (λ t.
        memcmp_thread buf pattern num_elements pattern_elements (global_index threads_per_block t))
      ts

-- `memsetPatternHelper`. The calls of CUDA are taken to succeed; what the pattern buffer held before
-- is `scratch`.
unfoldable pub memset_pattern_helper :
    (scratch : Memory) → List Thread → (size seed : ℕ) → Memory → Memory
memset_pattern_helper scratch ts size seed =
    memset_kernel ts (xorshift_2mb_pattern scratch seed) (size / 4) num_pattern_elements

-- `memcmpPatternHelper`: `none` when its ASSERT ends the process.
unfoldable pub memcmp_pattern_helper :
    (scratch : Memory) → List Thread → (size seed : ℕ) → Memory → Option (Unit {0})
memcmp_pattern_helper scratch ts size seed buf =
    if memcmp_kernel ts buf (xorshift_2mb_pattern scratch seed) (size / 4) num_pattern_elements 0
      == 0
    then some tt
    else none

-- Byte `k` of a buffer of words, on a little-endian machine.
abbrev pub byte_of : Memory → ℕ → ℕ
byte_of m k = m (k / 4) / 256 ^ (k % 4) % 256

-- The loop of `cpuMemsetPatternHelper` over bytes: `memcpy(dst, h_pattern, chunk)`.
pub cpu_memset_loop : (fuel : ℕ) (pattern : ℕ → ℕ) (dst remaining : ℕ) → (ℕ → ℕ) → ℕ → ℕ
cpu_memset_loop zero pattern dst remaining buf = buf
cpu_memset_loop (suc f) pattern dst remaining buf =
    let chunk = min two_mib remaining in
    let copied : ℕ → ℕ =
      λ j. if ltb j dst then buf j else if ltb j (dst + chunk) then pattern (j - dst) else buf j in
    let rest = cpu_memset_loop f pattern (dst + chunk) (remaining - chunk) copied in
    if ltb 0 remaining then rest else buf

-- `cpuMemsetPatternHelper`, with one round of fuel for each 2 MiB begun, and one to stop.
unfoldable pub cpu_memset_pattern_helper : (scratch : Memory) → (size seed : ℕ) → (ℕ → ℕ) → ℕ → ℕ
unfolding cpu_memset_loop
cpu_memset_pattern_helper scratch size seed =
    cpu_memset_loop (size / two_mib + 2) (byte_of (xorshift_2mb_pattern scratch seed)) 0 size
