-- ===== src/Config.antt =====
-- common.h: the constants of the program, and the sizes of its C++ types.
use nvbandwidth.Prelude.{ℕ, ◌*◌, ◌^◌}

abbrev pub small_buffer_threshold : ℕ
small_buffer_threshold = 64

abbrev pub mib : ℕ
mib = 1024 * 1024

abbrev pub two_mib : ℕ
two_mib = 2 * mib

abbrev pub num_thread_per_block : ℕ
num_thread_per_block = 512

-- The moduli of `unsigned int` and of `size_t` and `unsigned long long`.
abbrev pub u32_mod : ℕ
u32_mod = 2 ^ 32

abbrev pub u64_mod : ℕ
u64_mod = 2 ^ 64

abbrev pub uint_max : ℕ
uint_max = 4_294_967_295

abbrev pub ullong_max : ℕ
ullong_max = 18_446_744_073_709_551_615
