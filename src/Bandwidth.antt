-- ===== src/Bandwidth.antt =====
-- memcpy.cpp, `MemcpyOperation::doMemcpyCore`: the bandwidth of one copy, from its size, the loop count
-- and the time between its events. The time comes from CUDA: the whole number of microseconds is an
-- argument.
use nvbandwidth.Prelude.{ℕ, ◌+◌, ◌*◌, ◌/◌, ◌%◌, ◌≤◌, ◌<◌, ◌≡◌, ◌↔◌, ap, arith}
use nvbandwidth.Config.{u64_mod}

-- The multiplication of `unsigned long long`.
abbrev mul64 : ℕ → ℕ → ℕ
mul64 a b = a * b % u64_mod

-- `(adjustedCopySizes[i] * loopCount * 1000ull * 1000ull) / elapsed`
unfoldable pub sample_bandwidth : (size loop_count us : ℕ) → ℕ
sample_bandwidth size loop_count us = mul64 (mul64 (mul64 size loop_count) 1000) 1000 / us

product-wraps :
    (size loop_count us : ℕ)
    → sample_bandwidth size loop_count us ≡ size * loop_count * 1000000 % u64_mod / us
unfolding sample_bandwidth
product-wraps size loop_count us = ap (λ (x : ℕ). x / us) (step (size * loop_count))
  where
    step : (x : ℕ) → x % u64_mod * 1000 % u64_mod * 1000 % u64_mod ≡ x * 1000000 % u64_mod
    step x = omega arith

mod-small : (x : ℕ) → x < u64_mod → x % u64_mod ≡ x
mod-small x h = omega arith

div-less : (x y us : ℕ) → 0 < us → x + us ≤ y → x / us < y / us
div-less x y us p h = grind arith

div_mono : (x y us : ℕ) → 0 < us → x ≤ y → x / us ≤ y / us
div_mono x y us p h = grind arith

wrapped-less :
    (product us : ℕ)
    → 0 < us
    → us < u64_mod
    → u64_mod ≤ product
    → product % u64_mod / us < product / us
wrapped-less product us p h large = div-less (product % u64_mod) product us p (omega arith)

exact_iff :
    (product us : ℕ)
    → 0 < us
    → us < u64_mod
    → product % u64_mod / us ≡ product / us ↔ (product < u64_mod)
exact_iff product us p h = (
  λ e. ground (arith, wrapped-less product us p h),
  λ small. ap (λ (x : ℕ). x / us) (mod-small product small),
)

wrapped-le : (product us : ℕ) → 0 < us → product % u64_mod / us ≤ product / us
wrapped-le product us p = div_mono (product % u64_mod) product us p (omega arith)

-- The bandwidth of a sample is at most the number of bytes copied in a second, rounded down, and is
-- that number exactly when the product of the bytes and a million is below 2^64. The time is a 64-bit
-- number of microseconds that is not 0.
pub sample_bandwidth_iff :
    (size loop_count us : ℕ)
    → 0 < us
    → us < u64_mod
    → (sample_bandwidth size loop_count us ≤ size * loop_count * 1000000 / us)
      × (sample_bandwidth size loop_count us ≡ size * loop_count * 1000000 / us
          ↔ (size * loop_count * 1000000 < u64_mod))
sample_bandwidth_iff size loop_count us p h =
    let product = size * loop_count * 1000000 in
    rw (product-wraps size loop_count us) (wrapped-le product us p, exact_iff product us p h)
