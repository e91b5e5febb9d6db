-- ===== src/Spin/Held.antt =====
-- No copy starts before all are enqueued, unless its blocker times out.
use nvbandwidth.Prelude.{ℕ, ◌≡◌, ◌⊎◌, inl, inr, refl, arith, Bool, true, false, if◌then◌else◌}
use nvbandwidth.Spin.{
  Kind, single, with_latch1, without_latch1, Pc, start, waiting_first, releasing, before_second,
  waiting_second, released, timed_out, Latches, end_time, expired, poll, spin_kernel_device,
  spin_kernel_device_multistage, spin_step, is_finished,
}

-- A kernel that has seen its latch.
abbrev pub has_passed : Pc → Bool
has_passed releasing = true
has_passed released = true
has_passed _ = false

-- The latches and one kernel, with what the host has done.
pub record Sound (l : Latches) (p : Pc) : Type 0 where
  pub chained : l.latch2 ≡ true → l.latch1 ≡ true
  pub passed : has_passed p ≡ true → l.latch1 ≡ true

not_yet :
    (b : Bool) (again : Pc)
    → has_passed again ≡ false
    → has_passed (if b then timed_out else again) ≡ false
not_yet true again n = refl
not_yet false again n = n

-- An iteration of a loop passes only on a set latch.
poll_lem :
    (l : Latches) (latch : Bool) (timeout clock e : ℕ) (next again : Pc)
    → (latch ≡ true → l.latch1 ≡ true)
    → has_passed again ≡ false
    → has_passed (poll latch timeout clock e next again) ≡ true
    → l.latch1 ≡ true
unfolding poll
poll_lem l true timeout clock e next again f n h = f refl
poll_lem l false timeout clock e next again f n h =
    let no = not_yet (expired timeout clock e) again n in absurd (ground (arith, no, h))

single-Sound :
    (timeout clock : ℕ) (l : Latches) (p : Pc)
    → Sound l p
    → Sound l (spin_kernel_device timeout clock l p)
unfolding spin_kernel_device
single-Sound timeout clock l start s = record { chained = s.chained; passed = λ h. ground arith }
single-Sound timeout clock l (waiting_first e) s = record {
  chained = s.chained;
  passed = poll_lem l l.latch1 timeout clock e released (waiting_first e) (λ h. h) refl;
}
single-Sound timeout clock l releasing s = s
single-Sound timeout clock l before_second s = s
single-Sound timeout clock l (waiting_second e) s = s
single-Sound timeout clock l released s = s
single-Sound timeout clock l timed_out s = s

first_wait :
    (b : Bool) (e : ℕ) → has_passed (if b then waiting_first e else waiting_second e) ≡ false
first_wait true e = refl
first_wait false e = refl

multistage-Sound :
    (b : Bool) (timeout clock : ℕ) (l : Latches) (p : Pc)
    → Sound l p
    → let r = spin_kernel_device_multistage b timeout clock l p in Sound r.0 r.1
unfolding spin_kernel_device_multistage
multistage-Sound b timeout clock l start s = record {
  chained = s.chained;
  passed = λ h. let no = first_wait b (end_time timeout clock) in absurd (ground (arith, no, h));
}
multistage-Sound b timeout clock l (waiting_first e) s = record {
  chained = s.chained;
  passed = poll_lem l l.latch1 timeout clock e releasing (waiting_first e) (λ h. h) refl;
}
multistage-Sound b timeout clock l releasing s = record {
  chained = λ h. s.passed refl;
  passed = λ h. s.passed refl;
}
multistage-Sound b timeout clock l before_second s = record {
  chained = s.chained;
  passed = λ h. ground arith;
}
multistage-Sound b timeout clock l (waiting_second e) s = record {
  chained = s.chained;
  passed = poll_lem l l.latch2 timeout clock e released (waiting_second e) s.chained refl;
}
multistage-Sound b timeout clock l released s = s
multistage-Sound b timeout clock l timed_out s = s

pub spin_step-Sound :
    (k : Kind) (timeout clock : ℕ) (l : Latches) (p : Pc)
    → Sound l p
    → let r = spin_step k timeout clock l p in Sound r.0 r.1
unfolding spin_step
spin_step-Sound single timeout clock l p s = single-Sound timeout clock l p s
spin_step-Sound with_latch1 timeout clock l p s = multistage-Sound true timeout clock l p s
spin_step-Sound without_latch1 timeout clock l p s = multistage-Sound false timeout clock l p s

multistage-latch1 :
    (b : Bool) (timeout clock : ℕ) (l : Latches) (p : Pc)
    → (spin_kernel_device_multistage b timeout clock l p).0.latch1 ≡ l.latch1
unfolding spin_kernel_device_multistage
multistage-latch1 b timeout clock l start = refl
multistage-latch1 b timeout clock l (waiting_first e) = refl
multistage-latch1 b timeout clock l releasing = refl
multistage-latch1 b timeout clock l before_second = refl
multistage-latch1 b timeout clock l (waiting_second e) = refl
multistage-latch1 b timeout clock l released = refl
multistage-latch1 b timeout clock l timed_out = refl

-- The first latch is not touched by kernels, and what has ended stays.
pub spin_step-latch1 :
    (k : Kind) (timeout clock : ℕ) (l : Latches) (p : Pc)
    → (spin_step k timeout clock l p).0.latch1 ≡ l.latch1
unfolding spin_step
spin_step-latch1 single timeout clock l p = refl
spin_step-latch1 with_latch1 timeout clock l p = multistage-latch1 true timeout clock l p
spin_step-latch1 without_latch1 timeout clock l p = multistage-latch1 false timeout clock l p

pub spin_step-finished :
    (k : Kind) (timeout clock : ℕ) (l : Latches) (p : Pc)
    → is_finished p ≡ true
    → (spin_step k timeout clock l p).1 ≡ p
unfolding spin_step spin_kernel_device spin_kernel_device_multistage
spin_step-finished single timeout clock l start h = absurd (ground arith)
spin_step-finished single timeout clock l (waiting_first e) h = absurd (ground arith)
spin_step-finished single timeout clock l releasing h = absurd (ground arith)
spin_step-finished single timeout clock l before_second h = absurd (ground arith)
spin_step-finished single timeout clock l (waiting_second e) h = absurd (ground arith)
spin_step-finished single timeout clock l released h = refl
spin_step-finished single timeout clock l timed_out h = refl
spin_step-finished with_latch1 timeout clock l start h = absurd (ground arith)
spin_step-finished with_latch1 timeout clock l (waiting_first e) h = absurd (ground arith)
spin_step-finished with_latch1 timeout clock l releasing h = absurd (ground arith)
spin_step-finished with_latch1 timeout clock l before_second h = absurd (ground arith)
spin_step-finished with_latch1 timeout clock l (waiting_second e) h = absurd (ground arith)
spin_step-finished with_latch1 timeout clock l released h = refl
spin_step-finished with_latch1 timeout clock l timed_out h = refl
spin_step-finished without_latch1 timeout clock l start h = absurd (ground arith)
spin_step-finished without_latch1 timeout clock l (waiting_first e) h = absurd (ground arith)
spin_step-finished without_latch1 timeout clock l releasing h = absurd (ground arith)
spin_step-finished without_latch1 timeout clock l before_second h = absurd (ground arith)
spin_step-finished without_latch1 timeout clock l (waiting_second e) h = absurd (ground arith)
spin_step-finished without_latch1 timeout clock l released h = refl
spin_step-finished without_latch1 timeout clock l timed_out h = refl

pub finished-cases : (p : Pc) → is_finished p ≡ true → (p ≡ released) ⊎ (p ≡ timed_out)
finished-cases start h = absurd (ground arith)
finished-cases (waiting_first e) h = absurd (ground arith)
finished-cases releasing h = absurd (ground arith)
finished-cases before_second h = absurd (ground arith)
finished-cases (waiting_second e) h = absurd (ground arith)
finished-cases released h = inl refl
finished-cases timed_out h = inr refl
