-- ===== src/Spin/Progress.antt =====
-- A kernel whose latches are released comes to its end, and so does one that times out.
use nvbandwidth.Prelude.{
  ℕ, zero, suc, ◌+◌, ◌%◌, ◌<◌, ◌≡◌, ◌≢◌, inl, inr, refl, ◌∙◌, ap, sym, arith, Bool, true, false,
  if◌then◌else◌, Bool-cases,
}
use mathlib.Core.Path.{subst}
use nvbandwidth.Config.{u64_mod, ullong_max}
use nvbandwidth.Spin.{
  Kind, single, with_latch1, without_latch1, Pc, start, waiting_first, waiting_second, released,
  timed_out, Latches, end_time, expired, poll, spin_kernel_device, spin_kernel_device_multistage,
  spin_step, is_finished,
}
use nvbandwidth.Spin.Held.{spin_step-finished}

-- So many steps of a kernel alone; `clock i` is the clock at the i-th step from the last.
unfoldable pub spin_alone :
    Kind → (timeout : ℕ) (clock : ℕ → ℕ) (steps : ℕ) → Latches → Pc → Latches × Pc
spin_alone k timeout clock zero l p = (l, p)
spin_alone k timeout clock (suc n) l p =
    let r = spin_step k timeout (clock n) l p in spin_alone k timeout clock n r.0 r.1

-- The latches that a kernel needs.
abbrev pub is_released : Kind → Latches → Bool
is_released without_latch1 l = l.latch2
is_released _ l = l.latch1

abbrev pub after_five : ℕ → ℕ
after_five n = suc (suc (suc (suc (suc n))))

-- What has ended stays.
stays :
    (k : Kind) (timeout : ℕ) (clock : ℕ → ℕ) (n : ℕ) (l : Latches) (p : Pc)
    → is_finished p ≡ true
    → (spin_alone k timeout clock n l p).1 ≡ p
unfolding spin_alone
stays k timeout clock zero l p h = refl
stays k timeout clock (suc n) l p h =
    let same = spin_step-finished k timeout (clock n) l p h in
    let l' = (spin_step k timeout (clock n) l p).0 in
    ap (λ q. (spin_alone k timeout clock n l' q).1) same ∙ stays k timeout clock n l' p h

-- With its latch set, a kernel needs at most five steps.
single-released :
    (timeout : ℕ) (clock : ℕ → ℕ) (n : ℕ) (b : Bool)
    → (spin_alone single timeout clock
        (after_five n)
        (record { latch1 = true; latch2 = b })
        start).1
      ≡ released
unfolding spin_alone spin_step spin_kernel_device poll
single-released timeout clock n b =
    stays single timeout clock n (record { latch1 = true; latch2 = b }) released refl

first-released :
    (timeout : ℕ) (clock : ℕ → ℕ) (n : ℕ) (b : Bool)
    → (spin_alone with_latch1 timeout clock
        (after_five n)
        (record { latch1 = true; latch2 = b })
        start).1
      ≡ released
unfolding spin_alone spin_step spin_kernel_device_multistage poll
first-released timeout clock n b =
    stays with_latch1 timeout clock n (record { latch1 = true; latch2 = true }) released refl

other-released :
    (timeout : ℕ) (clock : ℕ → ℕ) (n : ℕ) (b : Bool)
    → (spin_alone without_latch1 timeout clock
        (after_five n)
        (record { latch1 = b; latch2 = true })
        start).1
      ≡ released
unfolding spin_alone spin_step spin_kernel_device_multistage poll
other-released timeout clock n b =
    stays without_latch1 timeout clock n (record { latch1 = b; latch2 = true }) released refl

-- Without a latch, a kernel waits until a reading of the clock is past its end.
waits :
    (k : Kind) (timeout : ℕ) (clock : ℕ → ℕ) (n : ℕ) (l : Latches) (p : Pc) (e : ℕ)
    → ((c : ℕ) → spin_step k timeout c l p ≡ (l, if expired timeout c e then timed_out else p))
    → expired timeout (clock 0) e ≡ true
    → (spin_alone k timeout clock (suc n) l p).1 ≡ timed_out
unfolding spin_alone
waits k timeout clock zero l p e step h =
    ap (λ (r : Latches × Pc). r.1) (step (clock 0)) ∙ ap (λ b. if b then timed_out else p) h
waits k timeout clock (suc n) l p e step h =
    let rest = λ (r : Latches × Pc). (spin_alone k timeout clock (suc n) r.0 r.1).1 in
    let test = λ (b : Bool). rest (l, if b then timed_out else p) in
    ap rest (step (clock (suc n))) ∙ elim (Bool-cases (expired timeout (clock (suc n)) e)) [
      | inl g ↦ ap test g ∙ stays k timeout clock (suc n) l timed_out refl
      | inr g ↦ ap test g ∙ waits k timeout clock n l p e step h
    ]

-- The loop in which a kernel waits, and the step that begins it.
abbrev wait_at : Kind → ℕ → Pc
wait_at without_latch1 e = waiting_second e
wait_at _ e = waiting_first e

begins :
    (k : Kind) (timeout clock : ℕ) (l : Latches)
    → spin_step k timeout clock l start ≡ (l, wait_at k (end_time timeout clock))
unfolding spin_step spin_kernel_device spin_kernel_device_multistage
begins single timeout clock l = refl
begins with_latch1 timeout clock l = refl
begins without_latch1 timeout clock l = refl

polls :
    (k : Kind) (timeout : ℕ) (l : Latches) (e c : ℕ)
    → is_released k l ≡ false
    → spin_step k timeout c l (wait_at k e)
      ≡ (l, if expired timeout c e then timed_out else wait_at k e)
unfolding spin_step spin_kernel_device spin_kernel_device_multistage poll
polls single timeout l e c h = rw h
polls with_latch1 timeout l e c h = rw h
polls without_latch1 timeout l e c h = rw h

past_end :
    (timeout first last : ℕ)
    → timeout ≢ ullong_max
    → first + timeout < last
    → first + timeout < u64_mod
    → expired timeout last (end_time timeout first) ≡ true
unfolding expired end_time
past_end timeout first last n h fits =
    let exact : (first + timeout) % u64_mod ≡ first + timeout = omega arith in
    rw exact (ground arith)

with_latch :
    (k : Kind) (timeout : ℕ) (clock : ℕ → ℕ) (n : ℕ) (l : Latches)
    → is_released k l ≡ true
    → (spin_alone k timeout clock (after_five n) l start).1 ≡ released
with_latch single timeout clock n l h =
    subst
      (λ b.
        (spin_alone single timeout clock (after_five n) (record { latch1 = b; latch2 = l.latch2 })
          start).1
        ≡ released)
      (sym h) (single-released timeout clock n l.latch2)
with_latch with_latch1 timeout clock n l h =
    subst
      (λ b.
        (spin_alone with_latch1 timeout clock (after_five n)
          (record { latch1 = b; latch2 = l.latch2 }) start).1
        ≡ released)
      (sym h) (first-released timeout clock n l.latch2)
with_latch without_latch1 timeout clock n l h =
    subst
      (λ b.
        (spin_alone without_latch1 timeout clock (after_five n)
          (record { latch1 = l.latch1; latch2 = b }) start).1
        ≡ released)
      (sym h) (other-released timeout clock n l.latch1)

-- A kernel alone, between two readings of the clock more than the time-out apart and after at least five
-- steps, has ended: released if the latch that it waits for is set, and timed out otherwise. The
-- time-out is enabled, and its end does not wrap.
pub spin_alone_lem :
    (k : Kind) (timeout : ℕ) (clock : ℕ → ℕ) (n : ℕ) (l : Latches)
    → timeout ≢ ullong_max
    → clock (suc (suc (suc (suc n)))) + timeout < clock 0
    → clock (suc (suc (suc (suc n)))) + timeout < u64_mod
    → (spin_alone k timeout clock (after_five n) l start).1
      ≡ (if is_released k l then released else timed_out)
unfolding spin_alone
spin_alone_lem k timeout clock n l enabled late fits =
    let first = clock (suc (suc (suc (suc n)))) in
    let e = end_time timeout first in
    elim (Bool-cases (is_released k l)) [
      | inl h ↦ rw h (with_latch k timeout clock n l h)
      | inr h ↦ rw h (
          ap
            (λ (r : Latches × Pc). (spin_alone k timeout clock (suc (suc (suc (suc n)))) r.0 r.1).1)
            (begins k timeout first l)
          ∙ waits k timeout clock (suc (suc (suc n))) l (wait_at k e) e
              (λ c. polls k timeout l e c h) (past_end timeout first (clock 0) enabled late fits))
    ]
