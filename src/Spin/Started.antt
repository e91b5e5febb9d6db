-- ===== src/Spin/Started.antt =====
-- What holds of every state that the steps reach.
use nvbandwidth.Prelude.{
  ℕ, suc, ◌*◌, ◌≡◌, ◌⊎◌, inl, inr, refl, sym, ◌∙◌, arith, true, ◌==◌, Bool-cases, ==_iff,
}
use nvbandwidth.Spin.{
  Kind, timed_out, is_finished, System, reset, Step, enqueue, release, spin, copy, tick, Reach,
  begin, later,
}
use nvbandwidth.Spin.Held.{
  has_passed, Sound, spin_step-Sound, spin_step-latch1, spin_step-finished, finished-cases,
}

-- The second latch and every kernel that has passed follow the first latch, which follows the host; a
-- copy runs only in a stream whose blocker has ended.
record Inv (streams : ℕ) (s : System) : Type 0 where
  sound : (i : ℕ) → Sound s.latches (s.pc i)
  ordered : s.latches.latch1 ≡ true → s.enqueued ≡ suc (2 * streams)
  held : (i : ℕ) → s.copying i ≡ true → is_finished (s.pc i) ≡ true

Inv-reset : (streams clock : ℕ) → Inv streams (reset clock)
Inv-reset streams clock = record {
  sound = λ i. record { chained = λ h. ground arith; passed = λ h. ground arith };
  ordered = λ h. ground arith;
  held = λ i h. ground arith;
}

Step-Inv :
    {streams timeout : ℕ} {kind : ℕ → Kind} {s t : System}
    → Step streams timeout kind s t
    → Inv streams s
    → Inv streams t
Step-Inv (enqueue h) v = record {
  sound = v.sound;
  ordered = λ l. absurd (omega (arith, v.ordered l));
  held = v.held;
}
Step-Inv (release h) v = record {
  sound = λ i. record { chained = λ l. refl; passed = λ l. refl };
  ordered = λ l. omega arith;
  held = v.held;
}
Step-Inv {streams} {timeout} {kind} {s} (spin i a b) v =
    let same = spin_step-latch1 (kind i) timeout s.clock s.latches (s.pc i) in
    let own = spin_step-Sound (kind i) timeout s.clock s.latches (s.pc i) (v.sound i) in
    record {
      sound = λ j. record {
        chained = own.chained;
        passed = λ h. elim (Bool-cases (j == i)) [
          | inl e ↦ let g = rw e at h in own.passed g
          | inr e ↦ let g = rw e at h in same ∙ (v.sound j).passed g
        ];
      };
      ordered = λ l. v.ordered (sym same ∙ l);
      held = λ j h. elim (Bool-cases (j == i)) [
        | inl e ↦
            let here : j ≡ i = (==_iff j i).0 e in
            let g = rw here at h in
            let ended = v.held i g in
            rw (e, spin_step-finished (kind i) timeout s.clock s.latches (s.pc i) ended) ended
        | inr e ↦ rw e (v.held j h)
      ];
    }
Step-Inv {streams} {s} (copy i a b f) v = record {
  sound = v.sound;
  ordered = v.ordered;
  held = λ j h. elim (Bool-cases (j == i)) [
    | inl e ↦ let here : j ≡ i = (==_iff j i).0 e in rw here f
    | inr e ↦ let g = rw e at h in v.held j g
  ];
}
Step-Inv tick v = record { sound = v.sound; ordered = v.ordered; held = v.held }

Reach-Inv :
    {streams timeout : ℕ} {kind : ℕ → Kind} {clock : ℕ} {s : System}
    → Reach streams timeout kind clock s
    → Inv streams s
Reach-Inv {streams} {clock} begin = Inv-reset streams clock
Reach-Inv (later r step) = Step-Inv step (Reach-Inv r)

-- In every order of the steps, when the copy of a stream runs, its host has enqueued the copies of all
-- streams and released them, or the blocker of that stream has timed out.
pub copying-released :
    {streams timeout : ℕ} {kind : ℕ → Kind} {clock : ℕ} {s : System} (i : ℕ)
    → Reach streams timeout kind clock s
    → s.copying i ≡ true
    → (s.enqueued ≡ suc (2 * streams)) ⊎ (s.pc i ≡ timed_out)
copying-released {s} i r h =
    let v = Reach-Inv r in
    elim (finished-cases (s.pc i) (v.held i h)) [
      | inl e ↦
          let seen : has_passed (s.pc i) ≡ true = rw e in inl (v.ordered ((v.sound i).passed seen))
      | inr e ↦ inr e
    ]
