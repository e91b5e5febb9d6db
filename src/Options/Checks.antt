-- ===== src/Options/Checks.antt =====
-- The checks of the options one by one: a rejecting test, and the lists of supported values.
use nvbandwidth.Prelude.{
  ℕ, zero, suc, ◌*◌, ◌-◌, ◌/◌, ◌%◌, ◌^◌, ◌≤◌, ◌<◌, ◌≡◌, ◌↔◌, ◌⊎◌, inl, inr, refl, arith, Bool, true,
  false, not, ◌&&◌, List, [], ◌∷◌, ltb, ◌==◌, if◌then◌else◌, ==_iff, Bool-cases, sym, ◌∙◌,
}
use nvbandwidth.Config.{mib, u64_mod, ullong_max}
use nvbandwidth.Options.{
  Verdict, accepted, OptionError, ℤ, pos, negsuc, reject_if, one_of, below_minus_one, exceeds_pairs,
}

pub IsPower : (first count x : ℕ) → Type 0
IsPower first count x = (k : ℕ) × (k < count) × (x ≡ first * 2 ^ k)

unfoldable pub powers : ℕ → ℕ → List ℕ
powers first zero = []
powers first (suc n) = first ∷ powers (2 * first) n

doubled : (first k : ℕ) → 2 * first * 2 ^ k ≡ first * 2 ^ suc k
doubled first k = let e : 2 ^ suc k ≡ 2 * 2 ^ k = grind arith in rw e (grind arith)

-- The exponents of a number that is not the first one.
lower :
    (first n x k : ℕ)
    → k < suc n
    → x ≡ first * 2 ^ k
    → (x == first) ≡ false
    → IsPower (2 * first) n x
unfolding IsPower
lower first n x zero less eq h = absurd (ground (arith, (==_iff x first).1))
lower first n x (suc k) less eq h = (k, omega arith, eq ∙ sym (doubled first k))

pub one_of-powers : (x first n : ℕ) → one_of x (powers first n) ≡ true ↔ IsPower first n x
unfolding one_of powers IsPower
one_of-powers x first zero = (λ e. absurd (ground arith), λ (k, h, e). absurd (omega arith))
one_of-powers x first (suc n) =
    let (only_if, back) = one_of-powers x (2 * first) n in
    (
      λ e. elim (Bool-cases (x == first)) [
        | inl h ↦ (0, omega arith, let q = (==_iff x first).0 h in grind arith)
        | inr h ↦
            let (k, less, eq) = only_if (rw h at e) in (suc k, omega arith, eq ∙ doubled first k)
      ],
      λ (k, less, eq). elim (Bool-cases (x == first)) [
        | inl h ↦ rw h
        | inr h ↦ rw (h, back (lower first n x k less eq h))
      ],
    )

pub reject_if-inv :
    (c : Bool) (e : OptionError) (v : Verdict) {bytes : ℕ}
    → reject_if c e v ≡ accepted bytes
    → (c ≡ false) × (v ≡ accepted bytes)
reject_if-inv true e v h = absurd (ground arith)
reject_if-inv false e v h = (refl, h)

pub reject_if-false :
    {c : Bool} (e : OptionError) {v : Verdict} {bytes : ℕ}
    → c ≡ false
    → v ≡ accepted bytes
    → reject_if c e v ≡ accepted bytes
reject_if-false e f h = rw (f, h)

-- The number of pairs asked for: all of them, or a number.
pub data IsTarget (most : ℕ) : Bool → ℤ → Type 0 where
  all_pairs : {multinode : Bool} → IsTarget most multinode (negsuc 0)
  any_number : {n : ℕ} → IsTarget most false (pos n)
  at_most : {n : ℕ} → n ≤ most → IsTarget most true (pos n)

pub IsTarget-below :
    (multinode : Bool) (world_size : ℕ) (z : ℤ)
    → below_minus_one z ≡ false
    → (multinode && exceeds_pairs world_size z) ≡ false
    → IsTarget (world_size * (world_size - 1)) multinode z
unfolding below_minus_one exceeds_pairs
IsTarget-below true world_size (pos n) h k = at_most (ground arith)
IsTarget-below false world_size (pos n) h k = any_number
IsTarget-below multinode world_size (negsuc zero) h k = all_pairs
IsTarget-below multinode world_size (negsuc (suc n)) h k = absurd (ground arith)

pub below-IsTarget :
    {multinode : Bool} (world_size : ℕ) {z : ℤ}
    → IsTarget (world_size * (world_size - 1)) multinode z
    → (below_minus_one z ≡ false) × ((multinode && exceeds_pairs world_size z) ≡ false)
unfolding below_minus_one exceeds_pairs
below-IsTarget {multinode = true} world_size all_pairs = (refl, refl)
below-IsTarget {multinode = false} world_size all_pairs = (refl, refl)
below-IsTarget world_size any_number = (refl, refl)
below-IsTarget world_size (at_most h) = (refl, ground arith)

pub within : (x most : ℕ) → ltb most x ≡ false → x ≤ most
within x most h = ground arith

pub fits :
    (kib : Bool) (size : ℕ)
    → ltb (ullong_max / (if kib then 1024 else mib)) size ≡ false
      ↔ (size * (if kib then 1024 else mib) < u64_mod)
fits true size = ground arith
fits false size = ground arith

pub not-false : {c : Bool} → not c ≡ false ↔ (c ≡ true)
not-false {c = true} = (λ h. refl, λ h. refl)
not-false {c = false} = (λ h. sym h, λ h. sym h)

pub mod-small : (x : ℕ) → x < u64_mod → x % u64_mod ≡ x
mod-small x h = omega arith

pub kinds : (p t : ℕ) → (not (p == 0) && not (t == 0)) ≡ false ↔ ((p ≡ 0) ⊎ (t ≡ 0))
kinds p t = ground arith

pub nonzero : (n : ℕ) → (n == 0) ≡ false ↔ (0 < n)
nonzero n = ground arith
