-- ===== src/Pairs/Covered.antt =====
-- Asked for as many pairs as there are devices, the selection leaves no device out.
use mathlib.Core.List.{Permᴰ}
use nvbandwidth.Prelude.{
  any, ℕ, zero, suc, ◌+◌, ◌-◌, ◌*◌, ◌≤◌, ◌<◌, ◌≡◌, inl, inr, refl, sym, ap, ◌∙◌, true, false, ◌&&◌,
  ◌||◌, List, [], ◌∷◌, length, length-append, ◌==◌, ltb, leb, if◌then◌else◌, arith, min, some,
  Option-cases, Bool-cases, ==_iff, lt→ltb,
}
use nvbandwidth.Pairs.{
  Pair, valid_pairs, devices, Shuffles, Selection, find_pair, visit, first_pass, without, first_of,
  second_pass, generate_test_pairs,
}
use nvbandwidth.Pairs.Found.{find_pair-inv, find_pair-none, touches, touches-append, times-touches}
use nvbandwidth.Pairs.Selected.{times-all_pairs}

-- Every GPU that counts as included is in a selected pair.
abbrev IsMarked : Selection → Type 0
IsMarked s = (g : ℕ) → s.included g ≡ true → touches s.selected g ≡ true

module _ (target : ℕ) (all : List Pair) where
  -- With room, a visit selects at most one pair, keeps all, and leaves the GPU covered.
  visit_lem :
      (gpu : ℕ) (s : Selection) (g : ℕ)
      → IsMarked s
      → length s.selected < target
      → touches all gpu ≡ true
      → let s' = visit target all gpu s in
        (length s'.selected ≤ suc (length s.selected))
        × (touches s'.selected gpu ≡ true)
        × (touches s.selected g ≡ true → touches s'.selected g ≡ true)
        × (s'.included g ≡ true → touches s'.selected g ≡ true)
  unfolding visit
  visit_lem gpu s g marked room there = elim (Bool-cases (s.included gpu)) [
    | inl h ↦ rw h (omega arith, marked gpu h, λ k. k, marked g)
    | inr h ↦
        let free : ltb (length s.selected) target ≡ true = lt→ltb _ _ room in
        elim (Option-cases (find_pair (ltb (length s.selected) target) s.selected gpu all)) [
          | inl e ↦
              rw (h, e)
                (
                  omega arith,
                  find_pair-none s.selected gpu all (rw free at e) there,
                  λ k. k,
                  marked g,
                )
          | inr (p, e) ↦
              let (r, fresh, inside, includes) = find_pair-inv _ s.selected gpu all e in
              rw (h, e)
                (
                  ground (arith, length-append s.selected (p ∷ [])),
                  ground (arith, touches-append s.selected (p ∷ []) gpu),
                  ground (arith, touches-append s.selected (p ∷ []) g),
                  ground (arith, touches-append s.selected (p ∷ []) g, marked g),
                )
        ]
  ]

  touches-same : (ps : List Pair) (g x : ℕ) → (g == x) ≡ true → touches ps x ≡ touches ps g
  touches-same ps g x h = ap (touches ps) (sym ((==_iff g x).0 h))

  -- With room for a pair for each of them, the first pass covers all the GPUs in its order.
  first_pass_lem :
      (gpus : List ℕ) (s : Selection) (g : ℕ)
      → IsMarked s
      → length s.selected + length gpus ≤ target
      → ((x : ℕ) → any (x ==◌) gpus ≡ true → touches all x ≡ true)
      → (touches s.selected g || any (g ==◌) gpus) ≡ true
      → touches (first_pass target all gpus s).selected g ≡ true
  unfolding first_pass
  first_pass_lem [] s g marked room there h = ground arith
  first_pass_lem (gpu ∷ gpus) s g marked room there h =
      let free : length s.selected < target = omega arith in
      let open_yet : leb target (length s.selected) ≡ false = ground arith in
      let here : touches all gpu ≡ true = there gpu (ground arith) in
      let step = λ (x : ℕ). visit_lem gpu s x marked free here in
      let (small, covered, kept, m) = step g in
      rw open_yet (
        first_pass_lem gpus (visit target all gpu s) g (λ x. (step x).3) (omega arith)
          (λ x k. there x (ground arith))
          (ground (arith, touches-same (visit target all gpu s).selected g gpu)))

any-perm : (g : ℕ) {xs ys : List ℕ} → Permᴰ xs ys → any (g ==◌) xs ≡ any (g ==◌) ys
any-perm g Permᴰ.nil = refl
any-perm g (Permᴰ.cons e p) = rw (e, any-perm g p)
any-perm g (Permᴰ.swap e f) = rw (e, f) (ground arith)
any-perm g (Permᴰ.trans p q) = any-perm g p ∙ any-perm g q

length-perm_ℕ : {xs ys : List ℕ} → Permᴰ xs ys → length xs ≡ length ys
length-perm_ℕ Permᴰ.nil = refl
length-perm_ℕ (Permᴰ.cons e h) = omega (arith, length-perm_ℕ h)
length-perm_ℕ (Permᴰ.swap e f) = refl
length-perm_ℕ (Permᴰ.trans h k) = length-perm_ℕ h ∙ length-perm_ℕ k

any-devices : (g from k : ℕ) → any (g ==◌) (devices from k) ≡ (leb from g && ltb g (from + k))
unfolding devices
any-devices g from zero = ground arith
any-devices g from (suc k) = ground (arith, any-devices g (suc from) k)

length-devices : (from k : ℕ) → length (devices from k) ≡ k
unfolding devices
length-devices from zero = refl
length-devices from (suc k) = omega (arith, length-devices (suc from) k)

-- Among at least two devices, each is in some pair of the whole list.
all-touches :
    (shuffles : Shuffles) (n g : ℕ)
    → 2 ≤ n
    → g < n
    → touches (shuffles.all_pairs (valid_pairs n)) g ≡ true
all-touches shuffles n g two inside =
    let all = shuffles.all_pairs (valid_pairs n) in
    let p : Pair = (g, if g == 0 then 1 else 0) in
    times-touches all p (ground (arith, times-all_pairs shuffles n p))

-- The second pass keeps the pairs of the first one.
second_pass-touches :
    (shuffles : Shuffles) (target : ℕ) (all selected : List Pair) (g : ℕ)
    → touches selected g ≡ true
    → touches (second_pass shuffles target all selected) g ≡ true
unfolding second_pass
second_pass-touches shuffles target all selected g h =
    let rest = shuffles.remaining (without selected all) in
    let more = first_of (min (target - length selected) (length rest)) rest in
    elim (Bool-cases (ltb (length selected) target)) [
      | inl less ↦ rw less (touches-append selected more g ∙ rw h)
      | inr full ↦ rw full h
    ]

-- Asked for at least as many pairs as there are devices, two or more, the source selects a pair with
-- each device, however the lists are shuffled.
pub generate_test_pairs-covers :
    (shuffles : Shuffles) (n target g : ℕ)
    → 2 ≤ n
    → n ≤ target
    → g < n
    → touches (generate_test_pairs shuffles n (some target)) g ≡ true
unfolding generate_test_pairs
generate_test_pairs-covers shuffles n target g two enough inside =
    let all = shuffles.all_pairs (valid_pairs n) in
    let start : Selection = record { selected = []; included = λ x. false } in
    let order = shuffles.gpu_order (devices 0 n) in
    let perm = shuffles.gpu_order_perm (devices 0 n) in
    let whole = λ (x : ℕ). any-perm x perm ∙ any-devices x 0 n in
    let count = length-perm_ℕ perm ∙ length-devices 0 n in
    let first =
      first_pass_lem target all order start g (λ x h. absurd (ground arith)) (omega arith)
        (λ x k. all-touches shuffles n x two (ground (arith, whole x))) (ground (arith, whole g)) in
    let positive : (target == 0) ≡ false = ground arith in
    elim (Bool-cases (ltb target (n * (n - 1)))) [
      | inr every ↦ rw (positive, every) (all-touches shuffles n g two inside)
      | inl few ↦
          rw (positive, few)
            (second_pass-touches shuffles target all (first_pass target all order start).selected g
              first)
    ]
