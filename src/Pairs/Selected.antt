-- ===== src/Pairs/Selected.antt =====
-- The selection of pairs: as many as asked for, distinct, each of two different devices.
use nvbandwidth.Prelude.{
  ℕ, ◌+◌, ◌-◌, ◌*◌, ◌≤◌, ◌<◌, ◌≡◌, inl, inr, refl, ◌∙◌, true, false, not, ◌&&◌, List, [], ◌∷◌, ◌++◌,
  length, length-append, ◌==◌, ltb, leb, if◌then◌else◌, arith, min, none, some, Option-cases,
  Bool-cases,
}
use nvbandwidth.Pairs.{
  Pair, same, holds, valid_pairs, devices, Shuffles, Selection, find_pair, visit, first_pass,
  without, first_of, second_pass, generate_test_pairs,
}
use nvbandwidth.Pairs.Count.{
  times, times-append, times-perm, length-perm, holds-times, times-without, times-first_of,
  length-first_of, length-times,
}
use nvbandwidth.Pairs.Found.{find_pair-inv}
use nvbandwidth.Pairs.Valid.{times-valid_pairs, length-valid_pairs}

-- A selection of pairs of the list, at most `target`.
record Fits (target : ℕ) (all selected : List Pair) : Type 0 where
  within : (p : Pair) → times p selected ≤ times p all
  bounded : length selected ≤ target

times-same : (q p : Pair) (xs : List Pair) → same q p ≡ true → times q xs ≡ times p xs
unfolding times
times-same q p [] h = refl
times-same q p (x ∷ xs) h = ground (arith, times-same q p xs)

-- Adding a pair of the list that is not selected yet.
Fits-add :
    (target : ℕ) (all selected : List Pair) (p : Pair)
    → Fits target all selected
    → ltb (length selected) target ≡ true
    → holds selected p ≡ false
    → 0 < times p all
    → Fits target all (selected ++ p ∷ [])
unfolding times
Fits-add target all selected p f room fresh inside = record {
  within = λ q. ground (
    arith,
    times-append q selected (p ∷ []),
    f.within q,
    holds-times p selected,
    times-same q p selected,
    times-same q p all,
  );
  bounded = ground (arith, length-append selected (p ∷ []));
}

visit-Fits :
    (target : ℕ) (all : List Pair) (gpu : ℕ) (s : Selection)
    → Fits target all s.selected
    → Fits target all (visit target all gpu s).selected
unfolding visit
visit-Fits target all gpu s f = elim (Bool-cases (s.included gpu)) [
  | inl h ↦ rw h f
  | inr h ↦
      let search = find_pair (ltb (length s.selected) target) s.selected gpu all in
      elim (Option-cases search) [
        | inl e ↦ rw (h, e) f
        | inr (p, e) ↦
            let (room, fresh, inside, includes) = find_pair-inv _ s.selected gpu all e in
            rw (h, e) (Fits-add target all s.selected p f room fresh inside)
      ]
]

first_pass-Fits :
    (target : ℕ) (all : List Pair) (gpus : List ℕ) (s : Selection)
    → Fits target all s.selected
    → Fits target all (first_pass target all gpus s).selected
unfolding first_pass
first_pass-Fits target all [] s f = f
first_pass-Fits target all (gpu ∷ gpus) s f = elim (Bool-cases (leb target (length s.selected))) [
  | inl h ↦ rw (h) f
  | inr h ↦
      rw (h)
        (first_pass-Fits target all gpus (visit target all gpu s) (visit-Fits target all gpu s f))
]

rest-length :
    (all selected : List Pair)
    → ((p : Pair) → times p all ≤ 1)
    → ((p : Pair) → times p selected ≤ times p all)
    → length all ≡ length selected + length (without selected all)
rest-length all selected once within =
    length-times all (selected ++ without selected all) (λ p. ground (
      arith,
      times-append p selected (without selected all),
      times-without p selected all,
      holds-times p selected,
      once p,
      within p,
    ))
    ∙ length-append selected (without selected all)

-- The second pass fills the selection up to the target.
second_pass_lem :
    (shuffles : Shuffles) (target : ℕ) (all selected : List Pair)
    → ((p : Pair) → times p all ≤ 1)
    → target ≤ length all
    → Fits target all selected
    → let result = second_pass shuffles target all selected in
      (length result ≡ target) × ((p : Pair) → times p result ≤ times p all)
unfolding second_pass
second_pass_lem shuffles target all selected once enough f =
    let rest = shuffles.remaining (without selected all) in
    let count = min (target - length selected) (length rest) in
    let left = rest-length all selected once f.within in
    let rest_length = length-perm (shuffles.remaining_perm (without selected all)) in
    elim (Bool-cases (ltb (length selected) target)) [
      | inl h ↦ rw h (
        ground (
          arith,
          f.bounded,
          length-append selected (first_of count rest),
          length-first_of count rest,
        ),
        λ p. ground (
          arith,
          f.within p,
          times-append p selected (first_of count rest),
          times-first_of p count rest,
          times-perm p (shuffles.remaining_perm (without selected all)),
          times-without p selected all,
          holds-times p selected,
          once p,
        ),
      )
      | inr h ↦ rw h (ground (arith, f.bounded), f.within)
    ]

-- The whole list, as it is and shuffled.
pub times-all_pairs :
    (shuffles : Shuffles) (n : ℕ) (p : Pair)
    → times p (shuffles.all_pairs (valid_pairs n))
      ≡ (if ltb p.0 n && ltb p.1 n && not (p.1 == p.0) then 1 else 0)
times-all_pairs shuffles n p =
    times-perm p (shuffles.all_pairs_perm (valid_pairs n)) ∙ times-valid_pairs p n

pub length-all_pairs :
    (shuffles : Shuffles) (n : ℕ) → length (shuffles.all_pairs (valid_pairs n)) ≡ n * (n - 1)
length-all_pairs shuffles n =
    length-perm (shuffles.all_pairs_perm (valid_pairs n)) ∙ length-valid_pairs n

start-Fits : (target : ℕ) (all : List Pair) → Fits target all []
unfolding times
start-Fits target all = record { within = λ p. omega arith; bounded = omega arith }

-- Asked for `target` pairs of `n` devices, at most all there are, the source gives that many, each of
-- two different devices and none twice, however the lists are shuffled.
pub generate_test_pairs_lem :
    (shuffles : Shuffles) (n target : ℕ) (p : Pair)
    → target ≤ n * (n - 1)
    → let ps = generate_test_pairs shuffles n (some target) in
      (length ps ≡ target)
      × (times p ps ≤ (if ltb p.0 n && ltb p.1 n && not (p.1 == p.0) then 1 else 0))
unfolding generate_test_pairs times
generate_test_pairs_lem shuffles n target p h =
    let all = shuffles.all_pairs (valid_pairs n) in
    let start : Selection = record { selected = []; included = λ g. false } in
    let order = shuffles.gpu_order (devices 0 n) in
    let total = length-all_pairs shuffles n in
    let once = λ (q : Pair). times-all_pairs shuffles n q in
    let (number, within) =
      second_pass_lem shuffles target all (first_pass target all order start).selected
        (λ q. ground (arith, once q)) (omega arith)
        (first_pass-Fits target all order start (start-Fits target all)) in
    elim (Bool-cases (target == 0)) [
      | inl z ↦ rw z (ground arith, omega arith)
      | inr z ↦ elim (Bool-cases (ltb target (n * (n - 1)))) [
        | inl few ↦ rw (z, few) (number, omega (arith, within p, once p))
        | inr every ↦ rw (z, every) (ground arith, omega (arith, once p))
      ]
    ]

-- Without a target the source gives each pair of two different devices just once.
pub generate_test_pairs-none :
    (shuffles : Shuffles) (n : ℕ) (p : Pair)
    → let ps = generate_test_pairs shuffles n none in
      (length ps ≡ n * (n - 1))
      × (times p ps ≡ (if ltb p.0 n && ltb p.1 n && not (p.1 == p.0) then 1 else 0))
unfolding generate_test_pairs
generate_test_pairs-none shuffles n p = (length-all_pairs shuffles n, times-all_pairs shuffles n p)
