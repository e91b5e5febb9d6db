-- ===== src/Pairs/Count.antt =====
-- How often a pair stands in a list, and lists with the same counts.
use mathlib.Core.List.{Permᴰ}
use nvbandwidth.Prelude.{
  ℕ, zero, suc, ◌+◌, ◌≤◌, ◌<◌, ◌≡◌, refl, sym, ap, ◌∙◌, true, List, [], ◌∷◌, ◌++◌, length, ltb,
  if◌then◌else◌, arith,
}
use nvbandwidth.Pairs.{Pair, same, holds, without, first_of}

unfoldable pub times : Pair → List Pair → ℕ
times p [] = 0
times p (q ∷ qs) = (if same p q then 1 else 0) + times p qs

pub times-append : (p : Pair) (xs ys : List Pair) → times p (xs ++ ys) ≡ times p xs + times p ys
unfolding times
times-append p [] ys = omega arith
times-append p (x ∷ xs) ys = omega (arith, times-append p xs ys)

pub times-perm : (p : Pair) {xs ys : List Pair} → Permᴰ xs ys → times p xs ≡ times p ys
unfolding times
times-perm p Permᴰ.nil = refl
times-perm p (Permᴰ.cons {l₁ = xs} e h) =
    ap (λ (z : Pair). (if same p z then 1 else 0) + times p xs) e ∙ rw (times-perm p h)
times-perm p (Permᴰ.swap {a = x} {b = y} {l = l} e f) = rw (e, f) (omega arith)
times-perm p (Permᴰ.trans h k) = times-perm p h ∙ times-perm p k

pub length-perm : {xs ys : List Pair} → Permᴰ xs ys → length xs ≡ length ys
length-perm Permᴰ.nil = refl
length-perm (Permᴰ.cons e h) = omega (arith, length-perm h)
length-perm (Permᴰ.swap e f) = refl
length-perm (Permᴰ.trans h k) = length-perm h ∙ length-perm k

pub holds-times : (p : Pair) (xs : List Pair) → holds xs p ≡ ltb 0 (times p xs)
unfolding times
holds-times p [] = refl
holds-times p (x ∷ xs) = ground (arith, holds-times p xs)

holds-same : (p q : Pair) (xs : List Pair) → same p q ≡ true → holds xs p ≡ holds xs q
holds-same p q [] h = refl
holds-same p q (x ∷ xs) h = ground (arith, holds-same p q xs)

-- What is left of a list without the pairs of another one.
pub times-without :
    (p : Pair) (xs ys : List Pair)
    → times p (without xs ys) ≡ (if holds xs p then 0 else times p ys)
unfolding times without
times-without p xs [] = ground arith
times-without p xs (y ∷ ys) = ground (arith, times-without p xs ys, holds-same p y xs)

pub times-first_of : (p : Pair) (n : ℕ) (xs : List Pair) → times p (first_of n xs) ≤ times p xs
unfolding times first_of
times-first_of p zero xs = omega arith
times-first_of p (suc n) [] = omega arith
times-first_of p (suc n) (x ∷ xs) = omega (arith, times-first_of p n xs)

pub length-first_of : (n : ℕ) (xs : List Pair) → n ≤ length xs → length (first_of n xs) ≡ n
unfolding first_of
length-first_of zero xs h = refl
length-first_of (suc n) [] h = absurd (omega arith)
length-first_of (suc n) (x ∷ xs) h = omega (arith, length-first_of n xs (omega arith))

erase : Pair → List Pair → List Pair
erase p [] = []
erase p (x ∷ xs) = let rest = erase p xs in if same p x then xs else x ∷ rest

times-erase :
    (q p : Pair) (xs : List Pair)
    → 0 < times p xs
    → times q xs ≡ (if same q p then 1 else 0) + times q (erase p xs)
unfolding times erase
times-erase q p [] h = absurd (omega arith)
times-erase q p (x ∷ xs) h = ground (arith, times-erase q p xs)

length-erase : (p : Pair) (xs : List Pair) → 0 < times p xs → length xs ≡ suc (length (erase p xs))
unfolding times erase
length-erase p [] h = absurd (omega arith)
length-erase p (x ∷ xs) h = ground (arith, length-erase p xs)

-- Lists in which every pair stands equally often have the same length.
pub length-times :
    (xs ys : List Pair) → ((p : Pair) → times p xs ≡ times p ys) → length xs ≡ length ys
unfolding times
length-times [] [] h = refl
length-times [] (y ∷ ys) h = absurd (ground (arith, h y))
length-times (x ∷ xs) ys h =
    let here : 0 < times x ys = ground (arith, h x) in
    ap suc (length-times xs (erase x ys) (λ p. omega (arith, h p, times-erase p x ys here)))
    ∙ sym (length-erase x ys here)
