-- ===== src/Pairs/Found.antt =====
-- The search for a pair that includes a GPU.
use nvbandwidth.Prelude.{
  any, ℕ, ◌<◌, ◌≡◌, ◌⊎◌, inl, inr, refl, sym, ap, ◌∙◌, Bool, true, false, ◌&&◌, ◌||◌, List, [], ◌∷◌,
  ◌++◌, ◌==◌, arith, Option, none, some, Bool-cases, lt→ltb,
}
use nvbandwidth.Pairs.{Pair, holds, find_pair}
use nvbandwidth.Pairs.Count.{times, holds-times}

some-injective : {p q : Pair} → some p ≡ some q → p ≡ q
some-injective {p} e = ap (λ (o : Option Pair). elim o [ none ↦ p | some r ↦ r ]) e

found :
    (room : Bool) (selected : List Pair) (gpu : ℕ) (p q : Pair) (qs : List Pair)
    → q ≡ p
    → (((q.0 == gpu) || (q.1 == gpu)) && room) ≡ true
    → holds selected q ≡ false
    → (room ≡ true)
      × (holds selected p ≡ false)
      × (0 < times p (q ∷ qs))
      × ((p.0 ≡ gpu) ⊎ (p.1 ≡ gpu))
unfolding times
found room selected gpu p q qs e h k =
    let first : q.0 ≡ p.0 = ap (λ (r : Pair). r.0) e in
    let second : q.1 ≡ p.1 = ap (λ (r : Pair). r.1) e in
    (ground arith, ap (holds selected) (sym e) ∙ k, ground arith, ground arith)

-- A pair that is found includes the GPU, is in the list, and is not selected yet.
pub find_pair-inv :
    (room : Bool) (selected : List Pair) (gpu : ℕ) (all : List Pair) {p : Pair}
    → find_pair room selected gpu all ≡ some p
    → (room ≡ true) × (holds selected p ≡ false) × (0 < times p all) × ((p.0 ≡ gpu) ⊎ (p.1 ≡ gpu))
unfolding find_pair times
find_pair-inv room selected gpu [] e = absurd (ground arith)
find_pair-inv room selected gpu (q ∷ qs) {p} e =
    elim (Bool-cases (((q.0 == gpu) || (q.1 == gpu)) && room)) [
      | inr h ↦ later (find_pair-inv room selected gpu qs (rw h at e))
      | inl h ↦ elim (Bool-cases (holds selected q)) [
        | inl k ↦ later (find_pair-inv room selected gpu qs (rw (h, k) at e))
        | inr k ↦ found room selected gpu p q qs (some-injective (rw (h, k) at e)) h k
      ]
    ]
  where
    later :
        (room ≡ true) × (holds selected p ≡ false) × (0 < times p qs) × ((p.0 ≡ gpu) ⊎ (p.1 ≡ gpu))
        → (room ≡ true)
          × (holds selected p ≡ false)
          × (0 < times p (q ∷ qs))
          × ((p.0 ≡ gpu) ⊎ (p.1 ≡ gpu))
    later (a, b, c, d) = (a, b, omega arith, d)

-- Whether some pair of a list includes the GPU.
abbrev pub touches : List Pair → ℕ → Bool
touches ps g = any (λ (p : Pair). (p.0 == g) || (p.1 == g)) ps

holds-touches :
    (ps : List Pair) (p : Pair) (g : ℕ)
    → holds ps p ≡ true
    → ((p.0 == g) || (p.1 == g)) ≡ true
    → touches ps g ≡ true
holds-touches [] p g h k = absurd (ground arith)
holds-touches (q ∷ qs) p g h k = ground (arith, holds-touches qs p g)

-- With room, the search finds nothing only where all pairs that include the GPU are selected already.
pub find_pair-none :
    (selected : List Pair) (gpu : ℕ) (all : List Pair)
    → find_pair true selected gpu all ≡ none
    → touches all gpu ≡ true
    → touches selected gpu ≡ true
unfolding find_pair
find_pair-none selected gpu [] e h = absurd (ground arith)
find_pair-none selected gpu (q ∷ qs) e h =
    ground (arith, find_pair-none selected gpu qs, holds-touches selected q gpu)

pub touches-append :
    (xs ys : List Pair) (g : ℕ) → touches (xs ++ ys) g ≡ (touches xs g || touches ys g)
touches-append [] ys g = refl
touches-append (x ∷ xs) ys g = ground (arith, touches-append xs ys g)

pub times-touches : (ps : List Pair) (p : Pair) → 0 < times p ps → touches ps p.0 ≡ true
times-touches ps p h = holds-touches ps p p.0 (rw (holds-times p ps) (lt→ltb 0 _ h)) (ground arith)
