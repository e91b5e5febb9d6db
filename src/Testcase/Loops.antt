-- ===== src/Testcase/Loops.antt =====
-- Loops whose rounds set cells: together they set the cells that any round does.
use nvbandwidth.Prelude.{
  ℕ, zero, suc, ◌+◌, ◌≡◌, ◌≢◌, ◌≤◌, ◌<◌, refl, Bool, true, false, List, [], ◌∷◌, All, any, Option,
  arith, Bool-cases, inl, inr,
}
use nvbandwidth.Buffers.{Heap}
use nvbandwidth.Testcase.{Run, indices, for_all}
use nvbandwidth.Testcase.Stored.{Fills}

pub All-indices {κ} :
    (P : ℕ → Type κ) (from rounds : ℕ)
    → ((i : ℕ) → i < from + rounds → P i)
    → All P (indices from rounds)
All-indices P from zero f = tt
All-indices P from (suc k) f =
    (f from (omega arith), All-indices P (suc from) k (λ i h. f i (omega (arith, h))))

-- One round of a loop over numbers is the one of a given number.
pub any-indices :
    (p : ℕ → Bool) (from rounds i : ℕ)
    → from ≤ i
    → i < from + rounds
    → p i ≡ true
    → any p (indices from rounds) ≡ true
any-indices p from zero i a b h = absurd (omega arith)
any-indices p from (suc k) i a b h = elim (Bool-cases (p from)) [
  | inl e ↦ rw e
  | inr e ↦
      let later : suc from ≤ i = ground (arith, other p from i e h) in
      rw e (any-indices p (suc from) k i later (omega arith) h)
]
  where
    other : (p : ℕ → Bool) (m n : ℕ) → p m ≡ false → p n ≡ true → m ≢ n
    other p m n e h q = let bad = rw q at e in absurd (ground arith)

pub any-none {ℓ} :
    {A : Type ℓ} (p : A → Bool) (xs : List A) → ((x : A) → p x ≡ false) → any p xs ≡ false
any-none p [] f = refl
any-none p (x ∷ xs) f = rw (f x) (any-none p xs f)

module _ {ℓ κ} {A : Type ℓ} {B : Type κ} (h0 : Heap) (rows columns count : ℕ) where
  pub for_all_lem :
      (wanted : ℕ → ℕ → List (Option (Option A))) (region : B → ℕ → ℕ → Bool)
      (body : B → Run A → Option (Run A)) (xs : List B)
      → All (λ (x : B). Fills h0 rows columns count wanted (region x) (body x)) xs
      → Fills h0 rows columns count wanted
          (λ (k l : ℕ). any (λ (x : B). region x k l) xs)
          (for_all body xs)
  unfolding for_all
  for_all_lem wanted region body [] f s sound = (s, refl, sound, λ k l. refl)
  for_all_lem wanted region body (x ∷ xs) (f, fs) s sound =
      let (s1, e1, sound1, g1) = f s sound in
      let (s2, e2, sound2, g2) = for_all_lem wanted region body xs fs s1 sound1 in
      (s2, rw e1 e2, sound2, λ k l. ground (arith, g1 k l, g2 k l))
