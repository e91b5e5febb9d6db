-- ===== src/Double.antt =====
-- The `double` of the program: a type with the operations that the code applies to it, and the laws
-- of its order that hold of the values that are numbers.
use nvbandwidth.Prelude.{ℕ, ◌+◌, ◌*◌, ◌/◌, ◌≡◌, Bool, true, false, arith, ltb}

pub record Double {ℓ} (A : Type ℓ) : Type ℓ where
  pub zero_value : A
  pub lt : A → A → Bool
  pub add : A → A → A
  pub mul : A → A → A
  pub div : A → A → A
  -- The cast from an unsigned integer.
  pub of_count : ℕ → A

-- `a <= b`, for values that are numbers.
infix 4 ◌≼◌
abbrev pub ◌≼◌ {ℓ} : {A : Type ℓ} ⦃d : Double A⦄ → A → A → Type 0
◌≼◌ ⦃d⦄ a b = d.lt b a ≡ false

-- NaN is left out, and the two zeros are one value. The last law is about `(b + a) / 2.0`.
pub record IsOrdered {ℓ} (A : Type ℓ) ⦃d : Double A⦄ : Type ℓ where
  pub lt_asymm : (a b : A) → d.lt a b ≡ true → d.lt b a ≡ false
  pub le_trans : (a b c : A) → a ≼ b → b ≼ c → a ≼ c
  pub le_antisymm : (a b : A) → a ≼ b → b ≼ a → a ≡ b
  pub midpoint :
      (a b : A)
      → a ≼ b
      → (a ≼ d.div (d.add b a) (d.of_count 2)) × (d.div (d.add b a) (d.of_count 2) ≼ b)

-- The laws can be met: whole numbers, with the division of integers.
instance abbrev pub nat_double : Double ℕ
nat_double = record {
  zero_value = 0;
  lt = ltb;
  add = λ a b. a + b;
  mul = λ a b. a * b;
  div = λ a b. a / b;
  of_count = λ n. n;
}

pub nat-IsOrdered : IsOrdered ℕ
nat-IsOrdered = record {
  lt_asymm = λ a b h. ground arith;
  le_trans = λ a b c h k. ground arith;
  le_antisymm = λ a b h k. ground arith;
  midpoint = λ a b h. (ground arith, ground arith);
}
