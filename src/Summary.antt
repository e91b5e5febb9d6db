-- ===== src/Summary.antt =====
-- inline_common.h and json_output.cpp: the sum and the extremes that are printed with the matrix of a test
-- case. The smallest positive and the largest double are arguments; `none` stands for an ASSERT that
-- ends the process.
pub mod Read
pub mod Agree
pub mod Extremes
use nvbandwidth.Prelude.{
  ℕ, suc, Bool, true, false, Option, none, some, ◌>>=◌, List, [], ◌∷◌, ltb, if◌then◌else◌,
}
use nvbandwidth.Double.{Double}
use nvbandwidth.Matrix.{PeerValueMatrix, value}
use nvbandwidth.Testcase.{indices, for_all}

-- `maxVal`, `minVal`, `sum` and `count`.
pub record Summary {ℓ} (A : Type ℓ) : Type ℓ where
  pub max_val : A
  pub min_val : A
  pub sum : A
  pub count : ℕ

module _ {ℓ} {A : Type ℓ} ⦃d : Double A⦄ where
  open d use {zero_value, lt, add, div, of_count}

  -- `std::max` and `std::min`.
  abbrev pub max_of : A → A → A
  max_of a b = if lt a b then b else a

  abbrev pub min_of : A → A → A
  min_of a b = if lt b a then b else a

  -- The values before the loops; `double_min` is the smallest positive double.
  abbrev pub initial : (double_min double_max : A) → Summary A
  initial double_min double_max = record {
    max_val = double_min;
    min_val = double_max;
    sum = zero_value;
    count = 0;
  }

  abbrev value_or_zero : Option A → A
  value_or_zero none = zero_value
  value_or_zero (some v) = v

  -- A cell in the loops of the plain output.
  unfoldable pub plain_cell : Option A → Summary A → Summary A
  plain_cell o s =
      let v = value_or_zero o in
      record {
        sum = add s.sum v;
        max_val = max_of s.max_val v;
        min_val = min_of s.min_val v;
        count = if lt zero_value v then suc s.count else s.count;
      }

  -- A cell in the loops of `JsonOutput::addTestcaseResults`.
  unfoldable pub json_cell : Option A → Summary A → Summary A
  json_cell none s = s
  json_cell (some v) s =
      if lt zero_value v
      then record {
        sum = add s.sum v;
        max_val = max_of s.max_val v;
        min_val = min_of s.min_val v;
        count = suc s.count;
      }
      else s

  -- The two loops over the cells of a matrix.
  unfoldable pub summarise :
      (cell : Option A → Summary A → Summary A) → PeerValueMatrix A → Summary A → Option (Summary A)
  unfolding for_all
  summarise cell m =
      for_all
        (λ (current_device : ℕ).
          for_all
            (λ (peer : ℕ) (s : Summary A). (do o ← value m current_device peer; some (cell o s)))
            (indices 0 m.m_columns))
        (indices 0 m.m_rows)

  -- The average that the JSON output prints.
  unfoldable pub average : Summary A → A
  average s = if ltb 0 s.count then div s.sum (of_count s.count) else zero_value
