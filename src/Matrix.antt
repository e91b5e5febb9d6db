-- ===== src/Matrix.antt =====
-- inline_common.h: `PeerValueMatrix`, the results of a test case by source and destination. Negative
-- indices do not occur. `none` stands for an ASSERT that ends the process.
pub mod Cells
use nvbandwidth.Prelude.{
  ℕ, ◌+◌, ◌*◌, Bool, ◌&&◌, List, get_elem?, set, replicate, Option, none, some, ltb, if◌then◌else◌,
}

pub record PeerValueMatrix {ℓ} (A : Type ℓ) : Type ℓ where
  pub m_matrix : List (Option A)
  pub m_rows : ℕ
  pub m_columns : ℕ

module _ {ℓ} {A : Type ℓ} where
  -- The constructor.
  unfoldable pub new_matrix : (rows columns : ℕ) → PeerValueMatrix A
  new_matrix rows columns = record {
    m_matrix = replicate (rows * columns) none;
    m_rows = rows;
    m_columns = columns;
  }

  abbrev pub in_range : PeerValueMatrix A → (src dst : ℕ) → Bool
  in_range m src dst = ltb src m.m_rows && ltb dst m.m_columns

  -- `value` read.
  unfoldable pub value : PeerValueMatrix A → (src dst : ℕ) → Option (Option A)
  value m src dst =
      if in_range m src dst then get_elem? m.m_matrix (src * m.m_columns + dst) else none

  -- An assignment to the reference that `value` returns.
  unfoldable pub assign : PeerValueMatrix A → (src dst : ℕ) → A → Option (PeerValueMatrix A)
  assign m src dst v =
      if in_range m src dst
      then some (record m { m_matrix = set m.m_matrix (src * m.m_columns + dst) (some v) })
      else none
