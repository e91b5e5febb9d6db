-- ===== src/Tests/Matrices.antt =====
-- The theorems on matrices at concrete inputs.
use nvbandwidth.Prelude.{ℕ, ◌*◌, ◌≡◌, refl, length, set, some}
use nvbandwidth.Matrix.{PeerValueMatrix, new_matrix, assign}

abbrev square : PeerValueMatrix ℕ
square = new_matrix 2 2

abbrev filled : PeerValueMatrix ℕ
filled = record square { m_matrix = set square.m_matrix 1 (some 7) }

assigned : assign square 0 1 7 ≡ some filled
unfolding assign new_matrix
assigned = refl

full : length square.m_matrix ≡ square.m_rows * square.m_columns
unfolding new_matrix
full = refl
