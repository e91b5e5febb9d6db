-- ===== src/Tests/Summaries.antt =====
-- The theorems on the summaries of matrices at a concrete matrix, over whole numbers.
use nvbandwidth.Prelude.{ℕ, ◌≡◌, refl, none, some, [], ◌∷◌, arith}
use nvbandwidth.Double.{nat_double, nat-IsOrdered}
use nvbandwidth.Matrix.{PeerValueMatrix}
use nvbandwidth.Summary.{Summary, initial, plain_cell, json_cell, summarise}
use nvbandwidth.Summary.Agree.{plain-eq-json}

-- Two devices, of which each has a value for the other.
abbrev peers : PeerValueMatrix ℕ
peers = record { m_matrix = none ∷ some 7 ∷ some 5 ∷ none ∷ []; m_rows = 2; m_columns = 2 }

plain-eq-json_example :
    (s : Summary ℕ) × (t : Summary ℕ) × (summarise plain_cell peers (initial 1 1000) ≡ some s)
    × (summarise json_cell peers (initial 1 1000) ≡ some t)
    × (s.sum ≡ t.sum)
    × (s.count ≡ t.count)
    × (s.max_val ≡ t.max_val)
plain-eq-json_example =
    plain-eq-json nat-IsOrdered (λ a. omega arith) peers 1 1000 refl (tt, (refl, (refl, (tt, tt))))
      refl
