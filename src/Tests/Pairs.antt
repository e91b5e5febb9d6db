-- ===== src/Tests/Pairs.antt =====
-- The theorems on the test pairs at concrete inputs.
use mathlib.Core.List.{Permᴰ}
use nvbandwidth.Prelude.{◌≡◌, ◌≤◌, refl, true, List, [], ◌∷◌, length, some, arith}
use nvbandwidth.Multinode.{Broadcast}
use nvbandwidth.Pairs.{Pair, Shuffles, generate_test_pairs}
use nvbandwidth.Pairs.Count.{times}
use nvbandwidth.Pairs.Found.{touches}
use nvbandwidth.Pairs.Selected.{generate_test_pairs_lem}
use nvbandwidth.Pairs.Covered.{generate_test_pairs-covers}
use nvbandwidth.Pairs.Exchange.{exchange, exchange_lem}

pub perm_refl {ℓ} : {A : Type ℓ} (xs : List A) → Permᴰ xs xs
perm_refl [] = Permᴰ.nil
perm_refl (x ∷ xs) = Permᴰ.cons refl (perm_refl xs)

-- A shuffle may leave its list as it is.
abbrev pub unshuffled : Shuffles
unshuffled = record {
  all_pairs = λ ps. ps;
  all_pairs_perm = perm_refl;
  gpu_order = λ gs. gs;
  gpu_order_perm = perm_refl;
  remaining = λ ps. ps;
  remaining_perm = perm_refl;
}

generate_test_pairs_example :
    (length (generate_test_pairs unshuffled 4 (some 5)) ≡ 5)
    × (times (1, 2) (generate_test_pairs unshuffled 4 (some 5)) ≤ 1)
generate_test_pairs_example = generate_test_pairs_lem unshuffled 4 5 (1, 2) (omega arith)

generate_test_pairs-covers_example : touches (generate_test_pairs unshuffled 4 (some 5)) 3 ≡ true
generate_test_pairs-covers_example =
    generate_test_pairs-covers unshuffled 4 5 3 (omega arith) (omega arith) (omega arith)

abbrev direct {ℓ} : {A : Type ℓ} → Broadcast A
direct = record {
  broadcast = λ root buffer rank. buffer root;
  broadcast_root = λ root buffer rank. refl;
}

abbrev two_pairs : List Pair
two_pairs = (0, 1) ∷ (3, 2) ∷ []

exchange_example : exchange direct direct two_pairs 2 ≡ two_pairs
exchange_example = exchange_lem direct direct two_pairs 2
