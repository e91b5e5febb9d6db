-- ===== src/Pairs/Exchange.antt =====
-- multinode_memcpy.cpp: the end of `generateTestPairs`, in which rank 0 sends its pairs to the other
-- ranks as a flat array.
use nvbandwidth.Prelude.{
  ℕ, zero, suc, ◌+◌, ◌*◌, ◌≡◌, refl, ap, ◌∙◌, List, [], ◌∷◌, length, replicate, ◌==◌, if◌then◌else◌,
  arith, Bool-cases, inl, inr,
}
use nvbandwidth.Multinode.{Broadcast}
use nvbandwidth.Pairs.{Pair}

-- The loop over the pairs that fills `serializedPairs`.
pub serialize : List Pair → List ℕ
serialize [] = []
serialize (p ∷ ps) = p.0 ∷ p.1 ∷ serialize ps

-- `serializedPairs[i]`; the indices used are in range.
item : List ℕ → ℕ → ℕ
item [] i = 0
item (x ∷ xs) zero = x
item (x ∷ xs) (suc i) = item xs i

-- The loop over `finalPairs`, from index `i` on.
pub deserialize : (i rounds : ℕ) → List ℕ → List Pair
unfolding item
deserialize i zero xs = []
deserialize i (suc k) xs = (item xs (i * 2), item xs (i * 2 + 1)) ∷ deserialize (suc i) k xs

-- What `generateTestPairs` returns on a rank, from the final pairs of rank 0: the size is broadcast
-- first, then the array, for which the other ranks have made room.
unfoldable pub exchange : Broadcast ℕ → Broadcast (List ℕ) → List Pair → (rank : ℕ) → List Pair
unfolding serialize deserialize
exchange sizes arrays ps rank =
    let size = sizes.broadcast 0 (λ r. if r == 0 then length ps else 0) in
    let sent =
      arrays.broadcast 0 (λ r. if r == 0 then serialize ps else replicate (size r * 2) 0) in
    if rank == 0 then ps else deserialize 0 (size rank) (sent rank)

item-later : (a b : ℕ) (xs : List ℕ) (i j : ℕ) → j ≡ suc (suc i) → item (a ∷ b ∷ xs) j ≡ item xs i
unfolding item
item-later a b xs i j e = rw e

deserialize-later :
    (a b : ℕ) (xs : List ℕ) (i k : ℕ) → deserialize (suc i) k (a ∷ b ∷ xs) ≡ deserialize i k xs
unfolding deserialize
deserialize-later a b xs i zero = refl
deserialize-later a b xs i (suc k) = rw (
  item-later a b xs (i * 2) (suc i * 2) (omega arith),
  item-later a b xs (i * 2 + 1) (suc i * 2 + 1) (omega arith),
  deserialize-later a b xs (suc i) k,
)

deserialize-serialize : (ps : List Pair) → deserialize 0 (length ps) (serialize ps) ≡ ps
unfolding deserialize serialize item
deserialize-serialize [] = refl
deserialize-serialize (p ∷ ps) =
    ap (p ∷◌) (deserialize-later p.0 p.1 (serialize ps) 0 (length ps) ∙ deserialize-serialize ps)

-- Every rank ends with the pairs of rank 0.
pub exchange_lem :
    (sizes : Broadcast ℕ) (arrays : Broadcast (List ℕ)) (ps : List Pair) (rank : ℕ)
    → exchange sizes arrays ps rank ≡ ps
unfolding exchange
exchange_lem sizes arrays ps rank = elim (Bool-cases (rank == 0)) [
  | inl h ↦ rw h
  | inr h ↦ rw (h, sizes.broadcast_root, arrays.broadcast_root) (deserialize-serialize ps)
]
