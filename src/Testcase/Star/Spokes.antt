-- ===== src/Testcase/Star/Spokes.antt =====
-- The copies between one device and its peers.
use nvbandwidth.Prelude.{ℕ, ◌≡◌, refl, Bool, true, false, List, [], ◌∷◌, map, if◌then◌else◌, arith}
use nvbandwidth.Buffers.{Transfer, pairs_of, same_sizes}
use nvbandwidth.Testcase.Host.{device_buffer}

-- A copy between the device and a peer.
abbrev pub spoke : (from_own : Bool) (size device_id peer : ℕ) → Transfer
spoke from_own size i j =
    if from_own
    then (device_buffer size i, device_buffer size j)
    else (device_buffer size j, device_buffer size i)

abbrev pub star_copies : (from_own : Bool) (size device_id : ℕ) → List ℕ → List Transfer
star_copies from_own size i xs = map (spoke from_own size i) xs

abbrev pub some_peer : List ℕ → Bool
some_peer [] = false
some_peer (x ∷ xs) = true

pub pairs_of-own :
    (size i : ℕ) (xs : List ℕ)
    → pairs_of (map (λ (j : ℕ). device_buffer size i) xs) (map (device_buffer size) xs)
      ≡ star_copies true size i xs
unfolding pairs_of
pairs_of-own size i [] = refl
pairs_of-own size i (x ∷ xs) = rw (pairs_of-own size i xs) refl

pub pairs_of-others :
    (size i : ℕ) (xs : List ℕ)
    → pairs_of (map (device_buffer size) xs) (map (λ (j : ℕ). device_buffer size i) xs)
      ≡ star_copies false size i xs
unfolding pairs_of
pairs_of-others size i [] = refl
pairs_of-others size i (x ∷ xs) = rw (pairs_of-others size i xs) refl

pub same_sizes-star :
    (from_own : Bool) (size i : ℕ) (xs : List ℕ)
    → same_sizes (star_copies from_own size i xs) ≡ true
same_sizes-star from_own size i [] = refl
same_sizes-star true size i (x ∷ xs) = ground (arith, same_sizes-star true size i xs)
same_sizes-star false size i (x ∷ xs) = ground (arith, same_sizes-star false size i xs)
