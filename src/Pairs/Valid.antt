-- ===== src/Pairs/Valid.antt =====
-- The loops over the devices give every pair of two devices once.
use nvbandwidth.Prelude.{
  ℕ, zero, suc, ◌+◌, ◌-◌, ◌*◌, ◌≤◌, ◌≡◌, not, ◌&&◌, length, length-append, ◌==◌, ltb, leb,
  if◌then◌else◌, arith,
}
use nvbandwidth.Pairs.{Pair, peers, sources, valid_pairs}
use nvbandwidth.Pairs.Count.{times, times-append}

times-peers :
    (p : Pair) (src from k : ℕ)
    → times p (peers src from k)
      ≡ (if (p.0 == src) && leb from p.1 && ltb p.1 (from + k) && not (p.1 == src) then 1 else 0)
unfolding times peers
times-peers p src from zero = ground arith
times-peers p src from (suc k) = ground (arith, times-peers p src (suc from) k)

length-peers :
    (src from k : ℕ)
    → length (peers src from k) + (if leb from src && ltb src (from + k) then 1 else 0) ≡ k
unfolding peers
length-peers src from zero = ground arith
length-peers src from (suc k) = ground (arith, length-peers src (suc from) k)

times-sources :
    (p : Pair) (n src k : ℕ)
    → times p (sources n src k)
      ≡ (if leb src p.0 && ltb p.0 (src + k) && ltb p.1 n && not (p.1 == p.0) then 1 else 0)
unfolding times sources
times-sources p n src zero = ground arith
times-sources p n src (suc k) =
    rw
      (
        times-append p (peers src 0 n) (sources n (suc src) k),
        times-peers p src 0 n,
        times-sources p n (suc src) k,
      )
      (ground arith)

length-sources : (n src k : ℕ) → src + k ≤ n → length (sources n src k) ≡ k * (n - 1)
unfolding sources
length-sources n src zero h = omega arith
length-sources n src (suc k) h =
    let here : length (peers src 0 n) ≡ n - 1 = ground (arith, length-peers src 0 n) in
    rw
      (
        length-append (peers src 0 n) (sources n (suc src) k),
        here,
        length-sources n (suc src) k (omega arith),
      )
      (grind arith)

pub times-valid_pairs :
    (p : Pair) (n : ℕ)
    → times p (valid_pairs n) ≡ (if ltb p.0 n && ltb p.1 n && not (p.1 == p.0) then 1 else 0)
unfolding valid_pairs
times-valid_pairs p n = rw (times-sources p n 0 n) (ground arith)

pub length-valid_pairs : (n : ℕ) → length (valid_pairs n) ≡ n * (n - 1)
unfolding valid_pairs
length-valid_pairs n = length-sources n 0 n (omega arith)
