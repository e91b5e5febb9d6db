-- ===== src/Multinode/Gather.antt =====
-- The results that the ranks put together are those of all copies, in the order of the copies.
use nvbandwidth.Prelude.{
  ℕ, ◌+◌, ◌≡◌, ◌∙◌, refl, inl, inr, true, false, Bool-cases, List, [], ◌∷◌, ◌++◌, map, length,
  length-append, ◌==◌, ==_self, if◌then◌else◌, arith,
}
use nvbandwidth.Double.{Double}
use nvbandwidth.Statistic.{at}
use nvbandwidth.Multinode.{
  ContextPreference, Copy, rank_of, keep, dispatch_memcpy, Broadcast, gather,
  calculate_vector_bandwidth, calculate_first_bandwidth, first_rank,
}

module _ {ℓ} {A : Type ℓ} ⦃d : Double A⦄ where
  at-append :
      (before : List A) (x : A) (after : List A) → at (before ++ x ∷ after) (length before) ≡ x
  at-append [] x after = refl
  at-append (y ∷ before) x after = at-append before x after

  snoc-append : (xs : List A) (x : A) (ys : List A) → xs ++ x ∷ ys ≡ (xs ++ x ∷ []) ++ ys
  snoc-append [] x ys = refl
  snoc-append (y ∷ xs) x ys = rw (snoc-append xs x ys)

  length-snoc : (xs : List A) (x : A) → length (xs ++ x ∷ []) ≡ length xs + 1
  length-snoc xs x = length-append xs (x ∷ [])

  module _ (f : Copy → A) (p : ContextPreference) where
    -- What a rank keeps with the first copy, and the results before the next one.
    keep-split :
        (c : Copy) (cs : List Copy) (r : ℕ) (before : List A)
        → before ++ map f (keep r p (c ∷ cs))
          ≡ (if r == rank_of p c then before ++ f c ∷ [] else before) ++ map f (keep r p cs)
    unfolding keep
    keep-split c cs r before = elim (Bool-cases (r == rank_of p c)) [
      | inl h ↦
          let e : (rank_of p c == r) ≡ true = ground arith in
          rw (h, e, snoc-append before (f c) (map f (keep r p cs)))
      | inr h ↦ let e : (rank_of p c == r) ≡ false = ground arith in rw (h, e)
    ]

    count-split :
        (c : Copy) (r now : ℕ) (before : List A)
        → now ≡ length before
        → (if r == rank_of p c then now + 1 else now)
          ≡ length (if r == rank_of p c then before ++ f c ∷ [] else before)
    count-split c r now before e = elim (Bool-cases (r == rank_of p c)) [
      | inl h ↦ rw (h, e, length-snoc before (f c))
      | inr h ↦ rw (h, e)
    ]

    keep-first :
        (c : Copy) (cs : List Copy) (before : List A)
        → at (before ++ map f (keep (rank_of p c) p (c ∷ cs))) (length before) ≡ f c
    unfolding keep
    keep-first c cs before =
        rw (==_self (rank_of p c), at-append before (f c) (map f (keep (rank_of p c) p cs)))

    gather_lem :
        (mpi : Broadcast A) (results : ℕ → List A) (current : ℕ → ℕ) (before : ℕ → List A)
        (cs : List Copy) (rank : ℕ)
        → ((r : ℕ) → results r ≡ before r ++ map f (keep r p cs))
        → ((r : ℕ) → current r ≡ length (before r))
        → gather mpi results current (map (rank_of p) cs) rank ≡ map f cs
    unfolding gather
    gather_lem mpi results current before [] rank split here = refl
    gather_lem mpi results current before (c ∷ cs) rank split here =
        let root = rank_of p c in
        let next = λ (r : ℕ). if r == root then current r + 1 else current r in
        let before' = λ (r : ℕ). if r == root then before r ++ f c ∷ [] else before r in
        let head_eq : (if root == root then at (results root) (current root) else d.zero_value)
            ≡ f c =
          rw (==_self root, split root, here root) (keep-first c cs (before root)) in
        let tail_eq =
          gather_lem mpi results next before' cs rank (λ r. split r ∙ keep-split c cs r (before r))
            (λ r. count-split c r (current r) (before r) (here r)) in
        rw (tail_eq, mpi.broadcast_root, head_eq)

    -- Every rank ends with the results of all copies, in their order, when each rank has measured
    -- the copies that it was dispatched.
    pub calculate_vector_bandwidth_lem :
        (mpi : Broadcast A) (old : ℕ → ℕ) (cs : List Copy) (rank : ℕ)
        → let info = λ (r : ℕ). dispatch_memcpy r (old r) p cs in
          calculate_vector_bandwidth mpi
            (λ (r : ℕ). map f (info r).copies)
            (info rank).original_ranks
            rank
          ≡ map f cs
    unfolding calculate_vector_bandwidth dispatch_memcpy
    calculate_vector_bandwidth_lem mpi old cs rank =
        gather_lem mpi (λ (r : ℕ). map f (keep r p cs)) (λ (r : ℕ). 0) (λ (r : ℕ). []) cs rank
          (λ r. refl) (λ r. refl)

    -- Every rank ends with the result of the first copy, when each rank has measured the copies
    -- that it was dispatched.
    pub calculate_first_bandwidth_lem :
        (mpi : Broadcast A) (old : ℕ → ℕ) (c : Copy) (cs : List Copy) (rank : ℕ)
        → let info = λ (r : ℕ). dispatch_memcpy r (old r) p (c ∷ cs) in
          calculate_first_bandwidth mpi
            (λ (r : ℕ). map f (info r).copies)
            (info rank).rank_of_first_memcpy
            rank
          ≡ f c
    unfolding calculate_first_bandwidth dispatch_memcpy first_rank keep
    calculate_first_bandwidth_lem mpi old c cs rank = rw (mpi.broadcast_root, ==_self (rank_of p c))
