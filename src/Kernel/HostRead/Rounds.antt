-- ===== src/Kernel/HostRead/Rounds.antt =====
-- How often each index is read in a round of the two host-read kernels.
use nvbandwidth.Prelude.{
  ℕ, zero, suc, ◌+◌, ◌*◌, ◌/◌, ◌%◌, ◌≤◌, ◌<◌, ◌≡◌, refl, ap, ◌∙◌, arith, Bool, ◌==◌, ltb, ◌&&◌,
  ◌||◌, if◌then◌else◌, Bool-cases, inl, inr, lt→ltb, le→ltb,
}
use native.Mathlib.Nat.{mod-add-div, mod-le, mul_comm}
use nvbandwidth.Kernel.HostRead.{
  Reader, read_next, simple_reads, simple_read_thread, reads, read_while, read_pass,
  striding_read_thread,
}

-- An accumulator that counts how often the index `e` is read.
abbrev pub tally : (e : ℕ) → ℕ → ℕ → ℕ
tally e i n = if i == e then n + 1 else n

-- Whether `e` is one of the first `k` indices of the thread `from`.
abbrev pub is_read : (threads from k e : ℕ) → Bool
is_read threads from k e = (e % threads == from) && ltb (e / threads) k

abbrev pub once : Bool → ℕ
once b = if b then 1 else 0

module _ (threads from : ℕ) (inside : from < threads) (e : ℕ) where
  div-mod-of_offset :
      (k : ℕ) → ((from + k * threads) / threads ≡ k) × ((from + k * threads) % threads ≡ from)
  div-mod-of_offset k = (grind arith, grind arith)

  of_div-mod : (k : ℕ) → e % threads ≡ from → e / threads ≡ k → from + k * threads ≡ e
  of_div-mod k p q = rw (← q, ← p) (omega arith)

  -- The next index is that of the next of the thread's reads.
  is_next : (k : ℕ) → (from + k * threads == e) ≡ ((e % threads == from) && (e / threads == k))
  is_next k = elim (Bool-cases (from + k * threads == e)) [
    | inl h ↦
        let same : from + k * threads ≡ e = ground arith in
        rw (← same) (ground (arith, div-mod-of_offset k))
    | inr h ↦ ground (arith, of_div-mod k)
  ]

  tally-next :
      (k n : ℕ)
      → tally e (from + k * threads) n ≡ n + once ((e % threads == from) && (e / threads == k))
  tally-next k n = rw (is_next k) (ground arith)

  -- The reader after `k` reads.
  at : (k n : ℕ) → Reader ℕ
  at k n = record { cur = from + k * threads; acc = n + once (is_read threads from k e) }

  read_next-at : (k n : ℕ) → read_next (tally e) threads (at k n) ≡ at (k + 1) n
  unfolding read_next at
  read_next-at k n =
      let place : from + k * threads + threads ≡ from + (k + 1) * threads = grind arith in
      let counted : tally e (from + k * threads) (n + once (is_read threads from k e))
          ≡ n + once (is_read threads from (k + 1) e) =
        tally-next k (n + once (is_read threads from k e)) ∙ ground arith in
      λ i. record { cur = place i; acc = counted i }

  above : (k : ℕ) → e % threads ≡ from → k ≤ e / threads → from + k * threads ≤ e
  above k p q = rw (← p) (grind arith)

  below : (k : ℕ) → e % threads ≡ from → e / threads < k → e < from + k * threads
  below k p q = rw (← p) (grind arith)

  -- The indices that the unrolled loop has read, from the k-th on.
  abbrev simple_read : (k j n_reads : ℕ) → Bool
  simple_read k j n_reads =
      (e % threads == from) && (ltb (e / threads) k || (ltb (e / threads) (k + j) && ltb e n_reads))

  simple_read-next :
      (k j n_reads : ℕ)
      → from + k * threads < n_reads
      → simple_read (k + 1) j n_reads ≡ simple_read k (suc j) n_reads
  simple_read-next k j n_reads h = ground (arith, of_div-mod k)

  simple_read-done :
      (k j n_reads : ℕ)
      → n_reads ≤ from + k * threads
      → simple_read k j n_reads ≡ simple_read k (suc j) n_reads
  simple_read-done k j n_reads h = ground (arith, above k)

  simple_reads-at :
      (j k m n_reads : ℕ)
      → (simple_reads (tally e) threads j n_reads (at k m)).acc ≡ m + once (simple_read k j n_reads)
  unfolding simple_reads at
  simple_reads-at zero k m n_reads = ground arith
  simple_reads-at (suc j) k m n_reads =
      let taken = read_next (tally e) threads (at k m) in
      let rest = λ (r : Reader ℕ). (simple_reads (tally e) threads j n_reads r).acc in
      let test = λ (b : Bool). rest (if b then taken else at k m) in
      elim (Bool-cases (ltb (from + k * threads) n_reads)) [
        | inl h ↦
            ap test h
            ∙ ap rest (read_next-at k m)
            ∙ simple_reads-at j (k + 1) m n_reads
            ∙ ap (λ b. m + once b) (simple_read-next k j n_reads (ground arith))
        | inr h ↦
            ap test h
            ∙ simple_reads-at j k m n_reads
            ∙ ap (λ b. m + once b) (simple_read-done k j n_reads (ground arith))
      ]

  at-zero : (m : ℕ) → record { cur = from; acc = m } ≡ at 0 m
  unfolding at
  at-zero m =
      let place : from ≡ from + 0 * threads = omega arith in
      let none_read : m ≡ m + once (is_read threads from 0 e) = ground arith in
      λ i. record { cur = place i; acc = none_read i }

  all_simple :
      (parallel_reads n_reads : ℕ)
      → n_reads ≤ threads * parallel_reads
      → simple_read 0 parallel_reads n_reads ≡ ((e % threads == from) && ltb e n_reads)
  all_simple parallel_reads n_reads h =
      let inside_row : e < threads * parallel_reads → e / threads < parallel_reads =
        λ g. grind arith in
      ground (arith, inside_row)

  -- Each round of a thread of `simpleHostReadKernel` reads each of its indices once.
  pub simple_read_thread_lem :
      (loop_count parallel_reads n_reads m : ℕ)
      → n_reads ≤ threads * parallel_reads
      → simple_read_thread (tally e) threads loop_count parallel_reads n_reads from m
        ≡ m + loop_count * once ((e % threads == from) && ltb e n_reads)
  unfolding simple_read_thread
  simple_read_thread_lem zero parallel_reads n_reads m h = omega arith
  simple_read_thread_lem (suc n) parallel_reads n_reads m h =
      rw
        (
          at-zero m,
          simple_reads-at parallel_reads 0 m n_reads,
          all_simple parallel_reads n_reads h,
          simple_read_thread_lem n parallel_reads n_reads
              (m + once ((e % threads == from) && ltb e n_reads)) h,
        )
        (omega arith)

  reads-at : (j k m : ℕ) → reads (tally e) threads j (at k m) ≡ at (k + j) m
  unfolding reads
  reads-at zero k m = ap (λ i. at i m) (omega arith)
  reads-at (suc j) k m =
      ap (reads (tally e) threads j) (read_next-at k m)
      ∙ reads-at j (k + 1) m
      ∙ ap (λ i. at i m) (omega arith)

  grows : (k n r : ℕ) → 0 < n → from + k * threads < from + (k + suc r * n) * threads
  grows k n r p = grind arith

  -- With enough fuel the loop stops after `r` rounds, where it has made `k + r * n` reads.
  read_while-at :
      (f n k r limit m : ℕ)
      → r < f
      → 0 < n
      → limit ≡ from + (k + r * n) * threads
      → read_while (tally e) threads f n limit (at k m) ≡ at (k + r * n) m
  unfolding read_while at
  read_while-at zero n k r limit m h p q = elim h [ ]
  read_while-at (suc f) n k zero limit m h p q =
      rw (le→ltb (from + k * threads) limit (omega arith)) (ap (λ i. at i m) (omega arith))
  read_while-at (suc f) n k (suc r) limit m h p q =
      rw (lt→ltb (from + k * threads) limit (rw q (grows k n r p)), reads-at n k m)
        (read_while-at f n (k + n) r limit m (omega arith) p (rw q (grind arith))
          ∙ ap (λ i. at i m) (grind arith))

  acc-at : (k m : ℕ) → (at k m).acc ≡ m + once (is_read threads from k e)
  unfolding at
  acc-at k m = refl

  parts :
      (parallel_reads chunk : ℕ)
      → 0 < parallel_reads
      → chunk / parallel_reads * parallel_reads + chunk % parallel_reads ≡ chunk
  parts p chunk h = ground (arith, mod-add-div chunk p, mul_comm p (chunk / p))

  rounds-le :
      (parallel_reads chunk : ℕ)
      → 0 < parallel_reads
      → (chunk / parallel_reads ≤ chunk) × (chunk % parallel_reads ≤ chunk)
  rounds-le p chunk h = (grind arith, mod-le chunk p)

  read_pass_lem :
      (parallel_reads chunk m : ℕ)
      → 0 < parallel_reads
      → read_pass (tally e) threads parallel_reads chunk from m
        ≡ m + once (is_read threads from chunk e)
  unfolding read_pass
  read_pass_lem p chunk m pos =
      let n = chunk / p * p in
      let big = from + n * threads in
      let end = from + chunk * threads in
      let (few, less) = rounds-le p chunk pos in
      ap
        (λ (s : Reader ℕ).
          (read_while (tally e) threads (chunk + 1) 1 end
            (read_while (tally e) threads (chunk + 1) p big s)).acc)
        (at-zero m)
      ∙ ap (λ (s : Reader ℕ). (read_while (tally e) threads (chunk + 1) 1 end s).acc)
          (read_while-at (chunk + 1) p 0 (chunk / p) big m (omega arith) pos
            (ap (λ x. from + x * threads) (omega arith)))
      ∙ ap (λ (s : Reader ℕ). s.acc)
          (read_while-at (chunk + 1) 1 (0 + n) (chunk % p) end m (omega arith) (omega arith)
            (ap (λ x. from + x * threads) (omega (arith, parts p chunk pos))))
      ∙ acc-at (0 + n + chunk % p * 1) m
      ∙ ap (λ x. m + once (is_read threads from x e)) (omega (arith, parts p chunk pos))

  all_strided :
      (chunk : ℕ)
      → is_read threads from chunk e ≡ ((e % threads == from) && ltb e (threads * chunk))
  all_strided chunk =
      let inward : e < threads * chunk → e / threads < chunk = λ g. grind arith in
      let outward : e / threads < chunk → e < threads * chunk = λ g. grind arith in
      ground (arith, inward, outward)

  -- Each pass of a thread of `stridingHostReadKernel` reads each of its indices once.
  pub striding_read_thread_lem :
      (loop_count parallel_reads chunk m : ℕ)
      → 0 < parallel_reads
      → striding_read_thread (tally e) threads loop_count parallel_reads chunk from m
        ≡ m + loop_count * once ((e % threads == from) && ltb e (threads * chunk))
  unfolding striding_read_thread
  striding_read_thread_lem zero p chunk m pos = omega arith
  striding_read_thread_lem (suc n) p chunk m pos =
      rw
        (
          read_pass_lem p chunk m pos,
          all_strided chunk,
          striding_read_thread_lem n p chunk
              (m + once ((e % threads == from) && ltb e (threads * chunk))) pos,
        )
        (omega arith)
