-- ===== src/Kernel/Striding/Pass.antt =====
-- One pass of a thread of `stridingMemcpyKernel`: the pipeline copies like a plain loop.
use nvbandwidth.Prelude.{
  ℕ, zero, suc, ◌+◌, ◌*◌, ◌/◌, ◌%◌, ◌<◌, ◌≡◌, refl, arith, ◌==◌, ltb, ◌&&◌, if◌then◌else◌, fun_ext,
  ◌∙◌, Bool, ap, lt→ltb, le→ltb,
}
use native.Mathlib.Decide.{ℕ_discrete}
use nvbandwidth.Kernel.Memory.{Memory, load, store, store-load}
use nvbandwidth.Kernel.Striding.{Cursor, load_pipe, store_pipe, copy_round, copy_while, copy_pass}

-- The elements that thread `from` has copied after `k` of its elements.
abbrev pub is_part : (w threads from k j : ℕ) → Bool
is_part w threads from k j = ((j / w) % threads == from) && ltb (j / w / threads) k

unfoldable pub part : (w threads from k : ℕ) → Memory → Memory → Memory
part w threads from k src dst = λ j. if is_part w threads from k j then src j else dst j

module _ (w threads from : ℕ) (inside : from < threads) (src dst : Memory) where
  div-mod-of_offset :
      (k : ℕ) → ((from + k * threads) / threads ≡ k) × ((from + k * threads) % threads ≡ from)
  div-mod-of_offset k = (grind arith, grind arith)

  of_div-mod : (k e : ℕ) → e % threads ≡ from → e / threads ≡ k → e ≡ from + k * threads
  of_div-mod k e p q = rw (← q, ← p) (omega arith)

  -- The element at offset `from + k * threads` is the next one.
  is_part-suc :
      (k e : ℕ) → (e == from + k * threads) ≡ ((e % threads == from) && (e / threads == k))
  is_part-suc k e = elim (ℕ_discrete e (from + k * threads)) [
    | yes h ↦ rw h (ground (arith, div-mod-of_offset k))
    | no h ↦ ground (arith, of_div-mod k e)
  ]

  store-part :
      (k : ℕ)
      → store w
          (part w threads from k src dst)
          (from + k * threads)
          (load w src (from + k * threads))
        ≡ part w threads from (k + 1) src dst
  unfolding part
  store-part k =
      store-load w src (part w threads from k src dst) (from + k * threads)
      ∙ fun_ext λ j. ground (arith, is_part-suc k (j / w))

  store_pipe-part :
      (n k : ℕ)
      → store_pipe w threads
          (load_pipe n w threads src (from + k * threads))
          (part w threads from k src dst)
          (from + k * threads)
        ≡ part w threads from (k + n) src dst
  unfolding store_pipe load_pipe
  store_pipe-part zero k = ap (λ i. part w threads from i src dst) (omega arith)
  store_pipe-part (suc n) k =
      let c = from + k * threads in
      let next : c + threads ≡ from + (k + 1) * threads = grind arith in
      ap (λ m. store_pipe w threads (load_pipe n w threads src (c + threads)) m (c + threads))
        (store-part k)
      ∙ ap
          (λ d.
            store_pipe w threads (load_pipe n w threads src d) (part w threads from (k + 1) src dst)
              d)
          next
      ∙ store_pipe-part n (k + 1)
      ∙ ap (λ i. part w threads from i src dst) (omega arith)

  -- The cursor after `k` elements.
  at : ℕ → Cursor
  at k = record {
    cdst = from + k * threads;
    csrc = from + k * threads;
    mem = part w threads from k src dst;
  }

  copy_round-at : (n k : ℕ) → copy_round n w threads src (at k) ≡ at (k + n)
  unfolding copy_round at
  copy_round-at n k =
      let e : from + k * threads + n * threads ≡ from + (k + n) * threads = grind arith in
      λ i. record { cdst = e i; csrc = e i; mem = store_pipe-part n k i }

  cdst-at : (k : ℕ) → (at k).cdst ≡ from + k * threads
  unfolding at
  cdst-at k = refl

  grows : (k n m : ℕ) → 0 < n → from + k * threads < from + (k + suc m * n) * threads
  grows k n m p = grind arith

  -- With enough fuel the loop stops after `m` rounds, where it has copied `k + m * n` elements.
  copy_while-at :
      (f n k m limit : ℕ)
      → m < f
      → 0 < n
      → limit ≡ from + (k + m * n) * threads
      → copy_while f n w threads limit src (at k) ≡ at (k + m * n)
  unfolding copy_while at
  copy_while-at zero n k m limit h p e = elim h [ ]
  copy_while-at (suc f) n k zero limit h p e =
      rw (le→ltb (from + k * threads) limit (omega arith)) (ap at (omega arith))
  copy_while-at (suc f) n k (suc m) limit h p e =
      rw (lt→ltb (from + k * threads) limit (rw e (grows k n m p)), copy_round-at n k)
        (copy_while-at f n (k + n) m limit (omega arith) p (rw e (grind arith))
          ∙ ap at (grind arith))

  at-zero : record { cdst = from; csrc = from; mem = dst } ≡ at 0
  unfolding at part
  at-zero =
      let e : from ≡ from + 0 * threads = omega arith in
      λ i. record { cdst = e i; csrc = e i; mem = (fun_ext (λ j. nothing j)) i }
    where
      nothing : (j : ℕ) → dst j ≡ part w threads from 0 src dst j
      nothing j = ground arith

  mem-at : (k : ℕ) → (at k).mem ≡ part w threads from k src dst
  unfolding at
  mem-at k = refl

  -- A pass of one thread copies its `chunk` elements, and changes nothing else.
  pub copy_pass_lem :
      (chunk : ℕ) → copy_pass w threads chunk from src dst ≡ part w threads from chunk src dst
  unfolding copy_pass
  copy_pass_lem chunk =
      let n = chunk / 12 * 12 in
      let big = from + n * threads in
      let end = from + chunk * threads in
      ap
        (λ (s : Cursor).
          (copy_while (chunk + 1) 1 w threads end src
            (copy_while (chunk + 1) 12 w threads big src s)).mem)
        at-zero
      ∙ ap (λ (s : Cursor). (copy_while (chunk + 1) 1 w threads end src s).mem)
          (copy_while-at (chunk + 1) 12 0 (chunk / 12) big (omega arith) (omega arith)
            (ap (λ x. from + x * threads) (omega arith)))
      ∙ ap (λ (s : Cursor). s.mem)
          (copy_while-at (chunk + 1) 1 (0 + n) (chunk % 12) end (omega arith) (omega arith)
            (ap (λ x. from + x * threads) (omega arith)))
      ∙ mem-at (0 + n + chunk % 12 * 1)
      ∙ ap (λ x. part w threads from x src dst) (omega arith)
