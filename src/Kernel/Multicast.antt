-- ===== src/Kernel/Multicast.antt =====
-- kernels.cu: `multicastCopyKernel` and its launch by `multicastCopy`. A store to a multicast address
-- writes the memory of every device that takes part, by an instruction of the GPU; the destination here
-- is that of any one of them.
use nvbandwidth.Prelude.{
  ℕ, zero, suc, ◌+◌, ◌*◌, ◌/◌, ◌%◌, ◌≤◌, ◌<◌, ◌≡◌, refl, sym, ap, ◌∙◌, arith, List, any, run_all,
  Bool, true, false, ◌&&◌, ◌||◌, ◌==◌, ltb, leb, if◌then◌else◌, Bool-cases, inl, inr, ==_iff,
}
use native.Mathlib.Nat.{mod-lt, mul_comm}
use nvbandwidth.Config.{u32_mod, num_thread_per_block}
use nvbandwidth.Kernel.Memory.{Memory}
use nvbandwidth.Kernel.Grid.{
  Thread, global_index, InGrid, IsSchedule, run_all_lem, any-of_thread, any-of_none, thread_of,
  thread_of-InGrid, global_index-thread_of, global_index-eq,
}

-- `while (cur_dst_ptr < enddst)`, on fuel; both pointers are at the word `cur` of their buffers.
unfoldable multicast_while : (fuel n_elems threads cur : ℕ) → Memory → Memory → Memory
multicast_while zero n_elems threads cur src dst = dst
multicast_while (suc f) n_elems threads cur src dst =
    let rest =
      multicast_while f n_elems threads (cur + threads) src
        (λ j. if j == cur then src cur else dst j) in
    if ltb cur n_elems then rest else dst

-- A thread. `n_elems` rounds of fuel are enough for a positive number of threads.
unfoldable multicast_thread : (loop_count n_elems threads offset : ℕ) → Memory → Memory → Memory
unfolding multicast_while
multicast_thread zero n_elems threads offset src dst = dst
multicast_thread (suc n) n_elems threads offset src dst =
    multicast_thread n n_elems threads offset src
      (multicast_while n_elems n_elems threads offset src dst)

unfoldable pub multicast_copy_kernel :
    (grid_dim block_dim : ℕ) → List Thread → (loop_count n_elems : ℕ) → Memory → Memory → Memory
unfolding multicast_thread
multicast_copy_kernel grid_dim block_dim ts loop_count n_elems src =
    let threads = block_dim * grid_dim % u32_mod in
    run_all (λ t. multicast_thread loop_count n_elems threads (global_index block_dim t) src) ts

-- `multicastCopy`: the effect of its launch, and the size that it returns.
unfoldable pub multicast_copy :
    (num_sm : ℕ) → List Thread → (loop_count size : ℕ) → Memory → Memory → Memory × ℕ
unfolding multicast_copy_kernel
multicast_copy num_sm ts loop_count size src dst =
    let size_in_element = size / 4 in
    (
      multicast_copy_kernel num_sm num_thread_per_block ts loop_count size_in_element src dst,
      size_in_element * 4,
    )

module _ (threads from : ℕ) (inside : from < threads) (n_elems : ℕ) (src : Memory) (j : ℕ) where
  -- Whether the place is one of the thread's, from its k-th on.
  abbrev is_rest : ℕ → Bool
  is_rest k = (j % threads == from) && leb k (j / threads) && ltb j n_elems

  above : (k : ℕ) → j % threads ≡ from → k ≤ j / threads → from + k * threads ≤ j
  above k p q = rw (← p) (grind arith)

  of_div-mod : (k : ℕ) → j % threads ≡ from → j / threads ≡ k → j ≡ from + k * threads
  of_div-mod k p q = rw (← q, ← p) (omega arith)

  div-mod-of_offset :
      (k : ℕ) → ((from + k * threads) / threads ≡ k) × ((from + k * threads) % threads ≡ from)
  div-mod-of_offset k = (grind arith, grind arith)

  -- The place of this round, or one of a later round.
  is_rest-suc :
      (k : ℕ)
      → from + k * threads < n_elems
      → is_rest k ≡ ((j == from + k * threads) || is_rest (k + 1))
  is_rest-suc k h = elim (Bool-cases (j == from + k * threads)) [
    | inl e ↦
        let same : j ≡ from + k * threads = (==_iff j (from + k * threads)).0 e in
        let (q, r) = div-mod-of_offset k in
        rw (e) (ground (arith, ap (λ (x : ℕ). x / threads) same, ap (λ (x : ℕ). x % threads) same))
    | inr e ↦ rw e (ground (arith, of_div-mod k))
  ]

  store-rest :
      (k : ℕ) (dst : Memory)
      → from + k * threads < n_elems
      → (if is_rest (k + 1)
          then src j
          else if j == from + k * threads
          then src (from + k * threads)
          else dst j)
        ≡ (if is_rest k then src j else dst j)
  store-rest k dst h = elim (Bool-cases (j == from + k * threads)) [
    | inl e ↦
        let same : j ≡ from + k * threads = (==_iff j (from + k * threads)).0 e in
        rw (is_rest-suc k h, e) (either (is_rest (k + 1)) same)
    | inr e ↦ rw (is_rest-suc k h, e)
  ]
    where
      either : (b : Bool) {c : ℕ} → j ≡ c → (if b then src j else src c) ≡ src j
      either true e = refl
      either false e = ap src (sym e)

  multicast_while_lem :
      (f k : ℕ) (dst : Memory)
      → n_elems ≤ from + (k + f) * threads
      → multicast_while f n_elems threads (from + k * threads) src dst j
        ≡ (if is_rest k then src j else dst j)
  unfolding multicast_while
  multicast_while_lem zero k dst h =
      let over : n_elems ≤ from + k * threads = omega arith in
      let none_left : is_rest k ≡ false = ground (arith, above k) in rw none_left
  multicast_while_lem (suc f) k dst h = elim (Bool-cases (ltb (from + k * threads) n_elems)) [
    | inl e ↦
        let here = from + k * threads in
        let stored : Memory = λ i. if i == here then src here else dst i in
        rw e (
          ap (λ c. multicast_while f n_elems threads c src stored j) (grind arith)
          ∙ multicast_while_lem f (k + 1) stored (omega (arith, next k f))
          ∙ store-rest k dst (ground arith))
    | inr e ↦ let none_left : is_rest k ≡ false = ground (arith, above k) in rw (e, none_left)
  ]
    where
      next : (k f : ℕ) → from + (k + 1 + f) * threads ≡ from + (k + suc f) * threads
      next k f = grind arith

  abbrev owned : Bool
  owned = (j % threads == from) && ltb j n_elems

  pass_lem :
      (dst : Memory)
      → multicast_while n_elems n_elems threads from src dst j ≡ (if owned then src j else dst j)
  pass_lem dst =
      let whole : is_rest 0 ≡ owned = ground arith in
      ap (λ c. multicast_while n_elems n_elems threads c src dst j) (omega arith)
      ∙ multicast_while_lem n_elems 0 dst (grind arith)
      ∙ rw whole

  multicast_thread_lem :
      (n : ℕ) (dst : Memory)
      → multicast_thread (suc n) n_elems threads from src dst j ≡ (if owned then src j else dst j)
  unfolding multicast_thread
  multicast_thread_lem zero dst = pass_lem dst
  multicast_thread_lem (suc n) dst =
      multicast_thread_lem n (multicast_while n_elems n_elems threads from src dst)
      ∙ rw (pass_lem dst) (twice owned (src j) (dst j))
    where
      twice : (b : Bool) (x y : ℕ) → (if b then x else if b then x else y) ≡ (if b then x else y)
      twice true x y = refl
      twice false x y = refl

module _ {grid block : ℕ} {ts : List Thread} (s : IsSchedule grid block ts)
    (small : grid * block < u32_mod) (pos : 0 < grid * block) (n n_elems : ℕ)
    (src dst : Memory) where
  abbrev owns : Thread → ℕ → Bool
  owns t j = (j % (grid * block) == global_index block t) && ltb j n_elems

  threads_eq : block * grid % u32_mod ≡ grid * block
  threads_eq = omega (arith, mul_comm block grid)

  run_lem :
      (j : ℕ)
      → multicast_copy_kernel grid block ts (suc n) n_elems src dst j
        ≡ (if any (λ t. owns t j) ts then src j else dst j)
  unfolding multicast_copy_kernel
  run_lem j =
      ap
        (λ c. run_all (λ t. multicast_thread (suc n) n_elems c (global_index block t) src) ts dst j)
        threads_eq
      ∙ run_all_lem (InGrid grid block) owns src
          (λ t. multicast_thread (suc n) n_elems (grid * block) (global_index block t) src)
          (λ t m i h.
            multicast_thread_lem (grid * block) (global_index block t)
              (global_index-eq grid block t (omega arith) h).1 n_elems src i n m)
          ts dst j s.inside

  -- In any schedule of at least one and fewer than 2^32 threads, with at least one round, just the first
  -- `n_elems` words of the destination are those of the source.
  pub multicast_copy_kernel_lem :
      (j : ℕ)
      → multicast_copy_kernel grid block ts (suc n) n_elems src dst j
        ≡ (if ltb j n_elems then src j else dst j)
  multicast_copy_kernel_lem j = elim (Bool-cases (ltb j n_elems)) [
    | inl h ↦
        let r = mod-lt j pos in
        let t = thread_of block (j % (grid * block)) in
        let hit =
          any-of_thread (λ t. owns t j) s t (thread_of-InGrid grid block (j % (grid * block)) r)
            (ground
              (arith, global_index-thread_of grid block (j % (grid * block)) (omega arith) r)) in
        rw (run_lem j, hit, h)
    | inr h ↦
        let miss = any-of_none (λ t. owns t j) s (λ t k. ground arith) in rw (run_lem j, miss, h)
  ]
