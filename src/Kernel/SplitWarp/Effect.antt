-- ===== src/Kernel/SplitWarp/Effect.antt =====
-- What the split-warp kernels leave in the two buffers, in any order of their threads.
use nvbandwidth.Prelude.{
  ℕ, zero, suc, ◌*◌, ◌/◌, ◌≤◌, ◌≡◌, refl, List, [], ◌∷◌, arith, any, ◌==◌, ltb, ◌&&◌, not,
  if◌then◌else◌, Bool, ap,
}
use nvbandwidth.Kernel.Memory.{Memory, load, store, store-load}
use nvbandwidth.Kernel.Grid.{Thread, global_index, IsSchedule, any-index}
use nvbandwidth.Config.{u32_mod}
use nvbandwidth.Kernel.SplitWarp.{
  Buffers, element_of, is_odd_warp, split_warp_step, split_warp_thread, split_warp_copy_kernel,
  memclear_thread, memclear_kernel,
}

element_of_lem : (idx : ℕ) → element_of idx ≡ idx
element_of_lem idx = omega arith

-- Whether word `j` lies in the element of thread `idx`, and in that of some thread of the list.
abbrev owns : ℕ → ℕ → Bool
owns idx j = j / 4 == idx

abbrev hit : ℕ → List Thread → ℕ → Bool
hit block_dim ts j = any (λ t. owns (global_index block_dim t) j) ts

abbrev odd : ℕ → Bool
odd j = is_odd_warp (j / 4)

abbrev merged_dst : Bool → Buffers → ℕ → ℕ
merged_dst h b j = if h && odd j then b.src j else b.dst j

abbrev merged_src : Bool → Buffers → ℕ → ℕ
merged_src h b j = if h && not (odd j) then b.dst j else b.src j

store-load-at :
    (src dst : Memory) (e j : ℕ)
    → store 4 dst e (load 4 src e) j ≡ (if j / 4 == e then src j else dst j)
store-load-at src dst e j = ap (λ (m : Memory). m j) (store-load 4 src dst e)

step-at :
    (idx : ℕ) (b : Buffers) (j : ℕ)
    → ((split_warp_step idx b).dst j ≡ merged_dst (owns idx j) b j)
      × ((split_warp_step idx b).src j ≡ merged_src (owns idx j) b j)
unfolding split_warp_step
step-at idx b j =
    rw (element_of_lem idx)
      (ground (arith, store-load-at b.src b.dst idx j, store-load-at b.dst b.src idx j))

thread-at :
    (n idx : ℕ) (b : Buffers) (j : ℕ)
    → ((split_warp_thread (suc n) idx b).dst j ≡ merged_dst (owns idx j) b j)
      × ((split_warp_thread (suc n) idx b).src j ≡ merged_src (owns idx j) b j)
unfolding split_warp_thread
thread-at zero idx b j = step-at idx b j
thread-at (suc n) idx b j =
    ground (arith, thread-at n idx (split_warp_step idx b) j, step-at idx b j)

run-at :
    (n block_dim : ℕ) (ts : List Thread) (b : Buffers) (j : ℕ)
    → ((split_warp_copy_kernel block_dim ts (suc n) b).dst j ≡ merged_dst (hit block_dim ts j) b j)
      × ((split_warp_copy_kernel block_dim ts (suc n) b).src j
          ≡ merged_src (hit block_dim ts j) b j)
unfolding split_warp_copy_kernel
run-at n d [] b j = ground arith
run-at n d (t ∷ ts) b j = ground (
  arith,
  run-at n d ts (split_warp_thread (suc n) (global_index d t) b) j,
  thread-at n (global_index d t) b j,
)

module _ {grid block : ℕ} {ts : List Thread} (s : IsSchedule grid block ts)
    (small : grid * block ≤ u32_mod) where
  -- With at least one round, in any order of at most 2^32 threads, the odd warps of the grid have
  -- copied to `dst` and the even ones to `src`; all other words are as before.
  pub split_warp_copy_kernel_lem :
      (n : ℕ) (b : Buffers) (j : ℕ)
      → let b' = split_warp_copy_kernel block ts (suc n) b in
        let inside = ltb (j / 4) (grid * block) in
        (b'.dst j ≡ (if inside && is_odd_warp (j / 4) then b.src j else b.dst j))
        × (b'.src j ≡ (if inside && not (is_odd_warp (j / 4)) then b.dst j else b.src j))
  split_warp_copy_kernel_lem n b j =
      ground (arith, any-index s small (j / 4), run-at n block ts b j)

  memclear_thread-at :
      (clear_odd : Bool) (idx : ℕ) (m : Memory) (j : ℕ)
      → memclear_thread clear_odd idx m j
        ≡ (if owns idx j && (if clear_odd then odd j else not (odd j)) then 0 else m j)
  unfolding memclear_thread store
  memclear_thread-at clear_odd idx m j = rw (element_of_lem idx) (ground arith)

  memclear-run :
      (clear_odd : Bool) (us : List Thread) (m : Memory) (j : ℕ)
      → memclear_kernel block us clear_odd m j
        ≡ (if hit block us j && (if clear_odd then odd j else not (odd j)) then 0 else m j)
  unfolding memclear_kernel
  memclear-run clear_odd [] m j = refl
  memclear-run clear_odd (t ∷ us) m j = ground (
    arith,
    memclear-run clear_odd us (memclear_thread clear_odd (global_index block t) m) j,
    memclear_thread-at clear_odd (global_index block t) m j,
  )

  -- In any order of at most 2^32 threads, the clear sets just the words of the odd (or of the even)
  -- warps of the grid to zero.
  pub memclear_kernel_lem :
      (clear_odd : Bool) (m : Memory) (j : ℕ)
      → memclear_kernel block ts clear_odd m j ≡ (
          if ltb (j / 4) (grid * block)
            && (if clear_odd then is_odd_warp (j / 4) else not (is_odd_warp (j / 4)))
          then 0
          else m j)
  memclear_kernel_lem clear_odd m j = rw (memclear-run clear_odd ts m j, any-index s small (j / 4))
