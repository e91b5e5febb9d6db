-- ===== src/Kernel/Striding.antt =====
-- kernels.cu: `stridingMemcpyKernel`, in which a thread copies every `threads`-th element, twelve
-- loads and then twelve stores at a time. A pointer is its offset, in elements, from its buffer.
pub mod Pass
pub mod Whole
use nvbandwidth.Prelude.{
  ℕ, zero, suc, ◌+◌, ◌-◌, ◌*◌, ◌/◌, ◌%◌, ◌≤◌, ◌<◌, ◌≡◌, refl, List, [], ◌∷◌, arith, run_all, ◌==◌,
  ltb, ◌&&◌, if◌then◌else◌, fun_ext, ◌∙◌, Bool, true, false, Bool-cases, inl, inr, ap, lt→ltb,
  le→ltb,
}
use native.Mathlib.Decide.{ℕ_discrete}
use nvbandwidth.Kernel.Memory.{Memory, load, store, store-load}
use nvbandwidth.Kernel.Grid.{Thread, global_index}

-- `cdst`, `csrc`, and the destination buffer.
pub record Cursor : Type 0 where
  pub cdst : ℕ
  pub csrc : ℕ
  pub mem : Memory

-- pipe_0 to pipe_(n - 1).
pub load_pipe : (n w threads : ℕ) → Memory → ℕ → List (ℕ → ℕ)
load_pipe zero w threads src c = []
load_pipe (suc n) w threads src c = load w src c ∷ load_pipe n w threads src (c + threads)

pub store_pipe : (w threads : ℕ) → List (ℕ → ℕ) → Memory → ℕ → Memory
store_pipe w threads [] dst c = dst
store_pipe w threads (v ∷ vs) dst c = store_pipe w threads vs (store w dst c v) (c + threads)

-- A round of a loop that copies `n` elements.
pub copy_round : (n w threads : ℕ) → Memory → Cursor → Cursor
unfolding load_pipe store_pipe
copy_round n w threads src s = record {
  cdst = s.cdst + n * threads;
  csrc = s.csrc + n * threads;
  mem = store_pipe w threads (load_pipe n w threads src s.csrc) s.mem s.cdst;
}

-- `while (cdst < limit)`, on fuel.
pub copy_while : (fuel n w threads limit : ℕ) → Memory → Cursor → Cursor
unfolding copy_round
copy_while zero n w threads limit src s = s
copy_while (suc f) n w threads limit src s =
    let rest = copy_while f n w threads limit src (copy_round n w threads src s) in
    if ltb s.cdst limit then rest else s

-- One pass of a thread over its elements. `chunk + 1` rounds of fuel are enough for either loop.
pub copy_pass : (w threads chunk from : ℕ) → Memory → Memory → Memory
unfolding copy_while
copy_pass w threads chunk from src dst =
    let big_end = from + chunk / 12 * 12 * threads in
    let end = from + chunk * threads in
    let start : Cursor = record { cdst = from; csrc = from; mem = dst } in
    let s = copy_while (chunk + 1) 12 w threads big_end src start in
    (copy_while (chunk + 1) 1 w threads end src s).mem

pub striding_thread : (loop_count w threads chunk from : ℕ) → Memory → Memory → Memory
unfolding copy_pass
striding_thread zero w threads chunk from src dst = dst
striding_thread (suc n) w threads chunk from src dst =
    striding_thread n w threads chunk from src (copy_pass w threads chunk from src dst)

unfoldable pub striding_memcpy_kernel :
    (block_dim : ℕ)
    → List Thread
    → (threads loop_count w : ℕ) → Memory
    → (chunk : ℕ) → Memory
    → Memory
unfolding striding_thread
striding_memcpy_kernel block_dim ts threads loop_count w src chunk =
    run_all (λ t. striding_thread loop_count w threads chunk (global_index block_dim t) src) ts
