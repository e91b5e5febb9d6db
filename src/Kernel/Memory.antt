-- ===== src/Kernel/Memory.antt =====
-- Global memory as the kernels of kernels.cu see it: a buffer is a function from 32-bit words. An
-- element of type CopyT has `w` words (1, 2, 4 or 8), and the load and the store of an element are
-- `smCopyLoad` and `smCopyStore`.
use nvbandwidth.Prelude.{
  ℕ, ◌+◌, ◌*◌, ◌/◌, ◌%◌, ◌≡◌, arith, fun_ext, Bool-cases, ◌==◌, ==_iff, if◌then◌else◌, inl, inr, ap,
}

abbrev pub Memory : Type 0
Memory = ℕ → ℕ

-- The words of element `e`.
unfoldable pub load : ℕ → Memory → ℕ → ℕ → ℕ
load w m e = λ k. m (e * w + k)

-- `m` with the words of element `e` replaced.
unfoldable pub store : ℕ → Memory → ℕ → (ℕ → ℕ) → Memory
store w m e v = λ j. if j / w == e then v (j % w) else m j

div-mod-eq : (w j e : ℕ) → j / w ≡ e → e * w + j % w ≡ j
div-mod-eq w j e h = rw (← h) (omega arith)

-- Copying one element replaces its words and no others.
pub store-load :
    (w : ℕ) (src dst : Memory) (e : ℕ)
    → store w dst e (load w src e) ≡ λ j. if j / w == e then src j else dst j
unfolding store load
store-load w src dst e = fun_ext λ j. elim (Bool-cases (j / w == e)) [
  | inl h ↦ rw h (ap src (div-mod-eq w j e ((==_iff _ _).0 h)))
  | inr h ↦ rw h
]
