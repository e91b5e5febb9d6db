-- ===== src/Kernel/Grid.antt =====
-- A kernel launch: the threads of a grid run one after another, in any order. Each thread of the
-- kernels at hand runs to its end before the next one.
use nvbandwidth.Prelude.{
  ℕ, zero, suc, ◌+◌, ◌*◌, ◌/◌, ◌%◌, ◌≤◌, ◌<◌, ◌≡◌, refl, Bool, true, false, ◌&&◌, ◌||◌, List, [],
  ◌∷◌, ◌++◌, arith, All, All-append, any, run_all, ◌==◌, ltb, if◌then◌else◌, Bool-cases, inl, inr,
}
use nvbandwidth.Config.{u32_mod}

-- `blockIdx.x` and `threadIdx.x`.
pub record Thread : Type 0 where
  pub block : ℕ
  pub lane : ℕ

-- `blockIdx.x * blockDim.x + threadIdx.x`, in 32-bit arithmetic.
abbrev pub global_index : ℕ → Thread → ℕ
global_index block_dim t = (t.block * block_dim + t.lane) % u32_mod

abbrev is_thread : ℕ → ℕ → Thread → Bool
is_thread b i t = (t.block == b) && (t.lane == i)

abbrev pub InGrid : ℕ → ℕ → Thread → Type 0
InGrid grid_dim block_dim t = (t.block < grid_dim) × (t.lane < block_dim)

-- An order in which the threads of a launch run: those of the grid, each at least once.
pub record IsSchedule (grid_dim block_dim : ℕ) (ts : List Thread) : Type 0 where
  pub inside : All (InGrid grid_dim block_dim) ts
  pub complete : (b i : ℕ) → b < grid_dim → i < block_dim → any (is_thread b i) ts ≡ true

any_mono {ℓ} :
    {A : Type ℓ} (p q : A → Bool) (xs : List A)
    → ((x : A) → p x ≡ true → q x ≡ true)
    → any p xs ≡ true
    → any q xs ≡ true
any_mono p q [] f h = h
any_mono p q (x ∷ xs) f h = ground (arith, f x, any_mono p q xs f)

any-false {ℓ κ} :
    {A : Type ℓ} (P : A → Type κ) (q : A → Bool) (xs : List A)
    → ((x : A) → P x → q x ≡ false)
    → All P xs
    → any q xs ≡ false
any-false P q [] f h = refl
any-false P q (x ∷ xs) f h = ground (arith, f x h.0, any-false P q xs f h.1)

module _ {ℓ} {W : Type ℓ} (P : Thread → Type 0) (owns : Thread → ℕ → Bool) (v : ℕ → W)
    (act : Thread → (ℕ → W) → ℕ → W)
    (effect : (t : Thread) (m : ℕ → W) (j : ℕ)
      → P t
      → act t m j ≡ (if owns t j then v j else m j)) where
  -- Threads that write common values: a place has its value as soon as one owner has run.
  pub run_all_lem :
      (ts : List Thread) (m : ℕ → W) (j : ℕ)
      → All P ts
      → run_all act ts m j ≡ (if any (λ t. owns t j) ts then v j else m j)
  run_all_lem [] m j h = refl
  run_all_lem (t ∷ ts) m j h =
      rw (run_all_lem ts (act t m) j h.1, effect t m j h.0)
        (merge (owns t j) (any (λ t. owns t j) ts))
    where
      merge :
          (a b : Bool) → (if b then v j else if a then v j else m j) ≡ (if a || b then v j else m j)
      merge true true = refl
      merge true false = refl
      merge false true = refl
      merge false false = refl

-- A thread of the grid that owns a place is enough, in any schedule.
pub any-of_thread :
    {grid_dim block_dim : ℕ} {ts : List Thread} (q : Thread → Bool)
    → IsSchedule grid_dim block_dim ts
    → (t : Thread) → InGrid grid_dim block_dim t
    → q t ≡ true
    → any q ts ≡ true
any-of_thread {ts} q s t h e =
    any_mono (is_thread t.block t.lane) q ts (λ u k. ground arith)
      (s.complete t.block t.lane h.0 h.1)

-- A place that no thread of the grid owns is left alone.
pub any-of_none :
    {grid_dim block_dim : ℕ} {ts : List Thread} (q : Thread → Bool)
    → IsSchedule grid_dim block_dim ts
    → ((t : Thread) → InGrid grid_dim block_dim t → q t ≡ false)
    → any q ts ≡ false
any-of_none {grid_dim} {block_dim} {ts} q s f =
    any-false (InGrid grid_dim block_dim) q ts f s.inside

-- The thread that has the index `n`.
abbrev pub thread_of : ℕ → ℕ → Thread
thread_of block_dim n = record { block = n / block_dim; lane = n % block_dim }

block-mul-lt : (g b i n : ℕ) → b < g → i < n → b * n + i < g * n
block-mul-lt g b i n p q = grind arith

div-lt : (g n k : ℕ) → k < g * n → (0 < n) × (k / n < g)
div-lt g zero k h = absurd (grind arith)
div-lt g (suc n) k h = (omega arith, grind arith)

-- Below 2^32 threads no index wraps, and every index below their number is that of one thread.
pub global_index-eq :
    (grid_dim block_dim : ℕ) (t : Thread)
    → grid_dim * block_dim ≤ u32_mod
    → InGrid grid_dim block_dim t
    → (global_index block_dim t ≡ t.block * block_dim + t.lane)
      × (global_index block_dim t < grid_dim * block_dim)
global_index-eq g n t small h = let below = block-mul-lt g t.block t.lane n h.0 h.1 in omega arith

pub thread_of-InGrid :
    (grid_dim block_dim n : ℕ)
    → n < grid_dim * block_dim
    → InGrid grid_dim block_dim (thread_of block_dim n)
thread_of-InGrid g b n h = let p = div-lt g b n h in (p.1, omega arith)

pub global_index-thread_of :
    (grid_dim block_dim n : ℕ)
    → grid_dim * block_dim ≤ u32_mod
    → n < grid_dim * block_dim
    → global_index block_dim (thread_of block_dim n) ≡ n
global_index-thread_of g b n small h = omega arith

-- All the threads of a grid, one block after another.
lanes : ℕ → ℕ → List Thread
lanes b zero = []
lanes b (suc i) = record { block = b; lane = i } ∷ lanes b i

unfoldable pub all_threads : ℕ → ℕ → List Thread
unfolding lanes
all_threads zero n = []
all_threads (suc g) n = lanes g n ++ all_threads g n

any-append {ℓ} :
    {A : Type ℓ} (p : A → Bool) (xs ys : List A) → any p (xs ++ ys) ≡ (any p xs || any p ys)
any-append p [] ys = refl
any-append p (x ∷ xs) ys = ground (arith, any-append p xs ys)

any-lanes : (b n i : ℕ) → i < n → any (is_thread b i) (lanes b n) ≡ true
unfolding lanes
any-lanes b zero i h = elim h [ ]
any-lanes b (suc n) i h = ground (arith, any-lanes b n i)

any-all_threads : (g n b i : ℕ) → b < g → i < n → any (is_thread b i) (all_threads g n) ≡ true
unfolding all_threads
any-all_threads zero n b i h k = elim h [ ]
any-all_threads (suc g) n b i h k =
    rw (any-append (is_thread b i) (lanes g n) (all_threads g n))
      (ground (arith, any-all_threads g n b i, any-lanes b n i k))

lanes-InGrid : (g b m n : ℕ) → b < g → n ≤ m → All (InGrid g m) (lanes b n)
unfolding lanes
lanes-InGrid g b m zero h k = tt
lanes-InGrid g b m (suc n) h k = ((h, omega arith), lanes-InGrid g b m n h (omega arith))

all_threads-InGrid : (k g n : ℕ) → g ≤ k → All (InGrid k n) (all_threads g n)
unfolding all_threads
all_threads-InGrid k zero n h = tt
all_threads-InGrid k (suc g) n h =
    All-append (InGrid k n) (lanes g n) (all_threads g n) (lanes-InGrid k g n n h (omega arith))
      (all_threads-InGrid k g n (omega arith))

pub all_threads-IsSchedule : (g n : ℕ) → IsSchedule g n (all_threads g n)
all_threads-IsSchedule g n = record {
  inside = all_threads-InGrid g g n (omega arith);
  complete = any-all_threads g n;
}

-- In any schedule, the indices of the threads are just the numbers below their number.
pub any-index :
    {grid_dim block_dim : ℕ} {ts : List Thread}
    → IsSchedule grid_dim block_dim ts
    → grid_dim * block_dim ≤ u32_mod
    → (e : ℕ) → any (λ t. e == global_index block_dim t) ts ≡ ltb e (grid_dim * block_dim)
any-index {grid_dim} {block_dim} {ts} s small e = elim (Bool-cases (ltb e (grid_dim * block_dim))) [
  | inl h ↦ rw h (
      any-of_thread (λ t. e == global_index block_dim t) s (thread_of block_dim e)
        (thread_of-InGrid grid_dim block_dim e (ground arith))
        (ground (arith, global_index-thread_of grid_dim block_dim e small)))
  | inr h ↦ rw h (
      any-of_none (λ t. e == global_index block_dim t) s
        (λ t k. ground (arith, global_index-eq grid_dim block_dim t small k)))
]
