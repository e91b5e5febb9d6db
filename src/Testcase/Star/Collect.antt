-- ===== src/Testcase/Star/Collect.antt =====
-- The inner loop of the helpers: which peers it reaches, and what the two vectors then point to.
use nvbandwidth.Prelude.{
  ℕ, zero, suc, ◌+◌, ◌≡◌, ◌≤◌, ◌<◌, refl, sym, ◌∙◌, Bool, not, ◌&&◌, ◌||◌, some, List, [], ◌∷◌,
  ◌++◌, map, get_elem?, ◌==◌, if◌then◌else◌, arith, Bool-cases, inl, inr,
}
use nvbandwidth.Buffers.{Buffer, Heap, allocate, lookup_all}
use nvbandwidth.Buffers.Owned.{IsFresh, Owns, Owns-nothing, Owns-push_src, mem}
use nvbandwidth.Buffers.Measured.{IsRestored, lookup_all-allocate, lookup_all-push, lookup_all-snoc}
use nvbandwidth.Testcase.{indices, for_all}
use nvbandwidth.Testcase.Host.{device_buffer}
use nvbandwidth.Testcase.Star.{Gathered, collect_step}
use nvbandwidth.Testcase.Star.Shared.{Owns-restored, lookup_all-restored, discard_lem}

-- The devices of the list that the device has peer access to.
abbrev pub reached : (access : ℕ → ℕ → Bool) (device_id : ℕ) → List ℕ → List ℕ
reached access i [] = []
reached access i (j ∷ js) =
    (if not (j == i) && access i j then j ∷ [] else []) ++ reached access i js

-- Each device has its shared buffer.
abbrev pub AreShared : (device_count size : ℕ) → List ℕ → Heap → Type 0
AreShared n size shared h =
    (j : ℕ)
    → j < n
    → (q : ℕ) × (get_elem? shared j ≡ some q) × (h.object q ≡ some (device_buffer size j))

-- The vectors after the peers `xs`.
pub record Collects (h1 : Heap) (size device_id : ℕ) (g : Gathered) (xs : List ℕ) : Type 0 where
  pub owns : Owns h1 g.heap g.own []
  pub own_points : lookup_all g.own g.heap ≡ some (map (λ (j : ℕ). device_buffer size device_id) xs)
  pub other_points : lookup_all g.others g.heap ≡ some (map (device_buffer size) xs)

pub Collects-nothing :
    (h1 : Heap) (size i : ℕ) (h : Heap)
    → IsFresh h1
    → IsRestored h1 h
    → Collects h1 size i (record { heap = h; own = []; others = [] }) []
unfolding lookup_all
Collects-nothing h1 size i h f r = record {
  owns = Owns-restored h1 h1 h [] [] (Owns-nothing h1 f) r;
  own_points = refl;
  other_points = refl;
}

kept :
    (h1 h : Heap) (own : List ℕ) (q : ℕ) {b : Buffer}
    → Owns h1 h own []
    → h1.object q ≡ some b
    → h.object q ≡ some b
kept h1 h own q o e = elim (Bool-cases (mem q own || mem q [])) [
  | inl m ↦ absurd (ground (arith, o.new q m))
  | inr m ↦ o.same q m ∙ e
]

map-snoc : (f : ℕ → Buffer) (xs : List ℕ) (x : ℕ) → map f (xs ++ x ∷ []) ≡ map f xs ++ f x ∷ []
map-snoc f [] x = refl
map-snoc f (y ∷ xs) x = rw (map-snoc f xs x)

append_nil : (xs : List ℕ) → xs ++ [] ≡ xs
append_nil [] = refl
append_nil (x ∷ xs) = rw (append_nil xs)

append_assoc : (xs ys zs : List ℕ) → (xs ++ ys) ++ zs ≡ xs ++ (ys ++ zs)
append_assoc [] ys zs = refl
append_assoc (x ∷ xs) ys zs = rw (append_assoc xs ys zs)

Collects-push :
    (h1 : Heap) (size i j q : ℕ) (g : Gathered) (xs : List ℕ)
    → IsFresh h1
    → Collects h1 size i g xs
    → h1.object q ≡ some (device_buffer size j)
    → let g' : Gathered = record {
      heap = allocate (device_buffer size i) g.heap;
      own = g.own ++ g.heap.next ∷ [];
      others = g.others ++ q ∷ [];
    } in
      Collects h1 size i g' (xs ++ j ∷ [])
Collects-push h1 size i j q g xs f c e =
    let b = device_buffer size i in
    let pushed = Owns-push_src h1 g.heap b g.own [] f c.owns in
    record {
      owns = pushed;
      own_points =
          rw (map-snoc (λ (k : ℕ). device_buffer size i) xs j)
            (lookup_all-push g.heap b g.own c.owns.fresh c.own_points);
      other_points = rw (map-snoc (device_buffer size) xs j) (
          lookup_all-snoc (allocate b g.heap) g.others q (device_buffer size j)
            (lookup_all-allocate g.heap b g.others c.owns.fresh c.other_points)
            (kept h1 (allocate b g.heap) (g.own ++ g.heap.next ∷ []) q pushed e));
    }

Collects-restored :
    (h1 : Heap) (size i : ℕ) (g : Gathered) (xs : List ℕ) (h' : Heap)
    → Collects h1 size i g xs
    → IsRestored g.heap h'
    → Collects h1 size i (record g { heap = h' }) xs
Collects-restored h1 size i g xs h' c r = record {
  owns = Owns-restored h1 g.heap h' g.own [] c.owns r;
  own_points = lookup_all-restored g.heap h' g.own r ∙ c.own_points;
  other_points = lookup_all-restored g.heap h' g.others r ∙ c.other_points;
}

module _ (access : ℕ → ℕ → Bool) (size i n : ℕ) (shared : List ℕ) (h1 : Heap) where
  collect_step_lem :
      (j : ℕ) (g : Gathered) (xs : List ℕ)
      → j < n
      → IsFresh h1
      → AreShared n size shared h1
      → Collects h1 size i g xs
      → (g' : Gathered) × (collect_step access size shared i j g ≡ some g')
        × Collects h1 size i g' (xs ++ (if not (j == i) && access i j then j ∷ [] else []))
  unfolding collect_step
  collect_step_lem j g xs b f sh c = elim (Bool-cases (j == i)) [
    | inl e ↦ rw (e, append_nil xs) (g, refl, c)
    | inr e ↦ elim (Bool-cases (access i j)) [
      | inl a ↦
          let (q, e1, e2) = sh j b in
          rw (e, a, e1)
            (
              record {
                heap = allocate (device_buffer size i) g.heap;
                own = g.own ++ g.heap.next ∷ [];
                others = g.others ++ q ∷ [];
              },
              refl,
              Collects-push h1 size i j q g xs f c e2,
            )
      | inr a ↦
          let (h', e1, r) = discard_lem g.heap (device_buffer size i) c.owns.fresh in
          rw (e, a, e1, append_nil xs)
            (record g { heap = h' }, refl, Collects-restored h1 size i g xs h' c r)
    ]
  ]

  pub collect_lem :
      (from rounds : ℕ) (g : Gathered) (xs : List ℕ)
      → from + rounds ≤ n
      → IsFresh h1
      → AreShared n size shared h1
      → Collects h1 size i g xs
      → (g' : Gathered) × (for_all (collect_step access size shared i) (indices from rounds) g
          ≡ some g')
        × Collects h1 size i g' (xs ++ reached access i (indices from rounds))
  unfolding for_all
  collect_lem from zero g xs b f sh c = (g, refl, rw (append_nil xs) c)
  collect_lem from (suc k) g xs b f sh c =
      let new = if not (from == i) && access i from then from ∷ [] else [] in
      let (g1, e1, c1) = collect_step_lem from g xs (omega arith) f sh c in
      let (g2, e2, c2) = collect_lem (suc from) k g1 (xs ++ new) (omega arith) f sh c1 in
      (g2, rw e1 e2, rw (sym (append_assoc xs new (reached access i (indices (suc from) k)))) c2)
