-- ===== src/Chase/Path.antt =====
-- Where the pointers of the nodes lead.
use nvbandwidth.Prelude.{
  ℕ, zero, suc, ◌+◌, ◌*◌, ◌/◌, ◌%◌, ◌≤◌, ◌<◌, ◌≡◌, sym, ap, ◌∙◌, arith, ◌==◌, ltb, leb, ◌&&◌,
  if◌then◌else◌, Bool-cases, inl, inr, ==_iff, true, false, ◌↔◌,
}
use native.Mathlib.Nat.{mod-add-mod, mod-lt, mod-eq_of_lt, add-mul-mod_self_left, mod-add-div}
use nvbandwidth.Config.{u64_mod}
use nvbandwidth.Chase.{
  Nodes, put, latency_node, init_nodes, latency_helper, init_host_ptr_chase_nodes,
}

-- `p = p->next`, so many times.
unfoldable pub follow : ℕ → Nodes → ℕ → ℕ
follow zero m p = p
follow (suc k) m p = follow k m (m p)

-- The node of index `i`.
abbrev pub node_at : (node base i : ℕ) → ℕ
node_at node base i = base + i * node

node_at-injective :
    (node base i j : ℕ) → 0 < node → node_at node base i ≡ node_at node base j → i ≡ j
node_at-injective node base i j h e = grind arith

node_at-== :
    (node base i j : ℕ) → 0 < node → (node_at node base i == node_at node base j) ≡ (i == j)
node_at-== node base i j h = elim (Bool-cases (i == j)) [
  | inl e ↦ let same : i ≡ j = (==_iff i j).0 e in rw (e, same) (ground arith)
  | inr e ↦ ground (arith, node_at-injective node base i j)
]

module _ (node stride base n : ℕ) (pos : 0 < node) where
  init_nodes_lem :
      (i k s : ℕ) (m : Nodes)
      → init_nodes node stride base n i k m (node_at node base s) ≡ (
          if leb i s && ltb s (i + k)
          then base + (s + stride) % u64_mod % n * node
          else m (node_at node base s))
  unfolding init_nodes
  init_nodes_lem i zero s m = ground arith
  init_nodes_lem i (suc k) s m =
      rw
        (
          init_nodes_lem (suc i) k s
              (put (base + i * node) (base + (i + stride) % u64_mod % n * node) m),
          node_at-== node base s i pos,
        )
        (elim (Bool-cases (s == i)) [
          | inl e ↦ let same : s ≡ i = (==_iff s i).0 e in rw (e, same) (ground arith)
          | inr e ↦ rw e (ground arith)
        ])

-- The nodes form a ring in which each leads to the one `stride` places on.
abbrev pub IsRing : (node stride base n : ℕ) → Nodes → Type 0
IsRing node stride base n m =
    (s : ℕ) → s < n → m (node_at node base s) ≡ node_at node base ((s + stride) % n)

pub init_nodes-IsRing :
    (node stride base n : ℕ) (m : Nodes)
    → 0 < node
    → n + stride ≤ u64_mod
    → IsRing node stride base n (init_nodes node stride base n 0 n m)
init_nodes-IsRing node stride base n m pos fits s h =
    let inside : (leb 0 s && ltb s (0 + n)) ≡ true = ground arith in
    let small : (s + stride) % u64_mod ≡ s + stride = omega arith in
    init_nodes_lem node stride base n pos 0 n s m ∙ rw (inside, small)

-- In a ring the pointers never leave the buffer.
pub follow-IsRing :
    (node stride base n k s : ℕ) (m : Nodes)
    → IsRing node stride base n m
    → s < n
    → follow k m (node_at node base s) ≡ node_at node base ((s + k * stride) % n)
unfolding follow
follow-IsRing node stride base n zero s m ring h =
    ap (node_at node base) (sym (mod-eq_of_lt h) ∙ ap (λ (x : ℕ). x % n) (omega arith))
follow-IsRing node stride base n (suc k) s m ring h =
    let below : (s + stride) % n < n = mod-lt (s + stride) (omega arith) in
    rw (ring s h) (
      follow-IsRing node stride base n k ((s + stride) % n) m ring below
      ∙ ap (node_at node base)
          (mod-add-mod (s + stride) n (k * stride) ∙ ap (λ (x : ℕ). x % n) (grind arith)))

-- The ring in a buffer of `size` bytes at the address `base`.
abbrev pub HasRing : (node stride base size : ℕ) → Nodes → Type 0
HasRing node stride base size m = IsRing node stride base (size / node) m

pub latency_helper-HasRing :
    (stride base size : ℕ) (m : Nodes)
    → size / latency_node + stride ≤ u64_mod
    → HasRing latency_node stride base size (latency_helper stride base size m)
unfolding latency_helper
latency_helper-HasRing stride base size m fits =
    init_nodes-IsRing latency_node stride base (size / latency_node) m (omega arith) fits

pub init_host_ptr_chase_nodes-HasRing :
    (node stride base size : ℕ) (m : Nodes)
    → 0 < node
    → size / node + stride ≤ u64_mod
    → HasRing node stride base size (init_host_ptr_chase_nodes node stride base size m)
unfolding init_host_ptr_chase_nodes
init_host_ptr_chase_nodes-HasRing node stride base size m pos fits s h =
    let some_node : (size / node == 0) ≡ false = ground arith in
    rw some_node (init_nodes-IsRing node stride base (size / node) m pos fits s h)

-- After `latencyHelper` on a buffer with at least one node, the pointers followed k times from the
-- start of the buffer lead to the node of index k * stride modulo the number of nodes. The number of
-- nodes and the stride together are at most 2^64.
pub follow-latency_helper :
    (stride base size k : ℕ) (m : Nodes)
    → 0 < size / latency_node
    → size / latency_node + stride ≤ u64_mod
    → follow k (latency_helper stride base size m) base
      ≡ node_at latency_node base (k * stride % (size / latency_node))
follow-latency_helper stride base size k m pos fits =
    ap (follow k (latency_helper stride base size m)) (omega arith)
    ∙ follow-IsRing latency_node stride base (size / latency_node) k 0
        (latency_helper stride base size m) (latency_helper-HasRing stride base size m fits) pos
    ∙ ap (λ (x : ℕ). node_at latency_node base (x % (size / latency_node))) (omega arith)

mul-mod-mul : (j q s : ℕ) → 0 < q → 0 < s → j * s % (q * s) ≡ j % q * s
mul-mod-mul j q s p h =
    let below : j % q < q = mod-lt j p in
    ap (λ (x : ℕ). x % (q * s))
      (ap (λ (x : ℕ). x * s) (sym (mod-add-div j q)) ∙ spread (j % q) (j / q))
    ∙ add-mul-mod_self_left (j % q * s) (q * s) (j / q)
    ∙ mod-eq_of_lt (scaled (j % q) below)
  where
    spread : (a b : ℕ) → (a + q * b) * s ≡ a * s + q * s * b
    spread a b = grind arith

    scaled : (a : ℕ) → a < q → a * s < q * s
    scaled a g = grind arith

-- Where the stride divides the number of nodes, two numbers of steps lead to the same node exactly when
-- they agree modulo the quotient: a chase touches just that many nodes.
pub follow-period_iff :
    (stride base size q j k : ℕ) (m : Nodes)
    → 0 < q
    → 0 < stride
    → size / latency_node ≡ q * stride
    → size / latency_node + stride ≤ u64_mod
    → (follow j (latency_helper stride base size m) base
        ≡ follow k (latency_helper stride base size m) base)
      ↔ (j % q ≡ k % q)
follow-period_iff stride base size q j k m qpos spos e fits =
    let pos : 0 < size / latency_node = rw e (grind arith) in
    let at = λ (i : ℕ).
      follow-latency_helper stride base size i m pos fits
      ∙ ap (λ (n : ℕ). node_at latency_node base (i * stride % n)) e
      ∙ ap (node_at latency_node base) (mul-mod-mul i q stride qpos spos) in
    (
      λ h. cancel (j % q) (k % q) (
          node_at-injective latency_node base (j % q * stride) (k % q * stride) (omega arith)
            (sym (at j) ∙ h ∙ at k)),
      λ h. at j ∙ ap (λ (x : ℕ). node_at latency_node base (x * stride)) h ∙ sym (at k),
    )
  where
    cancel : (a b : ℕ) → a * stride ≡ b * stride → a ≡ b
    cancel a b h = grind arith
