-- ===== src/Buffers/Measured.antt =====
-- What is measured with buffers of its own: the copies that were asked for.
use nvbandwidth.Prelude.{
  Option, none, ◌>>=◌, ℕ, ◌≡◌, ◌≤◌, refl, ap, arith, true, some, bind-some, some-injective, List,
  [], ◌∷◌, ◌++◌, map,
}
use nvbandwidth.Buffers.{
  Outcome, measures, exception, failed_assert, returned_values, Buffer, Transfer, MemcpyOperation,
  Heap, allocate, release_all, lookup_all, Pushed, push_pair, push_pairs, pairs_of, same_sizes,
  do_memcpy_core, with_buffers, without_copy,
}
use nvbandwidth.Buffers.Owned.{
  IsFresh, Owns, Owns-nothing, Owns-push_src, Owns-push_dst, release_all-src, release_all-dst,
}

allocate-keeps :
    (h : Heap) (b c : Buffer) (p : ℕ)
    → IsFresh h
    → h.object p ≡ some c
    → (allocate b h).object p ≡ some c
unfolding allocate
allocate-keeps h b c p f e = ground (arith, f p)

pub lookup_all-allocate :
    (h : Heap) (b : Buffer) (ps : List ℕ) {bs : List Buffer}
    → IsFresh h
    → lookup_all ps h ≡ some bs
    → lookup_all ps (allocate b h) ≡ some bs
unfolding lookup_all
lookup_all-allocate h b [] f e = e
lookup_all-allocate h b (p ∷ ps) f e =
    let (c, e1, k) = bind-some (h.object p) _ e in
    let (cs, e2, l) = bind-some (lookup_all ps h) _ k in
    rw (allocate-keeps h b c p f e1, lookup_all-allocate h b ps f e2) l

pub lookup_all-snoc :
    (h : Heap) (ps : List ℕ) (p : ℕ) (b : Buffer) {bs : List Buffer}
    → lookup_all ps h ≡ some bs
    → h.object p ≡ some b
    → lookup_all (ps ++ p ∷ []) h ≡ some (bs ++ b ∷ [])
unfolding lookup_all
lookup_all-snoc h [] p b e k =
    rw k (ap (λ (l : List Buffer). some (l ++ b ∷ [])) (some-injective e))
lookup_all-snoc h (q ∷ ps) p b e k =
    let (c, e1, r) = bind-some (h.object q) _ e in
    let (cs, e2, l) = bind-some (lookup_all ps h) _ r in
    rw (e1, lookup_all-snoc h ps p b e2 k)
      (ap (λ (l : List Buffer). some (l ++ b ∷ [])) (some-injective l))

allocate-newest : (h : Heap) (b : Buffer) → (allocate b h).object h.next ≡ some b
unfolding allocate
allocate-newest h b = ground arith

-- A new object is the last of the vector that its address is pushed to.
pub lookup_all-push :
    (h : Heap) (b : Buffer) (ps : List ℕ) {bs : List Buffer}
    → IsFresh h
    → lookup_all ps h ≡ some bs
    → lookup_all (ps ++ h.next ∷ []) (allocate b h) ≡ some (bs ++ b ∷ [])
lookup_all-push h b ps f e =
    lookup_all-snoc (allocate b h) ps h.next b (lookup_all-allocate h b ps f e)
      (allocate-newest h b)

abbrev copy_sources : List Transfer → List Buffer
copy_sources = map (λ (t : Transfer). t.0)

abbrev copy_targets : List Transfer → List Buffer
copy_targets = map (λ (t : Transfer). t.1)

no-pointers : (h : Heap) → lookup_all [] h ≡ some []
unfolding lookup_all
no-pointers h = refl

-- What the vectors of a test case point to.
record Holds (h0 : Heap) (s : Pushed) (xs ys : List Buffer) : Type 0 where
  owns : Owns h0 s.heap s.src_buffers s.dst_buffers
  points_src : lookup_all s.src_buffers s.heap ≡ some xs
  points_dst : lookup_all s.dst_buffers s.heap ≡ some ys

Holds-push_pair :
    (h0 : Heap) (t : Transfer) (s : Pushed) (xs ys : List Buffer)
    → IsFresh h0
    → Holds h0 s xs ys
    → Holds h0 (push_pair t s) (xs ++ t.0 ∷ []) (ys ++ t.1 ∷ [])
unfolding push_pair
Holds-push_pair h0 t s xs ys f o =
    let first = Owns-push_src h0 s.heap t.0 s.src_buffers s.dst_buffers f o.owns in
    let h1 = allocate t.0 s.heap in
    record {
      owns = Owns-push_dst h0 h1 t.1 (s.src_buffers ++ s.heap.next ∷ []) s.dst_buffers f first;
      points_src =
          lookup_all-allocate h1 t.1 (s.src_buffers ++ s.heap.next ∷ []) first.fresh
            (lookup_all-push s.heap t.0 s.src_buffers o.owns.fresh o.points_src);
      points_dst =
          lookup_all-push h1 t.1 s.dst_buffers first.fresh
            (lookup_all-allocate s.heap t.0 s.dst_buffers o.owns.fresh o.points_dst);
    }

snoc-append {ℓ} :
    {A : Type ℓ} (xs : List A) (x : A) (ys : List A) → xs ++ x ∷ ys ≡ (xs ++ x ∷ []) ++ ys
snoc-append [] x ys = refl
snoc-append (y ∷ xs) x ys = rw (snoc-append xs x ys)

append_nil {ℓ} : {A : Type ℓ} (xs : List A) → xs ++ [] ≡ xs
append_nil [] = refl
append_nil (x ∷ xs) = rw (append_nil xs)

Holds-push_pairs :
    (h0 : Heap) (ts : List Transfer) (s : Pushed) (xs ys : List Buffer)
    → IsFresh h0
    → Holds h0 s xs ys
    → Holds h0 (push_pairs ts s) (xs ++ copy_sources ts) (ys ++ copy_targets ts)
unfolding push_pairs
Holds-push_pairs h0 [] s xs ys f o = rw (append_nil xs, append_nil ys) o
Holds-push_pairs h0 (t ∷ ts) s xs ys f o =
    rw (snoc-append xs t.0 (copy_sources ts), snoc-append ys t.1 (copy_targets ts))
      (Holds-push_pairs h0 ts (push_pair t s) (xs ++ t.0 ∷ []) (ys ++ t.1 ∷ []) f
        (Holds-push_pair h0 t s xs ys f o))

pairs_of-split : (ts : List Transfer) → pairs_of (copy_sources ts) (copy_targets ts) ≡ ts
unfolding pairs_of
pairs_of-split [] = refl
pairs_of-split (t ∷ ts) = rw (pairs_of-split ts)

-- The heap `h` has the objects of `h0` and no others.
pub record IsRestored (h0 h : Heap) : Type 0 where
  pub fresh : IsFresh h
  pub grown : h0.next ≤ h.next
  pub same : (p : ℕ) → h.object p ≡ h0.object p

made-and-released :
    (ts : List Transfer) (h : Heap)
    → IsFresh h
    → let s = push_pairs ts (record { heap = h; src_buffers = []; dst_buffers = [] }) in
      Holds h s (copy_sources ts) (copy_targets ts)
      × ((h1 : Heap) × (h2 : Heap) × (release_all s.src_buffers s.heap ≡ some h1)
          × (release_all s.dst_buffers h1 ≡ some h2)
          × IsRestored h h2)
made-and-released ts h f =
    let start : Pushed = record { heap = h; src_buffers = []; dst_buffers = [] } in
    let s = push_pairs ts start in
    let nothing : Holds h start [] [] = record {
      owns = Owns-nothing h f;
      points_src = no-pointers h;
      points_dst = no-pointers h;
    } in
    let o = Holds-push_pairs h ts start [] [] f nothing in
    let (h1, e1, o1) = release_all-src h s.heap s.src_buffers s.dst_buffers o.owns in
    let (h2, e2, o2) = release_all-dst h h1 s.dst_buffers o1 in
    (o, (h1, h2, e1, e2, record { fresh = o2.fresh; grown = o2.grown; same = λ p. o2.same p refl }))

-- The values of a measurement that returns, with the heap.
abbrev pub ended {ℓ} : {A : Type ℓ} → Outcome A → Heap → Option (List A × Heap)
ended (measures vs) h = some (vs, h)
ended exception h = none
ended failed_assert h = none

-- From a heap whose next addresses are unused, a measurement of copies between buffers of equal
-- sizes, which it makes for itself, uses and releases only what is there, measures just the copies
-- that were asked for, in their order, and ends as their measurement does: if that returns, with
-- its values and the heap restored, and otherwise by leaving the test case.
pub with_buffers_lem {ℓ} :
    {A : Type ℓ} (core : MemcpyOperation → List Transfer → Outcome A) (op : MemcpyOperation)
    (ts : List Transfer) (h : Heap)
    → IsFresh h
    → same_sizes ts ≡ true
    → (h' : Heap) × (with_buffers core op ts h ≡ ended (core op ts) h') × IsRestored h h'
unfolding with_buffers do_memcpy_core
with_buffers_lem core op ts h f equal =
    let (o, (h1, h2, e1, e2, restored)) = made-and-released ts h f in
    let s = push_pairs ts (record { heap = h; src_buffers = []; dst_buffers = [] }) in
    (
      h2,
      rw (o.points_src, o.points_dst, pairs_of-split ts, equal)
          (released (core op ts) s.src_buffers s.dst_buffers s.heap h1 h2 e1 e2),
      restored,
    )
  where
    released :
        {A : Type ℓ} (out : Outcome A) (ps qs : List ℕ) (h h1 h2 : Heap)
        → release_all ps h ≡ some h1
        → release_all qs h1 ≡ some h2
        → (do
          vs ← returned_values out
          h' ← release_all ps h
          h'' ← release_all qs h'
          some (vs, h''))
          ≡ ended out h2
    released (measures vs) ps qs h h1 h2 e1 e2 = rw (e1, e2)
    released exception ps qs h h1 h2 e1 e2 = refl
    released failed_assert ps qs h h1 h2 e1 e2 = refl

pub without_copy_lem :
    (ts : List Transfer) (h : Heap)
    → IsFresh h
    → (h' : Heap) × (without_copy ts h ≡ some h') × IsRestored h h'
unfolding without_copy
without_copy_lem ts h f =
    let (o, (h1, h2, e1, e2, restored)) = made-and-released ts h f in (h2, rw (e1, e2), restored)
