-- ===== src/Testcase/Chase/Scoped.antt =====
-- A block with a buffer of its own leaves the heap as it was, and a kept value is in its cell.
use nvbandwidth.Prelude.{
  ℕ, ◌≡◌, ◌<◌, refl, sym, ◌∙◌, arith, Bool, ◌&&◌, Option, some, none, List, [], ◌∷◌, ◌==◌, ==_self,
  if◌then◌else◌, Bool-cases, inl, inr,
}
use nvbandwidth.Buffers.{Buffer, Heap, allocate, release}
use nvbandwidth.Buffers.Owned.{IsFresh}
use nvbandwidth.Buffers.Measured.{IsRestored}
use nvbandwidth.Testcase.{Run}
use nvbandwidth.Testcase.Stored.{
  Fills, IsSound, IsRestored-self, IsRestored-trans, filled, store_all-IsSound,
}
use nvbandwidth.Testcase.Chase.{scoped, keep_value}

allocate-IsFresh : (b : Buffer) (h : Heap) → IsFresh h → IsFresh (allocate b h)
unfolding allocate
allocate-IsFresh b h f q g = ground (arith, f q)

-- What is allocated can be released, once the rest of the heap is as it was.
release-restores :
    (b : Buffer) (h h' : Heap)
    → IsFresh h
    → IsRestored (allocate b h) h'
    → (h'' : Heap) × (release h.next h' ≡ some h'') × IsRestored h h''
unfolding allocate release
release-restores b h h' f r =
    let live : h'.object h.next ≡ some b = r.same h.next ∙ ground (arith, ==_self h.next) in
    (
      record h' { object = λ q. if q == h.next then none else h'.object q },
      rw live,
      record {
        fresh = λ q g. ground (arith, r.fresh q);
        grown = omega (arith, r.grown);
        same = λ q. elim (Bool-cases (q == h.next)) [
          | inl e ↦ rw e (sym (f q (ground arith)))
          | inr e ↦ rw e (r.same q ∙ rw e)
        ];
      },
    )

module _ {ℓ} {A : Type ℓ} (rows columns count : ℕ) where
  -- The body fills its region from any heap, so the block does.
  pub scoped-Fills :
      (h0 : Heap) (b : Buffer) (body : ℕ → Run A → Option (Run A))
      (wanted : ℕ → ℕ → List (Option (Option A))) (region : ℕ → ℕ → Bool)
      → ((h : Heap) (place : ℕ) → Fills h rows columns count wanted region (body place))
      → Fills h0 rows columns count wanted region (scoped b body)
  unfolding scoped
  scoped-Fills h0 b body wanted region f s sound =
      let h1 = allocate b s.heap in
      let fresh = sound.restored.fresh in
      let inner : IsSound h1 rows columns count (record s { heap = h1 }) = record {
        restored = IsRestored-self (allocate-IsFresh b s.heap fresh);
        shapes = sound.shapes;
        number = sound.number;
      } in
      let (t, e1, after, g) = f h1 s.heap.next (record s { heap = h1 }) inner in
      let (h2, e2, r) = release-restores b s.heap t.heap fresh after.restored in
      (
        record t { heap = h2 },
        rw (e1, e2),
        record {
          restored = IsRestored-trans sound.restored r;
          shapes = after.shapes;
          number = after.number;
        },
        g,
      )

module _ {ℓ} {A : Type ℓ} (rows columns : ℕ) where
  pub keep_value-Fills :
      (h0 : Heap) (i j : ℕ) (v : A) (wanted : ℕ → ℕ → List (Option (Option A)))
      → i < rows
      → j < columns
      → wanted i j ≡ filled (v ∷ [])
      → Fills h0 rows columns 1 wanted (λ (k l : ℕ). (i == k) && (j == l)) (keep_value i j v)
  unfolding keep_value
  keep_value-Fills h0 i j v wanted a b w s sound =
      let (ms, e, stored, g) =
        store_all-IsSound h0 rows columns 1 i j (v ∷ []) wanted s s.heap a b refl w sound
          sound.restored in
      (record s { results = ms }, rw e, stored, g)
