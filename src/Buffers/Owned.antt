-- ===== src/Buffers/Owned.antt =====
-- A measurement with buffers of its own uses and releases what is there, and leaves nothing behind.
use nvbandwidth.Prelude.{
  ℕ, ◌≡◌, ◌≤◌, refl, ap, arith, Bool, true, false, ◌||◌, Option, none, some, List, [], ◌∷◌, ◌++◌,
  any, ◌==◌, ==_iff, if◌then◌else◌, Option-cases, inl, inr,
}
use nvbandwidth.Buffers.{Buffer, Heap, allocate, release, release_all}

abbrev pub mem : ℕ → List ℕ → Bool
mem p ps = any (p ==◌) ps

abbrev pub is_some : Option Buffer → Bool
is_some none = false
is_some (some b) = true

abbrev pub Distinct : List ℕ → Type 0
Distinct [] = Unit
Distinct (p ∷ ps) = (mem p ps ≡ false) × Distinct ps

abbrev pub IsFresh : Heap → Type 0
IsFresh h = (p : ℕ) → h.next ≤ p → h.object p ≡ none

-- The heap `h` is `h0` with the objects of two vectors besides, each of them once.
pub record Owns (h0 h : Heap) (srcs dsts : List ℕ) : Type 0 where
  pub grown : h0.next ≤ h.next
  pub fresh : IsFresh h
  pub same : (p : ℕ) → (mem p srcs || mem p dsts) ≡ false → h.object p ≡ h0.object p
  pub new : (p : ℕ) → (mem p srcs || mem p dsts) ≡ true → h0.object p ≡ none
  pub live : (p : ℕ) → (mem p srcs || mem p dsts) ≡ true → is_some (h.object p) ≡ true
  pub once_src : Distinct srcs
  pub once_dst : Distinct dsts
  pub apart : (p : ℕ) → mem p srcs ≡ true → mem p dsts ≡ false

pub Owns-nothing : (h : Heap) → IsFresh h → Owns h h [] []
Owns-nothing h f = record {
  grown = omega arith;
  fresh = f;
  same = λ p e. refl;
  new = λ p e. ground arith;
  live = λ p e. ground arith;
  once_src = tt;
  once_dst = tt;
  apart = λ p e. refl;
}

pub mem-snoc : (q : ℕ) (ps : List ℕ) (p : ℕ) → mem q (ps ++ p ∷ []) ≡ (mem q ps || (q == p))
mem-snoc q [] p = ground arith
mem-snoc q (r ∷ ps) p = ground (arith, mem-snoc q ps p)

Distinct-snoc : (ps : List ℕ) (p : ℕ) → Distinct ps → mem p ps ≡ false → Distinct (ps ++ p ∷ [])
Distinct-snoc [] p d h = (refl, tt)
Distinct-snoc (q ∷ ps) p d h =
    (ground (arith, mem-snoc q ps p), Distinct-snoc ps p d.1 (ground arith))

mem-same : (p q : ℕ) (ps : List ℕ) → (p == q) ≡ true → mem p ps ≡ mem q ps
mem-same p q ps h = ap (λ (x : ℕ). mem x ps) ((==_iff p q).0 h)

abbrev erased : ℕ → Heap → Heap
erased p h = record h { object = λ q. if q == p then none else h.object q }

release-live : (p : ℕ) (h : Heap) → is_some (h.object p) ≡ true → release p h ≡ some (erased p h)
unfolding release
release-live p h e = elim (Option-cases (h.object p)) [
  | inl n ↦ absurd (ground (arith, n))
  | inr (b, n) ↦ rw n
]

Owns-release_src :
    (h0 h : Heap) (p : ℕ) (ps dsts : List ℕ)
    → Owns h0 h (p ∷ ps) dsts
    → Owns h0 (erased p h) ps dsts
Owns-release_src h0 h p ps dsts o = record {
  grown = o.grown;
  fresh = λ q g. ground (arith, o.fresh q);
  same = λ q e. ground (arith, o.same q, o.new q);
  new = λ q e. ground (arith, o.new q);
  live = λ q e. ground (arith, o.live q, o.apart q, o.once_src);
  once_src = o.once_src.1;
  once_dst = o.once_dst;
  apart = λ q e. ground (arith, o.apart q);
}

Owns-release_dst :
    (h0 h : Heap) (p : ℕ) (ps : List ℕ) → Owns h0 h [] (p ∷ ps) → Owns h0 (erased p h) [] ps
Owns-release_dst h0 h p ps o = record {
  grown = o.grown;
  fresh = λ q g. ground (arith, o.fresh q);
  same = λ q e. ground (arith, o.same q, o.new q);
  new = λ q e. ground (arith, o.new q);
  live = λ q e. ground (arith, o.live q, o.once_dst);
  once_src = tt;
  once_dst = o.once_dst.1;
  apart = λ q e. ground arith;
}

pub release_all-src :
    (h0 h : Heap) (ps dsts : List ℕ)
    → Owns h0 h ps dsts
    → (h' : Heap) × (release_all ps h ≡ some h') × Owns h0 h' [] dsts
unfolding release_all
release_all-src h0 h [] dsts o = (h, refl, o)
release_all-src h0 h (p ∷ ps) dsts o =
    let (h', e, o') = release_all-src h0 (erased p h) ps dsts (Owns-release_src h0 h p ps dsts o) in
    (h', rw (release-live p h (o.live p (ground arith))) e, o')

pub release_all-dst :
    (h0 h : Heap) (ps : List ℕ)
    → Owns h0 h [] ps
    → (h' : Heap) × (release_all ps h ≡ some h') × Owns h0 h' [] []
unfolding release_all
release_all-dst h0 h [] o = (h, refl, o)
release_all-dst h0 h (p ∷ ps) o =
    let (h', e, o') = release_all-dst h0 (erased p h) ps (Owns-release_dst h0 h p ps o) in
    (h', rw (release-live p h (o.live p (ground arith))) e, o')

-- The address of a new object is not among those in use.
next-mem :
    {h0 h : Heap} {srcs dsts : List ℕ}
    → Owns h0 h srcs dsts
    → (mem h.next srcs || mem h.next dsts) ≡ false
next-mem {h} o = ground (arith, o.live h.next, o.fresh h.next)

pub Owns-push_src :
    (h0 h : Heap) (b : Buffer) (srcs dsts : List ℕ)
    → IsFresh h0
    → Owns h0 h srcs dsts
    → Owns h0 (allocate b h) (srcs ++ h.next ∷ []) dsts
unfolding allocate
Owns-push_src h0 h b srcs dsts f o =
    let unused = next-mem o in
    record {
      grown = ground (arith, o.grown);
      fresh = λ q g. ground (arith, o.fresh q);
      same = λ q e. ground (arith, o.same q, mem-snoc q srcs h.next);
      new = λ q e. ground (arith, o.new q, f q, mem-snoc q srcs h.next, o.grown);
      live = λ q e. ground (arith, o.live q, mem-snoc q srcs h.next);
      once_src = Distinct-snoc srcs h.next o.once_src (ground arith);
      once_dst = o.once_dst;
      apart = λ q e. ground (arith, o.apart q, mem-snoc q srcs h.next, mem-same q h.next dsts);
    }

pub Owns-push_dst :
    (h0 h : Heap) (b : Buffer) (srcs dsts : List ℕ)
    → IsFresh h0
    → Owns h0 h srcs dsts
    → Owns h0 (allocate b h) srcs (dsts ++ h.next ∷ [])
unfolding allocate
Owns-push_dst h0 h b srcs dsts f o =
    let unused = next-mem o in
    record {
      grown = ground (arith, o.grown);
      fresh = λ q g. ground (arith, o.fresh q);
      same = λ q e. ground (arith, o.same q, mem-snoc q dsts h.next);
      new = λ q e. ground (arith, o.new q, f q, mem-snoc q dsts h.next, o.grown);
      live = λ q e. ground (arith, o.live q, mem-snoc q dsts h.next);
      once_src = o.once_src;
      once_dst = Distinct-snoc dsts h.next o.once_dst (ground arith);
      apart = λ q e. ground (arith, o.apart q, mem-snoc q dsts h.next, mem-same q h.next srcs);
    }
