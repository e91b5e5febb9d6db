-- ===== src/Testcase/Star/Shared.antt =====
-- The shared buffers: all devices have one, and it stays.
use nvbandwidth.Prelude.{
  ℕ, zero, suc, ◌+◌, ◌≡◌, refl, sym, ◌∙◌, none, some, bind-some, some-injective, List, [], ◌∷◌,
  ◌++◌, map, length, get_elem?, ◌==◌, if◌then◌else◌, arith,
}
use nvbandwidth.Buffers.{Buffer, Heap, allocate, release, lookup_all}
use nvbandwidth.Buffers.Owned.{IsFresh, Owns, Owns-push_src}
use nvbandwidth.Buffers.Measured.{IsRestored, lookup_all-push}
use nvbandwidth.Testcase.Host.{device_buffer}
use nvbandwidth.Testcase.Star.{allocate_each}

pub Owns-restored :
    (h0 h h' : Heap) (own others : List ℕ)
    → Owns h0 h own others
    → IsRestored h h'
    → Owns h0 h' own others
Owns-restored h0 h h' own others o r = record {
  grown = omega (arith, o.grown, r.grown);
  fresh = r.fresh;
  same = λ p e. r.same p ∙ o.same p e;
  new = λ p e. o.new p e;
  live = λ p e. rw (r.same p) (o.live p e);
  once_src = o.once_src;
  once_dst = o.once_dst;
  apart = λ p e. o.apart p e;
}

pub lookup_all-restored :
    (h h' : Heap) (ps : List ℕ) → IsRestored h h' → lookup_all ps h' ≡ lookup_all ps h
unfolding lookup_all
lookup_all-restored h h' [] r = refl
lookup_all-restored h h' (p ∷ ps) r = rw (r.same p, lookup_all-restored h h' ps r) refl

-- A buffer that is made and deleted at once leaves no trace.
pub discard_lem :
    (h : Heap) (b : Buffer)
    → IsFresh h
    → (h' : Heap) × (release h.next (allocate b h) ≡ some h') × IsRestored h h'
unfolding release allocate
discard_lem h b f = (
  record { next = h.next + 1; object = λ q. if q == h.next then none else (allocate b h).object q },
  ground arith,
  record {
    fresh = λ p g. ground (arith, f p);
    grown = omega arith;
    same = λ p. ground (arith, f p, f h.next);
  },
)

pub lookup_all-length :
    (h : Heap) (ps : List ℕ) (bs : List Buffer) → lookup_all ps h ≡ some bs → length ps ≡ length bs
unfolding lookup_all
lookup_all-length h [] [] e = refl
lookup_all-length h [] (b ∷ bs) e = absurd (ground arith)
lookup_all-length h (p ∷ ps) bs e =
    let (c, e1, k) = bind-some (h.object p) _ e in
    let (cs, e2, l) = bind-some (lookup_all ps h) _ k in
    rw (sym (some-injective l)) (omega (arith, lookup_all-length h ps cs e2))

pub lookup_all-at :
    (h : Heap) (ps : List ℕ) {bs : List Buffer} (j : ℕ) {b : Buffer}
    → lookup_all ps h ≡ some bs
    → get_elem? bs j ≡ some b
    → (q : ℕ) × (get_elem? ps j ≡ some q) × (h.object q ≡ some b)
unfolding lookup_all
lookup_all-at h [] {bs} j e g =
    let none_left = rw (sym (some-injective e)) at g in absurd (ground arith)
lookup_all-at h (p ∷ ps) {bs} zero e g =
    let (c, e1, k) = bind-some (h.object p) _ e in
    let (cs, e2, l) = bind-some (lookup_all ps h) _ k in
    let first = rw (sym (some-injective l)) at g in (p, refl, e1 ∙ first)
lookup_all-at h (p ∷ ps) {bs} (suc j) e g =
    let (c, e1, k) = bind-some (h.object p) _ e in
    let (cs, e2, l) = bind-some (lookup_all ps h) _ k in
    let rest = rw (sym (some-injective l)) at g in lookup_all-at h ps j e2 rest

pub allocate_each_lem :
    (size : ℕ) (is ps : List ℕ) (h0 h : Heap) (bs : List Buffer)
    → IsFresh h0
    → Owns h0 h ps []
    → lookup_all ps h ≡ some bs
    → let made = allocate_each size is ps h in
      Owns h0 made.1 made.0 []
      × (lookup_all made.0 made.1 ≡ some (bs ++ map (device_buffer size) is))
unfolding allocate_each
allocate_each_lem size [] ps h0 h bs f o e = (o, rw (append_nil bs) e)
  where
    append_nil : (bs : List Buffer) → bs ++ [] ≡ bs
    append_nil [] = refl
    append_nil (b ∷ bs) = rw (append_nil bs)
allocate_each_lem size (i ∷ is) ps h0 h bs f o e =
    rw (snoc-append bs (device_buffer size i) (map (device_buffer size) is)) (
      allocate_each_lem size is (ps ++ h.next ∷ []) h0 (allocate (device_buffer size i) h)
        (bs ++ device_buffer size i ∷ []) f (Owns-push_src h0 h (device_buffer size i) ps [] f o)
        (lookup_all-push h (device_buffer size i) ps o.fresh e))
  where
    snoc-append :
        (xs : List Buffer) (x : Buffer) (ys : List Buffer) → xs ++ x ∷ ys ≡ (xs ++ x ∷ []) ++ ys
    snoc-append [] x ys = refl
    snoc-append (y ∷ xs) x ys = rw (snoc-append xs x ys)
