-- ===== src/Testcase/Star/Ends.antt =====
-- The test cases of all devices to one and of one to all come to their end, and what they leave.
use nvbandwidth.Prelude.{
  ◌>>=◌, ℕ, zero, suc, ◌+◌, ◌≡◌, ◌<◌, refl, sym, ap, ◌∙◌, Bool, true, false, ◌&&◌, Option, none,
  some, List, [], ◌∷◌, map, any, length, get_elem?, ◌==◌, ==_self, if◌then◌else◌, arith, Bool-cases,
  inl, inr,
}
use nvbandwidth.Double.{Double}
use nvbandwidth.Buffers.{
  Outcome, returned_values, Transfer, MemcpyOperation, total_bw, Heap, lookup_all, do_memcpy_core,
}
use nvbandwidth.Buffers.Owned.{IsFresh, Owns-nothing, release_all-src}
use nvbandwidth.Buffers.Measured.{IsRestored}
use nvbandwidth.Testcase.{Run, first_value, readings, indices, start}
use nvbandwidth.Testcase.Stored.{
  IsSound, Fills, IsRestored-self, IsReadable, cells, filled_with, measured, store_all-IsSound,
  start_lem,
}
use nvbandwidth.Testcase.Loops.{All-indices, any-indices, any-none, for_all_lem}
use nvbandwidth.Testcase.Answers.{Answers, IsReadable-first}
use nvbandwidth.Testcase.Shapes.{Leaves}
use nvbandwidth.Testcase.Host.{device_buffer}
use nvbandwidth.Testcase.Star.{Gathered, measure_gathered, star_round, star, allocate_each}
use nvbandwidth.Testcase.Star.Shared.{
  Owns-restored, lookup_all-length, lookup_all-at, allocate_each_lem,
}
use nvbandwidth.Testcase.Star.Collect.{reached, AreShared, Collects, Collects-nothing, collect_lem}
use nvbandwidth.Testcase.Star.Spokes.{
  star_copies, some_peer, pairs_of-own, pairs_of-others, same_sizes-star,
}

module _ {ℓ} {A : Type ℓ} ⦃d : Double A⦄ (core : MemcpyOperation → List Transfer → Outcome A)
    (access : ℕ → ℕ → Bool) (n size : ℕ) where
  do_memcpy_core-gathered :
      (op : MemcpyOperation) (from_own : Bool) (i : ℕ) (h1 : Heap) (g : Gathered) (xs : List ℕ)
      → Collects h1 size i g xs
      → do_memcpy_core core op
          (if from_own then g.own else g.others)
          (if from_own then g.others else g.own)
          g.heap
        ≡ returned_values (core op (star_copies from_own size i xs))
  unfolding do_memcpy_core
  do_memcpy_core-gathered op true i h1 g xs c =
      rw (c.own_points, c.other_points, pairs_of-own size i xs, same_sizes-star true size i xs) refl
  do_memcpy_core-gathered op false i h1 g xs c =
      rw (c.own_points, c.other_points, pairs_of-others size i xs, same_sizes-star false size i xs)
        refl

  abbrev pub star_measured :
      MemcpyOperation → (from_own : Bool) → (row column : ℕ) → List (Option (Option A))
  star_measured op from_own k l =
      measured core op first_value (star_copies from_own size l (reached access l (indices 0 n)))

  -- What a measurement leaves, before the buffers of the device are deleted.
  record Gathers (h1 : Heap) (wanted : ℕ → ℕ → List (Option (Option A))) (region : ℕ → ℕ → Bool)
      (g : Gathered) (s s' : Run A) : Type ℓ where
    same_heap : s'.heap ≡ g.heap
    sound : (h : Heap) → IsRestored h1 h → IsSound h1 1 n 1 (record s' { heap = h })
    stored :
        (k l : ℕ) → cells s'.results k l ≡ (if region k l then wanted k l else cells s.results k l)

  measure_gathered_lem :
      (op : MemcpyOperation) (from_own : Bool) (i : ℕ) (h1 : Heap) (g : Gathered) (s : Run A)
      (xs : List ℕ) (wanted : ℕ → ℕ → List (Option (Option A)))
      → i < n
      → IsFresh h1
      → Collects h1 size i g xs
      → IsSound h1 1 n 1 s
      → IsReadable core op first_value (star_copies from_own size i xs)
      → wanted 0 i ≡ measured core op first_value (star_copies from_own size i xs)
      → (s' : Run A) × (measure_gathered core access n size op from_own i g s ≡ some s')
        × Gathers h1 wanted (λ (k l : ℕ). some_peer xs && (0 == k) && (i == l)) g s s'
  unfolding measure_gathered
  measure_gathered_lem op from_own i h1 g s [] wanted b fresh c o readable w =
      let empty = lookup_all-length g.heap g.own [] c.own_points in
      rw empty (
        record s { heap = g.heap },
        refl,
        record {
          same_heap = refl;
          sound = λ h r. record { restored = r; shapes = o.shapes; number = o.number };
          stored = λ k l. refl;
        },
      )
  measure_gathered_lem op from_own i h1 g s (x ∷ xs) wanted b fresh c o (us, vs, e0, e, number) w =
      let long = lookup_all-length g.heap g.own _ c.own_points in
      let none_left : (length g.own == 0) ≡ false = ground (arith, long) in
      let copies = star_copies from_own size i (x ∷ xs) in
      let read : (do vs ← returned_values (core op copies); readings first_value vs) ≡ some vs =
        rw e0 e in
      let (ms, e2, stored, f) =
        store_all-IsSound h1 1 n 1 0 i vs wanted s h1 (omega arith) b number
          (w ∙ ap filled_with read) o (IsRestored-self fresh) in
      (
        record { heap = g.heap; results = ms },
        rw (none_left, do_memcpy_core-gathered op from_own i h1 g (x ∷ xs) c, e0, e, e2) refl,
        record {
          same_heap = refl;
          sound = λ h r. record { restored = r; shapes = stored.shapes; number = stored.number };
          stored = f;
        },
      )

  star_round-Fills :
      (op : MemcpyOperation) (from_own : Bool) (shared : List ℕ) (i : ℕ) (h1 : Heap)
      → Answers core op (star_copies from_own size i (reached access i (indices 0 n)))
      → op.bandwidth_value ≡ total_bw
      → IsFresh h1
      → AreShared n size shared h1
      → i < n
      → Fills h1 1 n 1
          (star_measured op from_own)
          (λ (k l : ℕ). some_peer (reached access i (indices 0 n)) && (0 == k) && (i == l))
          (star_round core access n size op from_own shared i)
  unfolding star_round
  star_round-Fills op from_own shared i h1 ans total fresh sh b s sound =
      let xs = reached access i (indices 0 n) in
      let begin : Gathered = record { heap = s.heap; own = []; others = [] } in
      let (g, e1, c) =
        collect_lem access size i n shared h1 0 n begin [] (omega arith) fresh sh
          (Collects-nothing h1 size i s.heap fresh sound.restored) in
      let (s', e2, m) =
        measure_gathered_lem op from_own i h1 g s xs (star_measured op from_own) b fresh c sound
          (IsReadable-first core op (star_copies from_own size i xs) ans (rw total (omega arith)))
          refl in
      let (h', e3, o) = release_all-src h1 g.heap g.own [] c.owns in
      let restored : IsRestored h1 h' = record {
        fresh = o.fresh;
        grown = o.grown;
        same = λ p. o.same p refl;
      } in
      (record s' { heap = h' }, rw (e1, e2, m.same_heap, e3) refl, m.sound h' restored, m.stored)

  -- Whether the loop reaches the cell of a device with a measurement.
  star_region :
      (l : ℕ)
      → l < n
      → any
          (λ (i : ℕ). some_peer (reached access i (indices 0 n)) && (0 == 0) && (i == l))
          (indices 0 n)
        ≡ some_peer (reached access l (indices 0 n))
  star_region l b = elim (Bool-cases (some_peer (reached access l (indices 0 n)))) [
    | inl e ↦
        any-indices (λ (i : ℕ). some_peer (reached access i (indices 0 n)) && (0 == 0) && (i == l))
          0 n l (omega arith) (omega arith) (rw (e, ==_self l) refl)
        ∙ sym e
    | inr e ↦
        any-none (λ (i : ℕ). some_peer (reached access i (indices 0 n)) && (0 == 0) && (i == l))
          (indices 0 n) (λ i. elsewhere i l e)
        ∙ sym e
  ]
    where
      elsewhere :
          (i l : ℕ)
          → some_peer (reached access l (indices 0 n)) ≡ false
          → (some_peer (reached access i (indices 0 n)) && (0 == 0) && (i == l)) ≡ false
      elsewhere i l e = elim (Bool-cases (i == l)) [
        | inl h ↦ let same : i ≡ l = ground arith in rw (same, e) refl
        | inr h ↦ ground arith
      ]

  get_elem?-devices :
      (from rounds j : ℕ)
      → j < rounds
      → get_elem? (map (device_buffer size) (indices from rounds)) j
        ≡ some (device_buffer size (from + j))
  get_elem?-devices from zero j b = absurd (omega arith)
  get_elem?-devices from (suc k) zero b = let e : from + 0 ≡ from = omega arith in rw e refl
  get_elem?-devices from (suc k) (suc j) b =
      let e : from + suc j ≡ suc from + j = omega arith in
      rw e (get_elem?-devices (suc from) k j (omega arith))

  pub star-Leaves :
      (op : MemcpyOperation) (from_own : Bool) (h : Heap)
      → ((i : ℕ) → Answers core op (star_copies from_own size i (reached access i (indices 0 n))))
      → op.bandwidth_value ≡ total_bw
      → IsFresh h
      → Leaves h 1 n
          (λ (k l : ℕ).
            if some_peer (reached access l (indices 0 n))
            then star_measured op from_own k l
            else some none ∷ [])
          (star core access n size op from_own h)
  unfolding star lookup_all
  star-Leaves op from_own h ans total f =
      let made = allocate_each size (indices 0 n) [] h in
      let (o, points) = allocate_each_lem size (indices 0 n) [] h h [] f (Owns-nothing h f) refl in
      let shared : AreShared n size made.0 made.1 = λ j b.
        let itself : 0 + j ≡ j = omega arith in
        lookup_all-at made.1 made.0 j points (rw itself at (get_elem?-devices 0 n j b)) in
      let (sound, empty) = start_lem made.1 first_value 1 n o.fresh in
      let region =
        λ (i k l : ℕ). some_peer (reached access i (indices 0 n)) && (0 == k) && (i == l) in
      let (s, e, q, g) =
        for_all_lem made.1 1 n 1 (star_measured op from_own) region
          (star_round core access n size op from_own made.0) (indices 0 n)
          (All-indices
            (λ (i : ℕ).
              Fills made.1 1 n 1 (star_measured op from_own) (region i)
                (star_round core access n size op from_own made.0 i))
            0 n
            (λ i b.
              star_round-Fills op from_own made.0 i made.1 (ans i) total o.fresh shared
                (omega (arith, b))))
          (start first_value 1 n made.1) sound in
      let (h', e2, r) =
        release_all-src h s.heap made.0 [] (Owns-restored h made.1 s.heap made.0 [] o q.restored) in
      (
        record s { heap = h' },
        rw (e, e2) refl,
        record { fresh = r.fresh; grown = r.grown; same = λ p. r.same p refl },
        λ k l a b.
            let top : k ≡ 0 = omega arith in
            rw top (g 0 l ∙ rw (star_region l b, empty 0 l (omega arith) b) refl),
      )
