-- ===== src/Testcase/Chase/Devices.antt =====
-- The latency test case between devices comes to its end, and what it leaves.
use nvbandwidth.Prelude.{
  ℕ, ◌≡◌, ◌<◌, refl, ◌∙◌, arith, Bool, true, false, not, ◌&&◌, Option, some, none, ◌>>=◌, List, [],
  ◌∷◌, any, ◌==◌, if◌then◌else◌, Bool-cases, inl, inr,
}
use nvbandwidth.Double.{Double}
use nvbandwidth.Buffers.{Heap}
use nvbandwidth.Buffers.Owned.{IsFresh}
use nvbandwidth.Testcase.{Run, indices, for_all, first_value, start}
use nvbandwidth.Testcase.Stored.{Fills, filled, start_lem}
use nvbandwidth.Testcase.Loops.{All-indices, for_all_lem}
use nvbandwidth.Testcase.Shapes.{Leaves}
use nvbandwidth.Testcase.Grid.{reached}
use nvbandwidth.Testcase.Host.{device_buffer}
use nvbandwidth.Testcase.Chase.{
  Chasing, scoped, keep_value, do_ptr_chase, device_latency_step, device_to_device_latency_sm,
}
use nvbandwidth.Testcase.Chase.Scoped.{scoped-Fills, keep_value-Fills}
use nvbandwidth.Testcase.Chase.Ends.{IsReady, latency, nodes_at, do_ptr_chase_lem}

module _ {ℓ} {A : Type ℓ} ⦃d : Double A⦄ (c : Chasing A) (access : ℕ → ℕ → Bool) (n : ℕ)
    (r : IsReady c) where
  abbrev wanted : ℕ → ℕ → List (Option (Option A))
  wanted k l = filled (latency c k l ∷ [])

  -- Where the round of a device and its peer puts a value.
  abbrev region : (peer src k l : ℕ) → Bool
  region peer src k l = (not (src == peer) && access src peer) && (peer == l) && (src == k)

  region-live :
      (peer src k l : ℕ)
      → (peer == src) ≡ false
      → ((src == k) && (peer == l)) ≡ ((not (src == peer) && true) && (peer == l) && (src == k))
  region-live peer src k l e = ground arith

  region-same : (peer src k l : ℕ) → (peer == src) ≡ true → region peer src k l ≡ false
  region-same peer src k l e = ground arith

  region-no_access :
      (peer src k l : ℕ) → ((not (src == peer) && false) && (peer == l) && (src == k)) ≡ false
  region-no_access peer src k l = ground arith

  -- The body of the block of `srcBuffer`.
  abbrev inner : (peer place src : ℕ) → ℕ → Run A → Option (Run A)
  inner peer place src _ t =
      if access src peer
      then (do v ← do_ptr_chase c src peer place 0 (nodes_at c place); keep_value src peer v t)
      else some t

  inner-Fills :
      (peer place src own : ℕ) (h : Heap)
      → peer < n
      → src < n
      → (peer == src) ≡ false
      → Fills h n n 1 wanted (region peer src) (inner peer place src own)
  inner-Fills peer place src own h a b e s sound = elim (Bool-cases (access src peer)) [
    | inl g ↦
        let (s', kept, after, cell) =
          keep_value-Fills n n h src peer (latency c src peer) wanted b a refl s sound in
        rw (g, do_ptr_chase_lem c src peer place r)
          (s', kept, after, λ k l. cell k l ∙ rw (region-live peer src k l e))
    | inr g ↦ rw g (s, refl, sound, λ k l. rw (region-no_access peer src k l))
  ]

  step-Fills :
      (peer place src : ℕ) (h : Heap)
      → peer < n
      → src < n
      → Fills h n n 1 wanted
          (region peer src)
          (device_latency_step c access peer place (nodes_at c place) src)
  unfolding device_latency_step
  step-Fills peer place src h a b s sound = elim (Bool-cases (peer == src)) [
    | inl e ↦ rw e (s, refl, sound, λ k l. rw (region-same peer src k l e))
    | inr e ↦ rw e (
        scoped-Fills n n 1 h (device_buffer c.size src) (inner peer place src) wanted
          (region peer src) (λ h' own. inner-Fills peer place src own h' a b e) s sound)
  ]

  -- The rounds of one peer.
  abbrev regions : (peer k l : ℕ) → Bool
  regions peer k l = any (λ (src : ℕ). region peer src k l) (indices 0 n)

  abbrev body : (peer place : ℕ) → Run A → Option (Run A)
  body peer place s =
      let nodes = nodes_at c place in
      for_all (device_latency_step c access peer place nodes) (indices 0 n) s

  body-Fills :
      (peer place : ℕ) (h : Heap) → peer < n → Fills h n n 1 wanted (regions peer) (body peer place)
  body-Fills peer place h a =
      for_all_lem h n n 1 wanted (region peer)
        (device_latency_step c access peer place (nodes_at c place)) (indices 0 n)
        (All-indices
          (λ (src : ℕ).
            Fills h n n 1 wanted (region peer src)
              (device_latency_step c access peer place (nodes_at c place) src))
          0 n (λ src b. step-Fills peer place src h a (omega (arith, b))))

  -- The latency test case between devices puts in the cell of each pair of different devices with peer
  -- access the latency of the accesses of the device of the row to the buffer of that of the column, and
  -- in no other, and restores the heap. The buffers have at least one node, at addresses that are not
  -- 0, and the number of nodes and the stride together are at most 2^64.
  pub device_to_device_latency_sm_lem :
      (h : Heap)
      → IsFresh h
      → Leaves h n n
          (λ (k l : ℕ).
            if not (k == l) && access k l then filled (latency c k l ∷ []) else some none ∷ [])
          (device_to_device_latency_sm c access n h)
  unfolding device_to_device_latency_sm
  device_to_device_latency_sm_lem h f =
      let (sound, empty) = start_lem h first_value n n f in
      let outer = λ (peer : ℕ). scoped (device_buffer c.size peer) (body peer) in
      let (s, e, o, g) =
        for_all_lem h n n 1 wanted regions outer (indices 0 n)
          (All-indices (λ (peer : ℕ). Fills h n n 1 wanted (regions peer) (outer peer)) 0 n
            (λ peer b.
              scoped-Fills n n 1 h (device_buffer c.size peer) (body peer) wanted (regions peer)
                (λ h' place. body-Fills peer place h' (omega (arith, b)))))
          (start first_value n n h) sound in
      (
        s,
        e,
        o.restored,
        λ k l a b. g k l ∙ rw (reached (λ (i j : ℕ). access j i) n l k b a, empty k l a b),
      )
