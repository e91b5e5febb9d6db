-- ===== src/Buffers.antt =====
-- memcpy.h and multinode_memcpy.h: the buffer objects of the test cases, on a heap. `new` and a
-- declaration allocate, `delete` and the end of a scope release; `none` stands for what the program
-- must never do, using or releasing an object that is not there. The contents of buffers are the
-- matter of the initiators.
pub mod Owned
pub mod Measured
use nvbandwidth.Prelude.{
  ℕ, ◌+◌, Bool, true, ◌&&◌, Option, none, some, ◌>>=◌, List, [], ◌∷◌, ◌++◌, ◌==◌, if◌then◌else◌,
}
use nvbandwidth.Initiator.{Initiator}
use nvbandwidth.Multinode.{ContextPreference}

-- The classes of `MemcpyBuffer`.
pub data BufferKind : Type 0 where
  host : BufferKind
  device : BufferKind
  multinode_unicast : BufferKind
  multinode_multicast : BufferKind
  multinode_local : BufferKind

-- `owner` is the device or the rank that the buffer is made for.
pub record Buffer : Type 0 where
  pub kind : BufferKind
  pub buffer_size : ℕ
  pub owner : ℕ

-- A source and a destination.
abbrev pub Transfer : Type 0
Transfer = Buffer × Buffer

pub data BandwidthValue : Type 0 where
  use_first_bw : BandwidthValue
  sum_bw : BandwidthValue
  total_bw : BandwidthValue
  vector_bw : BandwidthValue

-- `MemcpyOperation`, by the arguments of its constructor; `multinode` tells the two node helpers apart.
pub record MemcpyOperation : Type 0 where
  pub memcpy_initiator : Initiator
  pub multinode : Bool
  pub ctx_preference : ContextPreference
  pub bandwidth_value : BandwidthValue

-- Objects by their addresses; `next` and what is above has never been used.
pub record Heap : Type 0 where
  pub next : ℕ
  pub object : ℕ → Option Buffer

-- The address of the new object is `h.next`.
unfoldable pub allocate : Buffer → Heap → Heap
allocate b h = record {
  next = h.next + 1;
  object = λ p. if p == h.next then some b else h.object p;
}

unfoldable pub release : ℕ → Heap → Option Heap
release p h = do
  b ← h.object p
  some (record h { object = λ q. if q == p then none else h.object q })

-- The loops that delete all objects of a vector.
unfoldable pub release_all : List ℕ → Heap → Option Heap
release_all [] h = some h
release_all (p ∷ ps) h = do h' ← release p h; release_all ps h'

-- The objects that a vector of pointers points to.
unfoldable pub lookup_all : List ℕ → Heap → Option (List Buffer)
lookup_all [] h = some []
lookup_all (p ∷ ps) h = do b ← h.object p; bs ← lookup_all ps h; some (b ∷ bs)

-- The two vectors that a test case fills, with the heap.
pub record Pushed : Type 0 where
  pub heap : Heap
  pub src_buffers : List ℕ
  pub dst_buffers : List ℕ

-- `srcBuffers.push_back(new …)` and `dstBuffers.push_back(new …)`.
unfoldable pub push_pair : Transfer → Pushed → Pushed
unfolding allocate
push_pair t s =
    let h = allocate t.0 s.heap in
    record {
      heap = allocate t.1 h;
      src_buffers = s.src_buffers ++ s.heap.next ∷ [];
      dst_buffers = s.dst_buffers ++ h.next ∷ [];
    }

unfoldable pub push_pairs : List Transfer → Pushed → Pushed
unfolding push_pair
push_pairs [] s = s
push_pairs (t ∷ ts) s = push_pairs ts (push_pair t s)

unfoldable pub pairs_of : List Buffer → List Buffer → List Transfer
pairs_of [] ys = []
pairs_of (x ∷ xs) [] = []
pairs_of (x ∷ xs) (y ∷ ys) = (x, y) ∷ pairs_of xs ys

-- What the ASSERT before each copy tests, over all copies.
abbrev pub same_sizes : List Transfer → Bool
same_sizes [] = true
same_sizes (t ∷ ts) = (t.0.buffer_size == t.1.buffer_size) && same_sizes ts

-- How `doMemcpyCore` ends: it returns its values, or it leaves early, with an exception of
-- `getAdjustedCopySize` or `memcpyFunc`, or with the ASSERT on a comparison, which ends the process.
pub data Outcome {ℓ} (A : Type ℓ) : Type ℓ where
  measures : List A → Outcome A
  exception : Outcome A
  failed_assert : Outcome A

-- The values, if there are any.
abbrev pub returned_values {ℓ} : {A : Type ℓ} → Outcome A → Option (List A)
returned_values (measures vs) = some vs
returned_values exception = none
returned_values failed_assert = none

module _ {ℓ} {A : Type ℓ} (core : MemcpyOperation → List Transfer → Outcome A) where
  -- `doMemcpyCore` on the buffers of two vectors of pointers. `core` says how it ends, and
  -- `none` that the test case is left early.
  unfoldable pub do_memcpy_core : MemcpyOperation → (srcs dsts : List ℕ) → Heap → Option (List A)
  unfolding pairs_of lookup_all
  do_memcpy_core op srcs dsts h = do
    xs ← lookup_all srcs h
    ys ← lookup_all dsts h
    let ts = pairs_of xs ys
    if same_sizes ts then returned_values (core op ts) else none

  -- A measurement with buffers of its own: they are made, copied between, and released. In which order
  -- they are released does not show.
  unfoldable pub with_buffers : MemcpyOperation → List Transfer → Heap → Option (List A × Heap)
  unfolding push_pairs release_all do_memcpy_core
  with_buffers op ts h = do
    let s = push_pairs ts (record { heap = h; src_buffers = []; dst_buffers = [] })
    vs ← do_memcpy_core op s.src_buffers s.dst_buffers s.heap
    h' ← release_all s.src_buffers s.heap
    h'' ← release_all s.dst_buffers h'
    some (vs, h'')

-- Buffers that are made and released without a copy.
unfoldable pub without_copy : List Transfer → Heap → Option Heap
unfolding push_pairs release_all
without_copy ts h = do
  let s = push_pairs ts (record { heap = h; src_buffers = []; dst_buffers = [] })
  h' ← release_all s.src_buffers s.heap
  release_all s.dst_buffers h'
