-- ===== src/Allocator/First.antt =====
-- The first allocation from an empty heap, which the allocator does not measure.
use dbos.Base.{ℕ, ◌+◌, ◌^◌, ◌≤◌, ◌<◌, ◌≡◌, refl, some, [], ◌∷◌, true, arith, ==_iff}
use dbos.Base.Word.{u32_mod}
use dbos.Allocator.{header_size, Heap, Grow, first_block, deliver, allocate}
use dbos.Allocator.Blocks.{block, last}
use dbos.Allocator.Walk.{write_self}
use dbos.Allocator.Allocate.{IsHeap}

allocate_empty :
    {E : Type 0} (grow : Grow E) (heap : Heap E) (size : ℕ)
    → heap.head ≡ 0
    → allocate grow heap size ≡ some (first_block heap size)
unfolding allocate
allocate_empty grow heap size e = rw ((==_iff _ 0).1 e, allocate)

-- The first allocation that fits before the end of an empty heap makes it a heap of one block and
-- returns the address behind its header.
pub allocate-first :
    {E : Type 0} (grow : Grow E) (heap : Heap E) (size : ℕ)
    → heap.head ≡ 0
    → 0 < heap.start
    → heap.start + header_size + size ≤ heap.end
    → heap.end < u32_mod
    → heap.end < heap.start + 2 ^ 31
    → (heap' : Heap E) × (allocate grow heap size ≡ some (heap.start + header_size, heap'))
      × IsHeap heap' (block heap.start size true ∷ []) (heap.start + header_size + size)
      × (heap'.end ≡ heap.end)
unfolding first_block deliver
allocate-first grow heap size e pos room small span = (
  (first_block heap size).1,
  ground (arith, allocate_empty grow heap size e),
  record {
    started = pos;
    head_eq = refl;
    chain = last (write_self heap.cells heap.start _) refl;
    inside = room;
    in_space = omega arith;
    span = span;
  },
  refl,
)

-- An empty heap hands out an area of any size without growing: where the size does not fit before
-- the end, the area reaches past the end of the heap.
pub first_allocation_overruns :
    {E : Type 0} (grow : Grow E) (heap : Heap E) (size : ℕ)
    → heap.head ≡ 0
    → heap.start + header_size < u32_mod
    → heap.end < heap.start + header_size + size
    → (heap' : Heap E) × (allocate grow heap size ≡ some (heap.start + header_size, heap'))
      × (heap'.end ≡ heap.end)
      × (heap'.end < heap.start + header_size + size)
unfolding first_block deliver
first_allocation_overruns grow heap size e small over =
    ((first_block heap size).1, ground (arith, allocate_empty grow heap size e), refl, over)
