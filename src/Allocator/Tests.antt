-- ===== src/Allocator/Tests.antt =====
-- Runs of the allocator, and its theorems at a heap of three blocks.
use dbos.Base.{
  ℕ, ◌+◌, ◌≤◌, ◌≡◌, refl, none, ◌⊎◌, true, false, none, some, List, [], ◌∷◌, arith, ◌==◌,
  if◌then◌else◌,
}
use mathlib.Core.Option
use dbos.Allocator.{header_size, Cells, Heap, Grow, allocate, free}
use dbos.Allocator.Blocks.{Block, block, last, link}
use dbos.Allocator.Allocate.{IsHeap, CanGrow, Placed, allocate-Placed}
use dbos.Allocator.First.{allocate-first}
use dbos.Allocator.Free.{free-IsHeap, allocate-disjoint}

-- A heap that grows by a page at a time.
abbrev grow_page : Grow (Unit {0})
grow_page bytes end env = some (end + 4096, 4096, tt)

abbrev three_cells : Cells
three_cells a =
    if a == 4096
    then some (record { size = 100; next = 4205; present = true })
    else if a == 4205
    then some (record { size = 50; next = 4264; present = false })
    else if a == 4264
    then some (record { size = 20; next = 0; present = true })
    else none

abbrev three : Heap (Unit {0})
three = record {
  allocated_size = 4096;
  start = 4096;
  end = 8192;
  head = 4096;
  cells = three_cells;
  bytes = λ a. 7;
  env = tt;
}

abbrev three_blocks : List Block
three_blocks = block 4096 100 true ∷ block 4205 50 false ∷ block 4264 20 true ∷ []

three-IsHeap : IsHeap three three_blocks 4293
three-IsHeap = record {
  started = omega arith;
  head_eq = refl;
  chain = link refl refl (link refl refl (last refl refl));
  inside = omega arith;
  in_space = omega arith;
  span = omega arith;
}

can_grow : (size : ℕ) → CanGrow grow_page three size
can_grow size = record {
  end' = 12288;
  more = 4096;
  env' = tt;
  result = refl;
  keeps = omega arith;
  in_space = omega arith;
  span = omega arith;
}

-- 30 bytes split the free block; 5000 bytes grow the heap; 9000 do not fit after growing.
reuses : Option.map (λ r. r.0) (allocate grow_page three 30) ≡ some 4214
unfolding allocate
reuses = refl

appends : Option.map (λ r. r.0) (allocate grow_page three 5000) ≡ some 4302
unfolding allocate
appends = refl

refuses : Option.map (λ r. r.0) (allocate grow_page three 9000) ≡ some 0
unfolding allocate
refuses = refl

allocate-Placed_example :
    (out : ℕ × Heap (Unit {0})) × (allocate grow_page three 30 ≡ some out)
    × Placed three three_blocks 4293 30 out
allocate-Placed_example =
    allocate-Placed grow_page three three_blocks 4293 30 three-IsHeap (omega arith) (omega arith)
      (can_grow 30)

after_30 : ℕ × Heap (Unit {0})
unfolding allocate
after_30 = Option.get_or (allocate grow_page three 30) (0, three)

allocate-disjoint_example : (4214 + 30 ≤ 4264) ⊎ (4264 + 9 + 20 + 9 ≤ 4214)
unfolding allocate after_30
allocate-disjoint_example =
    allocate-disjoint grow_page three three_blocks 4293 30 three-IsHeap (omega arith) (omega arith)
      (can_grow 30) 4214 after_30.1 refl (omega arith) 2 (block 4264 20 true) refl refl

free-IsHeap_example :
    (heap' : Heap (Unit {0})) × (free three (4264 + header_size) ≡ some heap')
    × IsHeap heap' (block 4096 100 true ∷ block 4205 50 false ∷ block 4264 20 false ∷ []) 4293
    × (heap'.bytes ≡ three.bytes)
    × (heap'.end ≡ 8192)
free-IsHeap_example = free-IsHeap three three_blocks 4293 2 (block 4264 20 true) three-IsHeap refl

abbrev empty : Heap (Unit {0})
empty = record three { head = 0; cells = λ a. none }

allocate-first_example :
    (heap' : Heap (Unit {0})) × (allocate grow_page empty 100 ≡ some (4096 + header_size, heap'))
    × IsHeap heap' (block 4096 100 true ∷ []) (4096 + header_size + 100)
    × (heap'.end ≡ 8192)
allocate-first_example =
    allocate-first grow_page empty 100 refl (omega arith) (omega arith) (omega arith) (omega arith)
