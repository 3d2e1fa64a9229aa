-- ===== src/Allocator.antt =====
-- kernel/memory/memory_heap.c and libraries/alloc.c: the first-fit allocator that the kernel and
-- the user programs share. The two files differ in how the heap grows, which is an argument here.
-- A header is a cell at the address of its block; `none` is an access where no header is, or a
-- list that does not end within the fuel.
pub mod Blocks
pub mod Walk
pub mod Find
pub mod Allocate
pub mod First
pub mod Free
mod Tests
use dbos.Base.{
  ℕ, zero, suc, ◌+◌, ◌-◌, ◌*◌, ◌/◌, ◌%◌, Bool, true, false, not, ◌&&◌, Option, none, some, ltb, leb,
  ◌==◌, if◌then◌else◌,
}
use dbos.Base.Word.{u32_mod, add32, sub32, slt32}

-- `kalloc_t` and `alloc_t`: packed, 4 + 4 + 1 bytes.
pub record Header : Type 0 where
  pub size : ℕ
  pub next : ℕ
  pub present : Bool

abbrev pub header_size : ℕ
header_size = 9

abbrev pub Cells : Type 0
Cells = ℕ → Option Header

unfoldable pub write : Cells → ℕ → Header → Cells
write cells p h a = if a == p then some h else cells a

-- `kern_heap_t` and `alloc_heap_t`, with the memory behind them: the headers, the bytes, and what
-- the growth of the heap works on (`env`).
pub record Heap (E : Type 0) : Type 0 where
  pub allocated_size : ℕ
  pub start : ℕ
  pub end : ℕ
  pub head : ℕ
  pub cells : Cells
  pub bytes : ℕ → ℕ
  pub env : E

-- The new end of the heap, what is added to `allocated_size`, and the new environment, from the
-- number of bytes and the old end.
abbrev pub Grow : Type 0 → Type 0
Grow E = ℕ → ℕ → E → Option (ℕ × ℕ × E)

-- `memset_8(addr, 0, n)`
pub zero_bytes : (ℕ → ℕ) → ℕ → ℕ → ℕ → ℕ
zero_bytes bytes addr n a = if leb addr a && ltb a (addr + n) then 0 else bytes a

-- `((size + 7) & ~7) + sizeof(kalloc_t)`
pub total_size : ℕ → ℕ
total_size size = add32 (add32 size 7 / 8 * 8) header_size

-- The test that ends the search: the block is free and large enough.
pub fits : ℕ → Header → Bool
fits size h = not (slt32 h.size size) && not h.present

-- The search: the first block that fits, or the last block.
pub find_item : ℕ → Cells → ℕ → ℕ → Option (ℕ × Header)
unfolding fits
find_item zero cells size item = none
find_item (suc fuel) cells size item = elim (cells item) [
  | none ↦ none
  | some h ↦ elim (h.next == 0) [
    | true ↦ some (item, h)
    | false ↦ elim (fits size h) [
      | true ↦ some (item, h)
      | false ↦ find_item fuel cells size h.next
    ]
  ]
]

-- A block in the middle of the list is taken, and split if a header and a byte are left over.
pub take_block : Cells → ℕ → ℕ → Header → Cells × ℕ
unfolding write
take_block cells size item h =
    let diff = sub32 h.size size in
    let whole : Cells × ℕ = (write cells item (record h { present = true }), h.size) in
    if slt32 0 diff
    then (if not (slt32 diff (header_size + 1))
        then (let sibling = add32 item (add32 header_size size) in
            let taken = write cells item (record { size = size; next = sibling; present = true }) in
            let rest : Header = record {
              size = sub32 diff header_size;
              next = h.next;
              present = false;
            } in
            (write taken sibling rest, size))
        else whole)
    else whole

module _ {E : Type 0} where
  -- Zero the area behind the header, and return its address.
  pub deliver : Heap E → ℕ → ℕ → ℕ × Heap E
  unfolding zero_bytes
  deliver heap item size =
      let addr = add32 item header_size in
      (addr, record heap { bytes = zero_bytes heap.bytes addr size })

  -- The first block of an empty heap.
  pub first_block : Heap E → ℕ → ℕ × Heap E
  unfolding write deliver
  first_block heap size =
      let h : Header = record { size = size; next = 0; present = true } in
      deliver (record heap { head = heap.start; cells = write heap.cells heap.start h }) heap.start
        size

  -- A new block behind the last one.
  pub append_block : Heap E → ℕ → ℕ → Header → ℕ → ℕ × Heap E
  unfolding write deliver
  append_block heap size item h hsaddr =
      let linked = write heap.cells item (record h { next = hsaddr }) in
      let new : Header = record { size = size; next = 0; present = true } in
      deliver (record heap { cells = write linked hsaddr new }) hsaddr size

  -- The branch for the last block, growing the heap where it is too short; the address 0 is NULL.
  extend_list : Grow E → Heap E → ℕ → ℕ → Header → Option (ℕ × Heap E)
  unfolding append_block total_size
  extend_list grow heap size item h =
      let hsaddr = add32 item (add32 header_size h.size) in
      let headdr = add32 hsaddr (total_size size) in
      if ltb headdr heap.end
      then some (append_block heap size item h hsaddr)
      else elim (grow (total_size size) heap.end heap.env) [
        | none ↦ none
        | some (end, more, env) ↦
            let grown = record heap {
              end = end;
              allocated_size = add32 heap.allocated_size more;
              env = env;
            } in
            some (if ltb headdr end then append_block grown size item h hsaddr else (0, grown))
      ]

  -- The branch for a block that was found in the middle.
  reuse_block : Heap E → ℕ → ℕ → Header → ℕ × Heap E
  unfolding take_block deliver
  reuse_block heap size item h =
      let (cells, n) = take_block heap.cells size item h in
      deliver (record heap { cells = cells }) item n

  -- What follows the search.
  place : Grow E → Heap E → ℕ → Option (ℕ × Header) → Option (ℕ × Heap E)
  unfolding extend_list reuse_block
  place grow heap size none = none
  place grow heap size (some (item, h)) =
      if h.next == 0 then extend_list grow heap size item h else some (reuse_block heap size item h)

  -- `kern_malloc` and `alloc_allocate`. Each block takes a header, so the bytes of the heap are
  -- enough fuel.
  pub allocate : Grow E → Heap E → ℕ → Option (ℕ × Heap E)
  unfolding find_item first_block place
  allocate grow heap size =
      if heap.head == 0
      then some (first_block heap size)
      else place grow heap size (find_item (heap.end - heap.start) heap.cells size heap.head)

  -- `kern_free` and `alloc_free`
  pub free : Heap E → ℕ → Option (Heap E)
  unfolding write
  free heap object =
      let freed = sub32 object header_size in
      elim (heap.cells freed) [
        | none ↦ none
        | some h ↦
            some (record heap { cells = write heap.cells freed (record h { present = false }) })
      ]
