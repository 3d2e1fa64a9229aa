-- ===== src/UserHeap.antt =====
-- libraries/alloc.c, the allocator of the user programs, over `sysc_sbrk` of kernel/process/syscall.c,
-- which moves the end of a process's memory. The search and the blocks are those of Allocator.
pub mod Growth
mod Tests
use dbos.Base.{ℕ, zero, suc, ◌+◌, ◌-◌, ◌*◌, ◌/◌, ◌%◌, ◌^◌, Option, none, some, ◌==◌, if◌then◌else◌}
use dbos.Base.Maybe.{◌>>=◌}
use dbos.Base.Word.{u32_mod, add32, sub32, slt32}
use dbos.Phys
use dbos.Phys.{page_byte_len}
use dbos.Paging.{Memory, get_mapped_address, unset_page_table_entry}
use dbos.KernelHeap.{grow_pages}
use dbos.Allocator
use dbos.Allocator.{Heap, Grow, allocate}

-- The number of rounds that a loop makes which counts up to the `int` `pages`.
abbrev pub rounds : ℕ → ℕ
rounds pages = if slt32 0 pages then pages else 0

-- The pages that `bytes` need, as an `int`; the division of a negative number is that of its
-- absolute value, with the sign in front of the quotient and the remainder.
pub break_pages : ℕ → ℕ
break_pages bytes =
    if slt32 bytes 0
    then (let left = sub32 0 bytes in
        let pages = sub32 0 (left / page_byte_len) in
        if slt32 0 (sub32 0 (left % page_byte_len)) then add32 pages 1 else pages)
    else if slt32 0 (bytes % page_byte_len)
    then bytes / page_byte_len + 1
    else bytes / page_byte_len

-- The loop of `sysc_sbrk` that gives pages back.
pub shrink_pages : ℕ → ℕ → ℕ → Memory → Option (ℕ × Memory)
shrink_pages zero directory heap_end m = some (heap_end, m)
shrink_pages (suc n) directory heap_end m =
    let page = sub32 heap_end page_byte_len in
    let frame = get_mapped_address m directory page in
    let m' = unset_page_table_entry m directory page in
    elim (Phys.free m'.phys frame) [
      | none ↦ none
      | some phys ↦ shrink_pages n directory page (record m' { phys = phys })
    ]

-- `sysc_sbrk` for the process with the page directory; the result is the end that it returns, which
-- is also the new `heap_end`.
pub sbrk : ℕ → ℕ → ℕ → Memory → Option (ℕ × Memory)
sbrk directory bytes heap_end m =
    if bytes == 0
    then some (heap_end, m)
    else if slt32 0 bytes
    then (do
      (heap_end, more, m) ← grow_pages (rounds (break_pages bytes)) 1 directory heap_end 0 m
      some (heap_end, m))
    else shrink_pages (rounds (break_pages bytes)) directory heap_end m

-- What the allocator of a process works on: the process's `heap_end`, and the machine.
pub record Break : Type 0 where
  pub heap_end : ℕ
  pub machine : Memory

abbrev pub alloc_heap_start : ℕ
alloc_heap_start = 0x5000_0000

-- `alloc_initialise`, with the bytes that the memory holds. `allocated_size` is a difference of
-- pointers to four bytes.
alloc_initialise : ℕ → ℕ → (ℕ → ℕ) → Break → Heap Break
alloc_initialise used current_end bytes env =
    let start = add32 alloc_heap_start used in
    let span = sub32 current_end start in
    record {
      allocated_size = if slt32 span 0 then (span + 3 * u32_mod) / 4 else span / 4;
      start = start;
      end = current_end;
      head = 0;
      cells = λ a. none;
      bytes = bytes;
      env = env;
    }

-- `alloc_increase_memory`
pub alloc_increase_memory : ℕ → ℕ → ℕ → Break → Option (ℕ × ℕ × Break)
alloc_increase_memory directory bytes old_end b = elim (sbrk directory bytes b.heap_end b.machine) [
  | none ↦ none
  | some (new_end, m) ↦
      some (new_end, sub32 new_end old_end, record { heap_end = new_end; machine = m })
]

pub alloc_allocate : ℕ → Heap Break → ℕ → Option (ℕ × Heap Break)
alloc_allocate directory heap size = allocate (alloc_increase_memory directory) heap size

alloc_free : Heap Break → ℕ → Option (Heap Break)
alloc_free heap memory = Allocator.free heap memory

-- `alloc_reallocate`
alloc_reallocate : ℕ → Heap Break → ℕ → ℕ → Option (ℕ × Heap Break)
unfolding alloc_free alloc_allocate
alloc_reallocate directory heap memory size = do
  heap ← alloc_free heap memory
  alloc_allocate directory heap size
