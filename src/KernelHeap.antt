-- ===== src/KernelHeap.antt =====
-- kernel/memory/memory_heap.c: the allocator over the kernel's own memory, which it extends by
-- frames of the physical allocator, mapped at the end of the heap.
pub mod Growth
mod Tests
use dbos.Base.{
  ℕ, true, false, ◌==◌, zero, suc, ◌+◌, ◌/◌, ◌%◌, Option, none, some, ltb, if◌then◌else◌,
}
use dbos.Base.Word.{add32}
use dbos.Phys.{page_byte_len, alloc_page}
use dbos.Paging.{Memory, set_page_table_entry}
use dbos.Allocator
use dbos.Allocator.{Cells, Heap, allocate}

abbrev pub kernel_heap_init_addr : ℕ
kernel_heap_init_addr = 0xD000_0000

-- The loop of `increase_heap` with `n` rounds left; `more` is what `allocated_size` has gained, and
-- `user` the privilege of the pages, 0 here. The loop of `sysc_sbrk` is the same but for it. Where no
-- frame is left the code maps the address 0 for each page, so that all of them are one frame; the bytes
-- of the heap do not show that, and the model ends there with `none`.
unfoldable pub grow_pages : ℕ → ℕ → ℕ → ℕ → ℕ → Memory → Option (ℕ × ℕ × Memory)
grow_pages zero user directory end more m = some (end, more, m)
grow_pages (suc n) user directory end more m = elim (alloc_page m.phys) [
  | none ↦ none
  | some (heap_phys, phys) ↦ elim (heap_phys == 0) [
    | true ↦ none
    | false ↦
        elim (set_page_table_entry (record m { phys = phys }) directory end heap_phys 1 user) [
          | none ↦ none
          | some m' ↦
              grow_pages n user directory (add32 end page_byte_len) (add32 more page_byte_len) m'
        ]
  ]
]

-- `increase_heap` in the page directory of the address space that is active.
pub increase_heap : ℕ → ℕ → ℕ → Memory → Option (ℕ × ℕ × Memory)
unfolding grow_pages
increase_heap directory bytes end m =
    let pages =
      if ltb 0 (bytes % page_byte_len) then bytes / page_byte_len + 1 else bytes / page_byte_len in
    grow_pages pages 0 directory end 0 m

-- `initialise_heap`, with the bytes that the memory holds.
pub initialise_heap : ℕ → (ℕ → ℕ) → Memory → Option (Heap Memory)
initialise_heap directory bytes m = elim (alloc_page m.phys) [
  | none ↦ none
  | some (heap_init_phys, phys) ↦
      elim (set_page_table_entry (record m { phys = phys }) directory kernel_heap_init_addr
        heap_init_phys 1 0) [
          | none ↦ none
          | some m' ↦ some (record {
            allocated_size = page_byte_len;
            start = kernel_heap_init_addr;
            end = add32 kernel_heap_init_addr page_byte_len;
            head = 0;
            cells = λ a. none;
            bytes = bytes;
            env = m';
          })
        ]
]

pub kern_malloc : ℕ → Heap Memory → ℕ → Option (ℕ × Heap Memory)
kern_malloc directory heap size = allocate (increase_heap directory) heap size

pub kern_free : Heap Memory → ℕ → Option (Heap Memory)
kern_free heap object = Allocator.free heap object
