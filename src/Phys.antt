-- ===== src/Phys.antt =====
-- kernel/memory/memory_phys.c: the allocator of physical page frames.
-- The bytes behind the pointer `allocations` are the list `refcounts`, and a `palloc_t *` is an
-- index into it (`none` is NULL). An operation returns `none` where the code would read or write
-- outside that table.
pub mod Addr
pub mod Frames
pub mod Stock
pub mod Refcount
pub mod Init
mod Tests
use dbos.Base.{
  ℕ, zero, suc, ◌+◌, ◌-◌, ◌*◌, ◌/◌, ◌%◌, ◌^◌, Bool, true, false, Option, none, some, List, [], ◌∷◌,
  ltb, leb, ◌==◌, if◌then◌else◌, get_elem?, set, replicate,
}
use dbos.Base.Word.{u32_mod, add32, sub32}

abbrev pub page_byte_len : ℕ
page_byte_len = 0x1000

abbrev pub upper_start : ℕ
upper_start = 0x0010_0000

abbrev pub kern_vma : ℕ
kern_vma = 0xC000_0000

abbrev pub mg_size : ℕ
mg_size = 0x400 * 0x400

abbrev pub phys_free_max : ℕ
phys_free_max = 256

-- `fpalloc_t`
pub record FreeSlot : Type 0 where
  pub allocation : Option ℕ
  pub address : ℕ

-- The globals of the file.
pub record Phys : Type 0 where
  pub lower : ℕ
  pub lower_pages : ℕ
  pub upper : ℕ
  pub upper_pages : ℕ
  pub usable_bytes : ℕ
  pub pages : ℕ
  pub size : ℕ
  pub table : ℕ
  pub refcounts : List ℕ
  pub free_list : List FreeSlot

-- `align_to`. A zero alignment, on which the source divides by zero, gives `addr` here.
unfoldable pub align_to : ℕ → ℕ → ℕ
align_to addr alignment =
    if addr % alignment == 0
    then addr
    else if addr == 0
    then 0
    else (alignment * (addr / alignment)) % u32_mod

unfoldable pub align_page : ℕ → ℕ
unfolding align_to
align_page addr = align_to addr page_byte_len

pub virtual_to_physical : ℕ → ℕ
virtual_to_physical addr = add32 (sub32 addr kern_vma) mg_size

pub physical_to_virtual : ℕ → ℕ
physical_to_virtual addr = sub32 (add32 addr kern_vma) mg_size

-- `alloc_phys_addr_to_index`; `none` is the index -1.
unfoldable pub addr_to_index : Phys → ℕ → Option ℕ
addr_to_index s p_addr =
    if ltb p_addr s.lower
    then some (p_addr / page_byte_len)
    else if leb upper_start p_addr
    then some (s.lower_pages + (p_addr - upper_start) / page_byte_len)
    else none

-- `alloc_phys_index_to_addr`
unfoldable pub index_to_addr : Phys → ℕ → ℕ
index_to_addr s index =
    if ltb index s.lower_pages
    then (index * page_byte_len) % u32_mod
    else add32 (((index - s.lower_pages) * page_byte_len) % u32_mod) upper_start

-- `alloc_phys_get_alloc`
unfoldable pub get_alloc : Phys → ℕ → Option ℕ
unfolding align_page addr_to_index
get_alloc s p_addr = addr_to_index s (align_page p_addr)

-- `p->refcount = r` for the entry at `i`
abbrev pub set_refcount : Phys → ℕ → ℕ → Phys
set_refcount s i r = record s { refcounts = set s.refcounts i r }

pub increase_at : Phys → ℕ → ℕ → Phys
increase_at s i r = if leb 1 r then set_refcount s i ((r + 1) % 256) else s

decrease_at : Phys → ℕ → ℕ → Phys
decrease_at s i r = if ltb 0 r then set_refcount s i (r - 1) else s

claim_at : Phys → ℕ → ℕ → ℕ → ℕ × Phys
claim_at s p_addr i r = if r == 0 then (p_addr, set_refcount s i 1) else (0, s)

-- `alloc_phys_increase_refcount`; the count is a `uint8_t`.
pub increase_refcount : Phys → ℕ → Option Phys
unfolding increase_at
increase_refcount s addr = elim (get_alloc s addr) [
  | none ↦ some s
  | some i ↦ elim (get_elem? s.refcounts i) [ none ↦ none | some r ↦ some (increase_at s i r) ]
]

-- `alloc_phys_decrease_refcount`
pub decrease_refcount : Phys → ℕ → Option Phys
unfolding decrease_at
decrease_refcount s addr = elim (get_alloc s addr) [
  | none ↦ some s
  | some i ↦ elim (get_elem? s.refcounts i) [ none ↦ none | some r ↦ some (decrease_at s i r) ]
]

-- `alloc_phys_get_refcount`; the inner `none` is the result -1.
pub get_refcount : Phys → ℕ → Option (Option ℕ)
get_refcount s addr = elim (get_alloc s addr) [
  | none ↦ some none
  | some i ↦ elim (get_elem? s.refcounts i) [ none ↦ none | some r ↦ some (some r) ]
]

-- `alloc_phys_addr`
pub alloc_addr : Phys → ℕ → Option (ℕ × Phys)
unfolding claim_at align_page
alloc_addr s p_addr = elim (get_alloc s p_addr) [
  | none ↦ some (0, s)
  | some i ↦ elim (get_elem? s.refcounts i) [
    | none ↦ none
    | some r ↦ some (claim_at s (align_page p_addr) i r)
  ]
]

-- The loop of `alloc_phys_free` with what the array holds afterwards. The two assignments in it are
-- made to `fp`, a copy of the slot, so `fp` is dropped and the slot stays.
pub file_freed : List FreeSlot → ℕ → ℕ → List FreeSlot
file_freed [] allocation addr = []
file_freed (slot ∷ slots) allocation addr = elim slot.allocation [
  | none ↦ let fp = record slot { allocation = some allocation; address = addr } in slot ∷ slots
  | some other ↦ slot ∷ file_freed slots allocation addr
]

-- `alloc_phys_free`
pub free : Phys → ℕ → Option Phys
unfolding file_freed
free s addr = elim (get_alloc s addr) [
  | none ↦ some s
  | some i ↦ elim (get_elem? s.refcounts i) [
    | none ↦ none
    | some _ ↦
        some
          (record s { refcounts = set s.refcounts i 0; free_list = file_freed s.free_list i addr })
  ]
]

-- The first loop of `alloc_phys_page`: the first slot that is in use, and the array without it.
take_slot : List FreeSlot → Option (ℕ × ℕ × List FreeSlot)
take_slot [] = none
take_slot (slot ∷ slots) = elim slot.allocation [
  | some i ↦ some (i, slot.address, record slot { allocation = none; address = 0 } ∷ slots)
  | none ↦ elim (take_slot slots) [
    | none ↦ none
    | some (i, addr, rest) ↦ some (i, addr, slot ∷ rest)
  ]
]

-- Its second loop with `n` rounds left: the first index whose count is 0; the outer `none` is a
-- read outside the table.
find_unused : List ℕ → ℕ → ℕ → Option (Option ℕ)
find_unused refcounts zero i = some none
find_unused refcounts (suc n) i = elim (get_elem? refcounts i) [
  | none ↦ none
  | some r ↦ elim (r == 0) [ true ↦ some (some i) | false ↦ find_unused refcounts n (i + 1) ]
]

scan_page : Phys → Option (ℕ × Phys)
unfolding find_unused index_to_addr
scan_page s = elim (find_unused s.refcounts s.pages 0) [
  | none ↦ none
  | some none ↦ some (0, s)
  | some (some i) ↦ some (index_to_addr s i, set_refcount s i 1)
]

-- `alloc_phys_page`
unfoldable pub alloc_page : Phys → Option (ℕ × Phys)
unfolding take_slot scan_page
alloc_page s = elim (take_slot s.free_list) [
  | none ↦ scan_page s
  | some (i, addr, slots) ↦ elim (get_elem? s.refcounts i) [
    | none ↦ none
    | some _ ↦ some (addr, record s { refcounts = set s.refcounts i 1; free_list = slots })
  ]
]

-- The loop at the end of `init_phys_memory`, on fuel. `none`: out of the table, or out of fuel.
claim_table : ℕ → Phys → ℕ → ℕ → Option Phys
claim_table zero s addr limit = none
claim_table (suc fuel) s addr limit = elim (ltb addr limit) [
  | false ↦ some s
  | true ↦ elim (alloc_addr s addr) [
    | none ↦ none
    | some (_, s') ↦ claim_table fuel s' (add32 addr page_byte_len) limit
  ]
]

-- The assignments of `init_phys_memory` from the sizes in KiB that the boot loader reports and the
-- end of the last module, with the table cleared.
layout : ℕ → ℕ → ℕ → Phys
unfolding align_page
layout memory_lower memory_upper last_mod_end =
    let lower = (memory_lower * 1024) % u32_mod in
    let upper = (memory_upper * 1024) % u32_mod in
    let pages = add32 (upper / 4096) (lower / 4096) in
    record {
      lower = lower;
      lower_pages = lower / 4096;
      upper = upper;
      upper_pages = upper / 4096;
      usable_bytes = add32 lower upper;
      pages = pages;
      size = pages;
      table = add32 (align_page last_mod_end) 0x1000;
      refcounts = replicate pages 0;
      free_list = replicate phys_free_max (record { allocation = none; address = 0 });
    }

-- `init_phys_memory`
pub init_phys : ℕ → ℕ → ℕ → Option Phys
unfolding claim_table layout
init_phys memory_lower memory_upper last_mod_end =
    let s = layout memory_lower memory_upper last_mod_end in
    claim_table (s.size / page_byte_len + 2) s s.table (add32 s.table s.size)
