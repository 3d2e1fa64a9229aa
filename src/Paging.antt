-- ===== src/Paging.antt =====
-- kernel/memory/memory_paging.c: page directories and page tables in physical memory.
-- `words f i` is the 32-bit word `i` of the frame `f`, which the code reaches through the window
-- that `temp_map_page` opens. The processor's caches and its accessed and dirty bits are left out.
pub mod Space
pub mod Tables
pub mod Mapping
mod Tests
use dbos.Base.{
  ℕ, zero, suc, ◌+◌, ◌-◌, ◌*◌, ◌/◌, ◌%◌, ◌^◌, Bool, true, false, ◌&&◌, Option, none, some, ltb, leb,
  ◌==◌, if◌then◌else◌,
}
use dbos.Base.Word.{u32_mod, sub32, add32}
use dbos.Phys.{Phys, page_byte_len, align_page, alloc_page, get_refcount, decrease_refcount, free}

pub record Memory : Type 0 where
  pub phys : Phys
  pub words : ℕ → ℕ → ℕ

-- The page that `temp_map_page` maps anew at each call: what it leaves in the entry of this page is not
-- in the model, so nothing is said about this page's own mapping.
abbrev pub temp_window : ℕ
temp_window = 0xC000_0000

-- The frame that `temp_map_page` shows in its window.
abbrev pub frame_of : ℕ → ℕ
frame_of address = address / page_byte_len

unfoldable pub write_word : Memory → ℕ → ℕ → ℕ → Memory
write_word m frame index value = record m {
  words = λ f i. if (f == frame) && (i == index) then value else m.words f i;
}

-- `memset_32` of the 1024 words of a frame
unfoldable pub clear_frame : Memory → ℕ → Memory
clear_frame m frame = record m { words = λ f i. if f == frame then 0 else m.words f i }

-- `get_page_directory_index`
abbrev pub directory_index : ℕ → ℕ
directory_index virt = virt / 2 ^ 22 % 1024

-- `get_page_table_index`
abbrev pub table_index : ℕ → ℕ
table_index virt = virt / 2 ^ 12 % 1024

-- The bit fields `present_bit`, `read_write`, `user_supervisor` and the 20 bits of the address.
abbrev pub present_bit : ℕ → ℕ
present_bit entry = entry % 2

abbrev pub read_write : ℕ → ℕ
read_write entry = entry / 2 % 2

abbrev pub address_field : ℕ → ℕ
address_field entry = entry / 2 ^ 12 % 2 ^ 20

-- An entry that was zeroed and then given its bit fields, with `read_write` set.
abbrev pub make_entry : ℕ → ℕ → ℕ → ℕ
make_entry present user frame = present % 2 + 2 + 4 * (user % 2) + 2 ^ 12 * (frame % 2 ^ 20)

-- The page table for an address, 0 for none.
unfoldable pub table_of : Memory → ℕ → ℕ → ℕ
table_of m directory virt = address_field (m.words (frame_of directory) (directory_index virt))

-- The address that the table maps the page `v` to, 0 where there is no table.
mapped_in : Memory → ℕ → ℕ → ℕ
mapped_in m v table =
    if table == 0 then 0 else 2 ^ 12 * address_field (m.words table (table_index v))

-- `get_mapped_address`
unfoldable pub get_mapped_address : Memory → ℕ → ℕ → ℕ
unfolding mapped_in
get_mapped_address m directory virt =
    let v = align_page virt in mapped_in m v (table_of m directory v)

-- `unset_page_table_entry`
pub unset_page_table_entry : Memory → ℕ → ℕ → Memory
unset_page_table_entry m directory virt =
    let v = align_page virt in
    let table = table_of m directory v in
    if table == 0 then m else write_word m table (table_index v) 0

-- The page table for an address, allocated, entered and cleared where there is none.
pub ensure_table : Memory → ℕ → ℕ → ℕ → Option (ℕ × Memory)
unfolding table_of write_word clear_frame
ensure_table m directory v user =
    let table = table_of m directory v in
    if table == 0
    then elim (alloc_page m.phys) [
      | none ↦ none
      | some (page, phys) ↦
          let pde = make_entry 1 user (frame_of page) in
          let entered =
            write_word (record m { phys = phys }) (frame_of directory) (directory_index v) pde in
          some (frame_of page, clear_frame entered (frame_of page))
    ]
    else some (table, m)

-- `set_page_table_entry`; `none` where the frame allocator fails.
pub set_page_table_entry : Memory → ℕ → ℕ → ℕ → ℕ → ℕ → Option Memory
set_page_table_entry m directory virt address present user =
    let v = align_page virt in
    elim (ensure_table m directory v user) [
      | none ↦ none
      | some (table, m') ↦ some (
          write_word m' table (table_index v)
            (make_entry present user (frame_of (align_page address))))
    ]
