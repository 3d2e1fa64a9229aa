-- ===== src/Phys/Addr.antt =====
-- Frames, indices and addresses of memory_phys.c.
use dbos.Base.{ℕ, ◌+◌, ◌-◌, ◌*◌, ◌/◌, ◌%◌, ◌≤◌, ◌<◌, ◌≡◌, ◌≢◌, ◌⊎◌, none, some, arith}
use native.Mathlib.Decide.{dec_lt}
use dbos.Base.Word.{u32_mod}
use dbos.Phys.{
  Phys, page_byte_len, upper_start, align_page, virtual_to_physical, physical_to_virtual,
  addr_to_index, index_to_addr, get_alloc,
}

-- `align_page` rounds an address down to the start of its page.
pub align_page_lem : (addr : ℕ) → addr < u32_mod → align_page addr ≡ addr - addr % page_byte_len
unfolding align_page
align_page_lem addr h = ground arith

-- Inside the address space the two translations undo one another.
pub physical-virtual :
    (addr : ℕ)
    → addr < u32_mod
    → (physical_to_virtual (virtual_to_physical addr) ≡ addr)
      × (virtual_to_physical (physical_to_virtual addr) ≡ addr)
unfolding virtual_to_physical physical_to_virtual
physical-virtual addr h = omega arith

-- The sizes that `init_phys_memory` leaves, for memory that fits in the address space and whose
-- lower part ends at a page boundary at or below 1 MiB.
pub record IsLaidOut (s : Phys) : Type 0 where
  pub lower_whole : s.lower ≡ s.lower_pages * page_byte_len
  pub lower_small : s.lower ≤ upper_start
  pub pages_sum : s.pages ≡ s.lower_pages + s.upper_pages
  pub upper_fits : upper_start + s.upper_pages * page_byte_len ≤ u32_mod

-- The address belongs to one of the frames that the table counts.
pub record IsManaged (s : Phys) (addr : ℕ) : Type 0 where
  pub in_range : addr < u32_mod
  pub below : (addr < s.lower) ⊎ (upper_start ≤ addr)
  pub inside : addr < upper_start + s.upper_pages * page_byte_len

-- Each index of the table names the frame whose index it is: the two conversions are inverse on
-- the frames of the table, and a frame's address is aligned.
pub addr-index :
    {s : Phys} (i : ℕ)
    → IsLaidOut s
    → i < s.pages
    → (addr_to_index s (index_to_addr s i) ≡ some i)
      × (index_to_addr s i % page_byte_len ≡ 0)
      × (index_to_addr s i < u32_mod)
unfolding addr_to_index index_to_addr
addr-index {s} i v h = ground arith

-- For a managed address the entry that `alloc_phys_get_alloc` finds is inside the table, and its
-- frame is the page that holds the address.
pub index-get_alloc :
    {s : Phys} (addr : ℕ)
    → IsLaidOut s
    → IsManaged s addr
    → (i : ℕ) × (get_alloc s addr ≡ some i) × (i < s.pages) × (index_to_addr s i ≡ align_page addr)
unfolding get_alloc index_to_addr
index-get_alloc {s} addr v m = elim (dec_lt addr s.lower) [
  | yes p ↦ (
    align_page addr / page_byte_len,
    ground (arith, align_page_lem addr m.in_range),
    ground (arith, align_page_lem addr m.in_range),
    ground (arith, align_page_lem addr m.in_range),
  )
  | no p ↦ (
    s.lower_pages + (align_page addr - upper_start) / page_byte_len,
    ground (arith, align_page_lem addr m.in_range),
    ground (arith, align_page_lem addr m.in_range),
    ground (arith, align_page_lem addr m.in_range),
  )
]

-- No address between the lower memory and 1 MiB has an entry.
pub get_alloc-hole :
    {s : Phys} (addr : ℕ)
    → IsLaidOut s
    → s.lower ≤ addr
    → addr < upper_start
    → get_alloc s addr ≡ none
unfolding get_alloc
get_alloc-hole {s} addr v lo hi = ground (arith, align_page_lem addr (omega arith))

-- Where the lower memory does not end at a page boundary, its last, partial page shares the entry
-- of the first frame at 1 MiB.
pub partial_page_shared :
    (s : Phys)
    → s.lower_pages ≡ s.lower / page_byte_len
    → s.lower % page_byte_len ≢ 0
    → s.lower ≤ upper_start
    → (get_alloc s (s.lower_pages * page_byte_len) ≡ some s.lower_pages)
      × (get_alloc s upper_start ≡ some s.lower_pages)
unfolding get_alloc
partial_page_shared s e h small = (
  ground (arith, align_page_lem (s.lower_pages * page_byte_len) (omega arith)),
  ground (arith, align_page_lem upper_start (omega arith)),
)

-- The entry of the frame at an index is the one at that index.
pub get_alloc-index :
    {s : Phys} (i : ℕ) → IsLaidOut s → i < s.pages → get_alloc s (index_to_addr s i) ≡ some i
unfolding get_alloc
get_alloc-index {s} i v h =
    let (e, aligned, small) = addr-index i v h in
    let here : align_page (index_to_addr s i) ≡ index_to_addr s i =
      omega (arith, align_page_lem (index_to_addr s i) small) in
    rw (here, get_alloc) e
