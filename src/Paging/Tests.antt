-- ===== src/Paging/Tests.antt =====
-- The theorems on page tables at a directory with one table.
use dbos.Base.{ℕ, ◌<◌, ◌≡◌, refl, ◌≢◌, ◌&&◌, some, [], ◌∷◌, arith, ◌==◌, if◌then◌else◌}
use dbos.Phys.{Phys, alloc_page, align_page, get_alloc}
use native.Mathlib.Decide.{ℕ_discrete}
use dbos.Phys.Frames.{IsReady}
use dbos.Paging.{
  Memory, temp_window, table_of, get_mapped_address, set_page_table_entry, unset_page_table_entry,
  make_entry, address_field,
}
use dbos.Paging.Space.{InUse, IsSpace}
use dbos.Paging.Tables.{CanAlloc}
use dbos.Paging.Mapping.{set_page_table_entry-maps, unset_page_table_entry-unmaps}

-- Frames 0, 1, 256 and 257 are in use, frame 258 is not.
abbrev frames : Phys
frames = record {
  lower = 0x2000;
  lower_pages = 2;
  upper = 0x3000;
  upper_pages = 3;
  usable_bytes = 0x5000;
  pages = 5;
  size = 5;
  table = 0x10_0000;
  refcounts = 1 ∷ 1 ∷ 1 ∷ 1 ∷ 0 ∷ [];
  free_list = [];
}

-- The directory is frame 1; its entry 64 names the table in frame 257, which maps 0x10001000 to
-- frame 256.
abbrev one_table : Memory
one_table = record {
  phys = frames;
  words = λ f i.
      if (f == 1) && (i == 64)
      then make_entry 1 1 257
      else if (f == 257) && (i == 1)
      then make_entry 1 1 256
      else 0;
}

frames-IsReady : IsReady frames
frames-IsReady = record { laid_out = omega arith; counted = refl; no_slots = tt }

dir_used : InUse frames 1
unfolding get_alloc
dir_used = record { index = 1; count = 1; entry = refl; holds = refl; positive = omega arith }

table_used : InUse frames 257
unfolding get_alloc
table_used = record { index = 3; count = 1; entry = refl; holds = refl; positive = omega arith }

table_used_at :
    (i : ℕ)
    → address_field (one_table.words 1 i) ≢ 0
    → InUse frames (address_field (one_table.words 1 i))
table_used_at i nz = elim (ℕ_discrete i 64) [
  | yes here ↦ rw here table_used
  | no away ↦ absurd (nz (ground arith))
]

one_table-IsSpace : IsSpace one_table 0x1000
one_table-IsSpace = record {
  ready = frames-IsReady;
  dir_used = dir_used;
  dir_small = omega arith;
  table_used = λ i hi nz. table_used_at i nz;
  table_ne_dir = λ i hi. ground arith;
  tables_ne = λ i j hi hj ne nz. ground arith;
}

can_alloc : CanAlloc one_table
unfolding alloc_page
can_alloc = record {
  page = 0x10_2000;
  phys' = record frames { refcounts = 1 ∷ 1 ∷ 1 ∷ 1 ∷ 1 ∷ [] };
  result = refl;
  ne_zero = omega arith;
}

away_map : align_page 0x4000_0000 ≢ temp_window
unfolding align_page
away_map = omega arith

away_unmap : align_page 0x1000_1ABC ≢ temp_window
unfolding align_page
away_unmap = omega arith

set_page_table_entry-maps_example :
    (m' : Memory) × (set_page_table_entry one_table 0x1000 0x4000_0000 0x10_0123 1 1 ≡ some m')
    × IsSpace m' 0x1000
    × (get_mapped_address m' 0x1000 0x4000_0000 ≡ align_page 0x10_0123)
    × ((w : ℕ)
        → w < 0xFFC0_0000
        → align_page w ≢ temp_window
        → align_page 0x4000_0000 ≢ align_page w
        → get_mapped_address m' 0x1000 w ≡ get_mapped_address one_table 0x1000 w)
set_page_table_entry-maps_example =
    set_page_table_entry-maps one_table 0x1000 0x4000_0000 0x10_0123 1 1 one_table-IsSpace can_alloc
      (omega arith) away_map (omega arith)

mapped_before : get_mapped_address one_table 0x1000 0x1000_1ABC ≡ 0x10_0000
unfolding get_mapped_address align_page table_of
mapped_before = refl

unset_page_table_entry-unmaps_example :
    (get_mapped_address (unset_page_table_entry one_table 0x1000 0x1000_1ABC) 0x1000 0x1000_1ABC
      ≡ 0)
    × IsSpace (unset_page_table_entry one_table 0x1000 0x1000_1ABC) 0x1000
    × ((w : ℕ)
        → w < 0xFFC0_0000
        → align_page w ≢ temp_window
        → align_page 0x1000_1ABC ≢ align_page w
        → get_mapped_address (unset_page_table_entry one_table 0x1000 0x1000_1ABC) 0x1000 w
          ≡ get_mapped_address one_table 0x1000 w)
unset_page_table_entry-unmaps_example =
    unset_page_table_entry-unmaps one_table 0x1000 0x1000_1ABC one_table-IsSpace (omega arith)
      away_unmap
