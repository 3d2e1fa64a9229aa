-- ===== src/Phys/Tests.antt =====
-- The theorems on page frames at a machine with two lower and three upper frames.
use dbos.Base.{ℕ, ◌≤◌, ◌<◌, ◌≡◌, refl, ◌⊎◌, none, some, [], ◌∷◌, arith, get_elem?}
use dbos.Phys.{Phys, alloc_page, init_phys}
use dbos.Phys.Frames.{IsReady, Allocated, alloc_page-Allocated}
use dbos.Phys.Init.{init_phys-ClaimsRange}

-- Frame 0 is in use once, frame 1 twice, frame 3 255 times.
abbrev five : Phys
five = record {
  lower = 0x2000;
  lower_pages = 2;
  upper = 0x3000;
  upper_pages = 3;
  usable_bytes = 0x5000;
  pages = 5;
  size = 5;
  table = 0x10_0000;
  refcounts = 1 ∷ 2 ∷ 0 ∷ 255 ∷ 0 ∷ [];
  free_list = record { allocation = none; address = 0 } ∷ [];
}

five-IsReady : IsReady five
five-IsReady = record { laid_out = omega arith; counted = refl; no_slots = (refl, tt) }

alloc_page-Allocated_example : (out : ℕ × Phys) × (alloc_page five ≡ some out) × Allocated five out
alloc_page-Allocated_example = alloc_page-Allocated five-IsReady

-- 640 KiB and 7 MiB, with the last module ending at 2 MiB: the table takes the frame at index 417.
init_phys-ClaimsRange_example :
    (s : Phys) × (init_phys 640 7168 0x20_0000 ≡ some s)
    × IsReady s
    × ((j : ℕ) → 417 ≤ j → j < 418 → get_elem? s.refcounts j ≡ some 1)
    × ((j : ℕ) → j < 1952 → (j < 417) ⊎ (418 ≤ j) → get_elem? s.refcounts j ≡ some 0)
init_phys-ClaimsRange_example = init_phys-ClaimsRange 640 7168 0x20_0000 (omega arith)
