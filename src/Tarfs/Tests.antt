-- ===== src/Tarfs/Tests.antt =====
-- Runs of the tar file system at a small header.
use dbos.Base.{ℕ, ◌+◌, ◌-◌, ◌<◌, ◌≤◌, ◌≡◌, ◌⊎◌, inr, refl, [], ◌∷◌, ◌++◌, arith, get_or}
use dbos.Base.Word.{u32_mod, add32}
use dbos.Memory.{memcpy_8}
use dbos.Strings.{Bytes}
use dbos.Vfs.{Node}
use dbos.Tarfs.{read_node, get_file_size, tarfs_root}
use dbos.Tarfs.Size.{octal_digits, get_file_size-octal}
use dbos.Tarfs.Read.{read_node-bounds}

-- The field with the size 1234.
abbrev field : Bytes
field i = get_or (octal_digits 11 1234 ++ (32 ∷ [])) i 0

get_file_size-octal_example : get_file_size field 0 ≡ 1234
get_file_size-octal_example =
    get_file_size-octal field 0 1234 32 (omega arith) refl (inr refl) (omega arith) (omega arith)

-- A file of 10 bytes at 2000.
abbrev file : Node
file = record (tarfs_root [] 0 10 2000) { type_flags = 4 }

read_node-bounds_example :
    ((10 ≤ 4) × (read_node field file 4 100 50 ≡ (u32_mod - 1, field)))
    ⊎ ((4 < 10)
        × ((len : ℕ) × (read_node field file 4 100 50 ≡ (len, memcpy_8 field 50 (add32 2000 4) len))
            × (len ≤ 100)
            × (4 + len ≤ 10)
            × (4 + 100 < 10 → len ≡ 100)
            × (10 ≤ 4 + 100 → 4 + len ≡ 10)))
read_node-bounds_example =
    read_node-bounds field file 4 100 50 (omega arith) (omega arith) (omega arith) (omega arith)
      (omega arith)
