-- ===== src/Tarfs/Read.antt =====
-- `read_node_tarfs` of drivers/tarfs/tarfs.c stays within the file.
use dbos.Base.{
  ℕ, ◌+◌, ◌-◌, ◌^◌, ◌≤◌, ◌<◌, ◌≡◌, ◌≢◌, ◌⊎◌, inl, inr, refl, false, arith, ltb, leb, ◌==◌, ==_ne,
  Bool-cases,
}
use dbos.Base.Word.{u32_mod, add32, sub32, slt32}
use dbos.Memory.{memcpy_8}
use dbos.Strings.{Bytes}
use dbos.Vfs.{Node}
use dbos.Tarfs.{read_node, directory_type}

-- `read_node_tarfs` on a file of less than 2 ^ 31 bytes returns -1 and stores nothing where the start
-- is behind the end; elsewhere it copies and returns at most the bytes asked for, all of them from
-- within the file, and all that are left of it where more are asked for.
pub read_node-bounds :
    (m : Bytes) (n : Node) (start size buffer : ℕ)
    → n.base_pointer ≢ 0
    → n.type_flags ≢ directory_type
    → n.size < 2 ^ 31
    → start < u32_mod
    → size < 2 ^ 31
    → ((n.size ≤ start) × (read_node m n start size buffer ≡ (u32_mod - 1, m)))
      ⊎ ((start < n.size)
          × ((len : ℕ) × (read_node m n start size buffer
                ≡ (len, memcpy_8 m buffer (add32 n.base_pointer start) len))
              × (len ≤ size)
              × (start + len ≤ n.size)
              × (start + size < n.size → len ≡ size)
              × (n.size ≤ start + size → start + len ≡ n.size)))
unfolding read_node
read_node-bounds m n start size buffer nb file small sl hs =
    let no_dir : (n.type_flags == directory_type) ≡ false =
      ==_ne n.type_flags directory_type file in
    elim (Bool-cases (leb n.size start)) [
      | inl behind ↦
          inl (ground arith, rw (==_ne n.base_pointer 0 nb, no_dir, behind, read_node) refl)
      | inr within ↦
          let lt : start < n.size = ground arith in
          let positive : slt32 start 0 ≡ false = ground arith in
          elim (Bool-cases (ltb (sub32 n.size 1) (add32 start size))) [
            | inl more ↦ inr (
              lt,
              (
                sub32 n.size start,
                rw (==_ne n.base_pointer 0 nb, no_dir, within, positive, more, read_node) refl,
                ground arith,
                ground arith,
                λ h. absurd (ground arith),
                λ h. ground arith,
              ),
            )
            | inr less ↦ inr (
              lt,
              (
                size,
                rw (==_ne n.base_pointer 0 nb, no_dir, within, positive, less, read_node) refl,
                omega arith,
                ground arith,
                λ h. refl,
                λ h. absurd (ground arith),
              ),
            )
          ]
    ]
