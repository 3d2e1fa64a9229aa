-- ===== src/Vga/Write.antt =====
-- Writing to the screen of drivers/devices/vga/vga.c.
use dbos.Base.{
  ℕ, zero, suc, ◌+◌, ◌-◌, ◌*◌, ◌≤◌, ◌<◌, ◌≡◌, ap, ◌∙◌, ◌&&◌, arith, ◌==◌, ltb, leb, if◌then◌else◌,
  Bool-cases, inl, inr, min, true, false,
}
use native.Mathlib.Nat.{add-zero}
use dbos.Base.Word.{u32_mod, add32}
use dbos.Strings.{Bytes}
use dbos.Vga.{
  rows, cols, Cells, Vga, set_cell, cell, write_cells, dev_write, transfer_length, video_mem_length,
  rounds,
}

write_cells_lem :
    (left start j colour : ℕ) (m : Bytes) (buffer : ℕ) (cells : Cells) (p : ℕ)
    → start + left < u32_mod
    → j + left < u32_mod
    → buffer + j + left ≤ u32_mod
    → write_cells left start j colour m buffer cells p ≡ (
        if leb start p && ltb p (start + left)
        then cell (m (buffer + j + (p - start))) colour
        else cells p)
unfolding write_cells set_cell
write_cells_lem zero start j colour m buffer cells p a h b = ground arith
write_cells_lem (suc left) start j colour m buffer cells p a h b =
    let next : add32 start 1 ≡ start + 1 = omega arith in
    let ih =
      write_cells_lem left (start + 1) (add32 j 1) colour m buffer
        (set_cell cells start (cell (m (add32 buffer j)) colour)) p (omega arith) (omega arith)
        (omega arith) in
    rw next (
      ih ∙ elim (Bool-cases (p == start)) [
        | inl here ↦
            let place : add32 buffer j ≡ buffer + j + (p - start) = ground arith in
            ground (arith, ap m place)
        | inr other ↦ elim (Bool-cases (leb start p)) [
          | inl above ↦
              let behind : start < p = ground arith in
              let counted : add32 j 1 ≡ j + 1 = omega arith in
              let place : buffer + (j + 1) + (p - (start + 1)) ≡ buffer + j + (p - start) =
                omega arith in
              let from_next : leb (start + 1) p ≡ true = ground arith in
              let same_end : start + 1 + left ≡ start + suc left = omega arith in
              rw (from_next, above, same_end, other, counted, place)
          | inr below ↦ ground arith
        ]
      ])

-- The bytes that fit on the screen.
abbrev pub fitting : ℕ → ℕ → ℕ
fitting start size = min size (video_mem_length - start)

transfer_length_eq :
    (start size : ℕ)
    → start < 2000
    → start + size < u32_mod
    → transfer_length start size ≡ fitting start size
transfer_length_eq start size h w = ground arith

-- `vga_dev_write` that starts on the screen writes the bytes of the buffer, each in the current colour,
-- to the cells from there on, as many as fit on the screen, changes no other word and returns their
-- number. One that starts behind the screen is refused with -1 and changes nothing. The start and the
-- size do not add up to 2 ^ 32, and the buffer does not run over the end of the memory.
pub dev_write-cells :
    (g : Vga) (start size : ℕ) (m : Bytes) (buffer : ℕ)
    → start + size < u32_mod
    → buffer + size ≤ u32_mod
    → (start < rows * cols
        → ((dev_write g start size m buffer).0 ≡ fitting start size)
          × ((p : ℕ)
              → (dev_write g start size m buffer).1.cells p ≡ (
                  if leb start p && ltb p (start + fitting start size)
                  then cell (m (buffer + (p - start))) g.colour_setting
                  else g.cells p)))
      × (rows * cols ≤ start → dev_write g start size m buffer ≡ (u32_mod - 1, g))
unfolding dev_write
dev_write-cells g start size m buffer w b = (
  λ on.
      let len = transfer_length_eq start size on w in
      let test : ltb (video_mem_length - 1) start ≡ false = ground arith in
      let count : rounds start (fitting start size) ≡ fitting start size = ground arith in
      (
        rw test len,
        λ p.
            rw (test, len, count)
              (write_cells_lem (fitting start size) start 0 g.colour_setting m buffer g.cells p
                  (omega arith) (omega arith) (omega arith)
                ∙ rw (add-zero buffer)),
      ),
  λ off. let test : ltb (video_mem_length - 1) start ≡ true = ground arith in rw test,
)
