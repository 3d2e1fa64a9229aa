-- ===== src/Vga/Tests.antt =====
-- Runs of the screen, and its theorems at a screen of zeros.
use dbos.Base.{ℕ, ◌+◌, ◌-◌, ◌≤◌, ◌<◌, ◌*◌, ◌≡◌, refl, ◌&&◌, arith, leb, ltb, if◌then◌else◌}
use dbos.Base.Word.{u32_mod}
use dbos.Strings.{Bytes}
use dbos.Vga.{rows, cols, Vga, cell, dev_write, set_foreground_colour, set_background_colour}
use dbos.Vga.Write.{fitting, dev_write-cells}

abbrev screen : Vga
screen = record { vga_device = 7; vga_status = 1; colour_setting = 7; cells = λ p. 0; cursor = 5 }

-- Bytes that count up.
abbrev letters : Bytes
letters p = p

-- Three bytes in the last two cells.
dev_write-cells_example :
    (1998 < rows * cols
      → ((dev_write screen 1998 3 letters 65).0 ≡ fitting 1998 3)
        × ((p : ℕ)
            → (dev_write screen 1998 3 letters 65).1.cells p ≡ (
                if leb 1998 p && ltb p (1998 + fitting 1998 3)
                then cell (65 + (p - 1998)) 7
                else 0)))
    × (rows * cols ≤ 1998 → dev_write screen 1998 3 letters 65 ≡ (u32_mod - 1, screen))
dev_write-cells_example = dev_write-cells screen 1998 3 letters 65 (omega arith) (omega arith)

-- The colours of the text are set apart from each other.
colours :
    set_background_colour (set_foreground_colour screen 4) 1
    ≡ record screen { colour_setting = 0x14 }
unfolding set_background_colour set_foreground_colour
colours = refl
