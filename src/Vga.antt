-- ===== src/Vga.antt =====
-- drivers/devices/vga/vga.c: the screen in text mode. `cells` are the 16-bit words of the video memory:
-- the low byte is the character, the high byte its colour. `cursor` is what the two ports of the
-- screen's controller got last. The bits of a character and of a shifted colour lie apart, so `|` is
-- written as a sum. An `int` is its bit pattern.
pub mod Scroll
pub mod Write
mod Tests
use dbos.Base.{
  ℕ, zero, suc, ◌+◌, ◌-◌, ◌*◌, ◌/◌, ◌%◌, ◌^◌, Bool, not, ◌||◌, ltb, ◌==◌, if◌then◌else◌,
}
use dbos.Base.Word.{u32_mod, add32, sub32}
use dbos.Memory.{put}
use dbos.Strings.{Bytes}
use dbos.Vfs.Dispatch.{minus}

-- `ROWS` and `COLS`
abbrev pub rows : ℕ
rows = 25

abbrev pub cols : ℕ
cols = 80

abbrev pub Cells : Type 0
Cells = ℕ → ℕ

-- The variables of vga.c.
pub record Vga : Type 0 where
  pub vga_device : ℕ
  pub vga_status : ℕ
  pub colour_setting : ℕ
  pub cells : Cells
  pub cursor : ℕ

unfoldable pub set_cell : Cells → ℕ → ℕ → Cells
set_cell cells a value b = if b == a then value else cells b

-- A character in a colour.
abbrev pub cell : ℕ → ℕ → ℕ
cell character colour = character % 256 + colour * 256

-- The first loop of `vga_scroll`, at the cell `x`.
unfoldable pub move_up : ℕ → ℕ → Cells → Cells
unfolding set_cell
move_up zero x cells = cells
move_up (suc left) x cells = move_up left (x + 1) (set_cell cells x (cells (x + cols)))

-- The second loop of `vga_scroll`.
unfoldable pub blank_from : ℕ → ℕ → ℕ → Cells → Cells
unfolding set_cell
blank_from zero x colour cells = cells
blank_from (suc left) x colour cells =
    blank_from left (x + 1) colour (set_cell cells x (cell 32 colour))

-- `vga_scroll`
unfoldable pub scroll : Vga → Vga
scroll g = record g {
  cells =
      blank_from cols ((rows - 1) * cols) g.colour_setting (move_up ((rows - 1) * cols) 0 g.cells);
}

-- `vga_move_cursor` and `vga_move_cursor_xy`
unfoldable pub move_cursor : Vga → ℕ → Vga
move_cursor g location = record g { cursor = location % 2 ^ 16 }

unfoldable pub move_cursor_xy : Vga → ℕ → ℕ → Vga
move_cursor_xy g x y = record g { cursor = (y * cols + x) % 2 ^ 16 }

-- The loop of `vga_clrscr`.
unfoldable pub scroll_times : ℕ → Vga → Vga
scroll_times zero g = g
scroll_times (suc left) g = scroll_times left (scroll g)

-- `vga_clrscr`
unfoldable pub clrscr : Vga → Vga
unfolding move_cursor_xy scroll_times
clrscr g = move_cursor_xy (scroll_times rows g) 0 0

-- `vga_get_foreground_colour`, `vga_get_background_colour` and the functions that set them; a colour is
-- a byte.
unfoldable pub get_foreground_colour : Vga → ℕ
get_foreground_colour g = g.colour_setting % 16

unfoldable pub get_background_colour : Vga → ℕ
get_background_colour g = g.colour_setting / 16

unfoldable pub set_foreground_colour : Vga → ℕ → Vga
set_foreground_colour g colour = record g {
  colour_setting = g.colour_setting / 16 * 16 + colour % 16;
}

unfoldable pub set_background_colour : Vga → ℕ → Vga
set_background_colour g colour = record g {
  colour_setting = colour * 16 % 256 + g.colour_setting % 16;
}

-- The length of a transfer that starts on the screen.
abbrev pub video_mem_length : ℕ
video_mem_length = rows * cols

abbrev pub transfer_length : ℕ → ℕ → ℕ
transfer_length start_at size =
    if ltb video_mem_length (add32 start_at size) then sub32 video_mem_length start_at else size

-- The rounds of `for(; start < (start_at + length); start++)`.
abbrev pub rounds : ℕ → ℕ → ℕ
rounds start_at length = add32 start_at length - start_at

-- The loop of `vga_dev_read`.
unfoldable pub read_cells : ℕ → ℕ → ℕ → Cells → Bytes → ℕ → Bytes
read_cells zero start j cells m buffer = m
read_cells (suc left) start j cells m buffer =
    read_cells left (add32 start 1) (add32 j 1) cells (put m (add32 buffer j) (cells start % 256))
      buffer

-- `vga_dev_read`
unfoldable pub dev_read : Vga → ℕ → ℕ → Bytes → ℕ → ℕ × Bytes
dev_read g start_at size m buffer =
    if ltb (video_mem_length - 1) start_at
    then (minus 1, m)
    else let length = transfer_length start_at size in
      (length, read_cells (rounds start_at length) start_at 0 g.cells m buffer)

-- The loop of `vga_dev_write`.
unfoldable pub write_cells : ℕ → ℕ → ℕ → ℕ → Bytes → ℕ → Cells → Cells
unfolding set_cell
write_cells zero start j colour m buffer cells = cells
write_cells (suc left) start j colour m buffer cells =
    write_cells left (add32 start 1) (add32 j 1) colour m buffer
      (set_cell cells start (cell (m (add32 buffer j)) colour))

-- `vga_dev_write`
unfoldable pub dev_write : Vga → ℕ → ℕ → Bytes → ℕ → ℕ × Vga
dev_write g start_at size m buffer =
    if ltb (video_mem_length - 1) start_at
    then (minus 1, g)
    else let length = transfer_length start_at size in
      (
        length,
        record g {
          cells = write_cells (rounds start_at length) start_at 0 g.colour_setting m buffer g.cells;
        },
      )

-- `vga_dev_control`, with the first two words of the arguments.
unfoldable pub dev_control : Vga → ℕ → ℕ → ℕ → ℕ → ℕ × Vga
unfolding scroll move_cursor move_cursor_xy clrscr set_foreground_colour set_background_colour
dev_control g device command argument0 argument1 =
    if not (device == g.vga_device) || (command == 0)
    then (minus 1, g)
    else if command == 1
    then (0, scroll g)
    else if command == 3
    then (0, move_cursor_xy g argument0 argument1)
    else if command == 2
    then (0, move_cursor g argument0)
    else if command == 4
    then (0, clrscr g)
    else if command == 9
    then (cols, g)
    else if command == 10
    then (rows, g)
    else if command == 6
    then (get_foreground_colour g, g)
    else if command == 8
    then (get_background_colour g, g)
    else if command == 5
    then (0, set_foreground_colour g (argument0 % 256))
    else if command == 7
    then (0, set_background_colour g (argument0 % 256))
    else (minus 1, g)

-- `vga_dev_status`
unfoldable pub dev_status : Vga → ℕ → ℕ
dev_status g device = if device == g.vga_device then g.vga_status else 0xFFFF_FFFF
