-- ===== src/Vga/Scroll.antt =====
-- Scrolling and clearing the screen of drivers/devices/vga/vga.c.
use dbos.Base.{
  ℕ, zero, suc, ◌+◌, ◌-◌, ◌*◌, ◌≤◌, ◌<◌, ◌≡◌, refl, ◌∙◌, arith, ltb, leb, if◌then◌else◌, ◌&&◌,
}
use dbos.Vga.{
  rows, cols, Cells, Vga, set_cell, cell, move_up, blank_from, scroll, scroll_times, clrscr,
  move_cursor_xy,
}

move_up_lem :
    (left x : ℕ) (cells : Cells) (p : ℕ)
    → move_up left x cells p ≡ (if leb x p && ltb p (x + left) then cells (p + cols) else cells p)
unfolding move_up set_cell
move_up_lem zero x cells p = ground arith
move_up_lem (suc left) x cells p =
    ground (arith, move_up_lem left (x + 1) (set_cell cells x (cells (x + cols))) p)

blank_from_lem :
    (left x colour : ℕ) (cells : Cells) (p : ℕ)
    → blank_from left x colour cells p
      ≡ (if leb x p && ltb p (x + left) then cell 32 colour else cells p)
unfolding blank_from set_cell
blank_from_lem zero x colour cells p = ground arith
blank_from_lem (suc left) x colour cells p =
    ground (arith, blank_from_lem left (x + 1) colour (set_cell cells x (cell 32 colour)) p)

rows_of :
    (p a b c : ℕ)
    → (if leb 1920 p && ltb p (1920 + 80) then c else if leb 0 p && ltb p (0 + 1920) then b else a)
      ≡ (if ltb p 1920 then b else if ltb p 2000 then c else a)
rows_of p a b c = ground arith

-- `vga_scroll` moves every row but the first one up, blanks the last one in the current colour, and
-- changes no word behind the screen.
pub scroll-rows :
    (g : Vga) (p : ℕ)
    → (scroll g).cells p ≡ (
        if ltb p ((rows - 1) * cols)
        then g.cells (p + cols)
        else if ltb p (rows * cols)
        then cell 32 g.colour_setting
        else g.cells p)
unfolding scroll
scroll-rows g p =
    blank_from_lem cols 1920 g.colour_setting (move_up 1920 0 g.cells) p
    ∙ rw (move_up_lem 1920 0 g.cells p)
        (rows_of p (g.cells p) (g.cells (p + cols)) (cell 32 g.colour_setting))

-- The last `n` rows are blank.
abbrev Blank : ℕ → ℕ → Cells → Type 0
Blank n colour cells =
    (p : ℕ) → p < rows * cols → rows * cols ≤ p + n * cols → cells p ≡ cell 32 colour

scroll-Blank :
    (n : ℕ) (g : Vga)
    → Blank n g.colour_setting g.cells
    → Blank (suc n) g.colour_setting (scroll g).cells
scroll-Blank n g b p lt le = ground (arith, scroll-rows g p, b (p + cols))

scroll_times-Blank :
    (left n : ℕ) (g : Vga)
    → Blank n g.colour_setting g.cells
    → Blank (left + n) g.colour_setting (scroll_times left g).cells
unfolding scroll_times scroll
scroll_times-Blank zero n g b p lt le = b p lt (omega arith)
scroll_times-Blank (suc left) n g b p lt le =
    scroll_times-Blank left (suc n) (scroll g) (unfold scroll in scroll-Blank n g b) p lt
      (omega arith)

scroll_times-behind :
    (left : ℕ) (g : Vga) (p : ℕ) → rows * cols ≤ p → (scroll_times left g).cells p ≡ g.cells p
unfolding scroll_times
scroll_times-behind zero g p le = refl
scroll_times-behind (suc left) g p le =
    ground (arith, scroll_times-behind left (scroll g) p, scroll-rows g p)

-- `vga_clrscr` leaves every cell of the screen blank in the current colour and the cursor at its first
-- cell, and changes no word behind the screen.
pub clrscr-blank :
    (g : Vga)
    → ((p : ℕ) → p < rows * cols → (clrscr g).cells p ≡ cell 32 g.colour_setting)
      × ((p : ℕ) → rows * cols ≤ p → (clrscr g).cells p ≡ g.cells p)
      × ((clrscr g).cursor ≡ 0)
unfolding clrscr move_cursor_xy
clrscr-blank g = (
  λ p lt. scroll_times-Blank rows 0 g (λ q h k. absurd (omega arith)) p lt (omega arith),
  λ p le. scroll_times-behind rows g p le,
  refl,
)
