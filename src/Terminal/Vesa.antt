-- ===== src/Terminal/Vesa.antt =====
-- Text on a screen of pixels: gtty_write_vesa of drivers/devices/gtty/gtty.c and what it calls. `font`
-- is what stands in the table of font.h at an index, the sixteen bytes of a character. A `write` is one pixel.
use dbos.Base.{
  ℕ, zero, suc, ◌+◌, ◌-◌, ◌*◌, ◌/◌, ◌%◌, ◌^◌, List, [], ◌∷◌, ◌++◌, ltb, ◌==◌, if◌then◌else◌, length,
}
use dbos.Base.Word.{u32_mod, add32, sub32, slt32}
use dbos.Vfs.Dispatch.{minus}
use dbos.Terminal.{
  Gtty, Command, write, control, Step, ◌then_do◌, store_input, xy_to_location, pixel_mode,
  vesa_type, write_vga,
}
use dbos.Terminal.Control.{margin_x, margin_y_top, margin_y_bottom, line_height, line_width}

-- A pixel of a symbol: `colour` where the bit of the row is set, and the background elsewhere.
unfoldable pub pixel : Gtty → ℕ → ℕ → ℕ → ℕ → Command
unfolding xy_to_location
pixel g x y row_bit colour =
    write (xy_to_location g x y) (if row_bit == 0 then g.background else colour)

-- The inner loop of `gtty_vesa_draw_symbol`, from the pixel `xd` of the row on.
unfoldable pub draw_row : ℕ → Gtty → ℕ → ℕ → ℕ → ℕ → ℕ → List Command
unfolding pixel
draw_row zero g x y row colour xd = []
draw_row (suc left) g x y row colour xd =
    pixel g (add32 xd x) y (row / 2 ^ left % 2) colour ∷ draw_row left g x y row colour (add32 xd 1)

-- The outer loop.
unfoldable pub draw_rows : ℕ → Gtty → ℕ → ℕ → (ℕ → ℕ) → ℕ → ℕ → List Command
unfolding draw_row
draw_rows zero g x y symbol colour yd = []
draw_rows (suc left) g x y symbol colour yd =
    draw_row line_width g x (add32 yd y) (symbol yd) colour 0
    ++ draw_rows left g x y symbol colour (add32 yd 1)

-- `gtty_vesa_draw_symbol`, in the current colour.
unfoldable pub draw_symbol : Gtty → ℕ → ℕ → (ℕ → ℕ) → List Command
unfolding draw_rows
draw_symbol g x y symbol = draw_rows line_height g x y symbol g.foreground 0

-- `vesa_cursor_on` and `vesa_cursor_off`
abbrev vesa_cursor_on : ℕ → ℕ
vesa_cursor_on row = 0xC0

abbrev vesa_cursor_off : ℕ → ℕ
vesa_cursor_off row = 0

-- `vesa_cursor_handler`
unfoldable pub cursor_handler : Step
unfolding draw_symbol
cursor_handler g =
    if g.vesa_cursor_status == 0
    then (
      record g { vesa_cursor_status = 1 },
      draw_symbol g (add32 g.main_x 1) g.main_y vesa_cursor_on,
    )
    else (
      record g { vesa_cursor_status = 0 },
      draw_symbol g (add32 g.main_x 1) g.main_y vesa_cursor_off,
    )

-- `vesa_cursor_status = 1; vesa_cursor_handler(NULL)`
unfoldable pub hide_cursor : Step
unfolding cursor_handler
hide_cursor g = cursor_handler (record g { vesa_cursor_status = 1 })

-- `gtty_vesa_scroll`
unfoldable pub vesa_scroll : Gtty → List Command
vesa_scroll g =
    let w = g.buffer_width in
    let h = g.buffer_height in
    let index_in = (w * margin_y_top + margin_x) % u32_mod in
    let index_out = (w * sub32 h (margin_y_bottom + line_height) + sub32 w margin_x) % u32_mod in
    let index_in_plus = (w * (margin_y_top + line_height) + margin_x) % u32_mod in
    let index2_in = (w * sub32 (sub32 h margin_y_bottom) line_height + margin_x) % u32_mod in
    let index2_out = (w * sub32 h margin_y_bottom + sub32 w margin_x) % u32_mod in
    control 6 (index_in ∷ index_in_plus ∷ sub32 index_out index_in ∷ [])
    ∷ control 7 (index2_in ∷ sub32 index2_out index2_in ∷ g.background ∷ [])
    ∷ []

-- The branch of `gtty_write_vesa` for a backspace.
unfoldable pub backspace_vesa : (ℕ → ℕ → ℕ) → Step
unfolding hide_cursor store_input draw_symbol
backspace_vesa font = hide_cursor then_do λ g.
    if slt32 0 g.input_buffer_index
    then (let index = sub32 g.input_buffer_index 1 in
        let g₁ = record (store_input g index 0) { input_buffer_index = index } in
        let g₂ =
          if slt32 0 g₁.main_x
          then record g₁ { main_x = sub32 g₁.main_x line_width }
          else if slt32 0 g₁.main_y
          then record g₁ {
            main_x = sub32 g₁.buffer_width line_width;
            main_y = sub32 g₁.main_y line_height;
          }
          else g₁ in
        (g₂, draw_symbol g₂ g₂.main_x g₂.main_y (font 32)))
    else (g, [])

-- `(int) c` of a `char`, the index of a character into the table.
abbrev pub char_int : ℕ → ℕ
char_int c = if ltb c 128 then c else c + u32_mod - 256

-- The branches of `gtty_write_vesa` for a character that is no tab.
unfoldable pub character_vesa : (ℕ → ℕ → ℕ) → ℕ → Step
unfolding backspace_vesa hide_cursor draw_symbol
character_vesa font c =
    if c == 8
    then backspace_vesa font
    else if c == 10
    then (hide_cursor then_do λ g.
        (record g { main_x = margin_x; main_y = add32 g.main_y line_height }, []))
    else if c == 13
    then (hide_cursor then_do λ g. (record g { main_x = margin_x }, []))
    else (hide_cursor then_do λ g. (
      record g { main_x = add32 g.main_x line_width },
      draw_symbol g g.main_x g.main_y (font (char_int c)),
    ))

-- The end of the loop's body in `gtty_write_vesa`: past the right border, and past the last line.
unfoldable pub wrap_vesa : Step
unfolding hide_cursor
wrap_vesa g =
    if slt32 (sub32 (sub32 g.buffer_width margin_x) 1) g.main_x
    then ◌then_do◌ hide_cursor
        (λ h. (record h { main_x = margin_x; main_y = add32 h.main_y line_height }, [])) g
    else (g, [])

abbrev pub last_line : Gtty → ℕ
last_line g = sub32 g.buffer_height (margin_y_bottom + line_height)

unfoldable pub scroll_vesa : Step
unfolding hide_cursor vesa_scroll
scroll_vesa g =
    if slt32 (last_line g) g.main_y
    then ◌then_do◌ hide_cursor (λ h. (record h { main_y = last_line h }, vesa_scroll h)) g
    else (g, [])

unfoldable pub put_vesa : (ℕ → ℕ → ℕ) → ℕ → Step
put_vesa font c = character_vesa font c then_do wrap_vesa then_do scroll_vesa

-- The body of the loop; a tab writes four spaces by calls of `gtty_write_vesa`.
unfoldable pub body_vesa : (ℕ → ℕ → ℕ) → ℕ → Step
body_vesa font c =
    if c == 9
    then (put_vesa font 32
        then_do put_vesa font 32
        then_do put_vesa font 32
        then_do put_vesa font 32
        then_do wrap_vesa
        then_do scroll_vesa)
    else put_vesa font c

unfoldable pub loop_vesa : (ℕ → ℕ → ℕ) → List ℕ → Step
loop_vesa font [] g = (g, [])
loop_vesa font (c ∷ cs) g =
    let (g', ds) = body_vesa font c g in let (g'', es) = loop_vesa font cs g' in (g'', ds ++ es)

-- `gtty_write_vesa`; `raw` is what the display device does with the buffer in the mode of pixels.
unfoldable pub write_vesa :
    (ℕ → ℕ → ℕ) → (ℕ → List ℕ → ℕ × List Command) → ℕ → List ℕ → Gtty → ℕ × Gtty × List Command
write_vesa font raw start_at cs g =
    if g.display_mode == pixel_mode
    then (let (result, ds) = raw start_at cs in (result, g, ds))
    else (let (g', ds) = loop_vesa font cs g in (length cs, g', ds))

-- `gtty_dev_write` for a buffer that is not NULL.
unfoldable pub dev_write :
    (ℕ → ℕ → ℕ) → (ℕ → List ℕ → ℕ × List Command) → Gtty → ℕ → ℕ → List ℕ → ℕ × Gtty × List Command
unfolding write_vesa write_vga
dev_write font raw g device start_at cs =
    if device == 0
    then (minus 1, g, [])
    else if g.display_type == vesa_type
    then write_vesa font raw start_at cs g
    else write_vga cs g
