-- ===== src/Terminal.antt =====
-- drivers/devices/gtty/gtty.c: the terminal, on a screen in text mode or in pixels. What the display
-- device is asked to do is a list of commands; what it answers to a command is an argument, and so is
-- the table `font16` of font.h. `command_buffer` only carries the arguments of a command. An `int` is
-- its bit pattern, and the bytes of a buffer that is written are a list.
pub mod Control
pub mod Vesa
pub mod Cursor
pub mod Input
pub mod Overrun
mod Tests
use dbos.Base.{
  ℕ, zero, suc, ◌+◌, ◌-◌, ◌*◌, ◌/◌, ◌%◌, ◌^◌, Bool, true, false, not, ◌&&◌, ◌||◌, List, [], ◌∷◌,
  ◌++◌, ◌==◌, if◌then◌else◌, length,
}
use dbos.Base.Word.{u32_mod, add32, sub32, slt32}
use dbos.Memory.{put, memcpy_8, memset_8}
use dbos.Strings.{Bytes}
use dbos.Vfs.Dispatch.{minus}

-- The variables of gtty.c, and the memory.
pub record Gtty : Type 0 where
  pub gtty_device : ℕ
  pub gtty_status : ℕ
  pub input_buffer : ℕ
  pub input_buffer_index : ℕ
  pub input_buffer_size : ℕ
  pub input_buffer_flag : ℕ
  pub display_type : ℕ
  pub display_mode : ℕ
  pub buffer_width : ℕ
  pub buffer_height : ℕ
  pub main_x : ℕ
  pub main_y : ℕ
  pub gtty_echo : ℕ
  pub foreground : ℕ
  pub background : ℕ
  pub vesa_cursor_status : ℕ
  pub memory : Bytes

-- What the display device is asked to do: to write one value at a location, or a command with its
-- arguments. `echo` is the character that the terminal prints by `kprintf`.
pub data Command : Type 0 where
  write : ℕ → ℕ → Command
  control : ℕ → List ℕ → Command
  echo : ℕ → Command

-- `GTTY_MODE_PX`, `GTTY_DISP_TYPE_VGA`, `GTTY_DISP_TYPE_VESA` and `GTTY_INPUT_BUFFER_LEN`
abbrev pub pixel_mode : ℕ
pixel_mode = 1

abbrev pub vga_type : ℕ
vga_type = 0

abbrev pub vesa_type : ℕ
vesa_type = 1

abbrev pub input_buffer_len : ℕ
input_buffer_len = 1024

-- A step that changes the terminal and asks the display for something.
abbrev pub Step : Type 0
Step = Gtty → Gtty × List Command

-- One step after the other.
infixl 5 ◌then_do◌
abbrev pub ◌then_do◌ : Step → Step → Step
◌then_do◌ s t g = let (g', cs) = s g in let (g'', ds) = t g' in (g'', cs ++ ds)

-- `input_buffer[index] = c`
unfoldable pub store_input : Gtty → ℕ → ℕ → Gtty
store_input g index c = record g { memory = put g.memory (add32 g.input_buffer index) c }

-- `gtty_xy_to_location`
unfoldable pub xy_to_location : Gtty → ℕ → ℕ → ℕ
xy_to_location g x y = (x + y * g.buffer_width) % u32_mod

-- `VGA_CMD_MOVCRS` to the location.
abbrev pub move_cursor : Gtty → Command
move_cursor g = control 2 (xy_to_location g g.main_x g.main_y ∷ [])

-- The store of a character by `gtty_keyboard_listener`.
unfoldable pub take_input : Gtty → ℕ → Gtty
unfolding store_input
take_input g c =
    if slt32 g.input_buffer_index g.input_buffer_size
      && (not (c == 8) && (not (c == 10) && not (c == 13)))
    then record (store_input g g.input_buffer_index c) {
      input_buffer_index = add32 g.input_buffer_index (if c == 9 then 4 else 1);
    }
    else g

-- `gtty_keyboard_listener`. The echo is a request: `kprintf` hands the character to the device file of
-- this terminal, and what its write then does, to the cursor and, for a backspace, to the index of the
-- input buffer, is not a part of this step.
unfoldable pub keyboard_listener : ℕ → ℕ → Step
unfolding take_input
keyboard_listener type c g =
    if not (type == 1)
    then (g, [])
    else let g₁ = if (c == 10) || (c == 13) then record g { input_buffer_flag = 1 } else g in
      let g₂ = take_input g₁ c in
      let g₃ =
        if slt32 g₂.input_buffer_index g₂.input_buffer_size
        then g₂
        else record g₂ { input_buffer_flag = 1 } in
      (g₃, if (g.gtty_echo == 1) && (not (c == 10) && not (c == 13)) then echo c ∷ [] else [])

-- `gtty_dev_read`; the first result is an `int`.
unfoldable pub dev_read : Gtty → ℕ → ℕ → ℕ → ℕ × Gtty
dev_read g device size buffer =
    if (device == 0)
      || ((buffer == 0) || not ((g.input_buffer_flag == 1) && (size == g.input_buffer_size)))
    then (minus 1, g)
    else (
      g.input_buffer_index,
      record g {
        memory =
            memset_8 (memcpy_8 g.memory buffer g.input_buffer g.input_buffer_index) g.input_buffer 0
              input_buffer_len;
        input_buffer_flag = 0;
        input_buffer_size = 0;
        input_buffer_index = 0;
      },
    )

-- The branch of `gtty_write_vga` for a backspace.
unfoldable pub backspace_vga : Step
unfolding store_input xy_to_location
backspace_vga g =
    if not (slt32 0 g.input_buffer_index)
    then (g, [])
    else let index = sub32 g.input_buffer_index 1 in
      let g₁ = record (store_input g index 0) { input_buffer_index = index } in
      let g₂ =
        if slt32 0 g₁.main_x
        then record g₁ { main_x = sub32 g₁.main_x 1 }
        else if slt32 0 g₁.main_y
        then record g₁ { main_x = sub32 g₁.buffer_width 1; main_y = sub32 g₁.main_y 1 }
        else g₁ in
      (g₂, write (xy_to_location g₂ g₂.main_x g₂.main_y) 32 ∷ move_cursor g₂ ∷ [])

-- The branches of `gtty_write_vga` for a character that is no tab.
unfoldable pub character_vga : ℕ → Step
unfolding backspace_vga xy_to_location
character_vga c g =
    if c == 8
    then backspace_vga g
    else if c == 10
    then (let g' = record g { main_x = 0; main_y = add32 g.main_y 1 } in (g', move_cursor g' ∷ []))
    else if c == 13
    then (let g' = record g { main_x = 0 } in (g', move_cursor g' ∷ []))
    else (let g' = record g { main_x = add32 g.main_x 1 } in
        (g', write (xy_to_location g g.main_x g.main_y) c ∷ move_cursor g' ∷ []))

-- The end of the loop's body in `gtty_write_vga`: the cursor past the right border, and past the last
-- row.
unfoldable pub wrap_vga : Step
unfolding xy_to_location
wrap_vga g =
    if slt32 (sub32 g.buffer_width 1) g.main_x
    then (let g' = record g { main_x = 0; main_y = add32 g.main_y 1 } in (g', move_cursor g' ∷ []))
    else (g, [])

unfoldable pub scroll_vga : Step
unfolding xy_to_location
scroll_vga g =
    if slt32 (sub32 g.buffer_height 1) g.main_y
    then (
      record g { main_y = sub32 g.main_y 1 },
      control 1 [] ∷ control 2 (xy_to_location g g.main_x (sub32 g.buffer_height 1) ∷ []) ∷ [],
    )
    else (g, [])

-- The body of the loop of `gtty_write_vga` for a character that is no tab.
unfoldable pub put_vga : ℕ → Step
put_vga c = character_vga c then_do wrap_vga then_do scroll_vga

-- The body of the loop; a tab writes four spaces by calls of `gtty_write_vga`.
unfoldable pub body_vga : ℕ → Step
body_vga c =
    if c == 9
    then (put_vga 32
        then_do put_vga 32
        then_do put_vga 32
        then_do put_vga 32
        then_do wrap_vga
        then_do scroll_vga)
    else put_vga c

unfoldable pub loop_vga : List ℕ → Step
loop_vga [] g = (g, [])
loop_vga (c ∷ cs) g =
    let (g', ds) = body_vga c g in let (g'', es) = loop_vga cs g' in (g'', ds ++ es)

-- `gtty_write_vga`
unfoldable pub write_vga : List ℕ → Gtty → ℕ × Gtty × List Command
write_vga cs g =
    if g.display_mode == pixel_mode
    then (minus 1, g, [])
    else let (g', ds) = loop_vga cs g in (length cs, g', ds)
