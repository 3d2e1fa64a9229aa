-- ===== src/Terminal/Control.antt =====
-- gtty_dev_control and gtty_dev_status of drivers/devices/gtty/gtty.c. `answer` is what the display
-- device returns to a command; colours are the four bytes of a word.
use dbos.Base.{ℕ, ◌+◌, ◌*◌, ◌/◌, ◌%◌, ◌^◌, not, ◌&&◌, ◌||◌, List, [], ◌∷◌, ◌==◌, if◌then◌else◌}
use dbos.Base.Word.{u32_mod, sub32, slt32}
use dbos.Vfs.Dispatch.{minus}
use dbos.Terminal.{Gtty, Command, control, pixel_mode, vga_type, vesa_type}

-- The margins and the size of a character of the screen in pixels.
abbrev pub margin_x : ℕ
margin_x = 8

abbrev pub margin_y_top : ℕ
margin_y_top = 44

abbrev pub margin_y_bottom : ℕ
margin_y_bottom = 8

abbrev pub line_height : ℕ
line_height = 16

abbrev pub line_width : ℕ
line_width = 8

-- `a / d` on an `int` and a positive number.
unfoldable pub div_int : ℕ → ℕ → ℕ
div_int a d = if slt32 a 0 then sub32 0 (sub32 0 a / d) else a / d

-- `display_device_file->node_control(display_device_file, command, arguments)`
abbrev pub ask : (ℕ → ℕ) → Gtty → ℕ → List ℕ → ℕ × Gtty × List Command
ask answer g command arguments = (answer command, g, control command arguments ∷ [])

-- `GTTY_CMD_SET_MODE`
unfoldable pub set_mode : Gtty → ℕ → ℕ × Gtty × List Command
set_mode g mode =
    if (g.display_type == vga_type) && (mode == pixel_mode)
    then (minus 1, g, [])
    else if (mode == pixel_mode) || (mode == 0)
    then (mode, record g { display_mode = mode }, [])
    else (0, g, [])

-- `GTTY_CMD_GETW` and `GTTY_CMD_GETH`: the commands of the two displays, the margins and the size of a
-- character.
unfoldable pub get_extent : (ℕ → ℕ) → Gtty → ℕ → ℕ → ℕ → ℕ → ℕ × Gtty × List Command
unfolding div_int
get_extent answer g vesa_command vga_command margins character =
    if g.display_type == vesa_type
    then if g.display_mode == 0
      then (
        div_int (sub32 (answer vesa_command) margins) character,
        g,
        control vesa_command [] ∷ [],
      )
      else ask answer g vesa_command []
    else if g.display_type == vga_type
    then ask answer g vga_command []
    else (minus 1, g, [])

-- `GTTY_CMD_CLEAR`
unfoldable pub clear : (ℕ → ℕ) → Gtty → ℕ × Gtty × List Command
clear answer g =
    if g.display_type == vesa_type
    then (let g' = record g { main_x = margin_x; main_y = margin_y_top } in
        if g.display_mode == pixel_mode
        then (answer 1, g', control 1 [] ∷ [])
        else (0, g', control 8 (margin_y_top * g.buffer_width % u32_mod ∷ []) ∷ []))
    else (answer 4, record g { main_x = 0; main_y = 0 }, control 4 [] ∷ [])

-- `GTTY_CMD_GET_FG_COLOUR` takes the alpha byte of the background.
unfoldable pub get_foreground : (ℕ → ℕ) → Gtty → ℕ × Gtty × List Command
get_foreground answer g =
    if g.display_type == vesa_type
    then (g.background / 2 ^ 24 * 2 ^ 24 + g.foreground % 2 ^ 24, g, [])
    else ask answer g 6 []

unfoldable pub get_background : (ℕ → ℕ) → Gtty → ℕ × Gtty × List Command
get_background answer g =
    if g.display_type == vesa_type then (g.background, g, []) else ask answer g 8 []

unfoldable pub set_foreground : (ℕ → ℕ) → Gtty → ℕ → ℕ × Gtty × List Command
set_foreground answer g colour =
    if g.display_type == vesa_type
    then (0, record g { foreground = colour }, [])
    else ask answer g 5 (colour ∷ [])

unfoldable pub set_background : (ℕ → ℕ) → Gtty → ℕ → ℕ × Gtty × List Command
set_background answer g colour =
    if g.display_type == vesa_type
    then (0, record g { background = colour }, [])
    else ask answer g 7 (colour ∷ [])

-- `GTTY_CMD_INPUT_READY`
unfoldable pub input_ready : Gtty → ℕ → ℕ × Gtty × List Command
input_ready g size =
    if g.input_buffer_size == 0
    then (0, record g { input_buffer_size = size; input_buffer_flag = 0 }, [])
    else (g.input_buffer_flag, g, [])

-- `gtty_dev_control` with the first word of the arguments.
unfoldable pub dev_control : (ℕ → ℕ) → Gtty → ℕ → ℕ → ℕ → ℕ × Gtty × List Command
unfolding set_mode get_extent clear get_foreground get_background set_foreground set_background
    input_ready
dev_control answer g device command argument =
    if not (device == g.gtty_device) || (command == 0)
    then (minus 1, g, [])
    else if command == 1
    then set_mode g argument
    else if command == 2
    then (g.display_mode, g, [])
    else if command == 3
    then get_extent answer g 4 9 (margin_x * 2) line_width
    else if command == 4
    then get_extent answer g 5 10 (margin_y_top + margin_y_bottom) line_height
    else if command == 5
    then clear answer g
    else if command == 6
    then get_foreground answer g
    else if command == 8
    then get_background answer g
    else if command == 7
    then set_foreground answer g argument
    else if command == 9
    then set_background answer g argument
    else if command == 10
    then (0, record g { gtty_echo = 1 }, [])
    else if command == 11
    then (0, record g { gtty_echo = 0 }, [])
    else if command == 12
    then input_ready g argument
    else if command == 13
    then (g.display_type, g, [])
    else (minus 1, g, [])

-- `gtty_dev_status`
unfoldable pub dev_status : Gtty → ℕ → ℕ
dev_status g device = if device == g.gtty_device then g.gtty_status else 0xFFFF_FFFF
