-- ===== src/Terminal/Tests.antt =====
-- Runs of the terminal, and its theorems at a text screen with its input buffer at 5000.
use dbos.Base.{ℕ, ◌+◌, ◌*◌, ◌<◌, ◌≡◌, inl, refl, [], ◌∷◌, ◌++◌, arith, get_or, replicate}
use dbos.Terminal.{
  Gtty, write, control, keyboard_listener, dev_read, write_vga, loop_vga, body_vga, put_vga,
  character_vga, wrap_vga, scroll_vga, xy_to_location,
}
use dbos.Terminal.Control.{dev_control}
use dbos.Terminal.Cursor.{Dimensions, OnScreen, Within, write_vga-OnScreen}
use dbos.Terminal.Input.{listen, ArePlain, typed-read}
use dbos.Terminal.Overrun.{tab_overruns}

abbrev terminal : Gtty
terminal = record {
  gtty_device = 3;
  gtty_status = 1;
  input_buffer = 5000;
  input_buffer_index = 0;
  input_buffer_size = 0;
  input_buffer_flag = 0;
  display_type = 0;
  display_mode = 0;
  buffer_width = 80;
  buffer_height = 25;
  main_x = 79;
  main_y = 24;
  gtty_echo = 0;
  foreground = 0xFF_FFFF;
  background = 0;
  vesa_cursor_status = 0;
  memory = λ p. 0;
}

text-Dimensions : Dimensions 80 25
text-Dimensions = omega arith

in_corner : OnScreen 80 25 terminal
in_corner = record { width_eq = refl; height_eq = refl; x_lt = omega arith; y_lt = omega arith }

-- A letter in the last cell scrolls the screen.
scrolls : write_vga (65 ∷ []) terminal ≡ (
  1,
  record terminal { main_x = 0; main_y = 24 },
  write 1999 65
      ∷ control 2 (2000 ∷ [])
      ∷ control 2 (2000 ∷ [])
      ∷ control 1 []
      ∷ control 2 (1920 ∷ [])
      ∷ [],
)
unfolding write_vga loop_vga body_vga put_vga character_vga wrap_vga scroll_vga xy_to_location
scrolls = refl

write_vga-OnScreen_example :
    OnScreen 80 25 (write_vga (65 ∷ 9 ∷ 10 ∷ 8 ∷ []) terminal).1
    × Within (80 * 25) (write_vga (65 ∷ 9 ∷ 10 ∷ 8 ∷ []) terminal).2
write_vga-OnScreen_example =
    write_vga-OnScreen 80 25 (65 ∷ 9 ∷ 10 ∷ 8 ∷ []) terminal text-Dimensions in_corner

typed-read_example :
    let typed = listen ((108 ∷ 115 ∷ []) ++ (10 ∷ [])) (dev_control (λ c. 0) terminal 3 12 16).1 in
    ((dev_read typed 3 16 900).0 ≡ 2)
    × ((i : ℕ) → i < 2 → (dev_read typed 3 16 900).1.memory (900 + i) ≡ get_or (108 ∷ 115 ∷ []) i 0)
    × ((dev_read typed 3 16 900).1.input_buffer_index ≡ 0)
    × ((dev_read typed 3 16 900).1.input_buffer_size ≡ 0)
    × ((dev_read typed 3 16 900).1.input_buffer_flag ≡ 0)
typed-read_example =
    typed-read (λ c. 0) (108 ∷ 115 ∷ []) 16 terminal 3 900 (omega arith) (omega arith) (omega arith)
      (omega arith) refl (omega arith) refl refl (omega arith) (omega arith) (omega arith)
      (omega arith)

plain_letters : (n : ℕ) → ArePlain (replicate n 97)
plain_letters Prim.Native.Nat.zero = tt
plain_letters (Prim.Native.Nat.suc n) =
    ((omega arith, omega arith, omega arith, omega arith), plain_letters n)

-- One place is left in a line of eight characters.
abbrev nearly_full : Gtty
nearly_full = record terminal { input_buffer_index = 7; input_buffer_size = 8 }

tab_overruns_example :
    let typed = (keyboard_listener 1 9 nearly_full).0 in
    ((dev_read typed 3 8 900).0 ≡ 11) × ((dev_read typed 3 8 900).1.memory 908 ≡ typed.memory 5008)
tab_overruns_example =
    tab_overruns nearly_full 3 8 900 (omega arith) (omega arith) refl (omega arith) (omega arith)
      (omega arith) (omega arith) (omega arith) (inl (omega arith))
