-- ===== src/Keyboard/Tests.antt =====
-- Runs of the keyboard, and its theorem at the keys of "ls".
use dbos.Base.{ℕ, ◌+◌, ◌<◌, ◌≡◌, inl, inr, refl, List, [], ◌∷◌, ◌++◌, arith, get_or}
use dbos.Terminal.{Gtty, dev_read}
use dbos.Terminal.Control
use dbos.Keyboard.{
  Keyboard, is_plain_special, is_flag_key, character_of, parse_scancode, press, serve,
  serve_listeners,
}
use dbos.Keyboard.Typing.{press_keys, AreKeys, typed_characters, press_keys-read}

abbrev keyboard : Keyboard
keyboard = record {
  kbd_device = 8;
  kbd_status = 1;
  lshift = 0;
  rshift = 0;
  lctrl = 0;
  rctrl = 0;
  lalt = 0;
  ralt = 0;
  caps = 0;
  listeners = 40 ∷ [];
}

abbrev terminal : Gtty
terminal = record {
  gtty_device = 3;
  gtty_status = 1;
  input_buffer = 5000;
  input_buffer_index = 0;
  input_buffer_size = 0;
  input_buffer_flag = 0;
  display_type = 0;
  display_mode = 0;
  buffer_width = 80;
  buffer_height = 25;
  main_x = 0;
  main_y = 0;
  gtty_echo = 1;
  foreground = 0xFF_FFFF;
  background = 0;
  vesa_cursor_status = 0;
  memory = λ p. 0;
}

-- The keys l, s and enter, each pressed and released.
abbrev keys : List ℕ
keys = 0x26 ∷ 0xA6 ∷ 0x1F ∷ 0x9F ∷ 0x1C ∷ 0x9C ∷ []

keys-AreKeys : AreKeys keys
unfolding is_plain_special is_flag_key
keys-AreKeys = (
  inl (refl, refl, omega arith, omega arith, omega arith),
  (
    inr (omega arith, omega arith, omega arith),
    (
      inl (refl, refl, omega arith, omega arith, omega arith),
      (
        inr (omega arith, omega arith, omega arith),
        (
          inl (refl, refl, omega arith, omega arith, omega arith),
          (inr (omega arith, omega arith, omega arith), tt),
        ),
      ),
    ),
  ),
)

keys-typed : typed_characters keyboard keys ≡ (108 ∷ 115 ∷ []) ++ (10 ∷ [])
unfolding character_of
keys-typed = refl

press_keys-read_example :
    let typed = (press_keys 40 keyboard keys (Control.dev_control (λ c. 0) terminal 3 12 16).1).1 in
    ((dev_read typed 3 16 900).0 ≡ 2)
    × ((i : ℕ) → i < 2 → (dev_read typed 3 16 900).1.memory (900 + i) ≡ get_or (108 ∷ 115 ∷ []) i 0)
press_keys-read_example =
    press_keys-read (λ c. 0) 40 keyboard keys (108 ∷ 115 ∷ []) 16 terminal 3 900 refl keys-AreKeys
      keys-typed (omega arith) (omega arith) (omega arith) (omega arith) refl (omega arith) refl
      refl (omega arith) (omega arith) (omega arith) (omega arith)

-- With shift the key a is a capital letter.
shifted :
    parse_scancode
      (λ l type val (w : ℕ). val)
      (parse_scancode (λ l type val (w : ℕ). val) keyboard 0x2A 0).0
      0x1E
      0
    ≡ (record keyboard { lshift = 1 }, 65)
unfolding parse_scancode press serve serve_listeners character_of is_plain_special is_flag_key
shifted = refl
