-- ===== src/Keyboard.antt =====
-- drivers/devices/keyboard/keyboard.c: scan codes become characters, which go to every listener. The
-- scan code that the port holds is an argument, and so is what a listener does to the state `W` behind
-- it. `listeners` are the functions in `kbd_listeners`, in their order.
pub mod Typing
mod Tests
use dbos.Base.{
  ℕ, ◌-◌, Bool, true, false, not, ◌&&◌, ◌||◌, List, [], ◌∷◌, ◌++◌, ltb, ◌==◌, if◌then◌else◌, get_or,
}
use dbos.Vfs.Dispatch.{minus}

-- The variables of keyboard.c.
pub record Keyboard : Type 0 where
  pub kbd_device : ℕ
  pub kbd_status : ℕ
  pub lshift : ℕ
  pub rshift : ℕ
  pub lctrl : ℕ
  pub rctrl : ℕ
  pub lalt : ℕ
  pub ralt : ℕ
  pub caps : ℕ
  pub listeners : List ℕ

-- `kbd_map`, the characters of the scan codes, and `kbd_map_up`, those with shift.
abbrev pub kbd_map : List ℕ
kbd_map =
    0 ∷ 0 ∷ 49 ∷ 50 ∷ 51 ∷ 52 ∷ 53 ∷ 54 ∷ 55 ∷ 56 ∷ 57 ∷ 48 ∷ 45 ∷ 61 ∷ 8 ∷ 9 ∷ 113 ∷ 119 ∷ 101
    ∷ 114 ∷ 116 ∷ 121 ∷ 117 ∷ 105 ∷ 111 ∷ 112 ∷ 91 ∷ 93 ∷ 10 ∷ 0 ∷ 97 ∷ 115 ∷ 100 ∷ 102 ∷ 103 ∷ 104
    ∷ 106 ∷ 107 ∷ 108 ∷ 59 ∷ 39 ∷ 96 ∷ 0 ∷ 35 ∷ 122 ∷ 120 ∷ 99 ∷ 118 ∷ 98 ∷ 110 ∷ 109 ∷ 44 ∷ 46 ∷ 47
    ∷ 0 ∷ 0 ∷ 0 ∷ 32 ∷ 0 ∷ 0 ∷ 0 ∷ 0 ∷ 0 ∷ 0 ∷ 0 ∷ 0 ∷ 0 ∷ 0 ∷ 0 ∷ 0 ∷ 0 ∷ 0 ∷ 0 ∷ 0 ∷ 0 ∷ 0 ∷ 0 ∷ 0
    ∷ 0 ∷ 0 ∷ 0 ∷ 0 ∷ 0 ∷ 0 ∷ 0 ∷ 0 ∷ 0 ∷ 0 ∷ 92 ∷ 0 ∷ 0 ∷ 0 ∷ 0 ∷ 0 ∷ 0 ∷ 0 ∷ 0 ∷ 0 ∷ 0 ∷ 0 ∷ []

abbrev pub kbd_map_up : List ℕ
kbd_map_up =
    0 ∷ 0 ∷ 33 ∷ 34 ∷ 0 ∷ 36 ∷ 37 ∷ 94 ∷ 38 ∷ 42 ∷ 40 ∷ 41 ∷ 95 ∷ 43 ∷ 8 ∷ 9 ∷ 81 ∷ 87 ∷ 69 ∷ 82
    ∷ 84 ∷ 89 ∷ 85 ∷ 73 ∷ 79 ∷ 80 ∷ 123 ∷ 125 ∷ 10 ∷ 0 ∷ 65 ∷ 83 ∷ 68 ∷ 70 ∷ 71 ∷ 72 ∷ 74 ∷ 75 ∷ 76
    ∷ 58 ∷ 64 ∷ 0 ∷ 0 ∷ 126 ∷ 90 ∷ 88 ∷ 67 ∷ 86 ∷ 66 ∷ 78 ∷ 77 ∷ 60 ∷ 62 ∷ 63 ∷ 0 ∷ 0 ∷ 0 ∷ 32 ∷ 0
    ∷ 0 ∷ 0 ∷ 0 ∷ 0 ∷ 0 ∷ 0 ∷ 0 ∷ 0 ∷ 0 ∷ 0 ∷ 0 ∷ 0 ∷ 0 ∷ 0 ∷ 0 ∷ 0 ∷ 0 ∷ 0 ∷ 0 ∷ 0 ∷ 0 ∷ 0 ∷ 0 ∷ 0
    ∷ 0 ∷ 0 ∷ 0 ∷ 0 ∷ 0 ∷ 124 ∷ 0 ∷ 0 ∷ 0 ∷ 0 ∷ 0 ∷ 0 ∷ 0 ∷ 0 ∷ 0 ∷ 0 ∷ 0 ∷ []

-- `KBD_VAL_TYPE_REGULAR` and `KBD_VAL_TYPE_SPECIAL`
abbrev pub regular_value : ℕ
regular_value = 1

abbrev pub special_value : ℕ
special_value = 2

-- `KBD_STATUS_READY`
abbrev pub ready_status : ℕ
ready_status = 1

-- `KBD_CAPSLCK`, `KBD_SHIFT_L`, `KBD_CTRL_L`, `KBD_ALT_L`, `KBD_SHIFT_R`, `KBD_SHIFT_LR_R` and
-- `KBD_SHIFT_R_R`
abbrev pub caps_lock : ℕ
caps_lock = 0x3A

abbrev pub shift_left : ℕ
shift_left = 0x2A

abbrev pub ctrl_left : ℕ
ctrl_left = 0x1D

abbrev pub alt_left : ℕ
alt_left = 0x38

abbrev pub shift_right : ℕ
shift_right = 0xB6

abbrev pub shift_release : ℕ
shift_release = 0xAA

abbrev pub shift_right_release : ℕ
shift_right_release = 0x36

-- `KBD_ESC`, `KBD_F1` to `KBD_F10`, `KBD_F11`, `KBD_F12`, `KBD_UP`, `KBD_DOWN`, `KBD_LEFT` and
-- `KBD_RIGHT`, which only go to the listeners.
unfoldable pub is_plain_special : ℕ → Bool
is_plain_special code =
    (code == 0x01)
    || ((ltb 0x3A code && ltb code 0x45)
        || ((code == 0x57)
            || ((code == 0x58)
                || ((code == 0x48) || ((code == 0x50) || ((code == 0x4B) || (code == 0x4D)))))))

-- What the other special keys do to the flags.
unfoldable pub press : Keyboard → ℕ → Keyboard
press k code =
    if code == caps_lock
    then record k { caps = if k.caps == 0 then 1 else 0 }
    else if code == shift_left
    then record k { lshift = 1 }
    else if code == ctrl_left
    then record k { lctrl = 1 }
    else if code == alt_left
    then record k { lalt = 1 }
    else if code == shift_right
    then record k { rshift = 1 }
    else record k { lshift = 0; rshift = 0 }

unfoldable pub is_flag_key : ℕ → Bool
is_flag_key code =
    (code == caps_lock)
    || ((code == shift_left)
        || ((code == ctrl_left)
            || ((code == alt_left) || ((code == shift_right) || (code == shift_release)))))

-- The character of a scan code in range.
unfoldable pub character_of : Keyboard → ℕ → ℕ
character_of k code =
    if not (k.lshift == 0) || (not (k.caps == 0) && (k.lshift == 0))
    then get_or kbd_map_up code 0
    else get_or kbd_map code 0

module _ {W : Type 0} where
  -- `serve_listeners`
  unfoldable pub serve_listeners : (ℕ → ℕ → ℕ → W → W) → List ℕ → ℕ → ℕ → W → W
  serve_listeners call [] type val w = w
  serve_listeners call (l ∷ ls) type val w = serve_listeners call ls type val (call l type val w)

  -- The listeners get a value, and the keyboard is ready again.
  unfoldable pub serve : (ℕ → ℕ → ℕ → W → W) → Keyboard → ℕ → ℕ → W → Keyboard × W
  serve call k type val w =
      (record k { kbd_status = ready_status }, serve_listeners call k.listeners type val w)

  -- `parse_scancode`; the status is busy only while it runs.
  unfoldable pub parse_scancode : (ℕ → ℕ → ℕ → W → W) → Keyboard → ℕ → W → Keyboard × W
  parse_scancode call k code w =
      if is_plain_special code
      then serve call k special_value code w
      else if is_flag_key code
      then serve call (press k code) special_value code w
      else if (code == shift_right_release) || not (ltb 0 code && ltb code 100)
      then (record k { kbd_status = ready_status }, w)
      else serve call k regular_value (character_of k code) w

-- `kbd_dev_control`; `arguments` is the address of the listener.
unfoldable pub dev_control : Keyboard → ℕ → ℕ → ℕ → ℕ × Keyboard
dev_control k device command arguments =
    if not (device == k.kbd_device) || (command == 0)
    then (minus 1, k)
    else if command == 1
    then (0, if arguments == 0 then k else record k { listeners = k.listeners ++ (arguments ∷ []) })
    else (minus 1, k)

-- `kbd_dev_status`
unfoldable pub dev_status : Keyboard → ℕ → ℕ
dev_status k device = if device == k.kbd_device then k.kbd_status else 0xFFFF_FFFF
