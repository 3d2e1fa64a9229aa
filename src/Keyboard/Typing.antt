-- ===== src/Keyboard/Typing.antt =====
-- From the keys of drivers/devices/keyboard/keyboard.c to a line of drivers/devices/gtty/gtty.c.
use dbos.Base.{
  ℕ, zero, suc, ◌+◌, ◌-◌, sym, ◌&&◌, map, ◌≤◌, ◌<◌, ◌≡◌, ◌≢◌, ◌⊎◌, inl, inr, refl, ap, ◌∙◌, true,
  false, List, [], ◌∷◌, ◌++◌, arith, ◌==◌, ==_ne, ==_refl, Bool-cases, ltb, if◌then◌else◌, length,
  get_or,
}
use dbos.Base.Word.{u32_mod}
use dbos.Terminal.{Gtty, keyboard_listener, dev_read, input_buffer_len}
use dbos.Terminal.Control
use dbos.Terminal.Input.{listen, ArePlain, typed-read}
use dbos.Keyboard.{
  Keyboard, is_plain_special, is_flag_key, shift_right_release, ready_status, kbd_map, kbd_map_up,
  character_of, serve, serve_listeners, parse_scancode,
}

-- The function of the terminal is the listener `l`.
abbrev pub call_gtty : ℕ → ℕ → ℕ → ℕ → Gtty → Gtty
call_gtty l function type val g = if function == l then (keyboard_listener type val g).0 else g

-- One scan code after the other.
unfoldable pub press_keys : ℕ → Keyboard → List ℕ → Gtty → Keyboard × Gtty
press_keys l k [] g = (k, g)
press_keys l k (code ∷ codes) g =
    let (k', g') = parse_scancode (call_gtty l) k code g in press_keys l k' codes g'

abbrev pub zeros : ℕ → List ℕ
zeros zero = []
zeros (suc n) = 0 ∷ zeros n

-- The key of a character is pressed, or any key but a shift key is released.
abbrev pub IsKey : ℕ → Type 0
IsKey code =
    ((is_plain_special code ≡ false)
      × (is_flag_key code ≡ false)
      × (code ≢ shift_right_release)
      × (0 < code)
      × (code < 100))
    ⊎ ((100 ≤ code) × (code ≢ 0xAA) × (code ≢ 0xB6))

abbrev pub AreKeys : List ℕ → Type 0
AreKeys [] = Unit {0}
AreKeys (code ∷ codes) = IsKey code × AreKeys codes

-- The keys by their places: the two keys without a character, the row of digits, and the three rows of
-- letters, each between its special keys; then the space bar and the key beside the left shift key.
abbrev pub key_rows : List ℕ
key_rows =
    0
    ∷ 0
    ∷ b'1'
    ∷ b'2'
    ∷ b'3'
    ∷ b'4'
    ∷ b'5'
    ∷ b'6'
    ∷ b'7'
    ∷ b'8'
    ∷ b'9'
    ∷ b'0'
    ∷ b'-'
    ∷ b'='
    ∷ 8
    ∷ 9
    ∷ b'q'
    ∷ b'w'
    ∷ b'e'
    ∷ b'r'
    ∷ b't'
    ∷ b'y'
    ∷ b'u'
    ∷ b'i'
    ∷ b'o'
    ∷ b'p'
    ∷ b'['
    ∷ b']'
    ∷ 10
    ∷ 0
    ∷ b'a'
    ∷ b's'
    ∷ b'd'
    ∷ b'f'
    ∷ b'g'
    ∷ b'h'
    ∷ b'j'
    ∷ b'k'
    ∷ b'l'
    ∷ b';'
    ∷ 39
    ∷ b'`'
    ∷ 0
    ∷ b'#'
    ∷ b'z'
    ∷ b'x'
    ∷ b'c'
    ∷ b'v'
    ∷ b'b'
    ∷ b'n'
    ∷ b'm'
    ∷ b','
    ∷ b'.'
    ∷ b'/'
    ∷ 0
    ∷ 0
    ∷ 0
    ∷ b' '
    ∷ (zeros 30 ++ (92 ∷ zeros 11))

-- The other character on a key that is no letter; three keys have none.
abbrev pub symbols : List (ℕ × ℕ)
symbols =
    (b'1', b'!')
    ∷ (b'2', 34)
    ∷ (b'3', 0)
    ∷ (b'4', b'$')
    ∷ (b'5', b'%')
    ∷ (b'6', b'^')
    ∷ (b'7', b'&')
    ∷ (b'8', b'*')
    ∷ (b'9', b'(')
    ∷ (b'0', b')')
    ∷ (b'-', b'_')
    ∷ (b'=', b'+')
    ∷ (b'[', b'{')
    ∷ (b']', b'}')
    ∷ (b';', b':')
    ∷ (39, b'@')
    ∷ (b'`', 0)
    ∷ (b'#', b'~')
    ∷ (b',', b'<')
    ∷ (b'.', b'>')
    ∷ (b'/', b'?')
    ∷ (92, b'|')
    ∷ []

abbrev pub symbol_of : List (ℕ × ℕ) → ℕ → ℕ
symbol_of [] c = c
symbol_of ((x, y) ∷ rest) c = let later = symbol_of rest c in if c == x then y else later

-- A letter becomes its capital, which is 32 below it.
abbrev pub capital : ℕ → ℕ
capital c = if ltb 96 c && ltb c 123 then c - 32 else symbol_of symbols c

-- Capitals are typed while the left shift key is down, and while the caps lock is on.
abbrev pub typed_with : Keyboard → ℕ → ℕ
typed_with k c = if k.lshift == 0 then (if k.caps == 0 then c else capital c) else capital c

-- The characters of the keys that are pressed.
abbrev pub typed_characters : Keyboard → List ℕ → List ℕ
typed_characters k [] = []
typed_characters k (code ∷ codes) =
    let rest = typed_characters k codes in
    if ltb code 100 then typed_with k (get_or key_rows code 0) ∷ rest else rest

get_or-map : (f : ℕ → ℕ) (xs : List ℕ) (i : ℕ) → f 0 ≡ 0 → get_or (map f xs) i 0 ≡ f (get_or xs i 0)
get_or-map f [] i e = sym e
get_or-map f (x ∷ xs) zero e = refl
get_or-map f (x ∷ xs) (suc i) e = get_or-map f xs i e

-- The two tables of the header are the keys, and the keys with capitals.
kbd_map_rows : kbd_map ≡ key_rows
kbd_map_rows = refl

kbd_map_up_rows : kbd_map_up ≡ map capital key_rows
kbd_map_up_rows = refl

character_of_eq :
    (k : Keyboard) (code : ℕ) → character_of k code ≡ typed_with k (get_or key_rows code 0)
unfolding character_of
character_of_eq k code =
    let up : get_or kbd_map_up code 0 ≡ capital (get_or key_rows code 0) =
      ap (λ t. get_or t code 0) kbd_map_up_rows ∙ get_or-map capital key_rows code refl in
    elim (Bool-cases (k.lshift == 0)) [
      | inl low ↦ elim (Bool-cases (k.caps == 0)) [
        | inl off ↦ rw (low, off) refl
        | inr on ↦ rw (low, on) up
      ]
      | inr down ↦ rw down up
    ]

release_codes :
    (code : ℕ)
    → 100 ≤ code
    → code ≢ 0xAA
    → code ≢ 0xB6
    → (is_plain_special code ≡ false) × (is_flag_key code ≡ false)
unfolding is_plain_special is_flag_key
release_codes code h a b = ground arith

press_eq :
    (l code : ℕ) (k : Keyboard) (g : Gtty)
    → k.listeners ≡ l ∷ []
    → IsKey code
    → parse_scancode (call_gtty l) k code g ≡ (
      record k { kbd_status = ready_status },
      if ltb code 100 then (keyboard_listener 1 (character_of k code) g).0 else g,
    )
unfolding parse_scancode serve serve_listeners
press_eq l code k g e (inl (a, b, c, d, h)) =
    let pos : ltb 0 code ≡ true = ground arith in
    let low : ltb code 100 ≡ true = ground arith in
    rw (a, b, ==_ne code shift_right_release c, pos, low, e, ==_refl l, parse_scancode)
press_eq l code k g e (inr (h, a, b)) =
    let (p, f) = release_codes code h a b in
    let high : ltb code 100 ≡ false = ground arith in
    let other : (code == shift_right_release) ≡ false = ground arith in
    let pos : ltb 0 code ≡ true = ground arith in rw (p, f, other, pos, high, parse_scancode)

typed_characters-ready :
    (k : Keyboard) (codes : List ℕ)
    → typed_characters (record k { kbd_status = ready_status }) codes ≡ typed_characters k codes
typed_characters-ready k [] = refl
typed_characters-ready k (code ∷ codes) = rw (typed_characters-ready k codes)

-- The terminal gets the characters.
press_keys-listen :
    (l : ℕ) (k : Keyboard) (codes : List ℕ) (g : Gtty)
    → k.listeners ≡ l ∷ []
    → AreKeys codes
    → (press_keys l k codes g).1 ≡ listen (typed_characters k codes) g
unfolding press_keys listen
press_keys-listen l k [] g e keys = refl
press_keys-listen l k (code ∷ codes) g e keys =
    let k' = record k { kbd_status = ready_status } in
    rw (press_eq l code k g e keys.0, press_keys)
      (elim (Bool-cases (ltb code 100)) [
        | inl pressed ↦
            let g' = (keyboard_listener 1 (typed_with k (get_or key_rows code 0)) g).0 in
            rw (pressed, character_of_eq k code)
              (press_keys-listen l k' codes g' e keys.1
                ∙ ap (λ s. listen s g') (typed_characters-ready k codes))
        | inr released ↦ rw released (
            press_keys-listen l k' codes g e keys.1
            ∙ ap (λ s. listen s g) (typed_characters-ready k codes))
      ])

-- Pressing and releasing keys, the last of them the key of the line feed, with the terminal as the only
-- listener and after `GTTY_CMD_INPUT_READY` for a line of `n` characters: `gtty_dev_read` returns the
-- number of the characters typed before the line feed and puts them in the reader's buffer: the
-- characters of the keys by their places, or the capitals while the left shift key is down or the caps
-- lock is on. They are at most `n`, which is at most the length of the input buffer, and no
-- backspaces, tabs or line ends; no shift key is pressed or released meanwhile. The reader's buffer lies
-- apart from the input buffer, and neither runs over the end of the memory.
pub press_keys-read :
    (answer : ℕ → ℕ) (l : ℕ) (k : Keyboard) (codes cs : List ℕ) (n : ℕ) (g : Gtty)
    (device buffer : ℕ)
    → k.listeners ≡ l ∷ []
    → AreKeys codes
    → typed_characters k codes ≡ cs ++ (10 ∷ [])
    → ArePlain cs
    → length cs ≤ n
    → 0 < n
    → n ≤ input_buffer_len
    → g.gtty_device ≡ device
    → device ≢ 0
    → g.input_buffer_size ≡ 0
    → g.input_buffer_index ≡ 0
    → g.input_buffer + input_buffer_len ≤ u32_mod
    → buffer ≢ 0
    → buffer + n ≤ u32_mod
    → ((buffer + n ≤ g.input_buffer) ⊎ (g.input_buffer + input_buffer_len ≤ buffer))
    → let typed = (press_keys l k codes (Control.dev_control answer g device 12 n).1).1 in
      ((dev_read typed device n buffer).0 ≡ length cs)
      × ((i : ℕ)
          → i < length cs
          → (dev_read typed device n buffer).1.memory (buffer + i) ≡ get_or cs i 0)
press_keys-read answer l k codes cs n g device buffer e keys typed plain fit pos small at nd size
      index inside nb room apart =
    let asked = (Control.dev_control answer g device 12 n).1 in
    let same_line : (press_keys l k codes asked).1 ≡ listen (cs ++ (10 ∷ [])) asked =
      press_keys-listen l k codes asked e keys ∙ ap (λ s. listen s asked) typed in
    let r =
      typed-read answer cs n g device buffer plain fit pos small at nd size index inside nb room
        apart in
    rw same_line (r.0, r.1)
