-- ===== src/Terminal/Input.antt =====
-- A line typed at the terminal of drivers/devices/gtty/gtty.c is what the next read returns.
use dbos.Base.{
  ℕ, suc, ◌+◌, ◌-◌, ◌^◌, ◌≤◌, ◌<◌, ◌≡◌, ◌≢◌, ◌⊎◌, inl, inr, refl, ap, sym, ◌∙◌, true, false, List,
  [], ◌∷◌, ◌++◌, arith, ◌==◌, ==_ne, if◌then◌else◌, Bool-cases, length, get_or,
}
use dbos.Base.Word.{u32_mod, add32}
use dbos.Memory.{put, memcpy_8, memset_8}
use dbos.Memory.Single.{in_range, range_step, memcpy_8-at, memset_8-at}
use dbos.Strings.{Bytes}
use dbos.Terminal.{Gtty, store_input, take_input, keyboard_listener, dev_read, input_buffer_len}
use dbos.Terminal.Control.{dev_control}

-- The listener gets one character after the other.
unfoldable pub listen : List ℕ → Gtty → Gtty
listen [] g = g
listen (c ∷ cs) g = listen cs (keyboard_listener 1 c g).0

-- No backspace, tab, line feed or carriage return.
abbrev pub ArePlain : List ℕ → Type 0
ArePlain [] = Unit {0}
ArePlain (c ∷ cs) = ((c ≢ 8) × (c ≢ 9) × (c ≢ 10) × (c ≢ 13)) × ArePlain cs

-- What typing leaves: the characters at the index where they were typed, and the rest as it was.
pub record Typed (cs : List ℕ) (g g' : Gtty) : Type 0 where
  pub index_eq : g'.input_buffer_index ≡ g.input_buffer_index + length cs
  pub size_eq : g'.input_buffer_size ≡ g.input_buffer_size
  pub buffer_eq : g'.input_buffer ≡ g.input_buffer
  pub bytes_eq :
      (p : ℕ)
      → g'.memory p ≡ (
          if in_range (g.input_buffer + g.input_buffer_index) (length cs) p
          then get_or cs (p - (g.input_buffer + g.input_buffer_index)) 0
          else g.memory p)

stored :
    (m : Bytes) (a i c p : ℕ)
    → a + i < u32_mod
    → put m (add32 a i) c p
      ≡ (if in_range (a + i) 1 p then get_or (c ∷ []) (p - (a + i)) 0 else m p)
stored m a i c p h =
    let place : add32 a i ≡ a + i = omega arith in
    elim (Bool-cases (p == a + i)) [
      | inl here ↦
          let within : in_range (a + i) 1 p ≡ true = ground arith in
          let start : p - (a + i) ≡ 0 = ground arith in rw (place, here, within, start)
      | inr other ↦
          let without : in_range (a + i) 1 p ≡ false = ground arith in rw (place, other, without)
    ]

listener-plain :
    (c : ℕ) (g : Gtty)
    → (c ≢ 8) × (c ≢ 9) × (c ≢ 10) × (c ≢ 13)
    → g.input_buffer_index < g.input_buffer_size
    → g.input_buffer_size < 2 ^ 31
    → g.input_buffer + g.input_buffer_size ≤ u32_mod
    → Typed (c ∷ []) g (keyboard_listener 1 c g).0
unfolding keyboard_listener take_input store_input
listener-plain c g plain room small fits = record {
  index_eq = ground arith;
  size_eq = ground arith;
  buffer_eq = ground arith;
  bytes_eq = λ p.
      let here : (keyboard_listener 1 c g).0.memory
          ≡ put g.memory (add32 g.input_buffer g.input_buffer_index) c =
        ground arith in
      ap (λ (m : Bytes). m p) here
      ∙ stored g.memory g.input_buffer g.input_buffer_index c p (omega arith);
}

get_or-suc :
    (c : ℕ) (cs : List ℕ) (p a : ℕ) → a < p → get_or (c ∷ cs) (p - a) 0 ≡ get_or cs (p - (a + 1)) 0
get_or-suc c cs p a h = let e : p - a ≡ suc (p - (a + 1)) = omega arith in rw e

one_at :
    (c : ℕ) (cs : List ℕ) (p a b : ℕ)
    → p ≡ a
    → (if in_range a 1 p then get_or (c ∷ []) (p - a) 0 else b) ≡ get_or (c ∷ cs) (p - a) 0
one_at c cs p a b e =
    let within : in_range a 1 p ≡ true = ground arith in
    let start : p - a ≡ 0 = omega arith in rw (within, start)

one_off :
    (c p a b : ℕ) → (p == a) ≡ false → (if in_range a 1 p then get_or (c ∷ []) (p - a) 0 else b) ≡ b
one_off c p a b e = let without : in_range a 1 p ≡ false = ground arith in rw without

Typed-step :
    (c : ℕ) (cs : List ℕ) (g g' g'' : Gtty)
    → Typed (c ∷ []) g g'
    → Typed cs g' g''
    → Typed (c ∷ cs) g g''
Typed-step c cs g g' g'' s t =
    let a = g.input_buffer + g.input_buffer_index in
    let next : g'.input_buffer + g'.input_buffer_index ≡ a + 1 =
      omega (arith, s.index_eq, s.buffer_eq) in
    record {
      index_eq = omega (arith, s.index_eq, t.index_eq);
      size_eq = t.size_eq ∙ s.size_eq;
      buffer_eq = t.buffer_eq ∙ s.buffer_eq;
      bytes_eq = λ p.
          t.bytes_eq p
          ∙ ap (λ b. if in_range b (length cs) p then get_or cs (p - b) 0 else g'.memory p) next
          ∙ range_step a (length cs) p (get_or (c ∷ cs) (p - a) 0) (g'.memory p)
              (get_or cs (p - (a + 1)) 0) (λ e. s.bytes_eq p ∙ one_at c cs p a (g.memory p) e)
              (λ other within. sym (get_or-suc c cs p a (ground arith))) (g.memory p)
              (λ other without. s.bytes_eq p ∙ one_off c p a (g.memory p) other);
    }

-- Typing plain characters for which there is room.
pub listen-plain :
    (cs : List ℕ) (g : Gtty)
    → ArePlain cs
    → g.input_buffer_index + length cs ≤ g.input_buffer_size
    → g.input_buffer_size < 2 ^ 31
    → g.input_buffer + g.input_buffer_size ≤ u32_mod
    → Typed cs g (listen cs g)
unfolding listen
listen-plain [] g plain room small fits = record {
  index_eq = omega arith;
  size_eq = refl;
  buffer_eq = refl;
  bytes_eq = λ p. ground arith;
}
listen-plain (c ∷ cs) g plain room small fits =
    let g' = (keyboard_listener 1 c g).0 in
    let s = listener-plain c g plain.0 (omega arith) small fits in
    let i = s.index_eq in
    let z = s.size_eq in
    let b = s.buffer_eq in
    Typed-step c cs g g' (listen cs g') s
      (listen-plain cs g' plain.1 (omega arith) (omega arith) (omega arith))

pub listen-append : (cs ds : List ℕ) (g : Gtty) → listen (cs ++ ds) g ≡ listen ds (listen cs g)
unfolding listen
listen-append [] ds g = refl
listen-append (c ∷ cs) ds g = listen-append cs ds (keyboard_listener 1 c g).0

pub ask_input :
    (answer : ℕ → ℕ) (g : Gtty) (device n : ℕ)
    → g.gtty_device ≡ device
    → g.input_buffer_size ≡ 0
    → (dev_control answer g device 12 n).1
      ≡ record g { input_buffer_size = n; input_buffer_flag = 0 }
unfolding dev_control
ask_input answer g device n at size =
    let ours : (device == g.gtty_device) ≡ true = ground arith in
    let free : (g.input_buffer_size == 0) ≡ true = ground arith in rw (ours, free, dev_control)

-- A line feed ends the line.
record Ended (g g' : Gtty) : Type 0 where
  flag_eq : g'.input_buffer_flag ≡ 1
  index_eq : g'.input_buffer_index ≡ g.input_buffer_index
  size_eq : g'.input_buffer_size ≡ g.input_buffer_size
  buffer_eq : g'.input_buffer ≡ g.input_buffer
  memory_eq : g'.memory ≡ g.memory

listener-Ended : (g : Gtty) → Ended g (keyboard_listener 1 10 g).0
unfolding keyboard_listener take_input
listener-Ended g = record {
  flag_eq = ground arith;
  index_eq = ground arith;
  size_eq = ground arith;
  buffer_eq = ground arith;
  memory_eq = ground arith;
}

-- What `gtty_dev_read` returns where a line is ready.
pub read_eq :
    (g : Gtty) (device n buffer : ℕ)
    → device ≢ 0
    → buffer ≢ 0
    → g.input_buffer_flag ≡ 1
    → g.input_buffer_size ≡ n
    → dev_read g device n buffer ≡ (
      g.input_buffer_index,
      record g {
        memory =
            memset_8
              (memcpy_8 g.memory buffer g.input_buffer g.input_buffer_index)
              g.input_buffer
              0
              input_buffer_len;
        input_buffer_flag = 0;
        input_buffer_size = 0;
        input_buffer_index = 0;
      },
    )
unfolding dev_read
read_eq g device n buffer nd nb flag size =
    let ready : (g.input_buffer_flag == 1) ≡ true = ground arith in
    let whole : (n == g.input_buffer_size) ≡ true = ground arith in
    rw (==_ne device 0 nd, ==_ne buffer 0 nb, ready, whole, dev_read)

-- The bytes of the reader's buffer.
pub copied :
    (m : Bytes) (buffer input k i : ℕ)
    → i < k
    → k ≤ input_buffer_len
    → buffer + k ≤ u32_mod
    → input + input_buffer_len ≤ u32_mod
    → ((buffer + k ≤ input) ⊎ (input + input_buffer_len ≤ buffer))
    → memset_8 (memcpy_8 m buffer input k) input 0 input_buffer_len (buffer + i) ≡ m (input + i)
copied m buffer input k i h small room inside apart =
    let off : in_range input input_buffer_len (buffer + i) ≡ false = ground arith in
    let on : in_range buffer k (buffer + i) ≡ true = ground arith in
    let at : input + (buffer + i - buffer) ≡ input + i = omega arith in
    memset_8-at (memcpy_8 m buffer input k) input input_buffer_len (buffer + i) inside (omega arith)
    ∙ rw off (
        memcpy_8-at m buffer input k (buffer + i) room (omega arith) (omega arith) (omega arith)
        ∙ rw on (ap m at))

pub line_at :
    (cs : List ℕ) (a p i other : ℕ)
    → i < length cs
    → p ≡ a + i
    → (if in_range a (length cs) p then get_or cs (p - a) 0 else other) ≡ get_or cs i 0
line_at cs a p i other h e =
    let on : in_range a (length cs) p ≡ true = ground arith in
    let off : p - a ≡ i = omega arith in rw (on, off)

-- After `GTTY_CMD_INPUT_READY` for a line of `n` characters, at most the length of the input buffer,
-- typing at most `n` characters that are no backspaces, tabs or line ends, and then a line feed, lets
-- `gtty_dev_read` return their number and put them in the reader's buffer; the terminal then is ready for
-- the next line. The reader's buffer lies apart from the input buffer, and neither runs over the end of
-- the memory.
pub typed-read :
    (answer : ℕ → ℕ) (cs : List ℕ) (n : ℕ) (g : Gtty) (device buffer : ℕ)
    → ArePlain cs
    → length cs ≤ n
    → 0 < n
    → n ≤ input_buffer_len
    → g.gtty_device ≡ device
    → device ≢ 0
    → g.input_buffer_size ≡ 0
    → g.input_buffer_index ≡ 0
    → g.input_buffer + input_buffer_len ≤ u32_mod
    → buffer ≢ 0
    → buffer + n ≤ u32_mod
    → ((buffer + n ≤ g.input_buffer) ⊎ (g.input_buffer + input_buffer_len ≤ buffer))
    → let typed = listen (cs ++ (10 ∷ [])) (dev_control answer g device 12 n).1 in
      ((dev_read typed device n buffer).0 ≡ length cs)
      × ((i : ℕ)
          → i < length cs
          → (dev_read typed device n buffer).1.memory (buffer + i) ≡ get_or cs i 0)
      × ((dev_read typed device n buffer).1.input_buffer_index ≡ 0)
      × ((dev_read typed device n buffer).1.input_buffer_size ≡ 0)
      × ((dev_read typed device n buffer).1.input_buffer_flag ≡ 0)
unfolding listen
typed-read answer cs n g device buffer plain fit pos small at nd size index inside nb room apart =
    let asked = record g { input_buffer_size = n; input_buffer_flag = 0 } in
    let typed = listen cs asked in
    let t = listen-plain cs asked plain (omega arith) (omega arith) (omega arith) in
    let e = listener-Ended typed in
    let end = (keyboard_listener 1 10 typed).0 in
    let reached : listen (cs ++ (10 ∷ [])) (dev_control answer g device 12 n).1 ≡ end =
      ap (listen (cs ++ (10 ∷ []))) (ask_input answer g device n at size)
      ∙ listen-append cs (10 ∷ []) asked in
    let count : end.input_buffer_index ≡ length cs = omega (arith, e.index_eq, t.index_eq) in
    let place : end.input_buffer ≡ g.input_buffer = e.buffer_eq ∙ t.buffer_eq in
    let read = read_eq end device n buffer nd nb e.flag_eq (e.size_eq ∙ t.size_eq) in
    let bytes : (i : ℕ)
        → i < length cs
        → memset_8 (memcpy_8 end.memory buffer end.input_buffer end.input_buffer_index)
            end.input_buffer 0 input_buffer_len (buffer + i)
          ≡ get_or cs i 0 =
      λ i h.
        copied end.memory buffer end.input_buffer end.input_buffer_index i (omega arith)
          (omega arith) (omega arith) (omega arith) (omega arith)
        ∙ ap (λ (m : Bytes). m (end.input_buffer + i)) e.memory_eq
        ∙ t.bytes_eq (end.input_buffer + i)
        ∙ line_at cs (g.input_buffer + g.input_buffer_index) (end.input_buffer + i) i
            (g.memory (end.input_buffer + i)) h (omega arith) in
    rw (reached, read) (count, bytes, refl, refl, refl)
