-- ===== src/Terminal/Overrun.antt =====
-- What the input buffer of drivers/devices/gtty/gtty.c does not check.
use dbos.Base.{ℕ, ◌+◌, ◌^◌, ◌≤◌, ◌<◌, ◌≡◌, ◌≢◌, ◌⊎◌, ap, ◌∙◌, List, arith, length, get_or}
use dbos.Base.Word.{u32_mod}
use dbos.Terminal.{Gtty, store_input, take_input, keyboard_listener, dev_read, input_buffer_len}
use dbos.Terminal.Control.{dev_control}
use dbos.Terminal.Input.{listen, ArePlain, ask_input, listen-plain, read_eq, copied, line_at}

-- `GTTY_CMD_INPUT_READY` takes a line of any length: of a line that is longer than the input buffer,
-- the first character behind its 1024 bytes is stored there, in memory that is not the terminal's.
pub input_overruns :
    (answer : ℕ → ℕ) (cs : List ℕ) (n : ℕ) (g : Gtty) (device : ℕ)
    → ArePlain cs
    → input_buffer_len < length cs
    → length cs ≤ n
    → n < 2 ^ 31
    → g.gtty_device ≡ device
    → g.input_buffer_size ≡ 0
    → g.input_buffer_index ≡ 0
    → g.input_buffer + n ≤ u32_mod
    → (listen cs (dev_control answer g device 12 n).1).memory (g.input_buffer + input_buffer_len)
      ≡ get_or cs input_buffer_len 0
input_overruns answer cs n g device plain long fit small at size index inside =
    let asked = record g { input_buffer_size = n; input_buffer_flag = 0 } in
    let t = listen-plain cs asked plain (omega arith) (omega arith) (omega arith) in
    let p = g.input_buffer + input_buffer_len in
    ap (λ (h : Gtty). (listen cs h).memory p) (ask_input answer g device n at size)
    ∙ t.bytes_eq p
    ∙ line_at cs (g.input_buffer + g.input_buffer_index) p input_buffer_len (g.memory p) long
        (omega arith)

-- What a tab leaves: the index is four further, and the line is ready where it is full.
record Tabbed (g g' : Gtty) : Type 0 where
  index_eq : g'.input_buffer_index ≡ g.input_buffer_index + 4
  size_eq : g'.input_buffer_size ≡ g.input_buffer_size
  buffer_eq : g'.input_buffer ≡ g.input_buffer
  flag_eq : g'.input_buffer_flag ≡ 1

listener-Tabbed :
    (g : Gtty)
    → g.input_buffer_index < g.input_buffer_size
    → g.input_buffer_size < g.input_buffer_index + 4
    → g.input_buffer_size < 2 ^ 30
    → Tabbed g (keyboard_listener 1 9 g).0
unfolding keyboard_listener take_input store_input
listener-Tabbed g room over small = record {
  index_eq = ground arith;
  size_eq = ground arith;
  buffer_eq = ground arith;
  flag_eq = ground arith;
}

-- A tab counts as four characters but is accepted where one fits: at the end of a line, `gtty_dev_read`
-- then returns more than the size it was asked for, and writes the byte behind the reader's buffer.
pub tab_overruns :
    (g : Gtty) (device n buffer : ℕ)
    → device ≢ 0
    → buffer ≢ 0
    → g.input_buffer_size ≡ n
    → g.input_buffer_index < n
    → n < g.input_buffer_index + 4
    → n + 4 ≤ input_buffer_len
    → buffer + n + 4 ≤ u32_mod
    → g.input_buffer + input_buffer_len ≤ u32_mod
    → ((buffer + n + 4 ≤ g.input_buffer) ⊎ (g.input_buffer + input_buffer_len ≤ buffer))
    → let typed = (keyboard_listener 1 9 g).0 in
      ((dev_read typed device n buffer).0 ≡ g.input_buffer_index + 4)
      × ((dev_read typed device n buffer).1.memory (buffer + n) ≡ typed.memory (g.input_buffer + n))
tab_overruns g device n buffer nd nb size room over small inside fits apart =
    let typed = (keyboard_listener 1 9 g).0 in
    let t = listener-Tabbed g (omega arith) (omega arith) (omega arith) in
    let k = typed.input_buffer_index in
    let a = typed.input_buffer in
    let i = t.index_eq in
    let b = t.buffer_eq in
    let read = read_eq typed device n buffer nd nb t.flag_eq (t.size_eq ∙ size) in
    rw read (
      t.index_eq,
      copied typed.memory buffer a k n (omega arith) (omega arith) (omega arith) (omega arith)
            (omega arith)
          ∙ ap (λ x. typed.memory (x + n)) t.buffer_eq,
    )
