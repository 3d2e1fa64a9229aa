-- ===== src/Terminal/Cursor.antt =====
-- The cursor of drivers/devices/gtty/gtty.c on a text screen.
use dbos.Base.{
  ℕ, ◌+◌, ◌*◌, ◌%◌, ◌^◌, ◌≤◌, ◌<◌, ◌≡◌, ◌⊎◌, inl, inr, List, [], ◌∷◌, ◌++◌, arith, ◌==◌,
  if◌then◌else◌, Bool-cases,
}
use dbos.Base.Word.{u32_mod, sub32, slt32}
use dbos.Terminal.{
  Gtty, Command, write, control, echo, Step, ◌then_do◌, store_input, xy_to_location, backspace_vga,
  character_vga, wrap_vga, scroll_vga, put_vga, body_vga, loop_vga, write_vga, pixel_mode,
}

-- Every write among the commands is to a location below `n`.
abbrev pub Within : ℕ → List Command → Type 0
Within n [] = Unit {0}
Within n (write location value ∷ cs) = (location < n) × Within n cs
Within n (control command arguments ∷ cs) = Within n cs
Within n (echo c ∷ cs) = Within n cs

Within-append : (n : ℕ) (cs ds : List Command) → Within n cs → Within n ds → Within n (cs ++ ds)
Within-append n [] ds h k = k
Within-append n (write location value ∷ cs) ds h k = (h.0, Within-append n cs ds h.1 k)
Within-append n (control command arguments ∷ cs) ds h k = Within-append n cs ds h k
Within-append n (echo c ∷ cs) ds h k = Within-append n cs ds h k

-- The size of the screen in cells.
pub record Dimensions (w h : ℕ) : Type 0 where
  pub width_pos : 0 < w
  pub width_le : w ≤ 2 ^ 15
  pub height_pos : 0 < h
  pub height_le : h ≤ 2 ^ 15

-- The screen has these dimensions, and the cursor is on it.
pub record OnScreen (w h : ℕ) (g : Gtty) : Type 0 where
  pub width_eq : g.buffer_width ≡ w
  pub height_eq : g.buffer_height ≡ h
  pub x_lt : g.main_x < w
  pub y_lt : g.main_y < h

-- The cursor may be one cell past the right border, or one row past the last.
record Near (w h : ℕ) (g : Gtty) : Type 0 where
  width_eq : g.buffer_width ≡ w
  height_eq : g.buffer_height ≡ h
  x_le : g.main_x ≤ w
  y_le : g.main_y ≤ h
  one : (g.main_x < w) ⊎ (g.main_y < h)

location-lt :
    (w h x y : ℕ) (g : Gtty)
    → Dimensions w h
    → g.buffer_width ≡ w
    → x < w
    → y < h
    → xy_to_location g x y < w * h
unfolding xy_to_location
location-lt w h x y g d e lx ly =
    let a : x + y * w < w * h = grind arith in
    let b : (x + y * w) % u32_mod ≤ x + y * w = omega arith in rw e (omega arith)

-- A step that leads from `P` to `Q` and writes on the screen only.
abbrev Keeps : (w h : ℕ) (P Q : Gtty → Type 0) → Step → Type 0
Keeps w h P Q s = (g : Gtty) → P g → Q (s g).0 × Within (w * h) (s g).1

Keeps-then :
    (w h : ℕ) (P Q R : Gtty → Type 0) (s t : Step)
    → Keeps w h P Q s
    → Keeps w h Q R t
    → Keeps w h P R (s then_do t)
Keeps-then w h P Q R s t hs ht g p =
    let (q, a) = hs g p in
    let (r, b) = ht (s g).0 q in (r, Within-append (w * h) (s g).1 (t (s g).0).1 a b)

-- The cursor is in a column of the screen.
record Wrapped (w h : ℕ) (g : Gtty) : Type 0 where
  width_eq : g.buffer_width ≡ w
  height_eq : g.buffer_height ≡ h
  x_lt : g.main_x < w
  y_le : g.main_y ≤ h

module _ (w h : ℕ) (d : Dimensions w h) where
  -- The cursor after a backspace.
  back_x : ℕ → ℕ → ℕ → ℕ
  back_x x y bw = if slt32 0 x then sub32 x 1 else if slt32 0 y then sub32 bw 1 else x

  back_y : ℕ → ℕ → ℕ
  back_y x y = if slt32 0 x then y else if slt32 0 y then sub32 y 1 else y

  back_bounds : (x y bw : ℕ) → bw ≡ w → x < w → y < h → (back_x x y bw < w) × (back_y x y < h)
  unfolding back_x back_y
  back_bounds x y bw e lx ly = ground arith

  backspace-Keeps : Keeps w h (OnScreen w h) (Near w h) backspace_vga
  unfolding backspace_vga store_input xy_to_location back_x back_y
  backspace-Keeps g p =
      let bounds = back_bounds g.main_x g.main_y g.buffer_width p.width_eq p.x_lt p.y_lt in
      let here =
        location-lt w h (back_x g.main_x g.main_y g.buffer_width) (back_y g.main_x g.main_y) g d
          p.width_eq bounds.0 bounds.1 in
      ground arith

  character-Keeps : (c : ℕ) → Keeps w h (OnScreen w h) (Near w h) (character_vga c)
  unfolding character_vga
  character-Keeps c g p =
      ground
        (arith, backspace-Keeps g p, location-lt w h g.main_x g.main_y g d p.width_eq p.x_lt p.y_lt)

  wrap-Keeps : Keeps w h (Near w h) (Wrapped w h) wrap_vga
  unfolding wrap_vga
  wrap-Keeps g p = ground arith

  scroll-Keeps : Keeps w h (Wrapped w h) (OnScreen w h) scroll_vga
  unfolding scroll_vga
  scroll-Keeps g p = ground arith

  end-Keeps : Keeps w h (Near w h) (OnScreen w h) (wrap_vga then_do scroll_vga)
  end-Keeps =
      Keeps-then w h (Near w h) (Wrapped w h) (OnScreen w h) wrap_vga scroll_vga wrap-Keeps
        scroll-Keeps

  put-Keeps : (c : ℕ) → Keeps w h (OnScreen w h) (OnScreen w h) (put_vga c)
  unfolding put_vga
  put-Keeps c =
      Keeps-then w h (OnScreen w h) (Wrapped w h) (OnScreen w h) (character_vga c then_do wrap_vga)
        scroll_vga
        (Keeps-then w h (OnScreen w h) (Near w h) (Wrapped w h) (character_vga c) wrap_vga
          (character-Keeps c) wrap-Keeps)
        scroll-Keeps

  OnScreen-Near : (g : Gtty) → OnScreen w h g → Near w h g
  OnScreen-Near g p = record {
    width_eq = p.width_eq;
    height_eq = p.height_eq;
    x_le = omega arith;
    y_le = omega arith;
    one = inl p.x_lt;
  }

  spaces-Keeps :
      Keeps w h
        (OnScreen w h)
        (OnScreen w h)
        (put_vga 32 then_do put_vga 32 then_do put_vga 32 then_do put_vga 32)
  spaces-Keeps =
      let P = OnScreen w h in
      let one = put-Keeps 32 in
      let two = Keeps-then w h P P P (put_vga 32) (put_vga 32) one one in
      let three = Keeps-then w h P P P (put_vga 32 then_do put_vga 32) (put_vga 32) two one in
      Keeps-then w h P P P (put_vga 32 then_do put_vga 32 then_do put_vga 32) (put_vga 32) three one

  tab-Keeps : Keeps w h (OnScreen w h) (OnScreen w h) (
      put_vga 32
      then_do put_vga 32
      then_do put_vga 32
      then_do put_vga 32
      then_do wrap_vga
      then_do scroll_vga)
  tab-Keeps =
      let P = OnScreen w h in
      let spaces = put_vga 32 then_do put_vga 32 then_do put_vga 32 then_do put_vga 32 in
      Keeps-then w h P (Wrapped w h) P (spaces then_do wrap_vga) scroll_vga
        (Keeps-then w h P P (Wrapped w h) spaces wrap_vga spaces-Keeps
          (λ g p. wrap-Keeps g (OnScreen-Near g p)))
        scroll-Keeps

  body-Keeps : (c : ℕ) → Keeps w h (OnScreen w h) (OnScreen w h) (body_vga c)
  unfolding body_vga
  body-Keeps c g p = elim (Bool-cases (c == 9)) [
    | inl tab ↦ rw tab (tab-Keeps g p)
    | inr other ↦ rw other (put-Keeps c g p)
  ]

  loop-Keeps : (cs : List ℕ) → Keeps w h (OnScreen w h) (OnScreen w h) (loop_vga cs)
  unfolding loop_vga
  loop-Keeps [] g p = (p, tt)
  loop-Keeps (c ∷ cs) g p =
      let (q, a) = body-Keeps c g p in
      let (r, b) = loop-Keeps cs (body_vga c g).0 q in
      (r, Within-append (w * h) (body_vga c g).1 (loop_vga cs (body_vga c g).0).1 a b)

-- Writing any bytes to a terminal with a text screen of at most 2 ^ 15 columns and rows keeps its
-- cursor on the screen, and every character that it writes lands on the screen.
pub write_vga-OnScreen :
    (w h : ℕ) (cs : List ℕ) (g : Gtty)
    → Dimensions w h
    → OnScreen w h g
    → OnScreen w h (write_vga cs g).1 × Within (w * h) (write_vga cs g).2
unfolding write_vga
write_vga-OnScreen w h cs g d p = elim (Bool-cases (g.display_mode == pixel_mode)) [
  | inl pixels ↦ rw pixels (p, tt)
  | inr text ↦ rw text (loop-Keeps w h d cs g p)
]
