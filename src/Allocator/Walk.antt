-- ===== src/Allocator/Walk.antt =====
-- The search of the allocator along a chain of blocks, and what each of its outcomes leaves.
use dbos.Base.{
  ℕ, ◌+◌, ◌-◌, ◌^◌, ◌≤◌, ◌<◌, ◌≡◌, refl, ◌∙◌, ◌≢◌, ◌⊎◌, inl, inr, Bool, true, false, Option, none,
  some, List, [], ◌∷◌, ◌++◌, arith, ltb, length, Bool-cases,
}
use dbos.Base.Word.{u32_mod, add32, sub32, slt32}
use dbos.Allocator.{Header, header_size, Cells, write, take_block}
use dbos.Allocator.Blocks.{Block, block, Chain, last, link, split}

-- Outside the addresses from `p` up to `top` nothing has changed.
abbrev pub SameOutside : Cells → Cells → ℕ → ℕ → Type 0
SameOutside cells cells' p top = (a : ℕ) → (a < p) ⊎ (top ≤ a) → cells' a ≡ cells a

pub Chain-top :
    {cells : Cells} {p top : ℕ} {bs : List Block} → Chain cells p bs top → p + header_size ≤ top
Chain-top (last e t) = omega arith
Chain-top (link e q c) = omega (arith, Chain-top c)

pub Chain-length :
    {cells : Cells} {p top : ℕ} {bs : List Block} → Chain cells p bs top → length bs + p < top
Chain-length (last e t) = omega arith
Chain-length (link e q c) = omega (arith, Chain-length c)

pub Chain-frame :
    {cells cells' : Cells} {p top : ℕ} {bs : List Block}
    → Chain cells p bs top
    → ((a : ℕ) → p ≤ a → a < top → cells' a ≡ cells a)
    → Chain cells' p bs top
Chain-frame (last {p} e t) same = last (same p (omega arith) (omega arith) ∙ e) t
Chain-frame (link {p} e q c) same =
    link (same p (omega arith) (omega (arith, Chain-top c)) ∙ e) q
      (Chain-frame c (λ a lo hi. same a (omega arith) hi))

pub link_any :
    {cells : Cells} {p q top n : ℕ} {used : Bool} {bs : List Block}
    → cells p ≡ some (record { size = n; next = q; present = used })
    → q ≡ p + header_size + n
    → Chain cells q bs top
    → Chain cells p (block p n used ∷ bs) top
link_any e q (last e' t) = link e q (last e' t)
link_any e q (link e' q' c) = link e q (link e' q' c)

pub write_self : (cells : Cells) (p : ℕ) (h : Header) → write cells p h p ≡ some h
unfolding write
write_self cells p h = ground arith

pub write_ne : (cells : Cells) (p a : ℕ) (h : Header) → a ≢ p → write cells p h a ≡ cells a
unfolding write
write_ne cells p a h ne = ground arith

-- A free block in the middle was found: taking it gives the blocks `bs'`.
pub record Reuses (cells : Cells) (size p : ℕ) (bs' : List Block) (top a : ℕ) (h : Header)
    : Type 0 where
  pub cells' : Cells
  pub got : ℕ
  pub taken : take_block cells size a h ≡ (cells', got)
  pub next_ne : h.next ≢ 0
  pub low : p ≤ a
  pub high : a + header_size + got ≤ top
  pub enough : size ≤ got
  pub chain : Chain cells' p bs' top
  pub same : SameOutside cells cells' p top

-- The search went to the last block: linking a new block behind it appends that block.
pub record Extends (cells : Cells) (p : ℕ) (bs : List Block) (top l : ℕ) (h : Header) : Type 0 where
  pub next_eq : h.next ≡ 0
  pub end_eq : top ≡ l + header_size + h.size
  pub low : p ≤ l
  pub chain :
      (size : ℕ)
      → Chain
          (write
            (write cells l (record h { next = top }))
            top
            (record { size = size; next = 0; present = true }))
          p
          (bs ++ (block top size true ∷ []))
          (top + header_size + size)

pub data Search (cells : Cells) (size p : ℕ) (bs : List Block) (top : ℕ)
    : Option (ℕ × List Block) → Option (ℕ × Header) → Type 0 where
  found :
      {a : ℕ} {h : Header} {bs' : List Block}
      → Reuses cells size p bs' top a h
      → Search cells size p bs top (some (a, bs')) (some (a, h))
  at_last :
      {l : ℕ} {h : Header}
      → Extends cells p bs top l h
      → Search cells size p bs top none (some (l, h))

module _ (cells : Cells) (size p n top : ℕ) (b : Block) (bs : List Block) (small : size < 2 ^ 31)
    (fit32 : top ≤ u32_mod) (span : top < p + 2 ^ 31)
    (e : cells p ≡ some (record { size = n; next = p + header_size + n; present = false }))
    (c : Chain cells (p + header_size + n) (b ∷ bs) top) (big : size ≤ n) where
  abbrev pub here : Header
  here = record { size = n; next = p + header_size + n; present = false }

  abbrev whole : Cells
  whole = write cells p (record here { present = true })

  take_whole : ltb header_size (n - size) ≡ false → take_block cells size p here ≡ (whole, n)
  unfolding take_block
  take_whole t = let up = Chain-top c in ground arith

  abbrev rest : Header
  rest = record { size = n - size - header_size; next = p + header_size + n; present = false }

  abbrev taken : Header
  taken = record { size = size; next = p + header_size + size; present = true }

  abbrev halves : Cells
  halves = write (write cells p taken) (p + header_size + size) rest

  take_split : ltb header_size (n - size) ≡ true → take_block cells size p here ≡ (halves, size)
  unfolding take_block
  take_split t =
      let up = Chain-top c in
      let d : sub32 n size ≡ n - size = omega arith in
      let s : add32 p (add32 header_size size) ≡ p + header_size + size = ground arith in
      let r : sub32 (n - size) header_size ≡ n - size - header_size = ground arith in
      let big1 : slt32 0 (n - size) ≡ true = ground arith in
      let big2 : slt32 (n - size) (header_size + 1) ≡ false = ground arith in
      rw (d, big1, big2, s, r, take_block)

  Reuses-whole :
      ltb header_size (n - size) ≡ false → Reuses cells size p (block p n true ∷ b ∷ bs) top p here
  Reuses-whole t =
      let up = Chain-top c in
      record {
        cells' = whole;
        got = n;
        taken = take_whole t;
        next_ne = omega arith;
        low = omega arith;
        high = omega arith;
        enough = big;
        chain =
            link (write_self cells p _) refl
              (Chain-frame c (λ a lo hi. write_ne cells p a _ (omega arith)));
        same = λ a o. write_ne cells p a _ (omega arith);
      }

  Reuses-split :
      ltb header_size (n - size) ≡ true
      → Reuses cells size p
          (block p size true
            ∷ block (p + header_size + size) (n - size - header_size) false
            ∷ b
            ∷ bs)
          top
          p
          here
  Reuses-split t =
      let up = Chain-top c in
      let room : header_size < n - size = ground arith in
      let half = write cells p taken in
      let s = p + header_size + size in
      record {
        cells' = halves;
        got = size;
        taken = take_split t;
        next_ne = omega arith;
        low = omega arith;
        high = omega arith;
        enough = omega arith;
        chain = link (write_ne half s p rest (omega arith) ∙ write_self cells p taken) refl (
            link (write_self half s rest) (omega arith) (
              Chain-frame c (λ a lo hi.
                write_ne half s a rest (omega arith) ∙ write_ne cells p a taken (omega arith))));
        same = λ a o. write_ne half s a rest (omega arith) ∙ write_ne cells p a taken (omega arith);
      }

  pub Reuses-first : Reuses cells size p (split size (block p n false) (b ∷ bs)) top p here
  unfolding split
  Reuses-first = elim (Bool-cases (ltb header_size (n - size))) [
    | inl t ↦ rw t (Reuses-split t)
    | inr t ↦ rw t (Reuses-whole t)
  ]
