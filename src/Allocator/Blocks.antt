-- ===== src/Allocator/Blocks.antt =====
-- The abstract view of the allocator's list: blocks that follow one another in memory.
use dbos.Base.{
  ℕ, ◌+◌, ◌-◌, ◌≡◌, Bool, true, false, not, ◌&&◌, Option, none, some, List, [], ◌∷◌, ltb, leb,
  if◌then◌else◌,
}
use dbos.Allocator.{header_size, Cells}

-- Address of the header, size of the area behind it, and whether it is in use.
pub record Block : Type 0 where
  pub addr : ℕ
  pub size : ℕ
  pub present : Bool

abbrev pub block : ℕ → ℕ → Bool → Block
block addr size present = record { addr = addr; size = size; present = present }

-- From the header at `p` the `next` pointers lead through `bs`, each header right behind the area
-- of the block before it. The last block has no `next` and ends at `top`.
pub data Chain (cells : Cells) : ℕ → List Block → ℕ → Type 0 where
  last :
      {p top n : ℕ} {used : Bool}
      → cells p ≡ some (record { size = n; next = 0; present = used })
      → top ≡ p + header_size + n
      → Chain cells p (block p n used ∷ []) top
  link :
      {p q top n : ℕ} {used : Bool} {b : Block} {bs : List Block}
      → cells p ≡ some (record { size = n; next = q; present = used })
      → q ≡ p + header_size + n
      → Chain cells q (b ∷ bs) top
      → Chain cells p (block p n used ∷ b ∷ bs) top

-- Take the block, splitting off what is left if that is more than a header.
unfoldable pub split : ℕ → Block → List Block → List Block
split size b rest =
    if ltb header_size (b.size - size)
    then block b.addr size true
      ∷ block (b.addr + header_size + size) (b.size - size - header_size) false
      ∷ rest
    else block b.addr b.size true ∷ rest

-- First fit among the blocks that have a successor: the address taken, and the blocks then.
unfoldable pub first_fit : ℕ → List Block → Option (ℕ × List Block)
first_fit size [] = none
first_fit size (b ∷ []) = none
first_fit size (b ∷ c ∷ rest) =
    if leb size b.size && not b.present
    then some (b.addr, split size b (c ∷ rest))
    else elim (first_fit size (c ∷ rest)) [ none ↦ none | some (a, bs) ↦ some (a, b ∷ bs) ]
