-- ===== src/Allocator/Find.antt =====
-- The search of the allocator ends at the block that first fit chooses, or at the last block.
use dbos.Base.{
  ℕ, zero, suc, ◌+◌, ◌^◌, ◌≤◌, ◌<◌, ◌≡◌, refl, ◌∙◌, ◌≢◌, inl, inr, Bool, true, false, not, ◌&&◌,
  Option, none, some, List, [], ◌∷◌, arith, leb, if◌then◌else◌, length, Bool-cases,
}
use dbos.Base.Word.{u32_mod}
use dbos.Allocator.{Header, header_size, Cells, write, fits, find_item}
use dbos.Allocator.Blocks.{Block, block, Chain, last, link, split, first_fit}
use dbos.Allocator.Walk.{
  Chain-top, link_any, write_self, write_ne, Reuses, Extends, Search, found, at_last, Reuses-first,
}

-- The block at `p` is passed over: what the search finds behind it holds with the block in front.
Reuses-cons :
    {cells : Cells} {size p q n top a : ℕ} {used : Bool} {bs' : List Block} {h : Header}
    → cells p ≡ some (record { size = n; next = q; present = used })
    → q ≡ p + header_size + n
    → Reuses cells size q bs' top a h
    → Reuses cells size p (block p n used ∷ bs') top a h
Reuses-cons {cells} {size} {p} {q} e eq r = record {
  cells' = r.cells';
  got = r.got;
  taken = r.taken;
  next_ne = r.next_ne;
  low = omega (arith, r.low);
  high = r.high;
  enough = r.enough;
  chain = link_any (r.same p (inl (omega arith)) ∙ e) eq r.chain;
  same = λ a o. r.same a (omega arith);
}

Extends-cons :
    {cells : Cells} {p q n top l : ℕ} {used : Bool} {bs : List Block} {h : Header}
    → cells p ≡ some (record { size = n; next = q; present = used })
    → q ≡ p + header_size + n
    → q < top
    → Extends cells q bs top l h
    → Extends cells p (block p n used ∷ bs) top l h
Extends-cons {cells} {p} {q} {n} {top} {l} e eq up x = record {
  next_eq = x.next_eq;
  end_eq = x.end_eq;
  low = omega (arith, x.low);
  chain = λ size.
      link_any
        (write_ne (write cells l _) top p _ (omega arith)
          ∙ write_ne cells l p _ (omega (arith, x.low))
          ∙ e)
        eq (x.chain size);
}

Extends-last :
    {cells : Cells} {p n top : ℕ} {used : Bool}
    → cells p ≡ some (record { size = n; next = 0; present = used })
    → top ≡ p + header_size + n
    → Extends cells p (block p n used ∷ []) top p (record { size = n; next = 0; present = used })
Extends-last {cells} {p} {n} {top} {used} e t = record {
  next_eq = refl;
  end_eq = t;
  low = omega arith;
  chain = λ size.
      let linked = write cells p (record { size = n; next = top; present = used }) in
      link (write_ne linked top p _ (omega arith) ∙ write_self cells p _) t
        (last (write_self linked top _) refl);
}

fits_eq :
    (size n q : ℕ) (used : Bool)
    → size < 2 ^ 31
    → n < 2 ^ 31
    → fits size (record { size = n; next = q; present = used }) ≡ (leb size n && not used)
unfolding fits
fits_eq size n q used hs hn = ground arith

-- The outcome of `first_fit` with a block in front that was passed over.
abbrev behind : Block → Option (ℕ × List Block) → Option (ℕ × List Block)
behind b none = none
behind b (some (a, bs)) = some (a, b ∷ bs)

first_fit_skip :
    (size : ℕ) (b c : Block) (rest : List Block)
    → (leb size b.size && not b.present) ≡ false
    → first_fit size (b ∷ c ∷ rest) ≡ behind b (first_fit size (c ∷ rest))
unfolding first_fit
first_fit_skip size b c rest miss = ground arith

Search-cons :
    {cells : Cells} {size p q n top : ℕ} {used : Bool} {bs : List Block}
    {o : Option (ℕ × List Block)} {r : Option (ℕ × Header)}
    → cells p ≡ some (record { size = n; next = q; present = used })
    → q ≡ p + header_size + n
    → q < top
    → Search cells size q bs top o r
    → Search cells size p (block p n used ∷ bs) top (behind (block p n used) o) r
Search-cons e eq up (found x) = found (Reuses-cons e eq x)
Search-cons e eq up (at_last x) = at_last (Extends-cons e eq up x)

find_item_last :
    (f : ℕ) (cells : Cells) (size p : ℕ) {h : Header}
    → cells p ≡ some h
    → h.next ≡ 0
    → find_item (suc f) cells size p ≡ some (p, h)
unfolding find_item
find_item_last f cells size p e z = ground arith

first_fit_one : (size : ℕ) (b : Block) → first_fit size (b ∷ []) ≡ none
unfolding first_fit
first_fit_one size b = refl

find_item_next :
    (f : ℕ) (cells : Cells) (size p : ℕ) {h : Header}
    → cells p ≡ some h
    → h.next ≢ 0
    → find_item (suc f) cells size p
      ≡ (if fits size h then some (p, h) else find_item f cells size h.next)
unfolding find_item
find_item_next f cells size p {h} e ne = ground arith

first_fit_hit :
    (size : ℕ) (b c : Block) (rest : List Block)
    → (leb size b.size && not b.present) ≡ true
    → first_fit size (b ∷ c ∷ rest) ≡ some (b.addr, split size b (c ∷ rest))
unfolding first_fit
first_fit_hit size b c rest hit = rw hit

Reuses-hit :
    {cells : Cells} (size p q n top : ℕ) (used : Bool) (b : Block) (bs : List Block)
    → size < 2 ^ 31
    → top ≤ u32_mod
    → top < p + 2 ^ 31
    → cells p ≡ some (record { size = n; next = q; present = used })
    → q ≡ p + header_size + n
    → Chain cells q (b ∷ bs) top
    → (leb size n && not used) ≡ true
    → Reuses cells size p
        (split size (block p n used) (b ∷ bs))
        top
        p
        (record { size = n; next = q; present = used })
Reuses-hit size p q n top true b bs hs top32 span e eq c hit = absurd (ground arith)
Reuses-hit {cells} size p q n top false b bs hs top32 span e eq c hit =
    rw eq
      (Reuses-first cells size p n top b bs hs top32 span (rw eq at e) (rw eq at c) (ground arith))

-- With fuel for each block the search of the code and `first_fit` on the blocks agree.
pub find_item-Search :
    (fuel : ℕ) {cells : Cells} (size : ℕ) {p top : ℕ} {bs : List Block}
    → size < 2 ^ 31
    → top ≤ u32_mod
    → top < p + 2 ^ 31
    → Chain cells p bs top
    → length bs ≤ fuel
    → Search cells size p bs top (first_fit size bs) (find_item fuel cells size p)
find_item-Search zero size hs top32 span (last e t) fuel = absurd (omega arith)
find_item-Search zero size hs top32 span (link e t c) fuel = absurd (omega arith)
find_item-Search (suc f) {cells} size hs top32 span (last {p} e t) fuel =
    rw (find_item_last f cells size p e refl, first_fit_one) (at_last (Extends-last e t))
find_item-Search (suc f) {cells} size {top} hs top32 span (link {p} {q} {n} {used} {b} {bs} e t c)
      fuel =
    let up = Chain-top c in
    let small : n < 2 ^ 31 = omega arith in
    let next_ne : q ≢ 0 = omega arith in
    rw (find_item_next f cells size p e next_ne, fits_eq size n q used hs small)
      (elim (Bool-cases (leb size n && not used)) [
        | inl hit ↦
            rw (first_fit_hit size (block p n used) b bs hit, hit)
              (found (Reuses-hit size p q n top used b bs hs top32 span e t c hit))
        | inr miss ↦
            rw (first_fit_skip size (block p n used) b bs miss, miss)
              (Search-cons e t (omega arith)
                (find_item-Search f size hs top32 (omega arith) c (omega arith)))
      ])
