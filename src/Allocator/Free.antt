-- ===== src/Allocator/Free.antt =====
-- `kern_free` and `alloc_free`, and that the areas handed out do not overlap.
use dbos.Base.{
  ℕ, zero, suc, ◌+◌, ◌^◌, ◌≤◌, ◌<◌, ◌≡◌, refl, sym, ◌∙◌, ap, ◌≢◌, ◌⊎◌, inl, inr, true, false, not,
  ◌&&◌, some, List, [], ◌∷◌, arith, leb, get_elem?, set, Bool-cases, Option-cases,
}
use native.Mathlib.Decide.{dec_lt}
use mathlib.Core.Option.{some-injective}
use dbos.Base.Word.{u32_mod, sub32}
use dbos.Allocator.{Header, header_size, Cells, Heap, Grow, write, allocate, free}
use dbos.Allocator.Blocks.{Block, block, Chain, last, link, first_fit}
use dbos.Allocator.Walk.{Chain-top, Chain-frame, link_any, write_self, write_ne}
use dbos.Allocator.Allocate.{IsHeap, CanGrow, Placed, reused, appended, refused, allocate-Placed}

-- The header of the block at index `i`.
record HasHeader (cells : Cells) (p : ℕ) (bs : List Block) (top i : ℕ) (b : Block) : Type 0 where
  pub next : ℕ
  pub holds : cells b.addr ≡ some (record { size = b.size; next = next; present = b.present })
  pub low : p ≤ b.addr
  pub high : b.addr + header_size + b.size ≤ top
  pub chain :
      Chain
        (write cells b.addr (record { size = b.size; next = next; present = false }))
        p
        (set bs i (block b.addr b.size false))
        top

Chain-HasHeader :
    {cells : Cells} {p top : ℕ} {bs : List Block} (i : ℕ) {b : Block}
    → Chain cells p bs top
    → get_elem? bs i ≡ some b
    → HasHeader cells p bs top i b
Chain-HasHeader {cells} zero {b = b'} (last {p} {n = n} {used} e t) at =
    let here : block p n used ≡ b' = some-injective _ _ at in
    rw (← here) (record {
      next = 0;
      holds = e;
      low = omega arith;
      high = omega arith;
      chain = last (write_self cells p _) t;
    })
Chain-HasHeader (suc i) (last e t) at = absurd (ground arith)
Chain-HasHeader {cells} zero {b = b'} (link {p} {q} {n = n} {used} e eq c) at =
    let here : block p n used ≡ b' = some-injective _ _ at in
    rw (← here) (record {
      next = q;
      holds = e;
      low = omega arith;
      high = omega (arith, Chain-top c);
      chain =
          link (write_self cells p _) eq
            (Chain-frame c (λ a lo hi. write_ne cells p a _ (omega arith)));
    })
Chain-HasHeader {cells} (suc i) {b = b'} (link {p} {q} {n = n} e eq c) at =
    let r = Chain-HasHeader i c at in
    record {
      next = r.next;
      holds = r.holds;
      low = omega (arith, r.low);
      high = r.high;
      chain = link_any (write_ne cells b'.addr p _ (omega (arith, r.low)) ∙ e) eq r.chain;
    }

module _ {E : Type 0} where
  -- Freeing the area of the block at index `i` succeeds, and makes that block free; the other
  -- blocks, the extent of the heap and the bytes stay.
  pub free-IsHeap :
      (heap : Heap E) (bs : List Block) (top i : ℕ) (b : Block)
      → IsHeap heap bs top
      → get_elem? bs i ≡ some b
      → (heap' : Heap E) × (free heap (b.addr + header_size) ≡ some heap')
        × IsHeap heap' (set bs i (block b.addr b.size false)) top
        × (heap'.bytes ≡ heap.bytes)
        × (heap'.end ≡ heap.end)
  unfolding free
  free-IsHeap heap bs top i b v at =
      let r = Chain-HasHeader i v.chain at in
      let freed : Header = record { size = b.size; next = r.next; present = false } in
      let back : sub32 (b.addr + header_size) header_size ≡ b.addr =
        omega (arith, r.high, v.inside, v.in_space) in
      (
        record heap { cells = write heap.cells b.addr freed },
        rw (back, r.holds, free) (rw back),
        record {
          started = v.started;
          head_eq = v.head_eq;
          chain = r.chain;
          inside = v.inside;
          in_space = v.in_space;
          span = v.span;
        },
        refl,
        refl,
      )

Chain-low :
    {cells : Cells} {p top : ℕ} {bs : List Block} (j : ℕ) {c : Block}
    → Chain cells p bs top
    → get_elem? bs j ≡ some c
    → p ≤ c.addr
Chain-low j c at = (Chain-HasHeader j c at).low

-- Two blocks at different places of the list lie apart, headers included.
pub Chain-apart :
    {cells : Cells} {p top : ℕ} {bs : List Block} (i j : ℕ) {b c : Block}
    → Chain cells p bs top
    → get_elem? bs i ≡ some b
    → get_elem? bs j ≡ some c
    → i < j
    → b.addr + header_size + b.size ≤ c.addr
Chain-apart zero zero k at at' lt = absurd (omega arith)
Chain-apart zero (suc j) (last e t) at at' lt = absurd (ground arith)
Chain-apart zero (suc j) {b} (link {p} {n = n} {used} e eq k) at at' lt =
    let here : block p n used ≡ b = some-injective _ _ at in
    rw (← here) (omega (arith, Chain-low j k at'))
Chain-apart (suc i) zero k at at' lt = absurd (omega arith)
Chain-apart (suc i) (suc j) (last e t) at at' lt = absurd (ground arith)
Chain-apart (suc i) (suc j) (link e eq k) at at' lt = Chain-apart i j k at at' (omega arith)

-- What first fit takes is a free block that is large enough.
first_fit-get :
    (size : ℕ) (bs : List Block) {a : ℕ} {bs' : List Block}
    → first_fit size bs ≡ some (a, bs')
    → (i : ℕ) × (b : Block) × (get_elem? bs i ≡ some b)
      × (b.addr ≡ a)
      × (b.present ≡ false)
      × (size ≤ b.size)
unfolding first_fit
first_fit-get size [] h = absurd (ground arith)
first_fit-get size (b ∷ []) h = absurd (ground arith)
first_fit-get size (b ∷ c ∷ rest) {a} h = elim (Bool-cases (leb size b.size && not b.present)) [
  | inl hit ↦ (0, b, refl, ground arith, ground arith, ground arith)
  | inr miss ↦ elim (Option-cases (first_fit size (c ∷ rest))) [
    | inl e ↦ absurd (ground arith)
    | inr ((a', bs''), e) ↦
        let (i, d, at, ad, free, big) = first_fit-get size (c ∷ rest) e in
        (suc i, d, at, ground arith, free, big)
  ]
]

Placed-disjoint :
    {E : Type 0} {heap heap' : Heap E} {bs : List Block} {top size addr : ℕ} (j : ℕ) (c : Block)
    → IsHeap heap bs top
    → Placed heap bs top size (addr, heap')
    → addr ≢ 0
    → get_elem? bs j ≡ some c
    → c.present ≡ true
    → (addr + size ≤ c.addr) ⊎ (c.addr + header_size + c.size + header_size ≤ addr)
Placed-disjoint {bs} {size} j c v (reused a got hit ad _ _ _ _) nz at used =
    let (i, b, at', eq, free, big) = first_fit-get size bs hit in
    elim (dec_lt i j) [
      | yes p ↦ inl (omega (arith, Chain-apart i j v.chain at' at p))
      | no p ↦ elim (dec_lt j i) [
        | yes q ↦ inr (omega (arith, Chain-apart j i v.chain at at' q))
        | no q ↦ let same : i ≡ j = omega arith in absurd (ground (arith, ap (get_elem? bs) same))
      ]
    ]
Placed-disjoint j c v (appended _ ad _ _) nz at used =
    inr (omega (arith, (Chain-HasHeader j v.chain at).high))
Placed-disjoint j c v (refused _ ad _ _) nz at used = absurd (nz ad)

-- An allocation that succeeds hands out an area that lies apart from the header and the area of
-- every block that was in use.
pub allocate-disjoint :
    {E : Type 0} (grow : Grow E) (heap : Heap E) (bs : List Block) (top size : ℕ)
    → IsHeap heap bs top
    → size < 2 ^ 31
    → heap.end + size + 16 < u32_mod
    → CanGrow grow heap size
    → (addr : ℕ) (heap' : Heap E) → allocate grow heap size ≡ some (addr, heap')
    → addr ≢ 0
    → (j : ℕ) (c : Block) → get_elem? bs j ≡ some c
    → c.present ≡ true
    → (addr + size ≤ c.addr) ⊎ (c.addr + header_size + c.size + header_size ≤ addr)
allocate-disjoint grow heap bs top size v small space g addr heap' run nz j c at used =
    let (out, e, p) = allocate-Placed grow heap bs top size v small space g in
    let same : out ≡ (addr, heap') = some-injective _ _ (sym e ∙ run) in
    Placed-disjoint j c v (rw same at p) nz at used
