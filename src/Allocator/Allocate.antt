-- ===== src/Allocator/Allocate.antt =====
-- What `kern_malloc` and `alloc_allocate` do to the blocks of a heap.
use dbos.Base.{
  ℕ, ◌+◌, ◌-◌, ◌^◌, ◌≤◌, ◌<◌, ◌≡◌, refl, ◌∙◌, ap, ◌≢◌, ◌⊎◌, inl, inr, true, false, Option, none,
  some, List, [], ◌∷◌, ◌++◌, arith, ltb, if◌then◌else◌, Bool-cases, ==_ne, ==_iff, ltb→lt,
}
use dbos.Base.Word.{u32_mod, add32}
use dbos.Allocator.{
  Header, header_size, Heap, Grow, total_size, find_item, deliver, append_block, extend_list,
  reuse_block, place, allocate,
}
use dbos.Allocator.Blocks.{Block, block, Chain, first_fit}
use dbos.Allocator.Walk.{Chain-length, Search, found, at_last, Reuses, Extends}
use dbos.Allocator.Find.{find_item-Search}

total_size-ge : (size : ℕ) → size < 2 ^ 31 → size + header_size ≤ total_size size
unfolding total_size
total_size-ge size h = omega arith

pub total_size_pos : (size : ℕ) → size < 2 ^ 31 → 0 < total_size size
unfolding total_size
total_size_pos size h = omega arith

pub total_size-le : (size : ℕ) → size < 2 ^ 31 → total_size size ≤ size + 16
unfolding total_size
total_size-le size h = omega arith

module _ {E : Type 0} where
  -- The heap holds the blocks `bs`, one behind the other from its start up to `top`.
  pub record IsHeap (heap : Heap E) (bs : List Block) (top : ℕ) : Type 0 where
    pub started : 0 < heap.start
    pub head_eq : heap.head ≡ heap.start
    pub chain : Chain heap.cells heap.start bs top
    pub inside : top ≤ heap.end
    pub in_space : heap.end ≤ u32_mod
    pub span : heap.end < heap.start + 2 ^ 31

  -- Growing works at this heap for this size: the end does not fall, and stays in the space.
  pub record CanGrow (grow : Grow E) (heap : Heap E) (size : ℕ) : Type 0 where
    pub end' : ℕ
    pub more : ℕ
    pub env' : E
    pub result : grow (total_size size) heap.end heap.env ≡ some (end', more, env')
    pub keeps : heap.end ≤ end'
    pub in_space : end' ≤ u32_mod
    pub span : end' < heap.start + 2 ^ 31

  -- The area of `got` bytes behind the header at `a` reads 0, and all other bytes are as before.
  pub record Zeroed (heap heap' : Heap E) (a got : ℕ) : Type 0 where
    pub clear : (x : ℕ) → a + header_size ≤ x → x < a + header_size + got → heap'.bytes x ≡ 0
    pub same :
        (x : ℕ) → (x < a + header_size) ⊎ (a + header_size + got ≤ x) → heap'.bytes x ≡ heap.bytes x

  -- What an allocation of `size` bytes does to a heap that holds the blocks `bs`.
  pub data Placed (heap : Heap E) (bs : List Block) (top size : ℕ) : ℕ × Heap E → Type 0 where
    reused :
        {heap' : Heap E} {bs' : List Block} {addr : ℕ} (a got : ℕ)
        → first_fit size bs ≡ some (a, bs')
        → addr ≡ a + header_size
        → size ≤ got
        → a + header_size + got ≤ top
        → Zeroed heap heap' a got
        → IsHeap heap' bs' top
        → Placed heap bs top size (addr, heap')
    appended :
        {heap' : Heap E} {addr : ℕ}
        → first_fit size bs ≡ none
        → addr ≡ top + header_size
        → Zeroed heap heap' top size
        → IsHeap heap' (bs ++ (block top size true ∷ [])) (top + header_size + size)
        → Placed heap bs top size (addr, heap')
    refused :
        {heap' : Heap E} {addr : ℕ}
        → first_fit size bs ≡ none
        → addr ≡ 0
        → heap'.end ≤ top + total_size size
        → IsHeap heap' bs top
        → Placed heap bs top size (addr, heap')

  append_block-Placed :
      (heap heap0 : Heap E) (bs : List Block) (top size l : ℕ) (h : Header)
      → IsHeap heap bs top
      → heap.bytes ≡ heap0.bytes
      → Extends heap.cells heap.start bs top l h
      → first_fit size bs ≡ none
      → top + header_size + size ≤ heap.end
      → top + header_size < u32_mod
      → Placed heap0 bs top size (append_block heap size l h top)
  unfolding append_block deliver
  append_block-Placed heap heap0 bs top size l h v same x none_fits room space =
      appended none_fits (omega arith)
        (record {
          clear = λ y lo hi. ground arith;
          same = λ y o. ground (arith, ap (λ (f : ℕ → ℕ). f y) same);
        })
        (record {
          started = v.started;
          head_eq = v.head_eq;
          chain = x.chain size;
          inside = room;
          in_space = v.in_space;
          span = v.span;
        })

  abbrev grown : Heap E → ℕ → ℕ → E → Heap E
  grown heap end more env = record heap {
    end = end;
    allocated_size = add32 heap.allocated_size more;
    env = env;
  }

  grown-IsHeap :
      (heap : Heap E) (bs : List Block) (top end more : ℕ) (env : E)
      → IsHeap heap bs top
      → heap.end ≤ end
      → end ≤ u32_mod
      → end < heap.start + 2 ^ 31
      → IsHeap (grown heap end more env) bs top
  grown-IsHeap heap bs top end more env v up sp32 sp = record {
    started = v.started;
    head_eq = v.head_eq;
    chain = v.chain;
    inside = omega (arith, v.inside);
    in_space = sp32;
    span = sp;
  }

  module _ (grow : Grow E) (heap : Heap E) (bs : List Block) (top size l : ℕ) (h : Header)
      (v : IsHeap heap bs top) (small : size < 2 ^ 31) (space : heap.end + size + 16 < u32_mod)
      (x : Extends heap.cells heap.start bs top l h) (miss : first_fit size bs ≡ none) where
    hsaddr_eq : add32 l (add32 header_size h.size) ≡ top
    hsaddr_eq = omega (arith, x.end_eq, v.inside)

    headdr_eq : add32 top (total_size size) ≡ top + total_size size
    headdr_eq = omega (arith, v.inside, total_size-le size small)

    extend_room :
        ltb (top + total_size size) heap.end ≡ true
        → extend_list grow heap size l h ≡ some (append_block heap size l h top)
    unfolding extend_list
    extend_room r = rw (hsaddr_eq, headdr_eq, r, extend_list)

    extend_grow :
        (g : CanGrow grow heap size)
        → ltb (top + total_size size) heap.end ≡ false
        → extend_list grow heap size l h
          ≡ some (
              if ltb (top + total_size size) g.end'
              then append_block (grown heap g.end' g.more g.env') size l h top
              else (0, grown heap g.end' g.more g.env'))
    unfolding extend_list
    extend_grow g r =
        rw (hsaddr_eq, headdr_eq, r, g.result, extend_list) (rw (hsaddr_eq, headdr_eq))

    extend_list-Placed :
        CanGrow grow heap size
        → (out : ℕ × Heap E) × (extend_list grow heap size l h ≡ some out)
          × Placed heap bs top size out
    extend_list-Placed g = elim (Bool-cases (ltb (top + total_size size) heap.end)) [
      | inl r ↦ (
        _,
        extend_room r,
        append_block-Placed heap heap bs top size l h v refl x miss
            (omega (arith, ltb→lt _ _ r, total_size-ge size small)) (omega (arith, v.inside)),
      )
      | inr r ↦ elim (Bool-cases (ltb (top + total_size size) g.end')) [
        | inl r' ↦ (
          append_block (grown heap g.end' g.more g.env') size l h top,
          rw (extend_grow g r, r'),
          append_block-Placed (grown heap g.end' g.more g.env') heap bs top size l h
              (grown-IsHeap heap bs top g.end' g.more g.env' v g.keeps g.in_space g.span) refl x
              miss (omega (arith, ltb→lt _ _ r', total_size-ge size small))
              (omega (arith, v.inside)),
        )
        | inr r' ↦ (
          (0, grown heap g.end' g.more g.env'),
          rw (extend_grow g r, r'),
          refused miss refl (ground arith)
              (grown-IsHeap heap bs top g.end' g.more g.env' v g.keeps g.in_space g.span),
        )
      ]
    ]

  reuse_block-Placed :
      (heap : Heap E) (bs bs' : List Block) (top size a : ℕ) (h : Header)
      → IsHeap heap bs top
      → heap.end + 16 < u32_mod
      → Reuses heap.cells size heap.start bs' top a h
      → first_fit size bs ≡ some (a, bs')
      → Placed heap bs top size (reuse_block heap size a h)
  unfolding reuse_block deliver
  reuse_block-Placed heap bs bs' top size a h v space r hit =
      rw (r.taken, reuse_block)
        (reused a r.got hit (omega (arith, r.high, v.inside)) r.enough r.high
          (record {
            clear = λ x lo hi. ground (arith, r.high, v.inside);
            same = λ x o. ground (arith, r.high, v.inside);
          })
          (record {
            started = v.started;
            head_eq = v.head_eq;
            chain = r.chain;
            inside = v.inside;
            in_space = v.in_space;
            span = v.span;
          }))

  module _ (grow : Grow E) (heap : Heap E) (bs : List Block) (top size : ℕ) (v : IsHeap heap bs top)
      (small : size < 2 ^ 31) (space : heap.end + size + 16 < u32_mod)
      (g : CanGrow grow heap size) where
    place-reuse :
        (a : ℕ) (h : Header)
        → h.next ≢ 0
        → place grow heap size (some (a, h)) ≡ some (reuse_block heap size a h)
    unfolding place
    place-reuse a h ne = rw (==_ne _ 0 ne)

    place-extend :
        (l : ℕ) (h : Header)
        → h.next ≡ 0
        → place grow heap size (some (l, h)) ≡ extend_list grow heap size l h
    unfolding place
    place-extend l h z = rw ((==_iff _ 0).1 z)

    allocate-search :
        allocate grow heap size
        ≡ place grow heap size (find_item (heap.end - heap.start) heap.cells size heap.start)
    unfolding allocate
    allocate-search = rw (v.head_eq, ==_ne heap.start 0 (omega (arith, v.started)), allocate)

    place-Placed :
        {o : Option (ℕ × List Block)} {r : Option (ℕ × Header)}
        → first_fit size bs ≡ o
        → Search heap.cells size heap.start bs top o r
        → (out : ℕ × Heap E) × (place grow heap size r ≡ some out) × Placed heap bs top size out
    place-Placed e (found {a} {h} {bs'} r) = (
      reuse_block heap size a h,
      place-reuse a h r.next_ne,
      reuse_block-Placed heap bs bs' top size a h v (omega arith) r e,
    )
    place-Placed e (at_last {l} {h} x) =
        rw (place-extend l h x.next_eq)
          (extend_list-Placed grow heap bs top size l h v small space x e g)

    -- In a heap that holds blocks an allocation returns, and takes the first free block with a
    -- successor that is large enough, or appends a block, or is refused for lack of memory; the
    -- blocks of the heap then are as `Placed` says, and the area that it hands out reads 0.
    pub allocate-Placed :
        (out : ℕ × Heap E) × (allocate grow heap size ≡ some out) × Placed heap bs top size out
    allocate-Placed =
        let (out, e, p) = place-Placed refl (
          find_item-Search (heap.end - heap.start) {cells = heap.cells} size small
            (omega (arith, v.inside, v.in_space)) (omega (arith, v.inside, v.span)) v.chain
            (omega (arith, Chain-length v.chain, v.inside))) in
        (out, allocate-search ∙ e, p)
