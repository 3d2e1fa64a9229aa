-- ===== src/Phys/Init.antt =====
-- `init_phys_memory` of memory_phys.c: the table of counts claims its own frames.
use dbos.Base.{
  ℕ, zero, suc, ◌+◌, ◌-◌, ◌*◌, ◌/◌, ◌%◌, ◌≤◌, ◌<◌, ◌≡◌, refl, ◌∙◌, ◌⊎◌, inl, inr, none, some, arith,
  lt→ltb, le→ltb, length, replicate, length-replicate, get_elem?, get_elem?-set_self,
  get_elem?-set_ne,
}
use native.Mathlib.Decide.{dec_lt}
use dbos.Base.Word.{u32_mod, add32}
use dbos.Phys.{
  Phys, page_byte_len, phys_free_max, upper_start, align_page, get_alloc, set_refcount, alloc_addr,
  claim_table, layout, init_phys,
}
use dbos.Phys.Addr.{IsLaidOut, align_page_lem}
use dbos.Phys.Frames.{IsReady, AllNull, set_refcount-IsReady}
use dbos.Phys.Refcount.{alloc_addr_lem}

-- `s'` has the counts of `s`, but 1 at the `n` indices from `i` on.
pub record ClaimsRange (s s' : Phys) (i n : ℕ) : Type 0 where
  pub inside : (j : ℕ) → i ≤ j → j < i + n → get_elem? s'.refcounts j ≡ some 1
  pub outside : (j : ℕ) → (j < i) ⊎ (i + n ≤ j) → get_elem? s'.refcounts j ≡ get_elem? s.refcounts j
  pub ready : IsReady s'

get_alloc-upper :
    {s : Phys} (k : ℕ)
    → IsLaidOut s
    → k < s.upper_pages
    → get_alloc s (upper_start + k * page_byte_len) ≡ some (s.lower_pages + k)
unfolding get_alloc
get_alloc-upper {s} k v h =
    ground (arith, align_page_lem (upper_start + k * page_byte_len) (omega arith))

-- The frames that the loop still has to claim.
abbrev frames_left : ℕ → ℕ → ℕ
frames_left addr limit = (limit + 4095 - addr) / page_byte_len

claim_first :
    {s : Phys} (k : ℕ)
    → IsReady s
    → k < s.upper_pages
    → get_elem? s.refcounts (s.lower_pages + k) ≡ some 0
    → alloc_addr s (upper_start + k * page_byte_len)
      ≡ some (align_page (upper_start + k * page_byte_len), set_refcount s (s.lower_pages + k) 1)
claim_first {s} k v h z =
    elim (alloc_addr_lem s _ (s.lower_pages + k) 0 (get_alloc-upper k v.laid_out h, z)) [
      | inl no0 ↦ absurd (no0.0 refl)
      | inr e ↦ e.1
    ]

claim_table_step :
    (f : ℕ) (s s' : Phys) (addr limit a : ℕ)
    → addr < limit
    → alloc_addr s addr ≡ some (a, s')
    → claim_table (suc f) s addr limit ≡ claim_table f s' (add32 addr page_byte_len) limit
unfolding claim_table
claim_table_step f s s' addr limit a p e = rw (lt→ltb addr limit p, e, claim_table)

ClaimsRange-cons :
    {s s' : Phys} (i i' n m : ℕ)
    → length s.refcounts ≡ s.pages
    → i < s.pages
    → i' ≡ i + 1
    → m ≡ n + 1
    → ClaimsRange (set_refcount s i 1) s' i' n
    → ClaimsRange s s' i m
ClaimsRange-cons {s} {s'} i i' n m len h e em c = record {
  inside = λ j lo hi. elim (dec_lt i j) [
    | yes p ↦ c.inside j (omega arith) (omega arith)
    | no p ↦
        let here : j ≡ i = omega arith in
        rw (here, c.outside i (inl (omega arith)))
          (get_elem?-set_self s.refcounts i 1 (omega arith))
  ];
  outside =
      λ j o. rw (c.outside j (omega arith)) (get_elem?-set_ne s.refcounts i j 1 (omega arith));
  ready = c.ready;
}

claim_table_end :
    (f : ℕ) (s : Phys) (addr limit : ℕ) → limit ≤ addr → claim_table (suc f) s addr limit ≡ some s
unfolding claim_table
claim_table_end f s addr limit p = rw (le→ltb addr limit p, claim_table)

-- From a state where the counts of the table's own frames are 0, the loop ends with fuel for each
-- page of the table, stays inside the table, and sets exactly those counts to 1.
claim_table-ClaimsRange :
    (fuel : ℕ) {s : Phys} (k addr limit : ℕ)
    → IsReady s
    → addr ≡ upper_start + k * page_byte_len
    → limit ≤ upper_start + s.upper_pages * page_byte_len
    → limit + page_byte_len ≤ u32_mod
    → ((j : ℕ) → s.lower_pages + k ≤ j → j < s.pages → get_elem? s.refcounts j ≡ some 0)
    → frames_left addr limit < fuel
    → (s' : Phys) × (claim_table fuel s addr limit ≡ some s')
      × ClaimsRange s s' (s.lower_pages + k) (frames_left addr limit)
claim_table-ClaimsRange zero k addr limit v e fits top clear fuel = absurd (omega arith)
claim_table-ClaimsRange (suc f) {s} k addr limit v e fits top clear fuel =
    elim (dec_lt addr limit) [
      | no p ↦ (
        s,
        claim_table_end f s addr limit (omega arith),
        record { inside = λ j lo hi. absurd (omega arith); outside = λ j h. refl; ready = v },
      )
      | yes p ↦
          let i = s.lower_pages + k in
          let inside : i < s.pages = omega (arith, v.laid_out.pages_sum) in
          let s1 = set_refcount s i 1 in
          let (s', run, c) =
            claim_table-ClaimsRange f {s = s1} (k + 1) (add32 addr page_byte_len) limit
              (set_refcount-IsReady i 1 v) (omega arith) fits top
              (λ j lo hi.
                rw (get_elem?-set_ne s.refcounts i j 1 (omega arith)) (clear j (omega arith) hi))
              (omega arith) in
          (
            s',
            claim_table_step f s s1 addr limit (align_page addr) p
                  (rw e (claim_first k v (omega arith) (clear i (omega arith) inside)))
                ∙ run,
            ClaimsRange-cons i (s1.lower_pages + (k + 1)) _ _ v.counted inside (omega arith)
                (omega arith) c,
          )
    ]

AllNull-replicate :
    (n addr : ℕ) → AllNull (replicate n (record { allocation = none; address = addr }))
AllNull-replicate zero addr = tt
AllNull-replicate (suc n) addr = (refl, AllNull-replicate n addr)

get_elem?-replicate : (n : ℕ) (v j : ℕ) → j < n → get_elem? (replicate n v) j ≡ some v
get_elem?-replicate zero v j h = elim h [ ]
get_elem?-replicate (suc n) v zero h = refl
get_elem?-replicate (suc n) v (suc j) h = get_elem?-replicate n v j (omega arith)

-- Sizes of the memory with whole lower pages below 1 MiB, such as 640 KiB but not 639 KiB, everything
-- inside the address space, and room for the table behind the last module in the upper memory.
pub record IsBootable (memory_lower memory_upper last_mod_end : ℕ) : Type 0 where
  pub lower_whole : memory_lower % 4 ≡ 0
  pub lower_small : memory_lower ≤ 1024
  pub upper_fits : (1024 + memory_upper) * 1024 ≤ u32_mod
  pub module_end : upper_start ≤ last_mod_end
  pub room :
      last_mod_end + 2 * page_byte_len + (memory_lower / 4 + memory_upper / 4)
      ≤ upper_start + memory_upper / 4 * page_byte_len
  pub below_top : last_mod_end + 3 * page_byte_len + (memory_lower / 4 + memory_upper / 4) ≤ u32_mod

-- The index of the first frame of the table.
abbrev pub table_frame : ℕ → ℕ → ℕ
table_frame memory_lower last_mod_end =
    memory_lower / 4 + (last_mod_end - upper_start) / page_byte_len + 1

-- The number of frames of the table.
abbrev pub table_frames : ℕ → ℕ → ℕ
table_frames memory_lower memory_upper =
    (memory_lower / 4 + memory_upper / 4 + 4095) / page_byte_len

module _ (kl ku last : ℕ) (b : IsBootable kl ku last) where
  layout-IsReady : IsReady (layout kl ku last)
  unfolding layout
  layout-IsReady = record {
    laid_out = record {
      lower_whole = omega (arith, b.lower_whole, b.lower_small);
      lower_small = omega (arith, b.lower_small);
      pages_sum = omega (arith, b.lower_small, b.upper_fits);
      upper_fits = omega (arith, b.upper_fits);
    };
    counted = length-replicate _ 0;
    no_slots = AllNull-replicate phys_free_max 0;
  }

  layout-table :
      ((layout kl ku last).table
        ≡ upper_start + ((last - upper_start) / page_byte_len + 1) * page_byte_len)
      × ((layout kl ku last).lower_pages ≡ kl / 4)
      × ((layout kl ku last).upper_pages ≡ ku / 4)
      × ((layout kl ku last).pages ≡ kl / 4 + ku / 4)
      × ((layout kl ku last).size ≡ kl / 4 + ku / 4)
  unfolding layout
  layout-table =
      let aligned = align_page_lem last (omega (arith, b.below_top)) in
      (
        omega (arith, b.below_top, b.module_end),
        omega (arith, b.lower_small),
        omega (arith, b.upper_fits),
        omega (arith, b.lower_small, b.upper_fits),
        omega (arith, b.lower_small, b.upper_fits),
      )

  layout-clear :
      (j : ℕ) → j < (layout kl ku last).pages → get_elem? (layout kl ku last).refcounts j ≡ some 0
  unfolding layout
  layout-clear j h = get_elem?-replicate _ 0 j h

  -- `init_phys_memory` ends inside the table where the lower memory is a whole number of pages, the
  -- memory lies inside the address space and the table fits behind the last module: the state that it
  -- leaves is ready, the frames of the table itself have count 1, and all the others have count 0.
  pub init_phys-ClaimsRange :
      (s : Phys) × (init_phys kl ku last ≡ some s)
      × IsReady s
      × ((j : ℕ)
          → table_frame kl last ≤ j
          → j < table_frame kl last + table_frames kl ku
          → get_elem? s.refcounts j ≡ some 1)
      × ((j : ℕ)
          → j < kl / 4 + ku / 4
          → (j < table_frame kl last) ⊎ (table_frame kl last + table_frames kl ku ≤ j)
          → get_elem? s.refcounts j ≡ some 0)
  unfolding init_phys
  init_phys-ClaimsRange =
      let l = layout kl ku last in
      let (et, el, eu, ep, es) = layout-table in
      let k = (last - upper_start) / page_byte_len + 1 in
      let limit = add32 l.table l.size in
      let (s, run, c) =
        claim_table-ClaimsRange (l.size / page_byte_len + 2) {s = l} k l.table limit layout-IsReady
          et (omega (arith, b.room, b.below_top, b.module_end))
          (omega (arith, b.room, b.below_top, b.module_end)) (λ j lo hi. layout-clear j hi)
          (omega (arith, b.room, b.below_top, b.module_end)) in
      (
        s,
        run,
        c.ready,
        λ j lo hi.
            c.inside j (omega (arith, b.below_top, b.module_end))
              (omega (arith, b.below_top, b.module_end)),
        λ j h o.
            c.outside j (omega (arith, b.below_top, b.module_end)) ∙ layout-clear j (omega arith),
      )
