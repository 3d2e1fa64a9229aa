-- ===== src/Paging/Space.antt =====
-- When a page directory of kernel/memory/memory_paging.c describes an address space.
use dbos.Base.{
  ℕ, ◌*◌, ◌%◌, ◌<◌, ◌≡◌, sym, ◌∙◌, ap, ◌≢◌, some, arith, get_elem?, get_elem?-lt,
  get_elem?-set_self, get_elem?-set_ne,
}
use dbos.Base.Word.{u32_mod}
use dbos.Phys.{Phys, page_byte_len, index_to_addr, get_alloc, alloc_page, set_refcount}
use dbos.Phys.Addr.{IsLaidOut, addr-index, get_alloc-index}
use dbos.Phys.Refcount.{get_alloc-set_refcount}
use native.Mathlib.Decide.{ℕ_discrete}
use dbos.Phys.Frames.{IsReady, Allocated, frame, exhausted, Allocated-of_eq, set_refcount-IsReady}
use dbos.Paging.{Memory, frame_of, address_field}

-- The frame is in use: its count is not 0.
pub record InUse (s : Phys) (frame : ℕ) : Type 0 where
  pub index : ℕ
  pub count : ℕ
  pub entry : get_alloc s (frame * page_byte_len) ≡ some index
  pub holds : get_elem? s.refcounts index ≡ some count
  pub positive : count ≢ 0

-- A directory below the self-mapped last entry: the directory and the tables that it names are
-- frames in use, and no two entries share a table.
pub record IsSpace (m : Memory) (directory : ℕ) : Type 0 where
  pub ready : IsReady m.phys
  pub dir_used : InUse m.phys (frame_of directory)
  pub dir_small : directory < u32_mod
  pub table_used :
      (i : ℕ)
      → i < 1023
      → address_field (m.words (frame_of directory) i) ≢ 0
      → InUse m.phys (address_field (m.words (frame_of directory) i))
  pub table_ne_dir :
      (i : ℕ) → i < 1023 → address_field (m.words (frame_of directory) i) ≢ frame_of directory
  pub tables_ne :
      (i j : ℕ)
      → i < 1023
      → j < 1023
      → i ≢ j
      → address_field (m.words (frame_of directory) i) ≢ 0
      → address_field (m.words (frame_of directory) i)
        ≢ address_field (m.words (frame_of directory) j)

-- The frame that the allocator hands out was not in use.
fresh_frame :
    (s : Phys) (i f : ℕ)
    → IsLaidOut s
    → i < s.pages
    → get_elem? s.refcounts i ≡ some 0
    → InUse s f
    → frame_of (index_to_addr s i) ≢ f
fresh_frame s i f v hi z u e =
    let (_, aligned, small) = addr-index i v hi in
    let here : index_to_addr s i ≡ f * page_byte_len = omega arith in
    let same : some i ≡ some u.index =
      sym (get_alloc-index i v hi) ∙ ap (get_alloc s) here ∙ u.entry in
    ground (arith, u.holds, u.positive)

InUse-claim :
    (s : Phys) (i f : ℕ) {r : ℕ}
    → get_elem? s.refcounts i ≡ some r
    → InUse s f
    → InUse (set_refcount s i 1) f
InUse-claim s i f h u = elim (ℕ_discrete i u.index) [
  | yes same ↦ record {
    index = u.index;
    count = 1;
    entry = rw get_alloc-set_refcount u.entry;
    holds = rw (← same) (get_elem?-set_self s.refcounts i 1 (get_elem?-lt s.refcounts i _ h));
    positive = omega arith;
  }
  | no ne ↦ record {
    index = u.index;
    count = u.count;
    entry = rw get_alloc-set_refcount u.entry;
    holds = rw (get_elem?-set_ne s.refcounts i u.index 1 ne) u.holds;
    positive = u.positive;
  }
]

InUse-fresh :
    (s : Phys) (i : ℕ)
    → IsLaidOut s
    → i < s.pages
    → get_elem? s.refcounts i ≡ some 0
    → InUse (set_refcount s i 1) (frame_of (index_to_addr s i))
InUse-fresh s i v hi z =
    let (_, aligned, small) = addr-index i v hi in
    let here : frame_of (index_to_addr s i) * page_byte_len ≡ index_to_addr s i = omega arith in
    record {
      index = i;
      count = 1;
      entry = rw (get_alloc-set_refcount, here) (get_alloc-index i v hi);
      holds = get_elem?-set_self s.refcounts i 1 (get_elem?-lt s.refcounts i _ z);
      positive = omega arith;
    }

-- What an allocation of a frame other than frame 0 gives.
pub record Fresh (s s' : Phys) (page : ℕ) : Type 0 where
  pub ready : IsReady s'
  pub used : InUse s' (frame_of page)
  pub kept : (f : ℕ) → InUse s f → InUse s' f
  pub ne : (f : ℕ) → InUse s f → frame_of page ≢ f
  pub aligned : page % page_byte_len ≡ 0
  pub small : page < u32_mod

Allocated-Fresh :
    {s s' : Phys} {page : ℕ} → IsReady s → page ≢ 0 → Allocated s (page, s') → Fresh s s' page
Allocated-Fresh v ne (exhausted _ e _) = absurd (ne e)
Allocated-Fresh {s} v ne (frame i hi z _ e es) =
    rw (es, e)
      (record {
        ready = set_refcount-IsReady i 1 v;
        used = InUse-fresh s i v.laid_out hi z;
        kept = λ f u. InUse-claim s i f z u;
        ne = λ f u. fresh_frame s i f v.laid_out hi z u;
        aligned = (addr-index i v.laid_out hi).1;
        small = (addr-index i v.laid_out hi).2;
      })

pub alloc_page-Fresh :
    {s s' : Phys} {page : ℕ}
    → IsReady s
    → alloc_page s ≡ some (page, s')
    → page ≢ 0
    → Fresh s s' page
alloc_page-Fresh v run ne = Allocated-Fresh v ne (Allocated-of_eq v run)
