-- ===== src/Phys/Refcount.antt =====
-- Reference counts of frames in memory_phys.c.
use dbos.Base.{
  ℕ, ◌+◌, ◌≤◌, ◌<◌, ◌≡◌, ◌≢◌, ◌⊎◌, inl, inr, zero, suc, some, arith, get_elem?, set,
  get_elem?-set_self, get_elem?-lt, set-set, set-get_elem?, ap, refl,
}
use dbos.Phys.{
  Phys, align_page, get_alloc, set_refcount, increase_at, decrease_at, claim_at, increase_refcount,
  decrease_refcount, get_refcount, alloc_addr, free,
}
use dbos.Phys.Frames.{IsReady, set_refcount-IsReady, file_freed_self}

-- The count that the table holds for an address.
abbrev pub Counts : Phys → ℕ → ℕ → ℕ → Type 0
Counts s addr i r = (get_alloc s addr ≡ some i) × (get_elem? s.refcounts i ≡ some r)

module _ (s : Phys) (addr i r : ℕ) (c : Counts s addr i r) where
  increase_eq : increase_refcount s addr ≡ some (increase_at s i r)
  unfolding increase_refcount
  increase_eq = ground arith

  decrease_eq : decrease_refcount s addr ≡ some (decrease_at s i r)
  unfolding decrease_refcount
  decrease_eq = ground arith

  alloc_addr_eq : alloc_addr s addr ≡ some (claim_at s (align_page addr) i r)
  unfolding alloc_addr
  alloc_addr_eq = ground arith

  free_eq : free s addr ≡ some (set_refcount s i 0)
  unfolding free
  free_eq =
      rw (c.0, c.1, free)
        (ap (λ slots. some (record s { refcounts = set s.refcounts i 0; free_list = slots }))
          (file_freed_self s.free_list i addr))

pub get_alloc-set_refcount :
    (s : Phys) (i r addr : ℕ) → get_alloc (set_refcount s i r) addr ≡ get_alloc s addr
unfolding get_alloc
get_alloc-set_refcount s i r addr = refl

pub Counts-set_refcount :
    (s : Phys) (addr i r v : ℕ) → Counts s addr i r → Counts (set_refcount s i v) addr i v
Counts-set_refcount s addr i r v c = (
  rw get_alloc-set_refcount c.0,
  get_elem?-set_self s.refcounts i v (get_elem?-lt s.refcounts i r c.1),
)

set_refcount_back :
    (s : Phys) (addr i r v : ℕ) → Counts s addr i r → set_refcount (set_refcount s i v) i r ≡ s
set_refcount_back s addr i r v c =
    ap (λ xs. record s { refcounts = xs })
      (rw (set-set s.refcounts i v r) (set-get_elem? s.refcounts i c.1))

-- Sharing a frame in use, with a count below 255, raises its count by one, and giving the share
-- back restores the state.
pub increase-decrease :
    (s : Phys) (addr i r : ℕ)
    → Counts s addr i r
    → 1 ≤ r
    → r < 255
    → (s' : Phys) × (increase_refcount s addr ≡ some s')
      × (get_refcount s' addr ≡ some (some (r + 1)))
      × (decrease_refcount s' addr ≡ some s)
unfolding increase_at decrease_at get_refcount
increase-decrease s addr i r c lo hi =
    let c' = Counts-set_refcount s addr i r (r + 1) c in
    let s' = set_refcount s i (r + 1) in
    (
      s',
      ground (arith, increase_eq s addr i r c),
      rw (c'.0, c'.1, get_refcount),
      ground (arith, decrease_eq s' addr i (r + 1) c', set_refcount_back s addr i r (r + 1) c),
    )

-- A frame in use is not claimed a second time: `alloc_phys_addr` answers 0 and changes nothing. A
-- frame that is not in use is claimed: the answer is the start of its page, and its count is 1.
pub alloc_addr_lem :
    (s : Phys) (addr i r : ℕ)
    → Counts s addr i r
    → ((r ≢ 0) × (alloc_addr s addr ≡ some (0, s)))
      ⊎ ((r ≡ 0)
          × (alloc_addr s addr ≡ some (align_page addr, set_refcount s i 1))
          × Counts (set_refcount s i 1) addr i 1)
unfolding claim_at
alloc_addr_lem s addr i zero c =
    inr (refl, ground (arith, alloc_addr_eq s addr i 0 c), Counts-set_refcount s addr i 0 1 c)
alloc_addr_lem s addr i (suc r) c =
    inl (omega arith, ground (arith, alloc_addr_eq s addr i (suc r) c))

-- The count is one byte: sharing a frame whose count is 255 sets the count to 0, and the frame,
-- still in use, is claimed again by `alloc_phys_addr`.
pub increase_wraps :
    (s : Phys) (addr i : ℕ)
    → Counts s addr i 255
    → (s' : Phys) × (increase_refcount s addr ≡ some s')
      × (get_refcount s' addr ≡ some (some 0))
      × (alloc_addr s' addr ≡ some (align_page addr, set_refcount s' i 1))
unfolding increase_at claim_at get_refcount
increase_wraps s addr i c =
    let c' = Counts-set_refcount s addr i 255 0 c in
    let s' = set_refcount s i 0 in
    (
      s',
      ground (arith, increase_eq s addr i 255 c),
      rw (c'.0, c'.1, get_refcount),
      ground (arith, alloc_addr_eq s' addr i 0 c'),
    )

-- `alloc_phys_free` of an address with an entry sets the count to 0 whatever it was, so that a
-- shared frame is free for all its holders, and keeps a state ready.
pub free_lem :
    (s : Phys) (addr i r : ℕ)
    → Counts s addr i r
    → IsReady s
    → (s' : Phys) × (free s addr ≡ some s')
      × Counts s' addr i 0
      × (alloc_addr s' addr ≡ some (align_page addr, set_refcount s' i 1))
      × IsReady s'
unfolding claim_at
free_lem s addr i r c v =
    let s' = set_refcount s i 0 in
    let c' = Counts-set_refcount s addr i r 0 c in
    (
      s',
      free_eq s addr i r c,
      c',
      ground (arith, alloc_addr_eq s' addr i 0 c'),
      set_refcount-IsReady i 0 v,
    )
