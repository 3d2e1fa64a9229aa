-- ===== src/KernelHeap/Growth.antt =====
-- Growing the kernel heap, and `kern_malloc` over it.
use dbos.Base.{
  ◌≢◌, ==_ne, ℕ, zero, suc, ◌+◌, ◌*◌, ◌/◌, ◌%◌, ◌<◌, ◌≡◌, refl, ◌∙◌, inl, inr, some, arith,
  Bool-cases, ltb,
}
use dbos.Base.Word.{u32_mod, add32}
use dbos.Phys.{Phys, page_byte_len, alloc_page}
use dbos.Phys.Stock.{Stock, Stock-fewer, alloc_page-Stock}
use dbos.Paging.{Memory, set_page_table_entry}
use dbos.Paging.Mapping.{set_page_table_entry_total}
use dbos.KernelHeap.{grow_pages, increase_heap}

abbrev pub pages_for : ℕ → ℕ
pages_for bytes = (bytes + 4095) / page_byte_len

grow_pages_step :
    (n user directory end more page : ℕ) (m m' : Memory) (phys : Phys)
    → alloc_page m.phys ≡ some (page, phys)
    → page ≢ 0
    → set_page_table_entry (record m { phys = phys }) directory end page 1 user ≡ some m'
    → grow_pages (suc n) user directory end more m
      ≡ grow_pages n user directory (add32 end page_byte_len) (add32 more page_byte_len) m'
unfolding grow_pages
grow_pages_step n user directory end more page m m' phys e ne e' =
    rw (e, grow_pages) (rw (==_ne page 0 ne, e') refl)

grow_pages-zero :
    (user directory end more : ℕ) (m : Memory)
    → grow_pages zero user directory end more m ≡ some (end, more, m)
unfolding grow_pages
grow_pages-zero user directory end more m = refl

pub grow_pages_total :
    (n user directory end more end' : ℕ) (m : Memory)
    → Stock (n + n) m.phys
    → end' ≡ end + n * page_byte_len
    → end' < u32_mod
    → (more' : ℕ) × (m' : Memory) × (grow_pages n user directory end more m
        ≡ some (end', more', m'))
grow_pages_total zero user directory end more end' m r e h =
    let here : end' ≡ end = omega arith in
    (more, m, rw here (grow_pages-zero user directory end more m))
grow_pages_total (suc n) user directory end more end' m r e h =
    let two : Stock (suc (suc (n + n))) m.phys =
      Stock-fewer (suc (suc (n + n))) (suc n + suc n) (omega arith) r in
    let (page, phys, run, ne, r₁) = alloc_page-Stock (suc (n + n)) two in
    let (m', run', r') =
      set_page_table_entry_total (record m { phys = phys }) directory end page 1 user (n + n) r₁ in
    let (more', m'', run'') =
      grow_pages_total n user directory (add32 end page_byte_len) (add32 more page_byte_len) end' m'
        r' (omega arith) h in
    (more', m'', grow_pages_step n user directory end more page m m' phys run ne run' ∙ run'')

-- Growing a heap whose end stays below the end of the address space returns where two frames are left
-- for each page, one of them for a page table: the end rises by as many pages as the bytes need.
pub increase_heap_total :
    (directory bytes end : ℕ) (m : Memory)
    → Stock (pages_for bytes + pages_for bytes) m.phys
    → end + pages_for bytes * page_byte_len < u32_mod
    → (more : ℕ) × (m' : Memory) × (increase_heap directory bytes end m
        ≡ some (end + pages_for bytes * page_byte_len, more, m'))
unfolding increase_heap
increase_heap_total directory bytes end m r h = elim (Bool-cases (ltb 0 (bytes % page_byte_len))) [
  | inl t ↦
      let n = bytes / page_byte_len + 1 in
      let same : n ≡ pages_for bytes = ground arith in
      rw (t, increase_heap) (grow_pages_total n 0 directory end 0 _ m (rw same r) (ground arith) h)
  | inr t ↦
      let n = bytes / page_byte_len in
      let same : n ≡ pages_for bytes = ground arith in
      rw (t, increase_heap) (grow_pages_total n 0 directory end 0 _ m (rw same r) (ground arith) h)
]
