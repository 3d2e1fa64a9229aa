-- ===== src/Paging/Mapping.antt =====
-- What `set_page_table_entry` and `unset_page_table_entry` do to the mappings of a directory.
use dbos.Base.{
  suc, ℕ, ◌*◌, ◌^◌, ◌<◌, ◌≡◌, refl, sym, ◌∙◌, ap, ◌≢◌, inl, inr, some, arith, ==_ne, ==_iff,
}
use native.Mathlib.Decide.{ℕ_discrete}
use dbos.Base.Word.{u32_mod}
use dbos.Phys.{align_page}
use dbos.Phys.Addr.{align_page_lem}
use dbos.Phys.Stock.{Stock, Stock-fewer, alloc_page-Stock}
use dbos.Paging.{
  Memory, temp_window, frame_of, directory_index, table_index, address_field, make_entry,
  write_word, clear_frame, table_of, get_mapped_address, unset_page_table_entry, mapped_in,
  ensure_table, set_page_table_entry,
}
use dbos.Paging.Space.{IsSpace}
use dbos.Paging.Tables.{
  CanAlloc, Ensured, ensure_table-Ensured, ensure_table_new, ensure_table_there, words-write_self,
  words-write_ne,
}

get_mapped_eq :
    (m : Memory) (directory w t : ℕ)
    → table_of m directory (align_page w) ≡ t
    → t ≢ 0
    → get_mapped_address m directory w
      ≡ 2 ^ 12 * address_field (m.words t (table_index (align_page w)))
unfolding get_mapped_address
get_mapped_eq m directory w t e ne = rw (e, ==_ne t 0 ne, mapped_in)

get_mapped_none :
    (m : Memory) (directory w : ℕ)
    → table_of m directory (align_page w) ≡ 0
    → get_mapped_address m directory w ≡ 0
unfolding get_mapped_address
get_mapped_none m directory w e = rw e

-- Writing outside the directory leaves the address space in order.
IsSpace-write :
    (m : Memory) (directory f k value : ℕ)
    → IsSpace m directory
    → f ≢ frame_of directory
    → IsSpace (write_word m f k value) directory
unfolding write_word
IsSpace-write m directory f k value v ne = record {
  ready = v.ready;
  dir_used = v.dir_used;
  dir_small = v.dir_small;
  table_used = λ i hi nz. rw (same i) (v.table_used i hi (rw (same i) at nz));
  table_ne_dir = λ i hi. rw (same i) (v.table_ne_dir i hi);
  tables_ne = λ i j hi hj d nz. rw (same i, same j) (v.tables_ne i j hi hj d (rw (same i) at nz));
}
  where
    same :
        (i : ℕ)
        → (write_word m f k value).words (frame_of directory) i ≡ m.words (frame_of directory) i
    same i = words-write_ne m f k value (frame_of directory) i (inl (λ e. ne (sym e)))

table_of-write :
    (m : Memory) (directory f k value w : ℕ)
    → f ≢ frame_of directory
    → table_of (write_word m f k value) directory w ≡ table_of m directory w
unfolding table_of
table_of-write m directory f k value w ne =
    ap (λ e. address_field e)
      (words-write_ne m f k value (frame_of directory) (directory_index w) (inl (λ e. ne (sym e))))

page_apart :
    (v w : ℕ)
    → v < u32_mod
    → w < u32_mod
    → align_page v ≢ align_page w
    → directory_index (align_page w) ≡ directory_index (align_page v)
    → table_index (align_page w) ≢ table_index (align_page v)
page_apart v w hv hw ne same e = ne (omega (arith, align_page_lem v hv, align_page_lem w hw))

table_of-index :
    (m : Memory) (directory v w : ℕ)
    → directory_index v ≡ directory_index w
    → table_of m directory v ≡ table_of m directory w
unfolding table_of
table_of-index m directory v w e = ap (λ i. address_field (m.words (frame_of directory) i)) e

tables_apart :
    (m m1 : Memory) (directory v w t : ℕ)
    → Ensured m m1 directory v t
    → directory_index v < 1023
    → directory_index w < 1023
    → directory_index w ≢ directory_index v
    → table_of m directory w ≢ 0
    → (table_of m directory w ≢ t) × (table_of m directory w ≢ frame_of directory)
unfolding table_of
tables_apart m m1 directory v w t en low lw apart nz = (
  rw (← en.others w apart, ← en.table_eq)
      (en.space.tables_ne _ _ lw low apart (rw (en.others w apart) nz)),
  rw (← en.others w apart) (en.space.table_ne_dir _ lw),
)

-- The write of the entry for `virt` into its table `t`.
module _ (m m1 : Memory) (directory virt t entry : ℕ) (hv : virt < u32_mod)
    (low : directory_index (align_page virt) < 1023)
    (en : Ensured m m1 directory (align_page virt) t) where
  abbrev k : ℕ
  k = table_index (align_page virt)

  t-ne-dir : t ≢ frame_of directory
  unfolding table_of
  t-ne-dir = rw (← en.table_eq) (en.space.table_ne_dir _ low)

  mapped_self :
      get_mapped_address (write_word m1 t k entry) directory virt ≡ 2 ^ 12 * address_field entry
  mapped_self =
      get_mapped_eq (write_word m1 t k entry) directory virt t
        (table_of-write m1 directory t k entry (align_page virt) t-ne-dir ∙ en.table_eq) en.table_ne
      ∙ ap (λ e. 2 ^ 12 * address_field e) (words-write_self m1 t k entry)

  module _ (w : ℕ) (hw : w < u32_mod) (lw : directory_index (align_page w) < 1023)
      (ne : align_page virt ≢ align_page w) where
    -- Another page under the same directory entry.
    other-same :
        directory_index (align_page w) ≡ directory_index (align_page virt)
        → get_mapped_address (write_word m1 t k entry) directory w
          ≡ get_mapped_address m directory w
    other-same same =
        get_mapped_eq (write_word m1 t k entry) directory w t
          (table_of-write m1 directory t k entry (align_page w) t-ne-dir ∙ here) en.table_ne
        ∙ ap (λ e. 2 ^ 12 * address_field e)
            (words-write_ne m1 t k entry t (table_index (align_page w))
              (inr (page_apart virt w hv hw ne same)))
        ∙ before
      where
        here : table_of m1 directory (align_page w) ≡ t
        here = table_of-index m1 directory (align_page w) (align_page virt) same ∙ en.table_eq

        before :
            2 ^ 12 * address_field (m1.words t (table_index (align_page w)))
            ≡ get_mapped_address m directory w
        before = elim (ℕ_discrete (table_of m directory (align_page virt)) 0) [
          | yes z ↦
              rw
                (
                  en.fresh z,
                  get_mapped_none m directory w
                      (table_of-index m directory (align_page w) (align_page virt) same ∙ z),
                )
                refl
          | no nz ↦
              sym (get_mapped_eq m1 directory w t here en.table_ne)
              ∙ ap (λ x. get_mapped_address x directory w) (en.same nz)
        ]

    -- A page under another directory entry.
    other-apart :
        directory_index (align_page w) ≢ directory_index (align_page virt)
        → get_mapped_address (write_word m1 t k entry) directory w
          ≡ get_mapped_address m directory w
    other-apart apart = elim (ℕ_discrete (table_of m directory (align_page w)) 0) [
      | yes z ↦
          get_mapped_none (write_word m1 t k entry) directory w (there ∙ z)
          ∙ sym (get_mapped_none m directory w z)
      | no nz ↦
          get_mapped_eq (write_word m1 t k entry) directory w _ there nz
          ∙ ap (λ e. 2 ^ 12 * address_field e) (unchanged nz)
          ∙ sym (get_mapped_eq m directory w _ refl nz)
    ]
      where
        there :
            table_of (write_word m1 t k entry) directory (align_page w)
            ≡ table_of m directory (align_page w)
        there =
            table_of-write m1 directory t k entry (align_page w) t-ne-dir
            ∙ en.others (align_page w) apart

        unchanged :
            table_of m directory (align_page w) ≢ 0
            → (write_word m1 t k entry).words
                (table_of m directory (align_page w))
                (table_index (align_page w))
              ≡ m.words (table_of m directory (align_page w)) (table_index (align_page w))
        unchanged nz =
            let tw = table_of m directory (align_page w) in
            let away =
              tables_apart m m1 directory (align_page virt) (align_page w) t en low lw apart nz in
            words-write_ne m1 t k entry tw _ (inl away.0) ∙ en.kept tw _ away.1 away.0

    mapped-other :
        get_mapped_address (write_word m1 t k entry) directory w ≡ get_mapped_address m directory w
    mapped-other =
        elim (ℕ_discrete (directory_index (align_page w)) (directory_index (align_page virt))) [
          | yes same ↦ other-same same
          | no apart ↦ other-apart apart
        ]

-- Mapping a page below the self-mapped entry, other than the window of `temp_map_page`, succeeds where
-- a frame can be allocated: the page then has the given frame, every other page but that window has
-- the frame that it had, and the directory still describes an address space.
pub set_page_table_entry-maps :
    (m : Memory) (directory virt address present user : ℕ)
    → IsSpace m directory
    → CanAlloc m
    → virt < 0xFFC0_0000
    → align_page virt ≢ temp_window
    → address < u32_mod
    → (m' : Memory) × (set_page_table_entry m directory virt address present user ≡ some m')
      × IsSpace m' directory
      × (get_mapped_address m' directory virt ≡ align_page address)
      × ((w : ℕ)
          → w < 0xFFC0_0000
          → align_page w ≢ temp_window
          → align_page virt ≢ align_page w
          → get_mapped_address m' directory w ≡ get_mapped_address m directory w)
unfolding set_page_table_entry
set_page_table_entry-maps m directory virt address present user sp can hv nw ha =
    let low : directory_index (align_page virt) < 1023 =
      omega (arith, align_page_lem virt (omega arith)) in
    let (t, m1, run, en) = ensure_table-Ensured m directory (align_page virt) user sp low can in
    let entry = make_entry present user (frame_of (align_page address)) in
    let nd = t-ne-dir m m1 directory virt t entry (omega arith) low en in
    (
      write_word m1 t (table_index (align_page virt)) entry,
      rw (run, set_page_table_entry),
      IsSpace-write m1 directory t _ entry en.space nd,
      mapped_self m m1 directory virt t entry (omega arith) low en
          ∙ omega (arith, align_page_lem address ha),
      λ w hw ww ne.
          mapped-other m m1 directory virt t entry (omega arith) low en w (omega arith)
            (omega (arith, align_page_lem w (omega arith))) ne,
    )

Ensured-self :
    (m : Memory) (directory v : ℕ)
    → IsSpace m directory
    → table_of m directory v ≢ 0
    → Ensured m m directory v (table_of m directory v)
Ensured-self m directory v sp nz = record {
  space = sp;
  table_eq = refl;
  table_ne = nz;
  others = λ w ne. refl;
  fresh = λ z. absurd (nz z);
  same = λ _. refl;
  kept = λ f i nd nt. refl;
}

-- Unmapping a page below the self-mapped entry, other than the window of `temp_map_page`, leaves no
-- frame mapped there, keeps the frame of every other page but that window, and keeps the directory an
-- address space.
pub unset_page_table_entry-unmaps :
    (m : Memory) (directory virt : ℕ)
    → IsSpace m directory
    → virt < 0xFFC0_0000
    → align_page virt ≢ temp_window
    → (get_mapped_address (unset_page_table_entry m directory virt) directory virt ≡ 0)
      × IsSpace (unset_page_table_entry m directory virt) directory
      × ((w : ℕ)
          → w < 0xFFC0_0000
          → align_page w ≢ temp_window
          → align_page virt ≢ align_page w
          → get_mapped_address (unset_page_table_entry m directory virt) directory w
            ≡ get_mapped_address m directory w)
unfolding unset_page_table_entry
unset_page_table_entry-unmaps m directory virt sp hv nw =
    elim (ℕ_discrete (table_of m directory (align_page virt)) 0) [
      | yes z ↦
          rw ((==_iff _ 0).1 z, unset_page_table_entry)
            (get_mapped_none m directory virt z, sp, λ w hw ww ne. refl)
      | no nz ↦
          let low : directory_index (align_page virt) < 1023 =
            omega (arith, align_page_lem virt (omega arith)) in
          let t = table_of m directory (align_page virt) in
          let en = Ensured-self m directory (align_page virt) sp nz in
          rw (==_ne _ 0 nz, unset_page_table_entry)
            (
              mapped_self m m directory virt t 0 (omega arith) low en,
              IsSpace-write m directory t _ 0 sp
                  (t-ne-dir m m directory virt t 0 (omega arith) low en),
              λ w hw ww ne.
                  mapped-other m m directory virt t 0 (omega arith) low en w (omega arith)
                    (omega (arith, align_page_lem w (omega arith))) ne,
            )
    ]

ensure_table_total :
    (m : Memory) (directory v user n : ℕ)
    → Stock (suc n) m.phys
    → (t : ℕ) × (m' : Memory) × (ensure_table m directory v user ≡ some (t, m')) × Stock n m'.phys
unfolding clear_frame write_word
ensure_table_total m directory v user n r = elim (ℕ_discrete (table_of m directory v) 0) [
  | yes z ↦
      let (page, phys', run, ne, r') = alloc_page-Stock n r in
      (frame_of page, _, ensure_table_new m directory v user page phys' z run, r')
  | no nz ↦ (
    table_of m directory v,
    m,
    ensure_table_there m directory v user nz,
    Stock-fewer n (suc n) (omega arith) r,
  )
]

-- While a frame is left `set_page_table_entry` returns, and there is at most one less.
pub set_page_table_entry_total :
    (m : Memory) (directory virt address present user n : ℕ)
    → Stock (suc n) m.phys
    → (m' : Memory) × (set_page_table_entry m directory virt address present user ≡ some m')
      × Stock n m'.phys
unfolding set_page_table_entry write_word
set_page_table_entry_total m directory virt address present user n r =
    let (t, m1, run, r1) = ensure_table_total m directory (align_page virt) user n r in
    (
      write_word m1 t (table_index (align_page virt))
          (make_entry present user (frame_of (align_page address))),
      rw (run, set_page_table_entry),
      r1,
    )
