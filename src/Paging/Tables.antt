-- ===== src/Paging/Tables.antt =====
-- The page table that `set_page_table_entry` finds or allocates for an address.
use dbos.Base.{ℕ, ◌<◌, ◌≡◌, refl, sym, ◌∙◌, ◌≢◌, ◌⊎◌, inl, inr, some, arith, ==_ne, ==_iff}
use native.Mathlib.Decide.{ℕ_discrete}
use dbos.Phys.{Phys, alloc_page}
use dbos.Paging.{
  Memory, frame_of, directory_index, address_field, make_entry, write_word, clear_frame, table_of,
  ensure_table,
}
use dbos.Paging.Space.{IsSpace, Fresh, alloc_page-Fresh}

pub words-write_self : (m : Memory) (f i v : ℕ) → (write_word m f i v).words f i ≡ v
unfolding write_word
words-write_self m f i v = ground arith

pub words-write_ne :
    (m : Memory) (f i v g j : ℕ) → (g ≢ f) ⊎ (j ≢ i) → (write_word m f i v).words g j ≡ m.words g j
unfolding write_word
words-write_ne m f i v g j o = ground arith

words-clear_self : (m : Memory) (f i : ℕ) → (clear_frame m f).words f i ≡ 0
unfolding clear_frame
words-clear_self m f i = ground arith

words-clear_ne : (m : Memory) (f g i : ℕ) → g ≢ f → (clear_frame m f).words g i ≡ m.words g i
unfolding clear_frame
words-clear_ne m f g i ne = ground arith

-- A frame can be allocated, and it is not frame 0, whose address the code takes for a failure.
pub record CanAlloc (m : Memory) : Type 0 where
  pub page : ℕ
  pub phys' : Phys
  pub result : alloc_page m.phys ≡ some (page, phys')
  pub ne_zero : page ≢ 0

-- The directory after `ensure_table`: its entry for `v` names the table `t`.
pub record Ensured (m m' : Memory) (directory v t : ℕ) : Type 0 where
  pub space : IsSpace m' directory
  pub table_eq : table_of m' directory v ≡ t
  pub table_ne : t ≢ 0
  pub others :
      (w : ℕ)
      → directory_index w ≢ directory_index v
      → table_of m' directory w ≡ table_of m directory w
  pub fresh : table_of m directory v ≡ 0 → (i : ℕ) → m'.words t i ≡ 0
  pub same : table_of m directory v ≢ 0 → m' ≡ m
  pub kept : (f i : ℕ) → f ≢ frame_of directory → f ≢ t → m'.words f i ≡ m.words f i

abbrev table_at : Memory → ℕ → ℕ → ℕ
table_at m directory i = address_field (m.words (frame_of directory) i)

-- `m'` is `m` with the new page table at `page` entered at index `k`.
module _ (m : Memory) (directory k user page : ℕ) (phys' : Phys) (small : k < 1023)
    (v : IsSpace m directory) (fr : Fresh m.phys phys' page) (ne0 : page ≢ 0)
    (empty : table_at m directory k ≡ 0) where
  abbrev tf : ℕ
  tf = frame_of page

  abbrev entered : Memory
  entered =
      write_word (record m { phys = phys' }) (frame_of directory) k
        (make_entry 1 user (frame_of page))

  abbrev added : Memory
  added = clear_frame entered (frame_of page)

  tf-ne-dir : frame_of page ≢ frame_of directory
  tf-ne-dir = fr.ne (frame_of directory) v.dir_used

  added-table : table_at added directory k ≡ frame_of page
  added-table =
      rw
        (
          words-clear_ne entered (frame_of page) (frame_of directory) k (λ e. tf-ne-dir (sym e)),
          words-write_self (record m { phys = phys' }) (frame_of directory) k
              (make_entry 1 user (frame_of page)),
        )
        (omega (arith, fr.small))

  added-other : (i : ℕ) → i ≢ k → table_at added directory i ≡ table_at m directory i
  added-other i ne =
      rw
        (
          words-clear_ne entered (frame_of page) (frame_of directory) i (λ e. tf-ne-dir (sym e)),
          words-write_ne (record m { phys = phys' }) (frame_of directory) k
              (make_entry 1 user (frame_of page)) (frame_of directory) i (inr ne),
        )
        refl

  added-kept :
      (f i : ℕ) → f ≢ frame_of directory → f ≢ frame_of page → added.words f i ≡ m.words f i
  added-kept f i nd nt =
      words-clear_ne entered (frame_of page) f i nt
      ∙ words-write_ne (record m { phys = phys' }) (frame_of directory) k _ f i (inl nd)

  tf-ne-zero : frame_of page ≢ 0
  tf-ne-zero = omega (arith, fr.aligned, ne0)

  tf-ne-table : (i : ℕ) → i < 1023 → frame_of page ≢ table_at m directory i
  tf-ne-table i hi = elim (ℕ_discrete (table_at m directory i) 0) [
    | yes z ↦ rw z tf-ne-zero
    | no nz ↦ fr.ne _ (v.table_used i hi nz)
  ]

  added-tables :
      (i j : ℕ)
      → i < 1023
      → j < 1023
      → i ≢ j
      → table_at added directory i ≢ 0
      → table_at added directory i ≢ table_at added directory j
  added-tables i j hi hj ne nz = elim (ℕ_discrete i k) [
    | yes here ↦ rw (here, added-table, added-other j (omega arith)) (tf-ne-table j hj)
    | no away ↦ elim (ℕ_discrete j k) [
      | yes there ↦ rw (there, added-table, added-other i away) (λ e. tf-ne-table i hi (sym e))
      | no apart ↦
          rw (added-other i away, added-other j apart)
            (v.tables_ne i j hi hj ne (rw (added-other i away) at nz))
    ]
  ]

  added-IsSpace : IsSpace added directory
  unfolding clear_frame write_word
  added-IsSpace = record {
    ready = fr.ready;
    dir_used = fr.kept _ v.dir_used;
    dir_small = v.dir_small;
    table_used = λ i hi nz. elim (ℕ_discrete i k) [
      | yes here ↦ rw (here, added-table) fr.used
      | no away ↦
          rw (added-other i away) (fr.kept _ (v.table_used i hi (rw (added-other i away) at nz)))
    ];
    table_ne_dir = λ i hi. elim (ℕ_discrete i k) [
      | yes here ↦ rw (here, added-table) tf-ne-dir
      | no away ↦ rw (added-other i away) (v.table_ne_dir i hi)
    ];
    tables_ne = added-tables;
  }

pub ensure_table_there :
    (m : Memory) (directory v user : ℕ)
    → table_of m directory v ≢ 0
    → ensure_table m directory v user ≡ some (table_of m directory v, m)
unfolding ensure_table
ensure_table_there m directory v user ne = rw (==_ne _ 0 ne, ensure_table)

pub ensure_table_new :
    (m : Memory) (directory v user page : ℕ) (phys' : Phys)
    → table_of m directory v ≡ 0
    → alloc_page m.phys ≡ some (page, phys')
    → ensure_table m directory v user
      ≡ some (
        frame_of page,
        clear_frame
            (write_word
              (record m { phys = phys' })
              (frame_of directory)
              (directory_index v)
              (make_entry 1 user (frame_of page)))
            (frame_of page),
      )
unfolding ensure_table
ensure_table_new m directory v user page phys' z e = rw ((==_iff _ 0).1 z, e, ensure_table)

-- In an address space the table for an address below the self-mapped entry exists afterwards, and
-- the directory still describes an address space.
pub ensure_table-Ensured :
    (m : Memory) (directory v user : ℕ)
    → IsSpace m directory
    → directory_index v < 1023
    → CanAlloc m
    → (t : ℕ) × (m' : Memory) × (ensure_table m directory v user ≡ some (t, m'))
      × Ensured m m' directory v t
unfolding table_of
ensure_table-Ensured m directory v user sp small can =
    elim (ℕ_discrete (table_of m directory v) 0) [
      | yes z ↦
          let fr = alloc_page-Fresh sp.ready can.result can.ne_zero in
          let k = directory_index v in
          (
            frame_of can.page,
            added m directory k user can.page can.phys' small sp fr can.ne_zero z,
            ensure_table_new m directory v user can.page can.phys' z can.result,
            record {
              space = added-IsSpace m directory k user can.page can.phys' small sp fr can.ne_zero z;
              table_eq =
                  added-table m directory k user can.page can.phys' small sp fr can.ne_zero z;
              table_ne = tf-ne-zero m directory k user can.page can.phys' small sp fr can.ne_zero z;
              others = λ w ne.
                  added-other m directory k user can.page can.phys' small sp fr can.ne_zero z
                    (directory_index w) ne;
              fresh = λ _ i. words-clear_self _ (frame_of can.page) i;
              same = λ nz. absurd (nz z);
              kept = λ f i nd nt.
                  added-kept m directory k user can.page can.phys' small sp fr can.ne_zero z f i nd
                    nt;
            },
          )
      | no nz ↦ (
        table_of m directory v,
        m,
        ensure_table_there m directory v user nz,
        record {
          space = sp;
          table_eq = refl;
          table_ne = nz;
          others = λ w ne. refl;
          fresh = λ z. absurd (nz z);
          same = λ _. refl;
          kept = λ f i nd nt. refl;
        },
      )
    ]
