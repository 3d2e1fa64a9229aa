-- ===== src/Vfs/Listing.antt =====
-- kernel/vfs/vfs.c: vfs_stub_directory_listdir ends and lists what is mounted under the directory.
use dbos.Base.{
  ℕ, zero, suc, ◌+◌, ◌<◌, ◌≡◌, ◌≢◌, refl, ap, some, List, [], ◌∷◌, arith, ==_ne, length, get_or,
  ◌≤◌,
}
use native.Mathlib.Decide.{dec_lt}
use dbos.Vfs.{Node, Subtree, Vfs, load_tree}
use dbos.Vfs.Find.{entry_at, stub_readdir, list_from, stub_listdir, drop}

-- The nodes of the sub-trees.
abbrev pub Entries : Vfs → List ℕ → List ℕ → Type 0
Entries v [] [] = Unit {0}
Entries v [] (a ∷ nodes) = ⊥
Entries v (c ∷ cs) [] = ⊥
Entries v (c ∷ cs) (a ∷ nodes) =
    ((g : Subtree) × (load_tree v c ≡ some g) × (g.contents ≡ a)) × (a ≢ 0) × Entries v cs nodes

entry_at-get_or :
    (v : Vfs) (cs nodes : List ℕ) (i : ℕ)
    → Entries v cs nodes
    → entry_at v cs i ≡ some (get_or nodes i 0)
unfolding entry_at
entry_at-get_or v [] [] i h = refl
entry_at-get_or v [] (a ∷ nodes) i h = absurd h
entry_at-get_or v (c ∷ cs) [] i h = absurd h
entry_at-get_or v (c ∷ cs) (a ∷ nodes) zero h = rw (h.0.1) (ap some h.0.2)
entry_at-get_or v (c ∷ cs) (a ∷ nodes) (suc i) h = entry_at-get_or v cs nodes i h.2

get_or-ne :
    (v : Vfs) (cs nodes : List ℕ) (i : ℕ)
    → Entries v cs nodes
    → i < length nodes
    → get_or nodes i 0 ≢ 0
get_or-ne v [] [] i h lt = absurd (omega arith)
get_or-ne v [] (a ∷ nodes) i h lt = absurd h
get_or-ne v (c ∷ cs) [] i h lt = absurd h
get_or-ne v (c ∷ cs) (a ∷ nodes) zero h lt = h.1
get_or-ne v (c ∷ cs) (a ∷ nodes) (suc i) h lt = get_or-ne v cs nodes i h.2 (omega arith)

drop-get_or :
    (nodes : List ℕ) (i : ℕ)
    → i < length nodes
    → drop i nodes ≡ get_or nodes i 0 ∷ drop (suc i) nodes
unfolding drop
drop-get_or [] i h = absurd (omega arith)
drop-get_or (a ∷ nodes) zero h = refl
drop-get_or (a ∷ nodes) (suc i) h = drop-get_or nodes i (omega arith)

drop-past : (nodes : List ℕ) (i : ℕ) → length nodes ≤ i → drop i nodes ≡ []
unfolding drop
drop-past [] zero h = refl
drop-past [] (suc i) h = refl
drop-past (a ∷ nodes) zero h = absurd (omega arith)
drop-past (a ∷ nodes) (suc i) h = drop-past nodes i (omega arith)

get_or-past : (nodes : List ℕ) (i : ℕ) → length nodes ≤ i → get_or nodes i 0 ≡ 0
get_or-past [] i h = refl
get_or-past (a ∷ nodes) zero h = absurd (omega arith)
get_or-past (a ∷ nodes) (suc i) h = get_or-past nodes i (omega arith)

module _ (v : Vfs) (n : Node) (g : Subtree) (nodes : List ℕ) (mounted : n.tree_pointer ≢ 0)
    (at_tree : v.trees n.tree_pointer ≡ some g) (entries : Entries v g.sub_trees nodes) where
  readdir_eq : (i : ℕ) → stub_readdir v n i ≡ some (get_or nodes i 0)
  unfolding stub_readdir
  readdir_eq i =
      rw (==_ne n.tree_pointer 0 mounted, at_tree, stub_readdir)
        (entry_at-get_or v g.sub_trees nodes i entries)

  list_from-drop :
      (fuel i : ℕ)
      → i ≤ length nodes
      → length nodes < i + fuel
      → list_from fuel v n i ≡ some (drop i nodes)
  unfolding list_from
  list_from-drop zero i l h = absurd (omega arith)
  list_from-drop (suc fuel) i l h = elim (dec_lt i (length nodes)) [
    | yes within ↦
        rw
          (
            readdir_eq i,
            ==_ne (get_or nodes i 0) 0 (get_or-ne v g.sub_trees nodes i entries within),
            list_from-drop fuel (suc i) within (omega arith),
            drop-get_or nodes i within,
            list_from,
          )
          refl
    | no past ↦
        rw
          (
            readdir_eq i,
            get_or-past nodes i (omega arith),
            drop-past nodes i (omega arith),
            list_from,
          )
          refl
  ]

  -- `vfs_stub_directory_listdir` of a mounted stub directory ends, with one round more than there are
  -- nodes mounted under it, and its array holds these nodes in their order.
  pub stub_listdir-terminates :
      (fuel : ℕ) → length nodes < fuel → stub_listdir fuel v n ≡ some nodes
  unfolding stub_listdir drop
  stub_listdir-terminates fuel h = list_from-drop fuel 0 (omega arith) (omega arith)
