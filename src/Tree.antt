-- ===== src/Tree.antt =====
-- kernel/util/generic_tree.c: trees of data, 0 for NULL, whose sub-trees stand in a linked list. A
-- tree is its value here: the links to the parent are left out. `dissolve` is what proc_destroy of
-- kernel/process/process.c does to the tree of processes.
use dbos.Base.{ℕ, Bool, false, ◌||◌, Option, none, some, ◌==◌, if◌then◌else◌}

-- `gen_tree_t`, and the list of sub-trees.
mutual
  pub data Tree : Type 0 where
    tree : ℕ → Trees → Tree

  pub data Trees : Type 0 where
    nil : Trees
    cons : Tree → Trees → Trees

abbrev pub data_of : Tree → ℕ
data_of (tree d subs) = d

abbrev pub sub_trees : Tree → Trees
sub_trees (tree d subs) = subs

-- `linked_list_append` on the list of sub-trees
unfoldable pub append_tree : Trees → Tree → Trees
append_tree nil t = cons t nil
append_tree (cons u ts) t = cons u (append_tree ts t)

-- `generic_tree_create` under a parent: the parent with the new tree as its last sub-tree.
unfoldable pub tree_create : ℕ → Tree → Tree
unfolding append_tree
tree_create d (tree p subs) = tree p (append_tree subs (tree d nil))

-- `generic_tree_traverse`
unfoldable mutual
  pub traverse : (Tree → Bool) → Tree → Option Tree
  traverse eval (tree d subs) =
      let below = traverse_all eval subs in if eval (tree d subs) then some (tree d subs) else below

  pub traverse_all : (Tree → Bool) → Trees → Option Tree
  traverse_all eval nil = none
  traverse_all eval (cons t ts) =
      let rest = traverse_all eval ts in elim (traverse eval t) [ none ↦ rest | some u ↦ some u ]

-- `tree_finder_evaluator`
abbrev pub tree_finder_evaluator : ℕ → Tree → Bool
tree_finder_evaluator d t = data_of t == d

-- `generic_tree_find_subtree`
unfoldable pub find_subtree : Tree → ℕ → Option Tree
unfolding traverse
find_subtree t d = if d == 0 then none else traverse (tree_finder_evaluator d) t

-- Whether a tree is among the sub-trees, the sub-trees without it, and its own sub-trees.
unfoldable pub holds : ℕ → Trees → Bool
holds d nil = false
holds d (cons t ts) = let rest = holds d ts in (data_of t == d) || rest

unfoldable pub without : ℕ → Trees → Trees
without d nil = nil
without d (cons t ts) = let rest = without d ts in if data_of t == d then rest else cons t rest

unfoldable pub below : ℕ → Trees → Trees
below d nil = nil
below d (cons t ts) = let rest = below d ts in if data_of t == d then sub_trees t else rest

-- `linked_list_append` of one tree after the other
unfoldable pub append_trees : Trees → Trees → Trees
unfolding append_tree
append_trees ts nil = ts
append_trees ts (cons u us) = append_trees (append_tree ts u) us

-- `proc_destroy` on the tree: the tree of the process leaves the sub-trees of its parent, which get its
-- own sub-trees at their end.
unfoldable mutual
  unfolding holds without below append_trees

  pub dissolve : ℕ → Tree → Tree
  dissolve d (tree p subs) =
      let deeper = dissolve_all d subs in
      if holds d subs then tree p (append_trees (without d subs) (below d subs)) else tree p deeper

  pub dissolve_all : ℕ → Trees → Trees
  dissolve_all d nil = nil
  dissolve_all d (cons t ts) = cons (dissolve d t) (dissolve_all d ts)
