-- ===== src/Vfs/Walk.antt =====
-- The loop of `vfs_find_node` of kernel/vfs/vfs.c follows segments.
use dbos.Base.{
  ℕ, suc, ◌+◌, ◌≡◌, ◌≢◌, refl, ◌∙◌, Bool, true, false, some, List, [], ◌∷◌, ◌++◌, if◌then◌else◌,
  length,
}
use dbos.Vfs.{Name, same, Node, Subtree, Vfs, load_tree, child_name, first_string, behind_slash}
use dbos.Vfs.Find.{match_child, find_walk}
use dbos.Vfs.Path.{AreSegments, cut_path, same_refl, first_string-cut, next_string-cut}
use dbos.Vfs.Enter.{load_tree_eq, IsChild}

-- The segments lead from the sub-tree `t` to a sub-tree with the node `u`, by the choices of
-- `vfs_find_node`.
pub data Leads (v : Vfs) : ℕ → List Name → ℕ → Type 0 where
  arrived : {t : ℕ} {g : Subtree} → t ≢ 0 → v.trees t ≡ some g → Leads v t [] g.contents
  follow :
      {t c u : ℕ} {g : Subtree} {s : Name} {ss : List Name}
      → t ≢ 0
      → v.trees t ≡ some g
      → match_child v g.sub_trees s t false ≡ some (c, true)
      → Leads v c ss u
      → Leads v t (s ∷ ss) u

pub find_walk-Leads :
    {v : Vfs} {t u : ℕ} (ss : List Name) (moved : ℕ)
    → AreSegments ss
    → Leads v t ss u
    → (tree : ℕ) × (m : ℕ) × (g : Subtree) × (find_walk
          (length ss)
          v
          (behind_slash (cut_path ss))
          t
          moved
        ≡ some (tree, 0, m))
      × (load_tree v tree ≡ some g)
      × (g.contents ≡ u)
unfolding find_walk
find_walk-Leads {v} [] moved i (arrived {t} {g} ne e) =
    (t, moved, g, refl, load_tree_eq v t g ne e, refl)
find_walk-Leads {v} (s ∷ ss) moved i (follow {t} {c} {u} {g} ne e pick rest) =
    let first = first_string (s ++ cut_path ss) in
    let pick' : match_child v g.sub_trees first t false ≡ some (c, true) =
      rw (first_string-cut s ss i.0) pick in
    let further = moved + length first + 1 in
    let (tree, m, g', run, at_tree, eq) = find_walk-Leads ss further i.1 rest in
    let step : find_walk (suc (length ss)) v (s ++ cut_path ss) t moved
        ≡ find_walk (length ss) v (behind_slash (cut_path ss)) c further =
      rw (load_tree_eq v t g ne e, pick', next_string-cut s ss i.0, find_walk) refl in
    (tree, m, g', step ∙ run, at_tree, eq)

-- The sub-trees have nodes with names.
abbrev pub Named : Vfs → List ℕ → Type 0
Named v [] = Unit {0}
Named v (c ∷ cs) = ((name : Name) × (child_name v c ≡ some name)) × Named v cs

-- The last sub-tree is found where it has the name.
pub match_child-last :
    (v : Vfs) (cs : List ℕ) (b : ℕ) (s : Name) (t : ℕ) (hit : Bool)
    → Named v cs
    → child_name v b ≡ some s
    → match_child v (cs ++ (b ∷ [])) s t hit ≡ some (b, true)
unfolding match_child
match_child-last v [] b s t hit n e = rw (e, same_refl s, match_child) refl
match_child-last v (c ∷ cs) b s t hit n e =
    let ((name, at_c), more) = n in
    rw (at_c, match_child)
      (match_child-last v cs b s (if same name s then c else t) (same name s) more e)

-- The sub-trees of `t`, each with its node.
abbrev pub Children : Vfs → ℕ → List ℕ → Type 0
Children v t [] = Unit {0}
Children v t (c ∷ cs) = ((g : Subtree) × (n : Node) × IsChild v c g n × (c ≢ t)) × Children v t cs
