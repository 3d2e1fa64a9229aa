-- ===== src/Vfs/RoundTrip.antt =====
-- What is mounted is found: `mount_in_vfs` and `vfs_find_node` of kernel/vfs/vfs.c.
use dbos.Base.{
  ℕ, suc, ◌≡◌, ◌≢◌, refl, sym, ap, ◌∙◌, false, Option, some, List, ◌∷◌, ◌++◌, ==_ne, length,
}
use mathlib.Core.Path.{subst}
use dbos.Vfs.{Name, same, Node, Subtree, Vfs, pick_child, parse_path, mount_in_vfs}
use dbos.Vfs.Find.{find_node, find_rest}
use dbos.Vfs.Path.{AreSegments, path_of, cut_path, parse_path-path_of}
use dbos.Vfs.Enter.{Absent, IsSupply}
use dbos.Vfs.Walk.{Leads, find_walk-Leads, Children}
use dbos.Vfs.Mount.{mount_from, mount_from-Mounts, last_name, Enough}

pub mount_in_vfs_eq :
    (v : Vfs) (a c : ℕ) (s : Name) (ss : List Name)
    → a ≢ 0
    → AreSegments ((c ∷ s) ∷ ss)
    → mount_in_vfs v a (path_of ((c ∷ s) ∷ ss)) ≡ mount_from v v.mountpoint_tree ((c ∷ s) ∷ ss) a
unfolding mount_in_vfs
mount_in_vfs_eq v a c s ss na i =
    let parsed : parse_path (47 ∷ c ∷ (s ++ path_of ss))
        ≡ (suc (length ss), 0 ∷ c ∷ (s ++ cut_path ss)) =
      parse_path-path_of ((c ∷ s) ∷ ss) i in
    rw (==_ne a 0 na, parsed, mount_in_vfs) refl

pub find_node-Leads :
    (find : ℕ → ℕ → Name → Option ℕ) (v : Vfs) (u c : ℕ) (s : Name) (ss : List Name)
    → AreSegments ((c ∷ s) ∷ ss)
    → Leads v v.mountpoint_tree ((c ∷ s) ∷ ss) u
    → find_node find v (some (path_of ((c ∷ s) ∷ ss))) ≡ some u
unfolding find_node find_rest same
find_node-Leads find v u c s ss i l =
    let (tree, m, g, run, at_tree, eq) = find_walk-Leads ((c ∷ s) ∷ ss) 0 i l in
    let parsed : parse_path (47 ∷ c ∷ (s ++ path_of ss))
        ≡ (suc (length ss), 0 ∷ c ∷ (s ++ cut_path ss)) =
      parse_path-path_of ((c ∷ s) ∷ ss) i in
    rw (parsed, run, at_tree, find_node) (ap some eq)

-- `mount_in_vfs` of a node at a path of any length whose first segment no sub-tree of the root has, and
-- whose last segment is the node's name, returns the node, and `vfs_find_node` then finds it at the
-- path. The memory that `kern_malloc` returns is new, and there is enough of it.
pub mount_in_vfs-find_node :
    (find : ℕ → ℕ → Name → Option ℕ) (v : Vfs) (g : Subtree) (a : ℕ) (n : Node) (c : ℕ) (s : Name)
    (ss : List Name)
    → AreSegments ((c ∷ s) ∷ ss)
    → v.mountpoint_tree ≢ 0
    → v.trees v.mountpoint_tree ≡ some g
    → Absent v.mountpoint_tree v.supply
    → Children v v.mountpoint_tree g.sub_trees
    → pick_child v g.sub_trees (c ∷ s) v.mountpoint_tree false ≡ some (v.mountpoint_tree, false)
    → IsSupply v.supply
    → Enough ((c ∷ s) ∷ ss) v.supply
    → a ≢ 0
    → Absent a v.supply
    → v.nodes a ≡ some n
    → n.name ≡ last_name (c ∷ s) ss
    → (v' : Vfs) × (mount_in_vfs v a (path_of ((c ∷ s) ∷ ss)) ≡ some (a, v'))
      × (find_node find v' (some (path_of ((c ∷ s) ∷ ss))) ≡ some a)
mount_in_vfs-find_node find v g a n c s ss i nt at_t ut ch pick sup room na ua at_a name =
    let t = v.mountpoint_tree in
    let (v', run, mo) =
      mount_from-Mounts v t g a n (c ∷ s) ss v.supply i nt at_t ut ch pick refl sup room na ua at_a
        name in
    let leads : Leads v' v'.mountpoint_tree ((c ∷ s) ∷ ss) a =
      subst (λ r. Leads v' r ((c ∷ s) ∷ ss) a) (sym mo.root_eq) mo.leads in
    (v', mount_in_vfs_eq v a c s ss na i ∙ run, find_node-Leads find v' a c s ss i leads)
