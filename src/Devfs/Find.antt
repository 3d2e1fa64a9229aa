-- ===== src/Devfs/Find.antt =====
-- Devices of drivers/devfs/devfs.c are found by vfs_find_node of kernel/vfs/vfs.c.
use dbos.Base.{
  ℕ, suc, ◌+◌, ◌≡◌, ◌≢◌, refl, ap, ◌∙◌, Bool, true, false, Option, some, List, [], ◌∷◌, ◌++◌, arith,
  ◌==◌, ==_ne, ==_refl, if◌then◌else◌, length,
}
use mathlib.Core.Path.{subst}
use mathlib.Core.List.{append-nil}
use dbos.Vfs.{
  Name, same, Node, Subtree, Vfs, load_node, kern_malloc, set_node, stub_type, parse_path,
  child_name,
}
use dbos.Vfs.Find.{find_node, find_rest, find_walk, match_child, drop}
use dbos.Vfs.Path.{IsSegment, path_of, parse_path-path_of, first_string-cut, same_refl, same_ne}
use dbos.Vfs.Enter.{Absent, load_tree_eq, load_node_eq, child_name-IsChild}
use dbos.Vfs.Walk.{Children, Named, match_child-last}
use dbos.Devfs.{
  IoNode, IoNodes, Devfs, load_io, directory_find_devfs, device_node, create_node, append_device,
  find_device, find_in_directory,
}

-- The call of a node's `dir_find` where devfs is one of the file systems.
abbrev pub directory_find : Devfs → Vfs → (ℕ → ℕ → Name → Option ℕ) → ℕ → ℕ → Name → Option ℕ
directory_find d v other function node path =
    if function == 19 then find_in_directory d v node path else other function node path

-- devfs is mounted at the path of one segment and is what was mounted last below the root: `b`, the last
-- sub-tree of the root tree `g`, holds its node `u`, which has the segment as its name.
pub record Mounted (d : Devfs) (v : Vfs) (g : Subtree) (s : Name) (b u : ℕ) (n : Node)
    : Type 0 where
  pub root_ne : v.mountpoint_tree ≢ 0
  pub root_at : v.trees v.mountpoint_tree ≡ some g
  pub before : List ℕ
  pub is_last : g.sub_trees ≡ before ++ (b ∷ [])
  pub named : n.name ≡ s
  pub tree_ne : b ≢ 0
  pub tree_at : v.trees b ≡ some (record { contents = u; sub_trees = [] })
  pub node_ne : u ≢ 0
  pub node_at : v.nodes u ≡ some n
  pub no_stub : n.type_flags ≢ stub_type
  pub finds : n.dir_find ≡ directory_find_devfs
  pub is_root : d.root_node ≡ u
  pub has_list : d.devices ≢ 0

child_name_eq :
    (v : Vfs) (c : ℕ) (g : Subtree) (n : Node)
    → c ≢ 0
    → v.trees c ≡ some g
    → g.contents ≢ 0
    → v.nodes g.contents ≡ some n
    → child_name v c ≡ some n.name
unfolding child_name
child_name_eq v c g n nc at_c na at_a =
    rw (load_tree_eq v c g nc at_c, load_node_eq v g.contents n na at_a, child_name) refl

drop-append : (s p : Name) → drop (length s) (s ++ p) ≡ p
unfolding drop
drop-append [] p = refl
drop-append (c ∷ s) p = drop-append s p

find_in_directory_eq :
    (d : Devfs) (v : Vfs) (u c : ℕ) (name : Name)
    → d.root_node ≡ u
    → u ≢ 0
    → d.devices ≢ 0
    → find_in_directory d v u (c ∷ name) ≡ find_device v d.entries name
unfolding find_in_directory
find_in_directory_eq d v u c name e nu nd =
    rw (e, ==_ne u 0 nu, ==_refl u, ==_ne d.devices 0 nd) refl

Children-Named : (v : Vfs) (t : ℕ) (cs : List ℕ) → Children v t cs → Named v cs
Children-Named v t [] ch = tt
Children-Named v t (c ∷ cs) ch =
    let ((g, n, i, ct), more) = ch in ((n.name, child_name-IsChild i), Children-Named v t cs more)

Children-front : (v : Vfs) (t b : ℕ) (cs : List ℕ) → Children v t (cs ++ (b ∷ [])) → Children v t cs
Children-front v t b [] ch = tt
Children-front v t b (c ∷ cs) ch = (ch.0, Children-front v t b cs ch.1)

-- The loop over the sub-trees of the root ends at devfs.
match_child-Mounted :
    (d : Devfs) (v : Vfs) (g : Subtree) (b u : ℕ) (n : Node) (s : Name)
    → Mounted d v g s b u n
    → Children v v.mountpoint_tree g.sub_trees
    → match_child v g.sub_trees s v.mountpoint_tree false ≡ some (b, true)
match_child-Mounted d v g b u n s m ch =
    let t = v.mountpoint_tree in
    let listed : Children v t (m.before ++ (b ∷ [])) = subst (Children v t) m.is_last ch in
    let front = Children-Named v t m.before (Children-front v t b m.before listed) in
    let name : child_name v b ≡ some s =
      child_name_eq v b (record { contents = u; sub_trees = [] }) n m.tree_ne m.tree_at m.node_ne
        m.node_at
      ∙ ap some m.named in
    ap (λ cs. match_child v cs s t false) m.is_last
    ∙ match_child-last v m.before b s t false front name

-- The walk of `vfs_find_node` ends at devfs, with the last segment left.
find_walk-Mounted :
    (d : Devfs) (v : Vfs) (g : Subtree) (b u : ℕ) (n : Node) (s name : Name)
    → IsSegment s
    → IsSegment name
    → Mounted d v g s b u n
    → match_child v g.sub_trees s v.mountpoint_tree false ≡ some (b, true)
    → find_walk 2 v (s ++ (0 ∷ (name ++ []))) v.mountpoint_tree 0 ≡ some (b, 1, 0 + length s + 1)
unfolding find_walk match_child
find_walk-Mounted d v g b u n s name seg last m picked =
    let leaf : Subtree = record { contents = u; sub_trees = [] } in
    rw
      (
        load_tree_eq v v.mountpoint_tree g m.root_ne m.root_at,
        first_string-cut s (name ∷ []) seg,
        picked,
        load_tree_eq v b leaf m.tree_ne m.tree_at,
        find_walk,
      )
      (ap (λ (x : Name). some (b, 1, 0 + length x + 1)) (first_string-cut s (name ∷ []) seg))

find_rest-Mounted :
    (other : ℕ → ℕ → Name → Option ℕ) (d : Devfs) (v : Vfs) (g : Subtree) (b u : ℕ) (n : Node)
    (s name : Name)
    → Mounted d v g s b u n
    → find_rest (directory_find d v other) v (47 ∷ (s ++ (47 ∷ name))) b 1 (suc (length s))
      ≡ find_device v d.entries name
unfolding find_rest drop
find_rest-Mounted other d v g b u n s name m =
    rw
      (
        load_tree_eq v b (record { contents = u; sub_trees = [] }) m.tree_ne m.tree_at,
        load_node_eq v u n m.node_ne m.node_at,
        ==_ne n.type_flags stub_type m.no_stub,
        m.finds,
        drop-append s (47 ∷ name),
        find_rest,
      )
      (find_in_directory_eq d v u 47 name m.is_root m.node_ne m.has_list)

-- The search below devfs is the search of the list of devices.
find_node-devices :
    (other : ℕ → ℕ → Name → Option ℕ) (d : Devfs) (v : Vfs) (g : Subtree) (b u : ℕ) (n : Node)
    (c : ℕ) (s name : Name)
    → IsSegment (c ∷ s)
    → IsSegment name
    → Mounted d v g (c ∷ s) b u n
    → match_child v g.sub_trees (c ∷ s) v.mountpoint_tree false ≡ some (b, true)
    → find_node (directory_find d v other) v (some (path_of ((c ∷ s) ∷ name ∷ [])))
      ≡ find_device v d.entries name
unfolding find_node same
find_node-devices other d v g b u n c s name seg last m picked =
    let tail = 47 ∷ (name ++ []) in
    let parsed : parse_path (47 ∷ c ∷ (s ++ tail)) ≡ (2, 0 ∷ c ∷ (s ++ (0 ∷ (name ++ [])))) =
      parse_path-path_of ((c ∷ s) ∷ name ∷ []) (seg, (last, tt)) in
    let moved : 0 + suc (length s) + 1 ≡ suc (suc (length s)) = omega arith in
    rw (parsed, find_walk-Mounted d v g b u n (c ∷ s) name seg last m picked, find_node)
      (ap (find_rest (directory_find d v other) v (47 ∷ c ∷ (s ++ tail)) b 1) moved
        ∙ find_rest-Mounted other d v g b u n (c ∷ s) (name ++ []) m
        ∙ ap (find_device v d.entries) (append-nil name))

-- The nodes of the list have other names and are not at the address `a`.
abbrev pub Others : Vfs → ℕ → Name → List ℕ → Type 0
Others v a name [] = Unit {0}
Others v a name (b ∷ rest) =
    ((n : Node) × (b ≢ 0) × (b ≢ a) × (v.nodes b ≡ some n) × (n.name ≢ name)) × Others v a name rest

find_device_step :
    (v : Vfs) (a : ℕ) (rest : List ℕ) (name : Name) (n : Node)
    → load_node v a ≡ some n
    → find_device v (a ∷ rest) name
      ≡ elim (same n.name name) [ true ↦ some a | false ↦ find_device v rest name ]
unfolding find_device
find_device_step v a rest name n e = rw (e, find_device) refl

find_device-last :
    (v v' : Vfs) (old : List ℕ) (a : ℕ) (n : Node)
    → Others v a n.name old
    → ((b : ℕ) → b ≢ a → v'.nodes b ≡ v.nodes b)
    → a ≢ 0
    → v'.nodes a ≡ some n
    → find_device v' (old ++ (a ∷ [])) n.name ≡ some a
find_device-last v v' [] a n h keep na at_a =
    find_device_step v' a [] n.name n (load_node_eq v' a n na at_a) ∙ rw (same_refl n.name) refl
find_device-last v v' (b ∷ rest) a n h keep na at_a =
    let (k, nb, ba, at_b, ne) = h.0 in
    find_device_step v' b (rest ++ (a ∷ [])) n.name k (load_node_eq v' b k nb (keep b ba ∙ at_b))
    ∙ rw (same_ne k.name n.name ne) (find_device-last v v' rest a n h.1 keep na at_a)

-- A new node changes nothing for the search of the sub-trees.
match_child-keeps :
    (v v' : Vfs) (a t : ℕ) (xs cs : List ℕ) (s : Name) (w : ℕ) (hit : Bool)
    → v.supply ≡ a ∷ xs
    → Children v t cs
    → ((c : ℕ) → v'.trees c ≡ v.trees c)
    → ((c : ℕ) → c ≢ a → v'.nodes c ≡ v.nodes c)
    → match_child v' cs s w hit ≡ match_child v cs s w hit
unfolding match_child
match_child-keeps v v' a t xs [] s w hit e ch ts ns = refl
match_child-keeps v v' a t xs (c ∷ cs) s w hit e ch ts ns =
    let ((g, n, i, ct), more) = ch in
    let (ne, _) = subst (Absent g.contents) e i.node_used in
    let old = child_name-IsChild i in
    let new : child_name v' c ≡ some n.name =
      child_name_eq v' c g n i.tree_ne (ts c ∙ i.tree_at) i.node_ne
        (ns g.contents ne ∙ i.node_at) in
    rw (old, new, match_child)
      (match_child-keeps v v' a t xs cs s (if same n.name s then c else w) (same n.name s) e more ts
        ns)

pub create_node_eq :
    (io : IoNodes) (d : Devfs) (v : Vfs) (u : ℕ) (n : Node) (name : Name) (type pointer a : ℕ)
    (xs : List ℕ) (device : IoNode)
    → u ≢ 0
    → v.nodes u ≡ some n
    → d.root_node ≡ u
    → d.devices ≢ 0
    → v.supply ≡ a ∷ xs
    → type ≢ 0
    → pointer ≢ 0
    → io pointer ≡ some device
    → create_node io d v u (some name) type pointer
      ≡ some (
        a,
        record d { entries = d.entries ++ (a ∷ []) },
        set_node
            (record v { supply = xs })
            a
            (some (device_node name n.node_no type device pointer)),
      )
unfolding create_node kern_malloc load_io append_device
create_node_eq io d v u n name type pointer a xs device nu at_u root list e nt np at_p =
    let here = load_node_eq v u n nu at_u in
    let there : load_node v d.root_node ≡ some n = ap (load_node v) root ∙ here in
    rw
      (
        ==_ne u 0 nu,
        ==_ne type 0 nt,
        ==_ne pointer 0 np,
        here,
        there,
        ==_refl n.node_no,
        e,
        at_p,
        ==_ne d.devices 0 list,
        create_node,
      )
      refl

-- A device that `create_node_devfs` makes is the node that `vfs_find_node` returns for its path, when
-- devfs is mounted directly below the root as the last of the root's sub-trees, and no device in the list
-- has the name already.
pub create_node-find_node :
    (other : ℕ → ℕ → Name → Option ℕ) (io : IoNodes) (d : Devfs) (v : Vfs) (g : Subtree) (b u : ℕ)
    (n : Node) (c : ℕ) (s name : Name) (type pointer a : ℕ) (xs : List ℕ) (device : IoNode)
    → IsSegment (c ∷ s)
    → IsSegment name
    → Mounted d v g (c ∷ s) b u n
    → Children v v.mountpoint_tree g.sub_trees
    → v.supply ≡ a ∷ xs
    → a ≢ 0
    → u ≢ a
    → Others v a name d.entries
    → type ≢ 0
    → pointer ≢ 0
    → io pointer ≡ some device
    → (d' : Devfs) × (v' : Vfs) × (create_node io d v u (some name) type pointer ≡ some (a, d', v'))
      × (find_node (directory_find d' v' other) v' (some (path_of ((c ∷ s) ∷ name ∷ []))) ≡ some a)
unfolding set_node
create_node-find_node other io d v g b u n c s name type pointer a xs device seg last m ch e na ua h
      nt np at_p =
    let v' =
      set_node (record v { supply = xs }) a
        (some (device_node name n.node_no type device pointer)) in
    let d' = record d { entries = d.entries ++ (a ∷ []) } in
    let keep : (x : ℕ) → x ≢ a → v'.nodes x ≡ v.nodes x = λ x p. rw (==_ne x a p) refl in
    let there : v'.nodes a ≡ some (device_node name n.node_no type device pointer) =
      rw (==_refl a) refl in
    let m' : Mounted d' v' g (c ∷ s) b u n = record {
      root_ne = m.root_ne;
      root_at = m.root_at;
      before = m.before;
      is_last = m.is_last;
      named = m.named;
      tree_ne = m.tree_ne;
      tree_at = m.tree_at;
      node_ne = m.node_ne;
      node_at = keep u ua ∙ m.node_at;
      no_stub = m.no_stub;
      finds = m.finds;
      is_root = m.is_root;
      has_list = m.has_list;
    } in
    let picked : match_child v' g.sub_trees (c ∷ s) v.mountpoint_tree false ≡ some (b, true) =
      match_child-keeps v v' a v.mountpoint_tree xs g.sub_trees (c ∷ s) v.mountpoint_tree false e ch
        (λ x. refl) keep
      ∙ match_child-Mounted d v g b u n (c ∷ s) m ch in
    (
      d',
      v',
      create_node_eq io d v u n name type pointer a xs device m.node_ne m.node_at m.is_root
          m.has_list e nt np at_p,
      find_node-devices other d' v' g b u n c s name seg last m' picked
          ∙ find_device-last v v' d.entries a (device_node name n.node_no type device pointer) h
              keep na there,
    )
