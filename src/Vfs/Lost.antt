-- ===== src/Vfs/Lost.antt =====
-- What `vfs_find_node` and `mount_in_vfs` of kernel/vfs/vfs.c miss.
use dbos.Base.{
  ℕ, suc, ◌≡◌, ◌≢◌, refl, sym, ap, ◌∙◌, Bool, true, false, Option, some, List, [], ◌∷◌, ◌++◌, arith,
  ==_ne, if◌then◌else◌, inl, inr, Bool-cases,
}
use dbos.Vfs.{
  Name, same, Node, Subtree, Vfs, child_name, pick_child, stub_type, parse_path, mount_in_vfs,
  mount_at,
}
use dbos.Vfs.Find.{find_node, find_rest, find_walk, match_child}
use dbos.Vfs.Path.{IsSegment, path_of, parse_path-path_of, same_ne, first_string-cut}
use dbos.Vfs.Enter.{load_tree_eq, load_node_eq, step_into-Entered}
use dbos.Vfs.Mount.{mount_from-step, mount_from-last}
use dbos.Vfs.RoundTrip.{mount_in_vfs_eq}

-- The sub-tree at the address has a stub directory.
pub record IsStub (v : Vfs) (c : ℕ) : Type 0 where
  pub subtree : Subtree
  pub node : Node
  pub tree_ne : c ≢ 0
  pub tree_at : v.trees c ≡ some subtree
  pub node_ne : subtree.contents ≢ 0
  pub node_at : v.nodes subtree.contents ≡ some node
  pub is_stub : node.type_flags ≡ stub_type

abbrev pub AreStubs : Vfs → List ℕ → Type 0
AreStubs v [] = Unit {0}
AreStubs v (c ∷ cs) = IsStub v c × AreStubs v cs

stub_name_eq : {v : Vfs} {c : ℕ} (i : IsStub v c) → child_name v c ≡ some (i.node).name
unfolding child_name
stub_name_eq {v} {c} i =
    rw
      (
        load_tree_eq v c i.subtree i.tree_ne i.tree_at,
        load_node_eq v (i.subtree).contents i.node i.node_ne i.node_at,
        child_name,
      )
      refl

match_child_step :
    (v : Vfs) (cs : List ℕ) (c : ℕ) (name s : Name) (t : ℕ) (hit : Bool)
    → child_name v c ≡ some name
    → match_child v (c ∷ cs) s t hit
      ≡ match_child v cs s (if same name s then c else t) (same name s)
unfolding match_child
match_child_step v cs c name s t hit e = rw (e, match_child) refl

-- The loop ends without a hit where the last sub-tree has another name, at one of the stubs.
match_child-miss :
    (v : Vfs) (cs : List ℕ) (b : ℕ) (s : Name) (t : ℕ) (hit : Bool)
    → IsStub v t
    → AreStubs v cs
    → (i : IsStub v b) → (i.node).name ≢ s
    → (x : ℕ) × (match_child v (cs ++ (b ∷ [])) s t hit ≡ some (x, false)) × IsStub v x
unfolding match_child
match_child-miss v [] b s t hit st ss i ne =
    (t, rw (stub_name_eq i, same_ne (i.node).name s ne, match_child) refl, st)
match_child-miss v (c ∷ cs) b s t hit st ss i ne =
    let name = ((ss.0).node).name in
    elim (Bool-cases (same name s)) [
      | inl yes_same ↦
          let (x, run, k) = match_child-miss v cs b s c true ss.0 ss.1 i ne in
          let step : match_child v (c ∷ (cs ++ (b ∷ []))) s t hit
              ≡ match_child v (cs ++ (b ∷ [])) s c true =
            match_child_step v (cs ++ (b ∷ [])) c name s t hit (stub_name_eq (ss.0))
            ∙ rw yes_same refl in
          (x, step ∙ run, k)
      | inr no_same ↦
          let (x, run, k) = match_child-miss v cs b s t false st ss.1 i ne in
          let step : match_child v (c ∷ (cs ++ (b ∷ []))) s t hit
              ≡ match_child v (cs ++ (b ∷ [])) s t false =
            match_child_step v (cs ++ (b ∷ [])) c name s t hit (stub_name_eq (ss.0))
            ∙ rw no_same refl in
          (x, step ∙ run, k)
    ]

find_rest-stub :
    (find : ℕ → ℕ → Name → Option ℕ) (v : Vfs) (path : Name) (x left moved : ℕ)
    → IsStub v x
    → find_rest find v path x (suc left) moved ≡ some 0
unfolding find_rest
find_rest-stub find v path x left moved i =
    rw
      (
        load_tree_eq v x i.subtree i.tree_ne i.tree_at,
        load_node_eq v (i.subtree).contents i.node i.node_ne i.node_at,
        i.is_stub,
        find_rest,
        ==_ne (suc left) 0 (omega arith),
      )
      refl

-- Where the root and everything mounted in it are stub directories, `vfs_find_node` of a path of one
-- segment is NULL for every name but that of the sub-tree mounted last, also for the names that are
-- mounted.
pub find_node-miss :
    (find : ℕ → ℕ → Name → Option ℕ) (v : Vfs) (g : Subtree) (cs : List ℕ) (b c : ℕ) (s : Name)
    → IsSegment (c ∷ s)
    → IsStub v v.mountpoint_tree
    → v.trees v.mountpoint_tree ≡ some g
    → g.sub_trees ≡ cs ++ (b ∷ [])
    → AreStubs v cs
    → (i : IsStub v b) → (i.node).name ≢ c ∷ s
    → find_node find v (some (path_of ((c ∷ s) ∷ []))) ≡ some 0
unfolding find_node find_walk same
find_node-miss find v g cs b c s seg root at_t list stubs i ne =
    let t = v.mountpoint_tree in
    let parsed : parse_path (47 ∷ c ∷ (s ++ [])) ≡ (1, 0 ∷ c ∷ (s ++ [])) =
      parse_path-path_of ((c ∷ s) ∷ []) (seg, tt) in
    let (x, run, k) = match_child-miss v cs b (c ∷ s) t false root stubs i ne in
    let walk : find_walk 1 v (c ∷ (s ++ [])) t 0 ≡ some (x, 1, 0) =
      rw
        (
          load_tree_eq v t g root.tree_ne at_t,
          list,
          first_string-cut (c ∷ s) [] seg,
          run,
          find_walk,
        )
        refl in
    rw (parsed, walk, find_node) (find_rest-stub find v (47 ∷ c ∷ (s ++ [])) x 0 0 k)

-- A path without a slash.
abbrev pub NoSlash : Name → Type 0
NoSlash [] = Unit {0}
NoSlash (c ∷ s) = (c ≢ 47) × NoSlash s

parse_path-NoSlash : (s : Name) → NoSlash s → parse_path s ≡ (0, s)
unfolding parse_path
parse_path-NoSlash [] i = refl
parse_path-NoSlash (c ∷ s) i = rw (parse_path-NoSlash s i.1, ==_ne c 47 i.0, parse_path) refl

not_root : (s : Name) → NoSlash s → same s (47 ∷ []) ≡ false
unfolding same
not_root [] i = refl
not_root (c ∷ s) i = rw (==_ne c 47 i.0, same) refl

-- `vfs_find_node` of a path without a slash is the node that is mounted at the root, whatever the path
-- is.
pub find_node-NoSlash :
    (find : ℕ → ℕ → Name → Option ℕ) (v : Vfs) (g : Subtree) (path : Name)
    → NoSlash path
    → v.mountpoint_tree ≢ 0
    → v.trees v.mountpoint_tree ≡ some g
    → find_node find v (some path) ≡ some g.contents
unfolding find_node find_walk find_rest
find_node-NoSlash find v g path i nt at_t =
    rw
      (
        not_root path i,
        parse_path-NoSlash path i,
        load_tree_eq v v.mountpoint_tree g nt at_t,
        find_node,
      )
      refl

-- `mount_in_vfs` at a new path of one segment returns NULL where the node's name is not that segment,
-- and leaves a stub directory mounted there.
pub mount_in_vfs-other_name :
    (v : Vfs) (g : Subtree) (a r b : ℕ) (rest : List ℕ) (n : Node) (c : ℕ) (s : Name)
    → IsSegment (c ∷ s)
    → v.mountpoint_tree ≢ 0
    → v.trees v.mountpoint_tree ≡ some g
    → v.mountpoint_tree ≢ b
    → pick_child v g.sub_trees (c ∷ s) v.mountpoint_tree false ≡ some (v.mountpoint_tree, false)
    → v.supply ≡ r ∷ b ∷ rest
    → r ≢ 0
    → b ≢ 0
    → a ≢ 0
    → a ≢ r
    → v.nodes a ≡ some n
    → n.name ≢ c ∷ s
    → (v' : Vfs) × (mount_in_vfs v a (path_of ((c ∷ s) ∷ [])) ≡ some (0, v'))
      × (child_name v' b ≡ some (c ∷ s))
      × (v'.trees v.mountpoint_tree ≡ some (record g { sub_trees = g.sub_trees ++ (b ∷ []) }))
unfolding mount_at child_name
mount_in_vfs-other_name v g a r b rest n c s seg nt at_t tb pick e nr nb na nar at_a ne =
    let t = v.mountpoint_tree in
    let (v₁, run, en) = step_into-Entered v t g (c ∷ s) r b rest nt tb nr at_t pick e in
    let tree = load_tree_eq v₁ b (record { contents = r; sub_trees = [] }) nb en.tree_at in
    let node = load_node_eq v₁ r en.stub nr en.stub_at in
    let mine = load_node_eq v₁ a n na (en.other_nodes a nar ∙ at_a) in
    let differ : (c ∷ s) ≢ n.name = λ q. ne (sym q) in
    let at_end : mount_at v₁ b a ≡ some (0, v₁) =
      rw (tree, node, mine, en.stub_name, same_ne (c ∷ s) n.name differ, mount_at) refl in
    (
      v₁,
      mount_in_vfs_eq v a c s [] na (seg, tt)
          ∙ mount_from-step v v₁ t b a (c ∷ s) [] seg run
          ∙ mount_from-last v₁ b a
          ∙ at_end,
      rw (tree, node, child_name) (ap some en.stub_name),
      en.parent_at,
    )
