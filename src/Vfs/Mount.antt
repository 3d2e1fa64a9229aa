-- ===== src/Vfs/Mount.antt =====
-- `mount_in_vfs` of kernel/vfs/vfs.c at a path whose first segment is not mounted yet.
use dbos.Base.{
  ℕ, ◌≡◌, ◌≢◌, refl, sym, ap, ◌∙◌, true, false, Option, none, some, List, [], ◌∷◌, ◌++◌, arith,
  ◌==◌, ==_ne, ==_refl, length, inl, inr, Bool-cases,
}
use mathlib.Core.Path.{subst}
use dbos.Base.Maybe.{◌>>=◌}
use dbos.Vfs.{
  Name, same, Node, Subtree, Vfs, set_node, set_tree, stub_type, child_name, pick_child, mount_walk,
  mount_at, behind_slash, step_into,
}
use dbos.Vfs.Path.{IsSegment, AreSegments, cut_path, same_refl, first_string-cut, next_string-cut}
use dbos.Vfs.Enter.{
  Absent, IsSupply, load_tree_eq, load_node_eq, set_tree_pointer_eq, Entered, step_into-Entered,
}
use dbos.Vfs.Walk.{Leads, arrived, follow, Named, match_child-last, Children}

-- What mounting at a new path changes: one sub-tree more under `t`, trees and nodes at new addresses,
-- and the mounted node, which keeps its name.
pub record Mounts (v v' : Vfs) (t : ℕ) (g : Subtree) (ss : List Name) (a : ℕ) (n : Node)
    : Type 0 where
  pub child : ℕ
  pub parent_at : v'.trees t ≡ some (record g { sub_trees = g.sub_trees ++ (child ∷ []) })
  pub leads : Leads v' t ss a
  pub other_trees : (x : ℕ) → x ≢ t → Absent x v.supply → v'.trees x ≡ v.trees x
  pub other_nodes : (x : ℕ) → x ≢ a → Absent x v.supply → v'.nodes x ≡ v.nodes x
  pub node : Node
  pub node_at : v'.nodes a ≡ some node
  pub node_name : node.name ≡ n.name
  pub root_eq : v'.mountpoint_tree ≡ v.mountpoint_tree

-- The names of the sub-trees that were there before.
Children-Named :
    (v v' : Vfs) (t a : ℕ) (n m : Node) (cs : List ℕ)
    → ((x : ℕ) → x ≢ t → Absent x v.supply → v'.trees x ≡ v.trees x)
    → ((x : ℕ) → x ≢ a → Absent x v.supply → v'.nodes x ≡ v.nodes x)
    → v'.nodes a ≡ some m
    → Children v t cs
    → Named v' cs
unfolding child_name
Children-Named v v' t a n m [] ts ns e ch = tt
Children-Named v v' t a n m (c ∷ cs) ts ns e ch =
    let ((g, k, i, ne), more) = ch in
    let tree = load_tree_eq v' c g i.tree_ne (ts c ne i.tree_used ∙ i.tree_at) in
    let rest = Children-Named v v' t a n m cs ts ns e more in
    elim (Bool-cases (g.contents == a)) [
      | inl here ↦
          let q : g.contents ≡ a = ground arith in
          let at_node = load_node_eq v' g.contents m i.node_ne (ap v'.nodes q ∙ e) in
          ((m.name, rw (tree, at_node, child_name) refl), rest)
      | inr there ↦
          let q : g.contents ≢ a = ground arith in
          let at_node =
            load_node_eq v' g.contents k i.node_ne (ns g.contents q i.node_used ∙ i.node_at) in
          ((k.name, rw (tree, at_node, child_name) refl), rest)
    ]

-- What `mount_in_vfs` does where the path has led to a new stub directory.
mount_at_eq :
    (v : Vfs) (u a r : ℕ) (n stub : Node)
    → u ≢ 0
    → v.trees u ≡ some (record { contents = r; sub_trees = [] })
    → r ≢ 0
    → v.nodes r ≡ some stub
    → stub.name ≡ n.name
    → stub.type_flags ≡ stub_type
    → a ≢ 0
    → a ≢ r
    → v.nodes a ≡ some n
    → mount_at v u a
      ≡ some (
        a,
        set_node
            (set_tree (set_node v r none) u (record { contents = a; sub_trees = [] }))
            a
            (some (record n { tree_pointer = u })),
      )
unfolding mount_at set_node set_tree
mount_at_eq v u a r n stub nu at_u nr at_r name type na nar at_a =
    let g : Subtree = record { contents = r; sub_trees = [] } in
    let v₁ = set_node v r none in
    let v₂ = set_tree v₁ u (record { contents = a; sub_trees = [] }) in
    let there : v₂.nodes a ≡ some n = rw (==_ne a r nar) at_a in
    let same_name : same stub.name n.name ≡ true = rw (name) (same_refl n.name) in
    rw
      (
        load_tree_eq v u g nu at_u,
        load_node_eq v r stub nr at_r,
        load_node_eq v a n na at_a,
        same_name,
        type,
        set_tree_pointer_eq v₂ a u n na there,
        mount_at,
      )
      refl

-- The memory behind that.
abbrev pub mounted : Vfs → ℕ → ℕ → ℕ → Node → Vfs
mounted v u a r n =
    set_node (set_tree (set_node v r none) u (record { contents = a; sub_trees = [] })) a
      (some (record n { tree_pointer = u }))

Mounts-last :
    (v v₁ : Vfs) (t : ℕ) (g : Subtree) (a r b : ℕ) (n : Node) (s : Name) (xs : List ℕ)
    → t ≢ 0
    → t ≢ b
    → v.supply ≡ r ∷ b ∷ xs
    → b ≢ 0
    → a ≢ 0
    → Children v t g.sub_trees
    → n.name ≡ s
    → Entered v v₁ t g s r b xs
    → Mounts v (mounted v₁ b a r n) t g (s ∷ []) a n
unfolding child_name set_node set_tree
Mounts-last v v₁ t g a r b n s xs nt tb e nb na ch name en =
    let v' = mounted v₁ b a r n in
    let node = record n { tree_pointer = b } in
    let parent : v'.trees t ≡ some (record g { sub_trees = g.sub_trees ++ (b ∷ []) }) =
      rw (==_ne t b tb) en.parent_at in
    let child : v'.trees b ≡ some (record { contents = a; sub_trees = [] }) = rw (==_refl b) refl in
    let node_at : v'.nodes a ≡ some node = rw (==_refl a) refl in
    let trees : (x : ℕ) → x ≢ t → Absent x v.supply → v'.trees x ≡ v.trees x =
      λ x p h. let (q, (k, l)) = subst (Absent x) e h in rw (==_ne x b k) (en.other_trees x p k) in
    let nodes : (x : ℕ) → x ≢ a → Absent x v.supply → v'.nodes x ≡ v.nodes x = λ x p h.
      let (q, (k, l)) = subst (Absent x) e h in
      rw (==_ne x a p, ==_ne x r q) (en.other_nodes x q) in
    let named = Children-Named v v' t a n node g.sub_trees trees nodes node_at ch in
    let b_name : child_name v' b ≡ some s =
      rw
        (
          load_tree_eq v' b (record { contents = a; sub_trees = [] }) nb child,
          load_node_eq v' a node na node_at,
          child_name,
        )
        (ap some name) in
    record {
      child = b;
      parent_at = parent;
      leads =
          follow nt parent (match_child-last v' g.sub_trees b s t false named b_name)
            (arrived nb child);
      other_trees = trees;
      other_nodes = nodes;
      node = node;
      node_at = node_at;
      node_name = refl;
      root_eq = en.root_eq;
    }

Mounts-more :
    (v v₁ v' : Vfs) (t : ℕ) (g : Subtree) (a r b : ℕ) (n : Node) (s : Name) (ss : List Name)
    (xs : List ℕ)
    → t ≢ 0
    → t ≢ b
    → Absent t xs
    → v.supply ≡ r ∷ b ∷ xs
    → r ≢ 0
    → Absent r xs
    → b ≢ 0
    → r ≢ a
    → Children v t g.sub_trees
    → Entered v v₁ t g s r b xs
    → Mounts v₁ v' b (record { contents = r; sub_trees = [] }) ss a n
    → Mounts v v' t g (s ∷ ss) a n
unfolding child_name
Mounts-more v v₁ v' t g a r b n s ss xs nt tb ut e nr ur nb ra ch en mo =
    let fits : (x : ℕ) → Absent x xs → Absent x v₁.supply =
      λ x h. subst (Absent x) (sym en.supply_eq) h in
    let parent = mo.other_trees t tb (fits t ut) ∙ en.parent_at in
    let stub_at = mo.other_nodes r ra (fits r ur) ∙ en.stub_at in
    let trees : (x : ℕ) → x ≢ t → Absent x v.supply → v'.trees x ≡ v.trees x = λ x p h.
      let (q, (k, l)) = subst (Absent x) e h in
      mo.other_trees x k (fits x l) ∙ en.other_trees x p k in
    let nodes : (x : ℕ) → x ≢ a → Absent x v.supply → v'.nodes x ≡ v.nodes x = λ x p h.
      let (q, (k, l)) = subst (Absent x) e h in
      mo.other_nodes x p (fits x l) ∙ en.other_nodes x q in
    let named = Children-Named v v' t a n mo.node g.sub_trees trees nodes mo.node_at ch in
    let b_name : child_name v' b ≡ some s =
      rw
        (
          load_tree_eq v' b (record { contents = r; sub_trees = mo.child ∷ [] }) nb mo.parent_at,
          load_node_eq v' r en.stub nr stub_at,
          child_name,
        )
        (ap some en.stub_name) in
    record {
      child = b;
      parent_at = parent;
      leads = follow nt parent (match_child-last v' g.sub_trees b s t false named b_name) mo.leads;
      other_trees = trees;
      other_nodes = nodes;
      node = mo.node;
      node_at = mo.node_at;
      node_name = mo.node_name;
      root_eq = mo.root_eq ∙ en.root_eq;
    }

-- `mount_in_vfs` behind the path: the loop over the segments and what follows it.
abbrev pub mount_from : Vfs → ℕ → List Name → ℕ → Option (ℕ × Vfs)
mount_from v t ss a =
    mount_walk (length ss) (behind_slash (cut_path ss)) t v >>= (λ (tree, v). mount_at v tree a)

abbrev pub last_name : Name → List Name → Name
last_name s [] = s
last_name s (t ∷ ts) = last_name t ts

-- The addresses that the segments take.
abbrev pub Enough : List Name → List ℕ → Type 0
Enough [] xs = Unit {0}
Enough (s ∷ ss) (a ∷ b ∷ xs) = Enough ss xs
Enough (s ∷ ss) xs = ⊥

pub mount_from-step :
    (v v' : Vfs) (t b a : ℕ) (s : Name) (ss : List Name)
    → IsSegment s
    → step_into v t s ≡ some (b, v')
    → mount_from v t (s ∷ ss) a ≡ mount_from v' b ss a
unfolding mount_walk
mount_from-step v v' t b a s ss i e =
    rw (first_string-cut s ss i, e, next_string-cut s ss i, mount_walk) refl

pub mount_from-last : (v : Vfs) (t a : ℕ) → mount_from v t [] a ≡ mount_at v t a
unfolding mount_walk
mount_from-last v t a = refl

pub mount_from-Mounts :
    (v : Vfs) (t : ℕ) (g : Subtree) (a : ℕ) (n : Node) (s : Name) (ss : List Name) (xs : List ℕ)
    → AreSegments (s ∷ ss)
    → t ≢ 0
    → v.trees t ≡ some g
    → Absent t xs
    → Children v t g.sub_trees
    → pick_child v g.sub_trees s t false ≡ some (t, false)
    → v.supply ≡ xs
    → IsSupply xs
    → Enough (s ∷ ss) xs
    → a ≢ 0
    → Absent a xs
    → v.nodes a ≡ some n
    → n.name ≡ last_name s ss
    → (v' : Vfs) × (mount_from v t (s ∷ ss) a ≡ some (a, v')) × Mounts v v' t g (s ∷ ss) a n
unfolding pick_child child_name
mount_from-Mounts v t g a n s ss [] i nt at_t ut ch pick e sup room na ua at_a name = absurd room
mount_from-Mounts v t g a n s ss (x ∷ []) i nt at_t ut ch pick e sup room na ua at_a name =
    absurd room
mount_from-Mounts v t g a n s [] (r ∷ b ∷ xs) i nt at_t ut ch pick e sup room na ua at_a name =
    let (v₁, run, en) = step_into-Entered v t g s r b xs nt ut.1.0 sup.0 at_t pick e in
    let at_a' : v₁.nodes a ≡ some n = en.other_nodes a ua.0 ∙ at_a in
    let stub_name = en.stub_name ∙ sym name in
    let run' =
      mount_at_eq v₁ b a r n en.stub sup.2.0 en.tree_at sup.0 en.stub_at stub_name en.stub_type_eq
        na ua.0 at_a' in
    (
      mounted v₁ b a r n,
      mount_from-step v v₁ t b a s [] i.0 run ∙ mount_from-last v₁ b a ∙ run',
      Mounts-last v v₁ t g a r b n s xs nt ut.1.0 e sup.2.0 na ch name en,
    )
mount_from-Mounts v t g a n s (s' ∷ ss) (r ∷ b ∷ xs) i nt at_t ut ch pick e sup room na ua at_a
      name =
    let (v₁, run, en) = step_into-Entered v t g s r b xs nt ut.1.0 sup.0 at_t pick e in
    let at_a' : v₁.nodes a ≡ some n = en.other_nodes a ua.0 ∙ at_a in
    let (v', run', mo) =
      mount_from-Mounts v₁ b (record { contents = r; sub_trees = [] }) a n s' ss xs i.1 sup.2.0
        en.tree_at sup.2.1 tt refl en.supply_eq sup.2.2 room na ua.1.1 at_a' name in
    (
      v',
      mount_from-step v v₁ t b a s (s' ∷ ss) i.0 run ∙ run',
      Mounts-more v v₁ v' t g a r b n s (s' ∷ ss) xs nt ut.1.0 ut.1.1 e sup.0 sup.1.1 sup.2.0
          (λ q. ua.0 (sym q)) ch en mo,
    )
