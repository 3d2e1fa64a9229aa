-- ===== src/Vfs/Enter.antt =====
-- Entering a segment of a path that is not mounted yet: kernel/vfs/vfs.c, `mount_in_vfs`.
use dbos.Base.{ℕ, ◌≡◌, ◌≢◌, refl, sym, false, some, List, [], ◌∷◌, ◌++◌, ==_ne, ==_refl}
use dbos.Base.Word.{add32}
use dbos.Vfs.{
  Name, Node, Subtree, Vfs, load_node, load_tree, set_node, set_tree, kern_malloc, get_node_no,
  stub_node, stub_type, create_stub_directory, tree_create, set_tree_pointer, child_name,
  pick_child, step_into,
}

-- `x` is none of the addresses.
abbrev pub Absent : ℕ → List ℕ → Type 0
Absent x [] = Unit {0}
Absent x (y ∷ ys) = (x ≢ y) × Absent x ys

-- The addresses are different from each other and from NULL.
abbrev pub IsSupply : List ℕ → Type 0
IsSupply [] = Unit {0}
IsSupply (x ∷ xs) = (x ≢ 0) × Absent x xs × IsSupply xs

pub load_tree_eq :
    (v : Vfs) (t : ℕ) (g : Subtree) → t ≢ 0 → v.trees t ≡ some g → load_tree v t ≡ some g
unfolding load_tree
load_tree_eq v t g ne e = rw (==_ne t 0 ne, e, load_tree) refl

pub load_node_eq :
    (v : Vfs) (a : ℕ) (n : Node) → a ≢ 0 → v.nodes a ≡ some n → load_node v a ≡ some n
unfolding load_node
load_node_eq v a n ne e = rw (==_ne a 0 ne, e, load_node) refl

-- A sub-tree with its node, at addresses that are not handed out again.
pub record IsChild (v : Vfs) (c : ℕ) (g : Subtree) (n : Node) : Type 0 where
  pub tree_ne : c ≢ 0
  pub tree_used : Absent c v.supply
  pub tree_at : v.trees c ≡ some g
  pub node_ne : g.contents ≢ 0
  pub node_used : Absent g.contents v.supply
  pub node_at : v.nodes g.contents ≡ some n

pub child_name-IsChild :
    {v : Vfs} {c : ℕ} {g : Subtree} {n : Node} → IsChild v c g n → child_name v c ≡ some n.name
unfolding child_name
child_name-IsChild {v} {c} {g} {n} i =
    rw
      (
        load_tree_eq v c g i.tree_ne i.tree_at,
        load_node_eq v g.contents n i.node_ne i.node_at,
        child_name,
      )
      refl

create_stub_directory_eq :
    (v : Vfs) (s : Name) (a : ℕ) (rest : List ℕ)
    → v.supply ≡ a ∷ rest
    → create_stub_directory v s
      ≡ some (
        a,
        set_node
            (record v { supply = rest; node_number = add32 v.node_number 1 })
            a
            (some (stub_node s (add32 v.node_number 1))),
      )
unfolding create_stub_directory kern_malloc get_node_no set_node
create_stub_directory_eq v s a rest e = rw (e, create_stub_directory) refl

tree_create_eq :
    (v : Vfs) (item t b : ℕ) (g : Subtree) (rest : List ℕ)
    → v.supply ≡ b ∷ rest
    → t ≢ 0
    → t ≢ b
    → v.trees t ≡ some g
    → tree_create v item t
      ≡ some (
        b,
        set_tree
            (set_tree (record v { supply = rest }) b (record { contents = item; sub_trees = [] }))
            t
            (record g { sub_trees = g.sub_trees ++ (b ∷ []) }),
      )
unfolding tree_create kern_malloc set_tree load_tree
tree_create_eq v item t b g rest e ne other at_t =
    rw (e, ==_ne t 0 ne, ==_ne t b other, at_t, tree_create) refl

pub set_tree_pointer_eq :
    (v : Vfs) (a t : ℕ) (n : Node)
    → a ≢ 0
    → v.nodes a ≡ some n
    → set_tree_pointer v a t ≡ some (set_node v a (some (record n { tree_pointer = t })))
unfolding set_tree_pointer
set_tree_pointer_eq v a t n ne e = rw (load_node_eq v a n ne e, set_tree_pointer) refl

-- What `mount_in_vfs` leaves when it makes a stub directory for the segment `s` under `t`: the tree
-- `b` with the node `a`, and the rest as it was.
pub record Entered (v v' : Vfs) (t : ℕ) (g : Subtree) (s : Name) (a b : ℕ) (rest : List ℕ)
    : Type 0 where
  pub parent_at : v'.trees t ≡ some (record g { sub_trees = g.sub_trees ++ (b ∷ []) })
  pub tree_at : v'.trees b ≡ some (record { contents = a; sub_trees = [] })
  pub other_trees : (x : ℕ) → x ≢ t → x ≢ b → v'.trees x ≡ v.trees x
  pub stub : Node
  pub stub_at : v'.nodes a ≡ some stub
  pub stub_name : stub.name ≡ s
  pub stub_type_eq : stub.type_flags ≡ stub_type
  pub other_nodes : (x : ℕ) → x ≢ a → v'.nodes x ≡ v.nodes x
  pub supply_eq : v'.supply ≡ rest
  pub root_eq : v'.mountpoint_tree ≡ v.mountpoint_tree

pub step_into-Entered :
    (v : Vfs) (t : ℕ) (g : Subtree) (s : Name) (a b : ℕ) (rest : List ℕ)
    → t ≢ 0
    → t ≢ b
    → a ≢ 0
    → v.trees t ≡ some g
    → pick_child v g.sub_trees s t false ≡ some (t, false)
    → v.supply ≡ a ∷ b ∷ rest
    → (v' : Vfs) × (step_into v t s ≡ some (b, v')) × Entered v v' t g s a b rest
unfolding step_into set_node set_tree
step_into-Entered v t g s a b rest nt ntb na at_t pick e =
    let stub = stub_node s (add32 v.node_number 1) in
    let v₁ =
      set_node (record v { supply = b ∷ rest; node_number = add32 v.node_number 1 }) a
        (some stub) in
    let v₂ =
      set_tree (set_tree (record v₁ { supply = rest }) b (record { contents = a; sub_trees = [] }))
        t (record g { sub_trees = g.sub_trees ++ (b ∷ []) }) in
    let v₃ = set_node v₂ a (some (record stub { tree_pointer = b })) in
    let there : v₂.nodes a ≡ some stub = rw (==_refl a) refl in
    let other : b ≢ t = λ q. ntb (sym q) in
    (
      v₃,
      rw
          (
            load_tree_eq v t g nt at_t,
            pick,
            create_stub_directory_eq v s a (b ∷ rest) e,
            tree_create_eq v₁ a t b g rest refl nt ntb at_t,
            set_tree_pointer_eq v₂ a b stub na there,
            step_into,
          )
          refl,
      record {
        parent_at = rw (==_refl t) refl;
        tree_at = rw (==_ne b t other, ==_refl b) refl;
        other_trees = λ x p q. rw (==_ne x t p, ==_ne x b q) refl;
        stub = record stub { tree_pointer = b };
        stub_at = rw (==_refl a) refl;
        stub_name = refl;
        stub_type_eq = refl;
        other_nodes = λ x p. rw (==_ne x a p) refl;
        supply_eq = refl;
        root_eq = refl;
      },
    )
