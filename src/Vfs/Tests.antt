-- ===== src/Vfs/Tests.antt =====
-- Runs of the virtual file system, and its theorems at a root with two mounted directories.
use dbos.Base.{ℕ, ◌≢◌, true, ◌≡◌, refl, ap, none, some, [], ◌∷◌, arith, ◌==◌, if◌then◌else◌}
use dbos.Vfs.{Name, Node, Subtree, Vfs, stub_node, load_tree, child_name, pick_child, mount_in_vfs}
use dbos.Vfs.Find.{find_node, stub_listdir}
use dbos.Vfs.Listing.{Entries, stub_listdir-terminates}
use dbos.Vfs.Path.{path_of}
use dbos.Vfs.Enter.{Absent, IsChild}
use dbos.Vfs.Walk.{Children}
use dbos.Vfs.Lost.{IsStub, find_node-miss}
use dbos.Vfs.RoundTrip.{mount_in_vfs-find_node}

-- "dev", "etc", "usr" and "bin"
abbrev dev : Name
dev = 100 ∷ 101 ∷ 118 ∷ []

abbrev etc : Name
etc = 101 ∷ 116 ∷ 99 ∷ []

abbrev usr : Name
usr = 117 ∷ 115 ∷ 114 ∷ []

abbrev bin : Name
bin = 98 ∷ 105 ∷ 110 ∷ []

abbrev first : Name → ℕ
first [] = 0
first (c ∷ s) = c

-- The root at 1 with the node 2, "dev" at 3 with the node 4, "etc" at 5 with the node 6; the node at 9
-- has the name "bin".
abbrev root_tree : Subtree
root_tree = record { contents = 2; sub_trees = 3 ∷ 5 ∷ [] }

abbrev leaf : ℕ → Subtree
leaf a = record { contents = a; sub_trees = [] }

abbrev bin_node : Node
bin_node = record (stub_node bin 4) { type_flags = 32 }

abbrev two_mounts : Vfs
two_mounts = record {
  root_node = 2;
  mountpoint_tree = 1;
  registered_filesystems = [];
  node_number = 4;
  filesystem_id = 0xF000;
  is_ready = true;
  nodes = λ a.
      if a == 2
      then some (stub_node (47 ∷ []) 0)
      else if a == 4
      then some (stub_node dev 1)
      else if a == 6
      then some (stub_node etc 2)
      else if a == 9
      then some bin_node
      else none;
  trees = λ a.
      if a == 1
      then some root_tree
      else if a == 3
      then some (leaf 4)
      else if a == 5
      then some (leaf 6)
      else none;
  supply = 10 ∷ 11 ∷ 12 ∷ 13 ∷ [];
}

child :
    (c a number : ℕ) (name : Name)
    → c ≢ 0
    → a ≢ 0
    → Absent c two_mounts.supply
    → Absent a two_mounts.supply
    → two_mounts.trees c ≡ some (leaf a)
    → two_mounts.nodes a ≡ some (stub_node name number)
    → IsChild two_mounts c (leaf a) (stub_node name number)
child c a number name nc na uc ua at_c at_a = record {
  tree_ne = nc;
  tree_used = uc;
  tree_at = at_c;
  node_ne = na;
  node_used = ua;
  node_at = at_a;
}

abbrev stub_at :
    (c number : ℕ) (name : Name) (g : Subtree)
    → c ≢ 0
    → g.contents ≢ 0
    → two_mounts.trees c ≡ some g
    → two_mounts.nodes g.contents ≡ some (stub_node name number)
    → IsStub two_mounts c
stub_at c number name g nc na at_c at_a = record {
  subtree = g;
  node = stub_node name number;
  tree_ne = nc;
  tree_at = at_c;
  node_ne = na;
  node_at = at_a;
  is_stub = refl;
}

two-Children : Children two_mounts 1 (3 ∷ 5 ∷ [])
two-Children = (
  (
    leaf 4,
    stub_node dev 1,
    child 3 4 1 dev (omega arith) (omega arith) (omega arith) (omega arith) refl refl,
    omega arith,
  ),
  (
    (
      leaf 6,
      stub_node etc 2,
      child 5 6 2 etc (omega arith) (omega arith) (omega arith) (omega arith) refl refl,
      omega arith,
    ),
    tt,
  ),
)

mount_in_vfs-find_node_example :
    (v' : Vfs) × (mount_in_vfs two_mounts 9 (path_of (usr ∷ bin ∷ [])) ≡ some (9, v'))
    × (find_node (λ f a p. none) v' (some (path_of (usr ∷ bin ∷ []))) ≡ some 9)
unfolding pick_child child_name
mount_in_vfs-find_node_example =
    mount_in_vfs-find_node (λ f a p. none) two_mounts root_tree 9 bin_node 117 (115 ∷ 114 ∷ [])
      (bin ∷ []) (omega arith) (omega arith) refl (omega arith) two-Children refl (omega arith)
      (omega arith) (omega arith) (omega arith) refl refl

find_node-miss_example : find_node (λ f a p. none) two_mounts (some (path_of (dev ∷ []))) ≡ some 0
find_node-miss_example =
    find_node-miss (λ f a p. none) two_mounts root_tree (3 ∷ []) 5 100 (101 ∷ 118 ∷ [])
      (omega arith) (stub_at 1 0 (47 ∷ []) root_tree (omega arith) (omega arith) refl refl) refl
      refl (stub_at 3 1 dev (leaf 4) (omega arith) (omega arith) refl refl, tt)
      (stub_at 5 2 etc (leaf 6) (omega arith) (omega arith) refl refl)
      (λ e. omega (arith, ap first e))

two-Entries : Entries two_mounts (3 ∷ 5 ∷ []) (4 ∷ 6 ∷ [])
unfolding load_tree
two-Entries = ((leaf 4, refl, refl), omega arith, ((leaf 6, refl, refl), omega arith, tt))

-- The root of the two mounts.
stub_listdir-terminates_example :
    stub_listdir 3 two_mounts (record (stub_node (47 ∷ []) 0) { tree_pointer = 1 })
    ≡ some (4 ∷ 6 ∷ [])
stub_listdir-terminates_example =
    stub_listdir-terminates two_mounts (record (stub_node (47 ∷ []) 0) { tree_pointer = 1 })
      root_tree (4 ∷ 6 ∷ []) (omega arith) refl two-Entries 3 (omega arith)
