-- ===== src/Vfs.antt =====
-- kernel/vfs/vfs.c and kernel/util/path.c: the tree of mounted nodes. Nodes and trees stand at
-- addresses, 0 is NULL, and `none` is an access where nothing stands. A string is the list of its
-- characters. The list of sub-trees is the list that it stands for, and the links from a tree to its
-- parent, which vfs.c does not read, are left out. `supply` holds the addresses that `kern_malloc`
-- returns next for nodes and trees.
pub mod Find
pub mod Dispatch
pub mod Path
pub mod Enter
pub mod Mount
pub mod RoundTrip
pub mod Listing
pub mod Lost
pub mod Walk
mod Tests
use dbos.Base.{
  ℕ, zero, suc, ◌+◌, ◌%◌, ◌^◌, Bool, true, false, not, ◌&&◌, ◌||◌, Option, none, some, List, [],
  ◌∷◌, ◌++◌, map, ◌==◌, if◌then◌else◌, length,
}
use dbos.Base.Maybe.{◌>>=◌}
use dbos.Base.Word.{u32_mod, add32}

abbrev pub Name : Type 0
Name = List ℕ

-- Whether `strcmp` of two strings is 0.
unfoldable pub same : Name → Name → Bool
same [] [] = true
same [] (y ∷ t) = false
same (x ∷ s) [] = false
same (x ∷ s) (y ∷ t) = let rest = same s t in (x == y) && rest

-- A pointer to an operation: NULL, the operation of vfs.c on stub directories, or one of a driver.
pub data Operation : Type 0 where
  null stub_directory : Operation
  driver : ℕ → Operation

-- `VFS_NODE_TYPE_SDIR`
abbrev pub stub_type : ℕ
stub_type = 0x80

-- `vfs_gen_node_t`
pub record Node : Type 0 where
  pub name : Name
  pub node_no : ℕ
  pub size : ℕ
  pub type_flags : ℕ
  pub specific_type : ℕ
  pub node_create : Operation
  pub node_open : Operation
  pub node_close : Operation
  pub node_read : Operation
  pub node_write : Operation
  pub node_control : Operation
  pub node_status : Operation
  pub dir_read : Operation
  pub dir_find : Operation
  pub dir_list : Operation
  pub base_pointer : ℕ
  pub tree_pointer : ℕ

-- `gen_tree_t`
pub record Subtree : Type 0 where
  pub contents : ℕ
  pub sub_trees : List ℕ

-- `vfs_reg_filesys_t`
pub record Filesystem : Type 0 where
  pub id : Name
  pub mount_function : ℕ

-- The variables of vfs.c and the memory behind them.
pub record Vfs : Type 0 where
  pub root_node : ℕ
  pub mountpoint_tree : ℕ
  pub registered_filesystems : List Filesystem
  pub node_number : ℕ
  pub filesystem_id : ℕ
  pub is_ready : Bool
  pub nodes : ℕ → Option Node
  pub trees : ℕ → Option Subtree
  pub supply : List ℕ

unfoldable pub load_node : Vfs → ℕ → Option Node
load_node v a = if a == 0 then none else v.nodes a

unfoldable pub load_tree : Vfs → ℕ → Option Subtree
load_tree v a = if a == 0 then none else v.trees a

unfoldable pub set_node : Vfs → ℕ → Option Node → Vfs
set_node v a n = record v { nodes = λ b. if b == a then n else v.nodes b }

unfoldable pub set_tree : Vfs → ℕ → Subtree → Vfs
set_tree v a t = record v { trees = λ b. if b == a then some t else v.trees b }

unfoldable pub kern_malloc : Vfs → Option (ℕ × Vfs)
kern_malloc v = elim v.supply [ [] ↦ none | a ∷ rest ↦ some (a, record v { supply = rest }) ]

-- `parse_path`: the number of segments, and the path with a zero byte for each slash.
unfoldable pub parse_path : Name → ℕ × Name
parse_path [] = (0, [])
parse_path (c ∷ cs) =
    let (segments, rest) = parse_path cs in
    if c == 47 then (suc segments, 0 ∷ rest) else (segments, c ∷ rest)

-- The string at the pointer into the path, up to a zero byte or the end, and the pointer behind that
-- byte.
unfoldable pub first_string : Name → Name
first_string [] = []
first_string (c ∷ cs) = let rest = first_string cs in if c == 0 then [] else c ∷ rest

unfoldable pub next_string : Name → Name
next_string [] = []
next_string (c ∷ cs) = let rest = next_string cs in if c == 0 then cs else rest

-- `path_iterator++` behind `parse_path`
abbrev pub behind_slash : Name → Name
behind_slash [] = []
behind_slash (c ∷ cs) = cs

-- The node of `vfs_create_stub_directory`; `kern_malloc` clears the fields that are not set there.
abbrev pub stub_node : Name → ℕ → Node
stub_node name node_no = record {
  name = name;
  node_no = node_no;
  size = 0;
  type_flags = stub_type;
  specific_type = 0;
  node_create = null;
  node_open = null;
  node_close = null;
  node_read = null;
  node_write = null;
  node_control = null;
  node_status = null;
  dir_read = stub_directory;
  dir_find = stub_directory;
  dir_list = stub_directory;
  base_pointer = 0;
  tree_pointer = 0;
}

-- `get_node_no`
unfoldable pub get_node_no : Vfs → ℕ × Vfs
get_node_no v =
    let node_number = add32 v.node_number 1 in (node_number, record v { node_number = node_number })

-- `vfs_create_stub_directory`
unfoldable pub create_stub_directory : Vfs → Name → Option (ℕ × Vfs)
unfolding kern_malloc get_node_no set_node
create_stub_directory v name = do
  (a, v) ← kern_malloc v
  let (node_no, v) = get_node_no v
  some (a, set_node v a (some (stub_node name node_no)))

-- `generic_tree_create`
unfoldable pub tree_create : Vfs → ℕ → ℕ → Option (ℕ × Vfs)
unfolding kern_malloc set_tree load_tree
tree_create v item parent_tree = do
  (a, v) ← kern_malloc v
  let v = set_tree v a (record { contents = item; sub_trees = [] })
  if parent_tree == 0 then some (a, v) else do
    g ← load_tree v parent_tree
    some (a, set_tree v parent_tree (record g { sub_trees = g.sub_trees ++ (a ∷ []) }))

-- `node->tree_pointer = tree`
unfoldable pub set_tree_pointer : Vfs → ℕ → ℕ → Option Vfs
unfolding load_node set_node
set_tree_pointer v a tree = do
  n ← load_node v a
  some (set_node v a (some (record n { tree_pointer = tree })))

-- `work_tree->data = node`
unfoldable pub set_contents : Vfs → ℕ → ℕ → Option Vfs
unfolding load_tree set_tree
set_contents v tree a = do g ← load_tree v tree; some (set_tree v tree (record g { contents = a }))

-- `((vfs_gen_node_t *)((gen_tree_t *) child->data)->data)->name`
unfoldable pub child_name : Vfs → ℕ → Option Name
unfolding load_tree load_node
child_name v child = do g ← load_tree v child; n ← load_node v g.contents; some n.name

-- The loop of `mount_in_vfs` over the sub-trees: the last one with the name, or `work_tree`.
unfoldable pub pick_child : Vfs → List ℕ → Name → ℕ → Bool → Option (ℕ × Bool)
unfolding child_name same
pick_child v [] name work_tree hit = some (work_tree, hit)
pick_child v (c ∷ cs) name work_tree hit = do
  candidate ← child_name v c
  let found = same candidate name
  pick_child v cs name (if found then c else work_tree) (if found then true else hit)

-- The sub-tree for a segment of the path, created with a stub directory where there is none.
unfoldable pub step_into : Vfs → ℕ → Name → Option (ℕ × Vfs)
unfolding load_tree pick_child create_stub_directory tree_create set_tree_pointer
step_into v work_tree name = do
  g ← load_tree v work_tree
  (child, hit) ← pick_child v g.sub_trees name work_tree false
  if hit then some (child, v) else do
    (cand, v) ← create_stub_directory v name
    (tree, v) ← tree_create v cand child
    v ← set_tree_pointer v cand tree
    some (tree, v)

-- The loop of `mount_in_vfs` over the segments.
unfoldable pub mount_walk : ℕ → Name → ℕ → Vfs → Option (ℕ × Vfs)
mount_walk zero path_iterator work_tree v = some (work_tree, v)
mount_walk (suc segments) path_iterator work_tree v = do
  (tree, v) ← step_into v work_tree (first_string path_iterator)
  mount_walk segments (next_string path_iterator) tree v

-- The branch of `mount_in_vfs` for the root; the result 0 is NULL.
unfoldable pub mount_root : Vfs → ℕ → Option (ℕ × Vfs)
unfolding tree_create set_tree_pointer load_tree load_node set_contents
mount_root v node =
    if v.mountpoint_tree == 0
    then (do
      (tree, v) ← tree_create v node 0
      v ← set_tree_pointer (record v { mountpoint_tree = tree }) node tree
      some (node, record v { root_node = node }))
    else do
      g ← load_tree v v.mountpoint_tree
      n ← load_node v g.contents
      if not (n.type_flags == stub_type) then some (0, v) else do
        v ← set_contents v v.mountpoint_tree node
        v ← set_tree_pointer v node v.mountpoint_tree
        some (node, record v { root_node = node })

-- What `mount_in_vfs` does at the sub-tree that the path leads to.
unfoldable pub mount_at : Vfs → ℕ → ℕ → Option (ℕ × Vfs)
unfolding load_tree load_node set_node set_contents set_tree_pointer same
mount_at v work_tree node = do
  g ← load_tree v work_tree
  r ← load_node v g.contents
  n ← load_node v node
  if not (same r.name n.name && (r.type_flags == stub_type)) then some (0, v) else do
    v ← set_contents (set_node v g.contents none) work_tree node
    v ← set_tree_pointer v node work_tree
    some (node, v)

-- `mount_in_vfs` for a mountpoint that is not NULL.
unfoldable pub mount_in_vfs : Vfs → ℕ → Name → Option (ℕ × Vfs)
unfolding mount_root mount_walk mount_at
mount_in_vfs v node [] = some (0, v)
mount_in_vfs v node (c ∷ cs) = if (node == 0) || not (c == 47) then some (0, v) else elim (cs) [
  | [] ↦ mount_root v node
  | d ∷ ds ↦ do
    let (segments, path_iterator) = parse_path (c ∷ d ∷ ds)
    (tree, v) ← mount_walk segments (behind_slash path_iterator) v.mountpoint_tree v
    mount_at v tree node
]

-- `initialise_vfs_layer`; `linked_list_create` gives an empty list.
unfoldable initialise_vfs_layer : Vfs → Option Vfs
unfolding create_stub_directory mount_in_vfs
initialise_vfs_layer v = do
  (root_stub, v) ← create_stub_directory v (47 ∷ [])
  (root, v) ← mount_in_vfs (record v { registered_filesystems = [] }) root_stub (47 ∷ [])
  some (record v { root_node = root; is_ready = true })

-- `get_filesystem_id`, with the string that `ksprintf` writes for a number.
unfoldable pub get_filesystem_id : (ℕ → Name) → Vfs → Name × Vfs
get_filesystem_id written v =
    (written v.filesystem_id, record v { filesystem_id = (v.filesystem_id + 1) % 2 ^ 16 })

-- `register_filesystem_in_vfs`; the address 0 is a NULL function.
unfoldable pub register_filesystem : Vfs → Option Name → ℕ → Vfs
register_filesystem v none mount_function = v
register_filesystem v (some id) mount_function = if mount_function == 0 then v else record v {
  registered_filesystems =
      v.registered_filesystems ++ (record { id = id; mount_function = mount_function } ∷ []);
}
