-- ===== src/Vfs/Find.antt =====
-- kernel/vfs/vfs.c: vfs_find_node, the operations on stub directories and mount_filesystem_in_vfs.
use dbos.Base.{
  ℕ, zero, suc, ◌+◌, Bool, true, false, Option, none, some, List, [], ◌∷◌, ◌==◌, if◌then◌else◌,
  length,
}
use dbos.Base.Maybe.{◌>>=◌}
use dbos.Vfs.{
  Name, same, null, stub_directory, driver, Node, Filesystem, Vfs, load_node, load_tree, child_name,
  stub_type, parse_path, first_string, next_string, behind_slash,
}

-- `vfs_stub_directory_readdir`: the loop over the sub-trees, at the entry that is left to pass.
unfoldable pub entry_at : Vfs → List ℕ → ℕ → Option ℕ
unfolding load_tree
entry_at v [] entry_no = some 0
entry_at v (c ∷ cs) zero = do g ← load_tree v c; some g.contents
entry_at v (c ∷ cs) (suc entry_no) = entry_at v cs entry_no

-- `vfs_stub_directory_readdir` for an entry that is not negative; the result 0 is NULL.
unfoldable pub stub_readdir : Vfs → Node → ℕ → Option ℕ
unfolding entry_at load_tree
stub_readdir v node entry_no =
    if node.tree_pointer == 0
    then some 0
    else do g ← load_tree v node.tree_pointer; entry_at v g.sub_trees entry_no

-- The loop of `vfs_stub_directory_finddir`.
unfoldable pub entry_named : Vfs → List ℕ → Name → Option ℕ
unfolding load_tree load_node same
entry_named v [] name = some 0
entry_named v (c ∷ cs) name = do
  g ← load_tree v c
  n ← load_node v g.contents
  elim (same n.name name) [ true ↦ some g.contents | false ↦ entry_named v cs name ]

-- `vfs_stub_directory_finddir`
unfoldable pub stub_finddir : Vfs → Node → Name → Option ℕ
unfolding entry_named load_tree
stub_finddir v node name =
    if node.tree_pointer == 0
    then some 0
    else do g ← load_tree v node.tree_pointer; entry_named v g.sub_trees name

-- The list that `vfs_stub_directory_listdir` collects, on fuel: it reads entries until one is NULL.
unfoldable pub list_from : ℕ → Vfs → Node → ℕ → Option (List ℕ)
unfolding stub_readdir
list_from zero v node i = none
list_from (suc fuel) v node i = elim (stub_readdir v node i) [
  | none ↦ none
  | some nd ↦ elim (nd == 0) [
    | true ↦ some []
    | false ↦ elim (list_from fuel v node (suc i)) [ none ↦ none | some rest ↦ some (nd ∷ rest) ]
  ]
]

-- `vfs_stub_directory_listdir`: the nodes that the array holds.
unfoldable pub stub_listdir : ℕ → Vfs → Node → Option (List ℕ)
unfolding list_from
stub_listdir fuel v node = list_from fuel v node 0

-- The loop of `vfs_find_node` over the sub-trees. `hit` says whether the one that was looked at last
-- has the name, while `work_tree` stays the last that has it.
unfoldable pub match_child : Vfs → List ℕ → Name → ℕ → Bool → Option (ℕ × Bool)
unfolding child_name same
match_child v [] name work_tree hit = some (work_tree, hit)
match_child v (c ∷ cs) name work_tree hit = do
  candidate ← child_name v c
  let found = same candidate name
  match_child v cs name (if found then c else work_tree) found

-- The loop of `vfs_find_node` over the segments: the sub-tree, the segments that are left and how
-- far the pointer into the path has moved.
unfoldable pub find_walk : ℕ → Vfs → Name → ℕ → ℕ → Option (ℕ × ℕ × ℕ)
unfolding load_tree match_child
find_walk zero v path_iterator work_tree moved = some (work_tree, 0, moved)
find_walk (suc segments) v path_iterator work_tree moved = elim (load_tree v work_tree) [
  | none ↦ none
  | some g ↦ elim (match_child v g.sub_trees (first_string path_iterator) work_tree false) [
    | none ↦ none
    | some (tree, true) ↦
        find_walk segments v (next_string path_iterator) tree
          (moved + length (first_string path_iterator) + 1)
    | some (tree, false) ↦ some (tree, suc segments, moved)
  ]
]

-- The rest of a path behind `n` characters.
unfoldable pub drop : ℕ → Name → Name
drop zero path = path
drop (suc n) [] = []
drop (suc n) (c ∷ cs) = drop n cs

-- The end of `vfs_find_node`. `find` is what the drivers' `dir_find` return for a node and a path.
unfoldable pub find_rest : (ℕ → ℕ → Name → Option ℕ) → Vfs → Name → ℕ → ℕ → ℕ → Option ℕ
unfolding load_tree load_node stub_finddir drop
find_rest find v path work_tree segments moved = do
  g ← load_tree v work_tree
  if segments == 0 then some g.contents else do
    n ← load_node v g.contents
    if n.type_flags == stub_type then some 0 else elim n.dir_find [
      | null ↦ none
      | stub_directory ↦ stub_finddir v n (drop moved path)
      | driver f ↦ find f g.contents (drop moved path)
    ]

-- `vfs_find_node`; the result 0 is NULL.
unfoldable pub find_node : (ℕ → ℕ → Name → Option ℕ) → Vfs → Option Name → Option ℕ
unfolding find_walk find_rest same
find_node find v none = some 0
find_node find v (some path) = if same path (47 ∷ []) then some v.root_node else do
  let (segments, path_iterator) = parse_path path
  (tree, left, moved) ← find_walk segments v (behind_slash path_iterator) v.mountpoint_tree 0
  find_rest find v path tree left moved

-- The loop of `mount_filesystem_in_vfs`: the filesystem's function, 0 for none.
unfoldable pub find_filesystem : List Filesystem → Name → ℕ
unfolding same
find_filesystem [] id = 0
find_filesystem (f ∷ fs) id =
    let rest = find_filesystem fs id in if same id f.id then f.mount_function else rest

-- `mount_filesystem_in_vfs`, with what a filesystem's function does to the device and the mountpoint.
unfoldable pub mount_filesystem :
    (ℕ → ℕ → Name → Option ℕ)
    → (ℕ → ℕ → Name → Vfs → Option (ℕ × Vfs))
    → Vfs
    → Option Name
    → Option Name
    → Option Name
    → Option (ℕ × Vfs)
unfolding find_filesystem find_node
mount_filesystem find mount v none mountpoint device_path = some (0, v)
mount_filesystem find mount v (some id) none device_path = some (0, v)
mount_filesystem find mount v (some id) (some mountpoint) device_path =
    let function = find_filesystem v.registered_filesystems id in
    if function == 0
    then some (0, v)
    else do device ← find_node find v device_path; mount function device mountpoint v
