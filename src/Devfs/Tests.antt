-- ===== src/Devfs/Tests.antt =====
-- Runs of the device file system, mounted at /dev with a keyboard in it.
use dbos.Base.{ℕ, ◌≡◌, refl, ap, true, none, some, [], ◌∷◌, arith, ◌==◌, if◌then◌else◌}
use dbos.Vfs.{Name, Subtree, Vfs, stub_node}
use dbos.Vfs.Find.{find_node}
use dbos.Vfs.Path.{path_of}
use dbos.Vfs.Walk.{Children}
use dbos.Devfs.{
  IoNode, IoNodes, Devfs, devfs_node, device_node, create_node, read_directory, behind_last_slash,
}
use dbos.Devfs.Find.{Mounted, directory_find, create_node-find_node}

-- "dev", "kbd" and "vga"
abbrev dev : Name
dev = 100 ∷ 101 ∷ 118 ∷ []

abbrev kbd : Name
kbd = 107 ∷ 98 ∷ 100 ∷ []

abbrev vga : Name
vga = 118 ∷ 103 ∷ 97 ∷ []

abbrev first : Name → ℕ
first [] = 0
first (c ∷ s) = c

abbrev io_node : Name → ℕ → IoNode
io_node name number = record {
  node_no = number;
  node_type = 2;
  node_name = name;
  node_size = 0;
  node_open = 0;
  node_close = 0;
  node_read = 7;
  node_write = 0;
  node_control = 0;
  node_status = 0;
  base_pointer = 0;
}

abbrev io : IoNodes
io a = if a == 30 then some (io_node kbd 1) else if a == 31 then some (io_node vga 2) else none

abbrev root_tree : Subtree
root_tree = record { contents = 2; sub_trees = 3 ∷ [] }

abbrev one_mount : Vfs
one_mount = record {
  root_node = 2;
  mountpoint_tree = 1;
  registered_filesystems = [];
  node_number = 1;
  filesystem_id = 0xF000;
  is_ready = true;
  nodes = λ a.
      if a == 2
      then some (stub_node (47 ∷ []) 0)
      else if a == 4
      then some (devfs_node dev 1 50)
      else if a == 6
      then some (device_node kbd 1 16 (io_node kbd 1) 30)
      else none;
  trees = λ a.
      if a == 1
      then some root_tree
      else if a == 3
      then some (record { contents = 4; sub_trees = [] })
      else none;
  supply = 10 ∷ [];
}

abbrev one_device : Devfs
one_device = record {
  root_node = 4;
  devices = 50;
  entries = 6 ∷ [];
  device_node_no = 1;
  is_ready = true;
}

mounted : Mounted one_device one_mount root_tree dev 3 4 (devfs_node dev 1 50)
mounted = record {
  root_ne = omega arith;
  root_at = refl;
  before = [];
  is_last = refl;
  named = refl;
  tree_ne = omega arith;
  tree_at = refl;
  node_ne = omega arith;
  node_at = refl;
  no_stub = omega arith;
  finds = refl;
  is_root = refl;
  has_list = omega arith;
}

children : Children one_mount 1 (3 ∷ [])
children = (
  (
    record { contents = 4; sub_trees = [] },
    devfs_node dev 1 50,
    record {
      tree_ne = omega arith;
      tree_used = omega arith;
      tree_at = refl;
      node_ne = omega arith;
      node_used = omega arith;
      node_at = refl;
    },
    omega arith,
  ),
  tt,
)

create_node-find_node_example :
    (d' : Devfs) × (v' : Vfs) × (create_node io one_device one_mount 4 (some vga) 16 31
      ≡ some (10, d', v'))
    × (find_node (directory_find d' v' (λ f a p. none)) v' (some (path_of (dev ∷ vga ∷ [])))
        ≡ some 10)
create_node-find_node_example =
    create_node-find_node (λ f a p. none) io one_device one_mount root_tree 3 4
      (devfs_node dev 1 50) 100 (101 ∷ 118 ∷ []) vga 16 31 10 [] (io_node vga 2) (omega arith)
      (omega arith) mounted children refl (omega arith) (omega arith)
      (
        (
          device_node kbd 1 16 (io_node kbd 1) 30,
          omega arith,
          omega arith,
          refl,
          λ e. omega (arith, ap first e),
        ),
        tt,
      )
      (omega arith) (omega arith) refl

-- The name of devfs is the last segment of its mountpoint.
name_of_mount : behind_last_slash (path_of (dev ∷ [])) (path_of (dev ∷ [])) ≡ dev
unfolding behind_last_slash
name_of_mount = refl

-- The first entry, and none behind it.
entries_read : (read_directory one_device 4 0 ≡ some 6) × (read_directory one_device 4 1 ≡ some 0)
unfolding read_directory
entries_read = (refl, refl)
