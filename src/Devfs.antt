-- ===== src/Devfs.antt =====
-- drivers/devfs/devfs.c: the file system of the devices. `io` holds the `io_node_t` at an address, and
-- the functions of the device drivers are numbers, 0 for NULL; what they do, to a state `W` of theirs,
-- is an argument. The list `devices` is the list of the nodes that it holds; an `int` is its bit
-- pattern.
pub mod Find
pub mod Transfer
mod Tests
use dbos.Base.{
  ℕ, zero, suc, Bool, true, false, not, ◌||◌, Option, none, some, List, [], ◌∷◌, ◌++◌, ◌==◌,
  if◌then◌else◌, get_or,
}
use dbos.Base.Maybe.{◌>>=◌}
use dbos.Base.Word.{add32, slt32}
use dbos.Vfs.{
  Name, same, Operation, null, driver, Node, Vfs, load_node, set_node, kern_malloc, get_node_no,
  mount_in_vfs, get_filesystem_id, register_filesystem,
}
use dbos.Vfs.Find.{mount_filesystem}
use dbos.Vfs.Dispatch.{minus}

-- `io_node_t`
pub record IoNode : Type 0 where
  pub node_no : ℕ
  pub node_type : ℕ
  pub node_name : Name
  pub node_size : ℕ
  pub node_open : ℕ
  pub node_close : ℕ
  pub node_read : ℕ
  pub node_write : ℕ
  pub node_control : ℕ
  pub node_status : ℕ
  pub base_pointer : ℕ

abbrev pub IoNodes : Type 0
IoNodes = ℕ → Option IoNode

-- The variables of devfs.c: `devices` is the address of the list, and `entries` what it holds.
pub record Devfs : Type 0 where
  pub root_node : ℕ
  pub devices : ℕ
  pub entries : List ℕ
  pub device_node_no : ℕ
  pub is_ready : Bool

unfoldable pub load_io : IoNodes → ℕ → Option IoNode
load_io io a = if a == 0 then none else io a

-- The operations of devfs, as pointers.
abbrev pub create_devfs : Operation
create_devfs = driver 11

abbrev pub open_devfs : Operation
open_devfs = driver 12

abbrev pub close_devfs : Operation
close_devfs = driver 13

abbrev pub read_devfs : Operation
read_devfs = driver 14

abbrev pub write_devfs : Operation
write_devfs = driver 15

abbrev pub control_devfs : Operation
control_devfs = driver 16

abbrev pub status_devfs : Operation
status_devfs = driver 17

abbrev pub directory_read_devfs : Operation
directory_read_devfs = driver 18

abbrev pub directory_find_devfs : Operation
directory_find_devfs = driver 19

abbrev pub directory_list_devfs : Operation
directory_list_devfs = driver 20

-- `VFS_NODE_TYPE_DIRE` and `VFS_FILESYSTEM_TYPE_DEVFS`
abbrev pub directory_type : ℕ
directory_type = 0x20

abbrev filesystem_type_devfs : ℕ
filesystem_type_devfs = 0x01

-- The string behind the last slash, and the whole string where there is none: the code then has a
-- pointer that nothing reads, as `mount_in_vfs` refuses the path.
unfoldable pub behind_last_slash : Name → Name → Name
behind_last_slash found [] = found
behind_last_slash found (c ∷ cs) = behind_last_slash (if c == 47 then cs else found) cs

-- The node of `mount_devfs`
abbrev pub devfs_node : Name → ℕ → ℕ → Node
devfs_node name node_no devices = record {
  name = name;
  node_no = node_no;
  size = 0;
  type_flags = directory_type;
  specific_type = filesystem_type_devfs;
  node_create = create_devfs;
  node_open = null;
  node_close = null;
  node_read = null;
  node_write = null;
  node_control = null;
  node_status = null;
  dir_read = directory_read_devfs;
  dir_find = directory_find_devfs;
  dir_list = directory_list_devfs;
  base_pointer = devices;
  tree_pointer = 0;
}

-- `mount_devfs`; what it returns is also the new `root_node`.
unfoldable pub mount_devfs : Devfs → Vfs → Name → Option (ℕ × Vfs)
unfolding kern_malloc get_node_no set_node behind_last_slash mount_in_vfs
mount_devfs d v mountpoint = do
  (root_node, v) ← kern_malloc v
  let (node_no, v) = get_node_no v
  let node = devfs_node (behind_last_slash mountpoint mountpoint) node_no d.devices
  mount_in_vfs (set_node v root_node (some node)) root_node mountpoint

-- `initialise_devfs`; `find` is what the drivers find, `written` the string of a number, `list` the
-- address of the new list and `function` that of `mount_devfs`. `other` are the other filesystems.
unfoldable pub initialise_devfs :
    (ℕ → ℕ → Name → Option ℕ)
    → (ℕ → ℕ → Name → Vfs → Option (ℕ × Vfs))
    → (ℕ → Name)
    → ℕ
    → ℕ
    → Devfs
    → Vfs
    → Option Name
    → Option (Devfs × Vfs)
unfolding get_filesystem_id register_filesystem mount_filesystem mount_devfs
initialise_devfs find other written list function d v none =
    some (d, (get_filesystem_id written v).1)
initialise_devfs find other written list function d v (some mountpoint) = do
  let (id, v) = get_filesystem_id written v
  let d = record d { devices = list; entries = [] }
  let mount = λ (f node : ℕ) (path : Name) (w : Vfs).
      if f == function then mount_devfs d w path else other f node path w
  (root_node, v) ←
      mount_filesystem find mount (register_filesystem v (some id) function) (some id)
        (some mountpoint) none
  some (record d { root_node = root_node; is_ready = true }, v)

-- `get_device_node_no`
unfoldable pub get_device_node_no : Devfs → ℕ × Devfs
get_device_node_no d =
    let device_node_no = add32 d.device_node_no 1 in
    (device_node_no, record d { device_node_no = device_node_no })

module _ {W : Type 0} where
  -- The call of a driver's function, `failed` where it has none.
  unfoldable pub call_device : ℕ → ℕ → (ℕ → W → Option (ℕ × W)) → W → Option (ℕ × W)
  call_device failed function call w = if function == 0 then some (failed, w) else call function w

  -- `open_node_devfs`
  unfoldable pub open_node : (ℕ → ℕ → W → Option (ℕ × W)) → IoNodes → Vfs → ℕ → W → Option (ℕ × W)
  open_node call io v vfs_node w = if vfs_node == 0 then some (minus 1, w) else do
    n ← load_node v vfs_node
    device ← load_io io n.base_pointer
    call_device (minus 1) device.node_open (λ f. call f n.base_pointer) w

  -- `close_node_devfs`
  unfoldable pub close_node : (ℕ → ℕ → W → Option (ℕ × W)) → IoNodes → Vfs → ℕ → W → Option (ℕ × W)
  close_node call io v vfs_node w = if vfs_node == 0 then some (minus 1, w) else do
    n ← load_node v vfs_node
    device ← load_io io n.base_pointer
    call_device (minus 1) device.node_close (λ f. call f n.base_pointer) w

  -- `read_node_devfs`
  unfoldable pub read_node :
      (ℕ → ℕ → ℕ → ℕ → ℕ → W → Option (ℕ × W)) → IoNodes → Vfs → ℕ → ℕ → ℕ → ℕ → W → Option (ℕ × W)
  read_node read io v vfs_node start_at size buffer w =
      if (vfs_node == 0) || (buffer == 0) then some (minus 1, w) else do
        n ← load_node v vfs_node
        device ← load_io io n.base_pointer
        call_device (minus 1) device.node_read (λ f. read f n.base_pointer start_at size buffer) w

  -- `write_node_devfs`
  unfoldable pub write_node :
      (ℕ → ℕ → ℕ → ℕ → ℕ → W → Option (ℕ × W)) → IoNodes → Vfs → ℕ → ℕ → ℕ → ℕ → W → Option (ℕ × W)
  write_node write io v vfs_node start_at size buffer w =
      if (vfs_node == 0) || (buffer == 0) then some (minus 1, w) else do
        n ← load_node v vfs_node
        device ← load_io io n.base_pointer
        call_device (minus 1) device.node_write (λ f. write f n.base_pointer start_at size buffer) w

  -- `control_node_devfs`
  unfoldable pub control_node :
      (ℕ → ℕ → ℕ → ℕ → W → Option (ℕ × W)) → IoNodes → Vfs → ℕ → ℕ → ℕ → W → Option (ℕ × W)
  control_node control io v vfs_node command arguments w =
      if (vfs_node == 0) || (command == 0) then some (minus 1, w) else do
        n ← load_node v vfs_node
        device ← load_io io n.base_pointer
        call_device (minus 1) device.node_control (λ f. control f n.base_pointer command arguments)
            w

  -- `status_of_node_devfs`
  unfoldable pub status_of_node :
      (ℕ → ℕ → W → Option (ℕ × W)) → IoNodes → Vfs → ℕ → W → Option (ℕ × W)
  status_of_node status io v vfs_node w = if vfs_node == 0 then some (0xFFFF_FFFF, w) else do
    n ← load_node v vfs_node
    device ← load_io io n.base_pointer
    call_device 0xFFFF_FFFF device.node_status (λ f. status f n.base_pointer) w

-- The node of `create_node_devfs`
abbrev pub device_node : Name → ℕ → ℕ → IoNode → ℕ → Node
device_node name node_no type device base_pointer = record {
  name = name;
  node_no = add32 node_no device.node_no;
  size = device.node_size;
  type_flags = type;
  specific_type = device.node_type;
  node_create = null;
  node_open = open_devfs;
  node_close = close_devfs;
  node_read = read_devfs;
  node_write = write_devfs;
  node_control = control_devfs;
  node_status = status_devfs;
  dir_read = null;
  dir_find = null;
  dir_list = null;
  base_pointer = base_pointer;
  tree_pointer = 0;
}

-- `linked_list_append(devices, node)`; on the address NULL it does nothing.
unfoldable pub append_device : Devfs → ℕ → Devfs
append_device d a = if d.devices == 0 then d else record d { entries = d.entries ++ (a ∷ []) }

-- `create_node_devfs`; the result 0 is NULL.
unfoldable pub create_node :
    IoNodes → Devfs → Vfs → ℕ → Option Name → ℕ → ℕ → Option (ℕ × Devfs × Vfs)
create_node io d v vfs_node none type base_pointer = some (0, d, v)
create_node io d v vfs_node (some name) type base_pointer =
    if (vfs_node == 0) || ((type == 0) || (base_pointer == 0)) then some (0, d, v) else do
      n ← load_node v vfs_node
      root ← load_node v d.root_node
      if not (n.node_no == root.node_no) then some (0, d, v) else do
        (a, v) ← kern_malloc v
        device ← load_io io base_pointer
        let v = set_node v a (some (device_node name n.node_no type device base_pointer))
        some (a, append_device d a, v)

-- `read_directory_devfs`; an access through the list at NULL is a failure.
unfoldable pub read_directory : Devfs → ℕ → ℕ → Option ℕ
read_directory d vfs_node entry_no =
    if (vfs_node == 0) || (slt32 entry_no 0 || not (vfs_node == d.root_node))
    then some 0
    else if d.devices == 0
    then none
    else some (get_or d.entries entry_no 0)

-- The loop of `find_in_directory_devfs`.
unfoldable pub find_device : Vfs → List ℕ → Name → Option ℕ
find_device v [] name = some 0
find_device v (a ∷ rest) name = do
  n ← load_node v a
  elim (same n.name name) [ true ↦ some a | false ↦ find_device v rest name ]

-- `find_in_directory_devfs` for a name that is not NULL. It passes over the first character, and reads
-- past the end of the empty string.
unfoldable pub find_in_directory : Devfs → Vfs → ℕ → Name → Option ℕ
unfolding find_device
find_in_directory d v vfs_node [] =
    if (vfs_node == 0) || not (vfs_node == d.root_node) then some 0 else none
find_in_directory d v vfs_node (c ∷ name) =
    if (vfs_node == 0) || not (vfs_node == d.root_node)
    then some 0
    else if d.devices == 0
    then none
    else find_device v d.entries name

-- `list_directory_devfs`: the nodes of the array; NULL is the empty list.
unfoldable pub list_directory : Devfs → ℕ → Option (List ℕ)
list_directory d vfs_node =
    if (vfs_node == 0) || not (vfs_node == d.root_node)
    then some []
    else if d.devices == 0
    then none
    else some d.entries
