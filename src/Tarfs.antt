-- ===== src/Tarfs.antt =====
-- drivers/tarfs/tarfs.c: the file system of tar archives, without its search through the archive:
-- mounting, the fields of a header, the node of a file and reading it. The archive stands in the bytes
-- of the memory.
pub mod Size
pub mod Read
mod Tests
use dbos.Base.{
  ℕ, zero, suc, ◌+◌, ◌-◌, ◌*◌, ◌%◌, ◌^◌, Bool, true, false, not, ◌&&◌, ◌||◌, Option, none, some, [],
  ◌∷◌, ltb, leb, ◌==◌, if◌then◌else◌,
}
use dbos.Base.Maybe.{◌>>=◌}
use dbos.Base.Word.{u32_mod, add32, sub32, slt32}
use dbos.Memory.{memcpy_8}
use dbos.Strings.{Bytes}
use dbos.Vfs.{
  Name, Operation, null, driver, Node, Vfs, load_node, set_node, kern_malloc, get_node_no,
  mount_in_vfs, get_filesystem_id, register_filesystem,
}
use dbos.Vfs.Find.{mount_filesystem}

abbrev file_type : ℕ
file_type = 0x04

abbrev link_type : ℕ
link_type = 0x02

abbrev character_type : ℕ
character_type = 0x10

abbrev block_type : ℕ
block_type = 0x08

abbrev pub directory_type : ℕ
directory_type = 0x20

abbrev fifo_type : ℕ
fifo_type = 0x40

-- `get_type_flags`
unfoldable get_type_flags : ℕ → ℕ
get_type_flags flag =
    if (flag == 48) || (flag == 0)
    then file_type
    else if (flag == 49) || (flag == 50)
    then link_type
    else if flag == 51
    then character_type
    else if flag == 52
    then block_type
    else if flag == 53
    then directory_type
    else if flag == 54
    then fifo_type
    else 0

-- A `char` as an `int`.
abbrev pub char_value : ℕ → ℕ
char_value c = if ltb c 128 then c else c + u32_mod - 256

-- The loop of `get_file_size_tarfs`, with the characters that are left.
unfoldable pub size_loop : ℕ → Bytes → ℕ → ℕ → ℕ
size_loop zero m size file_size = file_size
size_loop (suc left) m size file_size =
    let c = m size in
    size_loop left m (add32 size 1) (
      if (c == 0) || (c == 32)
      then file_size
      else add32 (file_size * 8 % u32_mod) (sub32 (char_value c) 48))

-- `get_file_size_tarfs`
unfoldable pub get_file_size : Bytes → ℕ → ℕ
get_file_size m size = size_loop 12 m size 0

-- `read_node_tarfs`; the result is an `int`, given as its bit pattern, with the memory.
unfoldable pub read_node : Bytes → Node → ℕ → ℕ → ℕ → ℕ × Bytes
read_node m vfs_node start_at size buffer =
    if vfs_node.base_pointer == 0
    then (u32_mod - 1, m)
    else if not (vfs_node.type_flags == directory_type)
        && (leb vfs_node.size start_at || slt32 start_at 0)
    then (u32_mod - 1, m)
    else let len =
        if ltb (sub32 vfs_node.size 1) (add32 start_at size)
        then sub32 vfs_node.size start_at
        else size in
      (len, memcpy_8 m buffer (add32 vfs_node.base_pointer start_at) len)

-- The pointers to the operations of this driver.
abbrev open_tarfs : Operation
open_tarfs = driver 1

abbrev close_tarfs : Operation
close_tarfs = driver 2

abbrev read_tarfs : Operation
read_tarfs = driver 3

abbrev write_tarfs : Operation
write_tarfs = driver 4

abbrev read_directory_tarfs : Operation
read_directory_tarfs = driver 5

abbrev find_in_directory_tarfs : Operation
find_in_directory_tarfs = driver 6

abbrev list_directory_tarfs : Operation
list_directory_tarfs = driver 7

-- The node that `mount_tarfs` fills, with the device's size and base pointer; `kern_malloc` clears the
-- other fields.
abbrev pub tarfs_root : Name → ℕ → ℕ → ℕ → Node
tarfs_root mountpoint node_no size base_pointer = record {
  name = mountpoint;
  node_no = node_no;
  size = size;
  type_flags = directory_type;
  specific_type = 0;
  node_create = null;
  node_open = open_tarfs;
  node_close = close_tarfs;
  node_read = read_tarfs;
  node_write = write_tarfs;
  node_control = null;
  node_status = null;
  dir_read = read_directory_tarfs;
  dir_find = find_in_directory_tarfs;
  dir_list = list_directory_tarfs;
  base_pointer = base_pointer;
  tree_pointer = 0;
}

-- `mount_tarfs`; `io_base` holds the field `base_pointer` of the `io_node_t` at an address.
unfoldable pub mount_tarfs : (ℕ → ℕ) → Vfs → ℕ → Name → Option (ℕ × Vfs)
mount_tarfs io_base v device mountpoint = do
  (root_node, v) ← kern_malloc v
  let (node_no, v) = get_node_no v
  d ← load_node v device
  let root = tarfs_root mountpoint node_no d.size (io_base d.base_pointer)
  mount_in_vfs (set_node v root_node (some root)) root_node mountpoint

-- The string at an address, `none` where it does not end within the fuel.
unfoldable string_at : ℕ → Bytes → ℕ → Option Name
string_at zero m a = none
string_at (suc fuel) m a =
    let rest = string_at fuel m (add32 a 1) in
    if m a == 0 then some [] else do s ← rest; some (m a ∷ s)

-- `build_node_tarfs` for the header and the contents of a `tarfs_file_t`.
unfoldable build_node : Bytes → Vfs → ℕ → ℕ → Option (ℕ × Vfs)
unfolding string_at
build_node m v header file_contents = do
  (a, v) ← kern_malloc v
  name ← string_at 512 m header
  some (
    a,
    set_node v a (
        some (record (tarfs_root name 0 (get_file_size m (add32 header 124)) file_contents) {
          type_flags = get_type_flags (m (add32 header 156));
        })),
  )

-- `open_node_tarfs`, `close_node_tarfs` and `write_node_tarfs`
unfoldable open_node : Node → ℕ → ℕ
open_node vfs_node flags = 0

unfoldable close_node : Node → ℕ → ℕ
close_node vfs_node flags = 0

unfoldable write_node : Node → ℕ → ℕ → ℕ → ℕ
write_node vfs_node start_at size buffer = 0

-- `create_tarfs_filesystem`; `find` is what the drivers find, `written` the string of a number, and
-- `function` the address of `mount_tarfs`, which is not NULL. `other` are the other filesystems.
unfoldable create_filesystem :
    (ℕ → ℕ → Name → Option ℕ)
    → (ℕ → ℕ → Name → Vfs → Option (ℕ × Vfs))
    → (ℕ → Name)
    → (ℕ → ℕ)
    → ℕ
    → Vfs
    → Option Name
    → Option Name
    → Option (ℕ × Vfs)
unfolding get_filesystem_id register_filesystem mount_filesystem mount_tarfs
create_filesystem find other written io_base function v none mountpoint =
    some (0, (get_filesystem_id written v).1)
create_filesystem find other written io_base function v (some device) none =
    some (0, (get_filesystem_id written v).1)
create_filesystem find other written io_base function v (some device) (some mountpoint) =
    let (id, v) = get_filesystem_id written v in
    let mount = λ (f node : ℕ) (path : Name) (w : Vfs).
      if f == function then mount_tarfs io_base w node path else other f node path w in
    mount_filesystem find mount (register_filesystem v (some id) function) (some id)
      (some mountpoint) (some device)
