-- ===== src/Vfs/Dispatch.antt =====
-- kernel/vfs/vfs.c: the functions that check a request and pass it to the node's operation. What a
-- driver's operation does is an argument; an `int` is its bit pattern.
use dbos.Base.{ℕ, ◌-◌, ◌||◌, Option, none, some, List, [], ◌∷◌, ◌==◌, if◌then◌else◌}
use dbos.Base.Maybe.{◌>>=◌}
use dbos.Base.Word.{u32_mod, slt32}
use dbos.Vfs.{Name, Operation, null, stub_directory, driver, Vfs, load_node}
use dbos.Vfs.Find.{stub_readdir, stub_finddir, stub_listdir}

-- A negative `int`.
abbrev pub minus : ℕ → ℕ
minus n = u32_mod - n

module _ {W : Type 0} where
  -- The checks of `read_from_vfs_node` and `write_to_vfs_node`, and the call.
  unfoldable pub transfer : Operation → (ℕ → W → Option (ℕ × W)) → ℕ → ℕ → W → Option (ℕ × W)
  transfer null call size buffer w = some (minus 2, w)
  transfer stub_directory call size buffer w = none
  transfer (driver f) call size buffer w =
      if buffer == 0
      then some (minus 3, w)
      else if slt32 size 0
      then some (minus 5, w)
      else call f w

  -- `read_from_vfs_node`
  unfoldable pub read_from_vfs_node :
      (ℕ → ℕ → ℕ → ℕ → ℕ → W → Option (ℕ × W)) → Vfs → ℕ → ℕ → ℕ → ℕ → W → Option (ℕ × W)
  unfolding transfer
  read_from_vfs_node read v node start_at size buffer w =
      if node == 0 then some (minus 1, w) else do
        n ← load_node v node
        transfer n.node_read (λ f. read f node start_at size buffer) size buffer w

  -- `write_to_vfs_node`
  unfoldable pub write_to_vfs_node :
      (ℕ → ℕ → ℕ → ℕ → ℕ → W → Option (ℕ × W)) → Vfs → ℕ → ℕ → ℕ → ℕ → W → Option (ℕ × W)
  unfolding transfer
  write_to_vfs_node write v node start_at size buffer w =
      if node == 0 then some (minus 1, w) else do
        n ← load_node v node
        transfer n.node_write (λ f. write f node start_at size buffer) size buffer w

  -- The checks of `open_node_vfs` and `close_node_vfs`, and the call.
  unfoldable pub call_node : Operation → (ℕ → W → Option (ℕ × W)) → W → Option (ℕ × W)
  call_node null call w = some (minus 2, w)
  call_node stub_directory call w = none
  call_node (driver f) call w = call f w

  -- `open_node_vfs`
  unfoldable pub open_node_vfs : (ℕ → ℕ → W → Option (ℕ × W)) → Vfs → ℕ → W → Option (ℕ × W)
  unfolding call_node
  open_node_vfs call v node w =
      if node == 0
      then some (minus 1, w)
      else do n ← load_node v node; call_node n.node_open (λ f. call f node) w

  -- `close_node_vfs`
  unfoldable pub close_node_vfs : (ℕ → ℕ → W → Option (ℕ × W)) → Vfs → ℕ → W → Option (ℕ × W)
  unfolding call_node
  close_node_vfs call v node w =
      if node == 0
      then some (minus 1, w)
      else do n ← load_node v node; call_node n.node_close (λ f. call f node) w

  -- `control_vfs_node`
  unfoldable pub control_vfs_node :
      (ℕ → ℕ → ℕ → ℕ → W → Option (ℕ × W)) → Vfs → ℕ → ℕ → ℕ → W → Option (ℕ × W)
  control_vfs_node control v node command arguments w =
      if (node == 0) || (command == 0) then some (minus 1, w) else do
        n ← load_node v node
        elim n.node_control [
          | null ↦ some (minus 1, w)
          | stub_directory ↦ none
          | driver f ↦ control f node command arguments w
        ]

  -- `status_of_vfs_node`
  unfoldable pub status_of_vfs_node : (ℕ → ℕ → W → Option (ℕ × W)) → Vfs → ℕ → W → Option (ℕ × W)
  status_of_vfs_node status v node w = if node == 0 then some (0xFFFF_FFFF, w) else do
    n ← load_node v node
    elim n.node_status [
      | null ↦ some (0xFFFF_FFFF, w)
      | stub_directory ↦ none
      | driver f ↦ status f node w
    ]

  -- `create_node_vfs`, which does not test that the node has the operation.
  unfoldable pub create_node_vfs :
      (ℕ → ℕ → ℕ → ℕ → ℕ → W → Option (ℕ × W)) → Vfs → ℕ → ℕ → ℕ → ℕ → W → Option (ℕ × W)
  create_node_vfs create v node name type base_pointer w =
      if (node == 0) || ((name == 0) || ((type == 0) || (base_pointer == 0)))
      then some (0, w)
      else do
        n ← load_node v node
        elim n.node_create [
          | null ↦ none
          | stub_directory ↦ none
          | driver f ↦ create f node name type base_pointer w
        ]

-- `read_directory_vfs`
unfoldable pub read_directory_vfs : (ℕ → ℕ → ℕ → Option ℕ) → Vfs → ℕ → ℕ → Option ℕ
read_directory_vfs read v node entry_no = if (node == 0) || slt32 entry_no 0 then some 0 else do
  n ← load_node v node
  elim n.dir_read [
    | null ↦ some 0
    | stub_directory ↦ stub_readdir v n entry_no
    | driver f ↦ read f node entry_no
  ]

-- `find_in_directory_vfs` for a name that is not NULL.
unfoldable pub find_in_directory_vfs : (ℕ → ℕ → Name → Option ℕ) → Vfs → ℕ → Name → Option ℕ
find_in_directory_vfs find v node [] = some 0
find_in_directory_vfs find v node (c ∷ cs) = if node == 0 then some 0 else do
  n ← load_node v node
  elim n.dir_find [
    | null ↦ some 0
    | stub_directory ↦ stub_finddir v n (c ∷ cs)
    | driver f ↦ find f node (c ∷ cs)
  ]

-- `list_directory_vfs`; NULL is the empty list.
unfoldable pub list_directory_vfs : (ℕ → ℕ → Option (List ℕ)) → ℕ → Vfs → ℕ → Option (List ℕ)
list_directory_vfs list fuel v node = if node == 0 then some [] else do
  n ← load_node v node
  elim n.dir_list [
    | null ↦ some []
    | stub_directory ↦ stub_listdir fuel v n
    | driver f ↦ list f node
  ]
