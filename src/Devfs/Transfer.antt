-- ===== src/Devfs/Transfer.antt =====
-- Reading and writing a device through kernel/vfs/vfs.c and drivers/devfs/devfs.c.
use dbos.Base.{
  ℕ, ◌≡◌, ◌≢◌, refl, false, Option, some, ◌==◌, ==_ne, if◌then◌else◌, Bool-cases, inl, inr,
}
use dbos.Base.Word.{slt32}
use dbos.Vfs.{Name, Vfs}
use dbos.Vfs.Enter.{load_node_eq}
use dbos.Vfs.Dispatch.{minus, transfer, read_from_vfs_node, write_to_vfs_node}
use dbos.Devfs.{IoNode, IoNodes, load_io, device_node, call_device, read_node, write_node}

-- What a driver's function does to a device, its address, a start, a size and a buffer.
abbrev pub Transfer : Type 0 → Type 0
Transfer W = ℕ → ℕ → ℕ → ℕ → ℕ → W → Option (ℕ × W)

load_device :
    (io : IoNodes) (pointer : ℕ) (device : IoNode)
    → pointer ≢ 0
    → io pointer ≡ some device
    → load_io io pointer ≡ some device
unfolding load_io
load_device io pointer device np at_p = rw (==_ne pointer 0 np) at_p

module _ {W : Type 0} where
  -- The call of a node's `node_read` and `node_write` where devfs is one of the file systems.
  abbrev pub call_read : Transfer W → Transfer W → IoNodes → Vfs → Transfer W
  call_read read other io v function node start_at size buffer w =
      if function == 14
      then read_node read io v node start_at size buffer w
      else other function node start_at size buffer w

  abbrev pub call_write : Transfer W → Transfer W → IoNodes → Vfs → Transfer W
  call_write write other io v function node start_at size buffer w =
      if function == 15
      then write_node write io v node start_at size buffer w
      else other function node start_at size buffer w

  -- The checks on the way, in their order, and the driver's function at the end.
  abbrev pub checked : ℕ → ℕ → ℕ → (W → Option (ℕ × W)) → W → Option (ℕ × W)
  checked buffer size function call w =
      if buffer == 0
      then some (minus 3, w)
      else if slt32 size 0
      then some (minus 5, w)
      else if function == 0
      then some (minus 1, w)
      else call w

  module _ (read write other : Transfer W) (io : IoNodes) (v : Vfs) (a : ℕ) (name : Name)
      (node_no type pointer : ℕ) (device : IoNode) (na : a ≢ 0)
      (at_a : v.nodes a ≡ some (device_node name node_no type device pointer)) (np : pointer ≢ 0)
      (at_p : io pointer ≡ some device) where
    read_node_eq :
        (start size buffer : ℕ) (w : W)
        → (buffer == 0) ≡ false
        → read_node read io v a start size buffer w ≡ (
            if device.node_read == 0
            then some (minus 1, w)
            else read device.node_read pointer start size buffer w)
    unfolding read_node call_device
    read_node_eq start size buffer w e =
        rw
          (
            ==_ne a 0 na,
            e,
            load_node_eq v a (device_node name node_no type device pointer) na at_a,
            load_device io pointer device np at_p,
            read_node,
          )
          refl

    write_node_eq :
        (start size buffer : ℕ) (w : W)
        → (buffer == 0) ≡ false
        → write_node write io v a start size buffer w ≡ (
            if device.node_write == 0
            then some (minus 1, w)
            else write device.node_write pointer start size buffer w)
    unfolding write_node call_device
    write_node_eq start size buffer w e =
        rw
          (
            ==_ne a 0 na,
            e,
            load_node_eq v a (device_node name node_no type device pointer) na at_a,
            load_device io pointer device np at_p,
            write_node,
          )
          refl

    -- Reading and writing a node of devfs through the virtual file system: a NULL buffer gives -3, a
    -- negative size -5, a device whose driver has no such function -1, and anything else is the call of
    -- the driver's function with the device and the same start, size and buffer.
    pub transfer_device :
        (start size buffer : ℕ) (w : W)
        → (read_from_vfs_node (call_read read other io v) v a start size buffer w
            ≡ checked buffer size device.node_read
                (read device.node_read pointer start size buffer)
                w)
          × (write_to_vfs_node (call_write write other io v) v a start size buffer w
              ≡ checked buffer size device.node_write
                  (write device.node_write pointer start size buffer)
                  w)
    unfolding read_from_vfs_node write_to_vfs_node transfer
    transfer_device start size buffer w =
        let node = load_node_eq v a (device_node name node_no type device pointer) na at_a in
        elim (Bool-cases (buffer == 0)) [
          | inl empty ↦ (
            rw (==_ne a 0 na, node, empty, read_from_vfs_node) refl,
            rw (==_ne a 0 na, node, empty, write_to_vfs_node) refl,
          )
          | inr given ↦ (
            rw
                (
                  ==_ne a 0 na,
                  node,
                  given,
                  read_node_eq start size buffer w given,
                  read_from_vfs_node,
                )
                refl,
            rw
                (
                  ==_ne a 0 na,
                  node,
                  given,
                  write_node_eq start size buffer w given,
                  write_to_vfs_node,
                )
                refl,
          )
        ]
