-- ===== src/Nodes.antt =====
-- The doubly linked nodes of kernel/util/linked_list.c, kernel/util/queue.c and
-- libraries/liblist/liblist.c, at addresses. `none` is an access through NULL or through an address
-- that holds no node.
pub mod Linked
pub mod Edit
use dbos.Base.{ℕ, Option, none, some, ◌==◌, if◌then◌else◌}
use dbos.Base.Maybe.{◌>>=◌}

-- `lnk_lst_node_t`, `list_node_t` and `queue_node_t`
pub record Node : Type 0 where
  pub contents : ℕ
  pub next : ℕ
  pub previous : ℕ

abbrev pub node : ℕ → ℕ → ℕ → Node
node contents next previous = record { contents = contents; next = next; previous = previous }

abbrev pub Nodes : Type 0
Nodes = ℕ → Option Node

unfoldable pub write : Nodes → ℕ → Option Node → Nodes
write c p v a = if a == p then v else c a

-- `*p`
unfoldable pub load : Nodes → ℕ → Option Node
load c p = if p == 0 then none else c p

-- `p->next = q`
unfoldable pub set_next : Nodes → ℕ → ℕ → Option Nodes
set_next c p q = do n ← load c p; some (write c p (some (record n { next = q })))

-- `p->previous = q`
unfoldable pub set_previous : Nodes → ℕ → ℕ → Option Nodes
set_previous c p q = do n ← load c p; some (write c p (some (record n { previous = q })))

-- The memory of the node is given back; an access afterwards is a failure.
unfoldable pub free : Nodes → ℕ → Option Nodes
free c p = do n ← load c p; some (write c p none)
