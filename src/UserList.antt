-- ===== src/UserList.antt =====
-- libraries/liblist/liblist.c, the lists of the user programs: the code of kernel/util/linked_list.c
-- under other names, with `malloc` and `free` of the C library for the kernel's; the memory that
-- `malloc` returns comes zeroed too.
pub mod Append
mod Tests
use dbos.Base.{ℕ, Bool, Option}
use dbos.Nodes.{Nodes}
use dbos.LinkedList

abbrev list_create : Bool → Option LinkedList.LinkedList
list_create = LinkedList.create

abbrev list_destroy : Nodes → Option LinkedList.LinkedList → Option Nodes
list_destroy = LinkedList.destroy

abbrev create_node : Nodes → ℕ → ℕ → Option Nodes
create_node = LinkedList.create_node

abbrev list_insert_at_index :
    Nodes
    → Option LinkedList.LinkedList
    → ℕ
    → ℕ
    → ℕ
    → Option (ℕ × Nodes × Option LinkedList.LinkedList)
list_insert_at_index = LinkedList.insert_at_index

abbrev pub list_append :
    Nodes → Option LinkedList.LinkedList → ℕ → ℕ → Option (ℕ × Nodes × Option LinkedList.LinkedList)
list_append = LinkedList.append

abbrev list_find : Nodes → Option LinkedList.LinkedList → ℕ → Option ℕ
list_find = LinkedList.find

abbrev pub list_get_at : Nodes → Option LinkedList.LinkedList → ℕ → Option ℕ
list_get_at = LinkedList.get_at

abbrev list_index_of : Nodes → Option LinkedList.LinkedList → ℕ → Option ℕ
list_index_of = LinkedList.index_of

abbrev list_remove :
    Nodes → Option LinkedList.LinkedList → ℕ → Option (Nodes × Option LinkedList.LinkedList)
list_remove = LinkedList.remove

abbrev list_remove_at_index :
    Nodes → Option LinkedList.LinkedList → ℕ → Option (Nodes × Option LinkedList.LinkedList)
list_remove_at_index = LinkedList.remove_at_index
