-- ===== src/UserList/Tests.antt =====
-- Runs of the lists of the user programs.
use dbos.Base.{ℕ, ◌<◌, ◌≡◌, refl, ◌∷◌, [], some, none, arith, ◌==◌, if◌then◌else◌}
use dbos.Nodes.{Nodes, node}
use dbos.LinkedList.{LinkedList}
use dbos.LinkedList.Spec.{IsList}
use dbos.UserList.{list_append, list_get_at}
use dbos.UserList.Append.{list_append-list_get_at}

abbrev one_node : Nodes
one_node a = if a == 100 then some (node 7 0 0) else none

abbrev one : LinkedList
one = record { list_head = 100; list_tail = 100; list_length = 1 }

one-IsList : IsList one_node one ((100, 7) ∷ [])
one-IsList = record {
  linked = (omega arith, refl, tt);
  distinct = omega arith;
  head_eq = refl;
  tail_eq = refl;
  len_eq = refl;
  small = omega arith;
}

list_append-list_get_at_example :
    (c' : Nodes) × (l' : LinkedList) × (list_append one_node (some one) 200 9
      ≡ some (200, c', some l'))
    × (list_get_at c' (some l') 1 ≡ some 200)
    × ((i : ℕ) → i < 1 → list_get_at c' (some l') i ≡ list_get_at one_node (some one) i)
list_append-list_get_at_example =
    list_append-list_get_at one_node one ((100, 7) ∷ []) 200 9 one-IsList (omega arith)
      (omega arith) (omega arith) (omega arith)
