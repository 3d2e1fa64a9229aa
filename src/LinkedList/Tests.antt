-- ===== src/LinkedList/Tests.antt =====
-- Runs of the linked list, and its theorems at a list of three nodes.
use dbos.Base.{ℕ, true, ◌≡◌, refl, none, some, [], ◌∷◌, arith, ◌==◌, if◌then◌else◌}
use dbos.Nodes.{Nodes, node, load}
use dbos.Nodes.Linked.{Items}
use dbos.LinkedList.{
  LinkedList, find, get_at, index_of, append, insert_at_index, remove, create, find_loop,
}
use dbos.LinkedList.Spec.{IsList}
use dbos.LinkedList.Search.{index_of-get_at}
use dbos.LinkedList.Place.{append-IsList, insert_at_index-IsList}
use dbos.LinkedList.Remove.{remove-IsList}

abbrev three_nodes : Nodes
three_nodes a =
    if a == 100
    then some (node 7 200 0)
    else if a == 200
    then some (node 8 300 100)
    else if a == 300
    then some (node 9 0 200)
    else none

abbrev three : LinkedList
three = record { list_head = 100; list_tail = 300; list_length = 3 }

abbrev items : Items
items = (100, 7) ∷ (200, 8) ∷ (300, 9) ∷ []

three-IsList : IsList three_nodes three items
three-IsList = record {
  linked = (omega arith, refl, (omega arith, refl, (omega arith, refl, tt)));
  distinct = omega arith;
  head_eq = refl;
  tail_eq = refl;
  len_eq = refl;
  small = omega arith;
}

created : create true ≡ some (record { list_head = 0; list_tail = 0; list_length = 0 })
unfolding create
created = refl

found : find three_nodes (some three) 9 ≡ some 300
unfolding find find_loop load
found = refl

index_of-get_at_example :
    (index : ℕ) × (index_of three_nodes (some three) 200 ≡ some index)
    × (get_at three_nodes (some three) index ≡ some 200)
    × (index ≡ 1)
index_of-get_at_example =
    index_of-get_at three_nodes three ((100, 7) ∷ []) ((300, 9) ∷ []) 200 8 three-IsList
      (omega arith, tt)

append-IsList_example :
    (c' : Nodes) × (l' : LinkedList) × (append three_nodes (some three) 400 5
      ≡ some (400, c', some l'))
    × IsList c' l' ((100, 7) ∷ (200, 8) ∷ (300, 9) ∷ (400, 5) ∷ [])
append-IsList_example =
    append-IsList three_nodes three items 400 5 three-IsList (omega arith) (omega arith)
      (omega arith) (omega arith)

insert_at_index-IsList_example :
    (c' : Nodes) × (l' : LinkedList) × (insert_at_index three_nodes (some three) 400 5 1
      ≡ some (400, c', some l'))
    × IsList c' l' ((100, 7) ∷ (400, 5) ∷ (200, 8) ∷ (300, 9) ∷ [])
insert_at_index-IsList_example =
    insert_at_index-IsList three_nodes three ((100, 7) ∷ []) ((200, 8) ∷ (300, 9) ∷ []) 400 5
      three-IsList (omega arith) (omega arith) (omega arith) (omega arith)

remove-IsList_example :
    (c' : Nodes) × (l' : LinkedList) × (remove three_nodes (some three) 200 ≡ some (c', some l'))
    × IsList c' l' ((100, 7) ∷ (300, 9) ∷ [])
    × (c' 200 ≡ none)
remove-IsList_example =
    remove-IsList three_nodes three ((100, 7) ∷ []) ((300, 9) ∷ []) 200 8 three-IsList
