-- ===== src/Queue/Tests.antt =====
-- Runs of the queue, and its theorems at a queue of three nodes.
use dbos.Base.{
  ◌≤◌, ◌<◌, ◌≡◌, refl, ◌≢◌, ◌⊎◌, inr, none, some, [], ◌∷◌, arith, ◌==◌, if◌then◌else◌, length,
}
use dbos.Nodes.{Nodes, node}
use dbos.Nodes.Linked.{Items}
use dbos.Queue.{Queue, unlimited, enqueue, dequeue, force_remove, has_room}
use dbos.Queue.Spec.{IsQueue}
use dbos.Queue.Order.{enqueue-IsQueue, dequeue-cons}
use dbos.Queue.Purge.{force_remove-without}

abbrev three_nodes : Nodes
three_nodes a =
    if a == 100
    then some (node 7 200 0)
    else if a == 200
    then some (node 8 300 100)
    else if a == 300
    then some (node 7 0 200)
    else none

abbrev three : Queue
three = record { len = 3; head = 100; tail = 300; limit = 4 }

abbrev items : Items
items = (100, 7) ∷ (200, 8) ∷ (300, 7) ∷ []

three-IsQueue : IsQueue three_nodes three items
three-IsQueue = record {
  linked = (omega arith, refl, (omega arith, refl, (omega arith, refl, tt)));
  distinct = omega arith;
  head_eq = refl;
  tail_eq = refl;
  len_eq = refl;
  small = omega arith;
}

-- A full queue refuses a node.
refused :
    enqueue three_nodes (some (record three { limit = 3 })) 400 9
    ≡ some (0, three_nodes, some (record three { limit = 3 }))
unfolding enqueue has_room
refused = refl

enqueue-IsQueue_example :
    (((three.limit ≡ unlimited) ⊎ (length items < 4))
      × ((c' : Nodes) × (q' : Queue) × (enqueue three_nodes (some three) 400 9
            ≡ some (400, c', some q'))
          × IsQueue c' q' ((100, 7) ∷ (200, 8) ∷ (300, 7) ∷ (400, 9) ∷ [])
          × (q'.limit ≡ 4)))
    ⊎ ((three.limit ≢ unlimited)
        × (4 ≤ length items)
        × (enqueue three_nodes (some three) 400 9 ≡ some (0, three_nodes, some three)))
enqueue-IsQueue_example =
    enqueue-IsQueue three_nodes three items 400 9 three-IsQueue (inr (omega arith)) (omega arith)
      (omega arith) (omega arith) (omega arith)

dequeue-cons_example :
    (c' : Nodes) × (q' : Queue) × (dequeue three_nodes (some three) ≡ some (7, c', some q'))
    × IsQueue c' q' ((200, 8) ∷ (300, 7) ∷ [])
    × (c' 100 ≡ none)
    × (q'.limit ≡ 4)
dequeue-cons_example = dequeue-cons three_nodes three 100 7 ((200, 8) ∷ (300, 7) ∷ []) three-IsQueue

force_remove-without_example :
    (c' : Nodes) × (q' : Queue) × (force_remove three_nodes (some three) 7 ≡ some (c', some q'))
    × IsQueue c' q' ((200, 8) ∷ [])
    × (q'.limit ≡ 4)
force_remove-without_example =
    force_remove-without three_nodes three items 7 three-IsQueue (omega arith)
