-- ===== src/LinkedList.antt =====
-- kernel/util/linked_list.c: the doubly linked lists of the kernel. An operation takes the nodes and
-- the list (`none` is the NULL list) and returns both where it changes them; `none` is an access
-- where no node is. `fresh` is the address that `kern_malloc` returns for a node. Indices and
-- lengths are `int`s, given as bit patterns.
pub mod Spec
pub mod Search
pub mod Insert
pub mod Place
pub mod Remove
pub mod Index
mod Tests
use dbos.Base.{
  ℕ, zero, suc, ◌+◌, ◌-◌, ◌%◌, ◌^◌, Bool, true, false, ◌&&◌, ◌||◌, Option, none, some, ltb, leb,
  ◌==◌, if◌then◌else◌, not,
}
use dbos.Base.Maybe.{◌>>=◌}
use dbos.Base.Word.{u32_mod, add32, sub32, slt32}
use dbos.Nodes.{Nodes, node, write, load, set_next, set_previous, free}

-- `lnk_lst_t`
pub record LinkedList : Type 0 where
  pub list_head : ℕ
  pub list_tail : ℕ
  pub list_length : ℕ

-- `linked_list_create`; `allocated` says whether `kern_malloc` returned memory.
pub create : Bool → Option LinkedList
create false = none
create true = some (record { list_head = 0; list_tail = 0; list_length = 0 })

-- The nodes that are left of a list are freed; the loop is on fuel.
destroy_loop : ℕ → Nodes → ℕ → Option Nodes
destroy_loop zero c p = none
destroy_loop (suc fuel) c p = elim (p == 0) [
  | true ↦ some c
  | false ↦ elim (load c p) [
    | none ↦ none
    | some n ↦ elim (free c p) [ none ↦ none | some c' ↦ destroy_loop fuel c' n.next ]
  ]
]

-- `linked_list_destroy`
pub destroy : Nodes → Option LinkedList → Option Nodes
unfolding destroy_loop
destroy c none = some c
destroy c (some l) = destroy_loop (l.list_length + 1) c l.list_head

-- `create_node` for a list and data that are not NULL; the memory comes zeroed, and what
-- `kern_malloc` returned is not tested.
pub create_node : Nodes → ℕ → ℕ → Option Nodes
create_node c fresh item = if fresh == 0 then none else some (write c fresh (some (node item 0 0)))

-- The branch for index 0.
pub insert_first : Nodes → LinkedList → ℕ → Option (Nodes × LinkedList)
insert_first c l fresh =
    if l.list_length == 0
    then some
        (c, record l { list_head = fresh; list_tail = fresh; list_length = add32 l.list_length 1 })
    else do
      c ← set_previous c fresh 0
      c ← set_next c fresh l.list_head
      c ← set_previous c l.list_head fresh
      some (c, record l { list_head = fresh; list_length = add32 l.list_length 1 })

-- The branch for an index at or behind the end.
pub insert_last : Nodes → LinkedList → ℕ → Option (Nodes × LinkedList)
insert_last c l fresh = do
  c ← set_next c l.list_tail fresh
  c ← set_previous c fresh l.list_tail
  c ← set_next c fresh 0
  some (c, record l { list_tail = fresh; list_length = add32 l.list_length 1 })

-- The loop that walks `index` nodes on, or to the end.
pub walk : ℕ → Nodes → ℕ → Option ℕ
walk zero c p = some p
walk (suc index) c p = elim (p == 0) [
  | true ↦ some p
  | false ↦ elim (load c p) [ none ↦ none | some n ↦ walk index c n.next ]
]

-- The branch for an index within the list.
pub insert_before : Nodes → LinkedList → ℕ → ℕ → Option (Nodes × LinkedList)
insert_before c l fresh index = do
  tmp_node ← walk index c l.list_head
  n ← load c tmp_node
  c ← set_next c n.previous fresh
  n ← load c tmp_node
  c ← set_previous c fresh n.previous
  c ← set_next c fresh tmp_node
  c ← set_previous c tmp_node fresh
  some (c, record l { list_length = add32 l.list_length 1 })

-- `linked_list_insert_at_index`; the first result is the node that it returns.
pub insert_at_index : Nodes → Option LinkedList → ℕ → ℕ → ℕ → Option (ℕ × Nodes × Option LinkedList)
insert_at_index c none fresh item index = some (0, c, none)
insert_at_index c (some l) fresh item index =
    if (item == 0) || slt32 index 0 then some (0, c, some l) else do
      c ← create_node c fresh item
      (c, l) ←
          (if index == 0
            then insert_first c l fresh
            else if not (slt32 index l.list_length)
            then insert_last c l fresh
            else insert_before c l fresh index)
      some (fresh, c, some l)

-- The new node becomes the last.
pub link_last : Nodes → LinkedList → ℕ → Option (Nodes × LinkedList)
link_last c l fresh =
    if (l.list_length == 0) && (l.list_head == 0)
    then (do
      c ← set_previous c fresh 0
      c ← set_next c fresh 0
      some (c, record l { list_head = fresh; list_tail = fresh }))
    else if slt32 0 l.list_length
    then (if l.list_head == l.list_tail
        then (do
          c ← set_next c l.list_head fresh
          c ← set_previous c fresh l.list_head
          c ← set_next c fresh 0
          some (c, record l { list_tail = fresh }))
        else do
          c ← set_next c l.list_tail fresh
          c ← set_previous c fresh l.list_tail
          some (c, record l { list_tail = fresh }))
    else some (c, l)

-- `linked_list_append`
pub append : Nodes → Option LinkedList → ℕ → ℕ → Option (ℕ × Nodes × Option LinkedList)
append c none fresh item = some (0, c, none)
append c (some l) fresh item = if item == 0 then some (0, c, some l) else do
  c ← create_node c fresh item
  (c, l) ← link_last c l fresh
  some (fresh, c, some (record l { list_length = add32 l.list_length 1 }))

-- The loop of `linked_list_find`, on fuel.
pub find_loop : ℕ → Nodes → ℕ → ℕ → Option ℕ
find_loop zero c p item = none
find_loop (suc fuel) c p item = elim (p == 0) [
  | true ↦ some 0
  | false ↦ elim (load c p) [
    | none ↦ none
    | some n ↦ elim (n.contents == item) [ true ↦ some p | false ↦ find_loop fuel c n.next item ]
  ]
]

-- `linked_list_find`; the address 0 is NULL.
pub find : Nodes → Option LinkedList → ℕ → Option ℕ
find c none item = some 0
find c (some l) item =
    if item == 0 then some 0 else find_loop (l.list_length + 1) c l.list_head item

-- The loop of `linked_list_get_at` for an index that is not negative; it ends at the index or at the
-- end of the list.
pub get_loop : ℕ → Nodes → ℕ → Option ℕ
get_loop zero c p = if p == 0 then some 0 else some p
get_loop (suc index) c p = elim (p == 0) [
  | true ↦ some 0
  | false ↦ elim (load c p) [ none ↦ none | some n ↦ get_loop index c n.next ]
]

-- `linked_list_get_at`
pub get_at : Nodes → Option LinkedList → ℕ → Option ℕ
get_at c none index = some 0
get_at c (some l) index = if slt32 index 0 then some 0 else get_loop index c l.list_head

-- The loop of `linked_list_index_of`, on fuel; `p` is node number `i`. The data of `target` is read
-- only where the addresses differ.
pub index_loop : ℕ → Nodes → ℕ → ℕ → ℕ → Option ℕ
index_loop zero c p i target = none
index_loop (suc fuel) c p i target = elim (p == 0) [
  | true ↦ some (u32_mod - 1)
  | false ↦ elim (p == target) [
    | true ↦ some i
    | false ↦ elim (load c p) [
      | none ↦ none
      | some n ↦ elim (load c target) [
        | none ↦ none
        | some t ↦ elim (n.contents == t.contents) [
          | true ↦ some i
          | false ↦ index_loop fuel c n.next (add32 i 1) target
        ]
      ]
    ]
  ]
]

-- `linked_list_index_of`
pub index_of : Nodes → Option LinkedList → ℕ → Option ℕ
index_of c none target = some (u32_mod - 1)
index_of c (some l) target =
    if target == 0
    then some (u32_mod - 1)
    else index_loop (l.list_length + 1) c l.list_head 0 target

-- The loop of `linked_list_remove` that looks for the node: where it stops, 0 at the end.
pub seek : ℕ → Nodes → ℕ → ℕ → Option ℕ
seek zero c p target = none
seek (suc fuel) c p target = elim (p == 0) [
  | true ↦ some 0
  | false ↦ elim (p == target) [
    | true ↦ some p
    | false ↦ elim (load c p) [ none ↦ none | some n ↦ seek fuel c n.next target ]
  ]
]

-- The node is taken out of the links.
pub unlink_node : Nodes → LinkedList → ℕ → Option (Nodes × LinkedList)
unlink_node c l p = do
  n ← load c p
  (if p == l.list_head
      then (if not (n.next == 0)
          then (do c ← set_previous c n.next 0; some (c, record l { list_head = n.next }))
          else some (c, record l { list_head = 0; list_tail = 0 }))
      else if p == l.list_tail
      then (do c ← set_next c n.previous 0; some (c, record l { list_tail = n.previous }))
      else do c ← set_next c n.previous n.next; c ← set_previous c n.next n.previous; some (c, l))

-- The node is taken out, cleared and freed.
pub drop_node : Nodes → LinkedList → ℕ → Option (Nodes × LinkedList)
drop_node c l p = do
  (c, l) ← unlink_node c l p
  c ← set_next c p 0
  c ← set_previous c p 0
  c ← free c p
  some (c, record l { list_length = sub32 l.list_length 1 })

-- `linked_list_remove`
pub remove : Nodes → Option LinkedList → ℕ → Option (Nodes × Option LinkedList)
remove c none p = some (c, none)
remove c (some l) p = if p == 0 then some (c, some l) else do
  tmp ← seek (l.list_length + 1) c l.list_head p
  (if tmp == p then (do (c, l) ← drop_node c l p; some (c, some l)) else some (c, some l))

-- The loop of `linked_list_remove_at_index`, which does not look for the end.
pub step : ℕ → Nodes → ℕ → Option ℕ
step zero c p = some p
step (suc index) c p = elim (load c p) [ none ↦ none | some n ↦ step index c n.next ]

-- `linked_list_remove_at_index`; a negative index walks no node.
pub remove_at_index : Nodes → Option LinkedList → ℕ → Option (Nodes × Option LinkedList)
unfolding step
remove_at_index c none index = some (c, none)
remove_at_index c (some l) index =
    if slt32 index l.list_length
    then (do head ← step (if slt32 index 0 then 0 else index) c l.list_head; remove c (some l) head)
    else some (c, some l)

-- `linked_list_traverse`, on fuel, with what the function does to the nodes and to a state of its
-- own.
traverse_loop :
    {E : Type 0}
    → ℕ
    → (ℕ → ℕ → Nodes → E → Option (Nodes × E))
    → Nodes
    → E
    → ℕ
    → ℕ
    → Option (Nodes × E)
traverse_loop zero function c e p i = none
traverse_loop (suc fuel) function c e p i = elim (p == 0) [
  | true ↦ some (c, e)
  | false ↦ elim (function p i c e) [
    | none ↦ none
    | some (c', e') ↦ elim (load c' p) [
      | none ↦ none
      | some n ↦ traverse_loop fuel function c' e' n.next (add32 i 1)
    ]
  ]
]
