-- ===== src/Queue.antt =====
-- kernel/util/queue.c: the queues of the scheduler, as linked nodes. An operation takes the nodes
-- and the queue (`none` is the NULL queue) and returns both; `none` is an access where no node is.
pub mod Spec
pub mod Order
pub mod Purge
mod Tests
use dbos.Base.{
  ℕ, zero, suc, ◌+◌, ◌-◌, ◌%◌, ◌^◌, Bool, true, false, ◌&&◌, ◌||◌, Option, none, some, ltb, ◌==◌,
  if◌then◌else◌,
}
use dbos.Base.Maybe.{◌>>=◌}
use dbos.Base.Word.{u32_mod, add32, sub32, slt32}
use dbos.Nodes.{Nodes, node, write, load, set_next, set_previous, free}

-- `queue_t`; `length` and `limit` are `int`s, given as bit patterns.
pub record Queue : Type 0 where
  pub len : ℕ
  pub head : ℕ
  pub tail : ℕ
  pub limit : ℕ

-- The limit -1, which stands for no limit.
abbrev pub unlimited : ℕ
unlimited = u32_mod - 1

-- `create_queue`; `allocated` says whether `kern_malloc` returned memory.
pub create_queue : Bool → ℕ → Option Queue
create_queue false limit = none
create_queue true limit = some (record { len = 0; head = 0; tail = 0; limit = limit })

-- The test of `queue_enqueue` for room.
has_room : Queue → Bool
has_room q = slt32 q.len q.limit || (q.limit == unlimited)

-- The node is linked in behind the tail.
link_tail : Nodes → Queue → ℕ → ℕ → Option (Nodes × Queue)
link_tail c q fresh item =
    if (q.head == 0) && (q.tail == 0)
    then some (
      write c fresh (some (node item 0 0)),
      record q { head = fresh; tail = fresh; len = add32 q.len 1 },
    )
    else do
      c ← set_next c q.tail fresh
      some (
        write c fresh (some (node item 0 q.tail)),
        record q { tail = fresh; len = add32 q.len 1 },
      )

-- `queue_enqueue`; `fresh` is what `kern_malloc` returns, and the first result what the function
-- returns. A node that is refused is allocated and freed again, which leaves the nodes as they were.
pub enqueue : Nodes → Option Queue → ℕ → ℕ → Option (ℕ × Nodes × Option Queue)
enqueue c none fresh item = some (0, c, none)
enqueue c (some q) fresh item =
    if item == 0
    then some (0, c, some q)
    else if fresh == 0
    then some (0, c, some q)
    else if has_room q
    then (do (c', q') ← link_tail c q fresh item; some (fresh, c', some q'))
    else some (0, c, some q)

-- The head is taken out of the links.
unlink_head : Nodes → Queue → Option (Nodes × Queue)
unlink_head c q =
    if (q.head == q.tail) && (q.len == 1)
    then some (c, record q { head = 0; tail = 0 })
    else do n ← load c q.head; c ← set_previous c n.next 0; some (c, record q { head = n.next })

-- `queue_dequeue`; the first result is the data that it returns.
pub dequeue : Nodes → Option Queue → Option (ℕ × Nodes × Option Queue)
dequeue c none = some (0, c, none)
dequeue c (some q) = if q.head == 0 then some (0, c, some q) else do
  (c', q') ← unlink_head c q
  n ← load c' q.head
  c'' ← free c' q.head
  some (n.contents, c'', some (record q' { len = sub32 q.len 1 }))

-- The node at `p` is taken out of the links.
unlink : Nodes → Queue → ℕ → Option (Nodes × Queue)
unlink c q p =
    if q.len == 1
    then some (c, record q { head = 0; tail = 0 })
    else if p == q.head
    then (do n ← load c p; c ← set_previous c n.next 0; some (c, record q { head = n.next }))
    else if p == q.tail
    then (do n ← load c p; c ← set_next c n.previous 0; some (c, record q { tail = n.previous }))
    else do
      n ← load c p
      c ← set_next c n.previous n.next
      c ← set_previous c n.next n.previous
      some (c, q)

-- The body of the loop of `queue_force_remove` for a node with the data that is looked for.
remove_node : Nodes → Queue → ℕ → Option (Nodes × Queue)
remove_node c q p = do
  (c', q') ← unlink c q p
  c'' ← free c' p
  some (c'', record q' { len = sub32 q'.len 1 })

-- The loop, on fuel.
remove_loop : ℕ → Nodes → Queue → ℕ → ℕ → Option (Nodes × Queue)
remove_loop zero c q p item = none
remove_loop (suc fuel) c q p item = elim (p == 0) [
  | true ↦ some (c, q)
  | false ↦ elim (load c p) [
    | none ↦ none
    | some n ↦ elim (n.contents == item) [
      | false ↦ remove_loop fuel c q n.next item
      | true ↦ elim (remove_node c q p) [
        | none ↦ none
        | some (c', q') ↦ remove_loop fuel c' q' n.next item
      ]
    ]
  ]
]

-- `queue_force_remove`; a node for each item is enough fuel.
pub force_remove : Nodes → Option Queue → ℕ → Option (Nodes × Option Queue)
force_remove c none item = some (c, none)
force_remove c (some q) item =
    if (item == 0) || (q.len == 0)
    then some (c, some q)
    else do (c', q') ← remove_loop (q.len + 1) c q q.head item; some (c', some q')

-- `queue_is_empty`; `none` is -1.
pub is_empty : Option Queue → Option ℕ
is_empty none = none
is_empty (some q) = some (if slt32 0 q.len then 0 else 1)
