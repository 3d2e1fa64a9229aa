-- ===== src/Queue/Order.antt =====
-- Theorems on `queue_enqueue` and `queue_dequeue` of kernel/util/queue.c.
use dbos.Base.{
  ℕ, ◌+◌, ◌^◌, ◌≤◌, ◌<◌, ◌≡◌, refl, sym, ◌∙◌, ◌≢◌, ◌⊎◌, inl, inr, false, ◌||◌, none, some, [], ◌∷◌,
  ◌++◌, arith, ltb, ◌==◌, ==_ne, if◌then◌else◌, length, length-append, Bool-cases, and_false,
  or_true, or_swap,
}
use dbos.Base.Maybe.{◌>>=◌}
use dbos.Base.Word.{add32, sub32, slt32-ltb}
use dbos.Nodes.{Nodes, node, write, load, set_next, set_previous, free}
use dbos.Nodes.Linked.{
  Items, last, Away, Distinct, write_self, load-some, Linked-frame, Linked-join, last-append,
  append-Away,
}
use dbos.Nodes.Edit.{set_next-last, set_previous-first}
use dbos.Queue.{Queue, unlimited, has_room, link_tail, enqueue, unlink_head, dequeue}
use dbos.Queue.Spec.{IsQueue}

pub append-Distinct :
    (xs : Items) (p d : ℕ) → Distinct xs → Away p xs → Distinct (xs ++ ((p, d) ∷ []))
append-Distinct [] p d u a = (tt, tt)
append-Distinct ((q, e) ∷ xs) p d u a =
    (append-Away q xs ((p, d) ∷ []) u.0 ((λ eq. a.0 (sym eq)), tt), append-Distinct xs p d u.1 a.1)

link_tail-IsQueue :
    (c : Nodes) (q : Queue) (xs : Items) (fresh item : ℕ)
    → IsQueue c q xs
    → fresh ≢ 0
    → Away fresh xs
    → length xs + 1 < 2 ^ 31
    → (c' : Nodes) × (q' : Queue) × (link_tail c q fresh item ≡ some (c', q'))
      × IsQueue c' q' (xs ++ ((fresh, item) ∷ []))
      × (q'.limit ≡ q.limit)
unfolding link_tail
link_tail-IsQueue c q [] fresh item v ne away room = (
  write c fresh (some (node item 0 0)),
  record q { head = fresh; tail = fresh; len = add32 q.len 1 },
  ground (arith, v.head_eq, v.tail_eq),
  record {
    linked = (ne, write_self c fresh _, tt);
    distinct = (tt, tt);
    head_eq = refl;
    tail_eq = refl;
    len_eq = omega (arith, v.len_eq);
    small = omega arith;
  },
  refl,
)
link_tail-IsQueue c q ((p, d) ∷ xs) fresh item v ne away room =
    let l = last 0 ((p, d) ∷ xs) in
    let (c1, run, linked, same) = set_next-last c 0 0 fresh p d xs v.linked v.distinct in
    let run' : set_next c q.tail fresh ≡ some c1 = rw v.tail_eq run in
    let new = some (node item 0 q.tail) in
    (
      write c1 fresh (some (node item 0 q.tail)),
      record q { tail = fresh; len = add32 q.len 1 },
      link_eq c c1 q fresh item (rw v.head_eq (==_ne p 0 v.linked.0)) run',
      record {
        linked =
            Linked-join (write c1 fresh new) 0 0 ((p, d) ∷ xs) ((fresh, item) ∷ [])
              (Linked-frame c1 fresh 0 fresh new ((p, d) ∷ xs) away linked)
              (ne, rw (← v.tail_eq) (write_self c1 fresh new), tt);
        distinct = append-Distinct ((p, d) ∷ xs) fresh item v.distinct away;
        head_eq = v.head_eq;
        tail_eq = sym (last-append p xs ((fresh, item) ∷ []));
        len_eq = omega (arith, v.len_eq, length-append {0} xs ((fresh, item) ∷ []));
        small = omega (arith, length-append {0} xs ((fresh, item) ∷ []));
      },
      refl,
    )
  where
    link_eq :
        (c c1 : Nodes) (q : Queue) (fresh item : ℕ)
        → (q.head == 0) ≡ false
        → set_next c q.tail fresh ≡ some c1
        → link_tail c q fresh item
          ≡ some (
            write c1 fresh (some (node item 0 q.tail)),
            record q { tail = fresh; len = add32 q.len 1 },
          )
    link_eq c c1 q fresh item e run = rw (e, run)

-- The limit is -1 or a number that is not negative.
abbrev pub IsLimit : ℕ → Type 0
IsLimit limit = (limit ≡ unlimited) ⊎ (limit < 2 ^ 31)

has_room_eq :
    (c : Nodes) (q : Queue) (xs : Items)
    → IsQueue c q xs
    → IsLimit q.limit
    → has_room q ≡ ((q.limit == unlimited) || ltb (length xs) q.limit)
unfolding has_room
has_room_eq c q xs v (inl e) = rw (e, or_true)
has_room_eq c q xs v (inr small) =
    rw (v.len_eq, slt32-ltb (length xs) q.limit v.small small)
      (or_swap (ltb (length xs) q.limit) (q.limit == unlimited))

enqueue_eq :
    (c : Nodes) (q : Queue) (fresh item : ℕ)
    → item ≢ 0
    → fresh ≢ 0
    → enqueue c (some q) fresh item ≡ (
        if has_room q
        then link_tail c q fresh item >>= (λ r. some (fresh, r.0, some r.1))
        else some (0, c, some q))
unfolding enqueue
enqueue_eq c q fresh item hi hf = rw (==_ne item 0 hi, ==_ne fresh 0 hf)

-- Enqueueing data that is not NULL, with a new node: below the limit, or with no limit, the node
-- becomes the last of the queue and is returned; at the limit nothing changes and NULL is returned.
pub enqueue-IsQueue :
    (c : Nodes) (q : Queue) (xs : Items) (fresh item : ℕ)
    → IsQueue c q xs
    → IsLimit q.limit
    → item ≢ 0
    → fresh ≢ 0
    → Away fresh xs
    → length xs + 1 < 2 ^ 31
    → (((q.limit ≡ unlimited) ⊎ (length xs < q.limit))
        × ((c' : Nodes) × (q' : Queue) × (enqueue c (some q) fresh item ≡ some (fresh, c', some q'))
            × IsQueue c' q' (xs ++ ((fresh, item) ∷ []))
            × (q'.limit ≡ q.limit)))
      ⊎ ((q.limit ≢ unlimited)
          × (q.limit ≤ length xs)
          × (enqueue c (some q) fresh item ≡ some (0, c, some q)))
enqueue-IsQueue c q xs fresh item v lim hi hf away small =
    elim (Bool-cases ((q.limit == unlimited) || ltb (length xs) q.limit)) [
      | inl t ↦
          let (c', q', run, v', same) = link_tail-IsQueue c q xs fresh item v hf away small in
          inl (
            ground arith,
            (
              c',
              q',
              enqueue_eq c q fresh item hi hf ∙ rw (has_room_eq c q xs v lim, t, run) refl,
              v',
              same,
            ),
          )
      | inr t ↦ inr (
        ground arith,
        ground arith,
        enqueue_eq c q fresh item hi hf ∙ rw (has_room_eq c q xs v lim, t) refl,
      )
    ]

unlink_head-one :
    (c : Nodes) (q : Queue) (p d : ℕ)
    → IsQueue c q ((p, d) ∷ [])
    → unlink_head c q ≡ some (c, record q { head = 0; tail = 0 })
unfolding unlink_head
unlink_head-one c q p d v = ground (arith, v.head_eq, v.tail_eq, v.len_eq)

unlink_head-more :
    (c c' : Nodes) (q : Queue) (p d p' d' : ℕ) (xs : Items)
    → IsQueue c q ((p, d) ∷ (p', d') ∷ xs)
    → set_previous c p' 0 ≡ some c'
    → unlink_head c q ≡ some (c', record q { head = p' })
unfolding unlink_head
unlink_head-more c c' q p d p' d' xs v run =
    let many : (q.len == 1) ≡ false = ground (arith, v.len_eq) in
    let at : load c q.head ≡ some (node d p' 0) =
      rw v.head_eq (load-some c p v.linked.0 ∙ v.linked.1) in
    rw (many, and_false, at, run, unlink_head)

dequeue_eq :
    (c c' : Nodes) (q q' : Queue) (p d n b : ℕ)
    → q.head ≡ p
    → p ≢ 0
    → unlink_head c q ≡ some (c', q')
    → c' p ≡ some (node d n b)
    → dequeue c (some q) ≡ some (d, write c' p none, some (record q' { len = sub32 q.len 1 }))
unfolding dequeue free
dequeue_eq c c' q q' p d n b e ne run at =
    let some_head : (q.head == 0) ≡ false = rw e (==_ne p 0 ne) in
    let here : load c' q.head ≡ some (node d n b) = rw e (load-some c' p ne ∙ at) in
    rw (some_head, run, here, e, dequeue)

-- From an empty queue NULL is returned, and nothing changes.
dequeue-nil : (c : Nodes) (q : Queue) → IsQueue c q [] → dequeue c (some q) ≡ some (0, c, some q)
unfolding dequeue
dequeue-nil c q v = rw (v.head_eq, dequeue)

-- Dequeueing from a queue with nodes returns the data of the oldest one and frees that node; the
-- queue then holds the rest in the same order, with the limit it had.
pub dequeue-cons :
    (c : Nodes) (q : Queue) (p d : ℕ) (xs : Items)
    → IsQueue c q ((p, d) ∷ xs)
    → (c' : Nodes) × (q' : Queue) × (dequeue c (some q) ≡ some (d, c', some q'))
      × IsQueue c' q' xs
      × (c' p ≡ none)
      × (q'.limit ≡ q.limit)
dequeue-cons c q p d [] v = (
  write c p none,
  record q { head = 0; tail = 0; len = sub32 q.len 1 },
  dequeue_eq c c q (record q { head = 0; tail = 0 }) p d 0 0 v.head_eq v.linked.0
      (unlink_head-one c q p d v) v.linked.1,
  record {
    linked = tt;
    distinct = tt;
    head_eq = refl;
    tail_eq = refl;
    len_eq = omega (arith, v.len_eq);
    small = omega arith;
  },
  write_self c p none,
  refl,
)
dequeue-cons c q p d ((p', d') ∷ xs) v =
    let (c1, run, linked, same) = set_previous-first c p 0 0 p' d' xs v.linked.2 v.distinct.1 in
    (
      write c1 p none,
      record q { head = p'; len = sub32 q.len 1 },
      dequeue_eq c c1 q (record q { head = p' }) p d p' 0 v.head_eq v.linked.0
          (unlink_head-more c c1 q p d p' d' xs v run) (same p v.distinct.0.0 ∙ v.linked.1),
      record {
        linked = Linked-frame c1 p 0 0 none ((p', d') ∷ xs) v.distinct.0 linked;
        distinct = v.distinct.1;
        head_eq = refl;
        tail_eq = v.tail_eq;
        len_eq = omega (arith, v.len_eq, v.small);
        small = omega (arith, v.small);
      },
      write_self c1 p none,
      refl,
    )
