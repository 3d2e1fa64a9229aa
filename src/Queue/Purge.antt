-- ===== src/Queue/Purge.antt =====
-- Theorems on `queue_force_remove` of kernel/util/queue.c.
use dbos.Base.{
  ℕ, zero, suc, ◌+◌, ◌<◌, ◌≡◌, refl, sym, ◌∙◌, ap, ◌≢◌, inl, inr, true, false, none, some, [], ◌∷◌,
  ◌++◌, arith, ◌==◌, ==_ne, ==_refl, length, length-append, Bool-cases, or_true,
}
use dbos.Base.Word.{sub32}
use mathlib.Core.List.{append_assoc}
use dbos.Nodes.{Nodes, node, write, load, free}
use dbos.Nodes.Linked.{
  Items, first, last, Linked, Away, Distinct, load-some, Linked-frame, Linked-join, Linked-split,
  last-append, Distinct-mid, Distinct-left, Distinct-right, last-Away,
}
use dbos.Nodes.Edit.{Linked-same, ne-last, set_next-last, set_previous-first}
use dbos.Queue.{Queue, unlink, remove_node, remove_loop, force_remove}
use dbos.Queue.Spec.{IsQueue, without}

-- The links pass by the node at `p`, which still is a node.
record PassesBy (c c' : Nodes) (q q' : Queue) (xs ys : Items) (p : ℕ) : Type 0 where
  pub run : unlink c q p ≡ some (c', q')
  pub left : Linked c' 0 xs (first ys 0)
  pub right : Linked c' (last 0 xs) ys 0
  pub here : c' p ≡ c p
  pub head_eq : q'.head ≡ first (xs ++ ys) 0
  pub tail_eq : q'.tail ≡ last 0 (xs ++ ys)
  pub len_eq : q'.len ≡ q.len

-- The facts about a queue with the node at `p` in it.
module _ (c : Nodes) (q : Queue) (xs ys : Items) (p d : ℕ)
    (v : IsQueue c q (xs ++ ((p, d) ∷ ys))) where
  at_p : (p ≢ 0) × (c p ≡ some (node d (first ys 0) (last 0 xs)))
  at_p = let (l, r) = Linked-split c 0 0 xs ((p, d) ∷ ys) v.linked in (r.0, r.1)

  load_p : load c p ≡ some (node d (first ys 0) (last 0 xs))
  load_p = load-some c p at_p.0 ∙ at_p.1

  left_p : Linked c 0 xs p
  left_p = (Linked-split c 0 0 xs ((p, d) ∷ ys) v.linked).0

  right_p : Linked c p ys 0
  right_p = (Linked-split c 0 0 xs ((p, d) ∷ ys) v.linked).1.2

  mid : Away p xs × Away p ys × Distinct (xs ++ ys)
  mid = Distinct-mid xs ys p d v.distinct

  len_all : q.len ≡ length xs + length ys + 1
  len_all = omega (arith, v.len_eq, length-append {0} xs ((p, d) ∷ ys))

  finish :
      {c' : Nodes} {q' : Queue}
      → PassesBy c c' q q' xs ys p
      → (c'' : Nodes) × (q'' : Queue) × (remove_node c q p ≡ some (c'', q''))
        × IsQueue c'' q'' (xs ++ ys)
        × (q''.limit ≡ q'.limit)
  unfolding remove_node free
  finish {c'} {q'} b =
      let there : load c' p ≡ some (node d (first ys 0) (last 0 xs)) =
        load-some c' p at_p.0 ∙ b.here ∙ at_p.1 in
      (
        write c' p none,
        record q' { len = sub32 q'.len 1 },
        rw (b.run, there, remove_node),
        record {
          linked =
              Linked-join (write c' p none) 0 0 xs ys
                (Linked-frame c' p 0 (first ys 0) none xs mid.0 b.left)
                (Linked-frame c' p (last 0 xs) 0 none ys mid.1 b.right);
          distinct = mid.2;
          head_eq = b.head_eq;
          tail_eq = b.tail_eq;
          len_eq = omega (arith, b.len_eq, len_all, v.small, v.len_eq, length-append {0} xs ys);
          small = omega (arith, len_all, v.small, v.len_eq, length-append {0} xs ys);
        },
        refl,
      )

-- The outcome of `unlink` for the node at `p` of a queue.
Unlinked : Nodes → Queue → Items → Items → ℕ → Type 0
Unlinked c q xs ys p =
    (c' : Nodes) × (q' : Queue) × PassesBy c c' q q' xs ys p × (q'.limit ≡ q.limit)

unlink-only : (c : Nodes) (q : Queue) (p d : ℕ) → IsQueue c q ((p, d) ∷ []) → Unlinked c q [] [] p
unfolding unlink Unlinked
unlink-only c q p d v = (
  c,
  record q { head = 0; tail = 0 },
  record {
    run = rw v.len_eq;
    left = tt;
    right = tt;
    here = refl;
    head_eq = refl;
    tail_eq = refl;
    len_eq = refl;
  },
  refl,
)

unlink-head :
    (c : Nodes) (q : Queue) (p d p' d' : ℕ) (ys : Items)
    → IsQueue c q ((p, d) ∷ (p', d') ∷ ys)
    → Unlinked c q [] ((p', d') ∷ ys) p
unfolding unlink Unlinked
unlink-head c q p d p' d' ys v =
    let (c1, run, linked, same) = set_previous-first c p 0 0 p' d' ys v.linked.2 v.distinct.1 in
    let many : (q.len == 1) ≡ false = ground (arith, v.len_eq) in
    let is_head : (p == q.head) ≡ true = rw v.head_eq (==_refl p) in
    (
      c1,
      record q { head = p' },
      record {
        run = rw (many, is_head, load_p c q [] ((p', d') ∷ ys) p d v, run, unlink);
        left = tt;
        right = linked;
        here = same p v.distinct.0.0;
        head_eq = refl;
        tail_eq = v.tail_eq;
        len_eq = refl;
      },
      refl,
    )

unlink-tail :
    (c : Nodes) (q : Queue) (x e p d : ℕ) (xs : Items)
    → IsQueue c q (((x, e) ∷ xs) ++ ((p, d) ∷ []))
    → Unlinked c q ((x, e) ∷ xs) [] p
unfolding unlink Unlinked
unlink-tail c q x e p d xs v =
    let all = (x, e) ∷ xs in
    let l = last 0 ((x, e) ∷ xs) in
    let m = mid c q ((x, e) ∷ xs) [] p d v in
    let (c1, run, linked, same) =
      set_next-last c 0 p 0 x e xs (left_p c q ((x, e) ∷ xs) [] p d v)
        (Distinct-left ((x, e) ∷ xs) ((p, d) ∷ []) v.distinct) in
    let many : (q.len == 1) ≡ false =
      ==_ne q.len 1 (omega (arith, len_all c q ((x, e) ∷ xs) [] p d v)) in
    let not_head : (p == q.head) ≡ false = rw v.head_eq (==_ne p x m.0.0) in
    let is_tail : (p == q.tail) ≡ true =
      rw (v.tail_eq, last-append x xs ((p, d) ∷ [])) (==_refl p) in
    (
      c1,
      record q { tail = l },
      record {
        run = rw (many, not_head, is_tail, load_p c q ((x, e) ∷ xs) [] p d v, run, unlink);
        left = linked;
        right = tt;
        here = same p (ne-last p 0 x e xs m.0);
        head_eq = v.head_eq;
        tail_eq = sym (last-append x xs []);
        len_eq = refl;
      },
      refl,
    )

unlink-middle :
    (c : Nodes) (q : Queue) (x e p d p' d' : ℕ) (xs ys : Items)
    → IsQueue c q (((x, e) ∷ xs) ++ ((p, d) ∷ (p', d') ∷ ys))
    → Unlinked c q ((x, e) ∷ xs) ((p', d') ∷ ys) p
unfolding unlink Unlinked
unlink-middle c q x e p d p' d' xs ys v =
    let l = last 0 ((x, e) ∷ xs) in
    let m = mid c q ((x, e) ∷ xs) ((p', d') ∷ ys) p d v in
    let n = Distinct-mid ((x, e) ∷ xs) ys p' d' m.2 in
    let (c1, run, linked, same) =
      set_next-last c 0 p p' x e xs (left_p c q ((x, e) ∷ xs) ((p', d') ∷ ys) p d v)
        (Distinct-left ((x, e) ∷ xs) ((p, d) ∷ (p', d') ∷ ys) v.distinct) in
    let right1 =
      Linked-same c c1 l p 0 ((p', d') ∷ ys) same (last-Away 0 x e xs ((p', d') ∷ ys) m.2)
        (right_p c q ((x, e) ∷ xs) ((p', d') ∷ ys) p d v) in
    let (c2, run2, linked2, same2) =
      set_previous-first c1 p 0 l p' d' ys right1
        (Distinct-right ((x, e) ∷ xs) ((p', d') ∷ ys) m.2) in
    let many : (q.len == 1) ≡ false =
      ==_ne q.len 1 (omega (arith, len_all c q ((x, e) ∷ xs) ((p', d') ∷ ys) p d v)) in
    let not_head : (p == q.head) ≡ false = rw v.head_eq (==_ne p x m.0.0) in
    let not_tail : (p == q.tail) ≡ false =
      rw (v.tail_eq, last-append x xs ((p, d) ∷ (p', d') ∷ ys))
        (==_ne p _ (ne-last p p p' d' ys m.1)) in
    (
      c2,
      q,
      record {
        run = rw (
          many,
          not_head,
          not_tail,
          load_p c q ((x, e) ∷ xs) ((p', d') ∷ ys) p d v,
          run,
          run2,
          unlink,
        );
        left = Linked-same c1 c2 p' 0 p' ((x, e) ∷ xs) same2 n.0 linked;
        right = linked2;
        here = same2 p m.1.0 ∙ same p (ne-last p 0 x e xs m.0);
        head_eq = v.head_eq;
        tail_eq =
            v.tail_eq
            ∙ last-append x xs ((p, d) ∷ (p', d') ∷ ys)
            ∙ sym (last-append x xs ((p', d') ∷ ys));
        len_eq = refl;
      },
      refl,
    )

unlink-PassesBy :
    (c : Nodes) (q : Queue) (xs ys : Items) (p d : ℕ)
    → IsQueue c q (xs ++ ((p, d) ∷ ys))
    → Unlinked c q xs ys p
unlink-PassesBy c q [] [] p d v = unlink-only c q p d v
unlink-PassesBy c q [] ((p', d') ∷ ys) p d v = unlink-head c q p d p' d' ys v
unlink-PassesBy c q ((x, e) ∷ xs) [] p d v = unlink-tail c q x e p d xs v
unlink-PassesBy c q ((x, e) ∷ xs) ((p', d') ∷ ys) p d v = unlink-middle c q x e p d p' d' xs ys v

-- One round of the loop takes out exactly the node at `p`.
remove_node-IsQueue :
    (c : Nodes) (q : Queue) (xs ys : Items) (p d : ℕ)
    → IsQueue c q (xs ++ ((p, d) ∷ ys))
    → (c' : Nodes) × (q' : Queue) × (remove_node c q p ≡ some (c', q'))
      × IsQueue c' q' (xs ++ ys)
      × (q'.limit ≡ q.limit)
unfolding Unlinked
remove_node-IsQueue c q xs ys p d v =
    let (c1, q1, b, lim) = unlink-PassesBy c q xs ys p d v in
    let (c2, q2, run, v', lim') = finish c q xs ys p d v b in (c2, q2, run, v', lim' ∙ lim)

remove_loop-end :
    (fuel : ℕ) (c : Nodes) (q : Queue) (item : ℕ) → remove_loop (suc fuel) c q 0 item ≡ some (c, q)
unfolding remove_loop
remove_loop-end fuel c q item = refl

remove_loop-keep :
    (fuel : ℕ) (c : Nodes) (q : Queue) (p item d n b : ℕ)
    → p ≢ 0
    → load c p ≡ some (node d n b)
    → (d == item) ≡ false
    → remove_loop (suc fuel) c q p item ≡ remove_loop fuel c q n item
unfolding remove_loop
remove_loop-keep fuel c q p item d n b ne at miss = rw (==_ne p 0 ne, at, miss, remove_loop)

remove_loop-drop :
    (fuel : ℕ) (c c' : Nodes) (q q' : Queue) (p item d n b : ℕ)
    → p ≢ 0
    → load c p ≡ some (node d n b)
    → (d == item) ≡ true
    → remove_node c q p ≡ some (c', q')
    → remove_loop (suc fuel) c q p item ≡ remove_loop fuel c' q' n item
unfolding remove_loop
remove_loop-drop fuel c c' q q' p item d n b ne at hit run =
    rw (==_ne p 0 ne, at, hit, run, remove_loop)

remove_loop-IsQueue :
    (fuel : ℕ) (c : Nodes) (q : Queue) (xs ys : Items) (item : ℕ)
    → IsQueue c q (xs ++ ys)
    → length ys < fuel
    → (c' : Nodes) × (q' : Queue) × (remove_loop fuel c q (first ys 0) item ≡ some (c', q'))
      × IsQueue c' q' (xs ++ without ys item)
      × (q'.limit ≡ q.limit)
remove_loop-IsQueue zero c q xs ys item v h = absurd (omega arith)
remove_loop-IsQueue (suc f) c q xs [] item v h = (c, q, remove_loop-end f c q item, v, refl)
remove_loop-IsQueue (suc f) c q xs ((p, d) ∷ ys) item v h =
    let ne = (at_p c q xs ys p d v).0 in
    let at = load_p c q xs ys p d v in
    elim (Bool-cases (d == item)) [
      | inl hit ↦
          let (c1, q1, run1, v1, lim1) = remove_node-IsQueue c q xs ys p d v in
          let (c2, q2, run2, v2, lim2) = remove_loop-IsQueue f c1 q1 xs ys item v1 (omega arith) in
          (
            c2,
            q2,
            remove_loop-drop f c c1 q q1 p item d _ _ ne at hit run1 ∙ run2,
            rw hit v2,
            lim2 ∙ lim1,
          )
      | inr miss ↦
          let (c2, q2, run2, v2, lim2) =
            remove_loop-IsQueue f c q (xs ++ ((p, d) ∷ [])) ys item
              (rw (append_assoc xs ((p, d) ∷ []) ys) v) (omega arith) in
          (
            c2,
            q2,
            remove_loop-keep f c q p item d _ _ ne at miss ∙ run2,
            rw (miss, ← append_assoc xs ((p, d) ∷ []) (without ys item)) v2,
            lim2,
          )
    ]

-- Removing data that is not NULL leaves the queue without every node that holds it, the others in
-- their order, whether these nodes stood at the head, at the tail or in the middle.
pub force_remove-without :
    (c : Nodes) (q : Queue) (xs : Items) (item : ℕ)
    → IsQueue c q xs
    → item ≢ 0
    → (c' : Nodes) × (q' : Queue) × (force_remove c (some q) item ≡ some (c', some q'))
      × IsQueue c' q' (without xs item)
      × (q'.limit ≡ q.limit)
unfolding force_remove
force_remove-without c q [] item v ne = (c, q, rw (v.len_eq, or_true, force_remove), v, refl)
force_remove-without c q ((p, d) ∷ xs) item v ne =
    let (c', q', run, v', lim) =
      remove_loop-IsQueue (q.len + 1) c q [] ((p, d) ∷ xs) item v (omega (arith, v.len_eq)) in
    let some_items : (q.len == 0) ≡ false = ==_ne q.len 0 (omega (arith, v.len_eq)) in
    let from_head : remove_loop (q.len + 1) c q q.head item ≡ some (c', q') =
      ap (λ a. remove_loop (q.len + 1) c q a item) v.head_eq ∙ run in
    (c', q', rw (==_ne item 0 ne, some_items, from_head, force_remove), v', lim)
