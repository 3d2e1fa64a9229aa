-- ===== src/LinkedList/Remove.antt =====
-- Theorems on `linked_list_remove` of kernel/util/linked_list.c.
use dbos.Base.{
  ℕ, ◌+◌, ◌≡◌, refl, sym, ◌∙◌, ◌≢◌, true, false, none, some, [], ◌∷◌, ◌++◌, arith, ◌==◌, ==_ne,
  ==_refl, length-append, Bool-cases, inl, inr,
}
use dbos.Base.Word.{sub32}
use dbos.Nodes.{Nodes, node, write, load, free}
use dbos.Nodes.Linked.{
  Items, first, last, Linked, Away, Distinct, write_self, write_ne, Linked-split, Linked-join,
  Distinct-mid, Distinct-left, Distinct-right, last-Away, last-append,
}
use dbos.Nodes.Edit.{SameBut, Linked-same, ne-last, set_next-last, set_previous-first}
use dbos.LinkedList.{LinkedList, seek, unlink_node, drop_node, remove}
use dbos.LinkedList.Spec.{IsList, load-node, set_next_at, set_previous_at}
use dbos.LinkedList.Search.{seek-found, seek-absent}

-- The links pass by the node at `p`, which still is a node.
record PassesBy (c c' : Nodes) (l l' : LinkedList) (xs ys : Items) (p : ℕ) : Type 0 where
  pub run : unlink_node c l p ≡ some (c', l')
  pub left : Linked c' 0 xs (first ys 0)
  pub right : Linked c' (last 0 xs) ys 0
  pub here : c' p ≡ c p
  pub head_eq : l'.list_head ≡ first (xs ++ ys) 0
  pub tail_eq : l'.list_tail ≡ last 0 (xs ++ ys)
  pub len_eq : l'.list_length ≡ l.list_length

-- Clearing and freeing a node ends with no node there, and touches no other.
clear_eq :
    (c c' : Nodes) (l l' : LinkedList) (p d n b : ℕ)
    → p ≢ 0
    → unlink_node c l p ≡ some (c', l')
    → c' p ≡ some (node d n b)
    → (c'' : Nodes) × (drop_node c l p
        ≡ some (c'', record l' { list_length = sub32 l'.list_length 1 }))
      × SameBut p c' c''
      × (c'' p ≡ none)
unfolding drop_node free
clear_eq c c' l l' p d n b ne run at =
    let c1 = write c' p (some (node d 0 b)) in
    let c2 = write c1 p (some (node d 0 0)) in
    (
      write c2 p none,
      rw
          (
            run,
            set_next_at c' p d n b 0 ne at,
            set_previous_at c1 p d 0 b 0 ne (write_self c' p _),
            load-node c2 p d 0 0 ne (write_self c1 p _),
            drop_node,
          )
          refl,
      λ a away. write_ne c2 p a none away ∙ write_ne c1 p a _ away ∙ write_ne c' p a _ away,
      write_self c2 p none,
    )

-- The facts about a list with the node at `p` in it.
module _ (c : Nodes) (l : LinkedList) (xs ys : Items) (p d : ℕ)
    (v : IsList c l (xs ++ ((p, d) ∷ ys))) where
  at_p : (p ≢ 0) × (c p ≡ some (node d (first ys 0) (last 0 xs)))
  at_p = let (_, r) = Linked-split c 0 0 xs ((p, d) ∷ ys) v.linked in (r.0, r.1)

  load_p : load c p ≡ some (node d (first ys 0) (last 0 xs))
  load_p = load-node c p d _ _ at_p.0 at_p.1

  left_p : Linked c 0 xs p
  left_p = (Linked-split c 0 0 xs ((p, d) ∷ ys) v.linked).0

  right_p : Linked c p ys 0
  right_p = (Linked-split c 0 0 xs ((p, d) ∷ ys) v.linked).1.2

  mid : Away p xs × Away p ys × Distinct (xs ++ ys)
  mid = Distinct-mid xs ys p d v.distinct

  finish :
      {c' : Nodes} {l' : LinkedList}
      → PassesBy c c' l l' xs ys p
      → (c'' : Nodes) × (l'' : LinkedList) × (drop_node c l p ≡ some (c'', l''))
        × IsList c'' l'' (xs ++ ys)
        × (c'' p ≡ none)
  finish {c'} {l'} b =
      let (c'', run, same, gone) = clear_eq c c' l l' p d _ _ at_p.0 b.run (b.here ∙ at_p.1) in
      (
        c'',
        record l' { list_length = sub32 l'.list_length 1 },
        run,
        record {
          linked =
              Linked-join c'' 0 0 xs ys (Linked-same c' c'' p 0 (first ys 0) xs same mid.0 b.left)
                (Linked-same c' c'' p (last 0 xs) 0 ys same mid.1 b.right);
          distinct = mid.2;
          head_eq = b.head_eq;
          tail_eq = b.tail_eq;
          len_eq = omega (
            arith,
            b.len_eq,
            v.small,
            v.len_eq,
            length-append {0} xs ys,
            length-append {0} xs ((p, d) ∷ ys),
          );
          small =
              omega (arith, v.small, length-append {0} xs ys, length-append {0} xs ((p, d) ∷ ys));
        },
        gone,
      )

-- The outcome of `unlink_node` for the node at `p` of a list.
Unlinked : Nodes → LinkedList → Items → Items → ℕ → Type 0
Unlinked c l xs ys p = (c' : Nodes) × (l' : LinkedList) × PassesBy c c' l l' xs ys p

unlink-only :
    (c : Nodes) (l : LinkedList) (p d : ℕ) → IsList c l ((p, d) ∷ []) → Unlinked c l [] [] p
unfolding unlink_node Unlinked
unlink-only c l p d v = (
  c,
  record l { list_head = 0; list_tail = 0 },
  record {
    run = rw (load_p c l [] [] p d v, v.head_eq, ==_refl p, unlink_node) refl;
    left = tt;
    right = tt;
    here = refl;
    head_eq = refl;
    tail_eq = refl;
    len_eq = refl;
  },
)

unlink-head :
    (c : Nodes) (l : LinkedList) (p d q e : ℕ) (ys : Items)
    → IsList c l ((p, d) ∷ (q, e) ∷ ys)
    → Unlinked c l [] ((q, e) ∷ ys) p
unfolding unlink_node Unlinked
unlink-head c l p d q e ys v =
    let (c1, run, linked, same) = set_previous-first c p 0 0 q e ys v.linked.2 v.distinct.1 in
    let is_head : (p == l.list_head) ≡ true = rw v.head_eq (==_refl p) in
    (
      c1,
      record l { list_head = q },
      record {
        run =
            rw
              (load_p c l [] ((q, e) ∷ ys) p d v, is_head, ==_ne q 0 v.linked.2.0, run, unlink_node)
              refl;
        left = tt;
        right = linked;
        here = same p v.distinct.0.0;
        head_eq = refl;
        tail_eq = v.tail_eq;
        len_eq = refl;
      },
    )

unlink-tail :
    (c : Nodes) (l : LinkedList) (x e p d : ℕ) (xs : Items)
    → IsList c l (((x, e) ∷ xs) ++ ((p, d) ∷ []))
    → Unlinked c l ((x, e) ∷ xs) [] p
unfolding unlink_node Unlinked
unlink-tail c l x e p d xs v =
    let m = mid c l ((x, e) ∷ xs) [] p d v in
    let (c1, run, linked, same) =
      set_next-last c 0 p 0 x e xs (left_p c l ((x, e) ∷ xs) [] p d v)
        (Distinct-left ((x, e) ∷ xs) ((p, d) ∷ []) v.distinct) in
    let not_head : (p == l.list_head) ≡ false = rw v.head_eq (==_ne p x m.0.0) in
    let is_tail : (p == l.list_tail) ≡ true =
      rw (v.tail_eq, last-append x xs ((p, d) ∷ [])) (==_refl p) in
    (
      c1,
      record l { list_tail = last 0 ((x, e) ∷ xs) },
      record {
        run = rw (load_p c l ((x, e) ∷ xs) [] p d v, not_head, is_tail, run, unlink_node) refl;
        left = linked;
        right = tt;
        here = same p (ne-last p 0 x e xs m.0);
        head_eq = v.head_eq;
        tail_eq = sym (last-append x xs []);
        len_eq = refl;
      },
    )

unlink-middle :
    (c : Nodes) (l : LinkedList) (x e p d q f : ℕ) (xs ys : Items)
    → IsList c l (((x, e) ∷ xs) ++ ((p, d) ∷ (q, f) ∷ ys))
    → Unlinked c l ((x, e) ∷ xs) ((q, f) ∷ ys) p
unfolding unlink_node Unlinked
unlink-middle c l x e p d q f xs ys v =
    let t = last 0 ((x, e) ∷ xs) in
    let m = mid c l ((x, e) ∷ xs) ((q, f) ∷ ys) p d v in
    let n = Distinct-mid ((x, e) ∷ xs) ys q f m.2 in
    let (c1, run, linked, same) =
      set_next-last c 0 p q x e xs (left_p c l ((x, e) ∷ xs) ((q, f) ∷ ys) p d v)
        (Distinct-left ((x, e) ∷ xs) ((p, d) ∷ (q, f) ∷ ys) v.distinct) in
    let right1 =
      Linked-same c c1 t p 0 ((q, f) ∷ ys) same (last-Away 0 x e xs ((q, f) ∷ ys) m.2)
        (right_p c l ((x, e) ∷ xs) ((q, f) ∷ ys) p d v) in
    let (c2, run2, linked2, same2) =
      set_previous-first c1 p 0 t q f ys right1 (Distinct-right ((x, e) ∷ xs) ((q, f) ∷ ys) m.2) in
    let not_head : (p == l.list_head) ≡ false = rw v.head_eq (==_ne p x m.0.0) in
    let not_tail : (p == l.list_tail) ≡ false =
      rw (v.tail_eq, last-append x xs ((p, d) ∷ (q, f) ∷ ys))
        (==_ne p _ (ne-last p p q f ys m.1)) in
    (
      c2,
      l,
      record {
        run =
            rw
              (
                load_p c l ((x, e) ∷ xs) ((q, f) ∷ ys) p d v,
                not_head,
                not_tail,
                run,
                run2,
                unlink_node,
              )
              refl;
        left = Linked-same c1 c2 q 0 q ((x, e) ∷ xs) same2 n.0 linked;
        right = linked2;
        here = same2 p m.1.0 ∙ same p (ne-last p 0 x e xs m.0);
        head_eq = v.head_eq;
        tail_eq =
            v.tail_eq
            ∙ last-append x xs ((p, d) ∷ (q, f) ∷ ys)
            ∙ sym (last-append x xs ((q, f) ∷ ys));
        len_eq = refl;
      },
    )

unlink-PassesBy :
    (c : Nodes) (l : LinkedList) (xs ys : Items) (p d : ℕ)
    → IsList c l (xs ++ ((p, d) ∷ ys))
    → Unlinked c l xs ys p
unlink-PassesBy c l [] [] p d v = unlink-only c l p d v
unlink-PassesBy c l [] ((q, f) ∷ ys) p d v = unlink-head c l p d q f ys v
unlink-PassesBy c l ((x, e) ∷ xs) [] p d v = unlink-tail c l x e p d xs v
unlink-PassesBy c l ((x, e) ∷ xs) ((q, f) ∷ ys) p d v = unlink-middle c l x e p d q f xs ys v

-- Removing a node of a list, wherever it stands, frees it and leaves the other nodes in their order.
pub remove-IsList :
    (c : Nodes) (l : LinkedList) (xs ys : Items) (p d : ℕ)
    → IsList c l (xs ++ ((p, d) ∷ ys))
    → (c' : Nodes) × (l' : LinkedList) × (remove c (some l) p ≡ some (c', some l'))
      × IsList c' l' (xs ++ ys)
      × (c' p ≡ none)
unfolding remove Unlinked
remove-IsList c l xs ys p d v =
    let (ne, at) = at_p c l xs ys p d v in
    let (c1, l1, b) = unlink-PassesBy c l xs ys p d v in
    let (c2, l2, run, v2, gone) = finish c l xs ys p d v b in
    let found : seek (l.list_length + 1) c l.list_head p ≡ some p = rw v.head_eq (
      seek-found (l.list_length + 1) c 0 p d xs ys v.linked ne (mid c l xs ys p d v).0
        (omega (arith, v.len_eq, length-append {0} xs ((p, d) ∷ ys)))) in
    (c2, l2, rw (==_ne p 0 ne, found, ==_refl p, run, remove) refl, v2, gone)

-- Removing an address that is no node of the list changes nothing.
pub remove-absent :
    (c : Nodes) (l : LinkedList) (xs : Items) (p : ℕ)
    → IsList c l xs
    → Away p xs
    → remove c (some l) p ≡ some (c, some l)
unfolding remove
remove-absent c l xs p v away = elim (Bool-cases (p == 0)) [
  | inl null ↦ rw (null, remove) refl
  | inr ne ↦
      let missed : seek (l.list_length + 1) c l.list_head p ≡ some 0 =
        rw v.head_eq
          (seek-absent (l.list_length + 1) c 0 p xs v.linked away (omega (arith, v.len_eq))) in
      let other : (0 == p) ≡ false = ground arith in rw (ne, missed, other, remove) refl
]
