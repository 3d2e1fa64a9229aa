-- ===== src/LinkedList/Insert.antt =====
-- Lemmas on the branches of `linked_list_insert_at_index` of kernel/util/linked_list.c.
use dbos.Base.{
  ℕ, suc, ◌+◌, ◌^◌, ◌<◌, ◌≡◌, refl, sym, ◌∙◌, ◌≢◌, false, Option, some, [], ◌∷◌, ◌++◌, arith, ◌==◌,
  ==_ne, length, length-append,
}
use dbos.Base.Word.{add32}
use dbos.Nodes.{Nodes, node, write}
use dbos.Nodes.Linked.{
  Items, last, Linked, Away, Distinct, write_self, Linked-frame, Linked-split, Linked-join,
  Distinct-mid, Distinct-left, Distinct-right, last-Away, Away-append, append-Away, last-append,
}
use dbos.Nodes.Edit.{Linked-same, ne-last, set_next-last, set_previous-first}
use dbos.LinkedList.{LinkedList, insert_first, insert_last, insert_before, walk}
use dbos.LinkedList.Spec.{IsList, load-node, set_next_at, set_previous_at}
use dbos.LinkedList.Search.{walk-length}

pub mid-Distinct :
    (xs ys : Items) (p d : ℕ)
    → Away p (xs ++ ys)
    → Distinct (xs ++ ys)
    → Distinct (xs ++ ((p, d) ∷ ys))
mid-Distinct [] ys p d a u = (a, u)
mid-Distinct ((q, e) ∷ xs) ys p d a u =
    let (l, r) = Away-append q xs ys u.0 in
    (append-Away q xs ((p, d) ∷ ys) l ((λ eq. a.0 (sym eq)), r), mid-Distinct xs ys p d a.1 u.1)

pub append_nil-Distinct : (xs : Items) → Distinct xs → Distinct (xs ++ [])
append_nil-Distinct [] u = tt
append_nil-Distinct ((q, e) ∷ xs) u = (append-Away q xs [] u.0 tt, append_nil-Distinct xs u.1)

-- A branch that links the new node in between `xs` and `ys`.
unfoldable pub Inserts : Option (Nodes × LinkedList) → Items → ℕ → ℕ → Items → Type 0
Inserts run xs fresh item ys =
    (c' : Nodes) × (l' : LinkedList) × (run ≡ some (c', l'))
    × IsList c' l' (xs ++ ((fresh, item) ∷ ys))

-- The node is new, and the nodes are those of `create_node`.
module _ (c : Nodes) (l : LinkedList) (fresh item : ℕ) (ne : fresh ≢ 0) where
  abbrev pub made : Nodes
  made = write c fresh (some (node item 0 0))

  pub made-fresh : write c fresh (some (node item 0 0)) fresh ≡ some (node item 0 0)
  made-fresh = write_self c fresh (some (node item 0 0))

  pub insert_first-nil : IsList c l [] → Inserts (insert_first made l fresh) [] fresh item []
  unfolding insert_first Inserts
  insert_first-nil v = (
    made,
    record { list_head = fresh; list_tail = fresh; list_length = add32 l.list_length 1 },
    rw v.len_eq refl,
    record {
      linked = (ne, made-fresh, tt);
      distinct = (tt, tt);
      head_eq = refl;
      tail_eq = refl;
      len_eq = omega (arith, v.len_eq);
      small = omega arith;
    },
  )

  pub insert_first-cons :
      (q e : ℕ) (ys : Items)
      → IsList c l ((q, e) ∷ ys)
      → Away fresh ((q, e) ∷ ys)
      → length ys + 2 < 2 ^ 31
      → Inserts (insert_first made l fresh) [] fresh item ((q, e) ∷ ys)
  unfolding insert_first Inserts
  insert_first-cons q e ys v away small =
      let c1 = write made fresh (some (node item 0 0)) in
      let c2 = write c1 fresh (some (node item q 0)) in
      let there = Linked-frame c1 fresh 0 0 (some (node item q 0)) ((q, e) ∷ ys) away (
        Linked-frame made fresh 0 0 (some (node item 0 0)) ((q, e) ∷ ys) away
          (Linked-frame c fresh 0 0 (some (node item 0 0)) ((q, e) ∷ ys) away v.linked)) in
      let (c3, run, linked, same) = set_previous-first c2 0 0 fresh q e ys there v.distinct in
      let many : (l.list_length == 0) ≡ false = ==_ne l.list_length 0 (omega (arith, v.len_eq)) in
      (
        c3,
        record l { list_head = fresh; list_length = add32 l.list_length 1 },
        rw
            (
              many,
              v.head_eq,
              set_previous_at made fresh item 0 0 0 ne made-fresh,
              set_next_at c1 fresh item 0 0 q ne (write_self made fresh _),
              run,
              insert_first,
            )
            refl,
        record {
          linked = (ne, same fresh away.0 ∙ write_self c1 fresh _, linked);
          distinct = (away, v.distinct);
          head_eq = refl;
          tail_eq = v.tail_eq;
          len_eq = omega (arith, v.len_eq);
          small = omega arith;
        },
      )

  pub insert_last-cons :
      (x e : ℕ) (xs : Items)
      → IsList c l ((x, e) ∷ xs)
      → Away fresh ((x, e) ∷ xs)
      → length xs + 2 < 2 ^ 31
      → Inserts (insert_last made l fresh) ((x, e) ∷ xs) fresh item []
  unfolding insert_last Inserts
  insert_last-cons x e xs v away small =
      let t = last 0 ((x, e) ∷ xs) in
      let there = Linked-frame c fresh 0 0 (some (node item 0 0)) ((x, e) ∷ xs) away v.linked in
      let (c1, run, linked, same) = set_next-last made 0 0 fresh x e xs there v.distinct in
      let at1 : c1 fresh ≡ some (node item 0 0) =
        same fresh (ne-last fresh 0 x e xs away) ∙ made-fresh in
      let c2 = write c1 fresh (some (node item 0 t)) in
      let c3 = write c2 fresh (some (node item 0 t)) in
      (
        c3,
        record l { list_tail = fresh; list_length = add32 l.list_length 1 },
        rw
            (
              v.tail_eq,
              run,
              set_previous_at c1 fresh item 0 0 t ne at1,
              set_next_at c2 fresh item 0 t 0 ne (write_self c1 fresh _),
              insert_last,
            )
            refl,
        record {
          linked =
              Linked-join c3 0 0 ((x, e) ∷ xs) ((fresh, item) ∷ [])
                (Linked-frame c2 fresh 0 fresh _ ((x, e) ∷ xs) away
                  (Linked-frame c1 fresh 0 fresh _ ((x, e) ∷ xs) away linked))
                (ne, write_self c2 fresh _, tt);
          distinct =
              mid-Distinct ((x, e) ∷ xs) [] fresh item (append-Away fresh ((x, e) ∷ xs) [] away tt)
                (append_nil-Distinct ((x, e) ∷ xs) v.distinct);
          head_eq = v.head_eq;
          tail_eq = sym (last-append x xs ((fresh, item) ∷ []));
          len_eq = omega (arith, v.len_eq, length-append {0} xs ((fresh, item) ∷ []));
          small = omega (arith, length-append {0} xs ((fresh, item) ∷ []));
        },
      )

  pub insert_before-mid :
      (x e q d : ℕ) (xs ys : Items)
      → IsList c l (((x, e) ∷ xs) ++ ((q, d) ∷ ys))
      → Away fresh (((x, e) ∷ xs) ++ ((q, d) ∷ ys))
      → length xs + length ys + 3 < 2 ^ 31
      → Inserts
          (insert_before made l fresh (suc (length xs)))
          ((x, e) ∷ xs)
          fresh
          item
          ((q, d) ∷ ys)
  unfolding insert_before Inserts
  insert_before-mid x e q d xs ys v away small =
      let all = (x, e) ∷ xs in
      let t = last 0 ((x, e) ∷ xs) in
      let (al, ar) = Away-append fresh ((x, e) ∷ xs) ((q, d) ∷ ys) away in
      let there =
        Linked-frame c fresh 0 0 (some (node item 0 0)) (((x, e) ∷ xs) ++ ((q, d) ∷ ys)) away
          v.linked in
      let (left, right) = Linked-split made 0 0 ((x, e) ∷ xs) ((q, d) ∷ ys) there in
      let (c1, run, linked, same) =
        set_next-last made 0 q fresh x e xs left
          (Distinct-left ((x, e) ∷ xs) ((q, d) ∷ ys) v.distinct) in
      let right1 =
        Linked-same made c1 t t 0 ((q, d) ∷ ys) same (last-Away 0 x e xs ((q, d) ∷ ys) v.distinct)
          right in
      let at1 : c1 fresh ≡ some (node item 0 0) =
        same fresh (ne-last fresh 0 x e xs al) ∙ made-fresh in
      let c2 = write c1 fresh (some (node item 0 t)) in
      let c3 = write c2 fresh (some (node item q t)) in
      let right3 =
        Linked-frame c2 fresh t 0 (some (node item q t)) ((q, d) ∷ ys) ar
          (Linked-frame c1 fresh t 0 (some (node item 0 t)) ((q, d) ∷ ys) ar right1) in
      let (c4, run4, linked4, same4) =
        set_previous-first c3 t 0 fresh q d ys right3
          (Distinct-right ((x, e) ∷ xs) ((q, d) ∷ ys) v.distinct) in
      let m = Distinct-mid ((x, e) ∷ xs) ys q d v.distinct in
      (
        c4,
        record l { list_length = add32 l.list_length 1 },
        rw
            (
              v.head_eq,
              walk_there made x e q d xs ys there,
              load-node made q d _ t right.0 right.1,
              run,
              load-node c1 q d _ t right1.0 right1.1,
              set_previous_at c1 fresh item 0 0 t ne at1,
              set_next_at c2 fresh item 0 t q ne (write_self c1 fresh _),
              run4,
              insert_before,
            )
            refl,
        record {
          linked =
              Linked-join c4 0 0 ((x, e) ∷ xs) ((fresh, item) ∷ (q, d) ∷ ys)
                (Linked-same c3 c4 q 0 fresh ((x, e) ∷ xs) same4 m.0 (
                  Linked-frame c2 fresh 0 fresh _ ((x, e) ∷ xs) al
                    (Linked-frame c1 fresh 0 fresh _ ((x, e) ∷ xs) al linked)))
                (ne, same4 fresh ar.0 ∙ write_self c2 fresh _, linked4);
          distinct = mid-Distinct ((x, e) ∷ xs) ((q, d) ∷ ys) fresh item away v.distinct;
          head_eq = v.head_eq;
          tail_eq =
              v.tail_eq
              ∙ last-append x xs ((q, d) ∷ ys)
              ∙ sym (last-append x xs ((fresh, item) ∷ (q, d) ∷ ys));
          len_eq = omega (
            arith,
            v.len_eq,
            length-append {0} xs ((q, d) ∷ ys),
            length-append {0} xs ((fresh, item) ∷ (q, d) ∷ ys),
          );
          small = omega (arith, length-append {0} xs ((fresh, item) ∷ (q, d) ∷ ys));
        },
      )
    where
      walk_there :
          (c : Nodes) (x e q d : ℕ) (xs ys : Items)
          → Linked c 0 (((x, e) ∷ xs) ++ ((q, d) ∷ ys)) 0
          → walk (suc (length xs)) c x ≡ some q
      walk_there c x e q d xs ys l =
          let same : suc (length xs) ≡ length ((x, e) ∷ xs) = omega arith in
          rw same (walk-length c 0 q d ((x, e) ∷ xs) ys l)
