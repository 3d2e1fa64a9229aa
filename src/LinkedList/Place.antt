-- ===== src/LinkedList/Place.antt =====
-- Theorems on `linked_list_append` and `linked_list_insert_at_index` of kernel/util/linked_list.c.
use dbos.Base.{
  ℕ, suc, ◌+◌, ◌^◌, ◌<◌, ◌≡◌, refl, sym, ◌∙◌, ap, ◌≢◌, true, false, not, some, [], ◌∷◌, ◌++◌, arith,
  ltb, ◌==◌, ==_ne, ==_iff, if◌then◌else◌, length, length-append, Bool-cases, inl, inr,
}
use dbos.Base.Word.{add32, slt32, slt32-ltb}
use mathlib.Core.List.{append-nil}
use dbos.Nodes.{Nodes, node, write, set_next, set_previous}
use dbos.Nodes.Linked.{
  Items, last, Linked, Away, write_self, Linked-frame, Linked-join, append-Away, last-append,
}
use dbos.Nodes.Edit.{ne-last, set_next-last}
use dbos.LinkedList.{
  LinkedList, create_node, insert_first, insert_last, insert_before, insert_at_index, link_last,
  append,
}
use dbos.LinkedList.Spec.{IsList, set_next_at, set_previous_at}
use dbos.LinkedList.Insert.{
  Inserts, mid-Distinct, append_nil-Distinct, insert_first-nil, insert_first-cons, insert_last-cons,
  insert_before-mid,
}

create_node_eq :
    (c : Nodes) (fresh item : ℕ)
    → fresh ≢ 0
    → create_node c fresh item ≡ some (write c fresh (some (node item 0 0)))
unfolding create_node
create_node_eq c fresh item ne = rw (==_ne fresh 0 ne, create_node)

-- What `link_last` does, where the length is counted afterwards.
Appends : Nodes → LinkedList → Items → ℕ → ℕ → Type 0
Appends c l xs fresh item =
    (c' : Nodes) × (l' : LinkedList) × (link_last c l fresh ≡ some (c', l'))
    × IsList c' (record l' { list_length = add32 l'.list_length 1 }) (xs ++ ((fresh, item) ∷ []))

link_last-nil :
    (c : Nodes) (l : LinkedList) (fresh item : ℕ)
    → fresh ≢ 0
    → IsList c l []
    → Appends (write c fresh (some (node item 0 0))) l [] fresh item
unfolding link_last Appends
link_last-nil c l fresh item ne v =
    let c0 = write c fresh (some (node item 0 0)) in
    let c1 = write c0 fresh (some (node item 0 0)) in
    (
      write c1 fresh (some (node item 0 0)),
      record l { list_head = fresh; list_tail = fresh },
      rw
          (
            v.len_eq,
            v.head_eq,
            set_previous_at c0 fresh item 0 0 0 ne (write_self c fresh _),
            set_next_at c1 fresh item 0 0 0 ne (write_self c0 fresh _),
          )
          refl,
      record {
        linked = (ne, write_self c1 fresh _, tt);
        distinct = (tt, tt);
        head_eq = refl;
        tail_eq = refl;
        len_eq = omega (arith, v.len_eq);
        small = omega arith;
      },
    )

-- A list whose last node is linked to the new node, which is linked back, has the new node at its
-- end.
back_link-IsList :
    (c c' : Nodes) (l : LinkedList) (fresh item x e : ℕ) (xs : Items)
    → fresh ≢ 0
    → IsList c l ((x, e) ∷ xs)
    → Away fresh ((x, e) ∷ xs)
    → length xs + 2 < 2 ^ 31
    → Linked c' 0 ((x, e) ∷ xs) fresh
    → c' fresh ≡ some (node item 0 (last 0 ((x, e) ∷ xs)))
    → IsList c'
        (record l { list_tail = fresh; list_length = add32 l.list_length 1 })
        (((x, e) ∷ xs) ++ ((fresh, item) ∷ []))
back_link-IsList c c' l fresh item x e xs ne v away small linked at = record {
  linked = Linked-join c' 0 0 ((x, e) ∷ xs) ((fresh, item) ∷ []) linked (ne, at, tt);
  distinct =
      mid-Distinct ((x, e) ∷ xs) [] fresh item (append-Away fresh ((x, e) ∷ xs) [] away tt)
        (append_nil-Distinct ((x, e) ∷ xs) v.distinct);
  head_eq = v.head_eq;
  tail_eq = sym (last-append x xs ((fresh, item) ∷ []));
  len_eq = omega (arith, v.len_eq, length-append {0} xs ((fresh, item) ∷ []));
  small = omega (arith, length-append {0} xs ((fresh, item) ∷ []));
}

slt32_positive : (n : ℕ) → 0 < n → n < 2 ^ 31 → slt32 0 n ≡ true
slt32_positive n h small = ground arith

link_last-cons :
    (c : Nodes) (l : LinkedList) (fresh item x e : ℕ) (xs : Items)
    → fresh ≢ 0
    → IsList c l ((x, e) ∷ xs)
    → Away fresh ((x, e) ∷ xs)
    → length xs + 2 < 2 ^ 31
    → Appends (write c fresh (some (node item 0 0))) l ((x, e) ∷ xs) fresh item
unfolding link_last Appends
link_last-cons c l fresh item x e xs ne v away small =
    let c0 = write c fresh (some (node item 0 0)) in
    let t = last 0 ((x, e) ∷ xs) in
    let there = Linked-frame c fresh 0 0 (some (node item 0 0)) ((x, e) ∷ xs) away v.linked in
    let (c1, run, linked, same) = set_next-last c0 0 0 fresh x e xs there v.distinct in
    let at1 : c1 fresh ≡ some (node item 0 0) =
      same fresh (ne-last fresh 0 x e xs away) ∙ write_self c fresh _ in
    let c2 = write c1 fresh (some (node item 0 t)) in
    let linked2 = Linked-frame c1 fresh 0 fresh (some (node item 0 t)) ((x, e) ∷ xs) away linked in
    let many : (l.list_length == 0) ≡ false = ==_ne l.list_length 0 (omega (arith, v.len_eq)) in
    let positive : slt32 0 l.list_length ≡ true =
      slt32_positive l.list_length (omega (arith, v.len_eq)) (omega (arith, v.len_eq)) in
    elim (Bool-cases (x == t)) [
      | inl one ↦
          let c3 = write c2 fresh (some (node item 0 t)) in
          let head_is_tail : x ≡ t = (==_iff x t).0 one in
          let from_head : set_next c0 x fresh ≡ some c1 =
            ap (λ a. set_next c0 a fresh) head_is_tail ∙ run in
          let back : set_previous c1 fresh x ≡ some c2 =
            ap (set_previous c1 fresh) head_is_tail ∙ set_previous_at c1 fresh item 0 0 t ne at1 in
          (
            c3,
            record l { list_tail = fresh },
            rw
                (
                  many,
                  positive,
                  v.head_eq,
                  v.tail_eq,
                  one,
                  from_head,
                  back,
                  set_next_at c2 fresh item 0 t 0 ne (write_self c1 fresh _),
                  link_last,
                )
                refl,
            back_link-IsList c c3 l fresh item x e xs ne v away small
                (Linked-frame c2 fresh 0 fresh (some (node item 0 t)) ((x, e) ∷ xs) away linked2)
                (write_self c2 fresh _),
          )
      | inr more ↦ (
        c2,
        record l { list_tail = fresh },
        rw
            (
              many,
              positive,
              v.head_eq,
              v.tail_eq,
              more,
              run,
              set_previous_at c1 fresh item 0 0 t ne at1,
              link_last,
            )
            refl,
        back_link-IsList c c2 l fresh item x e xs ne v away small linked2 (write_self c1 fresh _),
      )
    ]

append_eq :
    (c c' : Nodes) (l l' : LinkedList) (fresh item : ℕ)
    → item ≢ 0
    → fresh ≢ 0
    → link_last (write c fresh (some (node item 0 0))) l fresh ≡ some (c', l')
    → append c (some l) fresh item
      ≡ some (fresh, c', some (record l' { list_length = add32 l'.list_length 1 }))
unfolding append
append_eq c c' l l' fresh item ni nf run =
    rw (==_ne item 0 ni, create_node_eq c fresh item nf, run, append) refl

-- Appending data that is not NULL, with a new node, makes the node the last of the list.
pub append-IsList :
    (c : Nodes) (l : LinkedList) (xs : Items) (fresh item : ℕ)
    → IsList c l xs
    → item ≢ 0
    → fresh ≢ 0
    → Away fresh xs
    → length xs + 1 < 2 ^ 31
    → (c' : Nodes) × (l' : LinkedList) × (append c (some l) fresh item ≡ some (fresh, c', some l'))
      × IsList c' l' (xs ++ ((fresh, item) ∷ []))
unfolding Appends
append-IsList c l [] fresh item v ni nf away small =
    let (c', l', run, v') = link_last-nil c l fresh item nf v in
    (
      c',
      record l' { list_length = add32 l'.list_length 1 },
      append_eq c c' l l' fresh item ni nf run,
      v',
    )
append-IsList c l ((x, e) ∷ xs) fresh item v ni nf away small =
    let (c', l', run, v') = link_last-cons c l fresh item x e xs nf v away (omega arith) in
    (
      c',
      record l' { list_length = add32 l'.list_length 1 },
      append_eq c c' l l' fresh item ni nf run,
      v',
    )

insert_eq :
    (c c' : Nodes) (l l' : LinkedList) (fresh item index : ℕ)
    → item ≢ 0
    → fresh ≢ 0
    → index < 2 ^ 31
    → l.list_length < 2 ^ 31
    → (if index == 0
        then insert_first (write c fresh (some (node item 0 0))) l fresh
        else if not (ltb index l.list_length)
        then insert_last (write c fresh (some (node item 0 0))) l fresh
        else insert_before (write c fresh (some (node item 0 0))) l fresh index)
      ≡ some (c', l')
    → insert_at_index c (some l) fresh item index ≡ some (fresh, c', some l')
unfolding insert_at_index
insert_eq c c' l l' fresh item index ni nf hi hl run =
    let positive : slt32 index 0 ≡ false = ground arith in
    rw
      (
        ==_ne item 0 ni,
        positive,
        create_node_eq c fresh item nf,
        slt32-ltb index l.list_length hi hl,
        run,
        insert_at_index,
      )
      refl

-- Inserting data that is not NULL, with a new node, at an index up to the length of the list, puts
-- the node in front of the node that had the index, at the end for the length itself.
pub insert_at_index-IsList :
    (c : Nodes) (l : LinkedList) (xs ys : Items) (fresh item : ℕ)
    → IsList c l (xs ++ ys)
    → item ≢ 0
    → fresh ≢ 0
    → Away fresh (xs ++ ys)
    → length xs + length ys + 1 < 2 ^ 31
    → (c' : Nodes) × (l' : LinkedList) × (insert_at_index c (some l) fresh item (length xs)
        ≡ some (fresh, c', some l'))
      × IsList c' l' (xs ++ ((fresh, item) ∷ ys))
unfolding Inserts
insert_at_index-IsList c l [] [] fresh item v ni nf away small =
    let (c', l', run, v') = insert_first-nil c l fresh item nf v in
    (c', l', insert_eq c c' l l' fresh item 0 ni nf (omega arith) (omega (arith, v.len_eq)) run, v')
insert_at_index-IsList c l [] ((q, d) ∷ ys) fresh item v ni nf away small =
    let (c', l', run, v') = insert_first-cons c l fresh item nf q d ys v away (omega arith) in
    (c', l', insert_eq c c' l l' fresh item 0 ni nf (omega arith) (omega (arith, v.len_eq)) run, v')
insert_at_index-IsList c l ((x, e) ∷ xs) [] fresh item v ni nf away small =
    let all : IsList c l ((x, e) ∷ xs) = rw (append-nil xs) at v in
    let (c', l', run, v') =
      insert_last-cons c l fresh item nf x e xs all (rw (append-nil xs) at away) (omega arith) in
    let beyond : ltb (suc (length xs)) l.list_length ≡ false = ground (arith, all.len_eq) in
    (
      c',
      l',
      insert_eq c c' l l' fresh item (suc (length xs)) ni nf (omega arith)
          (omega (arith, all.len_eq)) (rw (==_ne (suc (length xs)) 0 (omega arith), beyond) run),
      v',
    )
insert_at_index-IsList c l ((x, e) ∷ xs) ((q, d) ∷ ys) fresh item v ni nf away small =
    let (c', l', run, v') =
      insert_before-mid c l fresh item nf x e q d xs ys v away (omega arith) in
    let within : ltb (suc (length xs)) l.list_length ≡ true =
      ground (arith, v.len_eq, length-append {0} xs ((q, d) ∷ ys)) in
    (
      c',
      l',
      insert_eq c c' l l' fresh item (suc (length xs)) ni nf (omega arith)
          (omega (arith, v.len_eq, v.small))
          (rw (==_ne (suc (length xs)) 0 (omega arith), within) run),
      v',
    )
