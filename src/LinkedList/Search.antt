-- ===== src/LinkedList/Search.antt =====
-- Theorems on the searches of kernel/util/linked_list.c.
use dbos.Base.{
  ℕ, zero, suc, ◌+◌, ◌^◌, ◌<◌, ◌≡◌, refl, sym, ◌∙◌, ap, ◌≢◌, false, some, [], ◌∷◌, ◌++◌, arith,
  ◌==◌, ==_ne, ==_refl, length, length-append, Bool-cases, inl, inr,
}
use dbos.Base.Word.{add32, slt32}
use dbos.Nodes.{Nodes, node}
use dbos.Nodes.Linked.{Items, first, Linked, Away, Linked-split, Distinct-mid}
use dbos.LinkedList.{
  LinkedList, find_loop, find, get_loop, get_at, index_loop, index_of, walk, seek,
}
use dbos.LinkedList.Spec.{IsList, find_first, address_at, NoData, load-node}

find_loop-first :
    (fuel : ℕ) (c : Nodes) (before item : ℕ) (xs : Items)
    → Linked c before xs 0
    → length xs < fuel
    → find_loop fuel c (first xs 0) item ≡ some (find_first xs item)
unfolding find_loop
find_loop-first zero c before item xs l h = absurd (omega arith)
find_loop-first (suc f) c before item [] l h = refl
find_loop-first (suc f) c before item ((p, d) ∷ xs) l h = elim (Bool-cases (d == item)) [
  | inl hit ↦ rw (==_ne p 0 l.0, load-node c p d _ before l.0 l.1, hit, find_loop) refl
  | inr miss ↦
      rw (==_ne p 0 l.0, load-node c p d _ before l.0 l.1, miss, find_loop)
        (find_loop-first f c p item xs l.2 (omega arith))
]

-- Looking for data that is not NULL ends with the address of the first node that holds it, or with
-- NULL where no node does.
pub find-first :
    (c : Nodes) (l : LinkedList) (xs : Items) (item : ℕ)
    → IsList c l xs
    → item ≢ 0
    → find c (some l) item ≡ some (find_first xs item)
unfolding find
find-first c l xs item v ne =
    rw (==_ne item 0 ne, v.head_eq, find)
      (find_loop-first (l.list_length + 1) c 0 item xs v.linked (omega (arith, v.len_eq)))

get_loop-address :
    (c : Nodes) (before : ℕ) (xs : Items) (index : ℕ)
    → Linked c before xs 0
    → get_loop index c (first xs 0) ≡ some (address_at xs index)
unfolding get_loop
get_loop-address c before [] zero l = refl
get_loop-address c before [] (suc i) l = refl
get_loop-address c before ((p, d) ∷ xs) zero l = rw (==_ne p 0 l.0, get_loop) refl
get_loop-address c before ((p, d) ∷ xs) (suc i) l =
    rw (==_ne p 0 l.0, load-node c p d _ before l.0 l.1, get_loop) (get_loop-address c p xs i l.2)

-- At an index that is not negative `linked_list_get_at` returns the node of that index, or NULL
-- behind the end.
pub get_at-address :
    (c : Nodes) (l : LinkedList) (xs : Items) (index : ℕ)
    → IsList c l xs
    → index < 2 ^ 31
    → get_at c (some l) index ≡ some (address_at xs index)
unfolding get_at
get_at-address c l xs index v small =
    let positive : slt32 index 0 ≡ false = ground arith in
    rw (positive, v.head_eq, get_at) (get_loop-address c 0 xs index v.linked)

index_loop-found :
    (fuel i : ℕ) (c : Nodes) (before p d n b : ℕ) (xs ys : Items)
    → Linked c before (xs ++ ((p, d) ∷ ys)) 0
    → p ≢ 0
    → c p ≡ some (node d n b)
    → Away p xs
    → NoData xs d
    → length xs < fuel
    → i + length xs < 2 ^ 31
    → index_loop fuel c (first (xs ++ ((p, d) ∷ ys)) 0) i p ≡ some (i + length xs)
unfolding index_loop
index_loop-found zero i c before p d n b xs ys l np at away other h small = absurd (omega arith)
index_loop-found (suc f) i c before p d n b [] ys l np at away other h small =
    rw (==_ne p 0 np, ==_refl p, index_loop) (ap some (omega arith))
index_loop-found (suc f) i c before p d n b ((q, e) ∷ xs) ys l np at away other h small =
    rw
      (
        ==_ne q 0 l.0,
        ==_ne q p (λ eq. away.0 (sym eq)),
        load-node c q e _ before l.0 l.1,
        load-node c p d n b np at,
        ==_ne e d other.0,
        index_loop,
      )
      (index_loop-found f (add32 i 1) c q p d n b xs ys l.2 np at away.1 other.1 (omega arith)
          (omega arith)
        ∙ ap some (omega arith))

-- The index of a node whose data no earlier node holds is its place in the list, and the node at
-- that index is the node.
pub index_of-get_at :
    (c : Nodes) (l : LinkedList) (xs ys : Items) (p d : ℕ)
    → IsList c l (xs ++ ((p, d) ∷ ys))
    → NoData xs d
    → (index : ℕ) × (index_of c (some l) p ≡ some index)
      × (get_at c (some l) index ≡ some p)
      × (index ≡ length xs)
unfolding index_of
index_of-get_at c l xs ys p d v other =
    let (left, right) = Linked-split c 0 0 xs ((p, d) ∷ ys) v.linked in
    let (away, _, _) = Distinct-mid xs ys p d v.distinct in
    let small : length xs < 2 ^ 31 = omega (arith, v.small, length-append {0} xs ((p, d) ∷ ys)) in
    (
      length xs,
      rw (==_ne p 0 right.0, v.head_eq, index_of)
          (index_loop-found (l.list_length + 1) 0 c 0 p d _ _ xs ys v.linked right.0 right.1 away
              other (omega (arith, v.len_eq, length-append {0} xs ((p, d) ∷ ys))) (omega arith)
            ∙ ap some (omega arith)),
      get_at-address c l (xs ++ ((p, d) ∷ ys)) (length xs) v small
          ∙ ap some (address_there xs ys p d),
      refl,
    )
  where
    address_there : (xs ys : Items) (p d : ℕ) → address_at (xs ++ ((p, d) ∷ ys)) (length xs) ≡ p
    address_there [] ys p d = refl
    address_there ((q, e) ∷ xs) ys p d = address_there xs ys p d

pub walk-length :
    (c : Nodes) (before p d : ℕ) (xs ys : Items)
    → Linked c before (xs ++ ((p, d) ∷ ys)) 0
    → walk (length xs) c (first (xs ++ ((p, d) ∷ ys)) 0) ≡ some p
unfolding walk
walk-length c before p d [] ys l = refl
walk-length c before p d ((q, e) ∷ xs) ys l =
    rw (==_ne q 0 l.0, load-node c q e _ before l.0 l.1, walk) (walk-length c q p d xs ys l.2)

pub seek-found :
    (fuel : ℕ) (c : Nodes) (before p d : ℕ) (xs ys : Items)
    → Linked c before (xs ++ ((p, d) ∷ ys)) 0
    → p ≢ 0
    → Away p xs
    → length xs < fuel
    → seek fuel c (first (xs ++ ((p, d) ∷ ys)) 0) p ≡ some p
unfolding seek
seek-found zero c before p d xs ys l np away h = absurd (omega arith)
seek-found (suc f) c before p d [] ys l np away h = rw (==_ne p 0 np, ==_refl p, seek) refl
seek-found (suc f) c before p d ((q, e) ∷ xs) ys l np away h =
    rw (==_ne q 0 l.0, ==_ne q p (λ eq. away.0 (sym eq)), load-node c q e _ before l.0 l.1, seek)
      (seek-found f c q p d xs ys l.2 np away.1 (omega arith))

pub seek-absent :
    (fuel : ℕ) (c : Nodes) (before p : ℕ) (xs : Items)
    → Linked c before xs 0
    → Away p xs
    → length xs < fuel
    → seek fuel c (first xs 0) p ≡ some 0
unfolding seek
seek-absent zero c before p xs l away h = absurd (omega arith)
seek-absent (suc f) c before p [] l away h = refl
seek-absent (suc f) c before p ((q, e) ∷ xs) l away h =
    rw (==_ne q 0 l.0, ==_ne q p (λ eq. away.0 (sym eq)), load-node c q e _ before l.0 l.1, seek)
      (seek-absent f c q p xs l.2 away.1 (omega arith))
