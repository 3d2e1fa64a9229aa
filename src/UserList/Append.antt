-- ===== src/UserList/Append.antt =====
-- Appending to a list of libraries/liblist/liblist.c, seen by index.
use dbos.Base.{
  ℕ, zero, suc, ◌+◌, ◌^◌, ◌<◌, ◌≡◌, ◌≢◌, refl, sym, ap, ◌∙◌, some, [], ◌∷◌, ◌++◌, arith, length,
}
use dbos.Nodes.{Nodes}
use dbos.Nodes.Linked.{Items, Away}
use dbos.LinkedList.{LinkedList}
use dbos.LinkedList.Spec.{IsList, address_at}
use dbos.LinkedList.Place.{append-IsList}
use dbos.LinkedList.Search.{get_at-address}
use dbos.UserList.{list_append, list_get_at}

address_at-last : (xs : Items) (p d : ℕ) → address_at (xs ++ ((p, d) ∷ [])) (length xs) ≡ p
address_at-last [] p d = refl
address_at-last ((q, e) ∷ xs) p d = address_at-last xs p d

address_at-before :
    (xs : Items) (p d i : ℕ) → i < length xs → address_at (xs ++ ((p, d) ∷ [])) i ≡ address_at xs i
address_at-before [] p d i h = absurd (omega arith)
address_at-before ((q, e) ∷ xs) p d zero h = refl
address_at-before ((q, e) ∷ xs) p d (suc i) h = address_at-before xs p d i (omega arith)

-- `list_append` of data to a list returns the new node; `list_get_at` then finds it at the index that
-- was the length, and every other node at its index, when `malloc` returned memory that is no node of
-- the list and the length stays below 2 ^ 31.
pub list_append-list_get_at :
    (c : Nodes) (l : LinkedList) (xs : Items) (fresh item : ℕ)
    → IsList c l xs
    → item ≢ 0
    → fresh ≢ 0
    → Away fresh xs
    → length xs + 1 < 2 ^ 31
    → (c' : Nodes) × (l' : LinkedList) × (list_append c (some l) fresh item
        ≡ some (fresh, c', some l'))
      × (list_get_at c' (some l') (length xs) ≡ some fresh)
      × ((i : ℕ) → i < length xs → list_get_at c' (some l') i ≡ list_get_at c (some l) i)
list_append-list_get_at c l xs fresh item v ni nf away small =
    let (c', l', run, v') = append-IsList c l xs fresh item v ni nf away small in
    let ys = xs ++ ((fresh, item) ∷ []) in
    (
      c',
      l',
      run,
      get_at-address c' l' ys (length xs) v' (omega arith)
          ∙ ap some (address_at-last xs fresh item),
      λ i h.
          get_at-address c' l' ys i v' (omega arith)
          ∙ ap some (address_at-before xs fresh item i h)
          ∙ sym (get_at-address c l xs i v (omega arith)),
    )
