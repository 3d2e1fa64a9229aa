-- ===== src/LinkedList/Index.antt =====
-- Theorems on `linked_list_remove_at_index` of kernel/util/linked_list.c.
use dbos.Base.{
  ℕ, ◌^◌, ◌≤◌, ◌<◌, ◌≡◌, refl, ◌∙◌, ap, if◌then◌else◌, true, false, none, some, [], ◌∷◌, ◌++◌,
  arith, length, length-append,
}
use dbos.Base.Word.{u32_mod, slt32}
use dbos.Nodes.{Nodes}
use dbos.Nodes.Linked.{Items, first, Linked}
use dbos.LinkedList.{LinkedList, step, remove, remove_at_index}
use dbos.LinkedList.Spec.{IsList, load-node}
use dbos.LinkedList.Remove.{remove-IsList}

step-length :
    (c : Nodes) (before p d : ℕ) (xs ys : Items)
    → Linked c before (xs ++ ((p, d) ∷ ys)) 0
    → step (length xs) c (first (xs ++ ((p, d) ∷ ys)) 0) ≡ some p
unfolding step
step-length c before p d [] ys l = refl
step-length c before p d ((q, e) ∷ xs) ys l =
    rw (load-node c q e _ before l.0 l.1, step) (step-length c q p d xs ys l.2)

below_length : (n k : ℕ) → n < k → k < 2 ^ 31 → slt32 n k ≡ true
below_length n k h small = ground arith

not_negative : (n : ℕ) → n < 2 ^ 31 → slt32 n 0 ≡ false
not_negative n small = ground arith

negative :
    (n k : ℕ) → 2 ^ 31 ≤ n → n < u32_mod → k < 2 ^ 31 → (slt32 n k ≡ true) × (slt32 n 0 ≡ true)
negative n k h word small = (ground arith, ground arith)

remove_at_eq :
    (c : Nodes) (l : LinkedList) (index k p : ℕ)
    → slt32 index l.list_length ≡ true
    → (if slt32 index 0 then 0 else index) ≡ k
    → step k c l.list_head ≡ some p
    → remove_at_index c (some l) index ≡ remove c (some l) p
unfolding remove_at_index
remove_at_eq c l index k p within e run = rw (within, e, run, remove_at_index) refl

-- Removing at an index within the list frees the node that has the index, and leaves the others in
-- their order.
pub remove_at_index-IsList :
    (c : Nodes) (l : LinkedList) (xs ys : Items) (p d : ℕ)
    → IsList c l (xs ++ ((p, d) ∷ ys))
    → (c' : Nodes) × (l' : LinkedList) × (remove_at_index c (some l) (length xs)
        ≡ some (c', some l'))
      × IsList c' l' (xs ++ ys)
      × (c' p ≡ none)
remove_at_index-IsList c l xs ys p d v =
    let (c', l', run, v', gone) = remove-IsList c l xs ys p d v in
    let total = length-append {0} xs ((p, d) ∷ ys) in
    let within =
      below_length (length xs) l.list_length (omega (arith, v.len_eq, total))
        (omega (arith, v.len_eq, v.small)) in
    let positive = not_negative (length xs) (omega (arith, v.small, total)) in
    let at = step-length c 0 p d xs ys v.linked in
    (
      c',
      l',
      remove_at_eq c l (length xs) (length xs) p within (rw positive refl)
            (ap (step (length xs) c) v.head_eq ∙ at)
          ∙ run,
      v',
      gone,
    )

-- A negative index is taken for 0: on a list that is not empty, `linked_list_remove_at_index` then
-- removes and frees the first node.
pub remove_at_index-negative :
    (c : Nodes) (l : LinkedList) (xs : Items) (p d index : ℕ)
    → IsList c l ((p, d) ∷ xs)
    → 2 ^ 31 ≤ index
    → index < u32_mod
    → (c' : Nodes) × (l' : LinkedList) × (remove_at_index c (some l) index ≡ some (c', some l'))
      × IsList c' l' xs
      × (c' p ≡ none)
unfolding step
remove_at_index-negative c l xs p d index v low word =
    let (c', l', run, v', gone) = remove-IsList c l [] xs p d v in
    let (within, below) =
      negative index l.list_length low word (omega (arith, v.len_eq, v.small)) in
    (c', l', remove_at_eq c l index 0 p within (rw below refl) (ap some v.head_eq) ∙ run, v', gone)
