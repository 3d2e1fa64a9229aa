-- ===== src/Nodes/Linked.antt =====
-- Sequences of linked nodes: addresses with their contents, in order.
use dbos.Base.{ℕ, ◌≡◌, refl, sym, ◌∙◌, ap, ◌≢◌, Option, some, List, [], ◌∷◌, ◌++◌, arith, ==_ne}
use dbos.Nodes.{Node, node, Nodes, write, load}

abbrev pub Items : Type 0
Items = List (ℕ × ℕ)

-- The address of the first node, or `end` if there is none.
abbrev pub first : Items → ℕ → ℕ
first [] end = end
first ((p, d) ∷ xs) end = p

-- The address of the last node, or `start` if there is none.
abbrev pub last : ℕ → Items → ℕ
last start [] = start
last start ((p, d) ∷ xs) = last p xs

-- The nodes of `xs` are linked in both directions, from `before` in front to `after` behind.
abbrev pub Linked : Nodes → ℕ → Items → ℕ → Type 0
Linked c before [] after = Unit {0}
Linked c before ((p, d) ∷ xs) after =
    (p ≢ 0) × (c p ≡ some (node d (first xs after) before)) × Linked c p xs after

-- The address is not among the nodes.
abbrev pub Away : ℕ → Items → Type 0
Away a [] = Unit {0}
Away a ((p, d) ∷ xs) = (a ≢ p) × Away a xs

abbrev pub Distinct : Items → Type 0
Distinct [] = Unit {0}
Distinct ((p, d) ∷ xs) = Away p xs × Distinct xs

pub write_self : (c : Nodes) (p : ℕ) (v : Option Node) → write c p v p ≡ v
unfolding write
write_self c p v = ground arith

pub write_ne : (c : Nodes) (p a : ℕ) (v : Option Node) → a ≢ p → write c p v a ≡ c a
unfolding write
write_ne c p a v ne = ground arith

pub load-some : (c : Nodes) (p : ℕ) → p ≢ 0 → load c p ≡ c p
unfolding load
load-some c p ne = rw (==_ne p 0 ne)

-- A change away from the nodes leaves them linked.
pub Linked-frame :
    (c : Nodes) (p before after : ℕ) (v : Option Node) (xs : Items)
    → Away p xs
    → Linked c before xs after
    → Linked (write c p v) before xs after
Linked-frame c p before after v [] a l = tt
Linked-frame c p before after v ((q, d) ∷ xs) a l =
    (l.0, write_ne c p q v (λ e. a.0 (sym e)) ∙ l.1, Linked-frame c p q after v xs a.1 l.2)

pub Away-append : (a : ℕ) (xs ys : Items) → Away a (xs ++ ys) → Away a xs × Away a ys
Away-append a [] ys h = (tt, h)
Away-append a ((p, d) ∷ xs) ys h = let (l, r) = Away-append a xs ys h.1 in ((h.0, l), r)

pub append-Away : (a : ℕ) (xs ys : Items) → Away a xs → Away a ys → Away a (xs ++ ys)
append-Away a [] ys h k = k
append-Away a ((p, d) ∷ xs) ys h k = (h.0, append-Away a xs ys h.1 k)

pub first-append : (xs ys : Items) (after : ℕ) → first (xs ++ ys) after ≡ first xs (first ys after)
first-append [] ys after = refl
first-append ((p, d) ∷ xs) ys after = refl

pub last-append : (before : ℕ) (xs ys : Items) → last before (xs ++ ys) ≡ last (last before xs) ys
last-append before [] ys = refl
last-append before ((p, d) ∷ xs) ys = last-append p xs ys

pub Linked-split :
    (c : Nodes) (before after : ℕ) (xs ys : Items)
    → Linked c before (xs ++ ys) after
    → Linked c before xs (first ys after) × Linked c (last before xs) ys after
Linked-split c before after [] ys l = (tt, l)
Linked-split c before after ((p, d) ∷ xs) ys l =
    let (l1, l2) = Linked-split c p after xs ys l.2 in
    ((l.0, l.1 ∙ ap (λ q. some (node d q before)) (first-append xs ys after), l1), l2)

pub Linked-join :
    (c : Nodes) (before after : ℕ) (xs ys : Items)
    → Linked c before xs (first ys after)
    → Linked c (last before xs) ys after
    → Linked c before (xs ++ ys) after
Linked-join c before after [] ys l k = k
Linked-join c before after ((p, d) ∷ xs) ys l k = (
  l.0,
  l.1 ∙ ap (λ q. some (node d q before)) (sym (first-append xs ys after)),
  Linked-join c p after xs ys l.2 k,
)

-- What distinct addresses say of the node between `xs` and `ys`.
pub Distinct-mid :
    (xs ys : Items) (p d : ℕ)
    → Distinct (xs ++ ((p, d) ∷ ys))
    → Away p xs × Away p ys × Distinct (xs ++ ys)
Distinct-mid [] ys p d u = (tt, u.0, u.1)
Distinct-mid ((q, e) ∷ xs) ys p d u =
    let (l, r, rest) = Distinct-mid xs ys p d u.1 in
    let (al, ar) = Away-append q xs ((p, d) ∷ ys) u.0 in
    (((λ eq. ar.0 (sym eq)), l), r, (append-Away q xs ys al ar.1, rest))

pub Distinct-left : (xs ys : Items) → Distinct (xs ++ ys) → Distinct xs
Distinct-left [] ys u = tt
Distinct-left ((q, e) ∷ xs) ys u = ((Away-append q xs ys u.0).0, Distinct-left xs ys u.1)

pub Distinct-right : (xs ys : Items) → Distinct (xs ++ ys) → Distinct ys
Distinct-right [] ys u = u
Distinct-right ((q, e) ∷ xs) ys u = Distinct-right xs ys u.1

pub last-Away :
    (before p d : ℕ) (xs ys : Items)
    → Distinct (((p, d) ∷ xs) ++ ys)
    → Away (last before ((p, d) ∷ xs)) ys
last-Away before p d [] ys u = u.0
last-Away before p d ((q, e) ∷ xs) ys u = last-Away p q e xs ys u.1
