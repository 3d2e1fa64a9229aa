-- ===== src/Nodes/Edit.antt =====
-- Relinking the ends of a sequence of linked nodes.
use dbos.Base.{ℕ, ◌≡◌, sym, ◌∙◌, ◌≢◌, some, [], ◌∷◌}
use dbos.Nodes.{node, Nodes, write, set_next, set_previous}
use dbos.Nodes.Linked.{
  Items, first, last, Linked, Away, Distinct, write_self, write_ne, load-some, Linked-frame,
}

-- The nodes `c'` are `c` but at the address `p`.
abbrev pub SameBut : ℕ → Nodes → Nodes → Type 0
SameBut p c c' = (a : ℕ) → a ≢ p → c' a ≡ c a

pub Linked-same :
    (c c' : Nodes) (p before after : ℕ) (xs : Items)
    → SameBut p c c'
    → Away p xs
    → Linked c before xs after
    → Linked c' before xs after
Linked-same c c' p before after [] s a l = tt
Linked-same c c' p before after ((q, d) ∷ xs) s a l =
    (l.0, s q (λ e. a.0 (sym e)) ∙ l.1, Linked-same c c' p q after xs s a.1 l.2)

-- An address away from a sequence that is not empty is not its last one.
pub ne-last : (a before p d : ℕ) (xs : Items) → Away a ((p, d) ∷ xs) → a ≢ last before ((p, d) ∷ xs)
ne-last a before p d [] h = h.0
ne-last a before p d ((q, e) ∷ xs) h = ne-last a p q e xs h.1

pub last-ne-zero :
    (c : Nodes) (before after p d : ℕ) (xs : Items)
    → Linked c before ((p, d) ∷ xs) after
    → last before ((p, d) ∷ xs) ≢ 0
last-ne-zero c before after p d [] l = l.0
last-ne-zero c before after p d ((q, e) ∷ xs) l = last-ne-zero c p after q e xs l.2

-- `last->next = b`
pub set_next-last :
    (c : Nodes) (before a b p d : ℕ) (xs : Items)
    → Linked c before ((p, d) ∷ xs) a
    → Distinct ((p, d) ∷ xs)
    → (c' : Nodes) × (set_next c (last before ((p, d) ∷ xs)) b ≡ some c')
      × Linked c' before ((p, d) ∷ xs) b
      × SameBut (last before ((p, d) ∷ xs)) c c'
unfolding set_next
set_next-last c before a b p d [] l u = (
  write c p (some (node d b before)),
  rw (load-some c p l.0, l.1, set_next),
  (l.0, write_self c p _, tt),
  λ q ne. write_ne c p q _ ne,
)
set_next-last c before a b p d ((q, e) ∷ xs) l u =
    let (c', run, l', same) = set_next-last c p a b q e xs l.2 u.1 in
    (c', run, (l.0, same p (ne-last p p q e xs u.0) ∙ l.1, l'), same)

-- `first->previous = r`
pub set_previous-first :
    (c : Nodes) (before after r p d : ℕ) (xs : Items)
    → Linked c before ((p, d) ∷ xs) after
    → Distinct ((p, d) ∷ xs)
    → (c' : Nodes) × (set_previous c p r ≡ some c')
      × Linked c' r ((p, d) ∷ xs) after
      × SameBut p c c'
unfolding set_previous
set_previous-first c before after r p d xs l u = (
  write c p (some (node d (first xs after) r)),
  rw (load-some c p l.0, l.1, set_previous),
  (l.0, write_self c p _, Linked-frame c p p after _ xs u.0 l.2),
  λ q ne. write_ne c p q _ ne,
)
