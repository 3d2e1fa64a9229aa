-- ===== src/LinkedList/Spec.antt =====
-- What a list of kernel/util/linked_list.c stands for: the addresses and the data of its nodes.
use dbos.Base.{ℕ, zero, suc, ◌^◌, ◌<◌, ◌≡◌, [], ◌∷◌, ◌==◌, if◌then◌else◌, length, some, ◌∙◌, ◌≢◌}
use dbos.Nodes.{Nodes, node, write, load, set_next, set_previous}
use dbos.Nodes.Linked.{Items, first, last, Linked, Distinct, load-some}
use dbos.LinkedList.{LinkedList}

pub record IsList (c : Nodes) (l : LinkedList) (xs : Items) : Type 0 where
  pub linked : Linked c 0 xs 0
  pub distinct : Distinct xs
  pub head_eq : l.list_head ≡ first xs 0
  pub tail_eq : l.list_tail ≡ last 0 xs
  pub len_eq : l.list_length ≡ length xs
  pub small : length xs < 2 ^ 31

-- The address of the first node with the data, 0 for none.
abbrev pub find_first : Items → ℕ → ℕ
find_first [] item = 0
find_first ((p, d) ∷ xs) item = if d == item then p else find_first xs item

-- The address of the node at an index, 0 for none.
abbrev pub address_at : Items → ℕ → ℕ
address_at [] index = 0
address_at ((p, d) ∷ xs) zero = p
address_at ((p, d) ∷ xs) (suc index) = address_at xs index

-- The data is not among the items.
abbrev pub NoData : Items → ℕ → Type 0
NoData [] item = Unit {0}
NoData ((p, d) ∷ xs) item = (d ≢ item) × NoData xs item

pub load-node :
    (c : Nodes) (p d n b : ℕ) → p ≢ 0 → c p ≡ some (node d n b) → load c p ≡ some (node d n b)
load-node c p d n b ne at = load-some c p ne ∙ at

pub set_next_at :
    (c : Nodes) (p d n b q : ℕ)
    → p ≢ 0
    → c p ≡ some (node d n b)
    → set_next c p q ≡ some (write c p (some (node d q b)))
unfolding set_next
set_next_at c p d n b q ne at = rw (load-node c p d n b ne at, set_next)

pub set_previous_at :
    (c : Nodes) (p d n b q : ℕ)
    → p ≢ 0
    → c p ≡ some (node d n b)
    → set_previous c p q ≡ some (write c p (some (node d n q)))
unfolding set_previous
set_previous_at c p d n b q ne at = rw (load-node c p d n b ne at, set_previous)
