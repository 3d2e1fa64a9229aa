-- ===== src/Queue/Spec.antt =====
-- What a queue of kernel/util/queue.c stands for: the addresses and the data of its nodes, oldest
-- first.
use dbos.Base.{ℕ, ◌^◌, ◌<◌, ◌≡◌, [], ◌∷◌, ◌==◌, if◌then◌else◌, length}
use dbos.Nodes.{Nodes}
use dbos.Nodes.Linked.{Items, first, last, Linked, Distinct}
use dbos.Queue.{Queue}

pub record IsQueue (c : Nodes) (q : Queue) (xs : Items) : Type 0 where
  pub linked : Linked c 0 xs 0
  pub distinct : Distinct xs
  pub head_eq : q.head ≡ first xs 0
  pub tail_eq : q.tail ≡ last 0 xs
  pub len_eq : q.len ≡ length xs
  pub small : length xs < 2 ^ 31

-- The items whose data is not `item`.
abbrev pub without : Items → ℕ → Items
without [] item = []
without ((p, d) ∷ xs) item = if d == item then without xs item else (p, d) ∷ without xs item
