-- ===== src/Scheduler/Lost.antt =====
-- Processes that the scheduler of kernel/process loses.
use dbos.Base.{ℕ, ◌≡◌, refl, ◌≢◌, List, ==_ne}
use dbos.Tree.{Tree, Trees, nil, cons, data_of}
use dbos.Scheduler.{find_below}

-- `proc_find` never looks at the sub-trees behind the first one that has data: a process is found
-- there only if the sub-tree alone holds it.
pub find_below_first :
    (pids : ℕ → ℕ) (pid : ℕ) (child : Tree) (rest : Trees)
    → data_of child ≢ 0
    → find_below pids pid (cons child rest) ≡ find_below pids pid (cons child nil)
unfolding find_below
find_below_first pids pid child rest ne = rw (==_ne (data_of child) 0 ne) refl
