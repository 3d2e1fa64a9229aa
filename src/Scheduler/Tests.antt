-- ===== src/Scheduler/Tests.antt =====
-- Runs of the scheduler, and its theorems at the kernel with two processes.
use dbos.Base.{ℕ, List, ◌≡◌, refl, some, [], ◌∷◌, arith, ◌==◌, if◌then◌else◌}
use dbos.Tree.{Tree, tree, nil, cons}
use dbos.Scheduler.{
  Sched, timekeeper, wake_due, make_ready, enqueue_process, proc_find, find_recur, find_below,
}
use dbos.Scheduler.Steps.{tick, here, next, InOrder, Reach-InOrder}
use dbos.Scheduler.Turns.{ticks, IsRunning, ticks-turn}

abbrev process_tree : Tree
process_tree = tree 10 (cons (tree 20 nil) (cons (tree 30 nil) (cons (tree 40 nil) nil)))

-- The process at 10 is the kernel, 20 is living, 30 naps and 40 is dead.
abbrev machine : Sched
machine = record {
  state = λ p.
      if p == 10 then 1 else if p == 20 then 2 else if p == 30 then 3 else if p == 40 then 4 else 0;
  pid = λ p.
      if p == 10 then 1 else if p == 20 then 2 else if p == 30 then 3 else if p == 40 then 4 else 0;
  cpl = λ p. 2;
  proc_regs = λ p. 0;
  eax = λ p. 0;
  fpu_regs = λ p. 0;
  sys_stack = λ p. 0;
  proc_pdir = λ p. 0;
  waiters = λ p. [];
  ready = 10 ∷ [];
  dead = 40 ∷ [];
  napping = record { process = 30; counter = 1 } ∷ [];
  current = 20;
  kernel = 10;
  processes = process_tree;
  tss_ss0 = 0;
  tss_esp0 = 0;
  directory = 0;
  fpu = 0;
}

-- At the end of its nap the process is ready.
woken : (timekeeper machine).ready ≡ 10 ∷ 30 ∷ []
unfolding timekeeper wake_due make_ready enqueue_process
woken = refl

-- The process with pid 4 is the third child of the kernel, and is not found.
missed : proc_find machine 4 ≡ 0
unfolding proc_find find_recur find_below
missed = refl

living_one : (p : ℕ) → machine.state p ≡ 2 → p ≡ 20
living_one p e = ground arith

machine-InOrder : InOrder machine
machine-InOrder = (
  (λ p. 0),
  record {
    ordered = record {
      ready_all = (refl, tt);
      ready_distinct = (tt, tt);
      ready_length = omega arith;
      dead_all = (refl, tt);
      dead_distinct = (tt, tt);
      naps_all = (refl, tt);
      naps_distinct = (tt, tt);
      living = living_one;
    };
    waiting = record {
      waiters_all = λ p. tt;
      waiters_awake = λ p. tt;
      waiters_one = λ p. tt;
      waiters_distinct = λ p. tt;
    };
  },
)

Reach-InOrder_example : InOrder (timekeeper (timekeeper machine))
Reach-InOrder_example = Reach-InOrder (next (next here (tick refl)) (tick refl)) machine-InOrder

-- The process at 50 naps, and waits for the dead one at 40.
abbrev mourning : Sched
mourning = record machine {
  state = λ p. if p == 50 then 3 else machine.state p;
  waiters = λ p. if p == 40 then 50 ∷ [] else [];
}

-- The tree with the napping process as its first child.
abbrev reachable : Sched
reachable = record machine { processes = tree 10 (cons (tree 30 nil) nil) }

-- Two processes wait and one naps, which is woken by the first interrupt; the process at 20 runs.
abbrev busy : Sched
busy = record machine {
  state = λ p.
      if p == 10 then 1 else if p == 20 then 2 else if p == 30 then 1 else if p == 40 then 3 else 0;
  ready = 10 ∷ 30 ∷ [];
  dead = [];
  napping = record { process = 40; counter = 1 } ∷ [];
}

busy_living : (p : ℕ) → busy.state p ≡ 2 → p ≡ 20
busy_living p e = ground arith

busy-IsRunning : IsRunning busy
busy-IsRunning = record {
  waits_for = λ p. 0;
  schedule = record {
    ordered = record {
      ready_all = (refl, (refl, tt));
      ready_distinct = omega arith;
      ready_length = omega arith;
      dead_all = tt;
      dead_distinct = tt;
      naps_all = (refl, tt);
      naps_distinct = (tt, tt);
      living = busy_living;
    };
    waiting = record {
      waiters_all = λ p. tt;
      waiters_awake = λ p. tt;
      waiters_one = λ p. tt;
      waiters_distinct = λ p. tt;
    };
  };
  current_ne = omega arith;
  current_living = refl;
  ready_ne = (omega arith, (omega arith, tt));
  naps_ne = (omega arith, tt);
  room = omega arith;
  none_dead = refl;
}

ticks-turn_example :
    (s' : Sched) × (more : List ℕ) × (ticks (100 ∷ 200 ∷ []) busy ≡ some s')
    × IsRunning s'
    × (s'.current ≡ 30)
    × (s'.ready ≡ 20 ∷ more)
ticks-turn_example = ticks-turn (10 ∷ []) busy 30 200 [] (100 ∷ []) busy-IsRunning refl refl
