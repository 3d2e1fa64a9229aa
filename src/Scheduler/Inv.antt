-- ===== src/Scheduler/Inv.antt =====
-- What holds of the scheduler between two of its steps, and the moves that keep it.
use dbos.Base.{ℕ, ◌≤◌, ◌≡◌, sym, ◌∙◌, ap, ◌≢◌, List, [], ◌∷◌, arith, length}
use native.Mathlib.Decide.{ℕ_discrete}
use dbos.Scheduler.{
  Sched, Timed, assign, enqueue_process, make_ready, make_dead, purge, ready_state, living_state,
  napping_state, dead_state, sched_max,
}
use dbos.Scheduler.Members.{
  All, Without, Distinct, assign_self, assign_ne, Without-value, All-assign, All-remove,
  Without-remove_self, Distinct-remove, length-remove, All-enqueue, Distinct-enqueue,
  length-enqueue,
}

-- The processes that nap.
abbrev pub sleepers : List Timed → List ℕ
sleepers [] = []
sleepers (t ∷ ts) = t.process ∷ sleepers ts

-- Each list holds different processes, all of them in the state of the list, and no process but the
-- current one is living.
pub record IsOrderedAt (state : ℕ → ℕ) (ready dead : List ℕ) (naps : List Timed) (current : ℕ)
    : Type 0 where
  pub ready_all : All (λ p. state p ≡ ready_state) ready
  pub ready_distinct : Distinct ready
  pub ready_length : length ready ≤ sched_max
  pub dead_all : All (λ p. state p ≡ dead_state) dead
  pub dead_distinct : Distinct dead
  pub naps_all : All (λ p. state p ≡ napping_state) (sleepers naps)
  pub naps_distinct : Distinct (sleepers naps)
  pub living : (p : ℕ) → state p ≡ living_state → p ≡ current

abbrev pub IsOrdered : Sched → Type 0
IsOrdered s = IsOrderedAt s.state s.ready s.dead s.napping s.current

-- The waiters `w` of the processes nap, but not by the clock, and each of them waits for one
-- process only, `waits_for`.
pub record IsWaiting (waits_for : ℕ → ℕ) (w : ℕ → List ℕ) (state : ℕ → ℕ) (naps : List Timed)
    : Type 0 where
  pub waiters_all : (p : ℕ) → All (λ q. state q ≡ napping_state) (w p)
  pub waiters_awake : (p : ℕ) → All (λ q. Without q (sleepers naps)) (w p)
  pub waiters_one : (p : ℕ) → All (λ q. waits_for q ≡ p) (w p)
  pub waiters_distinct : (p : ℕ) → Distinct (w p)

-- The process is in none of the lists of the scheduler.
pub record IsOut (s : Sched) (p : ℕ) : Type 0 where
  pub not_ready : Without p s.ready
  pub not_dead : Without p s.dead
  pub not_napping : Without p (sleepers s.napping)

pub assign-IsOrdered :
    (s : Sched) (p v : ℕ)
    → IsOrdered s
    → IsOut s p
    → (v ≡ living_state → p ≡ s.current)
    → IsOrdered (record s { state = assign s.state p v })
assign-IsOrdered s p v h o alive = record {
  ready_all = All-assign s.state ready_state p v s.ready o.not_ready h.ready_all;
  ready_distinct = h.ready_distinct;
  ready_length = h.ready_length;
  dead_all = All-assign s.state dead_state p v s.dead o.not_dead h.dead_all;
  dead_distinct = h.dead_distinct;
  naps_all = All-assign s.state napping_state p v (sleepers s.napping) o.not_napping h.naps_all;
  naps_distinct = h.naps_distinct;
  living = λ q e. elim (ℕ_discrete q p) [
    | yes same ↦
        same ∙ alive (sym (assign_self s.state p v) ∙ ap (assign s.state p v) (sym same) ∙ e)
    | no ne ↦ h.living q (sym (assign_ne s.state p v q ne) ∙ e)
  ];
}

pub enqueue_ready-IsOrdered :
    (s : Sched) (p : ℕ)
    → IsOrdered s
    → s.state p ≡ ready_state
    → Without p s.ready
    → IsOrdered (record s { ready = enqueue_process s.ready p })
enqueue_ready-IsOrdered s p h e w = record {
  ready_all = All-enqueue (λ q. s.state q ≡ ready_state) p s.ready e h.ready_all;
  ready_distinct = Distinct-enqueue p s.ready w h.ready_distinct;
  ready_length = length-enqueue p s.ready h.ready_length;
  dead_all = h.dead_all;
  dead_distinct = h.dead_distinct;
  naps_all = h.naps_all;
  naps_distinct = h.naps_distinct;
  living = h.living;
}

pub enqueue_dead-IsOrdered :
    (s : Sched) (p : ℕ)
    → IsOrdered s
    → s.state p ≡ dead_state
    → Without p s.dead
    → IsOrdered (record s { dead = enqueue_process s.dead p })
enqueue_dead-IsOrdered s p h e w = record {
  dead_all = All-enqueue (λ q. s.state q ≡ dead_state) p s.dead e h.dead_all;
  dead_distinct = Distinct-enqueue p s.dead w h.dead_distinct;
  ready_all = h.ready_all;
  ready_distinct = h.ready_distinct;
  ready_length = h.ready_length;
  naps_all = h.naps_all;
  naps_distinct = h.naps_distinct;
  living = h.living;
}

pub purge-IsOrdered : (s : Sched) (p : ℕ) → IsOrdered s → IsOrdered (purge s p)
unfolding purge
purge-IsOrdered s p h = record {
  ready_all = All-remove (λ q. s.state q ≡ ready_state) p s.ready h.ready_all;
  ready_distinct = Distinct-remove p s.ready h.ready_distinct;
  ready_length = let l = length-remove p s.ready in omega (arith, h.ready_length);
  dead_all = All-remove (λ q. s.state q ≡ dead_state) p s.dead h.dead_all;
  dead_distinct = Distinct-remove p s.dead h.dead_distinct;
  naps_all = h.naps_all;
  naps_distinct = h.naps_distinct;
  living = h.living;
}

pub purge-IsOut : (s : Sched) (p : ℕ) → Without p (sleepers s.napping) → IsOut (purge s p) p
unfolding purge
purge-IsOut s p w = record {
  not_ready = Without-remove_self p s.ready;
  not_dead = Without-remove_self p s.dead;
  not_napping = w;
}

pub make_ready-IsOrdered :
    (s : Sched) (p : ℕ) → IsOrdered s → IsOut s p → IsOrdered (make_ready s p)
unfolding make_ready
make_ready-IsOrdered s p h o =
    enqueue_ready-IsOrdered (record s { state = assign s.state p ready_state }) p
      (assign-IsOrdered s p ready_state h o (λ e. ground arith)) (assign_self s.state p ready_state)
      o.not_ready

pub make_dead-IsOrdered : (s : Sched) (p : ℕ) → IsOrdered s → IsOut s p → IsOrdered (make_dead s p)
unfolding make_dead
make_dead-IsOrdered s p h o =
    enqueue_dead-IsOrdered (record s { state = assign s.state p dead_state }) p
      (assign-IsOrdered s p dead_state h o (λ e. ground arith)) (assign_self s.state p dead_state)
      o.not_dead

-- A process whose state is that of no list is in no list.
pub Without-lists :
    (s : Sched) (p : ℕ)
    → IsOrdered s
    → s.state p ≢ ready_state
    → s.state p ≢ dead_state
    → s.state p ≢ napping_state
    → IsOut s p
Without-lists s p h nr nd nn = record {
  not_ready = Without-value s.state ready_state p s.ready nr h.ready_all;
  not_dead = Without-value s.state dead_state p s.dead nd h.dead_all;
  not_napping = Without-value s.state napping_state p (sleepers s.napping) nn h.naps_all;
}

pub assign-IsWaiting :
    (g : ℕ → ℕ) (w : ℕ → List ℕ) (state : ℕ → ℕ) (naps : List Timed) (p v : ℕ)
    → IsWaiting g w state naps
    → ((q : ℕ) → Without p (w q))
    → IsWaiting g w (assign state p v) naps
assign-IsWaiting g w state naps p v h out = record {
  waiters_all = λ q. All-assign state napping_state p v (w q) (out q) (h.waiters_all q);
  waiters_awake = h.waiters_awake;
  waiters_one = h.waiters_one;
  waiters_distinct = h.waiters_distinct;
}

pub Without-waiters :
    {g : ℕ → ℕ} {w : ℕ → List ℕ} {state : ℕ → ℕ} {naps : List Timed} (p : ℕ)
    → IsWaiting g w state naps
    → state p ≢ napping_state
    → (q : ℕ) → Without p (w q)
Without-waiters {g} {w} {state} p h ne q =
    Without-value state napping_state p (w q) ne (h.waiters_all q)
