-- ===== src/Scheduler/Steps.antt =====
-- The steps of the scheduler, and what holds in every state that they lead to.
use dbos.Base.{ℕ, ◌≡◌, refl, sym, inl, inr, true, not, Option, none, some, arith, ◌==◌, Bool-cases}
use mathlib.Core.Path.{subst}
use mathlib.Core.Option.{some-injective}
use dbos.Scheduler.{
  Sched, assign, make_dead, purge, preempt, exit, wait, sleep, wake, kill, timekeeper, wait_for,
  make_napping, proc_find, ready_state, living_state, napping_state, dead_state,
}
use dbos.Scheduler.Members.{Without, Without-value}
use dbos.Scheduler.Inv.{
  sleepers, assign-IsOrdered, purge-IsOrdered, purge-IsOut, make_dead-IsOrdered, assign-IsWaiting,
  Without-waiters, Without-lists,
}
use dbos.Scheduler.Moves.{IsSchedule, make_napping-IsSchedule}
use dbos.Scheduler.Clock.{timekeeper-IsSchedule, wakeup-IsSchedule}
use dbos.Scheduler.Waiting.{wait_for-IsSchedule}
use dbos.Scheduler.Next.{preempt-Switched}

-- What may happen to the scheduler: the two timer routines, and the system calls of the current
-- process while it lives. A preempted process that is set to die is not yet in the dead queue, and
-- only a process that is ready is killed.
pub data Step (s : Sched) (s' : Sched) : Type 0 where
  tick : s' ≡ timekeeper s → Step s s'
  preempted :
      (regs stack : ℕ)
      → (s.state s.current ≡ dead_state → Without s.current s.dead)
      → preempt s regs ≡ some (stack, s')
      → Step s s'
  exits : s.state s.current ≡ living_state → exit s s.current ≡ some s' → Step s s'
  sleeps :
      (time : ℕ) → s.state s.current ≡ living_state → sleep s s.current time ≡ some s' → Step s s'
  waits : (pid : ℕ) → s.state s.current ≡ living_state → wait s s.current pid ≡ some s' → Step s s'
  wakes : (pid : ℕ) → s' ≡ wake s s.current pid → Step s s'
  kills :
      (pid : ℕ) → s.state (proc_find s pid) ≡ ready_state → s' ≡ kill s s.current pid → Step s s'

pub data Reach (s : Sched) : Sched → Type 0 where
  here : Reach s s
  next : {t u : Sched} → Reach s t → Step t u → Reach s u

-- The lists of the scheduler are in order, for some way in which the waiters wait.
abbrev pub InOrder : Sched → Type 0
InOrder s = (waits_for : ℕ → ℕ) × IsSchedule waits_for s

-- What a run of `preempt` within a system call gives.
preempt_of :
    {A : Type 0} (r : Option (ℕ × Sched)) (f : ℕ × Sched → A) (a : A)
    → ◌≡◌ {A = Option A} (elim r [ none ↦ none | some x ↦ some (f x) ]) (some a)
    → (x : ℕ × Sched) × (r ≡ some x) × (f x ≡ a)
preempt_of none f a e = absurd (none_some a e)
  where
    none_some : {A : Type 0} (a : A) → ◌≡◌ {A = Option A} none (some a) → ⊥
    none_some a e = cc
preempt_of (some x) f a e = (x, refl, some-injective _ _ e)

exits-InOrder :
    (s s' : Sched)
    → InOrder s
    → s.state s.current ≡ living_state
    → exit s s.current ≡ some s'
    → InOrder s'
unfolding exit
exits-InOrder s s' (g, v) alive run =
    let o =
      Without-lists s s.current v.ordered (λ x. omega (arith, x, alive))
        (λ x. omega (arith, x, alive)) (λ x. omega (arith, x, alive)) in
    let s0 : Sched = record s { state = assign s.state s.current dead_state } in
    let v0 : IsSchedule g s0 = record {
      ordered = assign-IsOrdered s s.current dead_state v.ordered o (λ x. refl);
      waiting =
          assign-IsWaiting g s.waiters s.state s.napping s.current dead_state v.waiting
            (Without-waiters s.current v.waiting (λ x. omega (arith, x, alive)));
    } in
    let (x, ran, e) = preempt_of (preempt s0 (s.proc_regs s.current)) (λ x. x.1) s' run in
    let sw = preempt-Switched g s0 (s.proc_regs s.current) x.0 x.1 v0 (λ y. o.not_dead) ran in
    (g, subst (IsSchedule g) e sw.schedule)

sleeps-InOrder :
    (s s' : Sched) (time : ℕ)
    → InOrder s
    → s.state s.current ≡ living_state
    → sleep s s.current time ≡ some s'
    → InOrder s'
unfolding sleep
sleeps-InOrder s s' time (g, v) alive run =
    let (x, ran, e) =
      preempt_of (preempt s (s.proc_regs s.current)) (λ x. make_napping x.1 s.current time) s'
        run in
    let sw =
      preempt-Switched g s (s.proc_regs s.current) x.0 x.1 v (λ y. absurd (omega (arith, y, alive)))
        ran in
    (g, subst (IsSchedule g) e (make_napping-IsSchedule g x.1 s.current time sw.schedule))

waits-InOrder :
    (s s' : Sched) (pid : ℕ)
    → InOrder s
    → s.state s.current ≡ living_state
    → wait s s.current pid ≡ some s'
    → InOrder s'
unfolding wait
waits-InOrder s s' pid (g, v) alive run =
    let (x, ran, e) =
      preempt_of (preempt s (s.proc_regs s.current)) (λ x. (wait_for x.1 s.current pid).1) s' run in
    let sw =
      preempt-Switched g s (s.proc_regs s.current) x.0 x.1 v (λ y. absurd (omega (arith, y, alive)))
        ran in
    subst InOrder e (wait_for-IsSchedule g x.1 s.current pid sw.schedule (sw.not_napping alive))

kills-InOrder :
    (s : Sched) (pid : ℕ)
    → InOrder s
    → s.state (proc_find s pid) ≡ ready_state
    → InOrder (kill s s.current pid)
unfolding kill purge make_dead
kills-InOrder s pid (g, v) e =
    let t = proc_find s pid in
    elim (Bool-cases (proc_find s pid == 0)) [
      | inl null ↦ (g, rw (null, kill) v)
      | inr found ↦
          let alive : not (s.state (proc_find s pid) == dead_state) ≡ true = rw e refl in
          let awake =
            Without-value s.state napping_state (proc_find s pid) (sleepers s.napping)
              (λ x. omega (arith, x, e)) v.ordered.naps_all in
          (
            g,
            rw (found, alive, kill)
                (record {
                  ordered =
                      make_dead-IsOrdered (purge s (proc_find s pid)) (proc_find s pid)
                        (purge-IsOrdered s (proc_find s pid) v.ordered)
                        (purge-IsOut s (proc_find s pid) awake);
                  waiting =
                      assign-IsWaiting g s.waiters s.state s.napping (proc_find s pid) dead_state
                        v.waiting
                        (Without-waiters (proc_find s pid) v.waiting (λ x. omega (arith, x, e)));
                }),
          )
    ]

Step-InOrder : {s s' : Sched} → Step s s' → InOrder s → InOrder s'
unfolding wake
Step-InOrder {s} (tick e) (g, v) = (g, subst (IsSchedule g) (sym e) (timekeeper-IsSchedule g s v))
Step-InOrder {s} {s'} (preempted regs stack fresh run) (g, v) =
    (g, (preempt-Switched g s regs stack s' v fresh run).schedule)
Step-InOrder {s} {s'} (exits alive run) v = exits-InOrder s s' v alive run
Step-InOrder {s} {s'} (sleeps time alive run) v = sleeps-InOrder s s' time v alive run
Step-InOrder {s} {s'} (waits pid alive run) v = waits-InOrder s s' pid v alive run
Step-InOrder {s} (wakes pid e) (g, v) =
    (g, subst (IsSchedule g) (sym e) (wakeup-IsSchedule g s pid v))
Step-InOrder {s} (kills pid ready e) v = subst InOrder (sym e) (kills-InOrder s pid v ready)

-- In every state that the steps lead to from one in order, the ready queue, the dead queue and the
-- list of napping processes hold different processes, each in the state of its list, no process is
-- living but the current one, and whoever waits for a process waits for that one only. The steps are the
-- timer routines and the system calls of the current process, where that process lives for exit, sleep
-- and wait, only a process that is ready is killed, and a dead process is preempted only while it is not
-- in the dead queue.
pub Reach-InOrder : {s s' : Sched} → Reach s s' → InOrder s → InOrder s'
Reach-InOrder here v = v
Reach-InOrder (next r st) v = Step-InOrder st (Reach-InOrder r v)
