-- ===== src/Scheduler/Turns.antt =====
-- Timer interrupts (kernel/interrupts/pit.c with the two routines of kernel/process/scheduler.c) give
-- every ready process its turn.
use dbos.Base.{
  ◌+◌, not, ℕ, ◌<◌, ◌≡◌, ◌≢◌, refl, sym, ap, ◌∙◌, true, false, Option, some, List, [], ◌∷◌, ◌++◌,
  arith, ◌==◌, ==_ne, lt→ltb, length, length-append, Bool-cases, inl, inr,
}
use mathlib.Core.List.{append_assoc, append-nil}
use dbos.Base.Maybe.{◌>>=◌}
use dbos.Base.Word.{slt32, sub32}
use dbos.Scheduler.Inv.{sleepers}
use dbos.Scheduler.Moves.{IsSchedule}
use dbos.Scheduler.Clock.{wake_due_state, timekeeper-IsSchedule}
use dbos.Scheduler.Next.{preempt-Switched}
use dbos.Scheduler.{
  Sched, Timed, timekeeper, wake_due, napping_state, assign, enqueue_process, make_ready,
  dequeue_process, requeue, reap, bury, get_next, switch_to, preempt, ready_state, living_state,
  dead_state, sched_max,
}
use dbos.Scheduler.Members.{Without-value, assign_self}
use dbos.Scheduler.Switch.{get_next_eq, taken}

abbrev pub AllNonZero : List ℕ → Type 0
AllNonZero [] = Unit {0}
AllNonZero (p ∷ ps) = (p ≢ 0) × AllNonZero ps

AllNonZero-append : (ps qs : List ℕ) → AllNonZero ps → AllNonZero qs → AllNonZero (ps ++ qs)
AllNonZero-append [] qs h k = k
AllNonZero-append (p ∷ ps) qs h k = (h.0, AllNonZero-append ps qs h.1 k)

-- The lists are in order, a living process runs, none is dead, and the ready queue has room for every
-- process that naps.
pub record IsRunning (s : Sched) : Type 0 where
  pub waits_for : ℕ → ℕ
  pub schedule : IsSchedule waits_for s
  pub current_ne : s.current ≢ 0
  pub current_living : s.state s.current ≡ living_state
  pub ready_ne : AllNonZero s.ready
  pub naps_ne : AllNonZero (sleepers s.napping)
  pub room : length s.ready + length s.napping < sched_max
  pub none_dead : s.dead ≡ []

-- `pit_interrupt_handler` with the two routines of the scheduler, in the order of their installation.
unfoldable pub timer_interrupt : Sched → ℕ → Option (ℕ × Sched)
timer_interrupt s regs = do (stack, s') ← preempt s regs; some (stack, timekeeper s')

-- One timer interrupt after the other, with the stacks that they are given.
unfoldable pub ticks : List ℕ → Sched → Option Sched
ticks [] s = some s
ticks (regs ∷ rs) s = do (stack, s') ← timer_interrupt s regs; ticks rs s'

-- One tick: the oldest ready process runs, and the one that ran is the last in the queue.
record Rotated (s s' : Sched) (q : ℕ) (rest : List ℕ) : Type 0 where
  current_eq : s'.current ≡ q
  ready_eq : s'.ready ≡ rest ++ (s.current ∷ [])
  living : s'.state q ≡ living_state
  dead_eq : s'.dead ≡ []
  napping_eq : s'.napping ≡ s.napping

abbrev saved : Sched → ℕ → Sched
saved s regs = record s {
  proc_regs = assign s.proc_regs s.current regs;
  fpu_regs = assign s.fpu_regs s.current s.fpu;
}

requeue_eq :
    (s : Sched)
    → IsRunning s
    → requeue s s.current ≡ record s {
      state = assign s.state s.current ready_state;
      ready = s.ready ++ (s.current ∷ []);
    }
unfolding requeue make_ready enqueue_process
requeue_eq s i =
    let alive : (s.state s.current == living_state) ≡ true = ground (arith, i.current_living) in
    rw (
      alive,
      ==_ne s.current 0 i.current_ne,
      lt→ltb (length s.ready) sched_max (omega (arith, i.room)),
      requeue,
    )

bury_eq : (s : Sched) (p : ℕ) → s.state p ≡ ready_state → bury s p ≡ s
unfolding bury
bury_eq s p e =
    let other : (s.state p == dead_state) ≡ false = ground (arith, e) in rw (other, bury)

get_next-rotates :
    (s : Sched) (q : ℕ) (rest : List ℕ)
    → IsRunning s
    → s.ready ≡ q ∷ rest
    → get_next s s.current ≡ (
      q,
      record s {
        state = assign s.state s.current ready_state;
        ready = rest ++ (s.current ∷ []);
        dead = [];
      },
    )
unfolding dequeue_process reap
get_next-rotates s q rest i e =
    let r = requeue_eq s i in
    let new : dequeue_process (requeue s s.current).ready ≡ (q, rest ++ (s.current ∷ [])) =
      ap (λ (t : Sched). dequeue_process t.ready) r
      ∙ ap (λ ps. dequeue_process (ps ++ (s.current ∷ []))) e in
    let gone : dequeue_process (requeue s s.current).dead ≡ (0, []) =
      ap (λ (t : Sched). dequeue_process t.dead) r ∙ ap dequeue_process i.none_dead in
    let rotated = record s {
      state = assign s.state s.current ready_state;
      ready = rest ++ (s.current ∷ []);
      dead = [];
    } in
    get_next_eq s s.current q 0 (rest ++ (s.current ∷ [])) [] new gone
    ∙ ap (λ (t : Sched). (q, bury (taken t (rest ++ (s.current ∷ [])) []) s.current)) r
    ∙ ap (λ (t : Sched). (q, t))
        (bury_eq rotated s.current (assign_self s.state s.current ready_state))

preempt-Rotated :
    (s : Sched) (regs q : ℕ) (rest : List ℕ)
    → IsRunning s
    → s.ready ≡ q ∷ rest
    → q ≢ 0
    → (stack : ℕ) × (s' : Sched) × (preempt s regs ≡ some (stack, s')) × Rotated s s' q rest
unfolding preempt switch_to
preempt-Rotated s regs q rest i e ne =
    let s₀ = saved s regs in
    let i₀ : IsRunning s₀ = record {
      waits_for = i.waits_for;
      schedule = i.schedule;
      current_ne = i.current_ne;
      current_living = i.current_living;
      ready_ne = i.ready_ne;
      naps_ne = i.naps_ne;
      room = i.room;
      none_dead = i.none_dead;
    } in
    let s₁ = record s₀ {
      state = assign s.state s.current ready_state;
      ready = rest ++ (s.current ∷ []);
      dead = [];
    } in
    (
      s₁.proc_regs q,
      switch_to s₁ q,
      rw (get_next-rotates s₀ q rest i₀ e, ==_ne q 0 ne, preempt),
      record {
        current_eq = refl;
        ready_eq = refl;
        living = assign_self s₁.state q living_state;
        dead_eq = refl;
        napping_eq = refl;
      },
    )

Rotated-IsRunning :
    (s s' : Sched) (regs stack q : ℕ) (rest : List ℕ)
    → IsRunning s
    → s.ready ≡ q ∷ rest
    → preempt s regs ≡ some (stack, s')
    → Rotated s s' q rest
    → IsRunning s'
Rotated-IsRunning s s' regs stack q rest i e run r =
    let ne : AllNonZero (q ∷ rest) = rw e at i.ready_ne in
    let short : length (q ∷ rest) + length s.napping < sched_max = rw e at i.room in
    record {
      waits_for = i.waits_for;
      schedule =
          (preempt-Switched i.waits_for s regs stack s' i.schedule
            (λ y. absurd (omega (arith, y, i.current_living))) run).schedule;
      current_ne = λ z. ne.0 (sym r.current_eq ∙ z);
      current_living = ap s'.state r.current_eq ∙ r.living;
      ready_ne = rw (r.ready_eq) (AllNonZero-append rest (s.current ∷ []) ne.1 (i.current_ne, tt));
      naps_ne = rw (r.napping_eq) (i.naps_ne);
      room =
          rw (r.ready_eq, r.napping_eq) (omega (arith, length-append rest (s.current ∷ []), short));
      none_dead = r.dead_eq;
    }

-- What `sched_timekeeper` does to the lists: some processes that napped stand at the end of the ready
-- queue.
pub record Woken (s : Sched) (left : List Timed) (s' : Sched) (n : ℕ) : Type 0 where
  pub woken : List ℕ
  pub ready_eq : s'.ready ≡ s.ready ++ woken
  pub woken_ne : AllNonZero woken
  pub left_ne : AllNonZero (sleepers left)
  pub count : length woken + length left ≡ n
  pub dead_eq : s'.dead ≡ s.dead
  pub current_eq : s'.current ≡ s.current

pub wake_due-Woken :
    (ts : List Timed) (s : Sched)
    → AllNonZero (sleepers ts)
    → length s.ready + length ts < sched_max
    → Woken s (wake_due ts s).0 (wake_due ts s).1 (length ts)
unfolding wake_due make_ready enqueue_process
wake_due-Woken [] s ne room = record {
  woken = [];
  ready_eq = sym (append-nil s.ready);
  woken_ne = tt;
  left_ne = tt;
  count = refl;
  dead_eq = refl;
  current_eq = refl;
}
wake_due-Woken (t ∷ ts) s ne room = elim (Bool-cases (not (slt32 0 (sub32 t.counter 1)))) [
  | inl due ↦
      let s₁ = make_ready s t.process in
      let queued : s₁.ready ≡ s.ready ++ (t.process ∷ []) =
        rw
          (==_ne t.process 0 ne.0, lt→ltb (length s.ready) sched_max (omega arith), enqueue_process)
          refl in
      let short : length s₁.ready + length ts < sched_max =
        omega (arith, ap length queued, length-append s.ready (t.process ∷ []), room) in
      let w = wake_due-Woken ts s₁ ne.1 short in
      rw due (record {
        woken = t.process ∷ w.woken;
        ready_eq =
            w.ready_eq
            ∙ ap (λ q. q ++ w.woken) queued
            ∙ append_assoc s.ready (t.process ∷ []) w.woken;
        woken_ne = (ne.0, w.woken_ne);
        left_ne = w.left_ne;
        count = omega (arith, w.count);
        dead_eq = w.dead_eq;
        current_eq = w.current_eq;
      })
  | inr waits ↦
      let w = wake_due-Woken ts s ne.1 (omega arith) in
      rw waits (record {
        woken = w.woken;
        ready_eq = w.ready_eq;
        woken_ne = w.woken_ne;
        left_ne = (ne.0, w.left_ne);
        count = omega (arith, w.count);
        dead_eq = w.dead_eq;
        current_eq = w.current_eq;
      })
]

-- The timer leaves a running state running, with some processes more in the ready queue.
timekeeper-IsRunning :
    (s : Sched)
    → IsRunning s
    → (zs : List ℕ) × IsRunning (timekeeper s)
      × ((timekeeper s).current ≡ s.current)
      × ((timekeeper s).ready ≡ s.ready ++ zs)
unfolding timekeeper
timekeeper-IsRunning s i =
    let w = wake_due-Woken s.napping s i.naps_ne i.room in
    let away =
      Without-value s.state napping_state s.current (sleepers s.napping)
        (λ x. omega (arith, x, i.current_living)) i.schedule.ordered.naps_all in
    let kept = wake_due_state s.current s.napping s away in
    (
      w.woken,
      record {
        waits_for = i.waits_for;
        schedule = timekeeper-IsSchedule i.waits_for s i.schedule;
        current_ne = λ z. i.current_ne (sym w.current_eq ∙ z);
        current_living = ap (wake_due s.napping s).1.state w.current_eq ∙ kept ∙ i.current_living;
        ready_ne = rw (w.ready_eq) (AllNonZero-append s.ready w.woken i.ready_ne w.woken_ne);
        naps_ne = w.left_ne;
        room = rw (w.ready_eq) (omega (arith, length-append s.ready w.woken, w.count, i.room));
        none_dead = w.dead_eq ∙ i.none_dead;
      },
      w.current_eq,
      w.ready_eq,
    )

nonzero_head : (s : Sched) (q : ℕ) (rest : List ℕ) → IsRunning s → s.ready ≡ q ∷ rest → q ≢ 0
nonzero_head s q rest i e = let ne : AllNonZero (q ∷ rest) = rw e at i.ready_ne in ne.0

-- One timer interrupt.
timer_interrupt-rotates :
    (s : Sched) (regs q : ℕ) (rest : List ℕ)
    → IsRunning s
    → s.ready ≡ q ∷ rest
    → (stack : ℕ) × (s' : Sched) × (zs : List ℕ) × (timer_interrupt s regs ≡ some (stack, s'))
      × IsRunning s'
      × (s'.current ≡ q)
      × (s'.ready ≡ rest ++ (s.current ∷ zs))
unfolding timer_interrupt
timer_interrupt-rotates s regs q rest i e =
    let (stack, s₁, run, r) = preempt-Rotated s regs q rest i e (nonzero_head s q rest i e) in
    let (zs, i', current, ready) =
      timekeeper-IsRunning s₁ (Rotated-IsRunning s s₁ regs stack q rest i e run r) in
    (
      stack,
      timekeeper s₁,
      zs,
      rw (run, timer_interrupt) refl,
      i',
      current ∙ r.current_eq,
      ready ∙ ap (λ t. t ++ zs) r.ready_eq ∙ append_assoc rest (s.current ∷ []) zs,
    )

-- From a state in order where a living process runs, none is dead and the ready queue has room for every
-- process that naps, and while only timer interrupts happen, every ready process gets its turn: where
-- `xs` stand before it in the ready queue, the process `p` is current after as many interrupts as there
-- are in `xs` and one, in such a state again, and the processes that stood behind it come first in the
-- ready queue, then the one that ran, whoever wakes up meanwhile.
pub ticks-turn :
    (xs : List ℕ) (s : Sched) (p regs : ℕ) (ys stacks : List ℕ)
    → IsRunning s
    → s.ready ≡ xs ++ (p ∷ ys)
    → length stacks ≡ length xs
    → (s' : Sched) × (more : List ℕ) × (ticks (stacks ++ (regs ∷ [])) s ≡ some s')
      × IsRunning s'
      × (s'.current ≡ p)
      × (s'.ready ≡ ys ++ (s.current ∷ more))
unfolding ticks
ticks-turn [] s p regs ys [] i e l =
    let (stack, s', zs, run, i', current, ready) = timer_interrupt-rotates s regs p ys i e in
    (s', zs, rw (run, ticks), i', current, ready)
ticks-turn [] s p regs ys (k ∷ stacks) i e l = absurd (omega arith)
ticks-turn (x ∷ xs) s p regs ys [] i e l = absurd (omega arith)
ticks-turn (x ∷ xs) s p regs ys (k ∷ stacks) i e l =
    let rest = xs ++ (p ∷ ys) in
    let (stack, s₁, zs, run, i₁, current, ready) = timer_interrupt-rotates s k x rest i e in
    let behind = ys ++ (s.current ∷ zs) in
    let (s', more, rest_run, i', c, q) =
      ticks-turn xs s₁ p regs behind stacks i₁ (ready ∙ append_assoc xs (p ∷ ys) (s.current ∷ zs))
        (omega arith) in
    (
      s',
      zs ++ (s₁.current ∷ more),
      rw (run, ticks) rest_run,
      i',
      c,
      q ∙ append_assoc ys (s.current ∷ zs) (s₁.current ∷ more),
    )
