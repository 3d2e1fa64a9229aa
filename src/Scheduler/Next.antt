-- ===== src/Scheduler/Next.antt =====
-- `sched_get_next` and `sched_preempt_handler` as a whole: the change to the next ready process.
use dbos.Base.{
  ℕ, ◌≡◌, refl, sym, ◌∙◌, ap, ◌≢◌, ◌⊎◌, inl, inr, Option, none, some, List, [], ◌∷◌, arith, ◌==◌,
  ==_iff, ==_ne, Bool-cases,
}
use native.Mathlib.Decide.{ℕ_discrete}
use dbos.Scheduler.{
  Sched, assign, make_ready, make_dead, dequeue_process, requeue, reap, bury, get_next, switch_to,
  preempt, ready_state, living_state, napping_state, dead_state,
}
use dbos.Scheduler.Members.{Without, assign_self, assign_ne, Without-value}
use dbos.Scheduler.Inv.{sleepers, IsOut, assign-IsOrdered, assign-IsWaiting, Without-waiters}
use dbos.Scheduler.Moves.{IsSchedule}
use mathlib.Core.Path.{subst}
use mathlib.Core.Option.{some-injective}
use dbos.Scheduler.Switch.{
  taken, get_next_eq, IsIdle, IsIdle-current, requeue-IsIdle, requeue_dead, taken-IsIdle,
  reap-IsIdle, bury-IsIdle,
}

-- What a change to another process leaves.
pub record Switched (g : ℕ → ℕ) (s s' : Sched) : Type 0 where
  pub schedule : IsSchedule g s'
  pub living : s'.state s'.current ≡ living_state
  pub not_napping : s.state s.current ≡ living_state → s'.state s.current ≢ napping_state

switch_to-IsSchedule :
    (g : ℕ → ℕ) (s : Sched) (q : ℕ)
    → IsIdle g s
    → IsOut s q
    → s.state q ≡ ready_state
    → IsSchedule g (switch_to s q)
unfolding switch_to
switch_to-IsSchedule g s q v o e =
    let v' = IsIdle-current g s q v in
    record {
      ordered =
          assign-IsOrdered (record s { current = q }) q living_state v'.ordered
            (record { not_ready = o.not_ready; not_dead = o.not_dead; not_napping = o.not_napping })
            (λ x. refl);
      waiting =
          assign-IsWaiting g s.waiters s.state s.napping q living_state v.schedule.waiting
            (Without-waiters q v.schedule.waiting (λ x. omega (arith, x, e)));
    }

-- `get_next` for the current process, where a process is ready afterwards.
record Next (g : ℕ → ℕ) (s : Sched) (q : ℕ) (s' : Sched) : Type 0 where
  pub idle : IsIdle g s'
  pub out : IsOut s' q
  pub state : s'.state q ≡ ready_state
  pub not_napping : s.state s.current ≡ living_state → s'.state s.current ≢ napping_state

requeue_living :
    (s : Sched)
    → s.state s.current ≡ living_state
    → (requeue s s.current).state s.current ≡ ready_state
unfolding requeue make_ready
requeue_living s e = rw ((==_iff _ _).1 e, requeue) (assign_self s.state s.current ready_state)

bury_state : (s : Sched) (p : ℕ) → s.state p ≢ napping_state → (bury s p).state p ≢ napping_state
unfolding bury make_dead
bury_state s p ne = elim (Bool-cases (s.state p == dead_state)) [
  | inl e ↦ rw (e, bury, assign_self s.state p dead_state) (λ x. omega (arith, x))
  | inr e ↦ rw (e, bury) ne
]

-- The current process, where it is dead after the queues gave up their first processes, is out of
-- them.
dead-IsOut :
    (g : ℕ → ℕ) (s : Sched) (q gone : ℕ) (ready dead : List ℕ)
    → IsIdle g (requeue s s.current)
    → (s.state s.current ≡ dead_state → Without s.current s.dead)
    → (requeue s s.current).ready ≡ q ∷ ready
    → dequeue_process (requeue s s.current).dead ≡ (gone, dead)
    → (requeue s s.current).state s.current ≡ dead_state
    → IsOut (taken (requeue s s.current) ready dead) s.current
dead-IsOut g s q gone ready dead v fresh r d e =
    let c = s.current in
    let (v2, _, _, fewer) = taken-IsIdle g (requeue s s.current) q gone ready dead v r d in
    let h = v2.schedule.ordered in
    let (before, same) = requeue_dead s e in
    record {
      not_ready =
          Without-value _ ready_state s.current ready (λ x. omega (arith, x, e)) h.ready_all;
      not_dead = fewer s.current (subst (λ x. Without s.current x.dead) (sym same) (fresh before));
      not_napping =
          Without-value _ napping_state s.current (sleepers _) (λ x. omega (arith, x, e))
            h.naps_all;
    }

get_next_lem :
    (g : ℕ → ℕ) (s : Sched) (q gone : ℕ) (ready dead : List ℕ)
    → IsSchedule g s
    → (s.state s.current ≡ dead_state → Without s.current s.dead)
    → (requeue s s.current).ready ≡ q ∷ ready
    → dequeue_process (requeue s s.current).dead ≡ (gone, dead)
    → Next g s q (bury (reap (taken (requeue s s.current) ready dead) gone s.current) s.current)
get_next_lem g s q gone ready dead v fresh r d =
    let v1 = requeue-IsIdle g s v in
    let (v2, o2, e2, _) = taken-IsIdle g (requeue s s.current) q gone ready dead v1 r d in
    let (v3, out, states, keeps) =
      reap-IsIdle g (taken (requeue s s.current) ready dead) gone s.current v2 in
    let awake : (requeue s s.current).state q ≢ napping_state = λ x. omega (arith, x, e2) in
    let s3 = reap (taken (requeue s s.current) ready dead) gone s.current in
    let (v4, next) =
      bury-IsIdle g (reap (taken (requeue s s.current) ready dead) gone s.current) s.current v3
        (λ gone_dead. elim (states s.current) [
          | inr now ↦ absurd (omega (arith, now, gone_dead))
          | inl same ↦
              let e = sym same ∙ gone_dead in
              out s.current (λ x. omega (arith, x, e))
                (dead-IsOut g s q gone ready dead v1 fresh r d e)
        ]) in
    let (o4, e4) = next q (keeps q awake o2 ∙ e2) (out q awake o2) in
    record {
      idle = v4;
      out = o4;
      state = e4;
      not_napping = λ alive.
          bury_state (reap (taken (requeue s s.current) ready dead) gone s.current) s.current (
            let was = requeue_living s alive in
            elim (states s.current) [
              | inl same ↦ λ x. omega (arith, same, was, x)
              | inr now ↦ λ x. omega (arith, now, x)
            ]);
    }

get_next-Next :
    (g : ℕ → ℕ) (s : Sched) (ready : List ℕ)
    → IsSchedule g s
    → (s.state s.current ≡ dead_state → Without s.current s.dead)
    → (requeue s s.current).ready ≡ ready
    → ((get_next s s.current).0 ≡ 0) ⊎ Next g s (get_next s s.current).0 (get_next s s.current).1
unfolding dequeue_process
get_next-Next g s [] v fresh r =
    inl (ap (λ x. x.0) (get_next_eq s s.current 0 _ [] _ (ap dequeue_process r) refl))
get_next-Next g s (q ∷ ready) v fresh r =
    let d = dequeue_process (requeue s s.current).dead in
    subst (λ x. (x.0 ≡ 0) ⊎ Next g s x.0 x.1)
      (sym (get_next_eq s s.current q d.0 ready d.1 (ap dequeue_process r) refl))
      (inr (get_next_lem g s q d.0 ready d.1 v fresh r refl))

-- The state in which `sched_preempt_handler` calls `sched_get_next`.
abbrev saved : Sched → ℕ → Sched
saved s regs = record s {
  proc_regs = assign s.proc_regs s.current regs;
  fpu_regs = assign s.fpu_regs s.current s.fpu;
}

preempt-none :
    (s : Sched) (regs : ℕ) → (get_next (saved s regs) s.current).0 ≡ 0 → preempt s regs ≡ none
unfolding preempt
preempt-none s regs e = rw (e, preempt) refl

preempt-some :
    (s : Sched) (regs q : ℕ) (s' : Sched)
    → get_next (saved s regs) s.current ≡ (q, s')
    → q ≢ 0
    → preempt s regs ≡ some (s'.proc_regs q, switch_to s' q)
unfolding preempt
preempt-some s regs q s' e ne = rw (e, ==_ne q 0 ne, preempt) refl

switch_to-Switched :
    (g : ℕ → ℕ) (s s0 : Sched) (q : ℕ)
    → (s.state s.current ≡ living_state → s0.state s.current ≢ napping_state)
    → IsIdle g s0
    → IsOut s0 q
    → s0.state q ≡ ready_state
    → Switched g s (switch_to s0 q)
unfolding switch_to
switch_to-Switched g s s0 q nn v o e = record {
  schedule = switch_to-IsSchedule g s0 q v o e;
  living = assign_self s0.state q living_state;
  not_napping = λ alive. elim (ℕ_discrete s.current q) [
    | yes same ↦ rw (same, assign_self s0.state q living_state) (λ x. omega (arith, x))
    | no ne ↦ rw (assign_ne s0.state q living_state s.current ne) (nn alive)
  ];
}

-- Where `sched_preempt_handler` returns, the lists are in order, and the current process is the one
-- that lives.
pub preempt-Switched :
    (g : ℕ → ℕ) (s : Sched) (regs stack : ℕ) (s' : Sched)
    → IsSchedule g s
    → (s.state s.current ≡ dead_state → Without s.current s.dead)
    → preempt s regs ≡ some (stack, s')
    → Switched g s s'
preempt-Switched g s regs stack s' v fresh run =
    let out = get_next (saved s regs) s.current in
    elim (get_next-Next g (saved s regs) (requeue (saved s regs) s.current).ready v fresh refl) [
      | inl null ↦ none-ne-some (stack, s') (sym (preempt-none s regs null) ∙ run)
      | inr next ↦ elim (ℕ_discrete out.0 0) [
        | yes null ↦ none-ne-some (stack, s') (sym (preempt-none s regs null) ∙ run)
        | no ne ↦
            let same = some-injective _ _ (sym (preempt-some s regs out.0 out.1 refl ne) ∙ run) in
            subst (Switched g s) (ap (λ x. x.1) same)
              (switch_to-Switched g s out.1 out.0 next.not_napping next.idle next.out next.state)
      ]
    ]
  where
    none-ne-some : {A : Type 0} (r : ℕ × Sched) → ◌≡◌ {A = Option (ℕ × Sched)} none (some r) → A
    none-ne-some r e = cc
