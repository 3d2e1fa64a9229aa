-- ===== src/Scheduler/Switch.antt =====
-- `sched_get_next` and `sched_preempt_handler`: the change to the next ready process.
use dbos.Base.{
  ℕ, ◌≤◌, ◌≡◌, refl, sym, ◌∙◌, ap, ◌≢◌, ◌⊎◌, inl, inr, false, not, ◌&&◌, List, [], ◌∷◌, arith, ◌==◌,
  ==_iff, Bool-cases, length,
}
use native.Mathlib.Decide.{ℕ_discrete}
use dbos.Scheduler.{
  Sched, assign, make_ready, make_dead, dequeue_process, requeue, reap, bury, get_next, ready_state,
  living_state, napping_state, dead_state, sched_max,
}
use dbos.Scheduler.Members.{
  All, Without, Distinct, assign_self, assign_ne, Without-value, All-enqueue,
}
use dbos.Scheduler.Inv.{
  sleepers, IsOut, make_dead-IsOrdered, assign-IsWaiting, Without-waiters, Without-lists,
}
use dbos.Scheduler.Moves.{IsSchedule, ready-IsSchedule}
use dbos.Scheduler.Waiting.{
  destroy_process-IsSchedule, destroy_process-IsOut, destroy_process_state,
}

abbrev pub taken : Sched → List ℕ → List ℕ → Sched
taken s ready dead = record s { ready = ready; dead = dead }

pub get_next_eq :
    (s : Sched) (p new gone : ℕ) (ready dead : List ℕ)
    → dequeue_process (requeue s p).ready ≡ (new, ready)
    → dequeue_process (requeue s p).dead ≡ (gone, dead)
    → get_next s p ≡ (new, bury (reap (taken (requeue s p) ready dead) gone p) p)
unfolding get_next
get_next_eq s p new gone ready dead e d = rw (e, d, get_next) refl

-- Between two processes: the lists are in order, and no process is living.
pub record IsIdle (g : ℕ → ℕ) (s : Sched) : Type 0 where
  pub schedule : IsSchedule g s
  pub none_living : (p : ℕ) → s.state p ≢ living_state

-- Then any process may be named the current one.
pub IsIdle-current :
    (g : ℕ → ℕ) (s : Sched) (c : ℕ) → IsIdle g s → IsSchedule g (record s { current = c })
IsIdle-current g s c v =
    let h = v.schedule.ordered in
    record {
      ordered = record {
        ready_all = h.ready_all;
        ready_distinct = h.ready_distinct;
        ready_length = h.ready_length;
        dead_all = h.dead_all;
        dead_distinct = h.dead_distinct;
        naps_all = h.naps_all;
        naps_distinct = h.naps_distinct;
        living = λ q l. absurd (v.none_living q l);
      };
      waiting = v.schedule.waiting;
    }

requeued_state :
    (s : Sched) (q : ℕ) → (make_ready s s.current).state q ≡ living_state → q ≢ s.current
unfolding make_ready
requeued_state s q l e =
    let here : assign s.state s.current ready_state q ≡ ready_state =
      ap (assign s.state s.current ready_state) e ∙ assign_self s.state s.current ready_state in
    omega (arith, here, l)

not_living :
    (s : Sched) (q : ℕ)
    → (s.state s.current == living_state) ≡ false
    → s.state q ≡ living_state
    → q ≢ s.current
not_living s q e l same =
    let here : s.state s.current ≡ living_state = ap s.state (sym same) ∙ l in ground (arith, here)

pub requeue-IsIdle : (g : ℕ → ℕ) (s : Sched) → IsSchedule g s → IsIdle g (requeue s s.current)
unfolding requeue make_ready
requeue-IsIdle g s v = elim (Bool-cases (s.state s.current == living_state)) [
  | inl e ↦
      let alive : s.state s.current ≡ living_state = (==_iff _ _).0 e in
      let o =
        Without-lists s s.current v.ordered (λ x. omega (arith, x, alive))
          (λ x. omega (arith, x, alive)) (λ x. omega (arith, x, alive)) in
      let v1 =
        ready-IsSchedule g s s.current v o
          (Without-waiters s.current v.waiting (λ x. omega (arith, x, alive))) in
      rw (e, requeue)
        (record {
          schedule = v1;
          none_living = λ q l. requeued_state s q l (v1.ordered.living q l);
        })
  | inr e ↦
      rw (e, requeue)
        (record { schedule = v; none_living = λ q l. not_living s q e l (v.ordered.living q l) })
]

-- A process that is dead after it was put back was dead before.
pub requeue_dead :
    (s : Sched)
    → (requeue s s.current).state s.current ≡ dead_state
    → (s.state s.current ≡ dead_state) × (requeue s s.current ≡ s)
unfolding requeue make_ready
requeue_dead s d = elim (Bool-cases (s.state s.current == living_state)) [
  | inl e ↦ absurd (omega (arith, rw (e, requeue) at d, assign_self s.state s.current ready_state))
  | inr e ↦ (rw (e, requeue) at d, rw (e, requeue) refl)
]

-- Both queues give up their first process, the ready queue `q`.
pub taken-IsIdle :
    (g : ℕ → ℕ) (s : Sched) (q gone : ℕ) (ready dead : List ℕ)
    → IsIdle g s
    → s.ready ≡ q ∷ ready
    → dequeue_process s.dead ≡ (gone, dead)
    → IsIdle g (taken s ready dead)
      × IsOut (taken s ready dead) q
      × (s.state q ≡ ready_state)
      × ((p : ℕ) → Without p s.dead → Without p dead)
unfolding dequeue_process
taken-IsIdle g s q gone ready dead v r d =
    let h = v.schedule.ordered in
    let ready_all : All (λ p. s.state p ≡ ready_state) (q ∷ ready) = rw r at h.ready_all in
    let ready_distinct : Distinct (q ∷ ready) = rw r at h.ready_distinct in
    let capped : length (q ∷ ready) ≤ sched_max = rw r at h.ready_length in
    let fewer : (P : ℕ → Type 0) → All P s.dead → All P dead =
      λ P a. rest_dead P s.dead gone dead d a in
    let dead_all = fewer (λ p. s.state p ≡ dead_state) h.dead_all in
    (
      record {
        schedule = record {
          ordered = record {
            ready_all = ready_all.1;
            ready_distinct = ready_distinct.1;
            ready_length = omega (arith, capped);
            dead_all = dead_all;
            dead_distinct = rest_distinct s.dead gone dead d h.dead_distinct;
            naps_all = h.naps_all;
            naps_distinct = h.naps_distinct;
            living = h.living;
          };
          waiting = v.schedule.waiting;
        };
        none_living = v.none_living;
      },
      record {
        not_ready = ready_distinct.0;
        not_dead =
            Without-value s.state dead_state q dead (λ x. omega (arith, x, ready_all.0)) dead_all;
        not_napping =
            Without-value s.state napping_state q (sleepers s.napping)
              (λ x. omega (arith, x, ready_all.0)) h.naps_all;
      },
      ready_all.0,
      λ p w. fewer (λ x. p ≢ x) w,
    )
  where
    rest_dead :
        (P : ℕ → Type 0) (xs : List ℕ) (gone : ℕ) (dead : List ℕ)
        → dequeue_process xs ≡ (gone, dead)
        → All P xs
        → All P dead
    rest_dead P [] gone dead d a = rw (← ap (λ r. r.1) d) tt
    rest_dead P (x ∷ xs) gone dead d a = rw (← ap (λ r. r.1) d) a.1

    rest_distinct :
        (xs : List ℕ) (gone : ℕ) (dead : List ℕ)
        → dequeue_process xs ≡ (gone, dead)
        → Distinct xs
        → Distinct dead
    rest_distinct [] gone dead d a = rw (← ap (λ r. r.1) d) tt
    rest_distinct (x ∷ xs) gone dead d a = rw (← ap (λ r. r.1) d) a.1

pub reap-IsIdle :
    (g : ℕ → ℕ) (s : Sched) (gone p : ℕ)
    → IsIdle g s
    → IsIdle g (reap s gone p)
      × ((q : ℕ) → s.state q ≢ napping_state → IsOut s q → IsOut (reap s gone p) q)
      × ((q : ℕ) → ((reap s gone p).state q ≡ s.state q) ⊎ ((reap s gone p).state q ≡ ready_state))
      × ((q : ℕ) → s.state q ≢ napping_state → IsOut s q → (reap s gone p).state q ≡ s.state q)
unfolding reap
reap-IsIdle g s gone p v = elim (Bool-cases (not (gone == 0) && (p == s.kernel))) [
  | inr e ↦ rw (e, reap) (v, (λ q ne o. o), (λ q. inl refl), (λ q ne o. refl))
  | inl e ↦
      let here : (q : ℕ) → s.state q ≢ napping_state → Without q (s.waiters gone) =
        λ q ne. Without-waiters q v.schedule.waiting ne gone in
      rw (e, reap)
        (
          record {
            schedule = destroy_process-IsSchedule g s gone v.schedule;
            none_living = λ q l. elim (destroy_process_state q gone s) [
              | inl same ↦ v.none_living q (sym same ∙ l)
              | inr now ↦ omega (arith, now, l)
            ];
          },
          (λ q ne o. (destroy_process-IsOut q gone s (here q ne) o).0),
          (λ q. destroy_process_state q gone s),
          (λ q ne o. (destroy_process-IsOut q gone s (here q ne) o).1),
        )
]

pub bury-IsIdle :
    (g : ℕ → ℕ) (s : Sched) (p : ℕ)
    → IsIdle g s
    → (s.state p ≡ dead_state → IsOut s p)
    → IsIdle g (bury s p)
      × ((q : ℕ)
          → s.state q ≡ ready_state
          → IsOut s q
          → IsOut (bury s p) q × ((bury s p).state q ≡ ready_state))
unfolding bury make_dead
bury-IsIdle g s p v out = elim (Bool-cases (s.state p == dead_state)) [
  | inr e ↦ rw (e, bury) (v, (λ q r o. (o, r)))
  | inl e ↦
      let gone : s.state p ≡ dead_state = (==_iff _ _).0 e in
      let o = out gone in
      rw (e, bury)
        (
          record {
            schedule = record {
              ordered = make_dead-IsOrdered s p v.schedule.ordered o;
              waiting =
                  assign-IsWaiting g s.waiters s.state s.napping p dead_state v.schedule.waiting
                    (Without-waiters p v.schedule.waiting (λ x. omega (arith, x, gone)));
            };
            none_living = λ q l. elim (ℕ_discrete q p) [
              | yes same ↦
                  let here : assign s.state p dead_state q ≡ dead_state =
                    ap (assign s.state p dead_state) same ∙ assign_self s.state p dead_state in
                  omega (arith, here, l)
              | no ne ↦ v.none_living q (sym (assign_ne s.state p dead_state q ne) ∙ l)
            ];
          },
          (λ q r oq.
              let ne : q ≢ p = λ same. omega (arith, r, gone, ap s.state same) in
              (
                record {
                  not_ready = oq.not_ready;
                  not_dead = All-enqueue (λ x. q ≢ x) p s.dead ne oq.not_dead;
                  not_napping = oq.not_napping;
                },
                assign_ne s.state p dead_state q ne ∙ r,
              )),
        )
]
