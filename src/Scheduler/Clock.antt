-- ===== src/Scheduler/Clock.antt =====
-- `sched_timekeeper` and `sched_wakeup`: the ends of a nap.
use dbos.Base.{
  ℕ, ◌≡◌, refl, sym, ◌∙◌, ◌≢◌, ◌⊎◌, inl, inr, true, false, not, none, some, List, [], ◌∷◌, arith,
  ◌==◌, Bool-cases,
}
use mathlib.Core.Path.{subst}
use dbos.Base.Word.{sub32, slt32}
use dbos.Scheduler.{
  Sched, Timed, make_ready, purge, wake_due, timekeeper, take_napping, wakeup, ready_state,
  napping_state, dead_state,
}
use dbos.Scheduler.Members.{All, Without, Distinct, assign_ne, All-map, Without-value}
use dbos.Scheduler.Inv.{sleepers, purge-IsOrdered, purge-IsOut}
use dbos.Scheduler.Moves.{IsSchedule, fewer-IsSchedule, ready-IsSchedule, wake_due-All}

-- An entry in front of the list of napping processes.
grow-IsSchedule :
    (g : ℕ → ℕ) (s : Sched) (t : Timed)
    → IsSchedule g s
    → s.state t.process ≡ napping_state
    → Without t.process (sleepers s.napping)
    → ((q : ℕ) → Without t.process (s.waiters q))
    → IsSchedule g (record s { napping = t ∷ s.napping })
grow-IsSchedule g s t v e w out =
    let h = v.ordered in
    record {
      ordered = record {
        ready_all = h.ready_all;
        ready_distinct = h.ready_distinct;
        ready_length = h.ready_length;
        dead_all = h.dead_all;
        dead_distinct = h.dead_distinct;
        naps_all = (e, h.naps_all);
        naps_distinct = (w, h.naps_distinct);
        living = h.living;
      };
      waiting = record {
        waiters_all = v.waiting.waiters_all;
        waiters_awake =
            λ q. go s.napping t.process (s.waiters q) (v.waiting.waiters_awake q) (out q);
        waiters_one = v.waiting.waiters_one;
        waiters_distinct = v.waiting.waiters_distinct;
      };
    }
  where
    go :
        (ts : List Timed) (p : ℕ) (ws : List ℕ)
        → All (λ x. Without x (sleepers ts)) ws
        → Without p ws
        → All (λ x. (x ≢ p) × Without x (sleepers ts)) ws
    go ts p [] a b = tt
    go ts p (x ∷ ws) a b = (((λ eq. b.0 (sym eq)), a.0), go ts p ws a.1 b.1)

wake_due_waiters : (ts : List Timed) (s : Sched) → (wake_due ts s).1.waiters ≡ s.waiters
unfolding wake_due make_ready
wake_due_waiters [] s = refl
wake_due_waiters (t ∷ ts) s = elim (Bool-cases (not (slt32 0 (sub32 t.counter 1)))) [
  | inl e ↦ rw e (wake_due_waiters ts (make_ready s t.process))
  | inr e ↦ rw e (wake_due_waiters ts s)
]

-- The loop changes the state of the processes that it goes over only.
pub wake_due_state :
    (p : ℕ) (ts : List Timed) (s : Sched)
    → Without p (sleepers ts)
    → (wake_due ts s).1.state p ≡ s.state p
unfolding wake_due make_ready
wake_due_state p [] s w = refl
wake_due_state p (t ∷ ts) s w = elim (Bool-cases (not (slt32 0 (sub32 t.counter 1)))) [
  | inl e ↦ rw e (
      wake_due_state p ts (make_ready s t.process) w.1
      ∙ assign_ne s.state t.process ready_state p w.0)
  | inr e ↦ rw e (wake_due_state p ts s w.1)
]

abbrev after : List Timed → Sched → Sched
after ts s = record (wake_due ts s).1 { napping = (wake_due ts s).0 }

after-due :
    (t : Timed) (ts : List Timed) (s : Sched)
    → not (slt32 0 (sub32 t.counter 1)) ≡ true
    → after (t ∷ ts) s ≡ after ts (make_ready s t.process)
unfolding wake_due
after-due t ts s e = rw (e, wake_due) refl

after-later :
    (t : Timed) (ts : List Timed) (s : Sched)
    → not (slt32 0 (sub32 t.counter 1)) ≡ false
    → after (t ∷ ts) s ≡ record (after ts s) {
      napping = record { process = t.process; counter = sub32 t.counter 1 } ∷ (after ts s).napping;
    }
unfolding wake_due
after-later t ts s e = rw (e, wake_due) refl

not-waiting :
    (g : ℕ → ℕ) (s : Sched) (t : Timed) (ts : List Timed)
    → IsSchedule g (record s { napping = t ∷ ts })
    → (q : ℕ) → Without t.process (s.waiters q)
not-waiting g s t ts v q = All-map (s.waiters q) (λ x w e. w.0 (sym e)) (v.waiting.waiters_awake q)

after-IsSchedule :
    (g : ℕ → ℕ) (ts : List Timed) (s : Sched)
    → IsSchedule g (record s { napping = ts })
    → IsSchedule g (after ts s)
unfolding make_ready wake_due
after-IsSchedule g [] s v = v
after-IsSchedule g (t ∷ ts) s v =
    let h = v.ordered in
    let v1 =
      fewer-IsSchedule g (record s { napping = t ∷ ts }) ts v h.naps_distinct.1 (λ P a. a.1) in
    let out = not-waiting g s t ts v in
    elim (Bool-cases (not (slt32 0 (sub32 t.counter 1)))) [
      | inl e ↦ subst (IsSchedule g) (sym (after-due t ts s e)) (
          after-IsSchedule g ts (make_ready s t.process) (
            ready-IsSchedule g (record s { napping = ts }) t.process v1
              (record {
                not_ready =
                    Without-value s.state ready_state t.process s.ready
                      (λ x. ground (arith, x, h.naps_all.0)) h.ready_all;
                not_dead =
                    Without-value s.state dead_state t.process s.dead
                      (λ x. ground (arith, x, h.naps_all.0)) h.dead_all;
                not_napping = h.naps_distinct.0;
              })
              out))
      | inr e ↦ subst (IsSchedule g) (sym (after-later t ts s e)) (
          grow-IsSchedule g (after ts s)
            (record { process = t.process; counter = sub32 t.counter 1 })
            (after-IsSchedule g ts s v1)
            (wake_due_state t.process ts s h.naps_distinct.0 ∙ h.naps_all.0)
            (wake_due-All (λ x. t.process ≢ x) ts s h.naps_distinct.0)
            (λ q. rw (wake_due_waiters ts s) (out q)))
    ]

pub timekeeper-IsSchedule : (g : ℕ → ℕ) (s : Sched) → IsSchedule g s → IsSchedule g (timekeeper s)
unfolding timekeeper
timekeeper-IsSchedule g s v = after-IsSchedule g s.napping s v

-- What `take_napping` finds is a process of the list, which is not in the rest.
record Taken (ts rest : List Timed) (p : ℕ) : Type 1 where
  pub there : (P : ℕ → Type 0) → All P (sleepers ts) → P p
  pub kept : (P : ℕ → Type 0) → All P (sleepers ts) → All P (sleepers rest)
  pub apart : Distinct (sleepers ts) → Without p (sleepers rest)
  pub distinct : Distinct (sleepers ts) → Distinct (sleepers rest)

take_napping-Taken :
    (pids : ℕ → ℕ) (pid : ℕ) (ts : List Timed)
    → (take_napping pids pid ts ≡ none)
      ⊎ ((p : ℕ) × (rest : List Timed) × (take_napping pids pid ts ≡ some (p, rest))
          × Taken ts rest p)
unfolding take_napping
take_napping-Taken pids pid [] = inl refl
take_napping-Taken pids pid (t ∷ ts) = elim (Bool-cases (pids t.process == pid)) [
  | inl e ↦ inr (
    t.process,
    ts,
    rw (e, take_napping) refl,
    record { there = λ P a. a.0; kept = λ P a. a.1; apart = λ d. d.0; distinct = λ d. d.1 },
  )
  | inr e ↦ elim (take_napping-Taken pids pid ts) [
    | inl n ↦ inl (rw (e, n, take_napping) refl)
    | inr (p, rest, run, k) ↦ inr (
      p,
      t ∷ rest,
      rw (e, run, take_napping) refl,
      record {
        there = λ P a. k.there P a.1;
        kept = λ P a. (a.0, k.kept P a.1);
        apart = λ d. ((λ eq. k.there (λ x. t.process ≢ x) d.0 (sym eq)), k.apart d.1);
        distinct = λ d. (k.kept (λ x. t.process ≢ x) d.0, k.distinct d.1);
      },
    )
  ]
]

pub wakeup-IsSchedule :
    (g : ℕ → ℕ) (s : Sched) (pid : ℕ) → IsSchedule g s → IsSchedule g (wakeup s pid).1
unfolding wakeup purge
wakeup-IsSchedule g s pid v = elim (take_napping-Taken s.pid pid s.napping) [
  | inl absent ↦ rw (absent, wakeup) v
  | inr (p, rest, run, k) ↦
      let s1 : Sched = record s { napping = rest } in
      let v1 = fewer-IsSchedule g s rest v (k.distinct v.ordered.naps_distinct) k.kept in
      rw (run, wakeup)
        (ready-IsSchedule g (purge s1 p) p
          (record { ordered = purge-IsOrdered s1 p v1.ordered; waiting = v1.waiting })
          (purge-IsOut s1 p (k.apart v.ordered.naps_distinct))
          (λ q.
            All-map (s.waiters q) (λ x w e. k.there (λ y. x ≢ y) w (sym e))
              (v.waiting.waiters_awake q)))
]
