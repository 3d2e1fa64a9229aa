-- ===== src/Scheduler/Moves.antt =====
-- The moves of the scheduler keep its lists in order: napping, waking, waiting and destroying.
use dbos.Base.{
  ℕ, ◌≡◌, refl, sym, ap, ◌≢◌, inl, inr, not, ◌&&◌, List, [], ◌∷◌, ◌++◌, arith, ◌==◌, Bool-cases,
}
use dbos.Base.Word.{sub32, slt32}
use dbos.Scheduler.{
  Sched, Timed, assign, make_ready, purge, make_napping, wake_due, ready_state, napping_state,
  dead_state,
}
use dbos.Scheduler.Members.{
  All, Without, Distinct, assign_self, All-append, All-map, All-both, Without-value,
  append-Distinct,
}
use dbos.Scheduler.Inv.{
  sleepers, IsOrderedAt, IsWaiting, IsOut, assign-IsOrdered, purge-IsOrdered, purge-IsOut,
  make_ready-IsOrdered, assign-IsWaiting, Without-waiters,
}

-- The lists are in order, and so are the waiters.
pub record IsScheduleAt (g : ℕ → ℕ) (w : ℕ → List ℕ) (state : ℕ → ℕ) (ready dead : List ℕ)
    (naps : List Timed) (current : ℕ) : Type 0 where
  pub ordered : IsOrderedAt state ready dead naps current
  pub waiting : IsWaiting g w state naps

abbrev pub IsSchedule : (ℕ → ℕ) → Sched → Type 0
IsSchedule g s = IsScheduleAt g s.waiters s.state s.ready s.dead s.napping s.current

sleepers-append :
    (ts : List Timed) (t : Timed) → sleepers (ts ++ (t ∷ [])) ≡ sleepers ts ++ (t.process ∷ [])
sleepers-append [] t = refl
sleepers-append (u ∷ ts) t = ap (λ ps. u.process ∷ ps) (sleepers-append ts t)

-- A process that is in no list, and waits for none, may start to nap.
pub nap-IsSchedule :
    (g : ℕ → ℕ) (s : Sched) (p time : ℕ)
    → IsSchedule g s
    → IsOut s p
    → ((q : ℕ) → Without p (s.waiters q))
    → IsSchedule g (record s {
      state = assign s.state p napping_state;
      napping = s.napping ++ (record { process = p; counter = time } ∷ []);
    })
nap-IsSchedule g s p time v o out =
    let t : Timed = record { process = p; counter = time } in
    let h = assign-IsOrdered s p napping_state v.ordered o (λ e. ground arith) in
    let k = assign-IsWaiting g s.waiters s.state s.napping p napping_state v.waiting out in
    record {
      ordered = record {
        ready_all = h.ready_all;
        ready_distinct = h.ready_distinct;
        ready_length = h.ready_length;
        dead_all = h.dead_all;
        dead_distinct = h.dead_distinct;
        naps_all = rw (sleepers-append s.napping t) (
            All-append (λ q. assign s.state p napping_state q ≡ napping_state) (sleepers s.napping)
              (p ∷ []) h.naps_all (assign_self s.state p napping_state, tt));
        naps_distinct =
            rw (sleepers-append s.napping t)
              (append-Distinct (sleepers s.napping) p h.naps_distinct o.not_napping);
        living = h.living;
      };
      waiting = record {
        waiters_all = k.waiters_all;
        waiters_awake = λ q.
            All-map (s.waiters q)
              (λ x both. rw (sleepers-append s.napping t) (
                All-append (λ y. x ≢ y) (sleepers s.napping) (p ∷ []) both.0
                  ((λ e. both.1 (sym e)), tt)))
              (All-both (λ x. Without x (sleepers s.napping)) (λ x. p ≢ x) (s.waiters q)
                (v.waiting.waiters_awake q) (out q));
        waiters_one = k.waiters_one;
        waiters_distinct = k.waiters_distinct;
      };
    }

pub make_napping-IsSchedule :
    (g : ℕ → ℕ) (s : Sched) (p time : ℕ) → IsSchedule g s → IsSchedule g (make_napping s p time)
unfolding make_napping purge
make_napping-IsSchedule g s p time v =
    elim (Bool-cases (not (s.state p == dead_state) && not (s.state p == napping_state))) [
      | inr t ↦ rw (t, make_napping) v
      | inl t ↦
          let ne : s.state p ≢ napping_state = ground arith in
          let out =
            Without-value s.state napping_state p (sleepers s.napping) ne v.ordered.naps_all in
          rw (t, make_napping)
            (nap-IsSchedule g (purge s p) p time
              (record { ordered = purge-IsOrdered s p v.ordered; waiting = v.waiting })
              (purge-IsOut s p out) (Without-waiters p v.waiting ne))
    ]

-- A process that naps neither by the clock nor as a waiter may become ready.
pub ready-IsSchedule :
    (g : ℕ → ℕ) (s : Sched) (p : ℕ)
    → IsSchedule g s
    → IsOut s p
    → ((q : ℕ) → Without p (s.waiters q))
    → IsSchedule g (make_ready s p)
unfolding make_ready
ready-IsSchedule g s p v o out = record {
  ordered = make_ready-IsOrdered s p v.ordered o;
  waiting = assign-IsWaiting g s.waiters s.state s.napping p ready_state v.waiting out;
}

-- The lists with other entries of napping processes, fewer than there were.
pub fewer-IsSchedule :
    (g : ℕ → ℕ) (s : Sched) (ts : List Timed)
    → IsSchedule g s
    → Distinct (sleepers ts)
    → ((P : ℕ → Type 0) → All P (sleepers s.napping) → All P (sleepers ts))
    → IsSchedule g (record s { napping = ts })
fewer-IsSchedule g s ts v d f =
    let h = v.ordered in
    record {
      ordered = record {
        ready_all = h.ready_all;
        ready_distinct = h.ready_distinct;
        ready_length = h.ready_length;
        dead_all = h.dead_all;
        dead_distinct = h.dead_distinct;
        naps_all = f (λ q. s.state q ≡ napping_state) h.naps_all;
        naps_distinct = d;
        living = h.living;
      };
      waiting = record {
        waiters_all = v.waiting.waiters_all;
        waiters_awake =
            λ q. All-map (s.waiters q) (λ x w. f (λ y. x ≢ y) w) (v.waiting.waiters_awake q);
        waiters_one = v.waiting.waiters_one;
        waiters_distinct = v.waiting.waiters_distinct;
      };
    }

pub wake_due-All :
    (P : ℕ → Type 0) (ts : List Timed) (s : Sched)
    → All P (sleepers ts)
    → All P (sleepers (wake_due ts s).0)
unfolding wake_due
wake_due-All P [] s h = tt
wake_due-All P (t ∷ ts) s h = elim (Bool-cases (not (slt32 0 (sub32 t.counter 1)))) [
  | inl e ↦ rw e (wake_due-All P ts (make_ready s t.process) h.1)
  | inr e ↦ rw e (h.0, wake_due-All P ts s h.1)
]

pub wake_due-Distinct :
    (ts : List Timed) (s : Sched) → Distinct (sleepers ts) → Distinct (sleepers (wake_due ts s).0)
unfolding wake_due
wake_due-Distinct [] s d = tt
wake_due-Distinct (t ∷ ts) s d = elim (Bool-cases (not (slt32 0 (sub32 t.counter 1)))) [
  | inl e ↦ rw e (wake_due-Distinct ts (make_ready s t.process) d.1)
  | inr e ↦ rw e (wake_due-All (λ x. t.process ≢ x) ts s d.0, wake_due-Distinct ts s d.1)
]
