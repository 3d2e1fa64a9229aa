-- ===== src/Scheduler/Waiting.antt =====
-- `sched_wait_for`, and the end of a process that others wait for.
use dbos.Base.{
  ℕ, ◌≡◌, refl, sym, ◌∙◌, ap, ◌≢◌, ◌⊎◌, inl, inr, ◌||◌, List, [], ◌∷◌, ◌++◌, arith, ◌==◌,
  Bool-cases,
}
use native.Mathlib.Decide.{ℕ_discrete}
use dbos.Scheduler.{
  Sched, Timed, assign, make_ready, purge, wait_for, proc_find, release, destroy_process,
  ready_state, napping_state, dead_state, remove_process,
}
use dbos.Scheduler.Members.{
  All, Without, Distinct, assign_self, assign_ne, assign_lists_self, assign_lists_ne, All-append,
  All-assign, Without-value, append-Distinct, All-enqueue, All-remove,
}
use dbos.Scheduler.Inv.{
  sleepers, IsOrdered, IsWaiting, IsOut, purge-IsOrdered, purge-IsOut, make_ready-IsOrdered,
  assign-IsOrdered, assign-IsWaiting, Without-waiters,
}
use dbos.Scheduler.Moves.{IsSchedule}

-- What holds of all the waiters of every process, and of a new one, holds with the new one added.
added-All :
    (w : ℕ → List ℕ) (p t : ℕ) (P : ℕ → Type 0) (q : ℕ)
    → P p
    → All P (w q)
    → All P (w t)
    → All P (assign w t (w t ++ (p ∷ [])) q)
added-All w p t P q here a b = elim (ℕ_discrete q t) [
  | yes same ↦
      rw (same, assign_lists_self w t (w t ++ (p ∷ []))) (All-append P (w t) (p ∷ []) b (here, tt))
  | no ne ↦ rw (assign_lists_ne w t (w t ++ (p ∷ [])) q ne) a
]

-- A new waiter `p` of the process `t`.
wait-IsWaiting :
    (g : ℕ → ℕ) (w : ℕ → List ℕ) (state : ℕ → ℕ) (naps : List Timed) (p t : ℕ)
    → IsWaiting g w state naps
    → state p ≡ napping_state
    → Without p (sleepers naps)
    → ((q : ℕ) → Without p (w q))
    → IsWaiting (assign g p t) (assign w t (w t ++ (p ∷ []))) state naps
wait-IsWaiting g w state naps p t v e awake out = record {
  waiters_all =
      λ q. added-All w p t (λ x. state x ≡ napping_state) q e (v.waiters_all q) (v.waiters_all t);
  waiters_awake = λ q.
      added-All w p t (λ x. Without x (sleepers naps)) q awake (v.waiters_awake q)
        (v.waiters_awake t);
  waiters_one = λ q. elim (ℕ_discrete q t) [
    | yes same ↦
        rw (same, assign_lists_self w t (w t ++ (p ∷ [])))
          (All-append (λ x. assign g p t x ≡ t) (w t) (p ∷ [])
            (All-assign g t p t (w t) (out t) (v.waiters_one t)) (assign_self g p t, tt))
    | no ne ↦
        rw (assign_lists_ne w t (w t ++ (p ∷ [])) q ne)
          (All-assign g q p t (w q) (out q) (v.waiters_one q))
  ];
  waiters_distinct = λ q. elim (ℕ_discrete q t) [
    | yes same ↦
        rw (same, assign_lists_self w t (w t ++ (p ∷ [])))
          (append-Distinct (w t) p (v.waiters_distinct t) (out t))
    | no ne ↦ rw (assign_lists_ne w t (w t ++ (p ∷ [])) q ne) (v.waiters_distinct q)
  ];
}

pub wait_for-IsSchedule :
    (g : ℕ → ℕ) (s : Sched) (p pid : ℕ)
    → IsSchedule g s
    → s.state p ≢ napping_state
    → (g' : ℕ → ℕ) × IsSchedule g' (wait_for s p pid).1
unfolding wait_for purge
wait_for-IsSchedule g s p pid v ne =
    let t = proc_find s pid in
    elim (Bool-cases ((proc_find s pid == 0) || (s.state (proc_find s pid) == dead_state))) [
      | inl e ↦ (g, rw (e, wait_for) v)
      | inr e ↦
          let awake =
            Without-value s.state napping_state p (sleepers s.napping) ne v.ordered.naps_all in
          let out = Without-waiters p v.waiting ne in
          let purged = purge-IsOrdered s p v.ordered in
          (
            assign g p t,
            rw (e, wait_for)
                (record {
                  ordered =
                      assign-IsOrdered (purge s p) p napping_state purged (purge-IsOut s p awake)
                        (λ x. ground arith);
                  waiting =
                      wait-IsWaiting g s.waiters (assign s.state p napping_state) s.napping p t
                        (assign-IsWaiting g s.waiters s.state s.napping p napping_state v.waiting
                          out)
                        (assign_self s.state p napping_state) awake out;
                }),
          )
    ]

-- What holds of the waiters of `t`, and of those of another process.
at_target :
    (w : ℕ → List ℕ) (t : ℕ) (ws : List ℕ) (P : ℕ → Type 0) → All P (assign w t ws t) → All P ws
at_target w t ws P h = rw (assign_lists_self w t ws) at h

at_other :
    (w : ℕ → List ℕ) (t : ℕ) (ws : List ℕ) (P : ℕ → Type 0) (q : ℕ)
    → q ≢ t
    → All P (assign w t ws q)
    → All P (w q)
at_other w t ws P q ne h = rw (assign_lists_ne w t ws q ne) at h

-- The first waiter of `t` is let go.
release-IsWaiting :
    (g : ℕ → ℕ) (w : ℕ → List ℕ) (state : ℕ → ℕ) (naps : List Timed) (t p : ℕ) (ws : List ℕ)
    → IsWaiting g (assign w t (p ∷ ws)) state naps
    → IsWaiting g (assign w t ws) (assign state p ready_state) naps
release-IsWaiting g w state naps t p ws v =
    let here = at_target w t (p ∷ ws) (λ x. g x ≡ t) (v.waiters_one t) in
    let all = at_target w t (p ∷ ws) (λ x. state x ≡ napping_state) (v.waiters_all t) in
    let awake = at_target w t (p ∷ ws) (λ x. Without x (sleepers naps)) (v.waiters_awake t) in
    let distinct : Distinct (p ∷ ws) =
      rw (assign_lists_self w t (p ∷ ws)) at (v.waiters_distinct t) in
    record {
      waiters_all = λ q. elim (ℕ_discrete q t) [
        | yes same ↦
            rw (same, assign_lists_self w t ws)
              (All-assign state napping_state p ready_state ws distinct.0 all.1)
        | no ne ↦ rw (assign_lists_ne w t ws q ne) (
            All-assign state napping_state p ready_state (w q)
              (Without-value g q p (w q) (λ e. ne (sym e ∙ here.0))
                (at_other w t (p ∷ ws) (λ x. g x ≡ q) q ne (v.waiters_one q)))
              (at_other w t (p ∷ ws) (λ x. state x ≡ napping_state) q ne (v.waiters_all q)))
      ];
      waiters_awake = λ q. elim (ℕ_discrete q t) [
        | yes same ↦ rw (same, assign_lists_self w t ws) awake.1
        | no ne ↦
            rw (assign_lists_ne w t ws q ne)
              (at_other w t (p ∷ ws) (λ x. Without x (sleepers naps)) q ne (v.waiters_awake q))
      ];
      waiters_one = λ q. elim (ℕ_discrete q t) [
        | yes same ↦ rw (same, assign_lists_self w t ws) here.1
        | no ne ↦
            rw (assign_lists_ne w t ws q ne)
              (at_other w t (p ∷ ws) (λ x. g x ≡ q) q ne (v.waiters_one q))
      ];
      waiters_distinct = λ q. elim (ℕ_discrete q t) [
        | yes same ↦ rw (same, assign_lists_self w t ws) distinct.1
        | no ne ↦
            rw (assign_lists_ne w t ws q ne)
              (rw (assign_lists_ne w t (p ∷ ws) q ne) at (v.waiters_distinct q))
      ];
    }

release-IsSchedule :
    (g : ℕ → ℕ) (t pid : ℕ) (ws : List ℕ) (s : Sched)
    → IsOrdered s
    → IsWaiting g (assign s.waiters t ws) s.state s.napping
    → let s' = release ws pid s in
      IsOrdered s' × IsWaiting g (assign s'.waiters t []) s'.state s'.napping
unfolding release make_ready purge
release-IsSchedule g t pid [] s h v = (h, v)
release-IsSchedule g t pid (p ∷ ws) s h v =
    let here : Without p (sleepers s.napping) =
      (at_target s.waiters t (p ∷ ws) (λ x. Without x (sleepers s.napping))
        (v.waiters_awake t)).0 in
    release-IsSchedule g t pid ws (make_ready (purge (record s { eax = assign s.eax p pid }) p) p)
      (make_ready-IsOrdered (purge s p) p (purge-IsOrdered s p h) (purge-IsOut s p here))
      (release-IsWaiting g s.waiters s.state s.napping t p ws v)

assign_same : (w : ℕ → List ℕ) (t q : ℕ) → assign w t (w t) q ≡ w q
assign_same w t q = elim (ℕ_discrete q t) [
  | yes same ↦ rw (same, assign_lists_self w t (w t)) refl
  | no ne ↦ assign_lists_ne w t (w t) q ne
]

pub destroy_process-IsSchedule :
    (g : ℕ → ℕ) (s : Sched) (p : ℕ) → IsSchedule g s → IsSchedule g (destroy_process s p)
unfolding destroy_process
destroy_process-IsSchedule g s p v = elim (Bool-cases (s.pid p == 1)) [
  | inl e ↦ rw (e, destroy_process) v
  | inr e ↦
      let k = v.waiting in
      let same : IsWaiting g (assign s.waiters p (s.waiters p)) s.state s.napping = record {
        waiters_all = λ q. rw (assign_same s.waiters p q) (k.waiters_all q);
        waiters_awake = λ q. rw (assign_same s.waiters p q) (k.waiters_awake q);
        waiters_one = λ q. rw (assign_same s.waiters p q) (k.waiters_one q);
        waiters_distinct = λ q. rw (assign_same s.waiters p q) (k.waiters_distinct q);
      } in
      let (h', k') = release-IsSchedule g p (s.pid p) (s.waiters p) s v.ordered same in
      rw (e, destroy_process) (record { ordered = h'; waiting = k' })
]

-- A process that does not wait for the one that ends keeps its state and stays out of the lists.
release-IsOut :
    (q pid : ℕ) (ws : List ℕ) (s : Sched)
    → Without q ws
    → IsOut s q
    → IsOut (release ws pid s) q × ((release ws pid s).state q ≡ s.state q)
unfolding release make_ready purge
release-IsOut q pid [] s w o = (o, refl)
release-IsOut q pid (p ∷ ws) s w o =
    let s1 = make_ready (purge (record s { eax = assign s.eax p pid }) p) p in
    let (o', e) = release-IsOut q pid ws s1 w.1 (record {
      not_ready =
          All-enqueue (λ x. q ≢ x) p (remove_process s.ready p) w.0
            (All-remove (λ x. q ≢ x) p s.ready o.not_ready);
      not_dead = All-remove (λ x. q ≢ x) p s.dead o.not_dead;
      not_napping = o.not_napping;
    }) in
    (o', e ∙ assign_ne s.state p ready_state q w.0)

pub destroy_process-IsOut :
    (q p : ℕ) (s : Sched)
    → Without q (s.waiters p)
    → IsOut s q
    → IsOut (destroy_process s p) q × ((destroy_process s p).state q ≡ s.state q)
unfolding destroy_process
destroy_process-IsOut q p s w o = elim (Bool-cases (s.pid p == 1)) [
  | inl e ↦ rw (e, destroy_process) (o, refl)
  | inr e ↦
      let (o', same) = release-IsOut q (s.pid p) (s.waiters p) s w o in
      rw (e, destroy_process)
        (
          record { not_ready = o'.not_ready; not_dead = o'.not_dead; not_napping = o'.not_napping },
          same,
        )
]

release_state :
    (q pid : ℕ) (ws : List ℕ) (s : Sched)
    → ((release ws pid s).state q ≡ s.state q) ⊎ ((release ws pid s).state q ≡ ready_state)
unfolding release make_ready purge
release_state q pid [] s = inl refl
release_state q pid (p ∷ ws) s =
    elim (release_state q pid ws (make_ready (purge (record s { eax = assign s.eax p pid }) p) p)) [
      | inr e ↦ inr e
      | inl e ↦ elim (ℕ_discrete q p) [
        | yes same ↦
            inr (e ∙ ap (assign s.state p ready_state) same ∙ assign_self s.state p ready_state)
        | no ne ↦ inl (e ∙ assign_ne s.state p ready_state q ne)
      ]
    ]

-- A process that ends makes others ready, and changes no state otherwise.
pub destroy_process_state :
    (q p : ℕ) (s : Sched)
    → ((destroy_process s p).state q ≡ s.state q) ⊎ ((destroy_process s p).state q ≡ ready_state)
unfolding destroy_process
destroy_process_state q p s = elim (Bool-cases (s.pid p == 1)) [
  | inl e ↦ rw (e, destroy_process) (inl refl)
  | inr e ↦ rw (e, destroy_process) (release_state q (s.pid p) (s.waiters p) s)
]
