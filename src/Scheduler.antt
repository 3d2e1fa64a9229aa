-- ===== src/Scheduler.antt =====
-- kernel/process/scheduler.c, and what kernel/process/process.c and kernel/process/syscall.c do to
-- the queues of the scheduler. A process is the address of its `proc_t`, and each of its fields is
-- a map from addresses; 0 is NULL. A queue is the list of the processes in it, the oldest first,
-- and the list of napping processes is the list of its entries.
pub mod Members
pub mod Inv
pub mod Moves
pub mod Clock
pub mod Waiting
pub mod Switch
pub mod Next
pub mod Steps
pub mod Turns
pub mod Lost
mod Tests
use dbos.Base.{
  ℕ, zero, suc, ◌+◌, ◌-◌, ◌*◌, ◌%◌, ◌^◌, Bool, true, false, not, ◌&&◌, ◌||◌, Option, none, some,
  List, [], ◌∷◌, ◌++◌, ltb, ◌==◌, if◌then◌else◌, length,
}
use dbos.Tree.{Tree, Trees, tree, nil, cons, data_of, dissolve}
use dbos.Base.Word.{u32_mod, add32, sub32, slt32}

-- `PROCESS_STATE_READY`, `PROCESS_STATE_LIVING`, `PROCESS_STATE_NAPPING`, `PROCESS_STATE_DEAD`
abbrev pub ready_state : ℕ
ready_state = 1

abbrev pub living_state : ℕ
living_state = 2

abbrev pub napping_state : ℕ
napping_state = 3

abbrev pub dead_state : ℕ
dead_state = 4

-- `PROCESS_PRV_USER`
abbrev pub user_privilege : ℕ
user_privilege = 2

-- `SCHED_MAX_READY` and `SCHED_MAX_DEAD`
abbrev pub sched_max : ℕ
sched_max = 256

-- `t_process_t`; `counter` is an `int`, given as its bit pattern.
pub record Timed : Type 0 where
  pub process : ℕ
  pub counter : ℕ

pub record Sched : Type 0 where
  pub state : ℕ → ℕ
  pub pid : ℕ → ℕ
  pub cpl : ℕ → ℕ
  pub proc_regs : ℕ → ℕ
  pub eax : ℕ → ℕ
  pub fpu_regs : ℕ → ℕ
  pub sys_stack : ℕ → ℕ
  pub proc_pdir : ℕ → ℕ
  pub waiters : ℕ → List ℕ
  pub ready : List ℕ
  pub dead : List ℕ
  pub napping : List Timed
  pub current : ℕ
  pub kernel : ℕ
  pub processes : Tree
  pub tss_ss0 : ℕ
  pub tss_esp0 : ℕ
  pub directory : ℕ
  pub fpu : ℕ

-- `process->field = value`
unfoldable pub assign {ℓ} : {A : Type ℓ} → (ℕ → A) → ℕ → A → ℕ → A
assign f p v a = if a == p then v else f a

-- `queue_enqueue` on a queue with the limit of the scheduler.
unfoldable pub enqueue_process : List ℕ → ℕ → List ℕ
enqueue_process ps p = if (p == 0) || not (ltb (length ps) sched_max) then ps else ps ++ (p ∷ [])

-- `queue_dequeue`
unfoldable pub dequeue_process : List ℕ → ℕ × List ℕ
dequeue_process [] = (0, [])
dequeue_process (p ∷ ps) = (p, ps)

-- `queue_force_remove`
unfoldable pub remove_process : List ℕ → ℕ → List ℕ
remove_process [] p = []
remove_process (q ∷ ps) p = if q == p then remove_process ps p else q ∷ remove_process ps p

-- `sched_make_ready`
unfoldable pub make_ready : Sched → ℕ → Sched
make_ready s p = record s {
  state = assign s.state p ready_state;
  ready = enqueue_process s.ready p;
}

-- `sched_make_dead`
unfoldable pub make_dead : Sched → ℕ → Sched
make_dead s p = record s { state = assign s.state p dead_state; dead = enqueue_process s.dead p }

-- `sched_purge_process`
unfoldable pub purge : Sched → ℕ → Sched
purge s p = record s { ready = remove_process s.ready p; dead = remove_process s.dead p }

-- `sched_make_napping`
unfoldable pub make_napping : Sched → ℕ → ℕ → Sched
make_napping s p time =
    if not (s.state p == dead_state) && not (s.state p == napping_state)
    then (let s' = purge s p in
        record s' {
          state = assign s'.state p napping_state;
          napping = s'.napping ++ (record { process = p; counter = time } ∷ []);
        })
    else s

-- The loop of `sched_timekeeper` over the entries that are left, and the entries that stay.
unfoldable pub wake_due : List Timed → Sched → List Timed × Sched
wake_due [] s = ([], s)
wake_due (t ∷ ts) s =
    let counter = sub32 t.counter 1 in
    if not (slt32 0 counter)
    then wake_due ts (make_ready s t.process)
    else (let rest = wake_due ts s in
        (record { process = t.process; counter = counter } ∷ rest.0, rest.1))

-- `sched_timekeeper`
unfoldable pub timekeeper : Sched → Sched
timekeeper s = let (left, s') = wake_due s.napping s in record s' { napping = left }

-- The search of `sched_wakeup`: the first entry of a process with the pid, and the list without it.
unfoldable pub take_napping : (ℕ → ℕ) → ℕ → List Timed → Option (ℕ × List Timed)
take_napping pids pid [] = none
take_napping pids pid (t ∷ ts) = elim (pids t.process == pid) [
  | true ↦ some (t.process, ts)
  | false ↦ elim (take_napping pids pid ts) [ none ↦ none | some (p, rest) ↦ some (p, t ∷ rest) ]
]

-- `sched_wakeup`; the first result is 0, or -1 where no such process naps.
unfoldable pub wakeup : Sched → ℕ → ℕ × Sched
wakeup s pid = elim (take_napping s.pid pid s.napping) [
  | none ↦ (u32_mod - 1, s)
  | some (p, rest) ↦ (0, make_ready (purge (record s { napping = rest }) p) p)
]

-- `proc_find_recur`: the loop over the sub-trees returns at the first one that has data.
unfoldable mutual
  pub find_recur : (ℕ → ℕ) → ℕ → Tree → ℕ
  find_recur pids pid (tree p subs) =
      let below = find_below pids pid subs in
      if (pid == 0) || (p == 0) then 0 else if pids p == pid then p else below

  pub find_below : (ℕ → ℕ) → ℕ → Trees → ℕ
  find_below pids pid nil = 0
  find_below pids pid (cons child rest) =
      let later = find_below pids pid rest in
      let within = find_recur pids pid child in
      if data_of child == 0
      then later
      else if pids (data_of child) == pid
      then data_of child
      else within

-- `proc_find`
unfoldable pub proc_find : Sched → ℕ → ℕ
proc_find s pid = find_recur s.pid pid s.processes

-- `sched_wait_for`; the first result is 0, or -1 where there is no such living process.
unfoldable pub wait_for : Sched → ℕ → ℕ → ℕ × Sched
wait_for s p pid =
    let target = proc_find s pid in
    if (target == 0) || (s.state target == dead_state) then (u32_mod - 1, s) else (
      0,
      purge
          (record s {
            state = assign s.state p napping_state;
            waiters = assign s.waiters target (s.waiters target ++ (p ∷ []));
          })
          p,
    )

-- The loop of `proc_destroy` over the waiters of the process with the pid.
unfoldable pub release : List ℕ → ℕ → Sched → Sched
release [] pid s = s
release (w ∷ ws) pid s =
    release ws pid (make_ready (purge (record s { eax = assign s.eax w pid }) w) w)

-- What `proc_destroy` does to the scheduler and to the tree of processes.
unfoldable pub destroy_process : Sched → ℕ → Sched
unfolding dissolve
destroy_process s p =
    if s.pid p == 1
    then s
    else (let s' = release (s.waiters p) (s.pid p) s in
        record s' { waiters = assign s'.waiters p []; processes = dissolve p s'.processes })

-- The parts of `sched_get_next`: a living process becomes ready again, the kernel destroys a dead
-- one, and a process that was set to die becomes dead.
unfoldable pub requeue : Sched → ℕ → Sched
requeue s p = if s.state p == living_state then make_ready s p else s

unfoldable pub reap : Sched → ℕ → ℕ → Sched
reap s gone p = if not (gone == 0) && (p == s.kernel) then destroy_process s gone else s

unfoldable pub bury : Sched → ℕ → Sched
bury s p = if s.state p == dead_state then make_dead s p else s

-- `sched_get_next`
unfoldable pub get_next : Sched → ℕ → ℕ × Sched
get_next s p =
    let s1 = requeue s p in
    let (new, ready) = dequeue_process s1.ready in
    let (gone, dead) = dequeue_process s1.dead in
    (new, bury (reap (record s1 { ready = ready; dead = dead }) gone p) p)

-- The rest of `sched_preempt_handler`: the processor goes over to the process `new`.
unfoldable pub switch_to : Sched → ℕ → Sched
switch_to s new = record s {
  tss_ss0 = if s.cpl new == user_privilege then 0x10 else s.tss_ss0;
  tss_esp0 = if s.cpl new == user_privilege then add32 (s.sys_stack new) 8192 else s.tss_esp0;
  directory = s.proc_pdir new;
  state = assign s.state new living_state;
  current = new;
  fpu = s.fpu_regs new;
}

-- `sched_preempt_handler`; the first result is the stack that it returns, and `none` the access
-- through NULL where no process is ready.
unfoldable pub preempt : Sched → ℕ → Option (ℕ × Sched)
preempt s regs =
    let s' = record s {
      proc_regs = assign s.proc_regs s.current regs;
      fpu_regs = assign s.fpu_regs s.current s.fpu;
    } in
    let (new, s'') = get_next s' s.current in
    if new == 0 then none else some (s''.proc_regs new, switch_to s'' new)

-- `sysc_exit`
unfoldable pub exit : Sched → ℕ → Option Sched
exit s p = elim (preempt (record s { state = assign s.state p dead_state }) (s.proc_regs p)) [
  | none ↦ none
  | some (regs, s') ↦ some s'
]

-- `sysc_wait`
unfoldable pub wait : Sched → ℕ → ℕ → Option Sched
wait s p pid = elim (preempt s (s.proc_regs p)) [
  | none ↦ none
  | some (regs, s') ↦ some (wait_for s' p pid).1
]

-- `sysc_sleep`
unfoldable pub sleep : Sched → ℕ → ℕ → Option Sched
sleep s p time = elim (preempt s (s.proc_regs p)) [
  | none ↦ none
  | some (regs, s') ↦ some (make_napping s' p time)
]

-- `sysc_wakeup`
unfoldable pub wake : Sched → ℕ → ℕ → Sched
wake s p pid = let (result, s') = wakeup s pid in record s' { eax = assign s'.eax p result }

-- `sysc_kill`
unfoldable pub kill : Sched → ℕ → ℕ → Sched
kill s p pid =
    let target = proc_find s pid in
    if target == 0
    then record s { eax = assign s.eax p (u32_mod - 1) }
    else if not (s.state target == dead_state)
    then (let s' = make_dead (purge s target) target in record s' { eax = assign s'.eax p 0 })
    else record s { eax = assign s.eax p (u32_mod - 1) }
