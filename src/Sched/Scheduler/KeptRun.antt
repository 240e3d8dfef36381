-- ===== src/Sched/Scheduler/KeptRun.antt =====
-- The tasks that are blocked or can run, through the loop of `run`.
use scarlet.Common.{
  usize_mod, ℕ, zero, suc, ◌+◌, ◌%◌, ◌≡◌, refl, subst, true, false, Option, none, some, List, [],
  ◌∷◌,
}
use scarlet.Sched.TaskPool.{
  TaskState, not_initialized, ready, running, zombie, terminated, blocked, Task, TaskPool,
  PoolError, get_task,
}
use scarlet.Sched.TaskPool
use scarlet.Sched.TaskPool.Laws.{IsValid, Added, add_task-Added}
use scarlet.Sched.Scheduler.{
  add_task, Scheduler, enqueue, idle_task, Round, again, selects, panics, idled, idle_round,
  round_by_state, round_by_task, popped, is_nil, round_by_queue, round, proceed, run_loop,
}
use scarlet.Sched.Scheduler.Calm.{alive, AllAlive}
use scarlet.Sched.Scheduler.Ready.{IsReady, RoundDone}
use scarlet.Sched.Scheduler.Rounds.{round-RoundDone}
use scarlet.Sched.Scheduler.Kept.{
  Keeps, Keeps-refl, Keeps-trans, Keeps-write, zombie_round-Keeps, dispatch-Keeps,
}

idle_round-Keeps :
    (s : Scheduler) (cpu : ℕ)
    → IsValid s.task_pool
    → Keeps s.task_pool (idle_round s cpu).0.task_pool
unfolding idle_round add_task enqueue idled
idle_round-Keeps s cpu v =
    by_added (TaskPool.add_task s.task_pool idle) (add_task-Added s.task_pool idle v)
  where
    idle : Task
    idle = idle_task s.next_task_id

    counted : Scheduler
    counted = record s { next_task_id = (s.next_task_id + 1) % usize_mod }

    by_added :
        (r : TaskPool × Option PoolError)
        → Added s.task_pool idle r
        → Keeps s.task_pool (idled s (enqueue counted cpu s.next_task_id r)).0.task_pool
    by_added (p, some _) full = Keeps-refl s.task_pool v
    by_added (p, none) (look, valid) = Keeps-write s.task_pool p s.next_task_id idle valid look refl

round-Keeps :
    (s : Scheduler) (cpu : ℕ) → IsReady s cpu → Keeps s.task_pool (round s cpu).0.task_pool
unfolding round round_by_queue round_by_task round_by_state
round-Keeps s cpu v = by_queue (s.ready_queue cpu) refl
  where
    by_state :
        (id : ℕ) (rest : List ℕ)
        → alive s.task_pool id ≡ true
        → (t : Task) → get_task s.task_pool id ≡ some t
        → (x : TaskState) → t.state ≡ x
        → Keeps s.task_pool
            (round_by_state (is_nil rest) (popped s cpu rest) cpu id t x).0.task_pool
    by_state id rest a t f not_initialized g = Keeps-refl s.task_pool v.valid
    by_state id rest a t f terminated g = (let bad : false ≡ true = rw (f, g) at a in cc bad)
    by_state id rest a t f ready g =
        dispatch-Keeps (is_nil rest) (popped s cpu rest) cpu id t v.valid f (rw g refl)
    by_state id rest a t f running g =
        dispatch-Keeps (is_nil rest) (popped s cpu rest) cpu id t v.valid f (rw g refl)
    by_state id rest a t f zombie g =
        zombie_round-Keeps (is_nil rest) (popped s cpu rest) cpu t v.valid
    by_state id rest a t f (blocked b) g = Keeps-refl s.task_pool v.valid

    by_task :
        (id : ℕ) (rest : List ℕ)
        → alive s.task_pool id ≡ true
        → (o : Option Task) → get_task s.task_pool id ≡ o
        → Keeps s.task_pool (round_by_task (is_nil rest) (popped s cpu rest) cpu id o).0.task_pool
    by_task id rest a none f = Keeps-refl s.task_pool v.valid
    by_task id rest a (some t) f = by_state id rest a t f t.state refl

    by_queue :
        (q : List ℕ)
        → s.ready_queue cpu ≡ q
        → Keeps s.task_pool (round_by_queue s cpu q).0.task_pool
    by_queue [] e = idle_round-Keeps s cpu v.valid
    by_queue (id ∷ rest) e =
        by_task id rest (subst (AllAlive s.task_pool) e v.all_alive).0 (get_task s.task_pool id)
          refl

-- What the loop of `run` leaves of the tasks, if it ends.
abbrev pub KeepsIn : Scheduler → Option (Scheduler × Round) → Type 0
KeepsIn s none = Unit
KeepsIn s (some (s', r)) = Keeps s.task_pool s'.task_pool

-- No round takes the state of a task that is able away from it.
pub run_loop-KeepsIn :
    (fuel : ℕ) (s : Scheduler) (cpu : ℕ) → IsReady s cpu → KeepsIn s (run_loop fuel s cpu)
unfolding run_loop
run_loop-KeepsIn zero s cpu v = tt
run_loop-KeepsIn (suc fuel) s cpu v =
    by_round (round s cpu) (round-RoundDone s cpu v) (round-Keeps s cpu v)
      (λ s'. run_loop-KeepsIn fuel s' cpu)
  where
    by_round :
        (r : Scheduler × Round)
        → RoundDone s cpu r
        → Keeps s.task_pool r.0.task_pool
        → ((s' : Scheduler) → IsReady s' cpu → KeepsIn s' (run_loop fuel s' cpu))
        → KeepsIn s (proceed (λ s'. run_loop fuel s' cpu) r)
    by_round (s', selects id) d k rest = k
    by_round (s', panics) d k rest = k
    by_round (s', again) d k rest = by_end (run_loop fuel s' cpu) (rest s' d.0)
      where
        by_end : (o : Option (Scheduler × Round)) → KeepsIn s' o → KeepsIn s o
        by_end none x = tt
        by_end (some (t, r)) x = Keeps-trans s.task_pool s'.task_pool t.task_pool k x
