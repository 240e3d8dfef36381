-- ===== src/Sched/Scheduler/Rounds.antt =====
-- One round of the loop of `run`.
use scarlet.Common.{
  if◌then◌else◌, ==_refl, if_both, length, usize_mod, ℕ, ◌+◌, ◌%◌, ◌≡◌, refl, ap, subst, inl, inr,
  Bool, true, false, Option, none, some, List, [], ◌∷◌, arith,
}
use scarlet.Sched.TaskPool.{
  TaskState, not_initialized, ready, running, zombie, terminated, blocked, Task, TaskPool,
  max_tasks, PoolError, get_task, write_task,
}
use scarlet.Sched.TaskPool
use scarlet.Sched.TaskPool.Laws.{IsValid, Added, add_task-Added}
use scarlet.Sched.Scheduler.{
  add_task, Scheduler, update, push_back, wake_task_waiters, enqueue, idle_task, idled, idle_round,
  wake_parent, zombie_round, park, dispatch, round_by_state, round_by_task, popped, is_nil,
  round_by_queue, round,
}
use scarlet.Sched.Scheduler.WakeAll.{wake_task_waiters-Calm, wake_parent_waiters-Calm}
use scarlet.Sched.TaskPool.Write.{get_task-id, Written, write_task-Written}
use scarlet.Sched.Scheduler.Calm.{
  state_runs, runnable, alive, AllAlive, Calm, Calm-trans, Calm-same,
}
use scarlet.Sched.Scheduler.Ready.{Room, IsReady, Selected, RoundDone, leaves}

wake_parent-Calm :
    (s : Scheduler) (o : Option ℕ) (cpu : ℕ) → IsValid s.task_pool → Calm s (wake_parent s o) cpu
unfolding wake_parent
wake_parent-Calm s none cpu v = Calm-same s s cpu v refl refl
wake_parent-Calm s (some parent) cpu v = wake_parent_waiters-Calm s parent cpu v

zombie_round-Calm :
    (last : Bool) (s : Scheduler) (cpu : ℕ) (t : Task)
    → IsValid s.task_pool
    → Calm s (zombie_round last s cpu t) cpu
zombie_round-Calm last s cpu t v =
    Calm-trans s _ _ cpu (Calm-trans s filed _ cpu (Calm-same s filed cpu v refl refl) woken)
      (wake_parent-Calm (wake_task_waiters filed t.id) t.parent_id cpu woken.improves.valid)
  where
    filed : Scheduler
    filed = record s {
      zombie_queue = push_back s.zombie_queue cpu t.id;
      current_task_id = if last then update s.current_task_id cpu none else s.current_task_id;
    }

    woken : Calm filed (wake_task_waiters filed t.id) cpu
    woken = wake_task_waiters-Calm filed t.id cpu v

dispatch-Selected :
    (last : Bool) (s : Scheduler) (cpu id : ℕ) (t : Task)
    → IsValid s.task_pool
    → get_task s.task_pool id ≡ some t
    → state_runs t.state ≡ true
    → Selected (dispatch last s cpu id t) cpu t.id
dispatch-Selected last s cpu id t v h runs = (
  rw (==_refl cpu) refl,
  (s.ready_queue cpu, rw (==_refl cpu, same) refl),
  (
    u,
    rw (w.lookup t.id, same, ==_refl id) refl,
    refl,
    refl,
    if_both (λ x. state_runs x ≡ true) last _ _ refl runs,
  ),
  w.valid,
)
  where
    same : t.id ≡ id
    same = get_task-id s.task_pool id t v h

    u : Task
    u = record t { state = if last then running else t.state; time_slice = 1 }

    w : Written s.task_pool (write_task s.task_pool id u) id u
    w = write_task-Written s.task_pool id t u v h same

idle_round-RoundDone :
    (s : Scheduler) (cpu : ℕ)
    → IsReady s cpu
    → s.ready_queue cpu ≡ []
    → RoundDone s cpu (idle_round s cpu)
unfolding idle_round add_task enqueue idled
idle_round-RoundDone s cpu v e =
    by_added (TaskPool.add_task s.task_pool (idle_task s.next_task_id))
      (add_task-Added s.task_pool (idle_task s.next_task_id) v.valid)
  where
    idle : Task
    idle = idle_task s.next_task_id

    counted : Scheduler
    counted = record s { next_task_id = (s.next_task_id + 1) % usize_mod }

    has_room : Room s.task_pool
    has_room = v.room (rw e refl)

    full :
        s.task_pool.free_indices ≡ []
        → s.task_pool.next_free_index ≡ max_tasks
        → Room s.task_pool
        → ⊥
    full f u (inl r) = omega (arith, r, u)
    full f u (inr r) = omega (arith, r, ap length f)

    by_added :
        (r : TaskPool × Option PoolError)
        → Added s.task_pool idle r
        → RoundDone s cpu (idled s (enqueue counted cpu s.next_task_id r))
    by_added (p, some _) (free, u, _) = full free u has_room
    by_added (p, none) (look, valid) =
        let runs : runnable p s.next_task_id ≡ true =
          rw (look s.next_task_id, ==_refl s.next_task_id) refl in
        (
          record {
            valid = valid;
            all_alive =
                rw (==_refl cpu, e) (rw (look s.next_task_id, ==_refl s.next_task_id) refl, tt);
            room = λ f. (let bad : 0 ≡ 1 = rw (==_refl cpu, e, runs) at f in omega (arith, bad));
          },
          rw (==_refl cpu, e, runs) (omega arith),
        )

pub round-RoundDone : (s : Scheduler) (cpu : ℕ) → IsReady s cpu → RoundDone s cpu (round s cpu)
unfolding round round_by_queue round_by_task round_by_state
round-RoundDone s cpu v = by_queue (s.ready_queue cpu) refl
  where
    by_state :
        (id : ℕ) (rest : List ℕ)
        → s.ready_queue cpu ≡ id ∷ rest
        → alive s.task_pool id ≡ true
        → (t : Task) → get_task s.task_pool id ≡ some t
        → (x : TaskState) → t.state ≡ x
        → RoundDone s cpu (round_by_state (is_nil rest) (popped s cpu rest) cpu id t x)
    by_state id rest e a t f not_initialized g = (let bad : false ≡ true = rw (f, g) at a in cc bad)
    by_state id rest e a t f terminated g = (let bad : false ≡ true = rw (f, g) at a in cc bad)
    by_state id rest e a t f ready g =
        dispatch-Selected (is_nil rest) (popped s cpu rest) cpu id t v.valid f (rw g refl)
    by_state id rest e a t f running g =
        dispatch-Selected (is_nil rest) (popped s cpu rest) cpu id t v.valid f (rw g refl)
    by_state id rest e a t f zombie g =
        leaves s _ cpu id rest v e (rw (f, g) refl)
          (zombie_round-Calm (is_nil rest) (popped s cpu rest) cpu t v.valid)
    by_state id rest e a t f (blocked b) g =
        leaves s _ cpu id rest v e (rw (f, g) refl)
          (Calm-same (popped s cpu rest) (park (popped s cpu rest) cpu id) cpu v.valid refl refl)

    by_task :
        (id : ℕ) (rest : List ℕ)
        → s.ready_queue cpu ≡ id ∷ rest
        → alive s.task_pool id ≡ true
        → (o : Option Task) → get_task s.task_pool id ≡ o
        → RoundDone s cpu (round_by_task (is_nil rest) (popped s cpu rest) cpu id o)
    by_task id rest e a none f = (let bad : false ≡ true = rw f at a in cc bad)
    by_task id rest e a (some t) f = by_state id rest e a t f t.state refl

    by_queue : (q : List ℕ) → s.ready_queue cpu ≡ q → RoundDone s cpu (round_by_queue s cpu q)
    by_queue [] e = idle_round-RoundDone s cpu v e
    by_queue (id ∷ rest) e =
        by_task id rest e (subst (AllAlive s.task_pool) e v.all_alive).0 (get_task s.task_pool id)
          refl
