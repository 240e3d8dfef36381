-- ===== src/Sched/Scheduler/Kept.antt =====
-- The tasks that are blocked or can run, through the steps of a round of `run`.
use scarlet.Common.{
  ◌==◌, if◌then◌else◌, if_both, ℕ, ◌≡◌, refl, sym, subst, Bool, true, false, Option, none, some,
  List, [], ◌∷◌,
}
use scarlet.Sched.TaskPool.{
  TaskState, not_initialized, ready, running, zombie, terminated, blocked, Task, TaskPool, get_task,
  write_task,
}
use scarlet.Sched.TaskPool.Laws.{IsValid}
use scarlet.Sched.TaskPool.Write.{get_task-id, Written, write_task-Written}
use scarlet.Sched.Waker.{Waker}
use scarlet.Sched.Scheduler.{
  Scheduler, update, push_back, wake_task, wake_all, drained, wake_task_waiters,
  wake_parent_waiters, wake_parent, zombie_round, dispatch,
}
use scarlet.Sched.Scheduler.Calm.{of_task}
use scarlet.Sched.Scheduler.Wake.{Woken, wake_task-Woken}

-- The task can run, or would be woken.
abbrev pub state_able : TaskState → Bool
state_able ready = true
state_able running = true
state_able (blocked _) = true
state_able not_initialized = false
state_able zombie = false
state_able terminated = false

abbrev pub able : TaskPool → ℕ → Bool
able p id = of_task state_able (get_task p id)

abbrev pub Keeps : TaskPool → TaskPool → Type 0
Keeps p q = IsValid q × ((id : ℕ) → able p id ≡ true → able q id ≡ true)

pub Keeps-refl : (p : TaskPool) → IsValid p → Keeps p p
Keeps-refl p v = (v, λ id a. a)

pub Keeps-trans : (p q r : TaskPool) → Keeps p q → Keeps q r → Keeps p r
Keeps-trans p q r f g = (g.0, λ id a. g.1 id (f.1 id a))

-- One task is written, in a state that is able.
pub Keeps-write :
    (p q : TaskPool) (id : ℕ) (u : Task)
    → IsValid q
    → ((k : ℕ) → get_task q k ≡ (if k == id then some u else get_task p k))
    → state_able u.state ≡ true
    → Keeps p q
Keeps-write p q id u v look fit = (
  v,
  λ k a.
      rw (look k)
        (if_both (λ o. of_task state_able o ≡ true) (k == id) (some u) (get_task p k) fit a),
)

wake_task-Keeps :
    (s : Scheduler) (id : ℕ) → IsValid s.task_pool → Keeps s.task_pool (wake_task s id).0.task_pool
wake_task-Keeps s id v = woken (wake_task s id) (wake_task-Woken s id v)
  where
    woken : (r : Scheduler × Bool) → Woken s id r → Keeps s.task_pool r.0.task_pool
    woken (s', true) ((t, f, look, v', _, _), _, _) =
        Keeps-write s.task_pool s'.task_pool id (record t { state = running }) v' look refl
    woken (s', false) (_, p, _, _, _) =
        subst (λ q. Keeps q s'.task_pool) p (Keeps-refl s'.task_pool (subst IsValid (sym p) v))

wake_all-Keeps :
    (s : Scheduler) (ids : List ℕ)
    → IsValid s.task_pool
    → Keeps s.task_pool (wake_all s ids).0.task_pool
unfolding wake_all
wake_all-Keeps s [] v = Keeps-refl s.task_pool v
wake_all-Keeps s (id ∷ ids) v =
    let first = wake_task-Keeps s id v in
    Keeps-trans s.task_pool (wake_task s id).0.task_pool _ first
      (wake_all-Keeps (wake_task s id).0 ids first.0)

wake_task_waiters-Keeps :
    (s : Scheduler) (id : ℕ)
    → IsValid s.task_pool
    → Keeps s.task_pool (wake_task_waiters s id).task_pool
unfolding wake_task_waiters
wake_task_waiters-Keeps s id v = by_waker (s.waitpid_wakers id) refl
  where
    by_waker :
        (o : Option Waker)
        → s.waitpid_wakers id ≡ o
        → Keeps s.task_pool (wake_task_waiters s id).task_pool
    by_waker none e = rw (e, wake_task_waiters) (Keeps-refl s.task_pool v)
    by_waker (some w) e =
        rw (e, wake_task_waiters)
          (wake_all-Keeps (record s { waitpid_wakers = drained s.waitpid_wakers id w }) w.wait_queue
            v)

wake_parent-Keeps :
    (s : Scheduler) (o : Option ℕ)
    → IsValid s.task_pool
    → Keeps s.task_pool (wake_parent s o).task_pool
unfolding wake_parent wake_parent_waiters
wake_parent-Keeps s none v = Keeps-refl s.task_pool v
wake_parent-Keeps s (some id) v = by_waker (s.parent_waitpid_wakers id) refl
  where
    by_waker :
        (o : Option Waker)
        → s.parent_waitpid_wakers id ≡ o
        → Keeps s.task_pool (wake_parent_waiters s id).task_pool
    by_waker none e = rw (e, wake_parent_waiters) (Keeps-refl s.task_pool v)
    by_waker (some w) e =
        rw (e, wake_parent_waiters)
          (wake_all-Keeps
            (record s { parent_waitpid_wakers = drained s.parent_waitpid_wakers id w }) w.wait_queue
            v)

pub zombie_round-Keeps :
    (last : Bool) (s : Scheduler) (cpu : ℕ) (t : Task)
    → IsValid s.task_pool
    → Keeps s.task_pool (zombie_round last s cpu t).task_pool
zombie_round-Keeps last s cpu t v =
    Keeps-trans s.task_pool (wake_task_waiters filed t.id).task_pool _ woken
      (wake_parent-Keeps (wake_task_waiters filed t.id) t.parent_id woken.0)
  where
    filed : Scheduler
    filed = record s {
      zombie_queue = push_back s.zombie_queue cpu t.id;
      current_task_id = if last then update s.current_task_id cpu none else s.current_task_id;
    }

    woken : Keeps s.task_pool (wake_task_waiters filed t.id).task_pool
    woken = wake_task_waiters-Keeps filed t.id v

pub dispatch-Keeps :
    (last : Bool) (s : Scheduler) (cpu id : ℕ) (t : Task)
    → IsValid s.task_pool
    → get_task s.task_pool id ≡ some t
    → state_able t.state ≡ true
    → Keeps s.task_pool (dispatch last s cpu id t).task_pool
dispatch-Keeps last s cpu id t v h fit =
    Keeps-write s.task_pool (write_task s.task_pool id u) id u w.valid w.lookup
      (if_both (λ x. state_able x ≡ true) last _ _ refl fit)
  where
    u : Task
    u = record t { state = if last then running else t.state; time_slice = 1 }

    w : Written s.task_pool (write_task s.task_pool id u) id u
    w = write_task-Written s.task_pool id t u v h (get_task-id s.task_pool id t v h)
