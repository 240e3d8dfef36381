-- ===== src/Sched/Scheduler/Wait.antt =====
-- `wait` and `wake_one` of kernel/src/sync/waker.rs: a wake-up before the waiting task is parked, and
-- one after `wait` has given the CPU away.
use mathlib.Core.Option
use scarlet.Common.{
  ◌==◌, if◌then◌else◌, ==_refl, Bool-cases, ℕ, ◌≡◌, refl, sym, ap, ◌∙◌, inl, inr, Bool, true, false,
  Option, none, some, [], ◌∷◌,
}
use scarlet.Sched.TaskPool.{running, blocked, Task, get_task}
use scarlet.Sched.TaskPool.Laws.{IsValid}
use scarlet.Sched.TaskPool.Write.{get_task-id, Written, write_task-Written}
use scarlet.Sched.Waker.{Waker}
use scarlet.Sched.Scheduler.{
  Scheduler, set_state, wake_task, Round, again, selects, panics, mark_waiting, wake_one,
}
use scarlet.Sched.Scheduler.Calm.{runnable}
use scarlet.Sched.Scheduler.Ready.{Selected}
use scarlet.Sched.Scheduler.Wake.{Woken, wake_task-Woken}

-- What `wake_one` came to: it woke the task, which is as it was but for running, and every other task
-- is as it was; the waker has no one left, and no CPU changed its task.
abbrev pub Resumed : Scheduler → ℕ → Task → Scheduler × Waker × Bool → Type 0
Resumed s id t (s', w', woken) =
    (woken ≡ true)
    × (w'.wait_queue ≡ [])
    × ((k : ℕ)
        → get_task s'.task_pool k
          ≡ (if k == id then some (record t { state = running }) else get_task s.task_pool k))
    × IsValid s'.task_pool
    × (s'.current_task_id ≡ s.current_task_id)

-- A wake-up that comes before the waiting task is parked is not lost. Once `wait` has put the task
-- into the queue of a waker with no other task and marked it as blocked, and before it calls the
-- scheduler, `wake_one` answers yes; the task is running and otherwise as it was before, no other
-- task and no CPU's current task changed, the waker is empty again, and the task pool is valid.
pub wake_one-mark_waiting :
    (s : Scheduler) (w : Waker) (id : ℕ) (t : Task)
    → IsValid s.task_pool
    → get_task s.task_pool id ≡ some t
    → w.wait_queue ≡ []
    → (s' : Scheduler) × (w' : Waker) × (mark_waiting s w id ≡ some (s', w'))
      × Resumed s id t (wake_one s' w')
unfolding mark_waiting wake_one
wake_one-mark_waiting s w id t v h e = (
  asleep,
  queued,
  rw (h, e) refl,
  by_woken (wake_task asleep id) (wake_task-Woken asleep id wr.valid),
)
  where
    asleep : Scheduler
    asleep = set_state s id t (blocked w.block_type)

    queued : Waker
    queued = record w { wait_queue = id ∷ [] }

    wr : Written s.task_pool asleep.task_pool id (record t { state = blocked w.block_type })
    wr = write_task-Written s.task_pool id t _ v h (get_task-id s.task_pool id t v h)

    there : get_task asleep.task_pool id ≡ some (record t { state = blocked w.block_type })
    there = wr.lookup id ∙ (rw (==_refl id) refl)

    by_woken :
        (r : Scheduler × Bool)
        → Woken asleep id r
        → Resumed s id t (r.0, record queued { wait_queue = [] }, r.1)
    by_woken (s', false) (awake, _, _, _, _) =
        (let bad : true ≡ false = rw there at awake in cc bad)
    by_woken (s', true) ((u, at, look, valid, _, _), _, current) =
        (refl, refl, λ k. look k ∙ as_before k, valid, current)
      where
        woken : Task → Task
        woken x = record x { state = running }

        same : some (record u { state = running }) ≡ some (record t { state = running })
        same = ap (Option.map woken) (sym at ∙ there)

        as_before :
            (k : ℕ)
            → (if k == id then some (record u { state = running }) else get_task asleep.task_pool k)
              ≡ (if k == id then some (record t { state = running }) else get_task s.task_pool k)
        as_before k = elim (Bool-cases (k == id)) [
          | inl e ↦ rw e same
          | inr e ↦ rw e (wr.lookup k ∙ (rw e refl))
        ]

-- What became of a task that waits: its CPU has been given to a task that can run, the waker has the
-- waiting task alone, and `wake_one` empties it and wakes that task.
abbrev pub Parted :
    Scheduler → Waker → ℕ → ℕ → Option (Scheduler × Waker × Option ℕ × Round) → Type 0
Parted s w id cpu (some (s', w', old, selects k)) =
    (old ≡ s.current_task_id cpu)
    × Selected s' cpu k
    × (w' ≡ record w { wait_queue = id ∷ [] })
    × ((wake_one s' w').1 ≡ record w { wait_queue = [] })
    × Woken s' id ((wake_one s' w').0, (wake_one s' w').2)
    × (runnable (wake_one s' w').0.task_pool id ≡ true)
Parted s w id cpu (some (s', w', old, again)) = ⊥
Parted s w id cpu (some (s', w', old, panics)) = ⊥
Parted s w id cpu none = ⊥
