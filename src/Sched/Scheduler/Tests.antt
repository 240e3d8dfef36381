-- ===== src/Sched/Scheduler/Tests.antt =====
-- The theorems on the scheduler at a concrete one, and runs of its operations.
use scarlet.Common.{
  ◌==◌, if◌then◌else◌, replicate, ℕ, ◌≡◌, refl, inl, true, Option, none, some, List, [], ◌∷◌, arith,
}
use scarlet.Sched.TaskPool
use scarlet.Sched.TaskPool.{interruptible, running, zombie, blocked, Task, TaskPool}
use scarlet.Sched.TaskPool.Laws.{IsValid, new-IsValid, add_task-Added}
use scarlet.Sched.Waker.{Waker, new_interruptible}
use scarlet.Sched.Scheduler.{
  Scheduler, add_task, wake_task, wake_all, wake_task_waiters, wake_parent_waiters, Round, round,
  run_loop, run, on_tick, get_all_task_ids, mark_waiting, wait, wake_one,
}
use scarlet.Sched.Scheduler.Wake.{Woken, wake_task-Woken}
use scarlet.Sched.Scheduler.Wait.{Resumed, wake_one-mark_waiting}
use scarlet.Sched.Scheduler.Ready.{IsReady}
use scarlet.Sched.Scheduler.Run.{Runs, run-Runs}

-- Task 7 has exited, task 9 waits for it, and task 4 is on its way to sleep.
abbrev exited : Task
exited = record { id = 7; state = zombie; parent_id = some 9; time_slice = 0 }

abbrev parent : Task
parent = record { id = 9; state = blocked interruptible; parent_id = none; time_slice = 0 }

abbrev sleeper : Task
sleeper = record { id = 4; state = blocked interruptible; parent_id = none; time_slice = 0 }

abbrev one_task : TaskPool
one_task = TaskPool.store (record TaskPool.new { next_free_index = 1 }) 0 exited

abbrev two_tasks : TaskPool
two_tasks = TaskPool.store (record one_task { next_free_index = 2 }) 1 parent

abbrev three_tasks : TaskPool
three_tasks = TaskPool.store (record two_tasks { next_free_index = 3 }) 2 sleeper

abbrev waiting : Scheduler
waiting = record {
  task_pool = three_tasks;
  ready_queue = λ cpu. if cpu == 0 then 7 ∷ 4 ∷ [] else [];
  blocked_queue = λ cpu. if cpu == 0 then 9 ∷ [] else [];
  zombie_queue = λ cpu. [];
  current_task_id = λ cpu. if cpu == 0 then some 7 else none;
  waitpid_wakers =
      λ id. if id == 7 then some (record new_interruptible { wait_queue = 9 ∷ [] }) else none;
  parent_waitpid_wakers = λ id. none;
  next_task_id = 10;
}

three_tasks-IsValid : IsValid three_tasks
unfolding TaskPool.new TaskPool.add_task replicate
three_tasks-IsValid = (add_task-Added two_tasks sleeper two_tasks-IsValid).1
  where
    one_task-IsValid : IsValid one_task
    one_task-IsValid = (add_task-Added TaskPool.new exited new-IsValid).1

    two_tasks-IsValid : IsValid two_tasks
    two_tasks-IsValid = (add_task-Added one_task parent one_task-IsValid).1

waiting-IsReady : IsReady waiting 0
unfolding TaskPool.new TaskPool.get_task replicate
waiting-IsReady = record {
  valid = three_tasks-IsValid;
  all_alive = (refl, (refl, tt));
  room = λ h. inl (omega arith);
}

-- The zombie leaves, its parent wakes up and is selected.
run-Runs_example : Runs waiting 0 (run waiting 0)
run-Runs_example = run-Runs waiting 0 waiting-IsReady

selected : Option (Scheduler × Option ℕ × Round) → List (List ℕ)
selected none = []
selected (some (s, old, r)) =
    s.ready_queue 0 ∷ s.blocked_queue 0 ∷ s.zombie_queue 0 ∷ get_all_task_ids s ∷ []

parent_selected : selected (run waiting 0) ≡ (9 ∷ []) ∷ (4 ∷ []) ∷ (7 ∷ []) ∷ (9 ∷ 4 ∷ 7 ∷ []) ∷ []
unfolding TaskPool.new TaskPool.get_task TaskPool.write_task replicate run run_loop round wake_task
    wake_task_waiters wake_all selected get_all_task_ids wake_parent_waiters
parent_selected = refl

wake_task-Woken_example : Woken waiting 9 (wake_task waiting 9)
wake_task-Woken_example = wake_task-Woken waiting 9 three_tasks-IsValid

-- Task 7 runs alone and goes to sleep: the CPU gets an idle task.
abbrev working : Task
working = record exited { state = running }

abbrev one_working : TaskPool
one_working = TaskPool.store (record TaskPool.new { next_free_index = 1 }) 0 working

abbrev busy : Scheduler
busy = record waiting {
  task_pool = one_working;
  ready_queue = λ cpu. if cpu == 0 then 7 ∷ [] else [];
  blocked_queue = λ cpu. [];
  waitpid_wakers = λ id. none;
}

one_working-IsValid : IsValid one_working
unfolding TaskPool.new TaskPool.add_task replicate
one_working-IsValid = (add_task-Added TaskPool.new working new-IsValid).1

wake_one-mark_waiting_example :
    (s' : Scheduler) × (w' : Waker) × (mark_waiting busy new_interruptible 7 ≡ some (s', w'))
    × Resumed busy 7 working (wake_one s' w')
unfolding TaskPool.new TaskPool.get_task replicate new_interruptible
wake_one-mark_waiting_example =
    wake_one-mark_waiting busy new_interruptible 7 working one_working-IsValid refl refl

-- The queues after the wait and after the wake-up.
around : Option (Scheduler × Waker × Option ℕ × Round) → List (List ℕ)
around none = []
around (some (s, w, old, r)) =
    let (s', w', woken) = wake_one s w in
    s.ready_queue 0
    ∷ s.blocked_queue 0
    ∷ w.wait_queue
    ∷ s'.ready_queue 0
    ∷ s'.blocked_queue 0
    ∷ w'.wait_queue
    ∷ []

waits_and_wakes :
    around (wait busy new_interruptible 7 0)
    ≡ (10 ∷ []) ∷ (7 ∷ []) ∷ (7 ∷ []) ∷ (10 ∷ 7 ∷ []) ∷ [] ∷ [] ∷ []
unfolding TaskPool.new TaskPool.get_task TaskPool.write_task TaskPool.add_task replicate wait
    mark_waiting run run_loop round wake_task wake_one add_task around new_interruptible
waits_and_wakes = refl

-- The last tick of a time slice switches; a CPU with no task switches at once.
ticks : ((on_tick waiting 0).1 ≡ true) × ((on_tick waiting 1).1 ≡ true)
unfolding TaskPool.new TaskPool.get_task TaskPool.write_task replicate on_tick
ticks = (refl, refl)
