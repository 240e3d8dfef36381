-- ===== src/Sched/Scheduler.antt =====
-- kernel/src/sched/scheduler.rs: Scheduler, with the wakers of kernel/src/task/mod.rs on which
-- parents wait for their children. An array over the CPUs is a function; a CPU number out of range
-- does not occur. The switch of contexts is left out: `run` returns the choice that it acts on.
use scarlet.Common.{
  ◌==◌, if◌then◌else◌, length, contains, usize_mod, ℕ, zero, suc, ◌+◌, ◌-◌, ◌%◌, Bool, true, false,
  Option, none, some, List, [], ◌∷◌, ◌++◌,
}
pub mod Calm
pub mod Wake
pub mod WakeAll
pub mod Ready
pub mod Rounds
pub mod Run
pub mod Kept
pub mod KeptRun
pub mod Asleep
pub mod Wait
mod Tests
use mathlib.Core.Option
use scarlet.Sched.TaskPool
use scarlet.Sched.TaskPool.{
  TaskState, not_initialized, ready, running, zombie, terminated, blocked, Task, TaskPool,
  PoolError, get_task, remove_task, write_task,
}
use scarlet.Sched.Waker.{Waker}

pub record Scheduler : Type 0 where
  pub task_pool : TaskPool
  pub ready_queue : ℕ → List ℕ
  pub blocked_queue : ℕ → List ℕ
  pub zombie_queue : ℕ → List ℕ
  pub current_task_id : ℕ → Option ℕ
  pub waitpid_wakers : ℕ → Option Waker
  pub parent_waitpid_wakers : ℕ → Option Waker
  pub next_task_id : ℕ

abbrev pub num_of_cpus : ℕ
num_of_cpus = 2

-- One entry of an array or a map replaced.
abbrev pub update {ℓ} : {A : Type ℓ} → (ℕ → A) → ℕ → A → ℕ → A
update f i x j = if j == i then x else f j

-- An id put at the back of a queue, and the first occurrence of an id taken out of one.
abbrev pub push_back : (ℕ → List ℕ) → ℕ → ℕ → ℕ → List ℕ
push_back q cpu id = update q cpu (q cpu ++ id ∷ [])

abbrev pub remove_first : ℕ → List ℕ → List ℕ
remove_first id [] = []
remove_first id (x ∷ xs) = if id == x then xs else x ∷ remove_first id xs

abbrev pub set_state : Scheduler → ℕ → Task → TaskState → Scheduler
set_state s id t state = record s {
  task_pool = write_task s.task_pool id (record t { state = state });
}

-- A task taken from the blocked queue of a CPU runs again there.
abbrev pub unblock : Scheduler → ℕ → ℕ → Scheduler
unblock s cpu id = record s {
  blocked_queue = update s.blocked_queue cpu (remove_first id (s.blocked_queue cpu));
}

abbrev pub make_ready : Scheduler → ℕ → ℕ → Task → Scheduler
make_ready s cpu id t =
    let s' = set_state s id t running in record s' { ready_queue = push_back s'.ready_queue cpu id }

-- The loop of `wake_task` over `n` CPUs from `cpu` on; `true` is its `return true`.
wake_loop : ℕ → ℕ → Scheduler → ℕ → Scheduler × Bool
wake_loop zero cpu s id = (s, false)
wake_loop (suc n) cpu s id = elim (contains id (s.blocked_queue cpu)) [
  | false ↦ wake_loop n (cpu + 1) s id
  | true ↦ elim (get_task s.task_pool id) [
    | none ↦ wake_loop n (cpu + 1) (unblock s cpu id) id
    | some t ↦ (make_ready (unblock s cpu id) cpu id t, true)
  ]
]

-- A task that is marked as blocked, and not parked yet, is marked as running.
unmark : Scheduler → ℕ → Option Task → Scheduler × Bool
unmark s id none = (s, false)
unmark s id (some t) = elim t.state [
  | blocked _ ↦ (set_state s id t running, true)
  | _ ↦ (s, false)
]

not_parked : Scheduler × Bool → ℕ → Scheduler × Bool
unfolding unmark
not_parked (s, true) id = (s, true)
not_parked (s, false) id = unmark s id (get_task s.task_pool id)

unfoldable pub wake_task : Scheduler → ℕ → Scheduler × Bool
unfolding wake_loop not_parked
wake_task s id = not_parked (wake_loop num_of_cpus 0 s id) id

-- The loop of `Waker::wake_all`, over the tasks drained from its queue, and its count.
unfoldable pub wake_all : Scheduler → List ℕ → Scheduler × ℕ
wake_all s [] = (s, 0)
wake_all s (id ∷ ids) =
    let (s', woken) = wake_task s id in
    let (s'', count) = wake_all s' ids in (s'', if woken then count + 1 else count)

abbrev drained : (ℕ → Option Waker) → ℕ → Waker → ℕ → Option Waker
drained wakers id w = update wakers id (some (record w { wait_queue = [] }))

unfoldable pub wake_task_waiters : Scheduler → ℕ → Scheduler
wake_task_waiters s id = elim (s.waitpid_wakers id) [
  | none ↦ s
  | some w ↦ (wake_all (record s { waitpid_wakers = drained s.waitpid_wakers id w }) w.wait_queue).0
]

unfoldable pub wake_parent_waiters : Scheduler → ℕ → Scheduler
wake_parent_waiters s id = elim (s.parent_waitpid_wakers id) [
  | none ↦ s
  | some w ↦
      (wake_all (record s { parent_waitpid_wakers = drained s.parent_waitpid_wakers id w })
        w.wait_queue).0
]

-- The task's number joins the queue once the pool has the task; `none` is the panic of a full pool.
enqueue : Scheduler → ℕ → ℕ → TaskPool × Option PoolError → Option Scheduler
enqueue s cpu id (p, some _) = none
enqueue s cpu id (p, none) =
    some (record s { task_pool = p; ready_queue = push_back s.ready_queue cpu id })

unfoldable pub add_task : Scheduler → Task → ℕ → Option Scheduler
unfolding enqueue
add_task s t cpu = enqueue s cpu t.id (TaskPool.add_task s.task_pool t)

-- `new_kernel_task` and `init`
abbrev pub idle_task : ℕ → Task
idle_task id = record { id = id; state = ready; parent_id = none; time_slice = 1 }

-- What one round of the loop of `run` came to.
pub data Round : Type 0 where
  again : Round
  selects : ℕ → Round
  panics : Round

idled : Scheduler → Option Scheduler → Scheduler × Round
idled s none = (s, panics)
idled s (some s') = (s', again)

-- An id for the idle task is taken, and the task is added.
idle_round : Scheduler → ℕ → Scheduler × Round
unfolding idled
idle_round s cpu = idled s (
    add_task (record s { next_task_id = (s.next_task_id + 1) % usize_mod })
      (idle_task s.next_task_id) cpu)

wake_parent : Scheduler → Option ℕ → Scheduler
wake_parent s none = s
wake_parent s (some parent) = wake_parent_waiters s parent

abbrev zombie_round : Bool → Scheduler → ℕ → Task → Scheduler
zombie_round last s cpu t =
    wake_parent
      (wake_task_waiters
        (record s {
          zombie_queue = push_back s.zombie_queue cpu t.id;
          current_task_id = if last then update s.current_task_id cpu none else s.current_task_id;
        })
        t.id)
      t.parent_id

same_id : Option ℕ → ℕ → Bool
same_id none id = false
same_id (some x) id = x == id

abbrev park : Scheduler → ℕ → ℕ → Scheduler
park s cpu id = record s {
  current_task_id =
      if same_id (s.current_task_id cpu) id
      then update s.current_task_id cpu none
      else s.current_task_id;
  blocked_queue = push_back s.blocked_queue cpu id;
}

-- A task that runs alone is marked as running; among others it keeps its state.
abbrev pub dispatch : Bool → Scheduler → ℕ → ℕ → Task → Scheduler
dispatch last s cpu id t = record s {
  task_pool =
      write_task s.task_pool id
        (record t { state = if last then running else t.state; time_slice = 1 });
  current_task_id = update s.current_task_id cpu (some t.id);
  ready_queue = push_back s.ready_queue cpu id;
}

-- The match on the state of the task taken from the queue; `last` says that the queue is empty now.
round_by_state : Bool → Scheduler → ℕ → ℕ → Task → TaskState → Scheduler × Round
round_by_state last s cpu id t not_initialized = (s, panics)
round_by_state last s cpu id t zombie = (zombie_round last s cpu t, again)
round_by_state last s cpu id t terminated =
    if last then (s, panics) else (record s { task_pool = (remove_task s.task_pool id).0 }, again)
round_by_state last s cpu id t (blocked _) = (park s cpu id, again)
round_by_state last s cpu id t ready = (dispatch last s cpu id t, selects t.id)
round_by_state last s cpu id t running = (dispatch last s cpu id t, selects t.id)

round_by_task : Bool → Scheduler → ℕ → ℕ → Option Task → Scheduler × Round
round_by_task last s cpu id none = (s, panics)
round_by_task last s cpu id (some t) = round_by_state last s cpu id t t.state

abbrev popped : Scheduler → ℕ → List ℕ → Scheduler
popped s cpu rest = record s { ready_queue = update s.ready_queue cpu rest }

abbrev is_nil : List ℕ → Bool
is_nil [] = true
is_nil (_ ∷ _) = false

round_by_queue : Scheduler → ℕ → List ℕ → Scheduler × Round
round_by_queue s cpu [] = idle_round s cpu
round_by_queue s cpu (id ∷ rest) =
    round_by_task (is_nil rest) (popped s cpu rest) cpu id (get_task s.task_pool id)

unfoldable pub round : Scheduler → ℕ → Scheduler × Round
unfolding round_by_queue round_by_task round_by_state idle_round wake_parent same_id
round s cpu = round_by_queue s cpu (s.ready_queue cpu)

-- `continue`, with the rest of the loop, or a `return`.
proceed : (Scheduler → Option (Scheduler × Round)) → Scheduler × Round → Option (Scheduler × Round)
proceed rest (s', again) = rest s'
proceed rest (s', selects id) = some (s', selects id)
proceed rest (s', panics) = some (s', panics)

-- The loop of `run`; `none` says that the fuel ran out first.
unfoldable pub run_loop : ℕ → Scheduler → ℕ → Option (Scheduler × Round)
unfolding proceed
run_loop zero s cpu = none
run_loop (suc fuel) s cpu = proceed (λ s'. run_loop fuel s' cpu) (round s cpu)

-- The old and the new task; every round but two takes a task from the queue for good.
unfoldable pub run : Scheduler → ℕ → Option (Scheduler × Option ℕ × Round)
run s cpu =
    Option.map (λ r. (r.0, s.current_task_id cpu, r.1))
      (run_loop (length (s.ready_queue cpu) + 2) s cpu)

-- `on_tick`: whether it calls `schedule`.
tick : Scheduler → ℕ → Option Task → Scheduler × Bool
tick s id none = (s, false)
tick s id (some t) = (
  record s { task_pool = write_task s.task_pool id (record t { time_slice = t.time_slice - 1 }) },
  t.time_slice - 1 == 0,
)

unfoldable pub on_tick : Scheduler → ℕ → Scheduler × Bool
unfolding tick
on_tick s cpu = elim (s.current_task_id cpu) [
  | none ↦ (s, true)
  | some id ↦ tick s id (get_task s.task_pool id)
]

queues : (ℕ → List ℕ) → List ℕ
queues q = q 0 ++ q 1

unfoldable pub get_all_task_ids : Scheduler → List ℕ
unfolding queues
get_all_task_ids s = queues s.ready_queue ++ (queues s.blocked_queue ++ queues s.zombie_queue)

-- `wait` before it calls the scheduler: the task stands in the queue and is marked as blocked;
-- `none` is the panic of a task that does not exist.
unfoldable pub mark_waiting : Scheduler → Waker → ℕ → Option (Scheduler × Waker)
mark_waiting s w id =
    Option.map
      (λ t. (
        set_state s id t (blocked w.block_type),
        record w { wait_queue = w.wait_queue ++ id ∷ [] },
      ))
      (get_task s.task_pool id)

-- `wait` up to the switch of contexts, with what `run` chose on the task's CPU; for a waker that is
-- none of the scheduler's own, which `run` may drain.
unfoldable pub wait : Scheduler → Waker → ℕ → ℕ → Option (Scheduler × Waker × Option ℕ × Round)
wait s w id cpu = elim (mark_waiting s w id) [
  | none ↦ some (s, w, s.current_task_id cpu, panics)
  | some (s', w') ↦ Option.map (λ r. (r.0, w', r.1, r.2)) (run s' cpu)
]

unfoldable pub wake_one : Scheduler → Waker → Scheduler × Waker × Bool
wake_one s w = elim w.wait_queue [
  | [] ↦ (s, w, false)
  | id ∷ rest ↦ let (s', woken) = wake_task s id in (s', record w { wait_queue = rest }, woken)
]
