-- ===== src/Sched/TaskPool.antt =====
-- kernel/src/sched/scheduler.rs: TaskPool, which keeps each task in a slot of its own. A task has
-- the fields that the scheduler reads and writes (kernel/src/task/mod.rs); the hash map is a
-- function, and the head of `free_indices` is the back of the vector.
pub mod Laws
pub mod Remove
pub mod Write
mod Tests
use scarlet.Common.{
  ltb, ◌==◌, if◌then◌else◌, is_some, length, get_or, set, replicate, ℕ, ◌+◌, Bool, Option, none,
  some, List, [], ◌∷◌,
}

pub data BlockedType : Type 0 where
  interruptible uninterruptible : BlockedType

pub data TaskState : Type 0 where
  not_initialized ready running zombie terminated : TaskState
  blocked : BlockedType → TaskState

pub record Task : Type 0 where
  pub id : ℕ
  pub state : TaskState
  pub parent_id : Option ℕ
  pub time_slice : ℕ

pub record TaskPool : Type 0 where
  pub tasks : List (Option Task)
  pub id_to_index : ℕ → Option ℕ
  pub free_indices : List ℕ
  pub next_free_index : ℕ

abbrev pub max_tasks : ℕ
max_tasks = 1024

unfoldable pub new : TaskPool
new = record {
  tasks = replicate max_tasks none;
  id_to_index = λ id. none;
  free_indices = [];
  next_free_index = 0;
}

abbrev pub task_at : TaskPool → ℕ → Option Task
task_at p i = get_or p.tasks i none

pub data PoolError : Type 0 where
  task_pool_full : PoolError

-- The slot for the next task, taken from the pool.
find_index : TaskPool → List ℕ → TaskPool × Option ℕ
find_index p (i ∷ rest) = (record p { free_indices = rest }, some i)
find_index p [] =
    if ltb p.next_free_index (length p.tasks)
    then (record p { next_free_index = p.next_free_index + 1 }, some p.next_free_index)
    else (p, none)

abbrev pub store : TaskPool → ℕ → Task → TaskPool
store p i t = record p {
  tasks = set p.tasks i (some t);
  id_to_index = λ id. if id == t.id then some i else p.id_to_index id;
}

place : Task → TaskPool × Option ℕ → TaskPool × Option PoolError
place t (p, none) = (p, some task_pool_full)
place t (p, some i) = (store p i t, none)

unfoldable pub add_task : TaskPool → Task → TaskPool × Option PoolError
unfolding find_index place
add_task p t = place t (find_index p p.free_indices)

-- The slot's task, if the number has a slot.
slot_of : TaskPool → Option ℕ → Option Task
slot_of p none = none
slot_of p (some i) = task_at p i

unfoldable pub get_task : TaskPool → ℕ → Option Task
unfolding slot_of
get_task p id = slot_of p (p.id_to_index id)

-- `remove` on the hash map.
abbrev pub forget : TaskPool → ℕ → TaskPool
forget p id = record p { id_to_index = λ k. if k == id then none else p.id_to_index k }

abbrev pub free_slot : TaskPool → ℕ → TaskPool
free_slot p i = record p { tasks = set p.tasks i none; free_indices = i ∷ p.free_indices }

take_slot : TaskPool → ℕ → Option Task → TaskPool × Option Task
take_slot p i none = (p, none)
take_slot p i (some t) = (free_slot p i, some t)

remove_at : TaskPool → ℕ → Option ℕ → TaskPool × Option Task
unfolding take_slot
remove_at p id none = (p, none)
remove_at p id (some i) = take_slot (forget p id) i (task_at p i)

unfoldable pub remove_task : TaskPool → ℕ → TaskPool × Option Task
unfolding remove_at
remove_task p id = remove_at p id (p.id_to_index id)

unfoldable pub contains_task : TaskPool → ℕ → Bool
contains_task p id = is_some (p.id_to_index id)

-- A write through the reference that `get_task` returns.
write_slot : TaskPool → Option ℕ → Task → TaskPool
write_slot p none t = p
write_slot p (some i) t = record p { tasks = set p.tasks i (some t) }

unfoldable pub write_task : TaskPool → ℕ → Task → TaskPool
unfolding write_slot
write_task p id t = write_slot p (p.id_to_index id) t
