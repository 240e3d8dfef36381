-- ===== src/Sched/TaskPool/Tests.antt =====
-- The theorems on the task pool at concrete pools, and runs of its operations.
use scarlet.Common.{replicate, ◌≡◌, refl, none, some}
use scarlet.Sched.TaskPool.{
  interruptible, ready, blocked, Task, TaskPool, new, store, add_task, get_task, remove_task,
}
use scarlet.Sched.TaskPool.Laws.{IsValid, new-IsValid, Added, add_task-Added}
use scarlet.Sched.TaskPool.Remove.{Removed, remove_task-Removed}

abbrev shell : Task
shell = record { id = 7; state = ready; parent_id = none; time_slice = 1 }

abbrev child : Task
child = record { id = 9; state = blocked interruptible; parent_id = some 7; time_slice = 0 }

abbrev two_tasks : TaskPool
two_tasks = (add_task (add_task new shell).0 child).0

reused :
    ((remove_task two_tasks 7).1 ≡ some shell)
    × (get_task (add_task (remove_task two_tasks 7).0 shell).0 9 ≡ some child)
    × ((add_task (remove_task two_tasks 7).0 shell).0.next_free_index ≡ 2)
unfolding new add_task remove_task get_task replicate
reused = (refl, refl, refl)

add_task-Added_example : Added new shell (add_task new shell)
add_task-Added_example = add_task-Added new shell new-IsValid

abbrev one_task : TaskPool
one_task = store (record new { next_free_index = 1 }) 0 shell

one_task-IsValid : IsValid one_task
unfolding new add_task replicate
one_task-IsValid = (add_task-Added new shell new-IsValid).1

remove_task-Removed_example : Removed one_task 7 (remove_task one_task 7)
remove_task-Removed_example = remove_task-Removed one_task 7 one_task-IsValid
