-- ===== src/Sched/Waker.antt =====
-- kernel/src/sync/waker.rs: the queue of the tasks that wait for an event. What waking does to the
-- tasks is the scheduler's `wake_task`.
use scarlet.Common.{◌==◌, length, contains, ℕ, Bool, List, []}
use scarlet.Sched.TaskPool.{BlockedType, interruptible, uninterruptible}

pub record Waker : Type 0 where
  pub wait_queue : List ℕ
  pub block_type : BlockedType

unfoldable pub new_interruptible : Waker
new_interruptible = record { wait_queue = []; block_type = interruptible }

unfoldable pub new_uninterruptible : Waker
new_uninterruptible = record { wait_queue = []; block_type = uninterruptible }

unfoldable pub waiting_count : Waker → ℕ
waiting_count w = length w.wait_queue

unfoldable pub is_task_waiting : Waker → ℕ → Bool
is_task_waiting w id = contains id w.wait_queue

unfoldable pub is_empty : Waker → Bool
is_empty w = length w.wait_queue == 0

unfoldable pub clear_queue : Waker → Waker × ℕ
clear_queue w = (record w { wait_queue = [] }, length w.wait_queue)
