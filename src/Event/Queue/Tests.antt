-- ===== src/Event/Queue/Tests.antt =====
-- The theorems on a task's events at concrete ones, and a run.
use scarlet.Common.{take, ℕ, ◌≡◌, refl, true, false, Option, none, some, List, [], ◌∷◌, ◌++◌, arith}
use scarlet.Event.{
  EventPriority, low, normal, critical, direct, kill, process_control, empty, Event, type_direct,
  EventFilter, event_type, has_id, matches,
}
use scarlet.Event.Queue.{
  new, enqueue, dequeue, len, ignore, DeliveryConfig, get_task_config_or_default,
}
use scarlet.Event.Queue.Runs.{
  QueueOp, enqueues, dequeues, was_empty, took, run, list_run, run-order,
}
use scarlet.Event.Queue.Deliver.{accepted, deliver_all, Holds, deliver_all-Holds}

abbrev event : EventPriority → ℕ → Event
event p id = record {
  delivery = direct 3 p true;
  content = process_control kill;
  payload = empty;
  metadata = record { sender = none; priority = p; timestamp = 0; event_id = id };
}

abbrev calls : List QueueOp
calls =
    enqueues (event normal 1)
    ∷ enqueues (event critical 2)
    ∷ enqueues (event critical 3)
    ∷ dequeues
    ∷ dequeues
    ∷ dequeues
    ∷ dequeues
    ∷ []

run-order_example : run new calls ≡ list_run [] calls
run-order_example = run-order calls (omega arith)

critical_first :
    run new calls
    ≡ (was_empty true, 1)
      ∷ (was_empty false, 2)
      ∷ (was_empty false, 3)
      ∷ (took (some (event critical 2)), 2)
      ∷ (took (some (event critical 3)), 1)
      ∷ (took (some (event normal 1)), 0)
      ∷ (took none, 0)
      ∷ []
unfolding run new enqueue dequeue len
critical_first = refl

abbrev filters : Option (List (ℕ × EventFilter))
filters = some ((1, has_id 2) ∷ (2, event_type (type_direct 5)) ∷ [])

abbrev small : Option DeliveryConfig
small =
    some (record { buffer_size = 1; timeout_ms = none; retry_count = 0; failure_policy = ignore })

abbrev arriving : List Event
arriving = event normal 1 ∷ event low 2 ∷ event normal 2 ∷ []

deliver_all-Holds_example :
    Holds
      (deliver_all filters small (some new) arriving)
      (take (get_task_config_or_default small).buffer_size ([] ++ accepted filters arriving))
unfolding new
deliver_all-Holds_example =
    deliver_all-Holds filters small new [] arriving (record { grouped = λ p. refl; counted = refl })
      (omega arith) (omega arith)

only_one : accepted filters arriving ≡ event low 2 ∷ event normal 2 ∷ []
unfolding matches
only_one = refl
