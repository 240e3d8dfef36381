-- ===== src/Event/Queue.antt =====
-- kernel/src/ipc/event.rs: TaskEventQueue, a map from priorities to queues, and the delivery of an
-- event to a task by EventManager.
pub mod Arrivals
pub mod Highest
pub mod Runs
pub mod Deliver
mod Tests
use scarlet.Common.{
  ltb, leb, ◌==◌, if◌then◌else◌, ℕ, ◌+◌, ◌-◌, ◌%◌, ◌^◌, Bool, true, false, Option, none, some, List,
  [], ◌∷◌, ◌++◌,
}
use scarlet.Event.{EventPriority, low, normal, high, critical, rank, Event, EventFilter, matches}

-- The map is a function, whose keys are passed through in their order.
pub record TaskEventQueue : Type 0 where
  pub events : EventPriority → Option (List Event)
  pub total_count : ℕ

unfoldable pub new : TaskEventQueue
new = record { events = λ p. none; total_count = 0 }

abbrev pub put :
    (EventPriority → Option (List Event))
    → EventPriority
    → Option (List Event)
    → EventPriority
    → Option (List Event)
put events p queue p' = if rank p' == rank p then queue else events p'

-- `entry(priority).or_insert_with(VecDeque::new)`
abbrev pub or_new : Option (List Event) → List Event
or_new none = []
or_new (some queue) = queue

unfoldable pub enqueue : TaskEventQueue → Event → TaskEventQueue × Bool
enqueue q e = (
  record {
    events =
        put q.events e.metadata.priority (some (or_new (q.events e.metadata.priority) ++ e ∷ []));
    total_count = (q.total_count + 1) % 2 ^ 64;
  },
  q.total_count == 0,
)

abbrev pub is_waiting : Option (List Event) → Bool
is_waiting none = false
is_waiting (some []) = false
is_waiting (some (_ ∷ _)) = true

-- `iter().filter(…).map(…)`, and `max()`.
abbrev pub nonempty :
    (EventPriority → Option (List Event)) → List EventPriority → List EventPriority
nonempty events [] = []
nonempty events (p ∷ ps) =
    if is_waiting (events p) then p ∷ nonempty events ps else nonempty events ps

max_priority : List EventPriority → Option EventPriority
max_priority [] = none
max_priority (p ∷ ps) = elim (max_priority ps) [
  | none ↦ some p
  | some m ↦ some (if ltb (rank m) (rank p) then p else m)
]

highest : (EventPriority → Option (List Event)) → Option EventPriority
unfolding max_priority
highest events = max_priority (nonempty events (low ∷ normal ∷ high ∷ critical ∷ []))

-- A queue that was emptied leaves the map.
abbrev pub left_over : List Event → Option (List Event)
left_over [] = none
left_over (e ∷ es) = some (e ∷ es)

take_from : TaskEventQueue → EventPriority → Option (List Event) → TaskEventQueue × Option Event
take_from q p none = (q, none)
take_from q p (some []) = (q, none)
take_from q p (some (e ∷ rest)) =
    (record { events = put q.events p (left_over rest); total_count = q.total_count - 1 }, some e)

dequeue_at : TaskEventQueue → Option EventPriority → TaskEventQueue × Option Event
unfolding take_from
dequeue_at q none = (q, none)
dequeue_at q (some p) = take_from q p (q.events p)

unfoldable pub dequeue : TaskEventQueue → TaskEventQueue × Option Event
unfolding dequeue_at highest
dequeue q = dequeue_at q (highest q.events)

unfoldable pub is_empty : TaskEventQueue → Bool
is_empty q = q.total_count == 0

unfoldable pub len : TaskEventQueue → ℕ
len q = q.total_count

pub data FailurePolicy : Type 0 where
  ignore log notify_sender system_event : FailurePolicy

pub record DeliveryConfig : Type 0 where
  pub buffer_size : ℕ
  pub timeout_ms : Option ℕ
  pub retry_count : ℕ
  pub failure_policy : FailurePolicy

abbrev pub default_config : DeliveryConfig
default_config = record {
  buffer_size = 1024;
  timeout_ms = some 5000;
  retry_count = 3;
  failure_policy = log;
}

abbrev pub get_task_config_or_default : Option DeliveryConfig → DeliveryConfig
get_task_config_or_default none = default_config
get_task_config_or_default (some c) = c

abbrev pub matches_any : List (ℕ × EventFilter) → Event → Bool
matches_any [] e = false
matches_any ((id, f) ∷ fs) e = if matches f e then true else matches_any fs e

-- The task's filters let the event pass: one of them matches, or there is none.
abbrev pub passes : Option (List (ℕ × EventFilter)) → Event → Bool
passes none e = true
passes (some []) e = true
passes (some (f ∷ fs)) e = matches_any (f ∷ fs) e

pub data EventError : Type 0 where
  target_not_found permission_denied delivery_failed buffer_full timed_out invalid_configuration
        channel_not_found group_not_found :
      EventError
  other : List ℕ → EventError

to_task : Option TaskEventQueue → DeliveryConfig → Event → Option TaskEventQueue × Option EventError
to_task none cfg e = (none, some target_not_found)
to_task (some q) cfg e =
    if leb cfg.buffer_size (len q) then (some q, some buffer_full) else (some (enqueue q e).0, none)

-- The queue is the target task's, if there is such a task; the second result is the error.
unfoldable pub deliver_to_task :
    Option (List (ℕ × EventFilter))
    → Option DeliveryConfig
    → Option TaskEventQueue
    → Event
    → Option TaskEventQueue × Option EventError
unfolding to_task
deliver_to_task filters config queue e =
    if passes filters e then to_task queue (get_task_config_or_default config) e else (queue, none)
