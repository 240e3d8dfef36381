-- ===== src/Event.antt =====
-- kernel/src/ipc/event.rs: events, the filters of their handlers, and the queue of a task's events.
-- A string is the list of its bytes.
pub mod Queue
use scarlet.Common.{◌==◌, ℕ, Bool, true, false, ◌&&◌, Option, none, some, List, [], ◌∷◌}

pub data EventPriority : Type 0 where
  low normal high critical : EventPriority

-- The discriminants, by which priorities are compared.
abbrev pub rank : EventPriority → ℕ
rank low = 1
rank normal = 2
rank high = 3
rank critical = 4

pub data GroupTarget : Type 0 where
  task_group : ℕ → GroupTarget
  all_tasks : GroupTarget
  session : ℕ → GroupTarget
  named_group : List ℕ → GroupTarget

pub data EventDelivery : Type 0 where
  direct : ℕ → EventPriority → Bool → EventDelivery
  channel : List ℕ → Bool → EventPriority → EventDelivery
  group : GroupTarget → EventPriority → Bool → EventDelivery
  broadcast : EventPriority → Bool → EventDelivery

pub data ProcessControlType : Type 0 where
  terminate kill stop continue interrupt quit hangup child_exit pipe_broken alarm io_ready :
      ProcessControlType
  user : ℕ → ProcessControlType

pub data MessageCategory : Type 0 where
  control_message data_message status_message error_message : MessageCategory
  custom_message : ℕ → MessageCategory

pub data NotificationType : Type 0 where
  task_completed memory_low device_connected device_disconnected filesystem_full network_change
        system_shutdown :
      NotificationType

pub data EventContent : Type 0 where
  process_control : ProcessControlType → EventContent
  message : ℕ → MessageCategory → EventContent
  notification : NotificationType → EventContent
  custom : List ℕ → ℕ → EventContent

-- A signed integer: `pos n` is n, `negsuc n` is -(n + 1).
pub data ℤ : Type 0 where
  pos negsuc : ℕ → ℤ

pub data EventPayload : Type 0 where
  empty : EventPayload
  integer : ℤ → EventPayload
  bytes text custom_data : List ℕ → EventPayload

pub record EventMetadata : Type 0 where
  pub sender : Option ℕ
  pub priority : EventPriority
  pub timestamp : ℕ
  pub event_id : ℕ

pub record Event : Type 0 where
  pub delivery : EventDelivery
  pub content : EventContent
  pub payload : EventPayload
  pub metadata : EventMetadata

pub data EventTypeFilter : Type 0 where
  any_direct any_channel any_group any_broadcast : EventTypeFilter
  type_direct : ℕ → EventTypeFilter
  type_channel : List ℕ → EventTypeFilter
  type_group : ℕ → EventTypeFilter
  type_broadcast : ℕ → EventTypeFilter

pub data EventFilter : Type 0 where
  all_events : EventFilter
  event_type : EventTypeFilter → EventFilter
  has_id : ℕ → EventFilter
  on_channel : List ℕ → EventFilter
  sent_by : ℕ → EventFilter
  custom_filter : (Event → Bool) → EventFilter

same_text : List ℕ → List ℕ → Bool
same_text [] [] = true
same_text [] (_ ∷ _) = false
same_text (_ ∷ _) [] = false
same_text (x ∷ xs) (y ∷ ys) = x == y && same_text xs ys

is_direct : EventDelivery → Bool
is_direct (direct _ _ _) = true
is_direct (channel _ _ _) = false
is_direct (group _ _ _) = false
is_direct (broadcast _ _) = false

is_group : EventDelivery → Bool
is_group (group _ _ _) = true
is_group (direct _ _ _) = false
is_group (channel _ _ _) = false
is_group (broadcast _ _) = false

is_broadcast : EventDelivery → Bool
is_broadcast (broadcast _ _) = true
is_broadcast (direct _ _ _) = false
is_broadcast (channel _ _ _) = false
is_broadcast (group _ _ _) = false

is_channel : EventDelivery → Bool
is_channel (channel _ _ _) = true
is_channel (direct _ _ _) = false
is_channel (group _ _ _) = false
is_channel (broadcast _ _) = false

-- The channel and the task group that an event is for.
for_channel : List ℕ → EventDelivery → Bool
unfolding same_text
for_channel name (channel id _ _) = same_text id name
for_channel name (direct _ _ _) = false
for_channel name (group _ _ _) = false
for_channel name (broadcast _ _) = false

for_group : ℕ → EventDelivery → Bool
for_group id (group (task_group g) _ _) = g == id
for_group id (group all_tasks _ _) = false
for_group id (group (session _) _ _) = false
for_group id (group (named_group _) _ _) = false
for_group id (direct _ _ _) = false
for_group id (channel _ _ _) = false
for_group id (broadcast _ _) = false

type_id : ProcessControlType → ℕ
type_id terminate = 1
type_id kill = 2
type_id stop = 3
type_id continue = 4
type_id interrupt = 7
type_id quit = 0
type_id hangup = 0
type_id child_exit = 0
type_id pipe_broken = 0
type_id alarm = 0
type_id io_ready = 0
type_id (user _) = 0

direct_content : ℕ → EventContent → Bool
unfolding type_id
direct_content id (process_control p) = type_id p == id
direct_content id (custom _ event_id) = event_id == id
direct_content id (message _ _) = false
direct_content id (notification _) = false

broadcast_content : ℕ → Event → EventContent → Bool
broadcast_content id e (custom _ event_id) = event_id == id
broadcast_content id e (process_control _) = e.metadata.event_id == id
broadcast_content id e (message _ _) = e.metadata.event_id == id
broadcast_content id e (notification _) = e.metadata.event_id == id

matches_type : EventTypeFilter → Event → Bool
unfolding is_direct is_channel is_group is_broadcast for_channel for_group direct_content
    broadcast_content
matches_type any_direct e = is_direct e.delivery
matches_type any_channel e = is_channel e.delivery
matches_type any_group e = is_group e.delivery
matches_type any_broadcast e = is_broadcast e.delivery
matches_type (type_direct id) e = is_direct e.delivery && direct_content id e.content
matches_type (type_channel name) e = for_channel name e.delivery
matches_type (type_group id) e = for_group id e.delivery
matches_type (type_broadcast id) e = is_broadcast e.delivery && broadcast_content id e e.content

is_sender : Option ℕ → ℕ → Bool
is_sender none id = false
is_sender (some s) id = s == id

unfoldable pub matches : EventFilter → Event → Bool
unfolding matches_type for_channel is_sender
matches all_events e = true
matches (event_type f) e = matches_type f e
matches (has_id id) e = e.metadata.event_id == id
matches (on_channel name) e = for_channel name e.delivery
matches (sent_by id) e = is_sender e.metadata.sender id
matches (custom_filter f) e = f e
