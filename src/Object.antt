-- ===== src/Object.antt =====
-- kernel/src/object/mod.rs: the kernel objects that a handle refers to.
-- The number under a constructor is the identity of the shared object (`Arc`).
use scarlet.Common.{ℕ, Option, none, some}

pub data KernelObject : Type 0 where
  file : ℕ → KernelObject
  pipe : ℕ → KernelObject
  event_channel : ℕ → KernelObject
  event_subscription : ℕ → KernelObject

-- A capability is the shared object seen through an interface; `none` is a cast that the object
-- does not support.
unfoldable pub as_stream : KernelObject → Option ℕ
as_stream (file o) = some o
as_stream (pipe o) = some o
as_stream (event_channel o) = none
as_stream (event_subscription o) = none

unfoldable pub as_stream_ipc : KernelObject → Option ℕ
as_stream_ipc (file o) = none
as_stream_ipc (pipe o) = some o
as_stream_ipc (event_channel o) = none
as_stream_ipc (event_subscription o) = none

unfoldable pub as_file : KernelObject → Option ℕ
as_file (file o) = some o
as_file (pipe o) = none
as_file (event_channel o) = none
as_file (event_subscription o) = none

unfoldable pub as_pipe : KernelObject → Option ℕ
as_pipe (file o) = none
as_pipe (pipe o) = some o
as_pipe (event_channel o) = none
as_pipe (event_subscription o) = none

unfoldable pub as_cloneable : KernelObject → Option ℕ
as_cloneable (file o) = none
as_cloneable (pipe o) = some o
as_cloneable (event_channel o) = some o
as_cloneable (event_subscription o) = some o

unfoldable pub as_control : KernelObject → Option ℕ
as_control (file o) = some o
as_control (pipe o) = none
as_control (event_channel o) = none
as_control (event_subscription o) = none

unfoldable pub as_memory_mappable : KernelObject → Option ℕ
as_memory_mappable (file o) = some o
as_memory_mappable (pipe o) = none
as_memory_mappable (event_channel o) = none
as_memory_mappable (event_subscription o) = none

unfoldable pub as_event_channel : KernelObject → Option ℕ
as_event_channel (event_channel o) = some o
as_event_channel (file o) = none
as_event_channel (pipe o) = none
as_event_channel (event_subscription o) = none

unfoldable pub as_event_subscription : KernelObject → Option ℕ
as_event_subscription (event_subscription o) = some o
as_event_subscription (file o) = none
as_event_subscription (pipe o) = none
as_event_subscription (event_channel o) = none
