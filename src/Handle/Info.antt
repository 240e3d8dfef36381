-- ===== src/Handle/Info.antt =====
-- kernel/src/object/introspection.rs and `HandleTable::get_object_info`: what user space is told
-- about a handle.
use scarlet.Common.{
  if◌then◌else◌, Option-cases, is_some, ℕ, bit_or, ◌≡◌, refl, inl, inr, Bool, true, false, ◌||◌,
  Option, none, some, arith,
}
use scarlet.Object.{
  KernelObject, file, pipe, event_channel, event_subscription, as_stream, as_file, as_pipe,
  as_cloneable, as_event_channel, as_event_subscription,
}
use scarlet.Handle.Inv.{IsValid}
use scarlet.Handle.Ops.{get-eq-object_at, get_metadata-eq-metadata_at}
use scarlet.Handle.{
  HandleType, standard_input_output, ipc_channel, event_channel_type, event_subscription_type,
  regular, AccessMode, read_only, write_only, read_write, HandleMetadata, HandleTable, get,
  get_metadata,
}

-- The types that no object has yet are kept, and the reserved capability bits left out.
pub data KernelObjectType : Type 0 where
  file_type pipe_type event_channel_object event_subscription_object : KernelObjectType
  char_device block_device socket unknown_type : KernelObjectType

pub record ObjectCapabilities : Type 0 where
  pub stream_ops : Bool
  pub file_ops : Bool
  pub pipe_ops : Bool
  pub event_ops : Bool
  pub clone_ops : Bool

pub data HandleRole : Type 0 where
  standard_input_output_role ipc_channel_role regular_role : HandleRole

pub record KernelObjectInfo : Type 0 where
  pub object_type : KernelObjectType
  pub capabilities : ObjectCapabilities
  pub handle_role : HandleRole
  pub access_mode : ℕ

unfoldable pub encode_access_mode : Bool → Bool → ℕ
encode_access_mode readable writable =
    let mode = if readable then bit_or 0 0x1 else 0 in if writable then bit_or mode 0x2 else mode

for_file : HandleRole → Bool → Bool → KernelObjectInfo
for_file role readable writable = record {
  object_type = file_type;
  capabilities = record {
    stream_ops = true;
    file_ops = true;
    pipe_ops = false;
    event_ops = false;
    clone_ops = false;
  };
  handle_role = role;
  access_mode = encode_access_mode readable writable;
}

for_pipe : HandleRole → Bool → Bool → KernelObjectInfo
for_pipe role readable writable = record {
  object_type = pipe_type;
  capabilities = record {
    stream_ops = true;
    file_ops = false;
    pipe_ops = true;
    event_ops = false;
    clone_ops = true;
  };
  handle_role = role;
  access_mode = encode_access_mode readable writable;
}

for_event_channel : HandleRole → KernelObjectInfo
for_event_channel role = record {
  object_type = event_channel_object;
  capabilities = record {
    stream_ops = false;
    file_ops = false;
    pipe_ops = false;
    event_ops = true;
    clone_ops = true;
  };
  handle_role = role;
  access_mode = encode_access_mode true true;
}

for_event_subscription : HandleRole → KernelObjectInfo
for_event_subscription role = record {
  object_type = event_subscription_object;
  capabilities = record {
    stream_ops = true;
    file_ops = false;
    pipe_ops = false;
    event_ops = true;
    clone_ops = true;
  };
  handle_role = role;
  access_mode = encode_access_mode true false;
}

unfoldable pub role_of : HandleType → HandleRole
role_of (standard_input_output s) = standard_input_output_role
role_of ipc_channel = ipc_channel_role
role_of event_channel_type = ipc_channel_role
role_of event_subscription_type = ipc_channel_role
role_of regular = regular_role

unfoldable pub access_flags : AccessMode → Bool × Bool
access_flags read_only = (true, false)
access_flags write_only = (false, true)
access_flags read_write = (true, true)

info_of : KernelObject → HandleMetadata → KernelObjectInfo
unfolding for_file for_pipe for_event_channel for_event_subscription encode_access_mode role_of
    access_flags
info_of (file o) m =
    let (readable, writable) = access_flags m.access_mode in
    for_file (role_of m.handle_type) readable writable
info_of (pipe o) m =
    let (readable, writable) = access_flags m.access_mode in
    for_pipe (role_of m.handle_type) readable writable
info_of (event_channel o) m = for_event_channel (role_of m.handle_type)
info_of (event_subscription o) m = for_event_subscription (role_of m.handle_type)

unfoldable pub get_object_info : HandleTable → ℕ → Option KernelObjectInfo
unfolding info_of
get_object_info t h = elim (get t h) [
  | none ↦ none
  | some obj ↦ elim (get_metadata t h) [ none ↦ none | some m ↦ some (info_of obj m) ]
]

-- What the report says of an object, against the casts of `KernelObject`.
pub record Honest (obj : KernelObject) (m : HandleMetadata) (info : KernelObjectInfo) : Type 0 where
  pub streams :
      info.capabilities.stream_ops
      ≡ (is_some (as_stream obj) || is_some (as_event_subscription obj))
  pub files : info.capabilities.file_ops ≡ is_some (as_file obj)
  pub pipes : info.capabilities.pipe_ops ≡ is_some (as_pipe obj)
  pub events :
      info.capabilities.event_ops
      ≡ (is_some (as_event_channel obj) || is_some (as_event_subscription obj))
  pub clones : info.capabilities.clone_ops ≡ is_some (as_cloneable obj)
  pub role : info.handle_role ≡ role_of m.handle_type

info_of-Honest : (obj : KernelObject) (m : HandleMetadata) → Honest obj m (info_of obj m)
unfolding info_of as_stream as_file as_pipe as_event_channel as_event_subscription as_cloneable
info_of-Honest (file o) m = record {
  streams = refl;
  files = refl;
  pipes = refl;
  events = refl;
  clones = refl;
  role = refl;
}
info_of-Honest (pipe o) m = record {
  streams = refl;
  files = refl;
  pipes = refl;
  events = refl;
  clones = refl;
  role = refl;
}
info_of-Honest (event_channel o) m = record {
  streams = refl;
  files = refl;
  pipes = refl;
  events = refl;
  clones = refl;
  role = refl;
}
info_of-Honest (event_subscription o) m = record {
  streams = refl;
  files = refl;
  pipes = refl;
  events = refl;
  clones = refl;
  role = refl;
}

metadata_of_open :
    (t : HandleTable) (h : ℕ) (obj : KernelObject)
    → IsValid t
    → get t h ≡ some obj
    → (m : HandleMetadata) × (get_metadata t h ≡ some m)
metadata_of_open t h obj v e = elim (Option-cases (get_metadata t h)) [
  | inr (m, e') ↦ (m, e')
  | inl e' ↦
      absurd (
        ground
          (arith, v.paired h, e, e', get-eq-object_at t h v, get_metadata-eq-metadata_at t h v))
]

-- What is reported of a handle that refers to the given object, if to any.
abbrev pub Reported : HandleTable → ℕ → Option KernelObject → Type 0
Reported t h none = get_object_info t h ≡ none
Reported t h (some obj) =
    (m : HandleMetadata) × (info : KernelObjectInfo) × (get_metadata t h ≡ some m)
    × (get_object_info t h ≡ some info)
    × Honest obj m info

-- In a valid table every open handle has a report, and the report agrees with the casts that the
-- object supports, except that it also promises streams of an event subscription, which `as_stream`
-- refuses; a handle that is not open has no report.
pub get_object_info-Honest : (t : HandleTable) (h : ℕ) → IsValid t → Reported t h (get t h)
unfolding get_object_info
get_object_info-Honest t h v = reported (get t h) refl
  where
    reported : (o : Option KernelObject) → get t h ≡ o → Reported t h o
    reported none e = rw (e, get_object_info) refl
    reported (some obj) e =
        let (m, e') = metadata_of_open t h obj v e in
        (m, info_of obj m, e', rw (e, e', get_object_info) refl, info_of-Honest obj m)

-- The type of an object, and what a user of the handle may do: 1 stands for reading, 2 for writing,
-- 3 for both.
abbrev type_of : KernelObject → KernelObjectType
type_of (file _) = file_type
type_of (pipe _) = pipe_type
type_of (event_channel _) = event_channel_object
type_of (event_subscription _) = event_subscription_object

abbrev permitted : AccessMode → ℕ
permitted read_only = 1
permitted write_only = 2
permitted read_write = 3

abbrev pub access_of : KernelObject → AccessMode → ℕ
access_of (file _) mode = permitted mode
access_of (pipe _) mode = permitted mode
access_of (event_channel _) mode = 3
access_of (event_subscription _) mode = 1

info_of-access :
    (obj : KernelObject) (m : HandleMetadata) (mode : AccessMode)
    → m.access_mode ≡ mode
    → (info_of obj m).access_mode ≡ access_of obj mode
unfolding info_of for_file for_pipe for_event_channel for_event_subscription access_flags
    encode_access_mode
info_of-access (file _) m read_only e = rw e refl
info_of-access (file _) m write_only e = rw e refl
info_of-access (file _) m read_write e = rw e refl
info_of-access (pipe _) m read_only e = rw e refl
info_of-access (pipe _) m write_only e = rw e refl
info_of-access (pipe _) m read_write e = rw e refl
info_of-access (event_channel _) m mode e = refl
info_of-access (event_subscription _) m mode e = refl

info_of-object_type :
    (obj : KernelObject) (m : HandleMetadata) → (info_of obj m).object_type ≡ type_of obj
unfolding info_of for_file for_pipe for_event_channel for_event_subscription
info_of-object_type (file _) m = refl
info_of-object_type (pipe _) m = refl
info_of-object_type (event_channel _) m = refl
info_of-object_type (event_subscription _) m = refl

-- In a valid table the report of an open handle names the type of its object and how it may be used:
-- bit 0 of the access mode says that it can be read and bit 1 that it can be written. For a file or
-- a pipe these are the handle's own access mode; an event channel can do both, an event subscription
-- can only be read.
pub get_object_info-access :
    (t : HandleTable) (h : ℕ) (obj : KernelObject)
    → IsValid t
    → get t h ≡ some obj
    → (m : HandleMetadata) × (info : KernelObjectInfo) × (get_metadata t h ≡ some m)
      × (get_object_info t h ≡ some info)
      × (info.object_type ≡ type_of obj)
      × (info.access_mode ≡ access_of obj m.access_mode)
unfolding get_object_info
get_object_info-access t h obj v e =
    let (m, e') = metadata_of_open t h obj v e in
    (
      m,
      info_of obj m,
      e',
      rw (e, e', get_object_info) refl,
      info_of-object_type obj m,
      info_of-access obj m m.access_mode refl,
    )
