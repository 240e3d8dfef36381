-- ===== src/Handle.antt =====
-- kernel/src/object/handle/mod.rs: the handle table of a task.
-- The head of `free_handles` is the back of the vector, where it is pushed and popped. A write to
-- an array out of range, a panic in the source, changes nothing here; `Inv.IsValid` rules it out.
pub mod Inv
pub mod Ops
pub mod Close
pub mod Info
mod Tests
use scarlet.Common.{
  ℕ, zero, suc, ◌+◌, ◌-◌, Bool, true, false, Option, none, some, List, [], ◌∷◌, ◌++◌, length,
  get_or, set, replicate, range_from, leb, is_some, if◌then◌else◌,
}
use scarlet.Object.{KernelObject, file, pipe, event_channel, event_subscription}

pub data StandardInputOutput : Type 0 where
  stdin stdout stderr : StandardInputOutput

pub data HandleType : Type 0 where
  standard_input_output : StandardInputOutput → HandleType
  ipc_channel : HandleType
  event_channel_type : HandleType
  event_subscription_type : HandleType
  regular : HandleType

pub data AccessMode : Type 0 where
  read_only write_only read_write : AccessMode

pub data SpecialSemantics : Type 0 where
  close_on_exec non_blocking append sync : SpecialSemantics

pub record HandleMetadata : Type 0 where
  pub handle_type : HandleType
  pub access_mode : AccessMode
  pub special_semantics : Option SpecialSemantics

pub data HandleError : Type 0 where
  too_many_open invalid_handle handle_does_not_exist : HandleError

pub data Result {ℓ} (A : Type ℓ) : Type ℓ where
  ok : A → Result A
  err : HandleError → Result A

pub record HandleTable : Type 0 where
  pub handles : List (Option KernelObject)
  pub metadata : List (Option HandleMetadata)
  pub free_handles : List ℕ

abbrev pub max_handles : ℕ
max_handles = 1024

unfoldable pub new : HandleTable
new = record {
  handles = replicate max_handles none;
  metadata = replicate max_handles none;
  free_handles = range_from 0 max_handles;
}

-- `handles[h]` and `metadata[h]`.
abbrev pub object_at : HandleTable → ℕ → Option KernelObject
object_at t h = get_or t.handles h none

abbrev pub metadata_at : HandleTable → ℕ → Option HandleMetadata
metadata_at t h = get_or t.metadata h none

-- The slot `h` is filled, and leaves the stack of free handles.
abbrev pub occupy : HandleTable → ℕ → KernelObject → HandleMetadata → List ℕ → HandleTable
occupy t h obj m rest = record {
  handles = set t.handles h (some obj);
  metadata = set t.metadata h (some m);
  free_handles = rest;
}

-- The slot `h` is emptied, and pushed on the stack of free handles.
abbrev pub clear : HandleTable → ℕ → HandleTable
clear t h = record {
  handles = set t.handles h none;
  metadata = set t.metadata h none;
  free_handles = h ∷ t.free_handles;
}

insert_at : HandleTable → KernelObject → HandleMetadata → List ℕ → HandleTable × Result ℕ
insert_at t obj m [] = (t, err too_many_open)
insert_at t obj m (h ∷ rest) = (occupy t h obj m rest, ok h)

unfoldable pub insert_with_metadata :
    HandleTable → KernelObject → HandleMetadata → HandleTable × Result ℕ
unfolding insert_at
insert_with_metadata t obj m = insert_at t obj m t.free_handles

inferred_type : KernelObject → HandleType
inferred_type (pipe o) = ipc_channel
inferred_type (file o) = regular
inferred_type (event_channel o) = event_channel_type
inferred_type (event_subscription o) = event_subscription_type

unfoldable pub infer_metadata_from_object : KernelObject → HandleMetadata
unfolding inferred_type
infer_metadata_from_object obj = record {
  handle_type = inferred_type obj;
  access_mode = read_write;
  special_semantics = none;
}

unfoldable pub insert : HandleTable → KernelObject → HandleTable × Result ℕ
insert t obj = insert_with_metadata t obj (infer_metadata_from_object obj)

unfoldable pub get : HandleTable → ℕ → Option KernelObject
get t h = if leb max_handles h then none else object_at t h

take_at : HandleTable → ℕ → Option KernelObject → HandleTable × Option KernelObject
take_at t h none = (t, none)
take_at t h (some obj) = (clear t h, some obj)

unfoldable pub remove : HandleTable → ℕ → HandleTable × Option KernelObject
unfolding take_at
remove t h = if leb max_handles h then (t, none) else take_at t h (object_at t h)

unfoldable pub update_metadata : HandleTable → ℕ → HandleMetadata → HandleTable × Result (Unit {0})
update_metadata t h m =
    if leb max_handles h
    then (t, err invalid_handle)
    else if is_some (object_at t h)
    then (record t { metadata = set t.metadata h (some m) }, ok tt)
    else (t, err handle_does_not_exist)

unfoldable pub open_count : HandleTable → ℕ
open_count t = max_handles - length t.free_handles

-- The indices of the occupied slots, counted from `i`.
occupied_from : ℕ → List (Option KernelObject) → List ℕ
occupied_from i [] = []
occupied_from i (none ∷ slots) = occupied_from (suc i) slots
occupied_from i (some obj ∷ slots) = i ∷ occupied_from (suc i) slots

unfoldable pub active_handles : HandleTable → List ℕ
unfolding occupied_from
active_handles t = occupied_from 0 t.handles

-- The loop of `close_all` at slot `i`, with the slots that are left to visit.
close_from : HandleTable → ℕ → List (Option KernelObject) → HandleTable
close_from t i [] = t
close_from t i (none ∷ slots) = close_from t (suc i) slots
close_from t i (some obj ∷ slots) = close_from (clear t i) (suc i) slots

unfoldable pub close_all : HandleTable → HandleTable
unfolding close_from
close_all t = close_from t 0 t.handles

unfoldable pub is_valid_handle : HandleTable → ℕ → Bool
is_valid_handle t h = if leb max_handles h then false else is_some (object_at t h)

unfoldable pub get_metadata : HandleTable → ℕ → Option HandleMetadata
get_metadata t h = if leb max_handles h then none else metadata_at t h

entry_at :
    HandleTable
    → ℕ
    → KernelObject
    → Option HandleMetadata
    → List (ℕ × KernelObject × HandleMetadata)
entry_at t i obj none = []
entry_at t i obj (some m) = (i, obj, m) ∷ []

entries_from :
    HandleTable → ℕ → List (Option KernelObject) → List (ℕ × KernelObject × HandleMetadata)
unfolding entry_at
entries_from t i [] = []
entries_from t i (none ∷ slots) = entries_from t (suc i) slots
entries_from t i (some obj ∷ slots) =
    entry_at t i obj (metadata_at t i) ++ entries_from t (suc i) slots

unfoldable pub iter_with_metadata : HandleTable → List (ℕ × KernelObject × HandleMetadata)
unfolding entries_from
iter_with_metadata t = entries_from t 0 t.handles
