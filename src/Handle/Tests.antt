-- ===== src/Handle/Tests.antt =====
-- The theorems on the handle table at concrete tables, and runs of its operations.
use scarlet.Common.{
  length, replicate, range_from, contains, ℕ, ◌≡◌, refl, none, some, List, [], ◌∷◌,
}
use scarlet.Object.{file, pipe, event_subscription}
use scarlet.Handle.{
  regular, write_only, append, HandleMetadata, HandleTable, new, insert_with_metadata, insert, get,
  remove, update_metadata, open_count, active_handles, close_all, is_valid_handle, get_metadata,
}
use scarlet.Handle.Inv.{IsValid}
use scarlet.Handle.Ops.{
  Inserted, insert_with_metadata-Inserted, Removed, remove-Removed, MetadataUpdated,
  update_metadata-MetadataUpdated,
}
use scarlet.Handle.Close.{
  close_all-closed, active_handles-open, Call, inserts, removes, step, run, run-new-IsValid,
}
use scarlet.Handle.Info.{
  pipe_type, KernelObjectInfo, get_object_info, Reported, get_object_info-Honest, access_of,
  get_object_info-access,
}

abbrev session : List Call
session = inserts (file 11) ∷ inserts (pipe 12) ∷ removes 0 ∷ inserts (event_subscription 13) ∷ []

abbrev used_table : HandleTable
used_table = run new session

abbrev log_output : HandleMetadata
log_output = record {
  handle_type = regular;
  access_mode = write_only;
  special_semantics = some append;
}

used_table-objects :
    (get used_table 0 ≡ some (event_subscription 13))
    × (get used_table 1 ≡ some (pipe 12))
    × (get used_table 2 ≡ none)
    × (get used_table 5000 ≡ none)
unfolding run step insert insert_with_metadata remove new get replicate range_from
used_table-objects = (refl, refl, refl, refl)

used_table-active : active_handles used_table ≡ 0 ∷ 1 ∷ []
unfolding run step insert insert_with_metadata remove new active_handles replicate range_from
used_table-active = refl

used_table-IsValid : IsValid used_table
used_table-IsValid = run-new-IsValid session

run-new-IsValid_example : IsValid (run new session)
run-new-IsValid_example = run-new-IsValid session

insert_with_metadata-Inserted_example :
    Inserted used_table (file 14) log_output (insert_with_metadata used_table (file 14) log_output)
insert_with_metadata-Inserted_example =
    insert_with_metadata-Inserted used_table (file 14) log_output used_table-IsValid

remove-Removed_example : Removed used_table 1 (remove used_table 1)
remove-Removed_example = remove-Removed used_table 1 used_table-IsValid

update_metadata-MetadataUpdated_example :
    MetadataUpdated used_table 1 log_output (update_metadata used_table 1 log_output)
update_metadata-MetadataUpdated_example =
    update_metadata-MetadataUpdated used_table 1 log_output used_table-IsValid

close_all-closed_example :
    ((j : ℕ)
      → (get (close_all used_table) j ≡ none) × (get_metadata (close_all used_table) j ≡ none))
    × (open_count (close_all used_table) ≡ 0)
    × IsValid (close_all used_table)
close_all-closed_example = close_all-closed used_table used_table-IsValid

active_handles-open_example :
    ((h : ℕ) → contains h (active_handles used_table) ≡ is_valid_handle used_table h)
    × (length (active_handles used_table) ≡ open_count used_table)
active_handles-open_example = active_handles-open used_table used_table-IsValid

get_object_info-Honest_example : Reported used_table 0 (get used_table 0)
get_object_info-Honest_example = get_object_info-Honest used_table 0 used_table-IsValid

get_object_info-access_example :
    (m : HandleMetadata) × (info : KernelObjectInfo) × (get_metadata used_table 1 ≡ some m)
    × (get_object_info used_table 1 ≡ some info)
    × (info.object_type ≡ pipe_type)
    × (info.access_mode ≡ access_of (pipe 12) m.access_mode)
get_object_info-access_example =
    get_object_info-access used_table 1 (pipe 12) used_table-IsValid used_table-objects.1
