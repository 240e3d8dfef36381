-- ===== src/Handle/Ops.antt =====
-- What the operations of the handle table do, on every branch, and that they keep the invariant.
use scarlet.Common.{
  leb, ◌==◌, if◌then◌else◌, ==_iff, tests, Bool-cases, is_some, length, get_or, set, length-set,
  get_or-past, ℕ, zero, suc, ◌+◌, ◌<◌, ◌≡◌, refl, sym, ap, ◌∙◌, inl, inr, true, false, Option, none,
  some, List, [], ◌∷◌, arith,
}
use scarlet.Object.{KernelObject}
use scarlet.Handle.{
  HandleMetadata, too_many_open, invalid_handle, handle_does_not_exist, Result, ok, err,
  HandleTable, max_handles, object_at, metadata_at, occupy, clear, insert_at, insert_with_metadata,
  insert, get, take_at, remove, update_metadata, open_count, is_valid_handle, get_metadata,
}
use scarlet.Handle.Inv.{IsValid, slot-set, top_valid, top_empty, occupy-IsValid, clear-IsValid}

-- Which handles refer to what: the table as a client sees it.
abbrev pub Updated :
    HandleTable → HandleTable → ℕ → Option KernelObject → Option HandleMetadata → Type 0
Updated t t' h o m =
    (j : ℕ)
    → (get t' j ≡ (if j == h then o else get t j))
      × (get_metadata t' j ≡ (if j == h then m else get_metadata t j))

get-lt : (t : HandleTable) (h : ℕ) {obj : KernelObject} → get t h ≡ some obj → h < max_handles
unfolding get
get-lt t h e = ground arith

pub get-object_at :
    (t : HandleTable) (h : ℕ) {obj : KernelObject} → get t h ≡ some obj → object_at t h ≡ some obj
unfolding get
get-object_at t h e = ground arith

-- Beyond the arrays' length there is nothing, so the range check changes no answer.
pub get-eq-object_at : (t : HandleTable) (h : ℕ) → IsValid t → get t h ≡ object_at t h
unfolding get
get-eq-object_at t h v = ground (arith, get_or-past t.handles h none, v.handles_len)

pub get_metadata-eq-metadata_at :
    (t : HandleTable) (h : ℕ) → IsValid t → get_metadata t h ≡ metadata_at t h
unfolding get_metadata
get_metadata-eq-metadata_at t h v = ground (arith, get_or-past t.metadata h none, v.metadata_len)

write-Updated :
    (t t' : HandleTable) (h : ℕ) (o : Option KernelObject) (m : Option HandleMetadata)
    → IsValid t
    → IsValid t'
    → h < max_handles
    → t'.handles ≡ set t.handles h o
    → t'.metadata ≡ set t.metadata h m
    → Updated t t' h o m
write-Updated t t' h o m v v' lt eh em j = (
  rw (get-eq-object_at t' j v', get-eq-object_at t j v, eh)
      (slot-set t.handles h j o (omega (arith, v.handles_len))),
  rw (get_metadata-eq-metadata_at t' j v', get_metadata-eq-metadata_at t j v, em)
      (slot-set t.metadata h j m (omega (arith, v.metadata_len))),
)

get_out : (t : HandleTable) (h : ℕ) → leb max_handles h ≡ true → get t h ≡ none
unfolding get
get_out t h e = rw e

set-same {ℓ} : {A : Type ℓ} (xs : List A) (i : ℕ) (d : A) → set xs i (get_or xs i d) ≡ xs
set-same [] i d = refl
set-same (x ∷ xs) zero d = refl
set-same (x ∷ xs) (suc i) d = ap (◌∷◌ x) (set-same xs i d)

-- Metadata written to an open handle keeps the invariant.
metadata-IsValid :
    (t : HandleTable) (h : ℕ) (m : HandleMetadata)
    → IsValid t
    → h < max_handles
    → is_some (object_at t h) ≡ true
    → IsValid (record t { metadata = set t.metadata h (some m) })
metadata-IsValid t h m v lt e = record {
  handles_len = v.handles_len;
  metadata_len = length-set t.metadata h (some m) ∙ v.metadata_len;
  counted = v.counted;
  distinct = v.distinct;
  free_in = v.free_in;
  free_iff = v.free_iff;
  paired = λ j.
      rw (slot-set t.metadata h j (some m) (omega (arith, v.metadata_len)))
        (ground (arith, v.paired j, ==_iff j h, e));
}

metadata-Updated :
    (t : HandleTable) (h : ℕ) (m : HandleMetadata)
    → IsValid t
    → h < max_handles
    → is_some (object_at t h) ≡ true
    → Updated t (record t { metadata = set t.metadata h (some m) }) h (get t h) (some m)
metadata-Updated t h m v lt e =
    write-Updated t (record t { metadata = set t.metadata h (some m) }) h (get t h) (some m) v
      (metadata-IsValid t h m v lt e) lt
      (rw (get-eq-object_at t h v) (sym (set-same t.handles h none))) refl

-- What `insert_with_metadata` returned: with a free handle, the fresh handle now refers to the
-- object; with none, an error and the table as it was.
abbrev pub Inserted : HandleTable → KernelObject → HandleMetadata → HandleTable × Result ℕ → Type 0
Inserted t obj m (t', ok h) =
    (get t h ≡ none)
    × Updated t t' h (some obj) (some m)
    × (open_count t' ≡ open_count t + 1)
    × IsValid t'
Inserted t obj m (t', err e) = (e ≡ too_many_open) × (t' ≡ t) × (open_count t ≡ max_handles)

insert_at-Inserted :
    (t : HandleTable) (obj : KernelObject) (m : HandleMetadata) (free : List ℕ)
    → IsValid t
    → t.free_handles ≡ free
    → Inserted t obj m (insert_at t obj m free)
unfolding insert_at open_count
insert_at-Inserted t obj m [] v e = (refl, refl, omega (arith, ap length e))
insert_at-Inserted t obj m (h ∷ rest) v e = (
  get-eq-object_at t h v ∙ top_empty v e,
  write-Updated t (occupy t h obj m rest) h (some obj) (some m) v after (top_valid v e) refl refl,
  omega (arith, ap length e, after.counted, v.counted),
  after,
)
  where
    after : IsValid (occupy t h obj m rest)
    after = occupy-IsValid t h rest obj m v e

-- `insert_with_metadata` returns a handle that was not open, makes it refer to the object and the
-- metadata, leaves every other handle as it was and counts one more open handle; it fails only
-- when all handles are open, and then changes nothing.
pub insert_with_metadata-Inserted :
    (t : HandleTable) (obj : KernelObject) (m : HandleMetadata)
    → IsValid t
    → Inserted t obj m (insert_with_metadata t obj m)
unfolding insert_with_metadata
insert_with_metadata-Inserted t obj m v = insert_at-Inserted t obj m t.free_handles v refl

abbrev pub Removed : HandleTable → ℕ → HandleTable × Option KernelObject → Type 0
Removed t h (t', none) = (get t h ≡ none) × (t' ≡ t)
Removed t h (t', some obj) =
    (get t h ≡ some obj)
    × Updated t t' h none none
    × (open_count t' + 1 ≡ open_count t)
    × ((next : KernelObject) → (insert t' next).1 ≡ ok h)
    × IsValid t'

take_at-Removed :
    (t : HandleTable) (h : ℕ) (o : Option KernelObject)
    → IsValid t
    → h < max_handles
    → object_at t h ≡ o
    → Removed t h (take_at t h o)
unfolding take_at open_count insert insert_with_metadata
take_at-Removed t h none v lt e = (get-eq-object_at t h v ∙ e, refl)
take_at-Removed t h (some obj) v lt e = (
  get-eq-object_at t h v ∙ e,
  write-Updated t (clear t h) h none none v after lt refl refl,
  omega (arith, after.counted),
  λ next. refl,
  after,
)
  where
    after : IsValid (clear t h)
    after = clear-IsValid t h obj v lt e

-- `remove` of an open handle returns its object, closes that handle and no other, counts one open
-- handle less, and the next insertion gets the same handle; `remove` of any other handle returns
-- nothing and changes nothing.
pub remove-Removed : (t : HandleTable) (h : ℕ) → IsValid t → Removed t h (remove t h)
unfolding remove
remove-Removed t h v = elim (Bool-cases (leb max_handles h)) [
  | inl out ↦ rw (out, remove) (get_out t h out, refl)
  | inr within ↦ rw (within, remove) (take_at-Removed t h (object_at t h) v (omega tests) refl)
]

-- What `update_metadata` returned.
abbrev pub MetadataUpdated :
    HandleTable → ℕ → HandleMetadata → HandleTable × Result (Unit {0}) → Type 0
MetadataUpdated t h m (t', ok _) =
    (is_valid_handle t h ≡ true) × Updated t t' h (get t h) (some m) × IsValid t'
MetadataUpdated t h m (t', err e) =
    (is_valid_handle t h ≡ false)
    × (t' ≡ t)
    × (e ≡ (if leb max_handles h then invalid_handle else handle_does_not_exist))

-- `update_metadata` of an open handle replaces its metadata and nothing else; of a handle out of
-- range or not open it fails, with the error that says which, and changes nothing.
pub update_metadata-MetadataUpdated :
    (t : HandleTable) (h : ℕ) (m : HandleMetadata)
    → IsValid t
    → MetadataUpdated t h m (update_metadata t h m)
unfolding update_metadata is_valid_handle
update_metadata-MetadataUpdated t h m v = elim (Bool-cases (leb max_handles h)) [
  | inl out ↦ rw (out, update_metadata) (rw out refl, refl, rw out refl)
  | inr within ↦ elim (Bool-cases (is_some (object_at t h))) [
    | inl open_handle ↦
        rw (within, open_handle, update_metadata)
          (
            rw within open_handle,
            metadata-Updated t h m v (omega tests) open_handle,
            metadata-IsValid t h m v (omega tests) open_handle,
          )
    | inr closed ↦ rw (within, closed, update_metadata) (rw within closed, refl, rw within refl)
  ]
]
