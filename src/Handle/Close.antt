-- ===== src/Handle/Close.antt =====
-- `close_all` and `active_handles`, and what holds of a handle table after any sequence of calls.
use scarlet.Common.{
  ltb, ◌==◌, ==_iff, ==_ne, tests, Bool-cases, is_some, length, get_or, get_or-set_ne, get_or-past,
  contains, count_some, ℕ, zero, suc, ◌+◌, ◌<◌, ◌≡◌, refl, sym, ap, subst, ◌∙◌, inl, inr, false,
  Option, none, some, List, [], ◌∷◌, arith,
}
use scarlet.Object.{KernelObject}
use scarlet.Handle.{
  HandleMetadata, Result, ok, err, HandleTable, max_handles, new, object_at, clear,
  insert_with_metadata, infer_metadata_from_object, insert, get, remove, update_metadata,
  open_count, occupied_from, active_handles, close_from, close_all, is_valid_handle, get_metadata,
}
use scarlet.Handle.Inv.{IsValid, new-IsValid, slot-set, clear-IsValid}
use scarlet.Handle.Ops.{
  get-eq-object_at, get_metadata-eq-metadata_at, Inserted, insert_with_metadata-Inserted, Removed,
  remove-Removed, MetadataUpdated, update_metadata-MetadataUpdated,
}

-- What the loop of `close_all` has done when the first `i` slots are visited.
record Closing (t : HandleTable) (i : ℕ) (slots : List (Option KernelObject)) : Type 0 where
  valid : IsValid t
  left : (j : ℕ) → get_or slots j none ≡ object_at t (i + j)
  reach : i + length slots ≡ max_handles
  closed : (j : ℕ) → j < i → object_at t j ≡ none

close_from-Closing :
    (t : HandleTable) (i : ℕ) (slots : List (Option KernelObject))
    → Closing t i slots
    → IsValid (close_from t i slots) × ((j : ℕ) → object_at (close_from t i slots) j ≡ none)
unfolding close_from
close_from-Closing t i [] c = (c.valid, all_closed)
  where
    all_closed : (j : ℕ) → object_at t j ≡ none
    all_closed j = elim (Bool-cases (ltb j i)) [
      | inl e ↦ c.closed j (omega tests)
      | inr e ↦ get_or-past t.handles j none (omega (tests, c.reach, c.valid.handles_len))
    ]
close_from-Closing t i (none ∷ slots) c = close_from-Closing t (suc i) slots (record {
  valid = c.valid;
  left = λ j. c.left (suc j) ∙ ap (object_at t) (omega arith);
  reach = omega (arith, c.reach);
  closed = λ j lt. elim (Bool-cases (j == i)) [
    | inl e ↦ rw ((==_iff j i).0 e) (ap (object_at t) (omega arith) ∙ sym (c.left 0))
    | inr e ↦ c.closed j (ground arith)
  ];
})
close_from-Closing t i (some obj ∷ slots) c = close_from-Closing (clear t i) (suc i) slots (record {
  valid = clear-IsValid t i obj c.valid (omega (arith, c.reach)) here;
  left = λ j.
      c.left (suc j)
      ∙ ap (object_at t) (omega arith)
      ∙ sym (get_or-set_ne t.handles i (suc i + j) none none (omega arith));
  reach = omega (arith, c.reach);
  closed =
      λ j lt. rw (slot-set t.handles i j none in_handles) (ground (arith, c.closed j, ==_iff j i));
})
  where
    here : object_at t i ≡ some obj
    here = ap (object_at t) (omega arith) ∙ sym (c.left 0)

    in_handles : i < length t.handles
    in_handles = omega (arith, c.reach, c.valid.handles_len)

count_some-zero {ℓ} :
    {A : Type ℓ} (xs : List (Option A)) → ((j : ℕ) → get_or xs j none ≡ none) → count_some xs ≡ 0
count_some-zero [] h = refl
count_some-zero (none ∷ xs) h = count_some-zero xs (λ j. h (suc j))
count_some-zero (some a ∷ xs) h = cc (h 0)

close_all_lem :
    (t : HandleTable)
    → IsValid t
    → IsValid (close_all t) × ((j : ℕ) → object_at (close_all t) j ≡ none)
unfolding close_all
close_all_lem t v = close_from-Closing t 0 t.handles (record {
  valid = v;
  left = λ j. ap (object_at t) (omega arith);
  reach = omega (arith, v.handles_len);
  closed = λ j lt. absurd (omega arith);
})

-- `close_all` leaves no handle open, with no metadata behind, gives every handle back to the stack
-- of free handles, and keeps the invariant.
pub close_all-closed :
    (t : HandleTable)
    → IsValid t
    → ((j : ℕ) → (get (close_all t) j ≡ none) × (get_metadata (close_all t) j ≡ none))
      × (open_count (close_all t) ≡ 0)
      × IsValid (close_all t)
unfolding open_count
close_all-closed t v = (
  nothing_left,
  omega (arith, after.0.counted, count_some-zero (close_all t).handles after.1),
  after.0,
)
  where
    after : IsValid (close_all t) × ((j : ℕ) → object_at (close_all t) j ≡ none)
    after = close_all_lem t v

    nothing_left : (j : ℕ) → (get (close_all t) j ≡ none) × (get_metadata (close_all t) j ≡ none)
    nothing_left j = (
      get-eq-object_at (close_all t) j after.0 ∙ after.1 j,
      get_metadata-eq-metadata_at (close_all t) j after.0
          ∙ ground (arith, after.0.paired j, after.1 j),
    )

length-occupied_from :
    (i : ℕ) (slots : List (Option KernelObject)) → length (occupied_from i slots) ≡ count_some slots
unfolding occupied_from
length-occupied_from i [] = refl
length-occupied_from i (none ∷ slots) = length-occupied_from (suc i) slots
length-occupied_from i (some obj ∷ slots) = ap suc (length-occupied_from (suc i) slots)

contains-occupied_from_below :
    (i : ℕ) (slots : List (Option KernelObject)) (j : ℕ)
    → j < i
    → contains j (occupied_from i slots) ≡ false
unfolding occupied_from
contains-occupied_from_below i [] j lt = refl
contains-occupied_from_below i (none ∷ slots) j lt =
    contains-occupied_from_below (suc i) slots j (omega arith)
contains-occupied_from_below i (some obj ∷ slots) j lt =
    ground (arith, contains-occupied_from_below (suc i) slots j)

contains-occupied_from :
    (i : ℕ) (slots : List (Option KernelObject)) (k : ℕ)
    → contains (i + k) (occupied_from i slots) ≡ is_some (get_or slots k none)
unfolding occupied_from
contains-occupied_from i [] k = refl
contains-occupied_from i (none ∷ slots) zero =
    contains-occupied_from_below (suc i) slots (i + 0) (omega arith)
contains-occupied_from i (none ∷ slots) (suc k) =
    subst (λ j. contains j (occupied_from (suc i) slots) ≡ is_some (get_or slots k none))
      (omega arith) (contains-occupied_from (suc i) slots k)
contains-occupied_from i (some obj ∷ slots) zero = ground arith
contains-occupied_from i (some obj ∷ slots) (suc k) = rw (==_ne (i + suc k) i (omega arith)) (
    subst (λ j. contains j (occupied_from (suc i) slots) ≡ is_some (get_or slots k none))
      (omega arith) (contains-occupied_from (suc i) slots k))

-- `active_handles` lists exactly the open handles, as many as `open_count` says.
pub active_handles-open :
    (t : HandleTable)
    → IsValid t
    → ((h : ℕ) → contains h (active_handles t) ≡ is_valid_handle t h)
      × (length (active_handles t) ≡ open_count t)
unfolding active_handles open_count is_valid_handle
active_handles-open t v = (
  λ h.
      sym (shift h)
      ∙ (contains-occupied_from 0 t.handles h
          ∙ ground (arith, get_or-past t.handles h none, v.handles_len)),
  omega (arith, length-occupied_from 0 t.handles, v.counted),
)
  where
    shift :
        (h : ℕ)
        → contains (0 + h) (occupied_from 0 t.handles) ≡ contains h (occupied_from 0 t.handles)
    shift h = ap (λ j. contains j (occupied_from 0 t.handles)) (omega arith)

-- The calls that change the table.
pub data Call : Type 0 where
  inserts : KernelObject → Call
  inserts_with_metadata : KernelObject → HandleMetadata → Call
  removes : ℕ → Call
  updates : ℕ → HandleMetadata → Call
  closes_all : Call

unfoldable pub step : HandleTable → Call → HandleTable
step t (inserts obj) = (insert t obj).0
step t (inserts_with_metadata obj m) = (insert_with_metadata t obj m).0
step t (removes h) = (remove t h).0
step t (updates h m) = (update_metadata t h m).0
step t closes_all = close_all t

unfoldable pub run : HandleTable → List Call → HandleTable
run t [] = t
run t (c ∷ cs) = run (step t c) cs

Inserted-IsValid :
    (t : HandleTable) (obj : KernelObject) (m : HandleMetadata) (r : HandleTable × Result ℕ)
    → IsValid t
    → Inserted t obj m r
    → IsValid r.0
Inserted-IsValid t obj m (t', ok h) v i = i.3
Inserted-IsValid t obj m (t', err e) v i = rw i.1 v

Removed-IsValid :
    (t : HandleTable) (h : ℕ) (r : HandleTable × Option KernelObject)
    → IsValid t
    → Removed t h r
    → IsValid r.0
Removed-IsValid t h (t', none) v i = rw i.1 v
Removed-IsValid t h (t', some obj) v i = i.4

MetadataUpdated-IsValid :
    (t : HandleTable) (h : ℕ) (m : HandleMetadata) (r : HandleTable × Result (Unit {0}))
    → IsValid t
    → MetadataUpdated t h m r
    → IsValid r.0
MetadataUpdated-IsValid t h m (t', ok _) v i = i.2
MetadataUpdated-IsValid t h m (t', err e) v i = rw i.1 v

step-IsValid : (t : HandleTable) (c : Call) → IsValid t → IsValid (step t c)
unfolding step insert
step-IsValid t (inserts obj) v =
    Inserted-IsValid t obj (infer_metadata_from_object obj) _ v
      (insert_with_metadata-Inserted t obj (infer_metadata_from_object obj) v)
step-IsValid t (inserts_with_metadata obj m) v =
    Inserted-IsValid t obj m _ v (insert_with_metadata-Inserted t obj m v)
step-IsValid t (removes h) v = Removed-IsValid t h _ v (remove-Removed t h v)
step-IsValid t (updates h m) v =
    MetadataUpdated-IsValid t h m _ v (update_metadata-MetadataUpdated t h m v)
step-IsValid t closes_all v = (close_all_lem t v).0

run-IsValid : (t : HandleTable) (cs : List Call) → IsValid t → IsValid (run t cs)
unfolding run
run-IsValid t [] v = v
run-IsValid t (c ∷ cs) v = run-IsValid (step t c) cs (step-IsValid t c v)

-- Whatever calls a task makes on a new table, the table keeps its invariant: each handle is either
-- open, with an object and metadata, or on the stack of free handles once, and never both.
pub run-new-IsValid : (cs : List Call) → IsValid (run new cs)
run-new-IsValid cs = run-IsValid new cs new-IsValid
