-- ===== src/Handle/Inv.antt =====
-- The representation invariant of the handle table, and the two moves that every operation of
-- kernel/src/object/handle/mod.rs is made of: filling a slot and emptying one.
use scarlet.Common.{
  ◌==◌, if◌then◌else◌, ==_iff, ==_refl, Bool-cases, is_some, length, get_or, set, All, length-set,
  get_or-set_self, get_or-set_ne, length-replicate, get_or-replicate, length-range_from, contains,
  Distinct, contains-range_from, range_from-Distinct, range_from-below, count_some,
  count_some-set-some, count_some-set-none, count_some-replicate, ℕ, ◌+◌, ◌<◌, ◌≡◌, ap, subst, ◌∙◌,
  inl, inr, not, Option, none, some, List, ◌∷◌, arith,
}
use scarlet.Object.{KernelObject}
use scarlet.Handle.{
  HandleMetadata, HandleTable, max_handles, new, object_at, metadata_at, occupy, clear,
}

-- The arrays keep their size, a handle is free exactly if its slot is empty, it is on the stack of
-- free handles once, and a slot has metadata exactly if it has an object.
pub record IsValid (t : HandleTable) : Type 0 where
  pub handles_len : length t.handles ≡ max_handles
  pub metadata_len : length t.metadata ≡ max_handles
  pub counted : length t.free_handles + count_some t.handles ≡ max_handles
  pub distinct : Distinct t.free_handles
  pub free_in : All (λ h. h < max_handles) t.free_handles
  pub free_iff :
      (h : ℕ) → h < max_handles → contains h t.free_handles ≡ not (is_some (object_at t h))
  pub paired : (h : ℕ) → is_some (metadata_at t h) ≡ is_some (object_at t h)

pub new-IsValid : IsValid new
unfolding new
new-IsValid = record {
  handles_len = length-replicate max_handles none;
  metadata_len = length-replicate max_handles none;
  counted =
      omega (arith, length-range_from 0 max_handles, count_some-replicate KernelObject max_handles);
  distinct = range_from-Distinct 0 max_handles;
  free_in = range_from-below 0 max_handles max_handles (omega arith);
  free_iff = λ h lt.
      rw (get_or-replicate {A = Option KernelObject} max_handles h none)
        (contains-range_from 0 max_handles h (omega arith) (omega arith));
  paired = λ h. rw (
    get_or-replicate {A = Option HandleMetadata} max_handles h none,
    get_or-replicate {A = Option KernelObject} max_handles h none,
  );
}

-- A slot after a write to slot `i`: the value written, or what was there.
pub slot-set {ℓ} :
    {A : Type ℓ} (xs : List (Option A)) (i j : ℕ) (v : Option A)
    → i < length xs
    → get_or (set xs i v) j none ≡ (if j == i then v else get_or xs j none)
slot-set xs i j v h = elim (Bool-cases (j == i)) [
  | inl e ↦ rw e (rw ((==_iff j i).0 e) (get_or-set_self xs i v none h))
  | inr e ↦ rw e (get_or-set_ne xs i j v none (λ p. cc (==_refl j, ap (◌==◌ j) p, e)))
]

pub top_valid :
    {t : HandleTable} {h : ℕ} {rest : List ℕ}
    → IsValid t
    → t.free_handles ≡ h ∷ rest
    → h < max_handles
top_valid {t} {h} {rest} v e = (subst (All (λ h. h < max_handles)) e v.free_in).0

pub top_empty :
    {t : HandleTable} {h : ℕ} {rest : List ℕ}
    → IsValid t
    → t.free_handles ≡ h ∷ rest
    → object_at t h ≡ none
top_empty {t} {h} {rest} v e = ground (arith, v.free_iff h (top_valid v e), ==_refl h, e)

-- Filling the slot on top of the stack of free handles keeps the invariant.
pub occupy-IsValid :
    (t : HandleTable) (h : ℕ) (rest : List ℕ) (obj : KernelObject) (m : HandleMetadata)
    → IsValid t
    → t.free_handles ≡ h ∷ rest
    → IsValid (occupy t h obj m rest)
occupy-IsValid t h rest obj m v e = record {
  handles_len = length-set t.handles h (some obj) ∙ v.handles_len;
  metadata_len = length-set t.metadata h (some m) ∙ v.metadata_len;
  counted = omega (
    arith,
    v.counted,
    ap length e,
    count_some-set-some t.handles h obj in_handles (top_empty v e),
  );
  distinct = (subst Distinct e v.distinct).1;
  free_in = (subst (All (λ h. h < max_handles)) e v.free_in).1;
  free_iff = λ j lt.
      rw (slot-set t.handles h j (some obj) in_handles)
        (ground (arith, v.free_iff j lt, (subst Distinct e v.distinct).0, e, ==_iff j h));
  paired = λ j.
      rw
        (slot-set t.handles h j (some obj) in_handles, slot-set t.metadata h j (some m) in_metadata)
        (ground (arith, v.paired j));
}
  where
    in_handles : h < length t.handles
    in_handles = omega (arith, top_valid v e, v.handles_len)

    in_metadata : h < length t.metadata
    in_metadata = omega (arith, top_valid v e, v.metadata_len)

-- So does emptying a slot that has an object.
pub clear-IsValid :
    (t : HandleTable) (h : ℕ) (obj : KernelObject)
    → IsValid t
    → h < max_handles
    → object_at t h ≡ some obj
    → IsValid (clear t h)
clear-IsValid t h obj v lt e = record {
  handles_len = length-set t.handles h none ∙ v.handles_len;
  metadata_len = length-set t.metadata h none ∙ v.metadata_len;
  counted = omega (arith, v.counted, count_some-set-none t.handles h obj e);
  distinct = (ground (arith, v.free_iff h lt, e), v.distinct);
  free_in = (lt, v.free_in);
  free_iff =
      λ j jlt. rw (slot-set t.handles h j none in_handles) (ground (arith, v.free_iff j jlt));
  paired = λ j.
      rw (slot-set t.handles h j none in_handles, slot-set t.metadata h j none in_metadata)
        (ground (arith, v.paired j));
}
  where
    in_handles : h < length t.handles
    in_handles = omega (arith, lt, v.handles_len)

    in_metadata : h < length t.metadata
    in_metadata = omega (arith, lt, v.metadata_len)
