-- ===== src/Virtio/Queue/Inv.antt =====
-- The invariant of the free descriptors, and single allocations.
use scarlet.Common.{
  ltb, ◌==◌, if◌then◌else◌, lt→ltb, ==_iff, ==_refl, Bool-cases, length, get_or, set, All,
  length-set, get_or-set_self, get_or-set_ne, length-replicate, contains, Distinct, All-lt_mono,
  u16_mod, ℕ, zero, suc, ◌≤◌, ◌<◌, ◌≡◌, refl, ap, subst, ◌∙◌, inl, inr, false, Option, none, some,
  List, [], ◌∷◌, arith,
}
use scarlet.Virtio.Queue.{
  VirtQueue, zero_descriptor, desc_at, pushed_range, new, alloc_from, alloc_desc, released,
  free_desc,
}

-- The free descriptors are in range and each stands on the stack once; an index fits its 16 bits.
pub record IsValid (q : VirtQueue) : Type 0 where
  pub small : length q.desc ≤ u16_mod
  pub in_range : All (λ i. i < length q.desc) q.free_descriptors
  pub distinct : Distinct q.free_descriptors

pushed_range-below : (n m : ℕ) → n ≤ m → All (λ i. i < m) (pushed_range n)
unfolding pushed_range
pushed_range-below zero m h = tt
pushed_range-below (suc n) m h = (omega arith, pushed_range-below n m (omega arith))

contains-pushed_range : (n a : ℕ) → contains a (pushed_range n) ≡ ltb a n
unfolding pushed_range
contains-pushed_range zero a = ground arith
contains-pushed_range (suc n) a = ground (arith, contains-pushed_range n a)

pushed_range-Distinct : (n : ℕ) → Distinct (pushed_range n)
unfolding pushed_range
pushed_range-Distinct zero = tt
pushed_range-Distinct (suc n) = (contains-pushed_range n n ∙ ground arith, pushed_range-Distinct n)

-- A new queue is valid, and all its descriptors are free.
pub new-IsValid : (n : ℕ) → n ≤ u16_mod → IsValid (new n)
unfolding new
new-IsValid n h = record {
  small = rw (length-replicate n zero_descriptor) h;
  in_range = rw (length-replicate n zero_descriptor) (pushed_range-below n n (omega arith));
  distinct = pushed_range-Distinct n;
}

-- What `alloc_desc` returned.
abbrev pub Allocated : VirtQueue → VirtQueue × Option ℕ → Type 0
Allocated q (q', none) = (q.free_descriptors ≡ []) × (q' ≡ q)
Allocated q (q', some i) =
    (q.free_descriptors ≡ i ∷ q'.free_descriptors)
    × (i < length q.desc)
    × (contains i q'.free_descriptors ≡ false)
    × (length q'.desc ≡ length q.desc)
    × ((j : ℕ) → desc_at q' j ≡ (if j == i then zero_descriptor else desc_at q j))
    × IsValid q'

pub set-at {ℓ} :
    {A : Type ℓ} (xs : List A) (i j : ℕ) (v d : A)
    → i < length xs
    → get_or (set xs i v) j d ≡ (if j == i then v else get_or xs j d)
set-at xs i j v d h = elim (Bool-cases (j == i)) [
  | inl e ↦ rw e (rw ((==_iff j i).0 e) (get_or-set_self xs i v d h))
  | inr e ↦ rw e (get_or-set_ne xs i j v d (λ p. cc (==_refl j, ap (◌==◌ j) p, e)))
]

alloc_from-Allocated :
    (q : VirtQueue) (free : List ℕ)
    → IsValid q
    → q.free_descriptors ≡ free
    → Allocated q (alloc_from q free)
unfolding alloc_from
alloc_from-Allocated q [] v e = (e, refl)
alloc_from-Allocated q (i ∷ rest) v e = (
  e,
  in_range.0,
  distinct.0,
  length-set q.desc i zero_descriptor,
  λ j. set-at q.desc i j zero_descriptor zero_descriptor in_range.0,
  record {
    small = rw (length-set q.desc i zero_descriptor) v.small;
    in_range = rw (length-set q.desc i zero_descriptor) in_range.1;
    distinct = distinct.1;
  },
)
  where
    in_range : All (λ i. i < length q.desc) (i ∷ rest)
    in_range = subst (All (λ i. i < length q.desc)) e v.in_range

    distinct : Distinct (i ∷ rest)
    distinct = subst Distinct e v.distinct

-- `alloc_desc` fails exactly when no descriptor is free, and changes nothing then; else it takes
-- the last one freed, zeroes that descriptor and no other, and it is free no longer.
pub alloc_desc-Allocated : (q : VirtQueue) → IsValid q → Allocated q (alloc_desc q)
unfolding alloc_desc
alloc_desc-Allocated q v = alloc_from-Allocated q q.free_descriptors v refl

-- A descriptor that is not free can be freed: it is the next to be allocated, and the invariant
-- stays.
pub free_desc-IsValid :
    (q : VirtQueue) (i : ℕ)
    → IsValid q
    → i < length q.desc
    → contains i q.free_descriptors ≡ false
    → (free_desc q i ≡ some (released q i))
      × ((alloc_desc (released q i)).1 ≡ some i)
      × IsValid (released q i)
unfolding free_desc alloc_desc alloc_from
free_desc-IsValid q i v lt free = (
  rw (lt→ltb i (length q.desc) lt) refl,
  refl,
  record {
    small = rw (length-set q.desc i (record (desc_at q i) { next = 0 })) v.small;
    in_range = (
      omega (arith, same_length, lt),
      All-lt_mono (length q.desc) (length (released q i).desc) q.free_descriptors
          (omega (arith, same_length)) v.in_range,
    );
    distinct = (free, v.distinct);
  },
)
  where
    same_length : length (released q i).desc ≡ length q.desc
    same_length = length-set q.desc i (record (desc_at q i) { next = 0 })
