-- ===== src/Virtio/Queue/Loop.antt =====
-- The loop of `alloc_desc_chain`: a chain that grows by fresh descriptors, or is given back.
use scarlet.Common.{
  ◌==◌, if◌then◌else◌, ==_iff, ==_refl, Bool-cases, length, set, All, length-append, length-set,
  contains, Distinct, All-lt_mono, ℕ, zero, suc, ◌+◌, ◌≤◌, ◌<◌, ◌≡◌, refl, sym, ap, subst, ◌∙◌, inl,
  inr, true, false, ◌||◌, Option, none, some, List, [], ◌∷◌, ◌++◌, append_assoc, arith,
}
use scarlet.Common.NoRepeats.{
  contains-append, Distinct-left, Distinct-middle, All-left, Distinct-length-le,
}
use scarlet.Virtio.Queue.{
  Descriptor, VirtQueue, zero_descriptor, desc_at, set_desc, alloc_desc, flag_next, is_set,
  free_desc_chain, link, chain_loop,
}
use scarlet.Virtio.Queue.Inv.{IsValid, Allocated, set-at, alloc_desc-Allocated}
use scarlet.Virtio.Queue.Chains.{
  Linked, last, push_all, Linked-agree, All-last, ne_last, Linked-link, free_desc_chain-push_all,
}
use scarlet.Virtio.Queue.PushAll.{
  length-push_all, contains-push_all, push_all-Distinct, push_all-below,
}

-- The end of a chain is not read on, so its link can be reset.
Linked-end :
    (q : VirtQueue) (i : ℕ) (r : List ℕ)
    → Linked q i r
    → Distinct (i ∷ r)
    → All (λ j. j < length q.desc) (i ∷ r)
    → Linked (set_desc q (last i r) (record (desc_at q (last i r)) { next = 0 })) i r
Linked-end q i [] l d b =
    rw (set-at q.desc i i (record (desc_at q i) { next = 0 }) zero_descriptor b.0, ==_refl i) l
Linked-end q i (j ∷ r) (f, e, l) d b =
    (rw (at_i, ne_last i j r d.0) f, rw (at_i, ne_last i j r d.0) e, Linked-end q j r l d.1 b.1)
  where
    at_i :
        desc_at (set_desc q (last j r) (record (desc_at q (last j r)) { next = 0 })) i
        ≡ (if i == last j r then record (desc_at q (last j r)) { next = 0 } else desc_at q i)
    at_i =
        set-at q.desc (last j r) i (record (desc_at q (last j r)) { next = 0 }) zero_descriptor
          (All-last _ j r b.1)

set_desc-IsValid : (q : VirtQueue) (i : ℕ) (d : Descriptor) → IsValid q → IsValid (set_desc q i d)
set_desc-IsValid q i d v = record {
  small = omega (arith, length-set q.desc i d, v.small);
  in_range =
      All-lt_mono (length q.desc) (length (set q.desc i d)) q.free_descriptors
        (omega (arith, length-set q.desc i d)) v.in_range;
  distinct = v.distinct;
}

length-snoc : (r : List ℕ) (n : ℕ) → length (r ++ n ∷ []) ≡ length r + 1
length-snoc r n = length-append r (n ∷ [])

last-snoc : (i : ℕ) (r : List ℕ) (n : ℕ) → last i (r ++ n ∷ []) ≡ n
last-snoc i [] n = refl
last-snoc i (j ∷ r) n = last-snoc j r n

-- The state of the loop: `i ∷ r` is the chain so far, taken from the free list `all` in turn.
pub record Building (all : List ℕ) (m : ℕ) (q : VirtQueue) (i : ℕ) (r : List ℕ) : Type 0 where
  pub split : all ≡ (i ∷ r) ++ q.free_descriptors
  pub linked : Linked q i r
  pub valid : IsValid q
  pub same_length : length q.desc ≡ m

module _ (all : List ℕ) (m : ℕ) (distinct : Distinct all) (below : All (λ j. j < m) all) where
  members :
      (q : VirtQueue) (i : ℕ) (r : List ℕ)
      → Building all m q i r
      → Distinct (i ∷ r) × All (λ j. j < length q.desc) (i ∷ r) × (length (i ∷ r) ≤ length q.desc)
  members q i r s = (d, b, Distinct-length-le (length q.desc) (i ∷ r) d b)
    where
      d : Distinct (i ∷ r)
      d = Distinct-left (i ∷ r) q.free_descriptors (subst Distinct s.split distinct)

      b : All (λ j. j < length q.desc) (i ∷ r)
      b = All-lt_mono m (length q.desc) (i ∷ r) (omega (arith, s.same_length)) (
          All-left (λ j. j < m) (i ∷ r) q.free_descriptors (subst (All (λ j. j < m)) s.split below))

  -- One more descriptor.
  grow :
      (q q' : VirtQueue) (i n : ℕ) (r : List ℕ)
      → Building all m q i r
      → Allocated q (q', some n)
      → Building all m (link q' (last i r) n) i (r ++ n ∷ [])
  grow q q' i n r s (e, lt, out, len, at, v) = record {
    split = s.split ∙ (rw (e, append_assoc));
    linked =
        Linked-link q' i r n (Linked-agree q q' i r same s.linked) mem.0
          (All-lt_mono (length q.desc) (length q'.desc) (i ∷ r) (omega (arith, len)) mem.1)
          (omega (arith, lt, s.valid.small)) fresh (at n ∙ (rw (==_refl n) refl));
    valid = set_desc-IsValid q' (last i r) _ v;
    same_length = length-set q'.desc (last i r) _ ∙ len ∙ s.same_length;
  }
    where
      mem :
          Distinct (i ∷ r) × All (λ j. j < length q.desc) (i ∷ r) × (length (i ∷ r) ≤ length q.desc)
      mem = members q i r s

      fresh : contains n (i ∷ r) ≡ false
      fresh =
          Distinct-middle (i ∷ r) n q'.free_descriptors
            (subst Distinct (s.split ∙ ap (◌++◌ (i ∷ r)) e) distinct)

      unchanged : (j : ℕ) → contains j (i ∷ r) ≡ true → desc_at q' j ≡ desc_at q j
      unchanged j h = elim (Bool-cases (j == n)) [
        | inr ne ↦ at j ∙ (rw ne refl)
        | inl eq ↦
            (let bad : contains n (i ∷ r) ≡ true =
                subst (λ k. contains k (i ∷ r) ≡ true) ((==_iff j n).0 eq) h in
              cc (bad, fresh))
      ]

      same :
          (j : ℕ)
          → contains j (i ∷ r) ≡ true
          → (is_set flag_next (desc_at q' j).flags ≡ is_set flag_next (desc_at q j).flags)
            × ((desc_at q' j).next ≡ (desc_at q j).next)
      same j h = (
        ap (λ (d : Descriptor). is_set flag_next d.flags) (unchanged j h),
        ap (λ (d : Descriptor). d.next) (unchanged j h),
      )

  -- Too few descriptors: the chain is given back.
  give_back :
      (q : VirtQueue) (i : ℕ) (r : List ℕ)
      → Building all m q i r
      → q.free_descriptors ≡ []
      → (q' : VirtQueue) × (free_desc_chain (length q.desc) q i ≡ some q')
        × ((j : ℕ) → contains j q'.free_descriptors ≡ contains j all)
        × (length q'.free_descriptors ≡ length all)
        × IsValid q'
  give_back q i r s e =
      let (q', runs, free, len) =
        free_desc_chain-push_all q i r (length q.desc) s.linked mem.0 mem.1 mem.2 in
      let given : q'.free_descriptors ≡ push_all (i ∷ r) [] = free ∙ ap (push_all (i ∷ r)) e in
      (
        q',
        runs,
        λ j. ap (contains j) given ∙ contains-push_all j (i ∷ r) [] ∙ sym (contains_all j),
        ap length given ∙ length-push_all (i ∷ r) [] ∙ sym length_all,
        record {
          small = omega (arith, len, s.valid.small);
          in_range = subst (All (λ j. j < length q'.desc)) (sym given) (
              push_all-below (length q'.desc) (i ∷ r) []
                (All-lt_mono (length q.desc) (length q'.desc) (i ∷ r) (omega (arith, len)) mem.1)
                tt);
          distinct =
              subst Distinct (sym given) (push_all-Distinct (i ∷ r) [] mem.0 tt (λ a h. refl));
        },
      )
    where
      mem :
          Distinct (i ∷ r) × All (λ j. j < length q.desc) (i ∷ r) × (length (i ∷ r) ≤ length q.desc)
      mem = members q i r s

      all_chain : all ≡ (i ∷ r) ++ []
      all_chain = s.split ∙ ap (◌++◌ (i ∷ r)) e

      contains_all : (j : ℕ) → contains j all ≡ (contains j (i ∷ r) || contains j [])
      contains_all j = ap (contains j) all_chain ∙ contains-append j (i ∷ r) []

      length_all : length all ≡ length (i ∷ r) + length {A = ℕ} []
      length_all = ap length all_chain ∙ length-append (i ∷ r) []

  -- What the loop returned, for a chain of `k` descriptors after the first.
  abbrev pub LoopDone : ℕ → ℕ → VirtQueue × Option ℕ → Type 0
  LoopDone i k (q', some j) =
      (r : List ℕ) × (j ≡ i)
      × (all ≡ (i ∷ r) ++ q'.free_descriptors)
      × (length r ≡ k)
      × Linked q' i r
      × IsValid q'
      × (length q'.desc ≡ m)
  LoopDone i k (q', none) =
      (length all ≤ k)
      × ((j : ℕ) → contains j q'.free_descriptors ≡ contains j all)
      × (length q'.free_descriptors ≡ length all)
      × IsValid q'

  pub chain_loop-LoopDone :
      (n : ℕ) (q : VirtQueue) (i : ℕ) (r : List ℕ)
      → Building all m q i r
      → (res : VirtQueue × Option ℕ) × (chain_loop q i (last i r) n ≡ some res)
        × LoopDone i (length r + n) res
  unfolding chain_loop
  chain_loop-LoopDone zero q i r s = (
    (set_desc q (last i r) (record (desc_at q (last i r)) { next = 0 }), some i),
    refl,
    (
      r,
      refl,
      s.split,
      omega arith,
      Linked-end q i r s.linked mem.0 mem.1,
      set_desc-IsValid q (last i r) _ s.valid,
      length-set q.desc (last i r) _ ∙ s.same_length,
    ),
  )
    where
      mem :
          Distinct (i ∷ r) × All (λ j. j < length q.desc) (i ∷ r) × (length (i ∷ r) ≤ length q.desc)
      mem = members q i r s
  chain_loop-LoopDone (suc n) q i r s =
      next (alloc_desc q) refl (alloc_desc-Allocated q s.valid) (λ q' j a.
        chain_loop-LoopDone n (link q' (last i r) j) i (r ++ j ∷ []) (grow q q' i j r s a))
    where
      next :
          (o : VirtQueue × Option ℕ)
          → alloc_desc q ≡ o
          → Allocated q o
          → ((q' : VirtQueue) (j : ℕ)
              → Allocated q (q', some j)
              → (res : VirtQueue × Option ℕ) × (chain_loop
                    (link q' (last i r) j)
                    i
                    (last i (r ++ j ∷ []))
                    n
                  ≡ some res)
                × LoopDone i (length (r ++ j ∷ []) + n) res)
          → (res : VirtQueue × Option ℕ) × (chain_loop q i (last i r) (suc n) ≡ some res)
            × LoopDone i (length r + suc n) res
      next (q', none) e (empty, same) rec =
          let (q'', runs, mem, len, v) = give_back q i r s empty in
          (
            (q'', none),
            rw (ap (λ (x : VirtQueue × Option ℕ). x.1) e, chain_loop)
                (rw (ap (λ (x : VirtQueue × Option ℕ). x.0) e ∙ same, runs) refl),
            (
              omega (
                arith,
                ap length s.split,
                length-append (i ∷ r) q.free_descriptors,
                ap length empty,
              ),
              mem,
              len,
              v,
            ),
          )
      next (q', some j) e a rec =
          let (res, runs, done) = rec q' j a in
          (
            res,
            rw (ap (λ (x : VirtQueue × Option ℕ). x.1) e, chain_loop)
                (rw (ap (λ (x : VirtQueue × Option ℕ). x.0) e) (
                  subst (λ k. chain_loop (link q' (last i r) j) i k n ≡ some res) (last-snoc i r j)
                    runs)),
            subst (λ k. LoopDone i k res) (omega (arith, length-snoc r j)) done,
          )
