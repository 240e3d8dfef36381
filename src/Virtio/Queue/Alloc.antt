-- ===== src/Virtio/Queue/Alloc.antt =====
-- `alloc_desc_chain` as a whole: it ends, links as many descriptors as asked for, and leaks none
-- when there are too few.
use scarlet.Common.{
  ==_refl, length, contains, ℕ, ◌-◌, ◌<◌, max, ◌≡◌, refl, sym, ap, subst, ◌∙◌, Option, none, some,
  List, [], ◌∷◌, ◌++◌, arith,
}
use scarlet.Virtio.Queue.{VirtQueue, alloc_desc, alloc_desc_chain}
use scarlet.Virtio.Queue.Inv.{IsValid, Allocated, alloc_desc-Allocated}
use scarlet.Virtio.Queue.Chains.{Linked}
use scarlet.Virtio.Queue.Loop.{LoopDone, chain_loop-LoopDone}

-- What `alloc_desc_chain` returned for a chain of `n`.
abbrev pub ChainAllocated : VirtQueue → ℕ → VirtQueue × Option ℕ → Type 0
ChainAllocated q n (q', some i) =
    (r : List ℕ) × (q.free_descriptors ≡ (i ∷ r) ++ q'.free_descriptors)
    × (length (i ∷ r) ≡ max n 1)
    × Linked q' i r
    × IsValid q'
    × (length q'.desc ≡ length q.desc)
ChainAllocated q n (q', none) =
    (length q.free_descriptors < max n 1)
    × ((j : ℕ) → contains j q'.free_descriptors ≡ contains j q.free_descriptors)
    × (length q'.free_descriptors ≡ length q.free_descriptors)
    × IsValid q'

-- `alloc_desc_chain` always ends. Given enough free descriptors it returns a chain of as many
-- different ones as asked for (at least one), linked by their `next` fields and taken off the stack
-- of free descriptors; with too few it returns nothing and every descriptor is free that was.
pub alloc_desc_chain-ChainAllocated :
    (q : VirtQueue) (n : ℕ)
    → IsValid q
    → (res : VirtQueue × Option ℕ) × (alloc_desc_chain q n ≡ some res) × ChainAllocated q n res
unfolding alloc_desc_chain
alloc_desc_chain-ChainAllocated q n v = first (alloc_desc q) refl (alloc_desc-Allocated q v)
  where
    finish :
        (i : ℕ) (res : VirtQueue × Option ℕ)
        → LoopDone q.free_descriptors (length q.desc) v.distinct v.in_range i (n - 1) res
        → ChainAllocated q n res
    finish i (q', none) done = (omega (arith, done.0), done.1, done.2, done.3)
    finish i (q', some j) (r, same, split, len, linked, valid, sized) = (
      r,
      split ∙ ap (λ k. (k ∷ r) ++ q'.free_descriptors) (sym same),
      omega (arith, len),
      rw same linked,
      valid,
      sized,
    )

    first :
        (o : VirtQueue × Option ℕ)
        → alloc_desc q ≡ o
        → Allocated q o
        → (res : VirtQueue × Option ℕ) × (alloc_desc_chain q n ≡ some res) × ChainAllocated q n res
    first (q', none) e (empty, same) = (
      (q', none),
      rw (ap (λ (x : VirtQueue × Option ℕ). x.1) e, alloc_desc_chain)
          (rw (ap (λ (x : VirtQueue × Option ℕ). x.0) e) refl),
      (omega (arith, ap length empty), λ j. rw same refl, rw same refl, rw same v),
    )
    first (q', some i) e (split, lt, out, len, at, v') =
        let (res, runs, done) =
          chain_loop-LoopDone q.free_descriptors (length q.desc) v.distinct v.in_range (n - 1) q' i
            []
            (record {
              split = split;
              linked = rw (at i, ==_refl i) refl;
              valid = v';
              same_length = len;
            }) in
        (
          res,
          rw (ap (λ (x : VirtQueue × Option ℕ). x.1) e, alloc_desc_chain)
              (rw (ap (λ (x : VirtQueue × Option ℕ). x.0) e) runs),
          finish i res (
              subst (λ k. LoopDone q.free_descriptors (length q.desc) v.distinct v.in_range i k res)
                (omega arith) done),
        )
