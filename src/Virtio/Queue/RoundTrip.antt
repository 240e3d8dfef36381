-- ===== src/Virtio/Queue/RoundTrip.antt =====
-- A chain that is allocated and freed again.
use scarlet.Common.{
  length, All, length-append, contains, Distinct, All-lt_mono, ℕ, ◌≤◌, ◌<◌, max, ◌≡◌, sym, ap,
  subst, ◌∙◌, Option, none, some, List, ◌∷◌, ◌++◌, arith,
}
use scarlet.Common.NoRepeats.{
  contains-append, Distinct-left, Distinct-apart, All-left, Distinct-length-le,
}
use scarlet.Virtio.Queue.{VirtQueue, free_desc_chain, alloc_desc_chain}
use scarlet.Virtio.Queue.Inv.{IsValid}
use scarlet.Virtio.Queue.Chains.{Linked, free_desc_chain-push_all}
use scarlet.Virtio.Queue.PushAll.{
  length-push_all, contains-push_all, push_all-Distinct, push_all-below,
}
use scarlet.Virtio.Queue.Alloc.{ChainAllocated, alloc_desc_chain-ChainAllocated}

-- The chain from `i` was taken from `q`, and freeing it gives all of `q`'s descriptors back.
pub record GivenBack (q q' : VirtQueue) (i : ℕ) : Type 0 where
  pub freed : VirtQueue
  pub runs : free_desc_chain (length q'.desc) q' i ≡ some freed
  pub same_free : (j : ℕ) → contains j freed.free_descriptors ≡ contains j q.free_descriptors
  pub same_count : length freed.free_descriptors ≡ length q.free_descriptors
  pub valid : IsValid freed

free-GivenBack :
    (q q' : VirtQueue) (i : ℕ) (r : List ℕ)
    → IsValid q
    → q.free_descriptors ≡ (i ∷ r) ++ q'.free_descriptors
    → Linked q' i r
    → IsValid q'
    → length q'.desc ≡ length q.desc
    → GivenBack q q' i
free-GivenBack q q' i r v split linked v' same =
    let (q'', runs, free, len) =
      free_desc_chain-push_all q' i r (length q'.desc) linked once below
        (Distinct-length-le (length q'.desc) (i ∷ r) once below) in
    record {
      freed = q'';
      runs = runs;
      same_free = λ j.
          ap (contains j) free
          ∙ contains-push_all j (i ∷ r) q'.free_descriptors
          ∙ sym (ap (contains j) split ∙ contains-append j (i ∷ r) q'.free_descriptors);
      same_count =
          ap length free
          ∙ length-push_all (i ∷ r) q'.free_descriptors
          ∙ sym (ap length split ∙ length-append (i ∷ r) q'.free_descriptors);
      valid = record {
        small = omega (arith, len, v'.small);
        in_range = subst (All (λ j. j < length q''.desc)) (sym free) (
            push_all-below (length q''.desc) (i ∷ r) q'.free_descriptors
              (All-lt_mono (length q'.desc) (length q''.desc) (i ∷ r) (omega (arith, len)) below)
              (All-lt_mono (length q'.desc) (length q''.desc) q'.free_descriptors
                (omega (arith, len)) v'.in_range));
        distinct = subst Distinct (sym free) (
            push_all-Distinct (i ∷ r) q'.free_descriptors once v'.distinct
              (λ a. Distinct-apart (i ∷ r) q'.free_descriptors a all_once));
      };
    }
  where
    all_once : Distinct ((i ∷ r) ++ q'.free_descriptors)
    all_once = subst Distinct split v.distinct

    once : Distinct (i ∷ r)
    once = Distinct-left (i ∷ r) q'.free_descriptors all_once

    below : All (λ j. j < length q'.desc) (i ∷ r)
    below = All-lt_mono (length q.desc) (length q'.desc) (i ∷ r) (omega (arith, same)) (
        All-left (λ j. j < length q.desc) (i ∷ r) q'.free_descriptors
          (subst (All (λ j. j < length q.desc)) split v.in_range))

-- With enough free descriptors a chain is allocated, and freeing it from its head puts exactly its
-- descriptors back: the same descriptors are free as before, each once, and the queue is valid.
pub free-alloc_desc_chain :
    (q : VirtQueue) (n : ℕ)
    → IsValid q
    → max n 1 ≤ length q.free_descriptors
    → (q' : VirtQueue) × (i : ℕ) × (alloc_desc_chain q n ≡ some (q', some i)) × GivenBack q q' i
free-alloc_desc_chain q n v enough =
    let (res, runs, done) = alloc_desc_chain-ChainAllocated q n v in by_result res runs done
  where
    by_result :
        (res : VirtQueue × Option ℕ)
        → alloc_desc_chain q n ≡ some res
        → ChainAllocated q n res
        → (q' : VirtQueue) × (i : ℕ) × (alloc_desc_chain q n ≡ some (q', some i)) × GivenBack q q' i
    by_result (q', none) runs done = absurd (omega (arith, done.0, enough))
    by_result (q', some i) runs (r, split, len, linked, v', same) =
        (q', i, runs, free-GivenBack q q' i r v split linked v' same)
