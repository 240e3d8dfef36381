-- ===== src/Virtio/Queue/Tests.antt =====
-- The theorems on virtqueues at concrete queues, and runs of their operations.
use scarlet.Common.{replicate, ℕ, ◌≡◌, refl, Option, some, [], ◌∷◌, arith}
use scarlet.Virtio.Queue.{
  VirtQueue, zero_descriptor, pushed_range, new, alloc_from, alloc_desc, released, free_desc,
  alloc_desc_chain, push, pop,
}
use scarlet.Virtio.Queue.Inv.{
  IsValid, new-IsValid, Allocated, alloc_desc-Allocated, free_desc-IsValid,
}
use scarlet.Virtio.Queue.Alloc.{ChainAllocated, alloc_desc_chain-ChainAllocated}
use scarlet.Virtio.Queue.RoundTrip.{GivenBack, free-alloc_desc_chain}
use scarlet.Virtio.Queue.Rings.{
  IsRing, Pushed, push-Pushed, push_each, pop_each, published, PushedAll, push_each-PushedAll,
  pop_each-published,
}

abbrev fresh : VirtQueue
fresh = new 4

fresh-IsValid : IsValid fresh
fresh-IsValid = new-IsValid 4 (omega arith)

-- The device has used chains 2 and 0; the driver's index is about to wrap.
abbrev answered : VirtQueue
answered = record {
  desc = replicate 4 zero_descriptor;
  avail_flags = 0;
  avail_idx = 65534;
  avail_ring = 0 ∷ 1 ∷ 2 ∷ 3 ∷ [];
  avail_size = 4;
  used_event = 0;
  used_flags = 0;
  used_idx = 1;
  used_ring =
      record { id = 0; len = 8 }
      ∷ record { id = 9; len = 8 }
      ∷ record { id = 9; len = 8 }
      ∷ record { id = 2; len = 8 }
      ∷ [];
  avail_event = 0;
  free_descriptors = [];
  last_used_idx = 65535;
}

answered-popped : pop_each answered 5 ≡ (record answered { last_used_idx = 1 }, 2 ∷ 0 ∷ [])
unfolding pop replicate
answered-popped = refl

answered-IsRing : IsRing answered
unfolding replicate
answered-IsRing = record {
  ring_length = refl;
  ring_size = refl;
  positive = omega arith;
  divides = refl;
  avail_small = omega arith;
  last_small = omega arith;
}

alloc_desc-Allocated_example : Allocated fresh (alloc_desc fresh)
alloc_desc-Allocated_example = alloc_desc-Allocated fresh fresh-IsValid

free_desc-IsValid_example :
    (free_desc (alloc_desc fresh).0 3 ≡ some (released (alloc_desc fresh).0 3))
    × ((alloc_desc (released (alloc_desc fresh).0 3)).1 ≡ some 3)
    × IsValid (released (alloc_desc fresh).0 3)
unfolding new alloc_desc alloc_from replicate pushed_range
free_desc-IsValid_example =
    free_desc-IsValid (alloc_desc fresh).0 3 (alloc_desc-Allocated fresh fresh-IsValid).5
      (omega arith) refl

alloc_desc_chain-ChainAllocated_example :
    (res : VirtQueue × Option ℕ) × (alloc_desc_chain fresh 3 ≡ some res)
    × ChainAllocated fresh 3 res
alloc_desc_chain-ChainAllocated_example = alloc_desc_chain-ChainAllocated fresh 3 fresh-IsValid

push-Pushed_example : Pushed answered 3 (push answered 3)
push-Pushed_example = push-Pushed answered 3 answered-IsRing

push_each-PushedAll_example :
    (q' : VirtQueue) × (push_each answered (3 ∷ 1 ∷ 2 ∷ []) ≡ some q')
    × PushedAll answered (3 ∷ 1 ∷ 2 ∷ []) q'
    × IsRing q'
unfolding replicate
push_each-PushedAll_example =
    push_each-PushedAll answered (3 ∷ 1 ∷ 2 ∷ []) answered-IsRing
      (omega arith, (omega arith, (omega arith, tt))) (omega arith)

pop_each-published_example :
    pop_each answered 5
    ≡ (record answered { last_used_idx = answered.used_idx }, published answered 65535 2)
pop_each-published_example =
    pop_each-published answered 2 5 (omega arith) (omega arith) (omega arith) refl

free-alloc_desc_chain_example :
    (q' : VirtQueue) × (i : ℕ) × (alloc_desc_chain fresh 3 ≡ some (q', some i))
    × GivenBack fresh q' i
unfolding new
free-alloc_desc_chain_example = free-alloc_desc_chain fresh 3 fresh-IsValid (omega arith)
