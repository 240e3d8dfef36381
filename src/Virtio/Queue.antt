-- ===== src/Virtio/Queue.antt =====
-- kernel/src/drivers/virtio/queue.rs: a split virtqueue. The head of `free_descriptors` is the back
-- of the vector. An access to an array out of range, a panic in the source, reads a zero descriptor
-- and writes nothing here; `Inv.IsValid` rules it out.
pub mod Inv
pub mod Chains
pub mod PushAll
pub mod Loop
pub mod Alloc
pub mod RoundTrip
pub mod Slots
pub mod Rings
mod Tests
use mathlib.Core.Option
use scarlet.Common.{
  ltb, leb, ◌==◌, if◌then◌else◌, length, get_or, set, replicate, u16_mod, ℕ, zero, suc, ◌+◌, ◌-◌,
  ◌*◌, ◌/◌, ◌%◌, bit_and, Bool, not, Option, none, some, List, [], ◌∷◌,
}

pub record Descriptor : Type 0 where
  pub addr : ℕ
  pub len : ℕ
  pub flags : ℕ
  pub next : ℕ

pub record UsedEntry : Type 0 where
  pub id : ℕ
  pub len : ℕ

-- The rings' fields stand in the queue itself; `used` is written by the device.
pub record VirtQueue : Type 0 where
  pub desc : List Descriptor
  pub avail_flags : ℕ
  pub avail_idx : ℕ
  pub avail_ring : List ℕ
  pub avail_size : ℕ
  pub used_event : ℕ
  pub used_flags : ℕ
  pub used_idx : ℕ
  pub used_ring : List UsedEntry
  pub avail_event : ℕ
  pub free_descriptors : List ℕ
  pub last_used_idx : ℕ

abbrev pub zero_descriptor : Descriptor
zero_descriptor = record { addr = 0; len = 0; flags = 0; next = 0 }

abbrev pub zero_used : UsedEntry
zero_used = record { id = 0; len = 0 }

abbrev pub desc_at : VirtQueue → ℕ → Descriptor
desc_at q i = get_or q.desc i zero_descriptor

abbrev pub set_desc : VirtQueue → ℕ → Descriptor → VirtQueue
set_desc q i d = record q { desc = set q.desc i d }

-- The numbers below `n`, the greatest first: what is pushed in order, with the back at the head.
pub pushed_range : ℕ → List ℕ
pushed_range zero = []
pushed_range (suc n) = n ∷ pushed_range n

-- The memory of a new queue is zeroed.
unfoldable pub new : ℕ → VirtQueue
unfolding pushed_range
new queue_size = record {
  desc = replicate queue_size zero_descriptor;
  avail_flags = 0;
  avail_idx = 0;
  avail_ring = replicate queue_size 0;
  avail_size = queue_size;
  used_event = 0;
  used_flags = 0;
  used_idx = 0;
  used_ring = replicate queue_size zero_used;
  avail_event = 0;
  free_descriptors = pushed_range queue_size;
  last_used_idx = 0;
}

-- The loop of `init` from descriptor `i` on, with `n` of the `size` descriptors left.
init_from : ℕ → ℕ → ℕ → List Descriptor
init_from size i zero = []
init_from size i (suc n) =
    record { addr = 0; len = 0; flags = 0; next = (i % u16_mod + 1) % u16_mod % (size % u16_mod) }
    ∷ init_from size (suc i) n

unfoldable pub init : VirtQueue → VirtQueue
unfolding init_from
init q = record q {
  desc = init_from (length q.desc) 0 (length q.desc);
  avail_flags = 0;
  avail_idx = 0;
  used_event = 0;
  used_flags = 0;
  used_idx = 0;
  avail_event = 0;
}

-- Sizes in bytes: a descriptor has 16, the fixed part of the available ring 6 and of the used ring
-- 8 (it is padded to its alignment), their entries 2 and 8.
unfoldable pub get_raw_size : VirtQueue → ℕ
get_raw_size q =
    let desc_size = length q.desc * 16 in
    let avail_size = 6 + length q.desc * 2 in
    let used_size = 8 + length q.desc * 8 in
    let align_size = (desc_size + avail_size + 3) / 4 * 4 in
    let padding_size = align_size - (desc_size + avail_size) in
    desc_size + avail_size + used_size + padding_size

alloc_from : VirtQueue → List ℕ → VirtQueue × Option ℕ
alloc_from q [] = (q, none)
alloc_from q (i ∷ rest) =
    (record q { free_descriptors = rest; desc = set q.desc i zero_descriptor }, some i)

unfoldable pub alloc_desc : VirtQueue → VirtQueue × Option ℕ
unfolding alloc_from
alloc_desc q = alloc_from q q.free_descriptors

-- The descriptor loses its link and goes back on the stack.
abbrev pub released : VirtQueue → ℕ → VirtQueue
released q i =
    let d = desc_at q i in
    record q {
      desc = set q.desc i (record d { next = 0 });
      free_descriptors = i ∷ q.free_descriptors;
    }

-- `none` is the panic.
unfoldable pub free_desc : VirtQueue → ℕ → Option VirtQueue
free_desc q i = if ltb i (length q.desc) then some (released q i) else none

-- `DescriptorFlag`
abbrev pub flag_next : ℕ
flag_next = 0x1

abbrev pub flag_write : ℕ
flag_write = 0x2

abbrev pub flag_indirect : ℕ
flag_indirect = 0x4

abbrev pub is_set : ℕ → ℕ → Bool
is_set flag flags = not (bit_and flags flag == 0)

-- The loop follows the links for as long as they go; `none` says that the fuel ran out first.
unfoldable pub free_desc_chain : ℕ → VirtQueue → ℕ → Option VirtQueue
free_desc_chain zero q i = none
free_desc_chain (suc fuel) q i =
    let d = desc_at q i in
    let rest = free_desc_chain fuel (released q i) d.next in
    if leb (length q.desc) i then some q else elim (free_desc q i) [
      | none ↦ none
      | some q' ↦ if is_set flag_next d.flags then rest else some q'
    ]

-- Descriptor `prev` continues at `i`.
abbrev pub link : VirtQueue → ℕ → ℕ → VirtQueue
link q prev i =
    let d = desc_at q prev in set_desc q prev (record d { next = i % u16_mod; flags = flag_next })

-- The loop of `alloc_desc_chain`, with `n` descriptors to go. A queue has no more descriptors to
-- free than it holds, which is the fuel given to `free_desc_chain`.
pub chain_loop : VirtQueue → ℕ → ℕ → ℕ → Option (VirtQueue × Option ℕ)
chain_loop q first prev zero =
    let d = desc_at q prev in some (set_desc q prev (record d { next = 0 }), some first)
chain_loop q first prev (suc n) =
    let (q', o) = alloc_desc q in
    elim o [
      | none ↦ Option.map (λ q''. (q'', none)) (free_desc_chain (length q.desc) q' first)
      | some i ↦ chain_loop (link q' prev i) first i n
    ]

-- `for _ in 1..length` makes `length - 1` rounds.
unfoldable pub alloc_desc_chain : VirtQueue → ℕ → Option (VirtQueue × Option ℕ)
unfolding chain_loop
alloc_desc_chain q n =
    let (q', o) = alloc_desc q in
    elim o [ none ↦ some (q', none) | some i ↦ chain_loop q' i i (n - 1) ]

unfoldable pub is_busy : VirtQueue → Bool
is_busy q = q.last_used_idx == q.used_idx

pub data PushError : Type 0 where
  invalid_descriptor_index : PushError

unfoldable pub push : VirtQueue → ℕ → VirtQueue × Option PushError
push q i = if leb (length q.desc) i then (q, some invalid_descriptor_index) else (
  record q {
    avail_ring = set q.avail_ring (q.avail_idx % q.avail_size) (i % u16_mod);
    avail_idx = (q.avail_idx + 1) % u16_mod;
  },
  none,
)

unfoldable pub pop : VirtQueue → VirtQueue × Option ℕ
pop q =
    if q.last_used_idx == q.used_idx
    then (q, none)
    else let e = get_or q.used_ring (q.last_used_idx % length q.desc) zero_used in
      (record q { last_used_idx = (q.last_used_idx + 1) % u16_mod }, some e.id)
