-- ===== src/Virtio/Queue/Rings.antt =====
-- The two rings: the driver gives chains to the device in the available ring (`push`), and takes
-- them back from the used ring (`pop`).
use native.Mathlib.Nat.{mod-lt}
use scarlet.Common.{
  leb, ◌==◌, if◌then◌else◌, ==_iff, ==_refl, Bool-cases, length, get_or, All, length-set, u16_mod,
  ℕ, zero, suc, ◌+◌, ◌%◌, ◌≤◌, ◌<◌, ◌≡◌, refl, sym, ap, subst, ◌∙◌, ◌≢◌, inl, inr, true, false,
  Option, none, some, List, [], ◌∷◌, arith,
}
use scarlet.Virtio.Queue.{VirtQueue, zero_used, PushError, push, pop}
use scarlet.Virtio.Queue.Slots.{next_slot, later_slot_ne, size-small}
use scarlet.Virtio.Queue.Inv.{set-at}

-- The rings have one entry for each descriptor, and their indices fit 16 bits. The number of
-- entries divides 2 ^ 16, since it is a power of two.
pub record IsRing (q : VirtQueue) : Type 0 where
  pub ring_length : length q.avail_ring ≡ length q.desc
  pub ring_size : q.avail_size ≡ length q.desc
  pub positive : 0 < length q.desc
  pub divides : u16_mod % length q.desc ≡ 0
  pub avail_small : q.avail_idx < u16_mod
  pub last_small : q.last_used_idx < u16_mod

-- What `push` returned.
abbrev pub Pushed : VirtQueue → ℕ → VirtQueue × Option PushError → Type 0
Pushed q i (q', some e) = (length q.desc ≤ i) × (q' ≡ q)
Pushed q i (q', none) =
    (i < length q.desc)
    × (q'.avail_idx ≡ (q.avail_idx + 1) % u16_mod)
    × ((j : ℕ)
        → get_or q'.avail_ring j 0
          ≡ (if j == q.avail_idx % length q.desc then i % u16_mod else get_or q.avail_ring j 0))
    × (q'.desc ≡ q.desc)
    × (q'.free_descriptors ≡ q.free_descriptors)
    × IsRing q'

-- `push` refuses an index that is not a descriptor's and then changes nothing; else the index goes
-- into the slot that the ring's index points at, no other slot changes, the ring's index moves on
-- and wraps at 2 ^ 16, and the descriptors stay as they are.
pub push-Pushed : (q : VirtQueue) (i : ℕ) → IsRing q → Pushed q i (push q i)
unfolding push
push-Pushed q i v = elim (Bool-cases (leb (length q.desc) i)) [
  | inl big ↦ rw big (ground (arith, big), refl)
  | inr ok ↦ rw ok (
    ground (arith, ok),
    refl,
    (λ j. rw (v.ring_size) (set-at q.avail_ring (q.avail_idx % length q.desc) j _ 0 in_ring)),
    refl,
    refl,
    record {
      ring_length = length-set q.avail_ring _ _ ∙ v.ring_length;
      ring_size = v.ring_size;
      positive = v.positive;
      divides = v.divides;
      avail_small = omega arith;
      last_small = v.last_small;
    },
  )
]
  where
    in_ring : q.avail_idx % length q.desc < length q.avail_ring
    in_ring = omega (arith, mod-lt q.avail_idx v.positive, v.ring_length)

-- The driver pushes the chains in turn; `none` is a refusal.
abbrev pub push_each : VirtQueue → List ℕ → Option VirtQueue
push_each q [] = some q
push_each q (i ∷ rest) =
    let (q', o) = push q i in elim o [ none ↦ push_each q' rest | some _ ↦ none ]

-- The device reads `n` entries of the available ring, from index `a` on.
abbrev pub device_reads : VirtQueue → ℕ → ℕ → List ℕ
device_reads q a zero = []
device_reads q a (suc n) =
    get_or q.avail_ring (a % length q.desc) 0 ∷ device_reads q ((a + 1) % u16_mod) n

-- The driver pops until nothing is left, at most `n` times.
abbrev pub pop_each : VirtQueue → ℕ → VirtQueue × List ℕ
pop_each q zero = (q, [])
pop_each q (suc n) =
    let (q', o) = pop q in
    elim o [ none ↦ (q', []) | some i ↦ let (q'', is) = pop_each q' n in (q'', i ∷ is) ]

-- The entries of the used ring, `n` of them from index `a` on.
abbrev pub published : VirtQueue → ℕ → ℕ → List ℕ
published q a zero = []
published q a (suc n) =
    (get_or q.used_ring (a % length q.desc) zero_used).id ∷ published q ((a + 1) % u16_mod) n

-- What a sequence of pushes has left in the available ring.
pub record PushedAll (q : VirtQueue) (chains : List ℕ) (q' : VirtQueue) : Type 0 where
  pub reads : device_reads q' q.avail_idx (length chains) ≡ chains
  pub index : q'.avail_idx ≡ (q.avail_idx + length chains) % u16_mod
  pub same_desc : q'.desc ≡ q.desc
  pub same_free : q'.free_descriptors ≡ q.free_descriptors
  pub kept :
      (j : ℕ)
      → ((k : ℕ) → k < length chains → (q.avail_idx + k) % length q.desc ≢ j)
      → get_or q'.avail_ring j 0 ≡ get_or q.avail_ring j 0

-- Pushed chains, no more than the ring has entries, all enter it, and the device that reads on from
-- the index it saw last reads exactly them, in the order of the pushes, also where the index wraps
-- at 2 ^ 16 or the slot at the ring's size; entries behind them stay.
pub push_each-PushedAll :
    (q : VirtQueue) (chains : List ℕ)
    → IsRing q
    → All (λ i. i < length q.desc) chains
    → length chains ≤ length q.desc
    → (q' : VirtQueue) × (push_each q chains ≡ some q') × PushedAll q chains q' × IsRing q'
push_each-PushedAll q [] v b h = (
  q,
  refl,
  record {
    reads = refl;
    index = omega (arith, v.avail_small);
    same_desc = refl;
    same_free = refl;
    kept = λ j f. refl;
  },
  v,
)
push_each-PushedAll q (i ∷ rest) v (lt, b) h =
    step (push q i) refl (push-Pushed q i v) (λ q₁ v₁ desc.
      push_each-PushedAll q₁ rest v₁ (subst (λ d. All (λ i. i < length d) rest) (sym desc) b)
        (omega (arith, h, ap length desc)))
  where
    shifted :
        (k : ℕ)
        → (q.avail_idx + suc k) % length q.desc ≡ ((q.avail_idx + 1) % u16_mod + k) % length q.desc
    shifted k = next_slot (length q.desc) v.positive v.divides q.avail_idx k

    fresh :
        (j : ℕ)
        → ((k : ℕ) → k < length (i ∷ rest) → (q.avail_idx + k) % length q.desc ≢ j)
        → (j == q.avail_idx % length q.desc) ≡ false
    fresh j other = elim (Bool-cases (j == q.avail_idx % length q.desc)) [
      | inr ne ↦ ne
      | inl eq ↦ absurd (
          other 0 (omega arith)
            (ap (λ x. x % length q.desc) (omega arith) ∙ sym ((==_iff j _).0 eq)))
    ]

    step :
        (o : VirtQueue × Option PushError)
        → push q i ≡ o
        → Pushed q i o
        → ((q₁ : VirtQueue)
            → IsRing q₁
            → q₁.desc ≡ q.desc
            → (q' : VirtQueue) × (push_each q₁ rest ≡ some q') × PushedAll q₁ rest q' × IsRing q')
        → (q' : VirtQueue) × (push_each q (i ∷ rest) ≡ some q')
          × PushedAll q (i ∷ rest) q'
          × IsRing q'
    step (q₁, some e) eq p rec = absurd (omega (arith, p.0, lt))
    step (q₁, none) eq (_, idx, entries, desc, free, v₁) rec =
        let (q', runs, all, v') = rec q₁ v₁ desc in
        let first_kept : get_or q'.avail_ring (q.avail_idx % length q.desc) 0
            ≡ get_or q₁.avail_ring (q.avail_idx % length q.desc) 0 =
          all.kept (q.avail_idx % length q.desc) (λ k low.
            rw (desc, idx)
              (later_slot_ne (length q.desc) v.positive v.divides q.avail_idx k
                (omega (arith, h, low)))) in
        let first : get_or q'.avail_ring (q.avail_idx % length q.desc) 0 ≡ i =
          first_kept
          ∙ entries (q.avail_idx % length q.desc)
          ∙ (rw (==_refl (q.avail_idx % length q.desc))
              (omega (arith, lt, size-small (length q.desc) v.positive v.divides))) in
        (
          q',
          rw (ap (λ (x : VirtQueue × Option PushError). x.1) eq, push_each)
              (rw (ap (λ (x : VirtQueue × Option PushError). x.0) eq) runs),
          record {
            reads = rw (all.same_desc, desc, first) (ap (◌∷◌ i) (rw⁻¹ idx all.reads));
            index = omega (arith, all.index, idx);
            same_desc = all.same_desc ∙ desc;
            same_free = all.same_free ∙ free;
            kept = λ j other.
                all.kept j
                  (λ k low e. other (suc k) (omega arith) (rw (shifted k) (rw⁻¹ (desc, idx) e)))
                ∙ entries j
                ∙ (rw (fresh j other) refl);
          },
          v',
        )

-- What the device has published (`n` chains, up to `used_idx`) the driver pops in the order of
-- publication, each once, and then finds nothing more, also when the indices wrap; nothing but the
-- driver's own index changes.
pub pop_each-published :
    (q : VirtQueue) (n rounds : ℕ)
    → q.last_used_idx < u16_mod
    → n < u16_mod
    → n < rounds
    → q.used_idx ≡ (q.last_used_idx + n) % u16_mod
    → pop_each q rounds ≡ (record q { last_used_idx = q.used_idx }, published q q.last_used_idx n)
unfolding pop
pop_each-published q n zero small h r e = absurd (omega arith)
pop_each-published q zero (suc rounds) small h r e =
    rw (done, pop_each) (rw (done, pop) (ap (λ k. (record q { last_used_idx = k }, [])) (sym same)))
  where
    same : q.used_idx ≡ q.last_used_idx
    same = omega (arith, e, small)

    done : (q.last_used_idx == q.used_idx) ≡ true
    done = ground (arith, same)
pop_each-published q (suc n) (suc rounds) small h r e =
    rw (ap (λ (x : VirtQueue × Option ℕ). x.1) taken, pop_each)
      (rw (ap (λ (x : VirtQueue × Option ℕ). x.0) taken) (
        rw
          (pop_each-published next n rounds (omega arith) (omega arith) (omega arith)
            (omega (arith, e)))
          refl))
  where
    ne : (q.last_used_idx == q.used_idx) ≡ false
    ne = ground (arith, e, small, h)

    next : VirtQueue
    next = record q { last_used_idx = (q.last_used_idx + 1) % u16_mod }

    taken : pop q ≡ (next, some (get_or q.used_ring (q.last_used_idx % length q.desc) zero_used).id)
    taken = rw (ne, pop) refl
