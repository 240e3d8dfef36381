-- ===== src/Virtio/Queue/Chains.antt =====
-- Chains of descriptors: `alloc_desc_chain` links fresh descriptors and `free_desc_chain` gives them
-- all back, also on the way out of an allocation that fails.
use scarlet.Common.{
  ◌==◌, if◌then◌else◌, lt→ltb, lt→leb-false, ==_iff, ==_refl, Bool-cases, length, All, length-set,
  contains, Distinct, All-lt_mono, u16_mod, ℕ, zero, suc, ◌%◌, ◌<◌, ◌≡◌, refl, sym, ap, subst, ◌∙◌,
  inl, inr, true, false, some, List, [], ◌∷◌, ◌++◌, arith,
}
use scarlet.Virtio.Queue.Inv.{set-at}
use scarlet.Virtio.Queue.{
  Descriptor, VirtQueue, zero_descriptor, desc_at, released, free_desc, flag_next, is_set,
  free_desc_chain, link,
}

-- The chain from `i` goes on through the descriptors of the list, and ends there.
abbrev pub Linked : VirtQueue → ℕ → List ℕ → Type 0
Linked q i [] = is_set flag_next (desc_at q i).flags ≡ false
Linked q i (j ∷ r) =
    (is_set flag_next (desc_at q i).flags ≡ true) × ((desc_at q i).next ≡ j) × Linked q j r

abbrev pub last : ℕ → List ℕ → ℕ
last i [] = i
last i (j ∷ r) = last j r

-- What a loop that pushes the elements in turn leaves on the stack.
abbrev pub push_all : List ℕ → List ℕ → List ℕ
push_all [] free = free
push_all (i ∷ is) free = push_all is (i ∷ free)

contains-last : (i : ℕ) (r : List ℕ) → contains (last i r) (i ∷ r) ≡ true
contains-last i [] = ground (arith, ==_refl i)
contains-last i (j ∷ r) = ground (arith, contains-last j r)

-- Descriptors that agree on the chain's members make the same chain.
pub Linked-agree :
    (q q' : VirtQueue) (i : ℕ) (r : List ℕ)
    → ((j : ℕ)
        → contains j (i ∷ r) ≡ true
        → (is_set flag_next (desc_at q' j).flags ≡ is_set flag_next (desc_at q j).flags)
          × ((desc_at q' j).next ≡ (desc_at q j).next))
    → Linked q i r
    → Linked q' i r
Linked-agree q q' i [] same l = (same i (ground (arith, ==_refl i))).0 ∙ l
Linked-agree q q' i (j ∷ r) same (f, n, l) = (
  (same i (ground (arith, ==_refl i))).0 ∙ f,
  (same i (ground (arith, ==_refl i))).1 ∙ n,
  Linked-agree q q' j r (λ k h. same k (ground (arith, h))) l,
)

pub link_at :
    (q : VirtQueue) (p n j : ℕ)
    → p < length q.desc
    → desc_at (link q p n) j ≡ (
        if j == p
        then record (desc_at q p) { next = n % u16_mod; flags = flag_next }
        else desc_at q j)
link_at q p n j h = set-at q.desc p j _ zero_descriptor h

pub All-last : (m i : ℕ) (r : List ℕ) → All (λ j. j < m) (i ∷ r) → last i r < m
All-last m i [] b = b.0
All-last m i (j ∷ r) b = All-last m j r b.1

pub ne_last : (i j : ℕ) (r : List ℕ) → contains i (j ∷ r) ≡ false → (i == last j r) ≡ false
ne_last i j r h = elim (Bool-cases (i == last j r)) [
  | inr ne ↦ ne
  | inl eq ↦
      (let there : contains i (j ∷ r) ≡ true =
          subst (λ k. contains k (j ∷ r) ≡ true) (sym ((==_iff i (last j r)).0 eq))
            (contains-last j r) in
        cc (h, there))
]

-- Linking a zeroed descriptor to the end of a chain makes the chain longer by it.
pub Linked-link :
    (q : VirtQueue) (i : ℕ) (r : List ℕ) (n : ℕ)
    → Linked q i r
    → Distinct (i ∷ r)
    → All (λ j. j < length q.desc) (i ∷ r)
    → n < u16_mod
    → contains n (i ∷ r) ≡ false
    → desc_at q n ≡ zero_descriptor
    → Linked (link q (last i r) n) i (r ++ n ∷ [])
Linked-link q i [] n l d b small fresh zeroed = (
  rw (link_at q i n i b.0, ==_refl i) refl,
  rw (link_at q i n i b.0, ==_refl i) (omega (arith, small)),
  rw (link_at q i n n b.0, other, zeroed) refl,
)
  where
    other : (n == i) ≡ false
    other = ground (arith, fresh)
Linked-link q i (j ∷ r) n (f, e, l) d b small fresh zeroed = (
  rw (link_at q (last j r) n i (All-last _ j r b.1), ne_last i j r d.0) f,
  rw (link_at q (last j r) n i (All-last _ j r b.1), ne_last i j r d.0) e,
  Linked-link q j r n l d.1 b.1 small (ground (arith, fresh)) zeroed,
)

released_at :
    (q : VirtQueue) (i j : ℕ)
    → i < length q.desc
    → (j == i) ≡ false
    → desc_at (released q i) j ≡ desc_at q j
released_at q i j h ne = set-at q.desc i j _ zero_descriptor h ∙ (rw ne refl)

free_desc-some : (q : VirtQueue) (i : ℕ) → i < length q.desc → free_desc q i ≡ some (released q i)
unfolding free_desc
free_desc-some q i h = rw (lt→ltb i (length q.desc) h)

Linked-released :
    (q : VirtQueue) (i j : ℕ) (r : List ℕ)
    → i < length q.desc
    → contains i (j ∷ r) ≡ false
    → Linked q j r
    → Linked (released q i) j r
Linked-released q i j r h out l = Linked-agree q (released q i) j r same l
  where
    apart : (k : ℕ) → contains k (j ∷ r) ≡ true → (k == i) ≡ false
    apart k there = elim (Bool-cases (k == i)) [
      | inr ne ↦ ne
      | inl eq ↦
          (let bad : contains i (j ∷ r) ≡ true =
              subst (λ x. contains x (j ∷ r) ≡ true) ((==_iff k i).0 eq) there in
            cc (out, bad))
    ]

    same :
        (k : ℕ)
        → contains k (j ∷ r) ≡ true
        → (is_set flag_next (desc_at (released q i) k).flags ≡ is_set flag_next (desc_at q k).flags)
          × ((desc_at (released q i) k).next ≡ (desc_at q k).next)
    same k there = (
      ap (λ (d : Descriptor). is_set flag_next d.flags) (released_at q i k h (apart k there)),
      ap (λ (d : Descriptor). d.next) (released_at q i k h (apart k there)),
    )

-- Freeing a chain pushes its members in order, and comes to an end.
pub free_desc_chain-push_all :
    (q : VirtQueue) (i : ℕ) (r : List ℕ) (fuel : ℕ)
    → Linked q i r
    → Distinct (i ∷ r)
    → All (λ j. j < length q.desc) (i ∷ r)
    → length r < fuel
    → (q' : VirtQueue) × (free_desc_chain fuel q i ≡ some q')
      × (q'.free_descriptors ≡ push_all (i ∷ r) q.free_descriptors)
      × (length q'.desc ≡ length q.desc)
unfolding free_desc_chain
free_desc_chain-push_all q i r zero l d b h = absurd (omega arith)
free_desc_chain-push_all q i [] (suc fuel) l d b h = (
  released q i,
  rw (lt→leb-false (length q.desc) i b.0, free_desc-some q i b.0, l) refl,
  refl,
  length-set q.desc i (record (desc_at q i) { next = 0 }),
)
free_desc_chain-push_all q i (j ∷ r) (suc fuel) (f, e, l) d b h =
    let (q', runs, free, len) =
      free_desc_chain-push_all (released q i) j r fuel (Linked-released q i j r b.0 d.0 l) d.1
        (All-lt_mono (length q.desc) (length (released q i).desc) (j ∷ r)
          (omega (arith, same_length)) b.1)
        (omega arith) in
    (
      q',
      rw (lt→leb-false (length q.desc) i b.0, free_desc-some q i b.0, f, e) runs,
      free,
      len ∙ same_length,
    )
  where
    same_length : length (released q i).desc ≡ length q.desc
    same_length = length-set q.desc i (record (desc_at q i) { next = 0 })
