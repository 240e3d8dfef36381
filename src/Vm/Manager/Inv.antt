-- ===== src/Vm/Manager/Inv.antt =====
-- The invariant of the tree of memory maps, and the map that covers an address.
use scarlet.Common.{
  ltb, ◌==◌, if◌then◌else◌, ==_iff, ==_refl, ==_ne, tests, Bool-cases, ℕ, ◌+◌, ◌%◌, ◌≤◌, ◌<◌, ◌≡◌,
  refl, subst, inl, inr, true, false, Option, none, some, List, [], ◌∷◌, arith,
}
use scarlet.Common.BTreeMap
use scarlet.Vm.Area.{VirtualMemoryMap, within}
use scarlet.Vm.Manager.{Manager, page_size, new}

-- A map starts and ends on page boundaries (its end is inclusive) and holds at least one page.
pub record IsMap (m : VirtualMemoryMap) : Type 0 where
  pub ordered : m.vmarea.start ≤ m.vmarea.end
  pub start_aligned : m.vmarea.start % page_size ≡ 0
  pub end_aligned : (m.vmarea.end + 1) % page_size ≡ 0
  pub phys_aligned : m.pmarea.start % page_size ≡ 0

-- The maps stand in order under their start addresses, from `lo` on, and do not overlap.
abbrev pub Chain : ℕ → List (ℕ × VirtualMemoryMap) → Type 0
Chain lo [] = Unit
Chain lo ((k, m) ∷ r) = (m.vmarea.start ≡ k) × (lo ≤ k) × IsMap m × Chain (m.vmarea.end + 1) r

-- The specification of every search: the first map whose area holds the address.
abbrev pub mapped : ℕ → List (ℕ × VirtualMemoryMap) → Option VirtualMemoryMap
mapped v [] = none
mapped v ((k, m) ∷ r) = if within m.vmarea v then some m else mapped v r

abbrev pub IsFree : ℕ → ℕ → List (ℕ × VirtualMemoryMap) → Type 0
IsFree s e mm = (v : ℕ) → s ≤ v → v ≤ e → mapped v mm ≡ none

pub mapped_below :
    (lo v : ℕ) (mm : List (ℕ × VirtualMemoryMap)) → Chain lo mm → v < lo → mapped v mm ≡ none
mapped_below lo v [] c h = refl
mapped_below lo v ((k, m) ∷ r) (e, le, w, c) h =
    ground (arith, w.ordered, mapped_below (m.vmarea.end + 1) v r c)

pub Chain-lower :
    (lo lo' : ℕ) (mm : List (ℕ × VirtualMemoryMap)) → lo' ≤ lo → Chain lo mm → Chain lo' mm
Chain-lower lo lo' [] h c = tt
Chain-lower lo lo' ((k, m) ∷ r) h (e, le, w, c) = (e, omega arith, w, c)

-- A map in the tree covers every address of its area, and stands under its start.
pub record Stands (k lo : ℕ) (m : VirtualMemoryMap) (mm : List (ℕ × VirtualMemoryMap))
    : Type 0 where
  pub key : m.vmarea.start ≡ k
  pub above : lo ≤ k
  pub is_map : IsMap m
  pub covers : (v : ℕ) → within m.vmarea v ≡ true → mapped v mm ≡ some m

pub get-Stands :
    (lo k : ℕ) (mm : List (ℕ × VirtualMemoryMap)) (m : VirtualMemoryMap)
    → Chain lo mm
    → BTreeMap.get k mm ≡ some m
    → Stands k lo m mm
unfolding BTreeMap.get
get-Stands lo k [] m c h = cc
get-Stands lo k ((j, w) ∷ r) m (e, le, i, c) h = elim (Bool-cases (j == k)) [
  | inl same ↦
      subst (λ x. Stands k lo x ((j, w) ∷ r)) (taken same)
        (record {
          key = omega (arith, (==_iff j k).0 same);
          above = omega (arith, (==_iff j k).0 same);
          is_map = i;
          covers = λ v p. rw p;
        })
  | inr other ↦ later (get-Stands (w.vmarea.end + 1) k r m c (rw other at h))
]
  where
    taken : (j == k) ≡ true → w ≡ m
    taken same = let q : some w ≡ some m = rw same at h in cc

    later : Stands k (w.vmarea.end + 1) m r → Stands k lo m ((j, w) ∷ r)
    later s = record {
      key = s.key;
      above = omega (arith, s.above, i.ordered);
      is_map = s.is_map;
      covers = λ v p. ground (arith, s.covers v p, s.key, s.above);
    }

-- Taking a map out leaves its area unmapped and every other address as it was.
pub remove-Chain :
    (lo k : ℕ) (mm : List (ℕ × VirtualMemoryMap)) → Chain lo mm → Chain lo (BTreeMap.remove k mm)
unfolding BTreeMap.remove
remove-Chain lo k [] c = tt
remove-Chain lo k ((j, w) ∷ r) (e, le, i, c) = elim (Bool-cases (j == k)) [
  | inl same ↦ rw same (Chain-lower (w.vmarea.end + 1) lo r (omega (arith, i.ordered)) c)
  | inr other ↦ rw other (e, le, i, remove-Chain (w.vmarea.end + 1) k r c)
]

pub mapped-remove :
    (lo k v : ℕ) (mm : List (ℕ × VirtualMemoryMap)) (m : VirtualMemoryMap)
    → Chain lo mm
    → BTreeMap.get k mm ≡ some m
    → mapped v (BTreeMap.remove k mm) ≡ (if within m.vmarea v then none else mapped v mm)
unfolding BTreeMap.get BTreeMap.remove
mapped-remove lo k v [] m c h = cc
mapped-remove lo k v ((j, w) ∷ r) m (e, le, i, c) h = elim (Bool-cases (j == k)) [
  | inl same ↦ rw same (
      subst (λ x. mapped v r ≡ (if within x.vmarea v then none else mapped v ((j, w) ∷ r)))
        (taken same) (ground (arith, mapped_below (w.vmarea.end + 1) v r c)))
  | inr other ↦ rw other (
      later (get-Stands (w.vmarea.end + 1) k r m c (rw other at h))
        (mapped-remove (w.vmarea.end + 1) k v r m c (rw other at h)))
]
  where
    taken : (j == k) ≡ true → w ≡ m
    taken same = let q : some w ≡ some m = rw same at h in cc

    later :
        Stands k (w.vmarea.end + 1) m r
        → mapped v (BTreeMap.remove k r) ≡ (if within m.vmarea v then none else mapped v r)
        → mapped v ((j, w) ∷ BTreeMap.remove k r)
          ≡ (if within m.vmarea v then none else mapped v ((j, w) ∷ r))
    later s ih = ground (arith, ih, s.key, s.above)

-- Where the new map's area is free, it lies before or behind the first map of the tree.
module _ (j : ℕ) (w : VirtualMemoryMap) (r : List (ℕ × VirtualMemoryMap)) (m : VirtualMemoryMap)
    (e : w.vmarea.start ≡ j) (iw : IsMap w) (i : IsMap m)
    (free : IsFree m.vmarea.start m.vmarea.end ((j, w) ∷ r)) where
  not_within : (v : ℕ) → m.vmarea.start ≤ v → v ≤ m.vmarea.end → within w.vmarea v ≡ false
  not_within v h k = elim (Bool-cases (within w.vmarea v)) [
    | inr out ↦ out
    | inl here ↦ let q : mapped v ((j, w) ∷ r) ≡ some w = rw here in cc (free v h k)
  ]

  free_ne : ¬ (j ≡ m.vmarea.start)
  free_ne p = ground (arith, not_within j, i.ordered, iw.ordered)

  free_before : m.vmarea.start < j → m.vmarea.end + 1 ≤ j
  free_before h = ground (arith, not_within j, iw.ordered)

  free_after : j < m.vmarea.start → w.vmarea.end + 1 ≤ m.vmarea.start
  free_after h = ground (arith, not_within m.vmarea.start, i.ordered)

  IsFree-rest : j < m.vmarea.start → IsFree m.vmarea.start m.vmarea.end r
  IsFree-rest h v p q = ground (arith, not_within v p q, free v p q)

-- A map put where nothing was mapped covers its area, and every other address stays as it was.
pub insert-Chain :
    (lo : ℕ) (mm : List (ℕ × VirtualMemoryMap)) (m : VirtualMemoryMap)
    → Chain lo mm
    → IsMap m
    → lo ≤ m.vmarea.start
    → IsFree m.vmarea.start m.vmarea.end mm
    → Chain lo (BTreeMap.insert m.vmarea.start m mm)
unfolding BTreeMap.insert
insert-Chain lo [] m c i le free = (refl, le, i, tt)
insert-Chain lo ((j, w) ∷ r) m (e, lo_le, iw, c) i le free =
    elim (Bool-cases (j == m.vmarea.start)) [
      | inl same ↦ absurd (free_ne j w r m e iw i free ((==_iff j m.vmarea.start).0 same))
      | inr other ↦ elim (Bool-cases (ltb m.vmarea.start j)) [
        | inl before ↦
            rw (other, before)
              (refl, le, i, (e, free_before j w r m e iw i free (omega tests), iw, c))
        | inr after ↦
            rw (other, after)
              (
                e,
                lo_le,
                iw,
                insert-Chain (w.vmarea.end + 1) r m c i
                    (free_after j w r m e iw i free (ground (arith, other, after)))
                    (IsFree-rest j w r m e iw i free (ground (arith, other, after))),
              )
      ]
    ]

pub mapped-insert :
    (lo v : ℕ) (mm : List (ℕ × VirtualMemoryMap)) (m : VirtualMemoryMap)
    → Chain lo mm
    → IsMap m
    → IsFree m.vmarea.start m.vmarea.end mm
    → mapped v (BTreeMap.insert m.vmarea.start m mm)
      ≡ (if within m.vmarea v then some m else mapped v mm)
unfolding BTreeMap.insert
mapped-insert lo v [] m c i free = refl
mapped-insert lo v ((j, w) ∷ r) m (e, lo_le, iw, c) i free =
    elim (Bool-cases (j == m.vmarea.start)) [
      | inl same ↦ absurd (free_ne j w r m e iw i free ((==_iff j m.vmarea.start).0 same))
      | inr other ↦ elim (Bool-cases (ltb m.vmarea.start j)) [
        | inl before ↦ rw (other, before)
        | inr after ↦
            rw (other, after)
              (ground (
                arith,
                mapped-insert (w.vmarea.end + 1) v r m c i
                    (IsFree-rest j w r m e iw i free (ground (arith, other, after))),
                free_after j w r m e iw i free (ground (arith, other, after)),
              ))
      ]
    ]

-- A map that covers an address stands in the tree under its start.
pub mapped-get :
    (lo v : ℕ) (mm : List (ℕ × VirtualMemoryMap)) (w : VirtualMemoryMap)
    → Chain lo mm
    → mapped v mm ≡ some w
    → (BTreeMap.get w.vmarea.start mm ≡ some w) × (within w.vmarea v ≡ true) × (lo ≤ w.vmarea.start)
unfolding BTreeMap.get
mapped-get lo v [] w c h = cc
mapped-get lo v ((j, x) ∷ r) w (e, le, i, c) h = elim (Bool-cases (within x.vmarea v)) [
  | inl here ↦
      (let q : x ≡ w = taken here in
        subst
          (λ y.
            (BTreeMap.get y.vmarea.start ((j, x) ∷ r) ≡ some y)
            × (within y.vmarea v ≡ true)
            × (lo ≤ y.vmarea.start))
          q (rw (e, ==_refl j) refl, here, omega arith))
  | inr past ↦ later (mapped-get (x.vmarea.end + 1) v r w c (rw past at h))
]
  where
    taken : within x.vmarea v ≡ true → x ≡ w
    taken here = let q : some x ≡ some w = rw here at h in cc

    later :
        (BTreeMap.get w.vmarea.start r ≡ some w)
          × (within w.vmarea v ≡ true)
          × (x.vmarea.end + 1 ≤ w.vmarea.start)
        → (BTreeMap.get w.vmarea.start ((j, x) ∷ r) ≡ some w)
          × (within w.vmarea v ≡ true)
          × (lo ≤ w.vmarea.start)
    later (g, inside, above) =
        (rw (==_ne j w.vmarea.start (omega (arith, i.ordered))) g, inside, omega (arith, i.ordered))

pub get-remove :
    (lo k j : ℕ) (mm : List (ℕ × VirtualMemoryMap)) (w : VirtualMemoryMap)
    → Chain lo mm
    → BTreeMap.get j (BTreeMap.remove k mm) ≡ some w
    → BTreeMap.get j mm ≡ some w
unfolding BTreeMap.get BTreeMap.remove
get-remove lo k j [] w c h = h
get-remove lo k j ((i, x) ∷ r) w (e, le, ix, c) h = elim (Bool-cases (i == k)) [
  | inl same ↦ behind (rw same at h)
  | inr other ↦ ground (arith, h, other, get-remove (x.vmarea.end + 1) k j r w c)
]
  where
    behind : BTreeMap.get j r ≡ some w → BTreeMap.get j ((i, x) ∷ r) ≡ some w
    behind g =
        rw (==_ne i j (omega (arith, (get-Stands (x.vmarea.end + 1) j r w c g).above, ix.ordered)))
          g

-- The cache, if set, holds the bounds and the key of a map that is in the tree.
abbrev pub CacheIn : List (ℕ × VirtualMemoryMap) → Option (ℕ × ℕ × ℕ) → Type 0
CacheIn mm none = Unit
CacheIn mm (some (s, e, k)) =
    (m : VirtualMemoryMap) × (BTreeMap.get k mm ≡ some m)
    × (m.vmarea.start ≡ s)
    × (m.vmarea.end ≡ e)

pub record IsValid (vm : Manager) : Type 0 where
  pub chain : Chain 0 vm.memmap
  pub cached : CacheIn vm.memmap vm.last_search_cache

pub new-IsValid : IsValid new
unfolding new
new-IsValid = record { chain = tt; cached = tt }
