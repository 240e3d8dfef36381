-- ===== src/Vm/Manager/Add.antt =====
-- `add_memory_map`: looking at the two neighbours in the tree decides whether the new map overlaps
-- any map at all.
use scarlet.Common.{
  ltb, leb, if◌then◌else◌, tests, Bool-cases, Option-cases, ℕ, ◌+◌, ◌-◌, ◌%◌, ◌≤◌, ◌<◌, ◌≡◌, refl,
  ◌∙◌, ◌⊎◌, inl, inr, Bool, true, false, Option, none, some, List, [], ◌∷◌, arith,
}
use scarlet.Common.BTreeMap
use scarlet.Vm.Area.{MemoryArea, VirtualMemoryMap, within, size}
use scarlet.Vm.Manager.{
  Manager, not_aligned, overlaps_preceding, overlaps_succeeding, no_mapping, no_root_table, Outcome,
  ok, err, panics, page_size, size_aligned, is_aligned, overlaps_prev, overlaps_next, put_map,
  add_memory_map,
}
use scarlet.Vm.Manager.Inv.{
  IsMap, Chain, mapped, IsFree, mapped_below, get-Stands, insert-Chain, mapped-insert, IsValid,
}

-- Only an area that runs forwards has a size, and a size in whole pages ends it on a page boundary.
size_aligned-true :
    (a : MemoryArea)
    → size_aligned a ≡ some true
    → (a.start ≤ a.end) × ((a.end + 1 - a.start) % page_size ≡ 0)
unfolding size_aligned size
size_aligned-true a h = ground arith

pub is_aligned-IsMap : (m : VirtualMemoryMap) → is_aligned m ≡ some true → IsMap m
unfolding is_aligned
is_aligned-IsMap m h = ground (arith, size_aligned-true m.vmarea)

last_below-get :
    (lo s k : ℕ) (mm : List (ℕ × VirtualMemoryMap)) (p : VirtualMemoryMap)
    → Chain lo mm
    → BTreeMap.last_below s mm ≡ some (k, p)
    → (BTreeMap.get k mm ≡ some p) × (lo ≤ k) × (k < s)
unfolding BTreeMap.last_below BTreeMap.get
last_below-get lo s k [] p c h = cc
last_below-get lo s k ((j, w) ∷ r) p (e, le, i, c) h =
    elim (Option-cases (BTreeMap.last_below s r)) [
      | inl nothing ↦ at_head nothing
      | inr (q, found) ↦ behind (
          last_below-get (w.vmarea.end + 1) s k r p c
            (found ∙ (let q' : some q ≡ some (k, p) = rw (found, BTreeMap.last_below) at h in q')))
    ]
  where
    at_head :
        BTreeMap.last_below s r ≡ none → (BTreeMap.get k ((j, w) ∷ r) ≡ some p) × (lo ≤ k) × (k < s)
    at_head nothing = ground (arith, h, nothing)

    behind :
        (BTreeMap.get k r ≡ some p) × (w.vmarea.end + 1 ≤ k) × (k < s)
        → (BTreeMap.get k ((j, w) ∷ r) ≡ some p) × (lo ≤ k) × (k < s)
    behind (g, above, below) = ground (arith, g, above, below, i.ordered)

first_from-get :
    (lo s k : ℕ) (mm : List (ℕ × VirtualMemoryMap)) (n : VirtualMemoryMap)
    → Chain lo mm
    → BTreeMap.first_from s mm ≡ some (k, n)
    → (BTreeMap.get k mm ≡ some n) × (s ≤ k) × (lo ≤ k)
unfolding BTreeMap.first_from BTreeMap.get
first_from-get lo s k [] n c h = cc
first_from-get lo s k ((j, w) ∷ r) n (e, le, i, c) h = elim (Bool-cases (leb s j)) [
  | inl here ↦ ground (arith, h, here)
  | inr later ↦
      ground (arith, first_from-get (w.vmarea.end + 1) s k r n c (rw later at h), i.ordered)
]

-- If neither neighbour overlaps, nothing does.
IsFree-of_neighbours :
    (lo : ℕ) (mm : List (ℕ × VirtualMemoryMap)) (m : VirtualMemoryMap)
    → Chain lo mm
    → IsMap m
    → overlaps_prev m (BTreeMap.last_below m.vmarea.start mm) ≡ false
    → overlaps_next m (BTreeMap.first_from m.vmarea.start mm) ≡ false
    → IsFree m.vmarea.start m.vmarea.end mm
unfolding overlaps_prev overlaps_next BTreeMap.last_below BTreeMap.first_from
IsFree-of_neighbours lo [] m c i p n = λ v h k. refl
IsFree-of_neighbours lo ((j, w) ∷ r) m (e, le, iw, c) i p n =
    elim (Bool-cases (ltb j m.vmarea.start)) [
      | inr behind ↦ λ v h k.
          mapped_below j v ((j, w) ∷ r) (e, omega arith, iw, c)
            (ground (arith, behind, n, i.end_aligned, iw.start_aligned))
      | inl before ↦ elim (Option-cases (BTreeMap.last_below m.vmarea.start r)) [
        | inl nothing ↦ λ v h k. ground (
          arith,
          before,
          p,
          nothing,
          iw.end_aligned,
          i.start_aligned,
          IsFree-of_neighbours (w.vmarea.end + 1) r m c i (rw nothing refl)
              (ground (arith, n, before)) v h k,
        )
        | inr ((key, q), found) ↦ λ v h k. ground (
          arith,
          before,
          last_below-get (w.vmarea.end + 1) m.vmarea.start key r q c found,
          IsFree-of_neighbours (w.vmarea.end + 1) r m c i (ground (arith, p, found))
              (ground (arith, n, before)) v h k,
        )
      ]
    ]

-- A neighbour that overlaps is mapped somewhere in the new area.
prev_not-IsFree :
    (mm : List (ℕ × VirtualMemoryMap)) (m : VirtualMemoryMap)
    → Chain 0 mm
    → IsMap m
    → overlaps_prev m (BTreeMap.last_below m.vmarea.start mm) ≡ true
    → ¬ IsFree m.vmarea.start m.vmarea.end mm
unfolding overlaps_prev
prev_not-IsFree mm m c i over free = by_prev (BTreeMap.last_below m.vmarea.start mm) refl
  where
    by_prev : (o : Option (ℕ × VirtualMemoryMap)) → BTreeMap.last_below m.vmarea.start mm ≡ o → ⊥
    by_prev none e = let q : false ≡ true = (rw (e, overlaps_prev) at over) in cc
    by_prev (some (k, p)) e = contradicts (last_below-get 0 m.vmarea.start k mm p c e)
      where
        longer : ltb m.vmarea.start p.vmarea.end ≡ true
        longer = rw (e, overlaps_prev) at over

        contradicts : (BTreeMap.get k mm ≡ some p) × (0 ≤ k) × (k < m.vmarea.start) → ⊥
        contradicts (g, _, below) =
            let s = get-Stands 0 k mm p c g in
            let covered : mapped m.vmarea.start mm ≡ some p =
              s.covers m.vmarea.start (ground (arith, longer, below, s.key)) in
            cc (free m.vmarea.start (omega arith) i.ordered)

next_not-IsFree :
    (mm : List (ℕ × VirtualMemoryMap)) (m : VirtualMemoryMap)
    → Chain 0 mm
    → overlaps_next m (BTreeMap.first_from m.vmarea.start mm) ≡ true
    → ¬ IsFree m.vmarea.start m.vmarea.end mm
unfolding overlaps_next
next_not-IsFree mm m c over free = by_next (BTreeMap.first_from m.vmarea.start mm) refl
  where
    by_next : (o : Option (ℕ × VirtualMemoryMap)) → BTreeMap.first_from m.vmarea.start mm ≡ o → ⊥
    by_next none e = let q : false ≡ true = (rw (e, overlaps_next) at over) in cc
    by_next (some (k, n)) e = contradicts (first_from-get 0 m.vmarea.start k mm n c e)
      where
        earlier : ltb n.vmarea.start m.vmarea.end ≡ true
        earlier = rw (e, overlaps_next) at over

        contradicts : (BTreeMap.get k mm ≡ some n) × (m.vmarea.start ≤ k) × (0 ≤ k) → ⊥
        contradicts (g, from, _) =
            let s = get-Stands 0 k mm n c g in
            let covered : mapped n.vmarea.start mm ≡ some n =
              s.covers n.vmarea.start (ground (arith, s.is_map.ordered)) in
            cc (free n.vmarea.start (omega (arith, s.key)) (omega (tests, earlier)))

-- What `add_memory_map` returned.
abbrev pub Added : Manager → VirtualMemoryMap → Manager × Outcome (Unit {0}) → Type 0
Added vm m (vm', ok _) =
    IsMap m
    × IsFree m.vmarea.start m.vmarea.end vm.memmap
    × ((u : ℕ) → mapped u vm'.memmap ≡ (if within m.vmarea u then some m else mapped u vm.memmap))
    × IsValid vm'
Added vm m (vm', err not_aligned) = (is_aligned m ≡ some false) × (vm' ≡ vm)
Added vm m (vm', err overlaps_preceding) =
    (¬ IsFree m.vmarea.start m.vmarea.end vm.memmap) × (vm' ≡ vm)
Added vm m (vm', err overlaps_succeeding) =
    (¬ IsFree m.vmarea.start m.vmarea.end vm.memmap) × (vm' ≡ vm)
Added vm m (vm', err no_mapping) = ⊥
Added vm m (vm', err no_root_table) = ⊥
Added vm m (vm', panics) =
    ((m.vmarea.end < m.vmarea.start) ⊎ (m.pmarea.end < m.pmarea.start)) × (vm' ≡ vm)

put_map-IsValid :
    (vm : Manager) (m : VirtualMemoryMap)
    → IsValid vm
    → IsMap m
    → IsFree m.vmarea.start m.vmarea.end vm.memmap
    → IsValid (put_map vm m)
put_map-IsValid vm m v i free = record {
  chain = insert-Chain 0 vm.memmap m v.chain i (omega arith) free;
  cached = tt;
}

is_aligned-none :
    (m : VirtualMemoryMap)
    → is_aligned m ≡ none
    → (m.vmarea.end < m.vmarea.start) ⊎ (m.pmarea.end < m.pmarea.start)
unfolding is_aligned size_aligned size
is_aligned-none m h = ground arith

-- `add_memory_map` accepts a page-aligned map exactly if no address of its area is mapped yet. Then
-- its area is mapped to it and every other address as before, and the invariant stays. Each
-- refusal changes nothing; it names an unaligned map, or an overlap that is really there; an area
-- that runs backwards panics.
pub add_memory_map-Added :
    (vm : Manager) (m : VirtualMemoryMap) → IsValid vm → Added vm m (add_memory_map vm m)
unfolding add_memory_map
add_memory_map-Added vm m v = by_alignment (is_aligned m) refl
  where
    accepted :
        is_aligned m ≡ some true
        → overlaps_prev m (BTreeMap.last_below m.vmarea.start vm.memmap) ≡ false
        → overlaps_next m (BTreeMap.first_from m.vmarea.start vm.memmap) ≡ false
        → Added vm m (put_map vm m, ok tt)
    accepted e p n =
        let i = is_aligned-IsMap m e in
        let free = IsFree-of_neighbours 0 vm.memmap m v.chain i p n in
        (i, free, λ u. mapped-insert 0 u vm.memmap m v.chain i free, put_map-IsValid vm m v i free)

    by_alignment : (o : Option Bool) → is_aligned m ≡ o → Added vm m (add_memory_map vm m)
    by_alignment none e = rw (e, add_memory_map) (is_aligned-none m e, refl)
    by_alignment (some false) e = rw (e, add_memory_map) (e, refl)
    by_alignment (some true) e =
        elim (Bool-cases (overlaps_prev m (BTreeMap.last_below m.vmarea.start vm.memmap))) [
          | inl p ↦
              rw (e, p, add_memory_map)
                (prev_not-IsFree vm.memmap m v.chain (is_aligned-IsMap m e) p, refl)
          | inr p ↦
              elim (Bool-cases (overlaps_next m (BTreeMap.first_from m.vmarea.start vm.memmap))) [
                | inl n ↦ rw (e, p, n, add_memory_map) (next_not-IsFree vm.memmap m v.chain n, refl)
                | inr n ↦ rw (e, p, n, add_memory_map) (accepted e p n)
              ]
        ]
