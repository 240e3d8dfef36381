-- ===== src/Vm/Manager/Fixed/Keys.antt =====
-- The keys that `add_memory_map_fixed` collects, and its loop over all of them.
use scarlet.Common.{
  ◌==◌, ==_iff, ==_refl, ==_ne, Bool-cases, Option-cases, contains, ℕ, ◌+◌, ◌<◌, ◌≡◌, refl, sym, ap,
  subst, ◌∙◌, ◌⊎◌, inl, inr, true, false, ◌||◌, none, some, List, [], ◌∷◌, arith,
}
use scarlet.Common.BTreeMap
use scarlet.Vm.Area.{VirtualMemoryMap, within}
use scarlet.Vm.Manager.Inv.{IsMap, Chain, mapped, mapped-get}
use scarlet.Vm.Manager.Fixed.{overlaps, overlapping_keys, Carved, carve_key, carve_keys, carved_of}
use scarlet.Vm.Manager.Fixed.Pieces.{target_of}
use scarlet.Vm.Manager.Fixed.Carve.{or_else-none, Carving, carve_found}

overlapping_keys_below :
    (lo k : ℕ) (m : VirtualMemoryMap) (mm : List (ℕ × VirtualMemoryMap))
    → Chain lo mm
    → k < lo
    → contains k (overlapping_keys m mm) ≡ false
unfolding overlapping_keys
overlapping_keys_below lo k m [] c h = refl
overlapping_keys_below lo k m ((j, x) ∷ r) (e, le, i, c) h = elim (Bool-cases (overlaps m x)) [
  | inl o ↦
      rw (o, ==_ne k j (omega arith))
        (overlapping_keys_below (x.vmarea.end + 1) k m r c (omega (arith, i.ordered)))
  | inr o ↦ rw o (overlapping_keys_below (x.vmarea.end + 1) k m r c (omega (arith, i.ordered)))
]

-- The keys collected are those of maps that overlap,
overlapping_keys-overlap :
    (lo k : ℕ) (m e : VirtualMemoryMap) (mm : List (ℕ × VirtualMemoryMap))
    → Chain lo mm
    → contains k (overlapping_keys m mm) ≡ true
    → BTreeMap.get k mm ≡ some e
    → overlaps m e ≡ true
unfolding overlapping_keys BTreeMap.get
overlapping_keys-overlap lo k m e [] c h g = cc
overlapping_keys-overlap lo k m e ((j, x) ∷ r) (s, le, i, c) h g = elim (Bool-cases (j == k)) [
  | inl same ↦ elim (Bool-cases (overlaps m x)) [
    | inl o ↦ subst (λ y. overlaps m y ≡ true) (taken same) o
    | inr o ↦
        (let b : contains k (overlapping_keys m r) ≡ true = rw o at h in
          cc (
            b,
            overlapping_keys_below (x.vmarea.end + 1) k m r c
                (omega (arith, (==_iff j k).0 same, i.ordered)),
          ))
  ]
  | inr other ↦
      overlapping_keys-overlap (x.vmarea.end + 1) k m e r c (in_rest other) (rw other at g)
]
  where
    taken : (j == k) ≡ true → x ≡ e
    taken same = let q : some x ≡ some e = rw same at g in cc

    in_rest : (j == k) ≡ false → contains k (overlapping_keys m r) ≡ true
    in_rest other = elim (Bool-cases (overlaps m x)) [
      | inl o ↦
          (let b : (k == j || contains k (overlapping_keys m r)) ≡ true = rw o at h in
            ground (arith, b, other))
      | inr o ↦ rw o at h
    ]

-- and of all of them.
overlap-overlapping_keys :
    (k : ℕ) (m e : VirtualMemoryMap) (mm : List (ℕ × VirtualMemoryMap))
    → BTreeMap.get k mm ≡ some e
    → overlaps m e ≡ true
    → contains k (overlapping_keys m mm) ≡ true
unfolding overlapping_keys BTreeMap.get
overlap-overlapping_keys k m e [] g o = cc
overlap-overlapping_keys k m e ((j, x) ∷ r) g o = elim (Bool-cases (j == k)) [
  | inl same ↦ rw (subst (λ y. overlaps m y ≡ true) (sym (taken same)) o) (ground (arith, same))
  | inr other ↦ elim (Bool-cases (overlaps m x)) [
    | inl ox ↦ rw ox (ground (arith, overlap-overlapping_keys k m e r (rw other at g) o))
    | inr ox ↦ rw ox (overlap-overlapping_keys k m e r (rw other at g) o)
  ]
]
  where
    taken : (j == k) ≡ true → x ≡ e
    taken same = let q : some x ≡ some e = rw same at g in cc

carve_missing :
    (m : VirtualMemoryMap) (mm : List (ℕ × VirtualMemoryMap)) (s : Carved) (k : ℕ) (ks : List ℕ)
    → Carving m mm s (k ∷ ks)
    → BTreeMap.get k s.tree ≡ none
    → Carving m mm (carve_key m s k) ks
unfolding carve_key
carve_missing m mm s k ks c g =
    rw (g, carve_key)
      (record {
        chain = c.chain;
        still = c.still;
        outside = c.outside;
        inside = c.inside;
        apart = c.apart;
        gone = c.gone;
        maps = c.maps;
        taken_maps = c.taken_maps;
        disjoint = c.disjoint;
        left = still_left;
      })
  where
    still_left :
        (v : ℕ) (w : VirtualMemoryMap)
        → within m.vmarea v ≡ true
        → mapped v s.tree ≡ some w
        → contains w.vmarea.start ks ≡ true
    still_left v w h p = elim (Bool-cases (w.vmarea.start == k)) [
      | inr other ↦ rw other at (c.left v w h p)
      | inl same ↦
          (let gw = (mapped-get 0 v s.tree w c.chain p).0 in
            let g' : BTreeMap.get k s.tree ≡ some w =
              ap (λ j. BTreeMap.get j s.tree) (sym ((==_iff w.vmarea.start k).0 same)) ∙ gw in
            cc (g, g'))
    ]

carve_keys-Carving :
    (m : VirtualMemoryMap) (mm : List (ℕ × VirtualMemoryMap)) (s : Carved) (ks : List ℕ)
    → IsMap m
    → ((k : ℕ) (e : VirtualMemoryMap)
        → contains k ks ≡ true
        → BTreeMap.get k mm ≡ some e
        → overlaps m e ≡ true)
    → Carving m mm s ks
    → Carving m mm (carve_keys m s ks) []
unfolding carve_keys
carve_keys-Carving m mm s [] im meets c = c
carve_keys-Carving m mm s (k ∷ ks) im meets c =
    carve_keys-Carving m mm (carve_key m s k) ks im (λ j e h g. meets j e (ground (arith, h)) g)
      (stepped (Option-cases (BTreeMap.get k s.tree)))
  where
    stepped :
        (BTreeMap.get k s.tree ≡ none) ⊎ ((e : VirtualMemoryMap) × (BTreeMap.get k s.tree ≡ some e))
        → Carving m mm (carve_key m s k) ks
    stepped (inl g) = carve_missing m mm s k ks c g
    stepped (inr (e, g)) =
        carve_found m mm im s k ks c e g (meets k e (ground (arith, ==_refl k)) (c.still k e g))

pub carved_of-Carving :
    (m : VirtualMemoryMap) (mm : List (ℕ × VirtualMemoryMap))
    → IsMap m
    → Chain 0 mm
    → Carving m mm (carved_of m mm) []
unfolding carved_of
carved_of-Carving m mm im c =
    carve_keys-Carving m mm _ (overlapping_keys m mm) im
      (λ k e h g. overlapping_keys-overlap 0 k m e mm c h g)
      (record {
        chain = c;
        still = λ k w h. h;
        outside = λ v h. ap (target_of v) (sym (or_else-none (mapped v mm)));
        inside = λ v h. ap (target_of v) (sym (or_else-none (mapped v mm)));
        apart = λ v h. cc;
        gone = λ v h. cc;
        maps = tt;
        taken_maps = tt;
        disjoint = tt;
        left = all_keys;
      })
  where
    all_keys :
        (v : ℕ) (w : VirtualMemoryMap)
        → within m.vmarea v ≡ true
        → mapped v mm ≡ some w
        → contains w.vmarea.start (overlapping_keys m mm) ≡ true
    all_keys v w h p =
        let s = mapped-get 0 v mm w c p in
        overlap-overlapping_keys w.vmarea.start m w mm s.0 (ground (arith, h, s.1))
