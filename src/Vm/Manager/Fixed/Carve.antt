-- ===== src/Vm/Manager/Fixed/Carve.antt =====
-- The loop of `add_memory_map_fixed` over the overlapping keys: what it takes out of the tree is
-- found again in the parts that it keeps and in the parts that it returns.
use scarlet.Common.{
  ◌==◌, ==_iff, Bool-cases, is_some, All, contains, ℕ, ◌≤◌, ◌≡◌, refl, sym, ap, ◌∙◌, inl, inr, Bool,
  true, false, not, ◌&&◌, Option, none, some, List, ◌∷◌, ◌++◌, arith,
}
use scarlet.Common.BTreeMap
use scarlet.Vm.Area.{VirtualMemoryMap, within}
use scarlet.Vm.Manager.Inv.{
  IsMap, Chain, mapped, Stands, get-Stands, remove-Chain, mapped-remove, mapped-get, get-remove,
}
use scarlet.Vm.Manager.Fixed.{overlaps, overwritten_part, kept_parts, Carved, carve_key}
use scarlet.Vm.Manager.Fixed.Pieces.{
  target_of, first_in, or_else, first_in-append, kept_parts-holds, kept_parts-target,
  overwritten_part-holds, overwritten_part-target,
}
use scarlet.Vm.Manager.Fixed.Disjoint.{
  Disjoint, All-append, Disjoint-append, kept_parts-IsMap, overwritten_part-IsMap,
  kept_parts-Disjoint,
}

pub none_of {ℓ} : {A : Type ℓ} (o : Option A) → is_some o ≡ false → o ≡ none
none_of none h = refl
none_of (some a) h = cc

pub or_else-none {ℓ} : {A : Type ℓ} (o : Option A) → or_else o none ≡ o
or_else-none none = refl
or_else-none (some a) = refl

and_left : (a b : Bool) → (a && b) ≡ true → a ≡ true
and_left true b h = refl
and_left false b h = h

and_right : (a b : Bool) → (a && b) ≡ true → b ≡ true
and_right true b h = h
and_right false b h = cc

not-true : (a : Bool) → not a ≡ true → a ≡ false
not-true true h = cc
not-true false h = refl

-- What holds of the loop's state while the keys `ks` are left, the tree having been `mm`.
pub record Carving (m : VirtualMemoryMap) (mm : List (ℕ × VirtualMemoryMap)) (s : Carved)
    (ks : List ℕ) : Type 0 where
  pub chain : Chain 0 s.tree
  pub still :
      (k : ℕ) (w : VirtualMemoryMap) → BTreeMap.get k s.tree ≡ some w → BTreeMap.get k mm ≡ some w
  pub outside :
      (v : ℕ)
      → within m.vmarea v ≡ false
      → target_of v (mapped v mm) ≡ target_of v (or_else (mapped v s.tree) (first_in v s.to_add))
  pub inside :
      (v : ℕ)
      → within m.vmarea v ≡ true
      → target_of v (mapped v mm)
        ≡ target_of v (or_else (mapped v s.tree) (first_in v s.overwritten))
  pub apart :
      (v : ℕ)
      → is_some (first_in v s.to_add) ≡ true
      → (mapped v s.tree ≡ none) × (within m.vmarea v ≡ false)
  pub gone : (v : ℕ) → is_some (first_in v s.overwritten) ≡ true → mapped v s.tree ≡ none
  pub maps : All IsMap s.to_add
  pub taken_maps : All IsMap s.overwritten
  pub disjoint : Disjoint s.to_add
  pub left :
      (v : ℕ) (w : VirtualMemoryMap)
      → within m.vmarea v ≡ true
      → mapped v s.tree ≡ some w
      → contains w.vmarea.start ks ≡ true

module _ (m : VirtualMemoryMap) (mm : List (ℕ × VirtualMemoryMap)) (im : IsMap m) (s : Carved)
    (k : ℕ) (ks : List ℕ) (c : Carving m mm s (k ∷ ks)) (e : VirtualMemoryMap)
    (g : BTreeMap.get k s.tree ≡ some e) (me : overlaps m e ≡ true) where
  es : Stands k 0 e s.tree
  es = get-Stands 0 k s.tree e c.chain g

  gone_from_tree : (v : ℕ) → within e.vmarea v ≡ true → mapped v (BTreeMap.remove k s.tree) ≡ none
  gone_from_tree v p = mapped-remove 0 k v s.tree e c.chain g ∙ rw p refl

  kept_in_tree :
      (v : ℕ) → within e.vmarea v ≡ false → mapped v (BTreeMap.remove k s.tree) ≡ mapped v s.tree
  kept_in_tree v p = mapped-remove 0 k v s.tree e c.chain g ∙ rw p refl

  still_none : (v : ℕ) → mapped v s.tree ≡ none → mapped v (BTreeMap.remove k s.tree) ≡ none
  still_none v h = mapped-remove 0 k v s.tree e c.chain g ∙ ground (arith, h)

  -- What the tree covers is not yet in the parts.
  not_yet :
      (v : ℕ) (ps : List VirtualMemoryMap)
      → within e.vmarea v ≡ true
      → (is_some (first_in v ps) ≡ true → mapped v s.tree ≡ none)
      → first_in v ps ≡ none
  not_yet v ps p h = elim (Bool-cases (is_some (first_in v ps))) [
    | inl there ↦ cc (h there, es.covers v p)
    | inr free ↦ none_of (first_in v ps) free
  ]

  part_none :
      (v : ℕ) (ps : List VirtualMemoryMap)
      → is_some (first_in v ps) ≡ (within e.vmarea v && within m.vmarea v)
      → within e.vmarea v ≡ false
      → first_in v ps ≡ none
  part_none v ps h p = none_of (first_in v ps) (h ∙ rw p refl)

  kept_none : (v : ℕ) → within e.vmarea v ≡ false → first_in v (kept_parts m e) ≡ none
  kept_none v p =
      none_of (first_in v (kept_parts m e)) (kept_parts-holds m e im es.is_map me v ∙ rw p refl)

  outside_after :
      (v : ℕ)
      → within m.vmarea v ≡ false
      → target_of v (mapped v mm)
        ≡ target_of v (
            or_else (mapped v (BTreeMap.remove k s.tree)) (first_in v (s.to_add ++ kept_parts m e)))
  outside_after v h = elim (Bool-cases (within e.vmarea v)) [
    | inl p ↦
        rw
          (
            gone_from_tree v p,
            first_in-append v s.to_add (kept_parts m e),
            not_yet v s.to_add p (λ q. (c.apart v q).0),
          )
          (c.outside v h ∙ (rw (es.covers v p) (sym (kept_parts-target m e im es.is_map me v p h))))
    | inr p ↦
        rw (kept_in_tree v p, first_in-append v s.to_add (kept_parts m e), kept_none v p)
          (c.outside v h
            ∙ ap (λ o. target_of v (or_else (mapped v s.tree) o))
                (sym (or_else-none (first_in v s.to_add))))
  ]

  inside_after :
      (v : ℕ)
      → within m.vmarea v ≡ true
      → target_of v (mapped v mm)
        ≡ target_of v (
            or_else
              (mapped v (BTreeMap.remove k s.tree))
              (first_in v (s.overwritten ++ overwritten_part m e)))
  inside_after v h = elim (Bool-cases (within e.vmarea v)) [
    | inl p ↦
        rw
          (
            gone_from_tree v p,
            first_in-append v s.overwritten (overwritten_part m e),
            not_yet v s.overwritten p (c.gone v),
          )
          (c.inside v h
            ∙ (rw (es.covers v p) (sym (overwritten_part-target m e im es.is_map me v p h))))
    | inr p ↦
        rw
          (
            kept_in_tree v p,
            first_in-append v s.overwritten (overwritten_part m e),
            part_none v (overwritten_part m e) (overwritten_part-holds m e im es.is_map me v) p,
          )
          (c.inside v h
            ∙ ap (λ o. target_of v (or_else (mapped v s.tree) o))
                (sym (or_else-none (first_in v s.overwritten))))
  ]

  apart_after :
      (v : ℕ)
      → is_some (first_in v (s.to_add ++ kept_parts m e)) ≡ true
      → (mapped v (BTreeMap.remove k s.tree) ≡ none) × (within m.vmarea v ≡ false)
  apart_after v h = elim (Bool-cases (is_some (first_in v s.to_add))) [
    | inl old ↦ (still_none v (c.apart v old).0, (c.apart v old).1)
    | inr fresh ↦
        let q : (within e.vmarea v && not (within m.vmarea v)) ≡ true =
          sym (kept_parts-holds m e im es.is_map me v)
          ∙ (rw (first_in-append v s.to_add (kept_parts m e), none_of (first_in v s.to_add) fresh)
              at h) in
        (gone_from_tree v (and_left _ _ q), not-true _ (and_right _ _ q))
  ]

  gone_after :
      (v : ℕ)
      → is_some (first_in v (s.overwritten ++ overwritten_part m e)) ≡ true
      → mapped v (BTreeMap.remove k s.tree) ≡ none
  gone_after v h = elim (Bool-cases (is_some (first_in v s.overwritten))) [
    | inl old ↦ still_none v (c.gone v old)
    | inr fresh ↦
        let q : (within e.vmarea v && within m.vmarea v) ≡ true =
          sym (overwritten_part-holds m e im es.is_map me v)
          ∙ (rw
              (
                first_in-append v s.overwritten (overwritten_part m e),
                none_of (first_in v s.overwritten) fresh,
              )
              at h) in
        gone_from_tree v (and_left _ _ q)
  ]

  Disjoint-after : Disjoint (s.to_add ++ kept_parts m e)
  Disjoint-after =
      Disjoint-append s.to_add (kept_parts m e) c.disjoint (kept_parts-Disjoint m e im es.is_map me)
        λ v h. elim (Bool-cases (within e.vmarea v)) [
          | inl p ↦ cc ((c.apart v h).0, es.covers v p)
          | inr p ↦ kept_none v p
        ]

  left_after :
      (v : ℕ) (w : VirtualMemoryMap)
      → within m.vmarea v ≡ true
      → mapped v (BTreeMap.remove k s.tree) ≡ some w
      → contains w.vmarea.start ks ≡ true
  left_after v w h p = elim (Bool-cases (within e.vmarea v)) [
    | inl q ↦ cc (p, gone_from_tree v q)
    | inr q ↦ elim (Bool-cases (w.vmarea.start == k)) [
      | inr other ↦ rw other at (c.left v w h (sym (kept_in_tree v q) ∙ p))
      | inl same ↦
          same_key q (mapped-get 0 v s.tree w c.chain (sym (kept_in_tree v q) ∙ p))
            ((==_iff w.vmarea.start k).0 same)
    ]
  ]
    where
      same_key :
          within e.vmarea v ≡ false
          → (BTreeMap.get w.vmarea.start s.tree ≡ some w)
            × (within w.vmarea v ≡ true)
            × (0 ≤ w.vmarea.start)
          → w.vmarea.start ≡ k
          → contains w.vmarea.start ks ≡ true
      same_key q (gw, inw, _) same =
          let g' : some w ≡ some e = sym gw ∙ ap (λ j. BTreeMap.get j s.tree) same ∙ g in
          let we : w ≡ e = cc g' in
          let bad : within e.vmarea v ≡ true = rw (← we) inw in cc (q, bad)

  pub carve_found : Carving m mm (carve_key m s k) ks
  unfolding carve_key
  carve_found =
      rw (g, carve_key)
        (record {
          chain = remove-Chain 0 k s.tree c.chain;
          still = λ j w h. c.still j w (get-remove 0 k j s.tree w c.chain h);
          outside = outside_after;
          inside = inside_after;
          apart = apart_after;
          gone = gone_after;
          maps = All-append s.to_add (kept_parts m e) c.maps (kept_parts-IsMap m e im es.is_map me);
          taken_maps =
              All-append s.overwritten (overwritten_part m e) c.taken_maps
                (overwritten_part-IsMap m e im es.is_map me);
          disjoint = Disjoint-after;
          left = left_after;
        })
