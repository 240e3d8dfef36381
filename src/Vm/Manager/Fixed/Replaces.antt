-- ===== src/Vm/Manager/Fixed/Replaces.antt =====
-- `add_memory_map_fixed` as a whole: the new map owns its area, every other address keeps what it
-- was mapped to, and what was overwritten is handed back.
use scarlet.Common.{
  if◌then◌else◌, le→leb, Bool-cases, Option-cases, is_some, and_true, All, ℕ, ◌≡◌, refl, sym, ap,
  ◌∙◌, inl, inr, Bool, true, false, Option, none, some, List, [], ◌∷◌, arith,
}
use scarlet.Common.BTreeMap
use scarlet.Vm.Area.{VirtualMemoryMap, within}
use scarlet.Vm.Manager.{
  Manager, not_aligned, Outcome, ok, err, panics, is_aligned, unmap_range_from_mmu,
}
use scarlet.Vm.Manager.Inv.{IsMap, Chain, mapped, IsFree, insert-Chain, mapped-insert, IsValid}
use scarlet.Vm.Manager.Add.{is_aligned-IsMap}
use scarlet.Vm.Manager.Remove.{unmap_range-state}
use scarlet.Vm.Manager.Fixed.{
  Carved, insert_all, carved_of, unmap_all, finish, add_memory_map_fixed,
}
use scarlet.Vm.Manager.Fixed.Pieces.{target_of, first_in, or_else}
use scarlet.Vm.Manager.Fixed.Disjoint.{Disjoint}
use scarlet.Vm.Manager.Fixed.Carve.{none_of, or_else-none, Carving}
use scarlet.Vm.Manager.Fixed.Keys.{carved_of-Carving}

-- Maps that share no address, put where nothing is mapped.
insert_all-Chain :
    (ps : List VirtualMemoryMap) (mm : List (ℕ × VirtualMemoryMap))
    → Chain 0 mm
    → All IsMap ps
    → Disjoint ps
    → ((v : ℕ) → is_some (first_in v ps) ≡ true → mapped v mm ≡ none)
    → Chain 0 (insert_all ps mm)
      × ((v : ℕ) → mapped v (insert_all ps mm) ≡ or_else (first_in v ps) (mapped v mm))
unfolding insert_all
insert_all-Chain [] mm c i d free = (c, λ v. refl)
insert_all-Chain (p ∷ ps) mm c i d free =
    let rest =
      insert_all-Chain ps (BTreeMap.insert p.vmarea.start p mm)
        (insert-Chain 0 mm p c i.0 (omega arith) p_free) i.1 d.1 ps_free in
    (rest.0, λ v. rest.1 v ∙ at_each v)
  where
    p_free : IsFree p.vmarea.start p.vmarea.end mm
    p_free v lo hi = free v (rw (and_true _ _ (le→leb _ _ lo) (le→leb _ _ hi)) refl)

    now_mapped :
        (v : ℕ)
        → mapped v (BTreeMap.insert p.vmarea.start p mm)
          ≡ (if within p.vmarea v then some p else mapped v mm)
    now_mapped v = mapped-insert 0 v mm p c i.0 p_free

    ps_free :
        (v : ℕ)
        → is_some (first_in v ps) ≡ true
        → mapped v (BTreeMap.insert p.vmarea.start p mm) ≡ none
    ps_free v h = elim (Bool-cases (within p.vmarea v)) [
      | inl here ↦ (let n : first_in v ps ≡ none = d.0 v here in cc (h, ap is_some n))
      | inr past ↦ now_mapped v ∙ (rw past (free v (rw past h)))
    ]

    at_each :
        (v : ℕ)
        → or_else (first_in v ps) (mapped v (BTreeMap.insert p.vmarea.start p mm))
          ≡ or_else (first_in v (p ∷ ps)) (mapped v mm)
    at_each v = elim (Bool-cases (within p.vmarea v)) [
      | inl here ↦ rw (now_mapped v, d.0 v here, here)
      | inr past ↦ rw (now_mapped v, past)
    ]

module _ (has_root is_asid_used : ℕ → Bool) where
  unmap_all-state :
      (ps : List VirtualMemoryMap) (vm : Manager)
      → ((unmap_all has_root is_asid_used ps vm).memmap ≡ vm.memmap)
        × ((unmap_all has_root is_asid_used ps vm).last_search_cache ≡ vm.last_search_cache)
  unfolding unmap_all
  unmap_all-state [] vm = (refl, refl)
  unmap_all-state (p ∷ ps) vm =
      let after = unmap_range_from_mmu has_root is_asid_used vm p.vmarea.start p.vmarea.end in
      let one = unmap_range-state has_root is_asid_used vm p.vmarea.start p.vmarea.end in
      let rest = unmap_all-state ps after in (rest.0 ∙ one.0, rest.1 ∙ one.1)

  -- What `add_memory_map_fixed` returned.
  abbrev pub Replaced :
      Manager → VirtualMemoryMap → Manager × Outcome (List VirtualMemoryMap) → Type 0
  Replaced vm m (vm', ok over) =
      IsMap m
      × ((u : ℕ) → within m.vmarea u ≡ true → mapped u vm'.memmap ≡ some m)
      × ((u : ℕ)
          → within m.vmarea u ≡ false
          → target_of u (mapped u vm'.memmap) ≡ target_of u (mapped u vm.memmap))
      × ((u : ℕ)
          → within m.vmarea u ≡ true
          → target_of u (first_in u over) ≡ target_of u (mapped u vm.memmap))
      × IsValid vm'
  Replaced vm m (vm', err e) = (e ≡ not_aligned) × (is_aligned m ≡ some false) × (vm' ≡ vm)
  Replaced vm m (vm', panics) = (is_aligned m ≡ none) × (vm' ≡ vm)

  finish-Replaced :
      (vm : Manager) (m : VirtualMemoryMap) (s : Carved)
      → IsMap m
      → Carving m vm.memmap s []
      → Replaced vm m (finish has_root is_asid_used vm m s)
  unfolding finish
  finish-Replaced vm m s im c = (
    im,
    λ u h. final u ∙ (rw h refl),
    outside,
    λ u h. sym (c.inside u h ∙ (rw (tree_free u h) refl)),
    record {
      chain = rw tree_same (insert-Chain 0 inserted m kept.0 im (omega arith) m_free);
      cached = rw (unmap_all-state s.overwritten start).1 tt;
    },
  )
    where
      start : Manager
      start = record vm { memmap = s.tree; last_search_cache = none }

      inserted : List (ℕ × VirtualMemoryMap)
      inserted = insert_all s.to_add s.tree

      tree_same : (unmap_all has_root is_asid_used s.overwritten start).memmap ≡ s.tree
      tree_same = (unmap_all-state s.overwritten start).0

      kept :
          Chain 0 inserted
          × ((v : ℕ) → mapped v inserted ≡ or_else (first_in v s.to_add) (mapped v s.tree))
      kept = insert_all-Chain s.to_add s.tree c.chain c.maps c.disjoint (λ v h. (c.apart v h).0)

      tree_free : (v : ℕ) → within m.vmarea v ≡ true → mapped v s.tree ≡ none
      tree_free v h = elim (Option-cases (mapped v s.tree)) [
        | inl e ↦ e
        | inr (w, e) ↦ cc (c.left v w h e)
      ]

      parts_free : (v : ℕ) → within m.vmarea v ≡ true → first_in v s.to_add ≡ none
      parts_free v h = elim (Bool-cases (is_some (first_in v s.to_add))) [
        | inl e ↦ cc (h, (c.apart v e).1)
        | inr e ↦ none_of (first_in v s.to_add) e
      ]

      m_free : IsFree m.vmarea.start m.vmarea.end inserted
      m_free v lo hi =
          let h : within m.vmarea v ≡ true = and_true _ _ (le→leb _ _ lo) (le→leb _ _ hi) in
          kept.1 v ∙ (rw (parts_free v h, tree_free v h) refl)

      final :
          (v : ℕ)
          → mapped v (finish has_root is_asid_used vm m s).0.memmap
            ≡ (if within m.vmarea v then some m else mapped v inserted)
      final v = rw tree_same (mapped-insert 0 v inserted m kept.0 im m_free)

      either_way :
          (v : ℕ)
          → or_else (first_in v s.to_add) (mapped v s.tree)
            ≡ or_else (mapped v s.tree) (first_in v s.to_add)
      either_way v = elim (Bool-cases (is_some (first_in v s.to_add))) [
        | inl e ↦ rw (c.apart v e).0 (or_else-none (first_in v s.to_add))
        | inr e ↦ rw (none_of (first_in v s.to_add) e) (sym (or_else-none (mapped v s.tree)))
      ]

      outside :
          (u : ℕ)
          → within m.vmarea u ≡ false
          → target_of u (mapped u (finish has_root is_asid_used vm m s).0.memmap)
            ≡ target_of u (mapped u vm.memmap)
      outside u h =
          ap (target_of u) (final u ∙ (rw h (kept.1 u ∙ either_way u))) ∙ sym (c.outside u h)

  -- `add_memory_map_fixed` accepts every page-aligned map. Afterwards its whole area is mapped to
  -- it; every address outside the area is mapped to the same physical address, with the same
  -- permissions, sharing and owner, as before; the parts returned map each address of the area as
  -- it was mapped before; and the invariant stays. It refuses an unaligned map, and panics at an
  -- area that runs backwards, changing nothing.
  pub add_memory_map_fixed-Replaced :
      (vm : Manager) (m : VirtualMemoryMap)
      → IsValid vm
      → Replaced vm m (add_memory_map_fixed has_root is_asid_used vm m)
  unfolding add_memory_map_fixed
  add_memory_map_fixed-Replaced vm m v = by_alignment (is_aligned m) refl
    where
      by_alignment :
          (o : Option Bool)
          → is_aligned m ≡ o
          → Replaced vm m (add_memory_map_fixed has_root is_asid_used vm m)
      by_alignment none e = rw (e, add_memory_map_fixed) (e, refl)
      by_alignment (some false) e = rw (e, add_memory_map_fixed) (refl, e, refl)
      by_alignment (some true) e =
          rw (e, add_memory_map_fixed)
            (finish-Replaced vm m (carved_of m vm.memmap) (is_aligned-IsMap m e)
              (carved_of-Carving m vm.memmap (is_aligned-IsMap m e) v.chain))
