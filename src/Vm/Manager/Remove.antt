-- ===== src/Vm/Manager/Remove.antt =====
-- `remove_memory_map_by_addr`: what is taken out, what stays, and which pages the MMU forgets.
use scarlet.Common.{
  ◌==◌, if◌then◌else◌, ==_iff, ==_refl, Bool-cases, is_some, usize_mod, ℕ, zero, suc, ◌+◌, ◌-◌, ◌*◌,
  ◌/◌, ◌%◌, ◌≤◌, ◌<◌, ◌≡◌, refl, subst, ◌∙◌, inl, inr, Bool, true, false, ◌&&◌, ◌||◌, Option, none,
  some, List, [], ◌∷◌, arith,
}
use scarlet.Common.BTreeMap
use scarlet.Vm.Area.{VirtualMemoryMap, add_usize, within}
use scarlet.Vm.Manager.{
  MmuCall, map_page, unmap_page, free_space, Manager, page_size, find_memory_map_with_cache_update,
  page_base, unmap_loop, num_pages, unmap_range_from_mmu, drop_cached, take_map, remove_found,
  remove_memory_map_by_addr,
}
use scarlet.Vm.Manager.Search.{Found, find_memory_map_with_cache_update-Found}
use scarlet.Vm.Manager.Inv.{
  Chain, mapped, get-Stands, remove-Chain, mapped-remove, CacheIn, IsValid,
}

abbrev is_unmap : ℕ → ℕ → MmuCall → Bool
is_unmap asid page (map_page _ _ _ _) = false
is_unmap asid page (unmap_page a p) = a == asid && p == page
is_unmap asid page (free_space _) = false

-- The log holds a call that unmaps the page.
abbrev pub unmapped : ℕ → ℕ → List MmuCall → Bool
unmapped asid page [] = false
unmapped asid page (c ∷ log) = is_unmap asid page c || unmapped asid page log

unmap_loop-keeps :
    (asid start end i n page : ℕ) (log : List MmuCall)
    → unmapped asid page log ≡ true
    → unmapped asid page (unmap_loop asid start end i n log) ≡ true
unfolding unmap_loop
unmap_loop-keeps asid start end i zero page log h = h
unmap_loop-keeps asid start end i (suc n) page log h =
    unmap_loop-keeps asid start end (suc i) n page _ (ground arith)

unmap_loop-unmaps :
    (asid start end i n k : ℕ) (log : List MmuCall)
    → i ≤ k
    → k < i + n
    → page_base start + k * page_size ≤ end
    → end < usize_mod
    → unmapped asid (page_base start + k * page_size) (unmap_loop asid start end i n log) ≡ true
unfolding unmap_loop
unmap_loop-unmaps asid start end i zero k log lo hi le small = absurd (omega arith)
unmap_loop-unmaps asid start end i (suc n) k log lo hi le small = elim (Bool-cases (k == i)) [
  | inl here ↦ unmap_loop-keeps asid start end (suc i) n (page_base start + k * page_size) _ (
      rw (← (==_iff k i).0 here, no_wrap)
        (ground (arith, le, ==_refl asid, ==_refl (page_base start + k * page_size))))
  | inr later ↦
      unmap_loop-unmaps asid start end (suc i) n k _ (ground (arith, later)) (omega arith) le small
]
  where
    no_wrap : add_usize (page_base start) (k * page_size) ≡ page_base start + k * page_size
    no_wrap = omega (arith, le, small)

get-remove_ne :
    (k j : ℕ) (mm : List (ℕ × VirtualMemoryMap))
    → (j == k) ≡ false
    → BTreeMap.get j (BTreeMap.remove k mm) ≡ BTreeMap.get j mm
unfolding BTreeMap.get BTreeMap.remove
get-remove_ne k j [] h = refl
get-remove_ne k j ((i, w) ∷ r) h = ground (arith, get-remove_ne k j r h)

-- The area ends in the address space, and the count of its pages does not wrap.
abbrev FewPages : VirtualMemoryMap → Type 0
FewPages m = (m.vmarea.end < usize_mod) × (m.vmarea.end - m.vmarea.start + page_size < usize_mod)

module _ (has_root is_asid_used : ℕ → Bool) where
  -- Every page that meets the range is unmapped.
  pub unmap_range_from_mmu-unmaps :
      (vm : Manager) (start end v : ℕ)
      → has_root vm.asid ≡ true
      → start % page_size ≡ 0
      → start ≤ v
      → v ≤ end
      → end < usize_mod
      → end - start + page_size < usize_mod
      → unmapped vm.asid (page_base v) (unmap_range_from_mmu has_root is_asid_used vm start end).mmu
        ≡ true
  unfolding unmap_range_from_mmu
  unmap_range_from_mmu-unmaps vm start end v root al lo hi small few = rw root (
      subst (λ p. unmapped vm.asid p (unmap_loop vm.asid start end 0 pages vm.mmu) ≡ true) page_at
        (unmap_loop-unmaps vm.asid start end 0 pages ((v - start) / page_size) vm.mmu (omega arith)
          (omega (arith, few)) (omega arith) small))
    where
      pages : ℕ
      pages = num_pages start end

      page_at : page_base start + (v - start) / page_size * page_size ≡ page_base v
      page_at = omega arith

  pub unmap_range-state :
      (vm : Manager) (start end : ℕ)
      → ((unmap_range_from_mmu has_root is_asid_used vm start end).memmap ≡ vm.memmap)
        × ((unmap_range_from_mmu has_root is_asid_used vm start end).last_search_cache
            ≡ vm.last_search_cache)
  unfolding unmap_range_from_mmu
  unmap_range-state vm start end = elim (Bool-cases (has_root vm.asid)) [
    | inl root ↦ rw root (refl, refl)
    | inr none_there ↦ rw none_there (refl, refl)
  ]

  -- What `remove_memory_map_by_addr` returned.
  abbrev pub Removed : Manager → ℕ → Manager × Option VirtualMemoryMap → Type 0
  Removed vm v (vm', none) = (mapped v vm.memmap ≡ none) × (vm' ≡ vm)
  Removed vm v (vm', some m) =
      (mapped v vm.memmap ≡ some m)
      × ((u : ℕ) → mapped u vm'.memmap ≡ (if within m.vmarea u then none else mapped u vm.memmap))
      × ((u : ℕ)
          → has_root vm.asid ≡ true
          → within m.vmarea u ≡ true
          → unmapped vm.asid (page_base u) vm'.mmu ≡ true)
      × IsValid vm'

  take_map-Removed :
      (w : Manager) (v k : ℕ) (m : VirtualMemoryMap)
      → Chain 0 w.memmap
      → BTreeMap.get k w.memmap ≡ some m
      → mapped v w.memmap ≡ some m
      → CacheIn (BTreeMap.remove k w.memmap) w.last_search_cache
      → FewPages m
      → Removed w v (take_map has_root is_asid_used w k)
  unfolding take_map
  take_map-Removed w v k m c g here cached few =
      rw (g, take_map)
        (
          here,
          λ u.
              rw (unmap_range-state rest m.vmarea.start m.vmarea.end).0
                (mapped-remove 0 k u w.memmap m c g),
          λ u root inside.
              unmap_range_from_mmu-unmaps rest m.vmarea.start m.vmarea.end u root
                (get-Stands 0 k w.memmap m c g).is_map.start_aligned (ground (arith, inside))
                (ground (arith, inside)) few.0 few.1,
          record {
            chain =
                rw (unmap_range-state rest m.vmarea.start m.vmarea.end).0
                  (remove-Chain 0 k w.memmap c);
            cached =
                rw
                  (
                    (unmap_range-state rest m.vmarea.start m.vmarea.end).0,
                    (unmap_range-state rest m.vmarea.start m.vmarea.end).1,
                  )
                  cached;
          },
        )
    where
      rest : Manager
      rest = record w { memmap = BTreeMap.remove k w.memmap }

  -- Dropping the cache of the map that goes leaves a cache that holds in what stays.
  drop_cached-state :
      (w : Manager) (k : ℕ)
      → CacheIn w.memmap w.last_search_cache
      → let w' = drop_cached has_root is_asid_used w k in
        (w'.memmap ≡ w.memmap)
        × (w'.asid ≡ w.asid)
        × CacheIn (BTreeMap.remove k w.memmap) w'.last_search_cache
  unfolding drop_cached
  drop_cached-state w k cached = by_cache w.last_search_cache refl
    where
      by_cache :
          (c : Option (ℕ × ℕ × ℕ))
          → w.last_search_cache ≡ c
          → let w' = drop_cached has_root is_asid_used w k in
            (w'.memmap ≡ w.memmap)
            × (w'.asid ≡ w.asid)
            × CacheIn (BTreeMap.remove k w.memmap) w'.last_search_cache
      by_cache none e = rw (e, drop_cached) (refl, refl, rw e tt)
      by_cache (some (s, t, key)) e = elim (Bool-cases (key == k)) [
        | inl same ↦ rw (e, same, drop_cached) (refl, refl, tt)
        | inr other ↦
            rw (e, other, drop_cached)
              (refl, refl, rw e (kept other (subst (CacheIn w.memmap) e cached)))
      ]
        where
          kept :
              (key == k) ≡ false
              → CacheIn w.memmap (some (s, t, key))
              → CacheIn (BTreeMap.remove k w.memmap) (some (s, t, key))
          kept other (m, g, es, et) = (m, get-remove_ne k key w.memmap other ∙ g, es, et)

  take_map-some :
      (w : Manager) (k : ℕ) {m : VirtualMemoryMap}
      → BTreeMap.get k w.memmap ≡ some m
      → is_some (take_map has_root is_asid_used w k).1 ≡ true
  unfolding take_map
  take_map-some w k g = rw (g, take_map)

  Removed-transport :
      (w vm : Manager) (v : ℕ) (r : Manager × Option VirtualMemoryMap)
      → w.memmap ≡ vm.memmap
      → w.asid ≡ vm.asid
      → is_some r.1 ≡ true
      → Removed w v r
      → Removed vm v r
  Removed-transport w vm v (vm', none) em ea is h = cc
  Removed-transport w vm v (vm', some m) em ea is h =
      (rw (← em) h.0, λ u. rw (← em) (h.1 u), rw (← ea) h.2, h.3)

  remove_found-Removed :
      (vm : Manager) (v : ℕ) (r : Manager × Option ℕ)
      → IsValid vm
      → ((m : VirtualMemoryMap) → mapped v vm.memmap ≡ some m → FewPages m)
      → Found vm v r
      → Removed vm v (remove_found has_root is_asid_used r)
  unfolding remove_found
  remove_found-Removed vm v (vm', none) i few f = f
  remove_found-Removed vm v (vm', some k) i few (m, g, here, em, ea, _, _, _, i') =
      Removed-transport w vm v _ (state.0 ∙ em) (state.1 ∙ ea) found (
        take_map-Removed w v k m (rw (state.0 ∙ em) i.chain) (rw (state.0 ∙ em) g)
          (rw (state.0 ∙ em) here) (rw state.0 state.2) (few m here))
    where
      w : Manager
      w = drop_cached has_root is_asid_used vm' k

      state :
          (w.memmap ≡ vm'.memmap)
          × (w.asid ≡ vm'.asid)
          × CacheIn (BTreeMap.remove k vm'.memmap) w.last_search_cache
      state = drop_cached-state vm' k i'.cached

      found : is_some (take_map has_root is_asid_used w k).1 ≡ true
      found = take_map-some w k {m = m} (rw (state.0 ∙ em) g)

  -- `remove_memory_map_by_addr` takes out the map that covers the address, if there is one: no
  -- address of its area is mapped afterwards, every other address is mapped as before, each page of
  -- the area is unmapped from the page table if there is one, and the invariant stays; with no such
  -- map nothing changes. The map must end in the address space and not span all of it, where the
  -- count of its pages wraps to nothing.
  pub remove_memory_map_by_addr-Removed :
      (vm : Manager) (v : ℕ)
      → IsValid vm
      → ((m : VirtualMemoryMap)
          → mapped v vm.memmap ≡ some m
          → (m.vmarea.end < usize_mod) × (m.vmarea.end - m.vmarea.start + page_size < usize_mod))
      → Removed vm v (remove_memory_map_by_addr has_root is_asid_used vm v)
  unfolding remove_memory_map_by_addr
  remove_memory_map_by_addr-Removed vm v i few =
      remove_found-Removed vm v (find_memory_map_with_cache_update vm v) i few
        (find_memory_map_with_cache_update-Found vm v i)
