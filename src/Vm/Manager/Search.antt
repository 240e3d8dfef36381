-- ===== src/Vm/Manager/Search.antt =====
-- The searches of the memory map manager agree with a scan of all maps, and removal takes out
-- exactly the map found.
use mathlib.Core.Option
use scarlet.Common.{
  leb, if◌then◌else◌, Bool-cases, Option-cases, ℕ, ◌+◌, ◌-◌, ◌≤◌, ◌<◌, ◌≡◌, refl, sym, subst, ◌∙◌,
  inl, inr, true, ◌&&◌, Option, none, some, List, [], ◌∷◌, arith,
}
use scarlet.Common.BTreeMap
use scarlet.Vm.Area.{VirtualMemoryMap, add_usize, within}
use scarlet.Vm.Manager.{
  Manager, cache_hit, find_memory_map_optimized, search_memory_map,
  find_memory_map_with_cache_update, translate_vaddr,
}
use scarlet.Vm.Manager.Inv.{Chain, mapped, mapped_below, get-Stands, CacheIn, IsValid}

last_upto_below :
    (lo v : ℕ) (mm : List (ℕ × VirtualMemoryMap))
    → Chain lo mm
    → v < lo
    → BTreeMap.last_upto v mm ≡ none
unfolding BTreeMap.last_upto
last_upto_below lo v [] c h = refl
last_upto_below lo v ((j, w) ∷ r) (e, le, i, c) h =
    rw (last_upto_below (w.vmarea.end + 1) v r c (omega (arith, i.ordered))) (ground arith)

-- The map with the greatest start up to `v`, if it reaches `v`.
abbrev reaching : ℕ → Option (ℕ × VirtualMemoryMap) → Option VirtualMemoryMap
reaching v none = none
reaching v (some (_, m)) = if leb v m.vmarea.end then some m else none

reaching-last_upto :
    (lo v : ℕ) (mm : List (ℕ × VirtualMemoryMap))
    → Chain lo mm
    → reaching v (BTreeMap.last_upto v mm) ≡ mapped v mm
unfolding BTreeMap.last_upto
reaching-last_upto lo v [] c = refl
reaching-last_upto lo v ((j, w) ∷ r) (e, le, i, c) = ground (
  arith,
  last_upto_below (w.vmarea.end + 1) v r c,
  reaching-last_upto (w.vmarea.end + 1) v r c,
  mapped_below (w.vmarea.end + 1) v r c,
  i.ordered,
)

-- What `range(..=v).next_back()` finds is in the tree under that key.
get-last_upto :
    (lo v k : ℕ) (mm : List (ℕ × VirtualMemoryMap)) (m : VirtualMemoryMap)
    → Chain lo mm
    → BTreeMap.last_upto v mm ≡ some (k, m)
    → (BTreeMap.get k mm ≡ some m) × (lo ≤ k)
unfolding BTreeMap.last_upto BTreeMap.get
get-last_upto lo v k [] m c h = cc
get-last_upto lo v k ((j, w) ∷ r) m (e, le, i, c) h = elim (Option-cases (BTreeMap.last_upto v r)) [
  | inl nothing ↦ at_head nothing
  | inr (p, found) ↦ behind (
      get-last_upto (w.vmarea.end + 1) v k r m c
        (found ∙ (let q : some p ≡ some (k, m) = rw (found, BTreeMap.last_upto) at h in q)))
]
  where
    at_head : BTreeMap.last_upto v r ≡ none → (BTreeMap.get k ((j, w) ∷ r) ≡ some m) × (lo ≤ k)
    at_head nothing = ground (arith, h, nothing)

    behind :
        (BTreeMap.get k r ≡ some m) × (w.vmarea.end + 1 ≤ k)
        → (BTreeMap.get k ((j, w) ∷ r) ≡ some m) × (lo ≤ k)
    behind (g, above) = ground (arith, g, above, i.ordered)

last_upto-le :
    (v k : ℕ) (mm : List (ℕ × VirtualMemoryMap)) (m : VirtualMemoryMap)
    → BTreeMap.last_upto v mm ≡ some (k, m)
    → k ≤ v
unfolding BTreeMap.last_upto
last_upto-le v k [] m h = cc
last_upto-le v k ((j, w) ∷ r) m h = ground (arith, h, last_upto-le v k r m)

cached_map :
    (vm : Manager) (v s t k : ℕ)
    → IsValid vm
    → CacheIn vm.memmap (some (s, t, k))
    → (leb s v && leb v t) ≡ true
    → BTreeMap.get k vm.memmap ≡ mapped v vm.memmap
cached_map vm v s t k i (m, g, es, et) hit =
    g ∙ sym ((get-Stands 0 k vm.memmap m i.chain g).covers v (rw (es, et) hit))

-- With a cache that is empty or holds the bounds and the key of a map in the tree, as the invariant
-- says, `search_memory_map` finds the map whose area holds the address, and nothing if there is none.
pub search_memory_map-mapped :
    (vm : Manager) (v : ℕ) → IsValid vm → search_memory_map vm v ≡ mapped v vm.memmap
unfolding search_memory_map cache_hit find_memory_map_optimized
search_memory_map-mapped vm v i = by_cache vm.last_search_cache refl
  where
    scan : find_memory_map_optimized vm v ≡ mapped v vm.memmap
    scan = ground (arith, reaching-last_upto 0 v vm.memmap i.chain)

    by_cache :
        (c : Option (ℕ × ℕ × ℕ))
        → vm.last_search_cache ≡ c
        → search_memory_map vm v ≡ mapped v vm.memmap
    by_cache none e = rw (e, search_memory_map) scan
    by_cache (some (s, t, k)) e = elim (Bool-cases (leb s v && leb v t)) [
      | inl hit ↦
          rw (e, search_memory_map, cache_hit, hit)
            (cached_map vm v s t k i (subst (CacheIn vm.memmap) e i.cached) hit)
      | inr miss ↦ rw (e, search_memory_map, cache_hit, miss) scan
    ]

-- What `find_memory_map_with_cache_update` returned: the key of the map that covers the address.
abbrev pub Found : Manager → ℕ → Manager × Option ℕ → Type 0
Found vm v (vm', none) = (mapped v vm.memmap ≡ none) × (vm' ≡ vm)
Found vm v (vm', some k) =
    (m : VirtualMemoryMap) × (BTreeMap.get k vm.memmap ≡ some m)
    × (mapped v vm.memmap ≡ some m)
    × (vm'.memmap ≡ vm.memmap)
    × (vm'.asid ≡ vm.asid)
    × (vm'.mmu ≡ vm.mmu)
    × (vm'.mmap_base ≡ vm.mmap_base)
    × (vm'.page_tables ≡ vm.page_tables)
    × IsValid vm'

-- The search that fills the cache returns the key of the map that covers the address, or nothing if
-- no map does; it changes nothing of the manager but the cache, and the invariant stays.
pub find_memory_map_with_cache_update-Found :
    (vm : Manager) (v : ℕ) → IsValid vm → Found vm v (find_memory_map_with_cache_update vm v)
unfolding find_memory_map_with_cache_update cache_hit
find_memory_map_with_cache_update-Found vm v i = by_cache vm.last_search_cache refl
  where
    by_tree :
        (o : Option (ℕ × VirtualMemoryMap))
        → BTreeMap.last_upto v vm.memmap ≡ o
        → cache_hit vm.last_search_cache v ≡ none
        → Found vm v (find_memory_map_with_cache_update vm v)
    by_tree none e miss =
        rw (miss, e, find_memory_map_with_cache_update)
          (sym (reaching-last_upto 0 v vm.memmap i.chain) ∙ rw e refl, refl)
    by_tree (some (k, m)) e miss = elim (Bool-cases (within m.vmarea v)) [
      | inl here ↦
          rw (miss, e, here, find_memory_map_with_cache_update)
            (
              m,
              stored.0,
              (get-Stands 0 k vm.memmap m i.chain stored.0).covers v here,
              refl,
              refl,
              refl,
              refl,
              refl,
              record { chain = i.chain; cached = (m, stored.0, refl, refl) },
            )
      | inr past ↦
          rw (miss, e, past, find_memory_map_with_cache_update)
            (
              sym (reaching-last_upto 0 v vm.memmap i.chain)
                  ∙ rw e (
                      ground (
                        arith,
                        past,
                        start_upto,
                        (get-Stands 0 k vm.memmap m i.chain stored.0).key,
                      )),
              refl,
            )
    ]
      where
        stored : (BTreeMap.get k vm.memmap ≡ some m) × (0 ≤ k)
        stored = get-last_upto 0 v k vm.memmap m i.chain e

        start_upto : k ≤ v
        start_upto = last_upto-le v k vm.memmap m e

    by_cache :
        (c : Option (ℕ × ℕ × ℕ))
        → vm.last_search_cache ≡ c
        → Found vm v (find_memory_map_with_cache_update vm v)
    by_cache none e = by_tree (BTreeMap.last_upto v vm.memmap) refl (rw e refl)
    by_cache (some (s, t, k)) e = elim (Bool-cases (leb s v && leb v t)) [
      | inl hit ↦ cached hit (subst (CacheIn vm.memmap) e i.cached)
      | inr miss ↦ by_tree (BTreeMap.last_upto v vm.memmap) refl (rw (e, miss, cache_hit) refl)
    ]
      where
        cached :
            (leb s v && leb v t) ≡ true
            → CacheIn vm.memmap (some (s, t, k))
            → Found vm v (find_memory_map_with_cache_update vm v)
        cached hit (m, g, es, et) =
            rw (e, hit, cache_hit, find_memory_map_with_cache_update)
              (
                m,
                g,
                (get-Stands 0 k vm.memmap m i.chain g).covers v (rw (es, et) hit),
                refl,
                refl,
                refl,
                refl,
                refl,
                i,
              )

-- `translate_vaddr` answers exactly for the addresses that a map covers, with the offset into the
-- map's area added to its physical start.
pub translate_vaddr-mapped :
    (vm : Manager) (v : ℕ)
    → IsValid vm
    → translate_vaddr vm v
      ≡ Option.map (λ m. add_usize m.pmarea.start (v - m.vmarea.start)) (mapped v vm.memmap)
unfolding translate_vaddr
translate_vaddr-mapped vm v i = rw (search_memory_map-mapped vm v i, translate_vaddr) refl
