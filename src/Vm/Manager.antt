-- ===== src/Vm/Manager.antt =====
-- kernel/src/vm/manager.rs: the memory maps of an address space, and the cache of the last search.
-- `memmap` is a `BTreeMap` keyed by the start of each map. The page tables of kernel/src/arch are
-- seen as the log of the calls made to them, newest first; which address spaces have a root page
-- table, and which identifiers are in use, are parameters.
pub mod Inv
pub mod Search
pub mod Remove
pub mod Add
pub mod Fixed
pub mod Space
use mathlib.Core.Option
use scarlet.Common.{
  ltb, leb, ◌==◌, if◌then◌else◌, usize_mod, ℕ, zero, suc, ◌+◌, ◌-◌, ◌*◌, ◌/◌, ◌%◌, Bool, true,
  false, not, ◌&&◌, Option, none, some, List, [], ◌∷◌,
}
use scarlet.Common.BTreeMap
use scarlet.Vm.Area.{MemoryArea, VirtualMemoryMap, add_usize, within, size}

pub data MmuCall : Type 0 where
  map_page : ℕ → ℕ → ℕ → ℕ → MmuCall
  unmap_page : ℕ → ℕ → MmuCall
  free_space : ℕ → MmuCall

pub record Manager : Type 0 where
  pub memmap : List (ℕ × VirtualMemoryMap)
  pub asid : ℕ
  pub mmap_base : ℕ
  pub page_tables : List ℕ
  pub last_search_cache : Option (ℕ × ℕ × ℕ)
  pub mmu : List MmuCall

pub data MapError : Type 0 where
  not_aligned overlaps_preceding overlaps_succeeding no_mapping no_root_table : MapError

pub data Outcome {ℓ} (A : Type ℓ) : Type ℓ where
  ok : A → Outcome A
  err : MapError → Outcome A
  panics : Outcome A

abbrev pub page_size : ℕ
page_size = 0x1000

unfoldable pub new : Manager
new = record {
  memmap = [];
  asid = 0;
  mmap_base = 0x40000000;
  page_tables = [];
  last_search_cache = none;
  mmu = [];
}

abbrev aligned : ℕ → Bool
aligned n = n % page_size == 0

size_aligned : MemoryArea → Option Bool
size_aligned a = Option.map aligned (size a)

-- The test at the head of `add_memory_map` and `add_memory_map_fixed`, in the source's order;
-- `none` is the panic of `size`.
unfoldable pub is_aligned : VirtualMemoryMap → Option Bool
unfolding size_aligned
is_aligned m =
    if not (aligned m.vmarea.start)
    then some false
    else if not (aligned m.pmarea.start)
    then some false
    else elim (size_aligned m.vmarea) [
      | none ↦ none
      | some false ↦ some false
      | some true ↦ size_aligned m.pmarea
    ]

overlaps_prev : VirtualMemoryMap → Option (ℕ × VirtualMemoryMap) → Bool
overlaps_prev m none = false
overlaps_prev m (some (_, prev)) = ltb m.vmarea.start prev.vmarea.end

overlaps_next : VirtualMemoryMap → Option (ℕ × VirtualMemoryMap) → Bool
overlaps_next m none = false
overlaps_next m (some (_, next)) = ltb next.vmarea.start m.vmarea.end

-- A map put into the tree, and the search cache dropped.
abbrev put_map : Manager → VirtualMemoryMap → Manager
put_map vm m = record vm {
  memmap = BTreeMap.insert m.vmarea.start m vm.memmap;
  last_search_cache = none;
}

unfoldable pub add_memory_map : Manager → VirtualMemoryMap → Manager × Outcome (Unit {0})
unfolding overlaps_prev overlaps_next
add_memory_map vm m = elim (is_aligned m) [
  | none ↦ (vm, panics)
  | some false ↦ (vm, err not_aligned)
  | some true ↦
      if overlaps_prev m (BTreeMap.last_below m.vmarea.start vm.memmap)
      then (vm, err overlaps_preceding)
      else if overlaps_next m (BTreeMap.first_from m.vmarea.start vm.memmap)
      then (vm, err overlaps_succeeding)
      else (put_map vm m, ok tt)
]

cache_hit : Option (ℕ × ℕ × ℕ) → ℕ → Option ℕ
cache_hit none v = none
cache_hit (some (start, end, key)) v = if leb start v && leb v end then some key else none

find_memory_map_optimized : Manager → ℕ → Option VirtualMemoryMap
find_memory_map_optimized vm v = elim (BTreeMap.last_upto v vm.memmap) [
  | none ↦ none
  | some (_, m) ↦ if leb v m.vmarea.end then some m else none
]

unfoldable pub search_memory_map : Manager → ℕ → Option VirtualMemoryMap
unfolding cache_hit find_memory_map_optimized
search_memory_map vm v = elim (cache_hit vm.last_search_cache v) [
  | some key ↦ BTreeMap.get key vm.memmap
  | none ↦ find_memory_map_optimized vm v
]

unfoldable pub find_memory_map_with_cache_update : Manager → ℕ → Manager × Option ℕ
unfolding cache_hit
find_memory_map_with_cache_update vm v = elim (cache_hit vm.last_search_cache v) [
  | some key ↦ (vm, some key)
  | none ↦ elim (BTreeMap.last_upto v vm.memmap) [
    | none ↦ (vm, none)
    | some (start_addr, m) ↦
        if within m.vmarea v
        then (
          record vm { last_search_cache = some (m.vmarea.start, m.vmarea.end, start_addr) },
          some start_addr,
        )
        else (vm, none)
  ]
]

-- `vaddr & !(PAGE_SIZE - 1)`
abbrev pub page_base : ℕ → ℕ
page_base v = v - v % page_size

-- The pages that the loop of `unmap_range_from_mmu` visits, `n` of them from number `i` on.
unmap_loop : ℕ → ℕ → ℕ → ℕ → ℕ → List MmuCall → List MmuCall
unmap_loop asid start end i zero log = log
unmap_loop asid start end i (suc n) log = unmap_loop asid start end (suc i) n (
    let page_vaddr = add_usize (page_base start) (i * page_size) in
    if leb page_vaddr end then unmap_page asid page_vaddr ∷ log else log)

-- `(vaddr_end - vaddr_start + 1 + PAGE_SIZE - 1) / PAGE_SIZE`, whose sum wraps.
abbrev pub num_pages : ℕ → ℕ → ℕ
num_pages start end = ((end - start + 1 + page_size - 1) % usize_mod) / page_size

module _ (has_root : ℕ → Bool) (is_asid_used : ℕ → Bool) where
  unfoldable pub set_asid : Manager → ℕ → Manager
  set_asid vm asid =
      if vm.asid == asid
      then vm
      else if not (vm.asid == 0) && is_asid_used vm.asid
      then record vm { asid = asid; mmu = free_space vm.asid ∷ vm.mmu }
      else record vm { asid = asid }

  unfoldable pub unmap_range_from_mmu : Manager → ℕ → ℕ → Manager
  unfolding unmap_loop
  unmap_range_from_mmu vm start end =
      if has_root vm.asid
      then record vm { mmu = unmap_loop vm.asid start end 0 (num_pages start end) vm.mmu }
      else vm

  -- The cache is dropped if it holds the map that goes.
  drop_cached : Manager → ℕ → Manager
  drop_cached vm key = elim vm.last_search_cache [
    | none ↦ vm
    | some (_, _, cache_key) ↦
        if cache_key == key then record vm { last_search_cache = none } else vm
  ]

  take_map : Manager → ℕ → Manager × Option VirtualMemoryMap
  take_map vm key = elim (BTreeMap.get key vm.memmap) [
    | none ↦ (vm, none)
    | some m ↦ (
      unmap_range_from_mmu (record vm { memmap = BTreeMap.remove key vm.memmap }) m.vmarea.start
          m.vmarea.end,
      some m,
    )
  ]

  remove_found : Manager × Option ℕ → Manager × Option VirtualMemoryMap
  unfolding drop_cached take_map
  remove_found (vm, none) = (vm, none)
  remove_found (vm, some key) = take_map (drop_cached vm key) key

  unfoldable pub remove_memory_map_by_addr : Manager → ℕ → Manager × Option VirtualMemoryMap
  unfolding remove_found
  remove_memory_map_by_addr vm v = remove_found (find_memory_map_with_cache_update vm v)

  -- Sums of addresses wrap as in a release build.
  unfoldable pub lazy_map_page : Manager → ℕ → Manager × Outcome (Unit {0})
  lazy_map_page vm v = elim (search_memory_map vm v) [
    | none ↦ (vm, err no_mapping)
    | some m ↦
        if has_root vm.asid
        then (
          record vm {
            mmu =
                map_page vm.asid (page_base v)
                  (add_usize m.pmarea.start (page_base v - m.vmarea.start)) m.permissions
                ∷ vm.mmu;
          },
          ok tt,
        )
        else (vm, err no_root_table)
  ]

unfoldable pub remove_all_memory_maps : Manager → Manager × List VirtualMemoryMap
remove_all_memory_maps vm =
    (record vm { memmap = []; last_search_cache = none }, BTreeMap.values vm.memmap)

-- The maps already added stay when one fails.
unfoldable pub restore_memory_maps : Manager → List VirtualMemoryMap → Manager × Outcome (Unit {0})
restore_memory_maps vm [] = (vm, ok tt)
restore_memory_maps vm (m ∷ ms) =
    let (vm', r) = add_memory_map vm m in
    elim r [ ok _ ↦ restore_memory_maps vm' ms | err e ↦ (vm', err e) | panics ↦ (vm', panics) ]

unfoldable pub translate_vaddr : Manager → ℕ → Option ℕ
translate_vaddr vm v = elim (search_memory_map vm v) [
  | none ↦ none
  | some m ↦ some (add_usize m.pmarea.start (v - m.vmarea.start))
]
