-- ===== src/Vm/Tests.antt =====
-- The theorems on areas and memory maps at concrete ones, and runs of their operations.
use mathlib.Core.Option
use scarlet.Common.{
  ◌==◌, usize_mod, ℕ, ◌+◌, ◌-◌, ◌≤◌, ◌<◌, max, ◌≡◌, refl, subst, inl, inr, Bool, true, false,
  Option, none, some, [], ◌∷◌, arith,
}
use scarlet.Vm.Manager.Space.{
  first_fit, find_unmapped_area, Unstraddled, Placed, find_unmapped_area-Placed,
}
use scarlet.Vm.Manager.Remove.{Removed, remove_memory_map_by_addr-Removed}
use scarlet.Vm.Area.{VirtualMemoryMap, add_usize, from_ptr, size, size-from_ptr}
use scarlet.Vm.Manager.{
  Manager, page_size, add_memory_map, search_memory_map, find_memory_map_with_cache_update,
  remove_memory_map_by_addr, translate_vaddr,
}
use scarlet.Vm.Manager.Inv.{IsMap, mapped, IsValid}
use scarlet.Vm.Manager.Search.{
  search_memory_map-mapped, Found, find_memory_map_with_cache_update-Found, translate_vaddr-mapped,
}
use scarlet.Vm.Manager.Add.{Added, add_memory_map-Added}
use scarlet.Vm.Manager.Fixed.{add_memory_map_fixed}
use scarlet.Vm.Manager.Fixed.Replaces.{Replaced, add_memory_map_fixed-Replaced}

-- Four pages from 0x40000000 on.
abbrev code : VirtualMemoryMap
code = record {
  pmarea = record { start = 0x80000000; end = 0x80003fff };
  vmarea = record { start = 0x40000000; end = 0x40003fff };
  permissions = 0x5;
  is_shared = false;
  owner = none;
}

-- Two pages, which lie over the middle of `code`.
abbrev patch : VirtualMemoryMap
patch = record {
  pmarea = record { start = 0x90000000; end = 0x90001fff };
  vmarea = record { start = 0x40001000; end = 0x40002fff };
  permissions = 0x3;
  is_shared = false;
  owner = some 3;
}

code-IsMap : IsMap code
code-IsMap = record {
  ordered = omega arith;
  start_aligned = refl;
  end_aligned = refl;
  phys_aligned = refl;
}

abbrev loaded : Manager
loaded = record {
  memmap = (0x40000000, code) ∷ [];
  asid = 1;
  mmap_base = 0x40000000;
  page_tables = [];
  last_search_cache = some (0x40000000, 0x40003fff, 0x40000000);
  mmu = [];
}

loaded-IsValid : IsValid loaded
unfolding scarlet.Common.BTreeMap.get
loaded-IsValid = record {
  chain = (refl, omega arith, code-IsMap, tt);
  cached = (code, refl, refl, refl);
}

size-from_ptr_example : size (from_ptr 0x1000 0x2000) ≡ some (max 0x2000 1)
size-from_ptr_example = size-from_ptr 0x1000 0x2000 (omega arith)

search_memory_map-mapped_example :
    search_memory_map loaded 0x40001234 ≡ mapped 0x40001234 loaded.memmap
search_memory_map-mapped_example = search_memory_map-mapped loaded 0x40001234 loaded-IsValid

find_memory_map_with_cache_update-Found_example :
    Found loaded 0x40001234 (find_memory_map_with_cache_update loaded 0x40001234)
find_memory_map_with_cache_update-Found_example =
    find_memory_map_with_cache_update-Found loaded 0x40001234 loaded-IsValid

translate_vaddr-mapped_example :
    translate_vaddr loaded 0x40001234
    ≡ Option.map
        (λ m. add_usize m.pmarea.start (0x40001234 - m.vmarea.start))
        (mapped 0x40001234 loaded.memmap)
translate_vaddr-mapped_example = translate_vaddr-mapped loaded 0x40001234 loaded-IsValid

add_memory_map-Added_example : Added loaded patch (add_memory_map loaded patch)
add_memory_map-Added_example = add_memory_map-Added loaded patch loaded-IsValid

abbrev first_space : ℕ → Bool
first_space a = a == 1

add_memory_map_fixed-Replaced_example :
    Replaced first_space first_space loaded patch
      (add_memory_map_fixed first_space first_space loaded patch)
add_memory_map_fixed-Replaced_example =
    add_memory_map_fixed-Replaced first_space first_space loaded patch loaded-IsValid

remove_memory_map_by_addr-Removed_example :
    Removed first_space first_space loaded 0x40001234
      (remove_memory_map_by_addr first_space first_space loaded 0x40001234)
remove_memory_map_by_addr-Removed_example =
    remove_memory_map_by_addr-Removed first_space first_space loaded 0x40001234 loaded-IsValid
      few_pages
  where
    few_pages :
        (m : VirtualMemoryMap)
        → mapped 0x40001234 loaded.memmap ≡ some m
        → (m.vmarea.end < usize_mod) × (m.vmarea.end - m.vmarea.start + page_size < usize_mod)
    few_pages m e =
        subst
          (λ (x : VirtualMemoryMap).
            (x.vmarea.end < usize_mod) × (x.vmarea.end - x.vmarea.start + page_size < usize_mod))
          is_code (omega arith, omega arith)
      where
        is_code : code ≡ m
        is_code = cc

-- The last page of the address space, as the trampoline of every task.
abbrev trampoline : VirtualMemoryMap
trampoline = record {
  pmarea = record { start = 0x80000000; end = 0x80000fff };
  vmarea = record { start = 0xfffffffffffff000; end = 0xffffffffffffffff };
  permissions = 0x7;
  is_shared = true;
  owner = none;
}

trampoline-IsMap : IsMap trampoline
trampoline-IsMap = record {
  ordered = omega arith;
  start_aligned = refl;
  end_aligned = refl;
  phys_aligned = refl;
}

abbrev user_space : Manager
user_space = record loaded {
  memmap = (0x40000000, code) ∷ (0xfffffffffffff000, trampoline) ∷ [];
  last_search_cache = none;
}

user_space-IsValid : IsValid user_space
user_space-IsValid = record {
  chain = (refl, omega arith, code-IsMap, (refl, omega arith, trampoline-IsMap, tt));
  cached = tt;
}

find_unmapped_area-Placed_example :
    Placed user_space 100 0x60000000 (find_unmapped_area user_space 100 page_size)
find_unmapped_area-Placed_example =
    find_unmapped_area-Placed user_space 100 0x60000000 user_space-IsValid (omega arith) refl refl
      (omega arith) (omega arith) (inl (omega arith), (inr (omega arith), tt)) not_across
  where
    not_across : Unstraddled 0x40000000 user_space.memmap
    not_across w e =
        subst (λ (x : VirtualMemoryMap). 0x40000000 ≤ x.vmarea.start) is_code (omega arith)
      where
        is_code : code ≡ w
        is_code = cc

user_space-second : find_unmapped_area user_space 100 page_size ≡ some 0x40004000
unfolding find_unmapped_area first_fit scarlet.Common.BTreeMap.from
user_space-second = refl
