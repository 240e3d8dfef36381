-- ===== src/Vm/Manager/Fixed.antt =====
-- `add_memory_map_fixed` of kernel/src/vm/manager.rs: a map put at a fixed place, over whatever is
-- mapped there. The maps in its way are cut into what lies before, under and behind it.
pub mod Pieces
pub mod Disjoint
pub mod Carve
pub mod Keys
pub mod Replaces
use scarlet.Common.{
  ltb, leb, if◌then◌else◌, ℕ, ◌+◌, ◌-◌, min, max, Bool, true, false, ◌&&◌, none, some, List, [],
  ◌∷◌, ◌++◌,
}
use scarlet.Common.BTreeMap
use scarlet.Vm.Area.{VirtualMemoryMap, add_usize}
use scarlet.Vm.Manager.{
  Manager, not_aligned, Outcome, ok, err, panics, is_aligned, unmap_range_from_mmu,
}

-- The filter that collects `overlapping_keys`.
abbrev pub overlaps : VirtualMemoryMap → VirtualMemoryMap → Bool
overlaps m e = leb m.vmarea.start e.vmarea.end && leb e.vmarea.start m.vmarea.end

pub overlapping_keys : VirtualMemoryMap → List (ℕ × VirtualMemoryMap) → List ℕ
overlapping_keys m [] = []
overlapping_keys m ((k, e) ∷ r) =
    if overlaps m e then k ∷ overlapping_keys m r else overlapping_keys m r

-- A part of the map `e`, from `start` to `end`, that is backed by `pstart` to `pend`.
abbrev pub part : VirtualMemoryMap → ℕ → ℕ → ℕ → ℕ → VirtualMemoryMap
part e start end pstart pend = record e {
  vmarea = record { start = start; end = end };
  pmarea = record { start = pstart; end = pend };
}

pub overwritten_part : VirtualMemoryMap → VirtualMemoryMap → List VirtualMemoryMap
overwritten_part m e =
    let overlap_start = max m.vmarea.start e.vmarea.start in
    let overlap_end = min m.vmarea.end e.vmarea.end in
    let pm_offset = overlap_start - e.vmarea.start in
    if leb overlap_start overlap_end
    then part e overlap_start overlap_end (add_usize e.pmarea.start pm_offset)
        (add_usize (add_usize e.pmarea.start pm_offset) (overlap_end - overlap_start))
      ∷ []
    else []

pub before_part : VirtualMemoryMap → VirtualMemoryMap → List VirtualMemoryMap
before_part m e =
    if ltb e.vmarea.start m.vmarea.start
    then part e e.vmarea.start (m.vmarea.start - 1) e.pmarea.start
        (add_usize e.pmarea.start (m.vmarea.start - e.vmarea.start - 1))
      ∷ []
    else []

pub after_part : VirtualMemoryMap → VirtualMemoryMap → List VirtualMemoryMap
after_part m e =
    if ltb m.vmarea.end e.vmarea.end
    then part e (m.vmarea.end + 1) e.vmarea.end
        (add_usize e.pmarea.start (m.vmarea.end + 1 - e.vmarea.start)) e.pmarea.end
      ∷ []
    else []

-- What stays of a map: nothing if the new map covers it, and else its ends.
pub kept_parts : VirtualMemoryMap → VirtualMemoryMap → List VirtualMemoryMap
unfolding before_part after_part
kept_parts m e =
    if leb m.vmarea.start e.vmarea.start && leb e.vmarea.end m.vmarea.end
    then []
    else before_part m e ++ after_part m e

pub record Carved : Type 0 where
  pub tree : List (ℕ × VirtualMemoryMap)
  pub overwritten : List VirtualMemoryMap
  pub to_add : List VirtualMemoryMap

pub carve_key : VirtualMemoryMap → Carved → ℕ → Carved
unfolding overwritten_part kept_parts
carve_key m s k = elim (BTreeMap.get k s.tree) [
  | none ↦ s
  | some e ↦ record {
    tree = BTreeMap.remove k s.tree;
    overwritten = s.overwritten ++ overwritten_part m e;
    to_add = s.to_add ++ kept_parts m e;
  }
]

pub carve_keys : VirtualMemoryMap → Carved → List ℕ → Carved
unfolding carve_key
carve_keys m s [] = s
carve_keys m s (k ∷ ks) = carve_keys m (carve_key m s k) ks

pub insert_all : List VirtualMemoryMap → List (ℕ × VirtualMemoryMap) → List (ℕ × VirtualMemoryMap)
insert_all [] mm = mm
insert_all (p ∷ ps) mm = insert_all ps (BTreeMap.insert p.vmarea.start p mm)

pub carved_of : VirtualMemoryMap → List (ℕ × VirtualMemoryMap) → Carved
unfolding overlapping_keys carve_keys
carved_of m mm =
    carve_keys m (record { tree = mm; overwritten = []; to_add = [] }) (overlapping_keys m mm)

module _ (has_root is_asid_used : ℕ → Bool) where
  pub unmap_all : List VirtualMemoryMap → Manager → Manager
  unmap_all [] vm = vm
  unmap_all (p ∷ ps) vm =
      unmap_all ps (unmap_range_from_mmu has_root is_asid_used vm p.vmarea.start p.vmarea.end)

  pub finish : Manager → VirtualMemoryMap → Carved → Manager × Outcome (List VirtualMemoryMap)
  unfolding unmap_all insert_all
  finish vm m s =
      let vm' = unmap_all s.overwritten (record vm { memmap = s.tree; last_search_cache = none }) in
      (
        record vm' { memmap = BTreeMap.insert m.vmarea.start m (insert_all s.to_add vm'.memmap) },
        ok s.overwritten,
      )

  unfoldable pub add_memory_map_fixed :
      Manager → VirtualMemoryMap → Manager × Outcome (List VirtualMemoryMap)
  unfolding carved_of finish
  add_memory_map_fixed vm m = elim (is_aligned m) [
    | none ↦ (vm, panics)
    | some false ↦ (vm, err not_aligned)
    | some true ↦ finish vm m (carved_of m vm.memmap)
  ]
