-- ===== src/Vm/Manager/Fixed/Pieces.antt =====
-- The parts that a map is cut into translate every address as the whole map did.
use scarlet.Common.{
  if◌then◌else◌, is_some, ℕ, ◌-◌, ◌≡◌, refl, Bool, true, false, not, ◌&&◌, Option, none, some, List,
  [], ◌∷◌, ◌++◌, arith,
}
use scarlet.Vm.Area.{VirtualMemoryMap, add_usize, within}
use scarlet.Vm.Manager.Inv.{IsMap}
use scarlet.Vm.Manager.Fixed.{overlaps, overwritten_part, before_part, after_part, kept_parts}

-- What an address is mapped to.
pub record Target : Type 0 where
  pub paddr : ℕ
  pub permissions : ℕ
  pub is_shared : Bool
  pub owner : Option ℕ

abbrev pub target : VirtualMemoryMap → ℕ → Target
target m v = record {
  paddr = add_usize m.pmarea.start (v - m.vmarea.start);
  permissions = m.permissions;
  is_shared = m.is_shared;
  owner = m.owner;
}

abbrev pub target_of : ℕ → Option VirtualMemoryMap → Option Target
target_of v none = none
target_of v (some m) = some (target m v)

-- The first map of the list whose area holds the address.
abbrev pub first_in : ℕ → List VirtualMemoryMap → Option VirtualMemoryMap
first_in v [] = none
first_in v (m ∷ ms) = if within m.vmarea v then some m else first_in v ms

abbrev pub or_else {ℓ} : {A : Type ℓ} → Option A → Option A → Option A
or_else none b = b
or_else (some a) b = some a

pub first_in-append :
    (v : ℕ) (xs ys : List VirtualMemoryMap)
    → first_in v (xs ++ ys) ≡ or_else (first_in v xs) (first_in v ys)
first_in-append v [] ys = refl
first_in-append v (x ∷ xs) ys = ground (arith, first_in-append v xs ys)

module _ (m e : VirtualMemoryMap) (im : IsMap m) (ie : IsMap e) (meets : overlaps m e ≡ true)
    (v : ℕ) where
  -- The kept parts hold what of `e` is not under `m`.
  pub kept_parts-holds :
      is_some (first_in v (kept_parts m e)) ≡ (within e.vmarea v && not (within m.vmarea v))
  unfolding kept_parts before_part after_part
  kept_parts-holds = ground (arith, meets, im.ordered, ie.ordered)

  pub kept_parts-target :
      within e.vmarea v ≡ true
      → within m.vmarea v ≡ false
      → target_of v (first_in v (kept_parts m e)) ≡ some (target e v)
  unfolding kept_parts before_part after_part
  kept_parts-target h k = ground (arith, meets, im.ordered, ie.ordered)

  pub overwritten_part-holds :
      is_some (first_in v (overwritten_part m e)) ≡ (within e.vmarea v && within m.vmarea v)
  unfolding overwritten_part
  overwritten_part-holds = ground (arith, meets, im.ordered, ie.ordered)

  pub overwritten_part-target :
      within e.vmarea v ≡ true
      → within m.vmarea v ≡ true
      → target_of v (first_in v (overwritten_part m e)) ≡ some (target e v)
  unfolding overwritten_part
  overwritten_part-target h k = ground (arith, meets, im.ordered, ie.ordered)
