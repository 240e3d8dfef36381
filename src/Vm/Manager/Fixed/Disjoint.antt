-- ===== src/Vm/Manager/Fixed/Disjoint.antt =====
-- The parts that a map is cut into are maps, and no two of them share an address.
use scarlet.Common.{
  ltb, leb, tests, Bool-cases, is_some, All, ℕ, ◌≤◌, min, max, ◌≡◌, refl, ◌∙◌, inl, inr, true, ◌&&◌,
  none, List, [], ◌∷◌, ◌++◌, arith,
}
use scarlet.Vm.Area.{VirtualMemoryMap, within}
use scarlet.Vm.Manager.Inv.{IsMap}
use scarlet.Vm.Manager.Fixed.{overlaps, overwritten_part, before_part, after_part, kept_parts}
use scarlet.Vm.Manager.Fixed.Pieces.{first_in, first_in-append}

-- No address lies in two maps of the list.
abbrev pub Disjoint : List VirtualMemoryMap → Type 0
Disjoint [] = Unit
Disjoint (p ∷ ps) = ((v : ℕ) → within p.vmarea v ≡ true → first_in v ps ≡ none) × Disjoint ps

pub All-append :
    (xs ys : List VirtualMemoryMap) → All IsMap xs → All IsMap ys → All IsMap (xs ++ ys)
All-append [] ys hx hy = hy
All-append (x ∷ xs) ys hx hy = (hx.0, All-append xs ys hx.1 hy)

pub Disjoint-append :
    (xs ys : List VirtualMemoryMap)
    → Disjoint xs
    → Disjoint ys
    → ((v : ℕ) → is_some (first_in v xs) ≡ true → first_in v ys ≡ none)
    → Disjoint (xs ++ ys)
Disjoint-append [] ys dx dy apart = dy
Disjoint-append (x ∷ xs) ys dx dy apart = (
  λ v h. first_in-append v xs ys ∙ (rw (dx.0 v h) (apart v (rw h refl))),
  Disjoint-append xs ys dx.1 dy (λ v h. apart v (later v h)),
)
  where
    later : (v : ℕ) → is_some (first_in v xs) ≡ true → is_some (first_in v (x ∷ xs)) ≡ true
    later v h = ground (arith, h)

module _ (m e : VirtualMemoryMap) (im : IsMap m) (ie : IsMap e) (meets : overlaps m e ≡ true) where
  before_part-IsMap : All IsMap (before_part m e)
  unfolding before_part
  before_part-IsMap = elim (Bool-cases (ltb e.vmarea.start m.vmarea.start)) [
    | inl h ↦ rw h (omega (tests, h, im.start_aligned, ie.start_aligned, ie.phys_aligned), tt)
    | inr h ↦ rw h tt
  ]

  starts_before_end : e.vmarea.start ≤ m.vmarea.end
  starts_before_end = ground (arith, meets)

  after_part-IsMap : All IsMap (after_part m e)
  unfolding after_part
  after_part-IsMap = elim (Bool-cases (ltb m.vmarea.end e.vmarea.end)) [
    | inl h ↦ rw h (
      omega (
        tests, h, starts_before_end, im.ordered, im.end_aligned, ie.start_aligned, ie.end_aligned,
        ie.phys_aligned,
      ),
      tt,
    )
    | inr h ↦ rw h tt
  ]

  pub kept_parts-IsMap : All IsMap (kept_parts m e)
  unfolding kept_parts
  kept_parts-IsMap =
      elim (Bool-cases (leb m.vmarea.start e.vmarea.start && leb e.vmarea.end m.vmarea.end)) [
        | inl h ↦ rw h tt
        | inr h ↦
            rw h (All-append (before_part m e) (after_part m e) before_part-IsMap after_part-IsMap)
      ]

  pub overwritten_part-IsMap : All IsMap (overwritten_part m e)
  unfolding overwritten_part
  overwritten_part-IsMap =
      elim (Bool-cases (leb (max m.vmarea.start e.vmarea.start) (min m.vmarea.end e.vmarea.end))) [
        | inl h ↦ rw h (
          record {
            ordered = omega (tests, h);
            start_aligned = omega (arith, im.start_aligned, ie.start_aligned);
            end_aligned = omega (arith, im.end_aligned, ie.end_aligned);
            phys_aligned = omega (arith, im.start_aligned, ie.start_aligned, ie.phys_aligned);
          },
          tt,
        )
        | inr h ↦ rw h tt
      ]

  before_part-Disjoint : Disjoint (before_part m e)
  unfolding before_part
  before_part-Disjoint = elim (Bool-cases (ltb e.vmarea.start m.vmarea.start)) [
    | inl h ↦ rw h (λ v k. refl, tt)
    | inr h ↦ rw h tt
  ]

  after_part-Disjoint : Disjoint (after_part m e)
  unfolding after_part
  after_part-Disjoint = elim (Bool-cases (ltb m.vmarea.end e.vmarea.end)) [
    | inl h ↦ rw h (λ v k. refl, tt)
    | inr h ↦ rw h tt
  ]

  before_after_apart :
      (v : ℕ) → is_some (first_in v (before_part m e)) ≡ true → first_in v (after_part m e) ≡ none
  unfolding before_part after_part
  before_after_apart v h = ground (arith, h, im.ordered)

  pub kept_parts-Disjoint : Disjoint (kept_parts m e)
  unfolding kept_parts
  kept_parts-Disjoint =
      elim (Bool-cases (leb m.vmarea.start e.vmarea.start && leb e.vmarea.end m.vmarea.end)) [
        | inl h ↦ rw h tt
        | inr h ↦ rw h (
            Disjoint-append (before_part m e) (after_part m e) before_part-Disjoint
              after_part-Disjoint before_after_apart)
      ]
