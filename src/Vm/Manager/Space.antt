-- ===== src/Vm/Manager/Space.antt =====
-- `find_unmapped_area` of kernel/src/vm/manager.rs: the first gap that holds a new mapping, and
-- `get_memory_stats`.
use scarlet.Common.{
  ltb, leb, if◌then◌else◌, le→leb, tests, Bool-cases, and_true, length, usize_mod, ℕ, ◌+◌, ◌-◌, ◌%◌,
  ◌≤◌, ◌<◌, ◌≡◌, refl, sym, ◌∙◌, ◌⊎◌, inl, inr, true, false, Option, none, some, List, [], ◌∷◌,
  arith,
}
use scarlet.Common.BTreeMap
use scarlet.Vm.Area.{VirtualMemoryMap, add_usize, within, size}
use scarlet.Vm.Manager.{Manager, page_size}
use scarlet.Vm.Manager.Inv.{Chain, mapped, mapped_below, IsValid}

-- `(x + alignment - 1) & !(alignment - 1)`, for an alignment that is a power of two, such as
-- PAGE_SIZE, which is what the kernel passes.
abbrev pub align_up : ℕ → ℕ → ℕ
align_up alignment x = let y = (x + alignment - 1) % usize_mod in y - y % alignment

abbrev pub max_user_addr : ℕ
max_user_addr = 0x80000000

unfoldable pub first_fit : ℕ → ℕ → ℕ → List (ℕ × VirtualMemoryMap) → Option ℕ
first_fit alignment size search [] =
    if leb (add_usize search size) max_user_addr then some search else none
first_fit alignment size search ((_, m) ∷ r) =
    let rest = first_fit alignment size (align_up alignment (add_usize m.vmarea.end 1)) r in
    if leb (add_usize search size) m.vmarea.start then some search else rest

unfoldable pub find_unmapped_area : Manager → ℕ → ℕ → Option ℕ
unfolding first_fit
find_unmapped_area vm size alignment =
    first_fit alignment (align_up alignment size) vm.mmap_base
      (BTreeMap.from vm.mmap_base vm.memmap)

-- No map meets the `size` bytes from `top` on.
abbrev pub Gap : ℕ → ℕ → List (ℕ × VirtualMemoryMap) → Type 0
Gap top size [] = Unit
Gap top size ((_, m) ∷ r) = ((m.vmarea.end < top) ⊎ (top + size ≤ m.vmarea.start)) × Gap top size r

-- What the search promises of the address it returns.
pub record Fits (size search top : ℕ) (mm : List (ℕ × VirtualMemoryMap)) (s : ℕ) : Type 0 where
  pub from_search : search ≤ s
  pub upto_top : s ≤ top
  pub on_boundary : s % page_size ≡ 0
  pub free : (v : ℕ) → s ≤ v → v < s + size → mapped v mm ≡ none

abbrev Answers : ℕ → ℕ → ℕ → List (ℕ × VirtualMemoryMap) → Option ℕ → Type 0
Answers size search top mm none = max_user_addr < top + size
Answers size search top mm (some s) = Fits size search top mm s

page_up :
    (x : ℕ)
    → x + page_size < usize_mod
    → (x ≤ align_up page_size x)
      × (align_up page_size x < x + page_size)
      × (align_up page_size x % page_size ≡ 0)
page_up x k = omega arith

first_fit-Answers :
    (size search top : ℕ) (mm : List (ℕ × VirtualMemoryMap))
    → Chain search mm
    → Gap top size mm
    → search % page_size ≡ 0
    → top % page_size ≡ 0
    → search ≤ top
    → top + size < usize_mod
    → Answers size search top mm (first_fit page_size size search mm)
unfolding first_fit
first_fit-Answers size search top [] c gap al al' le small =
    elim (Bool-cases (leb (add_usize search size) max_user_addr)) [
      | inl fits ↦ rw fits (record {
        from_search = omega arith;
        upto_top = le;
        on_boundary = al;
        free = λ v p q. refl;
      })
      | inr full ↦ rw full (omega (tests, full, le, small))
    ]
first_fit-Answers size search top ((j, m) ∷ r) (e, le, i, c) (apart, gaps) al al' below small =
    elim (Bool-cases (leb (add_usize search size) m.vmarea.start)) [
      | inl fits ↦ rw fits (here fits)
      | inr no_gap ↦ rw no_gap (
          behind (ends_before no_gap apart) (λ ends.
            first_fit-Answers size (m.vmarea.end + 1) top r c gaps i.end_aligned al'
              (omega (arith, ends)) small))
    ]
  where
    here :
        leb (add_usize search size) m.vmarea.start ≡ true → Fits size search top ((j, m) ∷ r) search
    here fits = record {
      from_search = omega arith;
      upto_top = below;
      on_boundary = al;
      free = λ v p q.
          mapped_below j v ((j, m) ∷ r) (e, omega arith, i, c)
            (omega (tests, fits, e, q, below, small));
    }

    ends_before :
        leb (add_usize search size) m.vmarea.start ≡ false
        → (m.vmarea.end < top) ⊎ (top + size ≤ m.vmarea.start)
        → m.vmarea.end < top
    ends_before no_gap (inl ends) = ends
    ends_before no_gap (inr starts) = absurd (omega (tests, no_gap, starts, below, small))

    later :
        (o : Option ℕ)
        → Answers size (m.vmarea.end + 1) top r o
        → Answers size search top ((j, m) ∷ r) o
    later none full = full
    later (some s) f = record {
      from_search = omega (arith, f.from_search, i.ordered, le, e);
      upto_top = f.upto_top;
      on_boundary = f.on_boundary;
      free = λ v p q. rw (past v (omega (arith, f.from_search, p))) (f.free v p q);
    }
      where
        past : (v : ℕ) → m.vmarea.end < v → within m.vmarea v ≡ false
        past v h = ground (arith, h)

    behind :
        m.vmarea.end < top
        → (m.vmarea.end < top
            → Answers size (m.vmarea.end + 1) top r (first_fit page_size size (m.vmarea.end + 1) r))
        → Answers size search top
            ((j, m) ∷ r)
            (first_fit page_size size (align_up page_size (add_usize m.vmarea.end 1)) r)
    behind ends rest =
        rw next_page (later (first_fit page_size size (m.vmarea.end + 1) r) (rest ends))
      where
        next_page : align_up page_size (add_usize m.vmarea.end 1) ≡ m.vmarea.end + 1
        next_page = omega (arith, ends, i.end_aligned, al', small)

-- No map runs across the address.
abbrev pub Unstraddled : ℕ → List (ℕ × VirtualMemoryMap) → Type 0
Unstraddled base mm = (w : VirtualMemoryMap) → mapped base mm ≡ some w → base ≤ w.vmarea.start

-- The maps from the base on are all that is mapped there.
from-base :
    (lo base top size : ℕ) (mm : List (ℕ × VirtualMemoryMap))
    → Chain lo mm
    → Unstraddled base mm
    → Gap top size mm
    → Chain base (BTreeMap.from base mm)
      × Gap top size (BTreeMap.from base mm)
      × ((v : ℕ) → base ≤ v → mapped v (BTreeMap.from base mm) ≡ mapped v mm)
unfolding BTreeMap.from
from-base lo base top size [] c free gap = (tt, tt, λ v h. refl)
from-base lo base top size ((j, m) ∷ r) (e, le, i, c) free (apart, gaps) =
    elim (Bool-cases (leb base j)) [
      | inl behind ↦ rw behind ((e, omega (tests, behind), i, c), (apart, gaps), λ v h. refl)
      | inr before ↦
          (let rest = from-base (m.vmarea.end + 1) base top size r c (rest_free before) gaps in
            rw before (rest.0, rest.1, λ v h. rest.2 v h ∙ (rw (past before v h) refl)))
    ]
  where
    ends_before : leb base j ≡ false → m.vmarea.end < base
    ends_before before = elim (Bool-cases (leb base m.vmarea.end)) [
      | inr ends ↦ omega (tests, ends)
      | inl covers ↦ absurd (
          omega (
            tests,
            before,
            free m (
                rw (and_true _ _ (le→leb m.vmarea.start base (omega (tests, before))) covers) refl),
          ))
    ]

    past : leb base j ≡ false → (v : ℕ) → base ≤ v → within m.vmarea v ≡ false
    past before v h = ground (arith, h, ends_before before)

    rest_free : leb base j ≡ false → Unstraddled base r
    rest_free before w h = free w (rw (past before base (omega arith)) h)

-- What `find_unmapped_area` returned, where `top` is an address that would do.
abbrev pub Placed : Manager → ℕ → ℕ → Option ℕ → Type 0
Placed vm size top none = max_user_addr < top + align_up page_size size
Placed vm size top (some s) =
    (vm.mmap_base ≤ s)
    × (s ≤ top)
    × (s % page_size ≡ 0)
    × ((v : ℕ) → s ≤ v → v < s + size → mapped v vm.memmap ≡ none)

-- `find_unmapped_area` with page alignment, as the kernel calls it, is a first fit. Let the base be
-- on a page boundary and no map run across it, let the size be rounded up to pages without a wrap,
-- and let `top` be any page boundary from the base on where that many bytes are unmapped and end
-- below 2 ^ 64. Then the search returns an address on a page boundary, between the base and `top`,
-- from which on `size` bytes are unmapped, or it returns none and the area at `top` ends above the
-- user's part of the address space.
pub find_unmapped_area-Placed :
    (vm : Manager) (size top : ℕ)
    → IsValid vm
    → size + page_size < usize_mod
    → vm.mmap_base % page_size ≡ 0
    → top % page_size ≡ 0
    → vm.mmap_base ≤ top
    → top + align_up page_size size < usize_mod
    → Gap top (align_up page_size size) vm.memmap
    → Unstraddled vm.mmap_base vm.memmap
    → Placed vm size top (find_unmapped_area vm size page_size)
unfolding find_unmapped_area
find_unmapped_area-Placed vm size top i small al al' le in_space gap free =
    placed
      (first_fit page_size (align_up page_size size) vm.mmap_base
        (BTreeMap.from vm.mmap_base vm.memmap))
      (first_fit-Answers (align_up page_size size) vm.mmap_base top
        (BTreeMap.from vm.mmap_base vm.memmap) part.0 part.1 al al' le in_space)
  where
    part :
        Chain vm.mmap_base (BTreeMap.from vm.mmap_base vm.memmap)
        × Gap top (align_up page_size size) (BTreeMap.from vm.mmap_base vm.memmap)
        × ((v : ℕ)
            → vm.mmap_base ≤ v
            → mapped v (BTreeMap.from vm.mmap_base vm.memmap) ≡ mapped v vm.memmap)
    part = from-base 0 vm.mmap_base top (align_up page_size size) vm.memmap i.chain free gap

    placed :
        (o : Option ℕ)
        → Answers
            (align_up page_size size)
            vm.mmap_base
            top
            (BTreeMap.from vm.mmap_base vm.memmap)
            o
        → Placed vm size top o
    placed none full = full
    placed (some s) fits = (
      fits.from_search,
      fits.upto_top,
      fits.on_boundary,
      λ v p q.
          sym (part.2 v (omega (arith, fits.from_search, p)))
          ∙ fits.free v p (omega (arith, q, page_up size small)),
    )

-- Sums wrap as in a release build. The gaps counted by `get_memory_stats`, behind a map that ends at `prev`.
gaps_from : Option ℕ → List (ℕ × VirtualMemoryMap) → ℕ
gaps_from prev [] = 0
gaps_from none ((_, m) ∷ r) = gaps_from (some m.vmarea.end) r
gaps_from (some prev) ((_, m) ∷ r) =
    (if ltb (add_usize prev 1) m.vmarea.start then 1 else 0) + gaps_from (some m.vmarea.end) r

total_size : List (ℕ × VirtualMemoryMap) → ℕ
total_size [] = 0
total_size ((_, m) ∷ r) = add_usize (add_usize (m.vmarea.end - m.vmarea.start) 1) (total_size r)

unfoldable pub get_memory_stats : Manager → ℕ × ℕ × ℕ
unfolding gaps_from total_size
get_memory_stats vm = (length vm.memmap, total_size vm.memmap, gaps_from none vm.memmap)
