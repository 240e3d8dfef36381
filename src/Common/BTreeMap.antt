-- ===== src/Common/BTreeMap.antt =====
-- `BTreeMap<usize, V>` of the standard library, as the list of its entries in key order.
use Prim.Native.Nat.{ℕ}
use mathlib.Core.List.{List, [], ◌∷◌}
use mathlib.Core.Option.{Option, none, some}
use scarlet.Common.Tests.{ltb, leb, ◌==◌, if◌then◌else◌}

module _ {ℓ} {V : Type ℓ} where
  unfoldable pub get : ℕ → List (ℕ × V) → Option V
  get k [] = none
  get k ((j, w) ∷ m) = if j == k then some w else get k m

  unfoldable pub insert : ℕ → V → List (ℕ × V) → List (ℕ × V)
  insert k v [] = (k, v) ∷ []
  insert k v ((j, w) ∷ m) =
      if j == k then (k, v) ∷ m else if ltb k j then (k, v) ∷ (j, w) ∷ m else (j, w) ∷ insert k v m

  unfoldable pub remove : ℕ → List (ℕ × V) → List (ℕ × V)
  remove k [] = []
  remove k ((j, w) ∷ m) = if j == k then m else (j, w) ∷ remove k m

  -- `range(..k).next_back()`
  unfoldable pub last_below : ℕ → List (ℕ × V) → Option (ℕ × V)
  last_below k [] = none
  last_below k ((j, w) ∷ m) = elim (last_below k m) [
    | some e ↦ some e
    | none ↦ if ltb j k then some (j, w) else none
  ]

  -- `range(k..).next()`
  unfoldable pub first_from : ℕ → List (ℕ × V) → Option (ℕ × V)
  first_from k [] = none
  first_from k ((j, w) ∷ m) = if leb k j then some (j, w) else first_from k m

  -- `range(..=k).next_back()`
  unfoldable pub last_upto : ℕ → List (ℕ × V) → Option (ℕ × V)
  last_upto k [] = none
  last_upto k ((j, w) ∷ m) = elim (last_upto k m) [
    | some e ↦ some e
    | none ↦ if leb j k then some (j, w) else none
  ]

  -- `range(k..)`
  unfoldable pub from : ℕ → List (ℕ × V) → List (ℕ × V)
  from k [] = []
  from k ((j, w) ∷ m) = if leb k j then (j, w) ∷ m else from k m

  unfoldable pub values : List (ℕ × V) → List V
  values [] = []
  values ((j, w) ∷ m) = w ∷ values m
