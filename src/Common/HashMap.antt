-- ===== src/Common/HashMap.antt =====
-- `HashMap<usize, V>` of the standard library, as its lookup and its number of entries.
use Prim.Native.Nat.{ℕ, ◌+◌, ◌-◌}
use mathlib.Core.Option
use mathlib.Core.Option.{Option, none, some}
use scarlet.Common.Tests.{◌==◌, if◌then◌else◌}

pub record HashMap {ℓ} (V : Type ℓ) : Type ℓ where
  pub get : ℕ → Option V
  pub len : ℕ

module _ {ℓ} {V : Type ℓ} where
  abbrev pub empty : HashMap V
  empty = record { get = λ k. none; len = 0 }

  -- The entries after one more key, and after one less.
  abbrev pub with_key : Option V → ℕ → ℕ
  with_key none n = n + 1
  with_key (some _) n = n

  abbrev pub without_key : Option V → ℕ → ℕ
  without_key none n = n
  without_key (some _) n = n - 1

  abbrev pub insert : ℕ → V → HashMap V → HashMap V
  insert k v m = record {
    get = λ j. if j == k then some v else m.get j;
    len = with_key (m.get k) m.len;
  }

  abbrev pub remove : ℕ → HashMap V → HashMap V
  remove k m = record {
    get = λ j. if j == k then none else m.get j;
    len = without_key (m.get k) m.len;
  }

  -- A write through the reference of `get_mut`, if there is an entry.
  abbrev pub modify : ℕ → (V → V) → HashMap V → HashMap V
  modify k f m = record m { get = λ j. if j == k then Option.map f (m.get j) else m.get j }
