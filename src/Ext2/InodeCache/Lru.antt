-- ===== src/Ext2/InodeCache/Lru.antt =====
-- The cache as a list of inodes, the most recently used first, and the same operations on the
-- cache of the source.
use scarlet.Common.{leb, ◌==◌, if◌then◌else◌, length, ℕ, Option, none, some, List, [], ◌∷◌}
use scarlet.Ext2.InodeCache.{InodeLruCache, get, insert, remove, len}
use scarlet.Ext2.InodeCache.Order.{but_last}

pub data Op (A : Type 0) : Type 0 where
  gets : ℕ → Op A
  inserts : ℕ → A → Op A
  removes : ℕ → Op A

module _ {A : Type 0} where
  abbrev pub lookup : ℕ → List (ℕ × A) → Option A
  lookup k [] = none
  lookup k ((j, v) ∷ xs) = if k == j then some v else lookup k xs

  abbrev pub leave_out : ℕ → List (ℕ × A) → List (ℕ × A)
  leave_out k [] = []
  leave_out k ((j, v) ∷ xs) = if k == j then xs else (j, v) ∷ leave_out k xs

  -- Room for one more: the least recently used inode goes if there are `max_size` of them.
  abbrev pub evicted : ℕ → List (ℕ × A) → List (ℕ × A)
  evicted max_size xs = if leb max_size (length xs) then but_last xs else xs

  abbrev pub used : ℕ → List (ℕ × A) → Option A → List (ℕ × A)
  used k xs none = xs
  used k xs (some v) = (k, v) ∷ leave_out k xs

  abbrev pub put_first : ℕ → ℕ → A → List (ℕ × A) → Option A → List (ℕ × A)
  put_first max_size k v xs none = (k, v) ∷ evicted max_size xs
  put_first max_size k v xs (some _) = (k, v) ∷ leave_out k xs

  abbrev pub lru_step : ℕ → List (ℕ × A) → Op A → List (ℕ × A) × Option A
  lru_step max_size xs (gets k) = (used k xs (lookup k xs), lookup k xs)
  lru_step max_size xs (inserts k v) = (put_first max_size k v xs (lookup k xs), none)
  lru_step max_size xs (removes k) = (leave_out k xs, none)

  -- What a caller sees: the answer of each operation, and the number of inodes after it.
  unfoldable pub lru_run : ℕ → List (ℕ × A) → List (Op A) → List (Option A × ℕ)
  lru_run max_size xs [] = []
  lru_run max_size xs (op ∷ ops) =
      let (xs', answer) = lru_step max_size xs op in (answer, length xs') ∷ lru_run max_size xs' ops

  abbrev pub step : InodeLruCache A → Op A → InodeLruCache A × Option A
  step c (gets k) = get c k
  step c (inserts k v) = (insert c k v, none)
  step c (removes k) = (remove c k, none)

  unfoldable pub run : InodeLruCache A → List (Op A) → List (Option A × ℕ)
  run c [] = []
  run c (op ∷ ops) = let (c', answer) = step c op in (answer, len c') ∷ run c' ops
