-- ===== src/Ext2/InodeCache/Order.antt =====
-- What the cache stands for: its entries, the most recently used first.
use scarlet.Common.{◌==◌, if◌then◌else◌, ℕ, Option, none, some, List, [], ◌∷◌}

-- An inode with its number and the number of the node that keeps it.
pub record Entry (A : Type 0) : Type 0 where
  pub id : ℕ
  pub inode_num : ℕ
  pub inode : A

-- All but the last one.
abbrev pub but_last : {B : Type 0} → List B → List B
but_last [] = []
but_last (e ∷ []) = []
but_last (e ∷ f ∷ es) = e ∷ but_last (f ∷ es)

module _ {A : Type 0} where
  abbrev pub ids : List (Entry A) → List ℕ
  ids [] = []
  ids (e ∷ es) = e.id ∷ ids es

  abbrev pub numbers : List (Entry A) → List ℕ
  numbers [] = []
  numbers (e ∷ es) = e.inode_num ∷ numbers es

  -- The entry of an inode, and the others without it.
  abbrev pub find : ℕ → List (Entry A) → Option (Entry A)
  find k [] = none
  find k (e ∷ es) = if k == e.inode_num then some e else find k es

  abbrev pub without : ℕ → List (Entry A) → List (Entry A)
  without k [] = []
  without k (e ∷ es) = if k == e.inode_num then es else e ∷ without k es

  abbrev pub first : List (Entry A) → Option ℕ
  first [] = none
  first (e ∷ es) = some e.id

  -- The last entry's node, and `p` if there is none.
  abbrev pub last : Option ℕ → List (Entry A) → Option ℕ
  last p [] = p
  last p (e ∷ es) = last (some e.id) es
