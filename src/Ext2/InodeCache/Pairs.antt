-- ===== src/Ext2/InodeCache/Pairs.antt =====
-- The entries as a caller of the cache knows them.
use scarlet.Common.{
  ◌==◌, Bool-cases, length, ℕ, suc, ◌≡◌, refl, sym, ap, ◌∙◌, inl, inr, Option, none, some, List, [],
  ◌∷◌, ◌++◌,
}
use scarlet.Ext2.InodeCache.Order.{Entry, but_last, find, without}
use scarlet.Ext2.InodeCache.Entries.{Split}
use scarlet.Ext2.InodeCache.Lru.{lookup, leave_out}

module _ {A : Type 0} where
  -- What a caller knows of the entries.
  abbrev pub pairs : List (Entry A) → List (ℕ × A)
  pairs [] = []
  pairs (e ∷ es) = (e.inode_num, e.inode) ∷ pairs es

  abbrev pub inode_of : Option (Entry A) → Option A
  inode_of none = none
  inode_of (some e) = some e.inode

  pub lookup-pairs : (k : ℕ) (es : List (Entry A)) → lookup k (pairs es) ≡ inode_of (find k es)
  lookup-pairs k [] = refl
  lookup-pairs k (e ∷ es) = elim (Bool-cases (k == e.inode_num)) [
    | inl t ↦ rw t refl
    | inr t ↦ rw t (lookup-pairs k es)
  ]

  pub leave_out-pairs :
      (k : ℕ) (es : List (Entry A)) → leave_out k (pairs es) ≡ pairs (without k es)
  leave_out-pairs k [] = refl
  leave_out-pairs k (e ∷ es) = elim (Bool-cases (k == e.inode_num)) [
    | inl t ↦ rw t refl
    | inr t ↦ rw t (ap (λ xs. (e.inode_num, e.inode) ∷ xs) (leave_out-pairs k es))
  ]

  pub but_last-pairs : (es : List (Entry A)) → but_last (pairs es) ≡ pairs (but_last es)
  but_last-pairs [] = refl
  but_last-pairs (e ∷ []) = refl
  but_last-pairs (e ∷ f ∷ es) = ap (λ xs. (e.inode_num, e.inode) ∷ xs) (but_last-pairs (f ∷ es))

  pub length-pairs : (es : List (Entry A)) → length (pairs es) ≡ length es
  length-pairs [] = refl
  length-pairs (e ∷ es) = ap suc (length-pairs es)

  pub find-but_last : (k : ℕ) (es : List (Entry A)) → find k es ≡ none → find k (but_last es) ≡ none
  find-but_last k [] h = refl
  find-but_last k (e ∷ []) h = refl
  find-but_last k (e ∷ f ∷ es) h = elim (Bool-cases (k == e.inode_num)) [
    | inl t ↦ (let bad : some e ≡ none = rw t at h in cc bad)
    | inr t ↦ rw t (find-but_last k (f ∷ es) (rw t at h))
  ]

  -- An entry put first, as a caller sees it.
  pub pairs-first :
      (k : ℕ) (es : List (Entry A)) (e : Entry A) (v : A) (s : Split k es e)
      → (e.inode_num, v) ∷ pairs (s.front ++ s.back) ≡ (k, v) ∷ leave_out k (pairs es)
  pairs-first k es e v s =
      ap (λ n. (n, v) ∷ pairs (s.front ++ s.back)) s.number
      ∙ ap (λ xs. (k, v) ∷ xs) (ap pairs (sym s.rest) ∙ sym (leave_out-pairs k es))
