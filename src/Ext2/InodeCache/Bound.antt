-- ===== src/Ext2/InodeCache/Bound.antt =====
-- The size of the cache.
use scarlet.Common.{
  leb, ◌==◌, Bool-cases, length, All, ℕ, ◌-◌, ◌^◌, ◌≤◌, ◌<◌, ◌≡◌, refl, sym, subst, inl, inr,
  Option, none, some, List, [], ◌∷◌, arith,
}
use scarlet.Ext2.InodeCache.{new}
use scarlet.Ext2.InodeCache.Order.{but_last}
use scarlet.Ext2.InodeCache.Lru.{
  Op, gets, inserts, removes, lookup, leave_out, used, put_first, lru_step, lru_run, run,
}
use scarlet.Ext2.InodeCache.Refines.{run-Lru}

module _ {A : Type 0} where
  length-leave_out : (k : ℕ) (xs : List (ℕ × A)) → length (leave_out k xs) ≤ length xs
  length-leave_out k [] = omega arith
  length-leave_out k ((j, v) ∷ xs) = ground (arith, length-leave_out k xs)

  length-found :
      (k : ℕ) (xs : List (ℕ × A)) (v : A)
      → lookup k xs ≡ some v
      → length (leave_out k xs) < length xs
  length-found k [] v h = cc h
  length-found k ((j, w) ∷ xs) v h = elim (Bool-cases (k == j)) [
    | inl t ↦ rw t (omega arith)
    | inr t ↦ rw t (omega (arith, length-found k xs v (rw t at h)))
  ]

  length-but_last : (xs : List (ℕ × A)) → length (but_last xs) ≡ length xs - 1
  length-but_last [] = refl
  length-but_last (x ∷ []) = refl
  length-but_last (x ∷ y ∷ xs) = omega (arith, length-but_last (y ∷ xs))

  length-lru_step :
      (max_size : ℕ) (xs : List (ℕ × A)) (op : Op A)
      → 0 < max_size
      → length xs ≤ max_size
      → length (lru_step max_size xs op).0 ≤ max_size
  length-lru_step max_size xs (removes k) pos le = omega (arith, le, length-leave_out k xs)
  length-lru_step max_size xs (gets k) pos le = by_found (lookup k xs) refl
    where
      by_found : (o : Option A) → lookup k xs ≡ o → length (used k xs o) ≤ max_size
      by_found none f = le
      by_found (some v) f = omega (arith, le, length-found k xs v f)
  length-lru_step max_size xs (inserts k v) pos le = by_found (lookup k xs) refl
    where
      by_found : (o : Option A) → lookup k xs ≡ o → length (put_first max_size k v xs o) ≤ max_size
      by_found (some w) f = omega (arith, le, length-found k xs w f)
      by_found none f = elim (Bool-cases (leb max_size (length xs))) [
        | inl full ↦ rw full (omega (arith, length-but_last xs, le, pos))
        | inr room ↦ rw room (ground (arith, room))
      ]

  length-lru_run :
      (max_size : ℕ) (xs : List (ℕ × A)) (ops : List (Op A))
      → 0 < max_size
      → length xs ≤ max_size
      → All (λ o. o.1 ≤ max_size) (lru_run max_size xs ops)
  unfolding lru_run
  length-lru_run max_size xs [] pos le = tt
  length-lru_run max_size xs (op ∷ ops) pos le =
      let step = length-lru_step max_size xs op pos le in
      (step, length-lru_run max_size (lru_step max_size xs op).0 ops pos step)

  -- A cache made for at least one inode never holds more inodes than it was made for, whatever is
  -- asked of it, fewer than 2 ^ 32 times.
  pub run-bounded :
      (max_size : ℕ) (ops : List (Op A))
      → 0 < max_size
      → length ops < 2 ^ 32
      → All (λ o. o.1 ≤ max_size) (run (new max_size) ops)
  run-bounded max_size ops pos few =
      subst (All (λ o. o.1 ≤ max_size)) (sym (run-Lru max_size ops few))
        (length-lru_run max_size [] ops pos (omega arith))
