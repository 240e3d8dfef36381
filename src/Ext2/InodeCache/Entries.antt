-- ===== src/Ext2/InodeCache/Entries.antt =====
-- Lists of entries: the one of an inode found, taken out and put first.
use scarlet.Common.{
  ◌==◌, if◌then◌else◌, ==_iff, Bool-cases, length, All, contains, Distinct, ℕ, suc, ◌<◌, ◌≡◌, refl,
  sym, ap, subst, inl, inr, Bool, true, false, none, some, List, [], ◌∷◌, ◌++◌, arith,
}
use scarlet.Common.NoRepeats.{Distinct-middle, Distinct-first}
use scarlet.Ext2.InodeCache.Order.{Entry, ids, numbers, find, without}

module _ {A : Type 0} where
  numbers-append : (es fs : List (Entry A)) → numbers (es ++ fs) ≡ numbers es ++ numbers fs
  numbers-append [] fs = refl
  numbers-append (e ∷ es) fs = rw (numbers-append es fs) refl

  -- The entry that is found, with those in front of it and those behind.
  pub record Split (k : ℕ) (es : List (Entry A)) (e : Entry A) : Type 0 where
    pub front : List (Entry A)
    pub back : List (Entry A)
    pub whole : es ≡ front ++ e ∷ back
    pub rest : without k es ≡ front ++ back
    pub number : e.inode_num ≡ k

  pub find-Split : (k : ℕ) (es : List (Entry A)) (e : Entry A) → find k es ≡ some e → Split k es e
  find-Split k [] e h = cc h
  find-Split k (a ∷ es) e h = by_test (k == a.inode_num) refl (find-Split k es e)
    where
      by_test :
          (b : Bool)
          → (k == a.inode_num) ≡ b
          → (find k es ≡ some e → Split k es e)
          → Split k (a ∷ es) e
      by_test true t _ =
          let here : some a ≡ some e = rw t at h in
          let is : a ≡ e = cc here in
          record {
            front = [];
            back = es;
            whole = ap (λ x. x ∷ es) is;
            rest = rw t refl;
            number = sym ((==_iff k e.inode_num).0 (subst (λ x. (k == x.inode_num) ≡ true) is t));
          }
      by_test false t later =
          let s = later (rw t at h) in
          record {
            front = a ∷ s.front;
            back = s.back;
            whole = ap (λ xs. a ∷ xs) s.whole;
            rest = rw t (ap (λ xs. a ∷ xs) s.rest);
            number = s.number;
          }

  pub find-none : (k : ℕ) (es : List (Entry A)) → find k es ≡ none → contains k (numbers es) ≡ false
  find-none k [] h = refl
  find-none k (e ∷ es) h = elim (Bool-cases (k == e.inode_num)) [
    | inl t ↦ (let bad : some e ≡ none = rw t at h in cc bad)
    | inr t ↦ rw t (find-none k es (rw t at h))
  ]

  pub without-none : (k : ℕ) (es : List (Entry A)) → find k es ≡ none → without k es ≡ es
  without-none k [] h = refl
  without-none k (e ∷ es) h = elim (Bool-cases (k == e.inode_num)) [
    | inl t ↦ (let bad : some e ≡ none = rw t at h in cc bad)
    | inr t ↦ rw t (ap (λ xs. e ∷ xs) (without-none k es (rw t at h)))
  ]

  absent-find : (k : ℕ) (es : List (Entry A)) → contains k (numbers es) ≡ false → find k es ≡ none
  absent-find k [] h = refl
  absent-find k (e ∷ es) h = ground (arith, h, absent-find k es)

  -- Another inode is found whether or not an entry stands there.
  find-skip :
      (k : ℕ) (es : List (Entry A)) (e : Entry A) (fs : List (Entry A))
      → (k == e.inode_num) ≡ false
      → find k (es ++ e ∷ fs) ≡ find k (es ++ fs)
  find-skip k [] e fs h = rw h refl
  find-skip k (a ∷ es) e fs h = rw (find-skip k es e fs h) refl

  pub Distinct-numbers_first :
      (es : List (Entry A)) (e : Entry A) (fs : List (Entry A))
      → Distinct (numbers (es ++ e ∷ fs))
      → Distinct (numbers (e ∷ (es ++ fs)))
  Distinct-numbers_first es e fs d =
      subst (λ xs. Distinct (e.inode_num ∷ xs)) (sym (numbers-append es fs))
        (Distinct-first (numbers es) e.inode_num (numbers fs)
          (subst Distinct (numbers-append es (e ∷ fs)) d))

  find-middle :
      (k : ℕ) (es : List (Entry A)) (e : Entry A) (fs : List (Entry A))
      → (k == e.inode_num) ≡ true
      → Distinct (numbers (es ++ e ∷ fs))
      → find k (es ++ e ∷ fs) ≡ some e
  find-middle k [] e fs t d = rw t refl
  find-middle k (a ∷ es) e fs t d =
      let apart : contains e.inode_num (numbers (a ∷ es)) ≡ false =
        Distinct-middle (numbers (a ∷ es)) e.inode_num (numbers fs)
          (subst Distinct (numbers-append (a ∷ es) (e ∷ fs)) d) in
      let other : (k == a.inode_num) ≡ false = ground (arith, t, apart) in
      rw other (find-middle k es e fs t d.1)

  -- The entry is not found once it is out, and the others are as before.
  pub find-out :
      (k : ℕ) (es : List (Entry A)) (e : Entry A) (fs : List (Entry A))
      → Distinct (numbers (es ++ e ∷ fs))
      → find k (es ++ fs) ≡ (if k == e.inode_num then none else find k (es ++ e ∷ fs))
  find-out k es e fs d = elim (Bool-cases (k == e.inode_num)) [
    | inr t ↦ rw t (sym (find-skip k es e fs t))
    | inl t ↦
        rw (t, (==_iff k e.inode_num).0 t)
          (absent-find e.inode_num (es ++ fs) (Distinct-numbers_first es e fs d).0)
  ]

  -- The entry put first is found as before, and so are the others.
  pub find-first :
      (k : ℕ) (es : List (Entry A)) (e : Entry A) (fs : List (Entry A))
      → Distinct (numbers (es ++ e ∷ fs))
      → find k (e ∷ (es ++ fs)) ≡ find k (es ++ e ∷ fs)
  find-first k es e fs d = elim (Bool-cases (k == e.inode_num)) [
    | inr t ↦ rw t (sym (find-skip k es e fs t))
    | inl t ↦ rw t (sym (find-middle k es e fs t d))
  ]

  pub length-first :
      (es : List (Entry A)) (e : Entry A) (fs : List (Entry A))
      → length (es ++ e ∷ fs) ≡ suc (length (es ++ fs))
  length-first [] e fs = refl
  length-first (a ∷ es) e fs = rw (length-first es e fs) refl

  pub All-ids_first :
      (n : ℕ) (es : List (Entry A)) (e : Entry A) (fs : List (Entry A))
      → All (λ i. i < n) (ids (es ++ e ∷ fs))
      → All (λ i. i < n) (ids (e ∷ (es ++ fs)))
  All-ids_first n [] e fs h = h
  All-ids_first n (a ∷ es) e fs h =
      let rest = All-ids_first n es e fs h.1 in (rest.0, (h.0, rest.1))
