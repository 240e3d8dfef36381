-- ===== src/Ext2/InodeCache/Refines.antt =====
-- The cache does what the list of its entries does.
use scarlet.Common.{
  leb, if◌then◌else◌, length, ℕ, ◌+◌, ◌%◌, ◌^◌, ◌<◌, ◌≡◌, refl, sym, ap, ap₂, subst, ◌∙◌, Bool,
  true, false, Option, none, some, List, [], ◌∷◌, ◌++◌, arith,
}
use scarlet.Ext2.InodeCache.{
  InodeLruCache, new, remove_tail, insert_new, set_inode, put, insert, len,
}
use scarlet.Ext2.InodeCache.Order.{Entry, but_last, find}
use scarlet.Ext2.InodeCache.Entries.{Split, find-Split}
use scarlet.Ext2.InodeCache.Rep.{node_id, Rep, with_inode, move_to_head-Rep}
use scarlet.Ext2.InodeCache.Lru.{
  Op, gets, inserts, removes, put_first, lru_step, lru_run, step, run,
}
use scarlet.Ext2.InodeCache.Steps.{remove_tail-Rep}
use scarlet.Ext2.InodeCache.Insert.{insert_new-Rep, set_inode-Rep}
use scarlet.Ext2.InodeCache.Pairs.{
  pairs, inode_of, lookup-pairs, but_last-pairs, length-pairs, find-but_last, pairs-first,
}
use scarlet.Ext2.InodeCache.Answers.{Steps, counted-Rep, remove_tail-same, get-Steps, remove-Steps}

module _ {A : Type 0} where
  insert-Steps :
      (c : InodeLruCache A) (es : List (Entry A)) (k : ℕ) (v : A)
      → Rep c es
      → c.next_id + 1 < 2 ^ 32
      → Steps c (lru_step c.max_size (pairs es) (inserts k v)) (insert c k v, none)
  unfolding insert put insert_new
  insert-Steps c es k v r few =
      subst (λ x. Steps c (put_first c.max_size k v (pairs es) x, none) (insert c k v, none))
        (sym (lookup-pairs k es))
        (subst
          (λ m.
            Steps c (put_first c.max_size k v (pairs es) (inode_of (find k es)), none)
              (put counted k v m, none))
          (sym (r.index k)) (by_found (find k es) refl))
    where
      counted : InodeLruCache A
      counted = record c { access_counter = (c.access_counter + 1) % 2 ^ 64 }

      before : Rep counted es
      before = counted-Rep c counted es refl refl refl refl refl r

      by_full :
          (b : Bool)
          → find k es ≡ none
          → Steps c
              ((k, v) ∷ (if b then but_last (pairs es) else pairs es), none)
              (insert_new (if b then remove_tail counted else counted) k v, none)
      by_full false f =
          ((_, insert_new-Rep counted es k v before f few, refl), refl, omega (arith, few), refl)
      by_full true f =
          let (next_id, size) = remove_tail-same counted in
          (
            (
              _,
              insert_new-Rep (remove_tail counted) (but_last es) k v
                  (remove_tail-Rep counted es before) (find-but_last k es f)
                  (omega (arith, next_id, few)),
              ap (λ xs. (k, v) ∷ xs) (sym (but_last-pairs es)),
            ),
            refl,
            omega (arith, next_id, few),
            size,
          )

      by_found :
          (o : Option (Entry A))
          → find k es ≡ o
          → Steps c
              (put_first c.max_size k v (pairs es) (inode_of o), none)
              (put counted k v (node_id o), none)
      by_found none f =
          subst
            (λ n.
              Steps c ((k, v) ∷ (if leb c.max_size n then but_last (pairs es) else pairs es), none)
                (put counted k v none, none))
            (r.size ∙ sym (length-pairs es)) (by_full (leb c.max_size c.nodes.len) f)
      by_found (some e) f =
          let s : Split k es e = find-Split k es e f in
          let replaced : Rep (set_inode counted e.id v) (s.front ++ with_inode v e ∷ s.back) =
            set_inode-Rep counted s.front e s.back v (subst (Rep counted) s.whole before) in
          let (rep, (_, _, next_id, size)) =
            move_to_head-Rep (set_inode counted e.id v) s.front (with_inode v e) s.back replaced in
          (
            (with_inode v e ∷ (s.front ++ s.back), rep, pairs-first k es e v s),
            refl,
            omega (arith, next_id),
            size,
          )

  step-Steps :
      (c : InodeLruCache A) (es : List (Entry A)) (op : Op A)
      → Rep c es
      → c.next_id + 1 < 2 ^ 32
      → Steps c (lru_step c.max_size (pairs es) op) (step c op)
  step-Steps c es (gets k) r few = get-Steps c es k r
  step-Steps c es (inserts k v) r few = insert-Steps c es k v r few
  step-Steps c es (removes k) r few = remove-Steps c es k r

  run-from :
      (c : InodeLruCache A) (es : List (Entry A)) (ops : List (Op A))
      → Rep c es
      → c.next_id + length ops < 2 ^ 32
      → run c ops ≡ lru_run c.max_size (pairs es) ops
  unfolding run lru_run len
  run-from c es [] r few = refl
  run-from c es (op ∷ ops) r few =
      let ((es', rep, are), answer, next_id, size) = step-Steps c es op r (omega (arith, few)) in
      let few' : (step c op).0.next_id + length ops < 2 ^ 32 = omega (arith, few, next_id) in
      let answered : ((step c op).1, (step c op).0.nodes.len)
          ≡ ((lru_step c.max_size (pairs es) op).1, length (lru_step c.max_size (pairs es) op).0) =
        ap₂ (λ x n. (x, n)) answer (rep.size ∙ sym (length-pairs es') ∙ ap length are) in
      ap₂ (λ x xs. x ∷ xs) answered
        (run-from (step c op).0 es' ops rep few' ∙ ap₂ (λ m xs. lru_run m xs ops) size are)

  -- Any sequence of fewer than 2 ^ 32 calls of `get`, `insert` and `remove` on a new cache gets the
  -- answers, and leaves the numbers of inodes, that a plain list gives which holds the most recently
  -- used inode first: a call of `get` that finds an inode moves it to the front, an insertion
  -- replaces an inode or drops the last one if the list is full, and the new one is the first.
  pub run-Lru :
      (max : ℕ) (ops : List (Op A)) → length ops < 2 ^ 32 → run (new max) ops ≡ lru_run max [] ops
  unfolding new
  run-Lru max_size ops few = run-from (new max_size) [] ops empty-Rep (omega (arith, few))
    where
      empty-Rep : Rep {A = A} (new max_size) []
      empty-Rep = record {
        chain = record { linked = λ i. refl; head = refl; tail = refl; once = tt };
        inodes_once = tt;
        index = λ k. refl;
        size = refl;
        below = tt;
      }
