-- ===== src/Ext2/InodeCache/Answers.antt =====
-- `get` and `remove` on the list of entries.
use mathlib.Core.Option
use scarlet.Common.HashMap
use scarlet.Common.{
  ==_refl, All, ℕ, ◌+◌, ◌%◌, ◌^◌, ◌≤◌, ◌<◌, ◌≡◌, refl, sym, ap, subst, ◌∙◌, Option, none, some,
  List, ◌∷◌, ◌++◌, arith,
}
use scarlet.Ext2.InodeCache.{
  InodeLruNode, InodeLruCache, move_to_head, remove_node, forget, evict, remove_tail, touch, get,
  take_out, remove,
}
use scarlet.Ext2.InodeCache.Order.{Entry, ids, find, first}
use scarlet.Ext2.InodeCache.Chain.{remove_node_from_list-same}
use scarlet.Ext2.InodeCache.Entries.{Split, find-Split, without-none}
use scarlet.Ext2.InodeCache.Rep.{node_id, Rep, move_to_head-Rep}
use scarlet.Ext2.InodeCache.Lru.{gets, removes, leave_out, used, lru_step}
use scarlet.Ext2.InodeCache.Neighbours.{Link, seen, link}
use scarlet.Ext2.InodeCache.Steps.{removed-Rep}
use scarlet.Ext2.InodeCache.Pairs.{pairs, inode_of, lookup-pairs, leave_out-pairs, pairs-first}

module _ {A : Type 0} where
  -- The state after an operation stands for what the list comes to, and one more node number is
  -- used up at most.
  abbrev pub Steps : InodeLruCache A → List (ℕ × A) × Option A → InodeLruCache A × Option A → Type 0
  Steps c (xs, answer) (c', answer') =
      ((es : List (Entry A)) × (Rep c' es) × (pairs es ≡ xs))
      × (answer' ≡ answer)
      × (c'.next_id ≤ c.next_id + 1)
      × (c'.max_size ≡ c.max_size)

  -- A state that differs in its counters only.
  pub counted-Rep :
      (c c' : InodeLruCache A) (es : List (Entry A))
      → c'.map ≡ c.map
      → c'.nodes ≡ c.nodes
      → c'.head ≡ c.head
      → c'.tail ≡ c.tail
      → c'.next_id ≡ c.next_id
      → Rep c es
      → Rep c' es
  counted-Rep c c' es map nodes head tail next_id r = record {
    chain = record {
      linked = λ i. ap (λ m. Option.map seen (m.get i)) nodes ∙ r.chain.linked i;
      head = head ∙ r.chain.head;
      tail = tail ∙ r.chain.tail;
      once = r.chain.once;
    };
    inodes_once = r.inodes_once;
    index = λ k. ap (λ m. m.get k) map ∙ r.index k;
    size = ap (λ m. m.len) nodes ∙ r.size;
    below = subst (λ n. All (λ i. i < n) (ids es)) (sym next_id) r.below;
  }

  pub remove_tail-same :
      (c : InodeLruCache A)
      → ((remove_tail c).next_id ≡ c.next_id) × ((remove_tail c).max_size ≡ c.max_size)
  unfolding remove_tail evict remove_node
  remove_tail-same c = by_tail c.tail
    where
      by_node :
          (id : ℕ) (o : Option (InodeLruNode A))
          → ((remove_node (forget c o) id).next_id ≡ c.next_id)
            × ((remove_node (forget c o) id).max_size ≡ c.max_size)
      by_node id none = remove_node_from_list-same c id
      by_node id (some x) = remove_node_from_list-same (forget c (some x)) id

      by_tail :
          (o : Option ℕ) → ((evict c o).next_id ≡ c.next_id) × ((evict c o).max_size ≡ c.max_size)
      by_tail none = (refl, refl)
      by_tail (some id) = by_node id (c.nodes.get id)

  inode-seen :
      (o : Option (InodeLruNode A)) (l : Link A)
      → Option.map seen o ≡ some l
      → Option.map (λ x. x.inode) o ≡ some l.inode
  inode-seen none l h = cc h
  inode-seen (some x) l h = ap (Option.map (λ l. l.inode)) h

  pub get-Steps :
      (c : InodeLruCache A) (es : List (Entry A)) (k : ℕ)
      → Rep c es
      → Steps c (lru_step c.max_size (pairs es) (gets k)) (get c k)
  unfolding get touch
  get-Steps c es k r =
      subst (λ x. Steps c (used k (pairs es) x, x) (get c k)) (sym (lookup-pairs k es))
        (subst
          (λ m.
            Steps c (used k (pairs es) (inode_of (find k es)), inode_of (find k es)) (touch c m))
          (sym (r.index k)) (by_found (find k es) refl))
    where
      hit : InodeLruCache A
      hit = record c { hits = (c.hits + 1) % 2 ^ 64 }

      by_found :
          (o : Option (Entry A))
          → find k es ≡ o
          → Steps c (used k (pairs es) (inode_of o), inode_of o) (touch c (node_id o))
      by_found none f =
          ((es, counted-Rep c _ es refl refl refl refl refl r, refl), refl, omega arith, refl)
      by_found (some e) f =
          let s : Split k es e = find-Split k es e f in
          let before : Rep hit (s.front ++ e ∷ s.back) =
            subst (Rep hit) s.whole (counted-Rep c hit es refl refl refl refl refl r) in
          let (rep, (_, _, next_id, size)) = move_to_head-Rep hit s.front e s.back before in
          (
            (e ∷ (s.front ++ s.back), rep, pairs-first k es e e.inode s),
            inode-seen ((move_to_head hit e.id).nodes.get e.id)
                (link none e (first (s.front ++ s.back)))
                (rep.chain.linked e.id ∙ (rw (==_refl e.id) refl)),
            omega (arith, next_id),
            size,
          )

  pub remove-Steps :
      (c : InodeLruCache A) (es : List (Entry A)) (k : ℕ)
      → Rep c es
      → Steps c (lru_step c.max_size (pairs es) (removes k)) (remove c k, none)
  unfolding remove take_out remove_node
  remove-Steps c es k r =
      subst (λ m. Steps c (leave_out k (pairs es), none) (take_out c k m, none)) (sym (r.index k))
        (by_found (find k es) refl)
    where
      by_found :
          (o : Option (Entry A))
          → find k es ≡ o
          → Steps c (leave_out k (pairs es), none) (take_out c k (node_id o), none)
      by_found none f = (
        (es, r, ap pairs (sym (without-none k es f)) ∙ sym (leave_out-pairs k es)),
        refl,
        omega arith,
        refl,
      )
      by_found (some e) f =
          let s : Split k es e = find-Split k es e f in
          let (next_id, size) = remove_node_from_list-same c e.id in
          (
            (
              s.front ++ s.back,
              subst
                  (λ n.
                    Rep
                      (record (remove_node c e.id) {
                        map = HashMap.remove n (remove_node c e.id).map;
                      })
                      (s.front ++ s.back))
                  s.number (removed-Rep c s.front e s.back (subst (Rep c) s.whole r)),
              ap pairs (sym s.rest) ∙ sym (leave_out-pairs k es),
            ),
            refl,
            omega (arith, next_id),
            size,
          )
