-- ===== src/Ext2/InodeCache/Steps.antt =====
-- The steps that `insert` and `remove` are made of, on what the cache stands for.
use mathlib.Core.Option
use scarlet.Common.HashMap
use scarlet.Common.HashMap.{HashMap, remove}
use scarlet.Common.{
  ◌==◌, if◌then◌else◌, ℕ, ◌≡◌, refl, sym, ap, subst, ◌∙◌, Option, none, some, List, [], ◌∷◌, ◌++◌,
  append-nil,
}
use scarlet.Ext2.InodeCache.{
  InodeLruNode, InodeLruCache, remove_node_from_list, remove_node, forget, evict, remove_tail,
}
use scarlet.Ext2.InodeCache.Order.{Entry, but_last, last}
use scarlet.Ext2.InodeCache.Neighbours.{Link, seen, link}
use scarlet.Ext2.InodeCache.Chain.{Chain, Unlinked, node_of-middle, remove_node_from_list-Unlinked}
use scarlet.Ext2.InodeCache.Rep.{Rep, dropped-Rep}

module _ {A : Type 0} where
  pub removed-Rep :
      (c : InodeLruCache A) (es : List (Entry A)) (e : Entry A) (fs : List (Entry A))
      → Rep c (es ++ e ∷ fs)
      → Rep
          (record (remove_node c e.id) {
            map = HashMap.remove e.inode_num (remove_node c e.id).map;
          })
          (es ++ fs)
  unfolding remove_node
  removed-Rep c es e fs r =
      let u = remove_node_from_list-Unlinked c es e fs r.chain in
      dropped-Rep c c (remove_node_from_list c e.id) _ es e fs r refl refl u refl
        (λ k. ap (λ m. if k == e.inode_num then none else m.get k) u.same_map) refl refl refl

  -- The last entry and those in front of it.
  snoc_view :
      (d : Entry A) (es : List (Entry A))
      → (xs : List (Entry A)) × (e : Entry A) × (d ∷ es ≡ xs ++ e ∷ [])
        × (but_last (d ∷ es) ≡ xs)
        × (last none (d ∷ es) ≡ some e.id)
  snoc_view d [] = ([], d, refl, refl, refl)
  snoc_view d (f ∷ es) =
      let (xs, e, whole, rest, at) = snoc_view f es in
      (d ∷ xs, e, ap (λ l. d ∷ l) whole, ap (λ l. d ∷ l) rest, at)

  -- The node at the tail and its inode are dropped.
  evicted-Rep :
      (c : InodeLruCache A) (es : List (Entry A)) (e : Entry A)
      → Rep c (es ++ e ∷ [])
      → Rep (remove_node (forget c (c.nodes.get e.id)) e.id) es
  unfolding remove_node
  evicted-Rep c es e r = by_node (c.nodes.get e.id) refl
    where
      at : Option.map seen (c.nodes.get e.id) ≡ some (link (last none es) e none)
      at = r.chain.linked e.id ∙ node_of-middle none es e [] r.chain.once

      number_of : ℕ → Option (Link A) → ℕ
      number_of n none = n
      number_of n (some l) = l.inode_num

      chain_of : (x : InodeLruNode A) → Chain (forget c (some x)) (es ++ e ∷ [])
      chain_of x = record {
        linked = r.chain.linked;
        head = r.chain.head;
        tail = r.chain.tail;
        once = r.chain.once;
      }

      by_node :
          (o : Option (InodeLruNode A))
          → c.nodes.get e.id ≡ o
          → Rep (remove_node (forget c o) e.id) es
      by_node none f = (let bad : none ≡ some (link (last none es) e none) = rw f at at in cc bad)
      by_node (some x) f =
          let seen_x : some (seen x) ≡ some (link (last none es) e none) = rw f at at in
          let number : x.inode_num ≡ e.inode_num = ap (number_of e.inode_num) seen_x in
          let forgot : InodeLruCache A = forget c (some x) in
          let u : Unlinked forgot (remove_node_from_list forgot e.id) e (es ++ []) =
            remove_node_from_list-Unlinked forgot es e [] (chain_of x) in
          subst (Rep (remove_node forgot e.id)) (append-nil es) (
            dropped-Rep c forgot (remove_node_from_list forgot e.id) _ es e [] r refl refl u refl
              (λ k.
                ap (λ m. m.get k) u.same_map
                ∙ ap (λ n. if k == n then none else c.map.get k) number)
              refl refl refl)

  pub remove_tail-Rep :
      (c : InodeLruCache A) (es : List (Entry A)) → Rep c es → Rep (remove_tail c) (but_last es)
  unfolding remove_tail evict
  remove_tail-Rep c [] r = subst (λ o. Rep (evict c o) []) (sym r.chain.tail) r
  remove_tail-Rep c (d ∷ es) r =
      let (xs, e, whole, rest, at) = snoc_view d es in
      subst (λ o. Rep (evict c o) (but_last (d ∷ es))) (sym (r.chain.tail ∙ at))
        (subst (Rep (evict c (some e.id))) (sym rest) (evicted-Rep c xs e (subst (Rep c) whole r)))
