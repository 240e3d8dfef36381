-- ===== src/Ext2/InodeCache/Rep.antt =====
-- What a state of the cache stands for, and the steps that its operations are made of.
use mathlib.Core.Option
use scarlet.Common.HashMap
use scarlet.Common.HashMap.{HashMap, without_key, remove}
use scarlet.Common.{
  ◌==◌, if◌then◌else◌, ==_iff, Bool-cases, length, All, Distinct, ℕ, ◌<◌, ◌≡◌, refl, sym, ap, subst,
  ◌∙◌, inl, inr, Option, none, some, List, ◌∷◌, ◌++◌, arith,
}
use scarlet.Ext2.InodeCache.{InodeLruNode, InodeLruCache, move_to_head}
use scarlet.Ext2.InodeCache.Order.{Entry, ids, numbers, find}
use scarlet.Ext2.InodeCache.Neighbours.{seen, link, node_of, node_of-none}
use scarlet.Ext2.InodeCache.Chain.{Chain, Unlinked}
use scarlet.Ext2.InodeCache.Front.{Same, Distinct-ids_first, move_to_head-Chain}
use scarlet.Ext2.InodeCache.Entries.{
  Distinct-numbers_first, find-out, find-first, length-first, All-ids_first,
}

module _ {A : Type 0} where
  abbrev pub node_id : Option (Entry A) → Option ℕ
  node_id none = none
  node_id (some e) = some e.id

  -- The nodes are linked in the order of the entries, and the map leads to them; each inode and
  -- each number stands there once.
  pub record Rep (c : InodeLruCache A) (es : List (Entry A)) : Type 0 where
    pub chain : Chain c es
    pub inodes_once : Distinct (numbers es)
    pub index : (k : ℕ) → c.map.get k ≡ node_id (find k es)
    pub size : c.nodes.len ≡ length es
    pub below : All (λ i. i < c.next_id) (ids es)

  -- The inode of an entry replaced.
  abbrev pub with_inode : A → Entry A → Entry A
  with_inode v e = record e { inode = v }

  -- The entry of an inode is brought to the front.
  pub move_to_head-Rep :
      (c : InodeLruCache A) (es : List (Entry A)) (e : Entry A) (fs : List (Entry A))
      → Rep c (es ++ e ∷ fs)
      → Rep (move_to_head c e.id) (e ∷ (es ++ fs)) × Same c (move_to_head c e.id)
  move_to_head-Rep c es e fs r =
      let (chain, same) = move_to_head-Chain c es e fs r.chain in
      let (map, len, next_id, size) = same in
      (
        record {
          chain = chain;
          inodes_once = Distinct-numbers_first es e fs r.inodes_once;
          index = λ k.
              ap (λ m. m.get k) map
              ∙ r.index k
              ∙ ap node_id (sym (find-first k es e fs r.inodes_once));
          size = len ∙ r.size ∙ length-first es e fs;
          below =
              subst (λ n. All (λ i. i < n) (ids (e ∷ (es ++ fs)))) (sym next_id)
                (All-ids_first c.next_id es e fs r.below);
        },
        same,
      )

  -- A node that left the list is dropped, and its inode from the map.
  pub dropped-Rep :
      (c b c' d : InodeLruCache A) (es : List (Entry A)) (e : Entry A) (fs : List (Entry A))
      → Rep c (es ++ e ∷ fs)
      → b.nodes.len ≡ c.nodes.len
      → b.next_id ≡ c.next_id
      → Unlinked b c' e (es ++ fs)
      → d.nodes ≡ HashMap.remove e.id c'.nodes
      → ((k : ℕ) → d.map.get k ≡ (if k == e.inode_num then none else c.map.get k))
      → d.head ≡ c'.head
      → d.tail ≡ c'.tail
      → d.next_id ≡ c'.next_id
      → Rep d (es ++ fs)
  dropped-Rep c b c' d es e fs r len same u nodes map head tail next_id = record {
    chain = record {
      linked = λ i. ap (λ m. Option.map seen (m.get i)) nodes ∙ linked i;
      head = head ∙ u.head;
      tail = tail ∙ u.tail;
      once = (Distinct-ids_first es e fs r.chain.once).1;
    };
    inodes_once = (Distinct-numbers_first es e fs r.inodes_once).1;
    index = λ k.
        map k
        ∙ ap (λ o. if k == e.inode_num then none else o) (r.index k)
        ∙ found k
        ∙ ap node_id (sym (find-out k es e fs r.inodes_once));
    size = ap (λ m. m.len) nodes ∙ by_node (c'.nodes.get e.id) u.itself.2;
    below =
        subst (λ n. All (λ i. i < n) (ids (es ++ fs))) (sym (next_id ∙ u.same_id ∙ same))
          (All-ids_first c.next_id es e fs r.below).1;
  }
    where
      linked :
          (i : ℕ)
          → Option.map seen ((HashMap.remove e.id c'.nodes).get i) ≡ node_of none (es ++ fs) i
      linked i = elim (Bool-cases (i == e.id)) [
        | inr ne ↦ rw ne (u.others i ne)
        | inl same ↦
            rw (same, (==_iff i e.id).0 same)
              (sym (node_of-none none (es ++ fs) e.id (Distinct-ids_first es e fs r.chain.once).0))
      ]

      found :
          (k : ℕ)
          → (if k == e.inode_num then none else node_id (find k (es ++ e ∷ fs)))
            ≡ node_id (if k == e.inode_num then none else find k (es ++ e ∷ fs))
      found k = elim (Bool-cases (k == e.inode_num)) [ inl t ↦ rw t refl | inr t ↦ rw t refl ]

      by_node :
          (o : Option (InodeLruNode A))
          → Option.map seen o ≡ some (link u.itself.0 e u.itself.1)
          → without_key o c'.nodes.len ≡ length (es ++ fs)
      by_node none f = cc f
      by_node (some x) f = omega (arith, len, u.same_len, r.size, length-first es e fs)
