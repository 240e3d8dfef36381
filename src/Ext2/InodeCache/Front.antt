-- ===== src/Ext2/InodeCache/Front.antt =====
-- Nodes put at the front of the cache's list.
use mathlib.Core.Option
use scarlet.Common.NoRepeats.{Distinct-first}
use scarlet.Common.{
  ◌==◌, if◌then◌else◌, ==_iff, ==_refl, Bool-cases, Distinct, ℕ, ◌≡◌, refl, sym, ap, subst, ◌∙◌,
  inl, inr, Bool, true, false, Option, none, some, List, [], ◌∷◌, ◌++◌, arith,
}
use scarlet.Common.HashMap.{HashMap}
use scarlet.Ext2.InodeCache.{
  InodeLruNode, InodeLruCache, same_id, or_else, remove_node_from_list, point_back, put_front,
  to_head, move_to_head,
}
use scarlet.Ext2.InodeCache.Order.{Entry, ids, first, last}
use scarlet.Ext2.InodeCache.Neighbours.{
  Link, seen, link, node_of, with_next, with_prev, point_prev, node_of-front, ids-append,
  first-outside,
}
use scarlet.Ext2.InodeCache.Chain.{
  shown, Chain, Unlinked, seen-set_prev, last-some, not_in_front, remove_node_from_list-Unlinked,
}

module _ {A : Type 0} where
  -- The map, the number of nodes, the next number and the bound are as they were.
  abbrev pub Same : InodeLruCache A → InodeLruCache A → Type 0
  Same c c' =
      (c'.map ≡ c.map)
      × (c'.nodes.len ≡ c.nodes.len)
      × (c'.next_id ≡ c.next_id)
      × (c'.max_size ≡ c.max_size)

  shown-point_back :
      (nodes : HashMap (InodeLruNode A)) (o : Option ℕ) (id i : ℕ)
      → Option.map seen ((point_back nodes o id).get i)
        ≡ point_prev o (some id) i (Option.map seen (nodes.get i))
  shown-point_back nodes none id i = refl
  shown-point_back nodes (some p) id i = elim (Bool-cases (i == p)) [
    | inl e ↦ rw e (seen-set_prev (some id) (nodes.get i))
    | inr e ↦ rw e refl
  ]

  or_else-last : (es : List (Entry A)) (i : ℕ) → or_else (last none es) i ≡ last (some i) es
  or_else-last [] i = refl
  or_else-last (e ∷ es) i = let (k, is) = last-some e.id es in rw is refl

  point_prev-other :
      (es : List (Entry A)) (e : Entry A) (p : Option ℕ) (x : Option (Link A))
      → Distinct (ids (e ∷ es))
      → point_prev (first es) p e.id x ≡ x
  point_prev-other es e p x d = rw (first-outside e.id es d.0) refl

  -- A node whose own pointers are set, before a list that it does not belong to.
  pub put_front-Chain :
      (c : InodeLruCache A) (e : Entry A) (es : List (Entry A))
      → shown c e.id ≡ some (link none e (first es))
      → ((i : ℕ) → (i == e.id) ≡ false → shown c i ≡ node_of none es i)
      → c.head ≡ first es
      → c.tail ≡ last none es
      → Distinct (ids (e ∷ es))
      → Chain (put_front c e.id) (e ∷ es)
  put_front-Chain c e es itself others head tail d = record {
    linked = linked;
    head = refl;
    tail = ap (λ o. or_else o e.id) tail ∙ or_else-last es e.id;
    once = d;
  }
    where
      pointed :
          (i : ℕ) → shown (put_front c e.id) i ≡ point_prev (first es) (some e.id) i (shown c i)
      pointed i =
          shown-point_back c.nodes c.head e.id i
          ∙ ap (λ o. point_prev o (some e.id) i (shown c i)) head

      linked : (i : ℕ) → shown (put_front c e.id) i ≡ node_of none (e ∷ es) i
      linked i = elim (Bool-cases (i == e.id)) [
        | inr ne ↦
            pointed i
            ∙ ap (point_prev (first es) (some e.id) i) (others i ne)
            ∙ sym (node_of-front none (some e.id) es i)
            ∙ (rw ne refl)
        | inl same ↦
            rw ((==_iff i e.id).0 same, ==_refl e.id)
              (pointed e.id ∙ point_prev-other es e (some e.id) (shown c e.id) d ∙ itself)
      ]

  pub to_head-Chain :
      (c c' : InodeLruCache A) (e : Entry A) (es : List (Entry A))
      → Unlinked c c' e es
      → Distinct (ids (e ∷ es))
      → Chain (to_head c' e.id) (e ∷ es)
  to_head-Chain c c' e es u d =
      put_front-Chain _ e es (rw (==_refl e.id) (by_node (c'.nodes.get e.id) u.itself.2))
        (λ i ne. rw ne (u.others i ne)) u.head u.tail d
    where
      by_node :
          (o : Option (InodeLruNode A))
          → Option.map seen o ≡ some (link u.itself.0 e u.itself.1)
          → Option.map seen
              (Option.map {A = InodeLruNode A} (λ x. record x { prev = none; next = c'.head }) o)
            ≡ some (link none e (first es))
      by_node none f = cc f
      by_node (some x) f =
          ap (Option.map (λ l. with_prev none (with_next c'.head l))) f
          ∙ ap (λ n. some (link none e n)) u.head

  pub point_back-len :
      (nodes : HashMap (InodeLruNode A)) (o : Option ℕ) (id : ℕ)
      → (point_back nodes o id).len ≡ nodes.len
  point_back-len nodes none id = refl
  point_back-len nodes (some p) id = refl

  pub Distinct-ids_first :
      (es : List (Entry A)) (e : Entry A) (fs : List (Entry A))
      → Distinct (ids (es ++ e ∷ fs))
      → Distinct (ids (e ∷ (es ++ fs)))
  Distinct-ids_first es e fs d =
      subst (λ xs. Distinct (e.id ∷ xs)) (sym (ids-append es fs))
        (Distinct-first (ids es) e.id (ids fs) (subst Distinct (ids-append es (e ∷ fs)) d))

  -- A node that is the head already is the first one.
  is_head :
      (es : List (Entry A)) (e : Entry A) (fs : List (Entry A))
      → Distinct (ids (es ++ e ∷ fs))
      → same_id (first (es ++ e ∷ fs)) e.id ≡ true
      → es ++ e ∷ fs ≡ e ∷ (es ++ fs)
  is_head [] e fs d s = refl
  is_head (a ∷ es) e fs d s = absurd (ground (arith, s, not_in_front (a ∷ es) e fs d))

  -- An entry's node is brought to the front, and nothing else changes.
  pub move_to_head-Chain :
      (c : InodeLruCache A) (es : List (Entry A)) (e : Entry A) (fs : List (Entry A))
      → Chain c (es ++ e ∷ fs)
      → Chain (move_to_head c e.id) (e ∷ (es ++ fs)) × Same c (move_to_head c e.id)
  unfolding move_to_head
  move_to_head-Chain c es e fs h = by_head (same_id c.head e.id) refl
    where
      u : Unlinked c (remove_node_from_list c e.id) e (es ++ fs)
      u = remove_node_from_list-Unlinked c es e fs h

      out : InodeLruCache A
      out = remove_node_from_list c e.id

      by_head :
          (b : Bool)
          → same_id c.head e.id ≡ b
          → Chain (if b then c else to_head out e.id) (e ∷ (es ++ fs))
            × Same c (if b then c else to_head out e.id)
      by_head true s = (
        subst (Chain c) (is_head es e fs h.once (subst (λ o. same_id o e.id ≡ true) h.head s)) h,
        (refl, refl, refl, refl),
      )
      by_head false s = (
        to_head-Chain c out e (es ++ fs) u (Distinct-ids_first es e fs h.once),
        (u.same_map, point_back-len _ out.head e.id ∙ u.same_len, u.same_id, u.same_size),
      )
