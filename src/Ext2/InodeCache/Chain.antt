-- ===== src/Ext2/InodeCache/Chain.antt =====
-- The doubly linked list inside the cache: nodes leave it and are put at its front.
use mathlib.Core.Option
use scarlet.Common.NoRepeats.{Distinct-middle}
use scarlet.Common.{
  ◌==◌, ==_refl, Bool-cases, contains, Distinct, ℕ, ◌≡◌, refl, sym, ap, subst, ◌∙◌, inl, inr, false,
  Option, none, some, List, [], ◌∷◌, ◌++◌, append-nil, arith,
}
use scarlet.Ext2.InodeCache.{
  InodeLruNode, InodeLruCache, same_id, set_prev, set_next, link_prev, link_next, unlink,
  remove_node_from_list, len,
}
use scarlet.Ext2.InodeCache.Order.{Entry, ids, first, last}
use scarlet.Ext2.InodeCache.Neighbours.{
  Link, seen, link, node_of, with_next, with_prev, point_next, point_prev, ids-append,
  first-outside, last-outside, node_of-unlink,
}

-- The head and the tail after a node left from between two others.
abbrev kept : Option ℕ → Option ℕ → Option ℕ → Option ℕ
kept none now old = now
kept (some _) now old = old

module _ {A : Type 0} where
  abbrev pub shown : InodeLruCache A → ℕ → Option (Link A)
  shown c i = Option.map seen (c.nodes.get i)

  -- The nodes are linked in the order of the entries.
  pub record Chain (c : InodeLruCache A) (es : List (Entry A)) : Type 0 where
    pub linked : (i : ℕ) → shown c i ≡ node_of none es i
    pub head : c.head ≡ first es
    pub tail : c.tail ≡ last none es
    pub once : Distinct (ids es)

  -- The same after a node left the list, which itself is still among the nodes.
  pub record Unlinked (c c' : InodeLruCache A) (e : Entry A) (es : List (Entry A)) : Type 0 where
    pub others : (i : ℕ) → (i == e.id) ≡ false → shown c' i ≡ node_of none es i
    pub itself : (p n : Option ℕ) × (shown c' e.id ≡ some (link p e n))
    pub head : c'.head ≡ first es
    pub tail : c'.tail ≡ last none es
    pub same_map : c'.map ≡ c.map
    pub same_len : c'.nodes.len ≡ c.nodes.len
    pub same_id : c'.next_id ≡ c.next_id
    pub same_size : c'.max_size ≡ c.max_size

  seen-set_next :
      (n : Option ℕ) (x : Option (InodeLruNode A))
      → Option.map seen (Option.map (set_next n) x) ≡ Option.map (with_next n) (Option.map seen x)
  seen-set_next n none = refl
  seen-set_next n (some x) = refl

  pub seen-set_prev :
      (n : Option ℕ) (x : Option (InodeLruNode A))
      → Option.map seen (Option.map (set_prev n) x) ≡ Option.map (with_prev n) (Option.map seen x)
  seen-set_prev n none = refl
  seen-set_prev n (some x) = refl

  shown-link_prev :
      (c : InodeLruCache A) (o n : Option ℕ) (i : ℕ)
      → shown (link_prev c o n) i ≡ point_next o n i (shown c i)
  shown-link_prev c none n i = refl
  shown-link_prev c (some p) n i = elim (Bool-cases (i == p)) [
    | inl e ↦ rw e (seen-set_next n (c.nodes.get i))
    | inr e ↦ rw e refl
  ]

  shown-link_next :
      (c : InodeLruCache A) (o p : Option ℕ) (i : ℕ)
      → shown (link_next c o p) i ≡ point_prev o p i (shown c i)
  shown-link_next c none p i = refl
  shown-link_next c (some n) p i = elim (Bool-cases (i == n)) [
    | inl e ↦ rw e (seen-set_prev p (c.nodes.get i))
    | inr e ↦ rw e refl
  ]

  cut : InodeLruCache A → Option ℕ → Option ℕ → InodeLruCache A
  cut c p n = link_next (link_prev c p n) n p

  abbrev Rest : InodeLruCache A → InodeLruCache A → Option ℕ → Option ℕ → Type 0
  Rest c c' p n =
      (c'.head ≡ kept p n c.head)
      × (c'.tail ≡ kept n p c.tail)
      × (c'.map ≡ c.map)
      × (c'.nodes.len ≡ c.nodes.len)
      × (c'.next_id ≡ c.next_id)
      × (c'.max_size ≡ c.max_size)

  cut-Rest : (c : InodeLruCache A) (p n : Option ℕ) → Rest c (cut c p n) p n
  unfolding cut
  cut-Rest c none none = (refl, refl, refl, refl, refl, refl)
  cut-Rest c none (some n) = (refl, refl, refl, refl, refl, refl)
  cut-Rest c (some p) none = (refl, refl, refl, refl, refl, refl)
  cut-Rest c (some p) (some n) = (refl, refl, refl, refl, refl, refl)

  last-append :
      (p : Option ℕ) (es : List (Entry A)) (e : Entry A) (fs : List (Entry A))
      → last p (es ++ e ∷ fs) ≡ last (some e.id) fs
  last-append p [] e fs = refl
  last-append p (d ∷ es) e fs = last-append (some d.id) es e fs

  pub last-some : (j : ℕ) (es : List (Entry A)) → (k : ℕ) × (last (some j) es ≡ some k)
  last-some j [] = (j, refl)
  last-some j (e ∷ es) = last-some e.id es

  pub not_in_front :
      (es : List (Entry A)) (e : Entry A) (fs : List (Entry A))
      → Distinct (ids (es ++ e ∷ fs))
      → contains e.id (ids es) ≡ false
  not_in_front es e fs d =
      Distinct-middle (ids es) e.id (ids fs) (subst Distinct (ids-append es (e ∷ fs)) d)

  not_behind :
      (es : List (Entry A)) (e : Entry A) (fs : List (Entry A))
      → Distinct (ids (es ++ e ∷ fs))
      → contains e.id (ids fs) ≡ false
  not_behind [] e fs d = d.0
  not_behind (a ∷ es) e fs d = not_behind es e fs d.1

  -- The node of an entry, with its neighbours.
  pub node_of-middle :
      (p : Option ℕ) (es : List (Entry A)) (e : Entry A) (fs : List (Entry A))
      → Distinct (ids (es ++ e ∷ fs))
      → node_of p (es ++ e ∷ fs) e.id ≡ some (link (last p es) e (first fs))
  node_of-middle p [] e fs d = rw (==_refl e.id) refl
  node_of-middle p (a ∷ es) e fs d =
      let other : (e.id == a.id) ≡ false = ground (arith, not_in_front (a ∷ es) e fs d) in
      rw other (node_of-middle (some a.id) es e fs d.1)

  before-outside :
      (es : List (Entry A)) (e : Entry A)
      → contains e.id (ids es) ≡ false
      → same_id (last none es) e.id ≡ false
  before-outside [] e h = refl
  before-outside (a ∷ es) e h = last-outside e.id a.id es (ground (arith, h)) (ground (arith, h))

  head-kept :
      (es : List (Entry A)) (e : Entry A) (fs : List (Entry A))
      → kept (last none es) (first fs) (first (es ++ e ∷ fs)) ≡ first (es ++ fs)
  head-kept [] e fs = refl
  head-kept (a ∷ es) e fs = let (k, is) = last-some a.id es in rw is refl

  tail-kept :
      (es : List (Entry A)) (e : Entry A) (fs : List (Entry A))
      → kept (first fs) (last none es) (last none (es ++ e ∷ fs)) ≡ last none (es ++ fs)
  tail-kept es e [] = ap (last none) (sym (append-nil es))
  tail-kept es e (f ∷ fs) = last-append none es e (f ∷ fs) ∙ sym (last-append none es f fs)

  shown-cut :
      (c : InodeLruCache A) (p n : Option ℕ) (i : ℕ)
      → shown (cut c p n) i ≡ point_prev n p i (point_next p n i (shown c i))
  unfolding cut
  shown-cut c p n i =
      shown-link_next (link_prev c p n) n p i ∙ ap (point_prev n p i) (shown-link_prev c p n i)

  abbrev pointer : (Link A → Option ℕ) → Option (Link A) → Option ℕ
  pointer f none = none
  pointer f (some l) = f l

  -- A node leaves the list from between the entries before it and those behind it.
  pub remove_node_from_list-Unlinked :
      (c : InodeLruCache A) (es : List (Entry A)) (e : Entry A) (fs : List (Entry A))
      → Chain c (es ++ e ∷ fs)
      → Unlinked c (remove_node_from_list c e.id) e (es ++ fs)
  unfolding remove_node_from_list unlink cut
  remove_node_from_list-Unlinked c es e fs h = by_node (c.nodes.get e.id) refl
    where
      at : shown c e.id ≡ some (link (last none es) e (first fs))
      at = h.linked e.id ∙ node_of-middle none es e fs h.once

      is_cut : Unlinked c (cut c (last none es) (first fs)) e (es ++ fs)
      is_cut =
          let (head, tail, map, len, next_id, size) = cut-Rest c (last none es) (first fs) in
          record {
            others = λ i ne.
                shown-cut c (last none es) (first fs) i
                ∙ ap
                    (λ x.
                      point_prev (first fs) (last none es) i
                        (point_next (last none es) (first fs) i x))
                    (h.linked i)
                ∙ sym (node_of-unlink none es e fs i h.once tt ne);
            itself = (
              last none es,
              first fs,
              shown-cut c (last none es) (first fs) e.id
                  ∙ (rw
                      (
                        before-outside es e (not_in_front es e fs h.once),
                        first-outside e.id fs (not_behind es e fs h.once),
                      )
                      at),
            );
            head = head ∙ ap (kept (last none es) (first fs)) h.head ∙ head-kept es e fs;
            tail = tail ∙ ap (kept (first fs) (last none es)) h.tail ∙ tail-kept es e fs;
            same_map = map;
            same_len = len;
            same_id = next_id;
            same_size = size;
          }

      by_node :
          (o : Option (InodeLruNode A))
          → c.nodes.get e.id ≡ o
          → Unlinked c (unlink c o) e (es ++ fs)
      by_node none f =
          (let bad : none ≡ some (link (last none es) e (first fs)) = rw f at at in cc bad)
      by_node (some x) f =
          let same : some (seen x) ≡ some (link (last none es) e (first fs)) = rw f at at in
          subst (λ p. Unlinked c (cut c p x.next) e (es ++ fs))
            (sym (ap (pointer (λ l. l.prev)) same))
            (subst (λ n. Unlinked c (cut c (last none es) n) e (es ++ fs))
              (sym (ap (pointer (λ l. l.next)) same)) is_cut)

  -- No node number is used up, and the bound stays.
  pub remove_node_from_list-same :
      (c : InodeLruCache A) (id : ℕ)
      → ((remove_node_from_list c id).next_id ≡ c.next_id)
        × ((remove_node_from_list c id).max_size ≡ c.max_size)
  unfolding remove_node_from_list unlink cut
  remove_node_from_list-same c id = by_node (c.nodes.get id)
    where
      by_node :
          (o : Option (InodeLruNode A))
          → ((unlink c o).next_id ≡ c.next_id) × ((unlink c o).max_size ≡ c.max_size)
      by_node none = (refl, refl)
      by_node (some x) =
          let (_, _, _, _, next_id, size) = cut-Rest c x.prev x.next in (next_id, size)
