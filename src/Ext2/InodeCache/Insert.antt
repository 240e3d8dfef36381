-- ===== src/Ext2/InodeCache/Insert.antt =====
-- A new entry, and a new inode for an entry that is there.
use mathlib.Core.Option
use scarlet.Common.HashMap
use scarlet.Common.HashMap.{HashMap, with_key, insert}
use scarlet.Common.{
  ◌==◌, if◌then◌else◌, ==_refl, Bool-cases, length, All, contains, Distinct, ℕ, suc, ◌+◌, ◌%◌, ◌^◌,
  ◌<◌, ◌≡◌, refl, sym, ap, subst, ◌∙◌, inl, inr, Bool, true, false, Option, none, some, List, [],
  ◌∷◌, ◌++◌, arith,
}
use scarlet.Ext2.InodeCache.{InodeLruNode, InodeLruCache, new_node, insert_new, set_inode}
use scarlet.Ext2.InodeCache.Order.{Entry, ids, numbers, find, first, last}
use scarlet.Ext2.InodeCache.Neighbours.{Link, seen, link, node_of, node_of-none}
use scarlet.Ext2.InodeCache.Chain.{shown, not_in_front}
use scarlet.Ext2.InodeCache.Front.{put_front-Chain, point_back-len}
use scarlet.Ext2.InodeCache.Entries.{find-none}
use scarlet.Ext2.InodeCache.Rep.{node_id, Rep, with_inode}

below-fresh : (n : ℕ) (xs : List ℕ) → All (λ i. i < n) xs → contains n xs ≡ false
below-fresh n [] h = refl
below-fresh n (x ∷ xs) h = ground (arith, h.0, below-fresh n xs h.1)

All-below_suc : (n : ℕ) (xs : List ℕ) → All (λ i. i < n) xs → All (λ i. i < n + 1) xs
All-below_suc n [] h = tt
All-below_suc n (x ∷ xs) h = (omega (arith, h.0), All-below_suc n xs h.1)

module _ {A : Type 0} where
  -- A new entry is the first one, if its number is a new one.
  pub insert_new-Rep :
      (c : InodeLruCache A) (es : List (Entry A)) (k : ℕ) (v : A)
      → Rep c es
      → find k es ≡ none
      → c.next_id + 1 < 2 ^ 32
      → Rep (insert_new c k v) (record { id = c.next_id; inode_num = k; inode = v } ∷ es)
  unfolding insert_new
  insert_new-Rep c es k v r absent few = record {
    chain =
        put_front-Chain added e es
          (rw (==_refl c.next_id) (ap (λ n. some (link none e n)) r.chain.head))
          (λ i ne. rw ne (r.chain.linked i)) r.chain.head r.chain.tail (fresh, r.chain.once);
    inodes_once = (find-none k es absent, r.inodes_once);
    index = λ j. elim (Bool-cases (j == k)) [ inl t ↦ rw t refl | inr t ↦ rw t (r.index j) ];
    size = point_back-len added.nodes c.head c.next_id ∙ by_node (c.nodes.get c.next_id) no_node;
    below = (
      rw next (omega arith),
      subst (λ n. All (λ i. i < n) (ids es)) (sym next) (All-below_suc c.next_id (ids es) r.below),
    );
  }
    where
      e : Entry A
      e = record { id = c.next_id; inode_num = k; inode = v }

      added : InodeLruCache A
      added = record c {
        next_id = (c.next_id + 1) % 2 ^ 32;
        nodes = HashMap.insert c.next_id (new_node c k v) c.nodes;
        map = HashMap.insert k c.next_id c.map;
      }

      fresh : contains c.next_id (ids es) ≡ false
      fresh = below-fresh c.next_id (ids es) r.below

      next : (c.next_id + 1) % 2 ^ 32 ≡ c.next_id + 1
      next = omega (arith, few)

      no_node : Option.map seen (c.nodes.get c.next_id) ≡ none
      no_node = r.chain.linked c.next_id ∙ node_of-none none es c.next_id fresh

      by_node :
          (o : Option (InodeLruNode A))
          → Option.map seen o ≡ none
          → with_key o c.nodes.len ≡ suc (length es)
      by_node none f = omega (arith, r.size)
      by_node (some x) f = cc f

  first-with_inode :
      (es : List (Entry A)) (e : Entry A) (fs : List (Entry A)) (v : A)
      → first (es ++ with_inode v e ∷ fs) ≡ first (es ++ e ∷ fs)
  first-with_inode [] e fs v = refl
  first-with_inode (a ∷ es) e fs v = refl

  last-with_inode :
      (p : Option ℕ) (es : List (Entry A)) (e : Entry A) (fs : List (Entry A)) (v : A)
      → last p (es ++ with_inode v e ∷ fs) ≡ last p (es ++ e ∷ fs)
  last-with_inode p [] e fs v = refl
  last-with_inode p (a ∷ es) e fs v = last-with_inode (some a.id) es e fs v

  ids-with_inode :
      (es : List (Entry A)) (e : Entry A) (fs : List (Entry A)) (v : A)
      → ids (es ++ with_inode v e ∷ fs) ≡ ids (es ++ e ∷ fs)
  ids-with_inode [] e fs v = refl
  ids-with_inode (a ∷ es) e fs v = ap (λ xs. a.id ∷ xs) (ids-with_inode es e fs v)

  numbers-with_inode :
      (es : List (Entry A)) (e : Entry A) (fs : List (Entry A)) (v : A)
      → numbers (es ++ with_inode v e ∷ fs) ≡ numbers (es ++ e ∷ fs)
  numbers-with_inode [] e fs v = refl
  numbers-with_inode (a ∷ es) e fs v = ap (λ xs. a.inode_num ∷ xs) (numbers-with_inode es e fs v)

  node_id-with_inode :
      (k : ℕ) (es : List (Entry A)) (e : Entry A) (fs : List (Entry A)) (v : A)
      → node_id (find k (es ++ with_inode v e ∷ fs)) ≡ node_id (find k (es ++ e ∷ fs))
  node_id-with_inode k [] e fs v = elim (Bool-cases (k == e.inode_num)) [
    | inl t ↦ rw t refl
    | inr t ↦ rw t refl
  ]
  node_id-with_inode k (a ∷ es) e fs v = elim (Bool-cases (k == a.inode_num)) [
    | inl t ↦ rw t refl
    | inr t ↦ rw t (node_id-with_inode k es e fs v)
  ]

  length-with_inode :
      (es : List (Entry A)) (e : Entry A) (fs : List (Entry A)) (v : A)
      → length (es ++ with_inode v e ∷ fs) ≡ length (es ++ e ∷ fs)
  length-with_inode [] e fs v = refl
  length-with_inode (a ∷ es) e fs v = ap suc (length-with_inode es e fs v)

  abbrev pub relabel : A → Link A → Link A
  relabel v l = record l { inode = v }

  node_of-with_inode :
      (p : Option ℕ) (es : List (Entry A)) (e : Entry A) (fs : List (Entry A)) (v : A) (i : ℕ)
      → Distinct (ids (es ++ e ∷ fs))
      → node_of p (es ++ with_inode v e ∷ fs) i ≡ (
          if i == e.id
          then Option.map (relabel v) (node_of p (es ++ e ∷ fs) i)
          else node_of p (es ++ e ∷ fs) i)
  node_of-with_inode p [] e fs v i d = elim (Bool-cases (i == e.id)) [
    | inl t ↦ rw t refl
    | inr t ↦ rw t refl
  ]
  node_of-with_inode p (a ∷ es) e fs v i d = elim (Bool-cases (i == a.id)) [
    | inr t ↦ rw t (node_of-with_inode (some a.id) es e fs v i d.1)
    | inl t ↦
        (let other : (i == e.id) ≡ false = ground (arith, t, not_in_front (a ∷ es) e fs d) in
          rw (t, other) (ap (λ n. some (link p a n)) (first-with_inode es e fs v)))
  ]

  shown-set_inode :
      (v : A) (n : ℕ) (o : Option (InodeLruNode A))
      → Option.map seen
          (Option.map {A = InodeLruNode A} (λ x. record x { inode = v; access_count = n }) o)
        ≡ Option.map (relabel v) (Option.map seen o)
  shown-set_inode v n none = refl
  shown-set_inode v n (some x) = refl

  -- The inode of an entry is replaced.
  pub set_inode-Rep :
      (c : InodeLruCache A) (es : List (Entry A)) (e : Entry A) (fs : List (Entry A)) (v : A)
      → Rep c (es ++ e ∷ fs)
      → Rep (set_inode c e.id v) (es ++ with_inode v e ∷ fs)
  set_inode-Rep c es e fs v r = record {
    chain = record {
      linked = linked;
      head = r.chain.head ∙ sym (first-with_inode es e fs v);
      tail = r.chain.tail ∙ sym (last-with_inode none es e fs v);
      once = subst Distinct (sym (ids-with_inode es e fs v)) r.chain.once;
    };
    inodes_once = subst Distinct (sym (numbers-with_inode es e fs v)) r.inodes_once;
    index = λ k. r.index k ∙ sym (node_id-with_inode k es e fs v);
    size = r.size ∙ sym (length-with_inode es e fs v);
    below = subst (All (λ i. i < c.next_id)) (sym (ids-with_inode es e fs v)) r.below;
  }
    where
      linked : (i : ℕ) → shown (set_inode c e.id v) i ≡ node_of none (es ++ with_inode v e ∷ fs) i
      linked i = by_test (i == e.id) refl ∙ sym (node_of-with_inode none es e fs v i r.chain.once)
        where
          by_test :
              (b : Bool)
              → (i == e.id) ≡ b
              → shown (set_inode c e.id v) i ≡ (
                  if i == e.id
                  then Option.map (relabel v) (node_of none (es ++ e ∷ fs) i)
                  else node_of none (es ++ e ∷ fs) i)
          by_test true t = rw t (
              shown-set_inode v c.access_counter (c.nodes.get i)
              ∙ ap (Option.map (relabel v)) (r.chain.linked i))
          by_test false t = rw t (r.chain.linked i)
