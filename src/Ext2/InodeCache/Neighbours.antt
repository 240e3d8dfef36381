-- ===== src/Ext2/InodeCache/Neighbours.antt =====
-- The nodes of a doubly linked list: what each keeps, and which nodes stand beside it.
use mathlib.Core.Option
use scarlet.Common.NoRepeats.{contains-append}
use scarlet.Common.{
  ◌==◌, if◌then◌else◌, ==_iff, Bool-cases, contains, Distinct, ℕ, ◌≡◌, refl, sym, ap, subst, ◌∙◌,
  inl, inr, true, false, ◌||◌, Option, none, some, List, [], ◌∷◌, ◌++◌, arith,
}
use scarlet.Ext2.InodeCache.{InodeLruNode, same_id}
use scarlet.Ext2.InodeCache.Order.{Entry, ids, first, last}

-- A node without its count of accesses.
pub record Link (A : Type 0) : Type 0 where
  pub inode_num : ℕ
  pub inode : A
  pub prev : Option ℕ
  pub next : Option ℕ

module _ {A : Type 0} where
  abbrev pub seen : InodeLruNode A → Link A
  seen x = record { inode_num = x.inode_num; inode = x.inode; prev = x.prev; next = x.next }

  abbrev pub link : Option ℕ → Entry A → Option ℕ → Link A
  link p e n = record { inode_num = e.inode_num; inode = e.inode; prev = p; next = n }

  -- The node with a number, in a list that stands behind the node `p`.
  abbrev pub node_of : Option ℕ → List (Entry A) → ℕ → Option (Link A)
  node_of p [] i = none
  node_of p (e ∷ es) i = if i == e.id then some (link p e (first es)) else node_of (some e.id) es i

  abbrev pub with_next : Option ℕ → Link A → Link A
  with_next n l = record l { next = n }

  abbrev pub with_prev : Option ℕ → Link A → Link A
  with_prev p l = record l { prev = p }

  -- The pointers of one node changed.
  abbrev pub point_next : Option ℕ → Option ℕ → ℕ → Option (Link A) → Option (Link A)
  point_next o n i x = if same_id o i then Option.map (with_next n) x else x

  abbrev pub point_prev : Option ℕ → Option ℕ → ℕ → Option (Link A) → Option (Link A)
  point_prev o p i x = if same_id o i then Option.map (with_prev p) x else x

  -- The node does not belong to the list.
  abbrev pub Outside : Option ℕ → List (Entry A) → Type 0
  Outside none es = Unit
  Outside (some j) es = contains j (ids es) ≡ false

  pub node_of-none :
      (p : Option ℕ) (es : List (Entry A)) (i : ℕ)
      → contains i (ids es) ≡ false
      → node_of p es i ≡ none
  node_of-none p [] i h = refl
  node_of-none p (e ∷ es) i h = elim (Bool-cases (i == e.id)) [
    | inl same ↦ (let bad : true ≡ false = rw same at h in cc bad)
    | inr other ↦ rw other (node_of-none (some e.id) es i (rw other at h))
  ]

  -- A node put in front of a list points the first one back to itself.
  pub node_of-front :
      (p q : Option ℕ) (es : List (Entry A)) (i : ℕ)
      → node_of q es i ≡ point_prev (first es) q i (node_of p es i)
  node_of-front p q [] i = refl
  node_of-front p q (e ∷ es) i = elim (Bool-cases (i == e.id)) [
    | inl same ↦ rw same refl
    | inr other ↦ rw other refl
  ]

  pub ids-append : (es fs : List (Entry A)) → ids (es ++ fs) ≡ ids es ++ ids fs
  ids-append [] fs = refl
  ids-append (e ∷ es) fs = rw (ids-append es fs) refl

  pub contains-ids_append :
      (i : ℕ) (es fs : List (Entry A))
      → contains i (ids (es ++ fs)) ≡ (contains i (ids es) || contains i (ids fs))
  contains-ids_append i es fs =
      ap (contains i) (ids-append es fs) ∙ contains-append i (ids es) (ids fs)

  pub first-outside :
      (i : ℕ) (es : List (Entry A)) → contains i (ids es) ≡ false → same_id (first es) i ≡ false
  first-outside i [] h = refl
  first-outside i (e ∷ es) h = ground (arith, h)

  pub last-outside :
      (i j : ℕ) (es : List (Entry A))
      → (i == j) ≡ false
      → contains i (ids es) ≡ false
      → same_id (last (some j) es) i ≡ false
  last-outside i j [] h k = h
  last-outside i j (e ∷ es) h k = last-outside i e.id es (ground (arith, k)) (ground (arith, k))

  point_next-Outside :
      (p n q : Option ℕ) (es : List (Entry A)) (i : ℕ)
      → Outside p es
      → point_next p n i (node_of q es i) ≡ node_of q es i
  point_next-Outside none n q es i h = refl
  point_next-Outside (some j) n q es i h = elim (Bool-cases (i == j)) [
    | inr other ↦ rw other refl
    | inl same ↦
        (let gone : node_of q es i ≡ none =
            node_of-none q es i
              (subst (λ k. contains k (ids es) ≡ false) (sym ((==_iff i j).0 same)) h) in
          rw (same, gone) refl)
  ]

  Outside-tail :
      (p : Option ℕ) (e : Entry A) (es : List (Entry A)) → Outside p (e ∷ es) → Outside p es
  Outside-tail none e es h = tt
  Outside-tail (some j) e es h = ground (arith, h)

  -- A node leaves the list: the one before it points to the one behind it, which points back.
  pub node_of-unlink :
      (p : Option ℕ) (front : List (Entry A)) (e : Entry A) (back : List (Entry A)) (i : ℕ)
      → Distinct (ids (front ++ e ∷ back))
      → Outside p (front ++ e ∷ back)
      → (i == e.id) ≡ false
      → node_of p (front ++ back) i
        ≡ point_prev
            (first back)
            (last p front)
            i
            (point_next (last p front) (first back) i (node_of p (front ++ e ∷ back) i))
  node_of-unlink p [] e back i d o ne =
      rw (ne, point_next-Outside p (first back) (some e.id) back i (Outside-tail p e back o))
        (node_of-front (some e.id) p back i)
  node_of-unlink p (a ∷ front) e back i d o ne = elim (Bool-cases (i == a.id)) [
    | inr other ↦ rw other (node_of-unlink (some a.id) front e back i d.1 d.0 ne)
    | inl same ↦ rw same (at_head front same (not_back same) (in_front same))
  ]
    where
      here : (i == a.id) ≡ true → contains i (ids (front ++ e ∷ back)) ≡ false
      here same =
          subst (λ k. contains k (ids (front ++ e ∷ back)) ≡ false) (sym ((==_iff i a.id).0 same))
            d.0

      not_back : (i == a.id) ≡ true → same_id (first back) i ≡ false
      not_back same =
          first-outside i back (ground (arith, contains-ids_append i front (e ∷ back), here same))

      in_front : (i == a.id) ≡ true → contains i (ids front) ≡ false
      in_front same = ground (arith, contains-ids_append i front (e ∷ back), here same)

      at_head :
          (fs : List (Entry A))
          → (i == a.id) ≡ true
          → same_id (first back) i ≡ false
          → contains i (ids fs) ≡ false
          → some (link p a (first (fs ++ back)))
            ≡ point_prev (first back) (last (some a.id) fs) i (
                point_next
                  (last (some a.id) fs)
                  (first back)
                  i
                  (some (link p a (first (fs ++ e ∷ back)))))
      at_head [] same nb nf = rw (nb, same) refl
      at_head (f ∷ fs) same nb nf =
          rw (nb, last-outside i f.id fs (ground (arith, nf)) (ground (arith, nf))) refl
