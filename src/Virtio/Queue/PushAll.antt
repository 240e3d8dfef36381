-- ===== src/Virtio/Queue/PushAll.antt =====
-- The stack of free descriptors after the members of a chain are pushed on it.
use scarlet.Common.{
  ◌==◌, ==_iff, ==_refl, Bool-cases, length, All, contains, Distinct, ℕ, ◌+◌, ◌<◌, ◌≡◌, refl, subst,
  inl, inr, true, false, ◌||◌, List, [], ◌∷◌, arith,
}
use scarlet.Virtio.Queue.Chains.{push_all}

pub length-push_all : (xs ys : List ℕ) → length (push_all xs ys) ≡ length xs + length ys
length-push_all [] ys = omega arith
length-push_all (x ∷ xs) ys = omega (arith, length-push_all xs (x ∷ ys))

pub contains-push_all :
    (a : ℕ) (xs ys : List ℕ) → contains a (push_all xs ys) ≡ (contains a xs || contains a ys)
contains-push_all a [] ys = refl
contains-push_all a (x ∷ xs) ys = ground (arith, contains-push_all a xs (x ∷ ys))

pub push_all-Distinct :
    (xs ys : List ℕ)
    → Distinct xs
    → Distinct ys
    → ((a : ℕ) → contains a xs ≡ true → contains a ys ≡ false)
    → Distinct (push_all xs ys)
push_all-Distinct [] ys dx dy apart = dy
push_all-Distinct (x ∷ xs) ys dx dy apart =
    push_all-Distinct xs (x ∷ ys) dx.1 (apart x (ground (arith, ==_refl x)), dy) later
  where
    later : (a : ℕ) → contains a xs ≡ true → contains a (x ∷ ys) ≡ false
    later a h = elim (Bool-cases (a == x)) [
      | inr ne ↦ rw ne (apart a (ground (arith, h)))
      | inl eq ↦
          (let bad : contains x xs ≡ true =
              subst (λ k. contains k xs ≡ true) ((==_iff a x).0 eq) h in
            cc (bad, dx.0))
    ]

pub push_all-below :
    (m : ℕ) (xs ys : List ℕ)
    → All (λ i. i < m) xs
    → All (λ i. i < m) ys
    → All (λ i. i < m) (push_all xs ys)
push_all-below m [] ys hx hy = hy
push_all-below m (x ∷ xs) ys hx hy = push_all-below m xs (x ∷ ys) hx.1 (hx.0, hy)
