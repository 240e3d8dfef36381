-- ===== src/Common/NoRepeats.antt =====
-- Lists of numbers without repetition.
use Prim.Native.Nat.{ℕ, zero, suc, ◌+◌, ◌≤◌, ◌<◌}
use mathlib.Core.Path.{◌≡◌, refl, sym, subst}
use mathlib.Core.Logic.{inl, inr}
use mathlib.Core.Bool.{true, false, ◌||◌}
use mathlib.Core.List.{List, [], ◌∷◌, ◌++◌}
use native.Mathlib.Omega.{arith}
use scarlet.Common.Tests.{◌==◌, if◌then◌else◌, ==_iff, Bool-cases}
use scarlet.Common.Lists.{length, All, contains, Distinct}

pub contains-append :
    (a : ℕ) (xs ys : List ℕ) → contains a (xs ++ ys) ≡ (contains a xs || contains a ys)
contains-append a [] ys = refl
contains-append a (x ∷ xs) ys = ground (arith, contains-append a xs ys)

pub Distinct-left : (xs ys : List ℕ) → Distinct (xs ++ ys) → Distinct xs
Distinct-left [] ys d = tt
Distinct-left (x ∷ xs) ys d =
    (ground (arith, contains-append x xs ys, d.0), Distinct-left xs ys d.1)

pub Distinct-right : (xs ys : List ℕ) → Distinct (xs ++ ys) → Distinct ys
Distinct-right [] ys d = d
Distinct-right (x ∷ xs) ys d = Distinct-right xs ys d.1

-- What stands behind is not in front.
pub Distinct-middle :
    (xs : List ℕ) (n : ℕ) (ys : List ℕ) → Distinct (xs ++ n ∷ ys) → contains n xs ≡ false
Distinct-middle [] n ys d = refl
Distinct-middle (x ∷ xs) n ys d =
    ground (arith, contains-append x xs (n ∷ ys), d.0, Distinct-middle xs n ys d.1)

-- A number put first.
pub Distinct-first :
    (xs : List ℕ) (n : ℕ) (ys : List ℕ) → Distinct (xs ++ n ∷ ys) → Distinct (n ∷ (xs ++ ys))
Distinct-first [] n ys d = d
Distinct-first (x ∷ xs) n ys d =
    let rest = Distinct-first xs n ys d.1 in
    (
      ground (arith, contains-append x xs (n ∷ ys), d.0, rest.0),
      (ground (arith, contains-append x xs (n ∷ ys), contains-append x xs ys, d.0), rest.1),
    )

-- What is in front is not behind.
pub Distinct-apart :
    (xs ys : List ℕ) (a : ℕ) → Distinct (xs ++ ys) → contains a xs ≡ true → contains a ys ≡ false
Distinct-apart [] ys a d h = cc
Distinct-apart (x ∷ xs) ys a d h = elim (Bool-cases (a == x)) [
  | inr ne ↦ Distinct-apart xs ys a d.1 (ground (arith, h, ne))
  | inl e ↦
      subst (λ k. contains k ys ≡ false) (sym ((==_iff a x).0 e))
        (ground (arith, contains-append x xs ys, d.0))
]

pub All-right {ℓ κ} : {A : Type ℓ} (P : A → Type κ) (xs ys : List A) → All P (xs ++ ys) → All P ys
All-right P [] ys h = h
All-right P (x ∷ xs) ys h = All-right P xs ys h.1

pub All-left {ℓ κ} : {A : Type ℓ} (P : A → Type κ) (xs ys : List A) → All P (xs ++ ys) → All P xs
All-left P [] ys h = tt
All-left P (x ∷ xs) ys h = (h.0, All-left P xs ys h.1)

erase : ℕ → List ℕ → List ℕ
erase a [] = []
erase a (x ∷ xs) = if a == x then xs else x ∷ erase a xs

length-erase : (a : ℕ) (xs : List ℕ) → length xs ≤ length (erase a xs) + 1
unfolding erase
length-erase a [] = omega arith
length-erase a (x ∷ xs) = ground (arith, length-erase a xs)

contains-erase : (a b : ℕ) (xs : List ℕ) → contains b xs ≡ false → contains b (erase a xs) ≡ false
unfolding erase
contains-erase a b [] h = refl
contains-erase a b (x ∷ xs) h = ground (arith, h, contains-erase a b xs)

erase-Distinct : (a : ℕ) (xs : List ℕ) → Distinct xs → Distinct (erase a xs)
unfolding erase
erase-Distinct a [] d = tt
erase-Distinct a (x ∷ xs) d = elim (Bool-cases (a == x)) [
  | inl e ↦ rw e d.1
  | inr e ↦ rw e (contains-erase a x xs d.0, erase-Distinct a xs d.1)
]

below_of_fresh :
    (m : ℕ) (xs : List ℕ) → contains m xs ≡ false → All (λ x. x < suc m) xs → All (λ x. x < m) xs
below_of_fresh m [] h b = tt
below_of_fresh m (x ∷ xs) h b =
    (ground (arith, h, b.0), below_of_fresh m xs (ground (arith, h)) b.1)

erase-below :
    (m : ℕ) (xs : List ℕ) → Distinct xs → All (λ x. x < suc m) xs → All (λ x. x < m) (erase m xs)
unfolding erase
erase-below m [] d b = tt
erase-below m (x ∷ xs) d b = elim (Bool-cases (m == x)) [
  | inl e ↦
      rw e
        (below_of_fresh m xs (subst (λ k. contains k xs ≡ false) (sym ((==_iff m x).0 e)) d.0) b.1)
  | inr e ↦ rw e (ground (arith, e, b.0), erase-below m xs d.1 b.1)
]

-- No more than `m` different numbers are below `m`.
pub Distinct-length-le : (m : ℕ) (xs : List ℕ) → Distinct xs → All (λ x. x < m) xs → length xs ≤ m
Distinct-length-le zero [] d b = omega arith
Distinct-length-le zero (x ∷ xs) d b = absurd (omega (arith, b.0))
Distinct-length-le (suc m) xs d b = omega (
  arith,
  length-erase m xs,
  Distinct-length-le m (erase m xs) (erase-Distinct m xs d) (erase-below m xs d b),
)
