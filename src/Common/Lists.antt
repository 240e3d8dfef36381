-- ===== src/Common/Lists.antt =====
-- Lists measured and indexed by native numbers, under the library's names.
use Prim.Native.Nat.{ℕ, zero, suc, ◌+◌, ◌-◌, ◌≤◌, ◌<◌, min}
use mathlib.Core.Path.{◌≡◌, refl, ap}
use mathlib.Core.Logic.{◌≢◌}
use mathlib.Core.Bool.{Bool, true, false, ◌||◌}
use mathlib.Core.Option.{Option, none, some}
use mathlib.Core.List.{List, [], ◌∷◌, ◌++◌}
use native.Mathlib.Omega.{arith}
use scarlet.Common.Tests.{◌==◌}

module _ {ℓ} {A : Type ℓ} where
  abbrev pub length : List A → ℕ
  length [] = 0
  length (x ∷ xs) = suc (length xs)

  -- An element, or the default out of range.
  abbrev pub get_or : List A → ℕ → A → A
  get_or [] i d = d
  get_or (x ∷ xs) zero d = x
  get_or (x ∷ xs) (suc i) d = get_or xs i d

  -- A write out of range changes nothing.
  abbrev pub set : List A → ℕ → A → List A
  set [] i v = []
  set (x ∷ xs) zero v = v ∷ xs
  set (x ∷ xs) (suc i) v = x ∷ set xs i v

  abbrev pub take : ℕ → List A → List A
  take zero xs = []
  take (suc n) [] = []
  take (suc n) (x ∷ xs) = x ∷ take n xs

  abbrev pub drop : ℕ → List A → List A
  drop zero xs = xs
  drop (suc n) [] = []
  drop (suc n) (x ∷ xs) = drop n xs

  unfoldable pub replicate : ℕ → A → List A
  replicate zero a = []
  replicate (suc n) a = a ∷ replicate n a

  -- Every element satisfies `P`.
  abbrev pub All {κ} : (A → Type κ) → List A → Type κ
  All P [] = Unit
  All P (x ∷ xs) = P x × All P xs

module _ {ℓ} {A : Type ℓ} where
  pub length-append : (xs ys : List A) → length (xs ++ ys) ≡ length xs + length ys
  length-append [] ys = omega arith
  length-append (x ∷ xs) ys = omega (arith, length-append xs ys)

  pub length-set : (xs : List A) (i : ℕ) (v : A) → length (set xs i v) ≡ length xs
  length-set [] i v = refl
  length-set (x ∷ xs) zero v = refl
  length-set (x ∷ xs) (suc i) v = ap suc (length-set xs i v)

  pub get_or-set_self :
      (xs : List A) (i : ℕ) (v d : A) → i < length xs → get_or (set xs i v) i d ≡ v
  get_or-set_self [] i v d h = absurd (omega arith)
  get_or-set_self (x ∷ xs) zero v d h = refl
  get_or-set_self (x ∷ xs) (suc i) v d h = get_or-set_self xs i v d (omega arith)

  pub get_or-set_ne :
      (xs : List A) (i j : ℕ) (v d : A) → i ≢ j → get_or (set xs i v) j d ≡ get_or xs j d
  get_or-set_ne [] i j v d h = refl
  get_or-set_ne (x ∷ xs) zero zero v d h = absurd (h refl)
  get_or-set_ne (x ∷ xs) zero (suc j) v d h = refl
  get_or-set_ne (x ∷ xs) (suc i) zero v d h = refl
  get_or-set_ne (x ∷ xs) (suc i) (suc j) v d h = get_or-set_ne xs i j v d (λ e. h (ap suc e))

  pub get_or-past : (xs : List A) (i : ℕ) (d : A) → length xs ≤ i → get_or xs i d ≡ d
  get_or-past [] i d h = refl
  get_or-past (x ∷ xs) zero d h = absurd (omega arith)
  get_or-past (x ∷ xs) (suc i) d h = get_or-past xs i d (omega arith)

  pub length-take : (n : ℕ) (xs : List A) → length (take n xs) ≡ min n (length xs)
  length-take zero xs = omega arith
  length-take (suc n) [] = omega arith
  length-take (suc n) (x ∷ xs) = omega (arith, length-take n xs)

  pub length-drop : (n : ℕ) (xs : List A) → length (drop n xs) ≡ length xs - n
  length-drop zero xs = omega arith
  length-drop (suc n) [] = omega arith
  length-drop (suc n) (x ∷ xs) = omega (arith, length-drop n xs)

  pub take-append-drop : (n : ℕ) (xs : List A) → take n xs ++ drop n xs ≡ xs
  take-append-drop zero xs = refl
  take-append-drop (suc n) [] = refl
  take-append-drop (suc n) (x ∷ xs) = ap (◌∷◌ x) (take-append-drop n xs)

  pub length-replicate : (n : ℕ) (a : A) → length (replicate n a) ≡ n
  unfolding replicate
  length-replicate zero a = refl
  length-replicate (suc n) a = ap suc (length-replicate n a)

  pub get_or-replicate : (n i : ℕ) (a : A) → get_or (replicate n a) i a ≡ a
  unfolding replicate
  get_or-replicate zero i a = refl
  get_or-replicate (suc n) zero a = refl
  get_or-replicate (suc n) (suc i) a = get_or-replicate n i a

-- The numbers from `lo` on, `n` of them.
unfoldable pub range_from : ℕ → ℕ → List ℕ
range_from lo zero = []
range_from lo (suc n) = lo ∷ range_from (suc lo) n

pub length-range_from : (lo n : ℕ) → length (range_from lo n) ≡ n
unfolding range_from
length-range_from lo zero = refl
length-range_from lo (suc n) = ap suc (length-range_from (suc lo) n)

abbrev pub contains : ℕ → List ℕ → Bool
contains a [] = false
contains a (x ∷ xs) = a == x || contains a xs

-- No number stands twice in the list.
abbrev pub Distinct : List ℕ → Type 0
Distinct [] = Unit
Distinct (x ∷ xs) = (contains x xs ≡ false) × Distinct xs

pub contains-range_from_below : (lo n a : ℕ) → a < lo → contains a (range_from lo n) ≡ false
unfolding range_from
contains-range_from_below lo zero a h = refl
contains-range_from_below lo (suc n) a h = ground (arith, contains-range_from_below (suc lo) n a)

pub contains-range_from : (lo n a : ℕ) → lo ≤ a → a < lo + n → contains a (range_from lo n) ≡ true
unfolding range_from
contains-range_from lo zero a h k = absurd (omega arith)
contains-range_from lo (suc n) a h k = ground (arith, contains-range_from (suc lo) n a)

pub range_from-Distinct : (lo n : ℕ) → Distinct (range_from lo n)
unfolding range_from
range_from-Distinct lo zero = tt
range_from-Distinct lo (suc n) =
    (contains-range_from_below (suc lo) n lo (omega arith), range_from-Distinct (suc lo) n)

pub range_from-below : (lo n m : ℕ) → lo + n ≤ m → All (λ h. h < m) (range_from lo n)
unfolding range_from
range_from-below lo zero m h = tt
range_from-below lo (suc n) m h = (omega arith, range_from-below (suc lo) n m (omega arith))

-- How many entries hold a value.
abbrev pub count_some {ℓ} : {A : Type ℓ} → List (Option A) → ℕ
count_some [] = 0
count_some (none ∷ xs) = count_some xs
count_some (some a ∷ xs) = suc (count_some xs)

module _ {ℓ} {A : Type ℓ} where
  pub count_some-set-some :
      (xs : List (Option A)) (i : ℕ) (a : A)
      → i < length xs
      → get_or xs i none ≡ none
      → count_some (set xs i (some a)) ≡ suc (count_some xs)
  count_some-set-some [] i a h e = absurd (omega arith)
  count_some-set-some (none ∷ xs) zero a h e = refl
  count_some-set-some (some b ∷ xs) zero a h e = cc
  count_some-set-some (none ∷ xs) (suc i) a h e = count_some-set-some xs i a (omega arith) e
  count_some-set-some (some b ∷ xs) (suc i) a h e =
      ap suc (count_some-set-some xs i a (omega arith) e)

  pub count_some-set-none :
      (xs : List (Option A)) (i : ℕ) (a : A)
      → get_or xs i none ≡ some a
      → suc (count_some (set xs i none)) ≡ count_some xs
  count_some-set-none [] i a e = cc
  count_some-set-none (none ∷ xs) zero a e = cc
  count_some-set-none (some b ∷ xs) zero a e = refl
  count_some-set-none (none ∷ xs) (suc i) a e = count_some-set-none xs i a e
  count_some-set-none (some b ∷ xs) (suc i) a e = ap suc (count_some-set-none xs i a e)

pub count_some-replicate {ℓ} :
    (A : Type ℓ) (n : ℕ) → count_some (replicate {A = Option A} n none) ≡ 0
unfolding replicate
count_some-replicate A zero = refl
count_some-replicate A (suc n) = count_some-replicate A n

pub All-lt_mono : (a b : ℕ) (xs : List ℕ) → a ≤ b → All (λ i. i < a) xs → All (λ i. i < b) xs
All-lt_mono a b [] h p = tt
All-lt_mono a b (x ∷ xs) h p = (omega (arith, p.0), All-lt_mono a b xs h p.1)
