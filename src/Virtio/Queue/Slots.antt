-- ===== src/Virtio/Queue/Slots.antt =====
-- The arithmetic of ring slots: an index wraps at 2 ^ 16, and its slot is the rest modulo the size.
use native.Mathlib.Nat.{
  mod-eq-sub-mod, dvd_of_mod-eq-zero, mod-mod_of_dvd, mod-add-mod, mod-lt, mod-eq_of_lt,
}
use scarlet.Common.{
  ltb, leb, Bool-cases, u16_mod, ℕ, suc, ◌+◌, ◌-◌, ◌%◌, ◌≤◌, ◌<◌, ◌≡◌, sym, ap, ◌∙◌, ◌≢◌, inl, inr,
  false, arith,
}

module _ (size : ℕ) (positive : 0 < size) (divides : u16_mod % size ≡ 0) where
  -- The index wraps at 2 ^ 16, and that does not show in the slots.
  pub slot_wraps : (a : ℕ) → a % u16_mod % size ≡ a % size
  slot_wraps a = mod-mod_of_dvd size a (dvd_of_mod-eq-zero size divides)

  -- Slots less than a round apart are different.
  pub slot_ne : (a k : ℕ) → 0 < k → k < size → (a + k) % size ≢ a % size
  slot_ne a k low high e = impossible
    where
      small : a % size < size
      small = mod-lt a positive

      apart : (x : ℕ) → (a % size + k) % size ≡ x → x ≢ a % size → ⊥
      apart x f ne = ne (sym f ∙ mod-add-mod a size k ∙ e)

      at_least : ltb (a % size + k) size ≡ false → size ≤ a % size + k
      at_least ge = ground (arith, ge)

      impossible : ⊥
      impossible = elim (Bool-cases (ltb (a % size + k) size)) [
        | inl lt ↦
            apart (a % size + k) (mod-eq_of_lt (ground (arith, lt))) (λ p. omega (arith, p, low))
        | inr ge ↦
            apart (a % size + k - size)
              (mod-eq-sub-mod (ground (arith, ge)) ∙ mod-eq_of_lt (omega (arith, small, high)))
              (λ p. omega (arith, p, high, small, at_least ge))
      ]

  pub next_slot : (a k : ℕ) → (a + suc k) % size ≡ ((a + 1) % u16_mod + k) % size
  next_slot a k =
      ap (λ x. x % size) (omega arith)
      ∙ sym (mod-add-mod (a + 1) size k)
      ∙ ap (λ x. (x + k) % size) (sym (slot_wraps (a + 1)))
      ∙ mod-add-mod ((a + 1) % u16_mod) size k

  -- So are the slots of indices that wrapped in between.
  pub later_slot_ne : (a k : ℕ) → suc k < size → ((a + 1) % u16_mod + k) % size ≢ a % size
  later_slot_ne a k high e = slot_ne a (suc k) (omega arith) high (next_slot a k ∙ e)

  pub size-small : size ≤ u16_mod
  size-small = elim (Bool-cases (leb size u16_mod)) [
    | inl le ↦ ground (arith, le)
    | inr gt ↦
        (let untouched : u16_mod % size ≡ u16_mod = mod-eq_of_lt (ground (arith, gt)) in
          absurd (omega (arith, untouched, divides)))
  ]
