-- ===== src/Pipe/Write.antt =====
-- `write` on every branch.
use scarlet.Common.{
  ltb, ◌==◌, if◌then◌else◌, Bool-cases, length, take, usize_mod, ℕ, ◌-◌, ◌≤◌, ◌<◌, min, ◌≡◌, refl,
  sym, ap, subst, ◌∙◌, inl, inr, true, false, Option, none, some, List, [], ◌∷◌, ◌++◌, append-nil,
  arith,
}
use scarlet.Pipe.{
  would_block, closed, not_supported, broken_pipe, PipeState, PipeEndpoint, sub_usize, Outcome,
  returns, accepts, fails, waits, Result, stays, wait_to_write, produce, write,
}

-- The buffer holds no more than it may.
pub record Bounded (s : PipeState) : Type 0 where
  pub within_size : length s.buffer ≤ s.max_size
  pub size_small : s.max_size < usize_mod

abbrev pub WriteDone : Option ℕ → PipeEndpoint → List ℕ → PipeState → Result → Outcome → Type 0
WriteDone task e bytes s r (accepts n) =
    (e.can_write ≡ true)
    × (s.is_closed ≡ false)
    × (0 < s.reader_count)
    × (length s.buffer < s.max_size)
    × (n ≡ min (length bytes) (s.max_size - length s.buffer))
    × (r.state.buffer ≡ s.buffer ++ take n bytes)
    × (r.woken ++ r.state.read_waker ≡ s.read_waker)
    × (r.state.write_waker ≡ s.write_waker)
    × (r.state.read_waker ≡ (if ltb 0 n then [] else s.read_waker))
WriteDone task e bytes s r (returns _) = ⊥
WriteDone task e bytes s r (fails would_block) =
    (task ≡ none)
    × (e.can_write ≡ true)
    × (s.is_closed ≡ false)
    × (length s.buffer ≡ s.max_size)
    × (r.state ≡ s)
WriteDone task e bytes s r (fails broken_pipe) =
    (e.can_write ≡ true) × (s.is_closed ≡ false) × (s.reader_count ≡ 0) × (r.state ≡ s)
WriteDone task e bytes s r (fails closed) =
    (e.can_write ≡ true) × (s.is_closed ≡ true) × (r.state ≡ s)
WriteDone task e bytes s r (fails not_supported) = (e.can_write ≡ false) × (r.state ≡ s)
WriteDone task e bytes s r (fails _) = ⊥
WriteDone task e bytes s r waits =
    (t : ℕ) × (task ≡ some t)
    × (e.can_write ≡ true)
    × (s.is_closed ≡ false)
    × (length s.buffer ≡ s.max_size)
    × (r.state ≡ record s { write_waker = s.write_waker ++ t ∷ [] })
    × (r.woken ≡ [])

-- Bytes that a write puts into the buffer.
puts :
    (task : Option ℕ) (e : PipeEndpoint) (bytes : List ℕ) (s : PipeState)
    → e.can_write ≡ true
    → s.is_closed ≡ false
    → 0 < s.reader_count
    → length s.buffer < s.max_size
    → (n : ℕ) → n ≡ min (length bytes) (s.max_size - length s.buffer)
    → (r : Result) → produce s bytes n ≡ r
    → WriteDone task e bytes s r r.outcome
puts task e bytes s able alive readers room n sized r eq = elim (Bool-cases (ltb 0 n)) [
  | inl moved ↦
      by
        (record {
          state = record s { buffer = s.buffer ++ take n bytes; read_waker = [] };
          outcome = accepts n;
          woken = s.read_waker;
        })
        (sym eq ∙ (rw moved refl))
        (able, alive, readers, room, sized, refl, append-nil s.read_waker, refl, rw moved refl)
  | inr still ↦
      by (stays (record s { buffer = s.buffer ++ take n bytes }) (accepts n))
        (sym eq ∙ (rw still refl))
        (able, alive, readers, room, sized, refl, refl, refl, rw still refl)
]
  where
    by :
        (x : Result)
        → r ≡ x
        → WriteDone task e bytes s x x.outcome
        → WriteDone task e bytes s r r.outcome
    by x e' = subst (λ y. WriteDone task e bytes s y y.outcome) (sym e')

-- A write on each of its branches, for a buffer within its bound. It appends the first bytes, as
-- many as find room, and wakes every waiting reader if that is any; it is refused with no reader
-- left; with a full buffer the task joins the writers' queue, or gets an error outside of a task. A
-- refused write changes nothing.
pub write-WriteDone :
    (task : Option ℕ) (e : PipeEndpoint) (bytes : List ℕ) (s : PipeState)
    → Bounded s
    → WriteDone task e bytes s (write task e bytes s) (write task e bytes s).outcome
unfolding write wait_to_write
write-WriteDone task e bytes s v = elim (Bool-cases e.can_write) [
  | inr unable ↦ by (stays s (fails not_supported)) (rw unable refl) (unable, refl)
  | inl able ↦ elim (Bool-cases s.is_closed) [
    | inl shut ↦ by (stays s (fails closed)) (rw (able, shut) refl) (able, shut, refl)
    | inr alive ↦ elim (Bool-cases (s.reader_count == 0)) [
      | inl left ↦
          by (stays s (fails broken_pipe)) (rw (able, alive, left) refl)
            (able, alive, ground (arith, left), refl)
      | inr left ↦ elim (Bool-cases (sub_usize s.max_size (length s.buffer) == 0)) [
        | inl full ↦
            by (wait_to_write task s) (rw (able, alive, left, full) refl)
              (sleeps task able alive (ground (arith, full, space)))
        | inr room ↦
            by (produce s bytes (min (length bytes) (sub_usize s.max_size (length s.buffer))))
              (rw (able, alive, left, room) refl)
              (puts task e bytes s able alive (ground (arith, left))
                (ground (arith, room, space, v.within_size)) _ (ap (min (length bytes)) space) _
                refl)
      ]
    ]
  ]
]
  where
    by :
        (x : Result)
        → write task e bytes s ≡ x
        → WriteDone task e bytes s x x.outcome
        → WriteDone task e bytes s (write task e bytes s) (write task e bytes s).outcome
    by x e' = subst (λ y. WriteDone task e bytes s y y.outcome) (sym e')

    space : sub_usize s.max_size (length s.buffer) ≡ s.max_size - length s.buffer
    space = omega (arith, v.within_size, v.size_small)

    sleeps :
        (t : Option ℕ)
        → e.can_write ≡ true
        → s.is_closed ≡ false
        → s.max_size - length s.buffer ≡ 0
        → WriteDone t e bytes s (wait_to_write t s) (wait_to_write t s).outcome
    sleeps none able alive full = (refl, able, alive, omega (arith, full, v.within_size), refl)
    sleeps (some t) able alive full =
        (t, refl, able, alive, omega (arith, full, v.within_size), refl, refl)
