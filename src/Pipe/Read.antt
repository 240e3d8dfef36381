-- ===== src/Pipe/Read.antt =====
-- `read` on every branch.
use scarlet.Common.{
  ltb, ◌==◌, if◌then◌else◌, Bool-cases, length, take, drop, length-take, take-append-drop, ℕ, min,
  ◌≡◌, refl, sym, ap, subst, ◌∙◌, inl, inr, Bool, true, false, ◌&&◌, Option, none, some, List, [],
  ◌∷◌, ◌++◌, append-nil, arith,
}
use scarlet.Pipe.{
  would_block, closed, not_supported, PipeState, PipeEndpoint, Outcome, returns, accepts, fails,
  waits, Result, stays, wait_to_read, consume, read,
}

-- Whether a read with room for a byte finds neither data nor a reason to end.
abbrev pub starves : PipeState → Bool
starves s = length s.buffer == 0 && ltb 0 s.writer_count

abbrev pub ReadDone : Option ℕ → PipeEndpoint → ℕ → PipeState → Result → Outcome → Type 0
ReadDone task e len s r (returns bytes) =
    (e.can_read ≡ true)
    × (s.is_closed ≡ false)
    × (starves s ≡ false)
    × (length bytes ≡ min len (length s.buffer))
    × (s.buffer ≡ bytes ++ r.state.buffer)
    × (r.woken ++ r.state.write_waker ≡ s.write_waker)
    × (r.state.read_waker ≡ s.read_waker)
    × (r.state.write_waker ≡ (if ltb 0 (length bytes) then [] else s.write_waker))
ReadDone task e len s r (accepts n) = ⊥
ReadDone task e len s r (fails would_block) =
    (task ≡ none) × (e.can_read ≡ true) × (s.is_closed ≡ false) × (starves s ≡ true) × (r.state ≡ s)
ReadDone task e len s r (fails closed) = (e.can_read ≡ true) × (s.is_closed ≡ true) × (r.state ≡ s)
ReadDone task e len s r (fails not_supported) = (e.can_read ≡ false) × (r.state ≡ s)
ReadDone task e len s r (fails _) = ⊥
ReadDone task e len s r waits =
    (t : ℕ) × (task ≡ some t)
    × (e.can_read ≡ true)
    × (s.is_closed ≡ false)
    × (starves s ≡ true)
    × (r.state ≡ record s { read_waker = s.read_waker ++ t ∷ [] })
    × (r.woken ≡ [])

-- Bytes that a read takes out of the buffer.
takes :
    (task : Option ℕ) (e : PipeEndpoint) (len : ℕ) (s : PipeState)
    → e.can_read ≡ true
    → s.is_closed ≡ false
    → (length s.buffer == 0) ≡ false
    → (r : Result) → consume s (min len (length s.buffer)) ≡ r
    → ReadDone task e len s r r.outcome
takes task e len s able alive bytes r eq = elim (Bool-cases (ltb 0 n)) [
  | inl moved ↦
      by
        (record {
          state = record s { buffer = drop n s.buffer; write_waker = [] };
          outcome = returns (take n s.buffer);
          woken = s.write_waker;
        })
        (sym eq ∙ (rw moved refl))
        (
          able,
          alive,
          starving,
          sized,
          split,
          append-nil s.write_waker,
          refl,
          rw (sized, moved) refl,
        )
  | inr still ↦
      by (stays (record s { buffer = drop n s.buffer }) (returns (take n s.buffer)))
        (sym eq ∙ (rw still refl))
        (able, alive, starving, sized, split, refl, refl, rw (sized, still) refl)
]
  where
    n : ℕ
    n = min len (length s.buffer)

    by :
        (x : Result) → r ≡ x → ReadDone task e len s x x.outcome → ReadDone task e len s r r.outcome
    by x e' = subst (λ y. ReadDone task e len s y y.outcome) (sym e')

    starving : starves s ≡ false
    starving = ground (arith, bytes)

    sized : length (take n s.buffer) ≡ n
    sized = omega (arith, length-take n s.buffer)

    split : s.buffer ≡ take n s.buffer ++ drop n s.buffer
    split = sym (take-append-drop n s.buffer)

empty-nil : (xs : List ℕ) → (length xs == 0) ≡ true → xs ≡ []
empty-nil [] h = refl
empty-nil (x ∷ xs) h = ground (arith, h)

-- A read on each of its branches. It returns the oldest bytes, as many as are there and fit, and
-- leaves the rest; with no data it returns nothing exactly when no writer is left, and else the task
-- joins the readers' queue, or gets an error outside of a task; taking data empties the queue of
-- waiting writers, who are all woken. A refused read changes nothing.
pub read-ReadDone :
    (task : Option ℕ) (e : PipeEndpoint) (len : ℕ) (s : PipeState)
    → ReadDone task e len s (read task e len s) (read task e len s).outcome
unfolding read wait_to_read
read-ReadDone task e len s = elim (Bool-cases e.can_read) [
  | inr unable ↦ by (stays s (fails not_supported)) (rw unable refl) (unable, refl)
  | inl able ↦ elim (Bool-cases s.is_closed) [
    | inl shut ↦ by (stays s (fails closed)) (rw (able, shut) refl) (able, shut, refl)
    | inr alive ↦ elim (Bool-cases (length s.buffer == 0)) [
      | inl empty ↦ elim (Bool-cases (s.writer_count == 0)) [
        | inl left ↦
            by (stays s (returns [])) (rw (able, alive, empty, left) refl)
              (able, alive, no_writer left, short empty, refl, refl, refl, refl)
        | inr left ↦
            by (wait_to_read task s) (rw (able, alive, empty, left) refl)
              (sleeps task able alive empty left)
      ]
      | inr bytes ↦
          by (consume s (min len (length s.buffer))) (rw (able, alive, bytes) refl)
            (takes task e len s able alive bytes _ refl)
    ]
  ]
]
  where
    by :
        (x : Result)
        → read task e len s ≡ x
        → ReadDone task e len s x x.outcome
        → ReadDone task e len s (read task e len s) (read task e len s).outcome
    by x e' = subst (λ y. ReadDone task e len s y y.outcome) (sym e')

    no_writer : (s.writer_count == 0) ≡ true → starves s ≡ false
    no_writer h = ground (arith, h)

    short : (length s.buffer == 0) ≡ true → 0 ≡ min len (length s.buffer)
    short h = omega (arith, ap length (empty-nil s.buffer h))

    starved : (length s.buffer == 0) ≡ true → (s.writer_count == 0) ≡ false → starves s ≡ true
    starved h k = ground (arith, h, k)

    sleeps :
        (t : Option ℕ)
        → e.can_read ≡ true
        → s.is_closed ≡ false
        → (length s.buffer == 0) ≡ true
        → (s.writer_count == 0) ≡ false
        → ReadDone t e len s (wait_to_read t s) (wait_to_read t s).outcome
    sleeps none able alive empty left = (refl, able, alive, starved empty left, refl)
    sleeps (some t) able alive empty left = (t, refl, able, alive, starved empty left, refl, refl)
