-- ===== src/Event/Queue/Arrivals.antt =====
-- The queue as the list of its events in the order of their arrival.
use scarlet.Common.{
  ltb, ◌==◌, if◌then◌else◌, ==_iff, ==_refl, Bool-cases, length, ℕ, suc, ◌+◌, ◌^◌, ◌≤◌, ◌<◌, ◌≡◌,
  refl, sym, ap, ◌∙◌, inl, inr, Bool, true, false, Option, none, some, List, [], ◌∷◌, ◌++◌, arith,
}
use scarlet.Event.{EventPriority, rank, Event}
use scarlet.Event.Queue.{TaskEventQueue, or_new, enqueue, left_over}

abbrev pub rank_of : Event → ℕ
rank_of e = rank e.metadata.priority

abbrev pub of_rank : ℕ → List Event → List Event
of_rank r [] = []
of_rank r (e ∷ es) = if r == rank_of e then e ∷ of_rank r es else of_rank r es

-- An event taken out, before which `e` came, if that one waits for it.
abbrev choose : Event → List Event → Option (Event × List Event) → Event × List Event
choose e es none = (e, es)
choose e es (some (f, rest)) = if ltb (rank_of e) (rank_of f) then (f, e ∷ rest) else (e, es)

-- The first of the events of the highest priority, and those that are left.
abbrev pub pick : List Event → Option (Event × List Event)
pick [] = none
pick (e ∷ es) = some (choose e es (pick es))

-- The queue holds the events, each priority's in their order.
pub record Rep (q : TaskEventQueue) (xs : List Event) : Type 0 where
  pub grouped : (p : EventPriority) → q.events p ≡ left_over (of_rank (rank p) xs)
  pub counted : q.total_count ≡ length xs

of_rank-snoc :
    (r : ℕ) (xs : List Event) (e : Event)
    → of_rank r (xs ++ e ∷ []) ≡ (if r == rank_of e then of_rank r xs ++ e ∷ [] else of_rank r xs)
of_rank-snoc r [] e = refl
of_rank-snoc r (x ∷ xs) e = elim (Bool-cases (r == rank_of x)) [
  | inl t ↦ rw (t, of_rank-snoc r xs e) (under (r == rank_of e))
  | inr t ↦ rw t (of_rank-snoc r xs e)
]
  where
    under :
        (b : Bool)
        → x ∷ (if b then of_rank r xs ++ e ∷ [] else of_rank r xs)
          ≡ (if b then (x ∷ of_rank r xs) ++ e ∷ [] else x ∷ of_rank r xs)
    under true = refl
    under false = refl

left_over-snoc : (ys : List Event) (e : Event) → left_over (ys ++ e ∷ []) ≡ some (ys ++ e ∷ [])
left_over-snoc [] e = refl
left_over-snoc (y ∷ ys) e = refl

or_new-left_over : (ys : List Event) → or_new (left_over ys) ≡ ys
or_new-left_over [] = refl
or_new-left_over (y ∷ ys) = refl

length-snoc : (xs : List Event) (e : Event) → length (xs ++ e ∷ []) ≡ suc (length xs)
length-snoc [] e = refl
length-snoc (x ∷ xs) e = ap suc (length-snoc xs e)

-- An event that arrives comes last.
pub enqueue-Rep :
    (q : TaskEventQueue) (xs : List Event) (e : Event)
    → Rep q xs
    → length xs + 1 < 2 ^ 64
    → Rep (enqueue q e).0 (xs ++ e ∷ [])
unfolding enqueue
enqueue-Rep q xs e r few = record {
  grouped = λ p. elim (Bool-cases (rank p == rank_of e)) [
    | inr t ↦ rw t (r.grouped p ∙ ap left_over (sym (of_rank-snoc (rank p) xs e ∙ (rw t refl))))
    | inl t ↦ rw t (placed p t)
  ];
  counted = omega (arith, r.counted, length-snoc xs e, few);
}
  where
    placed :
        (p : EventPriority)
        → (rank p == rank_of e) ≡ true
        → some (or_new (q.events e.metadata.priority) ++ e ∷ [])
          ≡ left_over (of_rank (rank p) (xs ++ e ∷ []))
    placed p t =
        let same : rank p ≡ rank_of e = (==_iff (rank p) (rank_of e)).0 t in
        ap (λ ys. some (ys ++ e ∷ []))
          (ap or_new (r.grouped e.metadata.priority) ∙ or_new-left_over (of_rank (rank_of e) xs))
        ∙ sym (left_over-snoc (of_rank (rank_of e) xs) e)
        ∙ ap (λ n. left_over (of_rank n xs ++ e ∷ [])) (sym same)
        ∙ ap left_over (sym (of_rank-snoc (rank p) xs e ∙ (rw t refl)))

-- An event that was picked.
pub record Picked (xs : List Event) (e : Event) (rest : List Event) : Type 0 where
  pub front : of_rank (rank_of e) xs ≡ e ∷ of_rank (rank_of e) rest
  pub others : (r : ℕ) → (r == rank_of e) ≡ false → of_rank r rest ≡ of_rank r xs
  pub top : (r : ℕ) → rank_of e < r → of_rank r xs ≡ []
  pub one_less : length xs ≡ suc (length rest)

choose-Picked_first :
    (x : Event) (xs : List Event)
    → ((r : ℕ) → rank_of x < r → of_rank r xs ≡ [])
    → Picked (x ∷ xs) x xs
choose-Picked_first x xs top = record {
  front = rw (==_refl (rank_of x)) refl;
  others = λ r ne. rw ne refl;
  top = λ r lt. rw (apart r lt) (top r lt);
  one_less = refl;
}
  where
    apart : (r : ℕ) → rank_of x < r → (r == rank_of x) ≡ false
    apart r lt = ground (arith, lt)

-- An event that comes before another one of a higher priority waits.
choose-Picked_later :
    (x : Event) (xs : List Event) (e : Event) (rest : List Event)
    → rank_of x < rank_of e
    → Picked xs e rest
    → Picked (x ∷ xs) e (x ∷ rest)
choose-Picked_later x xs e rest lt p = record {
  front = rw (apart (rank_of e) (omega arith)) p.front;
  others = λ r other. by_test r (r == rank_of x) refl other;
  top = λ r above. rw (apart r (omega (arith, above))) (p.top r above);
  one_less = ap suc p.one_less;
}
  where
    apart : (r : ℕ) → rank_of e ≤ r → (r == rank_of x) ≡ false
    apart r le = ground (arith, le, lt)

    by_test :
        (r : ℕ) (b : Bool)
        → (r == rank_of x) ≡ b
        → (r == rank_of e) ≡ false
        → of_rank r (x ∷ rest) ≡ of_rank r (x ∷ xs)
    by_test r true t other = rw t (ap (λ l. x ∷ l) (p.others r other))
    by_test r false t other = rw t (p.others r other)

abbrev pub Picks : List Event → Option (Event × List Event) → Type 0
Picks xs none = xs ≡ []
Picks xs (some (e, rest)) = Picked xs e rest

pub pick-Picks : (xs : List Event) → Picks xs (pick xs)
pick-Picks [] = refl
pick-Picks (x ∷ xs) = by_rest (pick xs) (pick-Picks xs)
  where
    by_rest : (o : Option (Event × List Event)) → Picks xs o → Picks (x ∷ xs) (some (choose x xs o))
    by_rest none p = choose-Picked_first x xs (λ r lt. ap (of_rank r) p)
    by_rest (some (e, rest)) p = elim (Bool-cases (ltb (rank_of x) (rank_of e))) [
      | inl lt ↦ rw lt (choose-Picked_later x xs e rest (ground (arith, lt)) p)
      | inr ge ↦ rw ge (choose-Picked_first x xs (λ r lt. p.top r (ground (arith, ge, lt))))
    ]
