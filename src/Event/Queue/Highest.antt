-- ===== src/Event/Queue/Highest.antt =====
-- The priority that `dequeue` takes from, and what it leaves.
use scarlet.Common.{
  ◌==◌, if◌then◌else◌, ==_iff, Bool-cases, ◌-◌, ◌<◌, ◌≡◌, refl, sym, ap, subst, ◌∙◌, inl, inr, Bool,
  true, false, Option, none, some, List, [], ◌∷◌, arith,
}
use scarlet.Event.{EventPriority, low, normal, high, critical, rank, Event}
use scarlet.Event.Queue.{
  TaskEventQueue, put, is_waiting, max_priority, highest, left_over, take_from, dequeue_at, dequeue,
}
use scarlet.Event.Queue.Arrivals.{rank_of, of_rank, pick, Rep, Picked, Picks, pick-Picks}

-- A priority of the list of those with events, and the others in it.
abbrev kept : Bool → EventPriority → List EventPriority → List EventPriority
kept b p ps = if b then p ∷ ps else ps

abbrev top : Bool → Bool → Bool → Bool → Option EventPriority
top l n h c =
    if c
    then some critical
    else if h
    then some high
    else if n
    then some normal
    else if l
    then some low
    else none

max_priority-table :
    (l n h c : Bool)
    → max_priority (kept l low (kept n normal (kept h high (kept c critical [])))) ≡ top l n h c
unfolding max_priority
max_priority-table true true true true = refl
max_priority-table true true true false = refl
max_priority-table true true false true = refl
max_priority-table true true false false = refl
max_priority-table true false true true = refl
max_priority-table true false true false = refl
max_priority-table true false false true = refl
max_priority-table true false false false = refl
max_priority-table false true true true = refl
max_priority-table false true true false = refl
max_priority-table false true false true = refl
max_priority-table false true false false = refl
max_priority-table false false true true = refl
max_priority-table false false true false = refl
max_priority-table false false false true = refl
max_priority-table false false false false = refl

highest-top :
    (events : EventPriority → Option (List Event))
    → highest events
      ≡ top
          (is_waiting (events low))
          (is_waiting (events normal))
          (is_waiting (events high))
          (is_waiting (events critical))
unfolding highest
highest-top events =
    max_priority-table (is_waiting (events low)) (is_waiting (events normal))
      (is_waiting (events high)) (is_waiting (events critical))

-- The priority of the event picked is the one that `dequeue` finds.
highest-Picked :
    (q : TaskEventQueue) (xs : List Event) (e : Event) (rest : List Event)
    → Rep q xs
    → Picked xs e rest
    → highest q.events ≡ some e.metadata.priority
highest-Picked q xs e rest r p = highest-top q.events ∙ by_priority e.metadata.priority waits above
  where
    waits : is_waiting (q.events e.metadata.priority) ≡ true
    waits = ap is_waiting (r.grouped e.metadata.priority ∙ ap left_over p.front)

    above : (k : EventPriority) → rank_of e < rank k → is_waiting (q.events k) ≡ false
    above k lt = ap is_waiting (r.grouped k ∙ ap left_over (p.top (rank k) lt))

    by_priority :
        (m : EventPriority)
        → is_waiting (q.events m) ≡ true
        → ((k : EventPriority) → rank m < rank k → is_waiting (q.events k) ≡ false)
        → top
            (is_waiting (q.events low))
            (is_waiting (q.events normal))
            (is_waiting (q.events high))
            (is_waiting (q.events critical))
          ≡ some m
    by_priority critical w a = rw w refl
    by_priority high w a = rw (a critical (omega arith), w) refl
    by_priority normal w a = rw (a critical (omega arith), a high (omega arith), w) refl
    by_priority low w a =
        rw (a critical (omega arith), a high (omega arith), a normal (omega arith), w) refl

-- What `dequeue` came to, with the events in the order of their arrival.
abbrev pub Dequeued : Option (Event × List Event) → TaskEventQueue × Option Event → Type 0
Dequeued none (q, answer) = Rep q [] × (answer ≡ none)
Dequeued (some (e, rest)) (q, answer) = Rep q rest × (answer ≡ some e)

pub dequeue-Dequeued :
    (q : TaskEventQueue) (xs : List Event) → Rep q xs → Dequeued (pick xs) (dequeue q)
unfolding dequeue dequeue_at take_from
dequeue-Dequeued q xs r = by_pick (pick xs) (pick-Picks xs)
  where
    by_pick : (o : Option (Event × List Event)) → Picks xs o → Dequeued o (dequeue q)
    by_pick none p =
        let empty_Rep : Rep q [] = subst (Rep q) p r in
        let nothing : highest q.events ≡ none =
          highest-top q.events
          ∙ (rw
              (
                empty_Rep.grouped low,
                empty_Rep.grouped normal,
                empty_Rep.grouped high,
                empty_Rep.grouped critical,
              )
              refl) in
        subst (λ o. Dequeued none (dequeue_at q o)) (sym nothing) (empty_Rep, refl)
    by_pick (some (e, rest)) p =
        subst (λ o. Dequeued (some (e, rest)) (dequeue_at q o))
          (sym (highest-Picked q xs e rest r p))
          (subst (λ o. Dequeued (some (e, rest)) (take_from q e.metadata.priority o))
            (sym (r.grouped e.metadata.priority ∙ ap left_over p.front)) (taken, refl))
      where
        taken :
            Rep
              (record {
                events = put q.events e.metadata.priority (left_over (of_rank (rank_of e) rest));
                total_count = q.total_count - 1;
              })
              rest
        taken = record {
          grouped = λ k. elim (Bool-cases (rank k == rank_of e)) [
            | inl t ↦
                rw t
                  (ap (λ n. left_over (of_rank n rest)) (sym ((==_iff (rank k) (rank_of e)).0 t)))
            | inr t ↦ rw t (r.grouped k ∙ ap left_over (sym (p.others (rank k) t)))
          ];
          counted = omega (arith, r.counted, p.one_less);
        }
