-- ===== src/Event/Queue/Runs.antt =====
-- Sequences of calls on the queue, and of events delivered to a task.
use scarlet.Common.{
  ◌==◌, length, length-append, ℕ, ◌+◌, ◌^◌, ◌≤◌, ◌<◌, ◌≡◌, refl, ap, ap₂, Bool, Option, none, some,
  List, [], ◌∷◌, ◌++◌, arith,
}
use scarlet.Event.{Event}
use scarlet.Event.Queue.{TaskEventQueue, new, enqueue, dequeue, len}
use scarlet.Event.Queue.Arrivals.{pick, Rep, enqueue-Rep, Picks, pick-Picks}
use scarlet.Event.Queue.Highest.{Dequeued, dequeue-Dequeued}

pub data QueueOp : Type 0 where
  enqueues : Event → QueueOp
  dequeues : QueueOp

pub data Answer : Type 0 where
  was_empty : Bool → Answer
  took : Option Event → Answer

abbrev pub taken : TaskEventQueue × Option Event → TaskEventQueue × Answer
taken (q, o) = (q, took o)

abbrev pub entered : TaskEventQueue × Bool → TaskEventQueue × Answer
entered (q, b) = (q, was_empty b)

abbrev pub step : TaskEventQueue → QueueOp → TaskEventQueue × Answer
step q (enqueues e) = entered (enqueue q e)
step q dequeues = taken (dequeue q)

-- The answer of each call, and the number of events after it.
unfoldable pub run : TaskEventQueue → List QueueOp → List (Answer × ℕ)
run q [] = []
run q (op ∷ ops) = let (q', a) = step q op in (a, len q') ∷ run q' ops

abbrev pub picked : List Event → Option (Event × List Event) → List Event × Answer
picked xs none = ([], took none)
picked xs (some (e, rest)) = (rest, took (some e))

abbrev pub list_step : List Event → QueueOp → List Event × Answer
list_step xs (enqueues e) = (xs ++ e ∷ [], was_empty (length xs == 0))
list_step xs dequeues = picked xs (pick xs)

-- The same on a list of events in the order of their arrival.
unfoldable pub list_run : List Event → List QueueOp → List (Answer × ℕ)
list_run xs [] = []
list_run xs (op ∷ ops) = let (xs', a) = list_step xs op in (a, length xs') ∷ list_run xs' ops

Stepped : List Event × Answer → TaskEventQueue × Answer → Type 0
Stepped (xs, a) (q, a') = Rep q xs × (a' ≡ a)

step-Stepped :
    (q : TaskEventQueue) (xs : List Event) (op : QueueOp)
    → Rep q xs
    → length xs + 1 < 2 ^ 64
    → Stepped (list_step xs op) (step q op)
unfolding Stepped enqueue
step-Stepped q xs (enqueues e) r few =
    (enqueue-Rep q xs e r few, ap (λ n. was_empty (n == 0)) r.counted)
step-Stepped q xs dequeues r few = by_pick (pick xs) (dequeue-Dequeued q xs r)
  where
    by_pick :
        (o : Option (Event × List Event))
        → Dequeued o (dequeue q)
        → Stepped (picked xs o) (taken (dequeue q))
    by_pick none d = (d.0, ap took d.1)
    by_pick (some (e, rest)) d = (d.0, ap took d.1)

length-list_step : (xs : List Event) (op : QueueOp) → length (list_step xs op).0 ≤ length xs + 1
length-list_step xs (enqueues e) = omega (arith, length-append xs (e ∷ []))
length-list_step xs dequeues = by_pick (pick xs) (pick-Picks xs)
  where
    by_pick :
        (o : Option (Event × List Event)) → Picks xs o → length (picked xs o).0 ≤ length xs + 1
    by_pick none p = omega arith
    by_pick (some (e, rest)) p = omega (arith, p.one_less)

run-from :
    (q : TaskEventQueue) (xs : List Event) (ops : List QueueOp)
    → Rep q xs
    → length xs + length ops < 2 ^ 64
    → run q ops ≡ list_run xs ops
unfolding run list_run len Stepped
run-from q xs [] r few = refl
run-from q xs (op ∷ ops) r few =
    let stepped : Stepped (list_step xs op) (step q op) =
      step-Stepped q xs op r (omega (arith, few)) in
    let few' : length (list_step xs op).0 + length ops < 2 ^ 64 =
      omega (arith, few, length-list_step xs op) in
    ap₂ (λ x l. x ∷ l) (ap₂ (λ a n. (a, n)) stepped.1 stepped.0.counted)
      (run-from (step q op).0 (list_step xs op).0 ops stepped.0 few')

-- A task's queue of events behaves as the list of its events in the order of their arrival, fewer
-- than 2 ^ 64 calls from a new one: `dequeue` takes the first of the events of the highest priority
-- that is there, so that events of one priority come in their order, and answers none only if there
-- are none; `enqueue` says whether there were none before; and the length is that of the list.
pub run-order : (ops : List QueueOp) → length ops < 2 ^ 64 → run new ops ≡ list_run [] ops
unfolding new
run-order ops few =
    run-from new [] ops (record { grouped = λ p. refl; counted = refl }) (omega (arith, few))
