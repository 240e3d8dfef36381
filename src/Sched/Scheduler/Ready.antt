-- ===== src/Sched/Scheduler/Ready.antt =====
-- When `run` can select a task, and how long it takes.
use scarlet.Common.{
  ◌==◌, if◌then◌else◌, ==_refl, if_both, length, ℕ, suc, ◌+◌, ◌≤◌, ◌<◌, ◌≡◌, refl, ap, subst, ◌∙◌,
  ◌⊎◌, inl, inr, true, false, some, List, [], ◌∷◌, ◌++◌, arith,
}
use scarlet.Sched.TaskPool.{Task, TaskPool, max_tasks, get_task}
use scarlet.Sched.TaskPool.Laws.{IsValid}
use scarlet.Sched.Scheduler.{Scheduler, update, Round, again, selects, panics, popped}
use scarlet.Sched.Scheduler.Calm.{state_runs, runnable, AllAlive, held_up, Calm}

-- The pool has a slot for one more task.
abbrev pub Room : TaskPool → Type 0
Room p = (p.next_free_index < max_tasks) ⊎ (0 < length p.free_indices)

-- Every task in the CPU's queue exists, is initialised and not terminated; if none of them can be
-- dispatched, there is room for an idle task.
pub record IsReady (s : Scheduler) (cpu : ℕ) : Type 0 where
  pub valid : IsValid s.task_pool
  pub all_alive : AllAlive s.task_pool (s.ready_queue cpu)
  pub room : held_up s.task_pool (s.ready_queue cpu) ≡ length (s.ready_queue cpu) → Room s.task_pool

-- Rounds before the one that selects: one for each entry that is held up, and one for an idle task
-- if no other is left.
abbrev pub rounds_before : Scheduler → ℕ → ℕ
rounds_before s cpu =
    let held = held_up s.task_pool (s.ready_queue cpu) in
    if held == length (s.ready_queue cpu) then held + 1 else held

-- The selected task: it is the CPU's current one, stands at the back of the queue, has a time slice
-- of one tick, and its state is one to run in.
abbrev pub Selected : Scheduler → ℕ → ℕ → Type 0
Selected s cpu id =
    (s.current_task_id cpu ≡ some id)
    × ((rest : List ℕ) × (s.ready_queue cpu ≡ rest ++ id ∷ []))
    × ((t : Task) × (get_task s.task_pool id ≡ some t)
        × (t.id ≡ id)
        × (t.time_slice ≡ 1)
        × (state_runs t.state ≡ true))
    × IsValid s.task_pool

abbrev pub RoundDone : Scheduler → ℕ → Scheduler × Round → Type 0
RoundDone s cpu (s', again) = IsReady s' cpu × (rounds_before s' cpu < rounds_before s cpu)
RoundDone s cpu (s', selects id) = Selected s' cpu id
RoundDone s cpu (s', panics) = ⊥

pub held_up-le : (p : TaskPool) (ids : List ℕ) → held_up p ids ≤ length ids
held_up-le p [] = omega arith
held_up-le p (id ∷ ids) =
    if_both (λ n. n ≤ suc (length ids)) (runnable p id) _ _ (omega (arith, held_up-le p ids))
      (omega (arith, held_up-le p ids))

held_up-head :
    (p : TaskPool) (id : ℕ) (rest : List ℕ)
    → runnable p id ≡ false
    → held_up p (id ∷ rest) ≡ suc (held_up p rest)
held_up-head p id rest h = rw h refl

fewer_rounds :
    (h' l' h l hr lr : ℕ)
    → h' ≤ hr
    → lr ≤ l'
    → h ≡ suc hr
    → l ≡ suc lr
    → hr ≤ lr
    → (if h' == l' then h' + 1 else h') < (if h == l then h + 1 else h)
fewer_rounds h' l' h l hr lr a b c d e = ground (arith, a, b, c, d, e)

-- An entry that is held up leaves the queue, and no other gets worse off.
pub leaves :
    (s s' : Scheduler) (cpu id : ℕ) (rest : List ℕ)
    → IsReady s cpu
    → s.ready_queue cpu ≡ id ∷ rest
    → runnable s.task_pool id ≡ false
    → Calm (popped s cpu rest) s' cpu
    → IsReady s' cpu × (rounds_before s' cpu < rounds_before s cpu)
leaves s s' cpu id rest v e held c = (
  record {
    valid = c.improves.valid;
    all_alive = c.still_alive (rw (==_refl cpu) tail.1);
    room = λ full.
        room' (v.room (omega (arith, full, no_worse, longer, held_here, length_here, bound)));
  },
  fewer_rounds _ _ _ _ _ _ no_worse longer held_here length_here bound,
)
  where
    tail : AllAlive s.task_pool (id ∷ rest)
    tail = subst (AllAlive s.task_pool) e v.all_alive

    left : update s.ready_queue cpu rest cpu ≡ rest
    left = rw (==_refl cpu) refl

    no_worse : held_up s'.task_pool (s'.ready_queue cpu) ≤ held_up s.task_pool rest
    no_worse =
        subst (λ q. held_up s'.task_pool (s'.ready_queue cpu) ≤ held_up s.task_pool q) left
          c.no_worse

    longer : length rest ≤ length (s'.ready_queue cpu)
    longer = subst (λ q. length q ≤ length (s'.ready_queue cpu)) left c.longer

    held_here : held_up s.task_pool (s.ready_queue cpu) ≡ suc (held_up s.task_pool rest)
    held_here = ap (held_up s.task_pool) e ∙ held_up-head s.task_pool id rest held

    length_here : length (s.ready_queue cpu) ≡ suc (length rest)
    length_here = ap length e

    bound : held_up s.task_pool rest ≤ length rest
    bound = held_up-le s.task_pool rest

    room' : Room s.task_pool → Room s'.task_pool
    room' (inl r) = inl (omega (arith, r, c.improves.same_used))
    room' (inr r) = inr (omega (arith, r, ap length c.improves.same_free))
