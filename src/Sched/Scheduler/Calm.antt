-- ===== src/Sched/Scheduler/Calm.antt =====
-- Changes that leave every runnable task runnable: what waking does to the tasks and the queues.
use scarlet.Common.{
  ◌==◌, if◌then◌else◌, ==_refl, Bool-cases, if_both, length, All, ℕ, suc, ◌≤◌, ◌≡◌, refl, sym,
  subst, ◌∙◌, inl, inr, Bool, true, false, Option, none, some, List, [], ◌∷◌, ◌++◌, arith,
}
use scarlet.Sched.TaskPool.{
  TaskState, not_initialized, ready, running, zombie, terminated, blocked, Task, TaskPool, get_task,
  write_task,
}
use scarlet.Sched.TaskPool.Laws.{IsValid}
use scarlet.Sched.TaskPool.Write.{get_task-id, Written, write_task-Written}
use scarlet.Sched.Scheduler.{Scheduler}

abbrev pub state_runs : TaskState → Bool
state_runs ready = true
state_runs running = true
state_runs not_initialized = false
state_runs zombie = false
state_runs terminated = false
state_runs (blocked _) = false

abbrev pub state_lives : TaskState → Bool
state_lives ready = true
state_lives running = true
state_lives zombie = true
state_lives (blocked _) = true
state_lives not_initialized = false
state_lives terminated = false

abbrev pub of_task : (TaskState → Bool) → Option Task → Bool
of_task f none = false
of_task f (some t) = f t.state

-- The task exists and could be dispatched; it exists, is initialised and not terminated.
abbrev pub runnable : TaskPool → ℕ → Bool
runnable p id = of_task state_runs (get_task p id)

abbrev pub alive : TaskPool → ℕ → Bool
alive p id = of_task state_lives (get_task p id)

abbrev pub AllAlive : TaskPool → List ℕ → Type 0
AllAlive p = All (λ id. alive p id ≡ true)

-- The entries of a queue that cannot be dispatched.
abbrev pub held_up : TaskPool → List ℕ → ℕ
held_up p [] = 0
held_up p (id ∷ ids) = if runnable p id then held_up p ids else suc (held_up p ids)

-- A pool in which no task lost its state for the worse, and no slot was taken or given back.
pub record Improves (p p' : TaskPool) : Type 0 where
  pub valid : IsValid p'
  pub keeps_alive : (id : ℕ) → alive p id ≡ true → alive p' id ≡ true
  pub keeps_runnable : (id : ℕ) → runnable p id ≡ true → runnable p' id ≡ true
  pub same_free : p'.free_indices ≡ p.free_indices
  pub same_used : p'.next_free_index ≡ p.next_free_index

pub Improves-refl : (p : TaskPool) → IsValid p → Improves p p
Improves-refl p v = record {
  valid = v;
  keeps_alive = λ id h. h;
  keeps_runnable = λ id h. h;
  same_free = refl;
  same_used = refl;
}

pub Improves-trans : (p q r : TaskPool) → Improves p q → Improves q r → Improves p r
Improves-trans p q r f g = record {
  valid = g.valid;
  keeps_alive = λ id h. g.keeps_alive id (f.keeps_alive id h);
  keeps_runnable = λ id h. g.keeps_runnable id (f.keeps_runnable id h);
  same_free = g.same_free ∙ f.same_free;
  same_used = g.same_used ∙ f.same_used;
}

pub AllAlive-Improves :
    (p q : TaskPool) (ids : List ℕ) → Improves p q → AllAlive p ids → AllAlive q ids
AllAlive-Improves p q [] f a = tt
AllAlive-Improves p q (id ∷ ids) f a = (f.keeps_alive id a.0, AllAlive-Improves p q ids f a.1)

pub held_up-Improves :
    (p q : TaskPool) (ids : List ℕ) → Improves p q → held_up q ids ≤ held_up p ids
held_up-Improves p q [] f = omega arith
held_up-Improves p q (id ∷ ids) f = elim (Bool-cases (runnable p id)) [
  | inl h ↦ rw (h, f.keeps_runnable id h) (held_up-Improves p q ids f)
  | inr h ↦ rw h (
      if_both (λ n. n ≤ suc (held_up p ids)) (runnable q id) _ _
        (omega (arith, held_up-Improves p q ids f)) (omega (arith, held_up-Improves p q ids f)))
]

pub AllAlive-append :
    (p : TaskPool) (xs ys : List ℕ) → AllAlive p xs → AllAlive p ys → AllAlive p (xs ++ ys)
AllAlive-append p [] ys a b = b
AllAlive-append p (x ∷ xs) ys a b = (a.0, AllAlive-append p xs ys a.1 b)

-- A runnable task at the back of a queue holds nothing up.
pub held_up-snoc :
    (p : TaskPool) (xs : List ℕ) (id : ℕ)
    → runnable p id ≡ true
    → held_up p (xs ++ id ∷ []) ≡ held_up p xs
held_up-snoc p [] id h = rw h refl
held_up-snoc p (x ∷ xs) id h = rw (held_up-snoc p xs id h) refl

-- A task that is marked as running.
pub set_state-Improves :
    (p : TaskPool) (id : ℕ) (t u : Task)
    → IsValid p
    → get_task p id ≡ some t
    → u.id ≡ t.id
    → state_runs u.state ≡ true
    → Improves p (write_task p id u)
      × (runnable (write_task p id u) id ≡ true)
      × (alive (write_task p id u) id ≡ true)
set_state-Improves p id t u v h same runs = (
  record {
    valid = w.valid;
    keeps_alive = λ k a. rw (w.lookup k) (keep state_lives k lives a);
    keeps_runnable = λ k a. rw (w.lookup k) (keep state_runs k runs a);
    same_free = w.same_free;
    same_used = w.same_used;
  },
  rw (w.lookup id, ==_refl id) runs,
  rw (w.lookup id, ==_refl id) lives,
)
  where
    w : Written p (write_task p id u) id u
    w = write_task-Written p id t u v h (same ∙ get_task-id p id t v h)

    living : (x : TaskState) → state_runs x ≡ true → state_lives x ≡ true
    living ready r = refl
    living running r = refl
    living not_initialized r = cc
    living zombie r = cc
    living terminated r = cc
    living (blocked _) r = cc

    lives : state_lives u.state ≡ true
    lives = living u.state runs

    keep :
        (f : TaskState → Bool) (k : ℕ)
        → f u.state ≡ true
        → of_task f (get_task p k) ≡ true
        → of_task f (if k == id then some u else get_task p k) ≡ true
    keep f k holds a = if_both (λ o. of_task f o ≡ true) (k == id) _ _ holds a

-- What waking does to the scheduler, seen from a CPU: its queue may get longer, and no more of it
-- is held up.
pub record Calm (s s' : Scheduler) (cpu : ℕ) : Type 0 where
  pub improves : Improves s.task_pool s'.task_pool
  pub still_alive :
      AllAlive s.task_pool (s.ready_queue cpu) → AllAlive s'.task_pool (s'.ready_queue cpu)
  pub no_worse : held_up s'.task_pool (s'.ready_queue cpu) ≤ held_up s.task_pool (s.ready_queue cpu)
  pub longer : length (s.ready_queue cpu) ≤ length (s'.ready_queue cpu)

pub Calm-trans : (s t u : Scheduler) (cpu : ℕ) → Calm s t cpu → Calm t u cpu → Calm s u cpu
Calm-trans s t u cpu f g = record {
  improves = Improves-trans s.task_pool t.task_pool u.task_pool f.improves g.improves;
  still_alive = λ a. g.still_alive (f.still_alive a);
  no_worse = omega (arith, f.no_worse, g.no_worse);
  longer = omega (arith, f.longer, g.longer);
}

-- Pool and ready queues as they were.
pub Calm-same :
    (s s' : Scheduler) (cpu : ℕ)
    → IsValid s.task_pool
    → s'.task_pool ≡ s.task_pool
    → s'.ready_queue ≡ s.ready_queue
    → Calm s s' cpu
Calm-same s s' cpu v pool queue = record {
  improves = subst (Improves s.task_pool) (sym pool) (Improves-refl s.task_pool v);
  still_alive = λ a.
      subst (λ p. AllAlive p (s'.ready_queue cpu)) (sym pool)
        (subst (λ q. AllAlive s.task_pool (q cpu)) (sym queue) a);
  no_worse = rw (pool, queue) (omega arith);
  longer = rw queue (omega arith);
}
