-- ===== src/Sched/Scheduler/Wake.antt =====
-- `wake_task` and the calls that wake many tasks.
use scarlet.Common.{
  ◌==◌, if◌then◌else◌, ==_iff, Bool-cases, contains, ℕ, zero, suc, ◌+◌, ◌≤◌, ◌<◌, ◌≡◌, refl, sym,
  ap, subst, ◌∙◌, ◌⊎◌, inl, inr, Bool, true, false, Option, none, some, arith,
}
use scarlet.Sched.TaskPool.{
  TaskState, not_initialized, ready, running, zombie, terminated, blocked, Task, get_task,
}
use scarlet.Sched.TaskPool.Laws.{IsValid}
use scarlet.Sched.TaskPool.Write.{get_task-id, Written, write_task-Written}
use scarlet.Sched.Scheduler.{
  Scheduler, num_of_cpus, push_back, remove_first, set_state, unblock, wake_loop, unmark,
  not_parked, wake_task,
}
use scarlet.Sched.Scheduler.Calm.{of_task}

-- The task stood in the blocked queue of a CPU, its entry left that queue and no other, and it went
-- to the back of that CPU's ready queue.
abbrev pub AtReady : Scheduler → ℕ → Scheduler → Type 0
AtReady s id s' =
    (c : ℕ) × (contains id (s.blocked_queue c) ≡ true)
    × (s'.ready_queue ≡ push_back s.ready_queue c id)
    × ((k : ℕ)
        → s'.blocked_queue k
          ≡ (if k == c then remove_first id (s.blocked_queue c) else s.blocked_queue k))

abbrev pub NotParked : Scheduler → ℕ → Type 0
NotParked s id = (c : ℕ) → c < num_of_cpus → contains id (s.blocked_queue c) ≡ false

abbrev pub state_blocked : TaskState → Bool
state_blocked (blocked _) = true
state_blocked not_initialized = false
state_blocked ready = false
state_blocked running = false
state_blocked zombie = false
state_blocked terminated = false

-- The task is marked as running, and no other task changed.
abbrev pub Marked : Scheduler → ℕ → Scheduler → Type 0
Marked s id s' =
    (t : Task) × (get_task s.task_pool id ≡ some t)
    × ((k : ℕ)
        → get_task s'.task_pool k
          ≡ (if k == id then some (record t { state = running }) else get_task s.task_pool k))
    × IsValid s'.task_pool
    × (s'.task_pool.free_indices ≡ s.task_pool.free_indices)
    × (s'.task_pool.next_free_index ≡ s.task_pool.next_free_index)

-- The blocked queues stay, if there is such a task.
abbrev pub KeptBlocked : Scheduler → ℕ → Scheduler → Type 0
KeptBlocked s id s' =
    (t : Task) → get_task s.task_pool id ≡ some t → s'.blocked_queue ≡ s.blocked_queue

abbrev pub Woken : Scheduler → ℕ → Scheduler × Bool → Type 0
Woken s id (s', true) =
    Marked s id s'
    × (AtReady s id s'
        ⊎ ((s'.ready_queue ≡ s.ready_queue)
            × (s'.blocked_queue ≡ s.blocked_queue)
            × NotParked s id))
    × (s'.current_task_id ≡ s.current_task_id)
Woken s id (s', false) =
    (of_task state_blocked (get_task s.task_pool id) ≡ false)
    × (s'.task_pool ≡ s.task_pool)
    × (s'.ready_queue ≡ s.ready_queue)
    × KeptBlocked s id s'
    × (s'.current_task_id ≡ s.current_task_id)

set_state-Marked :
    (s : Scheduler) (id : ℕ) (t : Task)
    → IsValid s.task_pool
    → get_task s.task_pool id ≡ some t
    → Marked s id (set_state s id t running)
set_state-Marked s id t v h = (t, h, w.lookup, w.valid, w.same_free, w.same_used)
  where
    w : Written s.task_pool (set_state s id t running).task_pool id (record t { state = running })
    w = write_task-Written s.task_pool id t _ v h (get_task-id s.task_pool id t v h)

-- What the loop over the blocked queues came to.
Looped : Scheduler → ℕ → Scheduler × Bool → Type 0
Looped s id (s', true) = Marked s id s' × AtReady s id s' × (s'.current_task_id ≡ s.current_task_id)
Looped s id (s', false) =
    (s'.task_pool ≡ s.task_pool)
    × (s'.ready_queue ≡ s.ready_queue)
    × KeptBlocked s id s'
    × (s'.current_task_id ≡ s.current_task_id)

-- With no such task, the loop goes on and finds nothing to wake.
unblock-Looped :
    (s : Scheduler) (cpu id : ℕ) (r : Scheduler × Bool)
    → get_task s.task_pool id ≡ none
    → Looped (unblock s cpu id) id r
    → Looped s id r
unfolding Looped
unblock-Looped s cpu id (s', false) f (p, q, b, c) = (p, q, λ t h. cc, c)
unblock-Looped s cpu id (s', true) f ((t, h, _, _, _, _), _, _) =
    absurd (let bad : none ≡ some t = sym f ∙ h in cc)

wake_loop-Looped :
    (n cpu : ℕ) (s : Scheduler) (id : ℕ) → IsValid s.task_pool → Looped s id (wake_loop n cpu s id)
unfolding wake_loop Looped
wake_loop-Looped zero cpu s id v = (refl, refl, λ t h. refl, refl)
wake_loop-Looped (suc n) cpu s id v =
    by_contains (contains id (s.blocked_queue cpu)) refl (wake_loop-Looped n (cpu + 1) s id v)
      (wake_loop-Looped n (cpu + 1) (unblock s cpu id) id v)
  where
    by_task :
        (o : Option Task)
        → get_task s.task_pool id ≡ o
        → contains id (s.blocked_queue cpu) ≡ true
        → Looped (unblock s cpu id) id (wake_loop n (cpu + 1) (unblock s cpu id) id)
        → Looped s id (wake_loop (suc n) cpu s id)
    by_task none f e r =
        rw (e, f, wake_loop)
          (unblock-Looped s cpu id (wake_loop n (cpu + 1) (unblock s cpu id) id) f r)
    by_task (some t) f e r =
        rw (e, f, wake_loop) (set_state-Marked s id t v f, (cpu, e, refl, λ k. refl), refl)

    by_contains :
        (b : Bool)
        → contains id (s.blocked_queue cpu) ≡ b
        → Looped s id (wake_loop n (cpu + 1) s id)
        → Looped (unblock s cpu id) id (wake_loop n (cpu + 1) (unblock s cpu id) id)
        → Looped s id (wake_loop (suc n) cpu s id)
    by_contains false e r r' = rw (e, wake_loop) r
    by_contains true e r r' = by_task (get_task s.task_pool id) refl e r'

-- The loop misses a task that exists only where it is not parked.
wake_loop-missed :
    (n cpu : ℕ) (s : Scheduler) (id : ℕ) (t : Task)
    → get_task s.task_pool id ≡ some t
    → (wake_loop n cpu s id).1 ≡ false
    → (c : ℕ) → cpu ≤ c
    → c < cpu + n
    → contains id (s.blocked_queue c) ≡ false
unfolding wake_loop
wake_loop-missed zero cpu s id t f missed c le lt = absurd (omega (arith, le, lt))
wake_loop-missed (suc n) cpu s id t f missed c le lt =
    by_contains (contains id (s.blocked_queue cpu)) refl (wake_loop-missed n (cpu + 1) s id t f)
  where
    by_contains :
        (b : Bool)
        → contains id (s.blocked_queue cpu) ≡ b
        → ((wake_loop n (cpu + 1) s id).1 ≡ false
            → (c : ℕ) → cpu + 1 ≤ c
            → c < cpu + 1 + n
            → contains id (s.blocked_queue c) ≡ false)
        → contains id (s.blocked_queue c) ≡ false
    by_contains true e later = (let bad : true ≡ false = rw (e, f, wake_loop) at missed in cc bad)
    by_contains false e later = elim (Bool-cases (c == cpu)) [
      | inl same ↦
          subst (λ k. contains id (s.blocked_queue k) ≡ false) (sym ((==_iff c cpu).0 same)) e
      | inr other ↦
          later (rw (e, wake_loop) at missed) c (ground (arith, le, other)) (omega (arith, lt))
    ]

unmark-Woken :
    (s s' : Scheduler) (id : ℕ)
    → IsValid s.task_pool
    → s'.task_pool ≡ s.task_pool
    → s'.ready_queue ≡ s.ready_queue
    → KeptBlocked s id s'
    → s'.current_task_id ≡ s.current_task_id
    → ((t : Task) → get_task s.task_pool id ≡ some t → NotParked s id)
    → (o : Option Task) → get_task s.task_pool id ≡ o
    → Woken s id (unmark s' id o)
unfolding unmark
unmark-Woken s s' id v p q b c miss none e = (rw e refl, p, q, b, c)
unmark-Woken s s' id v p q b c miss (some t) e = by_state t.state refl
  where
    w : Written s'.task_pool (set_state s' id t running).task_pool id (record t { state = running })
    w =
        write_task-Written s'.task_pool id t _ (subst IsValid (sym p) v)
          (ap (λ x. get_task x id) p ∙ e) (get_task-id s.task_pool id t v e)

    by_state : (x : TaskState) → t.state ≡ x → Woken s id (unmark s' id (some t))
    by_state not_initialized f = rw (f, unmark) (rw (e, f) refl, p, q, b, c)
    by_state ready f = rw (f, unmark) (rw (e, f) refl, p, q, b, c)
    by_state running f = rw (f, unmark) (rw (e, f) refl, p, q, b, c)
    by_state zombie f = rw (f, unmark) (rw (e, f) refl, p, q, b, c)
    by_state terminated f = rw (f, unmark) (rw (e, f) refl, p, q, b, c)
    by_state (blocked kind) f =
        rw (f, unmark)
          (
            (
              t,
              e,
              λ k.
                  w.lookup k
                  ∙ ap (λ x. if k == id then some (record t { state = running }) else get_task x k)
                      p,
              w.valid,
              w.same_free ∙ ap (λ x. x.free_indices) p,
              w.same_used ∙ ap (λ x. x.next_free_index) p,
            ),
            inr (q, b t e, miss t e),
            c,
          )

-- Waking a task reaches it wherever it waits. If the call answers yes, the task is running, and no
-- other task changes: one that was parked in the blocked queue of a CPU has left that queue, its
-- first entry and nothing else, and stands at the back of that CPU's ready queue; one that was
-- parked nowhere is only marked, and every queue stays. The call answers no only if there is no such
-- task or it is not blocked; then no task and no ready queue changes, and if there is such a task no
-- blocked queue either.
pub wake_task-Woken : (s : Scheduler) (id : ℕ) → IsValid s.task_pool → Woken s id (wake_task s id)
unfolding wake_task not_parked Looped
wake_task-Woken s id v =
    by_loop (wake_loop num_of_cpus 0 s id) (wake_loop-Looped num_of_cpus 0 s id v)
      (λ t f missed c lt.
        wake_loop-missed num_of_cpus 0 s id t f missed c (omega arith) (omega (arith, lt)))
  where
    by_loop :
        (r : Scheduler × Bool)
        → Looped s id r
        → ((t : Task) → get_task s.task_pool id ≡ some t → r.1 ≡ false → NotParked s id)
        → Woken s id (not_parked r id)
    by_loop (s', true) l miss = (l.0, inl l.1, l.2)
    by_loop (s', false) (p, q, b, c) miss =
        subst (λ o. Woken s id (unmark s' id o)) (sym (ap (λ x. get_task x id) p))
          (unmark-Woken s s' id v p q b c (λ t f. miss t f refl) (get_task s.task_pool id) refl)
