-- ===== src/Sched/Scheduler/Asleep.antt =====
-- A task that is marked as blocked in `wait`: `run` can go on, and who wakes the task finds it.
use scarlet.Common.{
  ◌==◌, ==_refl, if_both, length, ℕ, ◌≡◌, refl, sym, ap, subst, inl, inr, Bool, true, false, Option,
  none, some, List, [], ◌∷◌, arith,
}
use scarlet.Sched.TaskPool.{
  BlockedType, TaskState, not_initialized, ready, running, zombie, terminated, blocked, Task,
  TaskPool, get_task,
}
use scarlet.Sched.TaskPool.Write.{get_task-id, Written, write_task-Written}
use scarlet.Sched.Scheduler.{Scheduler, set_state}
use scarlet.Sched.Scheduler.Calm.{state_runs, state_lives, of_task, runnable, alive, AllAlive}
use scarlet.Sched.Scheduler.Kept.{state_able, able}
use scarlet.Sched.Scheduler.Ready.{Room, IsReady}
use scarlet.Sched.Scheduler.Wake.{state_blocked, Woken}

AllAlive-kept :
    (p q : TaskPool) (ids : List ℕ)
    → ((k : ℕ) → alive p k ≡ true → alive q k ≡ true)
    → AllAlive p ids
    → AllAlive q ids
AllAlive-kept p q [] keeps a = tt
AllAlive-kept p q (k ∷ ids) keeps (here, a) = (keeps k here, AllAlive-kept p q ids keeps a)

-- A task that is marked as blocked does not keep `run` from its work.
pub blocked-IsReady :
    (s : Scheduler) (cpu id : ℕ) (t : Task) (b : BlockedType)
    → IsReady s cpu
    → Room s.task_pool
    → get_task s.task_pool id ≡ some t
    → IsReady (set_state s id t (blocked b)) cpu
blocked-IsReady s cpu id t b v room h = record {
  valid = wr.valid;
  all_alive =
      AllAlive-kept s.task_pool asleep.task_pool (s.ready_queue cpu)
        (λ k a. rw (wr.lookup k) (
          if_both (λ o. of_task state_lives o ≡ true) (k == id)
            (some (record t { state = blocked b })) (get_task s.task_pool k) refl a))
        v.all_alive;
  room = λ full. same_room room;
}
  where
    asleep : Scheduler
    asleep = set_state s id t (blocked b)

    wr : Written s.task_pool asleep.task_pool id (record t { state = blocked b })
    wr = write_task-Written s.task_pool id t _ v.valid h (get_task-id s.task_pool id t v.valid h)

    same_room : Room s.task_pool → Room asleep.task_pool
    same_room (inl r) = inl (omega (arith, r, wr.same_used))
    same_room (inr r) = inr (omega (arith, r, ap length wr.same_free))

-- A task that would be woken and is not blocked can run.
runs_awake :
    (o : Option Task)
    → of_task state_able o ≡ true
    → of_task state_blocked o ≡ false
    → of_task state_runs o ≡ true
runs_awake none a b = a
runs_awake (some t) a b = by_state t.state a b
  where
    by_state : (x : TaskState) → state_able x ≡ true → state_blocked x ≡ false → state_runs x ≡ true
    by_state ready a b = refl
    by_state running a b = refl
    by_state not_initialized a b = a
    by_state zombie a b = a
    by_state terminated a b = a
    by_state (blocked _) a b = (let bad : true ≡ false = b in cc bad)

pub Woken-runs :
    (s : Scheduler) (id : ℕ) (r : Scheduler × Bool)
    → Woken s id r
    → able s.task_pool id ≡ true
    → runnable r.0.task_pool id ≡ true
Woken-runs s id (s', true) ((_, _, look, _, _, _), _, _) a = rw (look id, ==_refl id) refl
Woken-runs s id (s', false) (awake, p, _, _, _) a =
    subst (λ q. runnable q id ≡ true) (sym p) (runs_awake (get_task s.task_pool id) a awake)
