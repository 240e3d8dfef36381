-- ===== src/Sched/Scheduler/WakeAll.antt =====
-- The calls that wake many tasks.
use scarlet.Common.{
  ◌==◌, ==_iff, ==_refl, if_both, if_cases, length, length-append, ℕ, ◌≤◌, ◌≡◌, refl, subst, inl,
  inr, Bool, true, false, Option, none, some, List, [], ◌∷◌, ◌++◌, arith,
}
use scarlet.Sched.TaskPool.{TaskState, running, get_task}
use scarlet.Sched.TaskPool.Laws.{IsValid}
use scarlet.Sched.Waker.{Waker}
use scarlet.Sched.Scheduler.{
  Scheduler, wake_task, wake_all, drained, wake_task_waiters, wake_parent_waiters,
}
use scarlet.Sched.Scheduler.Calm.{
  state_runs, state_lives, of_task, runnable, alive, AllAlive, held_up, Improves, AllAlive-Improves,
  held_up-Improves, AllAlive-append, held_up-snoc, Calm, Calm-trans, Calm-same,
}
use scarlet.Sched.Scheduler.Wake.{Woken, wake_task-Woken}

-- No wake-up makes another task worse off, or holds up a queue.
Woken-Calm :
    (s : Scheduler) (id cpu : ℕ) (r : Scheduler × Bool)
    → IsValid s.task_pool
    → Woken s id r
    → Calm s r.0 cpu
Woken-Calm s id cpu (s', false) v (_, p, q, _, same) = Calm-same s s' cpu v p q
Woken-Calm s id cpu (s', true) v ((t, h, look, valid, free, used), moved, same) = elim moved [
  | inr (q, _, _) ↦ record {
    improves = better;
    still_alive = λ a. rw q (alive_after a);
    no_worse = rw q held_after;
    longer = rw q (omega arith);
  }
  | inl (c, there, q, _) ↦ record {
    improves = better;
    still_alive = λ a. rw q (
        if_cases (AllAlive s'.task_pool) (cpu == c) _ _
          (λ e.
            subst (λ x. AllAlive s'.task_pool (s.ready_queue x ++ id ∷ [])) ((==_iff cpu c).0 e)
              (AllAlive-append s'.task_pool (s.ready_queue cpu) (id ∷ []) (alive_after a)
                (id_lives, tt)))
          (λ e. alive_after a));
    no_worse = rw q (
        if_cases (λ l. held_up s'.task_pool l ≤ held_up s.task_pool (s.ready_queue cpu)) (cpu == c)
          _ _
          (λ e.
            subst
              (λ x.
                held_up s'.task_pool (s.ready_queue x ++ id ∷ [])
                ≤ held_up s.task_pool (s.ready_queue cpu))
              ((==_iff cpu c).0 e)
              (omega (arith, held_up-snoc s'.task_pool (s.ready_queue cpu) id id_runs, held_after)))
          (λ e. held_after));
    longer = rw q (
        if_cases (λ l. length (s.ready_queue cpu) ≤ length l) (cpu == c) _ _
          (λ e.
            subst (λ x. length (s.ready_queue cpu) ≤ length (s.ready_queue x ++ id ∷ []))
              ((==_iff cpu c).0 e) (omega (arith, length-append (s.ready_queue cpu) (id ∷ []))))
          (λ e. omega arith));
  }
]
  where
    keep :
        (f : TaskState → Bool) (k : ℕ)
        → f running ≡ true
        → of_task f (get_task s.task_pool k) ≡ true
        → of_task f (get_task s'.task_pool k) ≡ true
    keep f k runs a =
        rw (look k) (
          if_both (λ o. of_task f o ≡ true) (k == id) (some (record t { state = running })) _ runs
            a)

    better : Improves s.task_pool s'.task_pool
    better = record {
      valid = valid;
      keeps_alive = λ k. keep state_lives k refl;
      keeps_runnable = λ k. keep state_runs k refl;
      same_free = free;
      same_used = used;
    }

    id_lives : alive s'.task_pool id ≡ true
    id_lives = rw (look id, ==_refl id) refl

    id_runs : runnable s'.task_pool id ≡ true
    id_runs = rw (look id, ==_refl id) refl

    alive_after :
        AllAlive s.task_pool (s.ready_queue cpu) → AllAlive s'.task_pool (s.ready_queue cpu)
    alive_after = AllAlive-Improves s.task_pool s'.task_pool (s.ready_queue cpu) better

    held_after : held_up s'.task_pool (s.ready_queue cpu) ≤ held_up s.task_pool (s.ready_queue cpu)
    held_after = held_up-Improves s.task_pool s'.task_pool (s.ready_queue cpu) better

pub wake_all-Calm :
    (s : Scheduler) (ids : List ℕ) (cpu : ℕ) → IsValid s.task_pool → Calm s (wake_all s ids).0 cpu
unfolding wake_all
wake_all-Calm s [] cpu v = Calm-same s s cpu v refl refl
wake_all-Calm s (id ∷ ids) cpu v =
    let first : Calm s (wake_task s id).0 cpu =
      Woken-Calm s id cpu (wake_task s id) v (wake_task-Woken s id v) in
    Calm-trans s (wake_task s id).0 (wake_all (wake_task s id).0 ids).0 cpu first
      (wake_all-Calm (wake_task s id).0 ids cpu first.improves.valid)

-- The same from a scheduler that differs in its wakers only.
wake_all-Calm_from :
    (s t : Scheduler) (ids : List ℕ) (cpu : ℕ)
    → IsValid s.task_pool
    → Calm s t cpu
    → Calm s (wake_all t ids).0 cpu
wake_all-Calm_from s t ids cpu v c =
    Calm-trans s t (wake_all t ids).0 cpu c (wake_all-Calm t ids cpu c.improves.valid)

pub wake_task_waiters-Calm :
    (s : Scheduler) (id cpu : ℕ) → IsValid s.task_pool → Calm s (wake_task_waiters s id) cpu
unfolding wake_task_waiters
wake_task_waiters-Calm s id cpu v = by_waker (s.waitpid_wakers id) refl
  where
    by_waker : (o : Option Waker) → s.waitpid_wakers id ≡ o → Calm s (wake_task_waiters s id) cpu
    by_waker none e = rw (e, wake_task_waiters) (Calm-same s s cpu v refl refl)
    by_waker (some w) e =
        rw (e, wake_task_waiters)
          (wake_all-Calm_from s (record s { waitpid_wakers = drained s.waitpid_wakers id w })
            w.wait_queue cpu v (Calm-same s _ cpu v refl refl))

pub wake_parent_waiters-Calm :
    (s : Scheduler) (id cpu : ℕ) → IsValid s.task_pool → Calm s (wake_parent_waiters s id) cpu
unfolding wake_parent_waiters
wake_parent_waiters-Calm s id cpu v = by_waker (s.parent_waitpid_wakers id) refl
  where
    by_waker :
        (o : Option Waker) → s.parent_waitpid_wakers id ≡ o → Calm s (wake_parent_waiters s id) cpu
    by_waker none e = rw (e, wake_parent_waiters) (Calm-same s s cpu v refl refl)
    by_waker (some w) e =
        rw (e, wake_parent_waiters)
          (wake_all-Calm_from s
            (record s { parent_waitpid_wakers = drained s.parent_waitpid_wakers id w }) w.wait_queue
            cpu v (Calm-same s _ cpu v refl refl))
