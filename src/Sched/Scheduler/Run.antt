-- ===== src/Sched/Scheduler/Run.antt =====
-- The loop of `run` ends, with a task that can be dispatched.
use scarlet.Common.{
  ◌==◌, if_both, length, ℕ, zero, suc, ◌+◌, ◌<◌, ◌≡◌, refl, Option, none, some, arith,
}
use mathlib.Core.Option
use scarlet.Sched.Scheduler.{
  Scheduler, Round, again, selects, panics, round, proceed, run_loop, run,
}
use scarlet.Sched.Scheduler.Calm.{held_up}
use scarlet.Sched.Scheduler.Ready.{IsReady, rounds_before, Selected, RoundDone, held_up-le}
use scarlet.Sched.Scheduler.Rounds.{round-RoundDone}

-- What the loop came to.
abbrev Ends : Scheduler → ℕ → Option (Scheduler × Round) → Type 0
Ends s cpu (some (s', selects id)) = Selected s' cpu id
Ends s cpu (some (s', again)) = ⊥
Ends s cpu (some (s', panics)) = ⊥
Ends s cpu none = ⊥

run_loop-Ends :
    (fuel : ℕ) (s : Scheduler) (cpu : ℕ)
    → IsReady s cpu
    → rounds_before s cpu < fuel
    → Ends s cpu (run_loop fuel s cpu)
unfolding run_loop
run_loop-Ends zero s cpu v lt = omega (arith, lt)
run_loop-Ends (suc fuel) s cpu v lt =
    by_round (round s cpu) (round-RoundDone s cpu v) (λ s'. run_loop-Ends fuel s' cpu)
  where
    by_round :
        (r : Scheduler × Round)
        → RoundDone s cpu r
        → ((s' : Scheduler)
            → IsReady s' cpu
            → rounds_before s' cpu < fuel
            → Ends s' cpu (run_loop fuel s' cpu))
        → Ends s cpu (proceed (λ s'. run_loop fuel s' cpu) r)
    by_round (s', selects id) d ends = d
    by_round (s', panics) d ends = elim d [ ]
    by_round (s', again) (ready', fewer) ends =
        by_end (run_loop fuel s' cpu) (ends s' ready' (omega (arith, fewer, lt)))
      where
        by_end : (o : Option (Scheduler × Round)) → Ends s' cpu o → Ends s cpu o
        by_end (some (t, selects id)) x = x
        by_end (some (t, again)) x = elim x [ ]
        by_end (some (t, panics)) x = elim x [ ]
        by_end none x = elim x [ ]

-- What `run` came to: the old task is the CPU's current one, and the new task is selected.
abbrev pub Runs : Scheduler → ℕ → Option (Scheduler × Option ℕ × Round) → Type 0
Runs s cpu (some (s', old, selects id)) = (old ≡ s.current_task_id cpu) × Selected s' cpu id
Runs s cpu (some (s', old, again)) = ⊥
Runs s cpu (some (s', old, panics)) = ⊥
Runs s cpu none = ⊥

-- `run` comes to a task to switch to, within one round for each task in the CPU's queue and two
-- more, and never panics, whatever it meets there: if every task in the queue is alive, and the
-- pool has room for an idle task in case none of them can be dispatched, then the new task is ready
-- or running, is the CPU's current task, stands at the back of its queue and has a time slice of
-- one tick.
pub run-Runs : (s : Scheduler) (cpu : ℕ) → IsReady s cpu → Runs s cpu (run s cpu)
unfolding run
run-Runs s cpu v =
    by_end (run_loop (length (s.ready_queue cpu) + 2) s cpu)
      (run_loop-Ends (length (s.ready_queue cpu) + 2) s cpu v few)
  where
    held : ℕ
    held = held_up s.task_pool (s.ready_queue cpu)

    few : rounds_before s cpu < length (s.ready_queue cpu) + 2
    few =
        if_both (λ n. n < length (s.ready_queue cpu) + 2) (held == length (s.ready_queue cpu))
          (held + 1) held (omega (arith, held_up-le s.task_pool (s.ready_queue cpu)))
          (omega (arith, held_up-le s.task_pool (s.ready_queue cpu)))

    by_end :
        (o : Option (Scheduler × Round))
        → Ends s cpu o
        → Runs s cpu (Option.map (λ r. (r.0, s.current_task_id cpu, r.1)) o)
    by_end (some (s', selects id)) x = (refl, x)
    by_end (some (t, again)) x = elim x [ ]
    by_end (some (t, panics)) x = elim x [ ]
    by_end none x = elim x [ ]
