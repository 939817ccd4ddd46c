-- ===== src/Pool/Runs.antt =====
-- src/thread_pool.hpp, src/task_queue.hpp and src/main.cpp: runs of the pool and of the event loop, and
-- the theorems at concrete inputs.
use zane.Base.{
  ℕ, zero, suc, ◌+◌, ◌≡◌, refl, Bool, true, false, Option, some, none, List, [], ◌∷◌, arith,
}
use zane.Pool.{
  waiting, running, Pool, thread_pool, enqueue, has_pending_tasks, worker_step, worker_steps,
}
use zane.Base.Totals.{occurrences}
use zane.Pool.Invariant.{Run, start, submitted, worked, Counted, held, Run-Counted, Run-held}
use zane.Pool.Drain.{work, worker_steps-work}
use zane.Pool.Progress.{Drained, Run-Drained}
use zane.Pool.Loop.{
  Main, Command, submit, beginning, main_step, perform_all, ended, Loop, begun, went,
}
use zane.Pool.Exit.{Quiet}
use zane.Pool.Ended.{ended-Quiet}

-- Two workers and two tasks, one of them taken.
abbrev busy : Pool
busy = record {
  tasks = (6 ∷ []) ∷ [];
  workers = running (5 ∷ []) ∷ waiting ∷ [];
  active_tasks = 1;
  stop = false;
  queue = [];
}

busy-Run : Run 2 (6 ∷ 5 ∷ []) [] busy
unfolding enqueue worker_step
busy-Run = worked (submitted (submitted start (5 ∷ []) refl) (6 ∷ []) refl) 0 refl

-- The second worker is done first, so its task comes first.
overtaken :
    worker_steps (1 ∷ 1 ∷ 0 ∷ 1 ∷ 0 ∷ []) busy
    ≡ some (record (thread_pool 2) { queue = 6 ∷ 5 ∷ [] })
unfolding worker_steps
overtaken = refl

-- On a machine whose number of threads is not known hardware_concurrency is 0: a task is never run.
never_run :
    (worker_step 0 (record (thread_pool 0) { tasks = (5 ∷ []) ∷ [] }) ≡ none)
    × (has_pending_tasks (record (thread_pool 0) { tasks = (5 ∷ []) ∷ [] }) ≡ true)
unfolding worker_step has_pending_tasks
never_run = (refl, refl)

abbrev idle_run : ℕ → Main → List Command × Bool
idle_run t m = ([], false)

abbrev idle_tick : Main → List Command × Bool
idle_tick m = ([], false)

abbrev turn : (Main → List Command) → Main → Main
turn microtasks m = main_step idle_run idle_tick microtasks m m.place

abbrev turns_of : ℕ → (Main → List Command) → Main → Main
turns_of zero microtasks m = m
turns_of (suc n) microtasks m = turns_of n microtasks (turn microtasks m)

-- A microtask of the check that gives a task to the pool: the worker is done between the read of the
-- TaskQueue and that of the pool, and the event loop ends with the task 5 in the TaskQueue.
abbrev late : Main → List Command
late m = submit (5 ∷ []) ∷ []

abbrev at_threads : Main
at_threads = turns_of 8 late (beginning 1)

abbrev lost : Option Pool → Option Main
lost none = none
lost (some p) = some (turns_of 2 late (record at_threads { pool = p }))

ended_with_task :
    lost (worker_steps (0 ∷ 0 ∷ 0 ∷ []) at_threads.pool)
    ≡ some (record {
      pool = record (thread_pool 1) { queue = 5 ∷ [] };
      timers = false;
      builtin = false;
      place = ended;
    })
unfolding worker_steps main_step
ended_with_task = refl

Run-Counted_example : Counted busy
Run-Counted_example = Run-Counted busy-Run

Run-held_example : occurrences 5 (6 ∷ 5 ∷ []) ≡ occurrences 5 [] + held 5 busy
Run-held_example = Run-held busy-Run 5

Run-Drained_example : Drained busy
Run-Drained_example = Run-Drained busy-Run (omega arith)

worker_steps-work_example : work busy ≡ 5 + work (record (thread_pool 2) { queue = 6 ∷ 5 ∷ [] })
worker_steps-work_example =
    worker_steps-work (1 ∷ 1 ∷ 0 ∷ 1 ∷ 0 ∷ []) busy (record (thread_pool 2) { queue = 6 ∷ 5 ∷ [] })
      overtaken

abbrev quiet : Main → List Command
quiet m = []

idle_end : Loop idle_run idle_tick quiet 1 (turns_of 10 quiet (beginning 1))
unfolding main_step perform_all
idle_end = went (went (went (went (went (went (went (went (went (went (begun []))))))))))

ended-Quiet_example :
    (false ≡ false)
    × (false ≡ false)
    × (true ≡ true)
    × Quiet (thread_pool 1)
    × ((i : ℕ) → worker_step i (thread_pool 1) ≡ none)
unfolding main_step
ended-Quiet_example = ended-Quiet idle_run idle_tick quiet (λ m. refl) idle_end refl
