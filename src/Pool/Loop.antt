-- ===== src/Pool/Loop.antt =====
-- src/main.cpp: the event loop of a script, one read or call at a time, among the turns of the workers.
use zane.Base.{
  ℕ, ◌≡◌, Bool, true, false, not, ◌||◌, Option, some, none, List, [], ◌∷◌, if◌then◌else◌,
}
use zane.Pool.{
  Pool, enqueue, post, dequeue, task_queue_is_empty, has_pending_tasks, worker_step, thread_pool,
}

-- Where the main thread is. The second check keeps what it has found so far.
pub data Place : Type 0 where
  polling : Place
  taking : Place
  ticking : Place
  asking_timers : Place
  asking_tasks : Place
  asking_threads : Place
  asking_builtin : Place
  again_timers : Place
  again_tasks : Bool → Place
  again_threads : Bool → Place
  again_builtin : Bool → Place
  resting : Place
  ended : Place
  failed : Place

-- `timers` and `builtin` are what hasActiveTimers and hasActiveWork return.
pub record Main : Type 0 where
  pub pool : Pool
  pub timers : Bool
  pub builtin : Bool
  pub place : Place

-- What JavaScript code that the main thread calls does to the parts.
pub data Command : Type 0 where
  submit : List ℕ → Command
  enqueue_task : ℕ → Command
  set_timers : Bool → Command
  set_builtin : Bool → Command

-- A stopped pool throws, and the rest of the commands is not reached.
abbrev pub or_else : Option Pool → Pool → Pool
or_else none p = p
or_else (some q) p = q

unfoldable pub perform : Command → Main → Main
unfolding enqueue post
perform (submit job) m = record m { pool = or_else (enqueue job m.pool) m.pool }
perform (enqueue_task t) m = record m { pool = post t m.pool }
perform (set_timers b) m = record m { timers = b }
perform (set_builtin b) m = record m { builtin = b }

unfoldable pub perform_all : List Command → Main → Main
unfolding perform
perform_all [] m = m
perform_all (c ∷ cs) m = perform_all cs (perform c m)

abbrev pub go : Place → Main → Main
go l m = record m { place = l }

-- Before the script runs.
abbrev pub beginning : ℕ → Main
beginning threads = record {
  pool = thread_pool threads;
  timers = false;
  builtin = false;
  place = polling;
}

-- `run` is what the runner of a task does with the microtasks behind it, and whether an exception is
-- caught; `tick` the same for the timers that are due; `microtasks` what the microtasks do that the
-- check itself runs.
module _ (run : ℕ → Main → List Command × Bool) (tick : Main → List Command × Bool)
    (microtasks : Main → List Command) where
  abbrev pub after : Place → List Command × Bool → Main → Main
  after l (cs, true) m = go failed (perform_all cs m)
  after l (cs, false) m = go l (perform_all cs m)

  abbrev pub taken : Option (ℕ × Pool) → Main → Main
  taken none m = go polling m
  taken (some (t, p)) m = let n = record m { pool = p } in after polling (run t n) n

  unfoldable pub main_step : Main → Place → Main
  unfolding dequeue perform_all has_pending_tasks
  main_step m polling = if task_queue_is_empty m.pool then go ticking m else go taking m
  main_step m taking = taken (dequeue m.pool) m
  main_step m ticking = if m.timers then after asking_timers (tick m) m else go asking_timers m
  main_step m asking_timers = if m.timers then go resting m else go asking_tasks m
  main_step m asking_tasks =
      if task_queue_is_empty m.pool then go asking_threads m else go resting m
  main_step m asking_threads =
      if has_pending_tasks m.pool then go resting m else go asking_builtin m
  main_step m asking_builtin =
      if m.builtin then go resting m else go again_timers (perform_all (microtasks m) m)
  main_step m again_timers = go (again_tasks m.timers) m
  main_step m (again_tasks b) = go (again_threads (b || not (task_queue_is_empty m.pool))) m
  main_step m (again_threads b) = go (again_builtin (b || has_pending_tasks m.pool)) m
  main_step m (again_builtin b) = if b || m.builtin then go resting m else go ended m
  main_step m resting = go polling m
  main_step m ended = go ended m
  main_step m failed = go failed m

  -- The main thread and the workers take turns in any order, once the script has run.
  pub data Loop (threads : ℕ) : Main → Type 0 where
    begun : (cs : List Command) → Loop threads (perform_all cs (beginning threads))
    went : {m : Main} → Loop threads m → Loop threads (main_step m m.place)
    worked :
        {m : Main} {q : Pool}
        → Loop threads m
        → (i : ℕ) → worker_step i m.pool ≡ some q
        → Loop threads (record m { pool = q })
