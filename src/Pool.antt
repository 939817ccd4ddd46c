-- ===== src/Pool.antt =====
-- src/thread_pool.hpp and src/task_queue.hpp: the workers of the pool, the TaskQueue, and the check of
-- the event loop in src/main.cpp that ends the program.
pub mod Loop
mod Invariant
mod Drain
mod Progress
mod Exit
mod Ended
mod Runs
use zane.Base.{
  ℕ, ◌+◌, ◌-◌, Bool, true, false, not, ◌||◌, Option, some, none, List, [], ◌∷◌, ◌++◌, ltb,
  if◌then◌else◌, get_elem?, set, replicate,
}

-- A worker waits for a task, runs one, or has returned. A running task holds what it has still to
-- enqueue in the TaskQueue, which is all of it that the main thread sees.
pub data Worker : Type 0 where
  waiting : Worker
  running : List ℕ → Worker
  returned : Worker

-- The pool and the TaskQueue, whose tasks are known by a number.
pub record Pool : Type 0 where
  pub tasks : List (List ℕ)
  pub workers : List Worker
  pub active_tasks : ℕ
  pub stop : Bool
  pub queue : List ℕ

-- The constructor, with the number that hardware_concurrency gives.
abbrev pub thread_pool : ℕ → Pool
thread_pool threads = record {
  tasks = [];
  workers = replicate threads waiting;
  active_tasks = 0;
  stop = false;
  queue = [];
}

-- ThreadPool::enqueue; `none` is the error of a stopped pool.
unfoldable pub enqueue : List ℕ → Pool → Option Pool
enqueue job p = if p.stop then none else some (record p { tasks = p.tasks ++ (job ∷ []) })

abbrev pub is_empty : {A : Type 0} → List A → Bool
is_empty [] = true
is_empty (x ∷ xs) = false

unfoldable pub has_pending_tasks : Pool → Bool
has_pending_tasks p = not (is_empty p.tasks) || ltb 0 p.active_tasks

-- The destructor, before it joins the workers.
unfoldable pub shut_down : Pool → Pool
shut_down p = record p { stop = true }

-- TaskQueue::enqueue, dequeue and isEmpty.
unfoldable pub post : ℕ → Pool → Pool
post t p = record p { queue = p.queue ++ (t ∷ []) }

abbrev pub first_of : List ℕ → Pool → Option (ℕ × Pool)
first_of [] p = none
first_of (t ∷ ts) p = some (t, record p { queue = ts })

unfoldable pub dequeue : Pool → Option (ℕ × Pool)
dequeue p = first_of p.queue p

abbrev pub task_queue_is_empty : Pool → Bool
task_queue_is_empty p = is_empty p.queue

-- A worker goes on to the next point where it gives the mutex back; `none` where it waits.
abbrev pub woken : ℕ → List (List ℕ) → Pool → Option Pool
woken i [] p = if p.stop then some (record p { workers = set p.workers i returned }) else none
woken i (job ∷ jobs) p = some (record p {
  tasks = jobs;
  active_tasks = p.active_tasks + 1;
  workers = set p.workers i (running job);
})

abbrev pub advance : ℕ → Worker → Pool → Option Pool
advance i waiting p = woken i p.tasks p
advance i (running (t ∷ ts)) p = some (record (post t p) { workers = set p.workers i (running ts) })
advance i (running []) p =
    some (record p { active_tasks = p.active_tasks - 1; workers = set p.workers i waiting })
advance i returned p = none

abbrev pub advance_at : ℕ → Option Worker → Pool → Option Pool
advance_at i none p = none
advance_at i (some w) p = advance i w p

unfoldable pub worker_step : ℕ → Pool → Option Pool
unfolding post
worker_step i p = advance_at i (get_elem? p.workers i) p

-- The workers go on in the order given.
unfoldable pub worker_steps : List ℕ → Pool → Option Pool
unfolding worker_step
worker_steps [] p = some p
worker_steps (i ∷ is) p = elim (worker_step i p) [ none ↦ none | some q ↦ worker_steps is q ]
