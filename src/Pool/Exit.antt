-- ===== src/Pool/Exit.antt =====
-- src/main.cpp: the event loop ends only when nothing is left to do.
use zane.Base.{
  ℕ, ◌≤◌, ◌≡◌, refl, ap, subst, ◌∙◌, Bool, true, false, Option, some, none, List, [], ◌∷◌, ◌++◌,
  get_elem?, set, zero, suc, if◌then◌else◌, arith,
}
use zane.Pool.{
  Worker, waiting, running, returned, Pool, is_empty, worker_step, advance_at, woken,
  has_pending_tasks, enqueue, post,
}
use zane.Base.Totals.{total}
use zane.Pool.Invariant.{
  submitted-Given, Counted, is_running, AllSome, post-Given, worker_step-Kept,
}
use zane.Pool.Loop.{
  Main, Command, submit, enqueue_task, set_timers, set_builtin, or_else, perform, perform_all,
}

-- No task stands in a pool that is not stopped, and no worker runs one.
abbrev pub Quiet : Pool → Type 0
Quiet p = (p.stop ≡ false) × (p.tasks ≡ []) × (total is_running p.workers ≡ 0)

no_running :
    (i : ℕ) (ws : List Worker) (ts : List ℕ)
    → get_elem? ws i ≡ some (running ts)
    → 1 ≤ total is_running ws
no_running i [] ts e = ground arith
no_running zero (w ∷ ws) ts e = ground (arith, ap is_running)
no_running (suc i) (w ∷ ws) ts e = omega (arith, no_running i ws ts e)

waits :
    (i : ℕ) (o : Option Worker) (p : Pool)
    → get_elem? p.workers i ≡ o
    → Quiet p
    → advance_at i o p ≡ none
waits i none p e q = refl
waits i (some waiting) p e (s, t, z) =
    ap (λ ts. woken i ts p) t
    ∙ ap (λ b. if b then some (record p { workers = set p.workers i returned }) else none) s
waits i (some (running ts)) p e (s, t, z) =
    let l = no_running i p.workers ts e in absurd (omega arith)
waits i (some returned) p e q = refl

-- A quiet pool stays as it is: no worker can go on.
pub Quiet-worker_step : (i : ℕ) (p : Pool) → Quiet p → worker_step i p ≡ none
unfolding worker_step
Quiet-worker_step i p q = waits i (get_elem? p.workers i) p refl q

-- A pool that runs and whose count is right.
abbrev pub Going : Pool → Type 0
Going p = Counted p × (p.stop ≡ false)

is_empty_nil : {A : Type 0} (xs : List A) → is_empty xs ≡ true → xs ≡ []
is_empty_nil [] e = refl
is_empty_nil (x ∷ xs) e = ground arith

pub has_pending_tasks-Quiet : (p : Pool) → Going p → has_pending_tasks p ≡ false → Quiet p
unfolding has_pending_tasks
has_pending_tasks-Quiet p (c, s) h =
    let a = c.active in
    let e : is_empty p.tasks ≡ true = ground arith in (s, is_empty_nil p.tasks e, ground arith)

abbrev SameStop : Pool → Pool → Type 0
SameStop p q = q.stop ≡ p.stop

woken-SameStop :
    (i : ℕ) (p : Pool) (ts : List (List ℕ)) (b : Bool)
    → p.stop ≡ b
    → AllSome (SameStop p) (woken i ts p)
woken-SameStop i p [] true e = ground arith
woken-SameStop i p [] false e = ground arith
woken-SameStop i p (job ∷ jobs) b e = refl

pub advance_at-SameStop :
    (i : ℕ) (p : Pool) (o : Option Worker) → AllSome (SameStop p) (advance_at i o p)
unfolding post
advance_at-SameStop i p none = tt
advance_at-SameStop i p (some waiting) = woken-SameStop i p p.tasks p.stop refl
advance_at-SameStop i p (some (running [])) = refl
advance_at-SameStop i p (some (running (x ∷ ts))) = refl
advance_at-SameStop i p (some returned) = tt

pub worker_step-Going : (i : ℕ) (p q : Pool) → worker_step i p ≡ some q → Going p → Going q
unfolding worker_step
worker_step-Going i p q e (c, s) =
    let same = subst (AllSome (SameStop p)) e (advance_at-SameStop i p (get_elem? p.workers i)) in
    ((worker_step-Kept i p q e).0 c, same ∙ s)

or_else-Going : (o : Option Pool) (p : Pool) → AllSome Going o → Going p → Going (or_else o p)
or_else-Going none p a g = g
or_else-Going (some q) p a g = a

enqueued-Going :
    (job : List ℕ) (p : Pool) (b : Bool)
    → p.stop ≡ b
    → Going p
    → AllSome Going (if b then none else some (record p { tasks = p.tasks ++ (job ∷ []) }))
enqueued-Going job p true e g = tt
enqueued-Going job p false e (c, s) = ((submitted-Given job p false e).0 c, s)

pub perform-Going : (c : Command) (m : Main) → Going m.pool → Going (perform c m).pool
unfolding perform enqueue post
perform-Going (submit job) m g =
    or_else-Going (enqueue job m.pool) m.pool (enqueued-Going job m.pool m.pool.stop refl g) g
perform-Going (enqueue_task t) m (c, s) = ((post-Given t m.pool).0 c, s)
perform-Going (set_timers b) m g = g
perform-Going (set_builtin b) m g = g

pub perform_all-Going :
    (cs : List Command) (m : Main) → Going m.pool → Going (perform_all cs m).pool
unfolding perform_all
perform_all-Going [] m g = g
perform_all-Going (c ∷ cs) m g = perform_all-Going cs (perform c m) (perform-Going c m g)
