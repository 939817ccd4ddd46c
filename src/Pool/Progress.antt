-- ===== src/Pool/Progress.antt =====
-- src/thread_pool.hpp: while the pool has work, a worker goes on, until there is none.
use zane.Base.{
  ℕ, zero, suc, ◌≤◌, ◌≡◌, refl, ap, subst, ◌∙◌, inl, inr, Bool, true, false, Option, some, none,
  List, [], ◌∷◌, ◌++◌, length, get_elem?, if◌then◌else◌, Bool-cases, length-set, length-replicate,
  arith,
}
use zane.Pool.{
  Worker, waiting, running, returned, Pool, post, advance_at, woken, worker_step, is_empty,
  worker_steps, has_pending_tasks, enqueue, dequeue, shut_down, first_of,
}
use zane.Base.Totals.{total}
use zane.Pool.Invariant.{
  Counted, is_running, has_returned, worker_step-Kept, AllSome, Run, Run-Counted, start, submitted,
  posted, handled, worked, shut,
}
use zane.Pool.Drain.{work, worker_step-work}

abbrev Manned : Pool → Pool → Type 0
Manned p q = length q.workers ≡ length p.workers

module _ (i : ℕ) (p : Pool) where
  woken-Manned : (ts : List (List ℕ)) (b : Bool) → p.stop ≡ b → AllSome (Manned p) (woken i ts p)
  woken-Manned [] true e = ground (arith, length-set p.workers i returned)
  woken-Manned [] false e = ground arith
  woken-Manned (job ∷ jobs) b e = length-set p.workers i (running job)

  advance_at-Manned : (o : Option Worker) → AllSome (Manned p) (advance_at i o p)
  unfolding post
  advance_at-Manned none = tt
  advance_at-Manned (some waiting) = woken-Manned p.tasks p.stop refl
  advance_at-Manned (some (running [])) = length-set p.workers i waiting
  advance_at-Manned (some (running (x ∷ ts))) = length-set p.workers i (running ts)
  advance_at-Manned (some returned) = tt

worker_step-Manned :
    (i : ℕ) (p q : Pool) → worker_step i p ≡ some q → length q.workers ≡ length p.workers
unfolding worker_step
worker_step-Manned i p q e =
    subst (AllSome (Manned p)) e (advance_at-Manned i p (get_elem? p.workers i))

running_worker :
    (ws : List Worker)
    → 1 ≤ total is_running ws
    → (i : ℕ) × (ts : List ℕ) × (get_elem? ws i ≡ some (running ts))
running_worker [] l = ground arith
running_worker (waiting ∷ ws) l = let (i, ts, e) = running_worker ws (omega arith) in (suc i, ts, e)
running_worker (running ts ∷ ws) l = (0, ts, refl)
running_worker (returned ∷ ws) l =
    let (i, ts, e) = running_worker ws (omega arith) in (suc i, ts, e)

running_step :
    (i : ℕ) (ts : List ℕ) (p : Pool)
    → get_elem? p.workers i ≡ some (running ts)
    → (q : Pool) × (worker_step i p ≡ some q)
unfolding worker_step
running_step i [] p e = (_, ap (λ o. advance_at i o p) e)
running_step i (t ∷ ts) p e = (_, ap (λ o. advance_at i o p) e)

waiting_step :
    (job : List ℕ) (jobs : List (List ℕ)) (p : Pool)
    → p.tasks ≡ job ∷ jobs
    → get_elem? p.workers 0 ≡ some waiting
    → (q : Pool) × (worker_step 0 p ≡ some q)
unfolding worker_step
waiting_step job jobs p t e = (_, ap (λ o. advance_at 0 o p) e ∙ ap (λ ts. woken 0 ts p) t)

first_worker :
    (p : Pool) (ws : List Worker) (job : List ℕ) (jobs : List (List ℕ))
    → p.workers ≡ ws
    → p.tasks ≡ job ∷ jobs
    → 1 ≤ length ws
    → total has_returned ws ≡ 0
    → (q : Pool) × (worker_step 0 p ≡ some q)
first_worker p [] job jobs w t l z = ground arith
first_worker p (waiting ∷ ws) job jobs w t l z =
    waiting_step job jobs p t (ap (λ ws. get_elem? ws 0) w)
first_worker p (running ts ∷ ws) job jobs w t l z =
    running_step 0 ts p (ap (λ ws. get_elem? ws 0) w)
first_worker p (returned ∷ ws) job jobs w t l z = ground arith

busy_step :
    (p : Pool) (ts : List (List ℕ))
    → p.tasks ≡ ts
    → Counted p
    → 1 ≤ length p.workers
    → has_pending_tasks p ≡ true
    → (i : ℕ) × (q : Pool) × (worker_step i p ≡ some q)
unfolding has_pending_tasks
busy_step p [] t c l h =
    let a = c.active in
    let b = ap is_empty t in
    let (i, ts, e) = running_worker p.workers (ground arith) in
    let (q, s) = running_step i ts p e in (i, q, s)
busy_step p (job ∷ jobs) t c l h =
    let s = c.stopped in
    let (q, e) = first_worker p p.workers job jobs refl t l (ground arith) in (0, q, e)

submitted-Manned :
    (job : List ℕ) (p : Pool) (b : Bool)
    → AllSome (Manned p) (if b then none else some (record p { tasks = p.tasks ++ (job ∷ []) }))
submitted-Manned job p true = tt
submitted-Manned job p false = refl

enqueue-Manned :
    (job : List ℕ) (p q : Pool) → enqueue job p ≡ some q → length q.workers ≡ length p.workers
unfolding enqueue
enqueue-Manned job p q e = subst (AllSome (Manned p)) e (submitted-Manned job p p.stop)

abbrev AllTaken : (Pool → Type 0) → Option (ℕ × Pool) → Type 0
AllTaken P none = Unit {0}
AllTaken P (some (t, p)) = P p

first_of-Manned : (ts : List ℕ) (p : Pool) → AllTaken (Manned p) (first_of ts p)
first_of-Manned [] p = tt
first_of-Manned (t ∷ ts) p = refl

dequeue-Manned :
    (t : ℕ) (p q : Pool) → dequeue p ≡ some (t, q) → length q.workers ≡ length p.workers
unfolding dequeue
dequeue-Manned t p q e = subst (AllTaken (Manned p)) e (first_of-Manned p.queue p)

-- A pool keeps its workers.
Run-Manned : {n : ℕ} {a b : List ℕ} {p : Pool} → Run n a b p → length p.workers ≡ n
unfolding enqueue dequeue post shut_down
Run-Manned {n} start = length-replicate n waiting
Run-Manned (submitted {p} {q} r job e) = enqueue-Manned job p q e ∙ Run-Manned r
Run-Manned (posted r t) = Run-Manned r
Run-Manned (handled {p} {q} r t e) = dequeue-Manned t p q e ∙ Run-Manned r
Run-Manned (worked {p} {q} r i e) = worker_step-Manned i p q e ∙ Run-Manned r
Run-Manned (shut r) = Run-Manned r

-- In each state that a pool with one worker or more reaches, stopped or not, some worker can go on
-- while hasPendingTasks holds: the pool is never stuck with work left.
pub has_pending_tasks-worker_step :
    {n : ℕ} {a b : List ℕ} {p : Pool}
    → Run n a b p
    → 1 ≤ n
    → has_pending_tasks p ≡ true
    → (i : ℕ) × (q : Pool) × (worker_step i p ≡ some q)
has_pending_tasks-worker_step {p} r l h =
    let m = Run-Manned r in busy_step p p.tasks refl (Run-Counted r) (omega arith) h

-- The workers and what is left after they went on in some order.
abbrev pub Drained : Pool → Type 0
Drained p =
    (is : List ℕ) × (q : Pool) × (worker_steps is p ≡ some q) × (has_pending_tasks q ≡ false)

first_step : (i : ℕ) (p q : Pool) → worker_step i p ≡ some q → Drained q → Drained p
unfolding worker_steps
first_step i p q e (is, r, s, d) =
    (i ∷ is, r, ap (λ o. elim o [ none ↦ none | some q ↦ worker_steps is q ]) e ∙ s, d)

worker_steps-Drained :
    (n : ℕ) (p : Pool) → work p ≡ n → Counted p → 1 ≤ length p.workers → Drained p
unfolding worker_steps
worker_steps-Drained zero p w c l = elim (Bool-cases (has_pending_tasks p)) [
  | inl h ↦
      let (i, q, e) = busy_step p p.tasks refl c l h in
      let s = worker_step-work i p q e in absurd (omega arith)
  | inr h ↦ ([], p, refl, h)
]
worker_steps-Drained (suc n) p w c l = elim (Bool-cases (has_pending_tasks p)) [
  | inl h ↦
      let (i, q, e) = busy_step p p.tasks refl c l h in
      let s = worker_step-work i p q e in
      let m = worker_step-Manned i p q e in
      first_step i p q e
        (worker_steps-Drained n q (omega arith) ((worker_step-Kept i p q e).0 c) (omega arith))
  | inr h ↦ ([], p, refl, h)
]

-- From each state that a pool with one worker or more reaches, its workers can go on, by themselves, to
-- a state in which hasPendingTasks does not hold.
pub Run-Drained : {n : ℕ} {a b : List ℕ} {p : Pool} → Run n a b p → 1 ≤ n → Drained p
Run-Drained {p} r l =
    let m = Run-Manned r in worker_steps-Drained (work p) p refl (Run-Counted r) (omega arith)
