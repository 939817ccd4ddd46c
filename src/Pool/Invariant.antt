-- ===== src/Pool/Invariant.antt =====
-- src/thread_pool.hpp: what holds in each state that the pool reaches.
use zane.Base.{
  ℕ, zero, suc, ◌+◌, ◌≡◌, ◌⊎◌, inl, inr, refl, sym, ap, subst, Bool, true, false, Option, some,
  none, List, [], ◌∷◌, ◌++◌, get_elem?, set, replicate, ◌==◌, if◌then◌else◌, arith,
}
use zane.Pool.{
  Worker, waiting, running, returned, Pool, thread_pool, enqueue, shut_down, post, dequeue, advance,
  advance_at, woken, worker_step, first_of,
}
use zane.Base.Totals.{total, total-append, total-set, occurrences}

-- What the main thread and the workers do, one turn of the mutex at a time. The lists are the tasks
-- that were given to the pool or to the TaskQueue, and those that the main thread took out.
pub data Run (threads : ℕ) : List ℕ → List ℕ → Pool → Type 0 where
  start : Run threads [] [] (thread_pool threads)
  submitted :
      {a b : List ℕ} {p q : Pool}
      → Run threads a b p
      → (job : List ℕ) → enqueue job p ≡ some q
      → Run threads (job ++ a) b q
  posted :
      {a b : List ℕ} {p : Pool} → Run threads a b p → (t : ℕ) → Run threads (t ∷ a) b (post t p)
  handled :
      {a b : List ℕ} {p q : Pool}
      → Run threads a b p
      → (t : ℕ) → dequeue p ≡ some (t, q)
      → Run threads a (t ∷ b) q
  worked :
      {a b : List ℕ} {p q : Pool}
      → Run threads a b p
      → (i : ℕ) → worker_step i p ≡ some q
      → Run threads a b q
  shut : {a b : List ℕ} {p : Pool} → Run threads a b p → Run threads a b (shut_down p)

abbrev pub is_running : Worker → ℕ
is_running waiting = 0
is_running (running ts) = 1
is_running returned = 0

abbrev pub has_returned : Worker → ℕ
has_returned waiting = 0
has_returned (running ts) = 0
has_returned returned = 1

-- What a worker has still to put into the TaskQueue.
abbrev pub carried : ℕ → Worker → ℕ
carried x waiting = 0
carried x (running ts) = occurrences x ts
carried x returned = 0

-- How often the task x stands in the pool, with a worker or in the TaskQueue.
abbrev pub held : ℕ → Pool → ℕ
held x p = total (occurrences x) p.tasks + total (carried x) p.workers + occurrences x p.queue

-- The count of active tasks is that of the workers that run one, and a worker has returned only where
-- the pool is stopped and has no task left.
pub record Counted (p : Pool) : Type 0 where
  pub active : p.active_tasks ≡ total is_running p.workers
  pub stopped : (total has_returned p.workers ≡ 0) ⊎ ((p.stop ≡ true) × (p.tasks ≡ []))

-- What a step of a worker keeps.
abbrev Kept : Pool → Pool → Type 0
Kept p q = (Counted p → Counted q) × ((x : ℕ) → held x q ≡ held x p)

abbrev pub AllSome : (P : Pool → Type 0) → Option Pool → Type 0
AllSome P none = Unit {0}
AllSome P (some p) = P p

module _ (i : ℕ) (p : Pool) where
  take-Kept :
      (job : List ℕ) (jobs : List (List ℕ))
      → p.tasks ≡ job ∷ jobs
      → get_elem? p.workers i ≡ some waiting
      → AllSome (Kept p) (woken i (job ∷ jobs) p)
  take-Kept job jobs t e =
      let ws = p.workers in
      let runs = total-set is_running ws i waiting (running job) e in
      let rets = total-set has_returned ws i waiting (running job) e in
      (
        λ c. record {
          active = omega (arith, c.active, runs);
          stopped = let s = c.stopped in ground arith;
        },
        λ x.
            let m = total-set (carried x) ws i waiting (running job) e in
            let n = ap (total (occurrences x)) t in omega arith,
      )

  return-Kept :
      (b : Bool)
      → p.stop ≡ b
      → p.tasks ≡ []
      → get_elem? p.workers i ≡ some waiting
      → AllSome
          (Kept p)
          (if b then some (record p { workers = set p.workers i returned }) else none)
  return-Kept true s t e =
      let ws = p.workers in
      let runs = total-set is_running ws i waiting returned e in
      (
        λ c. record { active = omega (arith, c.active, runs); stopped = inr (s, t) },
        λ x. let m = total-set (carried x) ws i waiting returned e in omega arith,
      )
  return-Kept false s t e = tt

  woken-Kept :
      (ts : List (List ℕ))
      → p.tasks ≡ ts
      → get_elem? p.workers i ≡ some waiting
      → AllSome (Kept p) (woken i ts p)
  woken-Kept [] t e = return-Kept p.stop refl t e
  woken-Kept (job ∷ jobs) t e = take-Kept job jobs t e

  post-Kept :
      (x : ℕ) (ts : List ℕ)
      → get_elem? p.workers i ≡ some (running (x ∷ ts))
      → AllSome (Kept p) (advance i (running (x ∷ ts)) p)
  unfolding post
  post-Kept x ts e =
      let ws = p.workers in
      let runs = total-set is_running ws i (running (x ∷ ts)) (running ts) e in
      let rets = total-set has_returned ws i (running (x ∷ ts)) (running ts) e in
      (
        λ c. record {
          active = omega (arith, c.active, runs);
          stopped = let s = c.stopped in ground arith;
        },
        λ y.
            let m = total-set (carried y) ws i (running (x ∷ ts)) (running ts) e in
            let n = total-append (λ t. if t == y then 1 else 0) p.queue (x ∷ []) in omega arith,
      )

  finish-Kept :
      get_elem? p.workers i ≡ some (running []) → AllSome (Kept p) (advance i (running []) p)
  finish-Kept e =
      let ws = p.workers in
      let runs = total-set is_running ws i (running []) waiting e in
      let rets = total-set has_returned ws i (running []) waiting e in
      (
        λ c. record {
          active = omega (arith, c.active, runs);
          stopped = let s = c.stopped in ground arith;
        },
        λ x. let m = total-set (carried x) ws i (running []) waiting e in omega arith,
      )

  advance-Kept : (w : Worker) → get_elem? p.workers i ≡ some w → AllSome (Kept p) (advance i w p)
  advance-Kept waiting e = woken-Kept p.tasks refl e
  advance-Kept (running []) e = finish-Kept e
  advance-Kept (running (x ∷ ts)) e = post-Kept x ts e
  advance-Kept returned e = tt

  advance_at-Kept :
      (o : Option Worker) → get_elem? p.workers i ≡ o → AllSome (Kept p) (advance_at i o p)
  advance_at-Kept none e = tt
  advance_at-Kept (some w) e = advance-Kept w e

pub worker_step-Kept : (i : ℕ) (p q : Pool) → worker_step i p ≡ some q → Kept p q
unfolding worker_step
worker_step-Kept i p q e =
    subst (AllSome (Kept p)) e (advance_at-Kept i p (get_elem? p.workers i) refl)

-- What a task that is given to the pool changes, and one that the main thread takes out.
abbrev pub Given : List ℕ → Pool → Pool → Type 0
Given job p q = (Counted p → Counted q) × ((x : ℕ) → held x q ≡ held x p + occurrences x job)

abbrev pub Taken : Pool → Option (ℕ × Pool) → Type 0
Taken p none = Unit {0}
Taken p (some (t, q)) =
    (Counted p → Counted q) × ((x : ℕ) → held x p ≡ held x q + occurrences x (t ∷ []))

pub submitted-Given :
    (job : List ℕ) (p : Pool) (b : Bool)
    → p.stop ≡ b
    → AllSome (Given job p) (if b then none else some (record p { tasks = p.tasks ++ (job ∷ []) }))
submitted-Given job p true s = tt
submitted-Given job p false s = (
  λ c. record { active = c.active; stopped = let r = c.stopped in ground arith },
  λ x. let n = total-append (occurrences x) p.tasks (job ∷ []) in omega arith,
)

pub enqueue-Given : (job : List ℕ) (p q : Pool) → enqueue job p ≡ some q → Given job p q
unfolding enqueue
enqueue-Given job p q e = subst (AllSome (Given job p)) e (submitted-Given job p p.stop refl)

first_of-Taken : (ts : List ℕ) (p : Pool) → p.queue ≡ ts → Taken p (first_of ts p)
first_of-Taken [] p e = tt
first_of-Taken (t ∷ ts) p e = (
  λ c. record { active = c.active; stopped = c.stopped },
  λ x. let n = ap (occurrences x) e in omega arith,
)

pub dequeue-Taken : (t : ℕ) (p q : Pool) → dequeue p ≡ some (t, q) → Taken p (some (t, q))
unfolding dequeue
dequeue-Taken t p q e = subst (Taken p) e (first_of-Taken p.queue p refl)

pub post-Given : (t : ℕ) (p : Pool) → Given (t ∷ []) p (post t p)
unfolding post
post-Given t p = (
  λ c. record { active = c.active; stopped = c.stopped },
  λ x. let n = total-append (λ y. if y == x then 1 else 0) p.queue (t ∷ []) in omega arith,
)

pub replicate-waiting : (f : Worker → ℕ) (n : ℕ) → f waiting ≡ 0 → total f (replicate n waiting) ≡ 0
replicate-waiting f zero z = refl
replicate-waiting f (suc n) z = omega (arith, z, replicate-waiting f n z)

-- In each state that a pool with any number of workers reaches, `m_active_tasks` is the number of the
-- workers that run a task, and a worker has returned only where the pool is stopped and has no task
-- left.
pub Run-Counted : {n : ℕ} {a b : List ℕ} {p : Pool} → Run n a b p → Counted p
unfolding shut_down
Run-Counted {n} start = record {
  active = sym (replicate-waiting is_running n refl);
  stopped = inl (replicate-waiting has_returned n refl);
}
Run-Counted (submitted {p} {q} r job e) = (enqueue-Given job p q e).0 (Run-Counted r)
Run-Counted (posted {p} r t) = (post-Given t p).0 (Run-Counted r)
Run-Counted (handled {p} {q} r t e) = (dequeue-Taken t p q e).0 (Run-Counted r)
Run-Counted (worked {p} {q} r i e) = (worker_step-Kept i p q e).0 (Run-Counted r)
Run-Counted (shut r) =
    let c = Run-Counted r in
    record { active = c.active; stopped = let s = c.stopped in ground arith }

-- No task is lost or made twice: in each state, a task was given to the pool and to the TaskQueue as
-- often as it was taken out of the TaskQueue and stands in the pool, with a worker or in the
-- TaskQueue.
pub Run-held :
    {n : ℕ} {a b : List ℕ} {p : Pool}
    → Run n a b p
    → (x : ℕ) → occurrences x a ≡ occurrences x b + held x p
unfolding shut_down
Run-held {n} start x = let z = replicate-waiting (carried x) n refl in omega arith
Run-held (submitted {a} {p} {q} r job e) x =
    let g = (enqueue-Given job p q e).1 x in
    let i = Run-held r x in let s = total-append (λ y. if y == x then 1 else 0) job a in omega arith
Run-held (posted {p} r t) x = let g = (post-Given t p).1 x in let i = Run-held r x in omega arith
Run-held (handled {p} {q} r t e) x =
    let g = (dequeue-Taken t p q e).1 x in let i = Run-held r x in omega arith
Run-held (worked {p} {q} r i e) x =
    let g = (worker_step-Kept i p q e).1 x in let i = Run-held r x in omega arith
Run-held (shut r) x = Run-held r x
