-- ===== src/Pool/Drain.antt =====
-- src/thread_pool.hpp: the workers finish what is given to the pool.
use zane.Base.{
  ℕ, suc, ◌+◌, ◌≡◌, inl, inr, refl, ap, subst, Bool, true, false, Option, some, none, List, [], ◌∷◌,
  length, get_elem?, set, Option-cases, if◌then◌else◌, arith,
}
use zane.Pool.{
  Worker, waiting, running, returned, Pool, post, advance, advance_at, woken, worker_step,
  worker_steps,
}
use zane.Base.Totals.{total, total-set}
use zane.Pool.Invariant.{AllSome}

-- How many turns of the mutex a worker, and a pool, can still take.
abbrev pub turns : Worker → ℕ
turns waiting = 1
turns (running ts) = length ts + 2
turns returned = 0

abbrev pub work : Pool → ℕ
work p = total (λ job. length job + 2) p.tasks + total turns p.workers

abbrev Spent : Pool → Pool → Type 0
Spent p q = work p ≡ suc (work q)

module _ (i : ℕ) (p : Pool) where
  return-Spent :
      (b : Bool)
      → get_elem? p.workers i ≡ some waiting
      → AllSome
          (Spent p)
          (if b then some (record p { workers = set p.workers i returned }) else none)
  return-Spent true e = let m = total-set turns p.workers i waiting returned e in omega arith
  return-Spent false e = tt

  woken-Spent :
      (ts : List (List ℕ))
      → p.tasks ≡ ts
      → get_elem? p.workers i ≡ some waiting
      → AllSome (Spent p) (woken i ts p)
  woken-Spent [] t e = return-Spent p.stop e
  woken-Spent (job ∷ jobs) t e =
      let m = total-set turns p.workers i waiting (running job) e in
      let n = ap (total (λ job. length job + 2)) t in omega arith

  advance-Spent : (w : Worker) → get_elem? p.workers i ≡ some w → AllSome (Spent p) (advance i w p)
  unfolding post
  advance-Spent waiting e = woken-Spent p.tasks refl e
  advance-Spent (running []) e =
      let m = total-set turns p.workers i (running []) waiting e in omega arith
  advance-Spent (running (x ∷ ts)) e =
      let m = total-set turns p.workers i (running (x ∷ ts)) (running ts) e in omega arith
  advance-Spent returned e = tt

  advance_at-Spent :
      (o : Option Worker) → get_elem? p.workers i ≡ o → AllSome (Spent p) (advance_at i o p)
  advance_at-Spent none e = tt
  advance_at-Spent (some w) e = advance-Spent w e

pub worker_step-work : (i : ℕ) (p q : Pool) → worker_step i p ≡ some q → work p ≡ suc (work q)
unfolding worker_step
worker_step-work i p q e =
    subst (AllSome (Spent p)) e (advance_at-Spent i p (get_elem? p.workers i) refl)

-- However the workers are scheduled, they take no more turns than the pool has work: each waits or has
-- returned after at most that many, where nothing more is given to the pool.
pub worker_steps-work :
    (is : List ℕ) (p q : Pool) → worker_steps is p ≡ some q → work p ≡ length is + work q
unfolding worker_steps
worker_steps-work [] p q e = ground (arith, ap work)
worker_steps-work (i ∷ is) p q e = elim (Option-cases (worker_step i p)) [
  | inl n ↦ ground arith
  | inr (r, h) ↦
      let m = worker_step-work i p r h in
      let s : worker_steps is r ≡ some q = ground arith in omega (arith, worker_steps-work is r q s)
]
