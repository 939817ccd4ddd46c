-- ===== src/Pool/Ended.antt =====
-- src/main.cpp: the event loop ends only when nothing is left to do.
use zane.Base.{
  ℕ, ◌≡◌, refl, sym, subst, ◌∙◌, Bool, true, false, not, ◌||◌, Option, some, none, List, [], ◌∷◌,
  if◌then◌else◌, arith,
}
use zane.Pool.{
  Pool, worker_step, has_pending_tasks, task_queue_is_empty, thread_pool, dequeue, first_of,
}
use zane.Pool.Invariant.{Run, start, Run-Counted}
use zane.Pool.Exit.{
  Quiet, Quiet-worker_step, Going, has_pending_tasks-Quiet, worker_step-Going, perform_all-Going,
}
use zane.Pool.Loop.{
  Place, polling, taking, ticking, asking_timers, asking_tasks, asking_threads, asking_builtin,
  again_timers, again_tasks, again_threads, again_builtin, resting, ended, failed, Main, Command,
  submit, enqueue_task, set_timers, set_builtin, perform, perform_all, go, after, taken, main_step,
  beginning, Loop, begun, went, worked,
}

-- What the checks have found at a place of the main thread.
abbrev Found : Place → Main → Type 0
Found asking_tasks m = m.timers ≡ false
Found asking_threads m = m.timers ≡ false
Found asking_builtin m = (m.timers ≡ false) × Quiet m.pool
Found again_timers m = (m.timers ≡ false) × (m.builtin ≡ false) × Quiet m.pool
Found (again_tasks b) m = (m.timers ≡ false) × (m.builtin ≡ false) × Quiet m.pool
Found (again_threads b) m =
    (m.timers ≡ false)
    × (m.builtin ≡ false)
    × Quiet m.pool
    × ((b ≡ false) → task_queue_is_empty m.pool ≡ true)
Found (again_builtin b) m =
    (m.timers ≡ false)
    × (m.builtin ≡ false)
    × Quiet m.pool
    × ((b ≡ false) → task_queue_is_empty m.pool ≡ true)
Found ended m =
    (m.timers ≡ false) × (m.builtin ≡ false) × Quiet m.pool × (task_queue_is_empty m.pool ≡ true)
Found l m = Unit {0}

abbrev Sound : Main → Type 0
Sound m = Going m.pool × Found m.place m

-- A step of a worker at a place where the pool is known to be quiet does not happen.
quiet_place : (i : ℕ) (p q : Pool) (A : Type 0) → Quiet p → worker_step i p ≡ some q → A
quiet_place i p q A z e =
    let n = Quiet-worker_step i p z in let f : none ≡ some q = sym n ∙ e in ground arith

worked-Found :
    (l : Place) (i : ℕ) (m : Main) (q : Pool)
    → worker_step i m.pool ≡ some q
    → Found l m
    → Found l (record m { pool = q })
worked-Found polling i m q e f = tt
worked-Found taking i m q e f = tt
worked-Found ticking i m q e f = tt
worked-Found asking_timers i m q e f = tt
worked-Found asking_tasks i m q e f = f
worked-Found asking_threads i m q e f = f
worked-Found asking_builtin i m q e f = quiet_place i m.pool q _ f.1 e
worked-Found again_timers i m q e f = quiet_place i m.pool q _ f.2 e
worked-Found (again_tasks b) i m q e f = quiet_place i m.pool q _ f.2 e
worked-Found (again_threads b) i m q e f = quiet_place i m.pool q _ f.2 e
worked-Found (again_builtin b) i m q e f = quiet_place i m.pool q _ f.2 e
worked-Found resting i m q e f = tt
worked-Found ended i m q e f = quiet_place i m.pool q _ f.2 e
worked-Found failed i m q e f = tt

-- Both branches of a test keep it.
branch :
    (b : Bool) (m n : Main)
    → (b ≡ true → Sound m)
    → (b ≡ false → Sound n)
    → Sound (if b then m else n)
branch true m n f g = f refl
branch false m n f g = g refl

abbrev AllTaken : Option (ℕ × Pool) → Type 0
AllTaken none = Unit {0}
AllTaken (some (t, p)) = Going p

first_of-Going : (ts : List ℕ) (p : Pool) → Going p → AllTaken (first_of ts p)
first_of-Going [] p g = tt
first_of-Going (t ∷ ts) p (c, s) = (record { active = c.active; stopped = c.stopped }, s)

dequeue-AllTaken : (p : Pool) → Going p → AllTaken (dequeue p)
unfolding dequeue
dequeue-AllTaken p g = first_of-Going p.queue p g

false_left : (b c : Bool) → b || c ≡ false → b ≡ false
false_left b c e = ground arith

false_right : (b c : Bool) → b || not c ≡ false → c ≡ true
false_right b c e = ground arith

module _ (run : ℕ → Main → List Command × Bool) (tick : Main → List Command × Bool)
    (microtasks : Main → List Command) where
  after-Sound :
      (l : Place) (r : List Command × Bool) (m : Main)
      → ((n : Main) → Found l n)
      → Going m.pool
      → Sound (after run tick microtasks l r m)
  after-Sound l (cs, true) m f g = (perform_all-Going cs m g, tt)
  after-Sound l (cs, false) m f g = (perform_all-Going cs m g, f (go l (perform_all cs m)))

  taken-Sound :
      (o : Option (ℕ × Pool)) (m : Main)
      → AllTaken o
      → Going m.pool
      → Sound (taken run tick microtasks o m)
  taken-Sound none m a g = (g, tt)
  taken-Sound (some (t, p)) m a g =
      let n = record m { pool = p } in after-Sound polling (run t n) n (λ n. tt) a

  main_step-Sound :
      (m : Main) (l : Place)
      → microtasks m ≡ []
      → Going m.pool
      → Found l m
      → Sound (main_step run tick microtasks m l)
  unfolding main_step perform_all
  main_step-Sound m polling e g f =
      branch (task_queue_is_empty m.pool) (go ticking m) (go taking m) (λ h. (g, tt)) (λ h. (g, tt))
  main_step-Sound m taking e g f = taken-Sound (dequeue m.pool) m (dequeue-AllTaken m.pool g) g
  main_step-Sound m ticking e g f =
      branch m.timers _ (go asking_timers m) (λ h. after-Sound asking_timers (tick m) m (λ n. tt) g)
        (λ h. (g, tt))
  main_step-Sound m asking_timers e g f =
      branch m.timers (go resting m) (go asking_tasks m) (λ h. (g, tt)) (λ h. (g, h))
  main_step-Sound m asking_tasks e g f =
      branch (task_queue_is_empty m.pool) (go asking_threads m) (go resting m) (λ h. (g, f))
        (λ h. (g, tt))
  main_step-Sound m asking_threads e g f =
      branch (has_pending_tasks m.pool) (go resting m) (go asking_builtin m) (λ h. (g, tt))
        (λ h. (g, (f, has_pending_tasks-Quiet m.pool g h)))
  main_step-Sound m asking_builtin e g f =
      branch m.builtin (go resting m) _ (λ h. (g, tt))
        (λ h. subst (λ cs. Sound (go again_timers (perform_all cs m))) (sym e) (g, (f.0, h, f.1)))
  main_step-Sound m again_timers e g f = (g, f)
  main_step-Sound m (again_tasks b) e g (t, h, q) =
      (g, (t, h, q, (λ x. false_right b (task_queue_is_empty m.pool) x)))
  main_step-Sound m (again_threads b) e g (t, h, q, k) =
      (g, (t, h, q, (λ x. k (false_left b (has_pending_tasks m.pool) x))))
  main_step-Sound m (again_builtin b) e g (t, h, q, k) =
      branch (b || m.builtin) (go resting m) (go ended m) (λ x. (g, tt))
        (λ x. (g, (t, h, q, k (false_left b m.builtin x))))
  main_step-Sound m resting e g f = (g, tt)
  main_step-Sound m ended e g f = (g, f)
  main_step-Sound m failed e g f = (g, tt)

  begun-Going : (threads : ℕ) (cs : List Command) → Going (perform_all cs (beginning threads)).pool
  begun-Going threads cs =
      let r : Run threads [] [] (thread_pool threads) = start in
      perform_all-Going cs (beginning threads) (Run-Counted r, refl)

  perform_all-place : (cs : List Command) (m : Main) → (perform_all cs m).place ≡ m.place
  unfolding perform_all perform
  perform_all-place [] m = refl
  perform_all-place (submit job ∷ cs) m = perform_all-place cs (perform (submit job) m)
  perform_all-place (enqueue_task t ∷ cs) m = perform_all-place cs (perform (enqueue_task t) m)
  perform_all-place (set_timers b ∷ cs) m = perform_all-place cs (perform (set_timers b) m)
  perform_all-place (set_builtin b ∷ cs) m = perform_all-place cs (perform (set_builtin b) m)

  Loop-Sound :
      {threads : ℕ} {m : Main}
      → ((n : Main) → microtasks n ≡ [])
      → Loop run tick microtasks threads m
      → Sound m
  Loop-Sound {threads} k (begun cs) = (
    begun-Going threads cs,
    subst (λ l. Found l (perform_all cs (beginning threads)))
        (sym (perform_all-place cs (beginning threads))) tt,
  )
  Loop-Sound k (went {m} r) = let s = Loop-Sound k r in main_step-Sound m m.place (k m) s.0 s.1
  Loop-Sound k (worked {m} {q} r i e) =
      let s = Loop-Sound k r in
      (worker_step-Going i m.pool q e s.0, worked-Found m.place i m q e s.1)

  -- However the workers of the pool run among the reads of the main thread, when the event loop ends no
  -- timer and no work of the builtin modules is active, the TaskQueue is empty, and the pool has no
  -- task and no worker that runs one; and so it stays, since no worker can go on. The microtasks that
  -- the check runs must do nothing, as where the checkpoint behind each task has left none.
  pub ended-Quiet :
      {threads : ℕ} {m : Main}
      → ((n : Main) → microtasks n ≡ [])
      → Loop run tick microtasks threads m
      → m.place ≡ ended
      → (m.timers ≡ false)
        × (m.builtin ≡ false)
        × (task_queue_is_empty m.pool ≡ true)
        × Quiet m.pool
        × ((i : ℕ) → worker_step i m.pool ≡ none)
  ended-Quiet {m} k r e =
      let (t, b, q, z) = subst (λ l. Found l m) e (Loop-Sound k r).1 in
      (t, b, z, q, λ i. Quiet-worker_step i m.pool q)
