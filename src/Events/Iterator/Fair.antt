-- ===== src/Events/Iterator/Fair.antt =====
-- src/module/node/events/events.cpp: every use of the iterator of events.on.
use zane.Base.{
  ℕ, ◌+◌, ◌≡◌, ◌⊎◌, inl, inr, refl, sym, ap, ◌∙◌, Bool, true, false, Option, some, none, List, [],
  ◌∷◌, ◌++◌, ◌==◌, ltb, if◌then◌else◌, map, append_assoc, append_nil, arith,
}
use zane.Base.Totals.{total, total-append}
use zane.Events.Iterator.{
  Answer, yielded, finished, rejected, Iterator, answered, next_value, iter_next, flushed,
  iter_return, heard_by, on_listener, on_error_listener, iterator,
}

-- Calls of the iterator and of its listeners; the list has the values heard before the iterator was
-- done.
pub data Use {V E : Type 0} : List V → Iterator V E → Type 0 where
  made : Use [] (iterator V E)
  asked : {vs : List V} {s : Iterator V E} → Use vs s → Use vs (iter_next s)
  closed : {vs : List V} {s : Iterator V E} → Use vs s → Use vs (iter_return s)
  heard :
      {vs : List V} {s : Iterator V E}
      → Use vs s
      → (v : V) → Use (if s.done then vs else vs ++ (v ∷ [])) (on_listener v s)
  failed :
      {vs : List V} {s : Iterator V E} → Use vs s → (e : Option E) → Use vs (on_error_listener e s)

abbrev pub times : ℕ → ℕ → ℕ
times k r = if r == k then 1 else 0

module _ {V E : Type 0} where
  abbrev pub values : List (ℕ × Answer V E) → List V
  values [] = []
  values ((r, yielded v) ∷ log) = v ∷ values log
  values ((r, finished) ∷ log) = values log
  values ((r, rejected e) ∷ log) = values log

  values-append : (xs ys : List (ℕ × Answer V E)) → values (xs ++ ys) ≡ values xs ++ values ys
  values-append [] ys = refl
  values-append ((r, yielded v) ∷ xs) ys = ap (λ l. v ∷ l) (values-append xs ys)
  values-append ((r, finished) ∷ xs) ys = values-append xs ys
  values-append ((r, rejected e) ∷ xs) ys = values-append xs ys

  abbrev pub settles : ℕ → ℕ × Answer V E → ℕ
  settles k (r, a) = times k r

  -- How often the promise k is settled or waits.
  abbrev pub told : ℕ → Iterator V E → ℕ
  told k s = total (settles k) s.settled + total (times k) s.resolvers

  -- The values heard are those yielded and those that wait, no value waits where a promise does, and
  -- each promise made is settled once or waits once, never both.
  abbrev pub IsFair : List V → Iterator V E → Type 0
  IsFair vs s =
      (vs ≡ values s.settled ++ s.queue)
      × ((s.queue ≡ []) ⊎ (s.resolvers ≡ []))
      × ((k : ℕ) → told k s ≡ (if ltb k s.promises then 1 else 0))

  answered-told :
      (k : ℕ) (a : Answer V E) (s : Iterator V E)
      → told k (answered a s) ≡ told k s + times k s.promises
  answered-told k a s = omega (arith, total-append (settles k) s.settled ((s.promises, a) ∷ []))

  total-map :
      (k : ℕ) (a : Answer V E) (rs : List ℕ)
      → total (settles k) (map (λ r. (r, a)) rs) ≡ total (times k) rs
  total-map k a [] = refl
  total-map k a (r ∷ rs) = ap (λ n. times k r + n) (total-map k a rs)

  flushed-told : (k : ℕ) (a : Answer V E) (s : Iterator V E) → told k (flushed a s) ≡ told k s
  flushed-told k a s = omega (
    arith,
    total-append (settles k) s.settled (map (λ r. (r, a)) s.resolvers),
    total-map k a s.resolvers,
  )

  map-values :
      (a : Answer V E) (rs : List ℕ)
      → ((r : ℕ) → values ((r, a) ∷ []) ≡ [])
      → values (map (λ r. (r, a)) rs) ≡ []
  map-values a [] n = refl
  map-values a (r ∷ rs) n =
      values-append ((r, a) ∷ []) (map (λ r. (r, a)) rs)
      ∙ ap (λ l. l ++ values (map (λ r. (r, a)) rs)) (n r)
      ∙ map-values a rs n

  -- What is logged without a value.
  unyielded : (log new : List (ℕ × Answer V E)) → values new ≡ [] → values (log ++ new) ≡ values log
  unyielded log new e =
      values-append log new ∙ ap (λ l. values log ++ l) e ∙ append_nil (values log)

  answered-IsFair :
      (vs : List V) (a : Answer V E) (s : Iterator V E)
      → values ((s.promises, a) ∷ []) ≡ []
      → IsFair vs s
      → IsFair vs (answered a s)
  answered-IsFair vs a s n (d, c, t) = (
    d ∙ sym (ap (λ l. l ++ s.queue) (unyielded s.settled ((s.promises, a) ∷ []) n)),
    c,
    λ k. let h = t k in let g = answered-told k a s in ground arith,
  )

  flushed-IsFair :
      (vs : List V) (a : Answer V E) (s : Iterator V E)
      → values (map (λ r. (r, a)) s.resolvers) ≡ []
      → IsFair vs s
      → IsFair vs (flushed a s)
  flushed-IsFair vs a s n (d, c, t) = (
    d ∙ sym (ap (λ l. l ++ s.queue) (unyielded s.settled (map (λ r. (r, a)) s.resolvers) n)),
    inr refl,
    λ k. flushed-told k a s ∙ t k,
  )

  iter_return-IsFair : (vs : List V) (s : Iterator V E) → IsFair vs s → IsFair vs (iter_return s)
  unfolding iter_return
  iter_return-IsFair vs s (d, c, t) =
      answered-IsFair vs finished (flushed finished (record s { done = true })) refl (
        flushed-IsFair vs finished (record s { done = true })
          (map-values finished s.resolvers (λ r. refl)) (d, c, t))

  on_error_listener-IsFair :
      (vs : List V) (e : Option E) (s : Iterator V E)
      → IsFair vs s
      → IsFair vs (on_error_listener e s)
  unfolding on_error_listener
  on_error_listener-IsFair vs e s (d, c, t) =
      iter_return-IsFair vs (flushed (rejected e) (record s { error = e })) (
        flushed-IsFair vs (rejected e) (record s { error = e })
          (map-values (rejected e) s.resolvers (λ r. refl)) (d, c, t))

  next_value-IsFair :
      (vs : List V) (e : Option E) (q : List V) (b : Bool) (s : Iterator V E)
      → s.queue ≡ q
      → IsFair vs s
      → IsFair vs (next_value e q b s)
  next_value-IsFair vs (some e) q b s h f = answered-IsFair vs (rejected (some e)) s refl f
  next_value-IsFair vs none [] true s h f = answered-IsFair vs finished s refl f
  next_value-IsFair vs none [] false s h (d, c, t) = (
    d,
    inl h,
    λ k.
        let g = t k in let a = total-append (times k) s.resolvers (s.promises ∷ []) in ground arith,
  )
  next_value-IsFair vs none (v ∷ q) b s h (d, c, t) = (
    d
        ∙ ap (λ l. values s.settled ++ l) h
        ∙ sym (append_assoc (values s.settled) (v ∷ []) q)
        ∙ sym (ap (λ l. l ++ q) (values-append s.settled ((s.promises, yielded v) ∷ []))),
    ground arith,
    λ k. let g = t k in let a = answered-told k (yielded v) s in ground arith,
  )

  heard_by-IsFair :
      (vs : List V) (v : V) (rs : List ℕ) (s : Iterator V E)
      → s.resolvers ≡ rs
      → IsFair vs s
      → IsFair (vs ++ (v ∷ [])) (heard_by v rs s)
  heard_by-IsFair vs v [] s h (d, c, t) =
      (ap (λ l. l ++ (v ∷ [])) d ∙ append_assoc (values s.settled) s.queue (v ∷ []), inr h, t)
  heard_by-IsFair vs v (r ∷ rs) s h (d, c, t) =
      let z : s.queue ≡ [] = ground arith in
      let log = s.settled ++ ((r, yielded v) ∷ []) in
      (
        ap (λ l. l ++ (v ∷ []))
              (d ∙ ap (λ q. values s.settled ++ q) z ∙ append_nil (values s.settled))
            ∙ sym (
                ap (λ q. values log ++ q) z
                ∙ append_nil (values log)
                ∙ values-append s.settled ((r, yielded v) ∷ [])),
        inl z,
        λ k.
            let g = t k in
            let a = total-append (settles k) s.settled ((r, yielded v) ∷ []) in
            let b = ap (total (times k)) h in omega arith,
      )

  on_listener-IsFair :
      (vs : List V) (v : V) (b : Bool) (s : Iterator V E)
      → IsFair vs s
      → IsFair (if b then vs else vs ++ (v ∷ [])) (if b then s else heard_by v s.resolvers s)
  on_listener-IsFair vs v true s f = f
  on_listener-IsFair vs v false s f = heard_by-IsFair vs v s.resolvers s refl f

  -- However next, return and the two listeners are called, in any order: the values heard before the
  -- iterator was done are, in order, those that promises were settled with and those that still wait;
  -- no value waits where a promise does; and each promise made is either settled once or waits once.
  pub Use-IsFair : {vs : List V} {s : Iterator V E} → Use vs s → IsFair vs s
  unfolding iter_next on_listener
  Use-IsFair made = (refl, inl refl, λ k. ground arith)
  Use-IsFair (asked {vs} {s} u) = next_value-IsFair vs s.error s.queue s.done s refl (Use-IsFair u)
  Use-IsFair (closed {vs} {s} u) = iter_return-IsFair vs s (Use-IsFair u)
  Use-IsFair (heard {vs} {s} u v) = on_listener-IsFair vs v s.done s (Use-IsFair u)
  Use-IsFair (failed {vs} {s} u e) = on_error_listener-IsFair vs e s (Use-IsFair u)
