-- ===== src/Events/Count.antt =====
-- src/module/node/events/events.cpp: the table of an emitter stays well formed.
use zane.Base.{
  ℕ, ◌+◌, ◌≤◌, ◌≡◌, inl, inr, refl, sym, subst, Bool, true, false, Option, some, none, List, [],
  ◌∷◌, ◌++◌, length, if◌then◌else◌, Option-cases, length-append, arith,
}
use zane.Base.Int.{ℤ}
use zane.Events.{
  Fn, Arg, Handlers, single, many, object, Emitter, stands_for, without_first, shrink, add_listener,
  is_undefined, stored_with, put_if, leak_check, added, or_inherited, told_added,
}
use zane.Events.Table.{
  lookup, put, delete, Distinct, lookup-delete, put-Distinct, delete-Distinct, length-put,
  length-delete, lookup-put,
}
use zane.Events.Remove.{
  kept, deleted, from_array, removal, counted_down, told_removed, removed, ee_remove_listener,
}
use zane.Events.Lists.{told_added_lem, told_removed_lem}

-- A single listener, or an array of two or more.
abbrev pub IsStored : Handlers → Type 0
IsStored (single f) = Unit {0}
IsStored (many fs) = 2 ≤ length fs
IsStored object = ⊥

abbrev pub AreStored : List (ℕ × Handlers) → Type 0
AreStored [] = Unit {0}
AreStored ((k, h) ∷ m) = IsStored h × AreStored m

-- Each event is stored once, with one listener or an array of two or more, and the count is the number
-- of the events.
abbrev pub IsSound : List (ℕ × Handlers) → ℕ → Type 0
IsSound m n = Distinct m × AreStored m × (n ≡ length m)

abbrev pub WellFormed : Emitter → Type 0
WellFormed s = IsSound s.events s.events_count

put-AreStored :
    (k : ℕ) (h : Handlers) (m : List (ℕ × Handlers))
    → IsStored h
    → AreStored m
    → AreStored (put k h m)
unfolding put
put-AreStored k h [] a b = (a, tt)
put-AreStored k h ((j, g) ∷ m) a (b, c) = ground (arith, put-AreStored k h m a c)

pub delete-AreStored : (k : ℕ) (m : List (ℕ × Handlers)) → AreStored m → AreStored (delete k m)
unfolding delete
delete-AreStored k [] b = tt
delete-AreStored k ((j, g) ∷ m) (b, c) = ground (arith, delete-AreStored k m c)

pub lookup-IsStored :
    (k : ℕ) (h : Handlers) (m : List (ℕ × Handlers))
    → AreStored m
    → lookup k m ≡ some h
    → IsStored h
unfolding lookup
lookup-IsStored k h [] b e = ground arith
lookup-IsStored k h ((j, g) ∷ m) (b, c) e = ground (arith, lookup-IsStored k h m c)

stored_with-IsSound :
    (m : List (ℕ × Handlers)) (n event : ℕ) (f : Fn) (prepend : Bool) (o : Option Handlers)
    → lookup event m ≡ o
    → IsSound m n
    → IsSound (put_if event (stored_with prepend f o) m) (if is_undefined o then n + 1 else n)
stored_with-IsSound m n event f prepend none e (d, a, c) = (
  put-Distinct event (single f) m d,
  put-AreStored event (single f) m tt a,
  ground (arith, length-put event (single f) m),
)
stored_with-IsSound m n event f prepend (some (single g)) e (d, a, c) =
    let fs = if prepend then f ∷ g ∷ [] else g ∷ f ∷ [] in
    (
      put-Distinct event (many fs) m d,
      put-AreStored event (many fs) m (ground arith) a,
      ground (arith, length-put event (many fs) m),
    )
stored_with-IsSound m n event f prepend (some (many gs)) e (d, a, c) =
    let fs = if prepend then f ∷ gs else gs ++ (f ∷ []) in
    let two = lookup-IsStored event (many gs) m a e in
    (
      put-Distinct event (many fs) m d,
      put-AreStored event (many fs) m (ground (arith, length-append gs (f ∷ []))) a,
      ground (arith, length-put event (many fs) m),
    )
stored_with-IsSound m n event f prepend (some object) e (d, a, c) =
    absurd (lookup-IsStored event object m a e)

leak_check-WellFormed :
    (d : ℤ) (event : ℕ) (h : Option Handlers) (s : Emitter)
    → WellFormed s
    → WellFormed (leak_check d event h s)
leak_check-WellFormed d event none s w = w
leak_check-WellFormed d event (some (single f)) s w = w
leak_check-WellFormed d event (some (many fs)) s w = ground (arith, w)
leak_check-WellFormed d event (some object) s w = w

pub own :
    (m : List (ℕ × Handlers)) (inherited : ℕ → Option Handlers) (event : ℕ)
    → inherited event ≡ none
    → or_inherited inherited event (lookup event m) ≡ lookup event m
own m inherited event i = ground arith

-- What is left of an array of two or more.
without_first-length :
    (g : Fn) (fs gs : List Fn) → without_first g fs ≡ some gs → length gs + 1 ≡ length fs
unfolding without_first
without_first-length g [] gs e = ground arith
without_first-length g (f ∷ fs) gs e = elim (Option-cases (without_first g fs)) [
  | inl n ↦ ground arith
  | inr (hs, h) ↦ ground (arith, without_first-length g fs hs h)
]

shrink-IsStored : (fs : List Fn) → 1 ≤ length fs → IsStored (shrink fs)
shrink-IsStored [] l = ground arith
shrink-IsStored (f ∷ []) l = tt
shrink-IsStored (f ∷ g ∷ fs) l = omega arith

module _ (inherited : ℕ → Option Handlers) (run : Fn → List Arg → Emitter → Emitter) where
  pub told_removed-WellFormed :
      (event : ℕ) (f : Fn) (s : Emitter)
      → WellFormed s
      → WellFormed (told_removed inherited run event f s)
  told_removed-WellFormed event f s w =
      subst WellFormed (sym (told_removed_lem inherited run event f s).1) w

  pub add_listener-WellFormed :
      (d : ℤ) (s : Emitter) (event : ℕ) (f : Fn) (prepend : Bool)
      → inherited event ≡ none
      → WellFormed s
      → WellFormed (add_listener inherited run d s event f prepend)
  unfolding add_listener
  add_listener-WellFormed d s event f prepend i w =
      let t = told_added inherited run event f s in
      let v = subst WellFormed (sym (told_added_lem inherited run event f s).1) w in
      leak_check-WellFormed d event _ (added inherited t event f prepend) (
        subst
          (λ o.
            IsSound (put_if event (stored_with prepend f o) t.events)
              (if is_undefined o then t.events_count + 1 else t.events_count))
          (sym (own t.events inherited event i))
          (stored_with-IsSound t.events t.events_count event f prepend (lookup event t.events) refl
            v))

  -- Taking out an event that is stored, and storing another value under it.
  deleted-WellFormed :
      (s : Emitter) (event : ℕ) (h : Handlers)
      → inherited event ≡ none
      → lookup event s.events ≡ some h
      → WellFormed s
      → WellFormed (counted_down inherited event (record s { events = delete event s.events }))
  deleted-WellFormed s event h i e (d, a, c) =
      let gone = lookup-delete event event s.events in
      let fewer = length-delete event s.events d in
      let d2 = delete-Distinct event s.events d in
      let a2 = delete-AreStored event s.events a in ground arith

  replaced-WellFormed :
      (s : Emitter) (event : ℕ) (g h : Handlers)
      → lookup event s.events ≡ some g
      → IsStored h
      → WellFormed s
      → WellFormed (counted_down inherited event (record s { events = put event h s.events }))
  replaced-WellFormed s event g h e p (d, a, c) =
      let found = lookup-put event event h s.events in
      let same = length-put event h s.events in
      let d2 = put-Distinct event h s.events d in
      let a2 = put-AreStored event h s.events p a in ground arith

  single-WellFormed :
      (s : Emitter) (event : ℕ) (g f : Fn) (b : Bool)
      → inherited event ≡ none
      → lookup event s.events ≡ some (single f)
      → WellFormed s
      → WellFormed (removed inherited run (if b then deleted else kept) event g s)
  single-WellFormed s event g f true i e w =
      told_removed-WellFormed event g _ (deleted-WellFormed s event (single f) i e w)
  single-WellFormed s event g f false i e w = w

  array-WellFormed :
      (s : Emitter) (event : ℕ) (g : Fn) (fs : List Fn) (o : Option (List Fn))
      → lookup event s.events ≡ some (many fs)
      → ((gs : List Fn) → o ≡ some gs → IsStored (shrink gs))
      → WellFormed s
      → WellFormed (removed inherited run (from_array o) event g s)
  array-WellFormed s event g fs none e p w = w
  array-WellFormed s event g fs (some gs) e p w =
      told_removed-WellFormed event g _
        (replaced-WellFormed s event (many fs) (shrink gs) e (p gs refl) w)

  removed-WellFormed :
      (s : Emitter) (event : ℕ) (g : Fn) (o : Option Handlers)
      → inherited event ≡ none
      → lookup event s.events ≡ o
      → WellFormed s
      → WellFormed (removed inherited run (removal g o) event g s)
  removed-WellFormed s event g none i e w = w
  removed-WellFormed s event g (some (single f)) i e w =
      single-WellFormed s event g f (stands_for f g) i e w
  removed-WellFormed s event g (some (many fs)) i e w =
      let two = lookup-IsStored event (many fs) s.events w.1 e in
      array-WellFormed s event g fs (without_first g fs) e
        (λ gs h. shrink-IsStored gs (omega (arith, two, without_first-length g fs gs h))) w
  removed-WellFormed s event g (some object) i e w = w

  pub ee_remove_listener-WellFormed :
      (s : Emitter) (event : ℕ) (g : Option Fn)
      → inherited event ≡ none
      → WellFormed s
      → WellFormed (ee_remove_listener inherited run s event g)
  unfolding ee_remove_listener
  ee_remove_listener-WellFormed s event none i w = w
  ee_remove_listener-WellFormed s event (some g) i w =
      subst (λ o. WellFormed (removed inherited run (removal g o) event g s))
        (sym (own s.events inherited event i))
        (removed-WellFormed s event g (lookup event s.events) i refl w)
