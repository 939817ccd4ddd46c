-- ===== src/Events/Lists.antt =====
-- src/module/node/events/events.cpp: each method as an operation on the lists of listeners.
use zane.Base.{
  append_assoc, append_nil, ℕ, ◌≡◌, ◌≢◌, ◌⊎◌, inl, refl, sym, ap, ◌∙◌, Bool, true, false, Option,
  some, none, List, [], ◌∷◌, ◌++◌, map, ◌==◌, if◌then◌else◌, arith,
}
use zane.Base.Int.{ℤ}
use zane.Events.{
  Fn, Arg, name, function, Handlers, single, many, object, Task, Emitter, error, new_listener,
  remove_listener_event, error_monitor, enqueue_call, enqueue_calls, enqueue_handlers, Emitted,
  returned, thrown, first_arg, without_first, shrink, get, emit, dispatch, monitored, add_listener,
  stored_with, put_if, leak_check, added, or_inherited, told_added,
}
use zane.Events.Table.{lookup, put, delete, lookup-put, lookup-delete}
use zane.Events.Remove.{
  Removal, kept, deleted, replaced, from_array, removal, counted_down, told_removed, removed,
  ee_remove_listener,
}

abbrev pub listed : Option Handlers → List Fn
listed none = []
listed (some (single f)) = f ∷ []
listed (some (many fs)) = fs
listed (some object) = []

abbrev pub tasks : List Arg → List Fn → List Task
tasks argv fs = map (λ f. record { listener = f; argv = argv }) fs

abbrev pub queued : List Task → Emitter → Emitter
queued ts s = record s { queue = s.queue ++ ts }

enqueue_calls_lem :
    (fs : List Fn) (argv : List Arg) (s : Emitter)
    → enqueue_calls fs argv s ≡ queued (tasks argv fs) s
unfolding enqueue_calls
enqueue_calls_lem [] argv s = ap (λ q. record s { queue = q }) (sym (append_nil s.queue))
enqueue_calls_lem (f ∷ fs) argv s =
    enqueue_calls_lem fs argv (enqueue_call f argv s)
    ∙ ap (λ q. record s { queue = q })
        (append_assoc s.queue (record { listener = f; argv = argv } ∷ []) (tasks argv fs))

enqueue_handlers_lem :
    (h : Handlers) (argv : List Arg) (s : Emitter)
    → enqueue_handlers h argv s ≡ queued (tasks argv (listed (some h))) s
enqueue_handlers_lem (single f) argv s = enqueue_calls_lem (f ∷ []) argv s
enqueue_handlers_lem (many fs) argv s = enqueue_calls_lem fs argv s
enqueue_handlers_lem object argv s = ap (λ q. record s { queue = q }) (sym (append_nil s.queue))

-- What `emit` returns for the handlers found.
abbrev pub answer : ℕ → List Arg → Option Handlers → Emitted
answer event argv none = if event == error then thrown (first_arg argv) else returned false
answer event argv (some h) = returned true

pub dispatch_lem :
    (event : ℕ) (argv : List Arg) (h : Option Handlers) (s : Emitter)
    → dispatch event argv h s ≡ (queued (tasks argv (listed h)) s, answer event argv h)
dispatch_lem event argv none s =
    ap (λ q. (record s { queue = q }, answer event argv none)) (sym (append_nil s.queue))
dispatch_lem event argv (some h) s = ap (λ t. (t, returned true)) (enqueue_handlers_lem h argv s)

module _ (inherited : ℕ → Option Handlers) where
  abbrev pub listeners_of : Emitter → ℕ → List Fn
  listeners_of s event = listed (get inherited event s)

module _ (inherited : ℕ → Option Handlers) (run : Fn → List Arg → Emitter → Emitter) where
  monitored_quiet :
      (event : ℕ) (argv : List Arg) (s : Emitter)
      → ((event == error) ≡ false) ⊎ (get inherited error_monitor s ≡ none)
      → monitored inherited run event argv s ≡ s
  unfolding lookup
  monitored_quiet event argv s c = ground arith

  -- Where the event is not 'error', or no listener of events.errorMonitor stands in the table, `emit`
  -- adds one call for each listener of the event to the end of the TaskQueue, in the order of the
  -- listeners and each with the arguments given, and changes nothing else. It returns true if and only
  -- if something stands under the event; where nothing does, it throws the first argument on 'error'
  -- and returns false on another event.
  pub emit-listeners_of :
      (event : ℕ) (argv : List Arg) (s : Emitter)
      → ((event == error) ≡ false) ⊎ (get inherited error_monitor s ≡ none)
      → emit inherited run event argv s ≡ (
        queued (tasks argv (listeners_of inherited s event)) s,
        answer event argv (get inherited event s),
      )
  unfolding emit lookup
  emit-listeners_of event argv s c =
      ap (λ t. dispatch event argv (get inherited event t) t) (monitored_quiet event argv s c)
      ∙ dispatch_lem event argv (get inherited event s) s

  pub told_added_lem :
      (event : ℕ) (f : Fn) (s : Emitter)
      → (q : List Task) × (told_added inherited run event f s ≡ record s { queue = q })
  told_added_lem event f s = (
    _,
    ap (λ r. r.0) (emit-listeners_of new_listener (name event ∷ function f ∷ []) s (inl refl)),
  )

  pub told_removed_lem :
      (event : ℕ) (f : Fn) (s : Emitter)
      → (q : List Task) × (told_removed inherited run event f s ≡ record s { queue = q })
  told_removed_lem event f s = (
    _,
    ap (λ r. r.0)
        (emit-listeners_of remove_listener_event (name event ∷ function f ∷ []) s (inl refl)),
  )

leak_check-events :
    (d : ℤ) (event : ℕ) (h : Option Handlers) (s : Emitter)
    → (leak_check d event h s).events ≡ s.events
leak_check-events d event none s = refl
leak_check-events d event (some (single f)) s = refl
leak_check-events d event (some (many fs)) s = ground arith
leak_check-events d event (some object) s = refl

-- What a listener makes of a list of listeners.
abbrev pub with_listener : Bool → Fn → List Fn → List Fn
with_listener prepend f fs = if prepend then f ∷ fs else fs ++ (f ∷ [])

stored_with_lem :
    (prepend : Bool) (f : Fn) (h : Option Handlers)
    → h ≢ some object
    → (g : Handlers) × (stored_with prepend f h ≡ some g)
      × (listed (some g) ≡ with_listener prepend f (listed h))
stored_with_lem true f none n = (_, refl, refl)
stored_with_lem false f none n = (_, refl, refl)
stored_with_lem true f (some (single g)) n = (_, refl, refl)
stored_with_lem false f (some (single g)) n = (_, refl, refl)
stored_with_lem true f (some (many fs)) n = (_, refl, refl)
stored_with_lem false f (some (many fs)) n = (_, refl, refl)
stored_with_lem prepend f (some object) n = absurd (n refl)

module _ (inherited : ℕ → Option Handlers) (run : Fn → List Arg → Emitter → Emitter)
    (default_max : ℤ) where
  pub add_listener-events :
      (s : Emitter) (event : ℕ) (f : Fn) (prepend : Bool)
      → (add_listener inherited run default_max s event f prepend).events
        ≡ put_if event (stored_with prepend f (get inherited event s)) s.events
  unfolding add_listener
  add_listener-events s event f prepend =
      let (q, e) = told_added_lem inherited run event f s in
      let t = added inherited (told_added inherited run event f s) event f prepend in
      leak_check-events default_max event (get inherited event t) t
      ∙ ap (λ t. (added inherited t event f prepend).events) e

  -- A listener that is added stands first where it is prepended and last where it is not, after or
  -- before the listeners that the event had, and the listeners of each other event stay as they were.
  -- The event must not have an object that is no function and no array from the prototype.
  pub add_listener-listeners_of :
      (s : Emitter) (event other : ℕ) (f : Fn) (prepend : Bool)
      → get inherited event s ≢ some object
      → listeners_of inherited (add_listener inherited run default_max s event f prepend) other ≡ (
          if event == other
          then with_listener prepend f (listeners_of inherited s event)
          else listeners_of inherited s other)
  unfolding lookup
  add_listener-listeners_of s event other f prepend n =
      let (g, e, l) = stored_with_lem prepend f (get inherited event s) n in
      let stored = add_listener-events s event f prepend ∙ ap (λ h. put_if event h s.events) e in
      let seen = ap (lookup other) stored ∙ lookup-put event other g s.events in
      ground (arith, seen, l)

-- The removal of the first function that stands for g.
abbrev pub without : Fn → List Fn → List Fn
without g fs = elim (without_first g fs) [ none ↦ fs | some gs ↦ gs ]

listed-shrink : (fs : List Fn) → listed (some (shrink fs)) ≡ fs
listed-shrink [] = refl
listed-shrink (f ∷ []) = refl
listed-shrink (f ∷ g ∷ fs) = refl

abbrev pub removed_events : Removal → ℕ → List (ℕ × Handlers) → List (ℕ × Handlers)
removed_events kept event m = m
removed_events deleted event m = delete event m
removed_events (replaced h) event m = put event h m

module _ (inherited : ℕ → Option Handlers) (run : Fn → List Arg → Emitter → Emitter) where
  counted_down-events :
      (event : ℕ) (s : Emitter) → (counted_down inherited event s).events ≡ s.events
  unfolding lookup
  counted_down-events event s = ground arith

  pub removed-events :
      (r : Removal) (event : ℕ) (g : Fn) (s : Emitter)
      → (removed inherited run r event g s).events ≡ removed_events r event s.events
  removed-events kept event g s = refl
  removed-events deleted event g s =
      let t = record s { events = delete event s.events } in
      ap (λ t. t.events) (told_removed_lem inherited run event g (counted_down inherited event t)).1
      ∙ counted_down-events event t
  removed-events (replaced h) event g s =
      let t = record s { events = put event h s.events } in
      ap (λ t. t.events) (told_removed_lem inherited run event g (counted_down inherited event t)).1
      ∙ counted_down-events event t

  from_array_lem :
      (fs : List Fn) (o : Option (List Fn)) (event other : ℕ) (m : List (ℕ × Handlers))
      → or_inherited inherited event (lookup event m) ≡ some (many fs)
      → listed (or_inherited inherited other (lookup other (removed_events (from_array o) event m)))
        ≡ (if event == other
            then elim o [ none ↦ fs | some gs ↦ gs ]
            else listed (or_inherited inherited other (lookup other m)))
  from_array_lem fs none event other m e = ground arith
  from_array_lem fs (some gs) event other m e =
      ground (arith, lookup-put event other (shrink gs) m, listed-shrink gs)

  removal_lem :
      (g : Fn) (h : Option Handlers) (event other : ℕ) (m : List (ℕ × Handlers))
      → inherited event ≡ none
      → or_inherited inherited event (lookup event m) ≡ h
      → listed (or_inherited inherited other (lookup other (removed_events (removal g h) event m)))
        ≡ (if event == other
            then without g (listed h)
            else listed (or_inherited inherited other (lookup other m)))
  unfolding without_first
  removal_lem g none event other m i e = ground arith
  removal_lem g (some (single f)) event other m i e = ground (arith, lookup-delete event other m)
  removal_lem g (some (many fs)) event other m i e =
      from_array_lem fs (without_first g fs) event other m e
  removal_lem g (some object) event other m i e = ground arith

  -- Removing a listener takes the first function of the event that stands for it out of the list, and
  -- the listeners of each other event stay as they were. The prototype must have nothing under the
  -- name of the event.
  pub ee_remove_listener-listeners_of :
      (s : Emitter) (event other : ℕ) (g : Fn)
      → inherited event ≡ none
      → listeners_of inherited (ee_remove_listener inherited run s event (some g)) other ≡ (
          if event == other
          then without g (listeners_of inherited s event)
          else listeners_of inherited s other)
  unfolding ee_remove_listener
  ee_remove_listener-listeners_of s event other g i =
      ap (λ m. listed (or_inherited inherited other (lookup other m)))
        (removed-events (removal g (get inherited event s)) event g s)
      ∙ removal_lem g (get inherited event s) event other s.events i refl
