-- ===== src/Events/Reach.antt =====
-- src/module/node/events/events.cpp: what holds in each state that an emitter reaches.
use zane.Base.{
  ℕ, ◌≡◌, refl, sym, ap, subst, ◌∙◌, Bool, true, false, Option, some, none, List, [], ◌∷◌, ◌==◌,
  if◌then◌else◌, arith,
}
use zane.Events.{
  Fn, user, wrapper, Arg, Handlers, single, many, object, Task, Emitter, error, error_monitor, get,
  emit, monitored, call_each, call_handlers, is_undefined, or_inherited,
}
use zane.Events.Table.{lookup, delete-Distinct, length-delete}
use zane.Events.Remove.{
  ee_remove_all_listeners, tell_each, tell_handlers, remove_event, invoke, run_first, run_next,
}
use zane.Events.Lists.{dispatch_lem, told_removed_lem}
use zane.Events.Count.{WellFormed, ee_remove_listener-WellFormed, delete-AreStored}

module _ (inherited : ℕ → Option Handlers) (run : Fn → List Arg → Emitter → Emitter) where
  tell_each-events :
      (event : ℕ) (fs : List Fn) (s : Emitter)
      → (q : List Task) × (tell_each inherited run event fs s ≡ record s { queue = q })
  unfolding tell_each
  tell_each-events event [] s = (s.queue, refl)
  tell_each-events event (f ∷ fs) s =
      let (q, e) = told_removed_lem inherited run event f s in
      let (p, d) = tell_each-events event fs (record s { queue = q }) in
      (p, ap (tell_each inherited run event fs) e ∙ d)

  pub tell_handlers-events :
      (event : ℕ) (h : Option Handlers) (s : Emitter)
      → (q : List Task) × (tell_handlers inherited run event h s ≡ record s { queue = q })
  tell_handlers-events event none s = (s.queue, refl)
  tell_handlers-events event (some (single f)) s = tell_each-events event (f ∷ []) s
  tell_handlers-events event (some (many fs)) s = tell_each-events event fs s
  tell_handlers-events event (some object) s = (s.queue, refl)

  remove_event-WellFormed :
      (event : ℕ) (s : Emitter) (h : Handlers)
      → lookup event s.events ≡ some h
      → WellFormed s
      → WellFormed (remove_event event s)
  remove_event-WellFormed event s h e (d, a, c) = (
    delete-Distinct event s.events d,
    delete-AreStored event s.events a,
    ground (arith, length-delete event s.events d),
  )

  remove_event_told :
      (event : ℕ) (s : Emitter) (o : Option Handlers)
      → lookup event s.events ≡ o
      → WellFormed s
      → WellFormed
          (if is_undefined o then s else remove_event event (tell_handlers inherited run event o s))
  remove_event_told event s none e w = w
  remove_event_told event s (some h) e w =
      subst (λ t. WellFormed (remove_event event t)) (sym (tell_handlers-events event (some h) s).1)
        (remove_event-WellFormed event s h e w)

  module _ (no_inherited : (event : ℕ) → inherited event ≡ none) where
    own :
        (m : List (ℕ × Handlers)) (event : ℕ)
        → or_inherited inherited event (lookup event m) ≡ lookup event m
    own m event = let i = no_inherited event in ground arith

    pub ee_remove_all_listeners-WellFormed :
        (is_symbol : ℕ → Bool) (s : Emitter) (event : Option ℕ)
        → WellFormed s
        → WellFormed (ee_remove_all_listeners inherited run is_symbol s event)
    unfolding ee_remove_all_listeners
    ee_remove_all_listeners-WellFormed is_symbol s none w = (tt, tt, refl)
    ee_remove_all_listeners-WellFormed is_symbol s (some event) w =
        subst
          (λ o. WellFormed (
            if is_undefined o
            then s
            else remove_event event (tell_handlers inherited run event o s)))
          (sym (own s.events event)) (remove_event_told event s (lookup event s.events) refl w)

    module _
        (keeps : (f : Fn) (argv : List Arg) (s : Emitter)
          → WellFormed s
          → WellFormed (run f argv s)) where
      call_each-WellFormed :
          (fs : List Fn) (argv : List Arg) (s : Emitter)
          → WellFormed s
          → WellFormed (call_each run fs argv s)
      unfolding call_each
      call_each-WellFormed [] argv s w = w
      call_each-WellFormed (f ∷ fs) argv s w =
          call_each-WellFormed fs argv (run f argv s) (keeps f argv s w)

      call_handlers-WellFormed :
          (h : Option Handlers) (argv : List Arg) (s : Emitter)
          → WellFormed s
          → WellFormed (call_handlers run h argv s)
      call_handlers-WellFormed none argv s w = w
      call_handlers-WellFormed (some (single f)) argv s w = call_each-WellFormed (f ∷ []) argv s w
      call_handlers-WellFormed (some (many fs)) argv s w = call_each-WellFormed fs argv s w
      call_handlers-WellFormed (some object) argv s w = w

      monitored-WellFormed :
          (b : Bool) (argv : List Arg) (s : Emitter)
          → WellFormed s
          → WellFormed (if b then call_handlers run (get inherited error_monitor s) argv s else s)
      monitored-WellFormed true argv s w =
          call_handlers-WellFormed (get inherited error_monitor s) argv s w
      monitored-WellFormed false argv s w = w

      pub emit-WellFormed :
          (event : ℕ) (argv : List Arg) (s : Emitter)
          → WellFormed s
          → WellFormed (emit inherited run event argv s).0
      unfolding emit
      emit-WellFormed event argv s w =
          let t = monitored inherited run event argv s in
          subst WellFormed (sym (ap (λ r. r.0) (dispatch_lem event argv (get inherited event t) t)))
            (monitored-WellFormed (event == error) argv s w)

      module _ (react : ℕ → List Arg → Emitter → Emitter)
          (reaction : (i : ℕ) (argv : List Arg) (s : Emitter)
            → WellFormed s
            → WellFormed (react i argv s)) where
        invoke-WellFormed :
            (f : Fn) (argv : List Arg) (s : Emitter)
            → WellFormed s
            → WellFormed (invoke inherited run react f argv s)
        unfolding invoke
        invoke-WellFormed (user i) argv s w = reaction i argv s w
        invoke-WellFormed (wrapper i event f) argv s w = invoke-WellFormed f argv _ (
            ee_remove_listener-WellFormed inherited run s event (some (wrapper i event f))
              (no_inherited event) w)

        run_first-WellFormed :
            (ts : List Task) (s : Emitter)
            → WellFormed s
            → WellFormed (run_first inherited run react ts s)
        run_first-WellFormed [] s w = w
        run_first-WellFormed (t ∷ ts) s w =
            invoke-WellFormed t.listener t.argv (record s { queue = ts }) w

        pub run_next-WellFormed :
            (s : Emitter) → WellFormed s → WellFormed (run_next inherited run react s)
        unfolding run_next
        run_next-WellFormed s w = run_first-WellFormed s.queue s w
