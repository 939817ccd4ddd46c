-- ===== src/Events/Steps.antt =====
-- src/module/node/events/events.cpp: the calls that a program makes on an emitter, as steps, and the
-- event loop's, which takes a call of a listener off the TaskQueue.
use zane.Base.{ℕ, ◌+◌, ◌≡◌, refl, subst, Bool, true, false, Option, some, none, List}
use zane.Base.Int.{ℤ, pos, negsuc}
use zane.Buffer.{Outcome, ok, throws, undef}
use zane.Events.{
  Fn, wrapper, Arg, Handlers, Emitter, constructed, ee_emit, ee_on, ee_prepend_listener, ee_once,
  ee_prepend_once_listener,
}
use zane.Events.Remove.{ee_remove_listener, ee_remove_all_listeners, run_next}
use zane.Events.Queries.{ee_set_max_listeners}
use zane.Events.Count.{WellFormed, add_listener-WellFormed, ee_remove_listener-WellFormed}
use zane.Events.Reach.{ee_remove_all_listeners-WellFormed, emit-WellFormed, run_next-WellFormed}

module _ (inherited : ℕ → Option Handlers) (run : Fn → List Arg → Emitter → Emitter)
    (react : ℕ → List Arg → Emitter → Emitter) (default_max : ℤ) (is_symbol : ℕ → Bool) where
  -- A call that throws changes nothing, so it is no step.
  pub data Step : Emitter → Emitter → Type 0 where
    on :
        {s t : Emitter} (event : ℕ) (f : Option Fn)
        → ee_on inherited run default_max s event f ≡ ok t
        → Step s t
    prepended :
        {s t : Emitter} (event : ℕ) (f : Option Fn)
        → ee_prepend_listener inherited run default_max s event f ≡ ok t
        → Step s t
    once :
        {s t : Emitter} (event : ℕ) (f : Option Fn)
        → ee_once inherited run default_max s event f ≡ ok t
        → Step s t
    prepended_once :
        {s t : Emitter} (event : ℕ) (f : Option Fn)
        → ee_prepend_once_listener inherited run default_max s event f ≡ ok t
        → Step s t
    off :
        (s : Emitter) (event : ℕ) (f : Option Fn)
        → Step s (ee_remove_listener inherited run s event f)
    all_off :
        (s : Emitter) (event : Option ℕ)
        → Step s (ee_remove_all_listeners inherited run is_symbol s event)
    emitted : (s : Emitter) (call : Option (ℕ × List Arg)) → Step s (ee_emit inherited run call s).0
    limited : {s t : Emitter} (n : Option ℤ) → ee_set_max_listeners s n ≡ ok t → Step s t
    ran : (s : Emitter) → Step s (run_next inherited run react s)

  pub data Reachable : Emitter → Type 0 where
    start : Reachable constructed
    next : {s t : Emitter} → Reachable s → Step s t → Reachable t

-- What holds of the state that a call returns.
abbrev AllOk : (P : Emitter → Type 0) → Outcome Emitter → Type 0
AllOk P (ok s) = P s
AllOk P (throws e) = Unit {0}
AllOk P undef = Unit {0}

module _ (inherited : ℕ → Option Handlers) (run : Fn → List Arg → Emitter → Emitter)
    (react : ℕ → List Arg → Emitter → Emitter) (default_max : ℤ) (is_symbol : ℕ → Bool)
    (no_inherited : (event : ℕ) → inherited event ≡ none)
    (keeps : (f : Fn) (argv : List Arg) (s : Emitter) → WellFormed s → WellFormed (run f argv s))
    (reaction : (i : ℕ) (argv : List Arg) (s : Emitter)
      → WellFormed s
      → WellFormed (react i argv s)) where
  listener-AllOk :
      (s : Emitter) (event : ℕ) (f : Option Fn)
      → WellFormed s
      → AllOk WellFormed (ee_on inherited run default_max s event f)
        × AllOk WellFormed (ee_prepend_listener inherited run default_max s event f)
        × AllOk WellFormed (ee_once inherited run default_max s event f)
        × AllOk WellFormed (ee_prepend_once_listener inherited run default_max s event f)
  unfolding ee_on ee_prepend_listener ee_once ee_prepend_once_listener
  listener-AllOk s event none w = (tt, tt, tt, tt)
  listener-AllOk s event (some f) w =
      let i = no_inherited event in
      let t = record s { next_wrapper = s.next_wrapper + 1 } in
      let g = wrapper s.next_wrapper event f in
      (
        add_listener-WellFormed inherited run default_max s event f false i w,
        add_listener-WellFormed inherited run default_max s event f true i w,
        add_listener-WellFormed inherited run default_max t event g false i w,
        add_listener-WellFormed inherited run default_max t event g true i w,
      )

  max_listeners-AllOk :
      (s : Emitter) (n : Option ℤ) → WellFormed s → AllOk WellFormed (ee_set_max_listeners s n)
  unfolding ee_set_max_listeners
  max_listeners-AllOk s none w = tt
  max_listeners-AllOk s (some (pos n)) w = w
  max_listeners-AllOk s (some (negsuc n)) w = tt

  ee_emit-WellFormed :
      (s : Emitter) (call : Option (ℕ × List Arg))
      → WellFormed s
      → WellFormed (ee_emit inherited run call s).0
  ee_emit-WellFormed s none w = w
  ee_emit-WellFormed s (some (event, argv)) w =
      emit-WellFormed inherited run no_inherited keeps event argv s w

  Step-WellFormed :
      {s t : Emitter}
      → Step inherited run react default_max is_symbol s t
      → WellFormed s
      → WellFormed t
  Step-WellFormed (on {s} event f e) w = subst (AllOk WellFormed) e (listener-AllOk s event f w).0
  Step-WellFormed (prepended {s} event f e) w =
      subst (AllOk WellFormed) e (listener-AllOk s event f w).1
  Step-WellFormed (once {s} event f e) w = subst (AllOk WellFormed) e (listener-AllOk s event f w).2
  Step-WellFormed (prepended_once {s} event f e) w =
      subst (AllOk WellFormed) e (listener-AllOk s event f w).3
  Step-WellFormed (off s event f) w =
      ee_remove_listener-WellFormed inherited run s event f (no_inherited event) w
  Step-WellFormed (all_off s event) w =
      ee_remove_all_listeners-WellFormed inherited run no_inherited is_symbol s event w
  Step-WellFormed (emitted s call) w = ee_emit-WellFormed s call w
  Step-WellFormed (limited {s} n e) w = subst (AllOk WellFormed) e (max_listeners-AllOk s n w)
  Step-WellFormed (ran s) w =
      run_next-WellFormed inherited run no_inherited keeps react reaction s w

  -- In each state that an emitter reaches from its constructor, by calls of its methods and by the event
  -- loop's calls of listeners, each event is stored once, with one listener or with an array of two or
  -- more, and `_eventsCount` is the number of events stored. The names of the events must not be
  -- names that the prototype has, and what a function of the program does to the emitter must keep
  -- this.
  pub Reachable-WellFormed :
      {s : Emitter} → Reachable inherited run react default_max is_symbol s → WellFormed s
  Reachable-WellFormed start = (tt, tt, refl)
  Reachable-WellFormed (next r p) = Step-WellFormed p (Reachable-WellFormed r)
