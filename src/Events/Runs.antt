-- ===== src/Events/Runs.antt =====
-- src/module/node/events/events.cpp: an emitter used, and the theorems at concrete inputs.
use zane.Base.{
  ℕ, ◌≡◌, refl, inl, true, false, Option, some, none, List, [], ◌∷◌, ◌==◌, if◌then◌else◌, length,
  arith,
}
use zane.Base.Int.{ℤ, pos}
use zane.Events.{
  Fn, user, Arg, value, Handlers, single, object, Emitter, constructed, emit, returned, ee_on,
  ee_prepend_listener, add_listener, add_once, without_first,
}
use zane.Events.Remove.{ee_remove_listener, run_next}
use zane.Events.Queries.{ee_listeners}
use zane.Events.Lists.{
  listeners_of, queued, tasks, emit-listeners_of, add_listener-listeners_of,
  ee_remove_listener-listeners_of,
}
use zane.Events.Count.{WellFormed}
use zane.Events.Steps.{on, prepended, emitted, start, next, Reachable-WellFormed}
use zane.Events.Iterator.{iterator, iter_next, on_listener, iter_closed}
use zane.Events.Iterator.Fair.{IsFair, made, asked, heard, Use-IsFair}

abbrev plain : ℕ → Option Handlers
plain event = none

abbrev still : Fn → List Arg → Emitter → Emitter
still f argv s = s

-- A function of the program that does nothing, but is seen in the list of warnings.
abbrev seen : ℕ → List Arg → Emitter → Emitter
seen i argv s = record s { warnings = (i, length argv) ∷ s.warnings }

abbrev ten : ℤ
ten = pos 10

-- The event 5 with two listeners.
abbrev pair : Emitter
pair =
    add_listener plain still ten (add_listener plain still ten constructed 5 (user 7) false) 5
      (user 8) true

pair_listeners : listeners_of plain pair 5 ≡ user 8 ∷ user 7 ∷ []
unfolding add_listener
pair_listeners = refl

pair-WellFormed : WellFormed pair
unfolding add_listener
pair-WellFormed = ((refl, tt), (omega arith, tt), refl)

-- A listener of `once` that two calls of `emit` name before the event loop runs is called twice.
once_called_twice :
    let s = add_once plain still ten constructed 5 (user 7) false in
    let t = (emit plain still 5 [] (emit plain still 5 [] s).0).0 in
    (run_next plain still seen (run_next plain still seen t)).warnings ≡ (7, 0) ∷ (7, 0) ∷ []
unfolding run_next add_listener emit
once_called_twice = refl

-- The array that `listeners` returns holds undefined for a listener that `once` did not wrap.
listeners_undefined : ee_listeners plain pair 5 ≡ some (none ∷ none ∷ [])
unfolding ee_listeners add_listener
listeners_undefined = refl

-- A name of the prototype counts as an event with a listener, which `emit` calls.
abbrev prototype : ℕ → Option Handlers
prototype event =
    if event == 9 then some (single (user 99)) else if event == 10 then some object else none

inherited_emitted : (emit prototype still 9 [] constructed).1 ≡ returned true
unfolding emit
inherited_emitted = refl

inherited_dropped :
    listeners_of prototype (add_listener prototype still ten constructed 10 (user 7) false) 10 ≡ []
unfolding add_listener
inherited_dropped = refl

emit-listeners_of_example :
    emit plain still 5 (value 1 ∷ []) pair
    ≡ (queued (tasks (value 1 ∷ []) (listeners_of plain pair 5)) pair, returned true)
unfolding add_listener
emit-listeners_of_example = emit-listeners_of plain still 5 (value 1 ∷ []) pair (inl refl)

add_listener-listeners_of_example :
    listeners_of plain (add_listener plain still ten pair 5 (user 9) false) 5
    ≡ user 8 ∷ user 7 ∷ user 9 ∷ []
unfolding add_listener
add_listener-listeners_of_example =
    add_listener-listeners_of plain still ten pair 5 5 (user 9) false (ground arith)

ee_remove_listener-listeners_of_example :
    listeners_of plain (ee_remove_listener plain still pair 5 (some (user 8))) 5 ≡ user 7 ∷ []
unfolding add_listener without_first
ee_remove_listener-listeners_of_example =
    ee_remove_listener-listeners_of plain still pair 5 5 (user 8) refl

Reachable-WellFormed_example : WellFormed (emit plain still 5 [] pair).0
unfolding add_listener ee_on ee_prepend_listener
Reachable-WellFormed_example =
    Reachable-WellFormed plain still seen ten (λ k. k == 3) (λ k. refl) (λ f a s w. w)
      (λ i a s w. w)
      (next (next (next start (on 5 (some (user 7)) refl)) (prepended 5 (some (user 8)) refl))
        (emitted pair (some (5, []))))

-- Closing an iterator of the event 5, which listens with 7 and with 9 to errors, leaves the other
-- listener of the event.
closed_iterator :
    listeners_of plain (iter_closed plain still 5 (user 7) (user 9) (iterator ℕ ℕ, pair)).1 5
    ≡ user 8 ∷ []
unfolding iter_closed ee_remove_listener add_listener without_first
closed_iterator = refl

Use-IsFair_example : IsFair (5 ∷ []) (on_listener 5 (iter_next (iterator ℕ ℕ)))
unfolding iter_next
Use-IsFair_example = Use-IsFair (heard (asked made) 5)
