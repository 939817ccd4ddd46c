-- ===== src/Events.antt =====
-- src/module/node/events/events.cpp: the methods of EventEmitter.
pub mod Table
pub mod Remove
pub mod Queries
pub mod Iterator
mod Lists
mod Count
mod Reach
mod Steps
mod Told
mod Runs
use zane.Base.{
  ℕ, zero, suc, ◌+◌, ◌-◌, ◌<◌, Bool, true, false, not, ◌&&◌, ◌||◌, Option, some, none, List, [],
  ◌∷◌, ◌++◌, map, length, ltb, ◌==◌, if◌then◌else◌,
}
use zane.Base.Int.{ℤ, pos, negsuc}
use zane.Buffer.{Outcome, ok, throws, range_error, type_error}
use zane.Events.Table.{lookup, put, delete, keys}

-- A function by its identity. A wrapper made by `once` has the event and the function in its data, and
-- the function in its property `listener`; another function has no such property.
pub data Fn : Type 0 where
  user : ℕ → Fn
  wrapper : ℕ → ℕ → Fn → Fn

pub data Arg : Type 0 where
  value : ℕ → Arg
  name : ℕ → Arg
  function : Fn → Arg

-- What is stored under an event. `object` is no function and no array; the methods store none, but
-- the prototype of the table has one.
pub data Handlers : Type 0 where
  single : Fn → Handlers
  many : List Fn → Handlers
  object : Handlers

-- A call of a listener that waits in the TaskQueue.
pub record Task : Type 0 where
  pub listener : Fn
  pub argv : List Arg

-- An emitter and the TaskQueue. A warning is the number of listeners and the event.
pub record Emitter : Type 0 where
  pub events : List (ℕ × Handlers)
  pub events_count : ℕ
  pub max_listeners : Option ℤ
  pub queue : List Task
  pub warnings : List (ℕ × ℕ)
  pub next_wrapper : ℕ

-- The names that the methods know; the others are 4 and above. `error_monitor` is a symbol.
abbrev pub error : ℕ
error = 0

abbrev pub new_listener : ℕ
new_listener = 1

abbrev pub remove_listener_event : ℕ
remove_listener_event = 2

abbrev pub error_monitor : ℕ
error_monitor = 3

-- eeConstructor
abbrev pub constructed : Emitter
constructed = record {
  events = [];
  events_count = 0;
  max_listeners = none;
  queue = [];
  warnings = [];
  next_wrapper = 0;
}

-- StrictEquals
abbrev pub same_fn : Fn → Fn → Bool
same_fn (user i) (user j) = i == j
same_fn (wrapper i e f) (wrapper j d g) = i == j
same_fn (user i) (wrapper j d g) = false
same_fn (wrapper i e f) (user j) = false

-- The property `listener` of a function.
abbrev pub original : Fn → Option Fn
original (user i) = none
original (wrapper i e f) = some f

-- Whether `removeListener` takes h for the listener.
abbrev pub stands_for : Fn → Fn → Bool
stands_for (user i) g = same_fn (user i) g
stands_for (wrapper i e f) g = same_fn (wrapper i e f) g || same_fn f g

-- enqueueListenerCall
abbrev pub enqueue_call : Fn → List Arg → Emitter → Emitter
enqueue_call f argv s = record s { queue = s.queue ++ (record { listener = f; argv = argv } ∷ []) }

unfoldable pub enqueue_calls : List Fn → List Arg → Emitter → Emitter
enqueue_calls [] argv s = s
enqueue_calls (f ∷ fs) argv s = enqueue_calls fs argv (enqueue_call f argv s)

abbrev pub enqueue_handlers : Handlers → List Arg → Emitter → Emitter
enqueue_handlers (single f) argv s = enqueue_calls (f ∷ []) argv s
enqueue_handlers (many fs) argv s = enqueue_calls fs argv s
enqueue_handlers object argv s = s

-- The result of `emit`: a Boolean, or the value thrown, `none` for a new Error.
pub data Emitted : Type 0 where
  returned : Bool → Emitted
  thrown : Option Arg → Emitted

abbrev pub first_arg : List Arg → Option Arg
first_arg [] = none
first_arg (a ∷ argv) = some a

-- The first listener that stands for g is left out; `none` where there is none.
unfoldable pub without_first : Fn → List Fn → Option (List Fn)
without_first g [] = none
without_first g (f ∷ fs) =
    let rest = without_first g fs in
    if stands_for f g then some fs else elim rest [ none ↦ none | some gs ↦ some (f ∷ gs) ]

-- An array of one listener is stored as the listener.
abbrev pub shrink : List Fn → Handlers
shrink (f ∷ []) = single f
shrink fs = many fs

abbrev pub stored_with : Bool → Fn → Option Handlers → Option Handlers
stored_with prepend f none = some (single f)
stored_with prepend f (some (single g)) = some (many (if prepend then f ∷ g ∷ [] else g ∷ f ∷ []))
stored_with prepend f (some (many gs)) = some (many (if prepend then f ∷ gs else gs ++ (f ∷ [])))
stored_with prepend f (some object) = none

abbrev pub put_if : ℕ → Option Handlers → List (ℕ × Handlers) → List (ℕ × Handlers)
put_if event none m = m
put_if event (some h) m = put event h m

abbrev pub is_undefined : Option Handlers → Bool
is_undefined none = true
is_undefined (some h) = false

-- The warning of a possible leak; `default_max` is the value of `m_default_max_listeners`.
abbrev pub limit : ℤ → Emitter → ℤ
limit default_max s = elim s.max_listeners [ none ↦ default_max | some n ↦ n ]

abbrev pub exceeds : ℕ → ℤ → Bool
exceeds n (pos m) = ltb 0 m && ltb m n
exceeds n (negsuc m) = false

abbrev pub leak_check : ℤ → ℕ → Option Handlers → Emitter → Emitter
leak_check default_max event (some (many fs)) s =
    if exceeds (length fs) (limit default_max s)
    then record s { warnings = s.warnings ++ ((length fs, event) ∷ []) }
    else s
leak_check default_max event h s = s

-- `inherited` is what the prototype of an object has under a name.
module _ (inherited : ℕ → Option Handlers) where
  -- `events_obj->Get(event)`: the own property, or that of the prototype.
  abbrev pub or_inherited : ℕ → Option Handlers → Option Handlers
  or_inherited event none = inherited event
  or_inherited event (some h) = some h

  abbrev pub get : ℕ → Emitter → Option Handlers
  get event s = or_inherited event (lookup event s.events)

  abbrev pub added : Emitter → ℕ → Fn → Bool → Emitter
  added s event f prepend = record s {
    events = put_if event (stored_with prepend f (get event s)) s.events;
    events_count = if is_undefined (get event s) then s.events_count + 1 else s.events_count;
  }

-- `run` is what a listener does when it is called at once.
module _ (run : Fn → List Arg → Emitter → Emitter) where
  unfoldable pub call_each : List Fn → List Arg → Emitter → Emitter
  call_each [] argv s = s
  call_each (f ∷ fs) argv s = call_each fs argv (run f argv s)

  abbrev pub call_handlers : Option Handlers → List Arg → Emitter → Emitter
  call_handlers none argv s = s
  call_handlers (some (single f)) argv s = call_each (f ∷ []) argv s
  call_handlers (some (many fs)) argv s = call_each fs argv s
  call_handlers (some object) argv s = s

abbrev pub dispatch : ℕ → List Arg → Option Handlers → Emitter → Emitter × Emitted
dispatch event argv none s = (s, if event == error then thrown (first_arg argv) else returned false)
dispatch event argv (some h) s = (enqueue_handlers h argv s, returned true)

module _ (inherited : ℕ → Option Handlers) (run : Fn → List Arg → Emitter → Emitter) where
  -- The listeners of events.errorMonitor are called at once.
  abbrev pub monitored : ℕ → List Arg → Emitter → Emitter
  monitored event argv s =
      if event == error then call_handlers run (get inherited error_monitor s) argv s else s

  unfoldable pub emit : ℕ → List Arg → Emitter → Emitter × Emitted
  unfolding lookup call_each enqueue_calls
  emit event argv s =
      let t = monitored event argv s in dispatch event argv (get inherited event t) t

  -- eeEmit: `none` is a call with no arguments.
  abbrev pub ee_emit : Option (ℕ × List Arg) → Emitter → Emitter × Emitted
  ee_emit none s = (s, returned false)
  ee_emit (some (event, argv)) s = emit event argv s

  -- What `newListener` is told, before the listener is stored.
  abbrev pub told_added : ℕ → Fn → Emitter → Emitter
  told_added event f s = (emit new_listener (name event ∷ function f ∷ []) s).0

module _ (inherited : ℕ → Option Handlers) (run : Fn → List Arg → Emitter → Emitter)
    (default_max : ℤ) where
  -- addListenerInternal
  unfoldable pub add_listener : Emitter → ℕ → Fn → Bool → Emitter
  unfolding emit put lookup
  add_listener s event f prepend =
      let t = added inherited (told_added inherited run event f s) event f prepend in
      leak_check default_max event (get inherited event t) t

  -- The methods; `none` is a listener that is missing or no function.
  unfoldable pub ee_on : Emitter → ℕ → Option Fn → Outcome Emitter
  unfolding add_listener
  ee_on s event none = throws type_error
  ee_on s event (some f) = ok (add_listener s event f false)

  unfoldable pub ee_prepend_listener : Emitter → ℕ → Option Fn → Outcome Emitter
  unfolding add_listener
  ee_prepend_listener s event none = throws type_error
  ee_prepend_listener s event (some f) = ok (add_listener s event f true)

  abbrev pub add_once : Emitter → ℕ → Fn → Bool → Emitter
  add_once s event f prepend =
      add_listener (record s { next_wrapper = s.next_wrapper + 1 }) event
        (wrapper s.next_wrapper event f) prepend

  unfoldable pub ee_once : Emitter → ℕ → Option Fn → Outcome Emitter
  unfolding add_listener
  ee_once s event none = throws type_error
  ee_once s event (some f) = ok (add_once s event f false)

  unfoldable pub ee_prepend_once_listener : Emitter → ℕ → Option Fn → Outcome Emitter
  unfolding add_listener
  ee_prepend_once_listener s event none = throws type_error
  ee_prepend_once_listener s event (some f) = ok (add_once s event f true)
