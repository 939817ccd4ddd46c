-- ===== src/Events/Remove.antt =====
-- src/module/node/events/events.cpp: removing listeners, and running the calls that wait.
use zane.Base.{ℕ, ◌-◌, Bool, Option, some, none, List, [], ◌∷◌, if◌then◌else◌}
use zane.Events.{
  Fn, user, wrapper, Arg, name, function, Handlers, single, many, object, Task, Emitter,
  remove_listener_event, stands_for, without_first, shrink, get, emit, is_undefined,
}
use zane.Events.Table.{put, delete, keys, lookup}

-- What `removeListener` does to the handlers of the event.
pub data Removal : Type 0 where
  kept : Removal
  deleted : Removal
  replaced : Handlers → Removal

abbrev pub from_array : Option (List Fn) → Removal
from_array none = kept
from_array (some fs) = replaced (shrink fs)

abbrev pub removal : Fn → Option Handlers → Removal
removal g none = kept
removal g (some (single f)) = if stands_for f g then deleted else kept
removal g (some (many fs)) = from_array (without_first g fs)
removal g (some object) = kept

-- The text names: `is_symbol` tells the names that GetPropertyNames leaves out.
abbrev pub text_keys : (ℕ → Bool) → List ℕ → List ℕ
text_keys is_symbol [] = []
text_keys is_symbol (k ∷ ks) =
    let rest = text_keys is_symbol ks in if is_symbol k then rest else k ∷ rest

abbrev pub remove_event : ℕ → Emitter → Emitter
remove_event event s = record s {
  events = delete event s.events;
  events_count = s.events_count - 1;
}

module _ (inherited : ℕ → Option Handlers) where
  -- The count of events goes down where nothing is left under the event.
  abbrev pub counted_down : ℕ → Emitter → Emitter
  counted_down event s =
      if is_undefined (get inherited event s)
      then record s { events_count = s.events_count - 1 }
      else s

module _ (inherited : ℕ → Option Handlers) (run : Fn → List Arg → Emitter → Emitter) where
  abbrev pub told_removed : ℕ → Fn → Emitter → Emitter
  told_removed event g s =
      (emit inherited run remove_listener_event (name event ∷ function g ∷ []) s).0

  abbrev pub removed : Removal → ℕ → Fn → Emitter → Emitter
  removed kept event g s = s
  removed deleted event g s =
      told_removed event g
        (counted_down inherited event (record s { events = delete event s.events }))
  removed (replaced h) event g s =
      told_removed event g
        (counted_down inherited event (record s { events = put event h s.events }))

  -- eeRemoveListener; `none` is a listener that is missing or no function.
  unfoldable pub ee_remove_listener : Emitter → ℕ → Option Fn → Emitter
  unfolding emit put delete lookup without_first
  ee_remove_listener s event none = s
  ee_remove_listener s event (some g) = removed (removal g (get inherited event s)) event g s

  unfoldable pub tell_each : ℕ → List Fn → Emitter → Emitter
  unfolding emit
  tell_each event [] s = s
  tell_each event (f ∷ fs) s = tell_each event fs (told_removed event f s)

  abbrev pub tell_handlers : ℕ → Option Handlers → Emitter → Emitter
  tell_handlers event none s = s
  tell_handlers event (some (single f)) s = tell_each event (f ∷ []) s
  tell_handlers event (some (many fs)) s = tell_each event fs s
  tell_handlers event (some object) s = s

  unfoldable pub tell_events : List ℕ → Emitter → Emitter
  unfolding tell_each lookup
  tell_events [] s = s
  tell_events (event ∷ names) s = tell_events names (tell_handlers event (get inherited event s) s)

  -- eeRemoveAllListeners of an event, or of all.
  unfoldable pub ee_remove_all_listeners : (ℕ → Bool) → Emitter → Option ℕ → Emitter
  unfolding tell_each tell_events delete keys lookup
  ee_remove_all_listeners is_symbol s (some event) =
      if is_undefined (get inherited event s)
      then s
      else remove_event event (tell_handlers event (get inherited event s) s)
  ee_remove_all_listeners is_symbol s none =
      record (tell_events (text_keys is_symbol (keys s.events)) s) { events = []; events_count = 0 }

  -- A call of a listener: `react` is what a function of the program does, a wrapper removes itself and
  -- then calls its function (onceWrapper).
  module _ (react : ℕ → List Arg → Emitter → Emitter) where
    unfoldable pub invoke : Fn → List Arg → Emitter → Emitter
    unfolding ee_remove_listener
    invoke (user i) argv s = react i argv s
    invoke (wrapper i event f) argv s =
        invoke f argv (ee_remove_listener s event (some (wrapper i event f)))

    -- The event loop takes a call off the TaskQueue and makes it (ListenerTaskRunner).
    abbrev pub run_first : List Task → Emitter → Emitter
    run_first [] s = s
    run_first (t ∷ ts) s = invoke t.listener t.argv (record s { queue = ts })

    unfoldable pub run_next : Emitter → Emitter
    unfolding invoke
    run_next s = run_first s.queue s
