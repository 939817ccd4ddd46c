-- ===== src/Events/Queries.antt =====
-- src/module/node/events/events.cpp: what an emitter tells of its listeners.
use zane.Base.{ℕ, Bool, Option, some, none, List, [], ◌∷◌, map, length}
use zane.Base.Int.{ℤ, pos, negsuc}
use zane.Buffer.{Outcome, ok, throws, range_error, type_error}
use zane.Events.{Fn, Handlers, single, many, object, Emitter, original, get}
use zane.Events.Table.{keys, lookup}
use zane.Events.Remove.{text_keys}

-- The elements of the array that eeListeners returns, `none` for undefined: the property `listener`
-- of each function. The result itself is undefined where the handlers are another object.
abbrev pub originals : Option Handlers → Option (List (Option Fn))
originals none = some []
originals (some (single f)) = some (original f ∷ [])
originals (some (many fs)) = some (map original fs)
originals (some object) = none

abbrev pub functions : Option Handlers → Option (List Fn)
functions none = some []
functions (some (single f)) = some (f ∷ [])
functions (some (many fs)) = some fs
functions (some object) = none

abbrev pub count_of : Option Handlers → ℕ
count_of none = 0
count_of (some (single f)) = 1
count_of (some (many fs)) = length fs
count_of (some object) = 0

module _ (inherited : ℕ → Option Handlers) where
  unfoldable pub ee_listeners : Emitter → ℕ → Option (List (Option Fn))
  unfolding lookup
  ee_listeners s event = originals (get inherited event s)

  unfoldable pub ee_raw_listeners : Emitter → ℕ → Option (List Fn)
  unfolding lookup
  ee_raw_listeners s event = functions (get inherited event s)

  -- `none` is a call with no arguments.
  unfoldable pub ee_listener_count : Emitter → Option ℕ → ℕ
  unfolding lookup
  ee_listener_count s none = 0
  ee_listener_count s (some event) = count_of (get inherited event s)

unfoldable pub ee_event_names : (ℕ → Bool) → Emitter → List ℕ
unfolding keys
ee_event_names is_symbol s = text_keys is_symbol (keys s.events)

-- `none` is an argument that is missing or no number.
unfoldable pub ee_set_max_listeners : Emitter → Option ℤ → Outcome Emitter
ee_set_max_listeners s none = throws type_error
ee_set_max_listeners s (some (pos n)) = ok (record s { max_listeners = some (pos n) })
ee_set_max_listeners s (some (negsuc n)) = throws range_error

unfoldable pub ee_get_max_listeners : ℤ → Emitter → ℤ
ee_get_max_listeners default_max s = elim s.max_listeners [ none ↦ default_max | some n ↦ n ]
