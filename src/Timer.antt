-- ===== src/Timer.antt =====
-- src/module/timer.cpp: setTimeout, setInterval, clearTimeout, tick and getNextDelay. A moment of the
-- steady clock is its nanoseconds; each operation receives the moment that it reads.
mod Invariant
mod Tick
mod Delay
mod Stored
mod Runs
use zane.Base.{
  ℕ, zero, suc, ◌+◌, ◌-◌, ◌*◌, ◌/◌, ◌^◌, ◌<◌, min, Bool, true, false, not, ◌&&◌, Option, some, none,
  List, [], ◌∷◌, ◌++◌, map, ltb, leb, ◌==◌, if◌then◌else◌,
}
use zane.Base.Int.{ℤ, pos, negsuc}
use zane.Buffer.{Outcome, ok, undef, ◌>>=◌}

-- An argument of a call: a function by its handle, a number by its Int32Value, or another value.
pub data Arg : Type 0 where
  function : ℕ → Arg
  int32 : ℤ → Arg
  other : ℕ → Arg

pub record TimerData : Type 0 where
  pub id : ℕ
  pub callback : ℕ
  pub expiry : ℕ
  pub args : List Arg
  pub interval_ms : ℕ
  pub is_interval : Bool

-- `m_timers` in the order of its keys; a timer is stored under its own id.
pub record State : Type 0 where
  pub timers : List TimerData
  pub next_timer_id : ℕ
  pub running_timer_id : ℤ
  pub running_timer_cleared : Bool

abbrev pub initial : State
initial = record {
  timers = [];
  next_timer_id = 1;
  running_timer_id = negsuc 0;
  running_timer_cleared = false;
}

-- `m_timers[id] = timer`, `find` and `erase`.
unfoldable pub store : TimerData → List TimerData → List TimerData
store t [] = t ∷ []
store t (u ∷ us) =
    let rest = store t us in
    if ltb t.id u.id then t ∷ u ∷ us else if t.id == u.id then t ∷ us else u ∷ rest

unfoldable pub find : ℕ → List TimerData → Option TimerData
find id [] = none
find id (u ∷ us) = let rest = find id us in if u.id == id then some u else rest

unfoldable pub erase : ℕ → List TimerData → List TimerData
erase id [] = []
erase id (u ∷ us) = let rest = erase id us in if u.id == id then us else u ∷ rest

-- The second argument as a delay of at least `least` ms, and the arguments behind it.
abbrev pub delay_of : ℕ → List Arg → ℕ
delay_of least (int32 (pos n) ∷ rest) = if ltb n least then least else n
delay_of least rest = least

abbrev pub extra_args : List Arg → List Arg
extra_args [] = []
extra_args (d ∷ rest) = rest

-- Adding a timer; the counter of ids is an int32_t, whose overflow is undefined.
abbrev pub add_timer : State → TimerData → Outcome (State × Option ℕ)
add_timer s t =
    if ltb s.next_timer_id (2 ^ 31 - 1)
    then ok (
      record s { timers = store t s.timers; next_timer_id = s.next_timer_id + 1 },
      some s.next_timer_id,
    )
    else undef

-- The id that the call returns, or `none` where it throws.
unfoldable pub set_timeout : ℕ → State → List Arg → Outcome (State × Option ℕ)
unfolding store
set_timeout now s (function f ∷ rest) = add_timer s (record {
  id = s.next_timer_id;
  callback = f;
  expiry = now + delay_of 0 rest * 10 ^ 6;
  args = extra_args rest;
  interval_ms = 0;
  is_interval = false;
})
set_timeout now s args = ok (s, none)

unfoldable pub set_interval : ℕ → State → List Arg → Outcome (State × Option ℕ)
unfolding store
set_interval now s (function f ∷ rest) = add_timer s (record {
  id = s.next_timer_id;
  callback = f;
  expiry = now + delay_of 1 rest * 10 ^ 6;
  args = extra_args rest;
  interval_ms = delay_of 1 rest;
  is_interval = true;
})
set_interval now s args = ok (s, none)

abbrev same_ℤ : ℤ → ℤ → Bool
same_ℤ (pos m) (pos n) = m == n
same_ℤ (negsuc m) (negsuc n) = m == n
same_ℤ m n = false

abbrev erase_ℤ : ℤ → List TimerData → List TimerData
erase_ℤ (pos n) ts = erase n ts
erase_ℤ (negsuc n) ts = ts

unfoldable pub clear_timeout : State → List Arg → State
unfolding erase
clear_timeout s (int32 id ∷ rest) = record s {
  timers = erase_ℤ id s.timers;
  running_timer_cleared = if same_ℤ id s.running_timer_id then true else s.running_timer_cleared;
}
clear_timeout s args = s

-- What a callback does to the timers: the calls that it makes, in order, with the moments that they
-- read, whether it throws, and the moment that is read after it.
pub data Call : Type 0 where
  timeout : ℕ → List Arg → Call
  interval : ℕ → List Arg → Call
  clear : List Arg → Call

pub record Turn : Type 0 where
  pub calls : List Call
  pub throws : Bool
  pub after : ℕ

abbrev pub run_call : Call → State → Outcome State
run_call (timeout now args) s = set_timeout now s args >>= λ r. ok r.0
run_call (interval now args) s = set_interval now s args >>= λ r. ok r.0
run_call (clear args) s = ok (clear_timeout s args)

unfoldable pub run_calls : List Call → State → Outcome State
unfolding set_timeout set_interval clear_timeout
run_calls [] s = ok s
run_calls (c ∷ cs) s = run_call c s >>= λ t. run_calls cs t

-- After the callback: an interval that it did not clear is stored again.
abbrev pub reschedule : TimerData → ℕ → State → State
reschedule t after s =
    if t.is_interval && not s.running_timer_cleared
    then record s { timers = store (record t { expiry = after + t.interval_ms * 10 ^ 6 }) s.timers }
    else s

-- The body of the loop for a timer that is still there: the state, and whether the tick stops.
unfoldable pub run_timer : (TimerData → State → Turn) → TimerData → State → Outcome (State × Bool)
unfolding run_calls erase store
run_timer script t s =
    let begun = record s {
      timers = erase t.id s.timers;
      running_timer_id = pos t.id;
      running_timer_cleared = false;
    } in
    let turn = script t begun in
    run_calls turn.calls begun >>= λ called.
    let ended = record called { running_timer_id = negsuc 0 } in
    if turn.throws then ok (ended, true) else ok (reschedule t turn.after ended, false)

unfoldable pub tick_loop : (TimerData → State → Turn) → List ℕ → State → Outcome (State × Bool)
unfolding run_timer find
tick_loop script [] s = ok (s, false)
tick_loop script (id ∷ ids) s = elim (find id s.timers) [
  | none ↦ tick_loop script ids s
  | some t ↦ run_timer script t s >>= λ r. if r.1 then ok (r.0, true) else tick_loop script ids r.0
]

unfoldable pub due : ℕ → List TimerData → List ℕ
due now [] = []
due now (t ∷ ts) = let rest = due now ts in if leb t.expiry now then t.id ∷ rest else rest

abbrev pub has_timers : List TimerData → Bool
has_timers [] = false
has_timers (t ∷ ts) = true

-- `sort` is std::sort by the expiry of the timers. The result says whether timers are left.
unfoldable pub tick :
    (List TimerData → List ℕ → List ℕ)
    → (TimerData → State → Turn)
    → ℕ
    → State
    → Outcome (State × Bool)
unfolding tick_loop due
tick sort script now s =
    if not (has_timers s.timers)
    then ok (s, false)
    else tick_loop script (sort s.timers (due now s.timers)) s >>= λ r.
        ok (r.0, not r.1 && has_timers r.0.timers)

abbrev pub has_active_timers : State → Bool
has_active_timers s = has_timers s.timers

unfoldable pub min_expiry : TimerData → List TimerData → ℕ
min_expiry t [] = t.expiry
min_expiry t (u ∷ us) = min t.expiry (min_expiry u us)

-- In milliseconds, rounded down.
unfoldable pub delay_until : ℕ → List TimerData → ℕ
unfolding min_expiry
delay_until now [] = 0
delay_until now (t ∷ ts) = if leb (min_expiry t ts) now then 0 else (min_expiry t ts - now) / 10 ^ 6

unfoldable pub get_next_delay : ℕ → State → ℕ
unfolding delay_until
get_next_delay now s = delay_until now s.timers
