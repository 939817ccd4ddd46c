-- ===== src/Timer/Runs.antt =====
-- A run of the timers, and the theorems at concrete inputs.
use zane.Base.{◌+◌, ◌*◌, ◌^◌, ◌≤◌, ◌≡◌, refl, true, false, [], ◌∷◌, All, max, inl, inr, arith}
use zane.Base.Int.{pos, negsuc}
use zane.Buffer.{ok}
use zane.Timer.{int32, TimerData, State, Turn, clear, tick, get_next_delay}
use zane.Timer.Invariant.{WellFormed}
use zane.Timer.Tick.{tick-WellFormed}
use zane.Timer.Delay.{get_next_delay-All}
use zane.Timer.Stored.{timeout_timer, interval_timer}

-- A timeout of 5 ms and an interval of 2 ms, both set at the moment 0.
abbrev two : State
two = record {
  timers = timeout_timer 0 1 10 5 [] ∷ interval_timer 0 2 20 2 [] ∷ [];
  next_timer_id = 3;
  running_timer_id = negsuc 0;
  running_timer_cleared = false;
}

two-WellFormed : WellFormed two
two-WellFormed =
    (omega arith, omega arith, inl refl, (omega arith, omega arith, inr (omega arith), tt))

-- Each callback clears the interval.
abbrev clearing : TimerData → State → Turn
clearing t s = record {
  calls = clear (int32 (pos 2) ∷ []) ∷ [];
  throws = false;
  after = 3 * 10 ^ 6;
}

abbrev left : State
left = record two { timers = timeout_timer 0 1 10 5 [] ∷ []; running_timer_cleared = true }

ticked : tick (λ ts ids. ids) clearing (3 * 10 ^ 6) two ≡ ok (left, true)
unfolding tick
ticked = refl

soon : get_next_delay 500000 two ≡ 1
unfolding get_next_delay
soon = refl

tick-WellFormed_example : WellFormed left
tick-WellFormed_example =
    tick-WellFormed (λ ts ids. ids) clearing (3 * 10 ^ 6) two (left, true) two-WellFormed ticked

get_next_delay-All_example :
    All (λ t. 500000 + get_next_delay 500000 two * 10 ^ 6 ≤ max 500000 t.expiry) two.timers
get_next_delay-All_example = get_next_delay-All 500000 two
