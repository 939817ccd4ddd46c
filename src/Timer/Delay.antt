-- ===== src/Timer/Delay.antt =====
-- The delay until the next timer.
use zane.Base.{
  ℕ, ◌+◌, ◌-◌, ◌*◌, ◌/◌, ◌^◌, ◌≤◌, ◌<◌, ◌≡◌, refl, Bool, true, false, List, [], ◌∷◌, All, max, leb,
  if◌then◌else◌, arith,
}
use zane.Timer.{TimerData, State, min_expiry, delay_until, get_next_delay}

below-All :
    (bound : ℕ) (t : TimerData) (ts : List TimerData)
    → bound ≤ min_expiry t ts
    → All (λ u. bound ≤ u.expiry) (t ∷ ts)
unfolding min_expiry
below-All bound t [] h = (h, tt)
below-All bound t (u ∷ us) h = (omega arith, below-All bound u us (omega arith))

weaker :
    (bound now : ℕ) (ts : List TimerData)
    → All (λ u. bound ≤ u.expiry) ts
    → All (λ u. bound ≤ max now u.expiry) ts
weaker bound now [] h = tt
weaker bound now (t ∷ ts) (a, h) = (omega arith, weaker bound now ts h)

at_once : (now : ℕ) (ts : List TimerData) → All (λ u. now + 0 * 10 ^ 6 ≤ max now u.expiry) ts
at_once now [] = tt
at_once now (t ∷ ts) = (omega arith, at_once now ts)

chosen :
    (b : Bool) (now m : ℕ) (t : TimerData) (ts : List TimerData)
    → leb m now ≡ b
    → m ≡ min_expiry t ts
    → All (λ u. now + (if b then 0 else (m - now) / 10 ^ 6) * 10 ^ 6 ≤ max now u.expiry) (t ∷ ts)
chosen true now m t ts e h = at_once now (t ∷ ts)
chosen false now m t ts e h =
    let late : now < m = ground arith in weaker _ now (t ∷ ts) (below-All _ t ts (omega (arith, h)))

delay_until-All :
    (now : ℕ) (ts : List TimerData)
    → All (λ t. now + delay_until now ts * 10 ^ 6 ≤ max now t.expiry) ts
unfolding delay_until
delay_until-All now [] = tt
delay_until-All now (t ∷ ts) = chosen _ now (min_expiry t ts) t ts refl refl

-- No timer that is not due yet becomes due before the delay that getNextDelay gives has passed.
pub get_next_delay-All :
    (now : ℕ) (s : State)
    → All (λ t. now + get_next_delay now s * 10 ^ 6 ≤ max now t.expiry) s.timers
unfolding get_next_delay
get_next_delay-All now s = delay_until-All now s.timers
