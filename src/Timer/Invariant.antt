-- ===== src/Timer/Invariant.antt =====
-- What every operation on the timers keeps.
use zane.Base.{
  ℕ, suc, ◌+◌, ◌-◌, ◌^◌, ◌≤◌, ◌<◌, ◌≡◌, refl, ap, Bool, true, false, Option, some, List, [], ◌∷◌,
  ltb, ◌==◌, if◌then◌else◌, arith, ◌⊎◌, inl, inr, Bool-cases, ltb→lt, subst,
}
use zane.Base.Int.{pos, negsuc}
use zane.Buffer.{Outcome, ok, undef, throws, ◌>>=◌}
use zane.Timer.{
  Arg, function, int32, other, TimerData, State, store, erase, delay_of, add_timer, set_timeout,
  set_interval, clear_timeout, Call, timeout, interval, clear, run_call,
}

-- An interval is at least 1 ms, so that a tick cannot store it as due again at the same moment.
abbrev pub IsTimer : TimerData → Type 0
IsTimer t = (t.is_interval ≡ false) ⊎ (1 ≤ t.interval_ms)

-- The ids go up, from lo on and below hi.
abbrev pub Ordered : ℕ → ℕ → List TimerData → Type 0
Ordered lo hi [] = Unit {0}
Ordered lo hi (t ∷ ts) = (lo ≤ t.id) × (t.id < hi) × IsTimer t × Ordered (suc t.id) hi ts

-- No two timers share an id, and every id has been given out already.
abbrev pub WellFormed : State → Type 0
WellFormed s = Ordered 0 s.next_timer_id s.timers

pub from_lower :
    (ts : List TimerData) (lo lo' hi hi' : ℕ)
    → lo' ≤ lo
    → hi ≤ hi'
    → Ordered lo hi ts
    → Ordered lo' hi' ts
from_lower [] lo lo' hi hi' h k o = tt
from_lower (t ∷ ts) lo lo' hi hi' h k (a, b, v, o) =
    (omega arith, omega arith, v, from_lower ts (suc t.id) (suc t.id) hi hi' (omega arith) k o)

pub store-Ordered :
    (t : TimerData) (ts : List TimerData) (lo hi : ℕ)
    → lo ≤ t.id
    → t.id < hi
    → IsTimer t
    → Ordered lo hi ts
    → Ordered lo hi (store t ts)
unfolding store
store-Ordered t [] lo hi a b v o = (a, b, v, tt)
store-Ordered t (u ∷ us) lo hi a b v (c, d, w, o) =
    placed (Bool-cases _) (Bool-cases _) (λ g. store-Ordered t us (suc u.id) hi g b v o)
  where
    placed :
        (ltb t.id u.id ≡ true) ⊎ (ltb t.id u.id ≡ false)
        → ((t.id == u.id) ≡ true) ⊎ ((t.id == u.id) ≡ false)
        → (suc u.id ≤ t.id → Ordered (suc u.id) hi (store t us))
        → Ordered lo hi
            (if ltb t.id u.id then t ∷ u ∷ us else if t.id == u.id then t ∷ us else u ∷ store t us)
    placed (inl l) q more = rw l (a, b, v, (ltb→lt t.id u.id l, d, w, o))
    placed (inr l) (inl e) more =
        rw (l, e)
          (a, b, v, from_lower us (suc u.id) (suc t.id) hi hi (ground arith) (omega arith) o)
    placed (inr l) (inr n) more = rw (l, n) (c, d, w, more (ground arith))

pub erase-Ordered :
    (id : ℕ) (ts : List TimerData) (lo hi : ℕ) → Ordered lo hi ts → Ordered lo hi (erase id ts)
unfolding erase
erase-Ordered id [] lo hi o = tt
erase-Ordered id (u ∷ us) lo hi (c, d, w, o) = chosen _ (erase-Ordered id us (suc u.id) hi o)
  where
    chosen :
        (b : Bool)
        → Ordered (suc u.id) hi (erase id us)
        → Ordered lo hi (if b then us else u ∷ erase id us)
    chosen true rest = from_lower us (suc u.id) lo hi hi (omega arith) (omega arith) o
    chosen false rest = (c, d, w, rest)

result : {A : Type 0} → A → Outcome A → A
result d (ok a) = a
result d (throws e) = d
result d undef = d

pub value_of : {A : Type 0} {a b : A} → ok a ≡ ok b → a ≡ b
unfolding result
value_of {a = a} h = ap (result a) h

pub bind_ok :
    {A B : Type 0} (m : Outcome A) (f : A → Outcome B) (b : B)
    → (m >>= f) ≡ ok b
    → (a : A) × (m ≡ ok a) × (f a ≡ ok b)
bind_ok (ok a) f b h = (a, refl, h)
bind_ok (throws e) f b h = cc
bind_ok undef f b h = cc

add_timer-WellFormed :
    (s : State) (t : TimerData) (r : State × Option ℕ)
    → t.id ≡ s.next_timer_id
    → IsTimer t
    → WellFormed s
    → add_timer s t ≡ ok r
    → WellFormed r.0
add_timer-WellFormed s t r same v w h = in_range _ refl h
  where
    in_range :
        (b : Bool)
        → ltb s.next_timer_id (2 ^ 31 - 1) ≡ b
        → (if b
            then ok (
              record s { timers = store t s.timers; next_timer_id = s.next_timer_id + 1 },
              some s.next_timer_id,
            )
            else undef)
          ≡ ok r
        → WellFormed r.0
    in_range true e h =
        subst (λ x. WellFormed x.0) (value_of h)
          (store-Ordered t s.timers 0 (s.next_timer_id + 1) (omega arith) (omega (arith, same)) v (
            from_lower s.timers 0 0 s.next_timer_id (s.next_timer_id + 1) (omega arith)
              (omega arith) w))
    in_range false e h = cc

least_delay : (rest : List Arg) → 1 ≤ delay_of 1 rest
least_delay (int32 (pos n) ∷ rest) = ground arith
least_delay (int32 (negsuc n) ∷ rest) = omega arith
least_delay [] = omega arith
least_delay (function f ∷ rest) = omega arith
least_delay (other f ∷ rest) = omega arith

pub set_timeout-WellFormed :
    (now : ℕ) (s : State) (args : List Arg) (r : State × Option ℕ)
    → WellFormed s
    → set_timeout now s args ≡ ok r
    → WellFormed r.0
unfolding set_timeout
set_timeout-WellFormed now s (function f ∷ rest) r w h =
    add_timer-WellFormed s _ r refl (inl refl) w h
set_timeout-WellFormed now s [] r w h = subst (λ x. WellFormed x.0) (value_of h) w
set_timeout-WellFormed now s (int32 n ∷ rest) r w h = subst (λ x. WellFormed x.0) (value_of h) w
set_timeout-WellFormed now s (other n ∷ rest) r w h = subst (λ x. WellFormed x.0) (value_of h) w

pub set_interval-WellFormed :
    (now : ℕ) (s : State) (args : List Arg) (r : State × Option ℕ)
    → WellFormed s
    → set_interval now s args ≡ ok r
    → WellFormed r.0
unfolding set_interval
set_interval-WellFormed now s (function f ∷ rest) r w h =
    add_timer-WellFormed s _ r refl (inr (least_delay rest)) w h
set_interval-WellFormed now s [] r w h = subst (λ x. WellFormed x.0) (value_of h) w
set_interval-WellFormed now s (int32 n ∷ rest) r w h = subst (λ x. WellFormed x.0) (value_of h) w
set_interval-WellFormed now s (other n ∷ rest) r w h = subst (λ x. WellFormed x.0) (value_of h) w

pub clear_timeout-WellFormed :
    (s : State) (args : List Arg) → WellFormed s → WellFormed (clear_timeout s args)
unfolding clear_timeout
clear_timeout-WellFormed s (int32 (pos n) ∷ rest) w = erase-Ordered n s.timers 0 s.next_timer_id w
clear_timeout-WellFormed s (int32 (negsuc n) ∷ rest) w = w
clear_timeout-WellFormed s [] w = w
clear_timeout-WellFormed s (function n ∷ rest) w = w
clear_timeout-WellFormed s (other n ∷ rest) w = w

pub run_call-WellFormed :
    (c : Call) (s r : State) → WellFormed s → run_call c s ≡ ok r → WellFormed r
run_call-WellFormed (timeout now args) s r w h =
    let (x, e, f) = bind_ok (set_timeout now s args) (λ y. ok y.0) r h in
    subst WellFormed (value_of f) (set_timeout-WellFormed now s args x w e)
run_call-WellFormed (interval now args) s r w h =
    let (x, e, f) = bind_ok (set_interval now s args) (λ y. ok y.0) r h in
    subst WellFormed (value_of f) (set_interval-WellFormed now s args x w e)
run_call-WellFormed (clear args) s r w h =
    subst WellFormed (value_of h) (clear_timeout-WellFormed s args w)
