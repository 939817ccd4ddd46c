-- ===== src/Timer/Tick.antt =====
-- A tick keeps the timers well formed, whatever the callbacks do.
use zane.Base.{
  ℕ, suc, ◌+◌, ◌-◌, ◌*◌, ◌^◌, ◌≤◌, ◌<◌, ◌≡◌, refl, ap, Bool, true, false, not, ◌&&◌, Option, some,
  none, List, [], ◌∷◌, ltb, ◌==◌, if◌then◌else◌, arith, subst,
}
use zane.Base.Int.{pos, negsuc}
use zane.Buffer.{ok, undef, ◌>>=◌}
use zane.Timer.{
  Arg, function, int32, other, TimerData, State, store, find, erase, add_timer, set_timeout,
  set_interval, clear_timeout, Call, timeout, interval, clear, Turn, run_call, run_calls,
  reschedule, run_timer, tick_loop, tick, has_timers, due,
}
use zane.Timer.Invariant.{
  Ordered, WellFormed, IsTimer, store-Ordered, erase-Ordered, bind_ok, value_of,
  run_call-WellFormed,
}

-- The counter of ids never goes back.
add_timer_next :
    (s : State) (t : TimerData) (r : State × Option ℕ)
    → add_timer s t ≡ ok r
    → s.next_timer_id ≤ r.0.next_timer_id
add_timer_next s t r h = in_range (ltb s.next_timer_id (2 ^ 31 - 1)) h
  where
    in_range :
        (b : Bool)
        → (if b
            then ok (
              record s { timers = store t s.timers; next_timer_id = s.next_timer_id + 1 },
              some s.next_timer_id,
            )
            else undef)
          ≡ ok r
        → s.next_timer_id ≤ r.0.next_timer_id
    in_range true h = subst (λ x. s.next_timer_id ≤ x.0.next_timer_id) (value_of h) (omega arith)
    in_range false h = cc

unchanged_next :
    (s : State) (n : Option ℕ) (r : State × Option ℕ)
    → ok (s, n) ≡ ok r
    → s.next_timer_id ≤ r.0.next_timer_id
unchanged_next s n r h = subst (λ x. s.next_timer_id ≤ x.0.next_timer_id) (value_of h) (omega arith)

set_timeout_next :
    (now : ℕ) (s : State) (args : List Arg) (r : State × Option ℕ)
    → set_timeout now s args ≡ ok r
    → s.next_timer_id ≤ r.0.next_timer_id
unfolding set_timeout
set_timeout_next now s (function f ∷ rest) r h = add_timer_next s _ r h
set_timeout_next now s [] r h = unchanged_next s none r h
set_timeout_next now s (int32 n ∷ rest) r h = unchanged_next s none r h
set_timeout_next now s (other n ∷ rest) r h = unchanged_next s none r h

set_interval_next :
    (now : ℕ) (s : State) (args : List Arg) (r : State × Option ℕ)
    → set_interval now s args ≡ ok r
    → s.next_timer_id ≤ r.0.next_timer_id
unfolding set_interval
set_interval_next now s (function f ∷ rest) r h = add_timer_next s _ r h
set_interval_next now s [] r h = unchanged_next s none r h
set_interval_next now s (int32 n ∷ rest) r h = unchanged_next s none r h
set_interval_next now s (other n ∷ rest) r h = unchanged_next s none r h

clear_next : (s : State) (args : List Arg) → s.next_timer_id ≤ (clear_timeout s args).next_timer_id
unfolding clear_timeout
clear_next s (int32 n ∷ rest) = omega arith
clear_next s [] = omega arith
clear_next s (function n ∷ rest) = omega arith
clear_next s (other n ∷ rest) = omega arith

run_call_next : (c : Call) (s r : State) → run_call c s ≡ ok r → s.next_timer_id ≤ r.next_timer_id
run_call_next (timeout now args) s r h =
    let (x, e, f) = bind_ok (set_timeout now s args) (λ y. ok y.0) r h in
    subst (λ y. s.next_timer_id ≤ y.next_timer_id) (value_of f) (set_timeout_next now s args x e)
run_call_next (interval now args) s r h =
    let (x, e, f) = bind_ok (set_interval now s args) (λ y. ok y.0) r h in
    subst (λ y. s.next_timer_id ≤ y.next_timer_id) (value_of f) (set_interval_next now s args x e)
run_call_next (clear args) s r h =
    subst (λ y. s.next_timer_id ≤ y.next_timer_id) (value_of h) (clear_next s args)

run_calls-WellFormed :
    (cs : List Call) (s r : State)
    → WellFormed s
    → run_calls cs s ≡ ok r
    → WellFormed r × (s.next_timer_id ≤ r.next_timer_id)
unfolding run_calls
run_calls-WellFormed [] s r w h = (
  subst WellFormed (value_of h) w,
  subst (λ y. s.next_timer_id ≤ y.next_timer_id) (value_of h) (omega arith),
)
run_calls-WellFormed (c ∷ cs) s r w h =
    let (x, e, f) = bind_ok (run_call c s) (run_calls cs) r h in
    let (v, l) = run_calls-WellFormed cs x r (run_call-WellFormed c s x w e) f in
    (v, omega (arith, run_call_next c s x e, l))

from_option : {A : Type 0} → A → Option A → A
from_option d none = d
from_option d (some a) = a

held : {A : Type 0} {a : A} (b : A) → some a ≡ some b → a ≡ b
unfolding from_option
held b h = ap (from_option b) h

find-Ordered :
    (id : ℕ) (ts : List TimerData) (lo hi : ℕ) (t : TimerData)
    → Ordered lo hi ts
    → find id ts ≡ some t
    → (t.id < hi) × IsTimer t
unfolding find
find-Ordered id [] lo hi t o h = cc
find-Ordered id (u ∷ us) lo hi t (c, d, w, o) h =
    chosen (u.id == id) h (λ e. find-Ordered id us (suc u.id) hi t o e)
  where
    chosen :
        (b : Bool)
        → (if b then some u else find id us) ≡ some t
        → (find id us ≡ some t → (t.id < hi) × IsTimer t)
        → (t.id < hi) × IsTimer t
    chosen true h more = subst (λ x. (x.id < hi) × IsTimer x) (held t h) (d, w)
    chosen false h more = more h

reschedule-WellFormed :
    (t : TimerData) (after : ℕ) (s : State)
    → t.id < s.next_timer_id
    → IsTimer t
    → WellFormed s
    → WellFormed (reschedule t after s)
reschedule-WellFormed t after s l v w = chosen (t.is_interval && not s.running_timer_cleared)
  where
    chosen :
        (b : Bool)
        → WellFormed (
            if b
            then record s {
              timers = store (record t { expiry = after + t.interval_ms * 10 ^ 6 }) s.timers;
            }
            else s)
    chosen true =
        store-Ordered (record t { expiry = after + t.interval_ms * 10 ^ 6 }) s.timers 0
          s.next_timer_id (omega arith) l v w
    chosen false = w

run_timer-WellFormed :
    (script : TimerData → State → Turn) (t : TimerData) (s : State) (r : State × Bool)
    → t.id < s.next_timer_id
    → IsTimer t
    → WellFormed s
    → run_timer script t s ≡ ok r
    → WellFormed r.0
unfolding run_timer
run_timer-WellFormed script t s r l v w h =
    let begun = record s {
      timers = erase t.id s.timers;
      running_timer_id = pos t.id;
      running_timer_cleared = false;
    } in
    let turn = script t begun in
    let (called, e, f) = bind_ok (run_calls turn.calls begun) _ r h in
    let (good, grown) =
      run_calls-WellFormed turn.calls begun called (erase-Ordered t.id s.timers 0 s.next_timer_id w)
        e in
    ended turn.throws turn.after called (omega (arith, l, grown)) good f
  where
    ended :
        (b : Bool) (after : ℕ) (called : State)
        → t.id < called.next_timer_id
        → WellFormed called
        → (if b
            then ok (record called { running_timer_id = negsuc 0 }, true)
            else ok (reschedule t after (record called { running_timer_id = negsuc 0 }), false))
          ≡ ok r
        → WellFormed r.0
    ended true after called k good f = subst (λ x. WellFormed x.0) (value_of f) good
    ended false after called k good f =
        subst (λ x. WellFormed x.0) (value_of f)
          (reschedule-WellFormed t after (record called { running_timer_id = negsuc 0 }) k v good)

tick_loop-WellFormed :
    (script : TimerData → State → Turn) (ids : List ℕ) (s : State) (r : State × Bool)
    → WellFormed s
    → tick_loop script ids s ≡ ok r
    → WellFormed r.0
unfolding tick_loop
tick_loop-WellFormed script [] s r w h = subst (λ x. WellFormed x.0) (value_of h) w
tick_loop-WellFormed script (id ∷ ids) s r w h =
    found (find id s.timers) refl h (λ x v e. tick_loop-WellFormed script ids x r v e)
  where
    found :
        (o : Option TimerData)
        → find id s.timers ≡ o
        → (elim o [
          | none ↦ tick_loop script ids s
          | some t ↦
              run_timer script t s >>= λ r. if r.1 then ok (r.0, true) else tick_loop script ids r.0
        ])
          ≡ ok r
        → ((x : State) → WellFormed x → tick_loop script ids x ≡ ok r → WellFormed r.0)
        → WellFormed r.0
    found none e f more = more s w f
    found (some t) e f more =
        let (l, v) = find-Ordered id s.timers 0 s.next_timer_id t w e in
        let (x, g, k) = bind_ok (run_timer script t s) _ r f in
        stopped x.1 x.0 (run_timer-WellFormed script t s x l v w g) k more
      where
        stopped :
            (b : Bool) (x : State)
            → WellFormed x
            → (if b then ok (x, true) else tick_loop script ids x) ≡ ok r
            → ((x : State) → WellFormed x → tick_loop script ids x ≡ ok r → WellFormed r.0)
            → WellFormed r.0
        stopped true x v k more = subst (λ y. WellFormed y.0) (value_of k) v
        stopped false x v k more = more x v k

-- A tick that starts with timers under different ids, all given out before, and with intervals of 1 ms
-- at least, ends with such timers, in whatever order the due timers run, and whatever timers their
-- callbacks set and clear, and whether or not one of them throws.
pub tick-WellFormed :
    (sort : List TimerData → List ℕ → List ℕ) (script : TimerData → State → Turn) (now : ℕ)
    (s : State) (r : State × Bool)
    → WellFormed s
    → tick sort script now s ≡ ok r
    → WellFormed r.0
unfolding tick
tick-WellFormed sort script now s r w h = started (not (has_timers s.timers)) h
  where
    started :
        (b : Bool)
        → (if b
            then ok (s, false)
            else tick_loop script (sort s.timers (due now s.timers)) s >>= λ r.
                ok (r.0, not r.1 && has_timers r.0.timers))
          ≡ ok r
        → WellFormed r.0
    started true h = subst (λ x. WellFormed x.0) (value_of h) w
    started false h =
        let (x, e, f) = bind_ok (tick_loop script (sort s.timers (due now s.timers)) s) _ r h in
        subst (λ y. WellFormed y.0) (value_of f) (tick_loop-WellFormed script _ s x w e)
