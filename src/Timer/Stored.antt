-- ===== src/Timer/Stored.antt =====
-- What setting and clearing a timer leave under its id.
use zane.Base.{
  ℕ, suc, ◌+◌, ◌-◌, ◌*◌, ◌^◌, ◌<◌, ◌≡◌, refl, true, false, some, none, List, [], ◌∷◌, ltb, ◌==◌,
  lt→ltb, ==_refl, Bool-cases, ◌⊎◌, inl, inr, if◌then◌else◌, arith,
}
use zane.Base.Int.{pos}
use zane.Buffer.{ok}
use zane.Timer.{
  Arg, function, int32, TimerData, State, store, find, erase, set_timeout, set_interval,
  clear_timeout,
}
use zane.Timer.Invariant.{Ordered, WellFormed}

find-store : (t : TimerData) (ts : List TimerData) → find t.id (store t ts) ≡ some t
unfolding find store
find-store t [] = rw (==_refl t.id) refl
find-store t (u ∷ us) = placed (Bool-cases _) (Bool-cases _) (find-store t us)
  where
    placed :
        (ltb t.id u.id ≡ true) ⊎ (ltb t.id u.id ≡ false)
        → ((t.id == u.id) ≡ true) ⊎ ((t.id == u.id) ≡ false)
        → find t.id (store t us) ≡ some t
        → find t.id
            (if ltb t.id u.id then t ∷ u ∷ us else if t.id == u.id then t ∷ us else u ∷ store t us)
          ≡ some t
    placed (inl l) q more = rw (l, ==_refl t.id) refl
    placed (inr l) (inl e) more = rw (l, e, ==_refl t.id) refl
    placed (inr l) (inr n) more =
        let other : (u.id == t.id) ≡ false = ground arith in rw (l, n, other) more

-- The timers of the two calls, and the state with one more timer.
abbrev pub timeout_timer : ℕ → ℕ → ℕ → ℕ → List Arg → TimerData
timeout_timer now id f d rest = record {
  id = id;
  callback = f;
  expiry = now + d * 10 ^ 6;
  args = rest;
  interval_ms = 0;
  is_interval = false;
}

abbrev pub interval_timer : ℕ → ℕ → ℕ → ℕ → List Arg → TimerData
interval_timer now id f d rest = record {
  id = id;
  callback = f;
  expiry = now + d * 10 ^ 6;
  args = rest;
  interval_ms = d;
  is_interval = true;
}

abbrev pub stored : State → TimerData → State
stored s t = record s { timers = store t s.timers; next_timer_id = s.next_timer_id + 1 }

-- Where the counter of ids has not reached its last value, setTimeout and setInterval return the next
-- id, and store a timer under it that expires after the delay (a delay of 0 counts as 1 for an
-- interval) and carries the other arguments.
pub find-set_timeout :
    (now : ℕ) (s : State) (f d : ℕ) (rest : List Arg)
    → s.next_timer_id < 2 ^ 31 - 1
    → let id = s.next_timer_id in
      let once = timeout_timer now id f d rest in
      let repeating = interval_timer now id f (if ltb d 1 then 1 else d) rest in
      (set_timeout now s (function f ∷ int32 (pos d) ∷ rest) ≡ ok (stored s once, some id))
      × (find id (stored s once).timers ≡ some once)
      × (set_interval now s (function f ∷ int32 (pos d) ∷ rest) ≡ ok (stored s repeating, some id))
      × (find id (stored s repeating).timers ≡ some repeating)
unfolding set_timeout set_interval
find-set_timeout now s f d rest h =
    let room : ltb s.next_timer_id (2 ^ 31 - 1) ≡ true = lt→ltb _ _ h in
    let least : (if ltb d 0 then 0 else d) ≡ d = ground arith in
    (rw (room, least) refl, find-store _ s.timers, rw room refl, find-store _ s.timers)

below : (id : ℕ) (ts : List TimerData) (lo hi : ℕ) → id < lo → Ordered lo hi ts → find id ts ≡ none
unfolding find
below id [] lo hi h o = refl
below id (u ∷ us) lo hi h (a, b, v, o) =
    let other : (u.id == id) ≡ false = ground arith in
    rw other (below id us (suc u.id) hi (omega arith) o)

find-erase :
    (id : ℕ) (ts : List TimerData) (lo hi : ℕ) → Ordered lo hi ts → find id (erase id ts) ≡ none
unfolding find erase
find-erase id [] lo hi o = refl
find-erase id (u ∷ us) lo hi (a, b, v, o) = chosen (Bool-cases _) (find-erase id us (suc u.id) hi o)
  where
    chosen :
        ((u.id == id) ≡ true) ⊎ ((u.id == id) ≡ false)
        → find id (erase id us) ≡ none
        → find id (if u.id == id then us else u ∷ erase id us) ≡ none
    chosen (inl e) more = rw e (below id us (suc u.id) hi (ground arith) o)
    chosen (inr n) more = rw (n, n) more

-- After clearTimeout of an id, no timer is stored under it; where it is the timer that runs, it is
-- marked as cleared.
pub find-clear_timeout :
    (s : State) (id : ℕ) (rest : List Arg)
    → WellFormed s
    → (find id (clear_timeout s (int32 (pos id) ∷ rest)).timers ≡ none)
      × ((clear_timeout
            (record s { running_timer_id = pos id })
            (int32 (pos id) ∷ rest)).running_timer_cleared
          ≡ true)
unfolding clear_timeout
find-clear_timeout s id rest w = (find-erase id s.timers 0 s.next_timer_id w, rw (==_refl id) refl)
