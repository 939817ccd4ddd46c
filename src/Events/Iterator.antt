-- ===== src/Events/Iterator.antt =====
-- src/module/node/events/events.cpp: the asynchronous iterator that events.on returns.
pub mod Fair
use zane.Base.{
  ℕ, ◌+◌, Bool, true, false, Option, some, none, List, [], ◌∷◌, ◌++◌, if◌then◌else◌, map,
}
use zane.Events.{Fn, Arg, Handlers, Emitter, error}
use zane.Events.Remove.{ee_remove_listener}

module _ (V E : Type 0) where
  -- What the promise of a call of `next` or `return` is settled with; `rejected none` is undefined.
  pub data Answer : Type 0 where
    yielded : V → Answer
    finished : Answer
    rejected : Option E → Answer

  -- The object of the iterator. Promises are known by the order in which they are made; `settled` is
  -- the list of those that are settled, in the order in which that happened.
  pub record Iterator : Type 0 where
    pub error : Option E
    pub queue : List V
    pub resolvers : List ℕ
    pub done : Bool
    pub promises : ℕ
    pub settled : List (ℕ × Answer)

module _ {V E : Type 0} where
  -- A new promise that is settled at once.
  abbrev pub answered : Answer V E → Iterator V E → Iterator V E
  answered a s = record s {
    promises = s.promises + 1;
    settled = s.settled ++ ((s.promises, a) ∷ []);
  }

  abbrev pub next_value : Option E → List V → Bool → Iterator V E → Iterator V E
  next_value (some e) queue done s = answered (rejected (some e)) s
  next_value none (v ∷ queue) done s = answered (yielded v) (record s { queue = queue })
  next_value none [] true s = answered finished s
  next_value none [] false s = record s {
    promises = s.promises + 1;
    resolvers = s.resolvers ++ (s.promises ∷ []);
  }

  unfoldable pub iter_next : Iterator V E → Iterator V E
  iter_next s = next_value s.error s.queue s.done s

  abbrev pub flushed : Answer V E → Iterator V E → Iterator V E
  flushed a s = record s { resolvers = []; settled = s.settled ++ map (λ r. (r, a)) s.resolvers }

  -- What iterReturn does to the iterator; `iter_closed` has the emitter too.
  unfoldable pub iter_return : Iterator V E → Iterator V E
  iter_return s = answered finished (flushed finished (record s { done = true }))

  abbrev pub heard_by : V → List ℕ → Iterator V E → Iterator V E
  heard_by v [] s = record s { queue = s.queue ++ (v ∷ []) }
  heard_by v (r ∷ resolvers) s = record s {
    resolvers = resolvers;
    settled = s.settled ++ ((r, yielded v) ∷ []);
  }

  unfoldable pub on_listener : V → Iterator V E → Iterator V E
  on_listener v s = if s.done then s else heard_by v s.resolvers s

  -- `none` is an event without arguments.
  unfoldable pub on_error_listener : Option E → Iterator V E → Iterator V E
  unfolding iter_return
  on_error_listener e s = iter_return (flushed (rejected e) (record s { error = e }))

abbrev pub iterator : (V E : Type 0) → Iterator V E
iterator V E = record {
  error = none;
  queue = [];
  resolvers = [];
  done = false;
  promises = 0;
  settled = [];
}

module _ (inherited : ℕ → Option Handlers) (run : Fn → List Arg → Emitter → Emitter) where
  abbrev pub unsubscribed : ℕ → Fn → Fn → Emitter → Emitter
  unsubscribed event listener error_listener s =
      ee_remove_listener inherited run (ee_remove_listener inherited run s event (some listener))
        error (some error_listener)

  -- iterReturn, where the iterator listens to `event` with the two listeners.
  unfoldable pub iter_closed :
      {V E : Type 0} → ℕ → Fn → Fn → Iterator V E × Emitter → Iterator V E × Emitter
  iter_closed event listener error_listener (s, emitter) =
      (iter_return s, unsubscribed event listener error_listener emitter)
