-- ===== src/Stream.antt =====
-- src/module/node/stream/stream.cpp: the operators of Readable, as listeners on the events of a stream.
mod Outputs
mod Drop
mod Take
mod Windows
mod Promises
pub mod Internal
mod Piping
mod Runs
use zane.Base.{
  ℕ, ◌+◌, ◌<◌, Bool, true, false, not, Option, some, none, List, [], ◌∷◌, ◌++◌, ltb, ◌==◌,
  if◌then◌else◌, map,
}
use zane.Base.Int.{ℤ, pos, negsuc, int32}
use zane.Buffer.{Outcome, ok, throws, undef}

-- The events 'data' and 'end' of a stream, in the order in which the TaskQueue calls their listeners.
pub data Signal (A : Type 0) : Type 0 where
  chunk : A → Signal A
  eof : Signal A

abbrev pub chunks : {A : Type 0} → List A → List (Signal A)
chunks xs = map chunk xs

-- What the listeners of an operator share: its variables, whether the listener of 'end' has deleted
-- them, and what has gone out, to another stream or to a promise.
pub record Operator (S O : Type 0) : Type 0 where
  pub vars : S
  pub freed : Bool
  pub out : List O

module _ {S O : Type 0} where
  abbrev pub went_on : Operator S O → Outcome (S × List O) → Outcome (Operator S O)
  went_on o (ok (s, new)) = ok (record o { vars = s; out = o.out ++ new })
  went_on o (throws e) = throws e
  went_on o undef = undef

module _ {A S O : Type 0} where
  -- A listener that uses deleted variables has undefined behaviour.
  unfoldable pub receive :
      (A → S → Outcome (S × List O))
      → (S → List O)
      → Signal A
      → Operator S O
      → Outcome (Operator S O)
  receive on_data on_end (chunk x) o = if o.freed then undef else went_on o (on_data x o.vars)
  receive on_data on_end eof o =
      if o.freed then undef else ok (record o { freed = true; out = o.out ++ on_end o.vars })

  unfoldable pub receive_all :
      (A → S → Outcome (S × List O))
      → (S → List O)
      → List (Signal A)
      → Outcome (Operator S O)
      → Outcome (Operator S O)
  unfolding receive
  receive_all on_data on_end [] r = r
  receive_all on_data on_end (x ∷ xs) (ok o) =
      receive_all on_data on_end xs (receive on_data on_end x o)
  receive_all on_data on_end (x ∷ xs) (throws e) = throws e
  receive_all on_data on_end (x ∷ xs) undef = undef

abbrev pub opened : {S : Type 0} (O : Type 0) → S → Operator S O
opened O s = record { vars = s; freed = false; out = [] }

-- The greatest int32_t: one more is undefined behaviour.
abbrev pub int32_max : ℕ
int32_max = 2147483647

-- A count that is greater than the limit, and one that has reached it.
abbrev pub is_past : ℕ → ℤ → Bool
is_past n (pos m) = ltb m n
is_past n (negsuc m) = true

abbrev pub has_reached : ℕ → ℤ → Bool
has_reached n (pos m) = not (ltb n m)
has_reached n (negsuc m) = true

-- What a function of the program returns, converted to a Boolean; `none` is an exception.
abbrev pub when : {A : Type 0} → Option Bool → List A → List A
when (some true) xs = xs
when (some false) xs = []
when none xs = []

-- Whether it is the Boolean that a listener looks for.
abbrev pub is_hit : Bool → Option Bool → Bool
is_hit hit none = false
is_hit true (some b) = b
is_hit false (some b) = not b

module _ {A : Type 0} where
  -- readableFilter
  abbrev pub filter_data : (A → Option Bool) → A → Unit {0} → Outcome (Unit {0} × List (Signal A))
  filter_data test x u = ok (u, when (test x) (chunk x ∷ []))

  abbrev pub filter_end : Unit {0} → List (Signal A)
  filter_end u = eof ∷ []

  -- readableDrop: the limit as an int32_t, and the count of chunks.
  abbrev pub drop_chunk : ℤ → A → ℕ → Outcome (ℕ × List (Signal A))
  drop_chunk limit x count =
      if count == int32_max
      then undef
      else ok (count + 1, if is_past (count + 1) limit then chunk x ∷ [] else [])

  -- The limit is the Int32Value of the argument, a number.
  abbrev pub drop_data : ℤ → A → ℕ → Outcome (ℕ × List (Signal A))
  drop_data limit = drop_chunk (int32 limit)

  abbrev pub drop_end : ℕ → List (Signal A)
  drop_end count = eof ∷ []

  -- readableTake: the count, and whether the new stream has ended.
  abbrev pub take_chunk : ℤ → A → ℕ × Bool → Outcome ((ℕ × Bool) × List (Signal A))
  take_chunk limit x (count, true) = ok ((count, true), [])
  take_chunk limit x (count, false) =
      if count == int32_max
      then undef
      else if is_past (count + 1) limit
      then ok ((count + 1, false), [])
      else if has_reached (count + 1) limit
      then ok ((count + 1, true), chunk x ∷ eof ∷ [])
      else ok ((count + 1, false), chunk x ∷ [])

  abbrev pub take_data : ℤ → A → ℕ × Bool → Outcome ((ℕ × Bool) × List (Signal A))
  take_data limit = take_chunk (int32 limit)

  abbrev pub take_end : ℕ × Bool → List (Signal A)
  take_end (count, true) = []
  take_end (count, false) = eof ∷ []

  -- readableSome, readableEvery and readableFind: whether the promise is resolved.
  abbrev pub some_data : (A → Option Bool) → A → Bool → Outcome (Bool × List Bool)
  some_data test x true = ok (true, [])
  some_data test x false = if is_hit true (test x) then ok (true, true ∷ []) else ok (false, [])

  abbrev pub every_data : (A → Option Bool) → A → Bool → Outcome (Bool × List Bool)
  every_data test x true = ok (true, [])
  every_data test x false = if is_hit false (test x) then ok (true, false ∷ []) else ok (false, [])

  -- `none` is undefined.
  abbrev pub find_data : (A → Option Bool) → A → Bool → Outcome (Bool × List (Option A))
  find_data test x true = ok (true, [])
  find_data test x false = if is_hit true (test x) then ok (true, some x ∷ []) else ok (false, [])

  abbrev pub find_end : Bool → List (Option A)
  find_end found = if found then [] else none ∷ []

  -- readableReduce: the accumulator, `none` before the first chunk where there is no initial value.
  abbrev pub kept_or : A → Option A → A
  kept_or a none = a
  kept_or a (some b) = b

  abbrev pub reduce_data : (A → A → Option A) → A → Option A → Outcome (Option A × List (Option A))
  reduce_data fn x none = ok (some x, [])
  reduce_data fn x (some a) = ok (some (kept_or a (fn a x)), [])

  abbrev pub reduce_end : Option A → List (Option A)
  reduce_end accumulator = accumulator ∷ []

abbrev pub some_end : Bool → List Bool
some_end found = if found then [] else false ∷ []

abbrev pub every_end : Bool → List Bool
every_end failed = if failed then [] else true ∷ []
