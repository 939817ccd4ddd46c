-- ===== src/Util/Promises.antt =====
-- src/module/node/util/util.cpp: promisify and callbackify.
pub mod Once
use zane.Base.{ℕ, Bool, true, false, Option, none, some, List, [], ◌∷◌, if◌then◌else◌}
use zane.Buffer.{Outcome, ok, throws, undef}

module _ (V E : Type 0) where
  -- What a promise comes to in the end.
  pub data Promise : Type 0 where
    pending : Promise
    fulfilled : Option V → Promise
    rejected : E → Promise

  -- A value that a promise is resolved with: one that is no thenable, or a thenable by what it comes to,
  -- which the promise takes over.
  pub data GivenValue : Type 0 where
    plain : V → GivenValue
    thenable : Promise → GivenValue

  -- A call of the callback that promisify gives to the original function: its error, where that is
  -- neither null nor undefined, and its value, `none` where there is no second argument.
  pub record Reply : Type 0 where
    pub error : Option E
    pub value : Option GivenValue

  -- What the promise comes to, whether it is resolved, and whether CallbackData is deleted.
  pub record Promised : Type 0 where
    pub promise : Promise
    pub resolved : Bool
    pub freed : Bool

  -- What the original function of callbackify does.
  pub data Returned : Type 0 where
    threw : E → Returned
    promised : Promise → Returned
    returned : V → Returned

  -- A call of the callback given to callbackify: the error, or null and the value.
  pub data Told : Type 0 where
    failure : E → Told
    success : Option V → Told

module _ {V E : Type 0} where
  -- Only the first resolution of a promise counts, also while the thenable that it takes over is
  -- pending.
  abbrev pub settle_first : Promised V E → Promise V E → Promised V E
  settle_first s p = if s.resolved then s else record s { promise = p; resolved = true }

  -- Resolver::Resolve with a value, where `none` is undefined.
  abbrev pub resolve_given : Option (GivenValue V E) → Promise V E
  resolve_given none = fulfilled none
  resolve_given (some (plain v)) = fulfilled (some v)
  resolve_given (some (thenable p)) = p

  abbrev pub reply_of : Option E → Option (GivenValue V E) → Promise V E
  reply_of none value = resolve_given value
  reply_of (some e) value = rejected e

  -- A second call uses deleted data.
  unfoldable pub callback_wrapper : Reply V E → Promised V E → Outcome (Promised V E)
  callback_wrapper c s =
      if s.freed
      then undef
      else ok (record (settle_first s (reply_of c.error c.value)) { freed = true })

  abbrev pub called : Reply V E → Outcome (Promised V E) → Outcome (Promised V E)
  called c (ok s) = callback_wrapper c s
  called c (throws e) = throws e
  called c undef = undef

  abbrev pub all_called : List (Reply V E) → Outcome (Promised V E) → Outcome (Promised V E)
  all_called [] r = r
  all_called (c ∷ cs) r = all_called cs (called c r)

  abbrev pub catch_thrown : Option E → Outcome (Promised V E) → Outcome (Promised V E)
  catch_thrown none r = r
  catch_thrown (some e) (ok s) = ok (settle_first s (rejected e))
  catch_thrown (some e) (throws f) = throws f
  catch_thrown (some e) undef = undef

  -- The promise of a promisified function: the calls of the callback before the original returns,
  -- what it throws, and the calls after that.
  unfoldable pub promisified :
      List (Reply V E) → Option E → List (Reply V E) → Outcome (Promised V E)
  unfolding callback_wrapper
  promisified before thrown after = all_called after (
      catch_thrown thrown
        (all_called before (ok (record { promise = pending; resolved = false; freed = false }))))

  -- The calls of the callback that a callbackified function makes, when the promise is settled; a
  -- promise that is given to it is one that it returns.
  unfoldable pub callbackified : Returned V E → List (Told V E)
  callbackified (threw e) = failure e ∷ []
  callbackified (promised pending) = []
  callbackified (promised (fulfilled v)) = success v ∷ []
  callbackified (promised (rejected e)) = failure e ∷ []
  callbackified (returned v) = success (some v) ∷ []

  -- A promisified function, callbackified.
  unfoldable pub told_by : Outcome (Promised V E) → Outcome (List (Told V E))
  unfolding callbackified
  told_by (ok s) = ok (callbackified (promised s.promise))
  told_by (throws e) = throws e
  told_by undef = undef
