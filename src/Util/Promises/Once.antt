-- ===== src/Util/Promises/Once.antt =====
-- src/module/node/util/util.cpp: promisify and callbackify undo each other.
use zane.Base.{
  ◌+◌, ◌<◌, ◌≡◌, refl, ap, ◌∙◌, true, Option, none, some, List, [], ◌∷◌, length, ltb, if◌then◌else◌,
  arith,
}
use zane.Buffer.{Outcome, ok, undef}
use zane.Util.Promises.{
  Reply, Told, failure, success, all_called, catch_thrown, promisified, told_by, GivenValue, plain,
  thenable, pending, fulfilled, rejected, reply_of,
}

module _ {V E : Type 0} where
  -- The call that the original makes, where its value is no thenable, and what becomes of it where it
  -- is one: its value or its error, or nothing while it is pending.
  abbrev pub told_of : Option E → Option (GivenValue V E) → List (Told V E)
  told_of (some e) value = failure e ∷ []
  told_of none none = success none ∷ []
  told_of none (some (plain v)) = success (some v) ∷ []
  told_of none (some (thenable (fulfilled w))) = success w ∷ []
  told_of none (some (thenable (rejected e))) = failure e ∷ []
  told_of none (some (thenable pending)) = []

  -- What the original function says first.
  abbrev pub first_told : List (Reply V E) → Option E → List (Reply V E) → List (Told V E)
  first_told (c ∷ before) thrown after = told_of c.error c.value
  first_told [] (some e) after = failure e ∷ []
  first_told [] none (c ∷ after) = told_of c.error c.value
  first_told [] none [] = []

  all_called-undef : (cs : List (Reply V E)) → all_called cs undef ≡ undef
  all_called-undef [] = refl
  all_called-undef (c ∷ cs) = all_called-undef cs

  catch_thrown-undef : (thrown : Option E) → catch_thrown {V = V} thrown undef ≡ undef
  catch_thrown-undef none = refl
  catch_thrown-undef (some e) = refl

  too_many :
      (before after : List (Reply V E)) (x : Outcome (List (Told V E)))
      → 1 < length before + length after
      → undef ≡ (if ltb 1 (length before + length after) then undef else x)
  too_many before after x h = ground arith

  undefined_told : (cs : List (Reply V E)) → told_by (all_called cs undef) ≡ undef
  unfolding told_by
  undefined_told cs = ap told_by (all_called-undef cs)

  one_told :
      (e : Option E) (v : Option (GivenValue V E))
      → told_by (ok (record { promise = reply_of e v; resolved = true; freed = true }))
        ≡ ok (told_of e v)
  unfolding told_by
  one_told (some e) v = refl
  one_told none none = refl
  one_told none (some (plain v)) = refl
  one_told none (some (thenable (fulfilled w))) = refl
  one_told none (some (thenable (rejected e))) = refl
  one_told none (some (thenable pending)) = refl

  -- A function that is promisified and then callbackified calls its callback as the original one does
  -- (with what the original throws, where it throws before it calls its callback), if that calls its
  -- callback at most once, except that a thenable which the original gives as its value is waited for:
  -- the callback is then called with what the thenable comes to, be it a value or an error. Where the
  -- original calls its callback more often, the behaviour is undefined.
  pub promisified-told_by :
      (before after : List (Reply V E)) (thrown : Option E)
      → told_by (promisified before thrown after) ≡ (
          if ltb 1 (length before + length after)
          then undef
          else ok (first_told before thrown after))
  unfolding promisified told_by
  promisified-told_by [] [] none = refl
  promisified-told_by [] [] (some e) = refl
  promisified-told_by [] (c ∷ []) none = one_told c.error c.value
  promisified-told_by [] (c ∷ []) (some e) = refl
  promisified-told_by [] (c ∷ d ∷ cs) none =
      undefined_told cs ∙ too_many [] (c ∷ d ∷ cs) (ok (told_of c.error c.value)) (omega arith)
  promisified-told_by [] (c ∷ d ∷ cs) (some e) =
      undefined_told cs ∙ too_many [] (c ∷ d ∷ cs) (ok (failure e ∷ [])) (omega arith)
  promisified-told_by (c ∷ []) [] none = one_told c.error c.value
  promisified-told_by (c ∷ []) [] (some e) = one_told c.error c.value
  promisified-told_by (c ∷ []) (d ∷ cs) none =
      undefined_told cs ∙ too_many (c ∷ []) (d ∷ cs) (ok (told_of c.error c.value)) (omega arith)
  promisified-told_by (c ∷ []) (d ∷ cs) (some e) =
      undefined_told cs ∙ too_many (c ∷ []) (d ∷ cs) (ok (told_of c.error c.value)) (omega arith)
  promisified-told_by (c ∷ d ∷ cs) after thrown =
      ap (λ r. told_by (all_called after r))
        (ap (catch_thrown thrown) (all_called-undef cs) ∙ catch_thrown-undef thrown)
      ∙ undefined_told after
      ∙ too_many (c ∷ d ∷ cs) after (ok (told_of c.error c.value)) (omega arith)
