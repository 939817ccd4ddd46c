-- ===== src/Events/Told.antt =====
-- src/module/node/events/events.cpp: what the methods tell of an emitter agrees with its lists of
-- listeners, and taking a listener out undoes putting it in.
use zane.Base.{
  ℕ, suc, ◌≡◌, ◌≢◌, refl, sym, ap, ◌∙◌, Bool, true, false, Option, some, none, List, [], ◌∷◌, ◌++◌,
  length, ◌==◌, if◌then◌else◌, Option-cases, inl, inr, ==_refl, min, arith,
}
use zane.Base.Int.{ℤ}
use zane.Events.{
  Fn, user, wrapper, Arg, Handlers, single, many, object, Emitter, same_fn, stands_for,
  without_first, get, add_listener,
}
use zane.Events.Table.{lookup, keys, Distinct}
use zane.Events.Remove.{text_keys, ee_remove_listener}
use zane.Events.Queries.{ee_listener_count, ee_raw_listeners, ee_event_names, count_of, functions}
use zane.Events.Count.{own, IsStored, WellFormed, lookup-IsStored}
use zane.Events.Lists.{
  listed, listeners_of, with_listener, without, add_listener-listeners_of,
  ee_remove_listener-listeners_of,
}

-- The number of times that a name stands in a list of names.
abbrev pub occurrences : ℕ → List ℕ → ℕ
occurrences k [] = 0
occurrences k (j ∷ ks) = let n = occurrences k ks in if j == k then suc n else n

text_keys-occurrences :
    (is_symbol : ℕ → Bool) (k : ℕ) (ks : List ℕ)
    → occurrences k (text_keys is_symbol ks) ≡ (if is_symbol k then 0 else occurrences k ks)
text_keys-occurrences is_symbol k [] = ground arith
text_keys-occurrences is_symbol k (j ∷ ks) = ground (arith, text_keys-occurrences is_symbol k ks)

keys-occurrences :
    (k : ℕ) (m : List (ℕ × Handlers))
    → Distinct m
    → occurrences k (keys m) ≡ (elim (lookup k m) [ none ↦ 0 | some h ↦ 1 ])
unfolding keys lookup
keys-occurrences k [] d = refl
keys-occurrences k ((j, h) ∷ m) (n, d) = ground (arith, keys-occurrences k m d)

stored_occurrences :
    (o : Option Handlers)
    → ((h : Handlers) → o ≡ some h → IsStored h)
    → (elim o [ none ↦ 0 | some h ↦ 1 ]) ≡ min 1 (length (listed o))
stored_occurrences none p = refl
stored_occurrences (some (single f)) p = refl
stored_occurrences (some (many fs)) p = let two = p (many fs) refl in ground arith
stored_occurrences (some object) p = absurd (p object refl)

listed-count_of :
    (o : Option Handlers)
    → o ≢ some object
    → (count_of o ≡ length (listed o)) × (functions o ≡ some (listed o))
listed-count_of none n = (refl, refl)
listed-count_of (some (single f)) n = (refl, refl)
listed-count_of (some (many fs)) n = (refl, refl)
listed-count_of (some object) n = absurd (n refl)

module _ (inherited : ℕ → Option Handlers) where
  -- In a well-formed emitter, `eventNames` lists a text name once where the event has a listener and
  -- never where it has none, and lists no symbol. The prototype must have nothing under the name.
  pub ee_event_names-listeners_of :
      (is_symbol : ℕ → Bool) (s : Emitter) (event : ℕ)
      → inherited event ≡ none
      → WellFormed s
      → occurrences event (ee_event_names is_symbol s)
        ≡ (if is_symbol event then 0 else min 1 (length (listeners_of inherited s event)))
  unfolding ee_event_names
  ee_event_names-listeners_of is_symbol s event i (d, a, c) =
      let stored =
        stored_occurrences (lookup event s.events) (λ h. lookup-IsStored event h s.events a) in
      let found = keys-occurrences event s.events d in
      text_keys-occurrences is_symbol event (keys s.events)
      ∙ ap (λ n. if is_symbol event then 0 else n)
          (found
            ∙ stored
            ∙ ap (λ o. min 1 (length (listed o))) (sym (own s.events inherited event i)))

  -- Where no object that is no function and no array stands under the event, `listenerCount` is the
  -- number of the listeners of the event and `rawListeners` returns them in their order.
  pub ee_listener_count-listeners_of :
      (s : Emitter) (event : ℕ)
      → get inherited event s ≢ some object
      → (ee_listener_count inherited s (some event) ≡ length (listeners_of inherited s event))
        × (ee_raw_listeners inherited s event ≡ some (listeners_of inherited s event))
  unfolding ee_listener_count ee_raw_listeners
  ee_listener_count-listeners_of s event n = listed-count_of (get inherited event s) n

same_fn_refl : (f : Fn) → same_fn f f ≡ true
same_fn_refl (user i) = ==_refl i
same_fn_refl (wrapper i e f) = ==_refl i

stands_for_refl : (f : Fn) → stands_for f f ≡ true
stands_for_refl (user i) = ==_refl i
stands_for_refl (wrapper i e f) = ground (arith, ==_refl i)

without_first-append :
    (f : Fn) (fs : List Fn) → without_first f fs ≡ none → without_first f (fs ++ (f ∷ [])) ≡ some fs
unfolding without_first
without_first-append f [] e = ground (arith, stands_for_refl f)
without_first-append f (g ∷ fs) e = elim (Option-cases (without_first f fs)) [
  | inl n ↦ ground (arith, without_first-append f fs n)
  | inr (gs, h) ↦ ground arith
]

without-with_listener :
    (prepend : Bool) (f : Fn) (fs : List Fn)
    → without_first f fs ≡ none
    → without f (with_listener prepend f fs) ≡ fs
unfolding without_first
without-with_listener true f fs e = ground (arith, stands_for_refl f)
without-with_listener false f fs e = ground (arith, without_first-append f fs e)

module _ (inherited : ℕ → Option Handlers) (run : Fn → List Arg → Emitter → Emitter)
    (default_max : ℤ) where
  -- Adding a listener, at either end, and then removing it leaves the listeners of every event as they
  -- were, where no listener of the event stands for it before and the prototype has nothing under the
  -- name of the event.
  pub ee_remove_listener-add_listener :
      (s : Emitter) (event other : ℕ) (f : Fn) (prepend : Bool)
      → inherited event ≡ none
      → get inherited event s ≢ some object
      → without_first f (listeners_of inherited s event) ≡ none
      → listeners_of inherited
          (ee_remove_listener inherited run
            (add_listener inherited run default_max s event f prepend)
            event
            (some f))
          other
        ≡ listeners_of inherited s other
  ee_remove_listener-add_listener s event other f prepend i n e =
      let t = add_listener inherited run default_max s event f prepend in
      let put_in = add_listener-listeners_of inherited run default_max s event in
      let here = put_in event f prepend n in
      let there = put_in other f prepend n in
      let out = ee_remove_listener-listeners_of inherited run t event other f i in
      let undone = without-with_listener prepend f (listeners_of inherited s event) e in
      ground (arith, here, there, out, undone)
