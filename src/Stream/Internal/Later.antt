-- ===== src/Stream/Internal/Later.antt =====
-- src/module/node/stream/stream.cpp: from one state of a stream to a later one.
use zane.Base.{
  ℕ, ◌-◌, ◌≡◌, ◌⊎◌, inl, inr, refl, ◌∙◌, sym, Bool, true, false, not, ◌||◌, Option, some, none,
  List, [], ◌∷◌, ◌++◌, ltb, ◌==◌, Bool-cases, arith,
}
use zane.Stream.Internal.{
  Event, data_event, error_event, close_event, finish_event, drain_event, Internal, emit_event,
  emit_error, report, push_some, writable_cork, emit_finish, writable_uncork,
}

abbrev pub Implies : Bool → Bool → Type 0
Implies a b = (a ≡ false) ⊎ (b ≡ true)

chain : (a b c : Bool) → Implies a b → Implies b c → Implies a c
chain a b c h k = ground arith

module _ {A E : Type 0} where
  abbrev pub is_close : Event A E → Bool
  is_close close_event = true
  is_close e = false

  abbrev pub is_finish : Event A E → Bool
  is_finish finish_event = true
  is_finish e = false

  abbrev pub any : (Event A E → Bool) → List (Event A E) → Bool
  any p [] = false
  any p (e ∷ es) = p e || any p es

  any-append :
      (p : Event A E → Bool) (xs : List (Event A E)) (e : Event A E)
      → any p (xs ++ (e ∷ [])) ≡ (any p xs || p e)
  any-append p [] e = ground arith
  any-append p (x ∷ xs) e = ground (arith, any-append p xs e)

  pub record IsSound (s : Internal A E) : Type 0 where
    pub flows : s.flowing ≡ not s.paused
    pub closes : s.closed ≡ s.destroyed
    pub errs : Implies s.errored s.destroyed
    pub finishes : Implies s.finished s.ended
    pub corks : (s.corked ≡ true) ⊎ (s.cork_count ≡ 0)
    pub told_close : Implies (any is_close s.emitted) s.destroyed
    pub told_finish : any is_finish s.emitted ≡ s.finished
    pub buffers : s.buffer_size ≡ 0

  -- From one state to a later one: what is set stays set, and a call leaves `reading` as it was.
  pub record Later (s t : Internal A E) : Type 0 where
    pub sound : IsSound s → IsSound t
    pub reading : t.reading ≡ s.reading
    pub ended : Implies s.ended t.ended
    pub destroyed : Implies s.destroyed t.destroyed
    pub errored : Implies s.errored t.errored
    pub finished : Implies s.finished t.finished

  pub Later-refl : (s : Internal A E) → Later s s
  Later-refl s = record {
    sound = λ h. h;
    reading = refl;
    ended = ground arith;
    destroyed = ground arith;
    errored = ground arith;
    finished = ground arith;
  }

  pub Later-trans : {s t u : Internal A E} → Later s t → Later t u → Later s u
  Later-trans h k = record {
    sound = λ i. k.sound (h.sound i);
    reading = k.reading ∙ h.reading;
    ended = chain _ _ _ h.ended k.ended;
    destroyed = chain _ _ _ h.destroyed k.destroyed;
    errored = chain _ _ _ h.errored k.errored;
    finished = chain _ _ _ h.finished k.finished;
  }

  -- An event other than 'finish', and 'close' after the stream is destroyed.
  pub emit-Later :
      (e : Event A E) (s : Internal A E)
      → Implies (is_close e) s.destroyed
      → is_finish e ≡ false
      → Later s (emit_event e s)
  emit-Later e s c f = record {
    sound = λ h. record {
      flows = h.flows;
      closes = h.closes;
      errs = h.errs;
      finishes = h.finishes;
      corks = h.corks;
      told_close = let k = h.told_close in let a = any-append is_close s.emitted e in ground arith;
      told_finish =
          let k = h.told_finish in let a = any-append is_finish s.emitted e in ground arith;
      buffers = h.buffers;
    };
    reading = refl;
    ended = ground arith;
    destroyed = ground arith;
    errored = ground arith;
    finished = ground arith;
  }

  -- Writing the fields that no theorem is about but `flowing` and `paused`.
  pub mark-Later : (s : Internal A E) → Later s (record s { destroyed = true; closed = true })
  mark-Later s = record {
    sound = λ h. ground arith;
    reading = refl;
    ended = ground arith;
    destroyed = ground arith;
    errored = ground arith;
    finished = ground arith;
  }

  pub flow-Later :
      (b : Bool) (s : Internal A E) → Later s (record s { paused = not b; flowing = b })
  flow-Later b s = record {
    sound = λ h. ground arith;
    reading = refl;
    ended = ground arith;
    destroyed = ground arith;
    errored = ground arith;
    finished = ground arith;
  }

  pub error-Later :
      (e : Option E) (s : Internal A E) → s.destroyed ≡ true → Later s (emit_error e s)
  error-Later none s d = Later-refl s
  error-Later (some e) s d =
      Later-trans {t = record s { errored = true }}
        (record {
          sound = λ h. ground arith;
          reading = refl;
          ended = ground arith;
          destroyed = ground arith;
          errored = ground arith;
          finished = ground arith;
        })
        (emit-Later (error_event e) (record s { errored = true }) (inl refl) refl)

  pub end-Later : (s : Internal A E) → Later s (record s { ended = true })
  end-Later s = record {
    sound = λ h. ground arith;
    reading = refl;
    ended = ground arith;
    destroyed = ground arith;
    errored = ground arith;
    finished = ground arith;
  }

  pub write-Later :
      (x : A) (s : Internal A E) → Later s (record s { written = s.written ++ (x ∷ []) })
  write-Later x s = record {
    sound = λ h. ground arith;
    reading = refl;
    ended = ground arith;
    destroyed = ground arith;
    errored = ground arith;
    finished = ground arith;
  }

  pub emit_finish-Later : (s : Internal A E) → s.ended ≡ true → Later s (emit_finish s)
  emit_finish-Later s d = record {
    sound = λ h. ground (
      arith,
      any-append is_close s.emitted finish_event,
      any-append is_finish s.emitted finish_event,
    );
    reading = refl;
    ended = ground arith;
    destroyed = ground arith;
    errored = ground arith;
    finished = ground arith;
  }

  pub report-Later : (e : Option E) (s : Internal A E) → Later s (report e s)
  report-Later none s = Later-refl s
  report-Later (some e) s = emit-Later (error_event e) s (inl refl) refl

  pub push_some-Later : (x : Option A) (s : Internal A E) → Later s (push_some x s)
  push_some-Later none s = Later-refl s
  push_some-Later (some x) s = emit-Later (data_event x) s (inl refl) refl

  -- What a function does that runs while the stream reads.
  pub read-Later :
      (f : Internal A E → Internal A E) (s : Internal A E)
      → s.reading ≡ false
      → Later (record s { reading = true }) (f (record s { reading = true }))
      → Later s (record (f (record s { reading = true })) { reading = false })
  read-Later f s r h = record {
    sound = λ i. ground (arith, h.sound (ground arith));
    reading = sym r;
    ended = h.ended;
    destroyed = h.destroyed;
    errored = h.errored;
    finished = h.finished;
  }

  pub cork-Later : (s : Internal A E) → Later s (writable_cork s)
  unfolding writable_cork
  cork-Later s = record {
    sound = λ h. ground arith;
    reading = refl;
    ended = ground arith;
    destroyed = ground arith;
    errored = ground arith;
    finished = ground arith;
  }

  count-Later :
      (b : Bool) (n : ℕ) (s : Internal A E)
      → ((s.corked ≡ true) ⊎ (s.cork_count ≡ 0) → (b ≡ true) ⊎ (n ≡ 0))
      → Later s (record s { cork_count = n; corked = b })
  count-Later b n s c = record {
    sound = λ h. let k = c h.corks in ground arith;
    reading = refl;
    ended = ground arith;
    destroyed = ground arith;
    errored = ground arith;
    finished = ground arith;
  }

  pub uncork-Later : (s : Internal A E) → Later s (writable_uncork s)
  unfolding writable_uncork
  uncork-Later s = elim (Bool-cases (s.cork_count - 1 == 0)) [
    | inl z ↦
        let low = count-Later false (s.cork_count - 1) s (λ c. ground arith) in
        elim (Bool-cases (ltb s.buffer_size s.high_water_mark)) [
          | inl b ↦ rw (z, b) low
          | inr b ↦
              rw (z, b)
                (Later-trans low (
                  emit-Later drain_event
                    (record s { cork_count = s.cork_count - 1; corked = false }) (inl refl) refl))
        ]
    | inr n ↦ rw n (count-Later s.corked (s.cork_count - 1) s (λ c. ground arith))
  ]
