-- ===== src/AdaptiveIo/Lately.antt =====
-- src/module/adaptive_io.hpp: a call that does not flush comes shortly after one that did.
use zane.Base.{
  ℕ, ◌≤◌, ◌<◌, ◌≡◌, refl, Bool, true, false, Bool-cases, Option, none, some, ltb, ltb→lt, ◌⊎◌, inl,
  inr, arith,
}
use zane.AdaptiveIo.{AdaptiveIo, new_adaptive_io, elapsed_ms, note_call, decide, apply}

abbrev flush_time : Bool → ℕ → Option ℕ → Option ℕ
flush_time true now last = some now
flush_time false now last = last

-- Calls of apply at moments that do not go back, with the moment of the last flush and of the last
-- call.
pub data Calls (threshold window start : ℕ) : AdaptiveIo → Option ℕ → ℕ → Type 0 where
  opened : Calls threshold window start (new_adaptive_io threshold window start) none start
  another :
      {s : AdaptiveIo} {last : Option ℕ} {now : ℕ} (later : ℕ)
      → Calls threshold window start s last now
      → now ≤ later
      → Calls threshold window start
          ((apply later s).1)
          (flush_time ((apply later s).0) later last)
          later

-- Fewer calls than `most` stand in the burst, or a flush happened at last_burst_flush or after it.
record IsFlushed (most threshold window now : ℕ) (s : AdaptiveIo) (last : Option ℕ) : Type 0 where
  same_threshold : s.burst_threshold ≡ threshold
  same_window : s.window_ms ≡ window
  not_ahead : s.last_burst_flush ≤ now
  since : s.calls_in_burst < most ⊎ ((f : ℕ) × last ≡ some f × s.last_burst_flush ≤ f × f ≤ now)

-- Whether a call flushes, what holds after it, and how long ago the last flush was where it does not.
record Decided (threshold window later : ℕ) (r : Bool × AdaptiveIo) (last : Option ℕ) : Type 0 where
  stays : IsFlushed 1 threshold window later r.1 (flush_time r.0 later last)
  lately : r.0 ≡ false → (f : ℕ) × last ≡ some f × f ≤ later × elapsed_ms later f < window

not_less : (a b : ℕ) → ltb a b ≡ false → b ≤ a
not_less a b h = ground arith

module _ {threshold window : ℕ} where
  new_adaptive_io-IsFlushed :
      (start : ℕ) → IsFlushed 1 threshold window start (new_adaptive_io threshold window start) none
  unfolding new_adaptive_io
  new_adaptive_io-IsFlushed start = record {
    same_threshold = refl;
    same_window = refl;
    not_ahead = omega arith;
    since = inl (omega arith);
  }

  note_call-IsFlushed :
      {s : AdaptiveIo} {last : Option ℕ} {now : ℕ} (later : ℕ)
      → IsFlushed 1 threshold window now s last
      → now ≤ later
      → IsFlushed 2 threshold window later (note_call later s) last
  note_call-IsFlushed {s} {last} later i order =
      elim (Bool-cases (ltb (elapsed_ms later s.last_flush) s.window_ms)) [
        | inl e ↦ rw e (record {
          same_threshold = i.same_threshold;
          same_window = i.same_window;
          not_ahead = omega (arith, i.not_ahead);
          since = elim i.since [
            | inl n ↦ inl (omega (arith, n))
            | inr (f, e', b, l) ↦ inr (f, e', b, omega (arith, l))
          ];
        })
        | inr n ↦ rw n (record {
          same_threshold = i.same_threshold;
          same_window = i.same_window;
          not_ahead = omega (arith, i.not_ahead);
          since = inl (omega arith);
        })
      ]

  flushed_before :
      {s : AdaptiveIo} {last : Option ℕ} (later : ℕ)
      → 1 < threshold
      → IsFlushed 2 threshold window later s last
      → ltb s.calls_in_burst s.burst_threshold ≡ false
      → (f : ℕ) × last ≡ some f × s.last_burst_flush ≤ f × f ≤ later
  flushed_before {s} later two i n = elim i.since [
    | inl few ↦
        absurd (omega (arith, few, i.same_threshold, not_less s.calls_in_burst s.burst_threshold n))
    | inr f ↦ f
  ]

  decide-Decided :
      {s : AdaptiveIo} {last : Option ℕ} (later : ℕ)
      → 1 < threshold
      → IsFlushed 2 threshold window later s last
      → Decided threshold window later (decide later s) last
  decide-Decided {s} {last} later two i =
      elim (Bool-cases (ltb s.calls_in_burst s.burst_threshold)) [
        | inl e ↦ rw e (record {
          stays = record {
            same_threshold = i.same_threshold;
            same_window = i.same_window;
            not_ahead = i.not_ahead;
            since = inr (later, refl, i.not_ahead, omega arith);
          };
          lately = λ no. cc;
        })
        | inr n ↦ rw n (elim (Bool-cases (ltb (elapsed_ms later s.last_burst_flush) s.window_ms)) [
          | inl e ↦
              let (f, is, above, below) = flushed_before later two i n in
              rw e (record {
                stays = record {
                  same_threshold = i.same_threshold;
                  same_window = i.same_window;
                  not_ahead = i.not_ahead;
                  since = inr (f, is, above, below);
                };
                lately = λ no. (
                  f,
                  is,
                  below,
                  omega (
                    arith,
                    above,
                    below,
                    i.same_window,
                    ltb→lt (elapsed_ms later s.last_burst_flush) s.window_ms e,
                  ),
                );
              })
          | inr m ↦ rw m (record {
            stays = record {
              same_threshold = i.same_threshold;
              same_window = i.same_window;
              not_ahead = omega arith;
              since = inr (later, refl, omega arith, omega arith);
            };
            lately = λ no. cc;
          })
        ])
      ]

  apply-Decided :
      {s : AdaptiveIo} {last : Option ℕ} {now : ℕ} (later : ℕ)
      → 1 < threshold
      → IsFlushed 1 threshold window now s last
      → now ≤ later
      → Decided threshold window later (apply later s) last
  unfolding apply
  apply-Decided later two i order = decide-Decided later two (note_call-IsFlushed later i order)

  Calls-IsFlushed :
      {start now : ℕ} {s : AdaptiveIo} {last : Option ℕ}
      → 1 < threshold
      → Calls threshold window start s last now
      → IsFlushed 1 threshold window now s last
  Calls-IsFlushed two (opened) = new_adaptive_io-IsFlushed _
  Calls-IsFlushed two (another later calls order) =
      (apply-Decided later two (Calls-IsFlushed two calls) order).stays

-- A call of apply that does not flush comes less than the window after a call that did, whatever calls
-- were made before at moments that do not go back, for a threshold of 2 or more.
pub apply-flushed_lately :
    {threshold window start now : ℕ} {s : AdaptiveIo} {last : Option ℕ} (later : ℕ)
    → 1 < threshold
    → Calls threshold window start s last now
    → now ≤ later
    → (apply later s).0 ≡ false
    → (f : ℕ) × last ≡ some f × f ≤ later × elapsed_ms later f < window
apply-flushed_lately later two calls order unflushed =
    (apply-Decided later two (Calls-IsFlushed two calls) order).lately unflushed
