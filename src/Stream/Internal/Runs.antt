-- ===== src/Stream/Internal/Runs.antt =====
-- src/module/node/stream/stream.cpp: a stream used, and the theorem at concrete inputs.
use zane.Base.{ℕ, ◌≡◌, refl, inl, inr, true, false, some, none, [], ◌∷◌}
use zane.Stream.Internal.{
  data_event, end_event, finish_event, drain_event, Internal, stream, readable_push, readable_read,
  writable_end, destroy, transform_flush, flush_callback, writable_cork, writable_uncork,
}
use zane.Stream.Internal.Use.{Use, followed, pushed, read_by, destroyed}
use zane.Stream.Internal.Later.{Implies, IsSound}
use zane.Stream.Internal.Sound.{Use-IsSound}

abbrev opened : Internal ℕ ℕ
opened = stream true true none none

-- A `_read` that pushes 1 and reads again, which is ignored.
abbrev one : Internal ℕ ℕ → Internal ℕ ℕ
one s = readable_read none (readable_push (some 1) s).0

one_emitted : (readable_read (some one) opened).emitted ≡ data_event 1 ∷ []
unfolding readable_read readable_push
one_emitted = refl

-- `end` of a Transform with the default `_flush` ends both sides.
ended_transform :
    (writable_end
      (λ x t. t)
      (some (transform_flush (flush_callback none none)))
      (λ t. t)
      none
      opened).emitted
    ≡ end_event ∷ finish_event ∷ []
unfolding writable_end transform_flush flush_callback
ended_transform = refl

-- With a mark of 0 every stream needs to drain, and uncork says so.
drained :
    (writable_uncork (writable_cork (stream {A = ℕ} {E = ℕ} true true (some 0) none))).emitted
    ≡ drain_event ∷ []
unfolding writable_uncork writable_cork
drained = refl

opened-IsSound : IsSound opened
opened-IsSound = record {
  flows = refl;
  closes = refl;
  errs = inl refl;
  finishes = inl refl;
  corks = inr refl;
  told_close = inl refl;
  told_finish = refl;
  buffers = refl;
}

one-Use : (t : Internal ℕ ℕ) → Use t (one t)
one-Use t = followed (pushed (some 1)) Use.read

Use-IsSound_example :
    IsSound (destroy (some 4) (readable_read (some one) opened))
    × ((destroy (some 4) (readable_read (some one) opened)).reading ≡ false)
    × Implies false (destroy (some 4) (readable_read (some one) opened)).ended
    × Implies false (destroy (some 4) (readable_read (some one) opened)).finished
    × Implies false (destroy (some 4) (readable_read (some one) opened)).errored
    × Implies false (destroy (some 4) (readable_read (some one) opened)).destroyed
Use-IsSound_example =
    Use-IsSound (followed (read_by one one-Use) (destroyed (some 4))) opened-IsSound
