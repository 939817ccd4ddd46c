-- ===== src/Stream/Internal/Sound.antt =====
-- src/module/node/stream/stream.cpp: what holds of the state of a stream however its methods are called.
use zane.Base.{
  ◌≡◌, inl, inr, refl, Bool, true, false, ◌||◌, Option, some, none, [], ◌∷◌, ◌++◌, if◌then◌else◌,
  arith,
}
use zane.Stream.Internal.{
  end_event, close_event, pause_event, resume_event, readable_event, data_event, Internal,
  emit_event, emit_error, report, push_some, flush_or_finish, write_or, call_read, readable_push,
  readable_read, readable_pause, readable_resume, readable_unshift, destroy, transform_destroy,
  writable_write, writable_end, flush_callback, transform_callback, pass_through_write,
  pass_through_end,
}
use zane.Stream.Internal.Use.{
  Use, idle, followed, emitted_itself, pushed, read, read_by, paused, resumed, unshifted, destroyed,
  transform_destroyed, wrote, wrote_by, ended, ended_by, flush_called, transformed, corked,
  uncorked_once, passed, pass_ended,
}
use zane.Stream.Internal.Later.{
  Implies, IsSound, Later, Later-refl, Later-trans, emit-Later, mark-Later, flow-Later, error-Later,
  end-Later, write-Later, emit_finish-Later, report-Later, push_some-Later, read-Later, cork-Later,
  uncork-Later,
}

kept : (a b : Bool) → Implies a b → a ≡ true → b ≡ true
kept a b h e = ground arith

quiet : (a b c : Bool) → (a || b || c) ≡ false → a ≡ false
quiet a b c h = ground arith

module _ {A E : Type 0} where
  push-Later : (chunk : Option A) (s : Internal A E) → Later s (readable_push chunk s).0
  unfolding readable_push
  push-Later none s = emit-Later end_event s (inl refl) refl
  push-Later (some x) s = emit-Later (data_event x) s (inl refl) refl

  close-Later : (s : Internal A E) → s.destroyed ≡ true → Later s (emit_event close_event s)
  close-Later s d = emit-Later close_event s (inr d) refl

  -- The end of `destroy`, in a state in which the stream is destroyed.
  told-Later :
      (error : Option E) (s : Internal A E)
      → s.destroyed ≡ true
      → Later s (emit_event close_event (emit_error error s))
  told-Later error s d =
      let h = error-Later error s d in
      Later-trans h (close-Later (emit_error error s) (kept _ _ h.destroyed d))

  guarded-Later :
      (b : Bool) (f : Option (Internal A E → Internal A E)) (s : Internal A E)
      → (b ≡ false → Later s (call_read f s))
      → Later s (if b then s else call_read f s)
  guarded-Later true f s h = Later-refl s
  guarded-Later false f s h = h refl

  unshift-Later :
      (chunk : Option (Option A)) (s : Internal A E) → Later s (readable_unshift chunk s)
  unfolding readable_unshift
  unshift-Later none s = Later-refl s
  unshift-Later (some none) s = emit-Later end_event s (inl refl) refl
  unshift-Later (some (some x)) s = emit-Later readable_event s (inl refl) refl

  flush-Later :
      (error : Option E) (chunk : Option A) (s : Internal A E)
      → s.ended ≡ true
      → Later s (flush_callback error chunk s)
  unfolding flush_callback
  flush-Later error chunk s d =
      let h = Later-trans (report-Later error s) (
        Later-trans (push_some-Later chunk (report error s))
          (emit-Later end_event (push_some chunk (report error s)) (inl refl) refl)) in
      Later-trans h (
        emit_finish-Later (emit_event end_event (push_some chunk (report error s)))
          (kept _ _ h.ended d))

  written-Later :
      (w : A → Internal A E → Internal A E) (chunk : Option A) (s : Internal A E)
      → ((x : A) (t : Internal A E) → Later t (w x t))
      → Later s (write_or w chunk s)
  written-Later w none s h = Later-refl s
  written-Later w (some x) s h = h x s

  -- What `end` does before it flushes; the stream has ended then.
  ended-Later :
      (w : A → Internal A E → Internal A E) (chunk : Option A) (s : Internal A E)
      → ((x : A) (t : Internal A E) → Later t (w x t))
      → Later s (write_or w chunk (record s { ended = true }))
        × ((write_or w chunk (record s { ended = true })).ended ≡ true)
  ended-Later w chunk s h =
      let k = written-Later w chunk (record s { ended = true }) h in
      (Later-trans (end-Later s) k, kept _ _ k.ended refl)

  pass-Later : (x : A) (s : Internal A E) → Later s (pass_through_write x s)
  unfolding pass_through_write
  pass-Later x s = emit-Later (data_event x) s (inl refl) refl

  pass_end-Later : (chunk : Option A) (s : Internal A E) → Later s (pass_through_end chunk s)
  unfolding pass_through_end
  pass_end-Later chunk s = Later-trans (written-Later pass_through_write chunk s pass-Later) (
      Later-trans (emit-Later end_event (write_or pass_through_write chunk s) (inl refl) refl)
        (end-Later (emit_event end_event (write_or pass_through_write chunk s))))

  Use-Later : {s t : Internal A E} → Use s t → Later s t
  unfolding readable_read readable_pause readable_resume destroy transform_destroy writable_write
      writable_end transform_callback
  Use-Later (idle {s}) = Later-refl s
  Use-Later (followed u v) = Later-trans (Use-Later u) (Use-Later v)
  Use-Later (emitted_itself {s} e) = Later-refl s
  Use-Later (pushed {s} chunk) = push-Later chunk s
  Use-Later (read {s}) =
      guarded-Later (s.reading || s.ended || s.destroyed) none s (λ e. Later-refl s)
  Use-Later (read_by {s} f u) =
      guarded-Later (s.reading || s.ended || s.destroyed) (some f) s
        (λ e. read-Later f s (quiet _ _ _ e) (Use-Later (u (record s { reading = true }))))
  Use-Later (paused {s}) =
      Later-trans (flow-Later false s)
        (emit-Later pause_event (record s { paused = true; flowing = false }) (inl refl) refl)
  Use-Later (resumed {s} f u) =
      let on = record s { paused = false; flowing = true } in
      Later-trans (flow-Later true s)
        (Later-trans (Use-Later (u on)) (emit-Later resume_event (f on) (inl refl) refl))
  Use-Later (unshifted {s} chunk) = unshift-Later chunk s
  Use-Later (destroyed {s} error) =
      Later-trans (mark-Later s)
        (told-Later error (record s { destroyed = true; closed = true }) refl)
  Use-Later (transform_destroyed {s} f u error) =
      let marked = record s { destroyed = true; closed = true } in
      let h = Use-Later (u marked) in
      Later-trans (mark-Later s)
        (Later-trans h (told-Later error (f marked) (kept _ _ h.destroyed refl)))
  Use-Later (wrote {s} f u x) = Use-Later (u s)
  Use-Later (wrote_by {s} w u f x) =
      Later-trans (write-Later x s) (Use-Later (u x (record s { written = s.written ++ (x ∷ []) })))
  Use-Later (ended {s} w u f v chunk) =
      let (h, d) = ended-Later w chunk s (λ x t. Use-Later (u x t)) in
      let t = write_or w chunk (record s { ended = true }) in
      Later-trans h (Later-trans (emit_finish-Later t d) (Use-Later (v (flush_or_finish none t))))
  Use-Later (ended_by {s} w u flush v f g chunk) =
      let (h, d) = ended-Later w chunk s (λ x t. Use-Later (u x t)) in
      let t = write_or w chunk (record s { ended = true }) in
      Later-trans h (Later-trans (Use-Later (v t d)) (Use-Later (g (flush t))))
  Use-Later (flush_called {s} d error chunk) = flush-Later error chunk s d
  Use-Later (transformed {s} f u error chunk) = Later-trans (report-Later error s) (
      Later-trans (push_some-Later chunk (report error s))
        (Use-Later (u (push_some chunk (report error s)))))
  Use-Later (corked {s}) = cork-Later s
  Use-Later (uncorked_once {s}) = uncork-Later s
  Use-Later (passed {s} x) = pass-Later x s
  Use-Later (pass_ended {s} chunk) = pass_end-Later chunk s

  -- However a program calls the methods of streams and `emit` on a stream, also in the functions that
  -- the methods call: a sound state stays sound (so the stream flows exactly where it is not paused, is
  -- closed exactly where it is destroyed, has failed only if it is destroyed and finished only if it
  -- has ended, counts no cork where it is not corked, and m_buffer is empty; and its methods have
  -- emitted 'close' only if it is destroyed and 'finish' exactly where it has finished); `reading` is
  -- as before; and what has ended, finished, failed or is destroyed stays so.
  pub Use-IsSound :
      {s t : Internal A E}
      → Use s t
      → IsSound s
      → IsSound t
        × (t.reading ≡ s.reading)
        × Implies s.ended t.ended
        × Implies s.finished t.finished
        × Implies s.errored t.errored
        × Implies s.destroyed t.destroyed
  Use-IsSound u h =
      let l = Use-Later u in (l.sound h, l.reading, l.ended, l.finished, l.errored, l.destroyed)
