-- ===== src/Stream/Internal.antt =====
-- src/module/node/stream/stream.cpp and stream.hpp: the state of a stream, and the methods of Readable,
-- Writable and Transform that read and write it.
mod Use
mod Later
mod Sound
mod Runs
use zane.Base.{
  ℕ, ◌+◌, ◌-◌, ◌%◌, ◌^◌, Bool, true, false, not, ◌&&◌, ◌||◌, Option, some, none, List, [], ◌∷◌,
  ◌++◌, ltb, ◌==◌, if◌then◌else◌, map,
}

module _ (A E : Type 0) where
  -- What a method hands to `emit` of its stream.
  pub data Event : Type 0 where
    data_event : A → Event
    end_event : Event
    error_event : E → Event
    close_event : Event
    pause_event : Event
    resume_event : Event
    readable_event : Event
    finish_event : Event
    drain_event : Event

  -- StreamInternal, without the members that no code reads or writes. `buffer_size` is the size of
  -- m_buffer; the last two are the events that the methods handed to `emit` and the chunks that
  -- `_write` was called with, in order.
  pub record Internal : Type 0 where
    pub is_readable : Bool
    pub is_writable : Bool
    pub reading : Bool
    pub ended : Bool
    pub destroyed : Bool
    pub paused : Bool
    pub flowing : Bool
    pub corked : Bool
    pub finished : Bool
    pub errored : Bool
    pub closed : Bool
    pub allow_half_open : Bool
    pub aborted : Bool
    pub did_read : Bool
    pub high_water_mark : ℕ
    pub cork_count : ℕ
    pub buffer_size : ℕ
    pub bytes_read : ℕ
    pub emitted : List Event
    pub written : List A

abbrev pub or_default : {B : Type 0} → B → Option B → B
or_default d none = d
or_default d (some b) = b

module _ {A E : Type 0} where
  -- The constructors: the first argument is whether it can be read, the second whether it can be
  -- written, then highWaterMark as a uint32_t and allowHalfOpen, where they are given.
  abbrev pub stream : Bool → Bool → Option ℕ → Option Bool → Internal A E
  stream readable writable mark half_open = record {
    is_readable = readable;
    is_writable = writable;
    reading = false;
    ended = false;
    destroyed = false;
    paused = true;
    flowing = false;
    corked = false;
    finished = false;
    errored = false;
    closed = false;
    allow_half_open = or_default true half_open;
    aborted = false;
    did_read = false;
    high_water_mark = or_default 16384 mark;
    cork_count = 0;
    buffer_size = 0;
    bytes_read = 0;
    emitted = [];
    written = [];
  }

  abbrev pub emit_event : Event A E → Internal A E → Internal A E
  emit_event e s = record s { emitted = s.emitted ++ (e ∷ []) }

  -- `none` is null, or no argument.
  unfoldable pub readable_push : Option A → Internal A E → Internal A E × Bool
  readable_push none s = (emit_event end_event s, false)
  readable_push (some x) s = (emit_event (data_event x) s, true)

  -- A function of the program is a function on the state; `none` where `_read` is no function.
  abbrev pub call_read : Option (Internal A E → Internal A E) → Internal A E → Internal A E
  call_read none s = s
  call_read (some f) s = record (f (record s { reading = true })) { reading = false }

  unfoldable pub readable_read : Option (Internal A E → Internal A E) → Internal A E → Internal A E
  readable_read read s = if s.reading || s.ended || s.destroyed then s else call_read read s

  unfoldable pub readable_pause : Internal A E → Internal A E
  readable_pause s = emit_event pause_event (record s { paused = true; flowing = false })

  -- `read` is the method of that name.
  unfoldable pub readable_resume : (Internal A E → Internal A E) → Internal A E → Internal A E
  readable_resume read s =
      emit_event resume_event (read (record s { paused = false; flowing = true }))

  unfoldable pub readable_is_paused : Internal A E → Bool
  readable_is_paused s = s.paused

  -- The outer `none` is no argument, the inner one null.
  unfoldable pub readable_unshift : Option (Option A) → Internal A E → Internal A E
  readable_unshift none s = s
  readable_unshift (some none) s = emit_event end_event s
  readable_unshift (some (some x)) s = emit_event readable_event s

  abbrev pub emit_error : Option E → Internal A E → Internal A E
  emit_error none s = s
  emit_error (some e) s = emit_event (error_event e) (record s { errored = true })

  -- readableDestroy and writableDestroy; `none` is null, undefined or no argument.
  unfoldable pub destroy : Option E → Internal A E → Internal A E
  destroy error s =
      emit_event close_event (emit_error error (record s { destroyed = true; closed = true }))

  -- transformDestroy; the first argument is `_destroy`, which does nothing where there is none.
  unfoldable pub transform_destroy :
      (Internal A E → Internal A E) → Option E → Internal A E → Internal A E
  transform_destroy user_destroy error s =
      emit_event close_event
        (emit_error error (user_destroy (record s { destroyed = true; closed = true })))

  -- `write` is `_write` where it is a function, which is given the callback.
  unfoldable pub writable_write :
      Option (A → Internal A E → Internal A E)
      → (Internal A E → Internal A E)
      → A
      → Internal A E
      → Internal A E
  writable_write none callback x s = callback s
  writable_write (some write) callback x s = write x (record s { written = s.written ++ (x ∷ []) })

  abbrev pub write_or : (A → Internal A E → Internal A E) → Option A → Internal A E → Internal A E
  write_or write none s = s
  write_or write (some x) s = write x s

  abbrev pub emit_finish : Internal A E → Internal A E
  emit_finish s = emit_event finish_event (record s { finished = true })

  abbrev pub flush_or_finish : Option (Internal A E → Internal A E) → Internal A E → Internal A E
  flush_or_finish none s = emit_finish s
  flush_or_finish (some flush) s = flush s

  -- The method `write`, `_flush` called with its callback, the callback of `end`, and the last chunk.
  unfoldable pub writable_end :
      (A → Internal A E → Internal A E)
      → Option (Internal A E → Internal A E)
      → (Internal A E → Internal A E)
      → Option A
      → Internal A E
      → Internal A E
  writable_end write flush callback chunk s =
      callback (flush_or_finish flush (write_or write chunk (record s { ended = true })))

  -- The error and the chunk that a callback is called with; `none` is null or undefined.
  abbrev pub report : Option E → Internal A E → Internal A E
  report none s = s
  report (some e) s = emit_event (error_event e) s

  abbrev pub push_some : Option A → Internal A E → Internal A E
  push_some none s = s
  push_some (some x) s = emit_event (data_event x) s

  -- The callback that writableEnd gives to `_flush`.
  unfoldable pub flush_callback : Option E → Option A → Internal A E → Internal A E
  flush_callback error chunk s =
      emit_finish (emit_event end_event (push_some chunk (report error s)))

  -- The callback that transformWrite gives to `_transform`; the first argument is that of `write`.
  unfoldable pub transform_callback :
      (Internal A E → Internal A E) → Option E → Option A → Internal A E → Internal A E
  transform_callback callback error chunk s = callback (push_some chunk (report error s))

  -- The defaults of `_transform` and `_flush`, with the callback that they are given.
  unfoldable pub transform_transform :
      (Internal A E → Internal A E) → A → Internal A E → Internal A E
  unfolding readable_push
  transform_transform callback x s = callback (readable_push (some x) s).0

  unfoldable pub transform_flush : (Internal A E → Internal A E) → Internal A E → Internal A E
  transform_flush callback s = callback s

  unfoldable pub writable_cork : Internal A E → Internal A E
  writable_cork s = record s { cork_count = (s.cork_count + 1) % 2 ^ 32; corked = true }

  abbrev pub uncorked : ℕ → Internal A E → Internal A E
  uncorked count s =
      if count == 0
      then (if ltb s.buffer_size s.high_water_mark
          then record s { cork_count = count; corked = false }
          else emit_event drain_event (record s { cork_count = count; corked = false }))
      else record s { cork_count = count }

  -- The count stops at 0.
  unfoldable pub writable_uncork : Internal A E → Internal A E
  writable_uncork s = uncorked (s.cork_count - 1) s

  -- The methods `write` and `end` of a PassThrough.
  unfoldable pub pass_through_write : A → Internal A E → Internal A E
  pass_through_write x s = emit_event (data_event x) s

  unfoldable pub pass_through_end : Option A → Internal A E → Internal A E
  unfolding pass_through_write
  pass_through_end chunk s = record (emit_event end_event (write_or pass_through_write chunk s)) {
    ended = true;
  }

  -- getReadableProperty, getWritableProperty and isWritable.
  unfoldable pub readable : Internal A E → Bool
  readable s = s.is_readable && not s.destroyed && not s.ended

  unfoldable pub writable : Internal A E → Bool
  writable s = s.is_writable && not s.destroyed && not s.ended

  -- `none` is null.
  unfoldable pub readable_flowing : Internal A E → Option Bool
  readable_flowing s = if s.flowing then some true else if s.paused then some false else none

  unfoldable pub writable_need_drain : Internal A E → Bool
  writable_need_drain s = not (ltb s.buffer_size s.high_water_mark)

  unfoldable pub is_disturbed : Internal A E → Bool
  is_disturbed s = s.flowing || ltb 0 s.bytes_read || s.ended || s.closed

  unfoldable pub readable_errored : Internal A E → Option Bool
  readable_errored s = if s.errored then some true else none
