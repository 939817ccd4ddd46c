-- ===== src/Stream/Internal/Use.antt =====
-- src/module/node/stream/stream.cpp: what a program can do with a stream.
use zane.Base.{◌≡◌, true, Option, some, none}
use zane.Stream.Internal.{
  Event, Internal, readable_push, readable_read, readable_pause, readable_resume, readable_unshift,
  destroy, transform_destroy, writable_write, writable_end, flush_callback, transform_callback,
  writable_cork, writable_uncork, pass_through_write, pass_through_end,
}

module _ {A E : Type 0} where
  -- What a program does with a stream, by the methods of streams and by `emit`. A function of the program that a method calls can do the same
  -- to the stream, in the state in which it is called.
  pub data Use : Internal A E → Internal A E → Type 0 where
    idle : {s : Internal A E} → Use s s
    followed : {s t u : Internal A E} → Use s t → Use t u → Use s u
    -- The program's own call of `emit`, which EventEmitter has, leaves StreamInternal as it is; the list
    -- of events is of those that the methods of streams emit.
    emitted_itself : {s : Internal A E} → (e : Event A E) → Use s s
    pushed : {s : Internal A E} → (chunk : Option A) → Use s (readable_push chunk s).0
    read : {s : Internal A E} → Use s (readable_read none s)
    read_by :
        {s : Internal A E}
        → (f : Internal A E → Internal A E) → ((t : Internal A E) → Use t (f t))
        → Use s (readable_read (some f) s)
    paused : {s : Internal A E} → Use s (readable_pause s)
    resumed :
        {s : Internal A E}
        → (f : Internal A E → Internal A E) → ((t : Internal A E) → Use t (f t))
        → Use s (readable_resume f s)
    unshifted : {s : Internal A E} → (chunk : Option (Option A)) → Use s (readable_unshift chunk s)
    destroyed : {s : Internal A E} → (error : Option E) → Use s (destroy error s)
    transform_destroyed :
        {s : Internal A E}
        → (f : Internal A E → Internal A E) → ((t : Internal A E) → Use t (f t))
        → (error : Option E) → Use s (transform_destroy f error s)
    wrote :
        {s : Internal A E}
        → (f : Internal A E → Internal A E) → ((t : Internal A E) → Use t (f t))
        → (x : A) → Use s (writable_write none f x s)
    wrote_by :
        {s : Internal A E}
        → (w : A → Internal A E → Internal A E) → ((x : A) (t : Internal A E) → Use t (w x t))
        → (f : Internal A E → Internal A E) → (x : A) → Use s (writable_write (some w) f x s)
    ended :
        {s : Internal A E}
        → (w : A → Internal A E → Internal A E) → ((x : A) (t : Internal A E) → Use t (w x t))
        → (f : Internal A E → Internal A E) → ((t : Internal A E) → Use t (f t))
        → (chunk : Option A) → Use s (writable_end w none f chunk s)
    -- `_flush` can call its callback, or keep it for later: the stream has ended then.
    ended_by :
        {s : Internal A E}
        → (w : A → Internal A E → Internal A E) → ((x : A) (t : Internal A E) → Use t (w x t))
        → (flush : Internal A E → Internal A E)
        → ((t : Internal A E) → t.ended ≡ true → Use t (flush t))
        → (f : Internal A E → Internal A E) → ((t : Internal A E) → Use t (f t))
        → (chunk : Option A) → Use s (writable_end w (some flush) f chunk s)
    flush_called :
        {s : Internal A E}
        → s.ended ≡ true
        → (error : Option E) → (chunk : Option A) → Use s (flush_callback error chunk s)
    transformed :
        {s : Internal A E}
        → (f : Internal A E → Internal A E) → ((t : Internal A E) → Use t (f t))
        → (error : Option E) → (chunk : Option A) → Use s (transform_callback f error chunk s)
    corked : {s : Internal A E} → Use s (writable_cork s)
    uncorked_once : {s : Internal A E} → Use s (writable_uncork s)
    passed : {s : Internal A E} → (x : A) → Use s (pass_through_write x s)
    pass_ended : {s : Internal A E} → (chunk : Option A) → Use s (pass_through_end chunk s)
