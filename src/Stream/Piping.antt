-- ===== src/Stream/Piping.antt =====
-- src/module/node/stream/stream.cpp: a list in Readable.from, piped through Transforms into a Writable.
mod Content
mod Steps
mod Work
mod Flow
mod Delivered
mod Runs
use zane.Base.{
  ℕ, zero, suc, ◌+◌, Bool, true, false, Option, some, none, List, [], ◌∷◌, ◌++◌, ltb, ◌==◌,
  if◌then◌else◌, map, length, get_elem?, drop,
}
use zane.Stream.{Signal, chunk, eof, chunks}
use zane.Stream.Internal.{
  Event, data_event, end_event, Internal, stream, readable_push, readable_read, readable_resume,
  writable_write, writable_end, transform_callback, flush_callback,
}

-- What `_transform` or `_flush` of the program does: it pushes chunks, and then calls its callback with
-- a chunk or without.
pub record Said (A : Type 0) : Type 0 where
  pub pushes : List A
  pub result : Option A

-- A Transform of the pipeline.
pub record Stage (A : Type 0) : Type 0 where
  pub transform : A → Said A
  pub flush : Said A

-- A task of the TaskQueue: ReadableFromTaskRunner with the chunks that are left, or the listener that
-- `pipe` has put on the stream of that number for 'data' or for 'end'.
pub data PipeTask (A : Type 0) : Type 0 where
  from_list : List A → PipeTask A
  heard : ℕ → Signal A → PipeTask A

-- The source has the number 0, the Transforms follow, and then the Writable.
pub record Pipeline (A E : Type 0) : Type 0 where
  pub streams : ℕ → Internal A E
  pub queue : List (PipeTask A)

module _ {A E : Type 0} where
  abbrev pub push_all : List A → Internal A E → Internal A E
  push_all [] s = s
  push_all (x ∷ xs) s = push_all xs (readable_push (some x) s).0

  abbrev pub no_callback : Internal A E → Internal A E
  no_callback s = s

  -- `write` of a Transform, and `_write`, which is transformWrite.
  unfoldable pub transform_write : Stage A → A → Internal A E → Internal A E
  unfolding writable_write transform_callback readable_push
  transform_write g =
      writable_write
        (some (λ x s.
          transform_callback no_callback none (g.transform x).result
            (push_all (g.transform x).pushes s)))
        no_callback

  unfoldable pub transform_end : Stage A → Internal A E → Internal A E
  unfolding writable_end flush_callback readable_push
  transform_end g =
      writable_end (transform_write g)
        (some (λ s. flush_callback none g.flush.result (push_all g.flush.pushes s))) no_callback
        none

  -- The Writable at the end: its `_write` only takes the chunk.
  unfoldable pub sink_write : A → Internal A E → Internal A E
  unfolding writable_write
  sink_write = writable_write (some (λ x s. s)) no_callback

  unfoldable pub sink_end : Internal A E → Internal A E
  unfolding writable_end
  sink_end = writable_end sink_write none no_callback none

  -- The two listeners of `pipe`: they call `write` or `end` of the next stream.
  unfoldable pub hear_signal : Option (Stage A) → Signal A → Internal A E → Internal A E
  unfolding transform_write transform_end sink_write sink_end
  hear_signal (some g) (chunk x) s = transform_write g x s
  hear_signal (some g) eof s = transform_end g s
  hear_signal none (chunk x) s = sink_write x s
  hear_signal none eof s = sink_end s

  -- What `pipe` hears.
  abbrev pub signals : List (Event A E) → List (Signal A)
  signals [] = []
  signals (data_event x ∷ es) = chunk x ∷ signals es
  signals (end_event ∷ es) = eof ∷ signals es
  signals (e ∷ es) = signals es

  abbrev pub update : (ℕ → Internal A E) → ℕ → Internal A E → ℕ → Internal A E
  update streams k t i = if i == k then t else streams i

  -- A stream comes to a new state, and what it has emitted goes to the TaskQueue.
  unfoldable pub moved : ℕ → Internal A E → List (PipeTask A) → Pipeline A E → Pipeline A E
  moved k t queue p = record {
    streams = update p.streams k t;
    queue = queue ++ map (heard k) (signals (drop (length (p.streams k).emitted) t.emitted));
  }

  abbrev pub enqueued : PipeTask A → Pipeline A E → Pipeline A E
  enqueued t p = record p { queue = p.queue ++ (t ∷ []) }

  -- An element of the list is a chunk: null, which push takes for the end, is none of them.
  abbrev pub run_task :
      List (Stage A) → PipeTask A → List (PipeTask A) → Pipeline A E → Pipeline A E
  run_task stages (from_list []) queue p = moved 0 (readable_push none (p.streams 0)).0 queue p
  run_task stages (from_list (x ∷ xs)) queue p =
      enqueued (from_list xs) (moved 0 (readable_push (some x) (p.streams 0)).0 queue p)
  run_task stages (heard k signal) queue p =
      moved (suc k) (hear_signal (get_elem? stages k) signal (p.streams (suc k))) queue p

  abbrev pub run_front : List (Stage A) → List (PipeTask A) → Pipeline A E → Pipeline A E
  run_front stages [] p = p
  run_front stages (t ∷ queue) p = run_task stages t queue p

  -- The event loop runs the first task.
  unfoldable pub step : List (Stage A) → Pipeline A E → Pipeline A E
  unfolding moved hear_signal readable_push
  step stages p = run_front stages p.queue p

  unfoldable pub run : List (Stage A) → ℕ → Pipeline A E → Pipeline A E
  unfolding step
  run stages zero p = p
  run stages (suc n) p = run stages n (step stages p)

  -- `pipe` resumes the stream and reads; no stream of the pipeline has a `_read`.
  unfoldable pub pipe : Internal A E → Internal A E
  unfolding readable_read readable_resume
  pipe s = readable_read none (readable_resume (readable_read none) s)

-- Readable.from(xs), a call of `pipeline` with the Transforms, before the event loop runs.
unfoldable pub pipeline : {A : Type 0} (E : Type 0) → List (Stage A) → List A → Pipeline A E
unfolding pipe
pipeline E stages xs = record {
  streams = λ k.
      if ltb (length stages) k
      then stream false true none none
      else pipe (stream true (ltb 0 k) none none);
  queue = from_list xs ∷ [];
}
