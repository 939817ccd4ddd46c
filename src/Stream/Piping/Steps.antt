-- ===== src/Stream/Piping/Steps.antt =====
-- src/module/node/stream/stream.cpp: what a task of a pipeline does to its streams and to the queue.
use zane.Base.{
  ℕ, suc, ◌≡◌, ◌≢◌, refl, sym, ap, ◌∙◌, true, Option, some, none, List, [], ◌∷◌, ◌++◌, ne→==_false,
  ==_refl, map, append_assoc, append_nil, get_elem?, length, drop, arith,
}
use zane.Stream.{Signal, chunk, eof, chunks}
use zane.Stream.Internal.{
  Event, data_event, end_event, finish_event, Internal, push_some, readable_push,
}
use zane.Stream.Piping.{
  Stage, PipeTask, from_list, heard, Pipeline, push_all, hear_signal, signals, moved, run_task,
}
use zane.Stream.Piping.Content.{option_list, said, outs, after_task}

drop-append : {B : Type 0} (xs ys : List B) → drop (length xs) (xs ++ ys) ≡ ys
drop-append [] ys = refl
drop-append (x ∷ xs) ys = drop-append xs ys

module _ {A E : Type 0} where
  abbrev data_events : List A → List (Event A E)
  data_events xs = map data_event xs

  say-emitted :
      (xs : List A) (r : Option A) (s : Internal A E)
      → (push_some r (push_all xs s)).emitted ≡ s.emitted ++ data_events (xs ++ option_list r)
  unfolding readable_push
  say-emitted [] none s = sym (append_nil s.emitted)
  say-emitted [] (some x) s = refl
  say-emitted (x ∷ xs) r s =
      say-emitted xs r (readable_push (some x) s).0
      ∙ append_assoc s.emitted (data_event x ∷ []) (data_events (xs ++ option_list r))

  -- The events that a signal makes the next stream emit.
  abbrev events : Option (Stage A) → Signal A → List (Event A E)
  events (some g) (chunk x) = data_events (said (g.transform x))
  events (some g) eof = data_events (said g.flush) ++ (end_event ∷ finish_event ∷ [])
  events none (chunk x) = []
  events none eof = finish_event ∷ []

  hear_signal-emitted :
      (o : Option (Stage A)) (x : Signal A) (s : Internal A E)
      → (hear_signal o x s).emitted ≡ s.emitted ++ events o x
  unfolding hear_signal
  hear_signal-emitted (some g) (chunk x) s =
      say-emitted (g.transform x).pushes (g.transform x).result
        (record s { written = s.written ++ (x ∷ []) })
  hear_signal-emitted (some g) eof s =
      ap (λ l. (l ++ (end_event ∷ [])) ++ (finish_event ∷ []))
        (say-emitted g.flush.pushes g.flush.result (record s { ended = true }))
      ∙ append_assoc (s.emitted ++ data_events (said g.flush)) (end_event ∷ []) (finish_event ∷ [])
      ∙ append_assoc s.emitted (data_events (said g.flush)) (end_event ∷ finish_event ∷ [])
  hear_signal-emitted none (chunk x) s = sym (append_nil s.emitted)
  hear_signal-emitted none eof s = refl

  signals-data_events :
      (xs : List A) (es : List (Event A E))
      → signals (data_events xs ++ es) ≡ chunks xs ++ signals es
  signals-data_events [] es = refl
  signals-data_events (x ∷ xs) es = ap (λ l. chunk x ∷ l) (signals-data_events xs es)

  signals-events :
      (o : Option (Stage A)) (x : Signal A) (es : List (Event A E))
      → signals (events o x ++ es) ≡ outs o x ++ signals es
  signals-events (some g) (chunk x) es = signals-data_events (said (g.transform x)) es
  signals-events (some g) eof es =
      ap signals (append_assoc (data_events (said g.flush)) (end_event ∷ finish_event ∷ []) es)
      ∙ signals-data_events (said g.flush) (end_event ∷ finish_event ∷ es)
      ∙ sym (append_assoc (chunks (said g.flush)) (eof ∷ []) (signals es))
  signals-events none (chunk x) es = refl
  signals-events none eof es = refl

  hear_signal-signals :
      (o : Option (Stage A)) (x : Signal A) (s : Internal A E)
      → signals (drop (length s.emitted) (hear_signal o x s).emitted) ≡ outs o x
  hear_signal-signals o x s =
      ap (λ l. signals (drop (length s.emitted) l)) (hear_signal-emitted o x s)
      ∙ ap signals (drop-append s.emitted (events o x) ∙ sym (append_nil (events o x)))
      ∙ signals-events o x []
      ∙ append_nil (outs o x)

  -- The queue after a task is the one that `after_task` describes.
  pub run_task-queue :
      (stages : List (Stage A)) (t : PipeTask A) (q : List (PipeTask A)) (p : Pipeline A E)
      → (run_task stages t q p).queue ≡ after_task stages t q
  unfolding moved readable_push
  run_task-queue stages (from_list []) q p =
      ap (λ l. q ++ map (heard 0) (signals l)) (drop-append (p.streams 0).emitted (end_event ∷ []))
  run_task-queue stages (from_list (x ∷ xs)) q p =
      ap (λ l. (q ++ map (heard 0) (signals l)) ++ (from_list xs ∷ []))
        (drop-append (p.streams 0).emitted (data_event x ∷ []))
  run_task-queue stages (heard k x) q p =
      ap (λ l. q ++ map (heard (suc k)) l)
        (hear_signal-signals (get_elem? stages k) x (p.streams (suc k)))

  -- The stream that a task leaves as it is.
  pub run_task_other :
      (stages : List (Stage A)) (k n : ℕ) (x : Signal A) (q : List (PipeTask A)) (p : Pipeline A E)
      → k ≢ n
      → (run_task stages (heard k x) q p).streams (suc n) ≡ p.streams (suc n)
  unfolding moved
  run_task_other stages k n x q p h = rw (ne→==_false (suc n) (suc k) (λ e. h (omega arith)))

  pub run_task-from_list :
      (stages : List (Stage A)) (n : ℕ) (xs : List A) (q : List (PipeTask A)) (p : Pipeline A E)
      → (run_task stages (from_list xs) q p).streams (suc n) ≡ p.streams (suc n)
  unfolding moved
  run_task-from_list stages n [] q p = rw (ne→==_false (suc n) 0 (λ e. absurd (omega arith)))
  run_task-from_list stages n (x ∷ xs) q p = rw (ne→==_false (suc n) 0 (λ e. absurd (omega arith)))

  pub run_task_self :
      (stages : List (Stage A)) (k : ℕ) (x : Signal A) (q : List (PipeTask A)) (p : Pipeline A E)
      → (run_task stages (heard k x) q p).streams (suc k)
        ≡ hear_signal (get_elem? stages k) x (p.streams (suc k))
  unfolding moved
  run_task_self stages k x q p = rw (==_refl (suc k))
