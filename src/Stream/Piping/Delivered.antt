-- ===== src/Stream/Piping/Delivered.antt =====
-- src/module/node/stream/stream.cpp: what a pipeline delivers.
use zane.Base.{
  ℕ, zero, suc, ◌≤◌, ◌≡◌, refl, sym, ap, ◌∙◌, subst, true, false, ◌||◌, some, none, List, [], ◌∷◌,
  ◌++◌, append_nil, append_assoc, get_elem?, length, arith,
}
use zane.Stream.{chunk, eof, chunks}
use zane.Stream.Internal.{Internal}
use zane.Stream.Piping.{
  Stage, PipeTask, from_list, heard, Pipeline, run_task, run_front, run, pipeline,
}
use zane.Stream.Piping.Content.{said, outs, over, content, after_task}
use zane.Stream.Piping.Steps.{run_task-queue}
use zane.Stream.Piping.Work.{work, work-heard, work-from_list}
use zane.Stream.Piping.Content.{over-append}
use zane.Stream.Piping.Flow.{received, has_eof, Flow, task-Flow}
use zane.Base.{lt→ltb}
use zane.Stream.Internal.{stream}

module _ {A : Type 0} where
  -- What a Transform makes of a list.
  abbrev pub results_of : Stage A → List A → List A
  results_of g xs = over (λ x. said (g.transform x)) xs ++ said g.flush

  abbrev pub results : List (Stage A) → List A → List A
  results [] xs = xs
  results (g ∷ gs) xs = results gs (results_of g xs)

  chunks-append : (xs ys : List A) → chunks (xs ++ ys) ≡ chunks xs ++ chunks ys
  chunks-append [] ys = refl
  chunks-append (x ∷ xs) ys = ap (λ l. chunk x ∷ l) (chunks-append xs ys)

  over-chunks :
      (g : Stage A) (xs : List A)
      → over (outs (some g)) (chunks xs) ≡ chunks (over (λ x. said (g.transform x)) xs)
  over-chunks g [] = refl
  over-chunks g (x ∷ xs) =
      ap (λ l. chunks (said (g.transform x)) ++ l) (over-chunks g xs)
      ∙ sym (chunks-append (said (g.transform x)) (over (λ y. said (g.transform y)) xs))

  over-results_of :
      (g : Stage A) (xs : List A)
      → over (outs (some g)) (chunks xs ++ (eof ∷ [])) ≡ chunks (results_of g xs) ++ (eof ∷ [])
  over-results_of g xs = simp (
    over-append (outs (some g)) (chunks xs) (eof ∷ []),
    over-chunks,
    append_nil,
    append_assoc,
    chunks-append (over (λ x. said (g.transform x)) xs) (said g.flush),
  )

  content-cons :
      (g : Stage A) (gs : List (Stage A)) (k : ℕ) (xs : List A)
      → content (g ∷ gs) (suc k) (from_list xs ∷ [])
        ≡ content gs k (from_list (results_of g xs) ∷ [])
  content-cons g gs zero xs =
      ap (over (outs (some g))) (append_nil (chunks xs ++ (eof ∷ [])))
      ∙ over-results_of g xs
      ∙ sym (append_nil (chunks (results_of g xs) ++ (eof ∷ [])))
  content-cons g gs (suc k) xs = ap (over (outs (get_elem? gs k))) (content-cons g gs k xs)

  content-results :
      (stages : List (Stage A)) (xs : List A)
      → content stages (length stages) (from_list xs ∷ [])
        ≡ chunks (results stages xs) ++ (eof ∷ [])
  content-results [] xs = append_nil (chunks xs ++ (eof ∷ []))
  content-results (g ∷ gs) xs =
      content-cons g gs (length gs) xs ∙ content-results gs (results_of g xs)

  received-chunks : (ys : List A) → received (chunks ys ++ (eof ∷ [])) ≡ ys
  received-chunks [] = refl
  received-chunks (y ∷ ys) = ap (λ l. y ∷ l) (received-chunks ys)

  has_eof-chunks : (ys : List A) → has_eof (chunks ys ++ (eof ∷ [])) ≡ true
  has_eof-chunks [] = refl
  has_eof-chunks (y ∷ ys) = has_eof-chunks ys

  content-nil : (stages : List (Stage A)) (k : ℕ) → content stages k [] ≡ []
  content-nil stages zero = refl
  content-nil stages (suc k) = ap (over (outs (get_elem? stages k))) (content-nil stages k)

  work-nil : (stages : List (Stage A)) (m : ℕ) → work stages m [] ≡ 0
  work-nil stages zero = refl
  work-nil stages (suc k) = omega (arith, work-nil stages k, ap length (content-nil stages k))

  module _ (stages : List (Stage A)) {E : Type 0} (ys : List A) where
    abbrev pub IsDone : Pipeline A E → Type 0
    IsDone p =
        (p.queue ≡ [])
        × ((p.streams (suc (length stages))).written ≡ ys)
        × ((p.streams (suc (length stages))).finished ≡ true)

    done :
        (p : Pipeline A E)
        → p.queue ≡ []
        → Flow stages E ys [] (p.streams (suc (length stages)))
        → IsDone p
    done p e f =
        let c = content-nil stages (length stages) in
        (
          e,
          sym (append_nil (p.streams (suc (length stages))).written)
              ∙ ap (λ l. (p.streams (suc (length stages))).written ++ received l) (sym c)
              ∙ f.comes,
          let h =
                sym (ap (λ l. (p.streams (suc (length stages))).finished || has_eof l) c)
                ∙ f.ends in
              ground arith,
        )

    task-work :
        (t : PipeTask A) (q : List (PipeTask A)) (s : Internal A E)
        → Flow stages E ys (t ∷ q) s
        → work stages (suc (length stages)) (t ∷ q)
          ≡ suc (work stages (suc (length stages)) (after_task stages t q))
    task-work (from_list xs) q s f =
        work-from_list stages (suc (length stages)) xs q (let h = f.single in omega arith)
    task-work (heard k x) q s f =
        let w = work-heard stages (suc (length stages)) k x q in
        let b = f.in_range.0 in ground arith

    run-IsDone :
        (n : ℕ) (q : List (PipeTask A)) (p : Pipeline A E)
        → p.queue ≡ q
        → work stages (suc (length stages)) q ≤ n
        → Flow stages E ys q (p.streams (suc (length stages)))
        → IsDone (run stages n p)
    unfolding run
    run-IsDone zero [] p e w f = done p e f
    run-IsDone zero (t ∷ q) p e w f =
        let h = task-work t q (p.streams (suc (length stages))) f in absurd (omega arith)
    run-IsDone (suc n) [] p e w f =
        subst (λ r. IsDone (run stages n r)) (sym (ap (λ l. run_front stages l p) e))
          (run-IsDone n [] p e (let z = work-nil stages (suc (length stages)) in omega arith) f)
    run-IsDone (suc n) (t ∷ q) p e w f =
        subst (λ r. IsDone (run stages n r)) (sym (ap (λ l. run_front stages l p) e))
          (run-IsDone n (after_task stages t q) (run_task stages t q p)
            (run_task-queue stages t q p)
            (let h = task-work t q (p.streams (suc (length stages))) f in omega arith)
            (task-Flow stages ys t q p f))

  sink :
      (E : Type 0) (stages : List (Stage A)) (xs : List A)
      → (pipeline E stages xs).streams (suc (length stages)) ≡ stream false true none none
  unfolding pipeline
  sink E stages xs = rw (lt→ltb (length stages) (suc (length stages)) (omega arith))

  pipeline-Flow :
      (E : Type 0) (stages : List (Stage A)) (xs : List A)
      → Flow stages E (results stages xs) (from_list xs ∷ []) (stream false true none none)
  pipeline-Flow E stages xs = record {
    single = omega arith;
    in_range = tt;
    comes = ap received (content-results stages xs) ∙ received-chunks (results stages xs);
    ends = ap has_eof (content-results stages xs) ∙ has_eof-chunks (results stages xs);
  }

  -- A list without null in Readable.from that is piped through Transforms into a Writable, where each `_transform`
  -- and `_flush` pushes chunks and then calls its callback once without an error: after finitely many
  -- tasks, and from there on, the TaskQueue is empty, `_write` of the Writable was called with exactly
  -- what the Transforms make of the list, one after the other, in order, and it has finished.
  pub pipeline-results :
      (E : Type 0) (stages : List (Stage A)) (xs : List A)
      → (n : ℕ) × ((m : ℕ)
          → n ≤ m
          → IsDone stages (results stages xs) (run stages m (pipeline E stages xs)))
  unfolding pipeline
  pipeline-results E stages xs = (
    work stages (suc (length stages)) (from_list xs ∷ []),
    λ m h.
        run-IsDone stages (results stages xs) m (from_list xs ∷ []) (pipeline E stages xs) refl h (
          subst (Flow stages E (results stages xs) (from_list xs ∷ [])) (sym (sink E stages xs))
            (pipeline-Flow E stages xs)),
  )
