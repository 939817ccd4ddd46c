-- ===== src/Stream/Piping/Flow.antt =====
-- src/module/node/stream/stream.cpp: what is left to come for the Writable at the end of a pipeline.
use zane.Base.{
  ℕ, suc, ◌≤◌, ◌≡◌, ◌≢◌, refl, sym, ap, ◌∙◌, subst, Bool, true, false, ◌||◌, none, List, [], ◌∷◌,
  ◌++◌, ◌==◌, ==_iff, map, append_nil, append_assoc, Bool-cases, inl, inr, get_elem?, get_elem?-ge,
  length, arith,
}
use zane.Stream.{Signal, chunk, eof}
use zane.Stream.Internal.{Internal}
use zane.Stream.Piping.{Stage, PipeTask, from_list, heard, Pipeline, hear_signal, run_task}
use zane.Stream.Piping.Content.{
  outs, froms, froms-append, froms-heard, content, after_task, content-heard, content-from_list,
}
use zane.Stream.Piping.Steps.{run_task_other, run_task-from_list, run_task_self}

module _ {A : Type 0} where
  abbrev pub received : List (Signal A) → List A
  received [] = []
  received (chunk x ∷ l) = x ∷ received l
  received (eof ∷ l) = received l

  abbrev pub has_eof : List (Signal A) → Bool
  has_eof [] = false
  has_eof (chunk x ∷ l) = has_eof l
  has_eof (eof ∷ l) = true

  abbrev pub InRange : ℕ → List (PipeTask A) → Type 0
  InRange n [] = Unit {0}
  InRange n (from_list xs ∷ q) = InRange n q
  InRange n (heard k x ∷ q) = (k ≤ n) × InRange n q

  InRange-append :
      (n : ℕ) (q r : List (PipeTask A)) → InRange n q → InRange n r → InRange n (q ++ r)
  InRange-append n [] r h k = k
  InRange-append n (from_list xs ∷ q) r h k = InRange-append n q r h k
  InRange-append n (heard j x ∷ q) r (b, h) k = (b, InRange-append n q r h k)

  InRange-heard : (n k : ℕ) (l : List (Signal A)) → k ≤ n → InRange n (map (heard k) l)
  InRange-heard n k [] b = tt
  InRange-heard n k (x ∷ l) b = (b, InRange-heard n k l b)

  module _ (stages : List (Stage A)) where
    last : get_elem? stages (length stages) ≡ none
    last = get_elem?-ge stages (length stages) (omega arith)

    -- The Writable emits nothing that is heard of.
    after_last :
        (k : ℕ) (x : Signal A) (q : List (PipeTask A))
        → k ≡ length stages
        → after_task stages (heard k x) q ≡ q
    after_last k x q e =
        ap (λ o. q ++ map (heard (suc k)) (outs o x)) (ap (get_elem? stages) e ∙ last)
        ∙ append_nil q

    after_task-InRange :
        (k : ℕ) (x : Signal A) (q : List (PipeTask A))
        → InRange (length stages) (heard k x ∷ q)
        → InRange (length stages) (after_task stages (heard k x) q)
    after_task-InRange k x q (b, h) = elim (Bool-cases (k == length stages)) [
      | inl e ↦
          subst (InRange (length stages)) (sym (after_last k x q ((==_iff k (length stages)).0 e)))
            h
      | inr e ↦
          InRange-append (length stages) q (map (heard (suc k)) (outs (get_elem? stages k) x)) h
            (InRange-heard (length stages) (suc k) (outs (get_elem? stages k) x) (ground arith))
    ]

    -- What is left to come for the Writable, with the tasks that wait.
    pub record Flow (E : Type 0) (ys : List A) (q : List (PipeTask A)) (s : Internal A E)
        : Type 0 where
      pub single : froms q ≤ 1
      pub in_range : InRange (length stages) q
      pub comes : s.written ++ received (content stages (length stages) q) ≡ ys
      pub ends : (s.finished || has_eof (content stages (length stages) q)) ≡ true

    after_task-froms :
        (k : ℕ) (x : Signal A) (q : List (PipeTask A))
        → froms (after_task stages (heard k x) q) ≡ froms q
    after_task-froms k x q = omega (
      arith,
      froms-append q (map (heard (suc k)) (outs (get_elem? stages k) x)),
      froms-heard (suc k) (outs (get_elem? stages k) x),
    )

    after_from-froms :
        (xs : List A) (q : List (PipeTask A))
        → froms q ≡ 0
        → froms (after_task stages (from_list xs) q) ≤ 1
    after_from-froms [] q z = omega (arith, froms-append q (heard 0 eof ∷ []))
    after_from-froms (x ∷ xs) q z = omega (
      arith,
      froms-append (q ++ (heard 0 (chunk x) ∷ [])) (from_list xs ∷ []),
      froms-append q (heard 0 (chunk x) ∷ []),
    )

    after_from-InRange :
        (xs : List A) (q : List (PipeTask A))
        → InRange (length stages) q
        → InRange (length stages) (after_task stages (from_list xs) q)
    after_from-InRange [] q h =
        InRange-append (length stages) q (heard 0 eof ∷ []) h (omega arith, tt)
    after_from-InRange (x ∷ xs) q h =
        InRange-append (length stages) (q ++ (heard 0 (chunk x) ∷ [])) (from_list xs ∷ [])
          (InRange-append (length stages) q (heard 0 (chunk x) ∷ []) h (omega arith, tt)) tt

    module _ {E : Type 0} (ys : List A) where
      other-Flow :
          (k : ℕ) (x : Signal A) (q : List (PipeTask A)) (s : Internal A E)
          → k ≢ length stages
          → Flow E ys (heard k x ∷ q) s
          → Flow E ys (after_task stages (heard k x) q) s
      other-Flow k x q s n f =
          let same = (content-heard stages k (length stages) x q).1 n in
          record {
            single = let e = after_task-froms k x q in let h = f.single in omega arith;
            in_range = after_task-InRange k x q f.in_range;
            comes = ap (λ l. s.written ++ received l) (sym same) ∙ f.comes;
            ends = ap (λ l. s.finished || has_eof l) (sym same) ∙ f.ends;
          }

      last-Flow :
          (k : ℕ) (x : Signal A) (q : List (PipeTask A)) (s : Internal A E)
          → k ≡ length stages
          → Flow E ys (heard k x ∷ q) s
          → Flow E ys (after_task stages (heard k x) q) (hear_signal none x s)
      unfolding hear_signal
      last-Flow k (chunk x) q s e f =
          let here = (content-heard stages k (length stages) (chunk x) q).0 e in
          let later = content stages (length stages) (after_task stages (heard k (chunk x)) q) in
          record {
            single = let e = after_task-froms k (chunk x) q in let h = f.single in omega arith;
            in_range = after_task-InRange k (chunk x) q f.in_range;
            comes =
                append_assoc s.written (x ∷ []) (received later)
                ∙ ap (λ l. s.written ++ received l) (sym here)
                ∙ f.comes;
            ends = ap (λ l. s.finished || has_eof l) (sym here) ∙ f.ends;
          }
      last-Flow k eof q s e f =
          let here = (content-heard stages k (length stages) eof q).0 e in
          record {
            single = let e = after_task-froms k eof q in let h = f.single in omega arith;
            in_range = after_task-InRange k eof q f.in_range;
            comes = ap (λ l. s.written ++ received l) (sym here) ∙ f.comes;
            ends = refl;
          }

      from_list-Flow :
          (xs : List A) (q : List (PipeTask A)) (s : Internal A E)
          → Flow E ys (from_list xs ∷ q) s
          → Flow E ys (after_task stages (from_list xs) q) s
      from_list-Flow xs q s f =
          let z : froms q ≡ 0 = let h = f.single in omega arith in
          let same = content-from_list stages (length stages) xs q z in
          record {
            single = after_from-froms xs q z;
            in_range = after_from-InRange xs q f.in_range;
            comes = ap (λ l. s.written ++ received l) (sym same) ∙ f.comes;
            ends = ap (λ l. s.finished || has_eof l) (sym same) ∙ f.ends;
          }

      -- A task, in a state of the pipeline in which it is the first.
      pub task-Flow :
          (t : PipeTask A) (q : List (PipeTask A)) (p : Pipeline A E)
          → Flow E ys (t ∷ q) (p.streams (suc (length stages)))
          → Flow E ys
              (after_task stages t q)
              ((run_task stages t q p).streams (suc (length stages)))
      task-Flow (from_list xs) q p f =
          subst (Flow E ys (after_task stages (from_list xs) q))
            (sym (run_task-from_list stages (length stages) xs q p))
            (from_list-Flow xs q (p.streams (suc (length stages))) f)
      task-Flow (heard k x) q p f = elim (Bool-cases (k == length stages)) [
        | inl b ↦
            let e = (==_iff k (length stages)).0 b in
            subst (Flow E ys (after_task stages (heard k x) q))
              (sym (
                ap (λ m. (run_task stages (heard k x) q p).streams (suc m)) (sym e)
                ∙ run_task_self stages k x q p
                ∙ ap (λ o. hear_signal o x (p.streams (suc k))) (ap (get_elem? stages) e ∙ last)
                ∙ ap (λ m. hear_signal none x (p.streams (suc m))) e))
              (last-Flow k x q (p.streams (suc (length stages))) e f)
        | inr b ↦
            let n : k ≢ length stages = λ e. ground arith in
            subst (Flow E ys (after_task stages (heard k x) q))
              (sym (run_task_other stages k (length stages) x q p n))
              (other-Flow k x q (p.streams (suc (length stages))) n f)
      ]
