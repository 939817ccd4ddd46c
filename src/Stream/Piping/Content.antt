-- ===== src/Stream/Piping/Content.antt =====
-- src/module/node/stream/stream.cpp: what is still to come in a pipeline, at each of its streams.
use zane.Base.{
  ℕ, zero, suc, ◌+◌, ◌≡◌, ◌≢◌, refl, sym, ap, ◌∙◌, Option, some, none, List, [], ◌∷◌, ◌++◌, ◌==◌,
  ==_iff, ==_refl, ne→==_false, if◌then◌else◌, map, append_assoc, append_nil, Bool-cases, inl, inr,
  get_elem?, arith,
}
use zane.Stream.{Signal, chunk, eof, chunks}
use zane.Stream.Piping.{Said, Stage, PipeTask, from_list, heard}

abbrev pub over : {B C : Type 0} → (B → List C) → List B → List C
over f [] = []
over f (x ∷ xs) = f x ++ over f xs

pub over-append :
    {B C : Type 0} (f : B → List C) (xs ys : List B) → over f (xs ++ ys) ≡ over f xs ++ over f ys
over-append f [] ys = refl
over-append f (x ∷ xs) ys =
    ap (λ l. f x ++ l) (over-append f xs ys) ∙ sym (append_assoc (f x) (over f xs) (over f ys))

pub both : {B : Type 0} {a b c d : List B} → a ≡ b → c ≡ d → a ++ c ≡ b ++ d
both {a} {d} p q = ap (λ l. a ++ l) q ∙ ap (λ l. l ++ d) p

suc_ne : (j k : ℕ) → j ≢ k → suc j ≢ suc k
suc_ne j k n e = n (omega arith)

module _ {A : Type 0} where
  abbrev pub option_list : Option A → List A
  option_list none = []
  option_list (some x) = x ∷ []

  abbrev pub said : Said A → List A
  said s = s.pushes ++ option_list s.result

  -- What a stream emits for a signal that it hears of.
  abbrev pub outs : Option (Stage A) → Signal A → List (Signal A)
  outs (some g) (chunk x) = chunks (said (g.transform x))
  outs (some g) eof = chunks (said g.flush) ++ (eof ∷ [])
  outs none x = []

  -- The signals of the stream k that wait to be heard.
  abbrev pub waiting : ℕ → List (PipeTask A) → List (Signal A)
  waiting k [] = []
  waiting k (from_list xs ∷ q) = waiting k q
  waiting k (heard j x ∷ q) = if j == k then x ∷ waiting k q else waiting k q

  abbrev pub remaining : List (PipeTask A) → List (Signal A)
  remaining [] = []
  remaining (from_list xs ∷ q) = (chunks xs ++ (eof ∷ [])) ++ remaining q
  remaining (heard j x ∷ q) = remaining q

  abbrev pub froms : List (PipeTask A) → ℕ
  froms [] = 0
  froms (from_list xs ∷ q) = suc (froms q)
  froms (heard j x ∷ q) = froms q

  pub waiting-append :
      (k : ℕ) (q r : List (PipeTask A)) → waiting k (q ++ r) ≡ waiting k q ++ waiting k r
  waiting-append k [] r = refl
  waiting-append k (from_list xs ∷ q) r = waiting-append k q r
  waiting-append k (heard j x ∷ q) r = elim (Bool-cases (j == k)) [
    | inl e ↦ rw e (ap (λ l. x ∷ l) (waiting-append k q r))
    | inr e ↦ rw e (waiting-append k q r)
  ]

  pub remaining-append : (q r : List (PipeTask A)) → remaining (q ++ r) ≡ remaining q ++ remaining r
  remaining-append [] r = refl
  remaining-append (from_list xs ∷ q) r =
      ap (λ l. (chunks xs ++ (eof ∷ [])) ++ l) (remaining-append q r)
      ∙ sym (append_assoc (chunks xs ++ (eof ∷ [])) (remaining q) (remaining r))
  remaining-append (heard j x ∷ q) r = remaining-append q r

  pub froms-append : (q r : List (PipeTask A)) → froms (q ++ r) ≡ froms q + froms r
  froms-append [] r = omega arith
  froms-append (from_list xs ∷ q) r = omega (arith, froms-append q r)
  froms-append (heard j x ∷ q) r = froms-append q r

  pub waiting-heard_self : (k : ℕ) (l : List (Signal A)) → waiting k (map (heard k) l) ≡ l
  waiting-heard_self k [] = refl
  waiting-heard_self k (x ∷ l) = rw (==_refl k) (ap (λ m. x ∷ m) (waiting-heard_self k l))

  pub waiting-heard_other :
      (j k : ℕ) (l : List (Signal A)) → j ≢ k → waiting k (map (heard j) l) ≡ []
  waiting-heard_other j k [] n = refl
  waiting-heard_other j k (x ∷ l) n = rw (ne→==_false j k n) (waiting-heard_other j k l n)

  pub remaining-heard : (k : ℕ) (l : List (Signal A)) → remaining (map (heard k) l) ≡ []
  remaining-heard k [] = refl
  remaining-heard k (x ∷ l) = remaining-heard k l

  pub froms-heard : (k : ℕ) (l : List (Signal A)) → froms (map (heard k) l) ≡ 0
  froms-heard k [] = refl
  froms-heard k (x ∷ l) = froms-heard k l

  pub no_froms : (q : List (PipeTask A)) → froms q ≡ 0 → remaining q ≡ []
  no_froms [] h = refl
  no_froms (from_list xs ∷ q) h = absurd (omega arith)
  no_froms (heard j x ∷ q) h = no_froms q h

  waiting_later : (k : ℕ) (x : Signal A) → waiting (suc k) (heard 0 x ∷ []) ≡ []
  waiting_later k x = rw (ne→==_false 0 (suc k) (λ e. absurd (omega arith)))

  module _ (stages : List (Stage A)) where
    -- What the listeners of the stream k are still to hear, when everything has run.
    abbrev pub content : ℕ → List (PipeTask A) → List (Signal A)
    content zero q = waiting 0 q ++ remaining q
    content (suc k) q = waiting (suc k) q ++ over (outs (get_elem? stages k)) (content k q)

    -- The tasks that the first task leaves behind.
    abbrev pub after_task : PipeTask A → List (PipeTask A) → List (PipeTask A)
    after_task (from_list []) q = q ++ (heard 0 eof ∷ [])
    after_task (from_list (x ∷ xs)) q = (q ++ (heard 0 (chunk x) ∷ [])) ++ (from_list xs ∷ [])
    after_task (heard j x) q = q ++ map (heard (suc j)) (outs (get_elem? stages j) x)

    waiting-after_other :
        (j k : ℕ) (x : Signal A) (q : List (PipeTask A))
        → suc j ≢ k
        → waiting k (after_task (heard j x) q) ≡ waiting k q
    waiting-after_other j k x q n =
        waiting-append k q (map (heard (suc j)) (outs (get_elem? stages j) x))
        ∙ ap (λ l. waiting k q ++ l) (waiting-heard_other (suc j) k (outs (get_elem? stages j) x) n)
        ∙ append_nil (waiting k q)

    waiting-after_self :
        (j k : ℕ) (x : Signal A) (q : List (PipeTask A))
        → j ≡ k
        → waiting (suc k) (after_task (heard j x) q)
          ≡ waiting (suc k) q ++ outs (get_elem? stages k) x
    waiting-after_self j k x q e =
        ap (λ m. waiting (suc m) (after_task (heard j x) q)) (sym e)
        ∙ waiting-append (suc j) q (map (heard (suc j)) (outs (get_elem? stages j) x))
        ∙ ap (λ l. waiting (suc j) q ++ l)
            (waiting-heard_self (suc j) (outs (get_elem? stages j) x))
        ∙ ap (λ m. waiting (suc m) q ++ outs (get_elem? stages m) x) e

    pub remaining-after_task :
        (j : ℕ) (x : Signal A) (q : List (PipeTask A))
        → remaining (after_task (heard j x) q) ≡ remaining q
    remaining-after_task j x q =
        remaining-append q (map (heard (suc j)) (outs (get_elem? stages j) x))
        ∙ ap (λ l. remaining q ++ l) (remaining-heard (suc j) (outs (get_elem? stages j) x))
        ∙ append_nil (remaining q)

    waiting_same :
        (j k : ℕ) (x : Signal A) (q : List (PipeTask A))
        → j ≡ k
        → waiting k (heard j x ∷ q) ≡ x ∷ waiting k q
    waiting_same j k x q e = rw ((==_iff j k).1 e)

    waiting_other :
        (j k : ℕ) (x : Signal A) (q : List (PipeTask A))
        → j ≢ k
        → waiting k (heard j x ∷ q) ≡ waiting k q
    waiting_other j k x q n = rw (ne→==_false j k n)

    -- A signal that is heard goes from what its stream is to hear, and the other streams hear the same.
    pub content-heard :
        (j k : ℕ) (x : Signal A) (q : List (PipeTask A))
        → (j ≡ k → content k (heard j x ∷ q) ≡ x ∷ content k (after_task (heard j x) q))
          × (j ≢ k → content k (heard j x ∷ q) ≡ content k (after_task (heard j x) q))
    content-heard j zero x q =
        let same =
          both (waiting-after_other j 0 x q (λ e. absurd (omega arith)))
            (remaining-after_task j x q) in
        (
          λ e. ap (λ l. l ++ remaining q) (waiting_same j 0 x q e) ∙ ap (λ l. x ∷ l) (sym same),
          λ n. ap (λ l. l ++ remaining q) (waiting_other j 0 x q n) ∙ sym same,
        )
    content-heard j (suc k) x q =
        let f = outs (get_elem? stages k) in
        let rest = over f (content k (after_task (heard j x) q)) in
        let (here, apart) = content-heard j k x q in
        let there =
          λ (n : suc j ≢ suc k). ap (λ l. l ++ rest) (sym (waiting-after_other j (suc k) x q n)) in
        (
          λ e.
              both (waiting_same j (suc k) x q e) (ap (over f) (apart (λ h. absurd (omega arith))))
              ∙ ap (λ l. x ∷ l) (there (λ h. absurd (omega arith))),
          λ n. elim (Bool-cases (j == k)) [
            | inl e ↦
                both (waiting_other j (suc k) x q n) (ap (over f) (here ((==_iff j k).0 e)))
                ∙ sym (append_assoc (waiting (suc k) q) (f x) rest)
                ∙ ap (λ l. l ++ rest) (sym (waiting-after_self j k x q ((==_iff j k).0 e)))
            | inr e ↦
                both (waiting_other j (suc k) x q n) (ap (over f) (apart (λ h. ground arith)))
                ∙ there (suc_ne j k (λ h. ground arith))
          ],
        )

    -- The task of Readable.from takes nothing away.
    pub content-from_list :
        (k : ℕ) (xs : List A) (q : List (PipeTask A))
        → froms q ≡ 0
        → content k (from_list xs ∷ q) ≡ content k (after_task (from_list xs) q)
    content-from_list zero [] q h =
        simp (waiting-append, remaining-append, append_nil, append_assoc)
    content-from_list zero (x ∷ xs) q h =
        simp (waiting-append, remaining-append, append_nil, append_assoc, no_froms q h)
    content-from_list (suc k) [] q h =
        both (simp (waiting-append, waiting_later, append_nil))
          (ap (over (outs (get_elem? stages k))) (content-from_list k [] q h))
    content-from_list (suc k) (x ∷ xs) q h =
        both (simp (waiting-append, waiting_later, append_nil))
          (ap (over (outs (get_elem? stages k))) (content-from_list k (x ∷ xs) q h))
