-- ===== src/Stream/Promises.antt =====
-- src/module/node/stream/stream.cpp: some, every, find and reduce resolve as on lists.
use zane.Base.{
  append_assoc, append_nil, ◌≡◌, refl, sym, ap, ◌∙◌, Bool, true, false, not, Option, some, none,
  List, [], ◌∷◌, ◌++◌, inl, inr, Bool-cases, if◌then◌else◌,
}
use zane.Buffer.{Outcome, ok}
use zane.Stream.{
  eof, chunks, Operator, went_on, receive_all, some_data, some_end, every_data, every_end,
  find_data, find_end, reduce_data, reduce_end,
}

-- An operator that looks for the first hit, and sends one value for it, and another where there is none.
module _ {A O : Type 0} (hit : A → Bool) (here : A → O) (nowhere : O) where
  abbrev look_data : A → Bool → Outcome (Bool × List O)
  look_data x true = ok (true, [])
  look_data x false = if hit x then ok (true, here x ∷ []) else ok (false, [])

  abbrev look_end : Bool → List O
  look_end found = if found then [] else nowhere ∷ []

  abbrev pub first_hit : List A → O
  first_hit [] = nowhere
  first_hit (x ∷ xs) = let rest = first_hit xs in if hit x then here x else rest

  abbrev left_to_send : Bool → List A → List O
  left_to_send found xs = if found then [] else first_hit xs ∷ []

  look_from :
      (found : Bool) (xs : List A) (out : List O)
      → (v : Bool) × (receive_all look_data look_end
            (chunks xs ++ (eof ∷ []))
            (ok (record { vars = found; freed = false; out = out }))
          ≡ ok (record { vars = v; freed = true; out = out ++ left_to_send found xs }))
  unfolding receive_all
  look_from true [] out = (true, refl)
  look_from false [] out = (false, refl)
  look_from true (x ∷ xs) out =
      let (v, e) = look_from true xs (out ++ []) in
      (v, e ∙ ap (λ o. ok (record { vars = v; freed = true; out = o })) (append_assoc out [] []))
  look_from false (x ∷ xs) out = elim (Bool-cases (hit x)) [
    | inl h ↦
        let (v, e) = look_from true xs (out ++ (here x ∷ [])) in
        (
          v,
          ap
                (λ b. receive_all look_data look_end (chunks xs ++ (eof ∷ [])) (
                  went_on (record { vars = false; freed = false; out = out })
                    (if b then ok (true, here x ∷ []) else ok (false, []))))
                h
              ∙ e
              ∙ ap (λ o. ok (record { vars = v; freed = true; out = o }))
                  (append_nil (out ++ (here x ∷ []))
                    ∙ sym (ap (λ b. out ++ ((if b then here x else first_hit xs) ∷ [])) h)),
        )
    | inr h ↦
        let (v, e) = look_from false xs (out ++ []) in
        (
          v,
          ap
                (λ b. receive_all look_data look_end (chunks xs ++ (eof ∷ [])) (
                  went_on (record { vars = false; freed = false; out = out })
                    (if b then ok (true, here x ∷ []) else ok (false, []))))
                h
              ∙ e
              ∙ ap (λ o. ok (record { vars = v; freed = true; out = o }))
                  (append_assoc out [] (first_hit xs ∷ [])
                    ∙ sym (ap (λ b. out ++ ((if b then here x else first_hit xs) ∷ [])) h)),
        )
  ]

-- An operator that has sent the values of the list and has seen the end.
abbrev pub Settled : {S O : Type 0} → Outcome (Operator S O) → List O → Type 0
Settled {S} r out = (v : S) × (r ≡ ok (record { vars = v; freed = true; out = out }))

abbrev pub fresh : {S : Type 0} (O : Type 0) → S → Outcome (Operator S O)
fresh O s = ok (record { vars = s; freed = false; out = [] })

module _ {A : Type 0} where
  abbrev pub folded : A → Option A → A
  folded a o = elim o [ none ↦ a | some b ↦ b ]

  -- reduce on lists, where a call that throws leaves the accumulator as it was.
  abbrev pub reduced : (A → A → Option A) → Option A → List A → Option A
  reduced fn a [] = a
  reduced fn none (x ∷ xs) = reduced fn (some x) xs
  reduced fn (some a) (x ∷ xs) = reduced fn (some (folded a (fn a x))) xs

  reduce_from :
      (fn : A → A → Option A) (a : Option A) (xs : List A) (out : List (Option A))
      → receive_all
          (reduce_data fn)
          reduce_end
          (chunks xs ++ (eof ∷ []))
          (ok (record { vars = a; freed = false; out = out }))
        ≡ ok (record { vars = reduced fn a xs; freed = true; out = out ++ (reduced fn a xs ∷ []) })
  unfolding receive_all
  reduce_from fn a [] out = refl
  reduce_from fn none (x ∷ xs) out =
      reduce_from fn (some x) xs (out ++ [])
      ∙ ap (λ o. ok (record { vars = reduced fn (some x) xs; freed = true; out = o }))
          (append_assoc out [] (reduced fn (some x) xs ∷ []))
  reduce_from fn (some a) (x ∷ xs) out =
      reduce_from fn (some (folded a (fn a x))) xs (out ++ [])
      ∙ ap
          (λ o.
            ok (record { vars = reduced fn (some (folded a (fn a x))) xs; freed = true; out = o }))
          (append_assoc out [] (reduced fn (some (folded a (fn a x))) xs ∷ []))

  -- What the function returns for a chunk; an exception is neither.
  abbrev pub is_true : (A → Option Bool) → A → Bool
  is_true test x = elim (test x) [ none ↦ false | some b ↦ b ]

  abbrev pub is_false : (A → Option Bool) → A → Bool
  is_false test x = elim (test x) [ none ↦ false | some b ↦ not b ]

  -- On a source that gives the chunks xs and then ends, each of these operators resolves its promise
  -- once: some with true where the function returns a true value for a chunk and with false otherwise;
  -- every with false where it returns a false value for a chunk and with true otherwise; find with the
  -- first chunk for which it returns a true value and with undefined where there is none; reduce with
  -- what folding the chunks gives. A call that throws counts for none of these.
  pub promises-receive_all :
      (test : A → Option Bool) (fn : A → A → Option A) (a : Option A) (xs : List A)
      → Settled
          (receive_all (some_data test) some_end (chunks xs ++ (eof ∷ [])) (fresh Bool false))
          (first_hit (is_true test) (λ x. true) false xs ∷ [])
        × Settled
            (receive_all (every_data test) every_end (chunks xs ++ (eof ∷ [])) (fresh Bool false))
            (first_hit (is_false test) (λ x. false) true xs ∷ [])
        × Settled
            (receive_all
              (find_data test)
              find_end
              (chunks xs ++ (eof ∷ []))
              (fresh (Option A) false))
            (first_hit (is_true test) some none xs ∷ [])
        × Settled
            (receive_all (reduce_data fn) reduce_end (chunks xs ++ (eof ∷ [])) (fresh (Option A) a))
            (reduced fn a xs ∷ [])
  promises-receive_all test fn a xs = (
    look_from (is_true test) (λ x. true) false false xs [],
    look_from (is_false test) (λ x. false) true false xs [],
    look_from (is_true test) some none false xs [],
    (reduced fn a xs, reduce_from fn a xs []),
  )
