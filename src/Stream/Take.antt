-- ===== src/Stream/Take.antt =====
-- src/module/node/stream/stream.cpp: take is the function of lists.
use zane.Base.{
  append_assoc, append_nil, ℕ, zero, suc, ◌+◌, ◌-◌, ◌≤◌, ◌<◌, ◌≡◌, refl, sym, ap, ◌∙◌, Bool, true,
  false, List, [], ◌∷◌, ◌++◌, ◌==◌, inl, inr, Bool-cases, ltb, length, take, arith,
}
use zane.Base.Int.{pos}
use zane.Buffer.{Outcome, ok}
use zane.Stream.{
  Signal, chunk, eof, chunks, Operator, went_on, receive_all, take_chunk, take_end, int32_max,
}
use zane.Stream.Outputs.{sent, open_with}

module _ {A : Type 0} where
  take_nil : (k : ℕ) → take {A = A} k [] ≡ []
  take_nil zero = refl
  take_nil (suc k) = refl

  -- After its last chunk the new stream of take gets nothing more.
  ended_from :
      (n count : ℕ) (xs : List A) (out : List (Signal A))
      → (v : ℕ × Bool) × (receive_all
            (take_chunk (pos n))
            take_end
            (chunks xs ++ (eof ∷ []))
            (open_with (count, true) out)
          ≡ sent v out)
  unfolding receive_all
  ended_from n count [] out = (_, ap (sent (count, true)) (append_nil out))
  ended_from n count (x ∷ xs) out =
      let (v, e) = ended_from n count xs (out ++ []) in (v, e ∙ ap (sent v) (append_nil out))

  -- The listener of take below its limit, at it and past it.
  abbrev take_on :
      ℕ
      → List A
      → Outcome ((ℕ × Bool) × List (Signal A))
      → List (Signal A)
      → ℕ
      → Outcome (Operator (ℕ × Bool) (Signal A))
  take_on n xs r out count =
      receive_all (take_chunk (pos n)) take_end (chunks xs ++ (eof ∷ []))
        (went_on (record { vars = (count, false); freed = false; out = out }) r)

  -- What take makes of the chunks that follow.
  abbrev Taken : ℕ → List A → ℕ → List (Signal A) → Type 0
  Taken n xs count out =
      (v : ℕ × Bool) × (receive_all (take_chunk (pos n)) take_end (chunks xs ++ (eof ∷ []))
          (open_with (count, false) out)
        ≡ sent v (out ++ (chunks (take (n - count) xs) ++ (eof ∷ []))))

  take_past :
      (n : ℕ) (x : A) (xs : List A) (count : ℕ) (out : List (Signal A))
      → count < int32_max
      → n < count + 1
      → Taken n xs (count + 1) (out ++ [])
      → Taken n (x ∷ xs) count out
  unfolding receive_all
  take_past n x xs count out l h (v, e) =
      let s : take_chunk (pos n) x (count, false) ≡ ok ((count + 1, false), []) = ground arith in
      let y : n - (count + 1) ≡ 0 = omega arith in
      let z : n - count ≡ 0 = omega arith in
      (
        v,
        ap (λ r. take_on n xs r out count) s
            ∙ e
            ∙ ap (sent v) (
                append_assoc out [] (chunks (take (n - (count + 1)) xs) ++ (eof ∷ []))
                ∙ ap (λ k. out ++ (chunks (take k xs) ++ (eof ∷ []))) y
                ∙ sym (ap (λ k. out ++ (chunks (take k (x ∷ xs)) ++ (eof ∷ []))) z)),
      )

  take_last :
      (n : ℕ) (x : A) (xs : List A) (count : ℕ) (out : List (Signal A))
      → count < int32_max
      → n ≡ count + 1
      → Taken n (x ∷ xs) count out
  unfolding receive_all
  take_last n x xs count out l h =
      let s : take_chunk (pos n) x (count, false) ≡ ok ((count + 1, true), chunk x ∷ eof ∷ []) =
        ground arith in
      let z : n - count ≡ 1 = omega arith in
      let (v, e) = ended_from n (count + 1) xs (out ++ (chunk x ∷ eof ∷ [])) in
      (
        v,
        ap (λ r. take_on n xs r out count) s
            ∙ e
            ∙ ap (sent v) (sym (ap (λ k. out ++ (chunks (take k (x ∷ xs)) ++ (eof ∷ []))) z)),
      )

  take_below :
      (n : ℕ) (x : A) (xs : List A) (count : ℕ) (out : List (Signal A))
      → count < int32_max
      → count + 1 < n
      → Taken n xs (count + 1) (out ++ (chunk x ∷ []))
      → Taken n (x ∷ xs) count out
  unfolding receive_all
  take_below n x xs count out l h (v, e) =
      let s : take_chunk (pos n) x (count, false) ≡ ok ((count + 1, false), chunk x ∷ []) =
        ground arith in
      let z : n - count ≡ suc (n - (count + 1)) = omega arith in
      (
        v,
        ap (λ r. take_on n xs r out count) s
            ∙ e
            ∙ ap (sent v) (
                append_assoc out (chunk x ∷ []) (chunks (take (n - (count + 1)) xs) ++ (eof ∷ []))
                ∙ sym (ap (λ k. out ++ (chunks (take k (x ∷ xs)) ++ (eof ∷ []))) z)),
      )

  pub take_from :
      (n : ℕ) (xs : List A) (count : ℕ) (out : List (Signal A))
      → count + length xs ≤ int32_max
      → Taken n xs count out
  unfolding receive_all
  take_from n [] count out l = (
    (count, false),
    ap (λ ys. sent (count, false) (out ++ (chunks ys ++ (eof ∷ [])))) (sym (take_nil (n - count))),
  )
  take_from n (x ∷ xs) count out l = elim (Bool-cases (ltb n (count + 1))) [
    | inl h ↦
        take_past n x xs count out (omega arith) (ground arith)
          (take_from n xs (count + 1) (out ++ []) (omega arith))
    | inr h ↦ elim (Bool-cases (n == count + 1)) [
      | inl g ↦ take_last n x xs count out (omega arith) (ground arith)
      | inr g ↦
          take_below n x xs count out (omega arith) (ground arith)
            (take_from n xs (count + 1) (out ++ (chunk x ∷ [])) (omega arith))
    ]
  ]
