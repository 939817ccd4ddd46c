-- ===== src/Stream/Drop.antt =====
-- src/module/node/stream/stream.cpp: drop is the function of lists.
use zane.Base.{
  append_assoc, ℕ, zero, suc, ◌+◌, ◌-◌, ◌≤◌, ◌<◌, ◌≡◌, refl, sym, ap, ◌∙◌, false, List, [], ◌∷◌,
  ◌++◌, inl, inr, Bool-cases, ltb, length, drop, if◌then◌else◌, arith,
}
use zane.Base.Int.{pos}
use zane.Buffer.{ok}
use zane.Stream.{Signal, chunk, eof, chunks, went_on, receive_all, drop_chunk, drop_end, int32_max}
use zane.Stream.Outputs.{sent, open_with}

module _ {A : Type 0} where
  abbrev counted : ℕ → ℕ → A → List (Signal A)
  counted n count x = if ltb n (count + 1) then chunk x ∷ [] else []

  drop_step :
      (n : ℕ) (x : A) (count : ℕ)
      → count < int32_max
      → drop_chunk (pos n) x count ≡ ok (count + 1, counted n count x)
  drop_step n x count l = ground arith

  drop-counted :
      (n count : ℕ) (x : A) (xs : List A) (e : List (Signal A))
      → counted n count x ++ (chunks (drop (n - (count + 1)) xs) ++ e)
        ≡ chunks (drop (n - count) (x ∷ xs)) ++ e
  drop-counted n count x xs e = elim (Bool-cases (ltb n (count + 1))) [
    | inl h ↦
        let y : n - (count + 1) ≡ 0 = ground arith in
        let z : n - count ≡ 0 = ground arith in
        ap (λ b. (if b then chunk x ∷ [] else []) ++ (chunks (drop (n - (count + 1)) xs) ++ e)) h
        ∙ ap (λ k. chunk x ∷ (chunks (drop k xs) ++ e)) y
        ∙ sym (ap (λ k. chunks (drop k (x ∷ xs)) ++ e) z)
    | inr h ↦
        let z : n - count ≡ suc (n - (count + 1)) = ground arith in
        ap (λ b. (if b then chunk x ∷ [] else []) ++ (chunks (drop (n - (count + 1)) xs) ++ e)) h
        ∙ sym (ap (λ k. chunks (drop k (x ∷ xs)) ++ e) z)
  ]

  drop_nil : (k : ℕ) → drop {A = A} k [] ≡ []
  drop_nil zero = refl
  drop_nil (suc k) = refl

  pub drop_from :
      (n : ℕ) (xs : List A) (count : ℕ) (out : List (Signal A))
      → count + length xs ≤ int32_max
      → (v : ℕ) × (receive_all
            (drop_chunk (pos n))
            drop_end
            (chunks xs ++ (eof ∷ []))
            (open_with count out)
          ≡ sent v (out ++ (chunks (drop (n - count) xs) ++ (eof ∷ []))))
  unfolding receive_all
  drop_from n [] count out l =
      (count, ap (λ ys. sent count (out ++ (chunks ys ++ (eof ∷ [])))) (sym (drop_nil (n - count))))
  drop_from n (x ∷ xs) count out l =
      let w = counted n count x in
      let (v, e) = drop_from n xs (count + 1) (out ++ w) (omega arith) in
      (
        v,
        ap
              (λ r.
                receive_all (drop_chunk (pos n)) drop_end (chunks xs ++ (eof ∷ []))
                  (went_on (record { vars = count; freed = false; out = out }) r))
              (drop_step n x count (omega arith))
            ∙ e
            ∙ ap (sent v) (
                append_assoc out w (chunks (drop (n - (count + 1)) xs) ++ (eof ∷ []))
                ∙ ap (λ l. out ++ l) (drop-counted n count x xs (eof ∷ []))),
      )
