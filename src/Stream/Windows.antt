-- ===== src/Stream/Windows.antt =====
-- src/module/node/stream/stream.cpp: filter, drop and take are the functions of lists.
use zane.Base.{
  append_assoc, ℕ, ◌-◌, ◌≤◌, ◌≡◌, refl, ap, ◌∙◌, Bool, true, false, Option, some, none, List, [],
  ◌∷◌, ◌++◌, length, take, drop, arith,
}
use zane.Base.Int.{ℤ, pos, negsuc, pos_part, int32}
use zane.Stream.{
  Signal, chunk, eof, chunks, when, receive_all, filter_data, filter_end, drop_data, drop_chunk,
  drop_end, take_data, take_chunk, take_end, int32_max,
}
use zane.Stream.Outputs.{sent, open_with}
use zane.Stream.Drop.{drop_from}
use zane.Stream.Take.{take_from}

module _ {A : Type 0} where
  abbrev pub if_true : Option Bool → A → List A → List A
  if_true none x xs = xs
  if_true (some true) x xs = x ∷ xs
  if_true (some false) x xs = xs

  -- The chunks that a test accepts.
  abbrev pub accepted : (A → Option Bool) → List A → List A
  accepted test [] = []
  accepted test (x ∷ xs) = if_true (test x) x (accepted test xs)

  when-chunks :
      (o : Option Bool) (x : A) (ys : List A) (e : List (Signal A))
      → when o (chunk x ∷ []) ++ (chunks ys ++ e) ≡ chunks (if_true o x ys) ++ e
  when-chunks none x ys e = refl
  when-chunks (some false) x ys e = refl
  when-chunks (some true) x ys e = refl

  filter_from :
      (test : A → Option Bool) (xs : List A) (out : List (Signal A))
      → receive_all (filter_data test) filter_end (chunks xs ++ (eof ∷ [])) (open_with tt out)
        ≡ sent tt (out ++ (chunks (accepted test xs) ++ (eof ∷ [])))
  unfolding receive_all
  filter_from test [] out = refl
  filter_from test (x ∷ xs) out =
      let w = when (test x) (chunk x ∷ []) in
      filter_from test xs (out ++ w)
      ∙ ap (sent tt) (
          append_assoc out w (chunks (accepted test xs) ++ (eof ∷ []))
          ∙ ap (λ l. out ++ l) (when-chunks (test x) x (accepted test xs) (eof ∷ [])))

  -- A limit that is negative does what 0 does.
  drop_negative : (m : ℕ) → drop_chunk {A = A} (negsuc m) ≡ drop_chunk (pos 0)
  drop_negative m = λ i x count. at_count x count i
    where
      at_count : (x : A) (count : ℕ) → drop_chunk (negsuc m) x count ≡ drop_chunk (pos 0) x count
      at_count x count = ground arith

  take_negative : (m : ℕ) → take_chunk {A = A} (negsuc m) ≡ take_chunk (pos 0)
  take_negative m = λ i x v. at_vars x v i
    where
      at_vars : (x : A) (v : ℕ × Bool) → take_chunk (negsuc m) x v ≡ take_chunk (pos 0) x v
      at_vars x (count, true) = refl
      at_vars x (count, false) = ground arith

  drop_limit : (z : ℤ) → drop_chunk {A = A} z ≡ drop_chunk (pos (pos_part z))
  drop_limit (pos n) = refl
  drop_limit (negsuc m) = drop_negative m

  take_limit : (z : ℤ) → take_chunk {A = A} z ≡ take_chunk (pos (pos_part z))
  take_limit (pos n) = refl
  take_limit (negsuc m) = take_negative m

  -- On a source that gives the chunks xs, fewer than 2 ^ 31, and then ends: the stream that drop(z) makes
  -- gives the chunks after the first n, the one of take(z) the first n, where n is z cast to int32_t,
  -- or 0 where that is negative, and the one of filter those for which the function returns a true
  -- value; each keeps their order and then ends once.
  pub windows-receive_all :
      (z : ℤ) (test : A → Option Bool) (xs : List A)
      → length xs ≤ int32_max
      → ((v : ℕ) × (receive_all (drop_data z) drop_end (chunks xs ++ (eof ∷ [])) (open_with 0 [])
            ≡ sent v (chunks (drop (pos_part (int32 z)) xs) ++ (eof ∷ []))))
        × ((v : ℕ × Bool) × (receive_all
                (take_data z)
                take_end
                (chunks xs ++ (eof ∷ []))
                (open_with (0, false) [])
              ≡ sent v (chunks (take (pos_part (int32 z)) xs) ++ (eof ∷ []))))
        × (receive_all (filter_data test) filter_end (chunks xs ++ (eof ∷ [])) (open_with tt [])
            ≡ sent tt (chunks (accepted test xs) ++ (eof ∷ [])))
  windows-receive_all z test xs l =
      let n = pos_part (int32 z) in
      let same_n : n - 0 ≡ n = omega arith in
      let (v, d) = drop_from n xs 0 [] (omega arith) in
      let (w, t) = take_from n xs 0 [] (omega arith) in
      (
        (
          v,
          ap (λ f. receive_all f drop_end (chunks xs ++ (eof ∷ [])) (open_with 0 []))
                (drop_limit (int32 z))
              ∙ d
              ∙ ap (λ k. sent v (chunks (drop k xs) ++ (eof ∷ []))) same_n,
        ),
        (
          w,
          ap (λ f. receive_all f take_end (chunks xs ++ (eof ∷ [])) (open_with (0, false) []))
                (take_limit (int32 z))
              ∙ t
              ∙ ap (λ k. sent w (chunks (take k xs) ++ (eof ∷ []))) same_n,
        ),
        filter_from test xs [],
      )
