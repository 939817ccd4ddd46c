-- ===== src/Buffer/Window.antt =====
-- A view split at the place of an access: `pre ++ bs ++ post`, with `length pre` the offset.
use zane.Base.{
  ℕ, zero, suc, ◌+◌, ◌%◌, ◌^◌, ◌≤◌, ◌<◌, ◌≡◌, refl, sym, ap, ◌∙◌, true, some, List, [], ◌∷◌, ◌++◌,
  length, get_elem?, set, take, drop, length-append, length-take, length-drop, ltb, lt→ltb, arith,
}
use mathlib.Core.List.{append_assoc}
use zane.Buffer.{ok, throws, range_error, at, put, check_offset}

module _ {ℓ} {A : Type ℓ} where
  get_elem?-middle :
      (pre : List A) (b : A) (post : List A) → get_elem? (pre ++ (b ∷ post)) (length pre) ≡ some b
  get_elem?-middle [] b post = refl
  get_elem?-middle (x ∷ pre) b post = get_elem?-middle pre b post

  set-middle :
      (pre : List A) (b : A) (post : List A) (v : A)
      → set (pre ++ (b ∷ post)) (length pre) v ≡ pre ++ (v ∷ post)
  set-middle [] b post v = refl
  set-middle (x ∷ pre) b post v = ap (◌∷◌ x) (set-middle pre b post v)

  pub take-append : (pre rest : List A) → take (length pre) (pre ++ rest) ≡ pre
  take-append [] rest = refl
  take-append (x ∷ pre) rest = ap (◌∷◌ x) (take-append pre rest)

  pub drop-append : (pre rest : List A) → drop (length pre) (pre ++ rest) ≡ rest
  drop-append [] rest = refl
  drop-append (x ∷ pre) rest = drop-append pre rest

  pub take-append-drop : (n : ℕ) (xs : List A) → take n xs ++ drop n xs ≡ xs
  take-append-drop zero xs = refl
  take-append-drop (suc n) [] = refl
  take-append-drop (suc n) (x ∷ xs) = ap (◌∷◌ x) (take-append-drop n xs)

  -- Any view is the bytes before an access of n bytes at `off`, those bytes, and the rest.
  pub split_at :
      (xs : List A) (off n : ℕ)
      → off + n ≤ length xs
      → (pre : List A) × (bs : List A) × (post : List A) × (xs ≡ pre ++ (bs ++ post))
        × (length pre ≡ off)
        × (length bs ≡ n)
  split_at xs off n h = (
    take off xs,
    take n (drop off xs),
    drop n (drop off xs),
    sym (ap (◌++◌ (take off xs)) (take-append-drop n (drop off xs)) ∙ take-append-drop off xs),
    omega (arith, length-take off xs),
    omega (arith, length-take n (drop off xs), length-drop off xs),
  )

  -- A list that is not empty ends in an element.
  pub split_last :
      (xs : List A) (n : ℕ)
      → length xs ≡ suc n
      → (front : List A) × (x : A) × (xs ≡ front ++ (x ∷ [])) × (length front ≡ n)
  split_last [] n h = absurd (omega arith)
  split_last (x ∷ []) n h = ([], x, refl, omega arith)
  split_last (x ∷ y ∷ xs) zero h = absurd (omega arith)
  split_last (x ∷ y ∷ xs) (suc n) h =
      let (front, z, e, l) = split_last (y ∷ xs) n (omega arith) in
      (x ∷ front, z, ap (◌∷◌ x) e, omega arith)

pub at-middle :
    (pre : List ℕ) (b : ℕ) (post : List ℕ) (off i : ℕ)
    → off + i ≡ length pre
    → length pre < 2 ^ 64
    → at (pre ++ (b ∷ post)) off i ≡ ok b
unfolding at
at-middle pre b post off i e h =
    let wrap : (off + i) % 2 ^ 64 ≡ length pre = omega arith in
    rw (wrap, get_elem?-middle pre b post)

pub put-middle :
    (pre : List ℕ) (b : ℕ) (post : List ℕ) (off i v : ℕ)
    → off + i ≡ length pre
    → length pre < 2 ^ 64
    → put (pre ++ (b ∷ post)) off i v ≡ ok (pre ++ (v ∷ post))
unfolding put
put-middle pre b post off i v e h =
    let wrap : (off + i) % 2 ^ 64 ≡ length pre = omega arith in
    let fits : ltb (length pre) (length (pre ++ (b ∷ post))) ≡ true =
      lt→ltb _ _ (omega (arith, length-append pre (b ∷ post))) in
    rw (wrap, fits, set-middle pre b post v)

-- CHECK_OFFSET where the sum of offset and size does not wrap.
pub check_offset_fits :
    (off n len : ℕ) → off + n ≤ len → len < 2 ^ 64 → check_offset off n len ≡ ok tt
unfolding check_offset
check_offset_fits off n len h k = ground arith

pub check_offset_outside :
    (off n len : ℕ) → len < off + n → off + n < 2 ^ 64 → check_offset off n len ≡ throws range_error
unfolding check_offset
check_offset_outside off n len h k = ground arith

-- The same at the i-th byte of the window: `s` is what the window holds before it.
module _ (pre s : List ℕ) (b : ℕ) (post : List ℕ) (off i : ℕ) (start : length pre ≡ off)
    (place : length s ≡ i) (small : off + i < 2 ^ 64) where
  pub at-window : at (pre ++ (s ++ (b ∷ post))) off i ≡ ok b
  at-window = rw (← append_assoc pre s (b ∷ post)) (
      at-middle (pre ++ s) b post off i (omega (arith, length-append pre s))
        (omega (arith, length-append pre s)))

  pub put-window : (v : ℕ) → put (pre ++ (s ++ (b ∷ post))) off i v ≡ ok (pre ++ (s ++ (v ∷ post)))
  put-window v =
      rw (← append_assoc pre s (b ∷ post), ← append_assoc pre s (v ∷ post))
        (put-middle (pre ++ s) b post off i v (omega (arith, length-append pre s))
          (omega (arith, length-append pre s)))
