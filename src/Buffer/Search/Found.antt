-- ===== src/Buffer/Search/Found.antt =====
-- What the searches find.
use zane.Base.{
  ℕ, zero, suc, ◌+◌, ◌-◌, ◌≤◌, ◌<◌, ◌≡◌, refl, sym, ap, ◌∙◌, Bool, true, false, List, ◌∷◌, length,
  min, ltb, ◌⊎◌, inl, inr, arith, if◌then◌else◌, subst,
}
use zane.Base.Int.{ℤ, pos, negsuc, int32}
use zane.Buffer.{Value, num, bytes, str}
use zane.Buffer.Search.{
  matches, first_match, last_match, index_forward, index_reverse, first_place, last_place, index_of,
  last_index_of, rounds_from, smaller,
}

-- The smallest match in the range from lo up to hi, hi not included, or -1 where there is none.
abbrev pub FirstAt : List ℕ → List ℕ → ℕ → ℕ → ℤ → Type 0
FirstAt haystack needle lo hi (pos j) =
    (lo ≤ j)
    × (j < hi)
    × (matches haystack needle j ≡ true)
    × ((k : ℕ) → lo ≤ k → k < j → matches haystack needle k ≡ false)
FirstAt haystack needle lo hi (negsuc n) =
    (n ≡ 0) × ((k : ℕ) → lo ≤ k → k < hi → matches haystack needle k ≡ false)

-- The greatest match below hi, or -1 where there is none.
abbrev pub LastAt : List ℕ → List ℕ → ℕ → ℤ → Type 0
LastAt haystack needle hi (pos j) =
    (j < hi)
    × (matches haystack needle j ≡ true)
    × ((k : ℕ) → j < k → k < hi → matches haystack needle k ≡ false)
LastAt haystack needle hi (negsuc n) =
    (n ≡ 0) × ((k : ℕ) → k < hi → matches haystack needle k ≡ false)

le_cases : (i k : ℕ) → i ≤ k → (i ≡ k) ⊎ (i + 1 ≤ k)
le_cases zero zero h = inl refl
le_cases zero (suc k) h = inr (omega arith)
le_cases (suc i) zero h = absurd (omega arith)
le_cases (suc i) (suc k) h = elim (le_cases i k (omega arith)) [
  | inl e ↦ inl (ap suc e)
  | inr l ↦ inr (omega arith)
]

module _ (haystack needle : List ℕ) where
  None : ℕ → Type 0
  None k = matches haystack needle k ≡ false

  next : (i k : ℕ) → None i → i ≤ k → (i + 1 ≤ k → None k) → None k
  unfolding None
  next i k miss l rest = elim (le_cases i k l) [
    | inl e ↦ subst (λ x. matches haystack needle x ≡ false) e miss
    | inr g ↦ rest g
  ]

  -- A range that starts one earlier, at a place without a match.
  earlier :
      (i hi : ℕ) (r : ℤ)
      → matches haystack needle i ≡ false
      → FirstAt haystack needle (i + 1) hi r
      → FirstAt haystack needle i hi r
  unfolding None
  earlier i hi (pos j) miss (a, b, m, before) =
      (omega arith, b, m, λ k l u. next i k miss l (λ g. before k g u))
  earlier i hi (negsuc n) miss (z, before) = (z, λ k l u. next i k miss l (λ g. before k g u))

  first_step :
      (b : Bool) (i hi : ℕ) (r : ℤ)
      → matches haystack needle i ≡ b
      → i < hi
      → FirstAt haystack needle (i + 1) hi r
      → FirstAt haystack needle i hi (if b then pos i else r)
  first_step true i hi r e l more = (omega arith, l, e, λ k g u. absurd (omega arith))
  first_step false i hi r e l more = earlier i hi r e more

  first_match-FirstAt :
      (i rounds hi : ℕ)
      → rounds ≡ hi - i
      → FirstAt haystack needle i hi (first_match haystack needle i rounds)
  unfolding first_match
  first_match-FirstAt i zero hi h = (refl, λ k l u. absurd (omega arith))
  first_match-FirstAt i (suc rounds) hi h =
      first_step _ i hi _ refl (omega arith) (first_match-FirstAt (i + 1) rounds hi (omega arith))

  below : (i k : ℕ) → None i → k < suc i → (k < i → None k) → None k
  unfolding None
  below i k miss u rest = elim (le_cases k i (omega arith)) [
    | inl f ↦ subst (λ x. matches haystack needle x ≡ false) (sym f) miss
    | inr g ↦ rest (omega arith)
  ]

  -- A range of matches below hi that ends one later, at a place without a match.
  last_step :
      (b : Bool) (i : ℕ) (r : ℤ)
      → matches haystack needle i ≡ b
      → LastAt haystack needle i r
      → LastAt haystack needle (suc i) (if b then pos i else r)
  unfolding None
  last_step true i r e more = (omega arith, e, λ k l u. absurd (omega arith))
  last_step false i (pos j) e (l, m, above) =
      (omega arith, m, λ k g u. below i k e u (λ v. above k g v))
  last_step false i (negsuc n) e (z, above) = (z, λ k u. below i k e u (λ v. above k v))

  last_match-LastAt : (i : ℕ) → LastAt haystack needle i (last_match haystack needle i)
  unfolding last_match
  last_match-LastAt zero = (refl, λ k u. absurd (omega arith))
  last_match-LastAt (suc i) = last_step _ i _ refl (last_match-LastAt i)

forward-FirstAt :
    (b : Bool) (haystack needle : List ℕ) (off : ℕ)
    → ltb (length haystack) (length needle) ≡ b
    → FirstAt haystack needle off (length haystack + 1 - length needle) (
        if b
        then negsuc 0
        else first_match haystack needle off (length haystack - length needle + 1 - off))
forward-FirstAt true haystack needle off e = (refl, λ k l u. absurd (ground arith))
forward-FirstAt false haystack needle off e =
    first_match-FirstAt haystack needle off _ _ (ground arith)

-- A place as an int32_t, which keeps -1 and the places below 2 ^ 31.
abbrev pub FirstFound : List ℕ → List ℕ → ℕ → ℤ → Type 0
FirstFound haystack needle off r =
    (place : ℤ) × FirstAt haystack needle off (length haystack + 1 - length needle) place
    × (r ≡ int32 place)

-- indexOf of a text or a Uint8Array that is not empty, from an offset that is not negative, gives the
-- smallest place from the offset on where the view has those bytes, cast to int32_t, or -1 where it
-- has them nowhere.
pub index_of-FirstAt :
    (data' needle : List ℕ) (x off : ℕ) (rest : List Value)
    → FirstFound data' (x ∷ needle) off (index_of data' (bytes (x ∷ needle) ∷ num (pos off) ∷ rest))
      × FirstFound data' (x ∷ needle) off (index_of data' (str (x ∷ needle) ∷ num (pos off) ∷ rest))
unfolding index_of first_place index_forward
index_of-FirstAt data' needle x off rest =
    let found = forward-FirstAt _ data' (x ∷ needle) off refl in
    ((_, found, refl), (_, found, refl))

rounds_lem : (off top : ℕ) → rounds_from (smaller (pos off) (pos top)) ≡ min (off + 1) (top + 1)
rounds_lem off top = ground arith

reverse-LastAt :
    (b : Bool) (haystack needle : List ℕ) (off : ℕ)
    → ltb (length haystack) (length needle) ≡ b
    → LastAt haystack needle (min (off + 1) (length haystack + 1 - length needle)) (
        if b
        then negsuc 0
        else last_match haystack needle
            (rounds_from (smaller (pos off) (pos (length haystack - length needle)))))
reverse-LastAt true haystack needle off e = (refl, λ k u. absurd (ground arith))
reverse-LastAt false haystack needle off e =
    let top = length haystack - length needle in
    let ends : rounds_from (smaller (pos off) (pos top))
        ≡ min (off + 1) (length haystack + 1 - length needle) =
      rounds_lem off top ∙ ground arith in
    subst
      (λ m.
        LastAt haystack needle (min (off + 1) (length haystack + 1 - length needle))
          (last_match haystack needle m))
      (sym ends) (last_match-LastAt haystack needle _)

-- lastIndexOf of a text or a Uint8Array that is not empty, from an offset that is not negative, gives
-- the greatest place up to the offset where the view has those bytes, cast to int32_t, or -1 where it
-- has them nowhere.
pub last_index_of-LastAt :
    (data' needle : List ℕ) (x off : ℕ) (rest : List Value)
    → let hi = min (off + 1) (length data' + 1 - length (x ∷ needle)) in
      ((place : ℤ) × LastAt data' (x ∷ needle) hi place
        × (last_index_of data' (bytes (x ∷ needle) ∷ num (pos off) ∷ rest) ≡ int32 place))
      × ((place : ℤ) × LastAt data' (x ∷ needle) hi place
          × (last_index_of data' (str (x ∷ needle) ∷ num (pos off) ∷ rest) ≡ int32 place))
unfolding last_index_of last_place index_reverse
last_index_of-LastAt data' needle x off rest =
    let found = reverse-LastAt _ data' (x ∷ needle) off refl in ((_, found, refl), (_, found, refl))
