-- ===== src/Buffer/Copy/Copied.antt =====
-- What copy leaves in the target.
use zane.Base.{
  ℕ, ◌+◌, ◌-◌, ◌%◌, ◌^◌, ◌≤◌, ◌<◌, ◌≡◌, refl, min, List, [], ◌∷◌, length, take, drop, length-take,
  length-drop, subst, arith, false, leb, ◌||◌,
}
use zane.Base.Int.{ℤ, pos, int32}
use zane.Buffer.{num, bytes, ok}
use zane.Buffer.Fixed.RoundTrip.{SameOutside}
use zane.Buffer.Convert.{splice}
use zane.Buffer.Convert.Write.{splice-SameOutside, splice_window}
use zane.Buffer.Copy.{copy, copy_length}

-- The target afterwards and the count as an int32_t, where the source range starts inside the source.
abbrev pub Copied : List ℕ → List ℕ → ℕ → ℕ → ℕ → List ℕ × ℤ → Type 0
Copied self target target_start source_start source_end (d, count) =
    let n = min (source_end - source_start) (length target - target_start) in
    (count ≡ int32 (pos n))
    × SameOutside n target target_start d
    × (take n (drop target_start d) ≡ take n (drop source_start self))

module _ (self target : List ℕ) (ts ss n : ℕ) (source_room : ss + n ≤ length self)
    (target_room : ts + n ≤ length target) where
  part : length (take n (drop ss self)) ≡ n
  part = omega (arith, length-take n (drop ss self), length-drop ss self)

  spliced :
      SameOutside n target ts (splice target ts (take n (drop ss self)))
      × (take n (drop ts (splice target ts (take n (drop ss self)))) ≡ take n (drop ss self))
  spliced =
      let bs = take n (drop ss self) in
      let fits : ts + length bs ≤ length target = rw part target_room in
      (
        subst (λ m. SameOutside m target ts (splice target ts bs)) part
            (splice-SameOutside target bs ts fits),
        subst (λ m. take m (drop ts (splice target ts bs)) ≡ bs) part
            (splice_window target bs ts fits),
      )

-- A copy whose ranges start inside the two views and whose source range is in order and ends inside
-- the source moves as many bytes as the source range and the target have room for, in their order,
-- changes no other byte of the target, and returns their number cast to int32_t.
pub copy-Copied :
    (self target : List ℕ) (ts ss se : ℕ)
    → length self < 2 ^ 53
    → length target < 2 ^ 53
    → ts < length target
    → ss < length self
    → ss ≤ se
    → se ≤ length self
    → (r : List ℕ × ℤ) × (copy self (bytes target ∷ num (pos ts) ∷ num (pos ss) ∷ num (pos se) ∷ [])
        ≡ ok r)
      × Copied self target ts ss se r
unfolding copy
copy-Copied self target ts ss se small_self small_target t s o e =
    let n = copy_length (length self) (length target) ts ss se in
    let count : n ≡ min (se - ss) (length target - ts) = omega arith in
    let m = min (se - ss) (length target - ts) in
    let part = spliced self target ts ss m (omega arith) (omega arith) in
    let keep_ts : ts % 2 ^ 64 ≡ ts = omega arith in
    let keep_ss : ss % 2 ^ 64 ≡ ss = omega arith in
    let keep_se : se % 2 ^ 64 ≡ se = omega arith in
    let inside : (leb (length self) ss || leb (length target) ts) ≡ false = ground arith in
    (
      (splice target ts (take m (drop ss self)), int32 (pos m)),
      rw (keep_ts, keep_ss, keep_se, inside, count) refl,
      (refl, part.0, part.1),
    )

-- With a source end in front of the source start the difference of the two wraps: `copy` then does
-- what it does without a source end, and copies up to the end of the source.
pub copy_reversed :
    (self target : List ℕ) (ts ss se : ℕ)
    → length self < 2 ^ 53
    → ss < length self
    → se < ss
    → copy self (bytes target ∷ num (pos ts) ∷ num (pos ss) ∷ num (pos se) ∷ [])
      ≡ copy self (bytes target ∷ num (pos ts) ∷ num (pos ss) ∷ [])
unfolding copy
copy_reversed self target ts ss se small s r =
    let keep_ss : ss % 2 ^ 64 ≡ ss = omega arith in
    let keep_se : se % 2 ^ 64 ≡ se = omega arith in
    let t = ts % 2 ^ 64 in
    let whole : copy_length (length self) (length target) t ss se
        ≡ copy_length (length self) (length target) t ss (length self) =
      omega arith in
    rw (keep_ss, keep_se, whole) refl
