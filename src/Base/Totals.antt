-- ===== src/Base/Totals.antt =====
-- Sums over a list, and how they change with one element.
use zane.Base.{
  ℕ, zero, suc, ◌+◌, ◌≡◌, ap, some, List, [], ◌∷◌, ◌++◌, ◌==◌, if◌then◌else◌, get_elem?, set, arith,
}

module _ {A : Type 0} where
  abbrev pub total : (A → ℕ) → List A → ℕ
  total f [] = 0
  total f (x ∷ xs) = f x + total f xs

  pub total-append : (f : A → ℕ) (xs ys : List A) → total f (xs ++ ys) ≡ total f xs + total f ys
  total-append f [] ys = omega arith
  total-append f (x ∷ xs) ys = omega (arith, total-append f xs ys)

  -- One element of the list changes.
  pub total-set :
      (f : A → ℕ) (xs : List A) (i : ℕ) (x y : A)
      → get_elem? xs i ≡ some x
      → total f (set xs i y) + f x ≡ total f xs + f y
  total-set f [] i x y e = ground arith
  total-set f (z ∷ xs) zero x y e = ground (arith, ap f)
  total-set f (z ∷ xs) (suc i) x y e = omega (arith, total-set f xs i x y e)

abbrev pub occurrences : ℕ → List ℕ → ℕ
occurrences x ts = total (λ t. if t == x then 1 else 0) ts
