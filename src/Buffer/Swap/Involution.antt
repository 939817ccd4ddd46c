-- ===== src/Buffer/Swap/Involution.antt =====
-- Swapping twice, and what one swap does to each group.
use zane.Base.{
  ℕ, zero, suc, ◌*◌, ◌%◌, ◌/◌, ◌≡◌, refl, ap, ◌∙◌, List, [], ◌∷◌, length, ◌==◌, not, true, false,
  sym, ◌⊎◌, inl, inr, ==_iff, Bool-cases, if◌then◌else◌, arith,
}
use zane.Buffer.{ok, throws, range_error, ◌>>=◌, Outcome}
use zane.Buffer.Swap.{swap_pairs, swap_fours, swap_eights, swap16, swap32, swap64}

-- A reversal of whole groups of `size` bytes: it keeps the length, and is its own inverse.
abbrev Reverses : ℕ → (List ℕ → List ℕ) → Type 0
Reverses size swap =
    (k : ℕ) (d : List ℕ) → length d ≡ k * size → (length (swap d) ≡ length d) × (swap (swap d) ≡ d)

pairs : Reverses 2 swap_pairs
unfolding swap_pairs
pairs zero [] i = (refl, refl)
pairs zero (a ∷ r) i = absurd (omega arith)
pairs (suc k) [] i = absurd (omega arith)
pairs (suc k) (a ∷ []) i = absurd (omega arith)
pairs (suc k) (a ∷ b ∷ r) i =
    let (l, e) = pairs k r (omega arith) in (omega arith, ap (λ t. a ∷ b ∷ t) e)

fours : Reverses 4 swap_fours
unfolding swap_fours
fours zero [] i = (refl, refl)
fours zero (a ∷ r) i = absurd (omega arith)
fours (suc k) [] i = absurd (omega arith)
fours (suc k) (a ∷ []) i = absurd (omega arith)
fours (suc k) (a ∷ b ∷ []) i = absurd (omega arith)
fours (suc k) (a ∷ b ∷ c ∷ []) i = absurd (omega arith)
fours (suc k) (a ∷ b ∷ c ∷ d ∷ r) i =
    let (l, e) = fours k r (omega arith) in (omega arith, ap (λ t. a ∷ b ∷ c ∷ d ∷ t) e)

eights : Reverses 8 swap_eights
unfolding swap_eights
eights zero [] i = (refl, refl)
eights zero (a ∷ r) i = absurd (omega arith)
eights (suc k) [] i = absurd (omega arith)
eights (suc k) (a ∷ []) i = absurd (omega arith)
eights (suc k) (a ∷ b ∷ []) i = absurd (omega arith)
eights (suc k) (a ∷ b ∷ c ∷ []) i = absurd (omega arith)
eights (suc k) (a ∷ b ∷ c ∷ d ∷ []) i = absurd (omega arith)
eights (suc k) (a ∷ b ∷ c ∷ d ∷ e ∷ []) i = absurd (omega arith)
eights (suc k) (a ∷ b ∷ c ∷ d ∷ e ∷ f ∷ []) i = absurd (omega arith)
eights (suc k) (a ∷ b ∷ c ∷ d ∷ e ∷ f ∷ g ∷ []) i = absurd (omega arith)
eights (suc k) (a ∷ b ∷ c ∷ d ∷ e ∷ f ∷ g ∷ h ∷ r) i =
    let (l, same) = eights k r (omega arith) in
    (omega arith, ap (λ t. a ∷ b ∷ c ∷ d ∷ e ∷ f ∷ g ∷ h ∷ t) same)

-- A length check in front of a reversal of groups: twice is the identity.
checked :
    (size : ℕ) (swap : List ℕ → List ℕ) (d : List ℕ) (f : List ℕ → Outcome (List ℕ))
    → ((e : List ℕ)
        → f e ≡ (if not (length e % size == 0) then throws range_error else ok (swap e)))
    → (length (swap d) ≡ length d) × (swap (swap d) ≡ d)
    → length d % size ≡ 0
    → (f d >>= f) ≡ ok d
checked size swap d f def (l, e) h = rw (def d, h) (rw (def (swap d), l, h, e) refl)

-- Swapping the bytes of each group of 2, 4 or 8 twice gives the view back, where its length is a
-- multiple of the group's size; otherwise the swap throws a RangeError.
pub swap-Involution :
    (d : List ℕ)
    → ((swap16 d >>= swap16) ≡ (if length d % 2 == 0 then ok d else throws range_error))
      × ((swap32 d >>= swap32) ≡ (if length d % 4 == 0 then ok d else throws range_error))
      × ((swap64 d >>= swap64) ≡ (if length d % 8 == 0 then ok d else throws range_error))
swap-Involution d = (by16 (Bool-cases _), by32 (Bool-cases _), by64 (Bool-cases _))
  where
    by16 :
        ((length d % 2 == 0) ≡ true) ⊎ ((length d % 2 == 0) ≡ false)
        → (swap16 d >>= swap16) ≡ (if length d % 2 == 0 then ok d else throws range_error)
    by16 (inl y) =
        let m : length d % 2 ≡ 0 = (==_iff (length d % 2) 0).0 y in
        checked 2 swap_pairs d swap16 (λ e. unfold swap16 in refl)
          (pairs (length d / 2) d (omega (arith, m))) m
        ∙ sym (rw y refl)
    by16 (inr n) = unfold swap16 in rw n refl

    by32 :
        ((length d % 4 == 0) ≡ true) ⊎ ((length d % 4 == 0) ≡ false)
        → (swap32 d >>= swap32) ≡ (if length d % 4 == 0 then ok d else throws range_error)
    by32 (inl y) =
        let m : length d % 4 ≡ 0 = (==_iff (length d % 4) 0).0 y in
        checked 4 swap_fours d swap32 (λ e. unfold swap32 in refl)
          (fours (length d / 4) d (omega (arith, m))) m
        ∙ sym (rw y refl)
    by32 (inr n) = unfold swap32 in rw n refl

    by64 :
        ((length d % 8 == 0) ≡ true) ⊎ ((length d % 8 == 0) ≡ false)
        → (swap64 d >>= swap64) ≡ (if length d % 8 == 0 then ok d else throws range_error)
    by64 (inl y) =
        let m : length d % 8 ≡ 0 = (==_iff (length d % 8) 0).0 y in
        checked 8 swap_eights d swap64 (λ e. unfold swap64 in refl)
          (eights (length d / 8) d (omega (arith, m))) m
        ∙ sym (rw y refl)
    by64 (inr n) = unfold swap64 in rw n refl
