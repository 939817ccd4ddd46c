-- ===== src/Buffer/Compare/Order.antt =====
-- The order that compare decides, and what equals decides.
use zane.Base.{
  ℕ, zero, suc, ◌≡◌, refl, sym, ap, ◌∙◌, min, List, [], ◌∷◌, length, ltb, ◌==◌, arith, ◌↔◌, ==_refl,
  ==_iff, subst, Bool, true, false, if◌then◌else◌,
}
use zane.Base.Int.{ℤ, pos, negsuc}
use zane.Buffer.{Value, Outcome, throws, undef, ok, bytes}
use zane.Buffer.Compare.{memcmp, is_zero, by_length, or_length, compare_bytes, compare, equals}

-- The order of byte strings by clauses: the first bytes that differ decide, then the lengths.
abbrev pub lexicographic : List ℕ → List ℕ → ℤ
lexicographic [] [] = pos 0
lexicographic [] (y ∷ ys) = negsuc 0
lexicographic (x ∷ xs) [] = pos 1
lexicographic (x ∷ xs) (y ∷ ys) =
    let rest = lexicographic xs ys in if ltb x y then negsuc 0 else if ltb y x then pos 1 else rest

by_length-suc : (m n : ℕ) → by_length (suc m) (suc n) ≡ by_length m n
by_length-suc m n = ground arith

or_length-suc : (r : ℤ) (m n : ℕ) → or_length r (suc m) (suc n) ≡ or_length r m n
or_length-suc (pos zero) m n = by_length-suc m n
or_length-suc (pos (suc k)) m n = refl
or_length-suc (negsuc k) m n = refl

decided :
    (p q : Bool) (r : ℤ) (m n : ℕ)
    → or_length (if p then negsuc 0 else if q then pos 1 else r) (suc m) (suc n)
      ≡ (if p then negsuc 0 else if q then pos 1 else or_length r m n)
decided true q r m n = refl
decided false true r m n = refl
decided false false r m n = or_length-suc r m n

memcmp-lexicographic :
    (n : ℕ) (a b : List ℕ)
    → n ≡ min (length a) (length b)
    → or_length (memcmp n a b) (length a) (length b) ≡ lexicographic a b
unfolding memcmp
memcmp-lexicographic zero [] [] h = refl
memcmp-lexicographic zero [] (y ∷ ys) h = ground arith
memcmp-lexicographic zero (x ∷ xs) [] h = ground arith
memcmp-lexicographic zero (x ∷ xs) (y ∷ ys) h = absurd (omega arith)
memcmp-lexicographic (suc n) [] b h = absurd (omega arith)
memcmp-lexicographic (suc n) (x ∷ xs) [] h = absurd (omega arith)
memcmp-lexicographic (suc n) (x ∷ xs) (y ∷ ys) h =
    decided (ltb x y) (ltb y x) (memcmp n xs ys) (length xs) (length ys)
    ∙ rw (memcmp-lexicographic n xs ys (omega arith)) refl

compare_bytes-lexicographic : (a b : List ℕ) → compare_bytes a b ≡ lexicographic a b
unfolding compare_bytes
compare_bytes-lexicographic a b = memcmp-lexicographic _ a b refl

negated : ℤ → ℤ
negated (pos zero) = pos 0
negated (pos (suc n)) = negsuc n
negated (negsuc n) = pos (suc n)

lexicographic-zero : (a b : List ℕ) → lexicographic a b ≡ pos 0 → a ≡ b
lexicographic-zero [] [] h = refl
lexicographic-zero [] (y ∷ ys) h = cc
lexicographic-zero (x ∷ xs) [] h = cc
lexicographic-zero (x ∷ xs) (y ∷ ys) h = grind (arith, lexicographic-zero xs ys)

lexicographic_refl : (a : List ℕ) → lexicographic a a ≡ pos 0
lexicographic_refl [] = refl
lexicographic_refl (x ∷ xs) = ground (arith, lexicographic_refl xs)

lexicographic-swap : (a b : List ℕ) → lexicographic a b ≡ negsuc 0 → lexicographic b a ≡ pos 1
lexicographic-swap [] [] h = cc
lexicographic-swap [] (y ∷ ys) h = refl
lexicographic-swap (x ∷ xs) [] h = cc
lexicographic-swap (x ∷ xs) (y ∷ ys) h = ground (arith, lexicographic-swap xs ys)

lexicographic_trans :
    (a b c : List ℕ)
    → lexicographic a b ≡ negsuc 0
    → lexicographic b c ≡ negsuc 0
    → lexicographic a c ≡ negsuc 0
lexicographic_trans [] [] c h k = cc
lexicographic_trans [] (y ∷ ys) [] h k = cc
lexicographic_trans [] (y ∷ ys) (z ∷ zs) h k = refl
lexicographic_trans (x ∷ xs) [] c h k = cc
lexicographic_trans (x ∷ xs) (y ∷ ys) [] h k = cc
lexicographic_trans (x ∷ xs) (y ∷ ys) (z ∷ zs) h k = ground (arith, lexicographic_trans xs ys zs)

result : {A : Type 0} → A → Outcome A → A
result d (ok a) = a
result d (throws e) = d
result d undef = d

value_of : {A : Type 0} {a b : A} → ok a ≡ ok b → a ≡ b
unfolding result
value_of {a = a} h = ap (result a) h

-- compare of two Uint8Arrays is their lexicographic order by bytes: -1, 0 or 1.
pub compare-lexicographic :
    (a b : List ℕ) (rest : List Value) → compare (bytes a ∷ bytes b ∷ rest) ≡ ok (lexicographic a b)
unfolding compare
compare-lexicographic a b rest = ap ok (compare_bytes-lexicographic a b)

-- Where a is before b and b before c, compare puts a before c, and b behind a.
pub compare_trans :
    (a b c : List ℕ) (rest : List Value)
    → compare (bytes a ∷ bytes b ∷ rest) ≡ ok (negsuc 0)
    → compare (bytes b ∷ bytes c ∷ rest) ≡ ok (negsuc 0)
    → (compare (bytes a ∷ bytes c ∷ rest) ≡ ok (negsuc 0))
      × (compare (bytes b ∷ bytes a ∷ rest) ≡ ok (pos 1))
compare_trans a b c rest h k =
    let below : lexicographic a b ≡ negsuc 0 =
      value_of (sym (compare-lexicographic a b rest) ∙ h) in
    let above : lexicographic b c ≡ negsuc 0 =
      value_of (sym (compare-lexicographic b c rest) ∙ k) in
    (
      compare-lexicographic a c rest ∙ ap ok (lexicographic_trans a b c below above),
      compare-lexicographic b a rest ∙ ap ok (lexicographic-swap a b below),
    )

memcmp_self : (xs : List ℕ) → memcmp (length xs) xs xs ≡ pos 0
unfolding memcmp
memcmp_self [] = refl
memcmp_self (x ∷ xs) = ground (arith, memcmp_self xs)

memcmp-zero : (xs ys : List ℕ) → length xs ≡ length ys → memcmp (length xs) xs ys ≡ pos 0 → xs ≡ ys
unfolding memcmp
memcmp-zero [] [] h e = refl
memcmp-zero [] (y ∷ ys) h e = absurd (omega arith)
memcmp-zero (x ∷ xs) [] h e = absurd (omega arith)
memcmp-zero (x ∷ xs) (y ∷ ys) h e = grind (arith, memcmp-zero xs ys)

equals_self : (a : List ℕ) (rest : List Value) → equals a (bytes a ∷ rest) ≡ ok true
unfolding equals
equals_self a rest = rw (==_refl (length a), memcmp_self a) refl

both_true :
    (b : Bool) (r : ℤ)
    → (if b then ok (is_zero r) else ok false) ≡ ok true
    → (b ≡ true) × (r ≡ pos 0)
both_true true (pos zero) h = (refl, refl)
both_true true (pos (suc n)) h = cc
both_true true (negsuc n) h = cc
both_true false r h = cc

equal_bytes : (a b : List ℕ) (rest : List Value) → equals a (bytes b ∷ rest) ≡ ok true → a ≡ b
unfolding equals
equal_bytes a b rest h =
    let (l, z) = both_true (length a == length b) (memcmp (length a) a b) h in
    memcmp-zero a b ((==_iff _ _).0 l) z

-- equals is true of two Uint8Arrays exactly where compare gives 0, which is where they are the same.
pub equals-compare :
    (a b : List ℕ) (rest : List Value)
    → ((equals a (bytes b ∷ rest) ≡ ok true) ↔ (a ≡ b))
      × ((compare (bytes a ∷ bytes b ∷ rest) ≡ ok (pos 0)) ↔ (a ≡ b))
equals-compare a b rest = (
  (
    equal_bytes a b rest,
    λ e. subst (λ x. equals a (bytes x ∷ rest) ≡ ok true) e (equals_self a rest),
  ),
  (
    λ h. lexicographic-zero a b (value_of (sym (compare-lexicographic a b rest) ∙ h)),
    λ e.
        subst (λ x. compare (bytes a ∷ bytes x ∷ rest) ≡ ok (pos 0)) e
          (compare-lexicographic a a rest ∙ ap ok (lexicographic_refl a)),
  ),
)
