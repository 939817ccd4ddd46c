-- ===== src/Events/Table.antt =====
-- The object `_events` as a table from event names to what is stored under them.
use zane.Base.{
  ℕ, ◌+◌, ◌≡◌, refl, Option, some, none, List, [], ◌∷◌, length, ◌==◌, if◌then◌else◌, arith,
}

module _ {V : Type 0} where
  unfoldable pub lookup : ℕ → List (ℕ × V) → Option V
  lookup k [] = none
  lookup k ((j, v) ∷ m) = if j == k then some v else lookup k m

  unfoldable pub put : ℕ → V → List (ℕ × V) → List (ℕ × V)
  put k v [] = (k, v) ∷ []
  put k v ((j, w) ∷ m) = if j == k then (k, v) ∷ m else (j, w) ∷ put k v m

  unfoldable pub delete : ℕ → List (ℕ × V) → List (ℕ × V)
  delete k [] = []
  delete k ((j, w) ∷ m) = if j == k then delete k m else (j, w) ∷ delete k m

  unfoldable pub keys : List (ℕ × V) → List ℕ
  keys [] = []
  keys ((j, w) ∷ m) = j ∷ keys m

  -- No key is stored twice.
  abbrev pub Distinct : List (ℕ × V) → Type 0
  Distinct [] = Unit {0}
  Distinct ((j, w) ∷ m) = (lookup j m ≡ none) × Distinct m

  pub lookup-put :
      (k j : ℕ) (v : V) (m : List (ℕ × V))
      → lookup j (put k v m) ≡ (if k == j then some v else lookup j m)
  unfolding lookup put
  lookup-put k j v [] = ground arith
  lookup-put k j v ((i, w) ∷ m) = ground (arith, lookup-put k j v m)

  pub lookup-delete :
      (k j : ℕ) (m : List (ℕ × V)) → lookup j (delete k m) ≡ (if k == j then none else lookup j m)
  unfolding lookup delete
  lookup-delete k j [] = ground arith
  lookup-delete k j ((i, w) ∷ m) = ground (arith, lookup-delete k j m)

  pub put-Distinct : (k : ℕ) (v : V) (m : List (ℕ × V)) → Distinct m → Distinct (put k v m)
  unfolding put lookup
  put-Distinct k v [] d = (refl, tt)
  put-Distinct k v ((j, w) ∷ m) (n, d) = ground (arith, lookup-put k j v m, put-Distinct k v m d)

  pub delete-Distinct : (k : ℕ) (m : List (ℕ × V)) → Distinct m → Distinct (delete k m)
  unfolding delete
  delete-Distinct k [] d = tt
  delete-Distinct k ((j, w) ∷ m) (n, d) = ground (arith, lookup-delete k j m, delete-Distinct k m d)

  -- The number of keys after a change.
  pub length-put :
      (k : ℕ) (v : V) (m : List (ℕ × V))
      → length (put k v m) ≡ (elim (lookup k m) [ none ↦ length m + 1 | some w ↦ length m ])
  unfolding put lookup
  length-put k v [] = omega arith
  length-put k v ((j, w) ∷ m) = ground (arith, length-put k v m)

  pub length-delete :
      (k : ℕ) (m : List (ℕ × V))
      → Distinct m
      → length (delete k m) + (elim (lookup k m) [ none ↦ 0 | some w ↦ 1 ]) ≡ length m
  unfolding delete lookup
  length-delete k [] d = omega arith
  length-delete k ((j, w) ∷ m) (n, d) = ground (arith, length-delete k m d)
