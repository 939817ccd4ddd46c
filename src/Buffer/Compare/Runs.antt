-- ===== src/Buffer/Compare/Runs.antt =====
-- Runs of the comparisons, and the theorems at concrete inputs.
use zane.Base.{ℕ, ◌≡◌, refl, List, [], ◌∷◌}
use zane.Base.Int.{pos}
use zane.Buffer.{num, bytes, ok, undef}
use zane.Buffer.Compare.{compare, compare_instance}
use zane.Buffer.Compare.Order.{lexicographic, compare-lexicographic}

-- A source end behind the end of the view is not checked.
read_past_end :
    compare_instance
      (1 ∷ [])
      (bytes (1 ∷ 2 ∷ []) ∷ num (pos 0) ∷ num (pos 2) ∷ num (pos 0) ∷ num (pos 2) ∷ [])
    ≡ undef
unfolding compare_instance
read_past_end = refl

compare-lexicographic_example :
    compare (bytes (1 ∷ 200 ∷ []) ∷ bytes (1 ∷ 2 ∷ 3 ∷ []) ∷ [])
    ≡ ok (lexicographic (1 ∷ 200 ∷ []) (1 ∷ 2 ∷ 3 ∷ []))
compare-lexicographic_example = compare-lexicographic (1 ∷ 200 ∷ []) (1 ∷ 2 ∷ 3 ∷ []) []

abbrev pair : List ℕ
pair = 5 ∷ 6 ∷ []
