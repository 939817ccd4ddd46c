-- ===== src/Buffer/Swap/Runs.antt =====
-- The theorem on swapping at a concrete input.
use zane.Base.{ℕ, ◌≡◌, refl, List, [], ◌∷◌}
use zane.Buffer.{ok}
use zane.Buffer.Swap.{swap32}

abbrev four : List ℕ
four = 1 ∷ 2 ∷ 3 ∷ 4 ∷ []

turned : swap32 four ≡ ok (4 ∷ 3 ∷ 2 ∷ 1 ∷ [])
unfolding swap32
turned = refl
