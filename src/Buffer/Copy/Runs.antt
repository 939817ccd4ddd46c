-- ===== src/Buffer/Copy/Runs.antt =====
-- Runs of copy and concat, and the theorems at concrete inputs.
use zane.Base.{ℕ, ◌-◌, ◌≡◌, refl, List, [], ◌∷◌, ◌++◌, take, replicate, length, arith}
use zane.Base.Int.{ℤ, pos}
use zane.Buffer.{Item, view, thing, num, bytes, array, ok}
use zane.Buffer.Copy.{copy, concat}
use zane.Buffer.Copy.Concat.{all_bytes, concat-all_bytes}
use zane.Buffer.Copy.Copied.{Copied, copy-Copied}

abbrev source : List ℕ
source = 1 ∷ 2 ∷ 3 ∷ 4 ∷ []

abbrev target : List ℕ
target = 0 ∷ 0 ∷ 0 ∷ []

abbrev parts : List Item
parts = view (1 ∷ 2 ∷ []) ∷ thing ∷ view (3 ∷ []) ∷ []

copied : copy source (bytes target ∷ num (pos 1) ∷ num (pos 2) ∷ []) ≡ ok (0 ∷ 3 ∷ 4 ∷ [], pos 2)
unfolding copy
copied = refl

concat-all_bytes_example :
    (concat (array parts ∷ []) ≡ ok (all_bytes parts))
    × (concat (array parts ∷ num (pos 5) ∷ [])
        ≡ ok (take 5 (all_bytes parts) ++ replicate (5 - length (all_bytes parts)) 0))
concat-all_bytes_example = concat-all_bytes parts 5 (omega arith)

copy-Copied_example :
    (r : List ℕ × ℤ) × (copy source (bytes target ∷ num (pos 1) ∷ num (pos 1) ∷ num (pos 4) ∷ [])
      ≡ ok r)
    × Copied source target 1 1 4 r
copy-Copied_example =
    copy-Copied source target 1 1 4 (omega arith) (omega arith) (omega arith) (omega arith)
      (omega arith) (omega arith)
