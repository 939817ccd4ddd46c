-- ===== src/Buffer/Search/Runs.antt =====
-- Runs of the searches, and the theorems at concrete inputs.
use zane.Base.{ℕ, ◌≡◌, refl, true, List, [], ◌∷◌}
use zane.Base.Int.{pos, negsuc}
use zane.Base.Text.{codes}
use zane.Buffer.{num, bytes, str}
use zane.Buffer.Search.{index_of, includes}
use zane.Buffer.Search.Found.{FirstFound, index_of-FirstAt}

abbrev text : List ℕ
text = codes "abcabc"

by_byte : index_of text (num (pos 99) ∷ num (negsuc 3) ∷ []) ≡ pos 2
unfolding index_of
by_byte = refl

-- An empty needle is found at the offset, even behind the end.
empty_needle : index_of text (str [] ∷ num (pos 100) ∷ []) ≡ pos 100
unfolding index_of
empty_needle = refl

has_part : includes text (str (codes "cab") ∷ []) ≡ true
unfolding includes
has_part = refl

index_of-FirstAt_example :
    FirstFound text (codes "bc") 2 (index_of text (bytes (codes "bc") ∷ num (pos 2) ∷ []))
    × FirstFound text (codes "bc") 2 (index_of text (str (codes "bc") ∷ num (pos 2) ∷ []))
index_of-FirstAt_example = index_of-FirstAt text (codes "c") b'b' 2 []
