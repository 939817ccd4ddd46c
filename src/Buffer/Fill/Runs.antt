-- ===== src/Buffer/Fill/Runs.antt =====
-- Runs of fill, and the theorem at a concrete input.
use zane.Base.{inl, ℕ, ◌≡◌, refl, List, [], ◌∷◌, arith}
use zane.Base.Int.{pos, negsuc}
use zane.Base.Text.{codes}
use zane.Buffer.{num, str, bytes, ok, undef}
use zane.Buffer.Fill.{alloc, fill, fill_shared}
use zane.Buffer.Fill.Periodic.{Filled, FilledAt, fill-Filled}
use zane.Buffer.Fill.Shared.{fill_shared-FilledAt}

abbrev ones : List ℕ
ones = 1 ∷ 1 ∷ 1 ∷ 1 ∷ 1 ∷ 1 ∷ []

alloc_text : alloc (num (pos 5) ∷ str (codes "ab") ∷ []) ≡ ok (codes "ababa")
unfolding alloc
alloc_text = refl

fill_number :
    fill ones (num (negsuc 0) ∷ num (pos 2) ∷ num (pos 4) ∷ []) ≡ 1 ∷ 1 ∷ 255 ∷ 255 ∷ 1 ∷ 1 ∷ []
unfolding fill
fill_number = refl

-- The encoding is not used: the digits themselves are written.
fill_hex :
    fill ones (str (codes "ff") ∷ num (pos 4) ∷ str (codes "hex") ∷ [])
    ≡ 1 ∷ 1 ∷ 1 ∷ 1 ∷ 102 ∷ 102 ∷ []
unfolding fill
fill_hex = refl

fill-Filled_example :
    Filled ones
      (str (codes "abc") ∷ num (pos 1) ∷ [])
      (codes "abc")
      (fill ones (str (codes "abc") ∷ num (pos 1) ∷ []))
    × Filled ones
        (bytes (codes "abc") ∷ num (pos 1) ∷ [])
        (codes "abc")
        (fill ones (bytes (codes "abc") ∷ num (pos 1) ∷ []))
fill-Filled_example = fill-Filled ones (codes "abc") (num (pos 1) ∷ []) (omega arith)

abbrev eight : List ℕ
eight = 1 ∷ 2 ∷ 3 ∷ 4 ∷ 5 ∷ 6 ∷ 7 ∷ 8 ∷ []

-- A view that is filled with its own first two bytes.
fill_itself : fill_shared eight 0 8 0 2 [] ≡ undef
unfolding fill_shared
fill_itself = refl

filled_behind :
    fill_shared eight 1 7 0 2 (num (pos 2) ∷ []) ≡ ok (1 ∷ 2 ∷ 3 ∷ 1 ∷ 2 ∷ 1 ∷ 2 ∷ 1 ∷ [])
unfolding fill_shared
filled_behind = refl

fill_shared-FilledAt_example :
    (d : List ℕ) × (fill_shared eight 1 7 0 2 (num (pos 2) ∷ []) ≡ ok d)
    × FilledAt eight 3 5 (1 ∷ 2 ∷ []) d
fill_shared-FilledAt_example =
    fill_shared-FilledAt eight (1 ∷ 2 ∷ []) 1 7 0 (num (pos 2) ∷ []) (omega arith) (omega arith)
      refl (inl (omega arith))
