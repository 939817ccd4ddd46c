-- ===== src/Buffer/Validate/Runs.antt =====
-- Runs of the checks, and the theorems at concrete inputs.
use zane.Base.{ℕ, List, All, ◌↔◌, true, false, ◌≡◌, refl, [], ◌∷◌, arith}
use zane.Buffer.{bytes}
use zane.Buffer.Validate.{is_utf8}
use zane.Buffer.Validate.Utf8.{CodePoint, InRange, encode}
use zane.Buffer.Validate.Only.{is_utf8-encode}

-- The overlong form of NUL is accepted, a sequence that is cut off is not.
overlong : is_utf8 (bytes (0xc0 ∷ 0x80 ∷ []) ∷ []) ≡ true
unfolding is_utf8
overlong = refl

cut_off : is_utf8 (bytes (0xe2 ∷ 0x82 ∷ []) ∷ []) ≡ false
unfolding is_utf8
cut_off = refl

abbrev two_points : List ℕ
two_points = 0xc3 ∷ 0x89 ∷ 0xe2 ∷ 0x82 ∷ 0xac ∷ []

is_utf8-encode_example :
    (is_utf8 (bytes two_points ∷ []) ≡ true)
    ↔ ((cs : List CodePoint) × All InRange cs × (encode cs ≡ two_points))
is_utf8-encode_example =
    is_utf8-encode two_points []
      (omega arith, (omega arith, (omega arith, (omega arith, (omega arith, tt)))))
