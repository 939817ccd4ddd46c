-- ===== src/Buffer/Hex/Runs.antt =====
-- Runs of the hexadecimal codec, and the theorems at concrete inputs.
use zane.Base.{◌≡◌, refl, [], ◌∷◌}
use zane.Base.Text.{codes}
use zane.Buffer.Hex.{hex_value, bytes_to_hex, from_hex}

encodes : bytes_to_hex (0 ∷ 171 ∷ 255 ∷ []) ≡ codes "00abff"
unfolding bytes_to_hex
encodes = refl

decodes_upper : from_hex (codes "0aFf1") ≡ 10 ∷ 255 ∷ []
unfolding from_hex hex_value
decodes_upper = refl
