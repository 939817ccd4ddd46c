-- ===== src/Buffer/Base64/Runs.antt =====
-- Runs of the base64 encoding, and the theorem at a concrete input.
use zane.Base.{ℕ, ◌≡◌, refl, List, [], ◌∷◌, arith}
use zane.Base.Text.{codes}
use zane.Buffer.Base64.{bytes_to_base64, base64_to_bytes}
use zane.Buffer.Base64.RoundTrip.{base64_to_bytes-bytes_to_base64}

abbrev five : List ℕ
five = 0 ∷ 255 ∷ 16 ∷ 131 ∷ 16 ∷ []

five_text : bytes_to_base64 five ≡ codes "AP8QgxA="
unfolding bytes_to_base64
five_text = refl

-- The URL alphabet is read too, and what follows a character outside both alphabets is ignored.
cut_text : base64_to_bytes (codes "-_-_ -_-_") ≡ 251 ∷ 255 ∷ 191 ∷ []
unfolding base64_to_bytes
cut_text = refl

base64_to_bytes-bytes_to_base64_example : base64_to_bytes (bytes_to_base64 five) ≡ five
base64_to_bytes-bytes_to_base64_example =
    base64_to_bytes-bytes_to_base64 five
      (omega arith, (omega arith, (omega arith, (omega arith, (omega arith, tt)))))
