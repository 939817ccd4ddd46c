-- ===== src/Buffer/Convert/Runs.antt =====
-- Runs of the conversions, and the theorems at concrete inputs.
use zane.Base.{ℕ, true, ◌≡◌, refl, List, [], ◌∷◌, arith}
use zane.Base.Int.{pos, negsuc}
use zane.Base.Text.{codes, same}
use zane.Buffer.{str, num}
use zane.Buffer.Convert.{from_string, to_string, write, byte_length, is_encoding, encoded}
use zane.Buffer.Convert.RoundTrip.{from_string-to_string}
use zane.Buffer.Convert.Write.{Wrote, write-Wrote}

abbrev three : List ℕ
three = 0 ∷ 200 ∷ 7 ∷ []

hex_part : to_string three (str (codes "hex") ∷ num (negsuc 1) ∷ []) ≡ codes "c807"
unfolding to_string
hex_part = refl

-- base64url text is written in the alphabet of base64, with padding.
url_text : to_string (251 ∷ 255 ∷ []) (str (codes "base64url") ∷ []) ≡ codes "+/8="
unfolding to_string
url_text = refl

-- A lone padding character counts as minus one byte.
lone_pad : byte_length (str (codes "=") ∷ str (codes "base64") ∷ []) ≡ negsuc 0
unfolding byte_length
lone_pad = refl

known : is_encoding (str (codes "utf16le") ∷ []) ≡ true
unfolding is_encoding same
known = refl

from_string-to_string_example :
    (from_string (to_string three (str (codes "hex") ∷ [])) (codes "hex") ≡ three)
    × (from_string (to_string three (str (codes "base64") ∷ [])) (codes "base64") ≡ three)
    × (from_string (to_string three (str (codes "base64url") ∷ [])) (codes "base64url") ≡ three)
from_string-to_string_example = from_string-to_string three (omega arith)

write-Wrote_example :
    Wrote three 1 (codes "ab") (write three (str (codes "abc") ∷ num (pos 1) ∷ []))
unfolding encoded
write-Wrote_example = write-Wrote three (codes "abc") (num (pos 1) ∷ [])
