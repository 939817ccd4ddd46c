-- ===== src/Buffer/Convert/RoundTrip.antt =====
-- `from` of what `toString` gives, in the encodings that name bytes by characters.
use zane.Base.{
  ℕ, ◌-◌, ◌≡◌, refl, sym, ap, ◌∙◌, List, [], ◌∷◌, length, take, All, ltb, le→ltb_false,
  if◌then◌else◌, arith,
}
use zane.Base.Text.{codes, until_nul}
use zane.Buffer.{str, IsByte}
use zane.Buffer.Hex.{bytes_to_hex, from_hex}
use zane.Buffer.Hex.RoundTrip.{from_hex-bytes_to_hex, until_nul-whole}
use zane.Buffer.Base64.RoundTrip.{base64_to_bytes-bytes_to_base64}
use zane.Buffer.Base64.Lengths.{bytes_to_base64_nonzero}
use zane.Buffer.Base64.{bytes_to_base64, base64_to_bytes}
use zane.Buffer.Convert.{from_string, to_string}
use mathlib.Core.List.{append-nil}

take-length : (xs : List ℕ) → take (length xs) xs ≡ xs
take-length [] = refl
take-length (x ∷ xs) = ap (◌∷◌ x) (take-length xs)

whole : (data' : List ℕ) → take (if ltb (length data') 0 then 0 else length data' - 0) data' ≡ data'
whole data' =
    let n : length data' - 0 ≡ length data' = omega arith in
    rw (le→ltb_false (length data') 0 (omega arith), n) (take-length data')

-- Turning a view into text in hexadecimal or base64, and that text into a buffer in the same
-- encoding, gives the bytes of the view; base64url is another name of base64 on both sides.
pub from_string-to_string :
    (data' : List ℕ)
    → All IsByte data'
    → (from_string (to_string data' (str (codes "hex") ∷ [])) (codes "hex") ≡ data')
      × (from_string (to_string data' (str (codes "base64") ∷ [])) (codes "base64") ≡ data')
      × (from_string (to_string data' (str (codes "base64url") ∷ [])) (codes "base64url") ≡ data')
unfolding from_string to_string
from_string-to_string data' h = (
  rw (whole data') (hex data' h),
  rw (whole data') (base64 data' h),
  rw (whole data') (base64 data' h),
)
  where
    hex : (bs : List ℕ) → All IsByte bs → from_hex (bytes_to_hex bs) ≡ bs
    hex bs k =
        ap from_hex (sym (append-nil (bytes_to_hex bs)))
        ∙ from_hex-bytes_to_hex bs [] k
        ∙ append-nil bs

    base64 : (bs : List ℕ) → All IsByte bs → base64_to_bytes (until_nul (bytes_to_base64 bs)) ≡ bs
    base64 bs k =
        ap base64_to_bytes (until_nul-whole (bytes_to_base64 bs) (bytes_to_base64_nonzero bs k))
        ∙ base64_to_bytes-bytes_to_base64 bs k
