-- ===== src/Buffer/Make/RoundTrip.antt =====
-- What from and atob read back.
use zane.Base.{
  ℕ, ◌%◌, ◌^◌, ◌≡◌, refl, sym, subst, ap, ◌∙◌, Option, some, none, List, [], ◌∷◌, map, All, arith,
}
use zane.Base.Int.{pos}
use zane.Base.Text.{until_nul}
use zane.Buffer.{Value, Item, number, array, str, ok, IsByte}
use zane.Buffer.Base64.{base64_to_bytes, bytes_to_base64}
use zane.Buffer.Base64.RoundTrip.{base64_to_bytes-bytes_to_base64}
use zane.Buffer.Base64.Lengths.{bytes_to_base64_nonzero}
use zane.Buffer.Hex.RoundTrip.{until_nul-whole}
use zane.Buffer.Make.{from, to_json, atob, btoa}

abbrev result_text : Option (List ℕ) → List ℕ
result_text none = []
result_text (some t) = t

items_of :
    (uint32_value : Item → ℕ)
    → ((n : ℕ) → uint32_value (number (pos n)) ≡ n % 2 ^ 32)
    → (bs : List ℕ) → All IsByte bs
    → map (λ item. uint32_value item % 256) (to_json bs) ≡ bs
unfolding to_json
items_of f h [] k = refl
items_of f h (b ∷ bs) (l, k) =
    let low : b % 2 ^ 32 % 256 ≡ b = omega arith in rw (h b, low, items_of f h bs k) refl

-- A buffer made from the data that toJSON gives has the bytes of the view, where V8's Uint32Value of a
-- number that is not negative is the number modulo 2 ^ 32.
pub from-to_json :
    (uint32_value : Item → ℕ) (to_string_value : Value → Option (List ℕ))
    → ((n : ℕ) → uint32_value (number (pos n)) ≡ n % 2 ^ 32)
    → (bs : List ℕ) (rest : List Value) → All IsByte bs
    → from uint32_value to_string_value (array (to_json bs) ∷ rest) ≡ ok bs
unfolding from
from-to_json f g h bs rest k = ap ok (items_of f h bs k)

-- atob of the text that btoa makes of a text gives the bytes of that text, where V8 gives a text its
-- own bytes.
pub atob-btoa :
    (utf8_value : Value → List ℕ)
    → ((s : List ℕ) → utf8_value (str s) ≡ s)
    → (s text : List ℕ) (rest : List Value) → All IsByte s
    → btoa utf8_value (str s ∷ rest) ≡ some text
    → atob utf8_value (str text ∷ rest) ≡ some s
unfolding atob btoa
atob-btoa f h s text rest k e =
    let text_is : bytes_to_base64 s ≡ text = ap bytes_to_base64 (sym (h s)) ∙ ap result_text e in
    let whole : until_nul text ≡ text =
      subst (λ t. until_nul t ≡ t) text_is
        (until_nul-whole (bytes_to_base64 s) (bytes_to_base64_nonzero s k)) in
    ap (λ t. some (base64_to_bytes (until_nul t))) (h text)
    ∙ ap (λ t. some (base64_to_bytes t)) whole
    ∙ ap (λ t. some (base64_to_bytes t)) (sym text_is)
    ∙ ap some (base64_to_bytes-bytes_to_base64 s k)
