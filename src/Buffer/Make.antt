-- ===== src/Buffer/Make.antt =====
-- src/module/node/buffer/buffer.cpp: from, toJSON, isBuffer, atob and btoa.
mod RoundTrip
mod Runs
use zane.Base.{
  ℕ, ◌+◌, ◌%◌, ◌^◌, Bool, true, false, Option, some, none, List, [], ◌∷◌, map, length, take, drop,
  ltb, if◌then◌else◌,
}
use zane.Base.Int.{ℤ, pos, to_unsigned}
use zane.Base.Text.{until_nul}
use zane.Buffer.{
  Value, Item, number, view, thing, undefined, num, bigint, str, bytes, array_buffer, array, object,
  Outcome, ok, throws, undef, range_error, type_error, size_arg,
}
use zane.Buffer.Base64.{base64_to_bytes, bytes_to_base64}
use zane.Buffer.Convert.{from_string, encoding_arg}

-- The view of an ArrayBuffer; where the sum of two size_t wraps past the check, V8 is asked for a view
-- outside it.
abbrev array_view : List ℕ → ℕ → ℕ → Outcome (List ℕ)
array_view bs byte_offset len =
    if ltb (length bs) ((byte_offset + len) % 2 ^ 64)
    then throws range_error
    else if ltb (length bs) (byte_offset + len)
    then undef
    else ok (take len (drop byte_offset bs))

abbrev text_or_error : Option (List ℕ) → Outcome (List ℕ)
text_or_error none = throws type_error
text_or_error (some s) = ok s

-- V8's Uint32Value of an element, as a number before it is cut to a byte, and its ToString.
module _ (uint32_value : Item → ℕ) (to_string_value : Value → Option (List ℕ)) where
  unfoldable pub from : List Value → Outcome (List ℕ)
  unfolding from_string
  from [] = throws type_error
  from (str s ∷ rest) = ok (from_string s (encoding_arg (str s ∷ rest) 1))
  from (array_buffer bs ∷ rest) =
      let args = array_buffer bs ∷ rest in
      array_view bs (size_arg args 1 0) (size_arg args 2 (length bs))
  from (bytes bs ∷ rest) = ok bs
  from (array items ∷ rest) = ok (map (λ item. uint32_value item % 256) items)
  from (v ∷ rest) = text_or_error (to_string_value v)

-- The `data` of the object that toJSON gives.
unfoldable pub to_json : List ℕ → List Item
to_json [] = []
to_json (b ∷ bs) = number (pos b) ∷ to_json bs

-- `has_prototype` is the comparison of the value's prototype with that of Buffer.
pub is_buffer : (Value → Bool) → List Value → Bool
is_buffer has_prototype (bytes bs ∷ rest) = has_prototype (bytes bs)
is_buffer has_prototype args = false

-- The text of a value as V8 gives it: the bytes of the result are characters up to 255. Without an
-- argument the result is undefined.
module _ (utf8_value : Value → List ℕ) where
  unfoldable pub atob : List Value → Option (List ℕ)
  unfolding until_nul base64_to_bytes
  atob [] = none
  atob (v ∷ rest) = some (base64_to_bytes (until_nul (utf8_value v)))

  unfoldable pub btoa : List Value → Option (List ℕ)
  unfolding bytes_to_base64
  btoa [] = none
  btoa (v ∷ rest) = some (bytes_to_base64 (utf8_value v))
