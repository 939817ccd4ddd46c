-- ===== src/Buffer/Convert.antt =====
-- src/module/node/buffer/buffer.cpp: from text and to text in an encoding. What V8 makes of bytes
-- or of a string stays outside: a text is its UTF-8 bytes.
mod RoundTrip
pub mod Write
mod Sizes
mod Runs
use zane.Base.{
  ℕ, ◌+◌, ◌-◌, ◌*◌, ◌/◌, ◌%◌, ◌^◌, min, Bool, true, false, ◌||◌, ◌&&◌, Option, some, none, List, [],
  ◌∷◌, ◌++◌, map, length, get_elem?, take, drop, replicate, get_or, ltb, leb, ◌==◌, if◌then◌else◌,
  suc,
}
use zane.Base.Int.{ℤ, pos, negsuc, to_unsigned, to_signed, sub_ℕ}
use zane.Base.Text.{codes, same, until_nul}
use zane.Buffer.{
  Value, Item, undefined, num, str, bytes, array_buffer, array, object, bigint, Outcome, ok, throws,
  range_error, type_error, num_arg, size_of, size_arg,
}
use zane.Buffer.Hex.{bytes_to_hex, hex_prefix, from_hex}
use zane.Buffer.Base64.{bytes_to_base64, base64_to_bytes}

abbrev pub text_of : Option Value → List ℕ → List ℕ
text_of (some (str s)) d = until_nul s
text_of _ d = d

-- The encoding named by the i-th argument, "utf8" if it is no string.
abbrev pub encoding_arg : List Value → ℕ → List ℕ
encoding_arg args i = text_of (get_elem? args i) (codes "utf8")

abbrev pub is_hex : List ℕ → Bool
is_hex e = same e (codes "hex")

abbrev pub is_base64_name : List ℕ → Bool
is_base64_name e = same e (codes "base64") || same e (codes "base64url")

pub is_encoding : List Value → Bool
unfolding until_nul
is_encoding (str e ∷ rest) =
    let s = until_nul e in
    same s (codes "utf8")
    || same s (codes "utf-8")
    || same s (codes "ascii")
    || same s (codes "latin1")
    || same s (codes "binary")
    || same s (codes "base64")
    || same s (codes "base64url")
    || same s (codes "hex")
    || same s (codes "ucs2")
    || same s (codes "ucs-2")
    || same s (codes "utf16le")
    || same s (codes "utf-16le")
is_encoding args = false

-- `from` of a string: the latin1 branch copies the bytes as the default branch does.
unfoldable pub from_string : List ℕ → List ℕ → List ℕ
unfolding same until_nul from_hex base64_to_bytes
from_string s e =
    if is_hex e then from_hex s else if is_base64_name e then base64_to_bytes (until_nul s) else s

-- An optional start or end of `toString`: negative counts from the end, and both are clamped.
abbrev pub clamp_index : ℕ → Option ℤ → ℕ → ℕ
clamp_index total none d = d
clamp_index total (some (pos n)) d = if ltb total n then total else n
clamp_index total (some (negsuc n)) d = total - suc n

-- The bytes that `toString` hands to V8 as the text.
pub to_string : List ℕ → List Value → List ℕ
unfolding same until_nul bytes_to_hex bytes_to_base64
to_string data' args =
    let total = length data' in
    let start = clamp_index total (num_arg args 1) 0 in
    let end' = clamp_index total (num_arg args 2) total in
    let len = if ltb end' start then 0 else end' - start in
    let part = take len (drop start data') in
    let e = encoding_arg args 0 in
    if is_hex e then bytes_to_hex part else if is_base64_name e then bytes_to_base64 part else part

-- Bytes written over a view.
abbrev pub splice : List ℕ → ℕ → List ℕ → List ℕ
splice data' off bs = take off data' ++ (bs ++ drop (off + length bs) data')

abbrev pub write_encoding : List Value → List ℕ
write_encoding args = text_of (get_elem? args 3) (encoding_arg args 2)

-- What `write` copies into the room of `max_write` bytes.
pub encoded : List ℕ → List ℕ → ℕ → List ℕ
unfolding same until_nul hex_prefix base64_to_bytes
encoded s e max_write =
    if is_hex e
    then take (min (length (until_nul s) / 2) max_write) (hex_prefix (until_nul s))
    else if is_base64_name e
    then take max_write (base64_to_bytes (until_nul s))
    else take max_write s

abbrev pub max_write : List ℕ → List Value → ℕ → ℕ
max_write data' args off = min (length data' - off) (size_arg args 2 (length data' - off))

-- The bytes of the view afterwards, and the number of bytes written, before its cast to int32_t.
pub write : List ℕ → List Value → List ℕ × ℕ
unfolding encoded
write data' (str s ∷ rest) =
    let args = str s ∷ rest in
    let off = size_arg args 1 0 in
    let bs = encoded s (write_encoding args) (max_write data' args off) in
    if leb (length data') off then (data', 0) else (splice data' off bs, length bs)
write data' args = (data', 0)

-- The length of a base64 text once decoded, by its padding: `(len * 3) / 4` less the padding.
abbrev pub is_pad : List ℕ → ℕ → Bool
is_pad s i = get_or s i 0 == b'='

pub base64_length : List ℕ → ℤ
base64_length s =
    let len = length s in
    sub_ℕ (len * 3 / 4) (
      (if ltb 0 len && is_pad s (len - 1) then 1 else 0)
      + (if ltb 1 len && is_pad s (len - 2) then 1 else 0))

pub byte_length : List Value → ℤ
unfolding same until_nul base64_length
byte_length [] = pos 0
byte_length (str s ∷ rest) =
    let e = encoding_arg (str s ∷ rest) 1 in
    if is_hex e
    then pos (length s / 2)
    else if is_base64_name e
    then base64_length s
    else pos (length s)
byte_length (array_buffer bs ∷ rest) = pos (length bs)
byte_length (bytes bs ∷ rest) = pos (length bs)
byte_length (v ∷ rest) = pos 0
