-- ===== src/Buffer/Base64.antt =====
-- src/module/node/buffer/buffer.cpp: the base64 encoding.
pub mod Sextets
pub mod RoundTrip
pub mod Lengths
mod Runs
use zane.Base.{
  ℕ, ◌+◌, ◌-◌, ◌*◌, ◌/◌, ◌%◌, Bool, true, false, ◌&&◌, ◌||◌, not, List, [], ◌∷◌, ◌++◌, map, get_or,
  bit_and, ◌==◌, ltb, length, if◌then◌else◌,
}
use zane.Base.Bits.{shl, shr}
use zane.Base.Text.{codes, between}

abbrev pub base64_chars : List ℕ
base64_chars = codes "ABCDEFGHIJKLMNOPQRSTUVWXYZabcdefghijklmnopqrstuvwxyz0123456789+/"

-- The four indices of three bytes; each is stored in a uint8_t.
abbrev pub sextet0 : ℕ → ℕ
sextet0 a = shr (bit_and a 0xfc) 2

abbrev pub sextet1 : ℕ → ℕ → ℕ
sextet1 a b = (shl (bit_and a 0x03) 4 + shr (bit_and b 0xf0) 4) % 256

abbrev pub sextet2 : ℕ → ℕ → ℕ
sextet2 b c = (shl (bit_and b 0x0f) 2 + shr (bit_and c 0xc0) 6) % 256

abbrev pub sextet3 : ℕ → ℕ
sextet3 c = bit_and c 0x3f

abbrev pub char64 : ℕ → ℕ
char64 i = get_or base64_chars i 0

-- The first `i` bytes of `char_array_3`.
pub data Held : Type 0 where
  held0 : Held
  held1 : ℕ → Held
  held2 : ℕ → ℕ → Held

unfoldable pub bytes_to_base64_loop : Held → List ℕ → List ℕ
bytes_to_base64_loop held0 [] = []
bytes_to_base64_loop (held1 a) [] = char64 (sextet0 a) ∷ char64 (sextet1 a 0) ∷ b'=' ∷ b'=' ∷ []
bytes_to_base64_loop (held2 a b) [] =
    char64 (sextet0 a) ∷ char64 (sextet1 a b) ∷ char64 (sextet2 b 0) ∷ b'=' ∷ []
bytes_to_base64_loop held0 (x ∷ xs) = bytes_to_base64_loop (held1 x) xs
bytes_to_base64_loop (held1 a) (x ∷ xs) = bytes_to_base64_loop (held2 a x) xs
bytes_to_base64_loop (held2 a b) (x ∷ xs) =
    char64 (sextet0 a)
    ∷ char64 (sextet1 a b)
    ∷ char64 (sextet2 b x)
    ∷ char64 (sextet3 x)
    ∷ bytes_to_base64_loop held0 xs

unfoldable pub bytes_to_base64 : List ℕ → List ℕ
unfolding bytes_to_base64_loop
bytes_to_base64 = bytes_to_base64_loop held0

-- base64url's characters.
unfoldable pub from_url : ℕ → ℕ
from_url c = if c == b'-' then b'+' else if c == b'_' then b'/' else c

-- `static_cast<uint8_t>(base64_chars.find(c))`: npos becomes 255.
unfoldable pub index_in : List ℕ → ℕ → ℕ → ℕ
index_in [] c i = 255
index_in (x ∷ xs) c i = if x == c then i else index_in xs c (i + 1)

abbrev pub find64 : ℕ → ℕ
find64 c = index_in base64_chars c 0

-- The test of the loop, in the "C" locale.
unfoldable pub is_base64 : ℕ → Bool
is_base64 c =
    not (c == b'=')
    && (between b'0' b'9' c || between b'A' b'Z' c || between b'a' b'z' c || c == b'+' || c == b'/')

-- The three bytes of four indices; each is stored in a uint8_t.
abbrev pub byte0 : ℕ → ℕ → ℕ
byte0 p q = (shl p 2 + shr (bit_and q 0x30) 4) % 256

abbrev pub byte1 : ℕ → ℕ → ℕ
byte1 q r = (shl (bit_and q 0x0f) 4 + shr (bit_and r 0x3c) 2) % 256

abbrev pub byte2 : ℕ → ℕ → ℕ
byte2 r s = (shl (bit_and r 0x03) 6 + s) % 256

-- The first `i` characters of `char_array_4`.
pub data Chars : Type 0 where
  chars0 : Chars
  chars1 : ℕ → Chars
  chars2 : ℕ → ℕ → Chars
  chars3 : ℕ → ℕ → ℕ → Chars

-- What follows the loop: `i - 1` bytes.
unfoldable pub base64_rest : Chars → List ℕ
base64_rest chars0 = []
base64_rest (chars1 p) = []
base64_rest (chars2 p q) = byte0 (find64 p) (find64 q) ∷ []
base64_rest (chars3 p q r) = byte0 (find64 p) (find64 q) ∷ byte1 (find64 q) (find64 r) ∷ []

unfoldable pub base64_to_bytes_loop : Chars → List ℕ → List ℕ
base64_to_bytes_loop h [] = base64_rest h
base64_to_bytes_loop chars0 (c ∷ s) =
    let more = base64_to_bytes_loop (chars1 c) s in if is_base64 c then more else base64_rest chars0
base64_to_bytes_loop (chars1 p) (c ∷ s) =
    let more = base64_to_bytes_loop (chars2 p c) s in
    if is_base64 c then more else base64_rest (chars1 p)
base64_to_bytes_loop (chars2 p q) (c ∷ s) =
    let more = base64_to_bytes_loop (chars3 p q c) s in
    if is_base64 c then more else base64_rest (chars2 p q)
base64_to_bytes_loop (chars3 p q r) (c ∷ s) =
    let more = base64_to_bytes_loop chars0 s in
    if is_base64 c
    then byte0 (find64 p) (find64 q)
      ∷ byte1 (find64 q) (find64 r)
      ∷ byte2 (find64 r) (find64 c)
      ∷ more
    else base64_rest (chars3 p q r)

unfoldable pub base64_to_bytes : List ℕ → List ℕ
unfolding from_url base64_to_bytes_loop base64_rest index_in is_base64
base64_to_bytes s = base64_to_bytes_loop chars0 (map from_url s)
