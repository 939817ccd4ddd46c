-- ===== src/Buffer/Hex/RoundTrip.antt =====
-- Encoding and decoding in hexadecimal.
use zane.Base.{
  ℕ, ◌-◌, ◌*◌, ◌/◌, ◌%◌, ◌≤◌, ◌<◌, min, ◌≡◌, refl, ap, ◌∙◌, Option, some, none, List, [], ◌∷◌, ◌++◌,
  length, length-append, get_or, replicate, All, bit_and, bit_or, ne→==_false, arith,
}
use zane.Base.Bits.{shl, shr, agree, agree-eq, low_four, bit_or-shl}
use zane.Base.Text.{until_nul}
use mathlib.Core.List.{append_assoc}
use zane.Buffer.{IsByte}
use zane.Buffer.Hex.{hex_chars, hex_value, bytes_to_hex, hex_prefix, from_hex}

abbrev digit : ℕ → ℕ
digit i = get_or hex_chars i 0

abbrev value_or : Option ℕ → ℕ
value_or none = 99
value_or (some n) = n

value_of_digit : {i : ℕ} → i < 16 → value_or (hex_value (digit i)) ≡ i
unfolding hex_value agree
value_of_digit = agree-eq (λ i. value_or (hex_value (digit i))) (λ i. i) 16 refl

some_of : (o : Option ℕ) (i : ℕ) → value_or o ≡ i → i < 16 → o ≡ some i
some_of none i e h = absurd (omega arith)
some_of (some n) i e h = ap some e

hex_value-digit : (i : ℕ) → i < 16 → hex_value (digit i) ≡ some i
hex_value-digit i h = some_of (hex_value (digit i)) i (value_of_digit h) h

digit_nonzero : {i : ℕ} → i < 16 → min 1 (digit i) ≡ 1
unfolding agree
digit_nonzero = agree-eq (λ i. min 1 (digit i)) (λ i. 1) 16 refl

high_digit : (b : ℕ) → IsByte b → shr b 4 < 16
high_digit b h = omega arith

low_digit : (b : ℕ) → IsByte b → bit_and b 0x0f < 16
low_digit b h = omega (arith, low_four h)

join_byte : (b : ℕ) → IsByte b → bit_or (shl (shr b 4) 4) (bit_and b 0x0f) % 256 ≡ b
join_byte b h =
    omega (arith, low_four h, bit_or-shl 4 (shr b 4) (bit_and b 0x0f) (omega (arith, low_four h)))

-- The digits of a byte, in front of any text.
module _ (b : ℕ) (h : IsByte b) (s : List ℕ) where
  hex_prefix-digits : hex_prefix (digit (shr b 4) ∷ digit (bit_and b 0x0f) ∷ s) ≡ b ∷ hex_prefix s
  unfolding hex_prefix
  hex_prefix-digits =
      rw
        (
          hex_value-digit (shr b 4) (high_digit b h),
          hex_value-digit (bit_and b 0x0f) (low_digit b h),
          hex_prefix,
        )
        (ap (λ (t : ℕ). t ∷ hex_prefix s) (join_byte b h))

  until_nul-digits :
      until_nul (digit (shr b 4) ∷ digit (bit_and b 0x0f) ∷ s)
      ≡ digit (shr b 4) ∷ digit (bit_and b 0x0f) ∷ until_nul s
  unfolding until_nul
  until_nul-digits = rw (
    ne→==_false (digit (shr b 4)) 0 (omega (arith, digit_nonzero (high_digit b h))),
    ne→==_false (digit (bit_and b 0x0f)) 0 (omega (arith, digit_nonzero (low_digit b h))),
  )

hex_prefix-bytes_to_hex :
    (bs tail : List ℕ)
    → All IsByte bs
    → hex_prefix (bytes_to_hex bs ++ tail) ≡ bs ++ hex_prefix tail
unfolding bytes_to_hex
hex_prefix-bytes_to_hex [] tail h = refl
hex_prefix-bytes_to_hex (b ∷ bs) tail (hb, h) =
    hex_prefix-digits b hb (bytes_to_hex bs ++ tail)
    ∙ ap (◌∷◌ b) (hex_prefix-bytes_to_hex bs tail h)

until_nul-bytes_to_hex :
    (bs tail : List ℕ)
    → All IsByte bs
    → until_nul (bytes_to_hex bs ++ tail) ≡ bytes_to_hex bs ++ until_nul tail
unfolding bytes_to_hex
until_nul-bytes_to_hex [] tail h = refl
until_nul-bytes_to_hex (b ∷ bs) tail (hb, h) =
    until_nul-digits b hb (bytes_to_hex bs ++ tail)
    ∙ ap (λ t. digit (shr b 4) ∷ digit (bit_and b 0x0f) ∷ t) (until_nul-bytes_to_hex bs tail h)

length-bytes_to_hex : (bs : List ℕ) → length (bytes_to_hex bs) ≡ 2 * length bs
unfolding bytes_to_hex
length-bytes_to_hex [] = omega arith
length-bytes_to_hex (b ∷ bs) = omega (arith, length-bytes_to_hex bs)

-- Decoding the hexadecimal digits of some bytes, with any text behind them, gives the bytes and then
-- what that text decodes to; with no text behind them, it gives the bytes back.
pub from_hex-bytes_to_hex :
    (bs tail : List ℕ) → All IsByte bs → from_hex (bytes_to_hex bs ++ tail) ≡ bs ++ from_hex tail
unfolding from_hex
from_hex-bytes_to_hex bs tail h =
    let u = until_nul tail in
    let p = hex_prefix u in
    let room : length (bytes_to_hex bs ++ u) / 2 - length (bs ++ p) ≡ length u / 2 - length p =
      omega
        (arith, length-append (bytes_to_hex bs) u, length-append bs p, length-bytes_to_hex bs) in
    rw (until_nul-bytes_to_hex bs tail h, hex_prefix-bytes_to_hex bs u h, room)
      (append_assoc bs p _)

pub until_nul-whole : (s : List ℕ) → All (λ c. 1 ≤ c) s → until_nul s ≡ s
unfolding until_nul
until_nul-whole [] h = refl
until_nul-whole (c ∷ s) (p, h) =
    rw (ne→==_false c 0 (omega arith)) (ap (◌∷◌ c) (until_nul-whole s h))

-- A pair that is not hexadecimal ends the decoding of a text without NUL, but the buffer keeps the
-- length of half the text: the bytes from there on are 0.
pub from_hex_invalid :
    (bs : List ℕ) (c d : ℕ) (rest : List ℕ)
    → All IsByte bs
    → All (λ x. 1 ≤ x) (c ∷ d ∷ rest)
    → hex_value c ≡ none
    → from_hex (bytes_to_hex bs ++ (c ∷ d ∷ rest)) ≡ bs ++ replicate (length (c ∷ d ∷ rest) / 2) 0
unfolding from_hex
from_hex_invalid bs c d rest h nonzero bad =
    from_hex-bytes_to_hex bs (c ∷ d ∷ rest) h
    ∙ ap (◌++◌ bs) (stop (c ∷ d ∷ rest) (until_nul-whole (c ∷ d ∷ rest) nonzero) empty)
  where
    empty : hex_prefix (c ∷ d ∷ rest) ≡ []
    empty = unfold hex_prefix in rw (bad, hex_prefix)

    stop :
        (s : List ℕ) → until_nul s ≡ s → hex_prefix s ≡ [] → from_hex s ≡ replicate (length s / 2) 0
    stop s e p =
        rw (e, p)
          (ap (λ (n : ℕ). replicate n 0)
            (let z : length s / 2 - 0 ≡ length s / 2 = omega arith in z))
