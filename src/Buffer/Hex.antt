-- ===== src/Buffer/Hex.antt =====
-- src/module/node/buffer/buffer.cpp: the hexadecimal encoding.
pub mod RoundTrip
mod Runs
use zane.Base.{
  ℕ, ◌+◌, ◌-◌, ◌*◌, ◌/◌, ◌%◌, Option, some, none, List, [], ◌∷◌, ◌++◌, length, get_or, replicate,
  bit_and, bit_or, if◌then◌else◌,
}
use zane.Base.Bits.{shl, shr}
use zane.Base.Text.{codes, between, until_nul}

abbrev pub hex_chars : List ℕ
hex_chars = codes "0123456789abcdef"

-- `none` is the source's -1. A byte from 128 on is a negative char, which passes no test either.
unfoldable pub hex_value : ℕ → Option ℕ
hex_value c =
    if between b'0' b'9' c
    then some (c - b'0')
    else if between b'a' b'f' c
    then some (c - b'a' + 10)
    else if between b'A' b'F' c
    then some (c - b'A' + 10)
    else none

unfoldable pub bytes_to_hex : List ℕ → List ℕ
bytes_to_hex [] = []
bytes_to_hex (b ∷ bs) =
    get_or hex_chars (shr b 4) 0 ∷ get_or hex_chars (bit_and b 0x0f) 0 ∷ bytes_to_hex bs

abbrev join_digits : Option ℕ → Option ℕ → Option ℕ
join_digits (some high) (some low) = some (bit_or (shl high 4) low % 256)
join_digits (some high) none = none
join_digits none low = none

-- The bytes that the loop of `from` writes before a pair that is not hexadecimal.
unfoldable pub hex_prefix : List ℕ → List ℕ
hex_prefix [] = []
hex_prefix (c ∷ []) = []
hex_prefix (c ∷ d ∷ s) =
    let rest = hex_prefix s in
    elim (join_digits (hex_value c) (hex_value d)) [ none ↦ [] | some b ↦ b ∷ rest ]

-- `Buffer.from(text, 'hex')`: the buffer has half the length and is filled with zeros at first.
unfoldable pub from_hex : List ℕ → List ℕ
unfolding until_nul hex_prefix hex_value
from_hex text =
    let s = until_nul text in let bs = hex_prefix s in bs ++ replicate (length s / 2 - length bs) 0
