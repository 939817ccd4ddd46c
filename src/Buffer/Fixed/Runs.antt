-- ===== src/Buffer/Fixed/Runs.antt =====
-- Runs of the fixed-width methods, and the theorems at concrete inputs.
use zane.Base.{ℕ, ◌≡◌, refl, List, [], ◌∷◌, arith}
use zane.Base.Int.{ℤ, pos, negsuc}
use zane.Buffer.{Value, num, ok, undef, at, get_offset, check_offset}
use zane.Buffer.Fixed.{read_uint8, read_int16_le, read_uint32_be, write_uint32_be}
use zane.Buffer.Fixed.RoundTrip.{RoundTrip}
use zane.Buffer.Fixed.Safety.{negative_offset_undef}

abbrev no_coercion : Value → ℤ
no_coercion v = pos 0

abbrev five : List ℕ
five = 1 ∷ 2 ∷ 3 ∷ 4 ∷ 5 ∷ []

read_be : read_uint32_be five (num (pos 1) ∷ []) ≡ ok 0x02030405
unfolding read_uint32_be get_offset check_offset at
read_be = refl

read_negative : read_int16_le (0xfe ∷ 0xff ∷ []) [] ≡ ok (negsuc 1)
unfolding read_int16_le get_offset check_offset at
read_negative = refl

negative_offset_undef_example :
    (read_uint8 five (num (negsuc 0) ∷ []) ≡ undef)
    × (read_uint32_be five (num (negsuc 1) ∷ []) ≡ undef)
    × (write_uint32_be no_coercion five (num (pos 9) ∷ num (negsuc 1) ∷ []) ≡ undef)
negative_offset_undef_example =
    negative_offset_undef no_coercion five 1 (pos 9) (omega arith) (omega arith) (omega arith)
