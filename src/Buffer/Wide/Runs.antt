-- ===== src/Buffer/Wide/Runs.antt =====
-- Runs of the variable-length and BigInt methods, and the theorems at concrete inputs.
use zane.Base.{ℕ, ◌≡◌, refl, List, [], ◌∷◌}
use zane.Base.Int.{ℤ, pos}
use zane.Buffer.{Value, num, bigint, ok, undef, at, put, get_offset, check_offset}
use zane.Buffer.Fixed.{next_offset}
use zane.Buffer.Wide.{
  read_int_be, read_big_int64_be, write_big_int64_be, load_up, store_down, sign_extend, copy_out,
  copy_in,
}

abbrev no_coercion : Value → ℤ
no_coercion v = pos 0

abbrev ten : List ℕ
ten = 0 ∷ 0 ∷ 0 ∷ 0 ∷ 0 ∷ 0 ∷ 0 ∷ 0 ∷ 0 ∷ 0 ∷ []

-- writeBigInt64BE(1n) stores the low byte first, and readBigInt64BE then gives 2 ^ 56.
big_int64_be_bytes :
    write_big_int64_be ten (bigint (pos 1) ∷ [])
    ≡ ok (1 ∷ 0 ∷ 0 ∷ 0 ∷ 0 ∷ 0 ∷ 0 ∷ 0 ∷ 0 ∷ 0 ∷ [], next_offset 0 8)
unfolding write_big_int64_be store_down copy_out copy_in put at check_offset
big_int64_be_bytes = refl

big_int64_be_reads :
    read_big_int64_be (1 ∷ 0 ∷ 0 ∷ 0 ∷ 0 ∷ 0 ∷ 0 ∷ 0 ∷ []) [] ≡ ok (pos 0x0100_0000_0000_0000)
unfolding read_big_int64_be load_up at check_offset get_offset
big_int64_be_reads = refl

-- readIntBE(0, 0) shifts an int64_t by 64.
read_no_bytes : read_int_be no_coercion ten (num (pos 0) ∷ num (pos 0) ∷ []) ≡ undef
unfolding read_int_be load_up sign_extend check_offset
read_no_bytes = refl
