-- ===== src/Buffer/Fixed/Safety.antt =====
-- CHECK_OFFSET as a guard: what it refuses, and the offsets whose sum wraps.
use zane.Base.{ℕ, ◌+◌, ◌-◌, ◌%◌, ◌^◌, ◌≤◌, ◌<◌, ◌≡◌, List, [], ◌∷◌, length, get_elem?-ge, arith}
use zane.Base.Int.{ℤ, pos, negsuc, to_unsigned}
use zane.Buffer.{Value, num, ok, throws, undef, range_error, at, put, get_offset, check_offset}
use zane.Buffer.Window.{check_offset_outside}
use zane.Buffer.Fixed.{read_uint8, read_uint32_be, read_uint32_le, write_uint32_be, write_uint8}

-- An access whose index is past the view is undefined behaviour.
at_outside :
    (data' : List ℕ) (off i : ℕ) → length data' ≤ (off + i) % 2 ^ 64 → at data' off i ≡ undef
unfolding at
at_outside data' off i h = rw (get_elem?-ge data' _ h)

put_outside :
    (data' : List ℕ) (off i v : ℕ) → length data' ≤ (off + i) % 2 ^ 64 → put data' off i v ≡ undef
unfolding put
put_outside data' off i v h = ground arith

-- A read or write of 1 or 4 bytes at an offset that is not negative and leaves the view throws a
-- RangeError, where offset and size add up to less than 2 ^ 64: nothing is read or written.
pub outside_throws :
    (coerce : Value → ℤ) (data' : List ℕ) (off : ℕ) (v : ℤ)
    → length data' < off + 1
    → off + 4 < 2 ^ 64
    → (read_uint8 data' (num (pos off) ∷ []) ≡ throws range_error)
      × (read_uint32_be data' (num (pos off) ∷ []) ≡ throws range_error)
      × (read_uint32_le data' (num (pos off) ∷ []) ≡ throws range_error)
      × (write_uint8 coerce data' (num v ∷ num (pos off) ∷ []) ≡ throws range_error)
      × (write_uint32_be coerce data' (num v ∷ num (pos off) ∷ []) ≡ throws range_error)
unfolding read_uint8 read_uint32_be read_uint32_le write_uint8 write_uint32_be get_offset
outside_throws coerce data' off v h k =
    let same : off % 2 ^ 64 ≡ off = omega arith in
    let one = check_offset_outside off 1 (length data') h (omega arith) in
    let four = check_offset_outside off 4 (length data') (omega arith) k in
    (rw (same, one), rw (same, four), rw (same, four), rw (same, one), rw (same, four))

-- A negative offset -(m + 1) is cast to 2 ^ 64 - 1 - m.
negative_passes :
    (m n len : ℕ)
    → m < n
    → n - m ≤ len + 1
    → n < 2 ^ 32
    → check_offset (to_unsigned 64 (negsuc m)) n len ≡ ok tt
unfolding check_offset
negative_passes m n len h k w = ground arith

-- A negative offset from -1 down to -4 passes the check of the 4-byte methods whenever the view
-- has the bytes that the access would end on, and the methods then access memory in front of it:
-- the sum of offset and size wraps to a small number. readUInt8(-1) passes on every view.
pub negative_offset_undef :
    (coerce : Value → ℤ) (data' : List ℕ) (m : ℕ) (v : ℤ)
    → m ≤ 3
    → 3 - m ≤ length data'
    → length data' < 2 ^ 53
    → (read_uint8 data' (num (negsuc 0) ∷ []) ≡ undef)
      × (read_uint32_be data' (num (negsuc m) ∷ []) ≡ undef)
      × (write_uint32_be coerce data' (num v ∷ num (negsuc m) ∷ []) ≡ undef)
unfolding read_uint8 read_uint32_be write_uint32_be get_offset
negative_offset_undef coerce data' m v h fits k =
    let far : length data' ≤ (to_unsigned 64 (negsuc m) + 0) % 2 ^ 64 = omega arith in
    let one = negative_passes 0 1 (length data') (omega arith) (omega arith) (omega arith) in
    let four = negative_passes m 4 (length data') (omega arith) (omega arith) (omega arith) in
    (
      rw (one, at_outside data' (to_unsigned 64 (negsuc 0)) 0 (omega arith)),
      rw (four, at_outside data' (to_unsigned 64 (negsuc m)) 0 far),
      rw (four, put_outside data' (to_unsigned 64 (negsuc m)) 0 _ far),
    )
