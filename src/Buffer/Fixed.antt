-- ===== src/Buffer/Fixed.antt =====
-- src/module/node/buffer/buffer.cpp: reads and writes of 8, 16 and 32 bits.
mod Bytes
pub mod RoundTrip
mod Widths
mod Safety
mod Runs
use zane.Base.{
  ℕ, ◌+◌, ◌*◌, ◌/◌, ◌%◌, ◌^◌, Option, some, none, List, [], ◌∷◌, length, get_elem?, bit_or,
}
use zane.Base.Bits.{shr}
use zane.Base.Int.{ℤ, to_unsigned, to_signed}
use zane.Buffer.{
  Value, Outcome, ok, ◌>>=◌, ◌>>◌, size_arg, integer_value, get_offset, check_offset, at, put,
}

-- `<<` on a uint32_t.
abbrev pub shl32 : ℕ → ℕ → ℕ
shl32 x k = x * 2 ^ k % 2 ^ 32

pub read_uint8 : List ℕ → List Value → Outcome ℕ
read_uint8 data' args = do
  let off = get_offset args
  check_offset off 1 (length data')
  at data' off 0

pub read_int8 : List ℕ → List Value → Outcome ℤ
read_int8 data' args = do
  let off = get_offset args
  check_offset off 1 (length data')
  a ← at data' off 0
  ok (to_signed 8 a)

-- `(p[0] << 8) | p[1]`
abbrev pub join16 : ℕ → ℕ → ℕ
join16 a b = bit_or (shl32 a 8) b

pub read_uint16_be : List ℕ → List Value → Outcome ℕ
read_uint16_be data' args = do
  let off = get_offset args
  check_offset off 2 (length data')
  a ← at data' off 0
  b ← at data' off 1
  ok (join16 a b)

pub read_uint16_le : List ℕ → List Value → Outcome ℕ
read_uint16_le data' args = do
  let off = get_offset args
  check_offset off 2 (length data')
  b ← at data' off 1
  a ← at data' off 0
  ok (join16 b a)

pub read_int16_be : List ℕ → List Value → Outcome ℤ
read_int16_be data' args = do
  let off = get_offset args
  check_offset off 2 (length data')
  a ← at data' off 0
  b ← at data' off 1
  ok (to_signed 16 (join16 a b % 2 ^ 16))

pub read_int16_le : List ℕ → List Value → Outcome ℤ
read_int16_le data' args = do
  let off = get_offset args
  check_offset off 2 (length data')
  b ← at data' off 1
  a ← at data' off 0
  ok (to_signed 16 (join16 b a % 2 ^ 16))

-- `(p[0] << 24) | (p[1] << 16) | (p[2] << 8) | p[3]`
abbrev pub join32 : ℕ → ℕ → ℕ → ℕ → ℕ
join32 a b c d = bit_or (bit_or (bit_or (shl32 a 24) (shl32 b 16)) (shl32 c 8)) d

pub read_uint32_be : List ℕ → List Value → Outcome ℕ
read_uint32_be data' args = do
  let off = get_offset args
  check_offset off 4 (length data')
  a ← at data' off 0
  b ← at data' off 1
  c ← at data' off 2
  d ← at data' off 3
  ok (join32 a b c d)

pub read_uint32_le : List ℕ → List Value → Outcome ℕ
read_uint32_le data' args = do
  let off = get_offset args
  check_offset off 4 (length data')
  d ← at data' off 3
  c ← at data' off 2
  b ← at data' off 1
  a ← at data' off 0
  ok (join32 d c b a)

pub read_int32_be : List ℕ → List Value → Outcome ℤ
read_int32_be data' args = do
  let off = get_offset args
  check_offset off 4 (length data')
  a ← at data' off 0
  b ← at data' off 1
  c ← at data' off 2
  d ← at data' off 3
  ok (to_signed 32 (join32 a b c d))

pub read_int32_le : List ℕ → List Value → Outcome ℤ
read_int32_le data' args = do
  let off = get_offset args
  check_offset off 4 (length data')
  d ← at data' off 3
  c ← at data' off 2
  b ← at data' off 1
  a ← at data' off 0
  ok (to_signed 32 (join32 d c b a))

-- What a write leaves: the bytes of the view, and the number that it returns, if any.
abbrev pub Written : Type 0
Written = List ℕ × Option ℤ

-- `static_cast<int32_t>(off + n)`
abbrev pub next_offset : ℕ → ℕ → Option ℤ
next_offset off n = some (to_signed 32 ((off + n) % 2 ^ 32))

-- `static_cast<uint8_t>(val >> k)`
abbrev pub byte_of : ℕ → ℕ → ℕ
byte_of val k = shr val k % 256

-- What the writes of one width do once the offset is checked.
pub put8 : List ℕ → ℕ → ℕ → Outcome Written
put8 data' off val = do d ← put data' off 0 (byte_of val 0); ok (d, next_offset off 1)

pub put16_be : List ℕ → ℕ → ℕ → Outcome Written
put16_be data' off val = do
  d ← put data' off 0 (byte_of val 8)
  e ← put d off 1 (byte_of val 0)
  ok (e, next_offset off 2)

pub put16_le : List ℕ → ℕ → ℕ → Outcome Written
put16_le data' off val = do
  d ← put data' off 0 (byte_of val 0)
  e ← put d off 1 (byte_of val 8)
  ok (e, next_offset off 2)

pub put32_be : List ℕ → ℕ → ℕ → Outcome Written
put32_be data' off val = do
  d ← put data' off 0 (byte_of val 24)
  e ← put d off 1 (byte_of val 16)
  f ← put e off 2 (byte_of val 8)
  g ← put f off 3 (byte_of val 0)
  ok (g, next_offset off 4)

pub put32_le : List ℕ → ℕ → ℕ → Outcome Written
put32_le data' off val = do
  d ← put data' off 0 (byte_of val 0)
  e ← put d off 1 (byte_of val 8)
  f ← put e off 2 (byte_of val 16)
  g ← put f off 3 (byte_of val 24)
  ok (g, next_offset off 4)

-- `if (args.Length() < 1) return;`, GET_WRITE_OFFSET(args, n), and the write.
pub with_write_offset :
    ℕ → (List ℕ → ℕ → ℕ → Outcome Written) → (Value → ℕ) → List ℕ → List Value → Outcome Written
with_write_offset n store convert data' [] = ok (data', none)
with_write_offset n store convert data' (v ∷ rest) = do
  let off = size_arg (v ∷ rest) 1 0
  check_offset off n (length data')
  store data' off (convert v)

-- Uint32Value, and `static_cast<uint32_t>` of Int32Value: the same 32 bits of the number.
module _ (coerce : Value → ℤ) where
  abbrev pub uint32_value : Value → ℕ
  uint32_value v = to_unsigned 32 (integer_value coerce (some v))

  pub write_uint8 : List ℕ → List Value → Outcome Written
  unfolding with_write_offset put8
  write_uint8 = with_write_offset 1 put8 uint32_value

  pub write_int8 : List ℕ → List Value → Outcome Written
  unfolding with_write_offset put8
  write_int8 = with_write_offset 1 put8 uint32_value

  pub write_uint16_be : List ℕ → List Value → Outcome Written
  unfolding with_write_offset put16_be
  write_uint16_be = with_write_offset 2 put16_be uint32_value

  pub write_uint16_le : List ℕ → List Value → Outcome Written
  unfolding with_write_offset put16_le
  write_uint16_le = with_write_offset 2 put16_le uint32_value

  pub write_int16_be : List ℕ → List Value → Outcome Written
  unfolding with_write_offset put16_be
  write_int16_be = with_write_offset 2 put16_be uint32_value

  pub write_int16_le : List ℕ → List Value → Outcome Written
  unfolding with_write_offset put16_le
  write_int16_le = with_write_offset 2 put16_le uint32_value

  pub write_uint32_be : List ℕ → List Value → Outcome Written
  unfolding with_write_offset put32_be
  write_uint32_be = with_write_offset 4 put32_be uint32_value

  pub write_uint32_le : List ℕ → List Value → Outcome Written
  unfolding with_write_offset put32_le
  write_uint32_le = with_write_offset 4 put32_le uint32_value

  pub write_int32_be : List ℕ → List Value → Outcome Written
  unfolding with_write_offset put32_be
  write_int32_be = with_write_offset 4 put32_be uint32_value

  pub write_int32_le : List ℕ → List Value → Outcome Written
  unfolding with_write_offset put32_le
  write_int32_le = with_write_offset 4 put32_le uint32_value
