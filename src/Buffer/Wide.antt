-- ===== src/Buffer/Wide.antt =====
-- src/module/node/buffer/buffer.cpp: reads and writes of a number of bytes that is an argument, and
-- of 64-bit BigInts. A read gives the integer before its conversion to a double.
mod Digits
mod Load
mod Sign
mod RoundTrip
mod BigInt
mod Runs
use zane.Base.{
  ℕ, zero, suc, ◌+◌, ◌-◌, ◌*◌, ◌/◌, ◌%◌, ◌^◌, Bool, true, false, ◌||◌, Option, some, none, List, [],
  ◌∷◌, length, get_elem?, bit_or, reverse, ltb, ◌==◌, if◌then◌else◌,
}
use zane.Base.Bits.{shr}
use zane.Base.Int.{ℤ, pos, negsuc, to_unsigned, to_signed}
use zane.Buffer.{
  Value, bigint, Outcome, ok, throws, undef, range_error, ◌>>=◌, ◌>>◌, size_arg, integer_value,
  get_offset, check_offset, at, put,
}
use zane.Buffer.Fixed.{Written, next_offset}

-- `val << k` on a 64-bit pattern, and `>>` on a signed value.
abbrev pub shl64 : ℕ → ℕ → ℕ
shl64 x k = x * 2 ^ k % 2 ^ 64

abbrev pub asr : ℤ → ℕ → ℤ
asr (pos n) k = pos (shr n k)
asr (negsuc n) k = negsuc (shr n k)

-- `for (i = i0; i < n; i++) val = (val << 8) | p_data[off + i]`, with n - i0 rounds left.
pub load_up : ℕ → List ℕ → ℕ → ℕ → ℕ → Outcome ℕ
load_up zero data' off i val = ok val
load_up (suc k) data' off i val = do
  b ← at data' off i
  load_up k data' off (i + 1) (bit_or (shl64 val 8) b)

-- `for (i = n - 1; i >= 0; i--) val = (val << 8) | p_data[off + i]`
pub load_down : ℕ → List ℕ → ℕ → ℕ → Outcome ℕ
load_down zero data' off val = ok val
load_down (suc k) data' off val = do
  b ← at data' off k
  load_down k data' off (bit_or (shl64 val 8) b)

-- `for (i = n - 1; i >= 0; i--) { p_data[off + i] = val & 0xff; val >>= 8; }`
pub store_down : ℕ → List ℕ → ℕ → ℤ → Outcome (List ℕ)
store_down zero data' off val = ok data'
store_down (suc k) data' off val = do
  d ← put data' off k (to_unsigned 8 val)
  store_down k d off (asr val 8)

-- `for (i = 0; i < n; i++) { p_data[off + i] = val & 0xff; val >>= 8; }`
pub store_up : ℕ → List ℕ → ℕ → ℕ → ℤ → Outcome (List ℕ)
store_up zero data' off i val = ok data'
store_up (suc k) data' off i val = do
  d ← put data' off i (to_unsigned 8 val)
  store_up k d off (i + 1) (asr val 8)

-- The rounds of a loop that starts at `static_cast<int32_t>(n) - 1` and counts down to 0.
pub down_rounds : ℕ → Outcome ℕ
down_rounds n =
    let m = n % 2 ^ 32 in if ltb m (2 ^ 31) then ok m else if m == 2 ^ 31 then undef else ok 0

-- `shift = 64 - 8 * n; val = (val << shift) >> shift`; a shift by 64 or more, or by a negative
-- number, is undefined.
pub sign_extend : ℕ → ℕ → Outcome ℤ
sign_extend n val =
    if n == 0 || ltb 8 n
    then undef
    else ok (asr (to_signed 64 (shl64 val (64 - 8 * n))) (64 - 8 * n))

module _ (coerce : Value → ℤ) where
  -- `static_cast<size_t>(args[i]->IntegerValue(context).FromMaybe(0))`, of any value.
  abbrev pub size_value : List Value → ℕ → ℕ
  size_value args i = to_unsigned 64 (integer_value coerce (get_elem? args i))

  -- What the variable-length reads do before and around the loop.
  abbrev pub with_window {ℓ} : {A : Type ℓ} → (ℕ → ℕ → Outcome A) → List ℕ → List Value → Outcome A
  with_window body data' args = if ltb (length args) 2 then throws range_error else do
    let off = size_value args 0
    let n = size_value args 1
    check_offset off n (length data')
    body off n

  pub read_int_be : List ℕ → List Value → Outcome ℤ
  read_int_be data' =
      with_window (λ off n. do val ← load_up n data' off 0 0; sign_extend n val) data'

  pub read_int_le : List ℕ → List Value → Outcome ℤ
  read_int_le data' =
      with_window (λ off n. do k ← down_rounds n; val ← load_down k data' off 0; sign_extend n val)
        data'

  pub read_uint_be : List ℕ → List Value → Outcome ℕ
  read_uint_be data' = with_window (λ off n. load_up n data' off 0 0) data'

  pub read_uint_le : List ℕ → List Value → Outcome ℕ
  read_uint_le data' = with_window (λ off n. do k ← down_rounds n; load_down k data' off 0) data'

  -- What the variable-length writes do around the loop.
  abbrev pub with_store :
      (List ℕ → ℕ → ℕ → ℤ → Outcome (List ℕ)) → List ℕ → List Value → Outcome Written
  with_store body data' args = if ltb (length args) 3 then ok (data', none) else do
    let val = integer_value coerce (get_elem? args 0)
    let off = size_value args 1
    let n = size_value args 2
    check_offset off n (length data')
    d ← body data' off n val
    ok (d, next_offset off n)

  pub write_int_be : List ℕ → List Value → Outcome Written
  write_int_be = with_store λ data' off n val. do k ← down_rounds n; store_down k data' off val

  pub write_int_le : List ℕ → List Value → Outcome Written
  write_int_le = with_store λ data' off n val. store_up n data' off 0 val

  -- `static_cast<uint64_t>` of a negative double is undefined.
  abbrev as_uint64 : ℤ → Outcome ℤ
  as_uint64 (pos n) = ok (pos n)
  as_uint64 (negsuc n) = undef

  pub write_uint_be : List ℕ → List Value → Outcome Written
  write_uint_be data' args = if ltb (length args) 3 then ok (data', none) else do
    val ← as_uint64 (integer_value coerce (get_elem? args 0))
    let off = size_value args 1
    let n = size_value args 2
    check_offset off n (length data')
    k ← down_rounds n
    d ← store_down k data' off val
    ok (d, next_offset off n)

  pub write_uint_le : List ℕ → List Value → Outcome Written
  write_uint_le data' args = if ltb (length args) 3 then ok (data', none) else do
    val ← as_uint64 (integer_value coerce (get_elem? args 0))
    let off = size_value args 1
    let n = size_value args 2
    check_offset off n (length data')
    d ← store_up n data' off 0 val
    ok (d, next_offset off n)

pub read_big_uint64_be : List ℕ → List Value → Outcome ℕ
read_big_uint64_be data' args = do
  let off = get_offset args
  check_offset off 8 (length data')
  load_up 8 data' off 0 0

pub read_big_uint64_le : List ℕ → List Value → Outcome ℕ
read_big_uint64_le data' args = do
  let off = get_offset args
  check_offset off 8 (length data')
  load_down 8 data' off 0

pub read_big_int64_be : List ℕ → List Value → Outcome ℤ
read_big_int64_be data' args = do
  let off = get_offset args
  check_offset off 8 (length data')
  val ← load_up 8 data' off 0 0
  ok (to_signed 64 val)

pub read_big_int64_le : List ℕ → List Value → Outcome ℤ
read_big_int64_le data' args = do
  let off = get_offset args
  check_offset off 8 (length data')
  val ← load_down 8 data' off 0
  ok (to_signed 64 val)

abbrev as_bigint : Option Value → Option ℤ
as_bigint (some (bigint n)) = some n
as_bigint _ = none

-- `if (args.Length() < 1 || !args[0]->IsBigInt()) return;` and GET_WRITE_OFFSET(args, 8).
abbrev with_bigint : (List ℕ → ℕ → ℤ → Outcome (List ℕ)) → List ℕ → List Value → Outcome Written
with_bigint body data' args = elim (as_bigint (get_elem? args 0)) [
  | none ↦ ok (data', none)
  | some n ↦ do
    let off = size_arg args 1 0
    check_offset off 8 (length data')
    d ← body data' off n
    ok (d, next_offset off 8)
]

-- `memcpy(tmp, p_w + off, n)`, and `p_w[off + i] = tmp[..]` in the order of the list.
pub copy_out : ℕ → List ℕ → ℕ → ℕ → Outcome (List ℕ)
copy_out zero data' off i = ok []
copy_out (suc k) data' off i = do b ← at data' off i; bs ← copy_out k data' off (i + 1); ok (b ∷ bs)

pub copy_in : List ℕ → List ℕ → ℕ → ℕ → Outcome (List ℕ)
copy_in [] data' off i = ok data'
copy_in (b ∷ bs) data' off i = do d ← put data' off i b; copy_in bs d off (i + 1)

-- BigInt::Int64Value and BigInt::Uint64Value
abbrev pub int64_value : ℤ → ℤ
int64_value n = to_signed 64 (to_unsigned 64 n)

abbrev pub uint64_value : ℤ → ℕ
uint64_value n = to_unsigned 64 n

pub write_big_int64_be : List ℕ → List Value → Outcome Written
write_big_int64_be = with_bigint λ data' off n. do
  d ← store_down 8 data' off (int64_value n)
  tmp ← copy_out 8 d off 0
  copy_in (reverse tmp) d off 0

pub write_big_int64_le : List ℕ → List Value → Outcome Written
write_big_int64_le = with_bigint λ data' off n. store_up 8 data' off 0 (int64_value n)

-- `p_w[off + i] = (val >> (56 - i * 8)) & 0xff`
pub store_shifts : ℕ → List ℕ → ℕ → ℕ → ℕ → Outcome (List ℕ)
store_shifts zero data' off i val = ok data'
store_shifts (suc k) data' off i val = do
  d ← put data' off i (shr val (56 - i * 8) % 256)
  store_shifts k d off (i + 1) val

pub write_big_uint64_be : List ℕ → List Value → Outcome Written
write_big_uint64_be = with_bigint λ data' off n. store_shifts 8 data' off 0 (uint64_value n)

pub write_big_uint64_le : List ℕ → List Value → Outcome Written
write_big_uint64_le = with_bigint λ data' off n. store_up 8 data' off 0 (pos (uint64_value n))
