-- ===== src/Buffer.antt =====
-- src/module/node/buffer/buffer.cpp: the values a method receives from V8, and the raw access to
-- the bytes of a view. A view is the list of its bytes (`Data() + ByteOffset()`, `ByteLength()`).
pub mod Window
pub mod Fixed
pub mod Wide
pub mod Hex
pub mod Base64
pub mod Convert
pub mod Fill
pub mod Copy
pub mod Slice
pub mod Compare
pub mod Search
pub mod Swap
pub mod Validate
pub mod Make
use zane.Base.{
  ℕ, ◌+◌, ◌%◌, ◌^◌, ◌<◌, ◌≡◌, Bool, true, false, Option, none, some, List, [], ◌∷◌, length,
  get_elem?, set, All, ltb, if◌then◌else◌,
}
use zane.Base.Int.{ℤ, pos, to_unsigned}

pub data Error : Type 0 where
  range_error type_error : Error

-- `undef` is undefined behaviour: an access outside the view, or a shift by an illegal amount.
pub data Outcome {ℓ} (A : Type ℓ) : Type ℓ where
  ok : A → Outcome A
  throws : Error → Outcome A
  undef : Outcome A

infixl 5 ◌>>=◌ ◌>>◌
abbrev pub ◌>>=◌ {ℓ κ} : {A : Type ℓ} {B : Type κ} → Outcome A → (A → Outcome B) → Outcome B
ok a >>= f = f a
throws e >>= f = throws e
undef >>= f = undef

abbrev pub ◌>>◌ {ℓ} : {B : Type ℓ} → Outcome (Unit {0}) → Outcome B → Outcome B
m >> k = m >>= λ _. k

-- An element of a JavaScript array, as far as the methods look at it.
pub data Item : Type 0 where
  number : ℤ → Item
  view : List ℕ → Item
  thing : Item

-- A JavaScript value: numbers are integers of the int64_t range, a string is its UTF-8 bytes, a
-- Uint8Array or an ArrayBuffer is its bytes, in a memory of its own.
pub data Value : Type 0 where
  undefined : Value
  num : ℤ → Value
  bigint : ℤ → Value
  str : List ℕ → Value
  bytes : List ℕ → Value
  array_buffer : List ℕ → Value
  array : List Item → Value
  object : Value

abbrev pub IsByte : ℕ → Type 0
IsByte b = b < 256

-- V8 makes no buffer of 2 ^ 53 bytes or more.
abbrev pub IsBuffer : List ℕ → Type 0
IsBuffer data' = All IsByte data' × (length data' < 2 ^ 53)

abbrev pub as_num : Option Value → Option ℤ
as_num (some (num n)) = some n
as_num _ = none

-- `args.Length() > i && args[i]->IsNumber()`, with the IntegerValue of the number.
abbrev pub num_arg : List Value → ℕ → Option ℤ
num_arg args i = as_num (get_elem? args i)

abbrev pub size_of : Option ℤ → ℕ → ℕ
size_of none d = d
size_of (some n) d = to_unsigned 64 n

-- An optional size_t argument with its default.
abbrev pub size_arg : List Value → ℕ → ℕ → ℕ
size_arg args i d = size_of (num_arg args i) d

-- `IntegerValue` of a value that need not be a number: `coerce` is V8's conversion of the others.
abbrev pub integer_value : (Value → ℤ) → Option Value → ℤ
integer_value coerce (some (num n)) = n
integer_value coerce (some v) = coerce v
integer_value coerce none = coerce undefined

abbrev pub or_undef {ℓ} : {A : Type ℓ} → Option A → Outcome A
or_undef none = undef
or_undef (some a) = ok a

-- getOffset
unfoldable pub get_offset : List Value → ℕ
get_offset args = size_arg args 0 0

-- CHECK_OFFSET: the sum of two size_t wraps.
unfoldable pub check_offset : ℕ → ℕ → ℕ → Outcome (Unit {0})
check_offset off n len = if ltb len ((off + n) % 2 ^ 64) then throws range_error else ok tt

-- `p_data[off + i]` as a value, and as the target of an assignment.
unfoldable pub at : List ℕ → ℕ → ℕ → Outcome ℕ
at data' off i = or_undef (get_elem? data' ((off + i) % 2 ^ 64))

unfoldable pub put : List ℕ → ℕ → ℕ → ℕ → Outcome (List ℕ)
put data' off i v =
    if ltb ((off + i) % 2 ^ 64) (length data') then ok (set data' ((off + i) % 2 ^ 64) v) else undef
