-- ===== src/Buffer/Search.antt =====
-- src/module/node/buffer/buffer.cpp: indexOf, lastIndexOf and includes.
mod Found
mod Runs
use zane.Base.{
  ℕ, zero, suc, ◌+◌, ◌-◌, ◌%◌, min, Bool, true, false, ◌&&◌, Option, some, none, List, [], ◌∷◌,
  length, get_elem?, take, drop, ltb, leb, if◌then◌else◌,
}
use zane.Base.Int.{ℤ, pos, negsuc, to_unsigned, sub_ℕ, ltb_ℤ, int32}
use zane.Base.Text.{same}
use zane.Buffer.{Value, num, str, bytes, num_arg}

-- `memcmp(p_haystack + i, p_needle, needle_len) == 0`.
unfoldable pub matches : List ℕ → List ℕ → ℕ → Bool
unfolding same
matches haystack needle i = same (take (length needle) (drop i haystack)) needle

-- `for (i = i; i < i + rounds; i++)`, and the loop downwards from `rounds - 1`.
unfoldable pub first_match : List ℕ → List ℕ → ℕ → ℕ → ℤ
unfolding matches
first_match haystack needle i zero = negsuc 0
first_match haystack needle i (suc rounds) =
    let more = first_match haystack needle (i + 1) rounds in
    if matches haystack needle i then pos i else more

unfoldable pub last_match : List ℕ → List ℕ → ℕ → ℤ
unfolding matches
last_match haystack needle zero = negsuc 0
last_match haystack needle (suc i) =
    let more = last_match haystack needle i in if matches haystack needle i then pos i else more

-- The number of rounds of the loop downwards from an int64_t.
abbrev pub rounds_from : ℤ → ℕ
rounds_from (pos i) = suc i
rounds_from (negsuc n) = 0

abbrev pub smaller : ℤ → ℤ → ℤ
smaller a b = if ltb_ℤ a b then a else b

-- bufferIndexOf, forwards from an offset that is not negative, and in reverse.
unfoldable pub index_forward : List ℕ → List ℕ → ℕ → ℤ
unfolding first_match
index_forward haystack [] byte_offset = pos byte_offset
index_forward haystack (x ∷ needle) byte_offset =
    let n = length (x ∷ needle) in
    if ltb (length haystack) n
    then negsuc 0
    else first_match haystack (x ∷ needle) byte_offset (length haystack - n + 1 - byte_offset)

unfoldable pub index_reverse : List ℕ → List ℕ → ℤ → ℤ
unfolding last_match
index_reverse haystack [] byte_offset = pos (length haystack)
index_reverse haystack (x ∷ needle) byte_offset =
    let n = length (x ∷ needle) in
    if ltb (length haystack) n
    then negsuc 0
    else last_match haystack (x ∷ needle)
        (rounds_from (smaller byte_offset (pos (length haystack - n))))

-- A negative offset counts from the end, and is clamped by indexOf only.
abbrev pub from_start : ℕ → Option ℤ → ℕ
from_start len none = 0
from_start len (some (pos n)) = n
from_start len (some (negsuc n)) = len - suc n

abbrev pub from_end : ℕ → Option ℤ → ℤ
from_end len none = sub_ℕ len 1
from_end len (some (pos n)) = pos n
from_end len (some (negsuc n)) = sub_ℕ len (suc n)

abbrev pub low_byte : ℤ → ℕ
low_byte z = to_unsigned 32 z % 256

-- The place that indexOf finds, an int64_t. A byte is looked for as a needle of one byte.
unfoldable pub first_place : List ℕ → List Value → ℤ
unfolding first_match index_forward
first_place data' [] = negsuc 0
first_place data' (v ∷ rest) =
    let byte_offset = from_start (length data') (num_arg (v ∷ rest) 1) in
    elim v [
      | num z ↦ first_match data' (low_byte z ∷ []) byte_offset (length data' - byte_offset)
      | str s ↦ index_forward data' s byte_offset
      | bytes needle ↦ index_forward data' needle byte_offset
      | _ ↦ negsuc 0
    ]

unfoldable pub index_of : List ℕ → List Value → ℤ
unfolding first_place
index_of data' args = int32 (first_place data' args)

unfoldable pub last_place : List ℕ → List Value → ℤ
unfolding last_match index_reverse
last_place data' [] = negsuc 0
last_place data' (v ∷ rest) =
    let byte_offset = from_end (length data') (num_arg (v ∷ rest) 1) in
    elim v [
      | num z ↦
          last_match data' (low_byte z ∷ [])
            (rounds_from (smaller byte_offset (sub_ℕ (length data') 1)))
      | str s ↦ index_reverse data' s byte_offset
      | bytes needle ↦ index_reverse data' needle byte_offset
      | _ ↦ negsuc 0
    ]

unfoldable pub last_index_of : List ℕ → List Value → ℤ
unfolding last_place
last_index_of data' args = int32 (last_place data' args)

unfoldable pub includes : List ℕ → List Value → Bool
unfolding index_of
includes data' args = not_negative (index_of data' args)
  where
    not_negative : ℤ → Bool
    not_negative (pos n) = true
    not_negative (negsuc n) = false
