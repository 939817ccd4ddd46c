-- ===== src/Buffer/Copy.antt =====
-- src/module/node/buffer/buffer.cpp: concat and copy.
mod Concat
mod Copied
mod Runs
use zane.Base.{
  ℕ, ◌+◌, ◌-◌, ◌%◌, ◌^◌, min, true, false, Option, some, none, List, [], ◌∷◌, ◌++◌, length, take,
  drop, replicate, ltb, leb, if◌then◌else◌, ◌||◌,
}
use zane.Base.Int.{ℤ, pos, to_unsigned, int32}
use zane.Buffer.{
  Value, Item, number, view, thing, num, bytes, array, Outcome, ok, throws, type_error, num_arg,
  size_arg,
}
use zane.Buffer.Convert.{splice}

-- The sum of the lengths of the Uint8Arrays of a list.
abbrev pub total_length : List Item → ℕ
total_length [] = 0
total_length (view bs ∷ items) = length bs + total_length items
total_length (number n ∷ items) = total_length items
total_length (thing ∷ items) = total_length items

-- The loop over the items: what is written from `offset` on, and where it ends.
unfoldable pub concat_loop : List Item → ℕ → ℕ → List ℕ
concat_loop [] offset total = []
concat_loop (view bs ∷ items) offset total =
    let to_copy = min (length bs) (total - offset) in
    let rest = concat_loop items (offset + to_copy) total in
    if ltb offset total then take to_copy bs ++ rest else []
concat_loop (number n ∷ items) offset total =
    let rest = concat_loop items offset total in if ltb offset total then rest else []
concat_loop (thing ∷ items) offset total =
    let rest = concat_loop items offset total in if ltb offset total then rest else []

abbrev pub concat_total : List Item → Option Value → ℕ
concat_total items (some (num n)) = to_unsigned 64 n
concat_total items v = total_length items

-- The result is zeros at first.
abbrev pub concat_items : List Item → ℕ → List ℕ
concat_items items total =
    let written = concat_loop items 0 total in written ++ replicate (total - length written) 0

pub concat : List Value → Outcome (List ℕ)
unfolding concat_loop
concat (array items ∷ []) = ok (concat_items items (concat_total items none))
concat (array items ∷ v ∷ rest) = ok (concat_items items (concat_total items (some v)))
concat args = throws type_error

-- The number of bytes that `copy` moves: the difference of two size_t wraps.
abbrev pub copy_length : ℕ → ℕ → ℕ → ℕ → ℕ → ℕ
copy_length self_len target_len target_start source_start source_end =
    min (min ((source_end + 2 ^ 64 - source_start) % 2 ^ 64) (self_len - source_start))
      (target_len - target_start)

-- The bytes of the target afterwards, and the number of bytes moved.
pub copy : List ℕ → List Value → Outcome (List ℕ × ℤ)
copy self (bytes target ∷ rest) =
    let args = bytes target ∷ rest in
    let target_start = size_arg args 1 0 in
    let source_start = size_arg args 2 0 in
    let source_end = size_arg args 3 (length self) in
    let n = copy_length (length self) (length target) target_start source_start source_end in
    if leb (length self) source_start || leb (length target) target_start
    then ok (target, pos 0)
    else ok (splice target target_start (take n (drop source_start self)), int32 (pos n))
copy self args = throws type_error
