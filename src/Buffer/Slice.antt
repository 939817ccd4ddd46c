-- ===== src/Buffer/Slice.antt =====
-- src/module/node/buffer/buffer.cpp: slice, which subarray calls too.
mod Window
use zane.Base.{ℕ, ◌+◌, ◌-◌, true, false, Option, some, none, List, suc, ltb, if◌then◌else◌}
use zane.Base.Int.{ℤ, pos, negsuc, sub_ℕ, ltb_ℤ}
use zane.Buffer.{Value, num_arg}

-- A negative start counts from the end and stops at 0; a start past the end stays.
abbrev pub slice_start : ℕ → Option ℤ → ℕ
slice_start len none = 0
slice_start len (some (pos n)) = n
slice_start len (some (negsuc n)) = len - suc n

-- A negative end counts from the end of the view and may stay negative.
abbrev pub slice_end : ℕ → Option ℤ → ℤ
slice_end len none = pos len
slice_end len (some (pos n)) = pos (if ltb len n then len else n)
slice_end len (some (negsuc n)) = sub_ℕ len (suc n)

abbrev until_end : ℕ → ℤ → ℕ
until_end start (pos e) = if ltb e start then start else e
until_end start (negsuc n) = start

-- The offset in the view and the length that the new view is made with.
unfoldable pub slice : ℕ → List Value → ℕ × ℕ
slice len args =
    let start = slice_start len (num_arg args 0) in
    let end' = until_end start (slice_end len (num_arg args 1)) in (start, end' - start)

unfoldable pub subarray : ℕ → List Value → ℕ × ℕ
unfolding slice
subarray = slice
