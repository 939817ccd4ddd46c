-- ===== src/Buffer/Slice/Window.antt =====
-- The window that slice gives.
use zane.Base.{ℕ, ◌+◌, ◌-◌, ◌≤◌, ◌<◌, ◌≡◌, min, List, ◌∷◌, arith, some, suc}
use zane.Base.Int.{ℤ, pos, negsuc}
use zane.Buffer.{Value, num}
use zane.Buffer.Slice.{slice, slice_start}

-- An index of JavaScript's slice: a negative one counts from the end, and both stop at the ends.
abbrev pub relative : ℕ → ℤ → ℕ
relative len (pos n) = min n len
relative len (negsuc n) = len - suc n

-- With a start of at most the length, the window of `slice` lies in the view: it goes from the start
-- to the end that JavaScript's rules give, or is empty where the end is before the start.
pub slice-relative :
    (len : ℕ) (start end' : ℤ) (rest : List Value)
    → slice_start len (some start) ≤ len
    → (slice len (num start ∷ num end' ∷ rest)
        ≡ (relative len start, relative len end' - relative len start))
      × (relative len start + (relative len end' - relative len start) ≤ len)
unfolding slice
slice-relative len (pos s) (pos e) rest h = (ground arith, omega arith)
slice-relative len (pos s) (negsuc e) rest h = (ground arith, omega arith)
slice-relative len (negsuc s) (pos e) rest h = (ground arith, omega arith)
slice-relative len (negsuc s) (negsuc e) rest h = (ground arith, omega arith)

-- A start past the end of the view is not moved back: the new view is made at that offset, outside
-- the old one, with no bytes.
pub slice_past_end :
    (len n : ℕ) (end' : ℤ) (rest : List Value)
    → len < n
    → slice len (num (pos n) ∷ num end' ∷ rest) ≡ (n, 0)
unfolding slice
slice_past_end len n (pos e) rest h = ground arith
slice_past_end len n (negsuc e) rest h = ground arith
