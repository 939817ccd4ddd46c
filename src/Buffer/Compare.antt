-- ===== src/Buffer/Compare.antt =====
-- src/module/node/buffer/buffer.cpp: compare, equals and the compare of an instance.
mod Order
mod Runs
use zane.Base.{
  ℕ, zero, suc, ◌+◌, ◌-◌, min, Bool, true, false, ◌&&◌, ◌||◌, List, [], ◌∷◌, length, take, drop,
  ltb, ◌==◌, if◌then◌else◌, leb,
}
use zane.Base.Int.{ℤ, pos, negsuc}
use zane.Buffer.{Value, bytes, Outcome, ok, throws, undef, type_error, size_arg}

-- The sign of memcmp: the first bytes that differ decide.
unfoldable pub memcmp : ℕ → List ℕ → List ℕ → ℤ
memcmp zero xs ys = pos 0
memcmp (suc n) (x ∷ xs) (y ∷ ys) =
    let rest = memcmp n xs ys in if ltb x y then negsuc 0 else if ltb y x then pos 1 else rest
memcmp (suc n) xs ys = pos 0

abbrev pub by_length : ℕ → ℕ → ℤ
by_length m n = if ltb m n then negsuc 0 else if ltb n m then pos 1 else pos 0

abbrev pub or_length : ℤ → ℕ → ℕ → ℤ
or_length (pos zero) m n = by_length m n
or_length (pos (suc k)) m n = pos 1
or_length (negsuc k) m n = negsuc 0

unfoldable pub compare_bytes : List ℕ → List ℕ → ℤ
unfolding memcmp
compare_bytes a b = or_length (memcmp (min (length a) (length b)) a b) (length a) (length b)

unfoldable pub compare : List Value → Outcome ℤ
unfolding compare_bytes
compare (bytes a ∷ bytes b ∷ rest) = ok (compare_bytes a b)
compare args = throws type_error

abbrev pub is_zero : ℤ → Bool
is_zero (pos zero) = true
is_zero (pos (suc n)) = false
is_zero (negsuc n) = false

unfoldable pub equals : List ℕ → List Value → Outcome Bool
unfolding memcmp
equals self (bytes other ∷ rest) =
    let cmp = memcmp (length self) self other in
    if length self == length other then ok (is_zero cmp) else ok false
equals self args = throws type_error

-- The range of an argument pair, as a start and a length that does not go below 0.
abbrev pub range_length : ℕ → ℕ → ℕ
range_length start end' = if ltb start end' then end' - start else 0

-- The ends are not compared with the lengths of the views: memcmp reads what the arguments say.
unfoldable pub compare_instance : List ℕ → List Value → Outcome ℤ
unfolding memcmp
compare_instance self (bytes target ∷ rest) =
    let args = bytes target ∷ rest in
    let target_start = size_arg args 1 0 in
    let target_end = size_arg args 2 (length target) in
    let source_start = size_arg args 3 0 in
    let source_end = size_arg args 4 (length self) in
    let src_len = range_length source_start source_end in
    let tgt_len = range_length target_start target_end in
    let len = min src_len tgt_len in
    let cmp = memcmp len (drop source_start self) (drop target_start target) in
    if ltb 0 len
      && (ltb (length self) (source_start + len) || ltb (length target) (target_start + len))
    then undef
    else ok (or_length cmp src_len tgt_len)
compare_instance self args = throws type_error
