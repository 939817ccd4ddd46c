-- ===== src/Buffer/Make/Runs.antt =====
-- Runs of from, and the theorems at concrete inputs.
use zane.Base.{ℕ, ◌≡◌, refl, none, Option, List, [], ◌∷◌}
use zane.Base.Int.{pos, negsuc, to_unsigned}
use zane.Buffer.{
  Value, Item, number, view, thing, num, str, array, array_buffer, ok, throws, range_error,
}
use zane.Buffer.Make.{from}

-- V8's conversions at the values that the runs use.
abbrev uint32 : Item → ℕ
uint32 (number z) = to_unsigned 32 z
uint32 (view bs) = 0
uint32 thing = 0

abbrev no_text : Value → Option (List ℕ)
no_text v = none

abbrev utf8 : Value → List ℕ
utf8 (str s) = s
utf8 v = []

from_numbers :
    from uint32 no_text (array (number (negsuc 0) ∷ number (pos 258) ∷ thing ∷ []) ∷ [])
    ≡ ok (255 ∷ 2 ∷ 0 ∷ [])
unfolding from
from_numbers = refl

past_the_end :
    from uint32 no_text (array_buffer (1 ∷ 2 ∷ []) ∷ num (pos 1) ∷ num (pos 2) ∷ [])
    ≡ throws range_error
unfolding from
past_the_end = refl
