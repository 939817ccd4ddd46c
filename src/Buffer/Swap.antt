-- ===== src/Buffer/Swap.antt =====
-- src/module/node/buffer/buffer.cpp: swap16, swap32, swap64.
mod Involution
mod Runs
use zane.Base.{ℕ, ◌%◌, true, false, List, [], ◌∷◌, length, ◌==◌, not, if◌then◌else◌}
use zane.Buffer.{Outcome, ok, throws, range_error}

-- The loops go by groups; a last group that is not whole is not reached, since the length is checked.
unfoldable pub swap_pairs : List ℕ → List ℕ
swap_pairs (a ∷ b ∷ rest) = b ∷ a ∷ swap_pairs rest
swap_pairs rest = rest

unfoldable pub swap_fours : List ℕ → List ℕ
swap_fours (a ∷ b ∷ c ∷ d ∷ rest) = d ∷ c ∷ b ∷ a ∷ swap_fours rest
swap_fours rest = rest

unfoldable pub swap_eights : List ℕ → List ℕ
swap_eights (a ∷ b ∷ c ∷ d ∷ e ∷ f ∷ g ∷ h ∷ rest) =
    h ∷ g ∷ f ∷ e ∷ d ∷ c ∷ b ∷ a ∷ swap_eights rest
swap_eights rest = rest

unfoldable pub swap16 : List ℕ → Outcome (List ℕ)
unfolding swap_pairs
swap16 data' = if not (length data' % 2 == 0) then throws range_error else ok (swap_pairs data')

unfoldable pub swap32 : List ℕ → Outcome (List ℕ)
unfolding swap_fours
swap32 data' = if not (length data' % 4 == 0) then throws range_error else ok (swap_fours data')

unfoldable pub swap64 : List ℕ → Outcome (List ℕ)
unfolding swap_eights
swap64 data' = if not (length data' % 8 == 0) then throws range_error else ok (swap_eights data')
