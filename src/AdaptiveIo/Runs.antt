-- ===== src/AdaptiveIo/Runs.antt =====
-- src/module/adaptive_io.hpp: AdaptiveIO at work, and the theorem at concrete moments.
use zane.Base.{ℕ, ◌≡◌, ◌≤◌, ◌<◌, refl, some, [], ◌∷◌, arith}
use zane.AdaptiveIo.{
  AdaptiveIo, stdout_file, stderr_file, new_adaptive_io, apply, flush_if_needed, elapsed_ms,
}
use zane.AdaptiveIo.Lately.{opened, another, apply-flushed_lately}

abbrev after_one : AdaptiveIo
unfolding new_adaptive_io apply
after_one = (apply 1 (new_adaptive_io 2 50 0)).1

-- stdout is flushed in front of stderr.
both_flushed :
    (flush_if_needed 1 (some stderr_file) (new_adaptive_io 20 50 0)).0
    ≡ stdout_file ∷ stderr_file ∷ []
unfolding new_adaptive_io flush_if_needed
both_flushed = refl

-- The second write stays in the buffer, and one that comes 50 ms after the start is flushed.
held_back : (flush_if_needed 2 (some stdout_file) after_one).0 ≡ []
unfolding after_one flush_if_needed
held_back = refl

in_time : (flush_if_needed 50000000 (some stdout_file) after_one).0 ≡ stdout_file ∷ []
unfolding after_one flush_if_needed
in_time = refl

apply-flushed_lately_example : (f : ℕ) × some 1 ≡ some f × f ≤ 2 × elapsed_ms 2 f < 50
unfolding new_adaptive_io apply
apply-flushed_lately_example =
    apply-flushed_lately {threshold = 2} {window = 50} {start = 0} 2 (omega arith)
      (another 1 opened (omega arith)) (omega arith) refl
