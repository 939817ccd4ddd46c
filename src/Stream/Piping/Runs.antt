-- ===== src/Stream/Piping/Runs.antt =====
-- src/module/node/stream/stream.cpp: a pipeline at work, and the theorem at a concrete input.
use zane.Stream.Piping.Delivered.{IsDone, pipeline-results}
use zane.Base.{ℕ, ◌≤◌, ◌+◌, ◌≡◌, refl, some, none, [], ◌∷◌}
use zane.Stream.Piping.{Stage, pipeline, run}

-- Each number twice, and 0 at the end.
abbrev twice : Stage ℕ
twice = record {
  transform = λ x. record { pushes = x ∷ []; result = some x };
  flush = record { pushes = []; result = some 0 };
}

abbrev plus : Stage ℕ
plus = record {
  transform = λ x. record { pushes = []; result = some (x + 1) };
  flush = record { pushes = []; result = none };
}

ran :
    ((run (twice ∷ plus ∷ []) 20 (pipeline ℕ (twice ∷ plus ∷ []) (4 ∷ 7 ∷ []))).streams 3).written
    ≡ 5 ∷ 5 ∷ 8 ∷ 8 ∷ 1 ∷ []
unfolding run pipeline
ran = refl

pipeline-results_example :
    (n : ℕ) × ((m : ℕ)
      → n ≤ m
      → IsDone
          (twice ∷ plus ∷ [])
          (5 ∷ 5 ∷ 8 ∷ 8 ∷ 1 ∷ [])
          (run (twice ∷ plus ∷ []) m (pipeline ℕ (twice ∷ plus ∷ []) (4 ∷ 7 ∷ []))))
pipeline-results_example = pipeline-results ℕ (twice ∷ plus ∷ []) (4 ∷ 7 ∷ [])
