-- ===== src/Process/Elapsed.antt =====
-- src/module/node/process/process.cpp: hrtime gives the time since an earlier call.
use zane.Base.{ℕ, ◌+◌, ◌*◌, ◌%◌, ◌<◌, ◌≤◌, ◌≡◌, none, some, arith, ◌-◌, ap, ◌∙◌}
use zane.Process.{hrtime, seconds_and_nanos}

abbrev pub total_nanos : ℕ × ℕ → ℕ
total_nanos (s, n) = s * 1000000000 + n

total-seconds_and_nanos :
    (nanos : ℕ) → nanos < 4294967296 * 1000000000 → total_nanos (seconds_and_nanos nanos) ≡ nanos
total-seconds_and_nanos nanos small = omega arith

wrapped : ℕ → ℕ → ℕ
wrapped now t = (now + (18446744073709551616 - t % 18446744073709551616)) % 18446744073709551616

wrapped_difference :
    (before now : ℕ)
    → before ≤ now
    → now < 4294967296 * 1000000000
    → wrapped now before ≡ now - before
unfolding wrapped
wrapped_difference before now order small = omega arith

-- hrtime with what an earlier hrtime gave is the time between the two calls, to the nanosecond, for a
-- clock of less than 2 ^ 32 seconds.
pub total_nanos-hrtime :
    (before now : ℕ)
    → before ≤ now
    → now < 4294967296 * 1000000000
    → total_nanos (hrtime before none) + total_nanos (hrtime now (some (hrtime before none))) ≡ now
unfolding hrtime wrapped
total_nanos-hrtime before now order small =
    let prev = total-seconds_and_nanos before (omega (arith, order, small)) in
    let diff : wrapped now (total_nanos (seconds_and_nanos before)) ≡ now - before =
      ap (wrapped now) prev ∙ wrapped_difference before now order small in
    omega (
      arith,
      order,
      prev,
      ap (λ t. total_nanos (seconds_and_nanos t)) diff
          ∙ total-seconds_and_nanos (now - before) (omega (arith, small)),
    )
