-- ===== src/AdaptiveIo.antt =====
-- src/module/adaptive_io.hpp: AdaptiveIO, which decides whether a stream is flushed.
pub mod Lately
mod Runs
use zane.Base.{
  ℕ, ◌+◌, ◌-◌, ◌/◌, Bool, true, false, Option, none, some, List, [], ◌∷◌, ltb, if◌then◌else◌,
}

-- The moments are those of the steady clock, in nanoseconds. m_calls_in_burst stays below 2 ^ 31, and
-- each call of apply holds m_mutex. The constructor reads the clock twice, here at one moment.
pub record AdaptiveIo : Type 0 where
  pub burst_threshold : ℕ
  pub window_ms : ℕ
  pub calls_in_burst : ℕ
  pub last_flush : ℕ
  pub last_burst_flush : ℕ

unfoldable pub new_adaptive_io : ℕ → ℕ → ℕ → AdaptiveIo
new_adaptive_io threshold window now = record {
  burst_threshold = threshold;
  window_ms = window;
  calls_in_burst = 0;
  last_flush = now;
  last_burst_flush = now;
}

-- duration_cast to milliseconds.
abbrev pub elapsed_ms : ℕ → ℕ → ℕ
elapsed_ms now start = (now - start) / 1000000

abbrev pub note_call : ℕ → AdaptiveIo → AdaptiveIo
note_call now s =
    if ltb (elapsed_ms now s.last_flush) s.window_ms
    then record s { calls_in_burst = s.calls_in_burst + 1 }
    else record s { calls_in_burst = 0; last_flush = now }

-- The decision, after `note_call`: whether `flush` is called, and the state.
abbrev pub decide : ℕ → AdaptiveIo → Bool × AdaptiveIo
decide now s =
    if ltb s.calls_in_burst s.burst_threshold
    then (true, s)
    else if ltb (elapsed_ms now s.last_burst_flush) s.window_ms
    then (false, s)
    else (true, record s { last_burst_flush = now })

unfoldable pub apply : ℕ → AdaptiveIo → Bool × AdaptiveIo
apply now s = decide now (note_call now s)

pub data File : Type 0 where
  stdout_file : File
  stderr_file : File
  other_file : File

-- What the callback of flushIfNeeded flushes.
abbrev pub flushed_files : File → List File
flushed_files stderr_file = stdout_file ∷ stderr_file ∷ []
flushed_files stdout_file = stdout_file ∷ []
flushed_files other_file = other_file ∷ []

-- The calls of fflush, `none` being a null stream.
unfoldable pub flush_if_needed : ℕ → Option File → AdaptiveIo → List File × AdaptiveIo
unfolding apply
flush_if_needed now none s = ([], s)
flush_if_needed now (some f) s = let r = apply now s in (if r.0 then flushed_files f else [], r.1)
