-- ===== src/Stream/Outputs.antt =====
-- src/module/node/stream/stream.cpp: what an operator has sent, before and after the end of its source.
use zane.Base.{true, false, List}
use zane.Buffer.{Outcome, ok}
use zane.Stream.{Signal, Operator}

module _ {A : Type 0} where
  abbrev pub sent : {S : Type 0} → S → List (Signal A) → Outcome (Operator S (Signal A))
  sent s out = ok (record { vars = s; freed = true; out = out })

  abbrev pub open_with : {S : Type 0} → S → List (Signal A) → Outcome (Operator S (Signal A))
  open_with s out = ok (record { vars = s; freed = false; out = out })
