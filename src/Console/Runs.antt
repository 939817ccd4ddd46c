-- ===== src/Console/Runs.antt =====
-- src/module/console.cpp: the console at work, and the theorems at concrete inputs.
use zane.Base.{arith, ℕ, ◌≡◌, refl, true, false, none, some, List, [], ◌∷◌, ◌++◌}
use zane.Base.Text.{codes, same}
use zane.Buffer.{ok, undef}
use zane.Console.{
  Console, new_console, plain, to_stdout, log, print_error, group, group_end, count, count_reset,
  time, time_end, dir, label_get,
}
use zane.Console.Lines.{dir-lines}
use zane.Console.Counts.{CountCall, counted, cleared, tally, after_calls, label_get-tally}
use zane.Console.Reports.{assert, trace}
use zane.Util.Inspect.{JsValue, object, field, end, number, inspect_internal}

abbrev a_text : List ℕ
a_text = codes "a"

-- Numbers of one digit.
abbrev digit : ℕ → List ℕ
digit n = codes "?"

grouped :
    (group_end
      (log false (plain (some a_text) ∷ plain none ∷ []) (group false [] new_console))).stdout
    ≡ codes "  a undefined\n"
unfolding group_end log group
grouped = refl

red_error :
    (print_error true (plain (some a_text) ∷ []) new_console).stderr
    ≡ 27 ∷ codes "[31ma" ++ (27 ∷ codes "[0m\n")
unfolding print_error
red_error = refl

counted_once :
    count digit none new_console
    ≡ ok (record new_console { counts = (codes "default", 1) ∷ []; stdout = codes "default: ?\n" })
unfolding count
counted_once = refl

-- The greatest count has no next one.
overflows :
    count digit none (record new_console { counts = (codes "default", 2147483647) ∷ [] }) ≡ undef
unfolding count same
overflows = refl

never_counted : (count_reset none new_console).stderr ≡ codes "Count for 'default' does not exist\n"
unfolding count_reset
never_counted = refl

timed :
    (time_end (λ a b. codes "5.000") none 7 (time none 2 new_console)).stdout
    ≡ codes "default: 5.000ms\n"
unfolding time_end time same
timed = refl

asserted : (assert false false [] new_console).stderr ≡ codes "Assertion failed: console.assert\n"
unfolding assert
asserted = refl

traced :
    (trace
      (record {
        function_name = none;
        script_name = some (codes "x.js");
        line = codes "3";
        column = codes "9";
      }
        ∷ [])
      (some a_text ∷ [])
      new_console).stderr
    ≡ codes "Trace: a\n  at (anonymous) (x.js:3:9)\n"
unfolding trace
traced = refl

abbrev an_object : JsValue
an_object = object (field (codes "n") (number (codes "1")) end)

abbrev in_group : Console
in_group = record new_console { indentation_level = 1 }

dir-lines_example :
    dir false (some an_object) none none in_group
    ≡ to_stdout (codes "  {\n    n: 1\n  }\n") in_group
unfolding inspect_internal
dir-lines_example = dir-lines false an_object none none in_group

abbrev some_calls : List CountCall
some_calls =
    counted (some a_text) ∷ cleared (some a_text) ∷ counted (some a_text) ∷ counted none ∷ []

label_get-tally_example :
    (d : Console) × (after_calls digit some_calls (ok new_console) ≡ ok d)
    × ((label : List ℕ) → label_get label d.counts ≡ tally label some_calls none)
unfolding label_get
label_get-tally_example =
    label_get-tally digit 0 some_calls new_console (λ l. omega arith) (omega arith)
