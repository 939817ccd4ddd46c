-- ===== src/Console.antt =====
-- src/module/console.cpp: the methods of console that write, count, group and time.
pub mod Lines
pub mod Counts
pub mod Reports
mod Runs
use zane.Base.{
  ℕ, zero, suc, ◌+◌, ◌-◌, ◌*◌, Bool, true, false, ◌&&◌, Option, none, some, List, [], ◌∷◌, ◌++◌,
  length, take, drop, replicate, ltb, ◌==◌, if◌then◌else◌,
}
use zane.Base.Int.{ℤ, pos}
use zane.Base.Text.{codes, same}
use zane.Buffer.{Outcome, ok, undef}
use zane.Util.Inspect.{JsValue, inspect_internal, chosen_depth}

-- m_indentation_level, s_console_counts and s_console_timers, with what was written to stdout and to
-- stderr. The level stays below 2 ^ 31.
pub record Console : Type 0 where
  pub indentation_level : ℕ
  pub counts : List (List ℕ × ℕ)
  pub timers : List (List ℕ × ℕ)
  pub stdout : List ℕ
  pub stderr : List ℕ

abbrev pub new_console : Console
new_console = record { indentation_level = 0; counts = []; timers = []; stdout = []; stderr = [] }

-- An argument of a method that writes: an object, which is inspected, or the text that V8 makes of
-- another value, `none` where it makes none.
pub data Printed : Type 0 where
  plain : Option (List ℕ) → Printed
  inspected : JsValue → Printed

module _ {V : Type 0} where
  -- std::map with labels as keys.
  unfoldable pub label_get : List ℕ → List (List ℕ × V) → Option V
  label_get label [] = none
  label_get label ((k, v) ∷ m) = if same k label then some v else label_get label m

  unfoldable pub label_set : List ℕ → V → List (List ℕ × V) → List (List ℕ × V)
  label_set label v [] = (label, v) ∷ []
  label_set label v ((k, w) ∷ m) = if same k label then (k, v) ∷ m else (k, w) ∷ label_set label v m

  unfoldable pub label_erase : List ℕ → List (List ℕ × V) → List (List ℕ × V)
  label_erase label [] = []
  label_erase label ((k, w) ∷ m) = if same k label then m else (k, w) ∷ label_erase label m

abbrev pub to_stdout : List ℕ → Console → Console
to_stdout text c = record c { stdout = c.stdout ++ text }

abbrev pub to_stderr : List ℕ → Console → Console
to_stderr text c = record c { stderr = c.stderr ++ text }

abbrev pub indentation : ℕ → List ℕ
indentation level = replicate (2 * level) 32

abbrev pub text_or_undefined : Option (List ℕ) → List ℕ
text_or_undefined none = codes "undefined"
text_or_undefined (some t) = t

abbrev pub printed : Bool → Printed → List ℕ
printed colors (plain t) = text_or_undefined t
printed colors (inspected v) = inspect_internal colors (pos 2) 0 v

abbrev pub all_printed : Bool → List Printed → List ℕ
all_printed colors [] = []
all_printed colors (a ∷ []) = printed colors a
all_printed colors (a ∷ b ∷ args) = printed colors a ++ (32 ∷ all_printed colors (b ∷ args))

-- The line that `write_args` makes; `colors` is what Util::shouldLogWithColors says of the stream.
abbrev pub colored : Option (List ℕ) → Bool → List ℕ → List ℕ
colored none colors text = text ++ (10 ∷ [])
colored (some code) false text = text ++ (10 ∷ [])
colored (some code) true text = code ++ text ++ (27 ∷ codes "[0m") ++ (10 ∷ [])

unfoldable pub write_args : Option (List ℕ) → Bool → Bool → List Printed → Console → Console
write_args color is_error colors args c =
    let line = indentation c.indentation_level ++ colored color colors (all_printed colors args) in
    if is_error then to_stderr line c else to_stdout line c

module _ (colors : Bool) where
  unfoldable pub log : List Printed → Console → Console
  unfolding write_args
  log = write_args none false colors

  unfoldable pub print_error : List Printed → Console → Console
  unfolding write_args
  print_error = write_args (some (27 ∷ codes "[31m")) true colors

  unfoldable pub warn : List Printed → Console → Console
  unfolding write_args
  warn = write_args (some (27 ∷ codes "[33m")) false colors

  unfoldable pub info : List Printed → Console → Console
  unfolding write_args
  info = write_args (some (27 ∷ codes "[36m")) false colors

  abbrev pub log_some : List Printed → Console → Console
  log_some [] c = c
  log_some (a ∷ args) c = log (a ∷ args) c

  unfoldable pub group : List Printed → Console → Console
  unfolding log
  group args c =
      let c' = log_some args c in record c' { indentation_level = c'.indentation_level + 1 }

  unfoldable pub group_collapsed : List Printed → Console → Console
  unfolding group
  group_collapsed = group

unfoldable pub group_end : Console → Console
group_end c = record c { indentation_level = c.indentation_level - 1 }

-- The label, a C string without NUL; `none` is undefined, no argument, or a value without a text.
abbrev pub label_of : Option (List ℕ) → List ℕ
label_of none = codes "default"
label_of (some t) = t

abbrev pub count_or_zero : Option ℕ → ℕ
count_or_zero none = 0
count_or_zero (some n) = n

module _ (to_string : ℕ → List ℕ) where
  -- `to_string` is std::to_string.
  abbrev pub put_count : List ℕ → ℕ → Console → Console
  put_count label n c =
      to_stdout (indentation c.indentation_level ++ label ++ codes ": " ++ to_string n ++ (10 ∷ []))
        (record c { counts = label_set label n c.counts })

  -- The greatest int32_t has no next one.
  unfoldable pub count : Option (List ℕ) → Console → Outcome Console
  unfolding label_get label_set
  count label c =
      let n = count_or_zero (label_get (label_of label) c.counts) in
      if n == 2147483647 then undef else ok (put_count (label_of label) (n + 1) c)

abbrev pub reset_found : Option ℕ → List ℕ → Console → Console
reset_found (some n) label c = record c { counts = label_set label 0 c.counts }
reset_found none label c =
    to_stderr (codes "Count for '" ++ label ++ codes "' does not exist" ++ (10 ∷ [])) c

unfoldable pub count_reset : Option (List ℕ) → Console → Console
unfolding label_get label_set
count_reset label c = reset_found (label_get (label_of label) c.counts) (label_of label) c

-- `now` is the steady clock.
unfoldable pub time : Option (List ℕ) → ℕ → Console → Console
unfolding label_set
time label now c = record c { timers = label_set (label_of label) now c.timers }

module _ (milliseconds : ℕ → ℕ → List ℕ) where
  -- `milliseconds` is how snprintf writes the time between two moments with %.3f. The line is cut to
  -- the buffer of 128 bytes.
  abbrev pub told_time : Option ℕ → List ℕ → ℕ → Console → Console
  told_time none label now c =
      to_stderr (codes "Timer '" ++ label ++ codes "' does not exist" ++ (10 ∷ [])) c
  told_time (some start) label now c =
      to_stdout
        (indentation c.indentation_level
          ++ take 127 (label ++ codes ": " ++ milliseconds start now ++ codes "ms" ++ (10 ∷ [])))
        c

  unfoldable pub time_log : Option (List ℕ) → ℕ → Console → Console
  unfolding label_get
  time_log label now c = told_time (label_get (label_of label) c.timers) (label_of label) now c

  -- Where there is no such timer there is nothing to erase.
  unfoldable pub time_end : Option (List ℕ) → ℕ → Console → Console
  unfolding label_get label_erase
  time_end label now c =
      told_time (label_get (label_of label) c.timers) (label_of label) now
        (record c { timers = label_erase (label_of label) c.timers })

-- `result.find('\n', pos)` in the loop of dir.
abbrev pub newline_at : List ℕ → ℕ → Option ℕ
newline_at [] i = none
newline_at (c ∷ s) i = if c == 10 then some i else newline_at s (i + 1)

abbrev pub insert_at : ℕ → List ℕ → List ℕ → List ℕ
insert_at i new text = take i text ++ new ++ drop i text

-- The loop on fuel: the text, and where the search begins.
unfoldable pub indent_lines : ℕ → List ℕ → List ℕ → ℕ → List ℕ
indent_lines zero indent result start = result
indent_lines (suc n) indent result start = elim (newline_at (drop start result) start) [
  | none ↦ result
  | some p ↦
      let more = indent_lines n indent (insert_at (p + 1) indent result) (p + length indent + 1) in
      if ltb (p + 1) (length result) then more else result
]

-- What dir does with the text that inspectInternal gives; each round passes a newline of that text.
abbrev pub write_lines : List ℕ → Console → Console
write_lines text c =
    let indent = indentation c.indentation_level in
    to_stdout (indent ++ indent_lines (suc (length text)) indent (text ++ (10 ∷ [])) 0) c

abbrev pub colors_or : Bool → Option Bool → Bool
colors_or terminal none = terminal
colors_or terminal (some b) = b

-- `terminal` is what Util::shouldLogWithColors says of stdout; the options are as `inspect` has them,
-- and `none` is a call without arguments.
unfoldable pub dir : Bool → Option JsValue → Option (Option ℤ) → Option Bool → Console → Console
unfolding indent_lines
dir terminal none depth colors c = c
dir terminal (some value) depth colors c =
    write_lines (inspect_internal (colors_or terminal colors) (chosen_depth depth) 0 value) c
