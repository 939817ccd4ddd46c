-- ===== src/Console/Reports.antt =====
-- src/module/console.cpp: assert and trace, which report on stderr.
use zane.Base.{ℕ, ◌+◌, Bool, true, false, Option, none, some, List, [], ◌∷◌, ◌++◌, take}
use zane.Base.Text.{codes}
use zane.Console.{Console, to_stderr, indentation, text_or_undefined}

abbrev spaced : List (Option (List ℕ)) → List ℕ
spaced [] = []
spaced (a ∷ args) = 32 ∷ (text_or_undefined a ++ spaced args)

abbrev assert_text : List (Option (List ℕ)) → List ℕ
assert_text [] = codes " console.assert"
assert_text (a ∷ args) = spaced (a ∷ args)

abbrev red : Bool → List ℕ → List ℕ
red false text = text ++ (10 ∷ [])
red true text = (27 ∷ codes "[31m") ++ text ++ (27 ∷ codes "[0m") ++ (10 ∷ [])

-- What the first argument is as a Boolean, false where there is none, and the texts of the others.
unfoldable pub assert : Bool → Bool → List (Option (List ℕ)) → Console → Console
assert colors true args c = c
assert colors false args c =
    to_stderr (red colors (codes "Assertion failed:" ++ assert_text args)) c

-- A frame of V8's stack: its function and script, where they have a text, and the line and the column.
pub record StackFrame : Type 0 where
  pub function_name : Option (List ℕ)
  pub script_name : Option (List ℕ)
  pub line : List ℕ
  pub column : List ℕ

abbrev pub name_or : List ℕ → Option (List ℕ) → List ℕ
name_or other none = other
name_or other (some t) = t

-- The buffer has 512 bytes.
abbrev pub frame_line : ℕ → StackFrame → List ℕ
frame_line level f =
    indentation (level + 1)
    ++ take 511 (
        codes "at "
        ++ name_or (codes "(anonymous)") f.function_name
        ++ codes " ("
        ++ name_or (codes "unknown") f.script_name
        ++ codes ":"
        ++ f.line
        ++ codes ":"
        ++ f.column
        ++ codes ")"
        ++ (10 ∷ []))

abbrev pub frame_lines : ℕ → List StackFrame → List ℕ
frame_lines level [] = []
frame_lines level (f ∷ frames) = frame_line level f ++ frame_lines level frames

-- `stack` is the JavaScript stack, of which V8 tells ten frames.
unfoldable pub trace : List StackFrame → List (Option (List ℕ)) → Console → Console
trace stack args c =
    to_stderr
      (indentation c.indentation_level
        ++ codes "Trace:"
        ++ spaced args
        ++ (10 ∷ [])
        ++ frame_lines c.indentation_level (take 10 stack))
      c
