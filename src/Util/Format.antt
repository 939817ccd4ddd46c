-- ===== src/Util/Format.antt =====
-- src/module/node/util/util.cpp: util.format. A text is a C string, so it has no NUL.
pub mod Filled
use zane.Base.{ℕ, ◌+◌, Option, none, some, Bool, List, [], ◌∷◌, ◌++◌, ◌==◌, if◌then◌else◌}
use zane.Base.Text.{codes}

-- An argument by what V8 makes of it: its text, which it has none where ToString throws (a Symbol),
-- what the stream writes for its number, or `none` where NumberValue throws, and its JSON text, or
-- `none` where JSON.stringify throws.
pub record FormatArg : Type 0 where
  pub text : Option (List ℕ)
  pub number : Option (List ℕ)
  pub json : Option (List ℕ)

-- What format does: it gives a text, or an exception is left for its caller, whatever text it makes,
-- or it writes a text that is a null pointer, which is undefined behaviour.
pub data FormatResult : Type 0 where
  made : List ℕ → FormatResult
  left_exception : FormatResult
  null_written : FormatResult

abbrev pub percent : ℕ
percent = 37

-- What follows a text that was written.
unfoldable pub write_text : List ℕ → FormatResult → FormatResult
write_text t (made s) = made (t ++ s)
write_text t left_exception = left_exception
write_text t null_written = null_written

-- What follows a call of V8 that left an exception.
unfoldable pub after_exception : FormatResult → FormatResult
after_exception (made s) = left_exception
after_exception left_exception = left_exception
after_exception null_written = null_written

-- `result << *val`, where a Utf8Value keeps no exception.
unfoldable pub write_utf8 : Option (List ℕ) → FormatResult → FormatResult
unfolding write_text
write_utf8 none r = null_written
write_utf8 (some t) r = write_text t r

-- The `0` or `[Circular]` that is written after an exception is lost with it.
unfoldable pub write_or_exception : Option (List ℕ) → FormatResult → FormatResult
unfolding write_text after_exception
write_or_exception none r = after_exception r
write_or_exception (some t) r = write_text t r

-- What a letter after `%` stands for, in front of the rest; `none` is another letter.
unfoldable pub formatted : ℕ → FormatArg → Option (FormatResult → FormatResult)
unfolding write_utf8 write_or_exception
formatted spec arg =
    if spec == 115
    then some (write_utf8 arg.text)
    else if spec == 100
    then some (write_or_exception arg.number)
    else if spec == 105
    then some (write_or_exception arg.number)
    else if spec == 106
    then some (write_or_exception arg.json)
    else none

-- The arguments that no directive has taken.
unfoldable pub remaining_args : List FormatArg → FormatResult
unfolding write_utf8 write_text
remaining_args [] = made []
remaining_args (a ∷ args) = write_text (32 ∷ []) (write_utf8 a.text (remaining_args args))

-- The letter is passed over where it is known; otherwise it is read again as a character.
unfoldable pub after_directive :
    Option (FormatResult → FormatResult) → FormatResult → FormatResult → FormatResult
unfolding write_text
after_directive none read_again passed = write_text (percent ∷ []) read_again
after_directive (some write) read_again passed = write passed

-- The loop on the characters, and what follows it.
unfoldable pub format_from : List ℕ → List FormatArg → FormatResult
unfolding formatted after_directive remaining_args write_text
format_from [] args = remaining_args args
format_from (c ∷ []) args = write_text (c ∷ []) (remaining_args args)
format_from (c ∷ d ∷ s) [] = write_text (c ∷ []) (format_from (d ∷ s) [])
format_from (c ∷ d ∷ s) (a ∷ args) =
    let directive =
      after_directive (formatted d a) (format_from (d ∷ s) args) (format_from s args) in
    let character = write_text (c ∷ []) (format_from (d ∷ s) (a ∷ args)) in
    if c == percent then directive else character

abbrev pub format_text : Option (List ℕ) → List FormatArg → FormatResult
format_text none args = null_written
format_text (some t) args = format_from t args

unfoldable pub format : List FormatArg → FormatResult
unfolding format_from
format [] = made []
format (first ∷ args) = format_text first.text args
