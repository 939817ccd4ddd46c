-- ===== src/Util/Runs.antt =====
-- src/module/node/util/util.cpp: format, inspect and promisify at work, and the theorems at concrete inputs.
use zane.Base.{ℕ, ◌≡◌, refl, true, false, none, some, List, [], ◌∷◌, arith}
use zane.Base.Int.{pos}
use zane.Base.Text.{codes}
use zane.Buffer.{ok}
use zane.Util.Format.{FormatArg, made, left_exception, format}
use zane.Util.Format.Filled.{
  character, directive, as_text, as_number, as_integer, Piece, format-filled_in,
}
use zane.Util.Inspect.{JsValue, object, field, end, string, number, inspect}
use zane.Util.Inspect.Colors.{strip, IsPlain, inspect-strip}
use zane.Util.Promises.{thenable, rejected, failure, told_by, promisified}
use zane.Util.Promises.Once.{promisified-told_by}

abbrev word : List ℕ → FormatArg
word t = record { text = some t; number = some (codes "nan"); json = none }

-- `%x` takes an argument and loses it.
lost :
    format (word (codes "%x-%s") ∷ word (codes "a") ∷ word (codes "b") ∷ []) ≡ made (codes "%x-b")
unfolding format
lost = refl

-- An object that JSON does not take: "[Circular]" goes nowhere, and the exception of JSON is left.
circular : format (word (codes "%j") ∷ word (codes "a") ∷ []) ≡ left_exception
unfolding format
circular = refl

abbrev pieces : List Piece
pieces = character 97 ∷ directive as_text ∷ directive as_number ∷ directive as_integer ∷ []

format-filled_in_example :
    format (word (codes "a%s%d%i") ∷ word (codes "b") ∷ word (codes "c") ∷ [])
    ≡ made (codes "abnan%i")
format-filled_in_example =
    format-filled_in pieces (word (codes "a%s%d%i")) (word (codes "b") ∷ word (codes "c") ∷ [])
      (omega arith, tt) refl

-- { k: 'v', o: { n: 1 } } with a depth of 1.
abbrev nested : JsValue
nested = object (
    field (codes "k") (string (codes "v"))
      (field (codes "o") (object (field (codes "n") (number (codes "1")) end)) end))

shallow : inspect nested (some (some (pos 1))) none ≡ codes "{\n  k: 'v',\n  o: [Object]\n}"
unfolding inspect
shallow = refl

inspect-strip_example :
    strip false (inspect nested none (some true)) ≡ inspect nested none (some false)
unfolding IsPlain
inspect-strip_example = inspect-strip nested none (omega arith)

promisified-told_by_example :
    told_by (promisified {V = ℕ} {E = ℕ} (record { error = some 3; value = none } ∷ []) (some 4) [])
    ≡ ok (failure 3 ∷ [])
promisified-told_by_example =
    promisified-told_by (record { error = some 3; value = none } ∷ []) [] (some 4)

-- A rejected promise that is given as the value becomes an error.
adopted :
    told_by (
      promisified {V = ℕ} {E = ℕ} [] none
        (record { error = none; value = some (thenable (rejected 7)) } ∷ []))
    ≡ ok (failure 7 ∷ [])
unfolding told_by promisified
adopted = refl
