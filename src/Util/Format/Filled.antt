-- ===== src/Util/Format/Filled.antt =====
-- src/module/node/util/util.cpp: util.format fills the directives of its first argument in order.
use zane.Base.{
  ℕ, ◌≡◌, ◌≢◌, refl, sym, ap, ◌∙◌, Bool, true, false, Option, some, none, List, [], ◌∷◌, ◌++◌,
  ne→==_false, if◌then◌else◌,
}
use zane.Util.Format.{
  FormatArg, FormatResult, made, left_exception, null_written, percent, write_text, after_exception,
  write_utf8, write_or_exception, formatted, after_directive, remaining_args, format_from,
  format_text, format,
}

-- A directive that util.format knows.
pub data Directive : Type 0 where
  as_text : Directive
  as_number : Directive
  as_integer : Directive
  as_json : Directive

abbrev pub letter : Directive → ℕ
letter as_text = 115
letter as_number = 100
letter as_integer = 105
letter as_json = 106

-- What a directive makes of an argument: its text, none that is left as an exception, or none at all.
pub data Shown : Type 0 where
  texts : List ℕ → Shown
  exception : Shown
  nothing : Shown

abbrev or_nothing : Option (List ℕ) → Shown
or_nothing none = nothing
or_nothing (some t) = texts t

abbrev or_exception : Option (List ℕ) → Shown
or_exception none = exception
or_exception (some t) = texts t

abbrev pub shown : Directive → FormatArg → Shown
shown as_text a = or_nothing a.text
shown as_number a = or_exception a.number
shown as_integer a = or_exception a.number
shown as_json a = or_exception a.json

-- A format by its pieces.
pub data Piece : Type 0 where
  character : ℕ → Piece
  directive : Directive → Piece

abbrev pub written : List Piece → List ℕ
written [] = []
written (character c ∷ ps) = c ∷ written ps
written (directive d ∷ ps) = percent ∷ letter d ∷ written ps

-- Each directive takes an argument while there is one; the arguments that are left follow.
abbrev pub pieces_shown : List Piece → List FormatArg → List Shown
pieces_shown [] [] = []
pieces_shown [] (a ∷ args) = texts (32 ∷ []) ∷ or_nothing a.text ∷ pieces_shown [] args
pieces_shown (character c ∷ ps) args = texts (c ∷ []) ∷ pieces_shown ps args
pieces_shown (directive d ∷ ps) [] = texts (percent ∷ letter d ∷ []) ∷ pieces_shown ps []
pieces_shown (directive d ∷ ps) (a ∷ args) = shown d a ∷ pieces_shown ps args

abbrev pub has_nothing : List Shown → Bool
has_nothing [] = false
has_nothing (nothing ∷ l) = true
has_nothing (exception ∷ l) = has_nothing l
has_nothing (texts t ∷ l) = has_nothing l

abbrev pub has_exception : List Shown → Bool
has_exception [] = false
has_exception (nothing ∷ l) = has_exception l
has_exception (exception ∷ l) = true
has_exception (texts t ∷ l) = has_exception l

abbrev pub all_texts : List Shown → List ℕ
all_texts [] = []
all_texts (nothing ∷ l) = all_texts l
all_texts (exception ∷ l) = all_texts l
all_texts (texts t ∷ l) = t ++ all_texts l

-- Undefined behaviour where something has no text, or else an exception where there is one, or else
-- the texts one after the other.
abbrev pub put_together : List Shown → FormatResult
put_together l =
    if has_nothing l
    then null_written
    else if has_exception l
    then left_exception
    else made (all_texts l)

abbrev pub filled_in : List Piece → List FormatArg → FormatResult
filled_in ps args = put_together (pieces_shown ps args)

abbrev pub NoPercent : List Piece → Type 0
NoPercent [] = Unit {0}
NoPercent (character c ∷ ps) = (c ≢ percent) × NoPercent ps
NoPercent (directive d ∷ ps) = NoPercent ps

abbrev in_front : Shown → FormatResult → FormatResult
in_front (texts t) r = write_text t r
in_front exception r = after_exception r
in_front nothing r = null_written

text_in_front :
    (b c : Bool) (t s : List ℕ)
    → (if b then null_written else if c then left_exception else made (t ++ s))
      ≡ write_text t (if b then null_written else if c then left_exception else made s)
unfolding write_text
text_in_front true c t s = refl
text_in_front false true t s = refl
text_in_front false false t s = refl

exception_in_front :
    (b c : Bool) (s : List ℕ)
    → (if b then null_written else left_exception)
      ≡ after_exception (if b then null_written else if c then left_exception else made s)
unfolding after_exception
exception_in_front true c s = refl
exception_in_front false true s = refl
exception_in_front false false s = refl

put_together-in_front :
    (x : Shown) (l : List Shown) → put_together (x ∷ l) ≡ in_front x (put_together l)
put_together-in_front nothing l = refl
put_together-in_front exception l =
    exception_in_front (has_nothing l) (has_exception l) (all_texts l)
put_together-in_front (texts t) l = text_in_front (has_nothing l) (has_exception l) t (all_texts l)

write_utf8-in_front :
    (o : Option (List ℕ)) (r : FormatResult) → write_utf8 o r ≡ in_front (or_nothing o) r
unfolding write_utf8
write_utf8-in_front none r = refl
write_utf8-in_front (some t) r = refl

write_or_exception-in_front :
    (o : Option (List ℕ)) (r : FormatResult) → write_or_exception o r ≡ in_front (or_exception o) r
unfolding write_or_exception
write_or_exception-in_front none r = refl
write_or_exception-in_front (some t) r = refl

remaining_args-shown : (args : List FormatArg) → remaining_args args ≡ filled_in [] args
unfolding remaining_args
remaining_args-shown [] = refl
remaining_args-shown (a ∷ args) =
    ap (λ r. write_text (32 ∷ []) (write_utf8 a.text r)) (remaining_args-shown args)
    ∙ ap (write_text (32 ∷ [])) (
        write_utf8-in_front a.text (filled_in [] args)
        ∙ sym (put_together-in_front (or_nothing a.text) (pieces_shown [] args)))
    ∙ sym (put_together-in_front (texts (32 ∷ [])) (or_nothing a.text ∷ pieces_shown [] args))

-- A character that is no percent sign, and any where no argument is left.
format_from-character :
    (c : ℕ) (s : List ℕ) (args : List FormatArg)
    → c ≢ percent
    → format_from (c ∷ s) args ≡ write_text (c ∷ []) (format_from s args)
unfolding format_from
format_from-character c [] args n = refl
format_from-character c (d ∷ s) [] n = refl
format_from-character c (d ∷ s) (a ∷ args) n = rw (ne→==_false c percent n)

format_from-nil :
    (c : ℕ) (s : List ℕ) → format_from (c ∷ s) [] ≡ write_text (c ∷ []) (format_from s [])
unfolding format_from
format_from-nil c [] = refl
format_from-nil c (d ∷ s) = refl

format_from-directive :
    (d : Directive) (s : List ℕ) (a : FormatArg) (args : List FormatArg)
    → format_from (percent ∷ letter d ∷ s) (a ∷ args) ≡ in_front (shown d a) (format_from s args)
unfolding format_from formatted after_directive
format_from-directive as_text s a args = write_utf8-in_front a.text (format_from s args)
format_from-directive as_number s a args = write_or_exception-in_front a.number (format_from s args)
format_from-directive as_integer s a args =
    write_or_exception-in_front a.number (format_from s args)
format_from-directive as_json s a args = write_or_exception-in_front a.json (format_from s args)

format_from-end : (args : List FormatArg) → format_from [] args ≡ remaining_args args
unfolding format_from
format_from-end args = refl

two_characters :
    (c d : ℕ) (r : FormatResult)
    → write_text (c ∷ []) (write_text (d ∷ []) r) ≡ write_text (c ∷ d ∷ []) r
unfolding write_text
two_characters c d (made s) = refl
two_characters c d left_exception = refl
two_characters c d null_written = refl

format_from-filled_in :
    (ps : List Piece) (args : List FormatArg)
    → NoPercent ps
    → format_from (written ps) args ≡ filled_in ps args
format_from-filled_in [] args h = format_from-end args ∙ remaining_args-shown args
format_from-filled_in (character c ∷ ps) args (n, h) =
    format_from-character c (written ps) args n
    ∙ ap (write_text (c ∷ [])) (format_from-filled_in ps args h)
    ∙ sym (put_together-in_front (texts (c ∷ [])) (pieces_shown ps args))
format_from-filled_in (directive d ∷ ps) [] h =
    format_from-nil percent (letter d ∷ written ps)
    ∙ ap (write_text (percent ∷ [])) (format_from-nil (letter d) (written ps))
    ∙ two_characters percent (letter d) (format_from (written ps) [])
    ∙ ap (write_text (percent ∷ letter d ∷ [])) (format_from-filled_in ps [] h)
    ∙ sym (put_together-in_front (texts (percent ∷ letter d ∷ [])) (pieces_shown ps []))
format_from-filled_in (directive d ∷ ps) (a ∷ args) h =
    format_from-directive d (written ps) a args
    ∙ ap (in_front (shown d a)) (format_from-filled_in ps args h)
    ∙ sym (put_together-in_front (shown d a) (pieces_shown ps args))

-- A first argument that consists of directives %s, %d, %i and %j and of characters other than `%` is
-- written with each directive replaced by what it makes of the next argument, in order; directives
-- for which no argument is left stay as they are, and arguments that are left follow, each after a
-- space. Where an argument that is written as it is has no text, the behaviour is undefined; where
-- otherwise the conversion of one to a number or to JSON throws, the exception is left for the caller.
pub format-filled_in :
    (ps : List Piece) (first : FormatArg) (args : List FormatArg)
    → NoPercent ps
    → first.text ≡ some (written ps)
    → format (first ∷ args) ≡ filled_in ps args
unfolding format
format-filled_in ps first args h e =
    ap (λ t. format_text t args) e ∙ format_from-filled_in ps args h
