-- ===== src/Console/Lines.antt =====
-- src/module/console.cpp: dir indents each line of what inspect gives.
use zane.Base.{
  ℕ, zero, suc, ◌+◌, ◌<◌, ◌≡◌, refl, sym, ap, ◌∙◌, Bool, true, false, Option, none, some, List, [],
  ◌∷◌, ◌++◌, length, length-append, take, drop, ltb, lt→ltb, le→ltb_false, ◌==◌, ==_iff, Bool-cases,
  ◌⊎◌, inl, inr, append_assoc, if◌then◌else◌, arith,
}
use zane.Console.{
  Console, indentation, newline_at, insert_at, indent_lines, write_lines, colors_or, dir, to_stdout,
}
use zane.Base.Int.{ℤ}
use zane.Util.Inspect.{JsValue, inspect_internal, chosen_depth}

abbrev pub onto_first : ℕ → List (List ℕ) → List (List ℕ)
onto_first c [] = (c ∷ []) ∷ []
onto_first c (l ∷ ls) = (c ∷ l) ∷ ls

-- The lines of a text, which newlines separate.
abbrev pub lines : List ℕ → List (List ℕ)
lines [] = [] ∷ []
lines (c ∷ s) = if c == 10 then [] ∷ lines s else onto_first c (lines s)

abbrev pub indented : List ℕ → List (List ℕ) → List ℕ
indented indent [] = []
indented indent (l ∷ ls) = indent ++ (l ++ (10 ∷ indented indent ls))

-- The lines, of which the first is indented already.
abbrev after_indent : List ℕ → List (List ℕ) → List ℕ
after_indent indent [] = []
after_indent indent (l ∷ ls) = l ++ (10 ∷ indented indent ls)

take-append : (s t : List ℕ) → take (length s) (s ++ t) ≡ s
take-append [] t = refl
take-append (c ∷ s) t = ap (λ l. c ∷ l) (take-append s t)

drop-append : (s t : List ℕ) → drop (length s) (s ++ t) ≡ t
drop-append [] t = refl
drop-append (c ∷ s) t = drop-append s t

-- A text is one line, or a line, a newline and a rest.
record OneLine (s : List ℕ) : Type 0 where
  found : (i : ℕ) → newline_at (s ++ (10 ∷ [])) i ≡ some (i + length s)
  single : lines s ≡ s ∷ []

record MoreLines (s : List ℕ) : Type 0 where
  line : List ℕ
  rest : List ℕ
  splits : s ≡ line ++ (10 ∷ rest)
  found : (i : ℕ) (t : List ℕ) → newline_at (s ++ t) i ≡ some (i + length line)
  begins : lines s ≡ line ∷ lines rest

split : (s : List ℕ) → OneLine s ⊎ MoreLines s
split [] = inl (record { found = λ i. ap some (omega arith); single = refl })
split (c ∷ s) = elim (Bool-cases (c == 10)) [
  | inl e ↦ inr (record {
    line = [];
    rest = s;
    splits = ap (λ x. x ∷ s) ((==_iff c 10).0 e);
    found = λ i t. rw e (ap some (omega arith));
    begins = rw e;
  })
  | inr n ↦ elim (split s) [
    | inl o ↦ inl (record {
      found = λ i. rw n (o.found (i + 1) ∙ ap some (omega arith));
      single = rw n (ap (onto_first c) o.single);
    })
    | inr m ↦ inr (record {
      line = c ∷ m.line;
      rest = m.rest;
      splits = ap (λ l. c ∷ l) m.splits;
      found = λ i t. rw n (m.found (i + 1) t ∙ ap some (omega arith));
      begins = rw n (ap (onto_first c) m.begins);
    })
  ]
]

indented-lines :
    (indent s : List ℕ) → indented indent (lines s) ≡ indent ++ after_indent indent (lines s)
indented-lines indent s = elim (split s) [
  | inl o ↦ ap (indented indent) o.single ∙ sym (ap (λ l. indent ++ after_indent indent l) o.single)
  | inr m ↦ ap (indented indent) m.begins ∙ sym (ap (λ l. indent ++ after_indent indent l) m.begins)
]

abbrev passed : ℕ → List ℕ → List ℕ → Option ℕ → List ℕ
passed n indent result none = result
passed n indent result (some p) =
    if ltb (p + 1) (length result)
    then indent_lines n indent (insert_at (p + 1) indent result) (p + length indent + 1)
    else result

indent_lines-passed :
    (n : ℕ) (indent result : List ℕ) (start : ℕ) (o : Option ℕ)
    → newline_at (drop start result) start ≡ o
    → indent_lines (suc n) indent result start ≡ passed n indent result o
unfolding indent_lines
indent_lines-passed n indent result start o e =
    go (newline_at (drop start result) start) ∙ ap (passed n indent result) e
  where
    go :
        (o : Option ℕ)
        → elim o [
          | none ↦ result
          | some p ↦
              if ltb (p + 1) (length result)
              then indent_lines n indent (insert_at (p + 1) indent result) (p + length indent + 1)
              else result
        ]
          ≡ passed n indent result o
    go none = refl
    go (some p) = refl

insert_at-append : (q r new : List ℕ) → insert_at (length q) new (q ++ r) ≡ (q ++ new) ++ r
insert_at-append q r new =
    ap (λ l. (l ++ new) ++ drop (length q) (q ++ r)) (take-append q r)
    ∙ ap (λ l. (q ++ new) ++ l) (drop-append q r)

indent_lines-lines :
    (n : ℕ) (indent before s : List ℕ)
    → length s < n
    → indent_lines n indent (before ++ (s ++ (10 ∷ []))) (length before)
      ≡ before ++ after_indent indent (lines s)
indent_lines-lines zero indent before s h = absurd (omega arith)
indent_lines-lines (suc n) indent before s h = elim (split s) [
  | inl o ↦
      let text = before ++ (s ++ (10 ∷ [])) in
      let p = length before + length s in
      let e =
        ap (λ t. newline_at t (length before)) (drop-append before (s ++ (10 ∷ [])))
        ∙ o.found (length before) in
      let stop : ltb (p + 1) (length text) ≡ false =
        le→ltb_false (p + 1) (length text)
          (omega (arith, length-append before (s ++ (10 ∷ [])), length-append s (10 ∷ []))) in
      indent_lines-passed n indent text (length before) (some p) e
      ∙ ap
          (λ b.
            if b
            then indent_lines n indent (insert_at (p + 1) indent text) (p + length indent + 1)
            else text)
          stop
      ∙ ap (λ l. before ++ after_indent indent l) (sym o.single)
  | inr m ↦
      let text = before ++ (s ++ (10 ∷ [])) in
      let q = before ++ (m.line ++ (10 ∷ [])) in
      let r = m.rest ++ (10 ∷ []) in
      let p = length before + length m.line in
      let e =
        ap (λ t. newline_at t (length before)) (drop-append before (s ++ (10 ∷ [])))
        ∙ m.found (length before) (10 ∷ []) in
      let parts : text ≡ q ++ r =
        ap (λ t. before ++ (t ++ (10 ∷ []))) m.splits ∙ simp (append_assoc) in
      let at : p + 1 ≡ length q =
        omega (arith, length-append before (m.line ++ (10 ∷ [])), length-append m.line (10 ∷ [])) in
      let size = ap length m.splits ∙ length-append m.line (10 ∷ m.rest) in
      let on : ltb (p + 1) (length text) ≡ true =
        lt→ltb (p + 1) (length text)
          (omega (arith, ap length parts, length-append q r, length-append m.rest (10 ∷ []))) in
      let inserted : insert_at (p + 1) indent text ≡ (q ++ indent) ++ r =
        ap (λ i. insert_at i indent text) at
        ∙ ap (insert_at (length q) indent) parts
        ∙ insert_at-append q r indent in
      let next : p + length indent + 1 ≡ length (q ++ indent) =
        omega (arith, length-append q indent) in
      let joins : (q ++ indent) ++ after_indent indent (lines m.rest)
          ≡ before ++ (m.line ++ (10 ∷ (indent ++ after_indent indent (lines m.rest)))) =
        simp (append_assoc) in
      indent_lines-passed n indent text (length before) (some p) e
      ∙ ap
          (λ b.
            if b
            then indent_lines n indent (insert_at (p + 1) indent text) (p + length indent + 1)
            else text)
          on
      ∙ ap (λ t. indent_lines n indent t (p + length indent + 1)) inserted
      ∙ ap (indent_lines n indent ((q ++ indent) ++ r)) next
      ∙ indent_lines-lines n indent (q ++ indent) m.rest (omega arith)
      ∙ joins
      ∙ ap (λ l. before ++ (m.line ++ (10 ∷ l))) (sym (indented-lines indent m.rest))
      ∙ ap (λ l. before ++ after_indent indent l) (sym m.begins)
]

write_lines-lines :
    (text : List ℕ) (c : Console)
    → write_lines text c ≡ to_stdout (indented (indentation c.indentation_level) (lines text)) c
write_lines-lines text c =
    let indent = indentation c.indentation_level in
    ap (λ t. to_stdout (indent ++ t) c)
      (indent_lines-lines (suc (length text)) indent [] text (omega arith))
    ∙ ap (λ t. to_stdout t c) (sym (indented-lines indent text))

-- dir writes each line of the text that inspect gives to stdout, after the indentation of the group
-- that it stands in and with a newline at its end, and changes nothing else. The depth and the colors
-- are those of the options, 2 and what the terminal shows where there are none.
pub dir-lines :
    (terminal : Bool) (value : JsValue) (depth : Option (Option ℤ)) (colors : Option Bool)
    (c : Console)
    → dir terminal (some value) depth colors c
      ≡ to_stdout
          (indented
            (indentation c.indentation_level)
            (lines (inspect_internal (colors_or terminal colors) (chosen_depth depth) 0 value)))
          c
unfolding dir
dir-lines terminal value depth colors c =
    write_lines-lines (inspect_internal (colors_or terminal colors) (chosen_depth depth) 0 value) c
