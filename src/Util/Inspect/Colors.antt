-- ===== src/Util/Inspect/Colors.antt =====
-- src/module/node/util/util.cpp: the colours of util.inspect.
use zane.Base.{
  ℕ, zero, suc, ◌+◌, ◌*◌, ◌≡◌, ◌≢◌, refl, sym, ap, ◌∙◌, subst, Bool, true, false, not, Option, some,
  List, [], ◌∷◌, ◌++◌, ◌==◌, ne→==_false, append_assoc, append_nil, All, replicate, if◌then◌else◌,
  arith,
}
use zane.Base.Int.{ℤ}
use zane.Base.Text.{codes}
use zane.Util.Inspect.{
  JsValue, undefined, null, boolean, number, big_int, string, error, object, unknown, Fields, end,
  field, escape, painted, is_too_deep, comma, indent, inspect_internal, inspect_fields, inspect,
  chosen_depth,
}

-- A text without its escape sequences, each of which goes from an escape character to the next `m`;
-- whether the text begins inside of one.
abbrev pub strip : Bool → List ℕ → List ℕ
strip inside [] = []
strip true (c ∷ s) = strip (not (c == 109)) s
strip false (c ∷ s) =
    let shown = c ∷ strip false s in
    let hidden = strip true s in if c == escape then hidden else shown

abbrev pub HasNoEscape : List ℕ → Type 0
HasNoEscape t = All (λ c. c ≢ escape) t

-- The texts of a value have no escape character.
unfoldable mutual
  pub IsPlain : JsValue → Type 0
  IsPlain undefined = Unit {0}
  IsPlain null = Unit {0}
  IsPlain (boolean b) = Unit {0}
  IsPlain (number t) = HasNoEscape t
  IsPlain (big_int t) = HasNoEscape t
  IsPlain (string t) = HasNoEscape t
  IsPlain (error t) = HasNoEscape t
  IsPlain (object fields) = ArePlain fields
  IsPlain unknown = Unit {0}

  pub ArePlain : Fields → Type 0
  ArePlain end = Unit {0}
  ArePlain (field key value fields) = HasNoEscape key × IsPlain value × ArePlain fields

-- The first text is the second one with escape sequences.
record Strips (a b : List ℕ) : Type 0 where
  before : (rest : List ℕ) → strip false (a ++ rest) ≡ b ++ strip false rest

Strips-append : {a a' b b' : List ℕ} → Strips a a' → Strips b b' → Strips (a ++ b) (a' ++ b')
Strips-append {a} {a'} {b} {b'} h k = record {
  before = λ rest.
      ap (strip false) (append_assoc a b rest)
      ∙ h.before (b ++ rest)
      ∙ ap (λ l. a' ++ l) (k.before rest)
      ∙ sym (append_assoc a' b' (strip false rest));
}

strip-plain : (t rest : List ℕ) → HasNoEscape t → strip false (t ++ rest) ≡ t ++ strip false rest
strip-plain [] rest h = refl
strip-plain (c ∷ t) rest (n, h) =
    rw (ne→==_false c escape n) (ap (λ l. c ∷ l) (strip-plain t rest h))

Strips-plain : (t : List ℕ) → HasNoEscape t → Strips t t
Strips-plain t h = record { before = λ rest. strip-plain t rest h }

HasNoEscape-append : (s t : List ℕ) → HasNoEscape s → HasNoEscape t → HasNoEscape (s ++ t)
HasNoEscape-append [] t h k = k
HasNoEscape-append (c ∷ s) t (n, h) k = (n, HasNoEscape-append s t h k)

HasNoEscape-replicate : (n : ℕ) → HasNoEscape (replicate n 32)
HasNoEscape-replicate zero = tt
HasNoEscape-replicate (suc n) = (λ e. absurd (omega arith), HasNoEscape-replicate n)

-- A colour has no `m`.
strip-color :
    (color rest : List ℕ)
    → All (λ c. c ≢ 109) color
    → strip true (color ++ (109 ∷ rest)) ≡ strip false rest
strip-color [] rest h = refl
strip-color (c ∷ color) rest (n, h) =
    ap (λ b. strip (not b) (color ++ (109 ∷ rest))) (ne→==_false c 109 n) ∙ strip-color color rest h

Strips-color :
    (color : List ℕ)
    → All (λ c. c ≢ 109) color
    → Strips ((escape ∷ codes "[") ++ color ++ codes "m") []
Strips-color color n = record {
  before = λ rest.
      ap (strip false) (
        append_assoc ((escape ∷ codes "[") ++ color) (codes "m") rest
        ∙ append_assoc (escape ∷ codes "[") color (codes "m" ++ rest))
      ∙ strip-color color rest n;
}

Strips-reset : Strips (escape ∷ codes "[0m") []
Strips-reset = record { before = λ rest. refl }

Strips-painted :
    (colors : Bool) (color t : List ℕ)
    → All (λ c. c ≢ 109) color
    → HasNoEscape t
    → Strips (painted colors color t) t
Strips-painted false color t n h = Strips-plain t h
Strips-painted true color t n h =
    subst (Strips (painted true color t)) (append_nil t)
      (Strips-append (Strips-append (Strips-color color n) (Strips-plain t h)) Strips-reset)

Strips-if :
    (b : Bool) {a a' c c' : List ℕ}
    → Strips a a'
    → Strips c c'
    → Strips (if b then a else c) (if b then a' else c')
Strips-if true h k = h
Strips-if false h k = k

Strips-comma : (fields : Fields) → Strips (comma fields) (comma fields)
Strips-comma end = record { before = λ rest. refl }
Strips-comma (field key value fields) = record { before = λ rest. refl }

Strips-line : Strips (10 ∷ []) (10 ∷ [])
Strips-line = record { before = λ rest. refl }

Strips-indent : (n : ℕ) → Strips (indent n) (indent n)
Strips-indent n = Strips-plain (indent n) (HasNoEscape-replicate (2 * n))

Strips-deep :
    (colors : Bool)
    → Strips (painted colors (codes "38;5;242") (codes "[Object]")) (codes "[Object]")
Strips-deep colors =
    Strips-painted colors (codes "38;5;242") (codes "[Object]") (omega arith) (omega arith)

mutual
  unfolding inspect_internal inspect_fields IsPlain ArePlain

  internal-Strips :
      (colors : Bool) (depth : ℤ) (current : ℕ) (v : JsValue)
      → IsPlain v
      → Strips (inspect_internal colors depth current v) (inspect_internal false depth current v)
  internal-Strips colors depth current undefined h =
      Strips-painted colors (codes "90") (codes "undefined") (omega arith) (omega arith)
  internal-Strips colors depth current null h =
      Strips-painted colors (codes "90") (codes "null") (omega arith) (omega arith)
  internal-Strips colors depth current (boolean true) h =
      Strips-painted colors (codes "33") (codes "true") (omega arith) (omega arith)
  internal-Strips colors depth current (boolean false) h =
      Strips-painted colors (codes "33") (codes "false") (omega arith) (omega arith)
  internal-Strips colors depth current (number t) h =
      Strips-painted colors (codes "33") t (omega arith) h
  internal-Strips colors depth current (big_int t) h =
      Strips-painted colors (codes "33") (t ++ codes "n") (omega arith)
        (HasNoEscape-append t (codes "n") h (omega arith))
  internal-Strips colors depth current (string t) h =
      Strips-painted colors (codes "32") (codes "'" ++ t ++ codes "'") (omega arith) (
        HasNoEscape-append (codes "'" ++ t) (codes "'")
          (HasNoEscape-append (codes "'") t (omega arith) h) (omega arith))
  internal-Strips colors depth current (error t) h =
      Strips-if (is_too_deep depth current) (Strips-deep colors)
        (Strips-painted colors (codes "31") t (omega arith) h)
  internal-Strips colors depth current (object fields) h =
      Strips-if (is_too_deep depth current) (Strips-deep colors) (
        Strips-append
          (Strips-append
            (Strips-append (Strips-plain (codes "{" ++ (10 ∷ [])) (omega arith))
              (fields-Strips colors depth current fields h))
            (Strips-indent current))
          (Strips-plain (codes "}") (omega arith)))
  internal-Strips colors depth current unknown h = Strips-plain (codes "[Unknown]") (omega arith)

  fields-Strips :
      (colors : Bool) (depth : ℤ) (current : ℕ) (f : Fields)
      → ArePlain f
      → Strips (inspect_fields colors depth current f) (inspect_fields false depth current f)
  fields-Strips colors depth current end h = record { before = λ rest. refl }
  fields-Strips colors depth current (field key value fields) (k, v, f) =
      Strips-append
        (Strips-append
          (Strips-append
            (Strips-append
              (Strips-append
                (Strips-append (Strips-indent (current + 1))
                  (Strips-painted colors (codes "36") key (omega arith) k))
                (Strips-plain (codes ": ") (omega arith)))
              (internal-Strips colors depth (current + 1) value v))
            (Strips-comma fields))
          Strips-line)
        (fields-Strips colors depth current fields f)

-- Colours add nothing but escape sequences: where no text of the value has an escape character, the
-- text that util.inspect gives with colours is, without its escape sequences, the one without colours.
pub inspect-strip :
    (value : JsValue) (depth : Option (Option ℤ))
    → IsPlain value
    → strip false (inspect value depth (some true)) ≡ inspect value depth (some false)
unfolding inspect
inspect-strip value depth h =
    let s = internal-Strips true (chosen_depth depth) 0 value h in
    ap (strip false) (sym (append_nil (inspect_internal true (chosen_depth depth) 0 value)))
    ∙ s.before []
    ∙ append_nil (inspect_internal false (chosen_depth depth) 0 value)
