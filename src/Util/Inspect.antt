-- ===== src/Util/Inspect.antt =====
-- src/module/node/util/util.cpp: util.inspect. Reading a property throws nothing.
pub mod Colors
use zane.Base.{
  ℕ, zero, suc, ◌+◌, ◌*◌, Bool, true, false, Option, none, some, List, [], ◌∷◌, ◌++◌, replicate,
  leb, if◌then◌else◌,
}
use zane.Base.Int.{ℤ, pos, negsuc}
use zane.Base.Text.{codes}

-- A value by what the code asks of it. Texts are those that V8 gives, without NUL; an object has its
-- enumerable properties, and `error` is an Error with its stack. A value that is none of these is
-- `unknown`, as a symbol is.
mutual
  pub data JsValue : Type 0 where
    undefined : JsValue
    null : JsValue
    boolean : Bool → JsValue
    number : List ℕ → JsValue
    big_int : List ℕ → JsValue
    string : List ℕ → JsValue
    error : List ℕ → JsValue
    object : Fields → JsValue
    unknown : JsValue

  pub data Fields : Type 0 where
    end : Fields
    field : List ℕ → JsValue → Fields → Fields

abbrev pub escape : ℕ
escape = 27

-- A text in a colour, where colours are on.
abbrev pub painted : Bool → List ℕ → List ℕ → List ℕ
painted false color text = text
painted true color text =
    (escape ∷ codes "[") ++ color ++ codes "m" ++ text ++ (escape ∷ codes "[0m")

-- `depth != -1 && current_depth >= depth`
abbrev pub is_too_deep : ℤ → ℕ → Bool
is_too_deep (pos depth) current = leb depth current
is_too_deep (negsuc zero) current = false
is_too_deep (negsuc (suc n)) current = true

abbrev pub bool_text : Bool → List ℕ
bool_text true = codes "true"
bool_text false = codes "false"

abbrev pub comma : Fields → List ℕ
comma end = []
comma (field key value fields) = codes ","

abbrev pub indent : ℕ → List ℕ
indent n = replicate (2 * n) 32

-- inspectInternal, and its loop on the properties.
unfoldable mutual
  pub inspect_internal : Bool → ℤ → ℕ → JsValue → List ℕ
  inspect_internal colors depth current undefined = painted colors (codes "90") (codes "undefined")
  inspect_internal colors depth current null = painted colors (codes "90") (codes "null")
  inspect_internal colors depth current (boolean b) = painted colors (codes "33") (bool_text b)
  inspect_internal colors depth current (number t) = painted colors (codes "33") t
  inspect_internal colors depth current (big_int t) = painted colors (codes "33") (t ++ codes "n")
  inspect_internal colors depth current (string t) =
      painted colors (codes "32") (codes "'" ++ t ++ codes "'")
  inspect_internal colors depth current (error stack) =
      if is_too_deep depth current
      then painted colors (codes "38;5;242") (codes "[Object]")
      else painted colors (codes "31") stack
  inspect_internal colors depth current (object fields) =
      let properties = inspect_fields colors depth current fields in
      if is_too_deep depth current
      then painted colors (codes "38;5;242") (codes "[Object]")
      else codes "{" ++ (10 ∷ []) ++ properties ++ indent current ++ codes "}"
  inspect_internal colors depth current unknown = codes "[Unknown]"

  pub inspect_fields : Bool → ℤ → ℕ → Fields → List ℕ
  inspect_fields colors depth current end = []
  inspect_fields colors depth current (field key value fields) =
      indent (current + 1)
      ++ painted colors (codes "36") key
      ++ codes ": "
      ++ inspect_internal colors depth (current + 1) value
      ++ comma fields
      ++ (10 ∷ [])
      ++ inspect_fields colors depth current fields

-- util.inspect with its options: `depth` is none where it is no number and not null, and `some none`
-- where it is null; `colors` is none where it is no Boolean.
abbrev pub chosen_depth : Option (Option ℤ) → ℤ
chosen_depth none = pos 2
chosen_depth (some none) = negsuc 0
chosen_depth (some (some d)) = d

abbrev pub chosen_colors : Option Bool → Bool
chosen_colors none = false
chosen_colors (some b) = b

unfoldable pub inspect : JsValue → Option (Option ℤ) → Option Bool → List ℕ
unfolding inspect_internal
inspect value depth colors = inspect_internal (chosen_colors colors) (chosen_depth depth) 0 value
