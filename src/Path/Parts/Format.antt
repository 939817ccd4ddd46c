-- ===== src/Path/Parts/Format.antt =====
-- What parse takes apart, format puts together.
use zane.Base.{
  ℕ, zero, suc, ◌+◌, ◌≡◌, ◌≢◌, refl, ◌∙◌, false, Option, some, none, List, [], ◌∷◌, ◌++◌, length,
  drop, All, arith, ne→==_false, ==_refl,
}
use mathlib.Core.List.{append-nil, append_assoc}
use zane.Base.Text.{until_nul}
use zane.Buffer.Window.{take-append, take-append-drop}
use zane.Path.{slash, ends_with_slash}
use zane.Path.Parts.{
  find_last_of, Parsed, before_slash, with_slash, PathObject, parse_posix, format_posix, name_of,
  ext_of,
}

name_ext : (base : List ℕ) (d : Option ℕ) → name_of base d ++ ext_of base d ≡ base
name_ext base none = append-nil base
name_ext base (some zero) = append-nil base
name_ext base (some (suc d)) = take-append-drop (suc d) base

-- The name and the extension that parse gives make up the base.
pub parse-name_ext :
    (path : List ℕ) → (parse_posix path).name ++ (parse_posix path).ext ≡ (parse_posix path).base
unfolding parse_posix
parse-name_ext path = name_ext _ _

absent : (c : ℕ) (xs : List ℕ) → All (λ x. x ≢ c) xs → find_last_of c xs ≡ none
unfolding find_last_of
absent c [] h = refl
absent c (x ∷ xs) (n, h) = rw (absent c xs h, ne→==_false x c n) refl

-- The last slash of d/base stands behind d.
last_slash :
    (c : ℕ) (d base : List ℕ)
    → All (λ x. x ≢ c) base
    → find_last_of c (d ++ (c ∷ base)) ≡ some (length d)
unfolding find_last_of
last_slash c [] base h = rw (absent c base h, ==_refl c) refl
last_slash c (x ∷ d) base h = rw (last_slash c d base h) refl

no_nul : (s : List ℕ) → All (λ x. x ≢ 0) s → until_nul s ≡ s
unfolding until_nul
no_nul [] h = refl
no_nul (x ∷ s) (n, h) = rw (ne→==_false x 0 n, no_nul s h) refl

no_nul_append : (d s : List ℕ) → All (λ x. x ≢ 0) d → All (λ x. x ≢ 0) s → All (λ x. x ≢ 0) (d ++ s)
no_nul_append [] s h k = k
no_nul_append (x ∷ d) s (n, h) k = (n, no_nul_append d s h k)

drop-suc_length : (d base : List ℕ) (c : ℕ) → drop (length d + 1) (d ++ (c ∷ base)) ≡ base
drop-suc_length d base c = let e : length d + 1 ≡ suc (length d) = omega arith in rw e (past d)
  where
    past : (d : List ℕ) → drop (suc (length d)) (d ++ (c ∷ base)) ≡ base
    past [] = refl
    past (x ∷ d) = past d

-- The object of `parse` as an argument of `format`.
abbrev pub object_of : Parsed → PathObject
object_of p = record {
  root? = some p.root;
  dir? = some p.dir;
  base? = some p.base;
  ext? = some p.ext;
  name? = some p.name;
}

-- format puts the directory and the base that parse found together.
both_parts :
    (p dir base : List ℕ) (i : ℕ)
    → until_nul p ≡ p
    → find_last_of slash p ≡ some i
    → before_slash p (some i) [] ≡ dir
    → drop (i + 1) p ≡ base
    → until_nul dir ≡ dir
    → until_nul base ≡ base
    → format_posix (object_of (parse_posix p)) ≡ with_slash dir ++ base
unfolding format_posix parse_posix
both_parts p dir base i u f b s v w = rw (u, f, b, s, v, w) refl

-- A path d/base without NUL, whose base has no slash, and whose d does not end in one, is what format
-- makes of what parse gives.
pub format-parse :
    (d base : List ℕ)
    → All (λ x. x ≢ 0) d
    → All (λ x. x ≢ 0) base
    → All (λ x. x ≢ slash) base
    → ends_with_slash d ≡ false
    → format_posix (object_of (parse_posix (d ++ (slash ∷ base)))) ≡ d ++ (slash ∷ base)
format-parse [] base hd hb hs e =
    both_parts (slash ∷ base) (slash ∷ []) base 0 (no_nul (slash ∷ base) ((λ z. omega arith), hb))
      (last_slash slash [] base hs) refl (drop-suc_length [] base slash)
      (no_nul (slash ∷ []) ((λ z. omega arith), tt)) (no_nul base hb)
    ∙ unfold ends_with_slash in refl
format-parse (x ∷ d) base hd hb hs e =
    both_parts ((x ∷ d) ++ (slash ∷ base)) (x ∷ d) base (suc (length d))
      (no_nul ((x ∷ d) ++ (slash ∷ base))
        (no_nul_append (x ∷ d) (slash ∷ base) hd ((λ z. omega arith), hb)))
      (last_slash slash (x ∷ d) base hs) (take-append (x ∷ d) (slash ∷ base))
      (drop-suc_length (x ∷ d) base slash) (no_nul (x ∷ d) hd) (no_nul base hb)
    ∙ rw e (append_assoc (x ∷ d) (slash ∷ []) base)
