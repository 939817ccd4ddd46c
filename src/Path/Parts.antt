-- ===== src/Path/Parts.antt =====
-- src/module/node/path/path.cpp: dirname, basename, extname, parse and format of POSIX paths.
pub mod Format
use zane.Base.{
  ℕ, zero, suc, ◌+◌, ◌-◌, Bool, true, false, not, ◌&&◌, ◌||◌, Option, some, none, List, [], ◌∷◌,
  ◌++◌, length, take, drop, ltb, leb, ◌==◌, if◌then◌else◌,
}
use zane.Base.Text.{codes, same, until_nul}
use zane.Buffer.{Outcome, ok, undef}
use zane.Path.{slash, is_empty, starts_with_slash, ends_with_slash, dot}

abbrev later : Option ℕ → Bool → Option ℕ
later (some i) here = some (suc i)
later none true = some 0
later none false = none

-- `find_last_of`; `none` is npos.
unfoldable pub find_last_of : ℕ → List ℕ → Option ℕ
find_last_of c [] = none
find_last_of c (x ∷ xs) = later (find_last_of c xs) (x == c)

abbrev pub before_slash : List ℕ → Option ℕ → List ℕ → List ℕ
before_slash p none d = d
before_slash p (some zero) d = slash ∷ []
before_slash p (some (suc i)) d = take (suc i) p

abbrev after_slash : List ℕ → Option ℕ → List ℕ
after_slash p none = p
after_slash p (some i) = drop (i + 1) p

unfoldable pub dirname_posix : List ℕ → List ℕ
unfolding find_last_of until_nul
dirname_posix path = let p = until_nul path in before_slash p (find_last_of slash p) dot

abbrev strip_slash : List ℕ → List ℕ
strip_slash p = if ends_with_slash p then take (length p - 1) p else p

abbrev strip_ext : List ℕ → Option (List ℕ) → List ℕ
strip_ext base none = base
strip_ext base (some ext) =
    let n = length base - length ext in
    if leb (length ext) (length base) && same (drop n base) ext then take n base else base

abbrev text_option : Option (List ℕ) → Option (List ℕ)
text_option none = none
text_option (some s) = some (until_nul s)

-- On the empty path `back()` is undefined behaviour. `ext` is the second argument, if it is a text.
unfoldable pub basename_posix : List ℕ → Option (List ℕ) → Outcome (List ℕ)
unfolding find_last_of ends_with_slash same until_nul
basename_posix path ext =
    let p = strip_slash (until_nul path) in
    if is_empty (until_nul path)
    then undef
    else ok (strip_ext (after_slash p (find_last_of slash p)) (text_option ext))

abbrev dot_in_last : List ℕ → Option ℕ → Option ℕ → List ℕ
dot_in_last p last_slash none = []
dot_in_last p none (some d) = drop d p
dot_in_last p (some s) (some d) = if ltb d s then [] else drop d p

unfoldable pub extname_posix : List ℕ → List ℕ
unfolding find_last_of until_nul
extname_posix path =
    let p = until_nul path in dot_in_last p (find_last_of slash p) (find_last_of b'.' p)

-- The object of `parse`.
pub record Parsed : Type 0 where
  pub root : List ℕ
  pub dir : List ℕ
  pub base : List ℕ
  pub ext : List ℕ
  pub name : List ℕ

-- A dot at the start of the base is part of the name.
abbrev pub name_of : List ℕ → Option ℕ → List ℕ
name_of base none = base
name_of base (some zero) = base
name_of base (some (suc d)) = take (suc d) base

abbrev pub ext_of : List ℕ → Option ℕ → List ℕ
ext_of base none = []
ext_of base (some zero) = []
ext_of base (some (suc d)) = drop (suc d) base

unfoldable pub parse_posix : List ℕ → Parsed
unfolding find_last_of until_nul
parse_posix path =
    let p = until_nul path in
    let last_slash = find_last_of slash p in
    let base = after_slash p last_slash in
    let last_dot = find_last_of b'.' base in
    record {
      root = if starts_with_slash p then slash ∷ [] else [];
      dir = before_slash p last_slash [];
      base = base;
      ext = ext_of base last_dot;
      name = name_of base last_dot;
    }

-- The properties that `format` reads, where they are texts.
pub record PathObject : Type 0 where
  pub root? : Option (List ℕ)
  pub dir? : Option (List ℕ)
  pub base? : Option (List ℕ)
  pub ext? : Option (List ℕ)
  pub name? : Option (List ℕ)

abbrev text_or_empty : Option (List ℕ) → List ℕ
text_or_empty none = []
text_or_empty (some s) = until_nul s

abbrev pub with_slash : List ℕ → List ℕ
with_slash d = if not (is_empty d) && not (ends_with_slash d) then d ++ (slash ∷ []) else d

abbrev front : Option (List ℕ) → Option (List ℕ) → List ℕ
front (some d) r = with_slash (until_nul d)
front none r = text_or_empty r

abbrev back : Option (List ℕ) → Option (List ℕ) → Option (List ℕ) → List ℕ
back (some b) n e = until_nul b
back none n e = text_or_empty n ++ text_or_empty e

unfoldable pub format_posix : PathObject → List ℕ
unfolding until_nul ends_with_slash
format_posix o = front o.dir? o.root? ++ back o.base? o.name? o.ext?
