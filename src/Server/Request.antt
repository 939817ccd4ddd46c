-- ===== src/Server/Request.antt =====
-- src/module/builtin/server/request.cpp: the pathname of a request.
use zane.Base.{◌≡◌, refl, false, [], ◌∷◌, ◌++◌, ◌==◌, if◌then◌else◌, arith}
use zane.Server.{Text, contains}

-- Up to the first question mark.
unfoldable pub pathname : Text → Text
pathname [] = []
pathname (c ∷ s) = let rest = pathname s in if c == 63 then [] else c ∷ rest

-- The query with its question mark.
abbrev pub query : Text → Text
query [] = []
query (c ∷ s) = let rest = query s in if c == 63 then c ∷ s else rest

abbrev pub IsQuery : Text → Type 0
IsQuery [] = Unit {0}
IsQuery (c ∷ s) = c ≡ 63

-- The pathname of a request has no question mark, and the path is the pathname and what stands behind
-- it: nothing, or a text that begins with a question mark.
pub pathname-query :
    (path : Text)
    → (path ≡ pathname path ++ query path)
      × (contains 63 (pathname path) ≡ false)
      × IsQuery (query path)
unfolding pathname contains
pathname-query [] = (refl, refl, tt)
pathname-query (c ∷ s) = ground (arith, pathname-query s)
