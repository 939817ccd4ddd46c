-- ===== src/Path/Runs.antt =====
-- Runs of the path functions, and the theorems at concrete inputs.
use zane.Base.{◌≡◌, refl, false, some, none, [], ◌∷◌, ◌++◌, reverse, arith}
use zane.Base.Text.{codes}
use zane.Buffer.{ok, undef}
use zane.Path.{
  normalize_posix, join_posix, resolve_posix, stack_loop, dot, dot_dot, slash, ends_with_slash,
}
use zane.Path.Stack.{Settled, stack_loop-stack_loop}
use zane.Path.Parts.{dirname_posix, basename_posix, extname_posix, parse_posix, format_posix}
use zane.Path.Parts.Format.{object_of, format-parse}

normal : normalize_posix (codes "/a//./b/../c/") ≡ codes "/a/c/"
unfolding normalize_posix
normal = refl

joined : join_posix (codes "a" ∷ [] ∷ codes "../../b" ∷ []) ≡ codes "../b"
unfolding join_posix
joined = refl

resolved : resolve_posix (codes "/home") (codes "/x" ∷ codes "y" ∷ codes ".." ∷ []) ≡ codes "/x"
unfolding resolve_posix
resolved = refl

directory : dirname_posix (codes "/usr/lib/a.so") ≡ codes "/usr/lib"
unfolding dirname_posix
directory = refl

file : basename_posix (codes "/usr/lib/a.so/") (some (codes ".so")) ≡ ok (codes "a")
unfolding basename_posix
file = refl

no_file : basename_posix [] none ≡ undef
unfolding basename_posix
no_file = refl

-- A file whose name starts with its only dot has an extension for extname and none for parse.
dot_file : extname_posix (codes "/home/.rc") ≡ codes ".rc"
unfolding extname_posix
dot_file = refl

dot_file_parsed : (parse_posix (codes "/home/.rc")).ext ≡ []
unfolding parse_posix
dot_file_parsed = refl

stack_loop-stack_loop_example :
    Settled false (stack_loop false [] (dot_dot ∷ codes "a" ∷ dot ∷ codes "b" ∷ dot_dot ∷ []))
    × (stack_loop false []
          (reverse (stack_loop false [] (dot_dot ∷ codes "a" ∷ dot ∷ codes "b" ∷ dot_dot ∷ [])))
        ≡ stack_loop false [] (dot_dot ∷ codes "a" ∷ dot ∷ codes "b" ∷ dot_dot ∷ []))
stack_loop-stack_loop_example =
    stack_loop-stack_loop false (dot_dot ∷ codes "a" ∷ dot ∷ codes "b" ∷ dot_dot ∷ [])

format-parse_example :
    format_posix (object_of (parse_posix (codes "/a" ++ (slash ∷ codes "b.c"))))
    ≡ codes "/a" ++ (slash ∷ codes "b.c")
format-parse_example =
    format-parse (codes "/a") (codes "b.c") ((λ z. omega arith), ((λ z. omega arith), tt))
      ((λ z. omega arith), ((λ z. omega arith), ((λ z. omega arith), tt)))
      ((λ z. omega arith), ((λ z. omega arith), ((λ z. omega arith), tt)))
      (unfold ends_with_slash in refl)
