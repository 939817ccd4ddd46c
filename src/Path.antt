-- ===== src/Path.antt =====
-- src/module/node/path/path.cpp: the paths of POSIX. A path is the bytes of its string up to the
-- first NUL, as the conversion to std::string leaves them.
mod Stack
mod Parts
mod Runs
use zane.Base.{
  ℕ, zero, suc, ◌+◌, ◌-◌, Bool, true, false, not, ◌&&◌, ◌||◌, Option, some, none, List, [], ◌∷◌,
  ◌++◌, reverse, map, length, take, drop, ltb, leb, ◌==◌, if◌then◌else◌,
}
use zane.Base.Text.{codes, same, until_nul}

abbrev pub slash : ℕ
slash = b'/'

abbrev pub is_empty {ℓ} : {A : Type ℓ} → List A → Bool
is_empty [] = true
is_empty (x ∷ xs) = false

abbrev pub starts_with_slash : List ℕ → Bool
starts_with_slash [] = false
starts_with_slash (c ∷ s) = c == slash

-- `back() == '/'`, false on the empty path.
unfoldable pub ends_with_slash : List ℕ → Bool
ends_with_slash [] = false
ends_with_slash (c ∷ []) = c == slash
ends_with_slash (c ∷ d ∷ s) = ends_with_slash (d ∷ s)

-- The parts between slashes, the empty ones left out; the first argument is `current_part`.
unfoldable pub split_parts : List ℕ → List ℕ → List (List ℕ)
split_parts current [] = if is_empty current then [] else current ∷ []
split_parts current (c ∷ s) =
    let next = split_parts [] s in
    let same_part = split_parts (current ++ (c ∷ [])) s in
    if c == slash then (if is_empty current then next else current ∷ next) else same_part

abbrev pub dot : List ℕ
dot = b'.' ∷ []

abbrev pub dot_dot : List ℕ
dot_dot = b'.' ∷ b'.' ∷ []

abbrev pub pop_or_push : Bool → List (List ℕ) → List (List ℕ)
pop_or_push is_absolute [] = if is_absolute then [] else dot_dot ∷ []
pop_or_push is_absolute (top ∷ stack) =
    if not (same top dot_dot)
    then stack
    else if is_absolute
    then top ∷ stack
    else dot_dot ∷ top ∷ stack

-- One part of the path; the top of the stack is the first element.
unfoldable pub stack_step : Bool → List (List ℕ) → List ℕ → List (List ℕ)
unfolding same
stack_step is_absolute stack part =
    if same part dot
    then stack
    else if same part dot_dot
    then pop_or_push is_absolute stack
    else part ∷ stack

unfoldable pub stack_loop : Bool → List (List ℕ) → List (List ℕ) → List (List ℕ)
unfolding stack_step
stack_loop is_absolute stack [] = stack
stack_loop is_absolute stack (part ∷ parts) =
    stack_loop is_absolute (stack_step is_absolute stack part) parts

-- JoinPath with the separator '/'.
unfoldable pub join_path : List (List ℕ) → List ℕ
join_path [] = []
join_path (part ∷ []) = part
join_path (part ∷ next ∷ parts) = part ++ (slash ∷ join_path (next ∷ parts))

abbrev pub with_trailing : Bool → List ℕ → List (List ℕ) → List ℕ
with_trailing trailing_slash result stack =
    if trailing_slash
      && not (same result (slash ∷ []))
      && not (is_empty result)
      && not (is_empty stack)
    then result ++ (slash ∷ [])
    else result

abbrev pub or_dot : Bool → List ℕ → List ℕ
or_dot is_absolute result = if is_empty result && not is_absolute then dot else result

unfoldable pub normalize_posix_string : List ℕ → List ℕ
unfolding ends_with_slash split_parts stack_loop join_path same
normalize_posix_string [] = dot
normalize_posix_string (c ∷ s) =
    let path = c ∷ s in
    let is_absolute = starts_with_slash path in
    let stack = stack_loop is_absolute [] (split_parts [] path) in
    let result = (if is_absolute then slash ∷ [] else []) ++ join_path (reverse stack) in
    with_trailing (ends_with_slash path) (or_dot is_absolute result) stack

-- The methods on the texts of their arguments; `cwd` is the text of fs::current_path.
unfoldable pub resolve_loop : List (List ℕ) → List ℕ → List ℕ × Bool
resolve_loop [] resolved = (resolved, false)
resolve_loop (seg ∷ args) resolved =
    let tail = if is_empty resolved then [] else slash ∷ resolved in
    let skipped = resolve_loop args resolved in
    let more = resolve_loop args (seg ++ tail) in
    if is_empty seg then skipped else if starts_with_slash seg then (seg ++ tail, true) else more

-- From right to left, up to an absolute argument.
unfoldable pub resolve_posix : List ℕ → List (List ℕ) → List ℕ
unfolding resolve_loop normalize_posix_string until_nul
resolve_posix cwd args =
    let (resolved, absolute_found) = resolve_loop (reverse (map until_nul args)) [] in
    normalize_posix_string (
      if absolute_found
      then resolved
      else cwd ++ (if is_empty resolved then [] else slash ∷ resolved))

unfoldable pub join_loop : List ℕ → List (List ℕ) → List ℕ
join_loop path [] = path
join_loop path (seg ∷ args) =
    let longer = join_loop (path ++ ((if is_empty path then [] else slash ∷ []) ++ seg)) args in
    let skipped = join_loop path args in if is_empty seg then skipped else longer

unfoldable pub join_posix : List (List ℕ) → List ℕ
unfolding join_loop normalize_posix_string until_nul
join_posix args = normalize_posix_string (join_loop [] (map until_nul args))

unfoldable pub normalize_posix : List ℕ → List ℕ
unfolding normalize_posix_string until_nul
normalize_posix path = normalize_posix_string (until_nul path)

unfoldable pub is_absolute_posix : List ℕ → Bool
unfolding until_nul
is_absolute_posix path = starts_with_slash (until_nul path)
