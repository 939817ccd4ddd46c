-- ===== src/Process.antt =====
-- src/module/node/process/process.cpp: createEnvObject, loadDotEnv and hrtime.
pub mod DotEnv
pub mod Elapsed
pub mod Env
mod Runs
use zane.Base.{
  ℕ, suc, ◌+◌, ◌-◌, ◌*◌, ◌/◌, ◌%◌, ◌^◌, Bool, true, false, ◌&&◌, not, Option, none, some, List, [],
  ◌∷◌, ◌++◌, length, take, drop, leb, ◌==◌, if◌then◌else◌,
}
use zane.Base.Text.{codes}
use zane.Console.{label_set}

-- The lines that std::getline reads.
abbrev onto_line : ℕ → List (List ℕ) → List (List ℕ)
onto_line c [] = (c ∷ []) ∷ []
onto_line c (l ∷ ls) = (c ∷ l) ∷ ls

unfoldable pub file_lines : List ℕ → List (List ℕ)
file_lines [] = []
file_lines (c ∷ s) = if c == 10 then [] ∷ file_lines s else onto_line c (file_lines s)

abbrev pub is_one_of : List ℕ → ℕ → Bool
is_one_of [] c = false
is_one_of (d ∷ ds) c = if c == d then true else is_one_of ds c

-- `s.erase(0, s.find_first_not_of(set))`, which erases all where there is no other byte.
unfoldable pub trim_start : List ℕ → List ℕ → List ℕ
trim_start set [] = []
trim_start set (c ∷ s) = let rest = trim_start set s in if is_one_of set c then rest else c ∷ s

abbrev pub before_trimmed : Bool → ℕ → List ℕ → List ℕ
before_trimmed true c [] = []
before_trimmed false c [] = c ∷ []
before_trimmed b c (d ∷ s) = c ∷ d ∷ s

-- `s.erase(s.find_last_not_of(set) + 1)`, where npos + 1 is 0.
unfoldable pub trim_end : List ℕ → List ℕ → List ℕ
trim_end set [] = []
trim_end set (c ∷ s) = before_trimmed (is_one_of set c) c (trim_end set s)

abbrev onto_key : ℕ → Option (List ℕ × List ℕ) → Option (List ℕ × List ℕ)
onto_key c none = none
onto_key c (some (k, v)) = some (c ∷ k, v)

-- `line.find('=')` and the two substr.
unfoldable pub cut_equals : List ℕ → Option (List ℕ × List ℕ)
cut_equals [] = none
cut_equals (c ∷ s) = if c == 61 then some ([], s) else onto_key c (cut_equals s)

-- front() and back() of a text that is not empty.
abbrev pub front_byte : List ℕ → Option ℕ
front_byte [] = none
front_byte (c ∷ s) = some c

abbrev pub back_byte : List ℕ → Option ℕ
back_byte [] = none
back_byte (c ∷ []) = some c
back_byte (c ∷ d ∷ s) = back_byte (d ∷ s)

abbrev pub holds_byte : ℕ → Option ℕ → Bool
holds_byte q none = false
holds_byte q (some c) = c == q

abbrev pub is_quoted_by : ℕ → List ℕ → Bool
is_quoted_by q val = holds_byte q (front_byte val) && holds_byte q (back_byte val)

abbrev pub without_quotes : List ℕ → List ℕ
without_quotes val =
    if leb 2 (length val) && (if is_quoted_by 34 val then true else is_quoted_by 39 val)
    then take (length val - 2) (drop 1 val)
    else val

abbrev pub is_comment : List ℕ → Bool
is_comment [] = true
is_comment (c ∷ s) = c == 35

abbrev pub set_variable : Option (List ℕ × List ℕ) → List (List ℕ × List ℕ) → List (List ℕ × List ℕ)
set_variable none res = res
set_variable (some (k, v)) res =
    label_set (trim_end (codes " \t") k) (without_quotes (trim_start (codes " \t") v)) res

unfoldable pub dot_env_line : List ℕ → List (List ℕ × List ℕ) → List (List ℕ × List ℕ)
unfolding trim_start trim_end cut_equals label_set
dot_env_line text res =
    let line = trim_end (codes " \t\r\n") (trim_start (codes " \t\r\n") text) in
    if is_comment line then res else set_variable (cut_equals line) res

abbrev pub dot_env_lines : List (List ℕ) → List (List ℕ × List ℕ) → List (List ℕ × List ℕ)
dot_env_lines [] res = res
dot_env_lines (l ∷ ls) res = dot_env_lines ls (dot_env_line l res)

-- The bytes of the file .env, `none` where it does not open.
unfoldable pub load_dot_env : Option (List ℕ) → List (List ℕ × List ℕ)
unfolding file_lines dot_env_line
load_dot_env none = []
load_dot_env (some file) = dot_env_lines (file_lines file) []

-- Set of V8's object.
abbrev pub set_property : Option (List ℕ × List ℕ) → List (List ℕ × List ℕ) → List (List ℕ × List ℕ)
set_property none env = env
set_property (some (k, v)) env = label_set k v env

unfoldable pub environ_line : List ℕ → List (List ℕ × List ℕ) → List (List ℕ × List ℕ)
unfolding cut_equals label_set
environ_line line env = set_property (cut_equals line) env

abbrev pub environ_lines : List (List ℕ) → List (List ℕ × List ℕ) → List (List ℕ × List ℕ)
environ_lines [] env = env
environ_lines (l ∷ ls) env = environ_lines ls (environ_line l env)

abbrev pub set_properties : List (List ℕ × List ℕ) → List (List ℕ × List ℕ) → List (List ℕ × List ℕ)
set_properties [] env = env
set_properties (p ∷ ps) env = set_properties ps (set_property (some p) env)

-- `environ` and the file .env. The properties stand in the order in which they are set, where
-- std::map sorts those of .env.
unfoldable pub create_env : List (List ℕ) → Option (List ℕ) → List (List ℕ × List ℕ)
unfolding load_dot_env
create_env system file = set_properties (load_dot_env file) (environ_lines system [])

abbrev pub seconds_and_nanos : ℕ → ℕ × ℕ
seconds_and_nanos nanos = ((nanos / 1000000000) % 2 ^ 32, (nanos % 1000000000) % 2 ^ 32)

-- `nanos` is the clock, below 2 ^ 64; `none` is no array of two elements, whose Uint32Value are given.
unfoldable pub hrtime : ℕ → Option (ℕ × ℕ) → ℕ × ℕ
hrtime nanos none = seconds_and_nanos nanos
hrtime nanos (some (prev_sec, prev_nanos)) =
    let prev_total = (prev_sec * 1000000000 + prev_nanos) % 2 ^ 64 in
    seconds_and_nanos ((nanos + (2 ^ 64 - prev_total)) % 2 ^ 64)
