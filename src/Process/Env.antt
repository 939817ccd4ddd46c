-- ===== src/Process/Env.antt =====
-- src/module/node/process/process.cpp: what .env sets goes before the environment of the system.
use zane.Base.{ℕ, ◌≡◌, refl, ap, ◌∙◌, Option, none, some, List, [], ◌∷◌, if◌then◌else◌}
use zane.Base.Text.{same}
use zane.Console.{label_get}
use zane.Console.Counts.{label_get-label_set}
use zane.Process.{
  cut_equals, set_property, environ_line, environ_lines, set_properties, load_dot_env, create_env,
}

-- The value for a key after one more assignment.
abbrev pub assigned : List ℕ → Option (List ℕ × List ℕ) → Option (List ℕ) → Option (List ℕ)
assigned key none old = old
assigned key (some (k, v)) old = if same k key then some v else old

-- The last value that is assigned to a key, or else the old one.
abbrev pub last_assigned : List ℕ → List (List ℕ × List ℕ) → Option (List ℕ) → Option (List ℕ)
last_assigned key [] old = old
last_assigned key (p ∷ ps) old = last_assigned key ps (assigned key (some p) old)

abbrev pub last_environ : List ℕ → List (List ℕ) → Option (List ℕ) → Option (List ℕ)
last_environ key [] old = old
last_environ key (l ∷ ls) old = last_environ key ls (assigned key (cut_equals l) old)

set_property-assigned :
    (key : List ℕ) (p : Option (List ℕ × List ℕ)) (env : List (List ℕ × List ℕ))
    → label_get key (set_property p env) ≡ assigned key p (label_get key env)
set_property-assigned key none env = refl
set_property-assigned key (some (k, v)) env = label_get-label_set key k v env

set_properties-last_assigned :
    (key : List ℕ) (ps env : List (List ℕ × List ℕ))
    → label_get key (set_properties ps env) ≡ last_assigned key ps (label_get key env)
set_properties-last_assigned key [] env = refl
set_properties-last_assigned key (p ∷ ps) env =
    set_properties-last_assigned key ps (set_property (some p) env)
    ∙ ap (last_assigned key ps) (set_property-assigned key (some p) env)

environ_lines-last_environ :
    (key : List ℕ) (ls : List (List ℕ)) (env : List (List ℕ × List ℕ))
    → label_get key (environ_lines ls env) ≡ last_environ key ls (label_get key env)
unfolding environ_line
environ_lines-last_environ key [] env = refl
environ_lines-last_environ key (l ∷ ls) env =
    environ_lines-last_environ key ls (set_property (cut_equals l) env)
    ∙ ap (last_environ key ls) (set_property-assigned key (cut_equals l) env)

-- process.env has for a key what .env sets it to, or else what the last entry of the environment with
-- that key says, or nothing.
pub label_get-create_env :
    (key : List ℕ) (system : List (List ℕ)) (file : Option (List ℕ))
    → label_get key (create_env system file)
      ≡ last_assigned key (load_dot_env file) (last_environ key system none)
unfolding create_env label_get
label_get-create_env key system file =
    set_properties-last_assigned key (load_dot_env file) (environ_lines system [])
    ∙ ap (last_assigned key (load_dot_env file)) (environ_lines-last_environ key system [])
