-- ===== src/Process/Runs.antt =====
-- src/module/node/process/process.cpp: process.env and hrtime at work, and the theorem at a file.
use zane.Base.{ℕ, ◌≡◌, refl, some, List, [], ◌∷◌}
use zane.Base.Text.{codes, same}
use zane.Console.{label_set}
use zane.Process.{load_dot_env, create_env, environ_line, hrtime, trim_end}
use zane.Process.DotEnv.{load_dot_env-settings_file}

cleaned :
    load_dot_env (some (codes "# note\n\n  A = 'x y' \nB=\nno\nA=\"\n"))
    ≡ (codes "A", codes "\"") ∷ (codes "B", []) ∷ []
unfolding load_dot_env same
cleaned = refl

file_wins :
    create_env (codes "A=1" ∷ codes "B=2" ∷ []) (some (codes "A=3\n"))
    ≡ (codes "A", codes "3") ∷ (codes "B", codes "2") ∷ []
unfolding create_env same environ_line
file_wins = refl

later : hrtime 5000000001 (some (2, 999999999)) ≡ (2, 2)
unfolding hrtime
later = refl

abbrev two_settings : List (List ℕ × List ℕ)
two_settings = (codes "KEY", codes " a=\"b\" ") ∷ (codes "KEY", codes "'") ∷ []

load_dot_env-settings_file_example :
    load_dot_env (some (codes "KEY=\" a=\"b\" \"\nKEY=\"'\"\n")) ≡ (codes "KEY", codes "'") ∷ []
unfolding same label_set trim_end
load_dot_env-settings_file_example = load_dot_env-settings_file two_settings (
  record {
    one_line = (refl, (refl, (refl, tt)));
    no_equals = (refl, (refl, (refl, tt)));
    starts = refl;
    ends = refl;
    value_line = (refl, (refl, (refl, (refl, (refl, (refl, (refl, tt)))))));
  },
  (
    record {
      one_line = (refl, (refl, (refl, tt)));
      no_equals = (refl, (refl, (refl, tt)));
      starts = refl;
      ends = refl;
      value_line = (refl, tt);
    },
    tt,
  ),
)
