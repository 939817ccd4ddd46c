-- ===== src/Process/DotEnv.antt =====
-- src/module/node/process/process.cpp: loadDotEnv reads back what a file of settings says.
use zane.Base.{
  ℕ, inl, inr, suc, ◌-◌, ◌≤◌, ◌≡◌, refl, sym, ap, ◌∙◌, Bool, true, false, Bool-cases, not, some,
  List, [], ◌∷◌, ◌++◌, length, length-append, take, leb, ◌==◌, append_assoc, arith,
}
use zane.Base.Text.{codes}
use zane.Console.{label_set}
use zane.Process.{
  file_lines, is_one_of, trim_start, trim_end, cut_equals, back_byte, without_quotes, is_comment,
  dot_env_line, dot_env_lines, load_dot_env,
}

abbrev pub Lacks : ℕ → List ℕ → Type 0
Lacks b [] = Unit
Lacks b (c ∷ s) = (c == b) ≡ false × Lacks b s

abbrev pub starts_well : List ℕ → Bool
starts_well [] = true
starts_well (c ∷ s) = not (is_one_of (codes "# \t\r\n") c)

-- A key that can be written in front of `=`, and a value that can stand in quotes.
pub record IsSetting (setting : List ℕ × List ℕ) : Type 0 where
  pub one_line : Lacks 10 setting.0
  pub no_equals : Lacks 61 setting.0
  pub starts : starts_well setting.0 ≡ true
  pub ends : trim_end (codes " \t") setting.0 ≡ setting.0
  pub value_line : Lacks 10 setting.1

abbrev pub AllSettings : List (List ℕ × List ℕ) → Type 0
AllSettings [] = Unit
AllSettings (p ∷ ps) = IsSetting p × AllSettings ps

abbrev pub quoted : List ℕ → List ℕ
quoted v = 34 ∷ (v ++ (34 ∷ []))

abbrev pub setting_line : List ℕ × List ℕ → List ℕ
setting_line (k, v) = k ++ (61 ∷ quoted v)

abbrev pub settings_file : List (List ℕ × List ℕ) → List ℕ
settings_file [] = []
settings_file (p ∷ ps) = setting_line p ++ (10 ∷ settings_file ps)

abbrev pub set_all : List (List ℕ × List ℕ) → List (List ℕ × List ℕ) → List (List ℕ × List ℕ)
set_all [] res = res
set_all ((k, v) ∷ ps) res = set_all ps (label_set k v res)

file_lines-line : (l r : List ℕ) → Lacks 10 l → file_lines (l ++ (10 ∷ r)) ≡ l ∷ file_lines r
unfolding file_lines
file_lines-line [] r h = refl
file_lines-line (c ∷ l) r (n, h) = rw (n, file_lines-line l r h) refl

Lacks-append : (b : ℕ) (s t : List ℕ) → Lacks b s → Lacks b t → Lacks b (s ++ t)
Lacks-append b [] t hs ht = ht
Lacks-append b (c ∷ s) t (n, hs) ht = (n, Lacks-append b s t hs ht)

trim_end-last :
    (set s : List ℕ) (c : ℕ)
    → is_one_of set c ≡ false
    → trim_end set (s ++ (c ∷ [])) ≡ s ++ (c ∷ [])
unfolding trim_end
trim_end-last set [] c h = rw h refl
trim_end-last set (d ∷ []) c h = rw h refl
trim_end-last set (d ∷ e ∷ s) c h = rw (trim_end-last set (e ∷ s) c h) refl

cut_equals-key : (k v : List ℕ) → Lacks 61 k → cut_equals (k ++ (61 ∷ v)) ≡ some (k, v)
unfolding cut_equals
cut_equals-key [] v h = refl
cut_equals-key (c ∷ k) v (n, h) = rw (n, cut_equals-key k v h) refl

back_byte-last : (s : List ℕ) (c : ℕ) → back_byte (s ++ (c ∷ [])) ≡ some c
back_byte-last [] c = refl
back_byte-last (d ∷ []) c = refl
back_byte-last (d ∷ e ∷ s) c = back_byte-last (e ∷ s) c

take-front : (s t : List ℕ) → take (length s) (s ++ t) ≡ s
take-front [] t = refl
take-front (c ∷ s) t = ap (λ l. c ∷ l) (take-front s t)

within : (a b : ℕ) → a ≤ b → leb a b ≡ true
within a b h = ground arith

without_quotes-quoted : (v : List ℕ) → without_quotes (quoted v) ≡ v
without_quotes-quoted v =
    let size : length (quoted v) ≡ suc (suc (length v)) =
      omega (arith, length-append v (34 ∷ [])) in
    let long : leb 2 (length (quoted v)) ≡ true =
      within 2 (length (quoted v)) (omega (arith, size)) in
    let cut : length (quoted v) - 2 ≡ length v = omega (arith, size) in
    rw (back_byte-last (34 ∷ v) 34, long, cut) (take-front v (34 ∷ []))

trim_start-setting :
    (k r : List ℕ)
    → starts_well k ≡ true
    → trim_start (codes " \t\r\n") (k ++ (61 ∷ r)) ≡ k ++ (61 ∷ r)
unfolding trim_start
trim_start-setting [] r h = refl
trim_start-setting (c ∷ k) r h = elim (Bool-cases (is_one_of (codes " \t\r\n") c)) [
  | inl e ↦ ground (arith, h, e)
  | inr n ↦ rw n refl
]

is_comment-setting : (k r : List ℕ) → starts_well k ≡ true → is_comment (k ++ (61 ∷ r)) ≡ false
is_comment-setting [] r h = refl
is_comment-setting (c ∷ k) r h = elim (Bool-cases (c == 35)) [
  | inl e ↦ ground (arith, h, e)
  | inr n ↦ n
]

setting-quote : (k v : List ℕ) → k ++ (61 ∷ quoted v) ≡ (k ++ (61 ∷ 34 ∷ v)) ++ (34 ∷ [])
setting-quote k v = sym (append_assoc k (61 ∷ 34 ∷ v) (34 ∷ []))

dot_env_line-setting :
    (p : List ℕ × List ℕ) (res : List (List ℕ × List ℕ))
    → IsSetting p
    → dot_env_line (setting_line p) res ≡ label_set p.0 p.1 res
unfolding dot_env_line
dot_env_line-setting (k, v) res i =
    let start = trim_start-setting k (quoted v) i.starts in
    let end : trim_end (codes " \t\r\n") (k ++ (61 ∷ quoted v)) ≡ k ++ (61 ∷ quoted v) =
      ap (trim_end (codes " \t\r\n")) (setting-quote k v)
      ∙ trim_end-last (codes " \t\r\n") (k ++ (61 ∷ 34 ∷ v)) 34 refl
      ∙ sym (setting-quote k v) in
    rw
      (
        start,
        end,
        is_comment-setting k (quoted v) i.starts,
        cut_equals-key k (quoted v) i.no_equals,
      )
      (ap (λ t. label_set t (without_quotes (quoted v)) res) i.ends
        ∙ ap (λ t. label_set k t res) (without_quotes-quoted v))

dot_env_lines-settings :
    (ps res : List (List ℕ × List ℕ))
    → AllSettings ps
    → dot_env_lines (file_lines (settings_file ps)) res ≡ set_all ps res
unfolding file_lines
dot_env_lines-settings [] res h = refl
dot_env_lines-settings ((k, v) ∷ ps) res (i, h) =
    ap (λ ls. dot_env_lines ls res)
      (file_lines-line (setting_line (k, v)) (settings_file ps) (
        Lacks-append 10 k (61 ∷ quoted v) i.one_line
          (refl, (refl, Lacks-append 10 v (34 ∷ []) i.value_line (refl, tt)))))
    ∙ ap (dot_env_lines (file_lines (settings_file ps))) (dot_env_line-setting (k, v) res i)
    ∙ dot_env_lines-settings ps (label_set k v res) h

-- loadDotEnv of a file with a line KEY="value" for each setting gives the settings, the later line for
-- a key that stands twice. The value may hold spaces, quotes, = and #, and no newline; the key has no
-- newline and no =, begins with no space and no #, and ends with no space.
pub load_dot_env-settings_file :
    (ps : List (List ℕ × List ℕ))
    → AllSettings ps
    → load_dot_env (some (settings_file ps)) ≡ set_all ps []
unfolding load_dot_env
load_dot_env-settings_file ps h = dot_env_lines-settings ps [] h
