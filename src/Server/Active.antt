-- ===== src/Server/Active.antt =====
-- src/module/builtin/server/server.cpp: the servers of a program and the count of those that run.
use zane.Base.{
  ℕ, ◌+◌, ◌-◌, ◌≡◌, refl, sym, ap, ◌∙◌, Bool, true, false, Option, some, none, List, [], ◌∷◌, ◌++◌,
  get_elem?, set, ltb, if◌then◌else◌, arith,
}
use zane.Base.Int.{ℤ, to_unsigned}
use zane.Base.Totals.{total, total-append, total-set}

-- m_running of each server that was made, and m_active_server_count.
pub record Servers : Type 0 where
  pub running : List Bool
  pub active : ℕ

abbrev pub none_made : Servers
none_made = record { running = []; active = 0 }

abbrev pub start_at : ℕ → Option Bool → Servers → Servers × Bool
start_at i (some false) s = (record { running = set s.running i true; active = s.active + 1 }, true)
start_at i (some true) s = (s, false)
start_at i none s = (s, false)

unfoldable pub start_server : ℕ → Servers → Servers × Bool
start_server i s = start_at i (get_elem? s.running i) s

abbrev pub stop_at : ℕ → Option Bool → Servers → Servers
stop_at i (some true) s = record { running = set s.running i false; active = s.active - 1 }
stop_at i (some false) s = s
stop_at i none s = s

unfoldable pub stop_server : ℕ → Servers → Servers
stop_server i s = stop_at i (get_elem? s.running i) s

unfoldable pub has_active_servers : Servers → Bool
has_active_servers s = ltb 0 s.active

-- The constructor.
unfoldable pub make : Servers → Servers
make s = record s { running = s.running ++ (false ∷ []) }

-- The port of Zane.serve: a uint16_t; `none` is an option that is missing or no number.
unfoldable pub port_of : Option ℤ → ℕ
port_of none = 8080
port_of (some n) = to_unsigned 16 n

pub data Made : Servers → Type 0 where
  nothing : Made none_made
  made : {s : Servers} → Made s → Made (make s)
  started : {s : Servers} → Made s → (i : ℕ) → Made (start_server i s).0
  stopped : {s : Servers} → Made s → (i : ℕ) → Made (stop_server i s)

abbrev one : Bool → ℕ
one b = if b then 1 else 0

abbrev IsCounted : Servers → Type 0
IsCounted s = s.active ≡ total one s.running

start_at-IsCounted :
    (i : ℕ) (o : Option Bool) (s : Servers)
    → get_elem? s.running i ≡ o
    → IsCounted s
    → IsCounted (start_at i o s).0
start_at-IsCounted i none s e c = c
start_at-IsCounted i (some true) s e c = c
start_at-IsCounted i (some false) s e c =
    let t = total-set one s.running i false true e in omega arith

stop_at-IsCounted :
    (i : ℕ) (o : Option Bool) (s : Servers)
    → get_elem? s.running i ≡ o
    → IsCounted s
    → IsCounted (stop_at i o s)
stop_at-IsCounted i none s e c = c
stop_at-IsCounted i (some false) s e c = c
stop_at-IsCounted i (some true) s e c =
    let t = total-set one s.running i true false e in omega arith

Made-IsCounted : {s : Servers} → Made s → IsCounted s
unfolding make start_server stop_server
Made-IsCounted nothing = refl
Made-IsCounted (made {s} m) =
    let t = total-append one s.running (false ∷ []) in let c = Made-IsCounted m in omega arith
Made-IsCounted (started {s} m i) =
    start_at-IsCounted i (get_elem? s.running i) s refl (Made-IsCounted m)
Made-IsCounted (stopped {s} m i) =
    stop_at-IsCounted i (get_elem? s.running i) s refl (Made-IsCounted m)

abbrev pub any : List Bool → Bool
any [] = false
any (true ∷ bs) = true
any (false ∷ bs) = any bs

any-total : (bs : List Bool) → any bs ≡ ltb 0 (total one bs)
any-total [] = refl
any-total (true ∷ bs) = ground arith
any-total (false ∷ bs) = any-total bs ∙ ap (ltb 0) (omega arith)

-- Whichever servers a program makes, starts and stops, more than once too, hasActiveServers is true
-- exactly where one of them runs.
pub has_active_servers-any : {s : Servers} → Made s → has_active_servers s ≡ any s.running
unfolding has_active_servers
has_active_servers-any {s} m = ap (ltb 0) (Made-IsCounted m) ∙ sym (any-total s.running)
