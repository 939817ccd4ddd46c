-- ===== src/Server.antt =====
-- src/module/builtin/server/response.cpp and server.cpp: a Response, and the handler that gives it to
-- the function `fetch` of the program.
pub mod Active
pub mod Handler
pub mod Request
mod Invariant
mod Once
mod Headers
mod Runs
use zane.Base.{
  ℕ, ◌+◌, Bool, true, false, not, ◌||◌, Option, some, none, List, [], ◌∷◌, ◌++◌, ◌==◌, ltb,
  if◌then◌else◌,
}
use zane.Base.Int.{ℤ, pos}
use zane.Base.Text.{codes, same, until_nul}
use zane.Buffer.{Outcome, ok, throws, range_error, type_error}

abbrev pub Text : Type 0
Text = List ℕ

-- A call of the SendCallback.
pub record Sent : Type 0 where
  pub sent_status : ℤ
  pub sent_headers : List (Text × Text)
  pub body : Text

pub record Response : Type 0 where
  pub status : ℤ
  pub headers : List (Text × Text)
  pub has_ended : Bool
  pub headers_sent : Bool
  pub sent : List Sent

-- A Response of the server, which has a SendCallback.
abbrev pub response : Response
response = record {
  status = pos 200;
  headers = [];
  has_ended = false;
  headers_sent = false;
  sent = [];
}

unfoldable pub contains : ℕ → Text → Bool
contains c [] = false
contains c (d ∷ s) = d == c || contains c s

-- CR, LF or NUL.
unfoldable pub contains_header_injection : Text → Bool
unfolding contains
contains_header_injection s = contains 13 s || contains 10 s || contains 0 s

abbrev pub is_empty_text : Text → Bool
is_empty_text [] = true
is_empty_text (c ∷ s) = false

-- The order of std::map on std::string.
unfoldable pub before : Text → Text → Bool
before s [] = false
before [] (d ∷ t) = true
before (c ∷ s) (d ∷ t) = let rest = before s t in if c == d then rest else ltb c d

-- `m_headers[name] = value`
unfoldable pub insert : Text → Text → List (Text × Text) → List (Text × Text)
unfolding same before
insert name value [] = (name, value) ∷ []
insert name value ((n, v) ∷ m) =
    let rest = insert name value m in
    if same n name
    then (name, value) ∷ m
    else if before name n
    then (name, value) ∷ (n, v) ∷ m
    else (n, v) ∷ rest

abbrev pub is_refused : Text → Text → Bool
is_refused name value =
    is_empty_text name || contains_header_injection name || contains_header_injection value

unfoldable pub set_header : Text → Text → Response → Response
unfolding contains_header_injection insert
set_header name value r =
    if is_refused name value then r else record r { headers = insert name value r.headers }

unfoldable pub send : Text → Response → Response
send body r = if r.has_ended then r else record r {
  has_ended = true;
  headers_sent = true;
  sent = r.sent ++ (record { sent_status = r.status; sent_headers = r.headers; body = body } ∷ []);
}

-- The text that JSON.stringify gives; where it throws the process ends.
unfoldable pub send_json : Text → Response → Response
unfolding send set_header
send_json json r =
    if r.has_ended
    then r
    else send (until_nul json) (set_header (codes "Content-Type") (codes "application/json") r)

unfoldable pub finish : Response → Response
unfolding send
finish r = if r.has_ended then r else send [] r

-- The last look at a Response that its wrapper gives up.
unfoldable pub weak_callback : Response → Response
unfolding send
weak_callback r = if r.has_ended then r else send [] r

-- A value that JavaScript passes is `none` where V8 cannot turn it into a text.
unfoldable pub send_method : Option Text → Response → Response
unfolding send until_nul
send_method none r = r
send_method (some s) r = if r.has_ended then r else send (until_nul s) r

-- `none` for a call with no arguments.
unfoldable pub send_json_method : Option Text → Response → Response
unfolding send_json
send_json_method none r = r
send_json_method (some json) r = if r.has_ended then r else send_json json r

unfoldable pub end_method : List (Option Text) → Response → Response
unfolding send finish until_nul
end_method [] r = if r.has_ended then r else finish r
end_method (none ∷ args) r = if r.has_ended then r else finish r
end_method (some s ∷ args) r = if r.has_ended then r else send (until_nul s) r

unfoldable pub set_header_method : List (Option Text) → Response → Outcome Response
unfolding contains_header_injection insert
set_header_method (some name ∷ some value ∷ args) r =
    if is_refused name value
    then throws range_error
    else ok (record r { headers = insert name value r.headers })
set_header_method args r = throws type_error

-- `none` is a value that Int32Value refuses.
abbrev pub set_status : Option ℤ → Response → Response
set_status none r = record r { status = pos 200 }
set_status (some n) r = record r { status = n }
