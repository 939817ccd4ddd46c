-- ===== src/Server/Handler.antt =====
-- src/module/builtin/server/server.cpp: the handler of a request, from the call of `fetch` to the end of
-- its promise.
use zane.Base.{Bool, true, false, Option, List, [], ◌∷◌, if◌then◌else◌}
use zane.Base.Int.{ℤ}
use zane.Base.Text.{codes}
use zane.Buffer.{Outcome, ok, throws, undef}
use zane.Server.{
  Text, Response, send, finish, send_method, send_json_method, end_method, set_header_method,
  set_status,
}

-- What a program does with a Response.
pub data Action : Type 0 where
  assign_status : Option ℤ → Action
  call_set_header : List (Option Text) → Action
  call_send : Option Text → Action
  call_json : Option Text → Action
  call_end : List (Option Text) → Action

-- An error that the program catches leaves the Response as it was.
abbrev pub or_same : Outcome Response → Response → Response
or_same (ok s) r = s
or_same (throws e) r = r
or_same undef r = r

unfoldable pub act : Action → Response → Response
unfolding set_header_method send_method send_json_method end_method
act (assign_status n) r = set_status n r
act (call_set_header args) r = or_same (set_header_method args r) r
act (call_send s) r = send_method s r
act (call_json s) r = send_json_method s r
act (call_end args) r = end_method args r

unfoldable pub act_all : List Action → Response → Response
unfolding act
act_all [] r = r
act_all (a ∷ rest) r = act_all rest (act a r)

-- `error` is what the error callback does, which may hold the Response; it is empty where there is no
-- such callback.
unfoldable pub send_error : List Action → Response → Response
unfolding act_all send
send_error error r =
    let s = act_all error r in if s.has_ended then s else send (codes "Internal Server Error") s

unfoldable pub end_if_open : Response → Response
unfolding finish
end_if_open r = if r.has_ended then r else finish r

-- How the promise that `fetch` returned ends: onPromiseFulfilled and onPromiseRejected.
unfoldable pub on_promise_fulfilled : Response → Response
unfolding end_if_open
on_promise_fulfilled r = end_if_open r

unfoldable pub on_promise_rejected : List Action → Response → Response
unfolding send_error
on_promise_rejected error r = send_error error r

-- What the call of `fetch` gives: an exception, a value that is no promise, or a promise. What the
-- program does to the Response until a pending promise is settled, and whether it is fulfilled, belong
-- to the promise.
pub data Fetched : Type 0 where
  caught : Fetched
  no_promise : Fetched
  fulfilled : Fetched
  rejected : Fetched
  pending : List Action → Bool → Fetched

abbrev pub settle : Bool → List Action → Response → Response
settle true error r = on_promise_fulfilled r
settle false error r = on_promise_rejected error r

unfoldable pub handle : List Action → Fetched → List Action → Response → Response
unfolding act_all send_error end_if_open on_promise_fulfilled on_promise_rejected
handle during caught error r = send_error error (act_all during r)
handle during no_promise error r = act_all during r
handle during fulfilled error r = end_if_open (act_all during r)
handle during rejected error r = send_error error (act_all during r)
handle during (pending later well) error r = settle well error (act_all later (act_all during r))
