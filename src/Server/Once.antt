-- ===== src/Server/Once.antt =====
-- src/module/builtin/server: a Response is sent at most once, and the handler sees to it that it is sent.
use zane.Base.{
  ◌≡◌, ◌≢◌, refl, Bool, true, false, List, [], ◌∷◌, length, length-append, if◌then◌else◌, arith,
}
use zane.Base.Text.{codes}
use zane.Server.{Text, Response, response, send, finish}
use zane.Server.Handler.{
  Action, act_all, send_error, end_if_open, on_promise_fulfilled, on_promise_rejected, Fetched,
  caught, no_promise, fulfilled, rejected, pending, settle, handle,
}
use zane.Server.Invariant.{Invariant, branch, handle-P, with_sent}

-- A Response is sent once where it has ended, and not at all where it has not.
abbrev pub IsOnce : Response → Type 0
IsOnce r = length r.sent ≡ (if r.has_ended then 1 else 0)

once : Invariant IsOnce
once = record {
  sends = λ body r e p.
      let l =
        length-append r.sent
          (record { sent_status = r.status; sent_headers = r.headers; body = body } ∷ []) in
      ground arith;
  heads = λ name value r e p. p;
  sets = λ n r p. p;
}

abbrev HasEnded : Response → Type 0
HasEnded r = r.has_ended ≡ true

send-HasEnded : (body : Text) (r : Response) → HasEnded (send body r)
unfolding send
send-HasEnded body r = branch HasEnded r.has_ended r (with_sent body r) (λ e. e) (λ e. refl)

send_error-HasEnded : (error : List Action) (r : Response) → HasEnded (send_error error r)
unfolding send_error
send_error-HasEnded error r =
    let s = act_all error r in
    branch HasEnded s.has_ended s _ (λ e. e) (λ e. send-HasEnded (codes "Internal Server Error") s)

end_if_open-HasEnded : (r : Response) → HasEnded (end_if_open r)
unfolding end_if_open finish
end_if_open-HasEnded r =
    branch HasEnded r.has_ended r _ (λ e. e)
      (λ e. branch HasEnded r.has_ended r _ (λ e. e) (λ e. send-HasEnded [] r))

settle-HasEnded :
    (well : Bool) (error : List Action) (r : Response) → HasEnded (settle well error r)
unfolding on_promise_fulfilled on_promise_rejected
settle-HasEnded true error r = end_if_open-HasEnded r
settle-HasEnded false error r = send_error-HasEnded error r

handle-HasEnded :
    (during : List Action) (f : Fetched) (error : List Action) (r : Response)
    → f ≢ no_promise
    → HasEnded (handle during f error r)
unfolding handle
handle-HasEnded during caught error r n = send_error-HasEnded error (act_all during r)
handle-HasEnded during no_promise error r n = absurd (n refl)
handle-HasEnded during fulfilled error r n = end_if_open-HasEnded (act_all during r)
handle-HasEnded during rejected error r n = send_error-HasEnded error (act_all during r)
handle-HasEnded during (pending later well) error r n =
    settle-HasEnded well error (act_all later (act_all during r))

-- Whatever the program does to a Response while `fetch` runs, while its promise is pending and in its
-- error callback, the Response is sent at most once; it is sent exactly once where `fetch` throws or
-- returns a promise, once the promise is settled. Where `fetch` returns another value, it is sent if
-- the program has sent it.
pub handle-IsOnce :
    (during : List Action) (f : Fetched) (error : List Action)
    → IsOnce (handle during f error response)
      × (f ≢ no_promise → length (handle during f error response).sent ≡ 1)
handle-IsOnce during f error =
    let o = handle-P IsOnce once during f error response refl in
    (o, λ n. let h = handle-HasEnded during f error response n in ground arith)
