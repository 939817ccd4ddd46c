-- ===== src/Server/Invariant.antt =====
-- src/module/builtin/server: what the three changes of a Response keep, all operations keep.
use zane.Base.{◌≡◌, refl, Bool, true, false, Option, some, none, List, [], ◌∷◌, ◌++◌, if◌then◌else◌}
use zane.Base.Int.{ℤ, pos}
use zane.Base.Text.{codes, until_nul}
use zane.Server.{
  Text, Response, send, send_json, set_header, finish, send_method, send_json_method, end_method,
  set_header_method, is_refused, weak_callback, insert,
}
use zane.Server.Handler.{
  Action, assign_status, call_set_header, call_send, call_json, call_end, or_same, act, act_all,
  send_error, end_if_open, on_promise_fulfilled, on_promise_rejected, Fetched, caught, no_promise,
  fulfilled, rejected, pending, settle, handle,
}

abbrev pub with_sent : Text → Response → Response
with_sent body r = record r {
  has_ended = true;
  headers_sent = true;
  sent = r.sent ++ (record { sent_status = r.status; sent_headers = r.headers; body = body } ∷ []);
}

abbrev pub with_header : Text → Text → Response → Response
with_header name value r = record r { headers = insert name value r.headers }

pub record Invariant (P : Response → Type 0) : Type 0 where
  pub sends : (body : Text) (r : Response) → r.has_ended ≡ false → P r → P (with_sent body r)
  pub heads :
      (name value : Text) (r : Response)
      → is_refused name value ≡ false
      → P r
      → P (with_header name value r)
  pub sets : (n : ℤ) (r : Response) → P r → P (record r { status = n })

-- A test that is known in each branch.
pub branch :
    {A : Type 0} (P : A → Type 0) (b : Bool) (x y : A)
    → (b ≡ true → P x)
    → (b ≡ false → P y)
    → P (if b then x else y)
branch P true x y f g = f refl
branch P false x y f g = g refl

module _ (P : Response → Type 0) (v : Invariant P) where
  pub send-P : (body : Text) (r : Response) → P r → P (send body r)
  unfolding send
  send-P body r p = branch P r.has_ended r (with_sent body r) (λ e. p) (λ e. v.sends body r e p)

  set_header-P : (name value : Text) (r : Response) → P r → P (set_header name value r)
  unfolding set_header
  set_header-P name value r p =
      branch P (is_refused name value) r (with_header name value r) (λ e. p)
        (λ e. v.heads name value r e p)

  guarded : (r s : Response) → P r → P s → P (if r.has_ended then r else s)
  guarded r s p q = branch P r.has_ended r s (λ e. p) (λ e. q)

  send_json-P : (json : Text) (r : Response) → P r → P (send_json json r)
  unfolding send_json
  send_json-P json r p =
      let s = set_header (codes "Content-Type") (codes "application/json") r in
      guarded r (send (until_nul json) s) p (
        send-P (until_nul json) s
          (set_header-P (codes "Content-Type") (codes "application/json") r p))

  finish-P : (r : Response) → P r → P (finish r)
  unfolding finish
  finish-P r p = guarded r (send [] r) p (send-P [] r p)

  pub weak_callback-P : (r : Response) → P r → P (weak_callback r)
  unfolding weak_callback
  weak_callback-P r p = guarded r (send [] r) p (send-P [] r p)

  set_header_method-P :
      (args : List (Option Text)) (r : Response) → P r → P (or_same (set_header_method args r) r)
  unfolding set_header_method
  set_header_method-P [] r p = p
  set_header_method-P (none ∷ args) r p = p
  set_header_method-P (some name ∷ []) r p = p
  set_header_method-P (some name ∷ none ∷ args) r p = p
  set_header_method-P (some name ∷ some value ∷ args) r p =
      branch (λ o. P (or_same o r)) (is_refused name value) _ _ (λ e. p)
        (λ e. v.heads name value r e p)

  act-P : (a : Action) (r : Response) → P r → P (act a r)
  unfolding act send_method send_json_method end_method
  act-P (assign_status none) r p = v.sets (pos 200) r p
  act-P (assign_status (some n)) r p = v.sets n r p
  act-P (call_set_header args) r p = set_header_method-P args r p
  act-P (call_send none) r p = p
  act-P (call_send (some s)) r p = guarded r _ p (send-P (until_nul s) r p)
  act-P (call_json none) r p = p
  act-P (call_json (some s)) r p = guarded r _ p (send_json-P s r p)
  act-P (call_end []) r p = guarded r _ p (finish-P r p)
  act-P (call_end (none ∷ args)) r p = guarded r _ p (finish-P r p)
  act-P (call_end (some s ∷ args)) r p = guarded r _ p (send-P (until_nul s) r p)

  pub act_all-P : (acts : List Action) (r : Response) → P r → P (act_all acts r)
  unfolding act_all
  act_all-P [] r p = p
  act_all-P (a ∷ acts) r p = act_all-P acts (act a r) (act-P a r p)

  send_error-P : (error : List Action) (r : Response) → P r → P (send_error error r)
  unfolding send_error
  send_error-P error r p =
      let s = act_all error r in
      guarded s _ (act_all-P error r p)
        (send-P (codes "Internal Server Error") s (act_all-P error r p))

  end_if_open-P : (r : Response) → P r → P (end_if_open r)
  unfolding end_if_open
  end_if_open-P r p = guarded r _ p (finish-P r p)

  settle-P : (well : Bool) (error : List Action) (r : Response) → P r → P (settle well error r)
  unfolding on_promise_fulfilled on_promise_rejected
  settle-P true error r p = end_if_open-P r p
  settle-P false error r p = send_error-P error r p

  pub handle-P :
      (during : List Action) (f : Fetched) (error : List Action) (r : Response)
      → P r
      → P (handle during f error r)
  unfolding handle
  handle-P during caught error r p = send_error-P error _ (act_all-P during r p)
  handle-P during no_promise error r p = act_all-P during r p
  handle-P during fulfilled error r p = end_if_open-P _ (act_all-P during r p)
  handle-P during rejected error r p = send_error-P error _ (act_all-P during r p)
  handle-P during (pending later well) error r p =
      settle-P well error _ (act_all-P later _ (act_all-P during r p))
