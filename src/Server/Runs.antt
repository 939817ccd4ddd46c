-- ===== src/Server/Runs.antt =====
-- src/module/builtin/server: replies, and the theorems at concrete inputs.
use zane.Base.{◌≡◌, ◌≢◌, refl, true, false, some, List, [], ◌∷◌, length}
use zane.Base.Int.{pos, negsuc}
use zane.Base.Text.{codes}
use zane.Server.{response}
use zane.Server.Handler.{
  Action, call_set_header, call_send, call_json, call_end, handle, caught, no_promise, pending,
}
use zane.Server.Once.{IsOnce, handle-IsOnce}
use zane.Server.Headers.{AllClean, handle-AllClean}
use zane.Server.Active.{port_of}

-- The error that the handler sends has the status that the program set, which is 200 where it set none.
error_status :
    (handle [] caught [] response).sent
    ≡ record { sent_status = pos 200; sent_headers = []; body = codes "Internal Server Error" } ∷ []
unfolding handle
error_status = refl

-- A function that returns no promise and forgets the Response leaves it open.
forgotten : (handle [] no_promise [] response).sent ≡ []
unfolding handle
forgotten = refl

-- A body ends at its first NUL.
cut_body :
    (handle (call_send (some (104 ∷ 0 ∷ 105 ∷ [])) ∷ []) no_promise [] response).sent
    ≡ record { sent_status = pos 200; sent_headers = []; body = 104 ∷ [] } ∷ []
unfolding handle
cut_body = refl

wrapped_ports : (port_of (some (negsuc 0)) ≡ 65535) × (port_of (some (pos 70000)) ≡ 4464)
unfolding port_of
wrapped_ports = (refl, refl)

-- A header, one that would split the reply, and two answers.
abbrev actions : List Action
actions =
    call_set_header (some (codes "a") ∷ some (codes "b") ∷ [])
    ∷ call_set_header (some (codes "c") ∷ some (13 ∷ 10 ∷ []) ∷ [])
    ∷ call_json (some (codes "{}"))
    ∷ call_end []
    ∷ []

answered :
    (handle [] (pending actions true) [] response).sent
    ≡ record {
      sent_status = pos 200;
      sent_headers = (codes "Content-Type", codes "application/json") ∷ (codes "a", codes "b") ∷ [];
      body = codes "{}";
    }
      ∷ []
unfolding handle
answered = refl

handle-IsOnce_example :
    IsOnce (handle [] (pending actions false) actions response)
    × (pending actions false ≢ no_promise
        → length (handle [] (pending actions false) actions response).sent ≡ 1)
handle-IsOnce_example = handle-IsOnce [] (pending actions false) actions

handle-AllClean_example : AllClean (handle actions caught actions response)
handle-AllClean_example = handle-AllClean actions caught actions
