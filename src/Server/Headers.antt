-- ===== src/Server/Headers.antt =====
-- src/module/builtin/server: no header that is sent can split the reply.
use zane.Base.{ℕ, ◌≢◌, ap, ◌≡◌, false, List, [], ◌∷◌, ◌++◌, All, arith}
use zane.Base.Text.{same}
use zane.Server.{
  Text, Response, response, contains_header_injection, contains, is_empty_text, is_refused, insert,
  before,
}
use zane.Server.Handler.{Action, Fetched, handle}
use zane.Server.Invariant.{Invariant, branch, handle-P}

-- No CR, LF or NUL.
abbrev pub IsHarmless : ℕ → Type 0
IsHarmless c = (c ≢ 13) × (c ≢ 10) × (c ≢ 0)

-- A header with a name, and without CR, LF and NUL in its name and its value.
abbrev pub IsClean : Text × Text → Type 0
IsClean (name, value) = (name ≢ []) × All IsHarmless name × All IsHarmless value

contains_header_injection-All : (s : Text) → contains_header_injection s ≡ false → All IsHarmless s
unfolding contains_header_injection contains
contains_header_injection-All [] e = tt
contains_header_injection-All (c ∷ s) e =
    ((ground arith, ground arith, ground arith), contains_header_injection-All s (ground arith))

abbrev pub AllClean : Response → Type 0
AllClean r = All IsClean r.headers × All (λ s. All IsClean s.sent_headers) r.sent

All-append : {A : Type 0} (P : A → Type 0) (xs ys : List A) → All P xs → All P ys → All P (xs ++ ys)
All-append P [] ys p q = q
All-append P (x ∷ xs) ys (p, ps) q = (p, All-append P xs ys ps q)

is_refused-IsClean : (name value : Text) → is_refused name value ≡ false → IsClean (name, value)
is_refused-IsClean name value e = (
  λ n. let m = ap is_empty_text n in ground arith,
  contains_header_injection-All name (ground arith),
  contains_header_injection-All value (ground arith),
)

insert-All :
    (name value : Text) (m : List (Text × Text))
    → IsClean (name, value)
    → All IsClean m
    → All IsClean (insert name value m)
unfolding insert
insert-All name value [] c a = (c, tt)
insert-All name value ((n, v) ∷ m) c (h, a) =
    branch (All IsClean) (same n name) ((name, value) ∷ m) _ (λ e. (c, a))
      (λ e.
        branch (All IsClean) (before name n) ((name, value) ∷ (n, v) ∷ m) _ (λ e. (c, (h, a)))
          (λ e. (h, insert-All name value m c a)))

clean : Invariant AllClean
clean = record {
  sends = λ body r e (h, s). (h, All-append (λ s. All IsClean s.sent_headers) r.sent _ s (h, tt));
  heads = λ name value r e (h, s).
      (insert-All name value r.headers (is_refused-IsClean name value e) h, s);
  sets = λ n r p. p;
}

-- Whatever the program does, no header that goes out with a Response has an empty name, or a CR, an LF
-- or a NUL in its name or its value.
pub handle-AllClean :
    (during : List Action) (f : Fetched) (error : List Action)
    → AllClean (handle during f error response)
handle-AllClean during f error = handle-P AllClean clean during f error response (tt, tt)
