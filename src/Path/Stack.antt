-- ===== src/Path/Stack.antt =====
-- The stack of segments that normalising leaves.
use zane.Base.{
  ℕ, ◌≡◌, refl, ◌∙◌, Bool, true, false, List, [], ◌∷◌, ◌++◌, ◌⊎◌, inl, inr, Bool-cases, reverse,
}
use mathlib.Core.List.{reverse-cons}
use zane.Base.Text.{same, same_refl}
use zane.Path.{dot, dot_dot, pop_or_push, stack_step, stack_loop}

-- A name is neither "." nor "..".
abbrev pub IsName : List ℕ → Type 0
IsName part = (same part dot ≡ false) × (same part dot_dot ≡ false)

-- Only "..", and only on a relative path.
abbrev pub Ups : Bool → List (List ℕ) → Type 0
Ups is_absolute [] = Unit {0}
Ups is_absolute (part ∷ stack) = (part ≡ dot_dot) × (is_absolute ≡ false) × Ups is_absolute stack

-- Names above the "..".
abbrev pub Settled : Bool → List (List ℕ) → Type 0
Settled is_absolute [] = Unit {0}
Settled is_absolute (part ∷ stack) =
    (IsName part × Settled is_absolute stack) ⊎ Ups is_absolute (part ∷ stack)

up-Settled : (a : Bool) (stack : List (List ℕ)) → Ups a stack → Settled a stack
up-Settled a [] h = tt
up-Settled a (part ∷ stack) h = inr h

popped : (a : Bool) (stack : List (List ℕ)) → Settled a stack → Settled a (pop_or_push a stack)
popped true [] h = tt
popped false [] h = inr (refl, refl, tt)
popped a (top ∷ stack) (inl (n, h)) = rw n.1 h
popped false (top ∷ stack) (inr (e, f, h)) =
    rw (e, same_refl dot_dot) (inr (refl, refl, (refl, refl, h)))
popped true (top ∷ stack) (inr (e, f, h)) = cc

step-Settled :
    (a : Bool) (stack : List (List ℕ)) (part : List ℕ)
    → Settled a stack
    → Settled a (stack_step a stack part)
unfolding stack_step
step-Settled a stack part h = by_dot (Bool-cases _) (Bool-cases _)
  where
    by_dot :
        (same part dot ≡ true) ⊎ (same part dot ≡ false)
        → (same part dot_dot ≡ true) ⊎ (same part dot_dot ≡ false)
        → Settled a (stack_step a stack part)
    by_dot (inl d) q = unfold stack_step in rw d h
    by_dot (inr d) (inl u) = unfold stack_step in rw (d, u) (popped a stack h)
    by_dot (inr d) (inr u) = unfold stack_step in rw (d, u) (inl ((d, u), h))

pub stack_loop-Settled :
    (a : Bool) (parts stack : List (List ℕ))
    → Settled a stack
    → Settled a (stack_loop a stack parts)
unfolding stack_loop
stack_loop-Settled a [] stack h = h
stack_loop-Settled a (part ∷ parts) stack h =
    stack_loop-Settled a parts (stack_step a stack part) (step-Settled a stack part h)

stack_loop-append :
    (a : Bool) (parts more stack : List (List ℕ))
    → stack_loop a stack (parts ++ more) ≡ stack_loop a (stack_loop a stack parts) more
unfolding stack_loop
stack_loop-append a [] more stack = refl
stack_loop-append a (part ∷ parts) more stack = stack_loop-append a parts more _

-- A settled stack, read from the bottom, comes out as it is.
Ups-again :
    (stack : List (List ℕ)) → Ups false stack → stack_step false stack dot_dot ≡ dot_dot ∷ stack
unfolding stack_step
Ups-again [] h = refl
Ups-again (top ∷ stack) (e, f, h) = rw e refl

Settled-again :
    (a : Bool) (part : List ℕ) (stack : List (List ℕ))
    → Settled a (part ∷ stack)
    → Settled a stack × (stack_step a stack part ≡ part ∷ stack)
Settled-again a part stack (inl (n, h)) = (h, unfold stack_step in rw (n.0, n.1) refl)
Settled-again true part stack (inr (e, f, h)) = cc
Settled-again false part stack (inr (e, f, h)) =
    (up-Settled false stack h, rw e (Ups-again stack h))

one_step :
    (a : Bool) (stack : List (List ℕ)) (part : List ℕ)
    → stack_loop a stack (part ∷ []) ≡ stack_step a stack part
unfolding stack_loop
one_step a stack part = refl

pub stack_loop-reverse :
    (a : Bool) (stack : List (List ℕ)) → Settled a stack → stack_loop a [] (reverse stack) ≡ stack
stack_loop-reverse a [] h = unfold stack_loop in refl
stack_loop-reverse a (part ∷ stack) h =
    let (rest, step) = Settled-again a part stack h in
    rw (reverse-cons part stack) (
      stack_loop-append a (reverse stack) (part ∷ []) []
      ∙ rw (one_step a (stack_loop a [] (reverse stack)) part, stack_loop-reverse a stack rest)
          step)

-- Going over the segments that normalising leaves a second time changes nothing: there is no "." among
-- them, ".." stands only in front of the names, and on an absolute path there is none.
pub stack_loop-stack_loop :
    (is_absolute : Bool) (parts : List (List ℕ))
    → Settled is_absolute (stack_loop is_absolute [] parts)
      × (stack_loop is_absolute [] (reverse (stack_loop is_absolute [] parts))
          ≡ stack_loop is_absolute [] parts)
stack_loop-stack_loop is_absolute parts =
    let settled = stack_loop-Settled is_absolute parts [] tt in
    (settled, stack_loop-reverse is_absolute _ settled)
