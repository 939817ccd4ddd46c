-- ===== src/Console/Counts.antt =====
-- src/module/console.cpp: count and countReset keep the number of calls for each label.
use zane.Base.{
  Bool, ◌≤◌, length, subst, ne→==_false, arith, ◌==◌, ℕ, ◌+◌, ◌≡◌, refl, sym, ap, ◌∙◌, true, false,
  Bool-cases, Option, none, some, List, [], ◌∷◌, if◌then◌else◌, inl, inr,
}
use zane.Buffer.{Outcome, ok, ◌>>=◌}
use zane.Base.Text.{same, same_refl, same→eq}
use zane.Console.{
  Console, label_get, label_set, label_of, count_or_zero, count, put_count, count_reset,
  reset_found,
}

-- A call of count or of countReset with its label.
pub data CountCall : Type 0 where
  counted : Option (List ℕ) → CountCall
  cleared : Option (List ℕ) → CountCall

abbrev pub after_call : (ℕ → List ℕ) → CountCall → Console → Outcome Console
after_call to_string (counted l) c = count to_string l c
after_call to_string (cleared l) c = ok (count_reset l c)

abbrev pub after_calls : (ℕ → List ℕ) → List CountCall → Outcome Console → Outcome Console
after_calls to_string [] r = r
after_calls to_string (x ∷ calls) r = after_calls to_string calls (r >>= after_call to_string x)

abbrev pub zeroed : Option ℕ → Option ℕ
zeroed none = none
zeroed (some n) = some 0

-- What a call leaves for a label that had the count `n`, none where it was never counted.
abbrev pub tallied : List ℕ → CountCall → Option ℕ → Option ℕ
tallied label (counted l) n = if same (label_of l) label then some (count_or_zero n + 1) else n
tallied label (cleared l) n = if same (label_of l) label then zeroed n else n

abbrev pub tally : List ℕ → List CountCall → Option ℕ → Option ℕ
tally label [] n = n
tally label (x ∷ calls) n = tally label calls (tallied label x n)

other : (l k label : List ℕ) → same k l ≡ false → same k label ≡ true → same l label ≡ false
other l k label d y = elim (Bool-cases (same l label)) [
  | inl e ↦
      let both : k ≡ l = same→eq k label y ∙ sym (same→eq l label e) in
      let hit : same k l ≡ true = ap (λ t. same t l) both ∙ same_refl l in cc
  | inr n ↦ n
]

pub label_get-label_set :
    {V : Type 0} (label l : List ℕ) (v : V) (m : List (List ℕ × V))
    → label_get label (label_set l v m) ≡ (if same l label then some v else label_get label m)
unfolding label_get label_set
label_get-label_set label l v [] = refl
label_get-label_set label l v ((k, w) ∷ m) = elim (Bool-cases (same k l)) [
  | inl e ↦
      rw (e, same→eq k l e)
        (elim (Bool-cases (same l label)) [ inl y ↦ rw y refl | inr n ↦ rw n refl ])
  | inr d ↦ rw d (elim (Bool-cases (same k label)) [
    | inl y ↦ rw (y, other l k label d y) refl
    | inr n ↦ rw n (label_get-label_set label l v m)
  ])
]

count-tallied :
    (label l : List ℕ) (m : List (List ℕ × ℕ))
    → label_get label (label_set l (count_or_zero (label_get l m) + 1) m)
      ≡ (if same l label then some (count_or_zero (label_get label m) + 1) else label_get label m)
count-tallied label l m =
    label_get-label_set label l (count_or_zero (label_get l m) + 1) m
    ∙ elim (Bool-cases (same l label)) [
      | inl e ↦ rw (e, same→eq l label e) refl
      | inr n ↦ rw n refl
    ]

reset-tallied :
    (label : List ℕ) (l : Option (List ℕ)) (c : Console)
    → label_get label (count_reset l c).counts
      ≡ tallied label (cleared l) (label_get label c.counts)
unfolding count_reset
reset-tallied label l c = at_reset (label_get (label_of l) c.counts) refl
  where
    at_reset :
        (o : Option ℕ)
        → label_get (label_of l) c.counts ≡ o
        → label_get label (reset_found o (label_of l) c).counts
          ≡ tallied label (cleared l) (label_get label c.counts)
    at_reset none e = elim (Bool-cases (same (label_of l) label)) [
      | inl y ↦ rw y (
          ap (λ t. label_get t c.counts) (sym (same→eq (label_of l) label y))
          ∙ e
          ∙ ap zeroed
              (sym (ap (λ t. label_get t c.counts) (sym (same→eq (label_of l) label y)) ∙ e)))
      | inr n ↦ rw n refl
    ]
    at_reset (some k) e =
        label_get-label_set label (label_of l) 0 c.counts
        ∙ elim (Bool-cases (same (label_of l) label)) [
          | inl y ↦ rw y (
              ap zeroed
                (sym (ap (λ t. label_get t c.counts) (sym (same→eq (label_of l) label y)) ∙ e)))
          | inr n ↦ rw n refl
        ]

-- No label has more than `n` counts.
abbrev pub AtMost : ℕ → Console → Type 0
AtMost n c = (l : List ℕ) → count_or_zero (label_get l c.counts) ≤ n

-- The console that a call leaves.
record Tallied (to_string : ℕ → List ℕ) (x : CountCall) (c : Console) : Type 0 where
  after : Console
  gives : after_call to_string x c ≡ ok after
  tallies :
      (label : List ℕ) → label_get label after.counts ≡ tallied label x (label_get label c.counts)

after_call-Tallied :
    (to_string : ℕ → List ℕ) (x : CountCall) (c : Console)
    → AtMost 2147483646 c
    → Tallied to_string x c
unfolding count
after_call-Tallied to_string (counted l) c h =
    let n = count_or_zero (label_get (label_of l) c.counts) in
    let room : (n == 2147483647) ≡ false =
      ne→==_false n 2147483647 (λ e. omega (arith, e, h (label_of l))) in
    record {
      after = put_count to_string (label_of l) (n + 1) c;
      gives = rw room refl;
      tallies = λ label. count-tallied label (label_of l) c.counts;
    }
after_call-Tallied to_string (cleared l) c h = record {
  after = count_reset l c;
  gives = refl;
  tallies = λ label. reset-tallied label l c;
}

one_more :
    (n : ℕ) (o : Option ℕ) (b : Bool)
    → count_or_zero o ≤ n
    → count_or_zero (if b then some (count_or_zero o + 1) else o) ≤ n + 1
one_more n o true h = omega (arith, h)
one_more n o false h = omega (arith, h)

zeroed_most :
    (n : ℕ) (o : Option ℕ) (b : Bool)
    → count_or_zero o ≤ n
    → count_or_zero (if b then zeroed o else o) ≤ n + 1
zeroed_most n none true h = omega arith
zeroed_most n (some k) true h = omega arith
zeroed_most n o false h = omega (arith, h)

tallied_most :
    (n : ℕ) (x : CountCall) (label : List ℕ) (o : Option ℕ)
    → count_or_zero o ≤ n
    → count_or_zero (tallied label x o) ≤ n + 1
tallied_most n (counted l) label o h = one_more n o (same (label_of l) label) h
tallied_most n (cleared l) label o h = zeroed_most n o (same (label_of l) label) h

-- Where the counts that are kept leave room for the calls below 2 ^ 31, calls of count and countReset
-- have no undefined behaviour. The count that is kept for a label is then what the calls with that
-- label make of the count that was kept before: count adds one to it, or begins at one, and countReset
-- sets it to 0 where there is one. The other labels do not matter.
pub label_get-tally :
    (to_string : ℕ → List ℕ) (n : ℕ) (calls : List CountCall) (c : Console)
    → AtMost n c
    → n + length calls ≤ 2147483647
    → (d : Console) × (after_calls to_string calls (ok c) ≡ ok d)
      × ((label : List ℕ) → label_get label d.counts ≡ tally label calls (label_get label c.counts))
label_get-tally to_string n [] c h l = (c, refl, λ label. refl)
label_get-tally to_string n (x ∷ calls) c h l =
    let t = after_call-Tallied to_string x c (λ k. omega (arith, h k)) in
    let most : AtMost (n + 1) t.after = λ k.
      subst (λ o. count_or_zero o ≤ n + 1) (sym (t.tallies k))
        (tallied_most n x k (label_get k c.counts) (h k)) in
    let (d, e, u) = label_get-tally to_string (n + 1) calls t.after most (omega arith) in
    (
      d,
      ap (after_calls to_string calls) t.gives ∙ e,
      λ label. u label ∙ ap (tally label calls) (t.tallies label),
    )
