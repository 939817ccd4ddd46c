-- ===== src/Buffer/Copy/Concat.antt =====
-- concat against the plain concatenation of the views.
use zane.Base.{
  ℕ, zero, suc, ◌+◌, ◌-◌, ◌%◌, ◌^◌, ◌<◌, ◌≡◌, refl, sym, ap, ◌∙◌, min, List, [], ◌∷◌, ◌++◌, length,
  take, replicate, length-append, length-take, ltb, arith, if◌then◌else◌, true, false, Bool,
}
use zane.Base.Int.{pos}
use zane.Buffer.{Item, number, view, thing, num, array, ok}
use zane.Buffer.Copy.{concat_loop, concat_items, concat, total_length}

-- All the bytes of the Uint8Arrays of a list.
abbrev pub all_bytes : List Item → List ℕ
all_bytes [] = []
all_bytes (view bs ∷ items) = bs ++ all_bytes items
all_bytes (number n ∷ items) = all_bytes items
all_bytes (thing ∷ items) = all_bytes items

length-all_bytes : (items : List Item) → length (all_bytes items) ≡ total_length items
length-all_bytes [] = refl
length-all_bytes (view bs ∷ items) =
    length-append bs (all_bytes items) ∙ ap (λ n. length bs + n) (length-all_bytes items)
length-all_bytes (number n ∷ items) = length-all_bytes items
length-all_bytes (thing ∷ items) = length-all_bytes items

the_same : (n r : ℕ) → r ≡ suc n → suc n ≡ r
the_same n r h = sym h

take-append_parts :
    (n : ℕ) (xs ys : List ℕ) (m r : ℕ)
    → m ≡ min (length xs) n
    → r ≡ n - m
    → take n (xs ++ ys) ≡ take m xs ++ take r ys
take-append_parts zero xs ys zero zero h k = refl
take-append_parts zero xs ys zero (suc r) h k = absurd (omega arith)
take-append_parts zero xs ys (suc m) r h k = absurd (omega arith)
take-append_parts (suc n) [] ys zero r h k = ap (λ i. take i ys) (the_same n r (k ∙ omega arith))
take-append_parts (suc n) [] ys (suc m) r h k = absurd (omega arith)
take-append_parts (suc n) (x ∷ xs) ys zero r h k = absurd (omega arith)
take-append_parts (suc n) (x ∷ xs) ys (suc m) r h k =
    ap (◌∷◌ x) (take-append_parts n xs ys m r (omega arith) (omega arith))

none_left : (xs : List ℕ) (n : ℕ) → n ≡ 0 → [] ≡ take n xs
none_left xs zero h = refl
none_left xs (suc n) h = absurd (omega arith)

skip :
    (b : Bool) (offset total : ℕ) (xs rest : List ℕ)
    → ltb offset total ≡ b
    → rest ≡ take (total - offset) xs
    → (if b then rest else []) ≡ take (total - offset) xs
skip true offset total xs rest h e = e
skip false offset total xs rest h e = none_left xs (total - offset) (ground arith)

-- From `offset` on, the loop writes what is left of the total.
concat_loop-take :
    (items : List Item) (offset total : ℕ)
    → concat_loop items offset total ≡ take (total - offset) (all_bytes items)
unfolding concat_loop
concat_loop-take [] offset total = take_nil (total - offset)
  where
    take_nil : (n : ℕ) → [] ≡ take {A = ℕ} n []
    take_nil zero = refl
    take_nil (suc n) = refl
concat_loop-take (view bs ∷ items) offset total =
    let m = min (length bs) (total - offset) in
    skip _ offset total (bs ++ all_bytes items) _ refl (
      ap (◌++◌ (take m bs)) (concat_loop-take items (offset + m) total)
      ∙ sym (
          take-append_parts (total - offset) bs (all_bytes items) m (total - (offset + m)) refl
            (omega arith)))
concat_loop-take (number n ∷ items) offset total =
    skip _ offset total (all_bytes items) _ refl (concat_loop-take items offset total)
concat_loop-take (thing ∷ items) offset total =
    skip _ offset total (all_bytes items) _ refl (concat_loop-take items offset total)

take_all : (xs : List ℕ) (n : ℕ) → n ≡ length xs → take n xs ≡ xs
take_all [] zero h = refl
take_all [] (suc n) h = absurd (omega arith)
take_all (x ∷ xs) zero h = absurd (omega arith)
take_all (x ∷ xs) (suc n) h = ap (◌∷◌ x) (take_all xs n (omega arith))

append_nil : (xs : List ℕ) (n : ℕ) → n ≡ 0 → xs ++ replicate n 0 ≡ xs
append_nil [] zero h = refl
append_nil (x ∷ xs) zero h = ap (◌∷◌ x) (append_nil xs zero h)
append_nil xs (suc n) h = absurd (omega arith)

items-take :
    (items : List Item) (total : ℕ)
    → concat_items items total
      ≡ take total (all_bytes items) ++ replicate (total - length (all_bytes items)) 0
items-take items total =
    let all = all_bytes items in
    let whole : total - 0 ≡ total = omega arith in
    let zeros : total - length (take total all) ≡ total - length all =
      omega (arith, length-take total all) in
    rw (concat_loop-take items 0 total, whole, zeros) refl

-- Without a total, concat gives the bytes of all the Uint8Arrays of the list, one after the other;
-- with a total below 2 ^ 64, it gives that many of them, and zeros behind them where they are fewer.
pub concat-all_bytes :
    (items : List Item) (total : ℕ)
    → total < 2 ^ 64
    → (concat (array items ∷ []) ≡ ok (all_bytes items))
      × (concat (array items ∷ num (pos total) ∷ [])
          ≡ ok (take total (all_bytes items) ++ replicate (total - length (all_bytes items)) 0))
unfolding concat
concat-all_bytes items total h =
    let all = all_bytes items in
    let sum = length-all_bytes items in
    let same : total % 2 ^ 64 ≡ total = omega arith in
    (
      ap ok (
          items-take items (total_length items)
          ∙ append_nil _ _ (omega (arith, sum))
          ∙ take_all all (total_length items) (sym sum)),
      rw same (ap ok (items-take items total)),
    )
