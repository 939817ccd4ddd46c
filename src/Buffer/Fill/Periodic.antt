-- ===== src/Buffer/Fill/Periodic.antt =====
-- What a repeated source leaves in the window.
use zane.Base.{
  ℕ, zero, suc, ◌+◌, ◌-◌, ◌*◌, ◌≤◌, ◌<◌, ◌≡◌, refl, sym, ap, ◌∙◌, min, List, [], ◌∷◌, ◌++◌, length,
  get_elem?, take, length-append, length-take, arith, ◌==◌, if◌then◌else◌, subst, replicate, drop,
  ltb, ne→==_false,
}
use zane.Buffer.{Value, str, bytes}
use zane.Buffer.Convert.{splice}
use zane.Buffer.Fill.{copy_rounds, repeated, fill, fill_offset, fill_len, filled}
use zane.Buffer.Fixed.RoundTrip.{SameOutside}
use zane.Buffer.Convert.Write.{splice-SameOutside, splice_window}

get_elem?-front : (xs ys : List ℕ) (i : ℕ) → i < length xs → get_elem? (xs ++ ys) i ≡ get_elem? xs i
get_elem?-front [] ys i h = absurd (omega arith)
get_elem?-front (x ∷ xs) ys zero h = refl
get_elem?-front (x ∷ xs) ys (suc i) h = get_elem?-front xs ys i (omega arith)

get_elem?-behind :
    (xs ys : List ℕ) (n i : ℕ) → n ≡ length xs + i → get_elem? (xs ++ ys) n ≡ get_elem? ys i
get_elem?-behind [] ys n i h = ap (get_elem? ys) (omega arith)
get_elem?-behind (x ∷ xs) ys zero i h = absurd (omega arith)
get_elem?-behind (x ∷ xs) ys (suc n) i h = get_elem?-behind xs ys n i (omega arith)

get_elem?-take : (n : ℕ) (xs : List ℕ) (i : ℕ) → i < n → get_elem? (take n xs) i ≡ get_elem? xs i
get_elem?-take zero xs i h = absurd (omega arith)
get_elem?-take (suc n) [] i h = refl
get_elem?-take (suc n) (x ∷ xs) zero h = refl
get_elem?-take (suc n) (x ∷ xs) (suc i) h = get_elem?-take n xs i (omega arith)

pub copy_rounds-step :
    (k : ℕ) (src : List ℕ) (n : ℕ)
    → 1 ≤ n
    → copy_rounds (suc k) src n
      ≡ take (min (length src) n) src ++ copy_rounds k src (n - min (length src) n)
unfolding copy_rounds
copy_rounds-step k src n h = rw (ne→==_false n 0 (λ e. omega arith)) refl

pub length-copy_rounds :
    (k : ℕ) (src : List ℕ) (n : ℕ) → 1 ≤ length src → n ≤ k → length (copy_rounds k src n) ≡ n
length-copy_rounds zero src n h e = unfold copy_rounds in omega arith
length-copy_rounds (suc k) src zero h e = unfold copy_rounds in refl
length-copy_rounds (suc k) src (suc n) h e =
    let m = min (length src) (suc n) in
    rw (copy_rounds-step k src (suc n) (omega arith)) (
      omega (
        arith,
        length-append (take m src) (copy_rounds k src (suc n - m)),
        length-take m src,
        length-copy_rounds k src (suc n - m) h (omega arith),
      ))

-- Byte i of a repeated source is byte i of the source, modulo its length.
copy_rounds-periodic :
    (k : ℕ) (src : List ℕ) (n : ℕ)
    → n ≤ k
    → (q r : ℕ) → r < length src
    → r + q * length src < n
    → get_elem? (copy_rounds k src n) (r + q * length src) ≡ get_elem? src r
copy_rounds-periodic zero src n e q r h i = absurd (omega arith)
copy_rounds-periodic (suc k) src n e zero r h i =
    let m = min (length src) n in
    let at_start : r + 0 * length src ≡ r = omega arith in
    rw (at_start, copy_rounds-step k src n (omega arith))
      (get_elem?-front (take m src) _ r (omega (arith, length-take m src))
        ∙ get_elem?-take m src r (omega arith))
copy_rounds-periodic (suc k) src n e (suc q) r h i =
    let m = min (length src) n in
    let wide : r + q * length src + length src < n = ground arith in
    let all : m ≡ length src = omega arith in
    rw (copy_rounds-step k src n (omega arith)) (
      get_elem?-behind (take m src) _ _ (r + q * length src) (grind (arith, length-take m src))
      ∙ copy_rounds-periodic k src (n - m) (omega arith) q r h (omega arith))

length-repeated : (src : List ℕ) (n : ℕ) → 1 ≤ length src → length (repeated src n) ≡ n
length-repeated [] n h = absurd (omega arith)
length-repeated (x ∷ src) n h =
    unfold repeated in length-copy_rounds n (x ∷ src) n (omega arith) (omega arith)

repeated-periodic :
    (src : List ℕ) (n q r : ℕ)
    → r < length src
    → r + q * length src < n
    → get_elem? (repeated src n) (r + q * length src) ≡ get_elem? src r
repeated-periodic [] n q r h i = absurd (omega arith)
repeated-periodic (x ∷ src) n q r h i =
    unfold repeated in copy_rounds-periodic n (x ∷ src) n (omega arith) q r h i

clamped :
    (len o e : ℕ)
    → let off = if ltb len o then len else o in
      let end' = if ltb len e then len else e in
      off + ((if ltb end' off then off else end') - off) ≤ len
clamped len o e = ground arith

-- The window of `fill` lies in the view.
pub window_fits :
    (data' : List ℕ) (args : List Value)
    → fill_offset data' args + fill_len data' args ≤ length data'
window_fits data' args = clamped (length data') _ _

-- n bytes from `off` on are filled: only they have changed, and byte r + q * length src of them is byte
-- r of the source.
abbrev pub FilledAt : List ℕ → ℕ → ℕ → List ℕ → List ℕ → Type 0
FilledAt data' off n src d =
    (off + n ≤ length data')
    × SameOutside n data' off d
    × ((q r : ℕ)
        → r < length src
        → r + q * length src < n
        → get_elem? (take n (drop off d)) (r + q * length src) ≡ get_elem? src r)

abbrev pub Filled : List ℕ → List Value → List ℕ → List ℕ → Type 0
Filled data' args src = FilledAt data' (fill_offset data' args) (fill_len data' args) src

pub splice-FilledAt :
    (data' src : List ℕ) (off n : ℕ)
    → 1 ≤ length src
    → off + n ≤ length data'
    → FilledAt data' off n src (splice data' off (repeated src n))
splice-FilledAt data' src off n h room =
    let whole = length-repeated src n h in
    let fits : off + length (repeated src n) ≤ length data' = rw whole room in
    (
      room,
      subst (λ m. SameOutside m data' off (splice data' off (repeated src n))) whole
          (splice-SameOutside data' (repeated src n) off fits),
      λ q r i j.
          rw
            (subst (λ m. take m (drop off (splice data' off (repeated src n))) ≡ repeated src n)
              whole (splice_window data' (repeated src n) off fits))
            (repeated-periodic src n q r i j),
    )

splice-Filled :
    (data' : List ℕ) (args : List Value) (src : List ℕ)
    → 1 ≤ length src
    → Filled data' args src
        (splice data' (fill_offset data' args) (repeated src (fill_len data' args)))
splice-Filled data' args src h =
    splice-FilledAt data' src (fill_offset data' args) (fill_len data' args) h
      (window_fits data' args)

with_size :
    (data' : List ℕ) (off n : ℕ) (src : List ℕ)
    → (if n == 0 then splice data' off (replicate n 0) else splice data' off (repeated src n))
      ≡ splice data' off (repeated src n)
with_size data' off zero [] = unfold repeated in refl
with_size data' off zero (x ∷ src) = unfold repeated copy_rounds in refl
with_size data' off (suc n) src = rw (ne→==_false (suc n) 0 (λ e. omega arith)) refl

-- The branch for an empty window does what the others would do.
no_room :
    (data' : List ℕ) (args : List Value) (src : List ℕ)
    → let off = fill_offset data' args in
      let n = fill_len data' args in
      (if n == 0 then splice data' off (replicate n 0) else splice data' off (repeated src n))
      ≡ splice data' off (repeated src n)
no_room data' args src = with_size data' (fill_offset data' args) (fill_len data' args) src

-- Filling a view with a text, or with a Uint8Array of another memory, that is not empty, in any window
-- that the arguments give, changes only the bytes of the window, which lies in the view; the window then repeats the
-- source from its start, the last time cut off.
pub fill-Filled :
    (data' src : List ℕ) (rest : List Value)
    → 1 ≤ length src
    → Filled data' (str src ∷ rest) src (fill data' (str src ∷ rest))
      × Filled data' (bytes src ∷ rest) src (fill data' (bytes src ∷ rest))
unfolding fill filled
fill-Filled data' src rest h = (
  subst (Filled data' (str src ∷ rest) src) (sym (no_room data' (str src ∷ rest) src))
      (splice-Filled data' (str src ∷ rest) src h),
  subst (Filled data' (bytes src ∷ rest) src) (sym (no_room data' (bytes src ∷ rest) src))
      (splice-Filled data' (bytes src ∷ rest) src h),
)
