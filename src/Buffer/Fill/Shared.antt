-- ===== src/Buffer/Fill/Shared.antt =====
-- src/module/node/buffer/buffer.cpp: fill with a part of the same memory.
use zane.Base.{
  Bool-cases, ltb, lt→ltb, ℕ, zero, suc, ◌+◌, ◌-◌, ◌≤◌, ◌<◌, ◌≡◌, refl, sym, ap, ◌∙◌, min, false,
  List, [], ◌∷◌, ◌++◌, length, take, drop, length-take, length-append, length-drop, append_assoc,
  ◌⊎◌, inl, inr, ne→==_false, arith,
}
use zane.Buffer.{Value, object, ok, undef}
use zane.Buffer.Window.{take-append}
use zane.Buffer.Convert.{splice}
use zane.Buffer.Convert.Write.{splice-SameOutside}
use zane.Buffer.Fill.{
  copy_rounds, repeated, overlap, shared_rounds, fill_shared, fill_offset, fill_len,
}
use zane.Buffer.Fill.Periodic.{FilledAt, splice-FilledAt, window_fits, copy_rounds-step}

take_segment :
    (q len t : ℕ) (xs : List ℕ) → q + len ≤ t → take len (drop q (take t xs)) ≡ take len (drop q xs)
take_segment zero zero t xs h = refl
take_segment zero (suc len) zero xs h = absurd (omega arith)
take_segment zero (suc len) (suc t) [] h = refl
take_segment zero (suc len) (suc t) (x ∷ xs) h =
    ap (λ l. x ∷ l) (take_segment zero len t xs (omega arith))
take_segment (suc q) len zero xs h = absurd (omega arith)
take_segment (suc q) len (suc t) [] h = refl
take_segment (suc q) len (suc t) (x ∷ xs) h = take_segment q len t xs (omega arith)

drop_nil : (n : ℕ) → drop {A = ℕ} n [] ≡ []
drop_nil zero = refl
drop_nil (suc n) = refl

drop-drop : (a b : ℕ) (xs : List ℕ) → drop a (drop b xs) ≡ drop (b + a) xs
drop-drop a zero xs = ap (λ n. drop n xs) (omega arith)
drop-drop a (suc b) [] = drop_nil a ∙ sym (drop_nil (suc b + a))
drop-drop a (suc b) (x ∷ xs) =
    let next : suc (b + a) ≡ suc b + a = omega arith in
    drop-drop a b xs ∙ ap (λ n. drop n (x ∷ xs)) next

take-drop : (t : ℕ) (xs : List ℕ) → take t xs ++ drop t xs ≡ xs
take-drop zero xs = refl
take-drop (suc t) [] = refl
take-drop (suc t) (x ∷ xs) = ap (λ l. x ∷ l) (take-drop t xs)

splice_nil : (memory : List ℕ) (t : ℕ) → memory ≡ splice memory t []
splice_nil memory t =
    let same_t : t ≡ t + 0 = omega arith in
    sym (take-drop t memory) ∙ ap (λ n. take t memory ++ drop n memory) same_t

module _ (memory x : List ℕ) (t : ℕ) (fits : t + length x ≤ length memory) where
  -- What lies outside of the bytes that are written stays as it is.
  segment_kept :
      (q len : ℕ)
      → (q + len ≤ t) ⊎ (t + length x ≤ q)
      → take len (drop q (splice memory t x)) ≡ take len (drop q memory)
  segment_kept q len (inl before) =
      let (_, same, _) = splice-SameOutside memory x t fits in
      sym (take_segment q len t (splice memory t x) before)
      ∙ ap (λ l. take len (drop q l)) same
      ∙ take_segment q len t memory before
  segment_kept q len (inr behind) =
      let (_, _, same) = splice-SameOutside memory x t fits in
      let at : t + length x + (q - (t + length x)) ≡ q = omega arith in
      let shift : (l : List ℕ) → drop q l ≡ drop (q - (t + length x)) (drop (t + length x) l) =
        λ l. sym (drop-drop (q - (t + length x)) (t + length x) l ∙ ap (λ n. drop n l) at) in
      ap (take len)
        (shift (splice memory t x) ∙ ap (drop (q - (t + length x))) same ∙ sym (shift memory))

  -- Two writes, the second behind the first.
  splice-splice :
      (y : List ℕ) → splice (splice memory t x) (t + length x) y ≡ splice memory t (x ++ y)
  splice-splice y =
      let (_, _, same) = splice-SameOutside memory x t fits in
      let front : length (take t memory ++ x) ≡ t + length x =
        omega (arith, length-append (take t memory) x, length-take t memory) in
      let starts : take (t + length x) (splice memory t x) ≡ take t memory ++ x =
        ap (λ n. take n (splice memory t x)) (sym front)
        ∙ ap (take (length (take t memory ++ x)))
            (sym (append_assoc (take t memory) x (drop (t + length x) memory)))
        ∙ take-append (take t memory ++ x) (drop (t + length x) memory) in
      let ends : drop (t + length x + length y) (splice memory t x)
          ≡ drop (t + length (x ++ y)) memory =
        sym (drop-drop (length y) (t + length x) (splice memory t x))
        ∙ ap (drop (length y)) same
        ∙ drop-drop (length y) (t + length x) memory
        ∙ ap (λ n. drop n memory) (omega (arith, length-append x y)) in
      ap (λ l. l ++ (y ++ drop (t + length x + length y) (splice memory t x))) starts
      ∙ ap (λ l. (take t memory ++ x) ++ (y ++ l)) ends
      ∙ append_assoc (take t memory) x (y ++ drop (t + length (x ++ y)) memory)
      ∙ ap (λ l. take t memory ++ l) (sym (append_assoc x y (drop (t + length (x ++ y)) memory)))

IsApart : ℕ → ℕ → ℕ → ℕ → Type 0
IsApart q len t n = (q + len ≤ t) ⊎ (t + n ≤ q)

IsApart-overlap :
    (q len t n m : ℕ) → m ≤ len → m ≤ n → 1 ≤ m → IsApart q len t n → overlap t q m ≡ false
unfolding IsApart
IsApart-overlap q len t n m h k l (inl before) = ground arith
IsApart-overlap q len t n m h k l (inr behind) = ground arith

IsApart-first : (q len t n x : ℕ) → x ≤ n → IsApart q len t n → (q + len ≤ t) ⊎ (t + x ≤ q)
unfolding IsApart
IsApart-first q len t n x h (inl before) = inl before
IsApart-first q len t n x h (inr behind) = inr (omega arith)

IsApart-rest : (q len t n m : ℕ) → m ≤ n → IsApart q len t n → IsApart q len (t + m) (n - m)
unfolding IsApart
IsApart-rest q len t n m h (inl before) = inl (omega arith)
IsApart-rest q len t n m h (inr behind) = inr (omega arith)

shared_rounds-step :
    (k : ℕ) (memory : List ℕ) (t q len n : ℕ)
    → 1 ≤ n
    → overlap t q (min len n) ≡ false
    → shared_rounds (suc k) memory t q len n
      ≡ shared_rounds k
          (splice memory t (take (min len n) (drop q memory)))
          (t + min len n)
          q
          len
          (n - min len n)
unfolding shared_rounds
shared_rounds-step k memory t q len n h o = rw (ne→==_false n 0 (λ e. omega arith), o) refl

shared_rounds-apart :
    (k : ℕ) (memory src : List ℕ) (t q n : ℕ)
    → 1 ≤ length src
    → n ≤ k
    → t + n ≤ length memory
    → take (length src) (drop q memory) ≡ src
    → IsApart q (length src) t n
    → shared_rounds k memory t q (length src) n ≡ ok (splice memory t (copy_rounds k src n))
shared_rounds-apart zero memory src t q n h k room e p =
    unfold shared_rounds copy_rounds in ap ok (splice_nil memory t)
shared_rounds-apart (suc k) memory src t q zero h l room e p =
    unfold shared_rounds copy_rounds in ap ok (splice_nil memory t)
shared_rounds-apart (suc k) memory src t q (suc n) h l room e p =
    let len = length src in
    let m = min len (suc n) in
    let x = take m (drop q memory) in
    let read : x ≡ take m src =
      sym (take_segment 0 m len (drop q memory) (omega arith)) ∙ ap (take m) e in
    let size : length x ≡ m = ap length read ∙ omega (arith, length-take m src) in
    let fits : t + length x ≤ length memory = omega (arith, size) in
    let memory' = splice memory t x in
    let (kept_size, _, _) = splice-SameOutside memory x t fits in
    let y = copy_rounds k src (suc n - m) in
    shared_rounds-step k memory t q len (suc n) (omega arith)
      (IsApart-overlap q len t (suc n) m (omega arith) (omega arith) (omega arith) p)
    ∙ shared_rounds-apart k memory' src (t + m) q (suc n - m) h (omega arith)
        (omega (arith, kept_size))
        (segment_kept memory x t fits q len
            (IsApart-first q len t (suc n) (length x) (omega (arith, size)) p)
          ∙ e)
        (IsApart-rest q len t (suc n) m (omega arith) p)
    ∙ ap (λ i. ok (splice memory' (t + i) y)) (sym size)
    ∙ ap ok (splice-splice memory x t fits y)
    ∙ ap (λ z. ok (splice memory t (z ++ y))) read
    ∙ ap (λ z. ok (splice memory t z)) (sym (copy_rounds-step k src (suc n) (omega arith)))

abbrev pub shared_target : List ℕ → ℕ → ℕ → List Value → ℕ
shared_target memory start size rest =
    start + fill_offset (take size (drop start memory)) (object ∷ rest)

abbrev pub shared_len : List ℕ → ℕ → ℕ → List Value → ℕ
shared_len memory start size rest = fill_len (take size (drop start memory)) (object ∷ rest)

filled_source :
    (memory : List ℕ) (start size from len : ℕ) (rest : List Value)
    → 1 ≤ len
    → fill_shared memory start size from len rest
      ≡ shared_rounds
          (shared_len memory start size rest)
          memory
          (shared_target memory start size rest)
          from
          len
          (shared_len memory start size rest)
unfolding fill_shared
filled_source memory start size from len rest h = rw (ne→==_false len 0 (λ e. omega arith)) refl

-- Filling a view with a Uint8Array that is not empty and lies in the same memory, but apart from the
-- window: only the bytes of the window change in the memory, and the window repeats the source from
-- its start, the last time cut off.
pub fill_shared-FilledAt :
    (memory src : List ℕ) (start size from : ℕ) (rest : List Value)
    → 1 ≤ length src
    → start + size ≤ length memory
    → take (length src) (drop from memory) ≡ src
    → (from + length src ≤ shared_target memory start size rest)
      ⊎ (shared_target memory start size rest + shared_len memory start size rest ≤ from)
    → (d : List ℕ) × (fill_shared memory start size from (length src) rest ≡ ok d)
      × FilledAt memory
          (shared_target memory start size rest)
          (shared_len memory start size rest)
          src
          d
unfolding IsApart
fill_shared-FilledAt memory [] start size from rest h room e p = absurd (omega arith)
fill_shared-FilledAt memory (x ∷ src) start size from rest h room e p =
    let self = take size (drop start memory) in
    let t = shared_target memory start size rest in
    let n = shared_len memory start size rest in
    let whole : length self ≡ size =
      omega (arith, length-take size (drop start memory), length-drop start memory) in
    let fits : t + n ≤ length memory = omega (arith, whole, window_fits self (object ∷ rest)) in
    (
      splice memory t (repeated (x ∷ src) n),
      filled_source memory start size from (length (x ∷ src)) rest (omega arith)
          ∙ shared_rounds-apart n memory (x ∷ src) t from n h (omega arith) fits e p
          ∙ (unfold repeated in refl),
      splice-FilledAt memory (x ∷ src) t n h fits,
    )

shared_rounds-overlap :
    (k : ℕ) (memory : List ℕ) (t q len n : ℕ)
    → 1 ≤ len
    → n ≤ k
    → t < q + min len n
    → q < t + n
    → shared_rounds k memory t q len n ≡ undef
shared_rounds-overlap zero memory t q len n h l a b = absurd (omega arith)
shared_rounds-overlap (suc k) memory t q len n h l a b = elim (Bool-cases (ltb q (t + min len n))) [
  | inl y ↦
      unfold shared_rounds in
      rw (ne→==_false n 0 (λ e. omega arith), lt→ltb t (q + min len n) a, y) refl
  | inr y ↦
      let past : t + min len n ≤ q = ground arith in
      let apart : overlap t q (min len n) ≡ false = rw (lt→ltb t (q + min len n) a, y) refl in
      shared_rounds-step k memory t q len n (omega arith) apart
      ∙ shared_rounds-overlap k (splice memory t (take (min len n) (drop q memory))) (t + min len n)
          q len (n - min len n) h (omega arith) (omega arith) (omega arith)
]

-- Where the bytes that are read of such a source and the window have a byte in common, the behaviour
-- is undefined.
pub fill_shared-overlap :
    (memory : List ℕ) (start size from len : ℕ) (rest : List Value)
    → 1 ≤ len
    → shared_target memory start size rest < from + min len (shared_len memory start size rest)
    → from < shared_target memory start size rest + shared_len memory start size rest
    → fill_shared memory start size from len rest ≡ undef
fill_shared-overlap memory start size from len rest h a b =
    filled_source memory start size from len rest h
    ∙ shared_rounds-overlap (shared_len memory start size rest) memory
        (shared_target memory start size rest) from len (shared_len memory start size rest) h
        (omega arith) a b
