-- ===== src/Buffer/Wide/Load.antt =====
-- The loops over a window `pre ++ (bs ++ post)` with `length pre` the offset.
use zane.Base.{
  ℕ, zero, suc, ◌+◌, ◌^◌, ◌<◌, ◌≡◌, refl, sym, ap, ◌∙◌, List, [], ◌∷◌, ◌++◌, length, length-append,
  arith,
}
use zane.Base.Int.{ℤ, to_unsigned}
use zane.Buffer.{ok}
use zane.Buffer.Window.{at-window, put-window, split_last}
use zane.Buffer.Wide.{load_up, load_down, store_down, store_up, asr}
use zane.Buffer.Wide.Digits.{be_bytes, le_bytes, up_value, down_value, down_value-last}
use mathlib.Core.List.{append_assoc}

-- `s` is the part of the window in front of the loop's index.
pub load_up-window :
    (pre s bs post : List ℕ) (i val : ℕ)
    → length s ≡ i
    → length pre + (i + length bs) < 2 ^ 64
    → load_up (length bs) (pre ++ (s ++ (bs ++ post))) (length pre) i val ≡ ok (up_value val bs)
unfolding load_up up_value
load_up-window pre s [] post i val e h = refl
load_up-window pre s (b ∷ bs) post i val e h =
    rw
      (
        at-window pre s b (bs ++ post) (length pre) i refl e (omega arith),
        ← append_assoc s (b ∷ []) (bs ++ post),
      )
      (load_up-window pre (s ++ (b ∷ [])) bs post (i + 1) _
        (omega (arith, length-append s (b ∷ []))) (omega arith))

pub store_up-window :
    (pre s bs post : List ℕ) (i : ℕ) (v : ℤ)
    → length s ≡ i
    → length pre + (i + length bs) < 2 ^ 64
    → store_up (length bs) (pre ++ (s ++ (bs ++ post))) (length pre) i v
      ≡ ok (pre ++ (s ++ (le_bytes (length bs) v ++ post)))
unfolding store_up le_bytes
store_up-window pre s [] post i v e h = refl
store_up-window pre s (b ∷ bs) post i v e h =
    let low = to_unsigned 8 v in
    rw
      (
        put-window pre s b (bs ++ post) (length pre) i refl e (omega arith) low,
        ← append_assoc s (low ∷ []) (bs ++ post),
        ← append_assoc s (low ∷ []) (le_bytes (length bs) (asr v 8) ++ post),
      )
      (store_up-window pre (s ++ (low ∷ [])) bs post (i + 1) (asr v 8)
        (omega (arith, length-append s (low ∷ []))) (omega arith))

pub load_down-window :
    (k : ℕ) (pre bs post : List ℕ) (val : ℕ)
    → length bs ≡ k
    → length pre + k < 2 ^ 64
    → load_down k (pre ++ (bs ++ post)) (length pre) val ≡ ok (down_value bs val)
unfolding load_down
load_down-window zero pre [] post val e h = unfold down_value in refl
load_down-window zero pre (b ∷ bs) post val e h = absurd (omega arith)
load_down-window (suc k) pre bs post val e h =
    let (front, b, p, l) = split_last bs k e in
    rw
      (
        p,
        append_assoc front (b ∷ []) post,
        at-window pre front b post (length pre) k refl l (omega arith),
        down_value-last front b val,
      )
      (load_down-window k pre front (b ∷ post) _ l (omega arith))

pub store_down-window :
    (k : ℕ) (pre bs post : List ℕ) (v : ℤ)
    → length bs ≡ k
    → length pre + k < 2 ^ 64
    → store_down k (pre ++ (bs ++ post)) (length pre) v ≡ ok (pre ++ (be_bytes k v ++ post))
unfolding store_down
store_down-window zero pre [] post v e h = unfold be_bytes in refl
store_down-window zero pre (b ∷ bs) post v e h = absurd (omega arith)
store_down-window (suc k) pre bs post v e h =
    let (front, b, p, l) = split_last bs k e in
    let low = to_unsigned 8 v in
    rw
      (
        p,
        append_assoc front (b ∷ []) post,
        put-window pre front b post (length pre) k refl l (omega arith) low,
      )
      (store_down-window k pre front (low ∷ post) (asr v 8) l (omega arith)
        ∙ ap (λ (t : List ℕ). ok (pre ++ t))
            (sym (append_assoc (be_bytes k (asr v 8)) (low ∷ []) post) ∙ unfold be_bytes in refl))
