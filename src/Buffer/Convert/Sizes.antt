-- ===== src/Buffer/Convert/Sizes.antt =====
-- `byteLength` against the number of bytes that decoding gives.
use zane.Base.{
  ℕ, suc, ◌+◌, ◌-◌, ◌*◌, ◌/◌, ◌%◌, ◌≤◌, ◌≡◌, refl, ◌∙◌, List, [], ◌∷◌, length, All, arith, ltb,
  if◌then◌else◌, ◌&&◌,
}
use zane.Base.Int.{pos, sub_ℕ}
use zane.Base.Text.{codes, same, until_nul}
use zane.Buffer.{str, IsByte}
use zane.Buffer.Base64.{bytes_to_base64, char64, sextet0, sextet1, sextet2, sextet3}
use zane.Buffer.Base64.Lengths.{group_alphabet, length-bytes_to_base64}
use zane.Buffer.Convert.{base64_length, byte_length, is_pad}

-- The padding among the last two characters.
pads : List ℕ → ℕ
pads s =
    (if ltb 0 (length s) && is_pad s (length s - 1) then 1 else 0)
    + (if ltb 1 (length s) && is_pad s (length s - 2) then 1 else 0)

exact :
    (len pad n : ℕ)
    → len ≡ (n + 2) / 3 * 4
    → pad ≡ (3 - n % 3) % 3
    → sub_ℕ (len * 3 / 4) pad ≡ pos n
exact len pad n e f = ground arith

pads_two : (x y : ℕ) → 1 ≤ (y - b'=') + (b'=' - y) → pads (x ∷ y ∷ b'=' ∷ b'=' ∷ []) ≡ 2
unfolding pads
pads_two x y h = refl

pads_one : (x y z : ℕ) → 1 ≤ (z - b'=') + (b'=' - z) → pads (x ∷ y ∷ z ∷ b'=' ∷ []) ≡ 1
unfolding pads
pads_one x y z h = ground arith

-- Four characters in front change nothing, if the last two are no padding.
pads_four :
    (x y z t : ℕ) (s : List ℕ)
    → 1 ≤ (z - b'=') + (b'=' - z)
    → 1 ≤ (t - b'=') + (b'=' - t)
    → length s % 4 ≡ 0
    → pads (x ∷ y ∷ z ∷ t ∷ s) ≡ pads s
unfolding pads
pads_four x y z t [] hz ht m = ground arith
pads_four x y z t (u ∷ []) hz ht m = absurd (omega arith)
pads_four x y z t (u ∷ v ∷ s) hz ht m =
    let n = length s in
    let e : suc (suc (suc (suc (suc (suc n))))) - 1 ≡ suc (suc (suc (suc (suc n)))) = omega arith in
    let f : suc (suc (suc (suc (suc (suc n))))) - 2 ≡ suc (suc (suc (suc n))) = omega arith in
    let k : suc (suc n) - 1 ≡ suc n = omega arith in
    let l : suc (suc n) - 2 ≡ n = omega arith in rw (e, f, k, l) (ground arith)

pads-bytes_to_base64 :
    (bs : List ℕ) → All IsByte bs → pads (bytes_to_base64 bs) ≡ (3 - length bs % 3) % 3
unfolding bytes_to_base64
pads-bytes_to_base64 [] h = unfold pads in refl
pads-bytes_to_base64 (a ∷ []) (ha, h) =
    let g = group_alphabet a 0 0 ha (omega arith) (omega arith) in
    pads_two (char64 (sextet0 a)) (char64 (sextet1 a 0)) g.4
pads-bytes_to_base64 (a ∷ b ∷ []) (ha, (hb, h)) =
    let g = group_alphabet a b 0 ha hb (omega arith) in
    pads_one (char64 (sextet0 a)) (char64 (sextet1 a b)) (char64 (sextet2 b 0)) g.5
pads-bytes_to_base64 (a ∷ b ∷ c ∷ bs) (ha, (hb, (hc, h))) =
    let g = group_alphabet a b c ha hb hc in
    pads_four (char64 (sextet0 a)) (char64 (sextet1 a b)) (char64 (sextet2 b c))
      (char64 (sextet3 c)) (bytes_to_base64 bs) g.5 g.6 (omega (arith, length-bytes_to_base64 bs))
    ∙ omega (arith, pads-bytes_to_base64 bs h)

-- `byteLength` of the base64 text of some bytes is the number of the bytes, under both names of the
-- encoding.
pub byte_length-bytes_to_base64 :
    (bs : List ℕ)
    → All IsByte bs
    → (byte_length (str (bytes_to_base64 bs) ∷ str (codes "base64") ∷ []) ≡ pos (length bs))
      × (byte_length (str (bytes_to_base64 bs) ∷ str (codes "base64url") ∷ []) ≡ pos (length bs))
unfolding byte_length pads same until_nul
byte_length-bytes_to_base64 bs h = (size, size)
  where
    size : base64_length (bytes_to_base64 bs) ≡ pos (length bs)
    size =
        exact (length (bytes_to_base64 bs)) (pads (bytes_to_base64 bs)) (length bs)
          (length-bytes_to_base64 bs) (pads-bytes_to_base64 bs h)
