-- ===== src/Buffer/Base64/Lengths.antt =====
-- The shape of an encoded text: its length, its characters and its padding.
use zane.Base.{ℕ, ◌+◌, ◌-◌, ◌*◌, ◌/◌, ◌≤◌, ◌<◌, min, ◌≡◌, refl, List, [], ◌∷◌, length, All, arith}
use zane.Base.Bits.{agree, agree-eq}
use zane.Buffer.{IsByte}
use zane.Buffer.Base64.{sextet0, sextet1, sextet2, sextet3, char64, bytes_to_base64}
use zane.Buffer.Base64.Sextets.{sextets}

-- A character of the alphabet is neither NUL nor the padding.
char64_nonzero : {i : ℕ} → i < 64 → min 1 (char64 i) ≡ 1
unfolding agree
char64_nonzero = agree-eq (λ i. min 1 (char64 i)) (λ i. 1) 64 refl

char64_no_pad : {i : ℕ} → i < 64 → min 1 ((char64 i - b'=') + (b'=' - char64 i)) ≡ 1
unfolding agree
char64_no_pad = agree-eq (λ i. min 1 ((char64 i - b'=') + (b'=' - char64 i))) (λ i. 1) 64 refl

alphabet : (i : ℕ) → i < 64 → (1 ≤ char64 i) × (1 ≤ (char64 i - b'=') + (b'=' - char64 i))
alphabet i h = omega (arith, char64_nonzero h, char64_no_pad h)

-- The four characters of a full group.
pub group_alphabet :
    (a b c : ℕ)
    → IsByte a
    → IsByte b
    → IsByte c
    → (1 ≤ char64 (sextet0 a))
      × (1 ≤ char64 (sextet1 a b))
      × (1 ≤ char64 (sextet2 b c))
      × (1 ≤ char64 (sextet3 c))
      × (1 ≤ (char64 (sextet1 a b) - b'=') + (b'=' - char64 (sextet1 a b)))
      × (1 ≤ (char64 (sextet2 b c) - b'=') + (b'=' - char64 (sextet2 b c)))
      × (1 ≤ (char64 (sextet3 c) - b'=') + (b'=' - char64 (sextet3 c)))
group_alphabet a b c ha hb hc =
    let s = sextets a b c ha hb hc in
    let w = alphabet (sextet0 a) (omega (arith, s.0)) in
    let x = alphabet (sextet1 a b) (omega (arith, s.1)) in
    let y = alphabet (sextet2 b c) (omega (arith, s.2)) in
    let z = alphabet (sextet3 c) (omega (arith, s.3)) in (w.0, x.0, y.0, z.0, x.1, y.1, z.1)

-- No character of an encoded text is NUL.
pub bytes_to_base64_nonzero : (bs : List ℕ) → All IsByte bs → All (λ c. 1 ≤ c) (bytes_to_base64 bs)
unfolding bytes_to_base64
bytes_to_base64_nonzero [] h = tt
bytes_to_base64_nonzero (a ∷ []) (ha, h) =
    let g = group_alphabet a 0 0 ha (omega arith) (omega arith) in
    (g.0, (g.1, (omega arith, (omega arith, tt))))
bytes_to_base64_nonzero (a ∷ b ∷ []) (ha, (hb, h)) =
    let g = group_alphabet a b 0 ha hb (omega arith) in (g.0, (g.1, (g.2, (omega arith, tt))))
bytes_to_base64_nonzero (a ∷ b ∷ c ∷ bs) (ha, (hb, (hc, h))) =
    let g = group_alphabet a b c ha hb hc in
    (g.0, (g.1, (g.2, (g.3, bytes_to_base64_nonzero bs h))))

-- Four characters for each three bytes begun.
pub length-bytes_to_base64 : (bs : List ℕ) → length (bytes_to_base64 bs) ≡ (length bs + 2) / 3 * 4
unfolding bytes_to_base64
length-bytes_to_base64 [] = omega arith
length-bytes_to_base64 (a ∷ []) = omega arith
length-bytes_to_base64 (a ∷ b ∷ []) = omega arith
length-bytes_to_base64 (a ∷ b ∷ c ∷ bs) = omega (arith, length-bytes_to_base64 bs)
