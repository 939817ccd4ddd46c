-- ===== src/Buffer/Wide/Digits.antt =====
-- The bytes of a number in both orders, and the number that they stand for.
use zane.Base.{
  ℕ, zero, suc, ◌+◌, ◌*◌, ◌^◌, ◌≤◌, ◌<◌, ◌≡◌, refl, sym, ap, ◌∙◌, List, [], ◌∷◌, ◌++◌, length,
  length-append, bit_or, arith,
}
use zane.Base.Bits.{shl, bit_or-shl}
use zane.Base.Int.{ℤ, pos, negsuc, to_unsigned}
use zane.Buffer.Wide.{shl64, asr}

unfoldable pub be_bytes : ℕ → ℤ → List ℕ
be_bytes zero v = []
be_bytes (suc k) v = be_bytes k (asr v 8) ++ (to_unsigned 8 v ∷ [])

unfoldable pub le_bytes : ℕ → ℤ → List ℕ
le_bytes zero v = []
le_bytes (suc k) v = to_unsigned 8 v ∷ le_bytes k (asr v 8)

pub length-be_bytes : (k : ℕ) (v : ℤ) → length (be_bytes k v) ≡ k
unfolding be_bytes
length-be_bytes zero v = refl
length-be_bytes (suc k) v = omega (
  arith,
  length-append (be_bytes k (asr v 8)) (to_unsigned 8 v ∷ []),
  length-be_bytes k (asr v 8),
)

pub length-le_bytes : (k : ℕ) (v : ℤ) → length (le_bytes k v) ≡ k
unfolding le_bytes
length-le_bytes zero v = refl
length-le_bytes (suc k) v = omega (arith, length-le_bytes k (asr v 8))

-- What the loops of the reads compute from the bytes of the window.
unfoldable pub up_value : ℕ → List ℕ → ℕ
up_value val [] = val
up_value val (b ∷ bs) = up_value (bit_or (shl64 val 8) b) bs

unfoldable pub down_value : List ℕ → ℕ → ℕ
down_value [] val = val
down_value (b ∷ bs) val = bit_or (shl64 (down_value bs val) 8) b

up_value-last :
    (val : ℕ) (bs : List ℕ) (b : ℕ)
    → up_value val (bs ++ (b ∷ [])) ≡ bit_or (shl64 (up_value val bs) 8) b
unfolding up_value
up_value-last val [] b = refl
up_value-last val (c ∷ bs) b = up_value-last (bit_or (shl64 val 8) c) bs b

pub down_value-last :
    (bs : List ℕ) (b val : ℕ)
    → down_value (bs ++ (b ∷ [])) val ≡ down_value bs (bit_or (shl64 val 8) b)
unfolding down_value
down_value-last [] b val = refl
down_value-last (c ∷ bs) b val = ap (λ (t : ℕ). bit_or (shl64 t 8) c) (down_value-last bs b val)

-- `(val << 8) | b` where the shift loses nothing.
push_byte : (val b : ℕ) → val < 2 ^ 56 → b < 256 → bit_or (shl64 val 8) b ≡ val * 256 + b
push_byte val b h k =
    ap (λ (t : ℕ). bit_or t b) (let e : shl64 val 8 ≡ shl val 8 = omega arith in e)
    ∙ bit_or-shl 8 val b k

low_byte : (v : ℤ) → to_unsigned 8 v < 256
low_byte (pos n) = omega arith
low_byte (negsuc n) = omega arith

-- The lowest byte and the others of a number of k + 1 bytes.
digits :
    (k : ℕ) (v : ℤ)
    → k ≤ 7
    → (to_unsigned (8 * k) (asr v 8) * 256 + to_unsigned 8 v ≡ to_unsigned (8 * suc k) v)
      × (to_unsigned (8 * k) (asr v 8) < 2 ^ 56)
digits zero (pos n) h = omega arith
digits zero (negsuc n) h = omega arith
digits (suc zero) (pos n) h = omega arith
digits (suc zero) (negsuc n) h = omega arith
digits (suc (suc zero)) (pos n) h = omega arith
digits (suc (suc zero)) (negsuc n) h = omega arith
digits (suc (suc (suc zero))) (pos n) h = omega arith
digits (suc (suc (suc zero))) (negsuc n) h = omega arith
digits (suc (suc (suc (suc zero)))) (pos n) h = omega arith
digits (suc (suc (suc (suc zero)))) (negsuc n) h = omega arith
digits (suc (suc (suc (suc (suc zero))))) (pos n) h = omega arith
digits (suc (suc (suc (suc (suc zero))))) (negsuc n) h = omega arith
digits (suc (suc (suc (suc (suc (suc zero)))))) (pos n) h = omega arith
digits (suc (suc (suc (suc (suc (suc zero)))))) (negsuc n) h = omega arith
digits (suc (suc (suc (suc (suc (suc (suc zero))))))) (pos n) h = omega arith
digits (suc (suc (suc (suc (suc (suc (suc zero))))))) (negsuc n) h = omega arith
digits (suc (suc (suc (suc (suc (suc (suc (suc k)))))))) v h = absurd (omega arith)

digit_step :
    (k : ℕ) (v : ℤ)
    → k ≤ 7
    → bit_or (shl64 (to_unsigned (8 * k) (asr v 8)) 8) (to_unsigned 8 v) ≡ to_unsigned (8 * suc k) v
digit_step k v h = push_byte _ _ (digits k v h).1 (low_byte v) ∙ (digits k v h).0

nothing : (v : ℤ) → to_unsigned 0 v ≡ 0
nothing (pos n) = omega arith
nothing (negsuc n) = omega arith

-- Up to 8 bytes, the loops give back the number modulo 2 ^ (8 * k).
pub up_value-be_bytes : (k : ℕ) (v : ℤ) → k ≤ 8 → up_value 0 (be_bytes k v) ≡ to_unsigned (8 * k) v
unfolding be_bytes
up_value-be_bytes zero v h = unfold up_value in sym (nothing v)
up_value-be_bytes (suc k) v h =
    up_value-last 0 (be_bytes k (asr v 8)) (to_unsigned 8 v)
    ∙ ap (λ (t : ℕ). bit_or (shl64 t 8) (to_unsigned 8 v))
        (up_value-be_bytes k (asr v 8) (omega arith))
    ∙ digit_step k v (omega arith)

pub down_value-le_bytes :
    (k : ℕ) (v : ℤ) → k ≤ 8 → down_value (le_bytes k v) 0 ≡ to_unsigned (8 * k) v
unfolding le_bytes down_value
down_value-le_bytes zero v h = sym (nothing v)
down_value-le_bytes (suc k) v h =
    ap (λ (t : ℕ). bit_or (shl64 t 8) (to_unsigned 8 v))
      (down_value-le_bytes k (asr v 8) (omega arith))
    ∙ digit_step k v (omega arith)
