-- ===== src/Buffer/Fixed/Bytes.antt =====
-- The joins of 2 and 4 bytes as numbers in base 256, and back.
use zane.Base.{ℕ, ◌+◌, ◌*◌, ◌%◌, ◌^◌, ◌<◌, ◌≡◌, ap, ◌∙◌, bit_or, arith}
use zane.Base.Bits.{shl, bit_or-shl}
use zane.Buffer.{IsByte}
use zane.Buffer.Fixed.{join16, join32, shl32, byte_of}

or_add : (k m x y : ℕ) → x ≡ shl m k → y < 2 ^ k → bit_or x y ≡ x + y
or_add k m x y e h = ap (λ (t : ℕ). bit_or t y) e ∙ omega (arith, bit_or-shl k m y h)

pub join16_lem : (a b : ℕ) → IsByte a → IsByte b → join16 a b ≡ a * 256 + b
join16_lem a b ha hb = omega (arith, or_add 8 a (shl32 a 8) b (omega arith) (omega arith))

pub join32_lem :
    (a b c d : ℕ)
    → IsByte a
    → IsByte b
    → IsByte c
    → IsByte d
    → join32 a b c d ≡ ((a * 256 + b) * 256 + c) * 256 + d
join32_lem a b c d ha hb hc hd =
    let p = or_add 24 a (shl32 a 24) (shl32 b 16) (omega arith) (omega arith) in
    let q =
      or_add 16 (a * 256 + b) (bit_or (shl32 a 24) (shl32 b 16)) (shl32 c 8) (omega (arith, p))
        (omega arith) in
    let r =
      or_add 8 ((a * 256 + b) * 256 + c) (bit_or (bit_or (shl32 a 24) (shl32 b 16)) (shl32 c 8)) d
        (omega (arith, p, q)) (omega arith) in
    omega (arith, p, q, r)

-- The bytes that a write takes from a number, joined, are the number.
pub join16-byte_of : (v : ℕ) → join16 (byte_of v 8) (byte_of v 0) ≡ v % 2 ^ 16
join16-byte_of v = omega (arith, join16_lem (byte_of v 8) (byte_of v 0) (omega arith) (omega arith))

pub join32-byte_of :
    (v : ℕ) → join32 (byte_of v 24) (byte_of v 16) (byte_of v 8) (byte_of v 0) ≡ v % 2 ^ 32
join32-byte_of v =
    join32_lem (byte_of v 24) (byte_of v 16) (byte_of v 8) (byte_of v 0) (omega arith) (omega arith)
      (omega arith) (omega arith)
    ∙ digits4 v
  where
    digits4 :
        (v : ℕ)
        → ((byte_of v 24 * 256 + byte_of v 16) * 256 + byte_of v 8) * 256 + byte_of v 0 ≡ v % 2 ^ 32
    digits4 v = omega arith
