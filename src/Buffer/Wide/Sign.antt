-- ===== src/Buffer/Wide/Sign.antt =====
-- The sign extension of the variable-length reads.
use zane.Base.{ℕ, zero, suc, ◌*◌, ◌^◌, ◌≤◌, ◌<◌, ◌≡◌, arith}
use zane.Base.Int.{ℤ, pos, negsuc, to_signed, to_unsigned}
use native.Mathlib.Nat.{pow-suc}
use zane.Buffer.{ok}
use zane.Buffer.Wide.{sign_extend}

pow_pos : (w : ℕ) → 0 < 2 ^ w
pow_pos zero = omega arith
pow_pos (suc w) = omega (arith, pow_pos w, pow-suc 2 w)

-- For 1 to 8 bytes the two shifts read the pattern in two's complement.
sign_extend-suc :
    (k val : ℕ)
    → k ≤ 7
    → val < 2 ^ (8 * suc k)
    → sign_extend (suc k) val ≡ ok (to_signed (8 * suc k) val)
unfolding sign_extend
sign_extend-suc zero val h l = ground arith
sign_extend-suc (suc zero) val h l = ground arith
sign_extend-suc (suc (suc zero)) val h l = ground arith
sign_extend-suc (suc (suc (suc zero))) val h l = ground arith
sign_extend-suc (suc (suc (suc (suc zero)))) val h l = ground arith
sign_extend-suc (suc (suc (suc (suc (suc zero))))) val h l = ground arith
sign_extend-suc (suc (suc (suc (suc (suc (suc zero)))))) val h l = ground arith
sign_extend-suc (suc (suc (suc (suc (suc (suc (suc zero))))))) val h l = ground arith
sign_extend-suc (suc (suc (suc (suc (suc (suc (suc (suc k)))))))) val h l = absurd (omega arith)

pub sign_extend_lem :
    (n val : ℕ) → 1 ≤ n → n ≤ 8 → val < 2 ^ (8 * n) → sign_extend n val ≡ ok (to_signed (8 * n) val)
sign_extend_lem zero val p h l = absurd (omega arith)
sign_extend_lem (suc k) val p h l = sign_extend-suc k val (omega arith) l

pub to_unsigned-lt : (w : ℕ) (v : ℤ) → to_unsigned w v < 2 ^ w
to_unsigned-lt w (pos n) = omega (arith, pow_pos w)
to_unsigned-lt w (negsuc n) = omega (arith, pow_pos w)
