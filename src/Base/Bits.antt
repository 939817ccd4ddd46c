-- ===== src/Base/Bits.antt =====
-- `<<`, `>>`, `|` and `&` of the source as arithmetic, at every width.
use Prim.Native.Nat.{
  ℕ, zero, suc, ◌+◌, ◌*◌, ◌/◌, ◌%◌, ◌^◌, ◌≤◌, ◌<◌, max, bit_and, bit_or, digits, bit_or-bitwise,
}
use mathlib.Core.Path.{◌≡◌, refl, sym, ap}
use mathlib.Core.Bool.{Bool, true, ◌&&◌}
use native.Mathlib.Omega.{arith}
use native.Mathlib.Nat.{pow-suc}
use zane.Base.Tests.{◌==◌}

-- x << k and x >> k, before any cut to a width.
abbrev pub shl : ℕ → ℕ → ℕ
shl x k = x * 2 ^ k

abbrev pub shr : ℕ → ℕ → ℕ
shr x k = x / 2 ^ k

-- Two functions of a byte compared at each of the n values, by evaluation.
unfoldable pub agree : (ℕ → ℕ) → (ℕ → ℕ) → ℕ → Bool
agree f g zero = true
agree f g (suc top) = agree f g top && f top == g top

pub agree-eq : (f g : ℕ → ℕ) (top : ℕ) → agree f g top ≡ true → {x : ℕ} → x < top → f x ≡ g x
unfolding agree
agree-eq f g zero t l = absurd (omega arith)
agree-eq f g (suc top) t {x} l = ground (arith, λ (p : x < top). agree-eq f g top (ground arith) p)

pub low_four : {b : ℕ} → b < 256 → bit_and b 0x0f ≡ b % 16
unfolding agree
low_four = agree-eq (λ b. bit_and b 0x0f) (λ b. b % 16) 256 refl

-- `bit_or a b` is a recursion on the digits of a; more fuel than a does not change it.
abbrev or_with : ℕ → ℕ → ℕ → ℕ
or_with fuel a b = digits (λ rest. rest) max fuel a b

or_with-bit_or : (bound fuel a b : ℕ) → fuel ≤ bound → a ≤ fuel → or_with fuel a b ≡ bit_or a b
or_with-bit_or bound zero zero b h l = sym (bit_or-bitwise 0 b)
or_with-bit_or bound zero (suc a) b h l = absurd (omega arith)
or_with-bit_or bound (suc fuel) zero b h l = sym (bit_or-bitwise 0 b)
or_with-bit_or zero (suc fuel) (suc a) b h l = absurd (omega arith)
or_with-bit_or (suc bound) (suc fuel) (suc a) b h l = omega (
  arith,
  bit_or-bitwise (suc a) b,
  or_with-bit_or bound fuel (suc a / 2) (b / 2) (omega arith) (omega arith),
  or_with-bit_or bound a (suc a / 2) (b / 2) (omega arith) (omega arith),
)

-- The lowest digit apart.
split_digit : (a b : ℕ) → bit_or a b ≡ bit_or (a / 2) (b / 2) * 2 + max (a % 2) (b % 2)
split_digit zero b = omega (arith, bit_or-bitwise 0 b, bit_or-bitwise 0 (b / 2))
split_digit (suc a) b = omega (
  arith,
  bit_or-bitwise (suc a) b,
  or_with-bit_or a a (suc a / 2) (b / 2) (omega arith) (omega arith),
)

or_nothing : (bound a : ℕ) → a ≤ bound → bit_or a 0 ≡ a
or_nothing bound zero l = refl
or_nothing zero (suc a) l = absurd (omega arith)
or_nothing (suc bound) (suc a) l =
    let half = or_nothing bound (suc a / 2) (omega arith) in
    omega (arith, half, split_digit (suc a) 0)

twice_shl : (a k : ℕ) → shl a (suc k) ≡ shl a k * 2
twice_shl a k = omega (arith, ap (λ (t : ℕ). a * t) (pow-suc 2 k))

-- `(a << k) | b` adds where `b` has at most k bits.
pub bit_or-shl : (k a b : ℕ) → b < 2 ^ k → bit_or (shl a k) b ≡ shl a k + b
bit_or-shl zero a zero h = omega (arith, or_nothing (a * 1) (a * 1) (omega arith))
bit_or-shl zero a (suc b) h = absurd (omega arith)
bit_or-shl (suc k) a b h = omega (
  arith,
  twice_shl a k,
  pow-suc 2 k,
  split_digit (shl a (suc k)) b,
  bit_or-shl k a (b / 2) (omega (arith, pow-suc 2 k)),
  ap (λ (t : ℕ). bit_or t (b / 2)) (halve a k),
)
  where
    halve : (a k : ℕ) → shl a (suc k) / 2 ≡ shl a k
    halve a k = omega (arith, twice_shl a k)
