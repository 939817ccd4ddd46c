-- ===== src/Buffer/Base64/Sextets.antt =====
-- The masks and shifts of the base64 codec as arithmetic, and its table of characters.
use zane.Base.{ℕ, ◌+◌, ◌*◌, ◌/◌, ◌%◌, ◌<◌, ◌≡◌, refl, Bool, true, false, bit_and, arith}
use zane.Base.Bits.{shr, agree, agree-eq, low_four}
use zane.Buffer.{IsByte}
use zane.Buffer.Base64.{
  sextet0, sextet1, sextet2, sextet3, byte0, byte1, byte2, char64, find64, index_in, is_base64,
  from_url,
}

and_fc : {x : ℕ} → x < 256 → shr (bit_and x 0xfc) 2 ≡ x / 4
unfolding agree
and_fc = agree-eq (λ x. shr (bit_and x 0xfc) 2) (λ x. x / 4) 256 refl

and_03 : {x : ℕ} → x < 256 → bit_and x 0x03 ≡ x % 4
unfolding agree
and_03 = agree-eq (λ x. bit_and x 0x03) (λ x. x % 4) 256 refl

and_f0 : {x : ℕ} → x < 256 → shr (bit_and x 0xf0) 4 ≡ x / 16
unfolding agree
and_f0 = agree-eq (λ x. shr (bit_and x 0xf0) 4) (λ x. x / 16) 256 refl

and_c0 : {x : ℕ} → x < 256 → shr (bit_and x 0xc0) 6 ≡ x / 64
unfolding agree
and_c0 = agree-eq (λ x. shr (bit_and x 0xc0) 6) (λ x. x / 64) 256 refl

and_3f : {x : ℕ} → x < 256 → bit_and x 0x3f ≡ x % 64
unfolding agree
and_3f = agree-eq (λ x. bit_and x 0x3f) (λ x. x % 64) 256 refl

and_30 : {x : ℕ} → x < 64 → shr (bit_and x 0x30) 4 ≡ x / 16
unfolding agree
and_30 = agree-eq (λ x. shr (bit_and x 0x30) 4) (λ x. x / 16) 64 refl

and_3c : {x : ℕ} → x < 64 → shr (bit_and x 0x3c) 2 ≡ x % 64 / 4
unfolding agree
and_3c = agree-eq (λ x. shr (bit_and x 0x3c) 2) (λ x. x % 64 / 4) 64 refl

-- The indices of three bytes.
pub sextets :
    (a b c : ℕ)
    → IsByte a
    → IsByte b
    → IsByte c
    → (sextet0 a ≡ a / 4)
      × (sextet1 a b ≡ a % 4 * 16 + b / 16)
      × (sextet2 b c ≡ b % 16 * 4 + c / 64)
      × (sextet3 c ≡ c % 64)
sextets a b c ha hb hc = (
  and_fc ha,
  omega (arith, and_03 ha, and_f0 hb),
  omega (arith, low_four hb, and_c0 hc),
  and_3f hc,
)

-- The bytes of four indices below 64.
pub bytes_of :
    (p q r s : ℕ)
    → p < 64
    → q < 64
    → r < 64
    → s < 64
    → (byte0 p q ≡ p * 4 + q / 16)
      × (byte1 q r ≡ q % 16 * 16 + r / 4)
      × (byte2 r s ≡ r % 4 * 64 + s)
bytes_of p q r s hp hq hr hs = (
  omega (arith, and_30 hq),
  omega (arith, low_four {b = q} (omega arith), and_3c hr),
  omega (arith, and_03 {x = r} (omega arith)),
)

truth : Bool → ℕ
truth true = 1
truth false = 0

truth-one : (b : Bool) → truth b ≡ 1 → b ≡ true
unfolding truth
truth-one true e = refl
truth-one false e = absurd (omega arith)

-- Each of the 64 characters is accepted, stands for its index, and is no base64url character.
pub find64-char64 : {i : ℕ} → i < 64 → find64 (char64 i) ≡ i
unfolding agree index_in
find64-char64 = agree-eq (λ i. find64 (char64 i)) (λ i. i) 64 refl

pub from_url-char64 : {i : ℕ} → i < 64 → from_url (char64 i) ≡ char64 i
unfolding agree from_url
from_url-char64 = agree-eq (λ i. from_url (char64 i)) (λ i. char64 i) 64 refl

accepted : {i : ℕ} → i < 64 → truth (is_base64 (char64 i)) ≡ 1
unfolding agree is_base64 truth
accepted = agree-eq (λ i. truth (is_base64 (char64 i))) (λ i. 1) 64 refl

pub is_base64-char64 : {i : ℕ} → i < 64 → is_base64 (char64 i) ≡ true
is_base64-char64 h = truth-one _ (accepted h)
