-- ===== src/Buffer/Validate/Utf8.antt =====
-- What isUtf8 accepts.
use zane.Base.{
  ℕ, ◌+◌, ◌<◌, ◌≡◌, All, refl, ◌∙◌, true, false, ◌&&◌, List, [], ◌∷◌, leb, bit_and, arith,
}
use zane.Base.Bits.{agree, agree-eq}
use zane.Buffer.{bytes, Value}
use zane.Buffer.Validate.{
  ascii_bytes, is_ascii, is_valid_utf8, is_utf8, lead2, lead3, lead4, follows,
}

-- One sequence in front of more bytes.
pub one_byte : (a : ℕ) (ys : List ℕ) → leb a 0x7f ≡ true → is_valid_utf8 (a ∷ ys) ≡ is_valid_utf8 ys
unfolding is_valid_utf8
one_byte a [] h = h
one_byte a (b ∷ []) h = rw h refl
one_byte a (b ∷ c ∷ []) h = rw h refl
one_byte a (b ∷ c ∷ d ∷ ys) h = rw h refl

pub two_bytes :
    (a b : ℕ) (ys : List ℕ)
    → leb a 0x7f ≡ false
    → lead2 a ≡ true
    → is_valid_utf8 (a ∷ b ∷ ys) ≡ (follows b && is_valid_utf8 ys)
unfolding is_valid_utf8
two_bytes a b [] h k = rw (h, k) (ground arith)
two_bytes a b (c ∷ []) h k = rw (h, k) refl
two_bytes a b (c ∷ d ∷ ys) h k = rw (h, k) refl

pub three_bytes :
    (a b c : ℕ) (ys : List ℕ)
    → leb a 0x7f ≡ false
    → lead2 a ≡ false
    → lead3 a ≡ true
    → is_valid_utf8 (a ∷ b ∷ c ∷ ys) ≡ (follows b && follows c && is_valid_utf8 ys)
unfolding is_valid_utf8
three_bytes a b c [] h k l = rw (h, k, l) (ground arith)
three_bytes a b c (d ∷ ys) h k l = rw (h, k, l) refl

-- isAscii implies isUtf8.
ascii-utf8 : (bs : List ℕ) → ascii_bytes bs ≡ true → is_valid_utf8 bs ≡ true
unfolding ascii_bytes
ascii-utf8 [] h = unfold is_valid_utf8 in refl
ascii-utf8 (b ∷ bs) h =
    let low : leb b 127 ≡ true = ground arith in
    let rest : ascii_bytes bs ≡ true = ground arith in one_byte b bs low ∙ ascii-utf8 bs rest

pub four_bytes :
    (a b c d : ℕ) (ys : List ℕ)
    → leb a 0x7f ≡ false
    → lead2 a ≡ false
    → lead3 a ≡ false
    → lead4 a ≡ true
    → is_valid_utf8 (a ∷ b ∷ c ∷ d ∷ ys) ≡ (follows b && follows c && follows d && is_valid_utf8 ys)
unfolding is_valid_utf8
four_bytes a b c d ys h k l m = rw (h, k, l, m) refl

-- The bits of a code point, in the groups that its sequence of 1 to 4 bytes carries.
pub data CodePoint : Type 0 where
  single : ℕ → CodePoint
  double : ℕ → ℕ → CodePoint
  triple : ℕ → ℕ → ℕ → CodePoint
  quadruple : ℕ → ℕ → ℕ → ℕ → CodePoint

abbrev pub InRange : CodePoint → Type 0
InRange (single a) = a < 128
InRange (double a b) = (a < 32) × (b < 64)
InRange (triple a b c) = (a < 16) × (b < 64) × (c < 64)
InRange (quadruple a b c d) = (a < 8) × (b < 64) × (c < 64) × (d < 64)

-- The sequences of the code points, one after the other.
abbrev pub encode : List CodePoint → List ℕ
encode [] = []
encode (single a ∷ cs) = a ∷ encode cs
encode (double a b ∷ cs) = (0xc0 + a) ∷ (0x80 + b) ∷ encode cs
encode (triple a b c ∷ cs) = (0xe0 + a) ∷ (0x80 + b) ∷ (0x80 + c) ∷ encode cs
encode (quadruple a b c d ∷ cs) = (0xf0 + a) ∷ (0x80 + b) ∷ (0x80 + c) ∷ (0x80 + d) ∷ encode cs

following : {b : ℕ} → b < 64 → bit_and (0x80 + b) 0xc0 ≡ 0x80
unfolding agree
following = agree-eq (λ b. bit_and (0x80 + b) 0xc0) (λ b. 0x80) 64 refl

leading2 : {a : ℕ} → a < 32 → bit_and (0xc0 + a) 0xe0 ≡ 0xc0
unfolding agree
leading2 = agree-eq (λ a. bit_and (0xc0 + a) 0xe0) (λ a. 0xc0) 32 refl

leading3 : {a : ℕ} → a < 16 → bit_and (0xe0 + a) 0xf0 ≡ 0xe0
unfolding agree
leading3 = agree-eq (λ a. bit_and (0xe0 + a) 0xf0) (λ a. 0xe0) 16 refl

leading4 : {a : ℕ} → a < 8 → bit_and (0xf0 + a) 0xf8 ≡ 0xf0
unfolding agree
leading4 = agree-eq (λ a. bit_and (0xf0 + a) 0xf8) (λ a. 0xf0) 8 refl

-- A lead byte of 3 or 4 bytes leads no 2, one of 4 bytes leads no 3.
three_not_two : {a : ℕ} → a < 16 → bit_and (0xe0 + a) 0xe0 ≡ 0xe0
unfolding agree
three_not_two = agree-eq (λ a. bit_and (0xe0 + a) 0xe0) (λ a. 0xe0) 16 refl

four_not_two : {a : ℕ} → a < 8 → bit_and (0xf0 + a) 0xe0 ≡ 0xe0
unfolding agree
four_not_two = agree-eq (λ a. bit_and (0xf0 + a) 0xe0) (λ a. 0xe0) 8 refl

four_not_three : {a : ℕ} → a < 8 → bit_and (0xf0 + a) 0xf0 ≡ 0xf0
unfolding agree
four_not_three = agree-eq (λ a. bit_and (0xf0 + a) 0xf0) (λ a. 0xf0) 8 refl

pub encoded-valid : (cs : List CodePoint) → All InRange cs → is_valid_utf8 (encode cs) ≡ true
encoded-valid [] h = unfold is_valid_utf8 in refl
encoded-valid (single a ∷ cs) (r, h) = one_byte a (encode cs) (ground arith) ∙ encoded-valid cs h
encoded-valid (double a b ∷ cs) ((r, s), h) =
    two_bytes (0xc0 + a) (0x80 + b) (encode cs) (ground arith) (rw (leading2 r) refl)
    ∙ rw (following s, encoded-valid cs h) refl
encoded-valid (triple a b c ∷ cs) ((r, s, t), h) =
    three_bytes (0xe0 + a) (0x80 + b) (0x80 + c) (encode cs) (ground arith)
      (rw (three_not_two r) refl) (rw (leading3 r) refl)
    ∙ rw (following s, following t, encoded-valid cs h) refl
encoded-valid (quadruple a b c d ∷ cs) ((r, s, t, u), h) =
    four_bytes (0xf0 + a) (0x80 + b) (0x80 + c) (0x80 + d) (encode cs) (ground arith)
      (rw (four_not_two r) refl) (rw (four_not_three r) refl) (rw (leading4 r) refl)
    ∙ rw (following s, following t, following u, encoded-valid cs h) refl

-- A view that isAscii accepts, isUtf8 accepts.
pub is_utf8-is_ascii :
    (bs : List ℕ) (rest : List Value)
    → is_ascii (bytes bs ∷ rest) ≡ true
    → is_utf8 (bytes bs ∷ rest) ≡ true
unfolding is_utf8 is_ascii
is_utf8-is_ascii bs rest h = ascii-utf8 bs h
