-- ===== src/Buffer/Validate/Only.antt =====
-- isUtf8 accepts nothing else than sequences of code points.
use zane.Base.{
  ℕ, ◌+◌, ◌-◌, ◌<◌, ◌≤◌, ◌≡◌, All, refl, sym, ap, ◌∙◌, Bool, true, false, Bool-cases, ◌↔◌, inl, inr,
  ◌&&◌, List, [], ◌∷◌, leb, arith, if◌then◌else◌,
}
use zane.Base.Bits.{agree, agree-eq}
use zane.Base.Text.{between}
use zane.Buffer.{bytes, Value, IsByte}
use zane.Buffer.Validate.{is_valid_utf8, is_utf8, lead2, lead3, lead4, follows}
use zane.Buffer.Validate.Utf8.{
  CodePoint, single, double, triple, quadruple, InRange, encode, one_byte, two_bytes, three_bytes,
  four_bytes, encoded-valid,
}

-- 1 where a test holds outside of a range.
abbrev flag : Bool → Bool → ℕ
flag t b = if t then (if b then 0 else 1) else 0

flagged : (t b : Bool) → t ≡ true → flag t b ≡ 0 → b ≡ true
flagged t b h e = ground arith

in_range : (lo hi a : ℕ) → between lo hi a ≡ true → (p : ℕ) × (a ≡ lo + p) × (lo + p ≤ hi)
in_range lo hi a h =
    let low : lo ≤ a = ground arith in
    let high : a ≤ hi = ground arith in (a - lo, omega arith, omega arith)

lead2_range : {a : ℕ} → a < 256 → flag (lead2 a) (between 0xc0 0xdf a) ≡ 0
unfolding agree
lead2_range = agree-eq (λ a. flag (lead2 a) (between 0xc0 0xdf a)) (λ a. 0) 256 refl

lead3_range : {a : ℕ} → a < 256 → flag (lead3 a) (between 0xe0 0xef a) ≡ 0
unfolding agree
lead3_range = agree-eq (λ a. flag (lead3 a) (between 0xe0 0xef a)) (λ a. 0) 256 refl

lead4_range : {a : ℕ} → a < 256 → flag (lead4 a) (between 0xf0 0xf7 a) ≡ 0
unfolding agree
lead4_range = agree-eq (λ a. flag (lead4 a) (between 0xf0 0xf7 a)) (λ a. 0) 256 refl

follows_range : {a : ℕ} → a < 256 → flag (follows a) (between 0x80 0xbf a) ≡ 0
unfolding agree
follows_range = agree-eq (λ a. flag (follows a) (between 0x80 0xbf a)) (λ a. 0) 256 refl

following_bits : (b : ℕ) → b < 256 → follows b ≡ true → (q : ℕ) × (b ≡ 0x80 + q) × (0x80 + q ≤ 0xbf)
following_bits b h f = in_range 0x80 0xbf b (flagged (follows b) _ f (follows_range h))

both : (x y : Bool) → (x && y) ≡ true → (x ≡ true) × (y ≡ true)
both x y h = (ground arith, ground arith)

-- The bytes are the sequences of code points.
record IsEncoded (bs : List ℕ) : Type 0 where
  code_points : List CodePoint
  ranges : All InRange code_points
  encodes : encode code_points ≡ bs

one_case : (a : ℕ) (ys : List ℕ) → leb a 0x7f ≡ true → IsEncoded ys → IsEncoded (a ∷ ys)
one_case a ys h r = record {
  code_points = single a ∷ r.code_points;
  ranges = (ground arith, r.ranges);
  encodes = ap (λ l. a ∷ l) r.encodes;
}

two_case :
    (a b : ℕ) (ys : List ℕ)
    → a < 256
    → b < 256
    → lead2 a ≡ true
    → follows b ≡ true
    → IsEncoded ys
    → IsEncoded (a ∷ b ∷ ys)
two_case a b ys ha hb h f r =
    let (p, e, l) = in_range 0xc0 0xdf a (flagged (lead2 a) _ h (lead2_range ha)) in
    let (q, g, m) = following_bits b hb f in
    record {
      code_points = double p q ∷ r.code_points;
      ranges = ((omega (arith, l), omega (arith, m)), r.ranges);
      encodes = rw (e, g, r.encodes) refl;
    }

three_case :
    (a b c : ℕ) (ys : List ℕ)
    → a < 256
    → b < 256
    → c < 256
    → lead3 a ≡ true
    → follows b ≡ true
    → follows c ≡ true
    → IsEncoded ys
    → IsEncoded (a ∷ b ∷ c ∷ ys)
three_case a b c ys ha hb hc h f k r =
    let (p, e, l) = in_range 0xe0 0xef a (flagged (lead3 a) _ h (lead3_range ha)) in
    let (q, g, m) = following_bits b hb f in
    let (s, i, n) = following_bits c hc k in
    record {
      code_points = triple p q s ∷ r.code_points;
      ranges = ((omega (arith, l), omega (arith, m), omega (arith, n)), r.ranges);
      encodes = rw (e, g, i, r.encodes) refl;
    }

four_case :
    (a b c d : ℕ) (ys : List ℕ)
    → a < 256
    → b < 256
    → c < 256
    → d < 256
    → lead4 a ≡ true
    → follows b ≡ true
    → follows c ≡ true
    → follows d ≡ true
    → IsEncoded ys
    → IsEncoded (a ∷ b ∷ c ∷ d ∷ ys)
four_case a b c d ys ha hb hc hd h f k j r =
    let (p, e, l) = in_range 0xf0 0xf7 a (flagged (lead4 a) _ h (lead4_range ha)) in
    let (q, g, m) = following_bits b hb f in
    let (s, i, n) = following_bits c hc k in
    let (t, u, o) = following_bits d hd j in
    record {
      code_points = quadruple p q s t ∷ r.code_points;
      ranges = ((omega (arith, l), omega (arith, m), omega (arith, n), omega (arith, o)), r.ranges);
      encodes = rw (e, g, i, u, r.encodes) refl;
    }

no_lead : (a b : ℕ) → leb a 0x7f ≡ false → lead2 a ≡ false → is_valid_utf8 (a ∷ b ∷ []) ≡ false
unfolding is_valid_utf8
no_lead a b h k = rw (h, k) refl

no_lead3 :
    (a b c : ℕ)
    → leb a 0x7f ≡ false
    → lead2 a ≡ false
    → lead3 a ≡ false
    → is_valid_utf8 (a ∷ b ∷ c ∷ []) ≡ false
unfolding is_valid_utf8
no_lead3 a b c h k l = rw (h, k, l) refl

no_lead4 :
    (a b c d : ℕ) (ys : List ℕ)
    → leb a 0x7f ≡ false
    → lead2 a ≡ false
    → lead3 a ≡ false
    → lead4 a ≡ false
    → is_valid_utf8 (a ∷ b ∷ c ∷ d ∷ ys) ≡ false
unfolding is_valid_utf8
no_lead4 a b c d ys h k l m = rw (h, k, l, m) refl

one_of_one : (a : ℕ) → is_valid_utf8 (a ∷ []) ≡ leb a 0x7f
unfolding is_valid_utf8
one_of_one a = refl

never {ℓ} : {A : Type ℓ} (b : Bool) → b ≡ true → b ≡ false → A
never b h k = cc

valid-IsEncoded : (bs : List ℕ) → All IsByte bs → is_valid_utf8 bs ≡ true → IsEncoded bs
valid-IsEncoded [] h e = record { code_points = []; ranges = tt; encodes = refl }
valid-IsEncoded (a ∷ []) (ha, h) e =
    one_case a [] (sym (one_of_one a) ∙ e) (valid-IsEncoded [] tt (unfold is_valid_utf8 in refl))
valid-IsEncoded (a ∷ b ∷ []) (ha, (hb, h)) e = elim (Bool-cases (leb a 0x7f)) [
  | inl y ↦
      one_case a (b ∷ []) y (valid-IsEncoded (b ∷ []) (hb, h) (sym (one_byte a (b ∷ []) y) ∙ e))
  | inr n ↦ elim (Bool-cases (lead2 a)) [
    | inl k ↦
        let (f, r) = both _ _ (sym (two_bytes a b [] n k) ∙ e) in
        two_case a b [] ha hb k f (valid-IsEncoded [] tt r)
    | inr k ↦ never _ e (no_lead a b n k)
  ]
]
valid-IsEncoded (a ∷ b ∷ c ∷ []) (ha, (hb, (hc, h))) e = elim (Bool-cases (leb a 0x7f)) [
  | inl y ↦
      one_case a (b ∷ c ∷ []) y
        (valid-IsEncoded (b ∷ c ∷ []) (hb, (hc, h)) (sym (one_byte a (b ∷ c ∷ []) y) ∙ e))
  | inr n ↦ elim (Bool-cases (lead2 a)) [
    | inl k ↦
        let (f, r) = both _ _ (sym (two_bytes a b (c ∷ []) n k) ∙ e) in
        two_case a b (c ∷ []) ha hb k f (valid-IsEncoded (c ∷ []) (hc, h) r)
    | inr k ↦ elim (Bool-cases (lead3 a)) [
      | inl l ↦
          let (fg, r) = both _ _ (sym (three_bytes a b c [] n k l) ∙ e) in
          let (f, g) = both _ _ fg in three_case a b c [] ha hb hc l f g (valid-IsEncoded [] tt r)
      | inr l ↦ never _ e (no_lead3 a b c n k l)
    ]
  ]
]
valid-IsEncoded (a ∷ b ∷ c ∷ d ∷ ys) (ha, (hb, (hc, (hd, h)))) e = elim (Bool-cases (leb a 0x7f)) [
  | inl y ↦ one_case a (b ∷ c ∷ d ∷ ys) y (
      valid-IsEncoded (b ∷ c ∷ d ∷ ys) (hb, (hc, (hd, h)))
        (sym (one_byte a (b ∷ c ∷ d ∷ ys) y) ∙ e))
  | inr n ↦ elim (Bool-cases (lead2 a)) [
    | inl k ↦
        let (f, r) = both _ _ (sym (two_bytes a b (c ∷ d ∷ ys) n k) ∙ e) in
        two_case a b (c ∷ d ∷ ys) ha hb k f (valid-IsEncoded (c ∷ d ∷ ys) (hc, (hd, h)) r)
    | inr k ↦ elim (Bool-cases (lead3 a)) [
      | inl l ↦
          let (fg, r) = both _ _ (sym (three_bytes a b c (d ∷ ys) n k l) ∙ e) in
          let (f, g) = both _ _ fg in
          three_case a b c (d ∷ ys) ha hb hc l f g (valid-IsEncoded (d ∷ ys) (hd, h) r)
      | inr l ↦ elim (Bool-cases (lead4 a)) [
        | inl m ↦
            let (fgi, r) = both _ _ (sym (four_bytes a b c d ys n k l m) ∙ e) in
            let (fg, i) = both _ _ fgi in
            let (f, g) = both _ _ fg in
            four_case a b c d ys ha hb hc hd m f g i (valid-IsEncoded ys h r)
        | inr m ↦ never _ e (no_lead4 a b c d ys n k l m)
      ]
    ]
  ]
]

-- isUtf8 accepts exactly the bytes that are sequences of 1 to 4 bytes of code points, one after the
-- other, whatever bits the code points carry: the overlong ones and those of surrogates are among them.
pub is_utf8-encode :
    (bs : List ℕ) (rest : List Value)
    → All IsByte bs
    → (is_utf8 (bytes bs ∷ rest) ≡ true)
      ↔ ((cs : List CodePoint) × All InRange cs × (encode cs ≡ bs))
unfolding is_utf8
is_utf8-encode bs rest h = (
  λ e. let r = valid-IsEncoded bs h e in (r.code_points, r.ranges, r.encodes),
  λ (cs, i, e). sym (ap is_valid_utf8 e) ∙ encoded-valid cs i,
)
