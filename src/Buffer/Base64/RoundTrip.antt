-- ===== src/Buffer/Base64/RoundTrip.antt =====
-- Decoding what the encoder wrote.
use zane.Base.{ℕ, ◌<◌, ◌≡◌, refl, ap, ◌∙◌, List, [], ◌∷◌, map, All, arith}
use zane.Buffer.{IsByte}
use zane.Buffer.Base64.{
  sextet0, sextet1, sextet2, sextet3, byte0, byte1, byte2, char64, is_base64, from_url, held0,
  chars0, chars2, chars3, bytes_to_base64_loop, bytes_to_base64, base64_rest, base64_to_bytes_loop,
  base64_to_bytes,
}
use zane.Buffer.Base64.Sextets.{sextets, bytes_of, find64-char64, from_url-char64, is_base64-char64}

-- Two, three and four characters of the alphabet, at the start of a group.
module _ (p q : ℕ) (hp : p < 64) (hq : q < 64) where
  take_two :
      (s : List ℕ)
      → base64_to_bytes_loop chars0 (char64 p ∷ char64 q ∷ s)
        ≡ base64_to_bytes_loop (chars2 (char64 p) (char64 q)) s
  unfolding base64_to_bytes_loop
  take_two s = rw (is_base64-char64 hp, is_base64-char64 hq)

  stop_two :
      (s : List ℕ) → base64_to_bytes_loop (chars2 (char64 p) (char64 q)) (b'=' ∷ s) ≡ byte0 p q ∷ []
  unfolding base64_to_bytes_loop base64_rest is_base64
  stop_two s = rw (find64-char64 hp, find64-char64 hq)

  module _ (r : ℕ) (hr : r < 64) where
    take_three :
        (s : List ℕ)
        → base64_to_bytes_loop (chars2 (char64 p) (char64 q)) (char64 r ∷ s)
          ≡ base64_to_bytes_loop (chars3 (char64 p) (char64 q) (char64 r)) s
    unfolding base64_to_bytes_loop
    take_three s = rw (is_base64-char64 hr)

    stop_three :
        (s : List ℕ)
        → base64_to_bytes_loop (chars3 (char64 p) (char64 q) (char64 r)) (b'=' ∷ s)
          ≡ byte0 p q ∷ byte1 q r ∷ []
    unfolding base64_to_bytes_loop base64_rest is_base64
    stop_three s = rw (find64-char64 hp, find64-char64 hq, find64-char64 hr)

    take_four :
        (t : ℕ) (s : List ℕ)
        → t < 64
        → base64_to_bytes_loop (chars3 (char64 p) (char64 q) (char64 r)) (char64 t ∷ s)
          ≡ byte0 p q ∷ byte1 q r ∷ byte2 r t ∷ base64_to_bytes_loop chars0 s
    unfolding base64_to_bytes_loop
    take_four t s ht = rw (
      is_base64-char64 ht,
      find64-char64 hp,
      find64-char64 hq,
      find64-char64 hr,
      find64-char64 ht,
    )

-- The indices of three bytes are below 64, and give the bytes back.
inverse :
    (a b c : ℕ)
    → IsByte a
    → IsByte b
    → IsByte c
    → (sextet0 a < 64)
      × (sextet1 a b < 64)
      × (sextet2 b c < 64)
      × (sextet3 c < 64)
      × (byte0 (sextet0 a) (sextet1 a b) ≡ a)
      × (byte1 (sextet1 a b) (sextet2 b c) ≡ b)
      × (byte2 (sextet2 b c) (sextet3 c) ≡ c)
inverse a b c ha hb hc =
    let s = sextets a b c ha hb hc in
    let p : sextet0 a < 64 = omega (arith, s.0) in
    let q : sextet1 a b < 64 = omega (arith, s.1) in
    let r : sextet2 b c < 64 = omega (arith, s.2) in
    let t : sextet3 c < 64 = omega (arith, s.3) in
    let w = bytes_of (sextet0 a) (sextet1 a b) (sextet2 b c) (sextet3 c) p q r t in
    (
      p,
      q,
      r,
      t,
      omega (arith, s.0, s.1, w.0),
      omega (arith, s.1, s.2, w.1),
      omega (arith, s.2, s.3, w.2),
    )

-- One group of each size.
module _ (a b c : ℕ) (ha : IsByte a) (hb : IsByte b) (hc : IsByte c) where
  group3 :
      (s : List ℕ)
      → base64_to_bytes_loop chars0 (
          map from_url (
            char64 (sextet0 a)
            ∷ char64 (sextet1 a b)
            ∷ char64 (sextet2 b c)
            ∷ char64 (sextet3 c)
            ∷ s))
        ≡ a ∷ b ∷ c ∷ base64_to_bytes_loop chars0 (map from_url s)
  group3 s =
      let (p, q, r, t, x, y, z) = inverse a b c ha hb hc in
      let rest = map from_url s in
      rw (from_url-char64 p, from_url-char64 q, from_url-char64 r, from_url-char64 t)
        (take_two _ _ p q _
          ∙ take_three _ _ p q _ r _
          ∙ take_four _ _ p q _ r _ rest t
          ∙ rw (x, y, z))

group2 :
    (a b : ℕ)
    → IsByte a
    → IsByte b
    → base64_to_bytes_loop chars0 (
        map from_url (char64 (sextet0 a) ∷ char64 (sextet1 a b) ∷ char64 (sextet2 b 0) ∷ b'=' ∷ []))
      ≡ a ∷ b ∷ []
unfolding from_url
group2 a b ha hb =
    let (p, q, r, t, x, y, z) = inverse a b 0 ha hb (omega arith) in
    rw (from_url-char64 p, from_url-char64 q, from_url-char64 r)
      (take_two _ _ p q _ ∙ take_three _ _ p q _ r _ ∙ stop_three _ _ p q _ r _ ∙ rw (x, y))

group1 :
    (a : ℕ)
    → IsByte a
    → base64_to_bytes_loop chars0
        (map from_url (char64 (sextet0 a) ∷ char64 (sextet1 a 0) ∷ b'=' ∷ b'=' ∷ []))
      ≡ a ∷ []
unfolding from_url
group1 a ha =
    let (p, q, r, t, x, y, z) = inverse a 0 0 ha (omega arith) (omega arith) in
    rw (from_url-char64 p, from_url-char64 q) (take_two _ _ p q _ ∙ stop_two _ _ p q _ ∙ rw x)

decode_loop :
    (bs : List ℕ)
    → All IsByte bs
    → base64_to_bytes_loop chars0 (map from_url (bytes_to_base64_loop held0 bs)) ≡ bs
unfolding bytes_to_base64_loop
decode_loop [] h = unfold base64_to_bytes_loop base64_rest in refl
decode_loop (a ∷ []) (ha, h) = group1 a ha
decode_loop (a ∷ b ∷ []) (ha, (hb, h)) = group2 a b ha hb
decode_loop (a ∷ b ∷ c ∷ bs) (ha, (hb, (hc, h))) =
    group3 a b c ha hb hc (bytes_to_base64_loop held0 bs)
    ∙ ap (λ t. a ∷ b ∷ c ∷ t) (decode_loop bs h)

-- The decoder gives back every sequence of bytes from its base64 text.
pub base64_to_bytes-bytes_to_base64 :
    (bs : List ℕ) → All IsByte bs → base64_to_bytes (bytes_to_base64 bs) ≡ bs
unfolding base64_to_bytes bytes_to_base64
base64_to_bytes-bytes_to_base64 bs h = decode_loop bs h
