-- ===== src/Buffer/Fixed/Widths.antt =====
-- The round trips of the numeric methods of 8, 16 and 32 bits.
use zane.Base.{
  ℕ, ◌+◌, ◌%◌, ◌^◌, ◌≤◌, ◌<◌, ◌≡◌, refl, ap, ◌∙◌, List, [], ◌∷◌, ◌++◌, length, length-append, arith,
}
use zane.Base.Int.{ℤ, pos, negsuc, to_unsigned, to_signed}
use zane.Buffer.{Value, num, Outcome, ok, ◌>>=◌, put, get_offset, check_offset}
use zane.Buffer.Window.{at-window, put-window, check_offset_fits}
use zane.Buffer.Fixed.{
  with_write_offset, Written, next_offset, byte_of, join16, uint32_value, put8, put16_be, put16_le,
  read_uint8, read_int8, read_uint16_be, read_uint16_le, read_int16_be, read_int16_le, write_uint8,
  write_int8, write_uint16_be, write_uint16_le, write_int16_be, write_int16_le,
}
use zane.Buffer.Fixed.Bytes.{join16-byte_of}
use zane.Buffer.Fixed.RoundTrip.{RoundTrip, window-RoundTrip}

put8-window :
    (v : ℕ) (pre bs post : List ℕ)
    → length bs ≡ 1
    → length pre + 1 < 2 ^ 64
    → put8 (pre ++ (bs ++ post)) (length pre) v
      ≡ ok (pre ++ (byte_of v 0 ∷ post), next_offset (length pre) 1)
unfolding put8
put8-window v pre (a ∷ []) post e h =
    rw (put-window pre [] a post (length pre) 0 refl refl (omega arith) (byte_of v 0))
put8-window v pre [] post e h = absurd (omega arith)
put8-window v pre (a ∷ b ∷ bs) post e h = absurd (omega arith)

pair_of : (bs : List ℕ) → length bs ≡ 2 → (a : ℕ) × (b : ℕ) × (bs ≡ a ∷ b ∷ [])
pair_of (a ∷ b ∷ []) e = (a, b, refl)
pair_of [] e = absurd (omega arith)
pair_of (a ∷ []) e = absurd (omega arith)
pair_of (a ∷ b ∷ c ∷ bs) e = absurd (omega arith)

abbrev stored : List ℕ → ℕ → ℕ → Outcome Written
stored d off n = ok (d, next_offset off n)

-- Two and four assignments to the bytes of a window.
module _ (pre post : List ℕ) where
  put_two :
      (bs : List ℕ) (x y : ℕ)
      → length bs ≡ 2
      → length pre + 2 < 2 ^ 64
      → (do
        d ← put (pre ++ (bs ++ post)) (length pre) 0 x
        e ← put d (length pre) 1 y
        stored e (length pre) 2)
        ≡ stored (pre ++ (x ∷ y ∷ post)) (length pre) 2
  put_two bs x y e h =
      let (a, b, p) = pair_of bs e in
      rw (
        p,
        put-window pre [] a (b ∷ post) (length pre) 0 refl refl (omega arith) x,
        put-window pre (x ∷ []) b post (length pre) 1 refl refl (omega arith) y,
      )

-- What an access of n bytes at the start of `bs` needs: the offset as given, and its check passed.
offset_checked :
    (n : ℕ) (pre bs post : List ℕ)
    → length bs ≡ n
    → length (pre ++ (bs ++ post)) < 2 ^ 64
    → (get_offset (num (pos (length pre)) ∷ []) ≡ length pre)
      × (check_offset (length pre) n (length (pre ++ (bs ++ post))) ≡ ok tt)
      × (length pre + n ≤ length (pre ++ (bs ++ post)))
unfolding get_offset
offset_checked n pre bs post e h =
    let total = length-append pre (bs ++ post) in
    let inner = length-append bs post in
    (
      omega (arith, total),
      check_offset_fits (length pre) n _ (omega (arith, total, inner)) h,
      omega (arith, total, inner),
    )

module _ (pre : List ℕ) (x : ℕ) (post : List ℕ) (small : length (pre ++ (x ∷ post)) < 2 ^ 64) where
  read_one :
      (read_uint8 (pre ++ (x ∷ post)) (num (pos (length pre)) ∷ []) ≡ ok x)
      × (read_int8 (pre ++ (x ∷ post)) (num (pos (length pre)) ∷ []) ≡ ok (to_signed 8 x))
  unfolding read_uint8 read_int8
  read_one =
      let (o, c, f) = offset_checked 1 pre (x ∷ []) post refl small in
      let w = at-window pre [] x post (length pre) 0 refl refl (omega arith) in
      (rw (o, c, w), rw (o, c, w))

module _ (pre : List ℕ) (x y : ℕ) (post : List ℕ)
    (small : length (pre ++ (x ∷ y ∷ post)) < 2 ^ 64) where
  read_two :
      (read_uint16_be (pre ++ (x ∷ y ∷ post)) (num (pos (length pre)) ∷ []) ≡ ok (join16 x y))
      × (read_uint16_le (pre ++ (x ∷ y ∷ post)) (num (pos (length pre)) ∷ []) ≡ ok (join16 y x))
      × (read_int16_be (pre ++ (x ∷ y ∷ post)) (num (pos (length pre)) ∷ [])
          ≡ ok (to_signed 16 (join16 x y % 2 ^ 16)))
      × (read_int16_le (pre ++ (x ∷ y ∷ post)) (num (pos (length pre)) ∷ [])
          ≡ ok (to_signed 16 (join16 y x % 2 ^ 16)))
  unfolding read_uint16_be read_uint16_le read_int16_be read_int16_le
  read_two =
      let (o, c, f) = offset_checked 2 pre (x ∷ y ∷ []) post refl small in
      let v = at-window pre [] x (y ∷ post) (length pre) 0 refl refl (omega arith) in
      let w = at-window pre (x ∷ []) y post (length pre) 1 refl refl (omega arith) in
      (rw (o, c, v, w), rw (o, c, w, v), rw (o, c, v, w), rw (o, c, w, v))

narrow8 : (v : ℤ) → to_unsigned 32 v % 256 ≡ to_unsigned 8 v
narrow8 (pos n) = omega arith
narrow8 (negsuc n) = omega arith

narrow16 : (v : ℤ) → to_unsigned 32 v % 2 ^ 16 ≡ to_unsigned 16 v
narrow16 (pos n) = omega arith
narrow16 (negsuc n) = omega arith

-- `read` finds `a` where the bytes `enc` stand at the offset.
abbrev Reads {ℓ} : {A : Type ℓ} → (List ℕ → List Value → Outcome A) → List ℕ → A → Type ℓ
Reads read enc a =
    (pre post : List ℕ)
    → length (pre ++ (enc ++ post)) < 2 ^ 64
    → read (pre ++ (enc ++ post)) (num (pos (length pre)) ∷ []) ≡ ok a

module _ (coerce : Value → ℤ) (data' : List ℕ) (off : ℕ) (v : ℤ) (h : length data' < 2 ^ 53) where
  abbrev pattern_of : ℕ
  pattern_of = to_unsigned 32 v

  abbrev byte_at : ℕ → ℕ
  byte_at k = byte_of (to_unsigned 32 v) k

  module _ {ℓ} {A : Type ℓ} (read : List ℕ → List Value → Outcome A) (a : A) where
    big16 :
        off + 2 ≤ length data'
        → Reads read (byte_at 8 ∷ byte_at 0 ∷ []) a
        → RoundTrip 2 (with_write_offset 2 put16_be (uint32_value coerce)) read data' off v a
    unfolding put16_be
    big16 fits reads =
        window-RoundTrip 2 put16_be (uint32_value coerce) read v (byte_at 8 ∷ byte_at 0 ∷ []) a refl
          (λ pre bs post. put_two pre post bs (byte_at 8) (byte_at 0)) reads data' off fits h

    little16 :
        off + 2 ≤ length data'
        → Reads read (byte_at 0 ∷ byte_at 8 ∷ []) a
        → RoundTrip 2 (with_write_offset 2 put16_le (uint32_value coerce)) read data' off v a
    unfolding put16_le
    little16 fits reads =
        window-RoundTrip 2 put16_le (uint32_value coerce) read v (byte_at 0 ∷ byte_at 8 ∷ []) a refl
          (λ pre bs post. put_two pre post bs (byte_at 0) (byte_at 8)) reads data' off fits h

module _ (coerce : Value → ℤ) (data' : List ℕ) (off : ℕ) (v : ℤ) where
  -- Writing a number as one byte and reading it at the same offset gives the number modulo 2 ^ 8,
  -- unsigned by readUInt8 and in two's complement by readInt8, where the byte lies inside the view
  -- of less than 2 ^ 53 bytes; the write returns the next offset and changes no other byte.
  pub uint8-RoundTrip :
      off + 1 ≤ length data'
      → length data' < 2 ^ 53
      → RoundTrip 1 (write_uint8 coerce) read_uint8 data' off v (to_unsigned 8 v)
        × RoundTrip 1 (write_int8 coerce) read_int8 data' off v (to_signed 8 (to_unsigned 8 v))
  unfolding write_uint8 write_int8
  uint8-RoundTrip fits h =
      let w : ℕ = to_unsigned 32 v in
      let e : byte_of w 0 ≡ to_unsigned 8 v = omega (arith, narrow8 v) in
      (
        window-RoundTrip 1 put8 (uint32_value coerce) read_uint8 v (byte_of w 0 ∷ [])
            (to_unsigned 8 v) refl (put8-window w)
            (λ pre post k. (read_one pre (byte_of w 0) post k).0 ∙ ap ok e) data' off fits h,
        window-RoundTrip 1 put8 (uint32_value coerce) read_int8 v (byte_of w 0 ∷ [])
            (to_signed 8 (to_unsigned 8 v)) refl (put8-window w)
            (λ pre post k.
              (read_one pre (byte_of w 0) post k).1 ∙ ap (λ (t : ℕ). ok (to_signed 8 t)) e)
            data' off fits h,
      )

  -- Writing a number as two bytes and reading it at the same offset in the same byte order gives
  -- the number modulo 2 ^ 16, unsigned or in two's complement, where the bytes lie inside the view
  -- of less than 2 ^ 53 bytes; the write returns the next offset and changes no other byte.
  pub uint16-RoundTrip :
      off + 2 ≤ length data'
      → length data' < 2 ^ 53
      → RoundTrip 2 (write_uint16_be coerce) read_uint16_be data' off v (to_unsigned 16 v)
        × RoundTrip 2 (write_uint16_le coerce) read_uint16_le data' off v (to_unsigned 16 v)
        × RoundTrip 2
            (write_int16_be coerce)
            read_int16_be
            data'
            off
            v
            (to_signed 16 (to_unsigned 16 v))
        × RoundTrip 2
            (write_int16_le coerce)
            read_int16_le
            data'
            off
            v
            (to_signed 16 (to_unsigned 16 v))
  unfolding write_uint16_be write_uint16_le write_int16_be write_int16_le
  uint16-RoundTrip fits h =
      let x : ℕ = byte_of (to_unsigned 32 v) 8 in
      let y : ℕ = byte_of (to_unsigned 32 v) 0 in
      let e : join16 x y ≡ to_unsigned 16 v = join16-byte_of _ ∙ narrow16 v in
      let c : join16 x y % 2 ^ 16 ≡ to_unsigned 16 v = omega (arith, e, narrow16 v) in
      let g = λ (t : ℕ). ok (to_signed 16 t) in
      (
        big16 coerce data' off v h read_uint16_be _ fits
            (λ pre post k. (read_two pre x y post k).0 ∙ ap ok e),
        little16 coerce data' off v h read_uint16_le _ fits
            (λ pre post k. (read_two pre y x post k).1 ∙ ap ok e),
        big16 coerce data' off v h read_int16_be _ fits
            (λ pre post k. (read_two pre x y post k).2 ∙ ap g c),
        little16 coerce data' off v h read_int16_le _ fits
            (λ pre post k. (read_two pre y x post k).3 ∙ ap g c),
      )
