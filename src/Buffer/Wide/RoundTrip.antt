-- ===== src/Buffer/Wide/RoundTrip.antt =====
-- The round trips of the variable-length methods.
use zane.Base.{
  ℕ, ◌+◌, ◌*◌, ◌%◌, ◌^◌, ◌≤◌, ◌<◌, ◌≡◌, refl, List, [], ◌∷◌, ◌++◌, length, length-append, arith,
}
use zane.Base.Int.{ℤ, pos, to_unsigned, to_signed}
use zane.Buffer.{Value, num, Outcome, ok, check_offset}
use zane.Buffer.Window.{check_offset_fits}
use zane.Buffer.Fixed.{Written}
use zane.Buffer.Fixed.RoundTrip.{Kept, window-Kept}
use zane.Buffer.Wide.{
  load_up, load_down, store_up, store_down, down_rounds, read_int_be, read_int_le, read_uint_be,
  read_uint_le, write_int_be, write_int_le, write_uint_be, write_uint_le,
}
use zane.Buffer.Wide.Digits.{
  be_bytes, le_bytes, length-be_bytes, length-le_bytes, up_value, down_value, up_value-be_bytes,
  down_value-le_bytes,
}
use zane.Buffer.Wide.Load.{load_up-window, load_down-window, store_up-window, store_down-window}
use zane.Buffer.Wide.Sign.{sign_extend_lem, to_unsigned-lt}

-- What holds of every access to a window of n bytes at `length pre`, n at most 8.
module _ (pre bs post : List ℕ) (n : ℕ) (few : n ≤ 8) (size : length bs ≡ n)
    (small : length (pre ++ (bs ++ post)) < 2 ^ 64) where
  room : length pre + n < 2 ^ 64
  room = omega (arith, length-append pre (bs ++ post), length-append bs post)

  -- The casts to size_t keep the arguments, the check passes, and the loop has n rounds.
  pub window_access :
      (length pre % 2 ^ 64 ≡ length pre)
      × (n % 2 ^ 64 ≡ n)
      × (check_offset (length pre) n (length (pre ++ (bs ++ post))) ≡ ok tt)
      × (down_rounds n ≡ ok n)
  unfolding down_rounds
  window_access = (
    omega (arith, room),
    omega arith,
    check_offset_fits (length pre) n _
        (omega (arith, length-append pre (bs ++ post), length-append bs post)) small,
    ground arith,
  )

  pub window_load_up : load_up n (pre ++ (bs ++ post)) (length pre) 0 0 ≡ ok (up_value 0 bs)
  window_load_up = rw (← size) (load_up-window pre [] bs post 0 0 refl (omega (arith, room)))

  pub window_load_down : load_down n (pre ++ (bs ++ post)) (length pre) 0 ≡ ok (down_value bs 0)
  window_load_down = load_down-window n pre bs post 0 size room

  pub window_store_up :
      (v : ℤ)
      → store_up n (pre ++ (bs ++ post)) (length pre) 0 v ≡ ok (pre ++ (le_bytes n v ++ post))
  window_store_up v = rw (← size) (store_up-window pre [] bs post 0 v refl (omega (arith, room)))

  pub window_store_down :
      (v : ℤ)
      → store_down n (pre ++ (bs ++ post)) (length pre) v ≡ ok (pre ++ (be_bytes n v ++ post))
  window_store_down v = store_down-window n pre bs post v size room

-- The two calls of a round trip through the n bytes at `off`.
abbrev pub VarRoundTrip {ℓ} :
    {A : Type ℓ}
    → List ℕ
    → ℕ
    → ℕ
    → ℤ
    → (List ℕ → List Value → Outcome Written)
    → (List ℕ → List Value → Outcome A)
    → A
    → Type ℓ
VarRoundTrip data' off n v write read a =
    Kept n (λ d. write d (num v ∷ num (pos off) ∷ num (pos n) ∷ []))
      (λ d. read d (num (pos off) ∷ num (pos n) ∷ [])) data' off a

module _ (coerce : Value → ℤ) (data' : List ℕ) (off n : ℕ) (some_byte : 1 ≤ n) (few : n ≤ 8)
    (fits : off + n ≤ length data') (h : length data' < 2 ^ 53) where
  -- Writing a number as n bytes and reading it in the same byte order gives the number modulo
  -- 2 ^ (8 * n) in two's complement, for n from 1 to 8 bytes inside a view of less than 2 ^ 53
  -- bytes; the write returns the next offset and changes no other byte.
  pub int-VarRoundTrip :
      (v : ℤ)
      → VarRoundTrip data' off n v
          (write_int_be coerce)
          (read_int_be coerce)
          (to_signed (8 * n) (to_unsigned (8 * n) v))
        × VarRoundTrip data' off n v
            (write_int_le coerce)
            (read_int_le coerce)
            (to_signed (8 * n) (to_unsigned (8 * n) v))
  unfolding write_int_be write_int_le read_int_be read_int_le
  int-VarRoundTrip v =
      let signed =
        sign_extend_lem n (to_unsigned (8 * n) v) some_byte few (to_unsigned-lt (8 * n) v) in
      (
        window-Kept n (λ o d. write_int_be coerce d (num v ∷ num (pos o) ∷ num (pos n) ∷ []))
            (λ o d. read_int_be coerce d (num (pos o) ∷ num (pos n) ∷ [])) (be_bytes n v) _
            (length-be_bytes n v)
            (λ pre bs post e s.
              let w = window_access pre bs post n few e s in
              rw (w.0, w.1, w.2, w.3, window_store_down pre bs post n few e s v))
            (λ pre post s.
              let e = length-be_bytes n v in
              let w = window_access pre (be_bytes n v) post n few e s in
              rw
                (
                  w.0,
                  w.1,
                  w.2,
                  window_load_up pre (be_bytes n v) post n few e s,
                  up_value-be_bytes n v few,
                )
                signed)
            data' off fits h,
        window-Kept n (λ o d. write_int_le coerce d (num v ∷ num (pos o) ∷ num (pos n) ∷ []))
            (λ o d. read_int_le coerce d (num (pos o) ∷ num (pos n) ∷ [])) (le_bytes n v) _
            (length-le_bytes n v)
            (λ pre bs post e s.
              let w = window_access pre bs post n few e s in
              rw (w.0, w.1, w.2, window_store_up pre bs post n few e s v))
            (λ pre post s.
              let e = length-le_bytes n v in
              let w = window_access pre (le_bytes n v) post n few e s in
              rw
                (
                  w.0,
                  w.1,
                  w.2,
                  w.3,
                  window_load_down pre (le_bytes n v) post n few e s,
                  down_value-le_bytes n v few,
                )
                signed)
            data' off fits h,
      )

  -- Writing a number that is not negative as n bytes and reading it with the unsigned method of the
  -- same byte order gives the number modulo 2 ^ (8 * n), for n from 1 to 8 bytes inside a view of
  -- less than 2 ^ 53 bytes; the write returns the next offset and changes no other byte.
  pub uint-VarRoundTrip :
      (m : ℕ)
      → VarRoundTrip data' off n
          (pos m)
          (write_uint_be coerce)
          (read_uint_be coerce)
          (m % 2 ^ (8 * n))
        × VarRoundTrip data' off n
            (pos m)
            (write_uint_le coerce)
            (read_uint_le coerce)
            (m % 2 ^ (8 * n))
  unfolding write_uint_be write_uint_le read_uint_be read_uint_le
  uint-VarRoundTrip m =
      let v = pos m in
      (
        window-Kept n (λ o d. write_uint_be coerce d (num v ∷ num (pos o) ∷ num (pos n) ∷ []))
            (λ o d. read_uint_be coerce d (num (pos o) ∷ num (pos n) ∷ [])) (be_bytes n v) _
            (length-be_bytes n v)
            (λ pre bs post e s.
              let w = window_access pre bs post n few e s in
              rw (w.0, w.1, w.2, w.3, window_store_down pre bs post n few e s v))
            (λ pre post s.
              let e = length-be_bytes n v in
              let w = window_access pre (be_bytes n v) post n few e s in
              rw (
                w.0,
                w.1,
                w.2,
                window_load_up pre (be_bytes n v) post n few e s,
                up_value-be_bytes n v few,
              ))
            data' off fits h,
        window-Kept n (λ o d. write_uint_le coerce d (num v ∷ num (pos o) ∷ num (pos n) ∷ []))
            (λ o d. read_uint_le coerce d (num (pos o) ∷ num (pos n) ∷ [])) (le_bytes n v) _
            (length-le_bytes n v)
            (λ pre bs post e s.
              let w = window_access pre bs post n few e s in
              rw (w.0, w.1, w.2, window_store_up pre bs post n few e s v))
            (λ pre post s.
              let e = length-le_bytes n v in
              let w = window_access pre (le_bytes n v) post n few e s in
              rw (
                w.0,
                w.1,
                w.2,
                w.3,
                window_load_down pre (le_bytes n v) post n few e s,
                down_value-le_bytes n v few,
              ))
            data' off fits h,
      )
