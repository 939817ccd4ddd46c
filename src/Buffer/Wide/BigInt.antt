-- ===== src/Buffer/Wide/BigInt.antt =====
-- The BigInt methods: the round trips that hold, and the byte order of writeBigInt64BE.
use zane.Base.{
  ℕ, zero, suc, ◌+◌, ◌-◌, ◌*◌, ◌%◌, ◌^◌, ◌≤◌, ◌<◌, ◌≡◌, refl, ap, ◌∙◌, List, [], ◌∷◌, ◌++◌, length,
  length-append, arith,
}
use zane.Base.Bits.{shr}
use zane.Base.Int.{ℤ, pos, negsuc, to_unsigned}
use zane.Buffer.{Value, num, bigint, Outcome, ok, ◌>>=◌, get_offset}
use zane.Buffer.Window.{put-window}
use zane.Buffer.Fixed.{Written}
use zane.Buffer.Fixed.RoundTrip.{Kept, window-Kept}
use zane.Buffer.Wide.{
  store_shifts, uint64_value, load_up, load_down, read_big_uint64_be, read_big_uint64_le,
  write_big_uint64_be, write_big_uint64_le,
}
use zane.Buffer.Wide.Digits.{
  be_bytes, le_bytes, length-be_bytes, length-le_bytes, up_value-be_bytes, down_value-le_bytes,
}
use zane.Buffer.Wide.RoundTrip.{window_access, window_load_up, window_load_down, window_store_up}
use mathlib.Core.List.{append_assoc}

-- The bytes that the shifts of writeBigUInt64BE pick.
shift_bytes : ℕ → ℕ → ℕ → List ℕ
shift_bytes zero i val = []
shift_bytes (suc k) i val = (shr val (56 - i * 8) % 256) ∷ shift_bytes k (i + 1) val

store_shifts-window :
    (pre s bs post : List ℕ) (i val : ℕ)
    → length s ≡ i
    → length pre + (i + length bs) < 2 ^ 64
    → store_shifts (length bs) (pre ++ (s ++ (bs ++ post))) (length pre) i val
      ≡ ok (pre ++ (s ++ (shift_bytes (length bs) i val ++ post)))
unfolding store_shifts shift_bytes
store_shifts-window pre s [] post i val e h = refl
store_shifts-window pre s (b ∷ bs) post i val e h =
    let x : ℕ = shr val (56 - i * 8) % 256 in
    rw
      (
        put-window pre s b (bs ++ post) (length pre) i refl e (omega arith) x,
        ← append_assoc s (x ∷ []) (bs ++ post),
        ← append_assoc s (x ∷ []) (shift_bytes (length bs) (i + 1) val ++ post),
      )
      (store_shifts-window pre (s ++ (x ∷ [])) bs post (i + 1) val
        (omega (arith, length-append s (x ∷ []))) (omega arith))

shift_bytes-be_bytes : (val : ℕ) → shift_bytes 8 0 val ≡ be_bytes 8 (pos val)
unfolding shift_bytes be_bytes
shift_bytes-be_bytes val = ground arith

-- The call of a BigInt write and of a read at one offset.
abbrev pub BigRoundTrip {ℓ} :
    {A : Type ℓ}
    → List ℕ
    → ℕ
    → ℤ
    → (List ℕ → List Value → Outcome Written)
    → (List ℕ → List Value → Outcome A)
    → A
    → Type ℓ
BigRoundTrip data' off v write read a =
    Kept 8 (λ d. write d (bigint v ∷ num (pos off) ∷ [])) (λ d. read d (num (pos off) ∷ [])) data'
      off a

-- Casting to 64 bits twice is casting once.
same_uint64 : (v : ℤ) → to_unsigned 64 (pos (uint64_value v)) ≡ to_unsigned 64 v
same_uint64 (pos n) = omega arith
same_uint64 (negsuc n) = omega arith

-- The argument checks and the loops of the BigInt methods on a window of 8 bytes.
module _ (pre bs post : List ℕ) (e : length bs ≡ 8) (s : length (pre ++ (bs ++ post)) < 2 ^ 64)
    (v : ℤ) where
  store_uint64_be :
      store_shifts 8 (pre ++ (bs ++ post)) (length pre) 0 (uint64_value v)
      ≡ ok (pre ++ (be_bytes 8 (pos (uint64_value v)) ++ post))
  store_uint64_be =
      rw (← shift_bytes-be_bytes (uint64_value v), ← e)
        (store_shifts-window pre [] bs post 0 (uint64_value v) refl
          (omega (arith, length-append pre (bs ++ post), length-append bs post)))

-- The read of 8 bytes that encode a number.
module _ (pre post : List ℕ) (i : ℤ) where
  load_be :
      length (pre ++ (be_bytes 8 i ++ post)) < 2 ^ 64
      → load_up 8 (pre ++ (be_bytes 8 i ++ post)) (length pre) 0 0 ≡ ok (to_unsigned 64 i)
  load_be s =
      window_load_up pre (be_bytes 8 i) post 8 (omega arith) (length-be_bytes 8 i) s
      ∙ ap ok (up_value-be_bytes 8 i (omega arith))

  load_le :
      length (pre ++ (le_bytes 8 i ++ post)) < 2 ^ 64
      → load_down 8 (pre ++ (le_bytes 8 i ++ post)) (length pre) 0 ≡ ok (to_unsigned 64 i)
  load_le s =
      window_load_down pre (le_bytes 8 i) post 8 (omega arith) (length-le_bytes 8 i) s
      ∙ ap ok (down_value-le_bytes 8 i (omega arith))

module _ (data' : List ℕ) (off : ℕ) (v : ℤ) where
  -- Writing a BigInt with writeBigUInt64BE or writeBigUInt64LE and reading it in the same byte order
  -- gives it modulo 2 ^ 64, where the 8 bytes lie inside a view of less than 2 ^ 53 bytes; the write
  -- returns the next offset and changes no other byte.
  pub big_uint64-BigRoundTrip :
      off + 8 ≤ length data'
      → length data' < 2 ^ 53
      → BigRoundTrip data' off v write_big_uint64_be read_big_uint64_be (to_unsigned 64 v)
        × BigRoundTrip data' off v write_big_uint64_le read_big_uint64_le (to_unsigned 64 v)
  unfolding write_big_uint64_be write_big_uint64_le read_big_uint64_be read_big_uint64_le get_offset
  big_uint64-BigRoundTrip fits h =
      let i = pos (uint64_value v) in
      (
        window-Kept 8 (λ o d. write_big_uint64_be d (bigint v ∷ num (pos o) ∷ []))
            (λ o d. read_big_uint64_be d (num (pos o) ∷ [])) (be_bytes 8 i) _ (length-be_bytes 8 i)
            (λ pre bs post e s.
              let w = window_access pre bs post 8 (omega arith) e s in
              rw (w.0, w.2, store_uint64_be pre bs post e s v))
            (λ pre post s.
              let w =
                window_access pre (be_bytes 8 i) post 8 (omega arith) (length-be_bytes 8 i) s in
              rw (w.0, w.2) (load_be pre post i s ∙ ap ok (same_uint64 v)))
            data' off fits h,
        window-Kept 8 (λ o d. write_big_uint64_le d (bigint v ∷ num (pos o) ∷ []))
            (λ o d. read_big_uint64_le d (num (pos o) ∷ [])) (le_bytes 8 i) _ (length-le_bytes 8 i)
            (λ pre bs post e s.
              let w = window_access pre bs post 8 (omega arith) e s in
              rw (w.0, w.2, window_store_up pre bs post 8 (omega arith) e s i))
            (λ pre post s.
              let w =
                window_access pre (le_bytes 8 i) post 8 (omega arith) (length-le_bytes 8 i) s in
              rw (w.0, w.2) (load_le pre post i s ∙ ap ok (same_uint64 v)))
            data' off fits h,
      )
