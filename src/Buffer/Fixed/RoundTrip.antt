-- ===== src/Buffer/Fixed/RoundTrip.antt =====
-- What a write of a fixed width stores is what the read of that width gives back.
use zane.Base.{
  ℕ, ◌+◌, ◌%◌, ◌^◌, ◌≤◌, ◌<◌, ◌≡◌, sym, ◌∙◌, List, [], ◌∷◌, ◌++◌, length, take, drop, length-append,
  arith,
}
use zane.Base.Int.{ℤ, pos}
use mathlib.Core.List.{append_assoc}
use zane.Buffer.{Value, num, Outcome, ok}
use zane.Buffer.Window.{split_at, take-append, drop-append, check_offset_fits}
use zane.Buffer.Fixed.{Written, next_offset, with_write_offset}

-- `d` is the view `data'` with n bytes at `off` changed at most.
abbrev pub SameOutside : ℕ → List ℕ → ℕ → List ℕ → Type 0
SameOutside n data' off d =
    (length d ≡ length data')
    × (take off d ≡ take off data')
    × (drop (off + n) d ≡ drop (off + n) data')

-- A write of n bytes at `off` succeeds and returns the next offset, a read of what it leaves gives
-- `a`, and every byte outside the n written ones is as before.
abbrev pub Kept {ℓ} :
    {A : Type ℓ} → ℕ → (List ℕ → Outcome Written) → (List ℕ → Outcome A) → List ℕ → ℕ → A → Type ℓ
Kept n write read data' off a =
    (d : List ℕ) × (write data' ≡ ok (d, next_offset off n))
    × (read d ≡ ok a)
    × SameOutside n data' off d

-- The same of a method that takes the number and the offset, and one that takes the offset.
abbrev pub RoundTrip {ℓ} :
    {A : Type ℓ}
    → ℕ
    → (List ℕ → List Value → Outcome Written)
    → (List ℕ → List Value → Outcome A)
    → List ℕ
    → ℕ
    → ℤ
    → A
    → Type ℓ
RoundTrip n write read data' off v a =
    Kept n (λ d. write d (num v ∷ num (pos off) ∷ [])) (λ d. read d (num (pos off) ∷ [])) data' off
      a

-- A write that puts `enc` in place of the n bytes at the offset, and a read that finds `a` there.
module _ {ℓ} {A : Type ℓ} (n : ℕ) (write : ℕ → List ℕ → Outcome Written)
    (read : ℕ → List ℕ → Outcome A) (enc : List ℕ) (a : A) (size : length enc ≡ n)
    (writes : (pre bs post : List ℕ)
      → length bs ≡ n
      → length (pre ++ (bs ++ post)) < 2 ^ 64
      → write (length pre) (pre ++ (bs ++ post))
        ≡ ok (pre ++ (enc ++ post), next_offset (length pre) n))
    (reads : (pre post : List ℕ)
      → length (pre ++ (enc ++ post)) < 2 ^ 64
      → read (length pre) (pre ++ (enc ++ post)) ≡ ok a) where
  split-Kept :
      (pre bs post : List ℕ)
      → length bs ≡ n
      → length (pre ++ (bs ++ post)) < 2 ^ 64
      → Kept n (write (length pre)) (read (length pre)) (pre ++ (bs ++ post)) (length pre) a
  split-Kept pre bs post e h = (
    pre ++ (enc ++ post),
    writes pre bs post e h,
    reads pre post (rw lengths h),
    (
      lengths,
      take-append pre (enc ++ post) ∙ sym (take-append pre (bs ++ post)),
      after enc size ∙ sym (after bs e),
    ),
  )
    where
      lengths : length (pre ++ (enc ++ post)) ≡ length (pre ++ (bs ++ post))
      lengths = omega (
        arith,
        length-append pre (enc ++ post),
        length-append pre (bs ++ post),
        length-append enc post,
        length-append bs post,
      )

      after : (mid : List ℕ) → length mid ≡ n → drop (length pre + n) (pre ++ (mid ++ post)) ≡ post
      after mid m =
          rw (← append_assoc pre mid post, ← m, ← length-append pre mid)
            (drop-append (pre ++ mid) post)

  pub window-Kept :
      (data' : List ℕ) (off : ℕ)
      → off + n ≤ length data'
      → length data' < 2 ^ 53
      → Kept n (write off) (read off) data' off a
  window-Kept data' off fits h =
      let (pre, bs, post, e, l, m) = split_at data' off n fits in
      rw (e, ← l) (split-Kept pre bs post m (rw e at (weaken data' h)))
    where
      weaken : (xs : List ℕ) → length xs < 2 ^ 53 → length xs < 2 ^ 64
      weaken xs k = omega arith

-- The methods of a fixed width.
module _ {ℓ} {A : Type ℓ} (n : ℕ) (store : List ℕ → ℕ → ℕ → Outcome Written) (convert : Value → ℕ)
    (read : List ℕ → List Value → Outcome A) (v : ℤ) (enc : List ℕ) (a : A) (size : length enc ≡ n)
    (stores : (pre bs post : List ℕ)
      → length bs ≡ n
      → length pre + n < 2 ^ 64
      → store (pre ++ (bs ++ post)) (length pre) (convert (num v))
        ≡ ok (pre ++ (enc ++ post), next_offset (length pre) n))
    (reads : (pre post : List ℕ)
      → length (pre ++ (enc ++ post)) < 2 ^ 64
      → read (pre ++ (enc ++ post)) (num (pos (length pre)) ∷ []) ≡ ok a) where
  writes_at :
      (pre bs post : List ℕ)
      → length bs ≡ n
      → length (pre ++ (bs ++ post)) < 2 ^ 64
      → with_write_offset n store convert
          (pre ++ (bs ++ post))
          (num v ∷ num (pos (length pre)) ∷ [])
        ≡ ok (pre ++ (enc ++ post), next_offset (length pre) n)
  unfolding with_write_offset
  writes_at pre bs post e h =
      let total = length-append pre (bs ++ post) in
      let inner = length-append bs post in
      let same : length pre % 2 ^ 64 ≡ length pre = omega (arith, total) in
      rw
        (
          same,
          check_offset_fits (length pre) n (length (pre ++ (bs ++ post)))
              (omega (arith, total, inner)) h,
        )
        (stores pre bs post e (omega (arith, total, inner)))

  pub window-RoundTrip :
      (data' : List ℕ) (off : ℕ)
      → off + n ≤ length data'
      → length data' < 2 ^ 53
      → RoundTrip n (with_write_offset n store convert) read data' off v a
  window-RoundTrip =
      window-Kept n (λ off d. with_write_offset n store convert d (num v ∷ num (pos off) ∷ []))
        (λ off d. read d (num (pos off) ∷ [])) enc a size writes_at reads
