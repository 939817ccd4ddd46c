-- ===== src/Buffer/Convert/Write.antt =====
-- `write` stays inside the view.
use zane.Base.{
  ℕ, ◌+◌, ◌-◌, ◌≤◌, ◌≡◌, refl, ◌⊎◌, inl, inr, true, false, Bool, subst, List, ◌∷◌, ◌++◌, length,
  take, drop, length-append, length-take, length-drop, leb, leb→le, if◌then◌else◌, arith,
}
use zane.Buffer.{Value, str, size_arg}
use zane.Buffer.Window.{take-append, drop-append}
use zane.Buffer.Fixed.RoundTrip.{SameOutside}
use zane.Buffer.Convert.{splice, encoded, write, write_encoding, max_write, is_hex, is_base64_name}
use mathlib.Core.List.{append_assoc}
use native.Mathlib.Nat.{le_trans}

either_fits :
    (b : Bool) (xs ys : List ℕ) (room : ℕ)
    → length xs ≤ room
    → length ys ≤ room
    → length (if b then xs else ys) ≤ room
either_fits true xs ys room h k = h
either_fits false xs ys room h k = k

take_fits : (n room : ℕ) (xs : List ℕ) → n ≤ room → length (take n xs) ≤ room
take_fits n room xs h = omega (arith, length-take n xs)

encoded_fits : (s e : List ℕ) (room : ℕ) → length (encoded s e room) ≤ room
unfolding encoded
encoded_fits s e room = either_fits (is_hex e) _ _ room (take_fits _ room _ (omega arith)) (
    either_fits (is_base64_name e) _ _ room (take_fits room room _ (omega arith))
      (take_fits room room s (omega arith)))

-- Bytes written over part of a view.
module _ (data' bs : List ℕ) (off : ℕ) (fits : off + length bs ≤ length data') where
  front : length (take off data') ≡ off
  front = omega (arith, length-take off data')

  pub splice-SameOutside : SameOutside (length bs) data' off (splice data' off bs)
  splice-SameOutside = (
    omega (
      arith,
      front,
      length-append (take off data') (bs ++ drop (off + length bs) data'),
      length-append bs (drop (off + length bs) data'),
      length-drop (off + length bs) data',
    ),
    subst (λ n. take n (splice data' off bs) ≡ take off data') front
        (take-append (take off data') (bs ++ drop (off + length bs) data')),
    subst (λ n. drop n (splice data' off bs) ≡ drop (off + length bs) data') both
        (rw (← append_assoc (take off data') bs (drop (off + length bs) data'))
          (drop-append (take off data' ++ bs) (drop (off + length bs) data'))),
  )
    where
      both : length (take off data' ++ bs) ≡ off + length bs
      both = omega (arith, front, length-append (take off data') bs)

  pub splice_window : take (length bs) (drop off (splice data' off bs)) ≡ bs
  splice_window =
      subst (λ n. take (length bs) (drop n (splice data' off bs)) ≡ bs) front
        (rw (drop-append (take off data') (bs ++ drop (off + length bs) data'))
          (take-append bs (drop (off + length bs) data')))

pub unchanged : (data' : List ℕ) (off : ℕ) → SameOutside 0 data' off data'
unchanged data' off = (refl, refl, refl)

-- The result (d, n) of a write of `bs` at `off`: the first n bytes from there on are `bs`, and no
-- other byte of the view has changed; past the end nothing is written.
abbrev pub Wrote : List ℕ → ℕ → List ℕ → List ℕ × ℕ → Type 0
Wrote data' off bs r =
    SameOutside r.1 data' off r.0
    × ((length data' ≤ off) × (r.1 ≡ 0)
        ⊎ (off + r.1 ≤ length data') × (take r.1 (drop off r.0) ≡ bs))

guarded :
    (data' bs : List ℕ) (off : ℕ) (b : Bool)
    → leb (length data') off ≡ b
    → length bs ≤ length data' - off
    → Wrote data' off bs (if b then (data', 0) else (splice data' off bs, length bs))
guarded data' bs off true e h = (unchanged data' off, inl (leb→le _ _ e, refl))
guarded data' bs off false e h =
    let room : off + length bs ≤ length data' = ground arith in
    (splice-SameOutside data' bs off room, inr (room, splice_window data' bs off room))

-- Whatever the text, the offset, the length and the encoding, `write` changes at most the bytes from
-- the offset on that it counts, which lie inside the view; those bytes are the encoded text, cut to
-- the room. With an offset at or past the end it changes nothing and returns 0.
pub write-Wrote :
    (data' s : List ℕ) (rest : List Value)
    → let args = str s ∷ rest in
      let off = size_arg args 1 0 in
      Wrote data' off
        (encoded s (write_encoding args) (max_write data' args off))
        (write data' args)
unfolding write
write-Wrote data' s rest =
    let args = str s ∷ rest in
    let off = size_arg args 1 0 in
    let bs = encoded s (write_encoding args) (max_write data' args off) in
    guarded data' bs off _ refl
      (le_trans (encoded_fits s (write_encoding args) (max_write data' args off)) (omega arith))
