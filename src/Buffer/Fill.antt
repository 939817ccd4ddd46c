-- ===== src/Buffer/Fill.antt =====
-- src/module/node/buffer/buffer.cpp: alloc and fill.
pub mod Periodic
mod Shared
mod Runs
use zane.Base.{
  ℕ, zero, suc, ◌+◌, ◌-◌, ◌%◌, ◌^◌, min, true, false, Bool, ◌&&◌, drop, Option, some, none, List,
  [], ◌∷◌, ◌++◌, length, get_elem?, take, replicate, ltb, leb, ◌==◌, if◌then◌else◌,
}
use zane.Base.Int.{to_unsigned}
use zane.Buffer.{Value, num, str, bytes, object, Outcome, ok, undef, throws, type_error, size_arg}
use zane.Buffer.Convert.{splice}

-- The loop `for (i = 0; i < n; ) { to_copy = min(src_len, n - i); ... }`, by rounds: each copies a
-- byte at least where the source has one, so n rounds are enough.
unfoldable pub copy_rounds : ℕ → List ℕ → ℕ → List ℕ
copy_rounds zero src n = []
copy_rounds (suc k) src n =
    let rest = copy_rounds k src (n - min (length src) n) in
    if n == 0 then [] else take (min (length src) n) src ++ rest

unfoldable pub repeated : List ℕ → ℕ → List ℕ
unfolding copy_rounds
repeated [] n = replicate n 0
repeated (x ∷ src) n = copy_rounds n (x ∷ src) n

-- The bytes that a value fills n places with, where it is a number, a text or a Uint8Array.
unfoldable pub filled : Value → ℕ → Option (List ℕ)
unfolding repeated
filled (num z) n = some (replicate n (to_unsigned 32 z % 256))
filled (str s) n = some (repeated s n)
filled (bytes src) n = some (repeated src n)
filled v n = none

abbrev or_zeros : Option (List ℕ) → ℕ → List ℕ
or_zeros none n = replicate n 0
or_zeros (some bs) n = bs

-- A buffer of a number of bytes; the third argument, the encoding, is read and not used.
pub alloc : List Value → Outcome (List ℕ)
unfolding filled
alloc (num n ∷ []) = ok (replicate (to_unsigned 64 n) 0)
alloc (num n ∷ v ∷ rest) =
    let len = to_unsigned 64 n in
    ok (if ltb 0 len then or_zeros (filled v len) len else replicate len 0)
alloc args = throws type_error

pub alloc_unsafe : List Value → Outcome (List ℕ)
unfolding alloc
alloc_unsafe = alloc

pub alloc_unsafe_slow : List Value → Outcome (List ℕ)
unfolding alloc
alloc_unsafe_slow = alloc

abbrev pub fill_offset : List ℕ → List Value → ℕ
fill_offset data' args =
    let o = size_arg args 1 0 in if ltb (length data') o then length data' else o

abbrev pub fill_end : List ℕ → List Value → ℕ
fill_end data' args =
    let e = size_arg args 2 (length data') in
    let e' = if ltb (length data') e then length data' else e in
    if ltb e' (fill_offset data' args) then fill_offset data' args else e'

abbrev pub fill_len : List ℕ → List Value → ℕ
fill_len data' args = fill_end data' args - fill_offset data' args

abbrev fill_window : List ℕ → ℕ → Option (List ℕ) → List ℕ
fill_window data' off none = data'
fill_window data' off (some bs) = splice data' off bs

-- The bytes of the view afterwards, for a source that is no part of the memory of the view. The
-- encoding is read and not used.
pub fill : List ℕ → List Value → List ℕ
unfolding filled
fill data' [] = splice data' (fill_offset data' []) (replicate (fill_len data' []) 0)
fill data' (v ∷ rest) =
    let args = v ∷ rest in
    let off = fill_offset data' args in
    let n = fill_len data' args in
    if n == 0 then splice data' off (replicate n 0) else fill_window data' off (filled v n)

-- Whether m bytes from t on and m bytes from q on have a byte in common.
abbrev pub overlap : ℕ → ℕ → ℕ → Bool
overlap t q m = ltb t (q + m) && ltb q (t + m)

-- The loop on the memory, where the source lies from `q` on in it; memcpy has undefined behaviour on
-- bytes that overlap. The n bytes from `t` on are still to be filled, in n rounds at most.
unfoldable pub shared_rounds : ℕ → List ℕ → ℕ → ℕ → ℕ → ℕ → Outcome (List ℕ)
shared_rounds zero memory t q len n = ok memory
shared_rounds (suc k) memory t q len n =
    let m = min len n in
    let rest = shared_rounds k (splice memory t (take m (drop q memory))) (t + m) q len (n - m) in
    if n == 0 then ok memory else if overlap t q m then undef else rest

-- `fill` of the view of `size` bytes from `start` on with a Uint8Array of `len` bytes that begins at
-- `from` in the same memory: the memory afterwards.
unfoldable pub fill_shared : List ℕ → ℕ → ℕ → ℕ → ℕ → List Value → Outcome (List ℕ)
unfolding shared_rounds
fill_shared memory start size from len rest =
    let self = take size (drop start memory) in
    let t = start + fill_offset self (object ∷ rest) in
    let n = fill_len self (object ∷ rest) in
    if len == 0 then ok (splice memory t (replicate n 0)) else shared_rounds n memory t from len n
