-- ===== src/Buffer/Validate.antt =====
-- src/module/node/buffer/buffer.cpp: isAscii and isUtf8.
mod Utf8
mod Only
mod Runs
use zane.Base.{ℕ, ◌≤◌, Bool, true, false, ◌&&◌, List, [], ◌∷◌, leb, ◌==◌, bit_and, if◌then◌else◌}
use zane.Buffer.{Value, bytes}

unfoldable pub ascii_bytes : List ℕ → Bool
ascii_bytes [] = true
ascii_bytes (b ∷ bs) = let rest = ascii_bytes bs in if leb b 127 then rest else false

unfoldable pub is_ascii : List Value → Bool
unfolding ascii_bytes
is_ascii (bytes bs ∷ rest) = ascii_bytes bs
is_ascii args = false

-- The lead bytes of sequences of 2, 3 and 4 bytes, and the bytes that follow one.
abbrev pub lead2 : ℕ → Bool
lead2 b = bit_and b 0xe0 == 0xc0

abbrev pub lead3 : ℕ → Bool
lead3 b = bit_and b 0xf0 == 0xe0

abbrev pub lead4 : ℕ → Bool
lead4 b = bit_and b 0xf8 == 0xf0

abbrev pub follows : ℕ → Bool
follows b = bit_and b 0xc0 == 0x80

-- The loop by sequences; a sequence that the view cuts off is not valid.
unfoldable pub is_valid_utf8 : List ℕ → Bool
is_valid_utf8 [] = true
is_valid_utf8 (a ∷ []) = leb a 0x7f
is_valid_utf8 (a ∷ b ∷ []) =
    let one = leb b 0x7f in if leb a 0x7f then one else if lead2 a then follows b else false
is_valid_utf8 (a ∷ b ∷ c ∷ []) =
    let one = is_valid_utf8 (b ∷ c ∷ []) in
    let two = is_valid_utf8 (c ∷ []) in
    if leb a 0x7f
    then one
    else if lead2 a
    then follows b && two
    else if lead3 a
    then follows b && follows c
    else false
is_valid_utf8 (a ∷ b ∷ c ∷ d ∷ bs) =
    let one = is_valid_utf8 (b ∷ c ∷ d ∷ bs) in
    let two = is_valid_utf8 (c ∷ d ∷ bs) in
    let three = is_valid_utf8 (d ∷ bs) in
    let four = is_valid_utf8 bs in
    if leb a 0x7f
    then one
    else if lead2 a
    then follows b && two
    else if lead3 a
    then follows b && follows c && three
    else if lead4 a
    then follows b && follows c && follows d && four
    else false

unfoldable pub is_utf8 : List Value → Bool
unfolding is_valid_utf8
is_utf8 (bytes bs ∷ rest) = is_valid_utf8 bs
is_utf8 args = false
