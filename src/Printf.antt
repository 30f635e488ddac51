-- ===== src/Printf.antt =====
-- lib/stdio/printf.c: numbers as text, and the interpreter of formats.
-- A format is the bytes from its pointer to the end of the array it stands in, and `none` is what C
-- leaves undefined: a read beyond that end, an argument that is missing or of another type than the
-- conversion takes, or a write beyond the 256 bytes of a number's buffer. A value of a type of w
-- bits is its bits, a number below 2 ^ w.
pub mod Format
pub mod Number
pub mod Output
mod Tests
use osdev.Prelude.{
  ℕ, zero, suc, ◌+◌, ◌-◌, ◌*◌, ◌/◌, ◌%◌, ◌^◌, Bool, true, false, not, ◌&&◌, ◌||◌, Option, none,
  some, List, [], ◌∷◌, ◌++◌, ◌==◌, ltb, leb, if◌then◌else◌, length, take, replicate,
}

unfoldable pub isdigit : ℕ → Bool
isdigit c = leb 48 c && leb c 57

-- The characters in `digit`: base 17 stands for 16 with small letters, and a base that is none of
-- 8, 16 and 17 has the decimal digits.
abbrev pub table_size : ℕ → ℕ
table_size base = if base == 8 then 8 else if (base == 16) || (base == 17) then 16 else 10

-- `digit[d]`: 0 behind the characters. An index from 32 on, past the array, takes a base above 32;
-- `vformat` passes 8, 10, 16 and 17.
unfoldable pub digit_char : ℕ → ℕ → ℕ
digit_char base d =
    if ltb d (table_size base)
    then (if ltb d 10 then 48 + d else if base == 17 then 87 + d else 55 + d)
    else 0

-- The digits of a magnitude, the last one first written: both loops of `__int_str` run once for
-- each of them.
unfoldable pub digits : ℕ → ℕ → ℕ → List ℕ
digits zero base n = []
digits (suc fuel) base n =
    let rest = digits fuel base (n / base) in
    if n / base == 0 then n % base ∷ [] else rest ++ (n % base ∷ [])

-- The base that the digits are taken to, and that of a value of 64 bits at most 64 digits long.
abbrev pub radix : ℕ → ℕ
radix base = if base == 8 then 8 else if (base == 16) || (base == 17) then 16 else base

abbrev pub max_digits : ℕ
max_digits = 64

unfoldable pub map_digits : ℕ → List ℕ → List ℕ
unfolding digit_char
map_digits base [] = []
map_digits base (d ∷ ds) = digit_char base d ∷ map_digits base ds

-- intmax_t has 64 bits.
abbrev pub is_negative : ℕ → Bool
is_negative value = leb (2 ^ 63) value

unfoldable pub magnitude : ℕ → ℕ
magnitude value = if is_negative value then 2 ^ 64 - value else value

unfoldable pub sign_text : ℕ → Bool → Bool → List ℕ
sign_text value plus space =
    if is_negative value then 45 ∷ [] else if plus then 43 ∷ [] else if space then 32 ∷ [] else []

-- `paddingNo - strlen(b)` as an int, or 0 if it is negative.
unfoldable pub padding : ℕ → ℕ → ℕ
padding width len = let d = (2 ^ 32 + width - len) % 2 ^ 32 in if leb (2 ^ 31) d then 0 else d

-- The padding of the text in the buffer of 256 bytes, which was cleared before.
unfoldable pub pad_text : ℕ → Bool → Bool → List ℕ → Option (List ℕ)
unfolding padding
pad_text width justify zero_pad text =
    let pad = padding width (length text) in
    let filler : ℕ = if zero_pad then 48 else 32 in
    if leb 256 (length text + pad)
    then none
    else some (if justify then text ++ replicate pad filler else replicate pad filler ++ text)

-- What `__int_str` leaves in the buffer.
unfoldable pub int_str : ℕ → ℕ → Bool → Bool → ℕ → Bool → Bool → Option (List ℕ)
int_str value base plus space width justify zero_pad = pad_text width justify zero_pad (
    sign_text value plus space
    ++ map_digits base (digits max_digits (radix base) (magnitude value)))
