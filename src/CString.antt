-- ===== src/CString.antt =====
-- lib/string: C strings and memory blocks. A pointer into an array is the list of the bytes from it
-- to the end of the array; reading past that end is the fault `none`. A byte is a number below 256,
-- and `char` is compared for equality only, except where the source casts to unsigned.
pub mod Text
pub mod Token
pub mod Move
mod Dup
mod Tests
use osdev.Prelude.{
  ℕ, zero, suc, ◌+◌, ◌-◌, ◌%◌, ◌^◌, ◌≤◌, ◌<◌, Bool, true, false, not, ◌&&◌, ◌||◌, Option, none,
  some, List, [], ◌∷◌, ◌++◌, ◌==◌, ltb, if◌then◌else◌, length, take, drop, replicate, get_or, set,
}

unfoldable pub strlen : List ℕ → Option ℕ
strlen [] = none
strlen (c ∷ s) = if c == 0 then some 0 else elim (strlen s) [ none ↦ none | some n ↦ some (suc n) ]

-- `strcmp`: the sign of the difference that it returns, `none` for 0.
pub data Sign : Type 0 where
  less equal greater : Sign

abbrev pub sign_of : ℕ → ℕ → Sign
sign_of a b = if a == b then equal else if ltb a b then less else greater

unfoldable pub strcmp : List ℕ → List ℕ → Option Sign
strcmp [] s2 = none
strcmp (c1 ∷ s1) [] = none
strcmp (c1 ∷ s1) (c2 ∷ s2) =
    let rest = strcmp s1 s2 in
    if c1 == 0 then some (sign_of c1 c2) else if c1 == c2 then rest else some (sign_of c1 c2)

-- The comparison of the first `n` bytes.
unfoldable pub memcmp : ℕ → List ℕ → List ℕ → Option Sign
memcmp zero s1 s2 = some equal
memcmp (suc n) [] s2 = none
memcmp (suc n) (a ∷ s1) [] = none
memcmp (suc n) (a ∷ s1) (b ∷ s2) =
    let rest = memcmp n s1 s2 in
    if ltb a b then some less else if ltb b a then some greater else rest

-- What the `n` bytes of the destination hold after `strncpy`.
unfoldable pub strncpy : ℕ → List ℕ → Option (List ℕ)
strncpy zero s = some []
strncpy (suc n) [] = none
strncpy (suc n) (c ∷ s) =
    if c == 0
    then some (replicate (suc n) 0)
    else elim (strncpy n s) [ none ↦ none | some d ↦ some (c ∷ d) ]

-- The bytes that `strcpy` writes, its terminator included.
unfoldable pub strcpy : List ℕ → Option (List ℕ)
strcpy [] = none
strcpy (c ∷ s) =
    if c == 0 then some (0 ∷ []) else elim (strcpy s) [ none ↦ none | some d ↦ some (c ∷ d) ]

-- What is at `s` after `strcat`: its own bytes up to its terminator, and then those of `append`.
unfoldable pub strcat : List ℕ → List ℕ → Option (List ℕ)
unfolding strcpy
strcat [] append = none
strcat (c ∷ s) append =
    if c == 0 then strcpy append else elim (strcat s append) [ none ↦ none | some d ↦ some (c ∷ d) ]

-- `strchr`: the index of the character, the terminator's if it is 0, or `some none` for NULL.
unfoldable pub strchr : List ℕ → ℕ → Option (Option ℕ)
strchr [] ch = none
strchr (c ∷ s) ch =
    if c == ch then some (some 0) else if c == 0 then some none else elim (strchr s ch) [
      | none ↦ none
      | some none ↦ some none
      | some (some i) ↦ some (some (suc i))
    ]

-- The inner loop of `strspn` and `strcspn`: whether `c` is in the set.
unfoldable pub in_set : ℕ → List ℕ → Option Bool
in_set c [] = none
in_set c (a ∷ set) =
    let rest = in_set c set in if a == 0 then some false else if c == a then some true else rest

-- How many characters at the start of `s` are in the set (`strspn`, with `member` true), or are
-- not in it (`strcspn`, with `member` false).
unfoldable pub span_set : Bool → List ℕ → List ℕ → Option ℕ
unfolding in_set
span_set member [] set = none
span_set member (c ∷ s) set = if c == 0 then some 0 else elim (in_set c set) [
  | none ↦ none
  | some found ↦
      if (if member then found else not found)
      then elim (span_set member s set) [ none ↦ none | some n ↦ some (suc n) ]
      else some 0
]

abbrev pub strspn : List ℕ → List ℕ → Option ℕ
strspn = span_set true

abbrev pub strcspn : List ℕ → List ℕ → Option ℕ
strcspn = span_set false

-- The token of n characters at a start, as it reads after the terminator has been written behind
-- it, and the pointer that is saved.
unfoldable pub cut_token : ℕ → List ℕ → Option (List ℕ) × List ℕ
cut_token n start =
    let after = drop n start in
    (some (take n start ++ (0 ∷ [])), if get_or after 0 0 == 0 then after else drop 1 after)

-- `strtok_r` behind the delimiters at the start.
unfoldable pub token_at : List ℕ → List ℕ → Option (Option (List ℕ) × List ℕ)
token_at start delim =
    if get_or start 0 0 == 0
    then some (none, start)
    else elim (strcspn start delim) [ none ↦ none | some n ↦ some (cut_token n start) ]

-- `strtok_r` from the pointer `s` that it is given or has saved, not NULL: the token, and the
-- pointer that is saved. `some (none, r)`: there is no token left.
unfoldable pub strtok_r : List ℕ → List ℕ → Option (Option (List ℕ) × List ℕ)
strtok_r s delim = elim (strspn s delim) [ none ↦ none | some skip ↦ token_at (drop skip s) delim ]

-- Memory as a map from addresses to bytes, for copies that may overlap.
abbrev pub Bytes : Type 0
Bytes = ℕ → ℕ

unfoldable pub poke : Bytes → ℕ → ℕ → Bytes
poke mem at v a = if a == at then v else mem a

-- `for (i = from; i < from + n; i++) dst[i] = src[i];`
unfoldable pub copy_up : ℕ → Bytes → ℕ → ℕ → Bytes
unfolding poke
copy_up zero mem dst src = mem
copy_up (suc n) mem dst src = copy_up n (poke mem dst (mem src)) (dst + 1) (src + 1)

-- `for (i = n; i != 0; i--) dst[i - 1] = src[i - 1];`
unfoldable pub copy_down : ℕ → Bytes → ℕ → ℕ → Bytes
unfolding poke
copy_down zero mem dst src = mem
copy_down (suc n) mem dst src = copy_down n (poke mem (dst + n) (mem (src + n))) dst src

unfoldable pub memcpy : Bytes → ℕ → ℕ → ℕ → Bytes
unfolding copy_up
memcpy mem dst src n = copy_up n mem dst src

unfoldable pub memmove : Bytes → ℕ → ℕ → ℕ → Bytes
unfolding copy_up copy_down
memmove mem dst src n = if ltb dst src then copy_up n mem dst src else copy_down n mem dst src

unfoldable pub memset : ℕ → Bytes → ℕ → ℕ → Bytes
unfolding poke
memset zero mem buf val = mem
memset (suc n) mem buf val = memset n (poke mem buf (val % 256)) (buf + 1) val

-- The loop of `strnlen` on fuel: it counts `n`, and not the `sn` that it tests, which stays 0.
unfoldable pub strnlen_loop : ℕ → ℕ → ℕ → Option ℕ
strnlen_loop zero c n = none
strnlen_loop (suc fuel) c n =
    let rest = strnlen_loop fuel c ((n + 1) % 2 ^ 32) in
    if not (c == 0) && not (0 == n) then rest else some n

-- `strnlen` of a string that starts with `c`; the rest of it is never read.
unfoldable pub strnlen : ℕ → ℕ → ℕ → Option ℕ
unfolding strnlen_loop
strnlen fuel c n = strnlen_loop fuel c n
