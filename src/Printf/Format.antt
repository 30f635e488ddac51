-- ===== src/Printf/Format.antt =====
-- `vformat` of lib/stdio/printf.c, with `out_char`, `out_string`, `vsprintf` and `sprintf`.
use osdev.Prelude.{
  ℕ, zero, suc, ◌+◌, ◌-◌, ◌*◌, ◌%◌, ◌^◌, Bool, true, false, not, ◌&&◌, ◌||◌, Option, none, some,
  List, [], ◌∷◌, ◌++◌, ◌==◌, ltb, leb, if◌then◌else◌, length, take,
}
use osdev.Printf.{isdigit, int_str}

-- The arguments as they are passed: an int (or what is as wide: a long, a size_t), a 64-bit
-- integer, or a pointer to a string, NULL or its text.
pub data Arg : Type 0 where
  word : ℕ → Arg
  wide : ℕ → Arg
  string : Option (List ℕ) → Arg

-- What has been handed to `out`, and the count of it that is returned, an int of 32 bits.
pub record Out : Type 0 where
  pub text : List ℕ
  pub chars : ℕ

unfoldable pub out_char : Out → ℕ → Out
out_char out c = record { text = out.text ++ (c ∷ []); chars = (out.chars + 1) % 2 ^ 32 }

unfoldable pub out_string : Out → List ℕ → Out
unfolding out_char
out_string out [] = out
out_string out (c ∷ s) = out_string (out_char out c) s

-- The variables that one conversion sets; `length` is the letter, 0 for none.
pub record Spec : Type 0 where
  pub left_justify : Bool
  pub zero_pad : Bool
  pub space_no_sign : Bool
  pub alt_form : Bool
  pub plus_sign : Bool
  pub width : ℕ
  pub precision : ℕ
  pub length : ℕ

abbrev pub no_spec : Spec
no_spec = record {
  left_justify = false;
  zero_pad = false;
  space_no_sign = false;
  alt_form = false;
  plus_sign = false;
  width = 0;
  precision = 0;
  length = 0;
}

-- The cases of the flags: '-', '+', '#', ' ' and '0'.
unfoldable pub flag_of : ℕ → Spec → Option Spec
flag_of c s =
    if c == 45
    then some (record s { left_justify = true })
    else if c == 43
    then some (record s { plus_sign = true })
    else if c == 35
    then some (record s { alt_form = true })
    else if c == 32
    then some (record s { space_no_sign = true })
    else if c == 48
    then some (record s { zero_pad = true })
    else none

unfoldable pub parse_flags : List ℕ → Spec → Option (Spec × List ℕ)
unfolding flag_of
parse_flags [] s = none
parse_flags (c ∷ f) s = elim (flag_of c s) [ none ↦ some (s, c ∷ f) | some s' ↦ parse_flags f s' ]

-- `while(isdigit(format[i])) n = n * 10 + (format[i] - '0');` over an int of 32 bits.
unfoldable pub parse_digits : List ℕ → ℕ → Option (ℕ × List ℕ)
unfolding isdigit
parse_digits [] n = none
parse_digits (c ∷ f) n =
    let rest = parse_digits f ((n * 10 + (c - 48)) % 2 ^ 32) in
    if isdigit c then rest else some (n, c ∷ f)

-- A '*' takes an int argument for the number read so far.
unfoldable pub parse_star : List ℕ → ℕ → List Arg → Option (ℕ × List ℕ × List Arg)
parse_star [] n args = none
parse_star (c ∷ f) n args = if not (c == 42) then some (n, c ∷ f, args) else elim args [
  | [] ↦ none
  | wide v ∷ rest ↦ none
  | string s ∷ rest ↦ none
  | word v ∷ rest ↦ some (v, f, rest)
]

unfoldable pub parse_number : List ℕ → List Arg → Option (ℕ × List ℕ × List Arg)
unfolding parse_digits parse_star
parse_number f args = elim (parse_digits f 0) [ none ↦ none | some (n, f') ↦ parse_star f' n args ]

unfoldable pub parse_precision : List ℕ → List Arg → Option (ℕ × List ℕ × List Arg)
unfolding parse_number
parse_precision [] args = none
parse_precision (c ∷ f) args = if c == 46 then parse_number f args else some (0, c ∷ f, args)

-- `strchr("hljztL", c)` is not NULL: the terminator is found as well.
unfoldable pub is_length : ℕ → Bool
is_length c = c == 104 || c == 108 || c == 106 || c == 122 || c == 116 || c == 76 || c == 0

-- The length letter: 'H' (72) for "hh", 'q' (113) for "ll".
unfoldable pub parse_length : List ℕ → Option (ℕ × List ℕ)
unfolding is_length
parse_length [] = none
parse_length (c ∷ f) = if not (is_length c) then some (0, c ∷ f) else elim f [
  | [] ↦ none
  | d ∷ g ↦
      if c == 104 && d == 104
      then some (72, g)
      else if c == 108 && d == 108
      then some (113, g)
      else some (c, d ∷ g)
]

-- What a `va_arg` for the length yields, as bits of intmax_t: `char` and `short` are cut off and,
-- where `signed`, extended by their sign.
unfoldable pub extend : ℕ → Bool → ℕ → ℕ
extend bits signed v =
    let low = v % 2 ^ bits in
    if signed && leb (2 ^ (bits - 1)) low then 2 ^ 64 - 2 ^ bits + low else low

unfoldable pub take_value : ℕ → Bool → List Arg → Option (ℕ × List Arg)
unfolding extend
take_value length signed [] = none
take_value length signed (string s ∷ rest) = none
take_value length signed (wide v ∷ rest) =
    if length == 113 || length == 106 then some (v % 2 ^ 64, rest) else none
take_value length signed (word v ∷ rest) =
    if length == 113 || length == 106
    then none
    else if length == 72
    then some (extend 8 signed v, rest)
    else if length == 104
    then some (extend 16 signed v, rest)
    else some (extend 32 signed v, rest)

unfoldable pub out_number : Out → Spec → Bool → ℕ → ℕ → List Arg → Option (Out × List Arg)
unfolding take_value int_str out_string
out_number out s signed length base args = elim (take_value length signed args) [
  | none ↦ none
  | some (v, rest) ↦
      elim (int_str v base s.plus_sign s.space_no_sign s.width s.left_justify s.zero_pad) [
        | none ↦ none
        | some text ↦ some (out_string out text, rest)
      ]
]

-- "(null)"
abbrev pub null_text : List ℕ
null_text = 40 ∷ 110 ∷ 117 ∷ 108 ∷ 108 ∷ 41 ∷ []

-- `precision && precision < len` over ints: a negative precision empties the string.
unfoldable pub cut_text : ℕ → List ℕ → List ℕ
cut_text precision text =
    if precision == 0
    then text
    else if leb (2 ^ 31) precision
    then []
    else if ltb precision (length text)
    then take precision text
    else text

unfoldable pub out_text : Out → Spec → List Arg → Option (Out × List Arg)
unfolding out_string cut_text
out_text out s [] = none
out_text out s (word v ∷ rest) = none
out_text out s (wide v ∷ rest) = none
out_text out s (string none ∷ rest) = some (out_string out (cut_text s.precision null_text), rest)
out_text out s (string (some text) ∷ rest) = some (out_string out (cut_text s.precision text), rest)

unfoldable pub out_one : Out → List Arg → Option (Out × List Arg)
unfolding out_char
out_one out [] = none
out_one out (wide v ∷ rest) = none
out_one out (string s ∷ rest) = none
out_one out (word v ∷ rest) = some (out_char out (v % 256), rest)

-- The conversion that the specifier asks for; an unknown one prints nothing.
unfoldable pub convert : Out → Spec → ℕ → List Arg → Option (Out × List Arg)
unfolding out_string out_number out_text out_one out_char
convert out s specifier args =
    if specifier == 111
    then out_number (if s.alt_form then out_string out (48 ∷ []) else out) s false s.length 8 args
    else if specifier == 112
    then out_number (out_string out (48 ∷ 120 ∷ [])) s false 122 16 args
    else if specifier == 100 || specifier == 105
    then out_number out s true s.length 10 args
    else if specifier == 117
    then out_number out s false s.length 10 args
    else if specifier == 120
    then out_number out s false s.length 17 args
    else if specifier == 88
    then out_number out s false s.length 16 args
    else if specifier == 99
    then out_one out args
    else if specifier == 115
    then out_text out s args
    else if specifier == 37
    then some (out_char out 37, args)
    else some (out, args)

-- What stands between the '%' and the specifier, which heads the format that is left.
unfoldable pub parse_spec : List ℕ → List Arg → Option (Spec × List ℕ × List Arg)
unfolding parse_flags parse_number parse_precision parse_length
parse_spec f args = elim (parse_flags f no_spec) [
  | none ↦ none
  | some (s, f1) ↦ elim (parse_number f1 args) [
    | none ↦ none
    | some (width, f2, args1) ↦ elim (parse_precision f2 args1) [
      | none ↦ none
      | some (precision, f3, args2) ↦ elim (parse_length f3) [
        | none ↦ none
        | some (length, f4) ↦
            some (record s { width = width; precision = precision; length = length }, f4, args2)
      ]
    ]
  ]
]

-- The loop of `vformat`; each round passes one character of the format or more.
unfoldable pub format_loop : ℕ → Out → List ℕ → List Arg → Option Out
unfolding parse_spec convert out_char
format_loop zero out f args = none
format_loop (suc fuel) out [] args = none
format_loop (suc fuel) out (c ∷ f) args = if c == 0 then some out else elim (c == 37) [
  | false ↦ format_loop fuel (out_char out c) f args
  | true ↦ elim (parse_spec f args) [
    | none ↦ none
    | some (s, [], args') ↦ none
    | some (s, specifier ∷ g, args') ↦ elim (convert out s specifier args') [
      | none ↦ none
      | some (out', rest) ↦ format_loop fuel out' g rest
    ]
  ]
]

unfoldable pub vformat : List ℕ → List Arg → Option Out
unfolding format_loop
vformat format args =
    format_loop (suc (length format)) (record { text = []; chars = 0 }) format args

-- The bytes that `vsprintf` leaves, its terminator included, and the value that it returns.
unfoldable pub vsprintf : List ℕ → List Arg → Option (List ℕ × ℕ)
unfolding vformat
vsprintf format args = elim (vformat format args) [
  | none ↦ none
  | some out ↦ some (out.text ++ (0 ∷ []), out.chars)
]
