-- ===== src/Printf/Tests.antt =====
-- Numbers and formats of a few characters.
use osdev.Prelude.{
  ℕ, ◌%◌, ◌^◌, ◌≡◌, refl, inr, true, false, some, List, [], ◌∷◌, ◌++◌, length, arith, map,
}
use osdev.Printf.{int_str, sign_text, magnitude}
use osdev.Printf.Format.{
  Arg, string, Out, vformat, format_loop, parse_spec, parse_flags, flag_of, parse_number,
  parse_digits, parse_star, parse_precision, parse_length, is_length, convert, out_text, cut_text,
  out_string, out_char,
}
use osdev.Printf.Number.{filled_to, number_of, read_char, int_str-reads}
use osdev.Printf.Output.{vformat-counts}

int_str-reads_example :
    (body : List ℕ) × (int_str 1234 17 true false 8 false true
      ≡ some (filled_to 8 false 48 (sign_text 1234 true false ++ body)))
    × (number_of 16 0 (map (read_char 17) body) ≡ magnitude 1234)
int_str-reads_example =
    int_str-reads 1234 17 true false 8 false true (omega arith) (omega arith) (inr (inr refl))
      (omega arith)

-- "a%.2s%%" with the string "xyz".
abbrev cut_format : List ℕ
cut_format = 97 ∷ 37 ∷ 46 ∷ 50 ∷ 115 ∷ 37 ∷ 37 ∷ 0 ∷ []

abbrev cut_args : List Arg
cut_args = string (some (120 ∷ 121 ∷ 122 ∷ [])) ∷ []

abbrev cut_out : Out
cut_out = record { text = 97 ∷ 120 ∷ 121 ∷ 37 ∷ []; chars = 4 }

cut_printed : vformat cut_format cut_args ≡ some cut_out
unfolding vformat format_loop parse_spec parse_flags flag_of parse_number parse_digits parse_star
    parse_precision parse_length is_length convert out_text cut_text out_string out_char
cut_printed = refl

vformat-counts_example : 4 ≡ length cut_out.text % 2 ^ 32
vformat-counts_example = vformat-counts cut_format cut_args cut_out cut_printed
