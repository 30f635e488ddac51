-- ===== src/Printf/Output.antt =====
-- `vformat`: what is printed and the number that is returned.
use osdev.Prelude.{
  ℕ, zero, suc, ◌%◌, ◌^◌, ◌<◌, ◌≡◌, ◌≢◌, refl, sym, subst, ◌∙◌, Bool, true, false, ◌||◌, Option,
  none, some, List, [], ◌∷◌, ◌++◌, ◌==◌, if◌then◌else◌, length, arith, length-append,
}
use mathlib.Core.List.{append_assoc, append-nil}
use osdev.Printf.{int_str}
use osdev.Printf.Format.{
  Arg, word, wide, string, Out, Spec, out_char, out_string, take_value, out_number, out_text,
  out_one, null_text, cut_text, convert, parse_spec, format_loop, vformat,
}

abbrev Counted : Out → Type 0
Counted out = out.chars ≡ length out.text % 2 ^ 32

out_char-Counted : (out : Out) (c : ℕ) → Counted out → Counted (out_char out c)
unfolding out_char
out_char-Counted out c h = omega (arith, length-append out.text (c ∷ []), h)

out_string-Counted : (out : Out) (s : List ℕ) → Counted out → Counted (out_string out s)
unfolding out_string
out_string-Counted out [] h = h
out_string-Counted out (c ∷ s) h = out_string-Counted (out_char out c) s (out_char-Counted out c h)

-- What a step leaves, if it leaves anything, is counted.
abbrev StepCounted : Option (Out × List Arg) → Type 0
StepCounted none = Unit
StepCounted (some (out, rest)) = Counted out

abbrev RunCounted : Option Out → Type 0
RunCounted none = Unit
RunCounted (some out) = Counted out

out_number-Counted :
    (out : Out) (s : Spec) (signed : Bool) (len base : ℕ) (args : List Arg)
    → Counted out
    → StepCounted (out_number out s signed len base args)
unfolding out_number
out_number-Counted out s signed len base args h = of_value (take_value len signed args)
  where
    of_text :
        (o : Option (List ℕ)) (rest : List Arg)
        → StepCounted (elim o [ none ↦ none | some text ↦ some (out_string out text, rest) ])
    of_text none rest = tt
    of_text (some text) rest = out_string-Counted out text h

    of_value :
        (o : Option (ℕ × List Arg))
        → StepCounted (elim o [
          | none ↦ none
          | some (v, rest) ↦
              elim (int_str v base s.plus_sign s.space_no_sign s.width s.left_justify s.zero_pad) [
                | none ↦ none
                | some text ↦ some (out_string out text, rest)
              ]
        ])
    of_value none = tt
    of_value (some (v, rest)) =
        of_text (int_str v base s.plus_sign s.space_no_sign s.width s.left_justify s.zero_pad) rest

out_text-Counted :
    (out : Out) (s : Spec) (args : List Arg) → Counted out → StepCounted (out_text out s args)
unfolding out_text
out_text-Counted out s [] h = tt
out_text-Counted out s (word v ∷ rest) h = tt
out_text-Counted out s (wide v ∷ rest) h = tt
out_text-Counted out s (string none ∷ rest) h =
    out_string-Counted out (cut_text s.precision null_text) h
out_text-Counted out s (string (some text) ∷ rest) h =
    out_string-Counted out (cut_text s.precision text) h

out_one-Counted : (out : Out) (args : List Arg) → Counted out → StepCounted (out_one out args)
unfolding out_one
out_one-Counted out [] h = tt
out_one-Counted out (word v ∷ rest) h = out_char-Counted out (v % 256) h
out_one-Counted out (wide v ∷ rest) h = tt
out_one-Counted out (string s ∷ rest) h = tt

-- A test between two steps.
StepCounted-if :
    (b : Bool) (r r' : Option (Out × List Arg))
    → StepCounted r
    → StepCounted r'
    → StepCounted (if b then r else r')
StepCounted-if true r r' h k = h
StepCounted-if false r r' h k = k

convert-Counted :
    (out : Out) (s : Spec) (c : ℕ) (args : List Arg)
    → Counted out
    → StepCounted (convert out s c args)
unfolding convert
convert-Counted out s c args h =
    StepCounted-if (c == 111) _ _
      (out_number-Counted (if s.alt_form then out_string out (48 ∷ []) else out) s false s.length 8
        args (alt s.alt_form))
      (StepCounted-if (c == 112) _ _
        (out_number-Counted (out_string out (48 ∷ 120 ∷ [])) s false 122 16 args
          (out_string-Counted out (48 ∷ 120 ∷ []) h))
        (StepCounted-if (c == 100 || c == 105) _ _
          (out_number-Counted out s true s.length 10 args h)
          (StepCounted-if (c == 117) _ _ (out_number-Counted out s false s.length 10 args h) (
            StepCounted-if (c == 120) _ _ (out_number-Counted out s false s.length 17 args h) (
              StepCounted-if (c == 88) _ _ (out_number-Counted out s false s.length 16 args h) (
                StepCounted-if (c == 99) _ _ (out_one-Counted out args h) (
                  StepCounted-if (c == 115) _ _ (out_text-Counted out s args h)
                    (StepCounted-if (c == 37) _ _ (out_char-Counted out 37 h) h))))))))
  where
    alt : (b : Bool) → Counted (if b then out_string out (48 ∷ []) else out)
    alt true = out_string-Counted out (48 ∷ []) h
    alt false = h

-- One round, before rounds `next` that keep the count.
module _ (next : Out → List ℕ → List Arg → Option Out)
    (kept : (out : Out) (f : List ℕ) (args : List Arg)
      → Counted out
      → RunCounted (next out f args)) where
  after_convert :
      (r : Option (Out × List Arg)) (g : List ℕ)
      → StepCounted r
      → RunCounted (elim r [ none ↦ none | some (out', rest) ↦ next out' g rest ])
  after_convert none g h = tt
  after_convert (some (out', rest)) g h = kept out' g rest h

  after_spec :
      (out : Out) (o : Option (Spec × List ℕ × List Arg))
      → Counted out
      → RunCounted (elim o [
        | none ↦ none
        | some (s, [], args') ↦ none
        | some (s, specifier ∷ g, args') ↦ elim (convert out s specifier args') [
          | none ↦ none
          | some (out', rest) ↦ next out' g rest
        ]
      ])
  after_spec out none h = tt
  after_spec out (some (s, [], args')) h = tt
  after_spec out (some (s, specifier ∷ g, args')) h =
      after_convert (convert out s specifier args') g (convert-Counted out s specifier args' h)

  one_round :
      (ended percent : Bool) (out : Out) (c : ℕ) (f : List ℕ) (args : List Arg)
      → Counted out
      → RunCounted (
          if ended then some out else elim percent [
            | false ↦ next (out_char out c) f args
            | true ↦ elim (parse_spec f args) [
              | none ↦ none
              | some (s, [], args') ↦ none
              | some (s, specifier ∷ g, args') ↦ elim (convert out s specifier args') [
                | none ↦ none
                | some (out', rest) ↦ next out' g rest
              ]
            ]
          ])
  one_round true percent out c f args h = h
  one_round false false out c f args h = kept (out_char out c) f args (out_char-Counted out c h)
  one_round false true out c f args h = after_spec out (parse_spec f args) h

format_loop-Counted :
    (fuel : ℕ) (out : Out) (f : List ℕ) (args : List Arg)
    → Counted out
    → RunCounted (format_loop fuel out f args)
unfolding format_loop
format_loop-Counted zero out f args h = tt
format_loop-Counted (suc fuel) out [] args h = tt
format_loop-Counted (suc fuel) out (c ∷ f) args h =
    one_round (format_loop fuel) (format_loop-Counted fuel) (c == 0) (c == 37) out c f args h

-- Where `vformat` returns, for any format and arguments, the value is the number of characters that
-- have been handed to `out`, as an int of 32 bits.
pub vformat-counts :
    (format : List ℕ) (args : List Arg) (out : Out)
    → vformat format args ≡ some out
    → out.chars ≡ length out.text % 2 ^ 32
unfolding vformat
vformat-counts format args out returned = subst RunCounted returned (
    format_loop-Counted (suc (length format)) (record { text = []; chars = 0 }) format args
      (omega arith))

-- No character of the text is a '%' or the terminator.
abbrev pub IsLiteral : List ℕ → Type 0
IsLiteral [] = Unit
IsLiteral (c ∷ t) = (c ≢ 0) × (c ≢ 37) × IsLiteral t

format_loop-literal :
    (fuel : ℕ) (out : Out) (t rest : List ℕ) (args : List Arg)
    → IsLiteral t
    → length t < fuel
    → format_loop fuel out (t ++ (0 ∷ rest)) args ≡ some (out_string out t)
unfolding format_loop
format_loop-literal zero out t rest args lit enough = absurd (omega arith)
format_loop-literal (suc fuel) out [] rest args lit enough = refl
format_loop-literal (suc fuel) out (c ∷ t) rest args lit enough =
    rw (not_end, not_percent)
      (format_loop-literal fuel (out_char out c) t rest args lit.2 (omega arith))
  where
    not_end : (c == 0) ≡ false
    not_end = ground (arith, lit.0)

    not_percent : (c == 37) ≡ false
    not_percent = ground (arith, lit.1)

out_string-text : (out : Out) (s : List ℕ) → (out_string out s).text ≡ out.text ++ s
unfolding out_string
out_string-text out [] = sym (append-nil out.text)
out_string-text out (c ∷ s) =
    out_string-text (out_char out c) s ∙ (unfold out_char in append_assoc out.text (c ∷ []) s)

-- A format without conversions is printed as it stands, up to its terminator, whatever the
-- arguments are.
pub vformat-literal :
    (t rest : List ℕ) (args : List Arg)
    → IsLiteral t
    → (out : Out) × (vformat (t ++ (0 ∷ rest)) args ≡ some out) × (out.text ≡ t)
unfolding vformat
vformat-literal t rest args lit = (
  out_string start t,
  format_loop-literal (suc (length (t ++ (0 ∷ rest)))) start t rest args lit
      (omega (arith, length-append t (0 ∷ rest))),
  out_string-text start t,
)
  where
    start : Out
    start = record { text = []; chars = 0 }
