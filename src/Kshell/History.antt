-- ===== src/Kshell/History.antt =====
-- `hist_move`: from the line that is being typed into the history and back.
use osdev.Prelude.{
  ℕ, zero, suc, ◌-◌, ◌≤◌, ◌<◌, ◌≡◌, refl, ap, ◌∙◌, false, none, some, List, [], ◌∷◌, ◌++◌, ◌==◌,
  leb, length, take, drop, replicate, set, get_or, arith, Bool-cases, inl, inr,
}
use mathlib.Core.List.{append_assoc}
use osdev.CString.Text.{IsText}
use osdev.Kshell.{
  Shell, text_of, load, load_line, show_line, go_up, hist_up_from, hist_down_from, hist_up,
  hist_down,
}

text_of-IsText : (buf : List ℕ) → IsText (text_of buf)
unfolding text_of
text_of-IsText [] = tt
text_of-IsText (c ∷ buf) = elim (Bool-cases (c == 0)) [
  | inl p ↦ rw p tt
  | inr p ↦ rw p (ground (arith, p), text_of-IsText buf)
]

text_of-ended : (t rest : List ℕ) → IsText t → text_of (t ++ (0 ∷ rest)) ≡ t
unfolding text_of
text_of-ended [] rest h = refl
text_of-ended (c ∷ t) rest h = rw (not_end) (ap (λ l. c ∷ l) (text_of-ended t rest h.1))
  where
    not_end : (c == 0) ≡ false
    not_end = ground (arith, h.0)

-- A write behind the terminator does not show.
text_of-set_behind :
    (t rest : List ℕ) (n v : ℕ) → IsText t → length t < n → text_of (set (t ++ (0 ∷ rest)) n v) ≡ t
unfolding text_of
text_of-set_behind [] rest zero v h behind = absurd (omega arith)
text_of-set_behind [] rest (suc n) v h behind = refl
text_of-set_behind (c ∷ t) rest zero v h behind = absurd (omega arith)
text_of-set_behind (c ∷ t) rest (suc n) v h behind =
    rw (not_end) (ap (λ l. c ∷ l) (text_of-set_behind t rest n v h.1 (omega arith)))
  where
    not_end : (c == 0) ≡ false
    not_end = ground (arith, h.0)

take_all : (n : ℕ) (t : List ℕ) → length t ≤ n → take n t ≡ t
take_all zero [] h = refl
take_all zero (c ∷ t) h = absurd (omega arith)
take_all (suc n) [] h = refl
take_all (suc n) (c ∷ t) h = ap (λ l. c ∷ l) (take_all n t (omega arith))

-- A text that is shorter than the buffer, with its terminator.
load_short :
    (len : ℕ) (t dst : List ℕ)
    → length t < len
    → load len t dst ≡ t ++ (0 ∷ (replicate (len - length t - 1) 0 ++ drop len dst))
unfolding load
load_short len t dst short =
    ap (λ l. (l ++ replicate (len - length t) 0) ++ drop len dst) (take_all len t (omega arith))
    ∙ ap (λ n. (t ++ replicate n 0) ++ drop len dst) one_more
    ∙ append_assoc t (0 ∷ replicate (len - length t - 1) 0) (drop len dst)
  where
    one_more : len - length t ≡ suc (len - length t - 1)
    one_more = omega (arith, short)

text_of-load : (len : ℕ) (t dst : List ℕ) → IsText t → length t < len → text_of (load len t dst) ≡ t
text_of-load len t dst h short =
    ap text_of (load_short len t dst short)
    ∙ text_of-ended t (replicate (len - length t - 1) 0 ++ drop len dst) h

text_of-load_line :
    (len : ℕ) (t dst : List ℕ) → IsText t → length t < len → text_of (load_line len t dst) ≡ t
unfolding load_line
text_of-load_line len t dst h short =
    ap (λ b. text_of (set b len 0)) (load_short len t dst short)
    ∙ text_of-set_behind t (replicate (len - length t - 1) 0 ++ drop len dst) len 0 h short

-- One step from the live input into a history that is not empty.
hist_up-first :
    (s : Shell)
    → s.histptr ≡ none
    → 0 < length s.shellhist
    → hist_up s
      ≡ show_line
          (record s { savebuf = load s.len (text_of s.shellbuf) s.savebuf })
          (some 0)
          (get_or s.shellhist 0 [])
unfolding hist_up
hist_up-first s live some_lines =
    ap (λ p. hist_up_from p s) live ∙ (unfold hist_up_from in unfold go_up in rw (some_left) refl)
  where
    some_left : leb (length s.shellhist) 0 ≡ false
    some_left = ground (arith, some_lines)

-- From the line that is being typed, if it leaves room in its buffer for one more character, a step
-- into a history that is not empty shows its latest line, and the step back restores the text, the
-- end of the line and the live input.
pub hist_up-hist_down :
    (s : Shell)
    → s.histptr ≡ none
    → 0 < length s.shellhist
    → length (text_of s.shellbuf) < s.len
    → ((hist_up s).histptr ≡ some 0)
      × ((hist_up s).shellbuf ≡ load_line s.len (get_or s.shellhist 0 []) s.shellbuf)
      × (text_of (hist_down (hist_up s)).shellbuf ≡ text_of s.shellbuf)
      × ((hist_down (hist_up s)).shellptr ≡ length (text_of s.shellbuf))
      × ((hist_down (hist_up s)).histptr ≡ none)
unfolding show_line hist_down hist_down_from
hist_up-hist_down s live some_lines short =
    rw (hist_up-first s live some_lines) (refl, refl, back, ap length back, refl)
  where
    typed : List ℕ
    typed = text_of s.shellbuf

    shown : List ℕ
    shown = load_line s.len (get_or s.shellhist 0 []) s.shellbuf

    back : text_of (load_line s.len (text_of (load s.len typed s.savebuf)) shown) ≡ typed
    back =
        ap (λ u. text_of (load_line s.len u shown))
          (text_of-load s.len typed s.savebuf (text_of-IsText s.shellbuf) short)
        ∙ text_of-load_line s.len typed shown (text_of-IsText s.shellbuf) short
