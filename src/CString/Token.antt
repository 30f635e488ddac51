-- ===== src/CString/Token.antt =====
-- The tokens that `strtok_r` finds.
use osdev.Prelude.{
  ℕ, ◌≡◌, ◌≢◌, refl, ap, ◌∙◌, inl, inr, ◌⊎◌, Bool, true, false, not, some, List, [], ◌∷◌, ◌++◌,
  arith, ◌==◌, if◌then◌else◌, length, take, drop, get_or,
}
use osdev.CString.{in_set, span_set, cut_token, token_at, strtok_r}

-- Characters that are all in a set, or all not in it, and none the terminator.
abbrev pub AreIn : Bool → List ℕ → List ℕ → Type 0
AreIn member set [] = Unit
AreIn member set (c ∷ s) = (c ≢ 0) × (in_set c set ≡ some member) × AreIn member set s

-- A character that ends such a run.
abbrev pub Ends : Bool → List ℕ → ℕ → Type 0
Ends member set c = (c ≡ 0) ⊎ ((c ≢ 0) × (in_set c set ≡ some (not member)))

not_zero : (c : ℕ) → c ≢ 0 → (c == 0) ≡ false
not_zero c h = ground arith

is_zero : (c : ℕ) → c ≡ 0 → (c == 0) ≡ true
is_zero c h = ground arith

goes_on : (member : Bool) → (if member then member else not member) ≡ true
goes_on true = refl
goes_on false = refl

stops : (member : Bool) → (if member then not member else not (not member)) ≡ false
stops true = refl
stops false = refl

pub span_set-length :
    (member : Bool) (set run rest : List ℕ) (c : ℕ)
    → AreIn member set run
    → Ends member set c
    → span_set member (run ++ (c ∷ rest)) set ≡ some (length run)
unfolding span_set
span_set-length member set [] rest c h (inl last) = rw (span_set, is_zero c last) refl
span_set-length member set [] rest c h (inr (real, other)) =
    rw (span_set, not_zero c real, other, stops member) refl
span_set-length member set (a ∷ run) rest c (real, there, more) ends =
    rw
      (
        span_set,
        not_zero a real,
        there,
        goes_on member,
        span_set-length member set run rest c more ends,
      )
      refl

drop-length : (xs ys : List ℕ) → drop (length xs) (xs ++ ys) ≡ ys
drop-length [] ys = refl
drop-length (x ∷ xs) ys = drop-length xs ys

take-length : (xs ys : List ℕ) → take (length xs) (xs ++ ys) ≡ xs
take-length [] ys = refl
take-length (x ∷ xs) ys = ap (λ l. x ∷ l) (take-length xs ys)

cut_token-word :
    (word rest : List ℕ) (c : ℕ)
    → cut_token (length word) (word ++ (c ∷ rest))
      ≡ (some (word ++ (0 ∷ [])), if c == 0 then c ∷ rest else rest)
unfolding cut_token
cut_token-word word rest c =
    ap (λ t. (some (t ++ (0 ∷ [])), after (drop (length word) (word ++ (c ∷ rest)))))
      (take-length word (c ∷ rest))
    ∙ ap (λ l. (some (word ++ (0 ∷ [])), after l)) (drop-length word (c ∷ rest))
  where
    after : List ℕ → List ℕ
    after l = if get_or l 0 0 == 0 then l else drop 1 l

token_at-word :
    (delim word rest : List ℕ) (a c : ℕ)
    → AreIn false delim (a ∷ word)
    → Ends false delim c
    → token_at ((a ∷ word) ++ (c ∷ rest)) delim
      ≡ some (some ((a ∷ word) ++ (0 ∷ [])), if c == 0 then c ∷ rest else rest)
unfolding token_at
token_at-word delim word rest a c in_word ends =
    rw (token_at, not_zero a in_word.0, span_set-length false delim (a ∷ word) rest c in_word ends)
      (ap some (cut_token-word (a ∷ word) rest c))

-- From characters of the delimiter set, then a word of at least one character with none of them,
-- and then a delimiter or the terminator, no character before that being the terminator: the token is
-- the word, ended, and the saved pointer stands behind the delimiter, or at the terminator.
pub strtok_r-token :
    (delim gap word rest : List ℕ) (a c : ℕ)
    → AreIn true delim gap
    → AreIn false delim (a ∷ word)
    → Ends false delim c
    → strtok_r (gap ++ ((a ∷ word) ++ (c ∷ rest))) delim
      ≡ some (some ((a ∷ word) ++ (0 ∷ [])), if c == 0 then c ∷ rest else rest)
unfolding strtok_r
strtok_r-token delim gap word rest a c in_gap in_word ends =
    rw
      (
        strtok_r,
        span_set-length true delim gap (word ++ (c ∷ rest)) a in_gap (inr (in_word.0, in_word.1)),
      )
      (ap (λ start. token_at start delim) (drop-length gap ((a ∷ word) ++ (c ∷ rest)))
        ∙ token_at-word delim word rest a c in_word ends)
