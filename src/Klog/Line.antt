-- ===== src/Klog/Line.antt =====
-- The calls that a message of the log makes.
use osdev.Prelude.{
  ◌<◌, ◌⊎◌, inl, inr, dec_lt, ℕ, ◌+◌, ◌≤◌, ◌≡◌, refl, ap, ◌∙◌, Bool, true, false, Option, none,
  some, List, [], ◌∷◌, ◌++◌, ◌==◌, leb, if◌then◌else◌, length, length-append, arith,
}
use osdev.CString.Text.{IsText, c_string}
use osdev.Klog.{
  Call, puts, setcolor, text_of, level_text, prefix_text, fit, klog_prefix, level_color, klog_calls,
  klog, prefix_size,
}

text_of-c_string : (t rest : List ℕ) → IsText t → text_of (c_string t rest) ≡ some t
unfolding text_of
text_of-c_string [] rest h = refl
text_of-c_string (c ∷ t) rest h = rw (nonzero, text_of-c_string t rest h.1) refl
  where
    nonzero : (c == 0) ≡ false
    nonzero = ground (arith, h.0)

IsText-append : (t u : List ℕ) → IsText t → IsText u → IsText (t ++ u)
IsText-append [] u h k = k
IsText-append (c ∷ t) u h k = (h.0, IsText-append t u h.1 k)

level_cases :
    (P : List ℕ → Type 0)
    → P (73 ∷ 78 ∷ 70 ∷ 79 ∷ [])
    → P (87 ∷ 65 ∷ 82 ∷ 78 ∷ [])
    → P (32 ∷ 69 ∷ 82 ∷ 82 ∷ [])
    → P []
    → (level : ℕ) → P (level_text level)
unfolding level_text
level_cases P info warn err other level = pick (level == 0) (level == 1) (level == 2)
  where
    pick :
        (a b c : Bool)
        → P (
            if a
            then 73 ∷ 78 ∷ 70 ∷ 79 ∷ []
            else if b
            then 87 ∷ 65 ∷ 82 ∷ 78 ∷ []
            else if c
            then 32 ∷ 69 ∷ 82 ∷ 82 ∷ []
            else [])
    pick true b c = info
    pick false true c = warn
    pick false false true = err
    pick false false false = other

level_text-IsText : (level : ℕ) → IsText (level_text level)
level_text-IsText =
    level_cases IsText (omega arith, (omega arith, (omega arith, (omega arith, tt))))
      (omega arith, (omega arith, (omega arith, (omega arith, tt))))
      (omega arith, (omega arith, (omega arith, (omega arith, tt)))) tt

length-level_text : (level : ℕ) → length (level_text level) ≤ 4
length-level_text =
    level_cases (λ t. length t ≤ 4) (omega arith) (omega arith) (omega arith) (omega arith)

prefix_text-IsText : (level : ℕ) (name : List ℕ) → IsText name → IsText (prefix_text level name)
unfolding prefix_text
prefix_text-IsText level name h = (
  omega arith,
  IsText-append name _ h (
    omega arith,
    (
      omega arith,
      IsText-append (level_text level) (58 ∷ 32 ∷ []) (level_text-IsText level)
          (omega arith, (omega arith, tt)),
    ),
  ),
)

length-prefix_text : (level : ℕ) (name : List ℕ) → length (prefix_text level name) ≤ length name + 9
unfolding prefix_text
length-prefix_text level name = omega (
  arith,
  length-append name (93 ∷ 32 ∷ (level_text level ++ (58 ∷ 32 ∷ []))),
  length-append (level_text level) (58 ∷ 32 ∷ []),
  length-level_text level,
)

klog_prefix-text :
    (level : ℕ) (name rest : List ℕ)
    → IsText name
    → length name ≤ 22
    → klog_prefix level (c_string name rest) ≡ some (c_string (prefix_text level name) [])
unfolding klog_prefix fit
klog_prefix-text level name rest h short =
    ap made (text_of-c_string name rest h)
    ∙ ap (λ b. if b then some (prefix_text level name ++ (0 ∷ [])) else none) room
  where
    made : Option (List ℕ) → Option (List ℕ)
    made r = elim r [ none ↦ none | some name ↦ fit (prefix_text level name) ]

    enough : length (prefix_text level name) + 1 ≤ prefix_size
    enough = omega (arith, length-prefix_text level name, short)

    room : leb (length (prefix_text level name) + 1) prefix_size ≡ true
    room = ground (arith, enough)

level_text-four : (level : ℕ) → level < 3 → length (level_text level) ≡ 4
unfolding level_text
level_text-four level known = ground arith

length-known :
    (level : ℕ) (name : List ℕ) → level < 3 → length (prefix_text level name) ≡ length name + 9
unfolding prefix_text
length-known level name known = omega (
  arith,
  length-append name (93 ∷ 32 ∷ (level_text level ++ (58 ∷ 32 ∷ []))),
  length-append (level_text level) (58 ∷ 32 ∷ []),
  level_text-four level known,
)

too_long :
    (level : ℕ) (name rest : List ℕ)
    → level < 3
    → IsText name
    → 22 < length name
    → klog_prefix level (c_string name rest) ≡ none
unfolding klog_prefix fit
too_long level name rest known h long =
    ap made (text_of-c_string name rest h)
    ∙ ap (λ b. if b then some (prefix_text level name ++ (0 ∷ [])) else none) full
  where
    made : Option (List ℕ) → Option (List ℕ)
    made r = elim r [ none ↦ none | some name ↦ fit (prefix_text level name) ]

    full : leb (length (prefix_text level name) + 1) prefix_size ≡ false
    full = ground (arith, length-known level name known, long)

klog-text :
    (level : ℕ) (name rest text rest' : List ℕ)
    → IsText name
    → IsText text
    → length name ≤ 22
    → klog level (c_string name rest) (c_string text rest')
      ≡ some (level_color level ++ (puts (prefix_text level name) ∷ puts text ∷ setcolor 7 0 ∷ []))
unfolding klog klog_calls
klog-text level name rest text rest' is_name is_text short =
    ap then_calls (klog_prefix-text level name rest is_name short)
    ∙ ap (λ p. klog_calls level p (text_of (c_string text rest')))
        (text_of-c_string (prefix_text level name) [] (prefix_text-IsText level name is_name))
    ∙ ap (klog_calls level (some (prefix_text level name))) (text_of-c_string text rest' is_text)
  where
    then_calls : Option (List ℕ) → Option (List Call)
    then_calls r = elim r [
      | none ↦ none
      | some prefix ↦ klog_calls level (text_of prefix) (text_of (c_string text rest'))
    ]

-- The calls that a message makes: the level's colour on black, "[namespace] ", the level's name,
-- ": " and the message, and gray on black again.
abbrev pub Says : List ℕ → List ℕ → List ℕ → ℕ → Option (List Call) → Type 0
Says name text tag color r =
    r
    ≡ some (
        setcolor color 0
        ∷ puts ((91 ∷ name) ++ (93 ∷ 32 ∷ (tag ++ (58 ∷ 32 ∷ []))))
        ∷ puts text
        ∷ setcolor 7 0
        ∷ [])

-- With a namespace of at most 22 characters, `klog` sets the level's colour on black, puts
-- "[namespace] LEVEL: " and then the message, and sets gray on black: for level 0 "INFO" in gray (7),
-- for level 1 "WARN" in yellow (14), for level 2 " ERR" in red (4), and makes no other call. With
-- a longer one, `klog` at these levels writes past the end of the array of the prefix.
pub klog-line :
    (name rest text rest' : List ℕ)
    → IsText name
    → IsText text
    → let say : ℕ → Option (List Call) =
        λ level. klog level (c_string name rest) (c_string text rest') in
      ((length name ≤ 22)
        × Says name text (73 ∷ 78 ∷ 70 ∷ 79 ∷ []) 7 (say 0)
        × Says name text (87 ∷ 65 ∷ 82 ∷ 78 ∷ []) 14 (say 1)
        × Says name text (32 ∷ 69 ∷ 82 ∷ 82 ∷ []) 4 (say 2))
      ⊎ ((22 < length name) × ((level : ℕ) → level < 3 → say level ≡ none))
unfolding level_color prefix_text level_text
klog-line name rest text rest' is_name is_text = elim (dec_lt 22 (length name)) [
  | yes long ↦
      inr (long, λ level known. overrun level (too_long level name rest known is_name long))
  | no short ↦ inl (
    omega arith,
    klog-text 0 name rest text rest' is_name is_text (omega arith),
    klog-text 1 name rest text rest' is_name is_text (omega arith),
    klog-text 2 name rest text rest' is_name is_text (omega arith),
  )
]
  where
    overrun :
        (level : ℕ)
        → klog_prefix level (c_string name rest) ≡ none
        → klog level (c_string name rest) (c_string text rest') ≡ none
    overrun level past = unfold klog in ap then_calls past
      where
        then_calls : Option (List ℕ) → Option (List Call)
        then_calls r = elim r [
          | none ↦ none
          | some prefix ↦ klog_calls level (text_of prefix) (text_of (c_string text rest'))
        ]
