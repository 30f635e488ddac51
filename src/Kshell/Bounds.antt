-- ===== src/Kshell/Bounds.antt =====
-- The editor stays inside its buffers, and the history inside its array.
use osdev.Prelude.{
  ℕ, zero, suc, ◌+◌, ◌-◌, ◌%◌, ◌^◌, ◌≤◌, ◌<◌, ◌≡◌, ◌∙◌, true, Option, none, some, List, [], ◌∷◌,
  ◌++◌, ◌==◌, ltb, leb, if◌then◌else◌, length, take, drop, replicate, set, get_or, arith,
  length-set, length-append, length-take, length-drop, length-replicate, Bool-cases, inl, inr,
}
use osdev.Kshell.{
  Shell, text_of, load, load_line, is_latest, hist_newline, show_line, go_up, hist_up_from,
  hist_down_from, hist_up, hist_down, type_char, erase_char,
}

-- The history pointer is one of the history.
abbrev pub InHistory : Option ℕ → ℕ → Type 0
InHistory none count = Unit
InHistory (some n) count = n < count

pub record IsShell (s : Shell) : Type 0 where
  pub sizes : (0 < s.len) × (s.len < 2 ^ 31) × (0 < s.hist_len)
  pub line : length s.shellbuf ≡ s.len + 1
  pub saved : length s.savebuf ≡ s.len + 1
  pub ptr : s.shellptr ≤ s.len
  pub count : length s.shellhist ≤ s.hist_len
  pub shown : InHistory s.histptr (length s.shellhist)

length-load :
    (len : ℕ) (src dst : List ℕ) → length dst ≡ len + 1 → length (load len src dst) ≡ len + 1
unfolding load
length-load len src dst h = omega (
  arith,
  length-append (take len src ++ replicate (len - length src) 0) (drop len dst),
  length-append (take len src) (replicate (len - length src) 0),
  length-take len src,
  length-replicate (len - length src) nul,
  length-drop len dst,
)
  where
    nul : ℕ
    nul = 0

text_of-set : (buf : List ℕ) (n : ℕ) → n < length buf → length (text_of (set buf n 0)) ≤ n
unfolding text_of
text_of-set [] n h = absurd (omega arith)
text_of-set (c ∷ buf) zero h = omega arith
text_of-set (c ∷ buf) (suc n) h = elim (Bool-cases (c == 0)) [
  | inl p ↦ rw p (omega arith)
  | inr p ↦ rw p (omega (arith, text_of-set buf n (omega arith)))
]

text_of-load_line :
    (len : ℕ) (src dst : List ℕ)
    → length dst ≡ len + 1
    → length (text_of (load_line len src dst)) ≤ len
unfolding load_line
text_of-load_line len src dst h =
    text_of-set (load len src dst) len (omega (arith, length-load len src dst h))

show_line-IsShell :
    (s : Shell) (histptr : Option ℕ) (line : List ℕ)
    → IsShell s
    → InHistory histptr (length s.shellhist)
    → IsShell (show_line s histptr line)
unfolding show_line
show_line-IsShell s histptr line h shown = record {
  sizes = h.sizes;
  line =
      unfold load_line in
      length-set (load s.len line s.shellbuf) s.len 0 ∙ length-load s.len line s.shellbuf h.line;
  saved = h.saved;
  ptr = text_of-load_line s.len line s.shellbuf h.line;
  count = h.count;
  shown = shown;
}

go_up-IsShell : (s : Shell) (next : ℕ) → IsShell s → IsShell (go_up s next)
unfolding go_up
go_up-IsShell s next h = elim (Bool-cases (leb (length s.shellhist) next)) [
  | inl p ↦ rw p h
  | inr p ↦ rw p (show_line-IsShell s (some next) (get_or s.shellhist next []) h (ground arith))
]

pub hist_up-IsShell : (s : Shell) → IsShell s → IsShell (hist_up s)
unfolding hist_up
hist_up-IsShell s h = from s.histptr
  where
    from : (p : Option ℕ) → IsShell (hist_up_from p s)
    from none =
        unfold hist_up_from in
        go_up-IsShell (record s { savebuf = load s.len (text_of s.shellbuf) s.savebuf }) 0
          (record {
            sizes = h.sizes;
            line = h.line;
            saved = length-load s.len (text_of s.shellbuf) s.savebuf h.saved;
            ptr = h.ptr;
            count = h.count;
            shown = h.shown;
          })
    from (some n) = unfold hist_up_from in go_up-IsShell s (n + 1) h

pub hist_down-IsShell : (s : Shell) → IsShell s → IsShell (hist_down s)
unfolding hist_down
hist_down-IsShell s h = from s.histptr h.shown
  where
    from : (p : Option ℕ) → InHistory p (length s.shellhist) → IsShell (hist_down_from p s)
    from none shown = unfold hist_down_from in h
    from (some zero) shown =
        unfold hist_down_from in show_line-IsShell s none (text_of s.savebuf) h tt
    from (some (suc n)) shown =
        unfold hist_down_from in
        show_line-IsShell s (some n) (get_or s.shellhist n []) h (omega arith)

cleared : (buf : List ℕ) (len : ℕ) → length buf ≡ len + 1 → length (set buf 0 0) ≡ len + 1
cleared buf len h = length-set buf 0 0 ∙ h

pub hist_newline-IsShell : (s : Shell) → IsShell s → IsShell (hist_newline s)
unfolding hist_newline
hist_newline-IsShell s h = elim (Bool-cases (s.shellptr == 0)) [
  | inl p ↦ rw p h
  | inr p ↦ elim (Bool-cases (is_latest s.shellhist (text_of s.shellbuf))) [
    | inl q ↦
        rw (p, q)
          (record {
            sizes = h.sizes;
            line = cleared s.shellbuf s.len h.line;
            saved = h.saved;
            ptr = omega arith;
            count = h.count;
            shown = tt;
          })
    | inr q ↦
        rw (p, q)
          (record {
            sizes = h.sizes;
            line = cleared s.shellbuf s.len h.line;
            saved = cleared s.savebuf s.len h.saved;
            ptr = omega arith;
            count = stored;
            shown = tt;
          })
  ]
]
  where
    stored :
        suc (
          length (
            if length s.shellhist == s.hist_len
            then take (s.hist_len - 1) s.shellhist
            else s.shellhist))
        ≤ s.hist_len
    stored = elim (Bool-cases (length s.shellhist == s.hist_len)) [
      | inl p ↦ rw p (omega (arith, length-take (s.hist_len - 1) s.shellhist, h.sizes))
      | inr p ↦ rw p (ground (arith, h.count))
    ]

pub type_char-IsShell : (s : Shell) (c : ℕ) → IsShell s → IsShell (type_char s c)
unfolding type_char
type_char-IsShell s c h = elim (Bool-cases (ltb s.shellptr ((2 ^ 32 + s.len - 1) % 2 ^ 32))) [
  | inl p ↦ rw p (record {
    sizes = h.sizes;
    saved = h.saved;
    count = h.count;
    shown = h.shown;
    line =
        length-set (set s.shellbuf s.shellptr c) (s.shellptr + 1) 0
        ∙ length-set s.shellbuf s.shellptr c
        ∙ h.line;
    ptr = room p;
  })
  | inr p ↦ rw p h
]
  where
    room : ltb s.shellptr ((2 ^ 32 + s.len - 1) % 2 ^ 32) ≡ true → s.shellptr + 1 ≤ s.len
    room p = ground (arith, h.sizes, p)

pub erase_char-IsShell : (s : Shell) → IsShell s → IsShell (erase_char s)
unfolding erase_char
erase_char-IsShell s h = elim (Bool-cases (s.shellptr == 0)) [
  | inl p ↦ rw p h
  | inr p ↦ rw p (record {
    sizes = h.sizes;
    line = length-set s.shellbuf (s.shellptr - 1) 0 ∙ h.line;
    saved = h.saved;
    ptr = omega (arith, h.ptr);
    count = h.count;
    shown = h.shown;
  })
]
