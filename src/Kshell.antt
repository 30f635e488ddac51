-- ===== src/Kshell.antt =====
-- kernel/kshell.c: the line editor of the shell and its history. What it prints, and the commands
-- that `kshell_proc` runs, which change nothing here, are left out.
-- A buffer is its `len + 1` bytes. `shellhist` is the strings at the first `hist_count` pointers,
-- the latest first, and `histptr` is `none` for -1.
pub mod Bounds
pub mod Events
pub mod History
pub mod Input
pub mod Commands
mod Dispatch
mod Tests
use osdev.Prelude.{
  ℕ, zero, suc, ◌+◌, ◌-◌, ◌%◌, ◌^◌, Bool, true, false, not, ◌&&◌, ◌||◌, Option, none, some, List,
  [], ◌∷◌, ◌++◌, ◌==◌, ltb, leb, if◌then◌else◌, length, take, drop, replicate, set, get_or,
}

-- `enum ansi_state`
pub data AnsiState : Type 0 where
  s_none s_esc s_csi : AnsiState

pub record Shell : Type 0 where
  pub len : ℕ
  pub hist_len : ℕ
  pub shellptr : ℕ
  pub histptr : Option ℕ
  pub shellbuf : List ℕ
  pub savebuf : List ℕ
  pub shellhist : List (List ℕ)
  pub state : AnsiState

-- The string in a buffer, and whether two strings are equal: `strcmp` returns 0.
unfoldable pub text_of : List ℕ → List ℕ
text_of [] = []
text_of (c ∷ s) = if c == 0 then [] else c ∷ text_of s

unfoldable pub same_text : List ℕ → List ℕ → Bool
same_text [] [] = true
same_text [] (b ∷ t) = false
same_text (a ∷ s) [] = false
same_text (a ∷ s) (b ∷ t) = (a == b) && same_text s t

-- `strncpy(dst, src, len)`, which leaves the byte at `len` of the buffer as it was.
unfoldable pub load : ℕ → List ℕ → List ℕ → List ℕ
load len src dst = (take len src ++ replicate (len - length src) 0) ++ drop len dst

-- The same, and the terminator at `len`.
unfoldable pub load_line : ℕ → List ℕ → List ℕ → List ℕ
unfolding load
load_line len src dst = set (load len src dst) len 0

-- Whether the line is the latest command again.
unfoldable pub is_latest : List (List ℕ) → List ℕ → Bool
unfolding same_text
is_latest [] line = false
is_latest (h ∷ hs) line = same_text h line

unfoldable pub hist_newline : Shell → Shell
unfolding text_of is_latest
hist_newline s =
    if s.shellptr == 0
    then s
    else if is_latest s.shellhist (text_of s.shellbuf)
    then record s { shellptr = 0; shellbuf = set s.shellbuf 0 0; histptr = none }
    else record s {
      shellhist =
          text_of s.shellbuf
          ∷ (if length s.shellhist == s.hist_len
              then take (s.hist_len - 1) s.shellhist
              else s.shellhist);
      shellptr = 0;
      shellbuf = set s.shellbuf 0 0;
      histptr = none;
      savebuf = set s.savebuf 0 0;
    }

-- The line of the history that is shown, with the input behind it.
unfoldable pub show_line : Shell → Option ℕ → List ℕ → Shell
unfolding text_of load_line
show_line s histptr line =
    let buf = load_line s.len line s.shellbuf in
    record s { histptr = histptr; shellbuf = buf; shellptr = length (text_of buf) }

-- The step of `hist_move` to an older line, `next`.
unfoldable pub go_up : Shell → ℕ → Shell
go_up s next =
    if leb (length s.shellhist) next
    then s
    else show_line s (some next) (get_or s.shellhist next [])

-- `hist_move` from a history pointer, with a direction above 0 and below 0.
unfoldable pub hist_up_from : Option ℕ → Shell → Shell
hist_up_from none s = go_up (record s { savebuf = load s.len (text_of s.shellbuf) s.savebuf }) 0
hist_up_from (some n) s = go_up s (n + 1)

unfoldable pub hist_down_from : Option ℕ → Shell → Shell
hist_down_from none s = s
hist_down_from (some zero) s = show_line s none (text_of s.savebuf)
hist_down_from (some (suc n)) s = show_line s (some n) (get_or s.shellhist n [])

unfoldable pub hist_up : Shell → Shell
unfolding hist_up_from
hist_up s = hist_up_from s.histptr s

unfoldable pub hist_down : Shell → Shell
unfolding hist_down_from
hist_down s = hist_down_from s.histptr s

-- A character of the line, where there is room for it; `len - 1` is taken as a size_t.
unfoldable pub type_char : Shell → ℕ → Shell
type_char s c =
    if ltb s.shellptr ((2 ^ 32 + s.len - 1) % 2 ^ 32)
    then record s {
      shellbuf = set (set s.shellbuf s.shellptr c) (s.shellptr + 1) 0;
      shellptr = s.shellptr + 1;
    }
    else s

unfoldable pub erase_char : Shell → Shell
erase_char s =
    if s.shellptr == 0
    then s
    else record s { shellbuf = set s.shellbuf (s.shellptr - 1) 0; shellptr = s.shellptr - 1 }

unfoldable pub on_plain : Shell → ℕ → Shell
on_plain s c =
    if c == 27
    then record s { state = s_esc }
    else if c == 10
    then hist_newline s
    else if (c == 8) || (c == 127)
    then erase_char s
    else type_char s c

unfoldable pub on_csi : Shell → ℕ → Shell
on_csi s c =
    let s' = record s { state = s_none } in
    if c == 65 then hist_up s' else if c == 66 then hist_down s' else s'

unfoldable pub kconsumer_shell : Shell → ℕ → Shell
kconsumer_shell s ch =
    let c : ℕ = if ch == 13 then 10 else ch in
    elim s.state [
      | s_none ↦ on_plain s c
      | s_esc ↦ record s { state = if c == 91 then s_csi else s_none }
      | s_csi ↦ on_csi s c
    ]

-- KEY_UP and KEY_DOWN of the key event, where it is a press; other keys do nothing.
pub data Arrow : Type 0 where
  key_up key_down other_key : Arrow

unfoldable pub kconsumer_arrows : Shell → Bool → Arrow → Shell
kconsumer_arrows s false key = s
kconsumer_arrows s true key_up = hist_up s
kconsumer_arrows s true key_down = hist_down s
kconsumer_arrows s true other_key = s

-- The state that `kshell_init` leaves where no allocation fails and both consumers are registered.
unfoldable pub kshell_start : ℕ → ℕ → Shell
kshell_start len hist_len = record {
  len = len;
  hist_len = hist_len;
  shellptr = 0;
  histptr = none;
  shellbuf = replicate (len + 1) 0;
  savebuf = replicate (len + 1) 0;
  shellhist = [];
  state = s_none;
}
