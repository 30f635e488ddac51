-- ===== src/Kshell/Events.antt =====
-- Every event of the editor, and every sequence of them from `kshell_init` on.
use osdev.Prelude.{
  ℕ, ◌+◌, ◌^◌, ◌<◌, Bool, true, false, ◌||◌, List, [], ◌∷◌, ◌==◌, if◌then◌else◌, length-replicate,
  arith,
}
use osdev.Kshell.{
  Shell, AnsiState, s_none, s_esc, s_csi, hist_newline, hist_up, hist_down, type_char, erase_char,
  on_plain, on_csi, kconsumer_shell, Arrow, key_up, key_down, other_key, kconsumer_arrows,
  kshell_start,
}
use osdev.Kshell.Bounds.{
  IsShell, hist_up-IsShell, hist_down-IsShell, hist_newline-IsShell, type_char-IsShell,
  erase_char-IsShell,
}

-- Only the state of the escape sequence differs.
with_state : (s : Shell) (st : AnsiState) → IsShell s → IsShell (record s { state = st })
with_state s st h = record {
  sizes = h.sizes;
  line = h.line;
  saved = h.saved;
  ptr = h.ptr;
  count = h.count;
  shown = h.shown;
}

IsShell-if : (b : Bool) {s s' : Shell} → IsShell s → IsShell s' → IsShell (if b then s else s')
IsShell-if true h k = h
IsShell-if false h k = k

on_plain-IsShell : (s : Shell) (c : ℕ) → IsShell s → IsShell (on_plain s c)
unfolding on_plain
on_plain-IsShell s c h =
    IsShell-if (c == 27) {s = record s { state = s_esc }} (with_state s s_esc h) (
      IsShell-if (c == 10) {s = hist_newline s} (hist_newline-IsShell s h) (
        IsShell-if ((c == 8) || (c == 127)) {s = erase_char s} {s' = type_char s c}
          (erase_char-IsShell s h) (type_char-IsShell s c h)))

on_csi-IsShell : (s : Shell) (c : ℕ) → IsShell s → IsShell (on_csi s c)
unfolding on_csi
on_csi-IsShell s c h =
    IsShell-if (c == 65) {s = hist_up s'} (hist_up-IsShell s' h')
      (IsShell-if (c == 66) {s = hist_down s'} {s' = s'} (hist_down-IsShell s' h') h')
  where
    s' : Shell
    s' = record s { state = s_none }

    h' : IsShell s'
    h' = with_state s s_none h

kconsumer_shell-IsShell : (s : Shell) (ch : ℕ) → IsShell s → IsShell (kconsumer_shell s ch)
unfolding kconsumer_shell
kconsumer_shell-IsShell s ch h = at s.state
  where
    c : ℕ
    c = if ch == 13 then 10 else ch

    at :
        (st : AnsiState)
        → IsShell (elim st [
          | s_none ↦ on_plain s c
          | s_esc ↦ record s { state = if c == 91 then s_csi else s_none }
          | s_csi ↦ on_csi s c
        ])
    at s_none = on_plain-IsShell s c h
    at s_esc = with_state s (if c == 91 then s_csi else s_none) h
    at s_csi = on_csi-IsShell s c h

kconsumer_arrows-IsShell :
    (s : Shell) (pressed : Bool) (key : Arrow)
    → IsShell s
    → IsShell (kconsumer_arrows s pressed key)
unfolding kconsumer_arrows
kconsumer_arrows-IsShell s false key h = h
kconsumer_arrows-IsShell s true key_up h = hist_up-IsShell s h
kconsumer_arrows-IsShell s true key_down h = hist_down-IsShell s h
kconsumer_arrows-IsShell s true other_key h = h

-- The two kinds of events that the shell is registered for.
pub data Event : Type 0 where
  char : ℕ → Event
  key : Bool → Arrow → Event

abbrev pub on_event : Shell → Event → Shell
on_event s (char ch) = kconsumer_shell s ch
on_event s (key pressed k) = kconsumer_arrows s pressed k

abbrev pub on_events : Shell → List Event → Shell
on_events s [] = s
on_events s (e ∷ es) = on_events (on_event s e) es

on_events-IsShell : (s : Shell) (es : List Event) → IsShell s → IsShell (on_events s es)
on_events-IsShell s [] h = h
on_events-IsShell s (char ch ∷ es) h =
    on_events-IsShell (kconsumer_shell s ch) es (kconsumer_shell-IsShell s ch h)
on_events-IsShell s (key pressed k ∷ es) h =
    on_events-IsShell (kconsumer_arrows s pressed k) es (kconsumer_arrows-IsShell s pressed k h)

-- After `kshell_init` with a line of at least one character and a history of at least one line,
-- whatever characters and keys arrive, the end of the line is inside its buffer of `len + 1` bytes,
-- both buffers keep their size, the history holds no more lines than it has room for, and the
-- history pointer is -1 or one of them.
pub kshell_start-IsShell :
    (len hist_len : ℕ) (es : List Event)
    → 0 < len
    → len < 2 ^ 31
    → 0 < hist_len
    → IsShell (on_events (kshell_start len hist_len) es)
unfolding kshell_start
kshell_start-IsShell len hist_len es some_line small some_hist =
    on_events-IsShell (kshell_start len hist_len) es (record {
      sizes = (some_line, small, some_hist);
      line = length-replicate (len + 1) nul;
      saved = length-replicate (len + 1) nul;
      ptr = omega arith;
      count = omega arith;
      shown = tt;
    })
  where
    nul : ℕ
    nul = 0
