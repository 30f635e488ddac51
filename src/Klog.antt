-- ===== src/Klog.antt =====
-- kernel/klog.c and lib/stdio/setcolor.c: messages of the log with their prefix, as the calls of
-- `puts` and `setcolor` that they make, and the codes that the serial line gets for colours. `none`
-- is a read past the end of an array, or a write past the end of `prefix`.
mod Line
mod Tests
use osdev.Prelude.{
  ℕ, ◌+◌, Option, none, some, List, [], ◌∷◌, ◌++◌, ◌==◌, leb, if◌then◌else◌, length,
}

-- A call of the console, with the text that `puts` reads up to its terminator.
pub data Call : Type 0 where
  puts : List ℕ → Call
  setcolor : ℕ → ℕ → Call

abbrev pub fg_black : ℕ
fg_black = 0

abbrev pub fg_red : ℕ
fg_red = 4

abbrev pub fg_gray : ℕ
fg_gray = 7

abbrev pub fg_yellow : ℕ
fg_yellow = 14

-- The size of `prefix`.
abbrev pub prefix_size : ℕ
prefix_size = 32

-- The bytes before the terminator.
unfoldable pub text_of : List ℕ → Option (List ℕ)
text_of [] = none
text_of (c ∷ s) =
    if c == 0 then some [] else elim (text_of s) [ none ↦ none | some t ↦ some (c ∷ t) ]

-- "INFO", "WARN" or " ERR".
unfoldable pub level_text : ℕ → List ℕ
level_text level =
    if level == 0
    then 73 ∷ 78 ∷ 70 ∷ 79 ∷ []
    else if level == 1
    then 87 ∷ 65 ∷ 82 ∷ 78 ∷ []
    else if level == 2
    then 32 ∷ 69 ∷ 82 ∷ 82 ∷ []
    else []

-- '[', the namespace, ']', ' ', the level, ':' and ' '.
unfoldable pub prefix_text : ℕ → List ℕ → List ℕ
unfolding level_text
prefix_text level name = 91 ∷ (name ++ (93 ∷ 32 ∷ (level_text level ++ (58 ∷ 32 ∷ []))))

unfoldable pub fit : List ℕ → Option (List ℕ)
fit text = if leb (length text + 1) prefix_size then some (text ++ (0 ∷ [])) else none

unfoldable pub klog_prefix : ℕ → List ℕ → Option (List ℕ)
unfolding text_of prefix_text fit
klog_prefix level namespace = elim (text_of namespace) [
  | none ↦ none
  | some name ↦ fit (prefix_text level name)
]

unfoldable pub level_color : ℕ → List Call
level_color level =
    if level == 0
    then setcolor fg_gray fg_black ∷ []
    else if level == 1
    then setcolor fg_yellow fg_black ∷ []
    else if level == 2
    then setcolor fg_red fg_black ∷ []
    else []

-- The calls of `klog` once the two arrays have been read.
unfoldable pub klog_calls : ℕ → Option (List ℕ) → Option (List ℕ) → Option (List Call)
unfolding level_color
klog_calls level none text = none
klog_calls level (some prefix) none = none
klog_calls level (some prefix) (some text) =
    some (level_color level ++ (puts prefix ∷ puts text ∷ setcolor fg_gray 0 ∷ []))

unfoldable pub klog : ℕ → List ℕ → List ℕ → Option (List Call)
unfolding klog_prefix text_of klog_calls
klog level namespace s = elim (klog_prefix level namespace) [
  | none ↦ none
  | some prefix ↦ klog_calls level (text_of prefix) (text_of s)
]

-- The code for a colour of the foreground; 39 is the default.
unfoldable pub ansi_fg : ℕ → ℕ
ansi_fg color =
    if color == 0
    then 30
    else if color == 1
    then 34
    else if color == 14
    then 33
    else if color == 3
    then 36
    else if color == 7
    then 39
    else if color == 2
    then 32
    else if color == 5
    then 35
    else if color == 4
    then 31
    else 39

-- The code for a colour of the background; the source's default is that of the foreground.
unfoldable pub ansi_bg : ℕ → ℕ
ansi_bg color =
    if color == 0
    then 40
    else if color == 0x10
    then 44
    else if color == 0xE0
    then 43
    else if color == 0x30
    then 46
    else if color == 0x70
    then 49
    else if color == 0x20
    then 42
    else if color == 0x50
    then 45
    else if color == 0x40
    then 41
    else 39
