-- ===== src/Kshell/Commands.antt =====
-- kernel/kshell.c: the commands of the shell, over the file system, and `kshell_init`.
-- Allocations of the commands are taken to succeed; what they print is their result.
use osdev.Prelude.{
  ℕ, Bool, true, false, ◌||◌, Option, none, some, List, [], ◌∷◌, ◌==◌, if◌then◌else◌, test_bit,
}
use osdev.CString.{Sign, less, equal, greater, strcmp, strtok_r}
use osdev.Ext2.{Ext2, got, too_big, no_memory}
use osdev.Ext2.Node.{
  Stat, filled, missing, null_stat, opened, no_entry, exists, is_directory, null_inode, ext2_open,
  ext2_stat, ext2_fstat, ext2_read,
}
use osdev.Kevent.{Kevents, kevent_register}
use osdev.Kshell.{Shell, text_of, kshell_start}
use osdev.Kshell.Input.{consumer_shell, consumer_arrows}

-- The macros S_ISREG to S_ISSOCK, which test for any bit of their mask.
abbrev pub mode_letter : ℕ → ℕ
mode_letter mode =
    if test_bit mode 15
    then b'-'
    else if test_bit mode 14
    then b'd'
    else if test_bit mode 15 || test_bit mode 13
    then b'l'
    else if test_bit mode 13
    then b'c'
    else if test_bit mode 14 || test_bit mode 13
    then b'b'
    else if test_bit mode 12
    then b'p'
    else if test_bit mode 15 || test_bit mode 14
    then b's'
    else b'?'

abbrev pub permission : ℕ → ℕ → ℕ → ℕ
permission mode bit letter = if test_bit mode bit then letter else b'-'

unfoldable pub mode_to_string : ℕ → List ℕ
mode_to_string mode =
    mode_letter mode
    ∷ permission mode 8 b'r'
    ∷ permission mode 7 b'w'
    ∷ permission mode 6 b'x'
    ∷ permission mode 5 b'r'
    ∷ permission mode 4 b'w'
    ∷ permission mode 3 b'x'
    ∷ permission mode 2 b'r'
    ∷ permission mode 1 b'w'
    ∷ permission mode 0 b'x'
    ∷ 0
    ∷ []

-- `enum kshell_commands`
pub data KshellCommand : Type 0 where
  kc_none kc_read kc_stat : KshellCommand

abbrev pub read_word : List ℕ
read_word = b'r' ∷ b'e' ∷ b'a' ∷ b'd' ∷ 0 ∷ []

abbrev pub stat_word : List ℕ
stat_word = b's' ∷ b't' ∷ b'a' ∷ b't' ∷ 0 ∷ []

abbrev pub is_equal : Sign → Bool
is_equal less = false
is_equal equal = true
is_equal greater = false

-- `none` is an overrun of a string that does not end.
unfoldable pub kshell_hash : List ℕ → Option KshellCommand
kshell_hash cmd = elim (strcmp cmd read_word) [
  | none ↦ none
  | some r ↦ if is_equal r then some kc_read else elim (strcmp cmd stat_word) [
    | none ↦ none
    | some t ↦ some (if is_equal t then kc_stat else kc_none)
  ]
]

-- What a command prints, if anything. Codes are those behind the minus sign.
pub data Answer : Type 0 where
  silence usage_read usage_stat : Answer
  not_a_command file_not_found : List ℕ → Answer
  stat_failed read_failed : ℕ → Answer
  contents : List ℕ → Answer
  status : List ℕ → Stat → List ℕ → Answer

-- `read` of a path. `none` is a read through a null pointer, or an overrun.
unfoldable pub command_read : Ext2 → List ℕ → Option Answer
command_read fs fp = elim (ext2_open fs fp 1 0) [
  | none ↦ none
  | some null_inode ↦ none
  | some no_entry ↦ some (file_not_found fp)
  | some exists ↦ some (stat_failed 5)
  | some is_directory ↦ some (stat_failed 6)
  | some (opened node) ↦ elim (ext2_fstat fs node) [
    | none ↦ none
    | some info ↦ elim (ext2_read fs node 0 info.st_size) [
      | none ↦ none
      | some too_big ↦ some (read_failed 3)
      | some no_memory ↦ some (read_failed 4)
      | some (got bytes) ↦ some (contents (text_of bytes))
    ]
  ]
]

unfoldable pub command_stat : Ext2 → List ℕ → Option Answer
unfolding mode_to_string
command_stat fs fp = elim (ext2_stat fs fp) [
  | none ↦ none
  | some null_stat ↦ none
  | some missing ↦ some (file_not_found fp)
  | some (filled info) ↦ some (status (mode_to_string info.st_mode) info fp)
]

abbrev pub blank : List ℕ
blank = b' ' ∷ 0 ∷ []

-- A command with its argument, the next token of the line.
abbrev pub with_path : (List ℕ → Option Answer) → Answer → List ℕ → Option Answer
with_path run usage save = elim (strtok_r save blank) [
  | none ↦ none
  | some (none, save') ↦ some usage
  | some (some fp, save') ↦ run fp
]

unfoldable pub kshell_proc : Ext2 → List ℕ → Option Answer
unfolding kshell_hash command_read command_stat
kshell_proc fs line = elim (strtok_r line blank) [
  | none ↦ none
  | some (none, save) ↦ some silence
  | some (some cmd, save) ↦ elim (kshell_hash cmd) [
    | none ↦ none
    | some kc_read ↦ with_path (command_read fs) usage_read save
    | some kc_stat ↦ with_path (command_stat fs) usage_stat save
    | some kc_none ↦ some (not_a_command cmd)
  ]
]

-- `kshell_init`: which of its three allocations succeed, and the consumers before it. The result is
-- the return value, the shell where it is in use, and the consumers.
unfoldable pub kshell_init :
    Bool → Bool → Bool → ℕ → ℕ → Kevents Shell → Option (ℕ × Option Shell × Kevents Shell)
unfolding kshell_start
kshell_init false save hist len hist_len k = some (1, none, k)
kshell_init true false hist len hist_len k = some (1, none, k)
kshell_init true true false len hist_len k = some (1, none, k)
kshell_init true true true len hist_len k = elim (kevent_register k consumer_shell) [
  | none ↦ none
  | some (r, k') ↦
      if r == 0
      then elim (kevent_register k' consumer_arrows) [
        | none ↦ none
        | some (r', k'') ↦ some (
          (if r' == 0 then 0 else 1),
          (if r' == 0 then some (kshell_start len hist_len) else none),
          k'',
        )
      ]
      else some (1, none, k')
]
