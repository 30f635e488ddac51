-- ===== src/Kshell/Dispatch.antt =====
-- From a line of the shell to the command that it runs.
use osdev.Prelude.{
  ℕ, ◌≡◌, ◌≢◌, refl, inl, inr, true, false, Option, some, List, [], ◌∷◌, ◌++◌, arith,
}
use osdev.CString.{strcmp, in_set}
use osdev.CString.Token.{AreIn, Ends, strtok_r-token}
use osdev.Ext2.{Ext2}
use osdev.Kshell.Commands.{
  kc_read, kc_stat, usage_read, usage_stat, kshell_hash, Answer, command_read, command_stat, blank,
  with_path, kshell_proc,
}

-- Spaces, and characters that are neither a space nor the terminator.
abbrev pub AreSpaces : List ℕ → Type 0
AreSpaces [] = Unit
AreSpaces (c ∷ s) = (c ≡ 32) × AreSpaces s

abbrev pub IsWord : List ℕ → Type 0
IsWord [] = Unit
IsWord (c ∷ s) = (c ≢ 0) × (c ≢ 32) × IsWord s

spaces_in : (gap : List ℕ) → AreSpaces gap → AreIn true blank gap
unfolding in_set
spaces_in [] h = tt
spaces_in (c ∷ gap) h = (ground arith, ground arith, spaces_in gap h.1)

word_in : (word : List ℕ) → IsWord word → AreIn false blank word
unfolding in_set
word_in [] h = tt
word_in (c ∷ word) h = (h.0, ground arith, word_in word h.2)

space-Ends : Ends false blank 32
unfolding in_set
space-Ends = inr (ground arith, refl)

-- The line of a command with a path.
abbrev pub command_line : List ℕ → List ℕ → List ℕ → List ℕ → List ℕ → List ℕ
command_line gap command gap' path rest = gap ++ (command ++ (32 ∷ (gap' ++ (path ++ (0 ∷ rest)))))

abbrev pub read_text : List ℕ
read_text = b'r' ∷ b'e' ∷ b'a' ∷ b'd' ∷ []

abbrev pub stat_text : List ℕ
stat_text = b's' ∷ b't' ∷ b'a' ∷ b't' ∷ []

read_text-IsWord : IsWord read_text
read_text-IsWord = (
  omega arith,
  omega arith,
  (omega arith, omega arith, (omega arith, omega arith, (omega arith, omega arith, tt))),
)

stat_text-IsWord : IsWord stat_text
stat_text-IsWord = (
  omega arith,
  omega arith,
  (omega arith, omega arith, (omega arith, omega arith, (omega arith, omega arith, tt))),
)

kshell_hash-read : kshell_hash (read_text ++ (0 ∷ [])) ≡ some kc_read
unfolding kshell_hash strcmp
kshell_hash-read = refl

kshell_hash-stat : kshell_hash (stat_text ++ (0 ∷ [])) ≡ some kc_stat
unfolding kshell_hash strcmp
kshell_hash-stat = refl

with_path-word :
    (run : List ℕ → Option Answer) (usage : Answer) (gap path rest : List ℕ) (a : ℕ)
    → AreSpaces gap
    → IsWord (a ∷ path)
    → with_path run usage (gap ++ ((a ∷ path) ++ (0 ∷ rest))) ≡ run ((a ∷ path) ++ (0 ∷ []))
with_path-word run usage gap path rest a h k =
    rw
      (
        with_path,
        strtok_r-token blank gap path rest a 0 (spaces_in gap h) (word_in (a ∷ path) k) (inl refl),
      )
      refl

module _ (fs : Ext2) (gap gap' path rest : List ℕ) (a : ℕ) (h : AreSpaces gap) (h' : AreSpaces gap')
    (k : IsWord (a ∷ path)) where
  runs_read :
      kshell_proc fs (command_line gap read_text gap' (a ∷ path) rest)
      ≡ command_read fs ((a ∷ path) ++ (0 ∷ []))
  unfolding kshell_proc
  runs_read =
      rw
        (
          kshell_proc,
          strtok_r-token blank gap (b'e' ∷ b'a' ∷ b'd' ∷ []) (gap' ++ ((a ∷ path) ++ (0 ∷ rest)))
              b'r' 32 (spaces_in gap h) (word_in read_text read_text-IsWord) space-Ends,
          kshell_hash-read,
        )
        (with_path-word (command_read fs) usage_read gap' path rest a h' k)

  runs_stat :
      kshell_proc fs (command_line gap stat_text gap' (a ∷ path) rest)
      ≡ command_stat fs ((a ∷ path) ++ (0 ∷ []))
  unfolding kshell_proc
  runs_stat =
      rw
        (
          kshell_proc,
          strtok_r-token blank gap (b't' ∷ b'a' ∷ b't' ∷ []) (gap' ++ ((a ∷ path) ++ (0 ∷ rest)))
              b's' 32 (spaces_in gap h) (word_in stat_text stat_text-IsWord) space-Ends,
          kshell_hash-stat,
        )
        (with_path-word (command_stat fs) usage_stat gap' path rest a h' k)

-- A line of spaces, the word "read" or "stat", a space or more, and a path of at least one
-- character without spaces, ended, runs that command with that path, whatever stands behind.
pub kshell_proc-command :
    (fs : Ext2) (gap gap' path rest : List ℕ) (a : ℕ)
    → AreSpaces gap
    → AreSpaces gap'
    → IsWord (a ∷ path)
    → (kshell_proc fs (command_line gap read_text gap' (a ∷ path) rest)
        ≡ command_read fs ((a ∷ path) ++ (0 ∷ [])))
      × (kshell_proc fs (command_line gap stat_text gap' (a ∷ path) rest)
          ≡ command_stat fs ((a ∷ path) ++ (0 ∷ [])))
kshell_proc-command fs gap gap' path rest a h h' k =
    (runs_read fs gap gap' path rest a h h' k, runs_stat fs gap gap' path rest a h h' k)
