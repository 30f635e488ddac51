-- ===== src/Kshell/Tests.antt =====
-- A line of eight characters and a history of two lines.
use osdev.Prelude.{get_or, ◌<◌, ◌≡◌, refl, true, none, some, [], ◌∷◌, arith, length}
use osdev.Ext2.{Ext2, superblock_of}
use osdev.Kshell.Commands.{mode_to_string, command_read, command_stat, kshell_proc}
use osdev.Kshell.Dispatch.{command_line, read_text, stat_text, kshell_proc-command}
use osdev.Kshell.{Shell, s_none, key_up, kshell_start, text_of, load_line, hist_up, hist_down}
use osdev.Kshell.Bounds.{IsShell}
use osdev.Kshell.Events.{char, key, on_events, kshell_start-IsShell}
use osdev.Kshell.History.{hist_up-hist_down}

kshell_start-IsShell_example :
    IsShell
      (on_events (kshell_start 8 2) (char 97 ∷ char 13 ∷ key true key_up ∷ char 8 ∷ char 98 ∷ []))
kshell_start-IsShell_example =
    kshell_start-IsShell 8 2 (char 97 ∷ char 13 ∷ key true key_up ∷ char 8 ∷ char 98 ∷ [])
      (omega arith) (omega arith) (omega arith)

abbrev half_typed : Shell
half_typed = record {
  len = 4;
  hist_len = 2;
  shellptr = 2;
  histptr = none;
  shellbuf = 97 ∷ 98 ∷ 0 ∷ 0 ∷ 0 ∷ [];
  savebuf = 0 ∷ 0 ∷ 0 ∷ 0 ∷ 0 ∷ [];
  shellhist = (99 ∷ []) ∷ [];
  state = s_none;
}

half_typed-short : length (text_of half_typed.shellbuf) < 4
unfolding text_of
half_typed-short = omega arith

hist_up-hist_down_example :
    ((hist_up half_typed).histptr ≡ some 0)
    × ((hist_up half_typed).shellbuf ≡ load_line 4 (99 ∷ []) half_typed.shellbuf)
    × (text_of (hist_down (hist_up half_typed)).shellbuf ≡ text_of half_typed.shellbuf)
    × ((hist_down (hist_up half_typed)).shellptr ≡ length (text_of half_typed.shellbuf))
    × ((hist_down (hist_up half_typed)).histptr ≡ none)
hist_up-hist_down_example = hist_up-hist_down half_typed refl (omega arith) half_typed-short

-- A disk that cannot be read.
abbrev no_disk : Ext2
no_disk = record {
  sb = superblock_of [];
  inode_size = 128;
  inode_tables = [];
  vol_start = 0;
  dev = record { sector_size = 512; read = λ lba count. none };
  block_size = 1024;
}

kshell_proc-command_example :
    (kshell_proc no_disk (command_line (32 ∷ []) read_text [] (b'/' ∷ b'a' ∷ []) [])
      ≡ command_read no_disk (b'/' ∷ b'a' ∷ 0 ∷ []))
    × (kshell_proc no_disk (command_line (32 ∷ []) stat_text [] (b'/' ∷ b'a' ∷ []) [])
        ≡ command_stat no_disk (b'/' ∷ b'a' ∷ 0 ∷ []))
kshell_proc-command_example =
    kshell_proc-command no_disk (32 ∷ []) [] (b'a' ∷ []) [] b'/' (refl, tt) tt
      (omega arith, omega arith, (omega arith, omega arith, tt))

-- A symbolic link is shown as a file, and a block device as a directory.
mode_to_string-link : get_or (mode_to_string 0xA1FF) 0 0 ≡ b'-'
unfolding mode_to_string
mode_to_string-link = refl

mode_to_string-block : get_or (mode_to_string 0x61FF) 0 0 ≡ b'd'
unfolding mode_to_string
mode_to_string-block = refl
