-- ===== src/Kshell/Input.antt =====
-- The shell as a consumer of events: kernel/kshell.c behind kernel/kevent.c.
use osdev.Prelude.{ℕ, List, [], ◌∷◌, ◌==◌, if◌then◌else◌}
use osdev.Kevent.{KeventConsumer, kevent_key, kevent_char, key_keycode, key_pressed, ch_character}
use osdev.Kevent.Key.{key_up, key_down, keycode}
use osdev.Kshell
use osdev.Kshell.{Shell, Arrow, kconsumer_shell, kconsumer_arrows}

abbrev pub arrow_of : ℕ → Arrow
arrow_of code =
    if code == keycode key_up
    then Kshell.key_up
    else if code == keycode key_down
    then Kshell.key_down
    else Kshell.other_key

-- What `kshell_init` registers, in its order.
abbrev pub consumer_shell : KeventConsumer Shell
consumer_shell = record {
  callback = λ evt s. kconsumer_shell s (ch_character evt);
  ctype = kevent_char;
}

abbrev pub consumer_arrows : KeventConsumer Shell
consumer_arrows = record {
  callback = λ evt s. kconsumer_arrows s (key_pressed evt) (arrow_of (key_keycode evt));
  ctype = kevent_key;
}

abbrev pub shell_consumers : List (KeventConsumer Shell)
shell_consumers = consumer_shell ∷ consumer_arrows ∷ []
