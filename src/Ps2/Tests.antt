-- ===== src/Ps2/Tests.antt =====
-- "lS", typed with the left shift, after start-up.
use osdev.Prelude.{ℕ, ◌≡◌, refl, true, false, some, List, [], ◌∷◌, arith, replicate}
use osdev.RingBuffer.{RingBuffer, rb_init}
use osdev.Kevent.{sizeof_input, kevent_drain}
use osdev.Kevent.Key.{keycode, key_1}
use osdev.Kevent.Waiting.{Waiting, rb_init-Waiting}
use osdev.Kshell.{kshell_start}
use osdev.Kshell.Input.{shell_consumers}
use osdev.Ps2.{Ps2, ps2_switch, shifted, cased, ps2_char, ps2_irq, ps2_irqs}
use osdev.Ps2.Keys.{ps2_char-typed}
use osdev.Ps2.Extended.{ps2_irqs-extended}
use osdev.Ps2.Line.{type_chars, chars_of, NoArrows, ps2_irqs-type_chars}

abbrev idle : Ps2
idle = record { ext = false; shift = false; caps = false }

abbrev events_ring : RingBuffer
events_ring = rb_init (replicate 192 0) 16 sizeof_input

abbrev scancodes : List ℕ
scancodes = 0x26 ∷ 0xA6 ∷ 0x2A ∷ 0x1F ∷ 0x9F ∷ 0xAA ∷ 0x1C ∷ []

ps2_irqs-type_chars_example :
    (st' : Ps2) × (rb' rb'' : RingBuffer) × (ps2_irqs (replicate 8 0) idle scancodes events_ring
      ≡ some (st', rb'))
    × (kevent_drain 16 shell_consumers rb' (kshell_start 8 2)
        ≡ some (rb'', type_chars (kshell_start 8 2) (chars_of idle scancodes)))
    × Waiting rb'' []
ps2_irqs-type_chars_example =
    ps2_irqs-type_chars (replicate 8 0) idle scancodes events_ring (kshell_start 8 2) refl
      (rb_init-Waiting (replicate 192 0) refl) (omega arith) far
  where
    far : NoArrows scancodes
    far = (
      omega arith,
      omega arith,
      (
        omega arith,
        omega arith,
        (
          omega arith,
          omega arith,
          (
            omega arith,
            omega arith,
            (omega arith, omega arith, (omega arith, omega arith, (omega arith, omega arith, tt))),
          ),
        ),
      ),
    )

ps2_char-typed_example :
    ps2_char (record { ext = false; shift = true; caps = false }) (keycode key_1) ≡ 33
ps2_char-typed_example = ps2_char-typed false true false key_1 refl

ps2_irqs-extended_example :
    ps2_irqs (replicate 8 0) idle (0xE0 ∷ 0x48 ∷ 0x1E ∷ []) events_ring
    ≡ ps2_irq (replicate 8 0) idle 0xE0 events_ring
ps2_irqs-extended_example = ps2_irqs-extended (replicate 8 0) idle (0x48 ∷ 0x1E ∷ []) events_ring

-- The line is "lS", and then the newline.
chars_of-scancodes : chars_of idle scancodes ≡ b'l' ∷ b'S' ∷ 10 ∷ []
unfolding ps2_switch ps2_char shifted cased
chars_of-scancodes = refl
