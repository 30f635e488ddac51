-- ===== src/Kevent/Tests.antt =====
-- A consumer that keeps the characters it is handed, the latest first.
use osdev.Prelude.{ℕ, ◌≡◌, refl, some, List, [], ◌∷◌, arith, replicate}
use osdev.RingBuffer.{RingBuffer, rb_init}
use osdev.Kevent.{
  KeventInput, KeventConsumer, kevent_char, kevent_key, ch_character, Turn, input, loop,
  kevent_drain, sizeof_input,
}
use osdev.Kevent.Waiting.{Waiting, rb_init-Waiting}
use osdev.Kevent.Delivery.{Delivered, kevent_drain-ends, kevent_turns-order}

abbrev keeper : KeventConsumer (List ℕ)
keeper = record { callback = λ evt kept. ch_character evt ∷ kept; ctype = kevent_char }

abbrev letter : ℕ → KeventInput
letter c = record { itype = kevent_char; payload = c ∷ 0 ∷ 0 ∷ 0 ∷ 0 ∷ 0 ∷ 0 ∷ 0 ∷ [] }

abbrev a_key : KeventInput
a_key = record { itype = kevent_key; payload = 30 ∷ 0 ∷ 1 ∷ 0 ∷ 0 ∷ 0 ∷ 0 ∷ 0 ∷ [] }

abbrev events_ring : RingBuffer
events_ring = rb_init (replicate 192 0) 16 sizeof_input

abbrev turns : List Turn
turns = input a_key ∷ input (letter 97) ∷ loop ∷ loop ∷ loop ∷ input (letter 98) ∷ []

kevent_turns-order_example : Delivered (keeper ∷ []) turns events_ring [] []
kevent_turns-order_example =
    kevent_turns-order (keeper ∷ []) turns events_ring [] []
      (rb_init-Waiting (replicate 192 0) refl)
      (
        record { itype_small = omega arith; payload_size = refl },
        (
          record { itype_small = omega arith; payload_size = refl },
          (record { itype_small = omega arith; payload_size = refl }, tt),
        ),
      )

kevent_drain-ends_example :
    (rb' : RingBuffer) × (kevent_drain 1 (keeper ∷ []) events_ring [] ≡ some (rb', []))
    × Waiting rb' []
kevent_drain-ends_example =
    kevent_drain-ends (keeper ∷ []) events_ring [] [] 1 (rb_init-Waiting (replicate 192 0) refl)
      (omega arith)
