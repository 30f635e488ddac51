-- ===== src/Serial/Tests.antt =====
-- A port where one byte waits, and an interrupt inside `serial_putc`.
use osdev.Prelude.{ℕ, ◌≡◌, ◌++◌, refl, true, some, [], ◌∷◌, arith, replicate}
use osdev.RingBuffer.{RingBuffer, rb_init, rb_full, load_bytes}
use osdev.Kevent.{sizeof_input}
use osdev.Kevent.Waiting.{rb_init-Waiting}
use osdev.Serial.{Serial, interrupted_send}
use osdev.Serial.Order.{InUse}
use osdev.Serial.Race.{interrupted_send-extra}

abbrev no_events : RingBuffer
no_events = rb_init (replicate 192 0) 16 sizeof_input

abbrev one_waiting : Serial
one_waiting = record {
  rb_tx = record { storage = 104 ∷ replicate 127 0; head = 1; tail = 0; size = 128; elem_size = 1 };
  wire = 111 ∷ [];
  events = no_events;
}

one_waiting-InUse : InUse one_waiting (104 ∷ [])
unfolding load_bytes
one_waiting-InUse = record {
  holds = record {
    valid = record {
      small = omega arith;
      head_in = omega arith;
      tail_in = omega arith;
      fits = omega arith;
      addressable = omega arith;
    };
    segment = (omega arith, refl, refl);
  };
  sized = refl;
  events = ([], rb_init-Waiting (replicate 192 0) refl);
}

interrupted_send-extra_example :
    (s' : Serial) × (last : ℕ) × (interrupted_send 2 0 one_waiting ≡ some s')
    × (s'.wire ≡ ((111 ∷ []) ++ (104 ∷ [])) ++ (last ∷ []))
    × (rb_full s'.rb_tx ≡ true)
interrupted_send-extra_example =
    interrupted_send-extra one_waiting 104 [] 0 one_waiting-InUse (omega arith)
