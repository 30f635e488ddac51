-- ===== src/Serial.antt =====
-- drivers/serial.c: the serial port, whose output waits in a ring of 128 bytes.
-- `wire` is what was written to COM1 from `serial_init` on, in order, and `events` the ring of
-- kernel/kevent.c. What `inb` returns is an argument. `none` is a fault of a ring.
mod Order
mod Race
mod Tests
use osdev.Prelude.{
  ℕ, zero, suc, ◌+◌, ◌*◌, ◌/◌, ◌%◌, ◌^◌, Bool, true, false, ◌||◌, Option, none, some, List, [], ◌∷◌,
  ◌++◌, ◌==◌, if◌then◌else◌, get_or, test_bit, replicate,
}
use osdev.RingBuffer.{
  RingBuffer, rb_init, rb_put, rb_get, rb_empty, load_bytes, byte_offset, next_index,
}
use osdev.Kevent.{KeventInput, kevent_char, kinput}

pub record Serial : Type 0 where
  pub rb_tx : RingBuffer
  pub wire : List ℕ
  pub events : RingBuffer

-- The ring that `serial_init` sets up; the registers that it writes configure the port.
unfoldable pub serial_init : RingBuffer → Serial
serial_init events = record { rb_tx = rb_init (replicate 128 0) 128 1; wire = []; events = events }

-- A byte of the ring to the port, if there is one: whether there was.
unfoldable pub send_byte : Serial → Option (Bool × Serial)
send_byte s = elim (rb_get s.rb_tx) [
  | none ↦ none
  | some (r, none, rb) ↦ some (false, record s { rb_tx = rb })
  | some (r, some byte, rb) ↦
      some (true, record s { rb_tx = rb; wire = s.wire ++ (get_or byte 0 0 ∷ []) })
]

-- One round of the loop of `serial_putc`, and what follows it where `rb_put` returned 0. `lsr` is the
-- line status. The result says whether `serial_putc` returns or goes round again. No interrupt comes
-- between its parts; `interrupted_send` is what one does there.
unfoldable pub serial_putc_round : ℕ → ℕ → Serial → Option (Bool × Serial)
unfolding send_byte
serial_putc_round lsr c s = elim (rb_put s.rb_tx (c ∷ [])) [
  | none ↦ none
  | some (r, rb) ↦
      if r == 0
      then (if test_bit lsr 5
          then elim (send_byte (record s { rb_tx = rb })) [
            | none ↦ none
            | some (sent, s') ↦ some (true, s')
          ]
          else some (true, record s { rb_tx = rb }))
      else some (false, record s { rb_tx = rb })
]

-- The loop of at most n bytes that an empty transmitter takes.
unfoldable pub send_bytes : ℕ → Serial → Option Serial
unfolding send_byte
send_bytes zero s = some s
send_bytes (suc n) s = elim (send_byte s) [
  | none ↦ none
  | some (false, s') ↦ some s'
  | some (true, s') ↦ send_bytes n s'
]

-- The event of a byte that was received.
unfoldable pub received : ℕ → Serial → Option Serial
received byte s =
    elim (kinput s.events (record { itype = kevent_char; payload = byte ∷ replicate 7 0 })) [
      | none ↦ none
      | some (r, rb) ↦ some (record s { events = rb })
    ]

-- `isr` is the identification of the interrupt, and `data` a byte that was received.
unfoldable pub serial_irq : ℕ → ℕ → Serial → Option Serial
unfolding send_bytes received
serial_irq isr byte s =
    let vec = isr / 2 % 2 ^ 3 in
    if test_bit isr 0
    then some s
    else if vec == 1
    then send_bytes 16 s
    else if (vec == 2) || (vec == 6)
    then received byte s
    else some s

-- What `serial_putc` does to the ring and the port once `rb_get` has found that the ring is not
-- empty: the copy, the step of the tail and `outb`.
unfoldable pub take_byte : Serial → Option Serial
unfolding load_bytes
take_byte s =
    let rb = s.rb_tx in
    let elem = load_bytes rb.storage (byte_offset rb rb.tail) rb.elem_size in
    if rb.size == 0
    then none
    else some (record s {
      rb_tx = record rb { tail = next_index rb rb.tail };
      wire = s.wire ++ (get_or elem 0 0 ∷ []);
    })

-- The end of `serial_putc` where an interrupt comes between the test of `rb_get` and its copy.
unfoldable pub interrupted_send : ℕ → ℕ → Serial → Option Serial
unfolding rb_empty serial_irq take_byte
interrupted_send isr byte s =
    let still = serial_irq isr byte s in
    if rb_empty s.rb_tx then still else elim still [ none ↦ none | some s' ↦ take_byte s' ]

-- What happens to the port: a round of `serial_putc` for a byte, or an interrupt, one after another.
pub data Happening : Type 0 where
  writing : ℕ → ℕ → Happening
  interrupt : ℕ → ℕ → Happening

-- The bytes that were stored: those for which `serial_putc` returns.
abbrev pub stored_with : Bool → ℕ → Option (Serial × List ℕ) → Option (Serial × List ℕ)
stored_with done c none = none
stored_with done c (some (s, bytes)) = some (s, if done then c ∷ bytes else bytes)

unfoldable pub serial_run : List Happening → Serial → Option (Serial × List ℕ)
serial_run [] s = some (s, [])
serial_run (writing lsr c ∷ hs) s = elim (serial_putc_round lsr c s) [
  | none ↦ none
  | some (done, s') ↦ stored_with done c (serial_run hs s')
]
serial_run (interrupt isr byte ∷ hs) s = elim (serial_irq isr byte s) [
  | none ↦ none
  | some s' ↦ serial_run hs s'
]
