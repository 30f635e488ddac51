-- ===== src/Serial/Order.antt =====
-- Bytes go out in the order in which they were written, where no interrupt comes inside a round of
-- `serial_putc`.
use osdev.Prelude.{
  ℕ, zero, suc, ◌%◌, ◌/◌, ◌^◌, ◌≡◌, refl, sym, ap, ◌∙◌, inl, inr, Bool, true, false, some, List, [],
  ◌∷◌, ◌++◌, map, arith, ◌==◌, ◌||◌, if◌then◌else◌, test_bit, replicate, ◌<◌, subst,
}
use mathlib.Core.List.{append_assoc, append-nil, map-append}
use osdev.RingBuffer.{RingBuffer, rb_init, rb_put}
use osdev.RingBuffer.Segments.{Holds}
use osdev.RingBuffer.Client.{rb_get-empty, rb_get-first, rb_put_cases}
use osdev.Kevent.{KeventInput, kevent_char}
use osdev.Kevent.Waiting.{Waiting, kinput-Waiting}
use osdev.Serial.{
  Serial, serial_init, send_byte, serial_putc_round, send_bytes, received, serial_irq, Happening,
  writing, interrupt, serial_run,
}

abbrev pub one_byte : ℕ → List ℕ
one_byte b = b ∷ []

-- The bytes that wait for the port, and the rings in still.
pub record InUse (s : Serial) (bytes : List ℕ) : Type 0 where
  pub holds : Holds s.rb_tx (map one_byte bytes)
  pub sized : s.rb_tx.elem_size ≡ 1
  pub events : (es : List KeventInput) × Waiting s.events es

-- What was sent goes from the waiting bytes to the wire.
Sends : Serial → List ℕ → Serial → Type 0
Sends s bytes s' =
    (sent left : List ℕ) × (bytes ≡ sent ++ left) × (s'.wire ≡ s.wire ++ sent) × InUse s' left

send_byte-Sends :
    (s : Serial) (bytes : List ℕ)
    → InUse s bytes
    → (b : Bool) × (s' : Serial) × (send_byte s ≡ some (b, s')) × Sends s bytes s'
unfolding send_byte Sends
send_byte-Sends s [] h =
    let (rb, returned, k) = rb_get-empty s.rb_tx h.holds in
    (
      false,
      record s { rb_tx = rb },
      rw (send_byte, returned) refl,
      (
        [],
        [],
        refl,
        sym (append-nil s.wire),
        record { holds = k.held; sized = k.same_elem ∙ h.sized; events = h.events },
      ),
    )
send_byte-Sends s (b ∷ bytes) h =
    let (rb, returned, k) = rb_get-first s.rb_tx (b ∷ []) (map one_byte bytes) h.holds in
    (
      true,
      record s { rb_tx = rb; wire = s.wire ++ (b ∷ []) },
      rw (send_byte, returned) refl,
      (
        b ∷ [],
        bytes,
        refl,
        refl,
        record { holds = k.held; sized = k.same_elem ∙ h.sized; events = h.events },
      ),
    )

Sends-trans :
    (s s' s'' : Serial) (bytes : List ℕ)
    → (sent left : List ℕ) → bytes ≡ sent ++ left
    → s'.wire ≡ s.wire ++ sent
    → Sends s' left s''
    → Sends s bytes s''
unfolding Sends
Sends-trans s s' s'' bytes sent left split wire (sent', left', split', wire', still) = (
  sent ++ sent',
  left',
  split ∙ ap (λ l. sent ++ l) split' ∙ sym (append_assoc sent sent' left'),
  wire' ∙ ap (λ w. w ++ sent') wire ∙ append_assoc s.wire sent sent',
  still,
)

send_bytes-Sends :
    (n : ℕ) (s : Serial) (bytes : List ℕ)
    → InUse s bytes
    → (s' : Serial) × (send_bytes n s ≡ some s') × Sends s bytes s'
unfolding send_bytes Sends
send_bytes-Sends zero s bytes h = (s, refl, ([], bytes, refl, sym (append-nil s.wire), h))
send_bytes-Sends (suc n) s bytes h = from (send_byte-Sends s bytes h) (send_bytes-Sends n)
  where
    from :
        ((b : Bool) × (s' : Serial) × (send_byte s ≡ some (b, s')) × Sends s bytes s')
        → ((s : Serial) (bytes : List ℕ)
            → InUse s bytes
            → (s' : Serial) × (send_bytes n s ≡ some s') × Sends s bytes s')
        → (s' : Serial) × (send_bytes (suc n) s ≡ some s') × Sends s bytes s'
    from (false, s', ran, moved) next = (s', rw (send_bytes, ran) refl, moved)
    from (true, s', ran, (sent, left, split, wire, still)) next =
        let (s'', more, moved) = next s' left still in
        (s'', rw (send_bytes, ran) more, Sends-trans s s' s'' bytes sent left split wire moved)

nothing_sent :
    (s s' : Serial) (bytes : List ℕ) → s'.wire ≡ s.wire → InUse s' bytes → Sends s bytes s'
unfolding Sends
nothing_sent s s' bytes wire h = ([], bytes, refl, wire ∙ sym (append-nil s.wire), h)

-- A byte that is received becomes an event, if there is room for it.
received-Sends :
    (byte : ℕ) (s : Serial) (bytes : List ℕ)
    → byte < 256
    → InUse s bytes
    → (s' : Serial) × (received byte s ≡ some s') × Sends s bytes s'
unfolding received
received-Sends byte s bytes small h =
    let (es, waiting) = h.events in
    elim (kinput-Waiting s.events es
      (record { itype = kevent_char; payload = byte ∷ replicate 7 0 }) waiting
      (record { itype_small = omega arith; payload_size = refl })) [
        | inl (rb, full, after) ↦ (
          record s { events = rb },
          rw (received, full) refl,
          nothing_sent s _ bytes refl
              (record { holds = h.holds; sized = h.sized; events = (es, after) }),
        )
        | inr (rb, room, after) ↦ (
          record s { events = rb },
          rw (received, room) refl,
          nothing_sent s _ bytes refl
              (record { holds = h.holds; sized = h.sized; events = (_, after) }),
        )
      ]

serial_irq-Sends :
    (isr byte : ℕ) (s : Serial) (bytes : List ℕ)
    → byte < 256
    → InUse s bytes
    → (s' : Serial) × (serial_irq isr byte s ≡ some s') × Sends s bytes s'
unfolding serial_irq
serial_irq-Sends isr byte s bytes small h =
    from (test_bit isr 0) (isr / 2 % 2 ^ 3 == 1) ((isr / 2 % 2 ^ 3 == 2) || (isr / 2 % 2 ^ 3 == 6))
  where
    from :
        (a b c : Bool)
        → (s' : Serial) × ((if a
              then some s
              else if b
              then send_bytes 16 s
              else if c
              then received byte s
              else some s)
            ≡ some s')
          × Sends s bytes s'
    from true b c = (s, refl, nothing_sent s s bytes refl h)
    from false true c = send_bytes-Sends 16 s bytes h
    from false false true = received-Sends byte s bytes small h
    from false false false = (s, refl, nothing_sent s s bytes refl h)

with_byte : Bool → ℕ → List ℕ → List ℕ
with_byte done c bytes = if done then bytes ++ (c ∷ []) else bytes

serial_putc_round-Sends :
    (lsr c : ℕ) (s : Serial) (bytes : List ℕ)
    → InUse s bytes
    → (done : Bool) × (s' : Serial) × (serial_putc_round lsr c s ≡ some (done, s'))
      × Sends s (with_byte done c bytes) s'
unfolding serial_putc_round with_byte Sends
serial_putc_round-Sends lsr c s bytes h =
    elim (rb_put_cases s.rb_tx (map one_byte bytes) (c ∷ []) h.holds (sym h.sized)) [
      | inl (rb, full, k) ↦ (
        false,
        record s { rb_tx = rb },
        rw (serial_putc_round, full) refl,
        nothing_sent s _ bytes refl
            (record { holds = k.held; sized = k.same_elem ∙ h.sized; events = h.events }),
      )
      | inr (rb, room, k) ↦
          stored rb room
            (record {
              holds = subst (λ q. Holds rb q) (sym (map-append one_byte bytes (c ∷ []))) k.held;
              sized = k.same_elem ∙ h.sized;
              events = h.events;
            })
            (test_bit lsr 5) refl
    ]
  where
    Round : Type 0
    Round =
        (done : Bool) × (s' : Serial) × (serial_putc_round lsr c s ≡ some (done, s'))
        × Sends s (with_byte done c bytes) s'

    stored :
        (rb : RingBuffer)
        → rb_put s.rb_tx (c ∷ []) ≡ some (0, rb)
        → InUse (record s { rb_tx = rb }) (bytes ++ (c ∷ []))
        → (b : Bool) → test_bit lsr 5 ≡ b
        → Round
    stored rb room held true thr =
        let (sent, s', ran, moved) =
          send_byte-Sends (record s { rb_tx = rb }) (bytes ++ (c ∷ [])) held in
        (true, s', rw (serial_putc_round, room, thr, ran) refl, moved)
    stored rb room held false thr = (
      true,
      record s { rb_tx = rb },
      rw (serial_putc_round, room, thr) refl,
      nothing_sent s (record s { rb_tx = rb }) (bytes ++ (c ∷ [])) refl held,
    )

-- The bytes of the interrupts are bytes.
abbrev pub AreBytes : List Happening → Type 0
AreBytes [] = Unit
AreBytes (writing lsr c ∷ hs) = AreBytes hs
AreBytes (interrupt isr byte ∷ hs) = (byte < 256) × AreBytes hs

abbrev pub Ordered : List Happening → Serial → List ℕ → Type 0
Ordered hs s bytes =
    (s' : Serial) × (accepted sent left : List ℕ) × (serial_run hs s ≡ some (s', accepted))
    × (bytes ++ accepted ≡ sent ++ left)
    × (s'.wire ≡ s.wire ++ sent)
    × InUse s' left

regroup :
    (bytes accepted accepted' sent left sent' left' : List ℕ)
    → bytes ++ accepted ≡ (sent ++ left) ++ accepted'
    → left ++ accepted' ≡ sent' ++ left'
    → bytes ++ accepted ≡ (sent ++ sent') ++ left'
regroup bytes accepted accepted' sent left sent' left' first rest =
    first
    ∙ append_assoc sent left accepted'
    ∙ ap (λ l. sent ++ l) rest
    ∙ sym (append_assoc sent sent' left')

with_byte-accepted :
    (done : Bool) (c : ℕ) (bytes accepted : List ℕ)
    → bytes ++ (if done then c ∷ accepted else accepted) ≡ with_byte done c bytes ++ accepted
unfolding with_byte
with_byte-accepted true c bytes accepted = sym (append_assoc bytes (c ∷ []) accepted)
with_byte-accepted false c bytes accepted = refl

-- Whatever rounds of `serial_putc` and interrupts follow one another on a port in use, none of them
-- inside another, where `bytes`
-- wait and received bytes are below 256: no ring faults, and the bytes that wait, followed by
-- those that were stored, are the bytes that went to the wire followed by those that still wait:
-- none is lost, repeated or overtaken.
pub serial_run-order :
    (hs : List Happening) (s : Serial) (bytes : List ℕ)
    → InUse s bytes
    → AreBytes hs
    → Ordered hs s bytes
unfolding serial_run Sends
serial_run-order [] s bytes h k =
    (s, [], [], bytes, refl, append-nil bytes, sym (append-nil s.wire), h)
serial_run-order (writing lsr c ∷ hs) s bytes h k =
    let (done, s', ran, (sent, left, split, wire, still)) =
      serial_putc_round-Sends lsr c s bytes h in
    let (s'', accepted, sent', left', more, order, wire', last) =
      serial_run-order hs s' left still k in
    (
      s'',
      (if done then c ∷ accepted else accepted),
      sent ++ sent',
      left',
      rw (serial_run, ran, more) refl,
      regroup bytes _ accepted sent left sent' left'
          (with_byte-accepted done c bytes accepted ∙ ap (λ l. l ++ accepted) split) order,
      wire' ∙ ap (λ w. w ++ sent') wire ∙ append_assoc s.wire sent sent',
      last,
    )
serial_run-order (interrupt isr byte ∷ hs) s bytes h k =
    let (s', ran, (sent, left, split, wire, still)) = serial_irq-Sends isr byte s bytes k.0 h in
    let (s'', accepted, sent', left', more, order, wire', last) =
      serial_run-order hs s' left still k.1 in
    (
      s'',
      accepted,
      sent ++ sent',
      left',
      rw (serial_run, ran) more,
      regroup bytes accepted accepted sent left sent' left' (ap (λ l. l ++ accepted) split) order,
      wire' ∙ ap (λ w. w ++ sent') wire ∙ append_assoc s.wire sent sent',
      last,
    )

-- The port that `serial_init` sets up is in use, with no byte waiting.
pub serial_init-InUse :
    (events : RingBuffer) (es : List KeventInput)
    → Waiting events es
    → InUse (serial_init events) []
unfolding serial_init rb_init
serial_init-InUse events es h = record {
  holds = record {
    valid = record {
      small = omega arith;
      head_in = omega arith;
      tail_in = omega arith;
      fits = omega arith;
      addressable = omega arith;
    };
    segment = refl;
  };
  sized = refl;
  events = (es, h);
}
