-- ===== src/Serial/Race.antt =====
-- An interrupt inside `serial_putc`: it and the handler both take bytes from the ring, and neither
-- holds a lock.
use osdev.Prelude.{
  ℕ, zero, suc, ◌≤◌, ◌≡◌, refl, sym, ap, ◌∙◌, inl, inr, Bool, true, false, Option, none, some, List,
  [], ◌∷◌, ◌++◌, arith, ◌==◌, if◌then◌else◌, length, get_or, map, Bool-cases,
}
use mathlib.Core.List.{append_assoc, append-nil}
use osdev.RingBuffer.{RingBuffer, rb_get, rb_empty, rb_full, load_bytes, byte_offset, next_index}
use osdev.RingBuffer.Client.{rb_get-empty, rb_get-first}
use osdev.Serial.{Serial, send_byte, send_bytes, serial_irq, take_byte, interrupted_send}
use osdev.Serial.Order.{InUse, one_byte}

-- Where the ring is not empty, the parts after the test make up the whole.
pub send_byte-take_byte :
    (s s' : Serial)
    → rb_empty s.rb_tx ≡ false
    → take_byte s ≡ some s'
    → send_byte s ≡ some (true, s')
unfolding send_byte take_byte rb_get
send_byte-take_byte s s' some_byte taken =
    ap (λ e. sent e (s.rb_tx.size == 0)) some_byte ∙ same (s.rb_tx.size == 0) ∙ ap tagged taken
  where
    elem : List ℕ
    elem = load_bytes s.rb_tx.storage (byte_offset s.rb_tx s.rb_tx.tail) s.rb_tx.elem_size

    after : RingBuffer
    after = record s.rb_tx { tail = next_index s.rb_tx s.rb_tx.tail }

    written : Serial
    written = record s { rb_tx = after; wire = s.wire ++ (get_or elem 0 0 ∷ []) }

    tagged : Option Serial → Option (Bool × Serial)
    tagged r = elim r [ none ↦ none | some v ↦ some (true, v) ]

    reply : Bool → Bool → Option (ℕ × Option (List ℕ) × RingBuffer)
    reply e z =
        if e then some (1, none, s.rb_tx) else if z then none else some (0, some elem, after)

    sent : Bool → Bool → Option (Bool × Serial)
    sent e z = elim (reply e z) [
      | none ↦ none
      | some (r, none, rb) ↦ some (false, record s { rb_tx = rb })
      | some (r, some byte, rb) ↦
          some (true, record s { rb_tx = rb; wire = s.wire ++ (get_or byte 0 0 ∷ []) })
    ]

    same : (z : Bool) → sent false z ≡ tagged (if z then none else some written)
    same true = refl
    same false = refl

-- An empty transmitter takes all bytes that wait, if it has room for them.
Drained : ℕ → Serial → List ℕ → Type 0
Drained n s bytes =
    (s' : Serial) × (send_bytes n s ≡ some s') × (s'.wire ≡ s.wire ++ bytes) × InUse s' []

send_bytes-Drained :
    (n : ℕ) (s : Serial) (bytes : List ℕ) → InUse s bytes → length bytes ≤ n → Drained n s bytes
unfolding send_bytes send_byte Drained
send_bytes-Drained zero s [] h room = (s, refl, sym (append-nil s.wire), h)
send_bytes-Drained zero s (b ∷ bytes) h room = absurd (omega arith)
send_bytes-Drained (suc n) s [] h room =
    let (rb, returned, k) = rb_get-empty s.rb_tx h.holds in
    (
      record s { rb_tx = rb },
      rw (send_bytes, send_byte, returned) refl,
      sym (append-nil s.wire),
      record { holds = k.held; sized = k.same_elem ∙ h.sized; events = h.events },
    )
send_bytes-Drained (suc n) s (b ∷ bytes) h room =
    let (rb, returned, k) = rb_get-first s.rb_tx (b ∷ []) (map one_byte bytes) h.holds in
    let s1 = record s { rb_tx = rb; wire = s.wire ++ (b ∷ []) } in
    let (s', more, wire, still) =
      send_bytes-Drained n s1 bytes
        (record { holds = k.held; sized = k.same_elem ∙ h.sized; events = h.events })
        (omega arith) in
    (
      s',
      rw (send_bytes, send_byte, returned) more,
      wire ∙ append_assoc s.wire (b ∷ []) bytes,
      still,
    )

InUse-nonempty :
    (s : Serial) (b : ℕ) (bytes : List ℕ) → InUse s (b ∷ bytes) → rb_empty s.rb_tx ≡ false
unfolding rb_get
InUse-nonempty s b bytes h =
    let (rb, returned, k) = rb_get-first s.rb_tx (b ∷ []) (map one_byte bytes) h.holds in
    elim (Bool-cases (rb_empty s.rb_tx)) [
      | inr p ↦ p
      | inl p ↦ absurd (apart (rw (rb_get, p) at returned))
    ]
  where
    Answer : Type 0
    Answer = Option (ℕ × Option (List ℕ) × RingBuffer)

    apart :
        {rb rb' : RingBuffer}
        → ◌≡◌ {A = Answer} (some (1, none, rb)) (some (0, some (b ∷ []), rb'))
        → ⊥
    apart e = absurd (cc)

-- Taking a byte from an empty ring leaves a full one.
take_byte-full :
    (s : Serial)
    → InUse s []
    → (s' : Serial) × (last : ℕ) × (take_byte s ≡ some s')
      × (s'.wire ≡ s.wire ++ (last ∷ []))
      × (rb_full s'.rb_tx ≡ true)
unfolding take_byte rb_full
take_byte-full s h = (
  record s {
    rb_tx = record s.rb_tx { tail = next_index s.rb_tx s.rb_tx.tail };
    wire = s.wire ++ (last ∷ []);
  },
  last,
  rw (take_byte, sized) refl,
  refl,
  rw (rb_full, sized)
      (ap (λ t. next_index s.rb_tx s.rb_tx.head == next_index s.rb_tx t) h.holds.segment
        ∙ ground arith),
)
  where
    last : ℕ
    last =
        get_or (load_bytes s.rb_tx.storage (byte_offset s.rb_tx s.rb_tx.tail) s.rb_tx.elem_size) 0 0

    sized : (s.rb_tx.size == 0) ≡ false
    sized = ground (arith, h.holds.valid.tail_in)

-- On a port in use, where at least one byte waits and at most 16 do, an interrupt for an empty
-- transmitter that comes inside `serial_putc`, after the test of its `rb_get` and before the copy:
-- the handler sends all bytes that wait, `serial_putc` sends one byte more than were written, and
-- the ring, from which nothing is left to send, is full afterwards.
pub interrupted_send-extra :
    (s : Serial) (b : ℕ) (bytes : List ℕ) (byte : ℕ)
    → InUse s (b ∷ bytes)
    → length (b ∷ bytes) ≤ 16
    → (s' : Serial) × (last : ℕ) × (interrupted_send 2 byte s ≡ some s')
      × (s'.wire ≡ (s.wire ++ (b ∷ bytes)) ++ (last ∷ []))
      × (rb_full s'.rb_tx ≡ true)
unfolding interrupted_send serial_irq Drained
interrupted_send-extra s b bytes byte h few =
    let (s1, drained, wire1, still) = send_bytes-Drained 16 s (b ∷ bytes) h few in
    let (s', last, taken, wire', full) = take_byte-full s1 still in
    (
      s',
      last,
      ap (choose (send_bytes 16 s)) (InUse-nonempty s b bytes h) ∙ ap then_take drained ∙ taken,
      wire' ∙ ap (λ w. w ++ (last ∷ [])) wire1,
      full,
    )
  where
    then_take : Option Serial → Option Serial
    then_take r = elim r [ none ↦ none | some v ↦ take_byte v ]

    choose : Option Serial → Bool → Option Serial
    choose r e = if e then r else then_take r
