-- ===== src/Kevent/Waiting.antt =====
-- The events that wait in the ring.
use osdev.Prelude.{
  ℕ, ◌+◌, ◌*◌, ◌/◌, ◌%◌, ◌^◌, ◌<◌, ◌≡◌, refl, sym, ap, ◌∙◌, inl, inr, none, some, List, [], ◌∷◌,
  ◌++◌, map, arith, length, length-map, ◌⊎◌, subst,
}
use mathlib.Core.List.{map-append}
use osdev.RingBuffer.{RingBuffer, rb_get, rb_init}
use osdev.RingBuffer.Queue.{Queue}
use osdev.RingBuffer.Segments.{Holds}
use osdev.RingBuffer.Client.{Keeps, rb_get-empty, rb_get-first, rb_put_cases, rb_put-room}
use osdev.Kevent.{KeventInput, event_bytes, event_of, kinput, sizeof_input, buf_size}

pub record IsEvent (evt : KeventInput) : Type 0 where
  pub itype_small : evt.itype < 2 ^ 32
  pub payload_size : length evt.payload ≡ 8

abbrev pub AreEvents : List KeventInput → Type 0
AreEvents [] = Unit
AreEvents (e ∷ es) = IsEvent e × AreEvents es

bytes_join :
    (n : ℕ)
    → n < 2 ^ 32
    → n % 256
        + 2 ^ 8 * (n / 2 ^ 8 % 256)
        + 2 ^ 16 * (n / 2 ^ 16 % 256)
        + 2 ^ 24 * (n / 2 ^ 24 % 256)
      ≡ n
bytes_join n h = omega arith

pub event_of-event_bytes : (e : KeventInput) → IsEvent e → event_of (event_bytes e) ≡ e
unfolding event_of event_bytes
event_of-event_bytes e h = ap typed (bytes_join e.itype h.itype_small)
  where
    typed : ℕ → KeventInput
    typed n = record { itype = n; payload = e.payload }

length-event_bytes : (e : KeventInput) → IsEvent e → length (event_bytes e) ≡ sizeof_input
unfolding event_bytes
length-event_bytes e h = omega (arith, h.payload_size)

pub record Waiting (rb : RingBuffer) (es : List KeventInput) : Type 0 where
  pub holds : Holds rb (map event_bytes es)
  pub slots : rb.size ≡ buf_size
  pub sized : rb.elem_size ≡ sizeof_input
  pub events : AreEvents es

-- The ring after a call still has the events' size and slots.
kept :
    (rb rb' : RingBuffer) (q : Queue) (es es' : List KeventInput)
    → Waiting rb es
    → Keeps rb rb' q
    → q ≡ map event_bytes es'
    → AreEvents es'
    → Waiting rb' es'
kept rb rb' q es es' h k same events = record {
  holds = subst (λ q. Holds rb' q) same k.held;
  slots = k.same_size ∙ h.slots;
  sized = k.same_elem ∙ h.sized;
  events = events;
}

-- A `get` hands over the first event that waits, or finds none.
abbrev pub AfterGet : RingBuffer → List KeventInput → Type 0
AfterGet rb [] = (rb' : RingBuffer) × (rb_get rb ≡ some (1, none, rb')) × Waiting rb' []
AfterGet rb (e ∷ es) =
    (rb' : RingBuffer) × (rb_get rb ≡ some (0, some (event_bytes e), rb')) × Waiting rb' es

pub get-Waiting : (rb : RingBuffer) (es : List KeventInput) → Waiting rb es → AfterGet rb es
get-Waiting rb [] h =
    let (rb', returned, k) = rb_get-empty rb h.holds in
    (rb', returned, kept rb rb' [] [] [] h k refl tt)
get-Waiting rb (e ∷ es) h =
    let (rb', returned, k) = rb_get-first rb (event_bytes e) (map event_bytes es) h.holds in
    (rb', returned, kept rb rb' (map event_bytes es) (e ∷ es) es h k refl h.events.1)

-- `kinput` returns 1 on a full ring and 0 with the event behind those that wait.
abbrev pub AfterInput : RingBuffer → List KeventInput → KeventInput → Type 0
AfterInput rb es evt =
    ((rb' : RingBuffer) × (kinput rb evt ≡ some (1, rb')) × Waiting rb' es)
    ⊎ ((rb' : RingBuffer) × (kinput rb evt ≡ some (0, rb')) × Waiting rb' (es ++ (evt ∷ [])))

AreEvents-append :
    (es : List KeventInput) (evt : KeventInput)
    → AreEvents es
    → IsEvent evt
    → AreEvents (es ++ (evt ∷ []))
AreEvents-append [] evt h k = (k, tt)
AreEvents-append (e ∷ es) evt h k = (h.0, AreEvents-append es evt h.1 k)

module _ (rb : RingBuffer) (es : List KeventInput) (evt : KeventInput) (h : Waiting rb es)
    (k : IsEvent evt) where
  sized : length (event_bytes evt) ≡ rb.elem_size
  sized = length-event_bytes evt k ∙ sym h.sized

  behind :
      (rb' : RingBuffer)
      → Keeps rb rb' (map event_bytes es ++ (event_bytes evt ∷ []))
      → Waiting rb' (es ++ (evt ∷ []))
  behind rb' kept_ring =
      kept rb rb' (map event_bytes es ++ (event_bytes evt ∷ [])) es (es ++ (evt ∷ [])) h kept_ring
        (sym (map-append event_bytes es (evt ∷ []))) (AreEvents-append es evt h.events k)

  pub kinput-Waiting : AfterInput rb es evt
  unfolding kinput
  kinput-Waiting = elim (rb_put_cases rb (map event_bytes es) (event_bytes evt) h.holds sized) [
    | inl (rb', full, same) ↦
        inl (rb', full, kept rb rb' (map event_bytes es) es es h same refl h.events)
    | inr (rb', room, more) ↦ inr (rb', room, behind rb' more)
  ]

  -- With room for one more of the fifteen events, `kinput` accepts.
  pub kinput-room :
      length es < 15
      → (rb' : RingBuffer) × (kinput rb evt ≡ some (0, rb')) × Waiting rb' (es ++ (evt ∷ []))
  unfolding kinput
  kinput-room few =
      let (rb', room, more) =
        rb_put-room rb (map event_bytes es) (event_bytes evt) h.holds sized
          (omega (arith, few, h.slots, length-map es event_bytes)) in
      (rb', room, behind rb' more)

-- The ring that `kevent_init` makes of 192 bytes holds no event.
pub rb_init-Waiting :
    (bytes : List ℕ) → length bytes ≡ 192 → Waiting (rb_init bytes 16 sizeof_input) []
unfolding rb_init
rb_init-Waiting bytes h = record {
  holds = record {
    valid = record {
      small = omega arith;
      head_in = omega arith;
      tail_in = omega arith;
      fits = omega arith;
      addressable = omega arith;
    };
    segment = refl;
  };
  slots = refl;
  sized = refl;
  events = tt;
}
