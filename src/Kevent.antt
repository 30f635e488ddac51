-- ===== src/Kevent.antt =====
-- kernel/kevent.c and include/kernel/kevent.h: the queue of input events and its consumers.
-- A callback acts on the state `S` of the rest of the kernel, and does not call back into this part.
-- `consumers` is the first `con_idx` entries of the array, `none` for the null pointer; `max_consumers`
-- is below 256, so that `con_idx` does not wrap.
pub mod Key
pub mod Waiting
pub mod Delivery
mod Tests
use osdev.Prelude.{
  ℕ, zero, suc, ◌+◌, ◌*◌, ◌/◌, ◌%◌, ◌^◌, Bool, true, false, Option, none, some, List, [], ◌∷◌, ◌++◌,
  ◌==◌, leb, if◌then◌else◌, length, take, drop, get_or,
}
use osdev.RingBuffer.{RingBuffer, rb_init, rb_put, rb_get}

-- `kevent_itype_t`
abbrev pub kevent_key : ℕ
kevent_key = 0

abbrev pub kevent_char : ℕ
kevent_char = 1

-- `kevent_input_t`: the type, and the eight bytes of the union.
pub record KeventInput : Type 0 where
  pub itype : ℕ
  pub payload : List ℕ

-- `key.keycode`, `key.pressed` and `ch.character`.
abbrev pub key_keycode : KeventInput → ℕ
key_keycode evt = get_or evt.payload 0 0 + 256 * get_or evt.payload 1 0

abbrev pub key_pressed : KeventInput → Bool
key_pressed evt = leb 1 (get_or evt.payload 2 0)

abbrev pub ch_character : KeventInput → ℕ
ch_character evt = get_or evt.payload 0 0

-- The twelve bytes of an event in memory, and the event that such bytes are.
unfoldable pub event_bytes : KeventInput → List ℕ
event_bytes evt =
    (evt.itype % 256)
    ∷ (evt.itype / 2 ^ 8 % 256)
    ∷ (evt.itype / 2 ^ 16 % 256)
    ∷ (evt.itype / 2 ^ 24 % 256)
    ∷ evt.payload

unfoldable pub event_of : List ℕ → KeventInput
event_of bytes = record {
  itype =
      get_or bytes 0 0
      + 2 ^ 8 * get_or bytes 1 0
      + 2 ^ 16 * get_or bytes 2 0
      + 2 ^ 24 * get_or bytes 3 0;
  payload = drop 4 bytes;
}

pub record KeventConsumer (S : Type 0) : Type 0 where
  pub callback : KeventInput → S → S
  pub ctype : ℕ

pub record Kevents (S : Type 0) : Type 0 where
  pub kinput_rb : RingBuffer
  pub consumers : Option (List (KeventConsumer S))
  pub max_consumers : ℕ

abbrev pub buf_size : ℕ
buf_size = 16

abbrev pub sizeof_input : ℕ
sizeof_input = 12

unfoldable pub kinput : RingBuffer → KeventInput → Option (ℕ × RingBuffer)
kinput rb evt = rb_put rb (event_bytes evt)

pub data Turn : Type 0 where
  input : KeventInput → Turn
  loop : Turn

-- The events that were accepted, after one for which `kinput` returned r.
abbrev pub noted :
    {S : Type 0}
    → ℕ
    → KeventInput
    → Option (RingBuffer × S × List KeventInput)
    → Option (RingBuffer × S × List KeventInput)
noted r evt none = none
noted r evt (some (rb, w, accepted)) = some (rb, w, if r == 0 then evt ∷ accepted else accepted)

module _ {S : Type 0} where
  -- The arguments are what the two calls of `kmalloc` return: the bytes of the event buffer, and
  -- whether the array of consumers was allocated.
  unfoldable pub kevent_init : Option (List ℕ) → Bool → Kevents S → Kevents S
  kevent_init none array k = k
  kevent_init (some ibuf) false k = record k { max_consumers = 8; consumers = none }
  kevent_init (some ibuf) true k = record {
    kinput_rb = rb_init ibuf buf_size sizeof_input;
    consumers = some [];
    max_consumers = 8;
  }

  -- `none` is a write through the null pointer.
  unfoldable pub kevent_register : Kevents S → KeventConsumer S → Option (ℕ × Kevents S)
  kevent_register k consumer =
      if leb k.max_consumers (elim k.consumers [ none ↦ 0 | some cs ↦ length cs ])
      then some (1, k)
      else elim k.consumers [
        | none ↦ none
        | some cs ↦ some (0, record k { consumers = some (cs ++ (consumer ∷ [])) })
      ]

  -- The loop over the consumers, for one event.
  unfoldable pub dispatch : List (KeventConsumer S) → KeventInput → S → S
  dispatch [] evt w = w
  dispatch (c ∷ cs) evt w = dispatch cs evt (if c.ctype == evt.itype then c.callback evt w else w)

  -- The loop on `rb_get`, up to its first return of 1. `rb_get` writes an element where it
  -- returns 0. `none` is a fault or the end of the fuel.
  unfoldable pub kevent_drain :
      ℕ → List (KeventConsumer S) → RingBuffer → S → Option (RingBuffer × S)
  kevent_drain zero cs rb w = none
  kevent_drain (suc n) cs rb w = elim (rb_get rb) [
    | none ↦ none
    | some (r, none, rb') ↦ some (rb', w)
    | some (r, some bytes, rb') ↦ kevent_drain n cs rb' (dispatch cs (event_of bytes) w)
  ]

  -- What happens while the consumer thread runs: an interrupt hands over an event, or the thread
  -- goes once round its loop. Beside the state, the events that `kinput` accepted: it returned 0.
  unfoldable pub kevent_turns :
      List (KeventConsumer S)
      → List Turn
      → RingBuffer
      → S
      → Option (RingBuffer × S × List KeventInput)
  kevent_turns cs [] rb w = some (rb, w, [])
  kevent_turns cs (input evt ∷ ts) rb w = elim (kinput rb evt) [
    | none ↦ none
    | some (r, rb') ↦ noted r evt (kevent_turns cs ts rb' w)
  ]
  kevent_turns cs (loop ∷ ts) rb w = elim (rb_get rb) [
    | none ↦ none
    | some (r, none, rb') ↦ kevent_turns cs ts rb' w
    | some (r, some bytes, rb') ↦ kevent_turns cs ts rb' (dispatch cs (event_of bytes) w)
  ]
