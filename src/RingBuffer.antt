-- ===== src/RingBuffer.antt =====
-- lib/ringbuffer/ringbuffer.c and include/kernel/ringbuffer.h: a ring of elements of one size.
-- `size_t` is 32 bits wide. A division by a zero `size` is the fault `none`.
pub mod Slots
pub mod Segments
pub mod Queue
pub mod Refine
pub mod Client
mod Tests
use osdev.Prelude.{
  ℕ, zero, suc, ◌+◌, ◌*◌, ◌%◌, ◌^◌, Bool, true, false, Option, none, some, List, [], ◌∷◌, ◌==◌,
  if◌then◌else◌, get_or, set,
}

-- `ringbuffer_t`; `storage` is the bytes at `data`.
pub record RingBuffer : Type 0 where
  pub storage : List ℕ
  pub head : ℕ
  pub tail : ℕ
  pub size : ℕ
  pub elem_size : ℕ

-- `memcpy(&data[at], elem, n)` for an element of n bytes. A byte outside the storage is dropped.
unfoldable pub store_bytes : List ℕ → ℕ → List ℕ → List ℕ
store_bytes storage at [] = storage
store_bytes storage at (b ∷ bs) = store_bytes (set storage at b) (at + 1) bs

-- `memcpy(elem, &data[at], n)`.
unfoldable pub load_bytes : List ℕ → ℕ → ℕ → List ℕ
load_bytes storage at zero = []
load_bytes storage at (suc n) = get_or storage at 0 ∷ load_bytes storage (at + 1) n

unfoldable pub rb_init : List ℕ → ℕ → ℕ → RingBuffer
rb_init bytes size elem_size = record {
  storage = bytes;
  head = 0;
  tail = 0;
  size = size;
  elem_size = elem_size;
}

unfoldable pub rb_empty : RingBuffer → Bool
rb_empty rb = rb.head == rb.tail

-- `(i + 1) % size` over `size_t`.
abbrev pub next_index : RingBuffer → ℕ → ℕ
next_index rb i = (i + 1) % 2 ^ 32 % rb.size

-- `i * elem_size` over `size_t`.
abbrev pub byte_offset : RingBuffer → ℕ → ℕ
byte_offset rb i = (i * rb.elem_size) % 2 ^ 32

unfoldable pub rb_full : RingBuffer → Bool
rb_full rb = if rb.size == 0 then false else next_index rb rb.head == rb.tail

-- The result is the code's return value and the new ring. The element is `elem_size` bytes.
unfoldable pub rb_put : RingBuffer → List ℕ → Option (ℕ × RingBuffer)
unfolding rb_full
rb_put rb elem =
    if rb_full rb
    then some (1, rb)
    else let storage = store_bytes rb.storage (byte_offset rb rb.head) elem in
      if rb.size == 0
      then none
      else some (0, record rb { storage = storage; head = next_index rb rb.head })

-- Beside the return value, what is written through `elem`: `none` if nothing is.
unfoldable pub rb_get : RingBuffer → Option (ℕ × Option (List ℕ) × RingBuffer)
unfolding rb_empty
rb_get rb =
    if rb_empty rb
    then some (1, none, rb)
    else let elem = load_bytes rb.storage (byte_offset rb rb.tail) rb.elem_size in
      if rb.size == 0 then none else some (0, some elem, record rb { tail = next_index rb rb.tail })
