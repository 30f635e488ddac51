-- ===== src/RingBuffer/Segments.antt =====
-- The elements in the slots of a ring from `tail` to `head`, and a slot more at the end.
use osdev.Prelude.{
  ℕ, ◌+◌, ◌-◌, ◌*◌, ◌^◌, ◌≤◌, ◌<◌, ◌≡◌, ◌≢◌, ◌⊎◌, inl, inr, List, [], ◌∷◌, ◌++◌, arith, leb,
  if◌then◌else◌, length, dec_lt, sym, ap, ◌∙◌, ℕ_discrete, ◌*◌,
}
use mathlib.Core.Path.{subst}
use native.Mathlib.Nat.{mod-eq_of_lt, mod_self}
use osdev.RingBuffer.{RingBuffer, store_bytes, load_bytes, next_index, byte_offset}
use osdev.RingBuffer.Slots.{
  length-store_bytes, load_bytes-store_bytes, load_bytes-store_bytes_apart,
}
use osdev.RingBuffer.Queue.{Queue}

-- The indices are in range, and every slot lies in the storage and below the wrap of `size_t`.
pub record IsValid (rb : RingBuffer) : Type 0 where
  pub small : rb.size < 2 ^ 32
  pub head_in : rb.head < rb.size
  pub tail_in : rb.tail < rb.size
  pub fits : rb.size * rb.elem_size ≤ length rb.storage
  pub addressable : length rb.storage ≤ 2 ^ 32

-- The slots from `t` up to `head`, going round, hold the elements of `q`.
abbrev pub Segment : RingBuffer → ℕ → Queue → Type 0
Segment rb t [] = t ≡ rb.head
Segment rb t (e ∷ q) =
    (t ≢ rb.head)
    × (load_bytes rb.storage (byte_offset rb t) rb.elem_size ≡ e)
    × Segment rb (next_index rb t) q

pub record Holds (rb : RingBuffer) (q : Queue) : Type 0 where
  pub valid : IsValid rb
  pub segment : Segment rb rb.tail q

-- How many steps lead from `t` to `h`, going round.
abbrev pub distance : ℕ → ℕ → ℕ → ℕ
distance size t h = if leb t h then h - t else h + size - t

pub next_index-lt :
    (rb : RingBuffer) (t : ℕ) → rb.size < 2 ^ 32 → t < rb.size → next_index rb t < rb.size
next_index-lt rb t s h = omega arith

pub next_index_cases :
    (rb : RingBuffer) (t : ℕ)
    → rb.size < 2 ^ 32
    → t < rb.size
    → ((t + 1 ≡ rb.size) × (next_index rb t ≡ 0)) ⊎ ((t + 1 < rb.size) × (next_index rb t ≡ t + 1))
next_index_cases rb t s h = elim (dec_lt (t + 1) rb.size) [
  | yes p ↦ inr (p, grind arith)
  | no p ↦ inl (omega arith, last (omega arith))
]
  where
    last : t + 1 ≡ rb.size → next_index rb t ≡ 0
    last e = rw (e, mod-eq_of_lt s, mod_self)

pub length-Segment :
    (rb : RingBuffer) (t : ℕ) (q : Queue)
    → IsValid rb
    → t < rb.size
    → Segment rb t q
    → length q ≡ distance rb.size t rb.head
length-Segment rb t [] v h s = ground arith
length-Segment rb t (e ∷ q) v h (apart, _, s) = ground (
  arith,
  next_index_cases rb t v.small h,
  length-Segment rb (next_index rb t) q v (next_index-lt rb t v.small h) s,
)

byte_offset_exact :
    (rb : RingBuffer) (i : ℕ)
    → IsValid rb
    → i < rb.size
    → rb.elem_size ≢ 0
    → byte_offset rb i ≡ i * rb.elem_size
byte_offset_exact rb i v h ne = mod-eq_of_lt (grind arith)

slot_fits :
    (rb : RingBuffer) (i : ℕ)
    → IsValid rb
    → i < rb.size
    → byte_offset rb i + rb.elem_size ≤ length rb.storage
slot_fits rb i v h = elim (ℕ_discrete rb.elem_size 0) [
  | yes z ↦ rw z (grind arith)
  | no ne ↦ rw (byte_offset_exact rb i v h ne) (grind arith)
]

product_step : (i j e : ℕ) → i < j → i * e + e ≤ j * e
product_step i j e h = grind arith

slots_apart :
    (rb : RingBuffer) (i j : ℕ)
    → IsValid rb
    → i < rb.size
    → j < rb.size
    → i ≢ j
    → (byte_offset rb j + rb.elem_size ≤ byte_offset rb i)
      ⊎ (byte_offset rb i + rb.elem_size ≤ byte_offset rb j)
slots_apart rb i j v hi hj ne = elim (ℕ_discrete rb.elem_size 0) [
  | yes z ↦ rw z (grind arith)
  | no nz ↦
      rw (byte_offset_exact rb i v hi nz, byte_offset_exact rb j v hj nz)
        (elim (dec_lt i j) [
          | yes p ↦ inr (product_step i j rb.elem_size p)
          | no p ↦ inl (product_step j i rb.elem_size (omega arith))
        ])
]

-- The ring after a `put` that finds room.
abbrev pub filled : RingBuffer → List ℕ → RingBuffer
filled rb e = record rb {
  storage = store_bytes rb.storage (byte_offset rb rb.head) e;
  head = next_index rb rb.head;
}

pub filled-IsValid : (rb : RingBuffer) (e : List ℕ) → IsValid rb → IsValid (filled rb e)
filled-IsValid rb e v = record {
  small = v.small;
  head_in = next_index-lt rb rb.head v.small v.head_in;
  tail_in = v.tail_in;
  fits = rw (length-store_bytes rb.storage (byte_offset rb rb.head) e) v.fits;
  addressable = rw (length-store_bytes rb.storage (byte_offset rb rb.head) e) v.addressable;
}

pub next_index_injective :
    (rb : RingBuffer) (i j : ℕ)
    → rb.size < 2 ^ 32
    → i < rb.size
    → j < rb.size
    → i ≢ j
    → next_index rb i ≢ next_index rb j
next_index_injective rb i j s hi hj ne =
    ground (arith, next_index_cases rb i s hi, next_index_cases rb j s hj)

pub Segment-filled :
    (rb : RingBuffer) (e : List ℕ) (t : ℕ) (q : Queue)
    → IsValid rb
    → t < rb.size
    → length e ≡ rb.elem_size
    → next_index rb rb.head ≢ t
    → Segment rb t q
    → Segment (filled rb e) t (q ++ (e ∷ []))
Segment-filled rb e t [] v h sized room s = (λ p. room (sym p), rw s written, ap (next_index rb) s)
  where
    fits : byte_offset rb rb.head + length e ≤ length rb.storage
    fits = rw sized (slot_fits rb rb.head v v.head_in)

    written :
        load_bytes
          (store_bytes rb.storage (byte_offset rb rb.head) e)
          (byte_offset rb rb.head)
          rb.elem_size
        ≡ e
    written =
        subst
          (λ n.
            load_bytes (store_bytes rb.storage (byte_offset rb rb.head) e) (byte_offset rb rb.head)
              n
            ≡ e)
          sized (load_bytes-store_bytes rb.storage (byte_offset rb rb.head) e fits)
Segment-filled rb e t (x ∷ q) v h sized room (apart, loaded, s) = (
  λ p. room (sym p),
  kept ∙ loaded,
  Segment-filled rb e (next_index rb t) q v (next_index-lt rb t v.small h) sized
      (next_index_injective rb rb.head t v.small v.head_in h (λ p. apart (sym p))) s,
)
  where
    kept :
        load_bytes
          (store_bytes rb.storage (byte_offset rb rb.head) e)
          (byte_offset rb t)
          rb.elem_size
        ≡ load_bytes rb.storage (byte_offset rb t) rb.elem_size
    kept =
        load_bytes-store_bytes_apart rb.storage (byte_offset rb rb.head) (byte_offset rb t)
          rb.elem_size e (rw sized (slots_apart rb rb.head t v v.head_in h (λ p. apart (sym p))))
