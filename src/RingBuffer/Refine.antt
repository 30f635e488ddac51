-- ===== src/RingBuffer/Refine.antt =====
-- A ring in use behaves as the bounded queue of the elements in its slots from `tail` to `head`.
use osdev.Prelude.{
  ℕ, ◌-◌, ◌*◌, ◌^◌, ◌≤◌, ◌<◌, ◌≡◌, refl, ◌≢◌, inl, inr, true, false, Option, none, some, List, [],
  ◌∷◌, ◌++◌, arith, ◌==◌, Bool-cases, length, sym, ap, ◌∙◌, ◌*◌,
}
use mathlib.Core.Path.{subst}
use osdev.RingBuffer.{
  RingBuffer, load_bytes, next_index, byte_offset, rb_init, rb_empty, rb_full, rb_put, rb_get,
}
use osdev.RingBuffer.Segments.{
  IsValid, Holds, next_index-lt, next_index_cases, length-Segment, filled, filled-IsValid,
  Segment-filled,
}
use osdev.RingBuffer.Queue.{Call, put, get, Reply, Queue, call, replies}

full_iff : (rb : RingBuffer) (q : Queue) → Holds rb q → rb_full rb ≡ (length q == rb.size - 1)
unfolding rb_full
full_iff rb q h = ground (
  arith,
  h.valid.head_in,
  next_index_cases rb rb.head h.valid.small h.valid.head_in,
  length-Segment rb rb.tail q h.valid h.valid.tail_in h.segment,
)

nonempty : (rb : RingBuffer) → IsValid rb → (rb.size == 0) ≡ false
nonempty rb v = ground arith

-- What a call on the ring returns, and the ring after it.
abbrev pub ring_call : RingBuffer → Call → Option (Reply × RingBuffer)
ring_call rb (put e) = elim (rb_put rb e) [ none ↦ none | some (r, rb') ↦ some ((r, none), rb') ]
ring_call rb get = elim (rb_get rb) [ none ↦ none | some (r, e, rb') ↦ some ((r, e), rb') ]

-- A client hands over elements of the ring's element size.
abbrev pub IsSized : ℕ → Call → Type 0
IsSized size (put e) = length e ≡ size
IsSized size get = Unit

-- What a call leaves behind it: the reply of the queue, the ring in its new state, its sizes kept.
abbrev pub Follows : RingBuffer → Queue → Call → Type 0
Follows rb q c =
    (rb' : RingBuffer) × (ring_call rb c ≡ some ((call (rb.size - 1) q c).0, rb'))
    × Holds rb' (call (rb.size - 1) q c).1
    × (rb'.size ≡ rb.size)
    × (rb'.elem_size ≡ rb.elem_size)

put-full :
    (rb : RingBuffer) (e : List ℕ) → rb_full rb ≡ true → ring_call rb (put e) ≡ some ((1, none), rb)
unfolding rb_put
put-full rb e h = rw (ring_call, rb_put, h)

put-room :
    (rb : RingBuffer) (e : List ℕ)
    → IsValid rb
    → rb_full rb ≡ false
    → ring_call rb (put e) ≡ some ((0, none), filled rb e)
unfolding rb_put
put-room rb e v h = rw (ring_call, rb_put, h, nonempty rb v)

call-full :
    (cap : ℕ) (q : Queue) (e : List ℕ)
    → (length q == cap) ≡ true
    → call cap q (put e) ≡ ((1, none), q)
call-full cap q e h = rw (call, h)

call-room :
    (cap : ℕ) (q : Queue) (e : List ℕ)
    → (length q == cap) ≡ false
    → call cap q (put e) ≡ ((0, none), q ++ (e ∷ []))
call-room cap q e h = rw (call, h)

room-next : (rb : RingBuffer) → IsValid rb → rb_full rb ≡ false → next_index rb rb.head ≢ rb.tail
unfolding rb_full
room-next rb v h = ground (arith, nonempty rb v)

put_refines :
    (rb : RingBuffer) (q : Queue) (e : List ℕ)
    → Holds rb q
    → length e ≡ rb.elem_size
    → Follows rb q (put e)
put_refines rb q e h sized = elim (Bool-cases (rb_full rb)) [
  | inl full ↦
      let spec = call-full (rb.size - 1) q e (sym (full_iff rb q h) ∙ full) in
      (rb, put-full rb e full ∙ ap (λ c. some (c.0, rb)) (sym spec), rw spec h, refl, refl)
  | inr room ↦
      let spec = call-room (rb.size - 1) q e (sym (full_iff rb q h) ∙ room) in
      (
        filled rb e,
        put-room rb e h.valid room ∙ ap (λ c. some (c.0, filled rb e)) (sym spec),
        rw spec (record {
          valid = filled-IsValid rb e h.valid;
          segment =
              Segment-filled rb e rb.tail q h.valid h.valid.tail_in sized
                (room-next rb h.valid room) h.segment;
        }),
        refl,
        refl,
      )
]

abbrev drained : RingBuffer → RingBuffer
drained rb = record rb { tail = next_index rb rb.tail }

get-empty : (rb : RingBuffer) → rb.tail ≡ rb.head → ring_call rb get ≡ some ((1, none), rb)
unfolding rb_get rb_empty
get-empty rb h = rw (ring_call, rb_get, h) (ground arith)

get-waiting :
    (rb : RingBuffer)
    → IsValid rb
    → rb.tail ≢ rb.head
    → ring_call rb get
      ≡ some ((0, some (load_bytes rb.storage (byte_offset rb rb.tail) rb.elem_size)), drained rb)
unfolding rb_get rb_empty
get-waiting rb v h = rw (ring_call, rb_get, nonempty rb v, waiting)
  where
    waiting : (rb.head == rb.tail) ≡ false
    waiting = ground arith

get_refines : (rb : RingBuffer) (q : Queue) → Holds rb q → Follows rb q get
get_refines rb [] h = (rb, get-empty rb h.segment, h, refl, refl)
get_refines rb (e ∷ q) h = (
  drained rb,
  get-waiting rb h.valid h.segment.0 ∙ ap (λ b. some ((0, some b), drained rb)) h.segment.1,
  record { valid = moved; segment = h.segment.2 },
  refl,
  refl,
)
  where
    moved : IsValid (drained rb)
    moved = record {
      small = h.valid.small;
      head_in = h.valid.head_in;
      tail_in = next_index-lt rb rb.tail h.valid.small h.valid.tail_in;
      fits = h.valid.fits;
      addressable = h.valid.addressable;
    }

-- Every call on a ring in use, full and empty included, returns what the queue of at most
-- `size - 1` elements returns, and leaves the ring holding the queue's new contents.
pub ring_call_refines :
    (rb : RingBuffer) (q : Queue) (c : Call) → Holds rb q → IsSized rb.elem_size c → Follows rb q c
ring_call_refines rb q (put e) h sized = put_refines rb q e h sized
ring_call_refines rb q get h sized = get_refines rb q h

abbrev pub ring_replies : RingBuffer → List Call → Option (List Reply)
ring_replies rb [] = some []
ring_replies rb (c ∷ cs) = elim (ring_call rb c) [
  | none ↦ none
  | some (r, rb') ↦ elim (ring_replies rb' cs) [ none ↦ none | some rs ↦ some (r ∷ rs) ]
]

abbrev pub AllSized : ℕ → List Call → Type 0
AllSized size [] = Unit
AllSized size (c ∷ cs) = IsSized size c × AllSized size cs

-- No sequence of puts and gets on a ring in use faults, and its replies are those of the queue.
pub ring_replies-queue :
    (rb : RingBuffer) (q : Queue) (cs : List Call)
    → Holds rb q
    → AllSized rb.elem_size cs
    → ring_replies rb cs ≡ some (replies (rb.size - 1) q cs)
unfolding replies
ring_replies-queue rb q [] h sized = refl
ring_replies-queue rb q (c ∷ cs) h sized =
    let (rb', returned, held, same_size, same_elem) = ring_call_refines rb q c h sized.0 in
    let rest =
      ring_replies-queue rb' (call (rb.size - 1) q c).1 cs held
        (subst (λ n. AllSized n cs) (sym same_elem) sized.1) in
    rw (ring_replies, returned, rest, same_size)

-- From `rb_init` on storage of at least `size * elem_size` bytes and at most 2 ^ 32, with a size
-- above 0, no sequence of puts (of elements of the element size) and gets faults, and what the
-- calls return is what an empty first-in first-out queue of at most `size - 1` elements returns.
pub rb_init_refines :
    (storage : List ℕ) (size elem_size : ℕ) (cs : List Call)
    → 0 < size
    → size < 2 ^ 32
    → size * elem_size ≤ length storage
    → length storage ≤ 2 ^ 32
    → AllSized elem_size cs
    → ring_replies (rb_init storage size elem_size) cs ≡ some (replies (size - 1) [] cs)
unfolding rb_init
rb_init_refines storage size elem_size cs pos small fits addressable sized =
    ring_replies-queue (rb_init storage size elem_size) [] cs start sized
  where
    start : Holds (rb_init storage size elem_size) []
    start = record {
      valid = record {
        small = small;
        head_in = pos;
        tail_in = pos;
        fits = fits;
        addressable = addressable;
      };
      segment = refl;
    }
