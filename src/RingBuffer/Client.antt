-- ===== src/RingBuffer/Client.antt =====
-- What `rb_get` and `rb_put` return on a ring in use, for the clients that call them.
use osdev.Prelude.{
  ℕ, ◌-◌, ◌+◌, ◌<◌, ◌≡◌, ap, ◌∙◌, inl, inr, false, Option, none, some, List, [], ◌∷◌, ◌++◌, arith,
  ◌==◌, length, Bool-cases, Option-cases, ◌⊎◌, subst,
}
use osdev.RingBuffer.{RingBuffer, rb_put, rb_get}
use osdev.RingBuffer.Queue.{put, get, Reply, Queue, call}
use osdev.RingBuffer.Segments.{Holds}
use osdev.RingBuffer.Refine.{ring_call, ring_call_refines}

-- The results, given the reply to the call.
got : Option (Reply × RingBuffer) → Option (ℕ × Option (List ℕ) × RingBuffer)
got none = none
got (some (r, rb)) = some (r.0, r.1, rb)

accepted_or_not : Option (Reply × RingBuffer) → Option (ℕ × RingBuffer)
accepted_or_not none = none
accepted_or_not (some (r, rb)) = some (r.0, rb)

rb_get-got : (rb : RingBuffer) → rb_get rb ≡ got (ring_call rb get)
unfolding got
rb_get-got rb = elim (Option-cases (rb_get rb)) [
  | inl p ↦ rw (ring_call, p)
  | inr (r, p) ↦ rw (ring_call, p)
]

rb_put-accepted :
    (rb : RingBuffer) (e : List ℕ) → rb_put rb e ≡ accepted_or_not (ring_call rb (put e))
unfolding accepted_or_not
rb_put-accepted rb e = elim (Option-cases (rb_put rb e)) [
  | inl p ↦ rw (ring_call, p)
  | inr (r, p) ↦ rw (ring_call, p)
]

-- A ring after a call: what it holds, with the sizes that it had.
pub record Keeps (rb rb' : RingBuffer) (q : Queue) : Type 0 where
  pub held : Holds rb' q
  pub same_size : rb'.size ≡ rb.size
  pub same_elem : rb'.elem_size ≡ rb.elem_size

-- A `get` hands over the first element that waits, or finds none.
pub rb_get-empty :
    (rb : RingBuffer)
    → Holds rb []
    → (rb' : RingBuffer) × (rb_get rb ≡ some (1, none, rb')) × Keeps rb rb' []
unfolding got
rb_get-empty rb h =
    let (rb', returned, held, same_size, same_elem) = ring_call_refines rb [] get h tt in
    (
      rb',
      rb_get-got rb ∙ ap got returned,
      record { held = held; same_size = same_size; same_elem = same_elem },
    )

pub rb_get-first :
    (rb : RingBuffer) (e : List ℕ) (q : Queue)
    → Holds rb (e ∷ q)
    → (rb' : RingBuffer) × (rb_get rb ≡ some (0, some e, rb')) × Keeps rb rb' q
unfolding got
rb_get-first rb e q h =
    let (rb', returned, held, same_size, same_elem) = ring_call_refines rb (e ∷ q) get h tt in
    (
      rb',
      rb_get-got rb ∙ ap got returned,
      record { held = held; same_size = same_size; same_elem = same_elem },
    )

call-put :
    (cap : ℕ) (q : Queue) (e : List ℕ)
    → (call cap q (put e) ≡ ((1, none), q)) ⊎ (call cap q (put e) ≡ ((0, none), q ++ (e ∷ [])))
call-put cap q e = elim (Bool-cases (length q == cap)) [
  | inl full ↦ inl (rw (call, full))
  | inr room ↦ inr (rw (call, room))
]

module _ (rb : RingBuffer) (q : Queue) (e : List ℕ) (h : Holds rb q)
    (sized : length e ≡ rb.elem_size) where
  -- What a `put` leaves, where the queue's reply to it is r.
  put_reply :
      (r : ℕ) (q' : Queue)
      → call (rb.size - 1) q (put e) ≡ ((r, none), q')
      → (rb' : RingBuffer) × (rb_put rb e ≡ some (r, rb')) × Keeps rb rb' q'
  unfolding accepted_or_not
  put_reply r q' answer =
      let (rb', returned, held, same_size, same_elem) = ring_call_refines rb q (put e) h sized in
      (
        rb',
        rb_put-accepted rb e ∙ ap accepted_or_not returned ∙ ap (λ c. some (c.0.0, rb')) answer,
        record {
          held = subst (λ c. Holds rb' c.1) answer held;
          same_size = same_size;
          same_elem = same_elem;
        },
      )

  -- A `put` returns 1 and changes no element, or 0 with the element behind those that wait.
  pub rb_put_cases :
      ((rb' : RingBuffer) × (rb_put rb e ≡ some (1, rb')) × Keeps rb rb' q)
      ⊎ ((rb' : RingBuffer) × (rb_put rb e ≡ some (0, rb')) × Keeps rb rb' (q ++ (e ∷ [])))
  rb_put_cases = elim (call-put (rb.size - 1) q e) [
    | inl full ↦ inl (put_reply 1 q full)
    | inr room ↦ inr (put_reply 0 (q ++ (e ∷ [])) room)
  ]

  -- It accepts where there is room for one more.
  pub rb_put-room :
      length q + 1 < rb.size
      → (rb' : RingBuffer) × (rb_put rb e ≡ some (0, rb')) × Keeps rb rb' (q ++ (e ∷ []))
  rb_put-room few = put_reply 0 (q ++ (e ∷ [])) (rw (call, not_full))
    where
      not_full : (length q == rb.size - 1) ≡ false
      not_full = ground (arith, few)
