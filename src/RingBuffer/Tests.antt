-- ===== src/RingBuffer/Tests.antt =====
-- A ring of two-byte elements in three slots, put and read round its end.
use osdev.Prelude.{ℕ, ◌≡◌, refl, some, none, List, [], ◌∷◌, arith}
use osdev.RingBuffer.{rb_init}
use osdev.RingBuffer.Queue.{Call, put, get, replies}
use osdev.RingBuffer.Refine.{ring_replies, rb_init_refines}

abbrev six_bytes : List ℕ
six_bytes = 9 ∷ 9 ∷ 9 ∷ 9 ∷ 9 ∷ 9 ∷ []

abbrev calls : List Call
calls =
    put (1 ∷ 2 ∷ [])
    ∷ put (3 ∷ 4 ∷ [])
    ∷ put (5 ∷ 6 ∷ [])
    ∷ get
    ∷ put (7 ∷ 8 ∷ [])
    ∷ get
    ∷ get
    ∷ get
    ∷ []

rb_init_refines_example :
    ring_replies (rb_init six_bytes 3 2) calls
    ≡ some (
        (0, none)
        ∷ (0, none)
        ∷ (1, none)
        ∷ (0, some (1 ∷ 2 ∷ []))
        ∷ (0, none)
        ∷ (0, some (3 ∷ 4 ∷ []))
        ∷ (0, some (7 ∷ 8 ∷ []))
        ∷ (1, none)
        ∷ [])
unfolding replies
rb_init_refines_example =
    rb_init_refines six_bytes 3 2 calls (omega arith) (omega arith) (omega arith) (omega arith)
      (refl, (refl, (refl, (tt, (refl, (tt, (tt, (tt, tt))))))))
