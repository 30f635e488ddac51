-- ===== src/RingBuffer/Queue.antt =====
-- What a ring promises: a first-in first-out queue of at most `cap` elements, and the calls that a
-- client makes, each with what it returns.
use osdev.Prelude.{ℕ, Option, none, some, List, [], ◌∷◌, ◌++◌, ◌==◌, if◌then◌else◌, length}

pub data Call : Type 0 where
  put : List ℕ → Call
  get : Call

-- The return value, and the element that a `get` hands over.
abbrev pub Reply : Type 0
Reply = ℕ × Option (List ℕ)

abbrev pub Queue : Type 0
Queue = List (List ℕ)

abbrev pub take_out : Queue → Reply × Queue
take_out [] = ((1, none), [])
take_out (e ∷ q) = ((0, some e), q)

abbrev pub call : ℕ → Queue → Call → Reply × Queue
call cap q (put e) = if length q == cap then ((1, none), q) else ((0, none), q ++ (e ∷ []))
call cap q get = take_out q

unfoldable pub replies : ℕ → Queue → List Call → List Reply
replies cap q [] = []
replies cap q (c ∷ cs) = let (r, q') = call cap q c in r ∷ replies cap q' cs
