-- ===== src/Kevent/Delivery.antt =====
-- Events reach the consumers in the order in which `kinput` accepted them.
use osdev.Prelude.{
  ℕ, zero, suc, ◌<◌, ◌≡◌, refl, sym, ap, ◌∙◌, inl, inr, some, List, [], ◌∷◌, ◌++◌, arith, length,
}
use mathlib.Core.List.{append_assoc, append-nil}
use osdev.RingBuffer.{RingBuffer}
use osdev.Kevent.{
  KeventInput, KeventConsumer, dispatch, kevent_drain, Turn, input, loop, kevent_turns,
}
use osdev.Kevent.Waiting.{IsEvent, Waiting, event_of-event_bytes, get-Waiting, kinput-Waiting}

abbrev pub AreTurns : List Turn → Type 0
AreTurns [] = Unit
AreTurns (input evt ∷ ts) = IsEvent evt × AreTurns ts
AreTurns (loop ∷ ts) = AreTurns ts

module _ {S : Type 0} where
  -- The events of a list, handed to the consumers one after another.
  abbrev pub dispatch_all : List (KeventConsumer S) → List KeventInput → S → S
  dispatch_all cs [] w = w
  dispatch_all cs (e ∷ es) w = dispatch_all cs es (dispatch cs e w)

  -- The loop of `kevent_proc` on a ring in which the events `es` wait ends without a fault where
  -- it may make one round more than there are events. Each consumer has then been called for
  -- each event of its type, in the order of the events, and nothing waits.
  pub kevent_drain-ends :
      (cs : List (KeventConsumer S)) (rb : RingBuffer) (es : List KeventInput) (w : S) (n : ℕ)
      → Waiting rb es
      → length es < n
      → (rb' : RingBuffer) × (kevent_drain n cs rb w ≡ some (rb', dispatch_all cs es w))
        × Waiting rb' []
  unfolding kevent_drain
  kevent_drain-ends cs rb es w zero h enough = absurd (omega arith)
  kevent_drain-ends cs rb [] w (suc n) h enough =
      let (rb', found, after) = get-Waiting rb [] h in (rb', rw (kevent_drain, found), after)
  kevent_drain-ends cs rb (e ∷ es) w (suc n) h enough =
      let (rb', found, after) = get-Waiting rb (e ∷ es) h in
      let (rb'', ended, empty) =
        kevent_drain-ends cs rb' es (dispatch cs e w) n after (omega arith) in
      (
        rb'',
        rw (kevent_drain, found)
            (ap (λ e. kevent_drain n cs rb' (dispatch cs e w)) (event_of-event_bytes e h.events.0)
              ∙ ended),
        empty,
      )

  abbrev pub Delivered :
      List (KeventConsumer S) → List Turn → RingBuffer → List KeventInput → S → Type 0
  Delivered cs ts rb es w =
      (rb' : RingBuffer) × (delivered waiting accepted : List KeventInput) × (kevent_turns cs ts rb
          w
        ≡ some (rb', dispatch_all cs delivered w, accepted))
      × (delivered ++ waiting ≡ es ++ accepted)
      × Waiting rb' waiting

  -- However interrupts and rounds of the consumer thread interleave, on a ring in which the events
  -- `es` wait and for events of a type below 2 ^ 32 and eight bytes, there is no fault, and the
  -- events that were delivered, in their order, followed by those that still wait are `es` followed
  -- by those that `kinput` accepted: none is lost, repeated or overtaken.
  pub kevent_turns-order :
      (cs : List (KeventConsumer S)) (ts : List Turn) (rb : RingBuffer) (es : List KeventInput)
      (w : S)
      → Waiting rb es
      → AreTurns ts
      → Delivered cs ts rb es w
  unfolding kevent_turns
  kevent_turns-order cs [] rb es w h k = (rb, [], es, [], refl, sym (append-nil es), h)
  kevent_turns-order cs (input evt ∷ ts) rb es w h k = elim (kinput-Waiting rb es evt h k.0) [
    | inl (rb', full, after) ↦
        let (rb'', delivered, waiting, accepted, ran, order, left) =
          kevent_turns-order cs ts rb' es w after k.1 in
        (rb'', delivered, waiting, accepted, rw (kevent_turns, full, ran), order, left)
    | inr (rb', room, after) ↦
        let (rb'', delivered, waiting, accepted, ran, order, left) =
          kevent_turns-order cs ts rb' (es ++ (evt ∷ [])) w after k.1 in
        (
          rb'',
          delivered,
          waiting,
          evt ∷ accepted,
          rw (kevent_turns, room, ran),
          order ∙ append_assoc es (evt ∷ []) accepted,
          left,
        )
  ]
  kevent_turns-order cs (loop ∷ ts) rb [] w h k =
      let (rb', found, after) = get-Waiting rb [] h in
      let (rb'', delivered, waiting, accepted, ran, order, left) =
        kevent_turns-order cs ts rb' [] w after k in
      (rb'', delivered, waiting, accepted, rw (kevent_turns, found, ran), order, left)
  kevent_turns-order cs (loop ∷ ts) rb (e ∷ es) w h k =
      let (rb', found, after) = get-Waiting rb (e ∷ es) h in
      let (rb'', delivered, waiting, accepted, ran, order, left) =
        kevent_turns-order cs ts rb' es (dispatch cs e w) after k in
      (
        rb'',
        e ∷ delivered,
        waiting,
        accepted,
        rw (kevent_turns, found)
            (ap (λ e. kevent_turns cs ts rb' (dispatch cs e w)) (event_of-event_bytes e h.events.0)
              ∙ ran),
        ap (λ l. e ∷ l) order,
        left,
      )
